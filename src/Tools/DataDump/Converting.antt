-- ===== src/Tools/DataDump/Converting.antt =====
-- `main` of dataDump.cpp with the objects that the converter makes: a query that crashes, or that an
-- exception leaves, ends the program.
pub mod Outcome
use mathlib.Core.Option
use api_pack.Base.{ℕ, Option, none, some, List, [], ◌∷◌, if◌then◌else◌}
use api_pack.Base.Text.{Decimal, codes}
use api_pack.Datastore.Topics.{metamorphosis_station, metamorphosis_schedule_day}
use api_pack.Datastore.ScheduleDay.{Calendar}
use api_pack.Datastore.Libpq.{Libpq}
use api_pack.Datastore.Store
use api_pack.Datastore.Store.{Datastore, destruct_store}
use api_pack.Datastore.ThriftConverter.{Thrift}
use api_pack.Tools.DataDump.Objects.{
  Ending, finished, crashed, escaped, test_query, test_schedule_query,
}
use api_pack.Tools.DataDump.Main.{ids, ids2, ids4}

module _ (thrift : Thrift) (lib : Libpq) (p : Decimal) (c : Calendar) (fuel : ℕ) where
  -- One query, and the program so far: the store, how it ended, and the objects of each query, the
  -- last query first.
  abbrev pub Queried : Type 0
  Queried = Datastore lib × Ending × List thrift.Object

  abbrev pub Dump : Type 0
  Dump = Datastore lib × Ending × List (List thrift.Object)

  unfoldable pub add_objects : List (List thrift.Object) → Queried → Dump
  add_objects seen (s, ending, objects) = (s, ending, objects ∷ seen)

  -- The next query, unless the program has ended.
  unfoldable pub then_query : (Datastore lib → Option Queried) → Dump → Option Dump
  unfolding add_objects
  then_query query (s, finished, seen) = Option.map (add_objects seen) (query s)
  then_query query (s, crashed, seen) = some (s, crashed, seen)
  then_query query (s, escaped, seen) = some (s, escaped, seen)

  unfoldable pub and_then_query : (Datastore lib → Option Queried) → Option Dump → Option Dump
  unfolding then_query
  and_then_query query none = none
  and_then_query query (some x) = then_query query x

  unfoldable pub dump_stations : Datastore lib → Option Queried
  unfolding test_query
  dump_stations s = test_query thrift lib p fuel s ids metamorphosis_station

  -- `if(store->isConnected())`; a query that is left out makes no objects.
  unfoldable pub dump_schedule_days : Datastore lib → Option Queried
  unfolding test_query
  dump_schedule_days s =
      if Store.is_connected lib s
      then test_query thrift lib p fuel s (ids2 lib p c fuel) metamorphosis_schedule_day
      else some (s, finished, [])

  unfoldable pub dump_dates : Datastore lib → Option Queried
  unfolding test_schedule_query
  dump_dates s =
      test_schedule_query thrift lib p fuel s ids4 (codes "2015-01-08") (codes "2019-05-12")

  unfoldable pub end_program : Dump → Dump
  unfolding destruct_store
  end_program (s, finished, seen) = (destruct_store lib s, finished, seen)
  end_program (s, crashed, seen) = (s, crashed, seen)
  end_program (s, escaped, seen) = (s, escaped, seen)

  unfoldable pub main_dump : Datastore lib → Option Dump
  unfolding and_then_query dump_stations dump_schedule_days dump_dates end_program
  main_dump s = Option.map end_program (
      and_then_query dump_dates
        (and_then_query dump_schedule_days (and_then_query dump_stations (some (s, finished, [])))))
