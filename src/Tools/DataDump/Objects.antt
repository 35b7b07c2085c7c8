-- ===== src/Tools/DataDump/Objects.antt =====
-- The query loops of dataDump.cpp with the objects that the converter makes of the rows. None of the
-- objects is deleted; `testQuery` logs fields of the object without a test for the null pointer.
pub mod Outcomes
pub mod Readings
pub mod Queries
use mathlib.Core.Option
use api_pack.Base.{ℕ, zero, suc, Bool, ◌||◌, Option, none, some, List, [], ◌∷◌, ◌==◌, if◌then◌else◌}
use api_pack.Base.Text.{Text, Decimal}
use api_pack.Datastore.Topics.{Topic, number, metamorphosis_station, metamorphosis_schedule_day}
use api_pack.Datastore.ScheduleDay.{Calendar}
use api_pack.Datastore.Libpq.{Libpq}
use api_pack.Datastore.Iterator.{DatastoreIterator, DataObject, next}
use api_pack.Datastore.Iterator.Fetching.{Seen, seen_object}
use api_pack.Datastore.Store.{
  Datastore, set_fetch_size, data_ids, data_dates, data_calendar, drop_pointer,
}
use api_pack.Datastore.ThriftConverter.{Thrift, Made, object, null, thrown, create_populated}

-- What a round does after the converter: it keeps an object, goes on without one, reads through the
-- null pointer, or is left by an exception.
pub data Converted (A : Type 0) : Type 0 where
  keeps : A → Converted A
  goes_on crashes escapes : Converted A

-- How a loop ends.
pub data Ending : Type 0 where
  finished crashed escaped : Ending

-- `testQuery` reads the object's fields.
unfoldable pub read_fields : {A : Type 0} → Made A → Converted A
read_fields (object x) = keeps x
read_fields null = crashes
read_fields thrown = escapes

-- The other two loops do not.
unfoldable pub ignore_fields : {A : Type 0} → Made A → Converted A
ignore_fields (object x) = keeps x
ignore_fields null = goes_on
ignore_fields thrown = escapes

module _ (thrift : Thrift) where
  -- The two topics that `testQuery` converts.
  unfoldable pub convert_row : Topic → Seen → Converted thrift.Object
  unfolding read_fields create_populated
  convert_row topic (size, bytes) =
      if number topic == number metamorphosis_station
        || number topic == number metamorphosis_schedule_day
      then read_fields (create_populated thrift topic bytes size)
      else goes_on

  unfoldable pub convert_schedule_day : Seen → Converted thrift.Object
  unfolding ignore_fields create_populated
  convert_schedule_day (size, bytes) =
      ignore_fields (create_populated thrift metamorphosis_schedule_day bytes size)

  module _ (lib : Libpq) (convert : Seen → Converted thrift.Object) where
    -- The iterator, how the loop ended and the objects, the first one first.
    abbrev pub Progress : Type 0
    Progress = DatastoreIterator lib × Ending × List thrift.Object

    add_object : thrift.Object → Progress → Progress
    add_object x (d, ending, objects) = (d, ending, x ∷ objects)

    convert_object :
        (DatastoreIterator lib → Option Progress)
        → DatastoreIterator lib
        → Converted thrift.Object
        → Option Progress
    unfolding add_object
    convert_object loop d (keeps x) = Option.map (add_object x) (loop d)
    convert_object loop d goes_on = loop d
    convert_object loop d crashes = some (d, crashed, [])
    convert_object loop d escapes = some (d, escaped, [])

    convert_round :
        (DatastoreIterator lib → Option Progress)
        → DatastoreIterator lib × Option DataObject
        → Option Progress
    unfolding convert_object
    convert_round loop (d, none) = some (d, finished, [])
    convert_round loop (d, some o) = convert_object loop d (convert (seen_object lib d o))

    -- The loop; `none` means that the fuel ran out.
    unfoldable pub convert_rows : ℕ → DatastoreIterator lib → Option Progress
    unfolding convert_round next
    convert_rows zero d = none
    convert_rows (suc fuel) d = convert_round (convert_rows fuel) (next lib d)

    -- The program ends where it crashes or nobody catches the exception; else the pointer is dropped.
    leave_query : Datastore lib → Progress → Datastore lib × Ending × List thrift.Object
    unfolding drop_pointer
    leave_query s (d, finished, objects) =
        (drop_pointer lib (record s { iter = d }), finished, objects)
    leave_query s (d, crashed, objects) = (record s { iter = d }, crashed, objects)
    leave_query s (d, escaped, objects) = (record s { iter = d }, escaped, objects)

    pub with_converter :
        ℕ → Datastore lib × Option ℕ → Option (Datastore lib × Ending × List thrift.Object)
    unfolding convert_rows leave_query
    with_converter fuel (s, none) = some (s, finished, [])
    with_converter fuel (s, some k) = Option.map (leave_query s) (convert_rows fuel s.iter)

  module _ (lib : Libpq) (p : Decimal) (fuel : ℕ) where
    abbrev Outcome : Type 0
    Outcome = Option (Datastore lib × Ending × List thrift.Object)

    unfoldable pub test_query : Datastore lib → List ℕ → Topic → Outcome
    unfolding with_converter set_fetch_size data_ids
    test_query s ids topic =
        with_converter lib (convert_row topic) fuel
          (data_ids lib p (set_fetch_size lib s 2) ids topic)

    unfoldable pub test_schedule_query : Datastore lib → List ℕ → Text → Text → Outcome
    unfolding with_converter set_fetch_size data_dates
    test_schedule_query s ids date_from date_to =
        with_converter lib convert_schedule_day fuel
          (data_dates lib p (set_fetch_size lib s 2) date_from date_to ids)

    unfoldable pub test_schedule_query2 :
        (c : Calendar) → Datastore lib → List ℕ → c.Date → c.Date → Outcome
    unfolding with_converter set_fetch_size data_calendar
    test_schedule_query2 c s ids date_from date_to =
        with_converter lib convert_schedule_day fuel
          (data_calendar lib p c (set_fetch_size lib s 2) date_from date_to ids)
