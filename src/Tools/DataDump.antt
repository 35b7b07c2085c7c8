-- ===== src/Tools/DataDump.antt =====
-- source/tools/dataDump/dataDump.cpp. The query loops, with the converter, are in Objects.antt. Here
-- are only auxiliary functions for the proofs: they list what a loop would read from its iterator if
-- no round ended it, without the converter, at which a round of the code may crash or throw.
mod Tests
pub mod Rows
pub mod Complete
pub mod Schedules
pub mod Rejected
pub mod Objects
pub mod Main
pub mod Converting
use mathlib.Core.Option
use api_pack.Base.{ℕ, zero, suc, Option, none, some, List, [], ◌∷◌}
use api_pack.Base.Text.{Text, Decimal}
use api_pack.Datastore.Topics.{Topic}
use api_pack.Datastore.ScheduleDay.{Calendar}
use api_pack.Datastore.Libpq.{Libpq}
use api_pack.Datastore.Iterator.{DatastoreIterator, DataObject, next}
use api_pack.Datastore.Iterator.Fetching.{Seen, seen_object}
use api_pack.Datastore.Store.{
  Datastore, set_fetch_size, data_ids, data_dates, data_calendar, drop_pointer,
}

module _ (lib : Libpq) where
  -- One round of `while((data=iter->next())!=nullptr)`, with the rounds that follow.
  round :
      (DatastoreIterator lib → Option (DatastoreIterator lib × List Seen))
      → DatastoreIterator lib × Option DataObject
      → Option (DatastoreIterator lib × List Seen)
  round loop (d, none) = some (d, [])
  round loop (d, some o) =
      Option.map (λ (x : DatastoreIterator lib × List Seen). (x.0, seen_object lib d o ∷ x.1))
        (loop d)

  -- The loop; `none` means that the fuel ran out.
  unfoldable pub drain : ℕ → DatastoreIterator lib → Option (DatastoreIterator lib × List Seen)
  unfolding round next
  drain zero d = none
  drain (suc fuel) d = round (drain fuel) (next lib d)

  -- From `data` on: nothing to do with a null pointer; else the loop, and the pointer is dropped.
  pub with_iterator : ℕ → Datastore lib × Option ℕ → Option (Datastore lib × List Seen)
  unfolding drain drop_pointer
  with_iterator fuel (s, none) = some (s, [])
  with_iterator fuel (s, some k) =
      Option.map
        (λ (x : DatastoreIterator lib × List Seen).
          (drop_pointer lib (record s { iter = x.0 }), x.1))
        (drain fuel s.iter)

  module _ (p : Decimal) (fuel : ℕ) where
    unfoldable pub test_query : Datastore lib → List ℕ → Topic → Option (Datastore lib × List Seen)
    unfolding with_iterator set_fetch_size data_ids
    test_query s ids topic = with_iterator fuel (data_ids lib p (set_fetch_size lib s 2) ids topic)

    unfoldable pub test_schedule_query :
        Datastore lib → List ℕ → Text → Text → Option (Datastore lib × List Seen)
    unfolding with_iterator set_fetch_size data_dates
    test_schedule_query s ids date_from date_to =
        with_iterator fuel (data_dates lib p (set_fetch_size lib s 2) date_from date_to ids)

    unfoldable pub test_schedule_query2 :
        (c : Calendar)
        → Datastore lib
        → List ℕ
        → c.Date
        → c.Date
        → Option (Datastore lib × List Seen)
    unfolding with_iterator set_fetch_size data_calendar
    test_schedule_query2 c s ids date_from date_to =
        with_iterator fuel (data_calendar lib p c (set_fetch_size lib s 2) date_from date_to ids)
