-- ===== src/Tools/DataDump/Schedules.antt =====
-- The rows that `testScheduleQuery` and `testScheduleQuery2` of dataDump.cpp read if no round ends
-- the program: the schedule days of some stations.
use api_pack.Base.{ℕ, ◌<◌, ◌≡◌, refl, sym, ap, false, true, Option, some, List, length}
use api_pack.Base.Text.{Text, Decimal, codes}
use api_pack.Datastore.Topics.{metamorphosis_schedule_day}
use api_pack.Datastore.ScheduleDay.{Calendar}
use api_pack.Datastore.Query.{dates_query, calendar_query, fetch_command, close_command}
use api_pack.Datastore.Libpq.{Libpq, PgResult, command_ok}
use api_pack.Datastore.Libpq.Cursor.{Cursor}
use api_pack.Datastore.Iterator.{
  DatastoreIterator, ready, execute_query, execute_dates, execute_calendar,
}
use api_pack.Datastore.Store.{Datastore, data_dates, data_calendar, set_fetch_size}
use api_pack.Tools.DataDump.{test_schedule_query, test_schedule_query2}
use api_pack.Tools.DataDump.Complete.{Dumped, loop-Dumped}

module _ (lib : Libpq) (p : Decimal) (s : Datastore lib) (ids : List ℕ) (query : Text)
    (c : lib.Conn) (b r : PgResult)
    (cursor : Cursor lib
      (fetch_command p 2 metamorphosis_schedule_day s.iter.thread_id)
      (close_command p metamorphosis_schedule_day s.iter.thread_id)
      2)
    (rows : List (Option Text)) (fuel : ℕ) (st : s.iter.state ≡ ready)
    (once : s.iter.heap.double_free ≡ false) (ref : s.tracked.reference ≡ 0)
    (cr : s.tracked.creator ≡ true) (e : s.iter.connection ≡ some c)
    (hb : (lib.exec c (codes "BEGIN")).1 ≡ some b) (sb : b.status ≡ command_ok)
    (hr : (lib.exec (lib.exec c (codes "BEGIN")).0 query).1 ≡ some r) (sr : r.status ≡ command_ok)
    (at : cursor.At (lib.exec (lib.exec c (codes "BEGIN")).0 query).0 rows)
    (enough : length rows < fuel) where
  abbrev run_query : Text → DatastoreIterator lib
  run_query q =
      execute_query lib p (record (s.iter) { query_text = q }) q metamorphosis_schedule_day 2

  -- With a ready store without references, a connection on which BEGIN and the query of the
  -- stations' days between the two dates succeed, and a cursor that keeps PostgreSQL's promises at
  -- `rows`, `testScheduleQuery` ends within one round more than there are rows. It reads all the
  -- rows, in order and once each, notes no error, and leaves the store ready and without
  -- references; one result (that of the query) stays allocated.
  pub test_schedule_query-Dumped :
      (date_from date_to : Text)
      → query ≡ dates_query p date_from date_to ids s.iter.thread_id
      → Dumped lib p cursor.Finished s r rows
          (test_schedule_query lib p fuel s ids date_from date_to)
  unfolding test_schedule_query data_dates execute_dates set_fetch_size
  test_schedule_query-Dumped date_from date_to same =
      loop-Dumped lib p s (λ d. execute_dates lib p d date_from date_to ids 2) query
        metamorphosis_schedule_day c b r s.iter.thread_id cursor rows fuel refl
        (ap run_query (sym same)) st once ref cr e hb sb hr sr at enough

  -- The same of `testScheduleQuery2`, whose dates are boost's.
  pub test_schedule_query2-Dumped :
      (days : Calendar) (date_from date_to : days.Date)
      → query ≡ calendar_query p days date_from date_to ids s.iter.thread_id
      → Dumped lib p cursor.Finished s r rows
          (test_schedule_query2 lib p fuel days s ids date_from date_to)
  unfolding test_schedule_query2 data_calendar execute_calendar set_fetch_size
  test_schedule_query2-Dumped days date_from date_to same =
      loop-Dumped lib p s (λ d. execute_calendar lib p days d date_from date_to ids 2) query
        metamorphosis_schedule_day c b r s.iter.thread_id cursor rows fuel refl
        (ap run_query (sym same)) st once ref cr e hb sb hr sr at enough
