-- ===== src/Datastore/Iterator/Queries.antt =====
-- The four `executeQuery` of DatastoreIterator.cpp.
use api_pack.Base.{ℕ, Option, none, List, ◌++◌, if◌then◌else◌}
use api_pack.Base.Text.{Text, Decimal, codes}
use api_pack.Datastore.Topics.{Topic, to_char, metamorphosis_schedule_day}
use api_pack.Datastore.ScheduleDay.{Calendar}
use api_pack.Datastore.Query.{fetch_command, close_command, ids_query, dates_query, calendar_query}
use api_pack.Datastore.Libpq.{Libpq, clear, deref, result_status, is_command_ok}
use api_pack.Datastore.Iterator.Commands.{DatastoreIterator, set_error, pq_exec, open_cursor}
use api_pack.Datastore.Iterator.Rows.{close_and_reset}

module _ (lib : Libpq) where
  open lib use {error_message}

  begin_error : Text → Text → Text
  begin_error topic message =
      codes "Error executing query for topic : "
      ++ (topic ++ (codes " : BEGIN command failed " ++ message))

  -- `sformat` has one place for the two arguments that it is given.
  query_error : Text → Text
  query_error query = codes "Error executing query " ++ (query ++ codes " :  ")

  unfoldable pub query_failed : DatastoreIterator lib → Option ℕ → Text → DatastoreIterator lib
  unfolding clear close_and_reset query_error
  query_failed d k query =
      close_and_reset lib
        (set_error lib (record d { error = query_error query; heap = clear d.heap k }))

  -- The result of a query that succeeds is not freed.
  unfoldable pub check_query : DatastoreIterator lib × Option ℕ → Text → DatastoreIterator lib
  unfolding deref query_failed
  check_query (d, k) query =
      if is_command_ok (result_status (deref d.heap k)) then d else query_failed d k query

  -- `mState = State::Open` and the commands of the cursor.
  unfoldable pub set_cursor : Decimal → DatastoreIterator lib → Topic → ℕ → DatastoreIterator lib
  set_cursor p d topic fetch_size = record d {
    state = open_cursor;
    fetch_text = fetch_command p fetch_size topic d.thread_id;
    close_text = close_command p topic d.thread_id;
  }

  -- What follows a successful BEGIN.
  unfoldable pub declare_cursor :
      Decimal → DatastoreIterator lib → Text → Topic → ℕ → DatastoreIterator lib
  unfolding pq_exec check_query set_cursor
  declare_cursor p d query topic fetch_size =
      check_query (pq_exec lib (set_cursor p d topic fetch_size) query) query

  unfoldable pub begin_failed : DatastoreIterator lib → Option ℕ → Topic → DatastoreIterator lib
  unfolding clear begin_error
  begin_failed d k topic = set_error lib (record d {
    error = begin_error (to_char topic) (error_message d.connection);
    heap = clear d.heap k;
  })

  unfoldable pub begin_done : DatastoreIterator lib → Option ℕ → DatastoreIterator lib
  unfolding clear
  begin_done d k = record d { heap = clear d.heap k }

  unfoldable pub check_begin :
      Decimal → DatastoreIterator lib × Option ℕ → Text → Topic → ℕ → DatastoreIterator lib
  unfolding deref declare_cursor begin_failed begin_done
  check_begin p (d, k) query topic fetch_size =
      if is_command_ok (result_status (deref d.heap k))
      then declare_cursor p (begin_done d k) query topic fetch_size
      else begin_failed d k topic

  -- `mResultOffset = 0; mResult = nullptr;`: the current result is forgotten, not freed.
  unfoldable pub forget_result : DatastoreIterator lib → DatastoreIterator lib
  forget_result d = record d { result_offset = 0; result = none }

  -- `executeQuery(query, topic, fetchSize)`.
  unfoldable pub execute_query :
      Decimal → DatastoreIterator lib → Text → Topic → ℕ → DatastoreIterator lib
  unfolding pq_exec check_begin forget_result
  execute_query p d query topic fetch_size =
      check_begin p (pq_exec lib (forget_result d) (codes "BEGIN")) query topic fetch_size

  -- `executeQuery` of ids, of dates that are text and of dates of boost.
  unfoldable pub execute_ids :
      Decimal → DatastoreIterator lib → List ℕ → Topic → ℕ → DatastoreIterator lib
  unfolding execute_query
  execute_ids p d ids topic fetch_size =
      let q = ids_query p ids topic d.thread_id in
      execute_query p (record d { query_text = q }) q topic fetch_size

  unfoldable pub execute_dates :
      Decimal → DatastoreIterator lib → Text → Text → List ℕ → ℕ → DatastoreIterator lib
  unfolding execute_query
  execute_dates p d date_from date_to stations fetch_size =
      let q = dates_query p date_from date_to stations d.thread_id in
      execute_query p (record d { query_text = q }) q metamorphosis_schedule_day fetch_size

  unfoldable pub execute_calendar :
      Decimal
      → (c : Calendar) → DatastoreIterator lib
      → c.Date
      → c.Date
      → List ℕ
      → ℕ
      → DatastoreIterator lib
  unfolding execute_query
  execute_calendar p c d date_from date_to stations fetch_size =
      let q = calendar_query p c date_from date_to stations d.thread_id in
      execute_query p (record d { query_text = q }) q metamorphosis_schedule_day fetch_size
