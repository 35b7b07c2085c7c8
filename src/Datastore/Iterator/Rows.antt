-- ===== src/Datastore/Iterator/Rows.antt =====
-- `next` and `closeAndReset` of DatastoreIterator.cpp.
use api_pack.Base.{ℕ, ◌+◌, Bool, true, not, Option, none, some, ◌++◌, ◌==◌, length, if◌then◌else◌}
use api_pack.Base.Text.{Text, codes}
use api_pack.Datastore.Libpq.{Libpq, clear, deref, result_status, n_tuples, is_tuples_ok, column}
use api_pack.Datastore.Iterator.Commands.{
  State, DataObject, new_object, DatastoreIterator, set_error, is_valid, pq_exec, exec_and_clear,
  ready, open_cursor,
}

module _ (lib : Libpq) where
  open lib use {error_message}

  -- `if(mResult!=nullptr) { PQclear(mResult); mResult=nullptr; }`
  unfoldable pub drop_result : DatastoreIterator lib → DatastoreIterator lib
  unfolding clear
  drop_result d = record d { heap = clear d.heap d.result; result = none }

  unfoldable pub close_cursor : DatastoreIterator lib → DatastoreIterator lib
  unfolding exec_and_clear
  close_cursor d =
      if is_valid lib d
      then exec_and_clear lib (exec_and_clear lib d d.close_text) (codes "END")
      else d

  unfoldable pub close_in : State → DatastoreIterator lib → DatastoreIterator lib
  unfolding drop_result close_cursor
  close_in ready d = d
  close_in open_cursor d = close_cursor (drop_result d)

  unfoldable pub close_and_reset : DatastoreIterator lib → DatastoreIterator lib
  unfolding close_in
  close_and_reset d = record (close_in d.state d) { state = ready }

  -- The first `if` of `next`: fetch when there is no result or its rows are used up.
  unfoldable pub needs_fetch : Option ℕ → DatastoreIterator lib → Bool
  unfolding deref
  needs_fetch none d = true
  needs_fetch (some k) d = d.result_offset == n_tuples (deref d.heap (some k))

  unfoldable pub fetch : DatastoreIterator lib → DatastoreIterator lib
  unfolding clear pq_exec
  fetch d =
      let d' = record d { heap = clear d.heap d.result; result_offset = 0 } in
      let (d'', k) = pq_exec lib d' d'.fetch_text in record d'' { result = k }

  -- `new DataObject()` and what `next` puts in it: nothing for SQL's null.
  unfoldable pub object_of : Option ℕ → ℕ → Option (Option Text) → DataObject
  object_of (some k) i (some (some bytes)) = record {
    size_in_bytes = length bytes;
    thrift_object = some (k, i);
  }
  object_of _ _ _ = new_object

  fetch_error : Text → Text
  fetch_error message = codes "Error fetching results : " ++ (message ++ codes " ")

  -- The three ways in which `next` ends: the fetch failed, no row is left, or there is a row.
  unfoldable pub fetch_failed : DatastoreIterator lib → DatastoreIterator lib × Option DataObject
  unfolding close_and_reset fetch_error
  fetch_failed d = (
    close_and_reset (set_error lib (record d { error = fetch_error (error_message d.connection) })),
    none,
  )

  unfoldable pub exhausted : DatastoreIterator lib → DatastoreIterator lib × Option DataObject
  unfolding close_and_reset
  exhausted d = (close_and_reset d, none)

  unfoldable pub yield_row : DatastoreIterator lib → DatastoreIterator lib × Option DataObject
  unfolding deref object_of
  yield_row d = (
    record d { result_offset = d.result_offset + 1 },
    some (object_of d.result d.result_offset (column (deref d.heap d.result) d.result_offset)),
  )

  -- The second part of `next`, on the state after the fetch.
  unfoldable pub take_row : DatastoreIterator lib → DatastoreIterator lib × Option DataObject
  unfolding deref
  take_row d =
      let r = deref d.heap d.result in
      if not (is_tuples_ok (result_status r))
      then fetch_failed d
      else (if n_tuples r == 0 then exhausted d else yield_row d)

  unfoldable pub next : DatastoreIterator lib → DatastoreIterator lib × Option DataObject
  unfolding needs_fetch fetch take_row
  next d = take_row (if needs_fetch d.result d then fetch d else d)
