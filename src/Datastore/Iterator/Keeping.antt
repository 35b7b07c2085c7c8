-- ===== src/Datastore/Iterator/Keeping.antt =====
-- What survives all operations of DatastoreIterator.cpp: a fact that survives the writes to the
-- fields of the iterator and `setError()`.
use api_pack.Base.{ℕ, zero, suc, ◌≡◌, Option, none, some, if_intro}
use api_pack.Base.Text.{Text, Decimal, codes}
use api_pack.Datastore.Topics.{Topic}
use api_pack.Datastore.Libpq.{Libpq, PgResult, ExecStatus, clear, command_ok, tuples_ok, failed}
use api_pack.Datastore.Iterator.{
  DatastoreIterator, DataObject, State, ready, open_cursor, is_valid, pq_exec, exec_on, run_on,
  exec_and_clear, check_and_clear, note_failure, free, close_cursor, drop_result, close_in,
  close_and_reset, fetch, take_row, fetch_failed, exhausted, yield_row, next, query_failed,
  declare_cursor, set_cursor, begin_failed, begin_done, forget_result, execute_query, set_error,
}
use api_pack.Datastore.Iterator.Cases.{
  take_row_cases, next_cases, check_query_cases, check_begin_cases,
}

-- A client that calls `next` some times.
unfoldable pub nexts : (lib : Libpq) → ℕ → DatastoreIterator lib → DatastoreIterator lib
nexts lib zero d = d
nexts lib (suc n) d = nexts lib n (next lib d).0

-- The fields that the operations write to, but for the connection, the heap and the error flag.
abbrev pub written :
    {lib : Libpq}
    → DatastoreIterator lib
    → Text
    → Text
    → Text
    → Option ℕ
    → State
    → ℕ
    → DatastoreIterator lib
written d error fetch_text close_text result state offset = record d {
  error = error;
  fetch_text = fetch_text;
  close_text = close_text;
  result = result;
  state = state;
  result_offset = offset;
}

-- A fact that survives each write, an answer of the server, `PQclear` and `setError()`.
pub record Keeps (lib : Libpq) (P : DatastoreIterator lib → Type 0) : Type 0 where
  pub write :
      (d : DatastoreIterator lib) (error fetch_text close_text : Text) (result : Option ℕ)
      (state : State) (offset : ℕ)
      → P d
      → P (written d error fetch_text close_text result state offset)
  pub answer :
      (d : DatastoreIterator lib) (c : lib.Conn) (r : Option PgResult)
      → P d
      → P (run_on lib d (c, r)).0
  pub freed :
      (d : DatastoreIterator lib) (k : Option ℕ) → P d → P (record d { heap = clear d.heap k })
  pub note : (d : DatastoreIterator lib) → P d → P (set_error lib d)

module _ (lib : Libpq) (P : DatastoreIterator lib → Type 0) (keeps : Keeps lib P) where
  open keeps use {write, answer, freed, note}

  exec_on_keeps :
      (d : DatastoreIterator lib) (c : Option lib.Conn) (command : Text)
      → P d
      → P (exec_on lib d c command).0
  unfolding exec_on
  exec_on_keeps d none command h = h
  exec_on_keeps d (some c) command h = answer d (lib.exec c command).0 (lib.exec c command).1 h

  pub pq_exec_keeps :
      (d : DatastoreIterator lib) (command : Text) → P d → P (pq_exec lib d command).0
  unfolding pq_exec
  pq_exec_keeps d command h = exec_on_keeps d d.connection command h

  note_failure_keeps : (d : DatastoreIterator lib) (s : ExecStatus) → P d → P (note_failure lib d s)
  unfolding note_failure
  note_failure_keeps d command_ok h = h
  note_failure_keeps d tuples_ok h = note d h
  note_failure_keeps d failed h = note d h

  exec_and_clear_keeps :
      (d : DatastoreIterator lib) (command : Text) → P d → P (exec_and_clear lib d command)
  unfolding exec_and_clear check_and_clear free
  exec_and_clear_keeps d command h =
      freed _ _ (note_failure_keeps (pq_exec lib d command).0 _ (pq_exec_keeps d command h))

  pub close_cursor_keeps : (d : DatastoreIterator lib) → P d → P (close_cursor lib d)
  unfolding close_cursor
  close_cursor_keeps d h =
      if_intro P (is_valid lib d) _ d
        (λ _. exec_and_clear_keeps _ (codes "END") (exec_and_clear_keeps d d.close_text h)) (λ _. h)

  close_in_keeps : (s : State) (d : DatastoreIterator lib) → P d → P (close_in lib s d)
  unfolding close_in drop_result
  close_in_keeps ready d h = h
  close_in_keeps open_cursor d h =
      close_cursor_keeps (drop_result lib d) (write _ _ _ _ _ _ _ (freed d _ h))

  pub close_and_reset_keeps : (d : DatastoreIterator lib) → P d → P (close_and_reset lib d)
  unfolding close_and_reset
  close_and_reset_keeps d h = write _ _ _ _ _ _ _ (close_in_keeps d.state d h)

  abbrev FirstP : DatastoreIterator lib × Option DataObject → Type 0
  FirstP x = P x.0

  pub take_row_keeps : (d : DatastoreIterator lib) → P d → P (take_row lib d).0
  unfolding fetch_failed exhausted yield_row
  take_row_keeps d h =
      take_row_cases lib FirstP d (λ _. close_and_reset_keeps _ (note _ (write d _ _ _ _ _ _ h)))
        (λ _ _. close_and_reset_keeps d h) (λ _ _. write d _ _ _ _ _ _ h)

  fetch_keeps : (d : DatastoreIterator lib) → P d → P (fetch lib d)
  unfolding fetch
  fetch_keeps d h =
      write _ _ _ _ _ _ _ (pq_exec_keeps _ d.fetch_text (write _ _ _ _ _ _ _ (freed d _ h)))

  pub next_keeps : (d : DatastoreIterator lib) → P d → P (next lib d).0
  next_keeps d h =
      next_cases lib FirstP d (λ _. take_row_keeps (fetch lib d) (fetch_keeps d h))
        (λ _. take_row_keeps d h)

  pub execute_query_keeps :
      (p : Decimal) (d : DatastoreIterator lib) (query : Text) (topic : Topic) (n : ℕ)
      → P d
      → P (execute_query lib p d query topic n)
  unfolding execute_query forget_result declare_cursor set_cursor begin_done begin_failed
      query_failed
  execute_query_keeps p d query topic n h =
      let x = pq_exec lib (forget_result lib d) (codes "BEGIN") in
      let hx = pq_exec_keeps (forget_result lib d) (codes "BEGIN") (write d _ _ _ _ _ _ h) in
      let d' = set_cursor lib p (begin_done lib x.0 x.1) topic n in
      let y = pq_exec lib d' query in
      let hy = pq_exec_keeps d' query (write _ _ _ _ _ _ _ (freed x.0 _ hx)) in
      check_begin_cases lib P p x.0 x.1 query topic n
        (λ _.
          check_query_cases lib P y.0 y.1 query (λ _. hy)
            (λ _. close_and_reset_keeps _ (note _ (write _ _ _ _ _ _ _ (freed y.0 _ hy)))))
        (λ _. note _ (write _ _ _ _ _ _ _ (freed x.0 _ hx)))

  -- Several calls of `next`.
  pub nexts_keeps : (n : ℕ) (d : DatastoreIterator lib) → P d → P (nexts lib n d)
  unfolding nexts
  nexts_keeps zero d h = h
  nexts_keeps (suc n) d h = nexts_keeps n (next lib d).0 (next_keeps d h)

module _ (lib : Libpq) (t : Text) where
  -- No operation changes the name of the thread.
  abbrev pub OnThread : DatastoreIterator lib → Type 0
  OnThread d = d.thread_id ≡ t

  pub keeps_thread : Keeps lib OnThread
  unfolding run_on
  keeps_thread = record {
    write = λ _ _ _ _ _ _ _ h. h;
    answer = λ _ _ _ h. h;
    freed = λ _ _ h. h;
    note = λ _ h. h;
  }
