-- ===== src/Datastore/Iterator/Rejected.antt =====
-- `executeQuery` of DatastoreIterator.cpp when the server rejects the query, and the call of `next`
-- that follows.
use mathlib.Core.Path.{subst}
use api_pack.Base.{ℕ, ◌+◌, ◌≡◌, refl, sym, ap, ◌∙◌, true, false, none, some, List, if◌then◌else◌}
use api_pack.Base.Text.{Text, Decimal, codes}
use api_pack.Datastore.Topics.{Topic}
use api_pack.Datastore.Query.{fetch_command, close_command}
use api_pack.Datastore.Libpq.{
  Libpq, PgResult, ExecStatus, command_ok, tuples_ok, failed, is_command_ok, clear,
}
use api_pack.Datastore.Libpq.Rejection.{Rejection, Answers}
use api_pack.Datastore.Iterator.{
  DatastoreIterator, ready, open_cursor, exec_and_clear, check_and_clear, note_failure, free,
  close_cursor, close_in, close_and_reset, drop_result, query_failed, execute_query, declare_cursor,
  set_cursor, forget_result, check_begin, check_query, is_some_conn,
}
use api_pack.Datastore.Iterator.Cases.{check_query_cases}
use api_pack.Datastore.Iterator.Executing.{check_begin_ok}
use api_pack.Datastore.Iterator.Frame.{with_new, clear_new}
use api_pack.Datastore.Iterator.Fetching.Refill.{pq_exec-some}
use api_pack.Datastore.Iterator.Fetching.Closing.{after_command, new_status}

module _ (lib : Libpq) where
  -- An iterator whose error flag is set.
  abbrev flagged : DatastoreIterator lib → Text → DatastoreIterator lib
  flagged d message = record d { error = message; was_error = true }

  note_flagged :
      (d : DatastoreIterator lib) (s : ExecStatus)
      → note_failure lib (record d { was_error = true }) s ≡ record d { was_error = true }
  unfolding note_failure
  note_flagged d command_ok = refl
  note_flagged d tuples_ok = refl
  note_flagged d failed = refl

  -- With the flag set, a command changes the connection only, whatever its status.
  exec_flagged :
      (d : DatastoreIterator lib) (c : lib.Conn) (command : Text) (r : PgResult)
      → d.connection ≡ some c
      → (lib.exec c command).1 ≡ some r
      → exec_and_clear lib (record d { was_error = true }) command
        ≡ record (after_command lib d (lib.exec c command).0) { was_error = true }
  unfolding exec_and_clear check_and_clear free
  exec_flagged d c command r e h =
      let x : DatastoreIterator lib = record d { was_error = true } in
      ap (check_and_clear lib) (pq_exec-some lib x c command r e h)
      ∙ ap (λ y. free lib y (some d.heap.fresh))
          (note_flagged (with_new lib d (lib.exec c command).0 r) _)
      ∙ ap (λ k. record (with_new lib x (lib.exec c command).0 r) { heap = k })
          (clear_new d.heap r _ _)

  -- `closeAndReset` of an open iterator without a result and with the flag set.
  close_flagged :
      (d : DatastoreIterator lib) (c : lib.Conn) (r s : PgResult)
      → d.state ≡ open_cursor
      → d.result ≡ none
      → d.connection ≡ some c
      → (lib.exec c d.close_text).1 ≡ some r
      → (lib.exec (lib.exec c d.close_text).0 (codes "END")).1 ≡ some s
      → close_and_reset lib (record d { was_error = true }) ≡ record d {
        was_error = true;
        state = ready;
        result = none;
        connection = some (lib.exec (lib.exec c d.close_text).0 (codes "END")).0;
        heap = record (d.heap) { fresh = d.heap.fresh + 1 + 1 };
      }
  unfolding close_and_reset close_in drop_result close_cursor
  close_flagged d c r s opened no_result e h h' =
      let c' = (lib.exec c d.close_text).0 in
      let x : DatastoreIterator lib = record d { result = none } in
      ap (λ st. record (close_in lib st (record d { was_error = true })) { state = ready }) opened
      ∙ ap
          (λ k.
            record (close_cursor lib
              (record d { heap = clear d.heap k; result = none; was_error = true })) {
                state = ready;
              })
          no_result
      ∙ ap
          (λ k.
            record (if is_some_conn lib k
              then exec_and_clear lib
                  (exec_and_clear lib (record x { was_error = true }) d.close_text) (codes "END")
              else record x { was_error = true }) { state = ready })
          e
      ∙ ap (λ y. record (exec_and_clear lib y (codes "END")) { state = ready })
          (exec_flagged x c d.close_text r e h)
      ∙ ap {A = DatastoreIterator lib} (λ y. record y { state = ready })
          (exec_flagged (after_command lib x c') c' (codes "END") s refl h')

module _ (lib : Libpq) (p : Decimal) (query : Text) (topic : Topic) (n : ℕ) (t : Text)
    (pg : Rejection lib query (fetch_command p n topic t) (close_command p topic t)) where
  -- The iterator after a query that was rejected: ready, with the flag set, outside a transaction.
  pub record Rejected (live : List (ℕ × PgResult)) (d : DatastoreIterator lib) : Type 0 where
    pub is_ready : d.state ≡ ready
    pub error : d.was_error ≡ true
    pub on_heap : d.heap.live ≡ live
    pub once : d.heap.double_free ≡ false
    pub no_result : d.result ≡ none
    pub conn : lib.Conn
    pub connected : d.connection ≡ some conn
    pub idle : pg.Idle conn
    pub fetches : d.fetch_text ≡ fetch_command p n topic t

  rejects :
      (d : DatastoreIterator lib) (c : lib.Conn) (r : PgResult)
      → r.status ≡ failed
      → check_query lib (with_new lib d c r, some d.heap.fresh) query
        ≡ query_failed lib (with_new lib d c r) (some d.heap.fresh) query
  rejects d c r s =
      check_query_cases lib
        (λ x. x ≡ query_failed lib (with_new lib d c r) (some d.heap.fresh) query)
        (with_new lib d c r) (some d.heap.fresh) query
        (λ e. cc (ap is_command_ok (new_status lib d c r ∙ s))) (λ _. refl)

  failing_with :
      (d : DatastoreIterator lib) (c : lib.Conn) (r : PgResult) (message : Text)
      → d.state ≡ open_cursor
      → d.result ≡ none
      → d.heap.double_free ≡ false
      → d.fetch_text ≡ fetch_command p n topic t
      → d.close_text ≡ close_command p topic t
      → pg.Aborted c
      → Rejected d.heap.live (
          close_and_reset lib (record (with_new lib d c r) {
            error = message;
            was_error = true;
            heap = clear (with_new lib d c r).heap (some d.heap.fresh);
          }))
  failing_with d c r message opened no_result once fetches closes aborted =
      let (r', close_answers, close_status, still) =
        subst (λ text. Answers lib c text failed pg.Aborted) (sym closes)
          (pg.close_fails c aborted) in
      let (s, end_answers, end_status, idle) = pg.end_ok (lib.exec c d.close_text).0 still in
      let x : DatastoreIterator lib = record (after_command lib d c) { error = message } in
      subst (Rejected d.heap.live)
        (sym (
          ap
            (λ h.
              close_and_reset lib
                (record (with_new lib d c r) { error = message; was_error = true; heap = h }))
            (clear_new d.heap r (d.heap.fresh + 1) d.heap.double_free)
          ∙ close_flagged lib x c r' s opened no_result refl close_answers end_answers))
        (record {
          is_ready = refl;
          error = refl;
          on_heap = refl;
          once = once;
          no_result = refl;
          conn = (lib.exec (lib.exec c d.close_text).0 (codes "END")).0;
          connected = refl;
          idle = idle;
          fetches = fetches;
        })

  -- `executeQuery` of a query that the server rejects frees all that it allocated.
  pub execute_query-Rejected :
      (d : DatastoreIterator lib) (c : lib.Conn)
      → d.heap.double_free ≡ false
      → d.thread_id ≡ t
      → d.connection ≡ some c
      → pg.Idle c
      → Rejected d.heap.live (execute_query lib p d query topic n)
  unfolding execute_query forget_result declare_cursor set_cursor query_failed
  execute_query-Rejected d c once on e idle =
      let (b, begins, fine, begun) = pg.begin_ok c idle in
      let c₁ = (lib.exec c (codes "BEGIN")).0 in
      let (r, answers, refused, aborted) = pg.query_fails c₁ begun in
      let d₁ : DatastoreIterator lib = record d { result_offset = 0; result = none } in
      let d₂ : DatastoreIterator lib = set_cursor lib p (after_command lib d₁ c₁) topic n in
      subst (Rejected d.heap.live)
        (sym (
          ap (λ x. check_begin lib p x query topic n)
            (pq_exec-some lib d₁ c (codes "BEGIN") b e begins)
          ∙ check_begin_ok lib p d₁ c₁ b query topic n fine
          ∙ ap (λ x. check_query lib x query) (pq_exec-some lib d₂ c₁ query r refl answers)
          ∙ rejects d₂ (lib.exec c₁ query).0 r refused))
        (failing_with d₂ (lib.exec c₁ query).0 r _ refl refl once (ap (fetch_command p n topic) on)
          (ap (close_command p topic) on) aborted)
