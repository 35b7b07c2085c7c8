-- ===== src/Datastore/Iterator/Refused.antt =====
-- The call of `next` of DatastoreIterator.cpp that follows a query that the server rejected.
use mathlib.Core.Path.{subst}
use api_pack.Base.{ℕ, ◌≡◌, refl, sym, ap, ◌∙◌, true, false, Option, none, some, List, ◌∷◌}
use api_pack.Base.Text.{Text, Decimal}
use api_pack.Datastore.Topics.{Topic}
use api_pack.Datastore.Query.{fetch_command, close_command}
use api_pack.Datastore.Libpq.{Libpq, PgResult, failed, is_tuples_ok, clear}
use api_pack.Datastore.Libpq.Rejection.{Rejection, Answers}
use api_pack.Datastore.Iterator.{
  DatastoreIterator, ready, close_in, close_and_reset, next, fetch, take_row, fetch_failed, pq_exec,
  needs_fetch,
}
use api_pack.Datastore.Iterator.Rejected.{Rejected}
use api_pack.Datastore.Iterator.Cases.{take_row_cases, next_cases}
use api_pack.Datastore.Iterator.Frame.{with_new}
use api_pack.Datastore.Iterator.Fetching.Refill.{pq_exec-some}
use api_pack.Datastore.Iterator.Fetching.Closing.{new_status}

module _ (lib : Libpq) (p : Decimal) (query : Text) (topic : Topic) (n : ℕ) (t : Text)
    (pg : Rejection lib query (fetch_command p n topic t) (close_command p topic t)) where
  -- After `next`: no row, the iterator still ready, and the failed result of the FETCH on the heap.
  pub record Refused (live : List (ℕ × PgResult)) (d : DatastoreIterator lib) : Type 0 where
    pub is_ready : d.state ≡ ready
    pub error : d.was_error ≡ true
    pub once : d.heap.double_free ≡ false
    pub answer : PgResult
    pub address : ℕ
    pub on_heap : d.heap.live ≡ (address, answer) ∷ live
    pub conn : lib.Conn
    pub connected : d.connection ≡ some conn
    pub idle : pg.Idle conn

  -- Closing a ready iterator changes nothing.
  pub close-Refused :
      (live : List (ℕ × PgResult)) (d : DatastoreIterator lib)
      → Refused live d
      → Refused live (close_and_reset lib d)
  unfolding close_and_reset close_in
  close-Refused live d r =
      subst (λ st. Refused live (record (close_in lib st d) { state = ready })) (sym r.is_ready)
        (record {
          is_ready = refl;
          error = r.error;
          once = r.once;
          answer = r.answer;
          address = r.address;
          on_heap = r.on_heap;
          conn = r.conn;
          connected = r.connected;
          idle = r.idle;
        })

  take_row-Refused :
      (live : List (ℕ × PgResult)) (d : DatastoreIterator lib) (c : lib.Conn) (r : PgResult)
      → d.state ≡ ready
      → d.heap.double_free ≡ false
      → d.heap.live ≡ live
      → r.status ≡ failed
      → pg.Idle c
      → let x = take_row lib (record (with_new lib d c r) { result = some d.heap.fresh }) in
        (x.1 ≡ none) × Refused live x.0
  unfolding fetch_failed
  take_row-Refused live d c r is_ready once on_heap status idle =
      let y : DatastoreIterator lib = record (with_new lib d c r) { result = some d.heap.fresh } in
      take_row_cases lib (λ x. (x.1 ≡ none) × Refused live x.0) y
        (λ _. (
          refl,
          close-Refused live _ (record {
            is_ready = is_ready;
            error = refl;
            once = once;
            answer = r;
            address = d.heap.fresh;
            on_heap = ap (◌∷◌ (d.heap.fresh, r)) on_heap;
            conn = c;
            connected = refl;
            idle = idle;
          }),
        ))
        (λ e. cc (ap is_tuples_ok (new_status lib d c r ∙ status)))
        (λ e. cc (ap is_tuples_ok (new_status lib d c r ∙ status)))

  pub next-Refused :
      (live : List (ℕ × PgResult)) (d : DatastoreIterator lib)
      → Rejected lib p query topic n t pg live d
      → ((next lib d).1 ≡ none) × Refused live (next lib d).0
  unfolding fetch needs_fetch
  next-Refused live d rejected =
      let (r, answers, status, idle) =
        subst (λ text. Answers lib rejected.conn text failed pg.Idle) (sym rejected.fetches)
          (pg.fetch_fails rejected.conn rejected.idle) in
      let d' : DatastoreIterator lib = record d { result_offset = 0 } in
      next_cases lib (λ x. (x.1 ≡ none) × Refused live x.0) d
        (λ _.
          subst (λ x. ((take_row lib x).1 ≡ none) × Refused live (take_row lib x).0)
            (sym (
              ap
                (λ k.
                  (let (y, j) = pq_exec lib (record d' { heap = clear d.heap k }) d.fetch_text in
                    record y { result = j }))
                rejected.no_result
              ∙ ap (λ (x : DatastoreIterator lib × Option ℕ). record (x.0) { result = x.1 })
                  (pq_exec-some lib d' rejected.conn d.fetch_text r rejected.connected answers)))
            (take_row-Refused live d' (lib.exec rejected.conn d.fetch_text).0 r rejected.is_ready
              rejected.once rejected.on_heap status idle))
        (λ e. cc (ap (λ k. needs_fetch lib k d) rejected.no_result))
