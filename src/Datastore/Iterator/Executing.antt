-- ===== src/Datastore/Iterator/Executing.antt =====
-- `executeQuery` of DatastoreIterator.cpp when BEGIN and the query succeed.
use api_pack.Base.{ℕ, ◌+◌, ◌≡◌, refl, ap, ◌∙◌, none, some, ◌∷◌}
use api_pack.Base.Text.{Text, Decimal, codes}
use api_pack.Datastore.Topics.{Topic}
use api_pack.Datastore.Query.{fetch_command, close_command}
use api_pack.Datastore.Libpq.{Libpq, PgResult, command_ok, is_command_ok}
use api_pack.Datastore.Iterator.{
  DatastoreIterator, open_cursor, execute_query, check_begin, begin_done, declare_cursor,
  check_query, set_cursor, forget_result,
}
use api_pack.Datastore.Iterator.Cases.{check_begin_cases, check_query_cases}
use api_pack.Datastore.Iterator.Frame.{with_new, clear_new}
use api_pack.Datastore.Iterator.Fetching.Refill.{pq_exec-some}
use api_pack.Datastore.Iterator.Fetching.Closing.{after_command, new_status}

module _ (lib : Libpq) (p : Decimal) where
  pub check_begin_ok :
      (d : DatastoreIterator lib) (c : lib.Conn) (r : PgResult) (query : Text) (topic : Topic)
      (n : ℕ)
      → r.status ≡ command_ok
      → check_begin lib p (with_new lib d c r, some d.heap.fresh) query topic n
        ≡ declare_cursor lib p (after_command lib d c) query topic n
  unfolding begin_done
  check_begin_ok d c r query topic n s =
      check_begin_cases lib (λ x. x ≡ declare_cursor lib p (after_command lib d c) query topic n) p
        (with_new lib d c r) (some d.heap.fresh) query topic n
        (λ _.
          ap (λ h. declare_cursor lib p (record (with_new lib d c r) { heap = h }) query topic n)
            (clear_new d.heap r _ _))
        (λ e. cc (ap is_command_ok (new_status lib d c r ∙ s)))

  check_query_ok :
      (d : DatastoreIterator lib) (c : lib.Conn) (r : PgResult) (query : Text)
      → r.status ≡ command_ok
      → check_query lib (with_new lib d c r, some d.heap.fresh) query ≡ with_new lib d c r
  check_query_ok d c r query s =
      check_query_cases lib (λ x. x ≡ with_new lib d c r) (with_new lib d c r) (some d.heap.fresh)
        query (λ _. refl) (λ e. cc (ap is_command_ok (new_status lib d c r ∙ s)))

  -- The state in which a successful `executeQuery` leaves the iterator; `r` is the leaked result.
  abbrev pub executed :
      DatastoreIterator lib → lib.Conn → PgResult → Topic → ℕ → DatastoreIterator lib
  executed d c r topic n = record d {
    result_offset = 0;
    result = none;
    state = open_cursor;
    fetch_text = fetch_command p n topic d.thread_id;
    close_text = close_command p topic d.thread_id;
    connection = some c;
    heap = record {
      fresh = d.heap.fresh + 1 + 1;
      live = (d.heap.fresh + 1, r) ∷ d.heap.live;
      double_free = d.heap.double_free;
    };
  }

  pub execute_query_ok :
      (d : DatastoreIterator lib) (c : lib.Conn) (query : Text) (topic : Topic) (n : ℕ)
      (b r : PgResult)
      → d.connection ≡ some c
      → (lib.exec c (codes "BEGIN")).1 ≡ some b
      → b.status ≡ command_ok
      → (lib.exec (lib.exec c (codes "BEGIN")).0 query).1 ≡ some r
      → r.status ≡ command_ok
      → execute_query lib p d query topic n
        ≡ executed d (lib.exec (lib.exec c (codes "BEGIN")).0 query).0 r topic n
  unfolding execute_query forget_result declare_cursor set_cursor
  execute_query_ok d c query topic n b r e hb sb hr sr =
      let d₁ : DatastoreIterator lib = record d { result_offset = 0; result = none } in
      let c₁ = (lib.exec c (codes "BEGIN")).0 in
      let d₂ = set_cursor lib p (after_command lib d₁ c₁) topic n in
      ap (λ x. check_begin lib p x query topic n) (pq_exec-some lib d₁ c (codes "BEGIN") b e hb)
      ∙ check_begin_ok d₁ c₁ b query topic n sb
      ∙ ap (λ x. check_query lib x query) (pq_exec-some lib d₂ c₁ query r refl hr)
      ∙ check_query_ok d₂ (lib.exec c₁ query).0 r query sr
