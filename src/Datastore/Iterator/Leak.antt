-- ===== src/Datastore/Iterator/Leak.antt =====
-- The results that `executeQuery` of DatastoreIterator.cpp leaves on the heap.
use mathlib.Core.Path.{subst}
use api_pack.Base.{
  ℕ, ◌≡◌, ◌⊎◌, refl, sym, ap, ◌∙◌, true, false, Option, none, some, List, ◌∷◌, inl, inr,
}
use api_pack.Base.Text.{Text, Decimal, codes}
use api_pack.Datastore.Topics.{Topic}
use api_pack.Datastore.Libpq.{Libpq, PgResult, deref, is_command_ok}
use api_pack.Datastore.Iterator.{
  DatastoreIterator, State, ready, open_cursor, pq_exec, exec_on, run_on, close_in, close_and_reset,
  drop_result, declare_cursor, check_query, query_failed, begin_failed, begin_done, forget_result,
  execute_query, set_cursor,
}
use api_pack.Datastore.Iterator.Frame.{Kept, close_cursor-kept}
use api_pack.Datastore.Iterator.Cases.{status_of, check_query_cases, check_begin_cases}
use api_pack.Datastore.Iterator.Memory.{Top, clear-Top, Owns, close_and_reset-Owns}

module _ (lib : Libpq) where
  -- What a command changes: the new result, which may be null, is on top of the heap.
  pub record Ran (d : DatastoreIterator lib) (x : DatastoreIterator lib × Option ℕ) : Type 0 where
    pub result : x.0.result ≡ d.result
    pub state : x.0.state ≡ d.state
    pub once : x.0.heap.double_free ≡ d.heap.double_free
    pub top : Top x.1 x.0.heap.live d.heap.live

  run_on-Ran :
      (d : DatastoreIterator lib) (c : lib.Conn) (r : Option PgResult) → Ran d (run_on lib d (c, r))
  unfolding run_on
  run_on-Ran d c none = record { result = refl; state = refl; once = refl; top = refl }
  run_on-Ran d c (some r) = record { result = refl; state = refl; once = refl; top = (r, refl) }

  exec_on-Ran :
      (d : DatastoreIterator lib) (c : Option lib.Conn) (command : Text)
      → Ran d (exec_on lib d c command)
  unfolding exec_on
  exec_on-Ran d none command = record { result = refl; state = refl; once = refl; top = refl }
  exec_on-Ran d (some c) command = run_on-Ran d (lib.exec c command).0 (lib.exec c command).1

  pub pq_exec-Ran : (d : DatastoreIterator lib) (command : Text) → Ran d (pq_exec lib d command)
  unfolding pq_exec
  pq_exec-Ran d command = exec_on-Ran d d.connection command

  -- The iterator has no current result; the heap holds `rest`, and one more result if a cursor is
  -- open.
  pub record Queried (rest : List (ℕ × PgResult)) (d : DatastoreIterator lib) : Type 0 where
    pub no_result : d.result ≡ none
    pub once : d.heap.double_free ≡ false
    pub leak :
        ((d.state ≡ ready) × (d.heap.live ≡ rest))
        ⊎ ((d.state ≡ open_cursor) × ((k : ℕ) × (r : PgResult) × (d.heap.live ≡ (k, r) ∷ rest)))

  close_in-result :
      (s : State) (d : DatastoreIterator lib) → d.result ≡ none → (close_in lib s d).result ≡ none
  unfolding close_in drop_result
  close_in-result ready d e = e
  close_in-result open_cursor d e =
      ap (λ (x : Kept). x.result) (close_cursor-kept lib (drop_result lib d))

  closed-Queried :
      (d : DatastoreIterator lib) (rest : List (ℕ × PgResult))
      → d.result ≡ none
      → d.heap.double_free ≡ false
      → d.heap.live ≡ rest
      → Queried rest (close_and_reset lib d)
  closed-Queried d rest none_now once live = record {
    no_result = bare;
    once = owned.once;
    leak = inl (
      unfold close_and_reset in refl,
      subst (λ k. Top k (close_and_reset lib d).heap.live rest) bare owned.top,
    );
  }
    where
      bare : (close_and_reset lib d).result ≡ none
      bare = unfold close_and_reset in close_in-result d.state d none_now

      owned : Owns lib (close_and_reset lib d) rest
      owned =
          close_and_reset-Owns lib d rest
            (record { once = once; top = subst (λ k. Top k d.heap.live rest) (sym none_now) live })

  query_failed-Queried :
      (d : DatastoreIterator lib) (k : Option ℕ) (query : Text) (rest : List (ℕ × PgResult))
      → d.result ≡ none
      → d.heap.double_free ≡ false
      → Top k d.heap.live rest
      → Queried rest (query_failed lib d k query)
  unfolding query_failed
  query_failed-Queried d k query rest no_result once top =
      let (live, once') = clear-Top lib k d.heap rest once top in
      closed-Queried _ rest no_result once' live

  -- A query that fails frees its result; one that succeeds does not.
  check_query-Queried :
      (d : DatastoreIterator lib) (k : Option ℕ) (query : Text) (rest : List (ℕ × PgResult))
      → d.result ≡ none
      → d.state ≡ open_cursor
      → d.heap.double_free ≡ false
      → Top k d.heap.live rest
      → Queried rest (check_query lib (d, k) query)
  check_query-Queried d none query rest no_result opened once top =
      check_query_cases lib (Queried rest) d none query (λ e. absurd (no_null_ok d e))
        (λ _. query_failed-Queried d none query rest no_result once top)
    where
      no_null_ok : (d : DatastoreIterator lib) → is_command_ok (status_of lib d none) ≡ true → ⊥
      no_null_ok d e = unfold deref in cc
  check_query-Queried d (some k) query rest no_result opened once top =
      check_query_cases lib (Queried rest) d (some k) query
        (λ _. record { no_result = no_result; once = once; leak = inr (opened, (k, top.0, top.1)) })
        (λ _. query_failed-Queried d (some k) query rest no_result once top)

  declare_cursor-Queried :
      (p : Decimal) (d : DatastoreIterator lib) (query : Text) (topic : Topic) (n : ℕ)
      (rest : List (ℕ × PgResult))
      → d.result ≡ none
      → d.heap.double_free ≡ false
      → d.heap.live ≡ rest
      → Queried rest (declare_cursor lib p d query topic n)
  unfolding declare_cursor set_cursor
  declare_cursor-Queried p d query topic n rest no_result once live =
      let x = pq_exec lib (set_cursor lib p d topic n) query in
      let ran = pq_exec-Ran (set_cursor lib p d topic n) query in
      check_query-Queried x.0 x.1 query rest (ran.result ∙ no_result) ran.state (ran.once ∙ once)
        (subst (Top x.1 x.0.heap.live) live ran.top)

  -- `executeQuery` on a ready iterator frees nothing twice and forgets the current result. If it
  -- fails, the iterator is ready again and the heap is as before; if it succeeds, a cursor is open
  -- and one result (that of the query) is left on the heap with no pointer to it.
  pub execute_query-Queried :
      (p : Decimal) (d : DatastoreIterator lib) (query : Text) (topic : Topic) (n : ℕ)
      → d.state ≡ ready
      → d.heap.double_free ≡ false
      → Queried d.heap.live (execute_query lib p d query topic n)
  unfolding execute_query forget_result begin_failed begin_done
  execute_query-Queried p d query topic n is_ready once =
      let x = pq_exec lib (forget_result lib d) (codes "BEGIN") in
      let ran = pq_exec-Ran (forget_result lib d) (codes "BEGIN") in
      let (live, once') = clear-Top lib x.1 x.0.heap d.heap.live (ran.once ∙ once) ran.top in
      check_begin_cases lib (Queried d.heap.live) p x.0 x.1 query topic n
        (λ _.
          declare_cursor-Queried p (begin_done lib x.0 x.1) query topic n d.heap.live ran.result
            once' live)
        (λ _. record {
          no_result = ran.result;
          once = once';
          leak = inl (ran.state ∙ is_ready, live);
        })
