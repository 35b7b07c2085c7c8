-- ===== src/Datastore/Iterator/Lifetime.antt =====
-- How long the bytes of a `DataObject` of DatastoreIterator.cpp can be read: the object points into
-- the result of a FETCH, which the iterator frees. An address is not used again in the model.
pub mod Heaps
use mathlib.Core.Path.{subst}
use api_pack.Base.{
  ℕ, zero, suc, ◌-◌, ◌<◌, ◌≤◌, ◌≡◌, refl, sym, ap, ◌∙◌, arith, true, false, Option, none, some,
  List, length, ◌==◌, leb, ltb, ltb→lt, inl, inr, Bool-cases, if◌then◌else◌,
}
use api_pack.Base.Text.{Text, Decimal}
use api_pack.Datastore.Topics.{Topic}
use api_pack.Datastore.Libpq.{
  Libpq, PgResult, Heap, alloc, clear, find, deref, column, tuples_ok, n_tuples, result_status,
  is_tuples_ok,
}
use api_pack.Datastore.Iterator.{
  DatastoreIterator, State, ready, open_cursor, run_on, next, fetch, needs_fetch, yield_row,
  take_row, close_and_reset, close_in, close_cursor, drop_result, execute_query, construct,
}
use api_pack.Datastore.Iterator.Cases.{take_row_cases, next_cases}
use api_pack.Datastore.Iterator.Keeping.{
  Keeps, nexts, nexts_keeps, next_keeps, close_and_reset_keeps, execute_query_keeps, pq_exec_keeps,
  close_cursor_keeps, take_row_keeps,
}
use api_pack.Datastore.Iterator.Fetching.{bytes_at}
use api_pack.Datastore.Iterator.Lifetime.Heaps.{
  Ordered, alloc-Ordered, clear-Ordered, Dangling, alloc-Dangling, clear-Dangling, clear_dangles,
}

module _ (lib : Libpq) where
  abbrev IsOrdered : DatastoreIterator lib → Type 0
  IsOrdered d = Ordered d.heap

  keeps_IsOrdered : Keeps lib IsOrdered
  unfolding run_on
  keeps_IsOrdered = record {
    write = λ _ _ _ _ _ _ _ h. h;
    answer = λ d c r h. alloc-Ordered d.heap r h;
    freed = λ d k h. clear-Ordered d.heap k h;
    note = λ _ h. h;
  }

  -- A fact of the invariant: the addresses of the results on the heap are different and were all
  -- given out. It holds of an empty heap, and `next`, `closeAndReset` and every query keep it.
  pub next-Ordered :
      (p : Decimal) (d : DatastoreIterator lib) (query : Text) (topic : Topic) (n : ℕ)
      → Ordered d.heap
      → Ordered (next lib d).0.heap
        × Ordered (close_and_reset lib d).heap
        × Ordered (execute_query lib p d query topic n).heap
  next-Ordered p d query topic n h = (
    next_keeps lib IsOrdered keeps_IsOrdered d h,
    close_and_reset_keeps lib IsOrdered keeps_IsOrdered d h,
    execute_query_keeps lib IsOrdered keeps_IsOrdered p d query topic n h,
  )

  abbrev IsDangling : ℕ → DatastoreIterator lib → Type 0
  IsDangling k d = Dangling k d.heap

  keeps_IsDangling : (k : ℕ) → Keeps lib (IsDangling k)
  unfolding run_on
  keeps_IsDangling k = record {
    write = λ _ _ _ _ _ _ _ h. h;
    answer = λ d c r h. alloc-Dangling k d.heap r h;
    freed = λ d j h. clear-Dangling k j d.heap h;
    note = λ _ h. h;
  }

  -- The current result `r` is the one behind `k`.
  abbrev Current : ℕ → PgResult → DatastoreIterator lib → Type 0
  Current k r d = (d.result ≡ some k) × (find k d.heap.live ≡ some r)

  fetch-IsDangling :
      (d : DatastoreIterator lib) (k : ℕ) (r : PgResult)
      → Ordered d.heap
      → Current k r d
      → IsDangling k (fetch lib d)
  unfolding fetch
  fetch-IsDangling d k r ordered (is, found) =
      pq_exec_keeps lib (IsDangling k) (keeps_IsDangling k) _ d.fetch_text
        (subst (λ j. Dangling k (clear d.heap j)) (sym is) (clear_dangles k d.heap r ordered found))

  -- When the rows of the current result are used up, `next` frees it.
  next-IsDangling :
      (d : DatastoreIterator lib) (k : ℕ) (r : PgResult)
      → Ordered d.heap
      → Current k r d
      → d.result_offset ≡ length r.rows
      → IsDangling k (next lib d).0
  next-IsDangling d k r ordered (is, found) used =
      next_cases lib (λ x. IsDangling k x.0) d
        (λ _.
          take_row_keeps lib (IsDangling k) (keeps_IsDangling k) (fetch lib d)
            (fetch-IsDangling d k r ordered (is, found)))
        (λ e. absurd (fed e))
    where
      fed : needs_fetch lib d.result d ≡ false → ⊥
      fed e =
          unfold needs_fetch deref in
          ground (arith, ap (λ j. needs_fetch lib j d) (sym is) ∙ e, ap n_tuples found, used)

  close-IsDangling :
      (d : DatastoreIterator lib) (k : ℕ) (r : PgResult)
      → Ordered d.heap
      → Current k r d
      → d.state ≡ open_cursor
      → IsDangling k (close_and_reset lib d)
  unfolding close_and_reset close_in drop_result
  close-IsDangling d k r ordered (is, found) opened =
      subst (λ x. IsDangling k (record (close_in lib x d) { state = ready })) (sym opened)
        (close_cursor_keeps lib (IsDangling k) (keeps_IsDangling k) _ (
          subst (λ j. Dangling k (clear d.heap j)) (sym is)
            (clear_dangles k d.heap r ordered found)))

  next-yield_row :
      (d : DatastoreIterator lib) (k : ℕ) (r : PgResult)
      → Current k r d
      → r.status ≡ tuples_ok
      → d.result_offset < length r.rows
      → next lib d ≡ yield_row lib d
  next-yield_row d k r (is, found) tuples room =
      next_cases lib (λ x. x ≡ yield_row lib d) d (λ e. absurd (fed e))
        (λ _.
          take_row_cases lib (λ x. x ≡ yield_row lib d) d
            (λ e. cc (ap (λ o. is_tuples_ok (result_status o)) behind, tuples))
            (λ _ e. absurd (ground (arith, ap n_tuples behind, room))) (λ _ _. refl))
    where
      behind : deref d.heap d.result ≡ some r
      behind = unfold deref in ap (deref d.heap) is ∙ found

      fed : needs_fetch lib d.result d ≡ true → ⊥
      fed e =
          unfold needs_fetch deref in
          ground (arith, ap (λ j. needs_fetch lib j d) (sym is) ∙ e, ap n_tuples found, room)

  Dangling-bytes_at : (k i : ℕ) (h : Heap) → Dangling k h → bytes_at h (some (k, i)) ≡ none
  unfolding bytes_at deref
  Dangling-bytes_at k i h (gone, old) = rw (bytes_at, gone) refl

  calls-bytes_at :
      (n : ℕ) (d : DatastoreIterator lib) (k i : ℕ) (r : PgResult)
      → Ordered d.heap
      → Current k r d
      → r.status ≡ tuples_ok
      → d.result_offset ≤ length r.rows
      → bytes_at (nexts lib n d).heap (some (k, i))
        ≡ (if leb n (length r.rows - d.result_offset) then bytes_at d.heap (some (k, i)) else none)
  unfolding nexts yield_row
  calls-bytes_at zero d k i r o c tuples within = ground arith
  calls-bytes_at (suc n) d k i r o c tuples within =
      elim (Bool-cases (ltb d.result_offset (length r.rows))) [
        | inl t ↦
            let rest = calls-bytes_at n (yield_row lib d).0 k i r o c tuples (ground arith) in
            ap (λ x. bytes_at (nexts lib n x.0).heap (some (k, i)))
              (next-yield_row d k r c tuples (ltb→lt _ _ t))
            ∙ rest
            ∙ ground (arith, t)
        | inr f ↦
            Dangling-bytes_at k i _ (
              nexts_keeps lib (IsDangling k) (keeps_IsDangling k) n (next lib d).0
                (next-IsDangling d k r o c (ground (arith, f, within))))
            ∙ ground (arith, f)
      ]

  -- The bytes that an object points to in the current result stay as they are for as many further
  -- calls of `next` as that result has rows left, and dangle after all later calls; when the
  -- iterator is closed they dangle at once, and after any calls that follow. The addresses on the
  -- heap are taken to be in order, the iterator to be open, and the result to be one of a FETCH.
  pub nexts-bytes_at :
      (n : ℕ) (d : DatastoreIterator lib) (k i : ℕ) (r : PgResult)
      → Ordered d.heap
      → d.state ≡ open_cursor
      → d.result ≡ some k
      → find k d.heap.live ≡ some r
      → r.status ≡ tuples_ok
      → d.result_offset ≤ length r.rows
      → (bytes_at (nexts lib n d).heap (some (k, i)) ≡ (
          if leb n (length r.rows - d.result_offset) then bytes_at d.heap (some (k, i)) else none))
        × (bytes_at (nexts lib n (close_and_reset lib d)).heap (some (k, i)) ≡ none)
  nexts-bytes_at n d k i r o opened is found tuples within = (
    calls-bytes_at n d k i r o (is, found) tuples within,
    Dangling-bytes_at k i _ (
        nexts_keeps lib (IsDangling k) (keeps_IsDangling k) n (close_and_reset lib d)
          (close-IsDangling d k r o (is, found) opened)),
  )
