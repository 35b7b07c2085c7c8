-- ===== src/Datastore/Iterator/Cases.antt =====
-- The branches of `next` and `executeQuery` of DatastoreIterator.cpp, as rules for a predicate of
-- the state that they lead to.
use api_pack.Base.{ℕ, ◌≡◌, Bool, true, false, not, Option, ◌==◌, if_intro, arith}
use api_pack.Base.Text.{Text, Decimal}
use api_pack.Datastore.Topics.{Topic}
use api_pack.Datastore.Libpq.{
  Libpq, ExecStatus, deref, result_status, n_tuples, is_tuples_ok, is_command_ok,
}
use api_pack.Datastore.Iterator.{
  DatastoreIterator, DataObject, needs_fetch, fetch, take_row, fetch_failed, exhausted, yield_row,
  next, declare_cursor, check_query, query_failed, check_begin, begin_failed, begin_done,
}

module _ (lib : Libpq) where
  abbrev pub status_of : DatastoreIterator lib → Option ℕ → ExecStatus
  status_of d k = result_status (deref d.heap k)

  pub take_row_cases {ℓ} :
      (P : DatastoreIterator lib × Option DataObject → Type ℓ) (d : DatastoreIterator lib)
      → (is_tuples_ok (status_of d d.result) ≡ false → P (fetch_failed lib d))
      → (is_tuples_ok (status_of d d.result) ≡ true
          → (n_tuples (deref d.heap d.result) == 0) ≡ true
          → P (exhausted lib d))
      → (is_tuples_ok (status_of d d.result) ≡ true
          → (n_tuples (deref d.heap d.result) == 0) ≡ false
          → P (yield_row lib d))
      → P (take_row lib d)
  unfolding take_row
  take_row_cases P d failed ended row =
      if_intro P (not (is_tuples_ok (status_of d d.result))) (fetch_failed lib d) _
        (λ e. failed (not-eq-true _ e))
        (λ e.
          if_intro P (n_tuples (deref d.heap d.result) == 0) (exhausted lib d) (yield_row lib d)
            (ended (not-eq-false _ e)) (row (not-eq-false _ e)))
    where
      not-eq-true : (b : Bool) → not b ≡ true → b ≡ false
      not-eq-true b e = ground arith

      not-eq-false : (b : Bool) → not b ≡ false → b ≡ true
      not-eq-false b e = ground arith

  pub next_cases {ℓ} :
      (P : DatastoreIterator lib × Option DataObject → Type ℓ) (d : DatastoreIterator lib)
      → (needs_fetch lib d.result d ≡ true → P (take_row lib (fetch lib d)))
      → (needs_fetch lib d.result d ≡ false → P (take_row lib d))
      → P (next lib d)
  unfolding next
  next_cases P d = if_intro (λ e. P (take_row lib e)) (needs_fetch lib d.result d) (fetch lib d) d

  pub check_query_cases {ℓ} :
      (P : DatastoreIterator lib → Type ℓ) (d : DatastoreIterator lib) (k : Option ℕ) (query : Text)
      → (is_command_ok (status_of d k) ≡ true → P d)
      → (is_command_ok (status_of d k) ≡ false → P (query_failed lib d k query))
      → P (check_query lib (d, k) query)
  unfolding check_query
  check_query_cases P d k query =
      if_intro P (is_command_ok (status_of d k)) d (query_failed lib d k query)

  pub check_begin_cases {ℓ} :
      (P : DatastoreIterator lib → Type ℓ) (p : Decimal) (d : DatastoreIterator lib) (k : Option ℕ)
      (query : Text) (topic : Topic) (n : ℕ)
      → (is_command_ok (status_of d k) ≡ true
          → P (declare_cursor lib p (begin_done lib d k) query topic n))
      → (is_command_ok (status_of d k) ≡ false → P (begin_failed lib d k topic))
      → P (check_begin lib p (d, k) query topic n)
  unfolding check_begin
  check_begin_cases P p d k query topic n =
      if_intro P (is_command_ok (status_of d k)) _ (begin_failed lib d k topic)
