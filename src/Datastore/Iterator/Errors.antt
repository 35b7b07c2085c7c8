-- ===== src/Datastore/Iterator/Errors.antt =====
-- The error flag of DatastoreIterator.cpp.
use api_pack.Base.{ℕ, ◌≡◌, refl, true, false, none, ◌++◌}
use api_pack.Base.Text.{Text, Decimal, codes}
use api_pack.Datastore.Topics.{Topic}
use api_pack.Datastore.Libpq.{Libpq, Heap}
use api_pack.Datastore.Iterator.{
  DatastoreIterator, is_connected, run_on, close_and_reset, next, execute_query, create_connection,
  construct, connect_error,
}
use api_pack.Datastore.Iterator.Keeping.{
  Keeps, next_keeps, close_and_reset_keeps, execute_query_keeps,
}

module _ (lib : Libpq) where
  abbrev HasError : DatastoreIterator lib → Type 0
  HasError d = d.was_error ≡ true

  keeps_error : Keeps lib HasError
  unfolding run_on
  keeps_error = record {
    write = λ _ _ _ _ _ _ _ h. h;
    answer = λ _ _ _ h. h;
    freed = λ _ _ h. h;
    note = λ _ _. refl;
  }

  -- Once set, the error flag stays set: `next`, `closeAndReset` and every query leave it so.
  pub has_error_sticky :
      (p : Decimal) (d : DatastoreIterator lib) (query : Text) (topic : Topic) (n : ℕ)
      → d.was_error ≡ true
      → ((next lib d).0.was_error ≡ true)
        × ((close_and_reset lib d).was_error ≡ true)
        × ((execute_query lib p d query topic n).was_error ≡ true)
  has_error_sticky p d query topic n h = (
    next_keeps lib HasError keeps_error d h,
    close_and_reset_keeps lib HasError keeps_error d h,
    execute_query_keeps lib HasError keeps_error p d query topic n h,
  )

  -- If no connection could be made, the constructor still leaves the error flag clear, because it
  -- clears the flag last: the iterator is not connected and has the text of the error, but
  -- `hasError` answers false.
  pub construct_clears_error :
      (uri thread : Text) (h : Heap)
      → lib.connectdb uri ≡ none
      → ((construct lib uri thread h).was_error ≡ false)
        × (is_connected lib (construct lib uri thread h) ≡ false)
        × ((construct lib uri thread h).error
            ≡ codes "Error connecting to PostgreSQL with connection string: "
              ++ (uri ++ (codes ": " ++ (lib.error_message none ++ codes " "))))
  unfolding construct create_connection connect_error
  construct_clears_error uri thread h e = rw e (refl, refl, refl)
