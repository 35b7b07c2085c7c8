-- ===== src/Datastore/Iterator/Stream.antt =====
-- The iterator of DatastoreIterator.cpp as a stream of the rows that are left.
use mathlib.Core.Path.{subst}
use api_pack.Base.{
  ℕ, suc, ◌+◌, ◌≡◌, refl, ap, sym, Bool, Option, none, some, List, [], ◌∷◌, ◌++◌, take-append-drop,
  false,
}
use api_pack.Base.Text.{Text, Decimal}
use api_pack.Datastore.Topics.{Topic}
use api_pack.Datastore.Query.{fetch_command, close_command}
use api_pack.Datastore.Libpq.{Libpq, PgResult}
use api_pack.Datastore.Libpq.Cursor.{Cursor}
use api_pack.Datastore.Iterator.{
  DatastoreIterator, DataObject, next, fetch, yield_row, exhausted, close_and_reset, needs_fetch,
}
use api_pack.Datastore.Iterator.Executing.{executed}
use api_pack.Datastore.Iterator.Fetching.{
  Serving, seen_row, seen_object, take_row-yield, yield_row-Serving, yield_row-seen,
}
use api_pack.Datastore.Iterator.Fetching.Refill.{
  Idle, Serving-Idle, Serving-Owns, fetch-Serving, next-yield, next-fetch, take_row-exhausted,
}
use api_pack.Datastore.Iterator.Fetching.Closing.{Ended, close_and_reset-Ended}

module _ (lib : Libpq) where
  pub yield_error : (d : DatastoreIterator lib) → (yield_row lib d).0.was_error ≡ d.was_error
  unfolding yield_row
  yield_error d = refl

module _ (lib : Libpq) {fetch_text close_text : Text} {m : ℕ}
    (cursor : Cursor lib fetch_text close_text (suc m)) (rest : List (ℕ × PgResult)) where
  abbrev pub CanServe : List (Option Text) → List (Option Text) → DatastoreIterator lib → Type 0
  CanServe [] left d = Idle lib cursor rest left d
  CanServe (x ∷ xs) left d = Serving lib cursor rest (x ∷ xs) left d

  pub can_serve :
      (chunk left : List (Option Text)) (d : DatastoreIterator lib)
      → Serving lib cursor rest chunk left d
      → CanServe chunk left d
  can_serve [] left d s = Serving-Idle lib cursor s
  can_serve (x ∷ xs) left d s = s

  Idle-Ended :
      {left : List (Option Text)} (d : DatastoreIterator lib)
      → Idle lib cursor rest left d
      → Ended lib cursor.Finished rest d.was_error (close_and_reset lib d)
  Idle-Ended d s =
      close_and_reset-Ended lib cursor d s.conn _ rest s.opened s.connected s.closes s.serves s.owns

  Serving-Ended :
      {chunk left : List (Option Text)} (d : DatastoreIterator lib)
      → Serving lib cursor rest chunk left d
      → Ended lib cursor.Finished rest d.was_error (close_and_reset lib d)
  Serving-Ended d s =
      close_and_reset-Ended lib cursor d s.conn _ rest s.opened s.connected s.closes s.serves
        (Serving-Owns lib cursor s)

  CanServe-Ended :
      (chunk left : List (Option Text)) (d : DatastoreIterator lib)
      → CanServe chunk left d
      → Ended lib cursor.Finished rest d.was_error (close_and_reset lib d)
  CanServe-Ended [] left d s = Idle-Ended d s
  CanServe-Ended (x ∷ xs) left d s = Serving-Ended d s

  -- The rows that an open iterator has still to deliver.
  abbrev pub Streams : List (Option Text) → DatastoreIterator lib → Type 0
  Streams rows d =
      (chunk : List (Option Text)) × (left : List (Option Text)) × (chunk ++ left ≡ rows)
      × CanServe chunk left d

  pub Streams-Ended :
      (rows : List (Option Text)) (d : DatastoreIterator lib)
      → Streams rows d
      → Ended lib cursor.Finished rest d.was_error (close_and_reset lib d)
  Streams-Ended rows d (chunk, left, same, s) = CanServe-Ended chunk left d s

  -- What `next` does, with the error flag at `b`: it delivers the first row, or closes the iterator.
  unfoldable pub Next :
      List (Option Text) → Bool → DatastoreIterator lib × Option DataObject → Type 0
  Next [] b (d', none) = Ended lib cursor.Finished rest b d'
  Next [] b (d', some o) = ⊥
  Next (x ∷ rows) b (d', none) = ⊥
  Next (x ∷ rows) b (d', some o) =
      (seen_object lib d' o ≡ seen_row x) × (d'.was_error ≡ b) × Streams rows d'

  yield-Next :
      {x : Option Text} {xs left : List (Option Text)} (d : DatastoreIterator lib)
      → Serving lib cursor rest (x ∷ xs) left d
      → Next (x ∷ (xs ++ left)) d.was_error (yield_row lib d)
  unfolding Next
  yield-Next {x} {xs} {left} d s =
      let (o, got, same) = yield_row-seen lib cursor s in
      let next_d = (yield_row lib d).0 in
      subst (λ k. Next (x ∷ (xs ++ left)) d.was_error (next_d, k)) (sym got)
        (
          same,
          yield_error lib d,
          (xs, left, refl, can_serve xs left next_d (yield_row-Serving lib cursor s)),
        )

  serve-Next :
      (chunk left : List (Option Text)) (d : DatastoreIterator lib)
      → CanServe chunk left d
      → Next (chunk ++ left) d.was_error (next lib d)
  unfolding Next exhausted
  serve-Next (x ∷ xs) left d s = rw (next-yield lib cursor s) (yield-Next d s)
  serve-Next [] [] d s =
      let (t, rows, same) = fetch-Serving lib cursor s in
      rw (next-fetch lib cursor s, take_row-exhausted lib cursor s)
        (subst (λ b. Ended lib cursor.Finished rest b (close_and_reset lib (fetch lib d))) same
          (Serving-Ended (fetch lib d) t))
  serve-Next [] (y ∷ ys) d s =
      let (t, rows, same) = fetch-Serving lib cursor s in
      rw (next-fetch lib cursor s, take_row-yield lib cursor t)
        (subst (λ b. Next (y ∷ ys) b (yield_row lib (fetch lib d))) same
          (subst (λ r. Next (y ∷ r) (fetch lib d).was_error (yield_row lib (fetch lib d)))
            (take-append-drop m ys) (yield-Next (fetch lib d) t)))

  pub next-Streams :
      (rows : List (Option Text)) (d : DatastoreIterator lib)
      → Streams rows d
      → Next rows d.was_error (next lib d)
  next-Streams rows d (chunk, left, same, s) =
      subst (λ r. Next r d.was_error (next lib d)) same (serve-Next chunk left d s)

module _ (lib : Libpq) (p : Decimal) where
  -- A fresh cursor has fetched nothing.
  pub executed-Idle :
      (d : DatastoreIterator lib) (c : lib.Conn) (r : PgResult) (topic : Topic) (n : ℕ) (t : Text)
      (cursor : Cursor lib (fetch_command p n topic t) (close_command p topic t) n)
      (rows : List (Option Text))
      → d.thread_id ≡ t
      → d.heap.double_free ≡ false
      → cursor.At c rows
      → Idle lib cursor ((d.heap.fresh + 1, r) ∷ d.heap.live) rows (executed lib p d c r topic n)
  unfolding needs_fetch
  executed-Idle d c r topic n t cursor rows on once at = record {
    opened = refl;
    fetches = ap (fetch_command p n topic) on;
    closes = ap (close_command p topic) on;
    owns = record { once = once; top = refl };
    conn = c;
    connected = refl;
    serves = at;
    hungry = refl;
  }
