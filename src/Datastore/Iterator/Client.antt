-- ===== src/Datastore/Iterator/Client.antt =====
-- A client of DatastoreIterator.cpp that calls `next` some times and then lets go.
use mathlib.Core.Path.{subst, ap₂}
use api_pack.Base.{
  ℕ, zero, suc, ◌+◌, ◌≡◌, refl, sym, Bool, Option, none, some, List, [], ◌∷◌, map, take, false,
}
use api_pack.Base.Text.{Text, Decimal, codes}
use api_pack.Datastore.Topics.{Topic}
use api_pack.Datastore.Query.{fetch_command, close_command}
use api_pack.Datastore.Libpq.{Libpq, PgResult, command_ok}
use api_pack.Datastore.Libpq.Cursor.{Cursor}
use api_pack.Datastore.Iterator.{
  DatastoreIterator, DataObject, next, close_and_reset, execute_query,
}
use api_pack.Datastore.Iterator.Executing.{executed, execute_query_ok}
use api_pack.Datastore.Iterator.Fetching.{Seen, seen_row, seen_object}
use api_pack.Datastore.Iterator.Fetching.Closing.{Ended, close-Ended}
use api_pack.Datastore.Iterator.Stream.{Streams, Streams-Ended, Next, next-Streams, executed-Idle}

module _ (lib : Libpq) where
  read_more :
      (DatastoreIterator lib → DatastoreIterator lib × List Seen)
      → DatastoreIterator lib × Option DataObject
      → DatastoreIterator lib × List Seen
  read_more others (d, none) = (d, [])
  read_more others (d, some o) = let (d', seen) = others d in (d', seen_object lib d o ∷ seen)

  -- At most `n` calls of `next`, none after the null pointer, and what was read.
  unfoldable pub reads : ℕ → DatastoreIterator lib → DatastoreIterator lib × List Seen
  unfolding read_more next
  reads zero d = (d, [])
  reads (suc n) d = read_more (reads n) (next lib d)

  -- The client read the first `n` rows, and can let go.
  abbrev Reads :
      (lib.Conn → Type 0)
      → List (ℕ × PgResult)
      → Bool
      → List (Option Text)
      → ℕ
      → DatastoreIterator lib × List Seen
      → Type 0
  Reads Finished rest b rows n (d, seen) =
      (seen ≡ map seen_row (take n rows)) × Ended lib Finished rest b (close_and_reset lib d)

module _ (lib : Libpq) {fetch_text close_text : Text} {m : ℕ}
    (cursor : Cursor lib fetch_text close_text (suc m)) (rest : List (ℕ × PgResult)) where
  read_more-Reads :
      (n : ℕ) (rows : List (Option Text)) (d : DatastoreIterator lib)
      (x : DatastoreIterator lib × Option DataObject)
      → Next lib cursor rest rows d.was_error x
      → ((rows' : List (Option Text)) (d' : DatastoreIterator lib)
          → Streams lib cursor rest rows' d'
          → Reads lib cursor.Finished rest d'.was_error rows' n (reads lib n d'))
      → Reads lib cursor.Finished rest d.was_error rows (suc n) (read_more lib (reads lib n) x)
  unfolding Next read_more
  read_more-Reads n [] d (d', none) ended ih =
      (refl, close-Ended lib cursor.Finished d' rest d.was_error ended)
  read_more-Reads n [] d (d', some o) never ih = absurd never
  read_more-Reads n (x ∷ rows) d (d', none) never ih = absurd never
  read_more-Reads n (x ∷ rows) d (d', some o) (seen, error, s) ih =
      let (same, ended) = ih rows d' s in
      (
        ap₂ ◌∷◌ seen same,
        subst (λ b. Ended lib cursor.Finished rest b (close_and_reset lib (reads lib n d').0)) error
            ended,
      )

  reads-Reads :
      (n : ℕ) (rows : List (Option Text)) (d : DatastoreIterator lib)
      → Streams lib cursor rest rows d
      → Reads lib cursor.Finished rest d.was_error rows n (reads lib n d)
  unfolding reads
  reads-Reads zero rows d s = (refl, Streams-Ended lib cursor rest rows d s)
  reads-Reads (suc n) rows d s =
      read_more-Reads n rows d (next lib d) (next-Streams lib cursor rest rows d s)
        (λ rows' d' s'. reads-Reads n rows' d' s')

module _ (lib : Libpq) (p : Decimal) where
  -- The iterator is a stream of the query's rows, whatever the fetch size: on a connection on which
  -- BEGIN and the query succeed, with a cursor that keeps PostgreSQL's promises at `rows`, a client
  -- that calls `next` up to `calls` times, and not after the null pointer, reads the first `calls`
  -- rows. When it then calls `closeAndReset` the iterator is ready, it notes no error, and the heap
  -- holds the results that it held before the query, and that of the query.
  pub reads-execute_query :
      (d : DatastoreIterator lib) (c : lib.Conn) (query : Text) (topic : Topic) (m calls : ℕ)
      (b r : PgResult)
      (cursor : Cursor lib
        (fetch_command p (suc m) topic d.thread_id)
        (close_command p topic d.thread_id)
        (suc m))
      (rows : List (Option Text))
      → d.heap.double_free ≡ false
      → d.connection ≡ some c
      → (lib.exec c (codes "BEGIN")).1 ≡ some b
      → b.status ≡ command_ok
      → (lib.exec (lib.exec c (codes "BEGIN")).0 query).1 ≡ some r
      → r.status ≡ command_ok
      → cursor.At (lib.exec (lib.exec c (codes "BEGIN")).0 query).0 rows
      → ((reads lib calls (execute_query lib p d query topic (suc m))).1
          ≡ map seen_row (take calls rows))
        × Ended lib cursor.Finished
            ((d.heap.fresh + 1, r) ∷ d.heap.live)
            d.was_error
            (close_and_reset lib (reads lib calls (execute_query lib p d query topic (suc m))).0)
  reads-execute_query d c query topic m calls b r cursor rows once e hb sb hr sr at =
      let c' = (lib.exec (lib.exec c (codes "BEGIN")).0 query).0 in
      let rest : List (ℕ × PgResult) = (d.heap.fresh + 1, r) ∷ d.heap.live in
      subst (λ x. Reads lib cursor.Finished rest d.was_error rows calls (reads lib calls x))
        (sym (execute_query_ok lib p d c query topic (suc m) b r e hb sb hr sr))
        (reads-Reads lib cursor rest calls rows (executed lib p d c' r topic (suc m)) (
          [],
          rows,
          refl,
          executed-Idle lib p d c' r topic (suc m) d.thread_id cursor rows refl once at,
        ))
