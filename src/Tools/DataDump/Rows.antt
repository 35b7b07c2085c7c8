-- ===== src/Tools/DataDump/Rows.antt =====
-- What the query loops of dataDump.cpp read from a store over PostgreSQL.
use mathlib.Core.Option
use mathlib.Core.Path.{subst}
use api_pack.Base.{
  ℕ, zero, suc, ◌<◌, ◌≡◌, refl, ap, ◌∙◌, arith, Bool, Option, none, some, List, [], ◌∷◌, map,
  length,
}
use api_pack.Base.Text.{Text}
use api_pack.Datastore.Libpq.{Libpq, PgResult}
use api_pack.Datastore.Libpq.Cursor.{Cursor}
use api_pack.Datastore.Iterator.{DatastoreIterator, DataObject, next}
use api_pack.Datastore.Iterator.Fetching.{Seen, seen_row, seen_object}
use api_pack.Datastore.Iterator.Fetching.Closing.{Ended}
use api_pack.Datastore.Iterator.Keeping.{OnThread, keeps_thread, next_keeps}
use api_pack.Datastore.Iterator.Stream.{Streams, Next, next-Streams}
use api_pack.Tools.DataDump.{drain, round}

module _ (lib : Libpq) (Finished : lib.Conn → Type 0) (rest : List (ℕ × PgResult)) where
  -- The loop reads `rows`, leaves the iterator ready and on the thread `t`, and notes no error.
  abbrev pub Drains :
      Text → Bool → List (Option Text) → Option (DatastoreIterator lib × List Seen) → Type 0
  Drains t b rows r =
      (d : DatastoreIterator lib) × (r ≡ some (d, map seen_row rows))
      × Ended lib Finished rest b d
      × (d.thread_id ≡ t)

module _ (lib : Libpq) {fetch_text close_text : Text} {m : ℕ}
    (cursor : Cursor lib fetch_text close_text (suc m)) (rest : List (ℕ × PgResult)) where
  round-Drains :
      (f : ℕ) (t : Text) (b : Bool) (rows : List (Option Text))
      (x : DatastoreIterator lib × Option DataObject)
      → length rows < suc f
      → Next lib cursor rest rows b x
      → x.0.thread_id ≡ t
      → ((rows' : List (Option Text)) (d' : DatastoreIterator lib)
          → length rows' < f
          → Streams lib cursor rest rows' d'
          → Drains lib cursor.Finished rest d'.thread_id d'.was_error rows' (drain lib f d'))
      → Drains lib cursor.Finished rest t b rows (round lib (drain lib f) x)
  unfolding round Next
  round-Drains f t b [] (d', none) h ended on ih = (d', refl, ended, on)
  round-Drains f t b [] (d', some o) h never on ih = absurd never
  round-Drains f t b (y ∷ rows) (d', none) h never on ih = absurd never
  round-Drains f t b (y ∷ rows) (d', some o) h (seen, error, s) on ih =
      let (d'', e, ended, same) = ih rows d' (omega arith) s in
      (
        d'',
        ap
              (Option.map
                (λ (r : DatastoreIterator lib × List Seen). (r.0, seen_object lib d' o ∷ r.1)))
              e
            ∙ ap (λ z. some (d'', z ∷ map seen_row rows)) seen,
        subst (λ b'. Ended lib cursor.Finished rest b' d'') error ended,
        same ∙ on,
      )

  -- The loop over a stream of rows, with more fuel than there are rows.
  pub drain-Drains :
      (f : ℕ) (rows : List (Option Text)) (d : DatastoreIterator lib)
      → length rows < f
      → Streams lib cursor rest rows d
      → Drains lib cursor.Finished rest d.thread_id d.was_error rows (drain lib f d)
  unfolding drain
  drain-Drains zero rows d h s = absurd (omega arith)
  drain-Drains (suc f) rows d h s =
      round-Drains f d.thread_id d.was_error rows (next lib d) h
        (next-Streams lib cursor rest rows d s)
        (next_keeps lib (OnThread lib d.thread_id) (keeps_thread lib d.thread_id) d refl)
        (λ rows' d' h' s'. drain-Drains f rows' d' h' s')
