-- ===== src/Datastore/Iterator/Memory.antt =====
-- Who frees the results that DatastoreIterator.cpp gets from libpq.
use api_pack.Base.{ℕ, ◌≡◌, refl, sym, ap, ◌∙◌, arith, true, false, Option, none, some, List, ◌∷◌}
use mathlib.Core.Path.{subst}
use api_pack.Base.Text.{Text}
use api_pack.Datastore.Libpq.{Libpq, PgResult, Heap, clear, find, remove}
use api_pack.Datastore.Iterator.{
  DatastoreIterator, DataObject, State, ready, open_cursor, close_cursor, pq_exec, exec_on, run_on,
  drop_result, close_in, close_and_reset, fetch, take_row, next, fetch_failed, exhausted, yield_row,
  destruct,
}
use api_pack.Datastore.Iterator.Cases.{take_row_cases, next_cases}
use api_pack.Datastore.Iterator.Frame.{Kept, kept, close_cursor-kept}

-- The results on the heap are the current one, if there is one, on top of those in `rest`.
abbrev pub Top : Option ℕ → List (ℕ × PgResult) → List (ℕ × PgResult) → Type 0
Top none live rest = live ≡ rest
Top (some k) live rest = (r : PgResult) × (live ≡ (k, r) ∷ rest)

-- `rest` are the results of others, and nothing was freed twice.
pub record OwnsKept (s : Kept) (rest : List (ℕ × PgResult)) : Type 0 where
  pub once : s.double_free ≡ false
  pub top : Top s.result s.live rest

-- What the destructor leaves on the heap, by the state before it: `PQclear` is called only for an open
-- cursor, so the current result of an iterator that is ready stays there without a pointer.
pub Destroyed : State → Option ℕ → List (ℕ × PgResult) → List (ℕ × PgResult) → Type 0
Destroyed open_cursor k live rest = live ≡ rest
Destroyed ready k live rest = Top k live rest

module _ (lib : Libpq) where
  abbrev pub Owns : DatastoreIterator lib → List (ℕ × PgResult) → Type 0
  Owns d rest = OwnsKept (kept lib d) rest

  -- Freeing the current result leaves those of others.
  pub clear-Top :
      (k : Option ℕ) (h : Heap) (rest : List (ℕ × PgResult))
      → h.double_free ≡ false
      → Top k h.live rest
      → ((clear h k).live ≡ rest) × ((clear h k).double_free ≡ false)
  unfolding clear find remove
  clear-Top none h rest o t = (t, o)
  clear-Top (some k) h rest o (r, e) = ground arith

  pub drop_result-Owns :
      (d : DatastoreIterator lib) (rest : List (ℕ × PgResult))
      → Owns d rest
      → Owns (drop_result lib d) rest
  unfolding drop_result
  drop_result-Owns d rest o =
      let (t, b) = clear-Top d.result d.heap rest o.once o.top in record { once = b; top = t }

  close_cursor-Owns :
      (d : DatastoreIterator lib) (rest : List (ℕ × PgResult))
      → Owns d rest
      → Owns (close_cursor lib d) rest
  close_cursor-Owns d rest o = subst (λ s. OwnsKept s rest) (sym (close_cursor-kept lib d)) o

  close_in-Owns :
      (s : State) (d : DatastoreIterator lib) (rest : List (ℕ × PgResult))
      → Owns d rest
      → Owns (close_in lib s d) rest
  unfolding close_in
  close_in-Owns ready d rest o = o
  close_in-Owns open_cursor d rest o =
      close_cursor-Owns (drop_result lib d) rest (drop_result-Owns d rest o)

  pub close_and_reset-Owns :
      (d : DatastoreIterator lib) (rest : List (ℕ × PgResult))
      → Owns d rest
      → Owns (close_and_reset lib d) rest
  unfolding close_and_reset
  close_and_reset-Owns d rest o =
      let o' = close_in-Owns d.state d rest o in record { once = o'.once; top = o'.top }

  -- A new result, or none, becomes the current one.
  run_on-Owns :
      (d : DatastoreIterator lib) (c : lib.Conn) (r : Option PgResult) (rest : List (ℕ × PgResult))
      → d.heap.double_free ≡ false
      → d.heap.live ≡ rest
      → let (d', k) = run_on lib d (c, r) in (d'.heap.double_free ≡ false) × Top k d'.heap.live rest
  unfolding run_on
  run_on-Owns d c none rest o e = (o, e)
  run_on-Owns d c (some r) rest o e = (o, (r, ap (◌∷◌ (d.heap.fresh, r)) e))

  exec_on-Owns :
      (d : DatastoreIterator lib) (c : Option lib.Conn) (command : Text)
      (rest : List (ℕ × PgResult))
      → d.heap.double_free ≡ false
      → d.heap.live ≡ rest
      → let (d', k) = exec_on lib d c command in
        (d'.heap.double_free ≡ false) × Top k d'.heap.live rest
  unfolding exec_on
  exec_on-Owns d none command rest o e = (o, e)
  exec_on-Owns d (some c) command rest o e =
      run_on-Owns d (lib.exec c command).0 (lib.exec c command).1 rest o e

  fetch-Owns :
      (d : DatastoreIterator lib) (rest : List (ℕ × PgResult))
      → Owns d rest
      → Owns (fetch lib d) rest
  unfolding fetch pq_exec
  fetch-Owns d rest o =
      let (e, b) = clear-Top d.result d.heap rest o.once o.top in
      let d' = record d { heap = clear d.heap d.result; result_offset = 0 } in
      let (b', t) = exec_on-Owns d' d'.connection d'.fetch_text rest b e in
      record { once = b'; top = t }

  abbrev OwnsFirst : List (ℕ × PgResult) → DatastoreIterator lib × Option DataObject → Type 0
  OwnsFirst rest x = Owns x.0 rest

  -- The texts and the error flag do not matter.
  failure_noted : DatastoreIterator lib → Text → DatastoreIterator lib
  failure_noted d message = record d { error = message; was_error = true }

  failure_noted-Owns :
      (d : DatastoreIterator lib) (message : Text) (rest : List (ℕ × PgResult))
      → Owns d rest
      → Owns (close_and_reset lib (failure_noted d message)) rest
  unfolding failure_noted
  failure_noted-Owns d message rest o =
      close_and_reset-Owns (failure_noted d message) rest (record { once = o.once; top = o.top })

  fetch_failed-Owns :
      (d : DatastoreIterator lib) (rest : List (ℕ × PgResult))
      → Owns d rest
      → OwnsFirst rest (fetch_failed lib d)
  unfolding fetch_failed failure_noted
  fetch_failed-Owns d rest o = failure_noted-Owns d _ rest o

  exhausted-Owns :
      (d : DatastoreIterator lib) (rest : List (ℕ × PgResult))
      → Owns d rest
      → OwnsFirst rest (exhausted lib d)
  unfolding exhausted
  exhausted-Owns d rest o = close_and_reset-Owns d rest o

  yield_row-Owns :
      (d : DatastoreIterator lib) (rest : List (ℕ × PgResult))
      → Owns d rest
      → OwnsFirst rest (yield_row lib d)
  unfolding yield_row
  yield_row-Owns d rest o = record { once = o.once; top = o.top }

  take_row-Owns :
      (d : DatastoreIterator lib) (rest : List (ℕ × PgResult))
      → Owns d rest
      → OwnsFirst rest (take_row lib d)
  take_row-Owns d rest o =
      take_row_cases lib (OwnsFirst rest) d (λ _. fetch_failed-Owns d rest o)
        (λ _ _. exhausted-Owns d rest o) (λ _ _. yield_row-Owns d rest o)

  close_in-Destroyed :
      (s : State) (d : DatastoreIterator lib) (rest : List (ℕ × PgResult))
      → Owns d rest
      → Destroyed s d.result (close_in lib s d).heap.live rest
        × ((close_in lib s d).heap.double_free ≡ false)
  unfolding close_in drop_result Destroyed
  close_in-Destroyed ready d rest o = (o.top, o.once)
  close_in-Destroyed open_cursor d rest o =
      let (t, b) = clear-Top d.result d.heap rest o.once o.top in
      let same = close_cursor-kept lib (drop_result lib d) in
      (ap (λ (s : Kept). s.live) same ∙ t, ap (λ (s : Kept). s.double_free) same ∙ b)

  pub destruct-Destroyed :
      (d : DatastoreIterator lib) (rest : List (ℕ × PgResult))
      → Owns d rest
      → Destroyed d.state d.result (destruct lib d).heap.live rest
        × ((destruct lib d).heap.double_free ≡ false)
  unfolding destruct close_and_reset
  destruct-Destroyed d rest o = close_in-Destroyed d.state d rest o

  -- `next`, `closeAndReset` and the destructor, called in any state, free nothing twice and leave the
  -- results of others as they are. Before and after the first two, the heap holds those of others and
  -- the iterator's current one, if it has one. The destructor frees the current one if the cursor is
  -- open; if the iterator is ready and has one, that one stays on the heap, and no pointer to it is
  -- left.
  pub next-Owns :
      (d : DatastoreIterator lib) (rest : List (ℕ × PgResult))
      → Owns d rest
      → Owns (next lib d).0 rest
        × Owns (close_and_reset lib d) rest
        × Destroyed d.state d.result (destruct lib d).heap.live rest
        × ((destruct lib d).heap.double_free ≡ false)
        × ((destruct lib d).result ≡ none)
  unfolding destruct
  next-Owns d rest o =
      let (left, once) = destruct-Destroyed d rest o in
      (
        next_cases lib (OwnsFirst rest) d (λ _. take_row-Owns _ rest (fetch-Owns d rest o))
            (λ _. take_row-Owns d rest o),
        close_and_reset-Owns d rest o,
        left,
        once,
        refl,
      )
