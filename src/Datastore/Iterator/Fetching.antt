-- ===== src/Datastore/Iterator/Fetching.antt =====
-- `next` of DatastoreIterator.cpp over a cursor that keeps PostgreSQL's promises.
pub mod Refill
pub mod Closing
use mathlib.Core.Path.{subst, ap₂}
use native.Mathlib.Numerals.{add-one}
use api_pack.Base.{
  ℕ, zero, suc, ◌+◌, ◌-◌, ◌≡◌, ◌≤◌, ◌<◌, refl, sym, ap, ◌∙◌, arith, Bool, true, false, Option, none,
  some, List, [], ◌∷◌, length, drop, take, get_elem?, drop-eq-cons, drop-eq-nil, ◌==◌,
}
use api_pack.Base.Text.{Text, codes}
use api_pack.Datastore.Libpq.{
  Libpq, PgResult, tuples_ok, command_ok, find, deref, column, n_tuples, result_status,
  is_tuples_ok, clear, Heap,
}
use api_pack.Datastore.Libpq.Cursor.{Cursor}
use api_pack.Datastore.Iterator.{
  DatastoreIterator, DataObject, State, ready, open_cursor, next, needs_fetch, fetch, take_row,
  yield_row, exhausted, fetch_failed, close_and_reset, pq_exec, exec_on, run_on, object_of,
}
use api_pack.Datastore.Iterator.Cases.{take_row_cases, next_cases, status_of}
use api_pack.Datastore.Iterator.Memory.{clear-Top, Owns, Top}

-- What a reader of a row sees: its length, and its bytes unless it is SQL's null.
abbrev pub Seen : Type 0
Seen = ℕ × Option Text

abbrev pub seen_row : Option Text → Seen
seen_row none = (0, none)
seen_row (some bytes) = (length bytes, some bytes)

-- The bytes that a pointer of a `DataObject` leads to in a heap; `none` if it is null or dangles.
unfoldable pub bytes_at : Heap → Option (ℕ × ℕ) → Option Text
bytes_at h none = none
bytes_at h (some (k, i)) = elim (column (deref h (some k)) i) [ none ↦ none | some cell ↦ cell ]

module _ (lib : Libpq) where
  abbrev pub seen_object : DatastoreIterator lib → DataObject → Seen
  seen_object d o = (o.size_in_bytes, bytes_at d.heap o.thrift_object)

  module _ {fetch_text close_text : Text} {n : ℕ}
      (cursor : Cursor lib fetch_text close_text n) where
    -- An open iterator whose current result is `k`, with the rows `chunk` of it still to deliver
    -- and the rows `left` still on the server.
    pub record Serving (rest : List (ℕ × PgResult)) (chunk left : List (Option Text))
        (d : DatastoreIterator lib) : Type 0 where
      pub opened : d.state ≡ open_cursor
      pub fetches : d.fetch_text ≡ fetch_text
      pub closes : d.close_text ≡ close_text
      pub once : d.heap.double_free ≡ false
      pub conn : lib.Conn
      pub connected : d.connection ≡ some conn
      pub serves : cursor.At conn left
      pub pointer : ℕ
      pub current : PgResult
      pub points : d.result ≡ some pointer
      pub top : d.heap.live ≡ (pointer, current) ∷ rest
      pub tuples : current.status ≡ tuples_ok
      pub chunk_at : drop d.result_offset current.rows ≡ chunk
      pub within : d.result_offset ≤ length current.rows

    -- The current result is found in the heap.
    pub pointer_found :
        {rest : List (ℕ × PgResult)} {chunk left : List (Option Text)} {d : DatastoreIterator lib}
        (s : Serving rest chunk left d)
        → deref d.heap (some s.pointer) ≡ some s.current
    unfolding deref find
    pointer_found s = rw s.top (ground arith)

    current_found :
        {rest : List (ℕ × PgResult)} {chunk left : List (Option Text)} {d : DatastoreIterator lib}
        (s : Serving rest chunk left d)
        → deref d.heap d.result ≡ some s.current
    current_found {d} s = ap (deref d.heap) s.points ∙ pointer_found s

    pub current_tuples :
        {rest : List (ℕ × PgResult)} {chunk left : List (Option Text)} {d : DatastoreIterator lib}
        (s : Serving rest chunk left d)
        → is_tuples_ok (status_of lib d d.result) ≡ true
    current_tuples s =
        ap (λ r. is_tuples_ok (result_status r)) (current_found s) ∙ ap is_tuples_ok s.tuples

    pub current_length :
        {rest : List (ℕ × PgResult)} {chunk left : List (Option Text)} {d : DatastoreIterator lib}
        (s : Serving rest chunk left d)
        → n_tuples (deref d.heap d.result) ≡ length s.current.rows
    current_length s = ap n_tuples (current_found s)

    -- A row that is left in the current result is taken without a fetch.
    pub take_row-yield :
        {rest : List (ℕ × PgResult)} {x : Option Text} {xs left : List (Option Text)}
        {d : DatastoreIterator lib}
        → Serving rest (x ∷ xs) left d
        → take_row lib d ≡ yield_row lib d
    take_row-yield {d} s =
        let (found, next_chunk, inside) = drop-eq-cons d.result_offset s.current.rows s.chunk_at in
        take_row_cases lib (λ y. y ≡ yield_row lib d) d (λ e. cc (current_tuples s))
          (λ _ e. absurd (ground (arith, current_length s))) (λ _ _. refl)

    pub yield_row-Serving :
        {rest : List (ℕ × PgResult)} {x : Option Text} {xs left : List (Option Text)}
        {d : DatastoreIterator lib}
        → Serving rest (x ∷ xs) left d
        → Serving rest xs left (yield_row lib d).0
    unfolding yield_row
    yield_row-Serving {d} s =
        let (found, next_chunk, inside) = drop-eq-cons d.result_offset s.current.rows s.chunk_at in
        record {
          opened = s.opened;
          fetches = s.fetches;
          closes = s.closes;
          once = s.once;
          conn = s.conn;
          connected = s.connected;
          serves = s.serves;
          pointer = s.pointer;
          current = s.current;
          points = s.points;
          top = s.top;
          tuples = s.tuples;
          chunk_at = rw add-one next_chunk;
          within = omega arith;
        }

    -- What the reader of the new object sees is the row.
    pub yield_row-seen :
        {rest : List (ℕ × PgResult)} {x : Option Text} {xs left : List (Option Text)}
        {d : DatastoreIterator lib} (s : Serving rest (x ∷ xs) left d)
        → (o : DataObject) × ((yield_row lib d).1 ≡ some o)
          × (seen_object (yield_row lib d).0 o ≡ seen_row x)
    unfolding yield_row
    yield_row-seen {x} {d} s = (
      object_of lib (some s.pointer) d.result_offset (some x),
      ap some (ap₂ (λ k c. object_of lib k d.result_offset c) s.points cell),
      seen x (ap (λ r. column r d.result_offset) (pointer_found s) ∙ found),
    )
      where
        found : get_elem? s.current.rows d.result_offset ≡ some x
        found = (drop-eq-cons d.result_offset s.current.rows s.chunk_at).0

        cell : column (deref d.heap d.result) d.result_offset ≡ some x
        cell = ap (λ r. column r d.result_offset) (current_found s) ∙ found

        seen :
            (y : Option Text)
            → column (deref d.heap (some s.pointer)) d.result_offset ≡ some y
            → seen_object
                (yield_row lib d).0
                (object_of lib (some s.pointer) d.result_offset (some y))
              ≡ seen_row y
        seen none e = unfold object_of bytes_at in refl
        seen (some bytes) e = unfold object_of bytes_at in rw e
