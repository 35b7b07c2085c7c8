-- ===== src/Datastore/Iterator/Fetching/Refill.antt =====
-- How `next` of DatastoreIterator.cpp gets the next rows when the current result is used up.
use mathlib.Core.Path.{subst}
use api_pack.Base.{
  ℕ, ◌≡◌, refl, sym, ap, ◌∙◌, arith, true, Option, some, List, [], ◌∷◌, length, drop, take,
  drop-eq-nil, drop-eq-cons, length-take,
}
use api_pack.Base.Text.{Text}
use api_pack.Datastore.Libpq.{Libpq, PgResult, tuples_ok, n_tuples, clear, alloc}
use api_pack.Datastore.Libpq.Cursor.{Cursor}
use api_pack.Datastore.Iterator.{
  DatastoreIterator, open_cursor, next, needs_fetch, fetch, take_row, exhausted, yield_row, pq_exec,
  exec_on, run_on,
}
use api_pack.Datastore.Iterator.Cases.{take_row_cases, next_cases}
use api_pack.Datastore.Iterator.Frame.{with_new}
use api_pack.Datastore.Iterator.Memory.{clear-Top, Owns, Top}
use api_pack.Datastore.Iterator.Fetching.{
  Serving, pointer_found, current_length, current_tuples, take_row-yield,
}

-- A command on a connection that answers with a result.
pub pq_exec-some :
    (lib : Libpq) (d : DatastoreIterator lib) (c : lib.Conn) (command : Text) (r : PgResult)
    → d.connection ≡ some c
    → (lib.exec c command).1 ≡ some r
    → pq_exec lib d command ≡ (with_new lib d (lib.exec c command).0 r, some d.heap.fresh)
unfolding pq_exec exec_on run_on alloc
pq_exec-some lib d c command r e h =
    ap (λ k. exec_on lib d k command) e ∙ ap (λ a. run_on lib d ((lib.exec c command).0, a)) h

module _ (lib : Libpq) {fetch_text close_text : Text} {n : ℕ}
    (cursor : Cursor lib fetch_text close_text n) where
  -- An open iterator with no row to deliver but those `left` on the server.
  pub record Idle (rest : List (ℕ × PgResult)) (left : List (Option Text))
      (d : DatastoreIterator lib) : Type 0 where
    pub opened : d.state ≡ open_cursor
    pub fetches : d.fetch_text ≡ fetch_text
    pub closes : d.close_text ≡ close_text
    pub owns : Owns lib d rest
    pub conn : lib.Conn
    pub connected : d.connection ≡ some conn
    pub serves : cursor.At conn left
    pub hungry : needs_fetch lib d.result d ≡ true

  pub Serving-Owns :
      {rest : List (ℕ × PgResult)} {chunk left : List (Option Text)} {d : DatastoreIterator lib}
      → Serving lib cursor rest chunk left d
      → Owns lib d rest
  Serving-Owns {rest} {d} s = record {
    once = s.once;
    top = subst (λ k. Top k d.heap.live rest) (sym s.points) (s.current, s.top);
  }

  pub Serving-Idle :
      {rest : List (ℕ × PgResult)} {left : List (Option Text)} {d : DatastoreIterator lib}
      → Serving lib cursor rest [] left d
      → Idle rest left d
  Serving-Idle {d} s = record {
    opened = s.opened;
    fetches = s.fetches;
    closes = s.closes;
    owns = Serving-Owns s;
    conn = s.conn;
    connected = s.connected;
    serves = s.serves;
    hungry = ap (λ k. needs_fetch lib k d) s.points ∙ used_up;
  }
    where
      used_up : needs_fetch lib (some s.pointer) d ≡ true
      used_up =
          unfold needs_fetch in
          ground (
            arith,
            ap n_tuples (pointer_found lib cursor s),
            drop-eq-nil d.result_offset s.current.rows s.chunk_at s.within,
          )

  -- The fetch frees the old result and makes the next rows the current ones.
  pub fetch-Serving :
      {rest : List (ℕ × PgResult)} {left : List (Option Text)} {d : DatastoreIterator lib}
      → Idle rest left d
      → (s : Serving lib cursor rest (take n left) (drop n left) (fetch lib d)) × (s.current.rows
          ≡ take n left)
        × ((fetch lib d).was_error ≡ d.was_error)
  unfolding fetch
  fetch-Serving {rest} {left} {d} s =
      let d' : DatastoreIterator lib = record d {
        heap = clear d.heap d.result;
        result_offset = 0;
      } in
      let (live, once) = clear-Top lib d.result d.heap rest s.owns.once s.owns.top in
      let (answer, serves) =
        subst
          (λ command.
            ((lib.exec s.conn command).1 ≡ some (record { status = tuples_ok; rows = take n left }))
            × cursor.At (lib.exec s.conn command).0 (drop n left))
          (sym s.fetches) (cursor.fetch_rows s.conn left s.serves) in
      let fetched = pq_exec-some lib d' s.conn d.fetch_text _ s.connected answer in
      subst
        (λ (x : DatastoreIterator lib × Option ℕ).
          (s : Serving lib cursor rest (take n left) (drop n left) (record (x.0) { result = x.1 }))
          × (s.current.rows ≡ take n left)
          × (x.0.was_error ≡ d.was_error))
        (sym fetched)
        (
          record {
            opened = s.opened;
            fetches = s.fetches;
            closes = s.closes;
            once = once;
            conn = (lib.exec s.conn d.fetch_text).0;
            connected = refl;
            serves = serves;
            pointer = d'.heap.fresh;
            current = record { status = tuples_ok; rows = take n left };
            points = refl;
            top = ap (◌∷◌ (d'.heap.fresh, record { status = tuples_ok; rows = take n left })) live;
            tuples = refl;
            chunk_at = refl;
            within = omega arith;
          },
          refl,
          refl,
        )

  -- While the current result has rows, `next` takes the first of them.
  pub next-yield :
      {rest : List (ℕ × PgResult)} {x : Option Text} {xs left : List (Option Text)}
      {d : DatastoreIterator lib}
      → Serving lib cursor rest (x ∷ xs) left d
      → next lib d ≡ yield_row lib d
  next-yield {d} s =
      next_cases lib (λ y. y ≡ yield_row lib d) d (λ e. absurd (fed e))
        (λ _. take_row-yield lib cursor s)
    where
      fed : needs_fetch lib d.result d ≡ true → ⊥
      fed e =
          unfold needs_fetch in
          ground (
            arith,
            ap (λ k. needs_fetch lib k d) (sym s.points) ∙ e,
            ap n_tuples (pointer_found lib cursor s),
            drop-eq-cons d.result_offset s.current.rows s.chunk_at,
          )

  -- Otherwise it fetches, and takes the first of the new rows.
  pub next-fetch :
      {rest : List (ℕ × PgResult)} {left : List (Option Text)} {d : DatastoreIterator lib}
      → Idle rest left d
      → next lib d ≡ take_row lib (fetch lib d)
  next-fetch {d} s =
      next_cases lib (λ y. y ≡ take_row lib (fetch lib d)) d (λ _. refl) (λ e. cc (s.hungry))

  -- A fetch that brings no row ends the iteration.
  pub take_row-exhausted :
      {rest : List (ℕ × PgResult)} {d : DatastoreIterator lib}
      → Idle rest [] d
      → take_row lib (fetch lib d) ≡ exhausted lib (fetch lib d)
  take_row-exhausted {d} s =
      let (f, rows, same) = fetch-Serving s in
      take_row_cases lib (λ y. y ≡ exhausted lib (fetch lib d)) (fetch lib d)
        (λ e. cc (current_tuples lib cursor f)) (λ _ _. refl)
        (λ _ e. absurd (
          ground (
            arith,
            current_length lib cursor f,
            ap length rows,
            length-take {A = Option Text} n [],
          )))
