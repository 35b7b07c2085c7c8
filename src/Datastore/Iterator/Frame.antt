-- ===== src/Datastore/Iterator/Frame.antt =====
-- What the commands that DatastoreIterator.cpp runs on its connection leave alone.
use api_pack.Base.{
  ℕ, ◌+◌, ◌≡◌, refl, sym, ap, ◌∙◌, arith, Bool, true, false, Option, none, some, List, ◌∷◌,
  if◌then◌else◌,
}
use api_pack.Base.Text.{Text, codes}
use api_pack.Datastore.Libpq.{
  Libpq, PgResult, Heap, clear, find, remove, deref, ExecStatus, command_ok, tuples_ok, failed,
  result_status,
}
use api_pack.Datastore.Iterator.{
  DatastoreIterator, State, exec_and_clear, close_cursor, pq_exec, exec_on, run_on, is_some_conn,
  note_failure, free, check_and_clear, is_valid,
}

-- All but the texts, the connection's state, the error flag and the next pointer of the heap.
pub record Kept : Type 0 where
  pub live : List (ℕ × PgResult)
  pub double_free : Bool
  pub result : Option ℕ
  pub state : State
  pub offset : ℕ
  pub fetch_text : Text
  pub close_text : Text
  pub valid : Bool

-- The newest result is the first to be found.
pub find_new : (h : Heap) (r : PgResult) → find h.fresh ((h.fresh, r) ∷ h.live) ≡ some r
unfolding find
find_new h r = ground arith

-- Freeing the newest result leaves the others.
pub clear_new :
    (h : Heap) (r : PgResult) (n : ℕ) (b : Bool)
    → clear (record { fresh = n; live = (h.fresh, r) ∷ h.live; double_free = b }) (some h.fresh)
      ≡ record { fresh = n; live = h.live; double_free = b }
unfolding clear find remove
clear_new h r n b = ground arith

module _ (lib : Libpq) where
  abbrev pub kept : DatastoreIterator lib → Kept
  kept d = record {
    live = d.heap.live;
    double_free = d.heap.double_free;
    result = d.result;
    state = d.state;
    offset = d.result_offset;
    fetch_text = d.fetch_text;
    close_text = d.close_text;
    valid = is_valid lib d;
  }

  -- The state of `pq_exec` on a connection that answers `r`.
  abbrev pub with_new : DatastoreIterator lib → lib.Conn → PgResult → DatastoreIterator lib
  with_new d c r = record d {
    connection = some c;
    heap = record {
      fresh = d.heap.fresh + 1;
      live = (d.heap.fresh, r) ∷ d.heap.live;
      double_free = d.heap.double_free;
    };
  }

  abbrev with_valid : DatastoreIterator lib → Bool → Kept
  with_valid d b = record (kept d) { valid = b }

  check_new :
      (d : DatastoreIterator lib) (c : lib.Conn) (r : PgResult) (s : ExecStatus)
      → kept (free lib (note_failure lib (with_new d c r) s) (some d.heap.fresh))
        ≡ with_valid d true
  unfolding free note_failure
  check_new d c r command_ok = rw clear_new
  check_new d c r tuples_ok = rw clear_new
  check_new d c r failed = rw clear_new

  run_on-kept :
      (d : DatastoreIterator lib) (c : lib.Conn) (r : Option PgResult)
      → kept (check_and_clear lib (run_on lib d (c, r))) ≡ with_valid d true
  unfolding run_on check_and_clear
  run_on-kept d c none = refl
  run_on-kept d c (some r) =
      check_new d c r (result_status (deref (with_new d c r).heap (some d.heap.fresh)))

  exec_on-kept :
      (d : DatastoreIterator lib) (c : Option lib.Conn) (command : Text)
      → is_valid lib d ≡ is_some_conn lib c
      → kept (check_and_clear lib (exec_on lib d c command)) ≡ kept d
  unfolding exec_on check_and_clear
  exec_on-kept d none command e = refl
  exec_on-kept d (some c) command e =
      run_on-kept d (lib.exec c command).0 (lib.exec c command).1 ∙ ap (with_valid d) (sym e)

  pub exec_and_clear-kept :
      (d : DatastoreIterator lib) (command : Text) → kept (exec_and_clear lib d command) ≡ kept d
  unfolding exec_and_clear pq_exec
  exec_and_clear-kept d command = exec_on-kept d d.connection command refl

  twice_if :
      (d : DatastoreIterator lib) (b : Bool) (first second : Text)
      → kept (if b then exec_and_clear lib (exec_and_clear lib d first) second else d) ≡ kept d
  twice_if d true first second =
      exec_and_clear-kept (exec_and_clear lib d first) second ∙ exec_and_clear-kept d first
  twice_if d false first second = refl

  pub close_cursor-kept : (d : DatastoreIterator lib) → kept (close_cursor lib d) ≡ kept d
  unfolding close_cursor
  close_cursor-kept d = twice_if d (is_valid lib d) d.close_text (codes "END")
