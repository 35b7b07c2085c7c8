-- ===== src/Datastore/Iterator/Fetching/Closing.antt =====
-- How an iteration of DatastoreIterator.cpp ends when CLOSE and END succeed.
use mathlib.Core.Path.{subst}
use api_pack.Base.{
  ℕ, ◌+◌, ◌≡◌, refl, sym, ap, ◌∙◌, Bool, false, Option, none, some, List, if◌then◌else◌,
}
use api_pack.Base.Text.{Text, codes}
use api_pack.Datastore.Libpq.{Libpq, PgResult, command_ok, deref, clear, result_status, ExecStatus}
use api_pack.Datastore.Libpq.Cursor.{Cursor}
use api_pack.Datastore.Iterator.{
  DatastoreIterator, ready, open_cursor, close_and_reset, close_in, close_cursor, drop_result,
  exec_and_clear, check_and_clear, note_failure, free, is_some_conn,
}
use api_pack.Datastore.Iterator.Frame.{with_new, find_new, clear_new}
use api_pack.Datastore.Iterator.Memory.{clear-Top, Owns}
use api_pack.Datastore.Iterator.Fetching.Refill.{pq_exec-some}

module _ (lib : Libpq) where
  -- The state after a command whose result was freed.
  abbrev pub after_command : DatastoreIterator lib → lib.Conn → DatastoreIterator lib
  after_command d c = record d {
    connection = some c;
    heap = record {
      fresh = d.heap.fresh + 1;
      live = d.heap.live;
      double_free = d.heap.double_free;
    };
  }

  pub new_status :
      (d : DatastoreIterator lib) (c : lib.Conn) (r : PgResult)
      → result_status (deref (with_new lib d c r).heap (some d.heap.fresh)) ≡ r.status
  unfolding deref
  new_status d c r = ap result_status (find_new d.heap r)

  freed_ok :
      (d : DatastoreIterator lib) (c : lib.Conn) (r : PgResult) (s : ExecStatus)
      → s ≡ command_ok
      → free lib (note_failure lib (with_new lib d c r) s) (some d.heap.fresh) ≡ after_command d c
  unfolding free note_failure
  freed_ok d c r s e =
      rw e (ap (λ h. record (with_new lib d c r) { heap = h }) (clear_new d.heap r _ _))

  -- A command that succeeds changes the connection only.
  pub exec_and_clear_ok :
      (d : DatastoreIterator lib) (c : lib.Conn) (command : Text) (r : PgResult)
      → d.connection ≡ some c
      → (lib.exec c command).1 ≡ some r
      → r.status ≡ command_ok
      → exec_and_clear lib d command ≡ after_command d (lib.exec c command).0
  unfolding exec_and_clear check_and_clear
  exec_and_clear_ok d c command r e h s =
      ap (check_and_clear lib) (pq_exec-some lib d c command r e h)
      ∙ freed_ok d (lib.exec c command).0 r _ (new_status d (lib.exec c command).0 r ∙ s)

  -- A ready iterator that holds no result, whose error flag is `b`, on a connection that is as
  -- `Finished` tells.
  pub record Ended (Finished : lib.Conn → Type 0) (rest : List (ℕ × PgResult)) (b : Bool)
      (d : DatastoreIterator lib) : Type 0 where
    pub is_ready : d.state ≡ ready
    pub no_result : d.result ≡ none
    pub live : d.heap.live ≡ rest
    pub once : d.heap.double_free ≡ false
    pub error : d.was_error ≡ b
    pub conn : lib.Conn
    pub connected : d.connection ≡ some conn
    pub finished : Finished conn

  -- Closing a ready iterator changes nothing.
  pub close-Ended :
      (Finished : lib.Conn → Type 0) (d : DatastoreIterator lib) (rest : List (ℕ × PgResult))
      (b : Bool)
      → Ended Finished rest b d
      → Ended Finished rest b (close_and_reset lib d)
  unfolding close_and_reset close_in
  close-Ended Finished d rest b e =
      subst (λ x. Ended Finished rest b (record x { state = ready }))
        (sym (ap (λ st. close_in lib st d) e.is_ready))
        (record {
          is_ready = refl;
          no_result = e.no_result;
          live = e.live;
          once = e.once;
          error = e.error;
          conn = e.conn;
          connected = e.connected;
          finished = e.finished;
        })

  module _ {fetch_text close_text : Text} {n : ℕ}
      (cursor : Cursor lib fetch_text close_text n) where
    close_cursor_ok :
        (d : DatastoreIterator lib) (c : lib.Conn) (left : List (Option Text))
        → d.connection ≡ some c
        → d.close_text ≡ close_text
        → cursor.At c left
        → (c₁ : lib.Conn) × (c₂ : lib.Conn) × cursor.Finished c₂
          × (close_cursor lib d ≡ after_command (after_command d c₁) c₂)
    unfolding close_cursor
    close_cursor_ok d c left e t at =
        let (r, answer, ok, closed) =
          subst
            (λ command.
              (r : PgResult) × ((lib.exec c command).1 ≡ some r)
              × (r.status ≡ command_ok)
              × cursor.Closed (lib.exec c command).0)
            (sym t) (cursor.close_ok c left at) in
        let c₁ = (lib.exec c d.close_text).0 in
        let (r', answer', ok', finished) = cursor.end_ok c₁ closed in
        (
          c₁,
          (lib.exec c₁ (codes "END")).0,
          finished,
          ap
                (λ b.
                  if b
                  then exec_and_clear lib (exec_and_clear lib d d.close_text) (codes "END")
                  else d)
                (ap (is_some_conn lib) e)
              ∙ ap (λ x. exec_and_clear lib x (codes "END"))
                  (exec_and_clear_ok d c d.close_text r e answer ok)
              ∙ exec_and_clear_ok (after_command d c₁) c₁ (codes "END") r' refl answer' ok',
        )

    -- Closing an open cursor frees the current result, notes no error and makes the iterator ready.
    pub close_and_reset-Ended :
        (d : DatastoreIterator lib) (c : lib.Conn) (left : List (Option Text))
        (rest : List (ℕ × PgResult))
        → d.state ≡ open_cursor
        → d.connection ≡ some c
        → d.close_text ≡ close_text
        → cursor.At c left
        → Owns lib d rest
        → Ended cursor.Finished rest d.was_error (close_and_reset lib d)
    unfolding close_and_reset close_in drop_result
    close_and_reset-Ended d c left rest opened e t at owns =
        let x : DatastoreIterator lib = record d { heap = clear d.heap d.result; result = none } in
        let (live, once) = clear-Top lib d.result d.heap rest owns.once owns.top in
        let (c₁, c₂, finished, closed) = close_cursor_ok x c left e t at in
        subst (λ y. Ended cursor.Finished rest d.was_error (record y { state = ready }))
          (sym (ap (λ st. close_in lib st d) opened ∙ closed))
          (record {
            is_ready = refl;
            no_result = refl;
            live = live;
            once = once;
            error = refl;
            conn = c₂;
            connected = refl;
            finished = finished;
          })
