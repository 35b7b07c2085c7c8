-- ===== src/Tools/DataDump/Complete.antt =====
-- The rows that the query loops of dataDump.cpp read if no round ends the program, from the call of
-- the store to the drop of its pointer.
use mathlib.Core.Option
use mathlib.Core.Path.{subst, ap₂}
use api_pack.Base.{
  ℕ, ◌+◌, ◌<◌, ◌≡◌, refl, sym, ap, ◌∙◌, true, false, Option, none, some, List, [], ◌∷◌, map, length,
  not, ◌%◌, ◌^◌, if◌then◌else◌,
}
use api_pack.Base.Text.{Text, Decimal, codes}
use api_pack.Datastore.Topics.{Topic}
use api_pack.Datastore.Query.{ids_query, fetch_command, close_command}
use api_pack.Datastore.Libpq.{Libpq, PgResult, command_ok}
use api_pack.Datastore.Libpq.Cursor.{Cursor}
use api_pack.Datastore.Iterator
use api_pack.Datastore.Iterator.{
  DatastoreIterator, ready, close_and_reset, execute_ids, execute_dates, execute_calendar,
  execute_query,
}
use api_pack.Datastore.Iterator.Keeping.{OnThread, keeps_thread, close_and_reset_keeps}
use api_pack.Datastore.Iterator.Executing.{executed, execute_query_ok}
use api_pack.Datastore.Iterator.Stream.{executed-Idle}
use api_pack.Datastore.Iterator.Fetching.{seen_row, Seen}
use api_pack.Datastore.Iterator.Fetching.Closing.{close-Ended}
use api_pack.Datastore.Store.{Datastore, guarded, data_ids, drop_pointer, set_fetch_size}
use api_pack.Utils.IntrusiveTracked.{intrusive_ptr_add_ref}
use api_pack.Datastore.Store.Sessions.{drop_last}
use api_pack.Tools.DataDump.{test_query, drain, with_iterator}
use api_pack.Tools.DataDump.Rows.{Drains, drain-Drains}

module _ (lib : Libpq) (p : Decimal) where
  -- What a query loop returns: the rows as they were read, and a store that is ready on a connection
  -- whose transaction has ended, has no references, notes no new error, freed nothing twice, and
  -- holds one more result than before.
  pub record Dumped (Finished : lib.Conn → Type 0) (s : Datastore lib) (r : PgResult)
      (rows : List (Option Text)) (result : Option (Datastore lib × List Seen)) : Type 0 where
    pub store : Datastore lib
    pub returns : result ≡ some (store, map seen_row rows)
    pub is_ready : store.iter.state ≡ ready
    pub no_references : store.tracked.reference ≡ 0
    pub same_error : store.iter.was_error ≡ s.iter.was_error
    pub by_store : store.tracked.creator ≡ true
    pub same_thread : store.iter.thread_id ≡ s.iter.thread_id
    pub once : store.iter.heap.double_free ≡ false
    pub conn : lib.Conn
    pub connected : store.iter.connection ≡ some conn
    pub finished : Finished conn
    pub one_more : store.iter.heap.live ≡ (s.iter.heap.fresh + 1, r) ∷ s.iter.heap.live

  -- The store that is handed to the loop.
  abbrev pub handed : Datastore lib → DatastoreIterator lib → Datastore lib
  handed s d = record s {
    fetch_size = 2;
    tracked = record { reference = 1; creator = true };
    iter = d;
  }

  pub guarded-handed :
      (s : Datastore lib) (execute : DatastoreIterator lib → DatastoreIterator lib)
      → s.iter.state ≡ ready
      → s.tracked.reference ≡ 0
      → s.tracked.creator ≡ true
      → guarded lib (set_fetch_size lib s 2) execute ≡ (handed s (execute s.iter), some s.data_iter)
  unfolding guarded set_fetch_size intrusive_ptr_add_ref
  guarded-handed s execute st ref cr =
      ap
        (λ state.
          if not (not (Iterator.is_open state)) then (record s { fetch_size = 2 }, none) else (
            record (handed s (execute s.iter)) {
              tracked = record {
                reference = (s.tracked.reference + 1) % 2 ^ 64;
                creator = s.tracked.creator;
              };
            },
            some s.data_iter,
          ))
        st
      ∙ ap₂
          (λ n k. (
            record (handed s (execute s.iter)) {
              tracked = record { reference = (n + 1) % 2 ^ 64; creator = k };
            },
            some s.data_iter,
          ))
          ref cr

  -- The loop and the drop of the pointer.
  with_iterator-Dumped :
      (Finished : lib.Conn → Type 0) (s : Datastore lib) (r : PgResult) (rows : List (Option Text))
      (fuel : ℕ) (d : DatastoreIterator lib)
      → Drains lib Finished
          ((s.iter.heap.fresh + 1, r) ∷ s.iter.heap.live)
          s.iter.thread_id
          s.iter.was_error
          rows
          (drain lib fuel d)
      → Dumped Finished s r rows (with_iterator lib fuel (handed s d, some s.data_iter))
  unfolding with_iterator
  with_iterator-Dumped Finished s r rows fuel d (d', e, ended, on) =
      let after = close-Ended lib Finished d' _ _ ended in
      record {
        store = record (handed s (close_and_reset lib d')) {
          tracked = record { reference = 0; creator = true };
        };
        returns =
            ap
              (Option.map
                (λ (x : DatastoreIterator lib × List Seen). (drop_pointer lib (handed s x.0), x.1)))
              e
            ∙ ap (λ x. some (x, map seen_row rows)) (drop_last lib (handed s d') refl refl);
        is_ready = after.is_ready;
        no_references = refl;
        same_error = after.error;
        by_store = refl;
        same_thread =
            close_and_reset_keeps lib (OnThread lib s.iter.thread_id)
              (keeps_thread lib s.iter.thread_id) d' on;
        once = after.once;
        conn = after.conn;
        connected = after.connected;
        finished = after.finished;
        one_more = after.live;
      }

  -- A query loop whose call of the store runs `query`.
  pub loop-Dumped :
      (s : Datastore lib) (execute : DatastoreIterator lib → DatastoreIterator lib) (query : Text)
      (topic : Topic) (c : lib.Conn) (b r : PgResult) (t : Text)
      (cursor : Cursor lib (fetch_command p 2 topic t) (close_command p topic t) 2)
      (rows : List (Option Text)) (fuel : ℕ)
      → s.iter.thread_id ≡ t
      → execute s.iter ≡ execute_query lib p (record (s.iter) { query_text = query }) query topic 2
      → s.iter.state ≡ ready
      → s.iter.heap.double_free ≡ false
      → s.tracked.reference ≡ 0
      → s.tracked.creator ≡ true
      → s.iter.connection ≡ some c
      → (lib.exec c (codes "BEGIN")).1 ≡ some b
      → b.status ≡ command_ok
      → (lib.exec (lib.exec c (codes "BEGIN")).0 query).1 ≡ some r
      → r.status ≡ command_ok
      → cursor.At (lib.exec (lib.exec c (codes "BEGIN")).0 query).0 rows
      → length rows < fuel
      → Dumped cursor.Finished s r rows
          (with_iterator lib fuel (guarded lib (set_fetch_size lib s 2) execute))
  loop-Dumped s execute query topic c b r t cursor rows fuel on runs st once ref cr e hb sb hr sr at
        enough =
      let d : DatastoreIterator lib = record (s.iter) { query_text = query } in
      let c' = (lib.exec (lib.exec c (codes "BEGIN")).0 query).0 in
      let rest : List (ℕ × PgResult) = (s.iter.heap.fresh + 1, r) ∷ s.iter.heap.live in
      let drains =
        drain-Drains lib cursor rest fuel rows (executed lib p d c' r topic 2) enough
          ([], rows, refl, executed-Idle lib p d c' r topic 2 t cursor rows on once at) in
      subst (λ x. Dumped cursor.Finished s r rows (with_iterator lib fuel x))
        (sym (
          guarded-handed s execute st ref cr
          ∙ ap (λ x. (handed s x, some s.data_iter))
              (runs ∙ execute_query_ok lib p d c query topic 2 b r e hb sb hr sr)))
        (with_iterator-Dumped cursor.Finished s r rows fuel _ drains)

  -- The same for the query of some ids.
  pub test_query-Dumped :
      (s : Datastore lib) (ids : List ℕ) (topic : Topic) (c : lib.Conn) (b r : PgResult)
      (cursor : Cursor lib
        (fetch_command p 2 topic s.iter.thread_id)
        (close_command p topic s.iter.thread_id)
        2)
      (rows : List (Option Text)) (fuel : ℕ)
      → s.iter.state ≡ ready
      → s.iter.heap.double_free ≡ false
      → s.tracked.reference ≡ 0
      → s.tracked.creator ≡ true
      → s.iter.connection ≡ some c
      → (lib.exec c (codes "BEGIN")).1 ≡ some b
      → b.status ≡ command_ok
      → (lib.exec (lib.exec c (codes "BEGIN")).0 (ids_query p ids topic s.iter.thread_id)).1
        ≡ some r
      → r.status ≡ command_ok
      → cursor.At
          (lib.exec (lib.exec c (codes "BEGIN")).0 (ids_query p ids topic s.iter.thread_id)).0
          rows
      → length rows < fuel
      → Dumped cursor.Finished s r rows (test_query lib p fuel s ids topic)
  unfolding test_query data_ids execute_ids set_fetch_size
  test_query-Dumped s ids topic c b r cursor rows fuel st once ref cr e hb sb hr sr at enough =
      loop-Dumped s (λ d. execute_ids lib p d ids topic 2) (ids_query p ids topic s.iter.thread_id)
        topic c b r s.iter.thread_id cursor rows fuel refl refl st once ref cr e hb sb hr sr at
        enough
