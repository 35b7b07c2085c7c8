-- ===== src/Tools/DataDump/Main/Sequence.antt =====
-- The queries of `main` of dataDump.cpp, one after the other on one connection, as far as the rows
-- that they read.
use api_pack.Base.{ℕ, suc, ◌≡◌, ◌<◌, ap, ◌∙◌, true, false, Option, some, List, map, length}
use api_pack.Base.Text.{Text, Decimal}
use api_pack.Datastore.Topics.{Topic, metamorphosis_schedule_day}
use api_pack.Datastore.Query.{ids_query, dates_query}
use api_pack.Datastore.Libpq.{Libpq}
use api_pack.Datastore.Libpq.Transactions.{Transactions}
use api_pack.Datastore.Iterator.{
  DatastoreIterator, ready, execute_query, execute_ids, execute_dates,
}
use api_pack.Datastore.Iterator.Fetching.{Seen, seen_row}
use api_pack.Datastore.Store.{Datastore, data_ids, data_dates, guarded, set_fetch_size}
use api_pack.Tools.DataDump.{test_query, test_schedule_query, with_iterator}
use api_pack.Tools.DataDump.Complete.{loop-Dumped}

module _ (lib : Libpq) (p : Decimal) (t : Text) (pg : Transactions lib p 2 t) (fuel : ℕ) where
  -- A store between two queries: ready, without references, and outside a transaction.
  pub record Rested (s : Datastore lib) : Type 0 where
    pub is_ready : s.iter.state ≡ ready
    pub once : s.iter.heap.double_free ≡ false
    pub no_references : s.tracked.reference ≡ 0
    pub by_store : s.tracked.creator ≡ true
    pub on_thread : s.iter.thread_id ≡ t
    pub conn : lib.Conn
    pub connected : s.iter.connection ≡ some conn
    pub idle : pg.Idle conn

  -- A query reads `rows`, and the store rests again, with one result more.
  abbrev pub Queried :
      Datastore lib → List (Option Text) → Option (Datastore lib × List Seen) → Type 0
  Queried s rows result =
      (s' : Datastore lib) × (result ≡ some (s', map seen_row rows))
      × Rested s'
      × (s'.iter.was_error ≡ s.iter.was_error)
      × (length s'.iter.heap.live ≡ suc (length s.iter.heap.live))

  loop-Queried :
      (s : Datastore lib) (execute : DatastoreIterator lib → DatastoreIterator lib) (query : Text)
      (topic : Topic) (rows : List (Option Text))
      → execute s.iter ≡ execute_query lib p (record (s.iter) { query_text = query }) query topic 2
      → Rested s
      → pg.Selects topic query rows
      → length rows < fuel
      → Queried s rows (with_iterator lib fuel (guarded lib (set_fetch_size lib s 2) execute))
  loop-Queried s execute query topic rows runs rested selects enough =
      let (b, begins, fine, begun) = pg.begin_ok rested.conn rested.idle in
      let (r, answers, fine', at) = pg.query_ok _ topic query rows begun selects in
      let dumped =
        loop-Dumped lib p s execute query topic rested.conn b r t (pg.cursor topic) rows fuel
          rested.on_thread runs rested.is_ready rested.once rested.no_references rested.by_store
          rested.connected begins fine answers fine' at enough in
      (
        dumped.store,
        dumped.returns,
        record {
          is_ready = dumped.is_ready;
          once = dumped.once;
          no_references = dumped.no_references;
          by_store = dumped.by_store;
          on_thread = dumped.same_thread ∙ rested.on_thread;
          conn = dumped.conn;
          connected = dumped.connected;
          idle = pg.finished_idle topic dumped.conn dumped.finished;
        },
        dumped.same_error,
        ap length dumped.one_more,
      )

  pub test_query-Queried :
      (s : Datastore lib) (ids : List ℕ) (topic : Topic) (rows : List (Option Text))
      → Rested s
      → pg.Selects topic (ids_query p ids topic t) rows
      → length rows < fuel
      → Queried s rows (test_query lib p fuel s ids topic)
  unfolding test_query data_ids execute_ids set_fetch_size
  test_query-Queried s ids topic rows rested selects enough =
      loop-Queried s (λ d. execute_ids lib p d ids topic 2) (ids_query p ids topic t) topic rows
        (ap
          (λ u.
            let q = ids_query p ids topic u in
            execute_query lib p (record (s.iter) { query_text = q }) q topic 2)
          rested.on_thread)
        rested selects enough

  pub test_schedule_query-Queried :
      (s : Datastore lib) (ids : List ℕ) (from to : Text) (rows : List (Option Text))
      → Rested s
      → pg.Selects metamorphosis_schedule_day (dates_query p from to ids t) rows
      → length rows < fuel
      → Queried s rows (test_schedule_query lib p fuel s ids from to)
  unfolding test_schedule_query data_dates execute_dates set_fetch_size
  test_schedule_query-Queried s ids from to rows rested selects enough =
      loop-Queried s (λ d. execute_dates lib p d from to ids 2) (dates_query p from to ids t)
        metamorphosis_schedule_day rows
        (ap
          (λ u.
            let q = dates_query p from to ids u in
            execute_query lib p (record (s.iter) { query_text = q }) q metamorphosis_schedule_day 2)
          rested.on_thread)
        rested selects enough
