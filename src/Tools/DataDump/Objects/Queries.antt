-- ===== src/Tools/DataDump/Objects/Queries.antt =====
-- `testQuery` of dataDump.cpp with its converter, from the call of the store on.
use mathlib.Core.Path.{subst}
use api_pack.Base.{ℕ, ◌+◌, ◌<◌, ◌≡◌, true, false, All, Option, some, List, ◌∷◌, length}
use api_pack.Base.Text.{Text, Decimal, codes}
use api_pack.Datastore.Topics.{Topic}
use api_pack.Datastore.Query.{ids_query, fetch_command, close_command}
use api_pack.Datastore.Libpq.{Libpq, PgResult, command_ok}
use api_pack.Datastore.Libpq.Cursor.{Cursor}
use api_pack.Datastore.Iterator.{ready}
use api_pack.Datastore.Store.{Datastore, data_ids, set_fetch_size}
use api_pack.Datastore.ThriftConverter.{Thrift}
use api_pack.Tools.DataDump
use api_pack.Tools.DataDump.Complete.{test_query-Dumped}
use api_pack.Tools.DataDump.Objects
use api_pack.Tools.DataDump.Objects.{convert_row}
use api_pack.Tools.DataDump.Objects.Outcomes.{Answers, with_converter-Answers}
use api_pack.Tools.DataDump.Objects.Readings.{Fits, rows_outcome, convert_all-rows_outcome}

-- A store that a query leaves: ready on a connection whose transaction has ended, without
-- references, no new error noted, nothing freed twice, and one more result than before.
pub record Left (lib : Libpq) (Finished : lib.Conn → Type 0) (s : Datastore lib) (r : PgResult)
    (store : Datastore lib) : Type 0 where
  pub is_ready : store.iter.state ≡ ready
  pub no_references : store.tracked.reference ≡ 0
  pub same_error : store.iter.was_error ≡ s.iter.was_error
  pub once : store.iter.heap.double_free ≡ false
  pub conn : lib.Conn
  pub connected : store.iter.connection ≡ some conn
  pub finished : Finished conn
  pub one_more : store.iter.heap.live ≡ (s.iter.heap.fresh + 1, r) ∷ s.iter.heap.live

-- With a ready store without references, a connection on which BEGIN and the query succeed, and a
-- cursor that keeps PostgreSQL's promises at `rows`, each of fewer than 2^32 bytes, `testQuery` with
-- its converter ends within one round more than there are rows. For stations and schedule days it
-- keeps, row by row, the object that Thrift fills from the bytes, or a fresh one for SQL's null; at
-- the first row whose bytes end too early for Thrift it reads through the null pointer, and at the
-- first one for which Thrift throws anything else the exception leaves it. For the other topics it
-- keeps no object. If it neither crashes nor throws, it has read all the rows and leaves the store
-- ready, without references and outside a transaction, and one result, that of the query, stays
-- allocated.
pub test_query-Answers :
    (thrift : Thrift) (lib : Libpq) (p : Decimal) (s : Datastore lib) (ids : List ℕ) (topic : Topic)
    (c : lib.Conn) (b r : PgResult)
    (cursor : Cursor lib
      (fetch_command p 2 topic s.iter.thread_id)
      (close_command p topic s.iter.thread_id)
      2)
    (rows : List (Option Text)) (fuel : ℕ)
    → s.iter.state ≡ ready
    → s.iter.heap.double_free ≡ false
    → s.tracked.reference ≡ 0
    → s.tracked.creator ≡ true
    → s.iter.connection ≡ some c
    → (lib.exec c (codes "BEGIN")).1 ≡ some b
    → b.status ≡ command_ok
    → (lib.exec (lib.exec c (codes "BEGIN")).0 (ids_query p ids topic s.iter.thread_id)).1 ≡ some r
    → r.status ≡ command_ok
    → cursor.At
        (lib.exec (lib.exec c (codes "BEGIN")).0 (ids_query p ids topic s.iter.thread_id)).0
        rows
    → All Fits rows
    → length rows < fuel
    → (store : Datastore lib) × Left lib cursor.Finished s r store
      × Answers thrift lib store
          (rows_outcome thrift topic rows)
          (Objects.test_query thrift lib p fuel s ids topic)
unfolding DataDump.test_query Objects.test_query
test_query-Answers thrift lib p s ids topic c b r cursor rows fuel st once ref cr e hb sb hr sr at
      fit enough =
    let dumped =
      test_query-Dumped lib p s ids topic c b r cursor rows fuel st once ref cr e hb sb hr sr at
        enough in
    (
      dumped.store,
      record {
        is_ready = dumped.is_ready;
        no_references = dumped.no_references;
        same_error = dumped.same_error;
        once = dumped.once;
        conn = dumped.conn;
        connected = dumped.connected;
        finished = dumped.finished;
        one_more = dumped.one_more;
      },
      subst
          (λ outcome.
            Answers thrift lib dumped.store outcome
              (Objects.test_query thrift lib p fuel s ids topic))
          (convert_all-rows_outcome thrift topic rows fit)
          (with_converter-Answers thrift lib (convert_row thrift topic) fuel
            (data_ids lib p (set_fetch_size lib s 2) ids topic) dumped.store _ dumped.returns),
    )
