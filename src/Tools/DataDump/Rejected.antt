-- ===== src/Tools/DataDump/Rejected.antt =====
-- `testQuery` of dataDump.cpp when the server rejects the query.
use mathlib.Core.Option
use api_pack.Base.{ℕ, suc, ◌≡◌, refl, ap, ◌∙◌, true, false, Option, none, some, List, []}
use api_pack.Base.Text.{Text, Decimal}
use api_pack.Datastore.Topics.{Topic}
use api_pack.Datastore.Query.{ids_query, fetch_command, close_command}
use api_pack.Datastore.Libpq.{Libpq}
use api_pack.Datastore.Libpq.Rejection.{Rejection}
use api_pack.Datastore.Iterator.{
  DatastoreIterator, ready, next, close_and_reset, execute_query, execute_ids,
}
use api_pack.Datastore.Iterator.Rejected.{execute_query-Rejected}
use api_pack.Datastore.Iterator.Refused.{Refused, close-Refused, next-Refused}
use api_pack.Datastore.Iterator.Fetching.{Seen}
use api_pack.Datastore.Store.{Datastore, data_ids, set_fetch_size, drop_pointer}
use api_pack.Datastore.Store.Sessions.{drop_last}
use api_pack.Tools.DataDump.{test_query, drain, round, with_iterator}
use api_pack.Tools.DataDump.Complete.{handed, guarded-handed}
use api_pack.Datastore.ThriftConverter.{Thrift}
use api_pack.Tools.DataDump.Objects
use api_pack.Tools.DataDump.Objects.{Ending, finished, convert_row}
use api_pack.Tools.DataDump.Objects.Outcomes.{Answers, convert_all, with_converter-Answers}

module _ (lib : Libpq) (p : Decimal) (ids : List ℕ) (topic : Topic) (t : Text)
    (pg : Rejection lib
      (ids_query p ids topic t)
      (fetch_command p 2 topic t)
      (close_command p topic t)) where
  -- The loop finished without an object, and the store is ready, without references and outside a transaction; the
  -- error flag is set, and the failed result of a FETCH is on the heap.
  abbrev pub Refuses :
      (thrift : Thrift)
      → Datastore lib
      → Option (Datastore lib × Ending × List thrift.Object)
      → Type 0
  Refuses thrift s result =
      (s' : Datastore lib) × (result ≡ some (s', finished, []))
      × Refused lib p (ids_query p ids topic t) topic 2 t pg s.iter.heap.live s'.iter
      × (s'.tracked.reference ≡ 0)

  -- The same for the loop without the converter.
  abbrev ReadsNothing : Datastore lib → Option (Datastore lib × List Seen) → Type 0
  ReadsNothing s result =
      (s' : Datastore lib) × (result ≡ some (s', []))
      × Refused lib p (ids_query p ids topic t) topic 2 t pg s.iter.heap.live s'.iter
      × (s'.tracked.reference ≡ 0)

  drain_refused :
      (f : ℕ) (d : DatastoreIterator lib)
      → (next lib d).1 ≡ none
      → drain lib (suc f) d ≡ some ((next lib d).0, [])
  unfolding drain round
  drain_refused f d e = ap (λ o. round lib (drain lib f) ((next lib d).0, o)) e

  rejected-ReadsNothing :
      (s : Datastore lib) (c : lib.Conn) (fuel : ℕ)
      → s.iter.state ≡ ready
      → s.iter.heap.double_free ≡ false
      → s.tracked.reference ≡ 0
      → s.tracked.creator ≡ true
      → s.iter.thread_id ≡ t
      → s.iter.connection ≡ some c
      → pg.Idle c
      → ReadsNothing s (test_query lib p (suc fuel) s ids topic)
  unfolding test_query data_ids execute_ids set_fetch_size with_iterator
  rejected-ReadsNothing s c fuel st once ref cr on e idle =
      let q = ids_query p ids topic t in
      let asked : DatastoreIterator lib = record (s.iter) { query_text = q } in
      let d = execute_query lib p asked q topic 2 in
      let rejected = execute_query-Rejected lib p q topic 2 t pg asked c once on e idle in
      let (no_row, refused) = next-Refused lib p q topic 2 t pg s.iter.heap.live d rejected in
      let d' = (next lib d).0 in
      (
        record (handed lib p s (close_and_reset lib d')) {
          tracked = record { reference = 0; creator = true };
        },
        ap (with_iterator lib (suc fuel))
              (guarded-handed lib p s (λ x. execute_ids lib p x ids topic 2) st ref cr)
            ∙ ap
                (λ u.
                  let text = ids_query p ids topic u in
                  with_iterator lib (suc fuel) (
                    handed lib p s
                        (execute_query lib p (record (s.iter) { query_text = text }) text topic 2),
                    some s.data_iter,
                  ))
                on
            ∙ ap
                (Option.map (λ (x : DatastoreIterator lib × List Seen).
                  (drop_pointer lib (handed lib p s x.0), x.1)))
                (drain_refused fuel d no_row)
            ∙ ap (λ x. some (x, [])) (drop_last lib (handed lib p s d') refl refl),
        close-Refused lib p q topic 2 t pg s.iter.heap.live d' refused,
        refl,
      )

  -- If the server rejects the query of the ids and keeps what PostgreSQL documents of an aborted
  -- transaction, `testQuery` on a ready store without references, on a connection outside a
  -- transaction, ends in its first round and reads nothing, so it makes no object and does not crash.
  -- The store is then ready, without references and outside a transaction, so it takes the next
  -- query; its error flag is set, and of the results only that of a FETCH, which failed, stays
  -- allocated.
  pub test_query-Refuses :
      (thrift : Thrift) (s : Datastore lib) (c : lib.Conn) (fuel : ℕ)
      → s.iter.state ≡ ready
      → s.iter.heap.double_free ≡ false
      → s.tracked.reference ≡ 0
      → s.tracked.creator ≡ true
      → s.iter.thread_id ≡ t
      → s.iter.connection ≡ some c
      → pg.Idle c
      → Refuses thrift s (Objects.test_query thrift lib p (suc fuel) s ids topic)
  unfolding test_query Objects.test_query Answers convert_all
  test_query-Refuses thrift s c fuel st once ref cr on e idle =
      let (s', reads, refused, none_left) =
        rejected-ReadsNothing s c fuel st once ref cr on e idle in
      let (s'', returns, same) =
        with_converter-Answers thrift lib (convert_row thrift topic) (suc fuel)
          (data_ids lib p (set_fetch_size lib s 2) ids topic) s' [] reads in
      (s', returns ∙ ap (λ x. some (x, finished, [])) same, refused, none_left)
