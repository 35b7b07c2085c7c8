-- ===== src/Datastore/Iterator/Tests.antt =====
-- An iterator over a server with three rows.
use api_pack.Base.{◌≡◌, refl, arith, true, false, Option, none, some, List, [], ◌∷◌}
use api_pack.Base.Text.{Text, codes}
use api_pack.Base.Printing.{decimal}
use api_pack.Datastore.Topics.{metamorphosis_station}
use api_pack.Datastore.Libpq.{Libpq, PgResult, empty_heap, deref, find, remove, clear, alloc}
use api_pack.Datastore.Libpq.Replay.{replay, replay_cursor, done}
use api_pack.Datastore.Iterator.{
  DatastoreIterator, ready, open_cursor, next, close_and_reset, destruct, execute_query, set_error,
}
use api_pack.Datastore.Iterator.Memory.{Owns, Destroyed, next-Owns}
use api_pack.Datastore.Iterator.Client.{reads, reads-execute_query}
use api_pack.Datastore.Iterator.Fetching.Closing.{Ended}
use api_pack.Datastore.Iterator.Leak.{Queried, execute_query-Queried}
use api_pack.Datastore.Iterator.Keeping.{nexts}
use api_pack.Datastore.Iterator.Fetching.{bytes_at}
use api_pack.Datastore.Iterator.Lifetime.{nexts-bytes_at}
use api_pack.Datastore.Iterator.Lifetime.Heaps.{Descending}
use api_pack.Datastore.Iterator.Errors.{has_error_sticky}

abbrev three_rows : List (Option Text)
three_rows = some (codes "ab") ∷ none ∷ some (codes "c") ∷ []

abbrev lib : Libpq
lib = replay three_rows

abbrev idle : DatastoreIterator lib
idle = record {
  error = [];
  fetch_text = [];
  close_text = [];
  query_text = [];
  result = none;
  state = ready;
  connection = some (record { rows = three_rows });
  thread_id = codes "5";
  connection_string = codes "host=localhost";
  result_offset = 0;
  was_error = false;
  heap = empty_heap;
}

-- Inside a chunk, with the result of the query leaked below.
abbrev reading : DatastoreIterator lib
reading = record idle {
  fetch_text = codes "FETCH 2 in c";
  close_text = codes "CLOSE c";
  state = open_cursor;
  result = some 4;
  result_offset = 1;
  heap = record {
    fresh = 5;
    live =
        (
          4,
          record {
            status = api_pack.Datastore.Libpq.tuples_ok;
            rows = some (codes "ab") ∷ none ∷ [];
          },
        )
        ∷ (1, done)
        ∷ [];
    double_free = false;
  };
}

next-Owns_example :
    Owns lib (next lib reading).0 ((1, done) ∷ [])
    × Owns lib (close_and_reset lib reading) ((1, done) ∷ [])
    × Destroyed open_cursor (some 4) (destruct lib reading).heap.live ((1, done) ∷ [])
    × ((destruct lib reading).heap.double_free ≡ false)
    × ((destruct lib reading).result ≡ none)
next-Owns_example = next-Owns lib reading ((1, done) ∷ []) (record { once = refl; top = (_, refl) })

execute_query-Queried_example :
    Queried lib [] (execute_query lib decimal idle (codes "DECLARE c") metamorphosis_station 2)
execute_query-Queried_example =
    execute_query-Queried lib decimal idle (codes "DECLARE c") metamorphosis_station 2 refl refl

reads-execute_query_example :
    ((reads lib 2 (execute_query lib decimal idle (codes "DECLARE c") metamorphosis_station 2)).1
      ≡ (2, some (codes "ab")) ∷ (0, none) ∷ [])
    × Ended lib
        (λ c. Unit)
        ((1, done) ∷ [])
        false
        (close_and_reset lib
          (reads lib 2
            (execute_query lib decimal idle (codes "DECLARE c") metamorphosis_station 2)).0)
unfolding replay_cursor
reads-execute_query_example =
    reads-execute_query lib decimal idle (record { rows = three_rows }) (codes "DECLARE c")
      metamorphosis_station 1 2 done done
      (replay_cursor three_rows metamorphosis_station (codes "5")) three_rows refl refl refl refl
      refl refl refl

has_error_sticky_example :
    ((next lib (set_error lib reading)).0.was_error ≡ true)
    × ((close_and_reset lib (set_error lib reading)).was_error ≡ true)
    × ((execute_query lib decimal
          (set_error lib reading)
          (codes "DECLARE c")
          metamorphosis_station
          2).was_error
        ≡ true)
has_error_sticky_example =
    has_error_sticky lib decimal (set_error lib reading) (codes "DECLARE c") metamorphosis_station 2
      refl

-- The first object of the chunk is there after one more call of `next`, not after two.
nexts-bytes_at_example :
    (bytes_at (nexts lib 2 reading).heap (some (4, 0)) ≡ none)
    × (bytes_at (nexts lib 2 (close_and_reset lib reading)).heap (some (4, 0)) ≡ none)
unfolding Descending find
nexts-bytes_at_example =
    nexts-bytes_at lib 2 reading 4 0 _ (omega arith, (omega arith, tt)) refl refl refl refl
      (omega arith)
