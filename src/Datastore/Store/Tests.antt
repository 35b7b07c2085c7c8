-- ===== src/Datastore/Store/Tests.antt =====
-- A store over a server with two rows.
use api_pack.Base.{arith, refl, true, false, Option, none, some, List, [], ◌∷◌}
use api_pack.Base.Text.{Text, codes}
use api_pack.Base.Printing.{decimal}
use api_pack.Datastore.Topics.{metamorphosis_station}
use api_pack.Datastore.ScheduleDay.Tests.{januaries}
use api_pack.Datastore.Libpq.{Libpq, empty_heap}
use api_pack.Datastore.Libpq.Replay.{replay}
use api_pack.Datastore.Iterator.{ready, open_cursor, next}
use api_pack.Datastore.Store.{Datastore, data_ids, drop_pointer, guarded}
use api_pack.Datastore.Store.Clients.{
  Uses, begin, asks_ids, reads_on, copies, drops, Sound, Uses-Sound,
}
use api_pack.Utils.IntrusiveTracked.{intrusive_ptr_add_ref}

abbrev two_rows : List (Option Text)
two_rows = some (codes "ab") ∷ none ∷ []

abbrev lib : Libpq
lib = replay two_rows

abbrev idle : Datastore lib
idle = record {
  fetch_size = 2;
  connection_info = codes "host=localhost";
  data_iter = 64;
  tracked = record { reference = 0; creator = true };
  iter = record {
    error = [];
    fetch_text = [];
    close_text = [];
    query_text = [];
    result = none;
    state = ready;
    connection = some (record { rows = two_rows });
    thread_id = codes "5";
    connection_string = codes "host=localhost";
    result_offset = 0;
    was_error = false;
    heap = empty_heap;
  };
}

abbrev busy : Datastore lib
busy = record idle { iter = record (idle.iter) { state = open_cursor } }

-- A client reads a row, copies its pointer and drops both.
abbrev asked : Datastore lib
asked = (data_ids lib decimal idle (7 ∷ []) metamorphosis_station).0

abbrev read : Datastore lib
read = record asked { iter = (next lib asked.iter).0 }

abbrev copied : Datastore lib
copied = record read { tracked = intrusive_ptr_add_ref read.tracked }

used : Uses lib decimal januaries idle (drop_pointer lib (drop_pointer lib copied)) 0
unfolding data_ids guarded
used = drops (
    drops (
      copies (reads_on (asks_ids (7 ∷ []) metamorphosis_station begin (omega arith)))
        (omega arith)))

Uses-Sound_example : Sound lib (drop_pointer lib (drop_pointer lib copied)) 0
Uses-Sound_example =
    Uses-Sound lib decimal januaries idle [] _ 0 refl refl refl (record { once = refl; top = refl })
      used
