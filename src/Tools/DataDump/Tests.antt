-- ===== src/Tools/DataDump/Tests.antt =====
-- `testQuery` over a server with three rows, one of them null.
use api_pack.Base.{All, ◌≡◌, refl, arith, true, false, Option, none, some, List, [], ◌∷◌}
use api_pack.Base.Text.{Text, codes}
use api_pack.Base.Printing.{decimal}
use api_pack.Datastore.Topics.{metamorphosis_station}
use api_pack.Datastore.Query.{ids_query, dates_query, general_query, schedule_query}
use api_pack.Datastore.Libpq.{Libpq, empty_heap}
use api_pack.Datastore.Libpq.Replay.{replay, replay_cursor, replay_transactions, done}
use api_pack.Datastore.Iterator.{ready}
use api_pack.Datastore.Store.{Datastore}
use api_pack.Datastore.ScheduleDay.Tests.{januaries}
use api_pack.Datastore.Libpq.Refusing.{Phase, refusing, refusing_rejection}
use api_pack.Datastore.Libpq.Refusing
use api_pack.Tools.DataDump.Rejected.{Refuses, test_query-Refuses}
use api_pack.Datastore.Libpq.Rejection.{Rejection}
use api_pack.Datastore.Query.{fetch_command, close_command}
use api_pack.Tools.DataDump.Main.Sequence.{Rested}
use api_pack.Tools.DataDump.Converting.{main_dump}
use api_pack.Tools.DataDump.Converting.Outcome.{outcome, Ends, main_dump-Ends}
use api_pack.Datastore.ThriftConverter.Tests.{reader}
use api_pack.Tools.DataDump.Objects
use api_pack.Tools.DataDump.Objects.{convert_row}
use api_pack.Tools.DataDump.Objects.Outcomes.{Answers}
use api_pack.Tools.DataDump.Objects.Queries.{Left, test_query-Answers}
use api_pack.Tools.DataDump.Objects.Readings.{Fits, rows_outcome}

abbrev three_rows : List (Option Text)
three_rows = some (codes "ab") ∷ none ∷ some (codes "c") ∷ []

abbrev lib : Libpq
lib = replay three_rows

abbrev idle : Datastore lib
idle = record {
  fetch_size = 1;
  connection_info = codes "host=localhost";
  data_iter = 64;
  tracked = record { reference = 0; creator = true };
  iter = record {
    error = [];
    fetch_text = [];
    close_text = [];
    query_text = [];
    result = none;
    state = ready;
    connection = some (record { rows = three_rows });
    thread_id = codes "5";
    connection_string = codes "host=localhost";
    result_offset = 0;
    was_error = false;
    heap = empty_heap;
  };
}

three_rows_fit : All Fits three_rows
unfolding Fits
three_rows_fit = (omega arith, (tt, (omega arith, tt)))

test_query-Answers_example :
    (store : Datastore lib) × Left lib (λ c. Unit) idle done store
    × Answers reader lib store
        (rows_outcome reader metamorphosis_station three_rows)
        (Objects.test_query reader lib decimal 4 idle (10003 ∷ 7 ∷ []) metamorphosis_station)
unfolding ids_query general_query replay_cursor
test_query-Answers_example =
    test_query-Answers reader lib decimal idle (10003 ∷ 7 ∷ []) metamorphosis_station
      (record { rows = three_rows }) done done
      (replay_cursor three_rows metamorphosis_station (codes "5")) three_rows 4 refl refl refl refl
      refl refl refl refl refl refl three_rows_fit (omega arith)

at_rest : Rested lib decimal (codes "5") (replay_transactions three_rows (codes "5")) 4 idle
unfolding replay_transactions
at_rest = record {
  is_ready = refl;
  once = refl;
  no_references = refl;
  by_store = refl;
  on_thread = refl;
  conn = record { rows = three_rows };
  connected = refl;
  idle = tt;
}

-- A store on a connection to a server that rejects each query.
abbrev unlucky : Datastore refusing
unlucky = record {
  fetch_size = 1;
  connection_info = codes "host=localhost";
  data_iter = 64;
  tracked = record { reference = 0; creator = true };
  iter = record {
    error = [];
    fetch_text = [];
    close_text = [];
    query_text = [];
    result = none;
    state = ready;
    connection = some Refusing.idle;
    thread_id = codes "5";
    connection_string = codes "host=localhost";
    result_offset = 0;
    was_error = false;
    heap = empty_heap;
  };
}

rejecting :
    Rejection refusing
      (ids_query decimal (7 ∷ []) metamorphosis_station (codes "5"))
      (fetch_command decimal 2 metamorphosis_station (codes "5"))
      (close_command decimal metamorphosis_station (codes "5"))
unfolding ids_query general_query fetch_command close_command
rejecting = refusing_rejection _ _ _

test_query-Refuses_example :
    Refuses refusing decimal
      (7 ∷ [])
      metamorphosis_station
      (codes "5")
      rejecting
      reader
      unlucky
      (Objects.test_query reader refusing decimal 1 unlucky (7 ∷ []) metamorphosis_station)
unfolding rejecting refusing_rejection
test_query-Refuses_example =
    test_query-Refuses refusing decimal (7 ∷ []) metamorphosis_station (codes "5") rejecting reader
      unlucky Refusing.idle 0 refl refl refl refl refl refl refl

main_dump-Ends_example :
    (s' : Datastore lib) × (main_dump reader lib decimal januaries 4 idle
      ≡ some (
        s',
        (outcome reader lib decimal januaries 4 three_rows three_rows three_rows).0,
        (outcome reader lib decimal januaries 4 three_rows three_rows three_rows).1,
      ))
    × Ends reader lib decimal januaries 4
        (outcome reader lib decimal januaries 4 three_rows three_rows three_rows).0
        s'
unfolding replay_transactions replay_cursor ids_query dates_query general_query schedule_query
main_dump-Ends_example =
    main_dump-Ends reader lib decimal januaries 4 (codes "5")
      (replay_transactions three_rows (codes "5")) idle three_rows three_rows three_rows at_rest
      (refl, refl) (refl, refl) (refl, refl) (omega arith) (omega arith) (omega arith)
