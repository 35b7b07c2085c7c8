-- ===== src/Tools/DataDump/Converting/Outcome.antt =====
-- How `main` of dataDump.cpp ends, by the rows of its three queries.
use mathlib.Core.Option
use api_pack.Base.{ℕ, ◌<◌, ◌≡◌, refl, ap, ◌∙◌, Option, none, some, List, [], ◌∷◌, map, length}
use api_pack.Base.Text.{Text, Decimal, codes}
use api_pack.Datastore.Topics.{Topic, metamorphosis_station, metamorphosis_schedule_day}
use api_pack.Datastore.ScheduleDay.{Calendar}
use api_pack.Datastore.Query.{ids_query, dates_query}
use api_pack.Datastore.Libpq.{Libpq}
use api_pack.Datastore.Libpq.Transactions.{Transactions}
use api_pack.Datastore.Iterator.Fetching.{Seen, seen_row}
use api_pack.Datastore.Store.{Datastore, set_fetch_size, data_ids, data_dates, destruct_store}
use api_pack.Datastore.ThriftConverter.{Thrift}
use api_pack.Tools.DataDump
use api_pack.Tools.DataDump.Objects
use api_pack.Tools.DataDump.Objects.{
  Ending, finished, crashed, escaped, convert_row, convert_schedule_day,
}
use api_pack.Tools.DataDump.Objects.Outcomes.{Answers, AgreeAt, convert_all, with_converter-Answers}
use api_pack.Tools.DataDump.Main.{ids, ids2, ids4}
use api_pack.Tools.DataDump.Main.Sequence.{Rested, test_query-Queried, test_schedule_query-Queried}
use api_pack.Tools.DataDump.Main.Closing.{Rested-is_connected, destruct_store_lem}
use api_pack.Tools.DataDump.Converting.{
  Dump, Queried, main_dump, and_then_query, then_query, add_objects, dump_stations,
  dump_schedule_days, dump_dates, end_program,
}

-- The queries so far, and one more: it is not made if the program has ended.
unfoldable pub extend :
    {A : Type 0} → Ending × List (List A) → Ending × List A → Ending × List (List A)
extend (finished, seen) (ending, objects) = (ending, objects ∷ seen)
extend (crashed, seen) query = (crashed, seen)
extend (escaped, seen) query = (escaped, seen)

module _ (thrift : Thrift) (lib : Libpq) (p : Decimal) (c : Calendar) (fuel : ℕ) where
  -- The program is so far, and if it has not ended its store is `s`.
  Stage :
      Datastore lib
      → Ending × List (List thrift.Object)
      → Option (Dump thrift lib p c fuel)
      → Type 0
  Stage s (ending, seen) r =
      (s' : Datastore lib) × (r ≡ some (s', ending, seen)) × AgreeAt ending s' s

  extend-Stage :
      (s s₁ : Datastore lib) (so_far : Ending × List (List thrift.Object))
      (made : Ending × List thrift.Object)
      (query : Datastore lib → Option (Queried thrift lib p c fuel))
      (r : Option (Dump thrift lib p c fuel)) (convert : Seen → Objects.Converted thrift.Object)
      → Answers thrift lib s₁ made (query s)
      → Stage s so_far r
      → Stage s₁ (extend so_far made) (and_then_query thrift lib p c fuel query r)
  unfolding Stage extend and_then_query then_query add_objects Answers
  extend-Stage s s₁ (finished, seen) (ending, objects) query r convert (s₂, made, agree₂)
        (s', is, agree) =
      (
        s₂,
        ap (and_then_query thrift lib p c fuel query) is
            ∙ ap (λ x. Option.map (add_objects thrift lib p c fuel seen) (query x)) agree
            ∙ ap (Option.map (add_objects thrift lib p c fuel seen)) made,
        agree₂,
      )
  extend-Stage s s₁ (crashed, seen) (ending, objects) query r convert a (s', is, agree) =
      (s', ap (and_then_query thrift lib p c fuel query) is, tt)
  extend-Stage s s₁ (escaped, seen) (ending, objects) query r convert a (s', is, agree) =
      (s', ap (and_then_query thrift lib p c fuel query) is, tt)

  -- If the program has not ended before, its last step closes the connection.
  unfoldable pub Ends : Ending → Datastore lib → Type 0
  Ends finished s = s.iter.connection ≡ none
  Ends crashed s = Unit
  Ends escaped s = Unit

  end_program-Ends :
      (s : Datastore lib) (so_far : Ending × List (List thrift.Object))
      (r : Option (Dump thrift lib p c fuel))
      → (destruct_store lib s).iter.connection ≡ none
      → Stage s so_far r
      → (s' : Datastore lib) × (Option.map (end_program thrift lib p c fuel) r
          ≡ some (s', so_far.0, so_far.1))
        × Ends so_far.0 s'
  unfolding Stage end_program Ends
  end_program-Ends s (finished, seen) r closed (s', is, agree) = (
    destruct_store lib s',
    ap (Option.map (end_program thrift lib p c fuel)) is,
    ap (λ x. (destruct_store lib x).iter.connection) agree ∙ closed,
  )
  end_program-Ends s (crashed, seen) r closed (s', is, agree) =
      (s', ap (Option.map (end_program thrift lib p c fuel)) is, tt)
  end_program-Ends s (escaped, seen) r closed (s', is, agree) =
      (s', ap (Option.map (end_program thrift lib p c fuel)) is, tt)

  query_answers :
      (s s₁ : Datastore lib) (xs : List ℕ) (topic : Topic) (seen : List Seen)
      → DataDump.test_query lib p fuel s xs topic ≡ some (s₁, seen)
      → Answers thrift lib s₁
          (convert_all (convert_row thrift topic) seen)
          (Objects.test_query thrift lib p fuel s xs topic)
  unfolding DataDump.test_query Objects.test_query
  query_answers s s₁ xs topic seen e =
      with_converter-Answers thrift lib (convert_row thrift topic) fuel
        (data_ids lib p (set_fetch_size lib s 2) xs topic) s₁ seen e

  schedule_query_answers :
      (s s₁ : Datastore lib) (xs : List ℕ) (from to : Text) (seen : List Seen)
      → DataDump.test_schedule_query lib p fuel s xs from to ≡ some (s₁, seen)
      → Answers thrift lib s₁
          (convert_all (convert_schedule_day thrift) seen)
          (Objects.test_schedule_query thrift lib p fuel s xs from to)
  unfolding DataDump.test_schedule_query Objects.test_schedule_query
  schedule_query_answers s s₁ xs from to seen e =
      with_converter-Answers thrift lib (convert_schedule_day thrift) fuel
        (data_dates lib p (set_fetch_size lib s 2) from to xs) s₁ seen e

  -- What converting the rows of the three queries tells, one query after the other.
  abbrev pub outcome :
      List (Option Text)
      → List (Option Text)
      → List (Option Text)
      → Ending × List (List thrift.Object)
  outcome rows rows2 rows4 =
      extend
        (extend
          (extend (finished, [])
            (convert_all (convert_row thrift metamorphosis_station) (map seen_row rows)))
          (convert_all (convert_row thrift metamorphosis_schedule_day) (map seen_row rows2)))
        (convert_all (convert_schedule_day thrift) (map seen_row rows4))

  module _ (t : Text) (pg : Transactions lib p 2 t) where
    -- On a store at rest, with a server that answers the three queries of `main` with `rows`, `rows2`
    -- and `rows4` and keeps PostgreSQL's promises of transactions and cursors, `main` with the
    -- converter ends within one round more than each query has rows, as converting the rows of the
    -- queries in order tells: a query that crashes, or that an exception leaves, is the last one, and
    -- the objects of the queries up to it are kept. If none does, the connection is closed.
    pub main_dump-Ends :
        (s : Datastore lib) (rows rows2 rows4 : List (Option Text))
        → Rested lib p t pg fuel s
        → pg.Selects metamorphosis_station (ids_query p ids metamorphosis_station t) rows
        → pg.Selects metamorphosis_schedule_day
            (ids_query p (ids2 lib p c fuel) metamorphosis_schedule_day t)
            rows2
        → pg.Selects metamorphosis_schedule_day
            (dates_query p (codes "2015-01-08") (codes "2019-05-12") ids4 t)
            rows4
        → length rows < fuel
        → length rows2 < fuel
        → length rows4 < fuel
        → (s' : Datastore lib) × (main_dump thrift lib p c fuel s
            ≡ some (s', (outcome rows rows2 rows4).0, (outcome rows rows2 rows4).1))
          × Ends (outcome rows rows2 rows4).0 s'
    unfolding main_dump dump_stations dump_schedule_days dump_dates Stage
    main_dump-Ends s rows rows2 rows4 rested first second third enough enough2 enough4 =
        let (s1, e1, rested1, error1, more1) =
          test_query-Queried lib p t pg fuel s ids metamorphosis_station rows rested first enough in
        let (s2, e2, rested2, error2, more2) =
          test_query-Queried lib p t pg fuel s1 (ids2 lib p c fuel) metamorphosis_schedule_day rows2
            rested1 second enough2 in
        let (s4, e4, rested4, error4, more4) =
          test_schedule_query-Queried lib p t pg fuel s2 ids4 (codes "2015-01-08")
            (codes "2019-05-12") rows4 rested2 third enough4 in
        let stations =
          extend-Stage s s1 (finished, []) _ (dump_stations thrift lib p c fuel)
            (some (s, finished, [])) (convert_row thrift metamorphosis_station)
            (query_answers s s1 ids metamorphosis_station (map seen_row rows) e1) (s, refl, refl) in
        let days =
          extend-Stage s1 s2 _ _ (dump_schedule_days thrift lib p c fuel) _
            (convert_row thrift metamorphosis_schedule_day)
            (rw (Rested-is_connected lib p t pg fuel s1 rested1) (
              query_answers s1 s2 (ids2 lib p c fuel) metamorphosis_schedule_day
                (map seen_row rows2) e2))
            stations in
        let dates =
          extend-Stage s2 s4 _ _ (dump_dates thrift lib p c fuel) _ (convert_schedule_day thrift)
            (schedule_query_answers s2 s4 ids4 (codes "2015-01-08") (codes "2019-05-12")
              (map seen_row rows4) e4)
            days in
        end_program-Ends s4 _ _ (destruct_store_lem lib p t pg fuel s4 rested4).0 dates
