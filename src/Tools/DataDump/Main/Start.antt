-- ===== src/Tools/DataDump/Main/Start.antt =====
-- What `main` of dataDump.cpp does before it makes the store: it logs a text, five addresses and
-- the fetch size of the configuration, and reads the fields of the id of a date that is none.
use api_pack.Base.{
  ℕ, zero, suc, ◌%◌, ◌^◌, ◌<◌, ◌≡◌, refl, Option, none, some, List, [], ◌∷◌, ◌++◌, length,
  get_elem?,
}
use api_pack.Base.Text.{Text, Decimal, codes}
use api_pack.Datastore.ScheduleDay.{
  ScheduleDay, Calendar, create_from_string, station_id, day, year,
}
use api_pack.Datastore.ConnectionInfo
use api_pack.Datastore.ConnectionInfo.{DatabaseConfig, DatastoreConnectionInfo, get_next_uri}
use api_pack.Datastore.ConnectionInfo.Rotation.{after_calls, get_next_uri-after_calls}

pub record Started : Type 0 where
  pub out_string : Text
  pub uris : List (Option Text)
  pub default_fetch_size : ℕ
  pub station : ℕ
  pub day_of_year : ℕ
  pub in_year : ℕ

module _ (p : Decimal) where
  -- `toAppend("'",bla2[i],"',",&outString)` for the first three numbers of `bla2`.
  append_quoted : Text → ℕ → Text
  append_quoted out n = out ++ (codes "'" ++ (p.print n ++ codes "',"))

  unfoldable pub log_text : Text
  unfolding append_quoted
  log_text = append_quoted (append_quoted (append_quoted [] 12) 13) 14

-- Some calls of `getNextUri`, with what they return.
unfoldable pub next_uris : ℕ → DatastoreConnectionInfo → List (Option Text)
unfolding get_next_uri
next_uris zero info = []
next_uris (suc n) info = let (info', uri) = get_next_uri info in uri ∷ next_uris n info'

unfoldable pub start_program : Decimal → Calendar → Option DatabaseConfig → Started
unfolding log_text next_uris ConnectionInfo.construct create_from_string station_id day year
start_program p c config =
    let info = ConnectionInfo.construct config in
    let s_day : ScheduleDay = record { id = create_from_string c 10003 (codes "2016-55-245") } in
    record {
      out_string = log_text p;
      uris = next_uris 5 info;
      default_fetch_size = info.default_fetch_size;
      station = station_id s_day;
      day_of_year = day s_day;
      in_year = year s_day;
    }

module _ (size : ℕ) (uri : Text) (uris : List Text) where
  abbrev address : ℕ → Option Text
  address n = get_elem? (uri ∷ uris) (n % length (uri ∷ uris))

  abbrev config : Option DatabaseConfig
  config = some (record { connections = some (uri ∷ uris); fetch_size = some size })

  -- With a configuration of some addresses and a fetch size, `main` logs the addresses from the
  -- second on, in turn; and as boost reads no date from the text, the fields that it reads are 0.
  pub start_program_lem :
      (p : Decimal) (c : Calendar)
      → length (uri ∷ uris) < 2 ^ 64
      → c.from_simple_string (codes "2016-55-245") ≡ none
      → ((start_program p c config).uris
          ≡ address 1 ∷ address 2 ∷ address 3 ∷ address 4 ∷ address 5 ∷ [])
        × ((start_program p c config).station ≡ 0)
        × ((start_program p c config).day_of_year ≡ 0)
        × ((start_program p c config).in_year ≡ 0)
  unfolding start_program next_uris after_calls ConnectionInfo.construct create_from_string
      station_id day year
  start_program_lem p c word none_read =
      let turn : (n : ℕ) → _ = λ n. (get_next_uri-after_calls (size % 2 ^ 64) uri uris n word).0 in
      (
        rw (turn 0, turn 1, turn 2, turn 3, turn 4) refl,
        rw none_read refl,
        rw none_read refl,
        rw none_read refl,
      )
