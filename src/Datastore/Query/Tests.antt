-- ===== src/Datastore/Query/Tests.antt =====
-- The queries at concrete ids, with ids printed in decimal.
use api_pack.Base.{ℕ, ◌≡◌, refl, ◌++◌, map, List, [], ◌∷◌}
use api_pack.Base.Text.{Text, codes}
use api_pack.Base.Printing.{decimal, print_on}
use api_pack.Datastore.Topics.{
  metamorphosis_station, metamorphosis_team, metamorphosis_schedule_day, number, to_char,
}
use api_pack.Datastore.ScheduleDay.Tests.{januaries, ninth}
use api_pack.Datastore.Query.{
  generate_string_id_list, generate_long_id_list, ids_query, dates_query, calendar_query,
  cursor_name, close_command, fetch_command, general_query,
}
use api_pack.Datastore.Query.IdList.{generate_id_lists_roundtrip, quoted}
use api_pack.Datastore.Query.IdList.Separated.{split}
use api_pack.Datastore.Query.Cursor.{queries_declare, Declares}

station_query :
    ids_query decimal (10003 ∷ 7 ∷ []) metamorphosis_station (codes "5")
    ≡ codes
        "DECLARE cursor_0_5 BINARY CURSOR for select thrift from catapult.general where id in ('10003','7' ) and topic='metamorphosis.station'"
unfolding ids_query general_query generate_string_id_list cursor_name number to_char print_on
station_query = refl

generate_id_lists_roundtrip_example :
    ((text : Text) × (generate_long_id_list decimal (12 ∷ 7 ∷ []) (codes "(") ≡ codes "(" ++ text)
      × (split text ≡ map decimal.print (12 ∷ 7 ∷ [])))
    × ((text : Text) × (generate_string_id_list decimal (12 ∷ 7 ∷ []) (codes "(")
          ≡ codes "(" ++ text)
        × (split text ≡ map (quoted decimal) (12 ∷ 7 ∷ [])))
generate_id_lists_roundtrip_example = generate_id_lists_roundtrip decimal 12 (7 ∷ []) (codes "(")

two_ids : List ℕ
two_ids = 12 ∷ 7 ∷ []

queries_declare_example :
    Declares decimal metamorphosis_team
      (codes "5")
      (ids_query decimal (10003 ∷ []) metamorphosis_team (codes "5"))
    × Declares decimal metamorphosis_schedule_day
        (codes "5")
        (dates_query decimal (codes "2016-1-9") (codes "2016-1-10") (10003 ∷ []) (codes "5"))
    × Declares decimal metamorphosis_schedule_day
        (codes "5")
        (calendar_query decimal januaries ninth ninth (10003 ∷ []) (codes "5"))
    × (close_command decimal metamorphosis_team (codes "5")
        ≡ codes "CLOSE " ++ cursor_name decimal metamorphosis_team (codes "5"))
    × (fetch_command decimal 2 metamorphosis_team (codes "5")
        ≡ (codes "FETCH " ++ (decimal.print 2 ++ codes " in "))
          ++ cursor_name decimal metamorphosis_team (codes "5"))
queries_declare_example =
    queries_declare decimal januaries (10003 ∷ []) metamorphosis_team (codes "5") (codes "2016-1-9")
      (codes "2016-1-10") ninth ninth 2
