-- ===== src/Datastore/Query/Cursor.antt =====
-- The commands that DatastoreIterator.cpp builds for one cursor.
use mathlib.Core.List.{append_assoc, append_cancel_left, append_cancel_right}
use api_pack.Base.{inl, inr, ℕ, ◌≡◌, refl, ap, List, [], ◌++◌, map, Bool-cases, inl, inr}
use api_pack.Base.Text.{Text, Decimal, codes}
use api_pack.Datastore.Topics.{Topic, metamorphosis_schedule_day}
use api_pack.Datastore.Topics.Names.{to_char_injective}
use api_pack.Datastore.ScheduleDay.{Calendar, format_day}
use api_pack.Datastore.Query.{
  generate_string_id_list, generate_long_id_list, cursor_name, fetch_command, close_command,
  general_query, schedule_query, ids_query, dates_query, calendar_query, is_schedule_day,
}
use api_pack.Datastore.Query.IdList.{quoted, generate_long-join, generate_string-join, join}

regroup :
    (d n b f m g s : Text)
    → (d ++ (n ++ b) ++ f ++ m ++ g) ++ s ≡ d ++ (n ++ (b ++ (f ++ (m ++ (g ++ s)))))
regroup d n b f m g s = simp append_assoc

module _ (p : Decimal) where
  -- The text declares a cursor of exactly this name, for a query of bytes of Thrift.
  Named : Text → Text → Text → Type 0
  Named mid name q = (rest : Text) × (q ≡ codes "DECLARE " ++ (name ++ (mid ++ rest)))

  abbrev pub Declares : Topic → Text → Text → Type 0
  Declares topic thread q =
      (rest : Text) × (q
        ≡ codes "DECLARE "
          ++ (cursor_name p topic thread
              ++ (codes " BINARY CURSOR for select thrift from catapult." ++ rest)))

  -- A list of ids is appended behind what stands in the buffer.
  long-Named :
      (mid name rest end : Text) (ids : List ℕ)
      → Named mid name
          (generate_long_id_list p ids (codes "DECLARE " ++ (name ++ (mid ++ rest))) ++ end)
  unfolding Named
  long-Named mid name rest end ids =
      (rest ++ (join (map p.print ids) ++ end), rw (generate_long-join p ids) (simp append_assoc))

  string-Named :
      (mid name rest end : Text) (ids : List ℕ)
      → Named mid name
          (generate_string_id_list p ids (codes "DECLARE " ++ (name ++ (mid ++ rest))) ++ end)
  unfolding Named
  string-Named mid name rest end ids = (
    rest ++ (join (map (quoted p) ids) ++ end),
    rw (generate_string-join p ids) (simp append_assoc),
  )

  abbrev selecting : Text
  selecting = codes " BINARY CURSOR for select thrift from catapult."

  ids_query-Declares :
      (ids : List ℕ) (topic : Topic) (thread : Text)
      → Declares topic thread (ids_query p ids topic thread)
  unfolding ids_query general_query schedule_query Named
  ids_query-Declares ids topic thread = elim (Bool-cases (is_schedule_day topic)) [
    | inl e ↦ rw e (
        long-Named selecting (cursor_name p topic thread)
          (codes "schedule_day where schedule_day_id in (") _ ids)
    | inr e ↦
        rw e (
          string-Named selecting (cursor_name p topic thread) (codes "general where id in (") _ ids)
  ]

  -- A query between boost dates is the query between their texts, as `formatDay` writes them.
  pub calendar_query-eq-dates_query :
      (c : Calendar) (date_from date_to : c.Date) (stations : List ℕ) (thread : Text)
      → calendar_query p c date_from date_to stations thread
        ≡ dates_query p (format_day c p date_from []) (format_day c p date_to []) stations thread
  unfolding calendar_query dates_query format_day
  calendar_query-eq-dates_query c date_from date_to stations thread =
      ap (λ q. generate_long_id_list p stations q ++ codes " ) order by station,day ")
        (regroup (codes "DECLARE ") (cursor_name p metamorphosis_schedule_day thread) _
          (format_day c p date_from []) _ (format_day c p date_to []) _)

  -- Every query is DECLARE, the name of the cursor of its topic and thread, and then ` BINARY CURSOR
  -- for select thrift from catapult.` with a rest; the name is the one that stands behind CLOSE and
  -- at the end of FETCH. The queries between dates declare the cursor of the schedule days.
  pub queries_declare :
      (c : Calendar) (ids : List ℕ) (topic : Topic) (thread from to : Text) (a b : c.Date)
      (fetch_size : ℕ)
      → Declares topic thread (ids_query p ids topic thread)
        × Declares metamorphosis_schedule_day thread (dates_query p from to ids thread)
        × Declares metamorphosis_schedule_day thread (calendar_query p c a b ids thread)
        × (close_command p topic thread ≡ codes "CLOSE " ++ cursor_name p topic thread)
        × (fetch_command p fetch_size topic thread
            ≡ (codes "FETCH " ++ (p.print fetch_size ++ codes " in "))
              ++ cursor_name p topic thread)
  unfolding dates_query close_command fetch_command Named
  queries_declare c ids topic thread from to a b fetch_size = (
    ids_query-Declares ids topic thread,
    long-Named selecting (cursor_name p metamorphosis_schedule_day thread)
        (codes "schedule_day where(day AT TIME ZONE 'UTC'  >='" ++ _) _ ids,
    rw (calendar_query-eq-dates_query c a b ids thread) (
        long-Named selecting (cursor_name p metamorphosis_schedule_day thread)
          (codes "schedule_day where(day AT TIME ZONE 'UTC'  >='" ++ _) _ ids),
    refl,
    simp append_assoc,
  )

  -- In one thread, two topics with one cursor are the same topic.
  pub cursor_name_injective :
      (t u : Topic) (thread : Text) → cursor_name p t thread ≡ cursor_name p u thread → t ≡ u
  unfolding cursor_name
  cursor_name_injective t u thread e = to_char_injective t u (
      inl (
        p.print_inj _ _ (
          append_cancel_right _ _ (codes "_" ++ thread)
            (append_cancel_left (codes "cursor_") _ _ e))))
