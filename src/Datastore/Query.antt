-- ===== src/Datastore/Query.antt =====
-- The texts that DatastoreIterator.cpp builds with folly's `toAppend`: the lists of ids, and the
-- commands for a cursor. An id is a `uint64_t`; dates and thread ids are texts.
mod Tests
pub mod IdList
pub mod Cursor
use api_pack.Base.{ℕ, List, [], ◌∷◌, ◌++◌, Bool, true, false, ◌==◌, if◌then◌else◌, not, ◌%◌, ◌^◌}
use api_pack.Base.Text.{Text, Decimal, codes}
use api_pack.Datastore.Topics.{Topic, number, to_char, metamorphosis_schedule_day}
use api_pack.Datastore.ScheduleDay.{Calendar, format_day}

-- `topic != Topic::Metamorphosis_Schedule_Day`, on the numbers of the enumerators.
abbrev pub is_schedule_day : Topic → Bool
is_schedule_day topic = number topic == number metamorphosis_schedule_day

module _ (p : Decimal) where
  -- The loop from `curr` on: an id that is not the last one is followed by a comma.
  unfoldable pub generate_string_id_list : List ℕ → Text → Text
  generate_string_id_list [] string = string
  generate_string_id_list (id ∷ []) string = string ++ (codes "'" ++ (p.print id ++ codes "'"))
  generate_string_id_list (id ∷ next ∷ ids) string =
      generate_string_id_list (next ∷ ids) (string ++ (codes "'" ++ (p.print id ++ codes "',")))

  unfoldable pub generate_long_id_list : List ℕ → Text → Text
  generate_long_id_list [] string = string
  generate_long_id_list (id ∷ []) string = string ++ p.print id
  generate_long_id_list (id ∷ next ∷ ids) string =
      generate_long_id_list (next ∷ ids) (string ++ (p.print id ++ codes ","))

  -- `"cursor_", topic, "_", mThreadId`: the topic is printed as a number.
  unfoldable pub cursor_name : Topic → Text → Text
  cursor_name topic thread = codes "cursor_" ++ (p.print (number topic) ++ (codes "_" ++ thread))

  unfoldable pub fetch_command : ℕ → Topic → Text → Text
  unfolding cursor_name
  fetch_command fetch_size topic thread =
      codes "FETCH " ++ (p.print fetch_size ++ (codes " in " ++ cursor_name topic thread))

  unfoldable pub close_command : Topic → Text → Text
  unfolding cursor_name
  close_command topic thread = codes "CLOSE " ++ cursor_name topic thread

  unfoldable pub general_query : List ℕ → Topic → Text → Text
  unfolding cursor_name generate_string_id_list
  general_query ids topic thread =
      generate_string_id_list ids (
        codes "DECLARE "
        ++ (cursor_name topic thread
            ++ codes " BINARY CURSOR for select thrift from catapult.general where id in ("))
      ++ (codes " ) and topic='" ++ (to_char topic ++ codes "'"))

  unfoldable pub schedule_query : List ℕ → Topic → Text → Text
  unfolding cursor_name generate_long_id_list
  schedule_query ids topic thread =
      generate_long_id_list ids (
        codes "DECLARE "
        ++ (cursor_name topic thread
            ++ codes
                " BINARY CURSOR for select thrift from catapult.schedule_day where schedule_day_id in ("))
      ++ codes " ) "

  -- The query that `executeQuery(ids, topic, fetchSize)` runs.
  unfoldable pub ids_query : List ℕ → Topic → Text → Text
  unfolding general_query schedule_query number
  ids_query ids topic thread =
      if not (is_schedule_day topic)
      then general_query ids topic thread
      else schedule_query ids topic thread

  -- The query between two dates that are already text.
  unfoldable pub dates_query : Text → Text → List ℕ → Text → Text
  unfolding cursor_name generate_long_id_list
  dates_query date_from date_to stations thread =
      generate_long_id_list stations (
        codes "DECLARE "
        ++ (cursor_name metamorphosis_schedule_day thread
            ++ (codes
                  " BINARY CURSOR for select thrift from catapult.schedule_day where(day AT TIME ZONE 'UTC'  >='"
                ++ (date_from
                    ++ (codes "' and day  AT TIME ZONE 'UTC'<='"
                        ++ (date_to ++ codes "' ) and station in ("))))))
      ++ codes " ) order by station,day "

  -- The query between two dates of boost, appended piece by piece.
  unfoldable pub calendar_query : (c : Calendar) → c.Date → c.Date → List ℕ → Text → Text
  unfolding cursor_name generate_long_id_list
  calendar_query c date_from date_to stations thread =
      let q1 =
        codes "DECLARE "
        ++ (cursor_name metamorphosis_schedule_day thread
            ++ codes
                " BINARY CURSOR for select thrift from catapult.schedule_day where(day AT TIME ZONE 'UTC'  >='") in
      let q2 = format_day c p date_from q1 in
      let q3 = q2 ++ codes "' and day  AT TIME ZONE 'UTC'<='" in
      let q4 = format_day c p date_to q3 in
      let q5 = q4 ++ codes "' ) and station in (" in
      generate_long_id_list stations q5 ++ codes " ) order by station,day "
