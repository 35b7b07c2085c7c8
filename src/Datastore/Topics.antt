-- ===== src/Datastore/Topics.antt =====
-- source/datastore/Topics.h and Topics.cpp: the topics of the store and their names.
pub mod Names
use api_pack.Base.{ℕ}
use api_pack.Base.Text.{Text, codes}

-- In the order of `enum class Topic : size_t`.
pub data Topic : Type 0 where
  metamorphosis_station : Topic
  metamorphosis_linuep : Topic
  metamorphosis_image : Topic
  metamorphosis_person : Topic
  metamorphosis_program_tms_id : Topic
  metamorphosis_affiliation : Topic
  metamorphosis_market : Topic
  metamorphosis_schedule_day : Topic
  metamorphosis_provider : Topic
  metamorphosis_headend : Topic
  metamorphosis_rating_body : Topic
  metamorphosis_rating_value : Topic
  metamorphosis_animation : Topic
  metamorphosis_award_type : Topic
  metamorphosis_award_body : Topic
  metamorphosis_genre : Topic
  metamorphosis_production_company : Topic
  metamorphosis_advisory : Topic
  metamorphosis_holiday : Topic
  metamorphosis_playoff : Topic
  metamorphosis_team : Topic
  metamorphosis_venue : Topic
  metamorphosis_warning : Topic
  metamorphosis_conference : Topic
  metamorphosis_university : Topic

-- The number that an enumerator stands for.
unfoldable pub number : Topic → ℕ
number metamorphosis_station = 0
number metamorphosis_linuep = 1
number metamorphosis_image = 2
number metamorphosis_person = 3
number metamorphosis_program_tms_id = 4
number metamorphosis_affiliation = 5
number metamorphosis_market = 6
number metamorphosis_schedule_day = 7
number metamorphosis_provider = 8
number metamorphosis_headend = 9
number metamorphosis_rating_body = 10
number metamorphosis_rating_value = 11
number metamorphosis_animation = 12
number metamorphosis_award_type = 13
number metamorphosis_award_body = 14
number metamorphosis_genre = 15
number metamorphosis_production_company = 16
number metamorphosis_advisory = 17
number metamorphosis_holiday = 18
number metamorphosis_playoff = 19
number metamorphosis_team = 20
number metamorphosis_venue = 21
number metamorphosis_warning = 22
number metamorphosis_conference = 23
number metamorphosis_university = 24

unfoldable pub to_char : Topic → Text
to_char metamorphosis_station = codes "metamorphosis.station"
to_char metamorphosis_linuep = codes "metamorphosis.lineup"
to_char metamorphosis_image = codes "metamorphosis.image"
to_char metamorphosis_person = codes "metamorphosis.person"
to_char metamorphosis_program_tms_id = codes "metamorphosis.program.tmsId"
to_char metamorphosis_affiliation = codes "metamorphosis.affiliation"
to_char metamorphosis_market = codes "metamorphosis.market"
to_char metamorphosis_schedule_day = codes "metamorphosis.schedule.day"
to_char metamorphosis_provider = codes "metamorphosis.provider"
to_char metamorphosis_headend = codes "metamorphosis.headend"
to_char metamorphosis_rating_body = codes "metamorphosis.rating.body"
to_char metamorphosis_rating_value = codes "metamorphosis.rating.value"
to_char metamorphosis_animation = codes "metamorphosis.animation"
to_char metamorphosis_award_type = codes "metamorphosis.award.type"
to_char metamorphosis_award_body = codes "metamorphosis.award.body"
to_char metamorphosis_genre = codes "metamorphosis.genre"
to_char metamorphosis_production_company = codes "metamorphosis.production.company"
to_char metamorphosis_advisory = codes "metamorphosis.advisory"
to_char metamorphosis_holiday = codes "metamorphosis.holiday"
to_char metamorphosis_playoff = codes "metamorphosis.playoff"
to_char metamorphosis_team = codes "metamorphosis.team"
to_char metamorphosis_venue = codes "metamorphosis.venue"
to_char metamorphosis_warning = codes "metamorphosis.warning"
to_char metamorphosis_conference = codes "metamorphosis.conference"
to_char metamorphosis_university = codes "metamorphosis.university"
