-- ===== src/Datastore/Topics/Names.antt =====
-- Topics.h and Topics.cpp: the numbers and the names tell the topics apart.
use api_pack.Base.{
  some_injective, ◌⊎◌, inl, inr, ℕ, ◌+◌, ◌*◌, ◌≡◌, ◌≢◌, refl, sym, ap, ◌∙◌, arith, ◌==◌,
  if◌then◌else◌, Option, none, some, List, [], ◌∷◌, All,
}
use api_pack.Base.Text.{Text}
use api_pack.Datastore.Topics.{
  Topic, number, to_char, metamorphosis_station, metamorphosis_linuep, metamorphosis_image,
  metamorphosis_person, metamorphosis_program_tms_id, metamorphosis_affiliation,
  metamorphosis_market, metamorphosis_schedule_day, metamorphosis_provider, metamorphosis_headend,
  metamorphosis_rating_body, metamorphosis_rating_value, metamorphosis_animation,
  metamorphosis_award_type, metamorphosis_award_body, metamorphosis_genre,
  metamorphosis_production_company, metamorphosis_advisory, metamorphosis_holiday,
  metamorphosis_playoff, metamorphosis_team, metamorphosis_venue, metamorphosis_warning,
  metamorphosis_conference, metamorphosis_university,
}

abbrev all_topics : List Topic
all_topics =
    metamorphosis_station ∷ metamorphosis_linuep ∷ metamorphosis_image ∷ metamorphosis_person
    ∷ metamorphosis_program_tms_id ∷ metamorphosis_affiliation ∷ metamorphosis_market
    ∷ metamorphosis_schedule_day ∷ metamorphosis_provider ∷ metamorphosis_headend
    ∷ metamorphosis_rating_body ∷ metamorphosis_rating_value ∷ metamorphosis_animation
    ∷ metamorphosis_award_type ∷ metamorphosis_award_body ∷ metamorphosis_genre
    ∷ metamorphosis_production_company ∷ metamorphosis_advisory ∷ metamorphosis_holiday
    ∷ metamorphosis_playoff ∷ metamorphosis_team ∷ metamorphosis_venue ∷ metamorphosis_warning
    ∷ metamorphosis_conference ∷ metamorphosis_university ∷ []

-- The first topic of a list whose key is `k`.
find_key : (Topic → ℕ) → ℕ → List Topic → Option Topic
find_key key k [] = none
find_key key k (t ∷ ts) = if key t == k then some t else find_key key k ts

-- A text as one number.
text_key : Text → ℕ
text_key [] = 0
text_key (c ∷ cs) = c + 256 * text_key cs

find_number : (t : Topic) → find_key number (number t) all_topics ≡ some t
unfolding find_key number
find_number metamorphosis_station = refl
find_number metamorphosis_linuep = refl
find_number metamorphosis_image = refl
find_number metamorphosis_person = refl
find_number metamorphosis_program_tms_id = refl
find_number metamorphosis_affiliation = refl
find_number metamorphosis_market = refl
find_number metamorphosis_schedule_day = refl
find_number metamorphosis_provider = refl
find_number metamorphosis_headend = refl
find_number metamorphosis_rating_body = refl
find_number metamorphosis_rating_value = refl
find_number metamorphosis_animation = refl
find_number metamorphosis_award_type = refl
find_number metamorphosis_award_body = refl
find_number metamorphosis_genre = refl
find_number metamorphosis_production_company = refl
find_number metamorphosis_advisory = refl
find_number metamorphosis_holiday = refl
find_number metamorphosis_playoff = refl
find_number metamorphosis_team = refl
find_number metamorphosis_venue = refl
find_number metamorphosis_warning = refl
find_number metamorphosis_conference = refl
find_number metamorphosis_university = refl

find_name :
    (t : Topic) → find_key (λ u. text_key (to_char u)) (text_key (to_char t)) all_topics ≡ some t
unfolding find_key text_key to_char
find_name metamorphosis_station = refl
find_name metamorphosis_linuep = refl
find_name metamorphosis_image = refl
find_name metamorphosis_person = refl
find_name metamorphosis_program_tms_id = refl
find_name metamorphosis_affiliation = refl
find_name metamorphosis_market = refl
find_name metamorphosis_schedule_day = refl
find_name metamorphosis_provider = refl
find_name metamorphosis_headend = refl
find_name metamorphosis_rating_body = refl
find_name metamorphosis_rating_value = refl
find_name metamorphosis_animation = refl
find_name metamorphosis_award_type = refl
find_name metamorphosis_award_body = refl
find_name metamorphosis_genre = refl
find_name metamorphosis_production_company = refl
find_name metamorphosis_advisory = refl
find_name metamorphosis_holiday = refl
find_name metamorphosis_playoff = refl
find_name metamorphosis_team = refl
find_name metamorphosis_venue = refl
find_name metamorphosis_warning = refl
find_name metamorphosis_conference = refl
find_name metamorphosis_university = refl

-- Two topics with the same number, or with the same name, are the same topic.
pub to_char_injective : (t u : Topic) → (number t ≡ number u) ⊎ (to_char t ≡ to_char u) → t ≡ u
to_char_injective t u (inl e) =
    some_injective (sym (find_number t) ∙ ap (λ k. find_key number k all_topics) e ∙ find_number u)
to_char_injective t u (inr e) = some_injective (
    sym (find_name t)
    ∙ ap (λ s. find_key (λ v. text_key (to_char v)) (text_key s) all_topics) e
    ∙ find_name u)

-- No name holds a quote (39), so a name stays inside the quotes of the query that it is put in.
pub to_char_unquoted : (t : Topic) → All (λ c. c ≢ 39) (to_char t)
unfolding to_char
to_char_unquoted metamorphosis_station = omega arith
to_char_unquoted metamorphosis_linuep = omega arith
to_char_unquoted metamorphosis_image = omega arith
to_char_unquoted metamorphosis_person = omega arith
to_char_unquoted metamorphosis_program_tms_id = omega arith
to_char_unquoted metamorphosis_affiliation = omega arith
to_char_unquoted metamorphosis_market = omega arith
to_char_unquoted metamorphosis_schedule_day = omega arith
to_char_unquoted metamorphosis_provider = omega arith
to_char_unquoted metamorphosis_headend = omega arith
to_char_unquoted metamorphosis_rating_body = omega arith
to_char_unquoted metamorphosis_rating_value = omega arith
to_char_unquoted metamorphosis_animation = omega arith
to_char_unquoted metamorphosis_award_type = omega arith
to_char_unquoted metamorphosis_award_body = omega arith
to_char_unquoted metamorphosis_genre = omega arith
to_char_unquoted metamorphosis_production_company = omega arith
to_char_unquoted metamorphosis_advisory = omega arith
to_char_unquoted metamorphosis_holiday = omega arith
to_char_unquoted metamorphosis_playoff = omega arith
to_char_unquoted metamorphosis_team = omega arith
to_char_unquoted metamorphosis_venue = omega arith
to_char_unquoted metamorphosis_warning = omega arith
to_char_unquoted metamorphosis_conference = omega arith
to_char_unquoted metamorphosis_university = omega arith
