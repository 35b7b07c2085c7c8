-- ===== src/Datastore/ScheduleDay/Tests.antt =====
-- ScheduleDay at concrete inputs: the id of dataDump.cpp, and a calendar that knows Januaries.
use api_pack.Base.{
  ℕ, ◌+◌, ◌-◌, ◌%◌, ◌^◌, ◌≡◌, ◌≢◌, ◌↔◌, refl, arith, bit_or, true, Option, none, some, ltb,
  if◌then◌else◌, ◌/◌, [], ◌∷◌, ◌&&◌, ◌==◌, leb,
}
use api_pack.Base.Text.{codes}
use api_pack.Datastore.ScheduleDay.{
  ScheduleDay, Calendar, station_id, day, year, is_valid, create, create_from_string,
  create_from_date,
}
use api_pack.Datastore.ScheduleDay.Fields.{create-fields}
use api_pack.Datastore.ScheduleDay.Dates.{
  from_string, from_date, is_valid_iff, create_from_string-fields,
  create_from_date-eq-create_from_string, create_from_date_long_year,
}

-- The id `bla3` of dataDump.cpp.
packed_first_day : create 10003 1 2016 ≡ 4402274379539
unfolding create
packed_first_day = refl

create-fields_example :
    let r : ScheduleDay = record { id = create 2_000_000 9 3_000_000 } in
    (station_id r ≡ 2_000_000 % 2 ^ 20)
    × (day r ≡ bit_or (9 % 2 ^ 22) (3_000_000 / 2 ^ 21) % 2 ^ 20)
    × (year r ≡ 3_000_000 % 2 ^ 20)
create-fields_example = create-fields 2_000_000 9 3_000_000 (omega arith)

pub record January : Type 0 where
  pub in_year : ℕ
  pub after_first : ℕ

abbrev pub january : ℕ → ℕ → ℕ → Option January
january y m d =
    if ltb (y % 2 ^ 16) 10001 && (m == 1 && (leb 1 d && leb d 31))
    then some (record { in_year = y % 2 ^ 16; after_first = d - 1 })
    else none

pub january_year :
    (y m d : ℕ) (t : January) → january y m d ≡ some t → t.in_year % 10001 ≡ y % 2 ^ 16
january_year y m d t e = ground arith

-- It reads one text.
abbrev pub januaries : Calendar
januaries = record {
  Date = January;
  make = january;
  from_simple_string = λ text. elim text [ [] ↦ none | _ ∷ _ ↦ january 2016 1 9 ];
  year_of = λ t. t.in_year % 10001;
  month_of = λ t. 1;
  day_of = λ t. t.after_first + 1;
  day_of_year = λ t. t.after_first % 366 + 1;
  day_of_year_pos = λ t. omega arith;
  day_of_year-le = λ t. omega arith;
  year_of-le = λ t. omega arith;
  year_of-make = january_year;
}

abbrev pub ninth : January
ninth = record { in_year = 2016; after_first = 8 }

create_from_string-fields_example :
    (station_id (from_string januaries 10003 (codes "2016-01-09")) ≡ 10003 % 2 ^ 20)
    × (day (from_string januaries 10003 (codes "2016-01-09")) ≡ 9)
    × (year (from_string januaries 10003 (codes "2016-01-09")) ≡ 2016)
    × (is_valid (from_string januaries 10003 (codes "2016-01-09")) ≡ true)
create_from_string-fields_example =
    create_from_string-fields januaries 10003 (codes "2016-01-09") ninth refl

is_valid_iff_example :
    ((is_valid (from_string januaries 7 []) ≡ true)
      ↔ ((t : January) × (januaries.from_simple_string [] ≡ some t)))
    × ((is_valid (from_date januaries 7 40 1 2016) ≡ true)
        ↔ ((t : January) × (januaries.make 2016 1 40 ≡ some t)))
is_valid_iff_example = is_valid_iff januaries 7 40 1 2016 [] (omega arith)

create_from_date-eq-create_from_string_example :
    create_from_date januaries 10003 9 1 2016
    ≡ create_from_string januaries 10003 (codes "2016-01-09")
create_from_date-eq-create_from_string_example =
    create_from_date-eq-create_from_string januaries 10003 9 1 2016 (codes "2016-01-09") ninth
      (omega arith) refl refl

create_from_date_long_year_example :
    (year (from_date januaries 10003 9 1 67552) ≡ 67552) × (januaries.year_of ninth ≢ 67552)
create_from_date_long_year_example =
    create_from_date_long_year januaries 10003 9 1 67552 ninth refl (omega arith) (omega arith)
