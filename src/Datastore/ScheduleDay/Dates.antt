-- ===== src/Datastore/ScheduleDay/Dates.antt =====
-- The two `create` functions of ScheduleDay.cpp that ask boost for the day of the year.
use api_pack.Base.{
  ℕ, ◌%◌, ◌^◌, ◌≤◌, ◌<◌, ◌≡◌, ◌≢◌, ◌↔◌, ap, arith, true, some, Option-cases, inl, inr,
}
use api_pack.Base.Bits.{bit_or-zero, bit_or_join}
use api_pack.Base.Text.{Text}
use api_pack.Datastore.ScheduleDay.{
  ScheduleDay, Calendar, station_id, day, year, is_valid, create_from_string, create_from_date,
  put_station, put_day, put_year,
}
use api_pack.Datastore.ScheduleDay.Fields.{pack_lem, packed_fields}

-- An id that is packed of a station, a day of the year and a year of 16 bits.
packed_date_fields :
    (s d y : ℕ) (r : ScheduleDay)
    → 1 ≤ d
    → d ≤ 366
    → y < 2 ^ 16
    → r.id ≡ put_year (put_day (put_station s) d) y
    → (station_id r ≡ s % 2 ^ 20) × (day r ≡ d) × (year r ≡ y) × (is_valid r ≡ true)
unfolding is_valid
packed_date_fields s d y r low high hy e = ground (
  arith,
  pack_lem s d y,
  packed_fields s (d % 2 ^ 22) y r,
  bit_or_join 21 (d % 2 ^ 22) y,
  bit_or-zero (d % 2 ^ 22),
)

module _ (c : Calendar) where
  open c use {Date, make, from_simple_string, year_of, day_of_year}

  abbrev pub from_string : ℕ → Text → ScheduleDay
  from_string station date = record { id = create_from_string c station date }

  abbrev pub from_date : ℕ → ℕ → ℕ → ℕ → ScheduleDay
  from_date station d m y = record { id = create_from_date c station d m y }

  -- The id made from a text: if boost reads a date from it, the id is valid and holds the station
  -- modulo 2^20, the day of the year and the year of that date.
  pub create_from_string-fields :
      (station : ℕ) (date : Text) (t : Date)
      → from_simple_string date ≡ some t
      → (station_id (from_string station date) ≡ station % 2 ^ 20)
        × (day (from_string station date) ≡ day_of_year t)
        × (year (from_string station date) ≡ year_of t)
        × (is_valid (from_string station date) ≡ true)
  unfolding create_from_string
  create_from_string-fields station date t e =
      packed_date_fields station (day_of_year t) (year_of t) (from_string station date)
        (c.day_of_year_pos t) (c.day_of_year-le t) (omega (arith, c.year_of-le t)) (rw e)

  -- If the date exists and the year is below 2^16, the id packed from a day, a month and a year
  -- is valid and reads back as the station cut to 20 bits, the date's day of the year and the year.
  pub create_from_date-fields :
      (station d m y : ℕ) (t : Date)
      → make y m d ≡ some t
      → y < 2 ^ 16
      → (station_id (from_date station d m y) ≡ station % 2 ^ 20)
        × (day (from_date station d m y) ≡ day_of_year t)
        × (year (from_date station d m y) ≡ y)
        × (is_valid (from_date station d m y) ≡ true)
  unfolding create_from_date
  create_from_date-fields station d m y t e hy =
      packed_date_fields station (day_of_year t) y (from_date station d m y) (c.day_of_year_pos t)
        (c.day_of_year-le t) hy (rw e)

  from_string_valid :
      (station : ℕ) (date : Text)
      → is_valid (from_string station date) ≡ true
      → (t : Date) × (from_simple_string date ≡ some t)
  unfolding create_from_string is_valid
  from_string_valid station date h = elim (Option-cases (from_simple_string date)) [
    | inl e ↦ absurd (ground arith)
    | inr found ↦ found
  ]

  from_date_valid :
      (station d m y : ℕ)
      → is_valid (from_date station d m y) ≡ true
      → (t : Date) × (make y m d ≡ some t)
  unfolding create_from_date is_valid
  from_date_valid station d m y h = elim (Option-cases (make y m d)) [
    | inl e ↦ absurd (ground arith)
    | inr found ↦ found
  ]

  -- An id is valid exactly when its text or its day, month and year (of 16 bits) denote a date.
  pub is_valid_iff :
      (station d m y : ℕ) (date : Text)
      → y < 2 ^ 16
      → ((is_valid (from_string station date) ≡ true)
          ↔ ((t : Date) × (from_simple_string date ≡ some t)))
        × ((is_valid (from_date station d m y) ≡ true) ↔ ((t : Date) × (make y m d ≡ some t)))
  is_valid_iff station d m y date hy = (
    (
      from_string_valid station date,
      λ found. (create_from_string-fields station date found.0 found.1).3,
    ),
    (
      from_date_valid station d m y,
      λ found. (create_from_date-fields station d m y found.0 found.1 hy).3,
    ),
  )

  -- If the day, month and year and the text denote the same date of boost and the year is below
  -- 2^16, the two ways to make an id agree.
  pub create_from_date-eq-create_from_string :
      (station d m y : ℕ) (date : Text) (t : Date)
      → y < 2 ^ 16
      → make y m d ≡ some t
      → from_simple_string date ≡ some t
      → create_from_date c station d m y ≡ create_from_string c station date
  unfolding create_from_date create_from_string
  create_from_date-eq-create_from_string station d m y date t hy e e' =
      rw (e, e')
        (ap (put_year (put_day (put_station station) (day_of_year t)))
          (omega (arith, c.year_of-make y m d t e)))

  -- If a date exists for a day, a month and a year from 2^16 on and below 2^20, the year is packed
  -- whole by the code and cut off by boost: the id holds another year than its date has.
  pub create_from_date_long_year :
      (station d m y : ℕ) (t : Date)
      → make y m d ≡ some t
      → 2 ^ 16 ≤ y
      → y < 2 ^ 20
      → (year (from_date station d m y) ≡ y) × (year_of t ≢ y)
  unfolding create_from_date
  create_from_date_long_year station d m y t e lo hi = (
    ground (
      arith,
      pack_lem station (day_of_year t) y,
      packed_fields station (day_of_year t % 2 ^ 22) y (from_date station d m y),
    ),
    omega (arith, c.year_of-make y m d t e),
  )
