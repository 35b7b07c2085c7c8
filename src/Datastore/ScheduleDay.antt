-- ===== src/Datastore/ScheduleDay.antt =====
-- source/datastore/ScheduleDay.h and ScheduleDay.cpp: the id of one station's schedule of one day,
-- three fields in a `uint64_t`. A `uint32_t` argument is a number below 2 ^ 32.
pub mod Fields
pub mod Dates
pub mod Tests
use api_pack.Base.{ℕ, ◌+◌, ◌-◌, ◌*◌, ◌/◌, ◌%◌, ◌^◌, ◌≤◌, ◌≡◌, bit_and, bit_or, Bool, not, ◌==◌}
use api_pack.Base.{Option, none, some, List, ◌++◌, ◌<◌}
use api_pack.Base.Text.{Text, Decimal, codes}

abbrev pub pack_width : ℕ
pack_width = 21

abbrev pub packed_mask : ℕ
packed_mask = 0xFFFFF

-- `x << k`, `x >> k` and `~x` on `uint64_t`.
abbrev pub shl64 : ℕ → ℕ → ℕ
shl64 x k = x * 2 ^ k % 2 ^ 64

abbrev pub shr64 : ℕ → ℕ → ℕ
shr64 x k = x / 2 ^ k

abbrev pub not64 : ℕ → ℕ
not64 x = 2 ^ 64 - 1 - x

pub record ScheduleDay : Type 0 where
  pub id : ℕ

-- A cast to `uint32_t` of each masked field.
unfoldable pub station_id : ScheduleDay → ℕ
station_id d = bit_and d.id packed_mask % 2 ^ 32

unfoldable pub day : ScheduleDay → ℕ
day d = bit_and (shr64 d.id (pack_width * 2)) packed_mask % 2 ^ 32

unfoldable pub year : ScheduleDay → ℕ
year d = bit_and (shr64 d.id pack_width) packed_mask % 2 ^ 32

unfoldable pub is_valid : ScheduleDay → Bool
is_valid d = not (d.id == 0)

-- The three statements that the three `create` functions share.
pub put_station : ℕ → ℕ
put_station station = bit_and station packed_mask

pub put_day : ℕ → ℕ → ℕ
put_day val d =
    bit_or (bit_and val (not64 (shl64 packed_mask (pack_width * 2)))) (shl64 d (pack_width * 2))

pub put_year : ℕ → ℕ → ℕ
put_year val y = bit_or (bit_and val (not64 (shl64 packed_mask pack_width))) (shl64 y pack_width)

unfoldable pub create : ℕ → ℕ → ℕ → ℕ
unfolding put_station put_day put_year
create station d y = put_year (put_day (put_station station) d) y

-- What the code relies on in boost's gregorian dates. `make y m d` is the constructor, which takes
-- the year as an `unsigned short` and throws a subclass of `std::out_of_range` (here `none`) if
-- there is no such date; `from_simple_string` throws if the text is none.
pub record Calendar : Type 1 where
  pub Date : Type 0
  pub make : ℕ → ℕ → ℕ → Option Date
  pub from_simple_string : Text → Option Date
  pub year_of : Date → ℕ
  pub month_of : Date → ℕ
  pub day_of : Date → ℕ
  pub day_of_year : Date → ℕ
  pub day_of_year_pos : (t : Date) → 1 ≤ day_of_year t
  pub day_of_year-le : (t : Date) → day_of_year t ≤ 366
  pub year_of-le : (t : Date) → year_of t ≤ 10000
  pub year_of-make : (y m d : ℕ) (t : Date) → make y m d ≡ some t → year_of t ≡ y % 2 ^ 16

module _ (c : Calendar) where
  open c use {Date, make, from_simple_string, year_of, month_of, day_of, day_of_year}

  -- The body of the `try` block of `create(stationId, date)`.
  pack_date : ℕ → Option Date → ℕ
  unfolding put_station put_day put_year
  pack_date station none = 0
  pack_date station (some t) = put_year (put_day (put_station station) (day_of_year t)) (year_of t)

  unfoldable pub create_from_string : ℕ → Text → ℕ
  unfolding pack_date
  create_from_string station date = pack_date station (from_simple_string date)

  -- The body of the `try` block of `create(stationId, day, month, year)`, which packs the
  -- argument `year` and not the year of the date.
  pack_checked : ℕ → ℕ → Option Date → ℕ
  unfolding put_station put_day put_year
  pack_checked station y none = 0
  pack_checked station y (some t) = put_year (put_day (put_station station) (day_of_year t)) y

  unfoldable pub create_from_date : ℕ → ℕ → ℕ → ℕ → ℕ
  unfolding pack_checked
  create_from_date station d m y = pack_checked station y (make y m d)

  -- `formatDay`: year, month and day with no padding, cast to `unsigned short`, at the end of the
  -- buffer.
  unfoldable pub format_day : Decimal → Date → Text → Text
  format_day p t buffer =
      buffer
      ++ (p.print (year_of t % 2 ^ 16)
          ++ (codes "-"
              ++ (p.print (month_of t % 2 ^ 16) ++ (codes "-" ++ p.print (day_of t % 2 ^ 16)))))
