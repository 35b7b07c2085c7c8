-- ===== src/Datastore/ScheduleDay/Fields.antt =====
-- What the accessors of ScheduleDay.h read from an id that `create` of ScheduleDay.cpp packed.
use api_pack.Base.{ℕ, ◌*◌, ◌/◌, ◌%◌, ◌^◌, ◌<◌, ◌≡◌, ap, ◌∙◌, arith, bit_and, bit_or}
use api_pack.Base.Bits.{
  field, bit_and_mask, bit_and_keep, bit_or_join_left, bit_or-field, bit_or-zero, bit_and-field,
  zero-bit_or,
}
use api_pack.Datastore.ScheduleDay.{
  ScheduleDay, station_id, day, year, create, put_station, put_day, put_year, packed_mask, shl64,
  not64,
}

put_station_lem : (s : ℕ) → put_station s ≡ s % 2 ^ 20
unfolding put_station
put_station_lem s = bit_and_mask 20 s

-- The mask that clears the day field keeps a value of 42 bits.
clear_day : (s : ℕ) → s < 2 ^ 42 → bit_and s (not64 (shl64 packed_mask 42)) ≡ s
clear_day s h = bit_and_keep 42 3145728 s h

put_day_lem : (s d : ℕ) → s < 2 ^ 42 → put_day s d ≡ field 42 (d % 2 ^ 22) s
unfolding put_day
put_day_lem s d h =
    rw (clear_day s h) (ap (bit_or s) shifted ∙ bit_or_join_left 42 (d % 2 ^ 22) s h)
  where
    shifted : shl64 d 42 ≡ d % 2 ^ 22 * 2 ^ 42
    shifted = omega arith

-- The mask that clears the year field keeps a station of 20 bits and a day.
clear_year :
    (d s : ℕ)
    → d < 2 ^ 22
    → s < 2 ^ 20
    → bit_and (field 42 d s) (not64 (shl64 packed_mask 21)) ≡ field 42 d s
clear_year d s hd hs = ground (
  arith,
  bit_and-field 42 d 4194303 s 2199025352703,
  bit_and_mask 22 d,
  bit_and_keep 20 2097153 s,
)

put_year_lem :
    (d s y : ℕ)
    → d < 2 ^ 22
    → s < 2 ^ 20
    → y < 2 ^ 32
    → put_year (field 42 d s) y ≡ field 21 (bit_or (d * 2 ^ 21) y) s
unfolding put_year
put_year_lem d s y hd hs hy = rw (clear_year d s hd hs) (
    ap (λ (t : ℕ). bit_or t (shl64 y 21)) split
    ∙ ap (bit_or (field 21 (d * 2 ^ 21) s)) shifted
    ∙ bit_or-field 21 (d * 2 ^ 21) y s 0 (omega arith) (omega arith)
    ∙ ap (field 21 (bit_or (d * 2 ^ 21) y)) (bit_or-zero s))
  where
    split : field 42 d s ≡ field 21 (d * 2 ^ 21) s
    split = omega arith

    shifted : shl64 y 21 ≡ field 21 y 0
    shifted = omega arith

-- The three statements together: the day and the year are joined by `|` above the station.
pub pack_lem :
    (s d y : ℕ)
    → y < 2 ^ 32
    → put_year (put_day (put_station s) d) y
      ≡ field 21 (bit_or (d % 2 ^ 22 * 2 ^ 21) y) (s % 2 ^ 20)
pack_lem s d y hy =
    rw (put_station_lem s, put_day_lem (s % 2 ^ 20) d (omega arith))
      (put_year_lem (d % 2 ^ 22) (s % 2 ^ 20) y (omega arith) (omega arith) hy)

-- `x | y` where `x` has no bit in the lower 21, by its two parts.
or_parts : (d y : ℕ) → bit_or (d * 2 ^ 21) y ≡ field 21 (bit_or d (y / 2 ^ 21)) (y % 2 ^ 21)
or_parts d y =
    ground (arith, bit_or-field 21 d (y / 2 ^ 21) 0 (y % 2 ^ 21), zero-bit_or (y % 2 ^ 21))

pub create_lem :
    (s d y : ℕ) → y < 2 ^ 32 → create s d y ≡ field 21 (bit_or (d % 2 ^ 22 * 2 ^ 21) y) (s % 2 ^ 20)
unfolding create
create_lem s d y hy = pack_lem s d y hy

abbrev pub fields : ScheduleDay → record { station : ℕ; day_number : ℕ; year_number : ℕ }
fields r = record { station = station_id r; day_number = day r; year_number = year r }

-- What the accessors read from a packed id.
pub packed_fields :
    (s d y : ℕ) (r : ScheduleDay)
    → r.id ≡ field 21 (bit_or (d * 2 ^ 21) y) (s % 2 ^ 20)
    → (station_id r ≡ s % 2 ^ 20) × (day r ≡ bit_or d (y / 2 ^ 21) % 2 ^ 20) × (year r ≡ y % 2 ^ 20)
unfolding station_id day year
packed_fields s d y r e = (
  omega (arith, bit_and_mask 20 r.id, e),
  omega (arith, bit_and_mask 20 (r.id / 2 ^ 42), or_parts d y, e),
  omega (arith, bit_and_mask 20 (r.id / 2 ^ 21), or_parts d y, e),
)

-- For every station, day and year of 32 bits, `stationId()` of the id that `create` makes is the
-- station modulo 2^20 and `year()` is the year modulo 2^20; `day()` is the low 20 bits of the day
-- (of 22 bits) with the bits of the year from bit 21 on joined to it by `|`.
pub create-fields :
    (s d y : ℕ)
    → y < 2 ^ 32
    → let r : ScheduleDay = record { id = create s d y } in
      (station_id r ≡ s % 2 ^ 20)
      × (day r ≡ bit_or (d % 2 ^ 22) (y / 2 ^ 21) % 2 ^ 20)
      × (year r ≡ y % 2 ^ 20)
create-fields s d y hy =
    packed_fields s (d % 2 ^ 22) y (record { id = create s d y }) (create_lem s d y hy)

-- A station, day and year of 20 bits are read back as they were packed.
pub create_roundtrip :
    (s d y : ℕ)
    → s < 2 ^ 20
    → d < 2 ^ 20
    → y < 2 ^ 20
    → let r : ScheduleDay = record { id = create s d y } in
      (station_id r ≡ s) × (day r ≡ d) × (year r ≡ y)
create_roundtrip s d y hs hd hy = ground (arith, create-fields s d y, bit_or-zero (d % 2 ^ 22))
