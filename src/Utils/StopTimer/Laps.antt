-- ===== src/Utils/StopTimer/Laps.antt =====
-- The milliseconds of StopTimer.h between two readings of the clock.
use native.Mathlib.Nat.{lt-div-mul-add, div-mul-le_self}
use api_pack.Base.{ℕ, ◌+◌, ◌-◌, ◌*◌, ◌%◌, ◌^◌, ◌≤◌, ◌<◌, ◌≡◌, arith, ltb, if◌then◌else◌}
use api_pack.Utils.StopTimer.{StopTimer, restart, elapsed_time_milliseconds}

-- The ticks from one reading to another; 2^64 more if the clock was set back in between.
unfoldable pub passed : ℕ → ℕ → ℕ
passed a b = if ltb b a then 2 ^ 64 - (a - b) else b - a

elapsed-passed : (a b : ℕ) → a < 2 ^ 63 → b < 2 ^ 63 → (b + 2 ^ 64 - a) % 2 ^ 64 ≡ passed a b
unfolding passed
elapsed-passed a b ha hb = ground arith

module _ (ticks : ℕ) (t : StopTimer) where
  -- The milliseconds from a restart at one reading to another reading.
  abbrev pub between : ℕ → ℕ → ℕ
  between a b = elapsed_time_milliseconds ticks (restart t a) b

  -- A timer that was restarted at a reading of the clock below 2^63 and is asked at another one
  -- shows the whole milliseconds of the ticks that passed: `ticks` times what it shows is at most
  -- the ticks that passed, and `ticks` times one more is greater. If the clock was set back in
  -- between, 2^64 ticks less those it was set back have passed.
  pub between-passed :
      (a b : ℕ)
      → 0 < ticks
      → a < 2 ^ 63
      → b < 2 ^ 63
      → (between a b * ticks ≤ passed a b) × (passed a b < between a b * ticks + ticks)
  unfolding elapsed_time_milliseconds restart
  between-passed a b pos ha hb = (
    omega (arith, elapsed-passed a b ha hb, div-mul-le_self ((b + 2 ^ 64 - a) % 2 ^ 64) ticks),
    omega (arith, elapsed-passed a b ha hb, lt-div-mul-add {a = (b + 2 ^ 64 - a) % 2 ^ 64} pos),
  )
