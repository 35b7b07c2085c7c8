-- ===== src/Utils/StopTimer.antt =====
-- source/utils/StopTimer.h: the time since the last restart. A reading of the clock counts its ticks
-- since the epoch; `ticks` of them are a millisecond. The time between two readings is taken in 64
-- bits, so it wraps around when the clock was set back.
pub mod Laps
mod Tests
use api_pack.Base.{ℕ, ◌+◌, ◌-◌, ◌*◌, ◌/◌, ◌%◌, ◌^◌}

pub record StopTimer : Type 0 where
  pub prev_value : ℕ

unfoldable pub restart : StopTimer → ℕ → StopTimer
restart t now = record t { prev_value = now }

-- `StopTimer()`; the member starts at the epoch.
unfoldable pub construct : ℕ → StopTimer
unfolding restart
construct now = restart (record { prev_value = 0 }) now

abbrev pub elapsed : StopTimer → ℕ → ℕ
elapsed t now = (now + 2 ^ 64 - t.prev_value) % 2 ^ 64

module _ (ticks : ℕ) where
  unfoldable pub precision : ℕ
  precision = 1000 * ticks

  -- Whole seconds.
  unfoldable pub system_time : ℕ → ℕ
  system_time now = now / (1000 * ticks)

  unfoldable pub elapsed_time_milliseconds : StopTimer → ℕ → ℕ
  elapsed_time_milliseconds t now = elapsed t now / ticks

  -- The second part is a `float`: what `seconds` makes of the ticks.
  unfoldable pub elapsed_time : {Float : Type 0} → (ℕ → Float) → StopTimer → ℕ → ℕ × Float
  elapsed_time seconds t now = (elapsed t now / ticks, seconds (elapsed t now))
