-- ===== src/Utils/SleepTimer.antt =====
-- source/utils/SleepTimer.h and SleepTimer.cpp: pauses that grow along a list of intervals. The pause
-- itself is a value: the seconds to sleep, or `none` for an access out of range.
pub mod Pauses
mod Tests
use api_pack.Base.{
  ℕ, zero, suc, ◌+◌, ◌-◌, ◌%◌, ◌^◌, Option, none, some, List, [], ◌∷◌, length, get_elem?, ltb,
  if◌then◌else◌,
}

pub record SleepTimer : Type 0 where
  pub intervals : List ℕ
  pub offset : ℕ

abbrev pub construct : List ℕ → SleepTimer
construct intervals = record { intervals = intervals; offset = 0 }

unfoldable pub reset : SleepTimer → SleepTimer
reset t = record t { offset = 0 }

-- `mIntervals.size()-1` wraps around for no intervals.
unfoldable pub sleep : SleepTimer → SleepTimer × Option ℕ
sleep t =
    let last = (length t.intervals + 2 ^ 64 - 1) % 2 ^ 64 in
    (
      if ltb t.offset last then record t { offset = (t.offset + 1) % 2 ^ 64 } else t,
      get_elem? t.intervals t.offset,
    )
