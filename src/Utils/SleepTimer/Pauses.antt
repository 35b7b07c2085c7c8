-- ===== src/Utils/SleepTimer/Pauses.antt =====
-- The pauses that SleepTimer.cpp makes.
use api_pack.Base.{
  ℕ, zero, suc, ◌+◌, ◌-◌, ◌^◌, ◌<◌, ◌≤◌, ◌≡◌, refl, ap, ◌∙◌, arith, List, length, get_elem?, leb,
  if◌then◌else◌,
}
use api_pack.Utils.SleepTimer.{SleepTimer, construct, sleep, reset}

-- The timer after some calls of `sleep`.
pub after_sleeps : ℕ → SleepTimer → SleepTimer
after_sleeps zero t = t
after_sleeps (suc n) t = (sleep (after_sleeps n t)).0

abbrev pub smaller : ℕ → ℕ → ℕ
smaller a b = if leb a b then a else b

sleeps_lem :
    (n : ℕ) (intervals : List ℕ) (t : SleepTimer)
    → 1 ≤ length intervals
    → length intervals < 2 ^ 64
    → t.intervals ≡ intervals
    → t.offset ≤ length intervals - 1
    → ((after_sleeps n t).intervals ≡ intervals)
      × ((after_sleeps n t).offset ≡ smaller (t.offset + n) (length intervals - 1))
unfolding after_sleeps sleep
sleeps_lem zero intervals t pos word e l = (e, ground arith)
sleeps_lem (suc n) intervals t pos word e l =
    let (e', o) = sleeps_lem n intervals t pos word e l in
    (ground (arith, e'), ground (arith, e', o, ap length e'))

-- With at least one interval, the pause after `n` pauses is the interval `n`, or the last one when
-- there are not so many: it is always in range. After `reset` it is the first one again.
pub sleep-after_sleeps :
    (n : ℕ) (intervals : List ℕ)
    → 1 ≤ length intervals
    → length intervals < 2 ^ 64
    → ((sleep (after_sleeps n (construct intervals))).1
        ≡ get_elem? intervals (smaller n (length intervals - 1)))
      × ((sleep (reset (after_sleeps n (construct intervals)))).1 ≡ get_elem? intervals 0)
unfolding sleep reset
sleep-after_sleeps n intervals pos word =
    let (e, o) = sleeps_lem n intervals (construct intervals) pos word refl (omega arith) in
    (
      rw (e, o ∙ ap (λ k. smaller k (length intervals - 1)) {x = 0 + n} {y = n} (omega arith)) refl,
      rw e refl,
    )
