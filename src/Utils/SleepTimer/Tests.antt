-- ===== src/Utils/SleepTimer/Tests.antt =====
-- Three intervals.
use api_pack.Base.{ℕ, ◌≡◌, arith, ◌-◌, length, get_elem?, List, [], ◌∷◌}
use api_pack.Utils.SleepTimer.{construct, sleep, reset}
use api_pack.Utils.SleepTimer.Pauses.{after_sleeps, smaller, sleep-after_sleeps}

abbrev doubling : List ℕ
doubling = 1 ∷ 2 ∷ 4 ∷ []

sleep-after_sleeps_example :
    ((sleep (after_sleeps 5 (construct doubling))).1
      ≡ get_elem? doubling (smaller 5 (length doubling - 1)))
    × ((sleep (reset (after_sleeps 5 (construct doubling)))).1 ≡ get_elem? doubling 0)
sleep-after_sleeps_example = sleep-after_sleeps 5 doubling (omega arith) (omega arith)
