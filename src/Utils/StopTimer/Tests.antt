-- ===== src/Utils/StopTimer/Tests.antt =====
-- A clock of nanoseconds.
use api_pack.Base.{◌+◌, ◌*◌, ◌≤◌, ◌<◌, arith}
use api_pack.Utils.StopTimer.{StopTimer, construct}
use api_pack.Utils.StopTimer.Laps.{between, passed, between-passed}

abbrev timer : StopTimer
timer = construct 5

-- The clock was set back.
between-passed_example :
    (between 1000000 timer 1999999 5 * 1000000 ≤ passed 1999999 5)
    × (passed 1999999 5 < between 1000000 timer 1999999 5 * 1000000 + 1000000)
between-passed_example =
    between-passed 1000000 timer 1999999 5 (omega arith) (omega arith) (omega arith)
