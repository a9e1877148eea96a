-- ===== src/Stratum/Work/Task/Examples.antt =====
-- The dispatch times at a concrete time.
use m45_gamma_firmware.Base.{ℕ, ◌+◌, ◌*◌, ◌≤◌, ◌<◌, max, ◌≡◌, ◌≢◌, inr, true, false, arith}
use m45_gamma_firmware.Stratum.Work.Task.{wait_ms, next_dispatch}
use m45_gamma_firmware.Stratum.Work.Task.Timing.{next_dispatch_lem}

next_dispatch_lem_example :
    let next_us = next_dispatch 1000 20000 1500 9000 in
    let wait = wait_ms false true next_us 9500 in
    (9000 < next_us)
    × (next_us ≤ max (1500 + 20000) (9000 + 1000))
    × (◌≢◌ {A = ℕ} 1000 0 → 1500 ≤ 1000 + 20000 → 9000 < 1000 + 20000 → next_us ≡ 1000 + 20000)
    × (next_us ≤ 9500 + wait * 1000)
    × (9500 < next_us → 9500 + wait * 1000 < next_us + 1000)
next_dispatch_lem_example =
    next_dispatch_lem 1000 20000 1500 9000 9500 (omega arith) (omega arith) (inr (omega arith))
