-- ===== src/Stratum/Work/Task/Timing.antt =====
-- When the job task of main/stratum_minimal.c dispatches.
use m45_gamma_firmware.Base.{
  ℕ, ◌+◌, ◌*◌, ◌≤◌, ◌<◌, max, ◌≡◌, ◌≢◌, ◌⊎◌, inl, inr, true, false, arith,
}
use m45_gamma_firmware.Stratum.Work.Task.{wait_ms, next_dispatch}

-- After a dispatch the next one lies ahead, however long the sending took; it is one interval after
-- the scheduled time unless that has passed, and never more than an interval after the start of this
-- one or a millisecond after its end. Waiting for the time that `wait_ms` gives reaches it and
-- overshoots it by less than a millisecond.
pub next_dispatch_lem :
    (scheduled_us interval_us now_us after_send_us later_us : ℕ)
    → 0 < interval_us
    → now_us ≤ after_send_us
    → (scheduled_us ≡ 0) ⊎ (scheduled_us ≤ now_us)
    → let next_us = next_dispatch scheduled_us interval_us now_us after_send_us in
      let wait = wait_ms false true next_us later_us in
      (after_send_us < next_us)
      × (next_us ≤ max (now_us + interval_us) (after_send_us + 1000))
      × (scheduled_us ≢ 0
          → now_us ≤ scheduled_us + interval_us
          → after_send_us < scheduled_us + interval_us
          → next_us ≡ scheduled_us + interval_us)
      × (next_us ≤ later_us + wait * 1000)
      × (later_us < next_us → later_us + wait * 1000 < next_us + 1000)
unfolding next_dispatch wait_ms
next_dispatch_lem scheduled_us interval_us now_us after_send_us later_us pos le (inl e) =
    (ground arith, ground arith, ground arith, ground arith, ground arith)
next_dispatch_lem scheduled_us interval_us now_us after_send_us later_us pos le (inr h) =
    (ground arith, ground arith, ground arith, ground arith, ground arith)
