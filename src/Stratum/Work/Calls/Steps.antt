-- ===== src/Stratum/Work/Calls/Steps.antt =====
-- A whole call of main/stratum_minimal.c is a run of the steps of its task.
use m45_gamma_firmware.Base.{ℕ, ◌<◌, ◌≡◌, refl, arith}
use m45_gamma_firmware.Stratum.Work.World.{
  World, free, lock_all, raise_next, all_raised, lock_pool, pool_cleared, pause, resume, lock_clear,
  all_cleared, unlock, Reach, here, next,
}
use m45_gamma_firmware.Stratum.Work.Calls.{pause_work, resume_work, reset_all, reset_one}

-- Without other tasks the calls end in states that the steps reach: nothing that holds of all
-- reachable states fails for them.
pub calls-Reach :
    (w : World) (pool_id : ℕ)
    → w.holder ≡ free
    → pool_id < 3
    → Reach w (pause_work w)
      × Reach w (resume_work w)
      × Reach w (reset_all w)
      × Reach w (reset_one pool_id w)
unfolding pause_work resume_work reset_all reset_one
calls-Reach w pool_id e lt = (
  next (next (next (next here pause) (lock_clear e)) (all_cleared refl)) (unlock refl),
  next (next (next (next here (lock_clear e)) (all_cleared refl)) (unlock refl)) resume,
  next
      (next
        (next
          (next
            (next (next (next here (lock_all e)) (raise_next 0 refl (omega arith)))
              (raise_next 1 refl (omega arith)))
            (raise_next 2 refl (omega arith)))
          (all_raised refl))
        (all_cleared refl))
      (unlock refl),
  next (next (next here (lock_pool pool_id e lt)) (pool_cleared pool_id refl)) (unlock refl),
)
