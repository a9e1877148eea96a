-- ===== src/Stratum/Work/World/Examples.antt =====
-- A run of the job task against resets and pauses.
use m45_gamma_firmware.Base.{
  ◌≡◌, refl, true, false, none, some, [], ◌∷◌, arith, get_or, set, replicate, All,
}
use m45_gamma_firmware.Stratum.Work.Task.{PoolWork, no_work}
use m45_gamma_firmware.Stratum.Work.World.{
  free, leaving, clearing_all, World, clear_jobs, may_send, unlock, lock_send, send, Reach, here,
  next,
}
use m45_gamma_firmware.Stratum.Work.World.Fresh.{IsFresh, clear_jobs-Current}
use m45_gamma_firmware.Stratum.Work.World.Resets.{resets, MadeAt, no_stale_job}
use m45_gamma_firmware.Stratum.Work.World.Pause.{IsEmpty, pause_lem}

abbrev kept_work : PoolWork
kept_work = record no_work { work = some 7; extranonce_2_len = 4 }

-- The job task has work of the first pool and no job is out.
abbrev quiet_world : World
quiet_world = record {
  work_epoch = 0;
  pool_epochs = 0 ∷ 0 ∷ 0 ∷ [];
  work_paused = false;
  job_id = 0;
  active_jobs = clear_jobs (replicate 128 none);
  holder = free;
  task = record {
    pools = kept_work ∷ no_work ∷ no_work ∷ [];
    current_epoch = 0;
    next_dispatch_us = 0;
  };
}

quiet_world-IsFresh : IsFresh quiet_world
quiet_world-IsFresh = record {
  jobs = clear_jobs-Current 0 (0 ∷ 0 ∷ 0 ∷ []) (replicate 128 none);
  works = ((λ w e. refl), ((λ w e. refl), ((λ w e. refl), tt)));
}

abbrev sent_world : World
sent_world = record quiet_world {
  job_id = 24;
  active_jobs =
      set (clear_jobs (replicate 128 none)) 24
        (some (record { pool_id = 0; epoch = 0; pool_epoch = 0 }));
}

may_send_kept : may_send quiet_world kept_work ≡ true
unfolding may_send
may_send_kept = refl

abbrev one_job : Reach quiet_world sent_world
one_job =
    next (next (next here (lock_send 0 7 refl refl may_send_kept)) (send kept_work refl))
      (unlock refl)

made_here : MadeAt 0 0 (get_or sent_world.active_jobs 24 none)
unfolding clear_jobs
made_here = (refl, refl)

no_stale_job_example : resets 0 one_job ≡ 0
no_stale_job_example =
    no_stale_job 0 24 here one_job quiet_world-IsFresh (omega arith) (omega arith) (omega arith)
      refl made_here

abbrev paused_world : World
paused_world = record sent_world { work_paused = true; holder = clearing_all }

abbrev cleared_world : World
cleared_world = record paused_world {
  active_jobs = clear_jobs paused_world.active_jobs;
  holder = leaving;
}

pause_lem_example : All IsEmpty (cleared_world.active_jobs)
pause_lem_example = pause_lem paused_world refl (next here (unlock refl)) (tt, tt)
