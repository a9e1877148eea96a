-- ===== src/Stratum/Work/World/Pause.antt =====
-- While main/stratum_minimal.c is paused no job is out.
use m45_gamma_firmware.Base.{
  ℕ, ◌≡◌, refl, subst, ◌≢◌, true, Option, none, some, List, [], ◌∷◌, arith, get_or, All,
}
use m45_gamma_firmware.Stratum.Work.Task.{PoolWork, no_work}
use m45_gamma_firmware.Stratum.Work.World.{
  Job, Holder, sending, leaving, World, clear_jobs, clear_pool_jobs, may_send, Step, lock_all,
  raise_next, all_raised, lock_pool, pool_cleared, pause, resume, lock_clear, all_cleared, unlock,
  hardware_clear, sync, arrive, lock_send, send, count_sent, Reach, here, next,
}

abbrev pub IsEmpty : Option Job → Type 0
IsEmpty none = Unit {0}
IsEmpty (some job) = ⊥

-- No step of the run resumes the work.
abbrev IsResume : {w t : World} → Step w t → Type 0
IsResume resume = ⊥
IsResume _ = Unit {0}

abbrev pub NoResume : {s t : World} → Reach s t → Type 0
NoResume here = Unit {0}
NoResume (next r step) = NoResume r × IsResume step

abbrev NotSending : Holder → Type 0
NotSending (sending p) = ⊥
NotSending _ = Unit {0}

record IsQuiet (w : World) : Type 0 where
  paused : w.work_paused ≡ true
  empty : All IsEmpty w.active_jobs
  not_sending : NotSending w.holder

clear_jobs-IsEmpty : (jobs : List (Option Job)) → All IsEmpty (clear_jobs jobs)
unfolding clear_jobs
clear_jobs-IsEmpty [] = tt
clear_jobs-IsEmpty (slot ∷ jobs) = (tt, clear_jobs-IsEmpty jobs)

clear_pool_jobs-IsEmpty :
    (pool_id : ℕ) (jobs : List (Option Job))
    → All IsEmpty jobs
    → All IsEmpty (clear_pool_jobs pool_id jobs)
unfolding clear_pool_jobs
clear_pool_jobs-IsEmpty pool_id [] h = tt
clear_pool_jobs-IsEmpty pool_id (none ∷ jobs) h = (tt, clear_pool_jobs-IsEmpty pool_id jobs h.1)
clear_pool_jobs-IsEmpty pool_id (some job ∷ jobs) h = absurd h.0

refused : (w : World) (p : PoolWork) → w.work_paused ≡ true → may_send w p ≢ true
unfolding may_send
refused w p e = ground arith

Step-IsQuiet : {w t : World} (step : Step w t) → IsResume step → IsQuiet w → IsQuiet t
Step-IsQuiet (lock_all e) n q = record { paused = q.paused; empty = q.empty; not_sending = tt }
Step-IsQuiet (raise_next i e lt) n q = record {
  paused = q.paused;
  empty = q.empty;
  not_sending = tt;
}
Step-IsQuiet (all_raised e) n q = record { paused = q.paused; empty = q.empty; not_sending = tt }
Step-IsQuiet (lock_pool id e lt) n q = record {
  paused = q.paused;
  empty = q.empty;
  not_sending = tt;
}
Step-IsQuiet {w} (pool_cleared id e) n q = record {
  paused = q.paused;
  empty = clear_pool_jobs-IsEmpty id w.active_jobs q.empty;
  not_sending = tt;
}
Step-IsQuiet pause n q = record { paused = refl; empty = q.empty; not_sending = q.not_sending }
Step-IsQuiet resume n q = absurd n
Step-IsQuiet (lock_clear e) n q = record { paused = q.paused; empty = q.empty; not_sending = tt }
Step-IsQuiet {w} (all_cleared e) n q = record {
  paused = q.paused;
  empty = clear_jobs-IsEmpty w.active_jobs;
  not_sending = tt;
}
Step-IsQuiet (unlock e) n q = record { paused = q.paused; empty = q.empty; not_sending = tt }
Step-IsQuiet {w} hardware_clear n q = record {
  paused = q.paused;
  empty = clear_jobs-IsEmpty w.active_jobs;
  not_sending = q.not_sending;
}
Step-IsQuiet (sync latest) n q = record {
  paused = q.paused;
  empty = q.empty;
  not_sending = q.not_sending;
}
Step-IsQuiet (arrive latest latest' pool_epoch incoming) n q = record {
  paused = q.paused;
  empty = q.empty;
  not_sending = q.not_sending;
}
Step-IsQuiet {w} (lock_send pool_id work e has_work allowed) n q =
    absurd (refused w (get_or w.task.pools pool_id no_work) q.paused allowed)
Step-IsQuiet (send p e) n q = absurd (subst NotSending e q.not_sending)
Step-IsQuiet (count_sent pool_id) n q = record {
  paused = q.paused;
  empty = q.empty;
  not_sending = q.not_sending;
}

Reach-IsQuiet : {s t : World} (r : Reach s t) → NoResume r → IsQuiet s → IsQuiet t
Reach-IsQuiet here n q = q
Reach-IsQuiet (next r step) n q = Step-IsQuiet step n.1 (Reach-IsQuiet r n.0 q)

-- From the moment that a pause has cleared the jobs, with the flag set, all slots are free for as
-- long as no step resumes the work: no nonce finds a job.
pub pause_lem :
    (w : World) {t : World}
    → w.work_paused ≡ true
    → (r : Reach (record w { active_jobs = clear_jobs w.active_jobs; holder = leaving }) t)
    → NoResume r
    → All IsEmpty t.active_jobs
pause_lem w is_paused r no_resume =
    (Reach-IsQuiet r no_resume (record {
      paused = is_paused;
      empty = clear_jobs-IsEmpty w.active_jobs;
      not_sending = tt;
    })).empty
