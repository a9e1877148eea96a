-- ===== src/Stratum/Work/World/Fresh.antt =====
-- No work from before a reset is mined: the jobs of main/stratum_minimal.c carry current epochs.
use m45_gamma_firmware.Base.{
  ℕ, ◌≡◌, sym, ◌∙◌, subst, ◌≢◌, inl, inr, true, Option, none, some, List, [], ◌∷◌, arith, ◌==◌,
  Bool-cases, get_or, set, All, get_or-set_ne, All-set, All-imp, All-get_or,
}
use m45_gamma_firmware.Stratum.Work.Task.{PoolWork, no_work}
use m45_gamma_firmware.Stratum.Work.Task.Epoch.{
  HasEpoch, no_work-HasEpoch, sync_epoch-Works, apply_incoming-Works,
}
use m45_gamma_firmware.Stratum.Work.World.{
  Job, Holder, free, sending, raising, clearing_all, clearing_pool, leaving, World, raised,
  raise_pool, clear_jobs, clear_pool_jobs, may_send, job_of, next_job_id, dispatched, Step,
  lock_all, raise_next, all_raised, lock_pool, pool_cleared, pause, resume, lock_clear, all_cleared,
  unlock, hardware_clear, sync, arrive, lock_send, send, count_sent, Reach, here, next,
}

-- A job of the current epochs, where there is one.
abbrev pub Current : ℕ → List ℕ → Option Job → Type 0
Current epoch epochs none = Unit {0}
Current epoch epochs (some job) =
    (job.epoch ≡ epoch) × (job.pool_epoch ≡ get_or epochs job.pool_id 0)

abbrev CurrentBut : ℕ → ℕ → List ℕ → Option Job → Type 0
CurrentBut pool_id epoch epochs none = Unit {0}
CurrentBut pool_id epoch epochs (some job) =
    job.pool_id ≢ pool_id → (job.epoch ≡ epoch) × (job.pool_epoch ≡ get_or epochs job.pool_id 0)

-- What is known of the jobs while the lock is held.
abbrev pub Jobs : ℕ → List ℕ → List (Option Job) → Holder → Type 0
Jobs epoch epochs jobs free = All (Current epoch epochs) jobs
Jobs epoch epochs jobs (sending p) =
    All (Current epoch epochs) jobs × Current epoch epochs (some (job_of p))
Jobs epoch epochs jobs (raising i) = Unit {0}
Jobs epoch epochs jobs clearing_all = Unit {0}
Jobs epoch epochs jobs (clearing_pool pool_id) = All (CurrentBut pool_id epoch epochs) jobs
Jobs epoch epochs jobs leaving = All (Current epoch epochs) jobs

pub record IsFresh (w : World) : Type 0 where
  pub jobs : Jobs w.work_epoch w.pool_epochs w.active_jobs w.holder
  pub works : All (HasEpoch w.task.current_epoch) w.task.pools

pub clear_jobs-Current :
    (epoch : ℕ) (epochs : List ℕ) (jobs : List (Option Job))
    → All (Current epoch epochs) (clear_jobs jobs)
unfolding clear_jobs
clear_jobs-Current epoch epochs [] = tt
clear_jobs-Current epoch epochs (slot ∷ jobs) = (tt, clear_jobs-Current epoch epochs jobs)

clear_jobs-Jobs :
    (epoch : ℕ) (epochs : List ℕ) (jobs : List (Option Job)) (holder : Holder)
    → Jobs epoch epochs jobs holder
    → Jobs epoch epochs (clear_jobs jobs) holder
clear_jobs-Jobs epoch epochs jobs free h = clear_jobs-Current epoch epochs jobs
clear_jobs-Jobs epoch epochs jobs (sending p) h = (clear_jobs-Current epoch epochs jobs, h.1)
clear_jobs-Jobs epoch epochs jobs (raising i) h = h
clear_jobs-Jobs epoch epochs jobs clearing_all h = h
clear_jobs-Jobs epoch epochs jobs (clearing_pool pool_id) h =
    All-imp (Current epoch epochs) (CurrentBut pool_id epoch epochs) (clear_jobs jobs) weaken
      (clear_jobs-Current epoch epochs jobs)
  where
    weaken : (slot : Option Job) → Current epoch epochs slot → CurrentBut pool_id epoch epochs slot
    weaken none c = tt
    weaken (some job) c = λ _. c
clear_jobs-Jobs epoch epochs jobs leaving h = clear_jobs-Current epoch epochs jobs

clear_pool_jobs-Current :
    (pool_id epoch : ℕ) (epochs : List ℕ) (jobs : List (Option Job))
    → All (CurrentBut pool_id epoch epochs) jobs
    → All (Current epoch epochs) (clear_pool_jobs pool_id jobs)
unfolding clear_pool_jobs
clear_pool_jobs-Current pool_id epoch epochs [] h = tt
clear_pool_jobs-Current pool_id epoch epochs (none ∷ jobs) h =
    (tt, clear_pool_jobs-Current pool_id epoch epochs jobs h.1)
clear_pool_jobs-Current pool_id epoch epochs (some job ∷ jobs) h =
    let rest = clear_pool_jobs-Current pool_id epoch epochs jobs h.1 in
    elim (Bool-cases (job.pool_id == pool_id)) [
      | inl e ↦ rw e (tt, rest)
      | inr e ↦ rw e (h.0 (ground arith), rest)
    ]

-- Raising a pool's epoch leaves the jobs of the other pools current.
raise_pool-CurrentBut :
    (pool_id epoch : ℕ) (epochs : List ℕ) (slot : Option Job)
    → Current epoch epochs slot
    → CurrentBut pool_id epoch (raise_pool pool_id epochs) slot
raise_pool-CurrentBut pool_id epoch epochs none c = tt
raise_pool-CurrentBut pool_id epoch epochs (some job) c = λ ne. (
  c.0,
  c.1
      ∙ sym (
          get_or-set_ne epochs pool_id job.pool_id (raised (get_or epochs pool_id 0)) 0
            (λ e. ne (sym e))),
)

module _ {w : World} (fresh : IsFresh w) where
  -- The jobs at a known holder.
  Jobs-at :
      (holder : Holder) → w.holder ≡ holder → Jobs w.work_epoch w.pool_epochs w.active_jobs holder
  Jobs-at holder e = subst (Jobs w.work_epoch w.pool_epochs w.active_jobs) e fresh.jobs

  lock_send-Jobs :
      (pool_id work : ℕ)
      → w.holder ≡ free
      → (get_or w.task.pools pool_id no_work).work ≡ some work
      → may_send w (get_or w.task.pools pool_id no_work) ≡ true
      → Jobs w.work_epoch w.pool_epochs w.active_jobs
          (sending (get_or w.task.pools pool_id no_work))
  unfolding may_send
  lock_send-Jobs pool_id work is_free has_work allowed =
      let p : PoolWork = get_or w.task.pools pool_id no_work in
      let own : p.epoch ≡ w.task.current_epoch =
        All-get_or (HasEpoch w.task.current_epoch) w.task.pools pool_id no_work fresh.works
          (no_work-HasEpoch w.task.current_epoch) work has_work in
      (Jobs-at free is_free, (ground arith, ground arith))

  send-Jobs :
      (p : PoolWork)
      → w.holder ≡ sending p
      → All
          (Current w.work_epoch w.pool_epochs)
          (set w.active_jobs (next_job_id w) (some (job_of p)))
  send-Jobs p e =
      let (jobs, mine) = Jobs-at (sending p) e in
      All-set (Current w.work_epoch w.pool_epochs) w.active_jobs (next_job_id w) (some (job_of p))
        jobs mine

  count_sent-Works :
      (pool_id : ℕ)
      → All
          (HasEpoch w.task.current_epoch)
          (set w.task.pools pool_id (dispatched (get_or w.task.pools pool_id no_work)))
  count_sent-Works pool_id =
      All-set (HasEpoch w.task.current_epoch) w.task.pools pool_id
        (dispatched (get_or w.task.pools pool_id no_work)) fresh.works
        (All-get_or (HasEpoch w.task.current_epoch) w.task.pools pool_id no_work fresh.works
          (no_work-HasEpoch w.task.current_epoch))

-- Every step keeps the jobs and the kept work fresh.
pub Step-IsFresh : {w t : World} → Step w t → IsFresh w → IsFresh t
Step-IsFresh (lock_all e) f = record { jobs = tt; works = f.works }
Step-IsFresh (raise_next i e lt) f = record { jobs = tt; works = f.works }
Step-IsFresh (all_raised e) f = record { jobs = tt; works = f.works }
Step-IsFresh {w} (lock_pool pool_id e lt) f = record {
  jobs =
      All-imp (Current w.work_epoch w.pool_epochs)
        (CurrentBut pool_id w.work_epoch (raise_pool pool_id w.pool_epochs)) w.active_jobs
        (raise_pool-CurrentBut pool_id w.work_epoch w.pool_epochs) (Jobs-at f free e);
  works = f.works;
}
Step-IsFresh {w} (pool_cleared pool_id e) f = record {
  jobs =
      clear_pool_jobs-Current pool_id w.work_epoch w.pool_epochs w.active_jobs
        (Jobs-at f (clearing_pool pool_id) e);
  works = f.works;
}
Step-IsFresh pause f = record { jobs = f.jobs; works = f.works }
Step-IsFresh resume f = record { jobs = f.jobs; works = f.works }
Step-IsFresh (lock_clear e) f = record { jobs = tt; works = f.works }
Step-IsFresh {w} (all_cleared e) f = record {
  jobs = clear_jobs-Current w.work_epoch w.pool_epochs w.active_jobs;
  works = f.works;
}
Step-IsFresh (unlock e) f = record { jobs = Jobs-at f leaving e; works = f.works }
Step-IsFresh {w} hardware_clear f = record {
  jobs = clear_jobs-Jobs w.work_epoch w.pool_epochs w.active_jobs w.holder f.jobs;
  works = f.works;
}
Step-IsFresh {w} (sync latest) f = record {
  jobs = f.jobs;
  works = sync_epoch-Works latest w.task f.works;
}
Step-IsFresh {w} (arrive latest latest' pool_epoch incoming) f = record {
  jobs = f.jobs;
  works = apply_incoming-Works latest latest' pool_epoch incoming w.task f.works;
}
Step-IsFresh (lock_send pool_id work e has_work allowed) f = record {
  jobs = lock_send-Jobs f pool_id work e has_work allowed;
  works = f.works;
}
Step-IsFresh (send p e) f = record { jobs = send-Jobs f p e; works = f.works }
Step-IsFresh (count_sent pool_id) f = record { jobs = f.jobs; works = count_sent-Works f pool_id }

pub Reach-IsFresh : {s t : World} → IsFresh s → Reach s t → IsFresh t
Reach-IsFresh f here = f
Reach-IsFresh f (next r step) = Step-IsFresh step (Reach-IsFresh f r)

-- While nobody holds the lock, the jobs are all of the current epochs.
pub Reach-Current :
    {s t : World}
    → IsFresh s
    → Reach s t
    → t.holder ≡ free
    → All (Current t.work_epoch t.pool_epochs) t.active_jobs
Reach-Current f r e = Jobs-at (Reach-IsFresh f r) free e
