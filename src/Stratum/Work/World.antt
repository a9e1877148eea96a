-- ===== src/Stratum/Work/World.antt =====
-- The tasks of main/stratum_minimal.c that reset, pause and dispatch work, as interleaved steps.
use m45_gamma_firmware.Base.{
  ℕ, suc, ◌+◌, ◌%◌, ◌^◌, ◌<◌, ◌≡◌, Bool, true, false, ◌&&◌, not, Option, none, some, List, [], ◌∷◌,
  ◌==◌, if◌then◌else◌, get_or, set,
}
use m45_gamma_firmware.Stratum.Work.{Queued}
use m45_gamma_firmware.Stratum.Work.Task.{
  PoolWork, Task, no_work, sync_epoch, apply_incoming, clear_all, clear_pool, take_queued,
}
mod Examples
pub mod Fresh
pub mod Resets
pub mod Pause

-- A job in `active_jobs`. The C job has its pool only: the epochs are those of the work that it was
-- built from, and no step reads them.
pub record Job : Type 0 where
  pub pool_id : ℕ
  pub epoch : ℕ
  pub pool_epoch : ℕ

-- How far the task that holds `g_work_reset_lock` is.
pub data Holder : Type 0 where
  -- Nobody holds the lock.
  free : Holder
  -- `generate_and_send_work` has tested the epochs again and not yet sent.
  sending : PoolWork → Holder
  -- `reset_work_state` has raised the work epoch and those of the pools below.
  raising : ℕ → Holder
  -- Before `bitaxe_gamma602_clear_jobs`, with all epochs raised or in a pause.
  clearing_all : Holder
  -- `reset_pool_work_state` before `bitaxe_gamma602_clear_pool_jobs`.
  clearing_pool : ℕ → Holder
  -- Before the lock is given back.
  leaving : Holder

pub record World : Type 0 where
  pub work_epoch : ℕ
  pub pool_epochs : List ℕ
  pub work_paused : Bool
  pub job_id : ℕ
  pub active_jobs : List (Option Job)
  pub holder : Holder
  pub task : Task

-- `atomic_fetch_add` on 32 bits.
abbrev pub raised : ℕ → ℕ
raised epoch = (epoch + 1) % 2 ^ 32

abbrev pub pool_epoch_of : World → ℕ → ℕ
pool_epoch_of w pool_id = get_or w.pool_epochs pool_id 0

abbrev pub raise_pool : ℕ → List ℕ → List ℕ
raise_pool pool_id epochs = set epochs pool_id (raised (get_or epochs pool_id 0))

-- `bitaxe_gamma602_clear_jobs`
pub clear_jobs : List (Option Job) → List (Option Job)
clear_jobs [] = []
clear_jobs (slot ∷ slots) = none ∷ clear_jobs slots

-- `bitaxe_gamma602_clear_pool_jobs`
pub clear_pool_jobs : ℕ → List (Option Job) → List (Option Job)
clear_pool_jobs pool_id [] = []
clear_pool_jobs pool_id (none ∷ slots) = none ∷ clear_pool_jobs pool_id slots
clear_pool_jobs pool_id (some job ∷ slots) =
    (if job.pool_id == pool_id then none else some job) ∷ clear_pool_jobs pool_id slots

-- The second test of `generate_and_send_work`, under the lock.
pub may_send : World → PoolWork → Bool
may_send w p =
    w.task.current_epoch == w.work_epoch
    && (p.pool_epoch == pool_epoch_of w p.pool_id && not w.work_paused)

abbrev pub job_of : PoolWork → Job
job_of p = record { pool_id = p.pool_id; epoch = p.epoch; pool_epoch = p.pool_epoch }

-- The slot that `BM1370_send_work` takes.
abbrev pub next_job_id : World → ℕ
next_job_id w = (w.job_id + 24) % 128

-- After a dispatch: the next extranonce, and the first one is done.
abbrev pub dispatched : PoolWork → PoolWork
dispatched p = record p {
  extranonce_2 = (p.extranonce_2 + 1) % 2 ^ 64;
  queued_us = if p.first_dispatch_pending then 0 else p.queued_us;
  first_dispatch_pending = false;
}

-- The steps between which other tasks run. What arrives from the queue, and what the job task's
-- loads return, is arbitrary: its tests must do with any.
pub data Step (w : World) : World → Type 0 where
  -- `reset_work_state`
  lock_all :
      w.holder ≡ free → Step w (record w { work_epoch = raised w.work_epoch; holder = raising 0 })
  raise_next :
      (i : ℕ)
      → w.holder ≡ raising i
      → i < 3
      → Step w (record w { pool_epochs = raise_pool i w.pool_epochs; holder = raising (suc i) })
  all_raised : w.holder ≡ raising 3 → Step w (record w { holder = clearing_all })
  -- `reset_pool_work_state`, with `clear_asic_jobs` as all callers have it.
  lock_pool :
      (pool_id : ℕ)
      → w.holder ≡ free
      → pool_id < 3
      → Step w (record w {
        pool_epochs = raise_pool pool_id w.pool_epochs;
        holder = clearing_pool pool_id;
      })
  pool_cleared :
      (pool_id : ℕ)
      → w.holder ≡ clearing_pool pool_id
      → Step w (record w { active_jobs = clear_pool_jobs pool_id w.active_jobs; holder = leaving })
  -- `stratum_minimal_pause_work` and `stratum_minimal_resume_work` set the flag without the lock
  -- and clear the jobs under it.
  pause : Step w (record w { work_paused = true })
  resume : Step w (record w { work_paused = false })
  lock_clear : w.holder ≡ free → Step w (record w { holder = clearing_all })
  all_cleared :
      w.holder ≡ clearing_all
      → Step w (record w { active_jobs = clear_jobs w.active_jobs; holder = leaving })
  unlock : w.holder ≡ leaving → Step w (record w { holder = free })
  -- main/bitaxe_hw.c clears the jobs without this lock.
  hardware_clear : Step w (record w { active_jobs = clear_jobs w.active_jobs })
  -- The job task.
  sync : (latest : ℕ) → Step w (record w { task = sync_epoch latest w.task })
  arrive :
      (latest latest' pool_epoch : ℕ) (incoming : Queued)
      → Step w (record w { task = apply_incoming latest latest' pool_epoch incoming w.task })
  lock_send :
      (pool_id work : ℕ)
      → w.holder ≡ free
      → (get_or w.task.pools pool_id no_work).work ≡ some work
      → may_send w (get_or w.task.pools pool_id no_work) ≡ true
      → Step w (record w { holder = sending (get_or w.task.pools pool_id no_work) })
  send :
      (p : PoolWork)
      → w.holder ≡ sending p
      → Step w (record w {
        job_id = next_job_id w;
        active_jobs = set w.active_jobs (next_job_id w) (some (job_of p));
        holder = leaving;
      })
  count_sent :
      (pool_id : ℕ)
      → Step w (record w {
        task = record w.task {
          pools = set w.task.pools pool_id (dispatched (get_or w.task.pools pool_id no_work));
        };
      })

pub data Reach (s : World) : World → Type 0 where
  here : Reach s s
  next : {t u : World} → Reach s t → Step t u → Reach s u
