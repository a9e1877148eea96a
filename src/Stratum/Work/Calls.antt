-- ===== src/Stratum/Work/Calls.antt =====
-- The resets, pauses and notifications of main/stratum_minimal.c as whole calls, where no other task
-- runs in between.
use m45_gamma_firmware.Base.{ℕ, Bool, true, false, ◌&&◌, ◌||◌, not, List, ◌==◌, if◌then◌else◌}
use m45_gamma_firmware.Stratum.Pools.{pool_id_valid}
use m45_gamma_firmware.Stratum.Blocks.{Blocks, BlockUpdate, new, same, stale, note_current_block}
use m45_gamma_firmware.Stratum.Work.{
  Queued, Session, WorkQueue, drain_work_queue, drain_work_queue_for_pool, queue_work_reset_marker,
  enqueue_work,
}
use m45_gamma_firmware.Stratum.Work.World.{
  World, Holder, free, raised, raise_pool, pool_epoch_of, clear_jobs, clear_pool_jobs,
}
mod Examples
pub mod Steps
pub mod Notified

-- `stratum_minimal_pause_work` and `stratum_minimal_resume_work`
pub pause_work : World → World
pause_work w = record w {
  work_paused = true;
  active_jobs = clear_jobs w.active_jobs;
  holder = free;
}

pub resume_work : World → World
resume_work w = record w {
  active_jobs = clear_jobs w.active_jobs;
  work_paused = false;
  holder = free;
}

-- What `reset_work_state` and `reset_pool_work_state` do to the epochs and the jobs.
pub reset_all : World → World
reset_all w = record w {
  work_epoch = raised w.work_epoch;
  pool_epochs = raise_pool 2 (raise_pool 1 (raise_pool 0 w.pool_epochs));
  active_jobs = clear_jobs w.active_jobs;
  holder = free;
}

pub reset_one : ℕ → World → World
reset_one pool_id w = record w {
  pool_epochs = raise_pool pool_id w.pool_epochs;
  active_jobs = clear_pool_jobs pool_id w.active_jobs;
  holder = free;
}

module _ (queue : WorkQueue) where
  open queue use {Q}

  abbrev marked : Bool → Bool → ℕ → ℕ → ℕ → Q → Q
  marked queue_marker all pool_id epoch pool_epoch q =
      if queue_marker then queue_work_reset_marker queue all pool_id epoch pool_epoch q else q

  pub reset_work_state : Bool → World → Q → World × Q
  unfolding reset_all
  reset_work_state queue_marker w q = (
    reset_all w,
    marked queue_marker true 0 (reset_all w).work_epoch 0 (drain_work_queue queue q),
  )

  pub reset_pool_work_state : ℕ → Bool → World → Q → World × Q
  unfolding reset_one pool_id_valid
  reset_pool_work_state pool_id queue_marker w q =
      if pool_id_valid pool_id
      then (
        reset_one pool_id w,
        marked queue_marker false pool_id w.work_epoch (pool_epoch_of (reset_one pool_id w) pool_id)
            (drain_work_queue_for_pool queue pool_id q),
      )
      else (w, q)

  pub reset_pool_or_single_work_state : Bool → ℕ → Bool → World → Q → World × Q
  unfolding reset_work_state reset_pool_work_state
  reset_pool_or_single_work_state multi_pool_mode pool_id queue_marker w q =
      if pool_id == 0 && not multi_pool_mode
      then reset_work_state queue_marker w q
      else reset_pool_work_state pool_id queue_marker w q

  -- `handle_mining_notify_work` without the payout check. The first block of a pool is no new one.
  pub handle_mining_notify_work :
      Bool
      → Session
      → Bool
      → ℕ
      → ℕ
      → ℕ
      → ℕ
      → List ℕ
      → Bool
      → ℕ
      → Blocks
      → World
      → Q
      → Blocks × World × Q
  unfolding reset_pool_or_single_work_state
  handle_mining_notify_work multi_pool_mode s room suggested state_mask pool_id work prev_block_hash
        clean_jobs now b w q =
      let (b', update) = note_current_block b pool_id prev_block_hash in
      let new_block : Bool = elim update [ same ↦ false | new ↦ true | stale ↦ false ] in
      let is_stale : Bool = elim update [ same ↦ false | new ↦ false | stale ↦ true ] in
      let (w', q') =
        if new_block || clean_jobs
        then reset_pool_or_single_work_state multi_pool_mode pool_id true w q
        else (w, q) in
      if is_stale then (b', w, q) else (
        b',
        w',
        (enqueue_work queue s room suggested state_mask pool_id work w'.work_epoch
            (pool_epoch_of w' pool_id) now q').0,
      )
