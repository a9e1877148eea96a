-- ===== src/Stratum/Work/Task.antt =====
-- What the job task keeps of each pool, and when it dispatches: `job_pool_state_t` and the
-- `job_task_` functions of main/stratum_minimal.c. What its atomic loads return are arguments, since
-- other tasks may write between two loads.
use m45_gamma_firmware.Base.{
  ℕ, ◌+◌, ◌-◌, ◌/◌, Bool, true, false, ◌&&◌, ◌||◌, not, Option, none, some, List, [], ◌∷◌, map, ltb,
  leb, ◌==◌, if◌then◌else◌, set,
}
use m45_gamma_firmware.Stratum.Pools.{PoolConfig, pool_id_valid, pool_session_configured}
use m45_gamma_firmware.Stratum.Work.{Queued, max_extranonce2_len}
mod Examples
pub mod Epoch
pub mod Timing

pub record PoolWork : Type 0 where
  pub work : Option ℕ
  pub epoch : ℕ
  pub pool_epoch : ℕ
  pub queued_us : ℕ
  pub pool_id : ℕ
  pub extranonce_bin : Option (List ℕ)
  pub extranonce_len : ℕ
  pub extranonce_2_len : ℕ
  pub pool_difficulty : ℕ
  pub version_mask : ℕ
  pub extranonce_2 : ℕ
  pub first_dispatch_pending : Bool

-- The variables of `job_task` that the functions below change.
pub record Task : Type 0 where
  pub pools : List PoolWork
  pub current_epoch : ℕ
  pub next_dispatch_us : ℕ

-- What `free_job_pool_state` leaves.
abbrev pub no_work : PoolWork
no_work = record {
  work = none;
  epoch = 0;
  pool_epoch = 0;
  queued_us = 0;
  pool_id = 0;
  extranonce_bin = none;
  extranonce_len = 0;
  extranonce_2_len = 0;
  pool_difficulty = 0;
  version_mask = 0;
  extranonce_2 = 0;
  first_dispatch_pending = false;
}

-- `job_pool_state_take_queued`
pub take_queued : Queued → PoolWork
take_queued queued = record {
  work = queued.work;
  epoch = queued.epoch;
  pool_epoch = queued.pool_epoch;
  queued_us = queued.queued_us;
  pool_id = queued.pool_id;
  extranonce_bin = queued.extranonce_bin;
  extranonce_len = queued.extranonce_len;
  extranonce_2_len = queued.extranonce_2_len;
  pool_difficulty = queued.pool_difficulty;
  version_mask = queued.version_mask;
  extranonce_2 = 0;
  first_dispatch_pending = true;
}

-- `job_task_clear_all`, with the epoch that it loads.
pub clear_all : ℕ → Task → Task
clear_all latest t = record {
  pools = map (λ _. no_work) t.pools;
  current_epoch = latest;
  next_dispatch_us = 0;
}

-- `job_task_clear_pool`
pub clear_pool : ℕ → Task → Task
unfolding pool_id_valid
clear_pool pool_id t =
    if pool_id_valid pool_id
    then record t { pools = set t.pools pool_id no_work; next_dispatch_us = 0 }
    else t

-- `job_task_sync_epoch`
pub sync_epoch : ℕ → Task → Task
unfolding clear_all
sync_epoch latest t = if latest == t.current_epoch then t else clear_all latest t

-- `job_task_apply_incoming`: `latest` is loaded by the first and `latest'` by the second of the
-- functions it calls, `pool_epoch` for the last test.
pub apply_incoming : ℕ → ℕ → ℕ → Queued → Task → Task
unfolding sync_epoch clear_all clear_pool take_queued pool_id_valid
apply_incoming latest latest' pool_epoch incoming t =
    let synced = sync_epoch latest t in
    if incoming.reset_all
    then clear_all latest' synced
    else if not (pool_id_valid incoming.pool_id)
    then synced
    else elim incoming.work [
      | none ↦ clear_pool incoming.pool_id synced
      | some work ↦
          if incoming.epoch == synced.current_epoch && incoming.pool_epoch == pool_epoch
          then record synced {
            pools = set synced.pools incoming.pool_id (take_queued incoming);
            next_dispatch_us = 0;
          }
          else synced
    ]

-- One received entry with what the loads return while it is applied.
pub record Arrival : Type 0 where
  pub latest : ℕ
  pub latest' : ℕ
  pub pool_epoch : ℕ
  pub incoming : Queued

-- `job_task_drain_available`
pub drain_available : List Arrival → Task → Task
unfolding apply_incoming
drain_available [] t = t
drain_available (a ∷ arrivals) t =
    drain_available arrivals (apply_incoming a.latest a.latest' a.pool_epoch a.incoming t)

-- `job_pool_ready`, with the epoch of the pool and the state of its session.
pub job_pool_ready : PoolWork → Option PoolConfig → ℕ → Bool → Bool → Bool
unfolding pool_id_valid
job_pool_ready p config pool_epoch runtime_disabled connected =
    elim p.work [
      | none ↦ false
      | some work ↦ pool_id_valid p.pool_id && pool_session_configured config p.pool_id
    ]
    && (p.pool_epoch == pool_epoch && (not runtime_disabled && connected))

-- The tests of `generate_and_send_work` before it builds a job: `ready` stands for the ASIC being
-- initialised and for `ensure_asic_version_mask` and `ensure_asic_job_difficulty`.
pub may_build : PoolWork → Bool → ℕ → ℕ → ℕ → Bool → Bool
may_build p work_paused work_epoch latest pool_epoch ready =
    elim p.work [ none ↦ false | some work ↦ not work_paused ]
    && (work_epoch == latest
        && (p.pool_epoch == pool_epoch
            && (ready
                && ((p.extranonce_len == 0
                      || elim p.extranonce_bin [ none ↦ false | some bytes ↦ true ])
                    && (ltb 0 p.extranonce_2_len && leb p.extranonce_2_len max_extranonce2_len)))))

-- How long `job_task` waits for the queue, in milliseconds.
pub wait_ms : Bool → Bool → ℕ → ℕ → ℕ
wait_ms work_paused any_ready next_dispatch_us now_us =
    if work_paused
    then 50
    else if not any_ready
    then 500
    else if next_dispatch_us == 0 || leb next_dispatch_us now_us
    then 0
    else let timeout_ms = (next_dispatch_us - now_us + 999) / 1000 in
      if ltb timeout_ms 1 then 1 else timeout_ms

-- The time of the next dispatch after one that was scheduled for `scheduled_us` (0: at once), began
-- at `now_us` and ended at `after_send_us`.
pub next_dispatch : ℕ → ℕ → ℕ → ℕ → ℕ
next_dispatch scheduled_us interval_us now_us after_send_us =
    let next_us =
      if scheduled_us == 0 || ltb (scheduled_us + interval_us) now_us
      then now_us + interval_us
      else scheduled_us + interval_us in
    if leb next_us after_send_us then after_send_us + 1000 else next_us
