-- ===== src/Stratum/Results.antt =====
-- A nonce that comes back from the ASIC: `result_task` of main/stratum_minimal.c up to the share
-- that it submits.
use m45_gamma_firmware.Base.{
  ℕ, ◌+◌, ◌%◌, ◌^◌, bit_and, bit_or, bit_xor, Bool, false, ◌&&◌, ◌||◌, not, Option, none, some,
  List, ltb, leb, ◌==◌, if◌then◌else◌, length, get_or,
}
use m45_gamma_firmware.Base.Int.{ℤ, pos}
use m45_gamma_firmware.Asic.Bm1370.{TaskResult, WorkSlots}
use m45_gamma_firmware.Mining.Job.{BmJob}
use m45_gamma_firmware.Mining.Header.{test_nonce_header, complement}
use m45_gamma_firmware.Stratum.Work.{is_positive}
use m45_gamma_firmware.Stratum.Json.{submit_message, stratum_buffer_size}
use m45_gamma_firmware.Stratum.Requests.{
  Waiting, Responses, mark_share_request, mark_response_request_at, count_up,
}
use m45_gamma_firmware.Stratum.Pools.{pool_id_valid}
mod Examples
pub mod Checked
pub mod Accepted

-- The fields of a job in `active_jobs` that the results need. A double is its 64 bits, which order
-- the numbers from 0 up as `<` does.
pub record ActiveJob : Type 0 where
  pub job : BmJob
  pub version_mask : ℕ
  pub pool_id : ℕ
  pub jobid : Option (List ℕ)
  pub extranonce2 : Option (List ℕ)
  pub pool_diff : ℕ
  pub block_diff : ℕ

-- What is submitted to the pool.
pub record Share : Type 0 where
  pub active : ActiveJob
  pub nonce : ℕ
  pub version_bits : ℕ
  pub diff : ℕ

-- Counted as an error, dropped in a pause, or a valid nonce, with whether it may be a block, and its
-- share if it is one.
pub data Outcome : Type 0 where
  nonce_error : Outcome
  dropped : Outcome
  valid : Bool → Option Share → Outcome

-- `strlcpy(copy, text, size) < size`
abbrev pub fits : Option (List ℕ) → ℕ → Bool
fits none size = false
fits (some text) size = ltb (length text) size

-- The copy made under `valid_jobs_lock`; `jobs` is what a pointer to a job points to.
pub job_snapshot : (ℕ → ActiveJob) → WorkSlots → ℕ → Option ActiveJob
job_snapshot jobs slots job_id =
    if ltb job_id 128 && not (get_or slots.valid_jobs job_id 0 == 0)
    then elim (get_or slots.active_jobs job_id none) [
      | none ↦ none
      | some handle ↦
          if fits (jobs handle).jobid stratum_buffer_size && fits (jobs handle).extranonce2 65
          then some (jobs handle)
          else none
    ]
    else none

-- `difficulty` gives, from the 80 bytes of a header, the bits of the double that `test_nonce_value`
-- computes from their double SHA-256. It is a positive constant over a sum of numbers that are not
-- negative, thus never a NaN, and `diff <= 0.0` is the negation of `diff > 0.0`.
module _ (difficulty : List ℕ → ℕ) where
  -- The work is paused or not, and `current_diff` is the pool's.
  pub judge_job : ActiveJob → TaskResult → Bool → ℕ → Outcome
  judge_job a result work_paused current_diff =
      let rolled_version = bit_or a.job.version result.version_bits in
      let diff = difficulty (test_nonce_header a.job result.nonce rolled_version) in
      let required_diff = if ltb a.pool_diff current_diff then current_diff else a.pool_diff in
      if not (a.version_mask == 0)
        && not (bit_and result.version_bits (complement a.version_mask) == 0)
      then nonce_error
      else if not (is_positive diff)
      then nonce_error
      else if work_paused
      then dropped
      else valid (is_positive a.block_diff && leb a.block_diff diff) (
          if ltb diff required_diff
          then none
          else some record {
            active = a;
            nonce = result.nonce;
            version_bits = bit_xor rolled_version a.job.version;
            diff = diff;
          })

  pub judge_result : (ℕ → ActiveJob) → WorkSlots → (ℕ → ℕ) → Bool → TaskResult → Outcome
  unfolding job_snapshot judge_job
  judge_result jobs slots pool_current_difficulty work_paused result =
      elim (job_snapshot jobs slots result.job_id) [
        | none ↦ nonce_error
        | some a ↦ judge_job a result work_paused (pool_current_difficulty a.pool_id)
      ]

-- The counters of nonces, and whether a block was found.
pub record Nonces : Type 0 where
  pub valid_nonces : ℕ
  pub nonce_errors : ℕ
  pub block_alert_active : Bool

pub count_outcome : Nonces → Outcome → Nonces
count_outcome c nonce_error = record c { nonce_errors = (c.nonce_errors + 1) % 2 ^ 32 }
count_outcome c dropped = c
count_outcome c (valid block share) = record c {
  valid_nonces = (c.valid_nonces + 1) % 2 ^ 32;
  block_alert_active = block || c.block_alert_active;
}

-- The message of `submit_share`.
pub share_message : ℕ → Option (List ℕ) → Share → Option (List ℕ)
share_message request_id pool_user s =
    submit_message (pos request_id) pool_user s.active.jobid s.active.extranonce2
      (some s.active.job.ntime_hex) s.nonce s.version_bits

pub record Submits : Type 0 where
  pub shares : Waiting
  pub responses : Responses
  pub submitted : ℕ
  pub pool_submitted : List ℕ

-- After the message was written at `sent_us`.
pub record_submit : Submits → ℕ → ℕ → ℕ → Submits
unfolding pool_id_valid
record_submit s request_id pool_id sent_us = record s {
  shares = mark_share_request s.shares request_id pool_id;
  responses = mark_response_request_at s.responses pool_id (pos request_id) sent_us;
  submitted = (s.submitted + 1) % 2 ^ 32;
  pool_submitted =
      if pool_id_valid pool_id then count_up s.pool_submitted pool_id else s.pool_submitted;
}
