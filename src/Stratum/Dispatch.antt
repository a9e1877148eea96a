-- ===== src/Stratum/Dispatch.antt =====
-- A job for the ASIC from a pool's work: `generate_and_send_work` of main/stratum_minimal.c, which
-- joins main/mining.c and main/bm1370.c.
use m45_gamma_firmware.Base.{
  ℕ, ◌+◌, ◌%◌, ◌^◌, Bool, not, Option, none, some, List, ltb, if◌then◌else◌, length,
}
use m45_gamma_firmware.Hex.{bin2hex}
use m45_gamma_firmware.Mining.Job.{BmJob}
use m45_gamma_firmware.Mining.Coinbase.{
  Span, null, bytes, calculate_coinbase_tx_hash_parts, calculate_merkle_root_hash,
}
use m45_gamma_firmware.Mining.Header.{MiningNotify, construct_bm_job}
use m45_gamma_firmware.Mining.Extranonce.{extranonce_2_generate_bin}
use m45_gamma_firmware.Asic.Bm1370.{WorkSlots, send_work}
use m45_gamma_firmware.Stratum.Notify.{Notify}
use m45_gamma_firmware.Stratum.Work.Task.{PoolWork}
mod Examples
pub mod Sample
pub mod Submitted

abbrev pub max_coinbase_bytes : ℕ
max_coinbase_bytes = 4096

-- `MAX_EXTRANONCE2_STR`
abbrev pub max_extranonce2_str : ℕ
max_extranonce2_str = 65

abbrev pub params_of : Notify → MiningNotify
params_of n = record {
  version = n.version;
  target = n.target;
  ntime = n.ntime;
  prev_block_hash_bin = n.prev_block_hash_bin;
}

abbrev pub extranonce_of : PoolWork → Span
extranonce_of p = elim p.extranonce_bin [ none ↦ null p.extranonce_len | some bs ↦ bytes bs ]

-- `new_job` is what `alloc_bm_job` returns and `ids` whether `bm_job_set_ids` succeeds. The result
-- is the job with the second extranonce for its share, as `bin2hex` leaves it in the buffer.
module _ (double_sha256 midstate_sha256 : List ℕ → List ℕ) (malloc : ℕ → Bool) where
  unfoldable pub build_job :
      Notify → PoolWork → Option BmJob → Bool → Option (BmJob × Option (List ℕ))
  build_job n p new_job ids =
      let coinbase_len =
        length n.coinbase_1_bin + p.extranonce_len + p.extranonce_2_len + length n.coinbase_2_bin in
      let extranonce_2_bin = extranonce_2_generate_bin p.extranonce_2 p.extranonce_2_len in
      let merkle_root =
        calculate_merkle_root_hash double_sha256 malloc
          (calculate_coinbase_tx_hash_parts double_sha256 malloc (bytes n.coinbase_1_bin)
            (extranonce_of p) (bytes extranonce_2_bin) (bytes n.coinbase_2_bin))
          n.merkle_branches in
      if ltb max_coinbase_bytes coinbase_len then none else elim new_job [
        | none ↦ none
        | some job ↦
            if ids
            then some (
              construct_bm_job midstate_sha256 (params_of n) merkle_root p.version_mask job,
              bin2hex extranonce_2_bin max_extranonce2_str,
            )
            else none
      ]

  -- `built` is the outcome of the tests before, `allowed` that of those under the lock. The result
  -- is the slots, the pool's work for its next job, and the packet that was sent.
  pub generate_and_send_work :
      Notify
      → PoolWork
      → Bool
      → Option BmJob
      → Bool
      → Bool
      → WorkSlots
      → ℕ
      → Option (WorkSlots × PoolWork × List ℕ)
  unfolding build_job
  generate_and_send_work n p built new_job ids allowed slots handle =
      if not built then none else elim (build_job n p new_job ids) [
        | none ↦ none
        | some (job, extranonce_2_str) ↦
            let (slots', freed, packet) = send_work slots handle job in
            if allowed
            then some (slots', record p { extranonce_2 = (p.extranonce_2 + 1) % 2 ^ 64 }, packet)
            else none
      ]
