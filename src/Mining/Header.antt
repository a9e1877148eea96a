-- ===== src/Mining/Header.antt =====
-- The job construction of main/mining.c.
use m45_gamma_firmware.Base.{
  ℕ, zero, suc, ◌+◌, ◌-◌, ◌*◌, ◌%◌, ◌^◌, bit_and, bit_or, List, ◌++◌, ltb, ◌==◌, if◌then◌else◌,
  take, drop,
}
use m45_gamma_firmware.Asic.Bm1370.{le_bytes}
use m45_gamma_firmware.Hex.{uint32_to_hex8, reverse_32bit_words, reverse_endianness_per_word}
use m45_gamma_firmware.Mining.Job.{BmJob}
pub mod Layout
pub mod Roll

-- The fields of `mining_notify` that a job is built from.
pub record MiningNotify : Type 0 where
  pub version : ℕ
  pub target : ℕ
  pub ntime : ℕ
  pub prev_block_hash_bin : List ℕ

-- `~mask` and `-mask` in 32 bits.
abbrev pub complement : ℕ → ℕ
complement mask = 2 ^ 32 - 1 - mask

abbrev pub negate : ℕ → ℕ
negate mask = (2 ^ 32 - mask) % 2 ^ 32

-- The recursion is on fuel: the lowest bit of every mask lies above that of the mask before it,
-- so 33 calls are enough.
pub increment_bitmask : ℕ → ℕ → ℕ → ℕ
increment_bitmask zero value mask = value
increment_bitmask (suc fuel) value mask =
    let carry = (bit_and value mask + bit_and mask (negate mask)) % 2 ^ 32 in
    let overflow = bit_and carry (complement mask) in
    let new_value = bit_or (bit_and value (complement mask)) (bit_and carry mask) in
    let deeper = increment_bitmask fuel new_value (overflow * 2 % 2 ^ 32) in
    if mask == 0 then value else if ltb 0 overflow then deeper else new_value

-- `increment_bitmask` at the outermost call.
abbrev pub roll : ℕ → ℕ → ℕ
roll version_mask version = increment_bitmask 33 version version_mask

-- The block's 64 first bytes, on which the midstates are computed.
abbrev pub midstate_data : ℕ → List ℕ → List ℕ → List ℕ
midstate_data version prev_block_hash merkle_root =
    le_bytes 4 version ++ (prev_block_hash ++ take 28 merkle_root)

-- `midstate_sha256` is `midstate_sha256_bin`, which calls mbedTLS. The midstates after the first
-- stay as they are in `new_job` where there is no version mask. The doubles of the job are left out.
module _ (midstate_sha256 : List ℕ → List ℕ) where
  unfoldable pub construct_bm_job : MiningNotify → List ℕ → ℕ → BmJob → BmJob
  construct_bm_job params merkle_root version_mask new_job =
      let prev_block_hash = reverse_endianness_per_word params.prev_block_hash_bin in
      let job_prev = reverse_32bit_words prev_block_hash in
      let job_root = reverse_32bit_words merkle_root in
      let midstate_of = λ (version : ℕ).
        reverse_32bit_words (midstate_sha256 (midstate_data version prev_block_hash merkle_root)) in
      let job = record new_job {
        version = params.version;
        target = params.target;
        ntime = params.ntime;
        starting_nonce = 0;
        ntime_hex = uint32_to_hex8 params.ntime;
        merkle_root = job_root;
        prev_block_hash = job_prev;
        header_prefix =
            le_bytes 4 params.version
            ++ (reverse_32bit_words job_prev
                ++ (reverse_32bit_words job_root
                    ++ (le_bytes 4 params.ntime ++ le_bytes 4 params.target)));
        midstate = midstate_of params.version;
      } in
      let version_1 = roll version_mask params.version in
      let version_2 = roll version_mask version_1 in
      let version_3 = roll version_mask version_2 in
      if version_mask == 0 then record job { num_midstates = 1 } else record job {
        midstate1 = midstate_of version_1;
        midstate2 = midstate_of version_2;
        midstate3 = midstate_of version_3;
        num_midstates = 4;
      }

-- The 80 bytes that `test_nonce_value` hashes.
pub test_nonce_header : BmJob → ℕ → ℕ → List ℕ
test_nonce_header job nonce rolled_version =
    le_bytes 4 rolled_version ++ (drop 4 job.header_prefix ++ le_bytes 4 nonce)
