-- ===== src/Stratum/Results/Examples.antt =====
-- A nonce for a small notification, submitted.
use m45_gamma_firmware.Base.{ℕ, bit_or, bit_xor, some, List, [], ◌∷◌}
use m45_gamma_firmware.Mining.Job.{BmJob}
use m45_gamma_firmware.Asic.Bm1370.{TaskResult, invalid}
use m45_gamma_firmware.Mining.Coinbase.{
  bytes, calculate_coinbase_tx_hash_parts, calculate_merkle_root_hash,
}
use m45_gamma_firmware.Mining.Extranonce.{extranonce_2_generate_bin}
use m45_gamma_firmware.Mining.Header.{construct_bm_job}
use m45_gamma_firmware.Stratum.Dispatch.{params_of}
use m45_gamma_firmware.Stratum.Dispatch.Sample.{thirty_two, always, small_notify, empty_job}
use m45_gamma_firmware.Stratum.Results.{ActiveJob, Share}

-- A stand-in for the difficulty of a header.
abbrev eighty : List ℕ → ℕ
eighty header = 80

abbrev job : BmJob
job =
    construct_bm_job thirty_two (params_of small_notify)
      (calculate_merkle_root_hash thirty_two always
        (calculate_coinbase_tx_hash_parts thirty_two always (bytes small_notify.coinbase_1_bin)
          (bytes (0xaa ∷ [])) (bytes (extranonce_2_generate_bin 6 4))
          (bytes small_notify.coinbase_2_bin))
        small_notify.merkle_branches)
      0x1fffe000 empty_job

-- "06000000"
abbrev hex : List ℕ
hex = 48 ∷ 54 ∷ 48 ∷ 48 ∷ 48 ∷ 48 ∷ 48 ∷ 48 ∷ []

abbrev active : ActiveJob
active = record {
  job = job;
  version_mask = 0x1fffe000;
  pool_id = 0;
  jobid = some (1 ∷ []);
  extranonce2 = some hex;
  pool_diff = 5;
  block_diff = 0;
}

abbrev good_nonce : TaskResult
good_nonce = record {
  job_id = 24;
  nonce = 77;
  version_bits = 0x2000;
  register_type = invalid;
  asic_nr = 0;
  value = 0;
  core_id = 0;
  small_core_id = 0;
}

abbrev good_share : Share
good_share = record {
  active = active;
  nonce = 77;
  version_bits = bit_xor (bit_or active.job.version 0x2000) active.job.version;
  diff = 80;
}
