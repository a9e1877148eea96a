-- ===== src/Mining/Job.antt =====
-- The fields of `bm_job` (main/mining.h) that the job construction and the ASIC driver use.
use m45_gamma_firmware.Base.{ℕ, List}

-- Byte arrays are lists of numbers below 256, and integers are their values. Left out are the two
-- difficulties, which are C doubles, and the pool and id strings, which other functions fill in.
pub record BmJob : Type 0 where
  pub version : ℕ
  pub prev_block_hash : List ℕ
  pub merkle_root : List ℕ
  pub ntime : ℕ
  pub target : ℕ
  pub starting_nonce : ℕ
  pub header_prefix : List ℕ
  pub ntime_hex : List ℕ
  pub num_midstates : ℕ
  pub midstate : List ℕ
  pub midstate1 : List ℕ
  pub midstate2 : List ℕ
  pub midstate3 : List ℕ
