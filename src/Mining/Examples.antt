-- ===== src/Mining/Examples.antt =====
-- The mining work on concrete data.
use m45_gamma_firmware.Base.{
  ℕ, ◌≡◌, refl, Bool, true, some, List, [], ◌∷◌, reverse, arith, length, take, replicate,
}
use m45_gamma_firmware.Hex.{hex_digits, reverse_endianness_per_word, swap_loop}
use m45_gamma_firmware.Mining.Job.{BmJob}
use m45_gamma_firmware.Mining.Coinbase.{
  bytes, calculate_coinbase_tx_hash_parts, calculate_coinbase_tx_hash,
}
use m45_gamma_firmware.Mining.Coinbase.Forms.{calculate_coinbase_tx_hash-parts}
use m45_gamma_firmware.Mining.Header.{
  MiningNotify, midstate_data, construct_bm_job, test_nonce_header,
}
use m45_gamma_firmware.Mining.Header.Layout.{block_header, test_nonce_header-construct_bm_job}

-- Stand-ins for the hash functions and the heap.
abbrev last_32 : List ℕ → List ℕ
last_32 tx = take 32 (reverse tx)

abbrev always : ℕ → Bool
always n = true

calculate_coinbase_tx_hash-parts_example :
    calculate_coinbase_tx_hash last_32 always
      (some (hex_digits (1 ∷ [])))
      (some (hex_digits (2 ∷ [])))
      (some (hex_digits (3 ∷ [])))
      (some (hex_digits (4 ∷ [])))
    ≡ some (
        calculate_coinbase_tx_hash_parts last_32 always
          (bytes (1 ∷ []))
          (bytes (3 ∷ []))
          (bytes (4 ∷ []))
          (bytes (2 ∷ [])))
calculate_coinbase_tx_hash-parts_example =
    calculate_coinbase_tx_hash-parts last_32 always (1 ∷ []) (2 ∷ []) (3 ∷ []) (4 ∷ [])
      (omega arith, tt) (omega arith, tt) (omega arith, tt) (omega arith, tt)

abbrev notify : MiningNotify
notify = record {
  version = 0x20000000;
  target = 5;
  ntime = 6;
  prev_block_hash_bin = replicate 32 7;
}

abbrev root : List ℕ
root = replicate 32 9

abbrev empty_job : BmJob
empty_job = record {
  version = 0;
  prev_block_hash = [];
  merkle_root = [];
  ntime = 0;
  target = 0;
  starting_nonce = 0;
  header_prefix = [];
  ntime_hex = [];
  num_midstates = 0;
  midstate = [];
  midstate1 = [];
  midstate2 = [];
  midstate3 = [];
}

test_nonce_header-construct_bm_job_example :
    (test_nonce_header (construct_bm_job last_32 notify root 0x1fffe000 empty_job) 77 0x20002000
      ≡ block_header 0x20002000
          (reverse_endianness_per_word notify.prev_block_hash_bin)
          root
          6
          5
          77)
    × (take 64 (
          test_nonce_header
            (construct_bm_job last_32 notify root 0x1fffe000 empty_job)
            77
            0x20002000)
        ≡ midstate_data 0x20002000 (reverse_endianness_per_word notify.prev_block_hash_bin) root)
    × (length (
          test_nonce_header
            (construct_bm_job last_32 notify root 0x1fffe000 empty_job)
            77
            0x20002000)
        ≡ 80)
test_nonce_header-construct_bm_job_example =
    test_nonce_header-construct_bm_job last_32 notify root 0x1fffe000 empty_job 77 0x20002000 refl
      words
  where
    words : length (reverse_endianness_per_word notify.prev_block_hash_bin) ≡ 32
    words = unfold reverse_endianness_per_word swap_loop in refl
