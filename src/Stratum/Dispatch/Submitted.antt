-- ===== src/Stratum/Dispatch/Submitted.antt =====
-- What main/stratum_minimal.c mines is what a pool rebuilds from a submitted share.
use m45_gamma_firmware.Base.{
  ℕ, ◌+◌, ◌≤◌, ◌≡◌, refl, sym, ap, ap₂, ◌∙◌, Bool, true, false, Option, some, List, ◌++◌, arith,
  ltb, length,
}
use m45_gamma_firmware.Hex.{uint32_to_hex8, reverse_endianness_per_word}
use m45_gamma_firmware.Hex.RoundTrip.{from_hex}
use m45_gamma_firmware.Mining.Job.{BmJob}
use m45_gamma_firmware.Mining.Coinbase.{
  calculate_merkle_root_hash, calculate_coinbase_tx_hash_parts, bytes,
}
use m45_gamma_firmware.Hex.Words.{
  joined, turned, IsEightWords, reverse_endianness_per_word-turned, length-eight_words,
}
use m45_gamma_firmware.Mining.Coinbase.Tree.{
  MerkleTree, tree_root, with_coinbase, siblings, calculate_merkle_root_hash-siblings,
}
use m45_gamma_firmware.Mining.Coinbase.Whole.{
  calculate_coinbase_tx_hash_parts-bytes, length-merkle_root,
}
use m45_gamma_firmware.Mining.Header.{construct_bm_job, test_nonce_header}
use m45_gamma_firmware.Mining.Header.Layout.{
  block_header, construct_bm_job-fields, test_nonce_header-construct_bm_job,
}
use m45_gamma_firmware.Mining.Extranonce.{extranonce_2_generate_bin, bin2hex-generate_bin}
use m45_gamma_firmware.Stratum.Notify.{Notify}
use m45_gamma_firmware.Stratum.Work.Task.{PoolWork}
use m45_gamma_firmware.Stratum.Dispatch.{build_job, extranonce_of, max_extranonce2_str, params_of}

-- The merkle root that a pool rebuilds from the transactions of its block, the coinbase of its
-- notification, the first extranonce it gave out and the hexadecimal second extranonce of a share.
abbrev pub pool_root : (List ℕ → List ℕ) → MerkleTree → Notify → List ℕ → List ℕ → List ℕ
pool_root double_sha256 transactions n extranonce hex = tree_root double_sha256 (
    with_coinbase
      (double_sha256 (n.coinbase_1_bin ++ (extranonce ++ (from_hex hex ++ n.coinbase_2_bin))))
      transactions)

-- The same from the notification's branches, as the job's is computed.
abbrev mined_root : (List ℕ → List ℕ) → (ℕ → Bool) → Notify → List ℕ → List ℕ → List ℕ
mined_root double_sha256 malloc n extranonce hex =
    calculate_merkle_root_hash double_sha256 malloc
      (double_sha256 (n.coinbase_1_bin ++ (extranonce ++ (from_hex hex ++ n.coinbase_2_bin))))
      n.merkle_branches

-- What a notification tells of the pool's block: the hashes beside the coinbase's path in the tree
-- of its transactions, and the previous block's hash with the bytes of each word turned round.
pub record IsFor (double_sha256 : List ℕ → List ℕ) (transactions : MerkleTree)
    (prev_words : List (List ℕ)) (n : Notify) : Type 0 where
  pub branches : n.merkle_branches ≡ siblings double_sha256 transactions
  pub words : IsEightWords prev_words
  pub prev_hash : n.prev_block_hash_bin ≡ turned prev_words

module _ (double_sha256 midstate_sha256 : List ℕ → List ℕ) (malloc : ℕ → Bool)
    (hash_len : (text : List ℕ) → length (double_sha256 text) ≡ 32) where
  module _ (n : Notify) (p : PoolWork) (extranonce : List ℕ)
      (given : p.extranonce_bin ≡ some extranonce) (whole : length extranonce ≡ p.extranonce_len)
      (short : p.extranonce_2_len ≤ 32)
      (small : length n.coinbase_1_bin
          + p.extranonce_len
          + p.extranonce_2_len
          + length n.coinbase_2_bin
        ≤ 4096)
      (room : malloc (
          length n.coinbase_1_bin + p.extranonce_len + p.extranonce_2_len + length n.coinbase_2_bin)
        ≡ true) where
    coinbase_hash :
        (e2 : List ℕ)
        → length e2 ≡ p.extranonce_2_len
        → calculate_coinbase_tx_hash_parts double_sha256 malloc
            (bytes n.coinbase_1_bin)
            (bytes extranonce)
            (bytes e2)
            (bytes n.coinbase_2_bin)
          ≡ double_sha256 (n.coinbase_1_bin ++ (extranonce ++ (e2 ++ n.coinbase_2_bin)))
    coinbase_hash e2 size =
        calculate_coinbase_tx_hash_parts-bytes double_sha256 malloc n.coinbase_1_bin extranonce e2
          n.coinbase_2_bin (omega (arith, whole, size)) (rw (whole, size) room)

    built_header :
        (new_job : BmJob) (rolled nonce : ℕ)
        → length (reverse_endianness_per_word n.prev_block_hash_bin) ≡ 32
        → (job : BmJob) × ((hex : List ℕ) × ((build_job double_sha256 midstate_sha256 malloc n p
                  (some new_job)
                  true
                ≡ some (job, some hex))
              × (((job.version ≡ n.version) × (job.ntime_hex ≡ uint32_to_hex8 n.ntime))
                  × (test_nonce_header job nonce rolled
                      ≡ block_header rolled
                          (reverse_endianness_per_word n.prev_block_hash_bin)
                          (mined_root double_sha256 malloc n extranonce hex)
                          n.ntime
                          n.target
                          nonce))))
    unfolding build_job
    built_header new_job rolled nonce prev_len =
        let e2 : List ℕ = extranonce_2_generate_bin p.extranonce_2 p.extranonce_2_len in
        let (hex, written, _, back, size) =
          bin2hex-generate_bin p.extranonce_2 p.extranonce_2_len max_extranonce2_str
            (omega arith) in
        let same : extranonce_of p ≡ bytes extranonce = rw (given, extranonce_of) refl in
        let hash : calculate_coinbase_tx_hash_parts double_sha256 malloc (bytes n.coinbase_1_bin)
              (extranonce_of p) (bytes e2) (bytes n.coinbase_2_bin)
            ≡ double_sha256
                (n.coinbase_1_bin ++ (extranonce ++ (from_hex hex ++ n.coinbase_2_bin))) =
          ap
            (λ s.
              calculate_coinbase_tx_hash_parts double_sha256 malloc (bytes n.coinbase_1_bin) s
                (bytes e2) (bytes n.coinbase_2_bin))
            same
          ∙ (coinbase_hash e2 size
              ∙ ap
                  (λ b. double_sha256 (n.coinbase_1_bin ++ (extranonce ++ (b ++ n.coinbase_2_bin))))
                  (sym back)) in
        let root : List ℕ = mined_root double_sha256 malloc n extranonce hex in
        let fits : ltb 4096 (
              length n.coinbase_1_bin
              + p.extranonce_len
              + p.extranonce_2_len
              + length n.coinbase_2_bin)
            ≡ false =
          ground arith in
        let job : BmJob =
          construct_bm_job midstate_sha256 (params_of n) root p.version_mask new_job in
        let hashed : List ℕ =
          double_sha256 (n.coinbase_1_bin ++ (extranonce ++ (from_hex hex ++ n.coinbase_2_bin))) in
        let built =
          ap₂
            (λ (h : List ℕ) (t : Option (List ℕ)). some (
              construct_bm_job midstate_sha256 (params_of n)
                  (calculate_merkle_root_hash double_sha256 malloc h n.merkle_branches)
                  p.version_mask new_job,
              t,
            ))
            hash written in
        let header =
          test_nonce_header-construct_bm_job midstate_sha256 (params_of n) root p.version_mask
            new_job nonce rolled
            (length-merkle_root double_sha256 malloc hash_len hashed n.merkle_branches
              (hash_len (n.coinbase_1_bin ++ (extranonce ++ (from_hex hex ++ n.coinbase_2_bin)))))
            prev_len in
        let fields =
          construct_bm_job-fields midstate_sha256 (params_of n) root p.version_mask new_job in
        (job, (hex, (rw fits built, (fields, header.0))))

    -- With memory for the job and its strings, a job is built from work with its first extranonce,
    -- of at most 32 bytes of second extranonce and 4096 of coinbase, if the notification is for a
    -- block with the given transactions and previous block; its second extranonce is kept as a
    -- string; its version and time are the notification's; and the header that it hashes for a
    -- version and a nonce is that of the block with the coinbase that has this second extranonce:
    -- its merkle root is the root of the tree of the transactions, with that coinbase first.
    pub build_job_lem :
        (new_job : BmJob) (rolled nonce : ℕ) (transactions : MerkleTree) (words : List (List ℕ))
        → IsFor double_sha256 transactions words n
        → (job : BmJob) × ((hex : List ℕ) × ((build_job double_sha256 midstate_sha256 malloc n p
                  (some new_job)
                  true
                ≡ some (job, some hex))
              × (((job.version ≡ n.version) × (job.ntime_hex ≡ uint32_to_hex8 n.ntime))
                  × (test_nonce_header job nonce rolled
                      ≡ block_header rolled
                          (joined words)
                          (pool_root double_sha256 transactions n extranonce hex)
                          n.ntime
                          n.target
                          nonce))))
    build_job_lem new_job rolled nonce transactions words is =
        let prev : reverse_endianness_per_word n.prev_block_hash_bin ≡ joined words =
          ap reverse_endianness_per_word is.prev_hash
          ∙ reverse_endianness_per_word-turned words is.words in
        let (job, (hex, (built, (fields, header)))) =
          built_header new_job rolled nonce (ap length prev ∙ length-eight_words words is.words) in
        let hashed : List ℕ =
          double_sha256 (n.coinbase_1_bin ++ (extranonce ++ (from_hex hex ++ n.coinbase_2_bin))) in
        let root =
          ap (calculate_merkle_root_hash double_sha256 malloc hashed) is.branches
          ∙ calculate_merkle_root_hash-siblings double_sha256 malloc hashed transactions in
        (
          job,
          (
            hex,
            (
              built,
              (
                fields,
                header
                    ∙ ap₂ (λ (b r : List ℕ). block_header rolled b r n.ntime n.target nonce) prev
                        root,
              ),
            ),
          ),
        )
