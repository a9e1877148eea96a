-- ===== src/Mining/Header/Layout.antt =====
-- The job holds the block header in its serialised form.
use m45_gamma_firmware.Base.{
  ℕ, zero, suc, ◌+◌, ◌/◌, ◌≤◌, ◌≡◌, refl, sym, ap, ap₂, ◌∙◌, subst, inl, inr, List, [], ◌∷◌, ◌++◌,
  append_assoc, arith, ◌==◌, Bool-cases, length, get_or, take, drop, length-append,
}
use m45_gamma_firmware.Asic.Bm1370.{le_bytes}
use m45_gamma_firmware.Hex.{uint32_to_hex8, reverse_32bit_words, reverse_endianness_per_word}
use m45_gamma_firmware.Mining.Job.{BmJob}
use m45_gamma_firmware.Mining.Header.{
  MiningNotify, midstate_data, construct_bm_job, test_nonce_header,
}

tabulate : ℕ → (ℕ → ℕ) → List ℕ
tabulate zero f = []
tabulate (suc n) f = f zero ∷ tabulate n (λ i. f (suc i))

tabulate-get_or : (xs : List ℕ) → xs ≡ tabulate (length xs) (λ i. get_or xs i 0)
unfolding tabulate
tabulate-get_or [] = refl
tabulate-get_or (x ∷ xs) = ap (λ (t : List ℕ). x ∷ t) (tabulate-get_or xs)

pub reverse_32bit_words-reverse_32bit_words :
    (xs : List ℕ) → length xs ≡ 32 → reverse_32bit_words (reverse_32bit_words xs) ≡ xs
reverse_32bit_words-reverse_32bit_words xs e =
    subst (λ (ys : List ℕ). reverse_32bit_words (reverse_32bit_words ys) ≡ ys) (sym all)
      (cells (λ i. get_or xs i 0))
  where
    all : xs ≡ tabulate 32 (λ i. get_or xs i 0)
    all = tabulate-get_or xs ∙ ap (λ (n : ℕ). tabulate n (λ i. get_or xs i 0)) e

    cells : (f : ℕ → ℕ) → reverse_32bit_words (reverse_32bit_words (tabulate 32 f)) ≡ tabulate 32 f
    cells f = unfold tabulate reverse_32bit_words in refl

-- The 80 bytes of a block header.
pub block_header : ℕ → List ℕ → List ℕ → ℕ → ℕ → ℕ → List ℕ
block_header version prev_block_hash merkle_root ntime target nonce =
    le_bytes 4 version
    ++ (prev_block_hash
        ++ (merkle_root ++ (le_bytes 4 ntime ++ (le_bytes 4 target ++ le_bytes 4 nonce))))

prefix_of :
    (midstate_sha256 : List ℕ → List ℕ) (params : MiningNotify) (root : List ℕ) (mask : ℕ)
    (job : BmJob)
    → length root ≡ 32
    → length (reverse_endianness_per_word params.prev_block_hash_bin) ≡ 32
    → (construct_bm_job midstate_sha256 params root mask job).header_prefix
      ≡ le_bytes 4 params.version
        ++ (reverse_endianness_per_word params.prev_block_hash_bin
            ++ (root ++ (le_bytes 4 params.ntime ++ le_bytes 4 params.target)))
unfolding construct_bm_job
prefix_of midstate_sha256 params root mask job root_len prev_len = elim (Bool-cases (mask == 0)) [
  | inl e ↦ rw e both
  | inr e ↦ rw e both
]
  where
    both :
        le_bytes 4 params.version
          ++ (reverse_32bit_words
                (reverse_32bit_words (reverse_endianness_per_word params.prev_block_hash_bin))
              ++ (reverse_32bit_words (reverse_32bit_words root)
                  ++ (le_bytes 4 params.ntime ++ le_bytes 4 params.target)))
        ≡ le_bytes 4 params.version
          ++ (reverse_endianness_per_word params.prev_block_hash_bin
              ++ (root ++ (le_bytes 4 params.ntime ++ le_bytes 4 params.target)))
    both =
        ap₂
          (λ (a b : List ℕ).
            le_bytes 4 params.version
            ++ (a ++ (b ++ (le_bytes 4 params.ntime ++ le_bytes 4 params.target))))
          (reverse_32bit_words-reverse_32bit_words _ prev_len)
          (reverse_32bit_words-reverse_32bit_words root root_len)

-- The version and the time of a job are those of the notification.
pub construct_bm_job-fields :
    (midstate_sha256 : List ℕ → List ℕ) (params : MiningNotify) (root : List ℕ) (mask : ℕ)
    (job : BmJob)
    → ((construct_bm_job midstate_sha256 params root mask job).version ≡ params.version)
      × ((construct_bm_job midstate_sha256 params root mask job).ntime_hex
          ≡ uint32_to_hex8 params.ntime)
unfolding construct_bm_job
construct_bm_job-fields midstate_sha256 params root mask job = elim (Bool-cases (mask == 0)) [
  | inl e ↦ rw e (refl, refl)
  | inr e ↦ rw e (refl, refl)
]

length-le_bytes : (n v : ℕ) → length (le_bytes n v) ≡ n
length-le_bytes zero v = refl
length-le_bytes (suc n) v = ap suc (length-le_bytes n (v / 256))

-- The header that is hashed for a nonce of a constructed job is the block header: the rolled
-- version, the previous block's hash with the bytes of each word swapped, the merkle root, the
-- time, the target and the nonce, where root and hash have 32 bytes. Its first 64 bytes are the
-- data of the midstate for that version, and the header has 80 bytes.
pub test_nonce_header-construct_bm_job :
    (midstate_sha256 : List ℕ → List ℕ) (params : MiningNotify) (root : List ℕ) (mask : ℕ)
    (job : BmJob) (nonce rolled : ℕ)
    → length root ≡ 32
    → length (reverse_endianness_per_word params.prev_block_hash_bin) ≡ 32
    → (test_nonce_header (construct_bm_job midstate_sha256 params root mask job) nonce rolled
        ≡ block_header rolled
            (reverse_endianness_per_word params.prev_block_hash_bin)
            root
            params.ntime
            params.target
            nonce)
      × (take 64
            (test_nonce_header (construct_bm_job midstate_sha256 params root mask job) nonce rolled)
          ≡ midstate_data rolled (reverse_endianness_per_word params.prev_block_hash_bin) root)
      × (length
            (test_nonce_header (construct_bm_job midstate_sha256 params root mask job) nonce rolled)
          ≡ 80)
unfolding test_nonce_header block_header
test_nonce_header-construct_bm_job midstate_sha256 params root mask job nonce rolled root_len
      prev_len =
    (whole, ap (λ (h : List ℕ). take 64 h) whole ∙ front, ap length whole ∙ size)
  where
    prev : List ℕ
    prev = reverse_endianness_per_word params.prev_block_hash_bin

    whole :
        le_bytes 4 rolled
          ++ (drop 4 ((construct_bm_job midstate_sha256 params root mask job).header_prefix)
              ++ le_bytes 4 nonce)
        ≡ le_bytes 4 rolled
          ++ (prev
              ++ (root
                  ++ (le_bytes 4 params.ntime ++ (le_bytes 4 params.target ++ le_bytes 4 nonce))))
    whole = rw (prefix_of midstate_sha256 params root mask job root_len prev_len) (
        ap (λ (t : List ℕ). le_bytes 4 rolled ++ t)
          (append_assoc prev (root ++ (le_bytes 4 params.ntime ++ le_bytes 4 params.target))
              (le_bytes 4 nonce)
            ∙ ap (λ (t : List ℕ). prev ++ t)
                (append_assoc root (le_bytes 4 params.ntime ++ le_bytes 4 params.target)
                  (le_bytes 4 nonce))))

    front :
        take 64 (
          le_bytes 4 rolled
          ++ (prev
              ++ (root
                  ++ (le_bytes 4 params.ntime ++ (le_bytes 4 params.target ++ le_bytes 4 nonce)))))
        ≡ le_bytes 4 rolled ++ (prev ++ take 28 root)
    front =
        ap (λ (t : List ℕ). le_bytes 4 rolled ++ t)
          (beyond prev _ 32 28 prev_len
            ∙ ap (λ (t : List ℕ). prev ++ t) (inside root _ 28 (omega arith)))
      where
        beyond :
            (xs ys : List ℕ) (n k : ℕ) → length xs ≡ n → take (n + k) (xs ++ ys) ≡ xs ++ take k ys
        beyond [] ys n k e = let z : n + k ≡ k = omega arith in ap (λ m. take m ys) z
        beyond (x ∷ xs) ys zero k e = absurd (omega arith)
        beyond (x ∷ xs) ys (suc n) k e =
            let z : suc n + k ≡ suc (n + k) = omega arith in
            ap (λ m. take m (x ∷ (xs ++ ys))) z
            ∙ ap (λ (t : List ℕ). x ∷ t) (beyond xs ys n k (omega arith))

        inside : (xs ys : List ℕ) (k : ℕ) → k ≤ length xs → take k (xs ++ ys) ≡ take k xs
        inside xs ys zero le = refl
        inside [] ys (suc k) le = absurd (omega arith)
        inside (x ∷ xs) ys (suc k) le = ap (λ (t : List ℕ). x ∷ t) (inside xs ys k (omega arith))

    size :
        length (
          le_bytes 4 rolled
          ++ (prev
              ++ (root
                  ++ (le_bytes 4 params.ntime ++ (le_bytes 4 params.target ++ le_bytes 4 nonce)))))
        ≡ 80
    size = omega (
      arith,
      length-append prev
          (root ++ (le_bytes 4 params.ntime ++ (le_bytes 4 params.target ++ le_bytes 4 nonce))),
      length-append root
          (le_bytes 4 params.ntime ++ (le_bytes 4 params.target ++ le_bytes 4 nonce)),
    )
