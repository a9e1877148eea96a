-- ===== src/Mining/Coinbase.antt =====
-- The coinbase hash and the merkle root of main/mining.c.
use m45_gamma_firmware.Base.{
  ℕ, ◌+◌, ◌-◌, ◌/◌, Bool, false, ◌&&◌, ◌||◌, not, Option, none, some, List, [], ◌∷◌, ◌++◌, ltb,
  if◌then◌else◌, length, replicate,
}
use m45_gamma_firmware.Hex.{hex2bin}
pub mod Forms
pub mod Tree
pub mod Whole

-- A pointer with its length: NULL, or that many bytes.
pub data Span : Type 0 where
  null : ℕ → Span
  bytes : List ℕ → Span

abbrev pub span_len : Span → ℕ
span_len (null n) = n
span_len (bytes bs) = length bs

-- `len > 0 && p == NULL`
abbrev pub missing : Span → Bool
missing (null n) = ltb 0 n
missing (bytes bs) = false

abbrev pub span_bytes : Span → List ℕ
span_bytes (null n) = []
span_bytes (bytes bs) = bs

abbrev pub zero_hash : List ℕ
zero_hash = replicate 32 0

-- `double_sha256` is `double_sha256_bin`, which calls mbedTLS, and `malloc n` whether the heap has
-- a block of n bytes. The `dest` of every function is not NULL, and the result is what it is set
-- to, or `none` where it is left alone.
module _ (double_sha256 : List ℕ → List ℕ) (malloc : ℕ → Bool) where
  -- The buffer is on the stack up to 768 bytes and on the heap above.
  abbrev hash_in_buffer : ℕ → List ℕ → List ℕ
  hash_in_buffer tx_len tx =
      if ltb 768 tx_len && not (malloc tx_len) then zero_hash else double_sha256 tx

  pub calculate_coinbase_tx_hash_parts : Span → Span → Span → Span → List ℕ
  calculate_coinbase_tx_hash_parts coinbase_1 extranonce extranonce_2 coinbase_2 =
      let tx_len =
        span_len coinbase_1 + span_len extranonce + span_len extranonce_2 + span_len coinbase_2 in
      if missing coinbase_1
        || missing extranonce
        || missing extranonce_2
        || missing coinbase_2
        || ltb 4096 tx_len
      then zero_hash
      else hash_in_buffer tx_len (
          span_bytes coinbase_1
          ++ (span_bytes extranonce ++ (span_bytes extranonce_2 ++ span_bytes coinbase_2)))

  pub calculate_coinbase_tx_hash_bin :
      Span → Span → Option (List ℕ) → Option (List ℕ) → Option (List ℕ)
  calculate_coinbase_tx_hash_bin coinbase_1 coinbase_2 (some extranonce) (some extranonce_2) =
      let extranonce_len = length extranonce / 2 in
      let extranonce_2_len = length extranonce_2 / 2 in
      if ltb 64 extranonce_len || ltb 64 extranonce_2_len
      then some zero_hash
      else some (
          calculate_coinbase_tx_hash_parts coinbase_1 (bytes (hex2bin extranonce extranonce_len))
            (bytes (hex2bin extranonce_2 extranonce_2_len)) coinbase_2)
  calculate_coinbase_tx_hash_bin coinbase_1 coinbase_2 (some extranonce) none = none
  calculate_coinbase_tx_hash_bin coinbase_1 coinbase_2 none extranonce_2 = none

  -- The four `hex2bin` calls, each into what is left of the `tx_len` bytes: what they write.
  pub decode_all : List (List ℕ) → ℕ → List ℕ
  decode_all [] room = []
  decode_all (hex ∷ rest) room =
      let written = hex2bin hex room in written ++ decode_all rest (room - length written)

  pub calculate_coinbase_tx_hash :
      Option (List ℕ) → Option (List ℕ) → Option (List ℕ) → Option (List ℕ) → Option (List ℕ)
  calculate_coinbase_tx_hash (some coinbase_1) (some coinbase_2) (some extranonce)
        (some extranonce_2) =
      let tx_len =
        (length coinbase_1 + length extranonce + length extranonce_2 + length coinbase_2) / 2 in
      if ltb 4096 tx_len
      then some zero_hash
      else some (
          hash_in_buffer tx_len
            (decode_all (coinbase_1 ∷ extranonce ∷ extranonce_2 ∷ coinbase_2 ∷ []) tx_len))
  calculate_coinbase_tx_hash coinbase_1 coinbase_2 extranonce extranonce_2 = none

  -- The loop over the branches, with the first half of `pair`.
  unfoldable pub calculate_merkle_root_hash : List ℕ → List (List ℕ) → List ℕ
  calculate_merkle_root_hash pair [] = pair
  calculate_merkle_root_hash pair (branch ∷ merkle_branches) =
      calculate_merkle_root_hash (double_sha256 (pair ++ branch)) merkle_branches
