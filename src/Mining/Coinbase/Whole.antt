-- ===== src/Mining/Coinbase/Whole.antt =====
-- The coinbase hash of main/mining.c where nothing is missing.
use m45_gamma_firmware.Base.{ℕ, ◌+◌, ◌≤◌, ◌≡◌, Bool, true, List, [], ◌∷◌, ◌++◌, arith, length}
use m45_gamma_firmware.Mining.Coinbase.{
  bytes, calculate_coinbase_tx_hash_parts, calculate_merkle_root_hash,
}

module _ (double_sha256 : List ℕ → List ℕ) (malloc : ℕ → Bool) where
  pub calculate_coinbase_tx_hash_parts-bytes :
      (c1 e1 e2 c2 : List ℕ)
      → length c1 + length e1 + length e2 + length c2 ≤ 4096
      → malloc (length c1 + length e1 + length e2 + length c2) ≡ true
      → calculate_coinbase_tx_hash_parts double_sha256 malloc
          (bytes c1)
          (bytes e1)
          (bytes e2)
          (bytes c2)
        ≡ double_sha256 (c1 ++ (e1 ++ (e2 ++ c2)))
  unfolding calculate_coinbase_tx_hash_parts
  calculate_coinbase_tx_hash_parts-bytes c1 e1 e2 c2 small room = ground arith

  pub length-merkle_root :
      ((text : List ℕ) → length (double_sha256 text) ≡ 32)
      → (pair : List ℕ) (branches : List (List ℕ)) → length pair ≡ 32
      → length (calculate_merkle_root_hash double_sha256 malloc pair branches) ≡ 32
  unfolding calculate_merkle_root_hash
  length-merkle_root hash_len pair [] e = e
  length-merkle_root hash_len pair (branch ∷ branches) e =
      length-merkle_root hash_len (double_sha256 (pair ++ branch)) branches
        (hash_len (pair ++ branch))
