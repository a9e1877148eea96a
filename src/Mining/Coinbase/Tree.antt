-- ===== src/Mining/Coinbase/Tree.antt =====
-- The merkle tree of a block, and what the branches of a notification are in it.
use m45_gamma_firmware.Base.{ℕ, ◌≡◌, refl, ap, ◌∙◌, Bool, List, [], ◌∷◌, ◌++◌}
use m45_gamma_firmware.Mining.Coinbase.{calculate_merkle_root_hash}

-- A tree over the hashes of the transactions, the one of the coinbase first.
pub data MerkleTree : Type 0 where
  leaf : List ℕ → MerkleTree
  node : MerkleTree → MerkleTree → MerkleTree

-- The tree with another hash of the coinbase.
pub with_coinbase : List ℕ → MerkleTree → MerkleTree
with_coinbase hash (leaf old) = leaf hash
with_coinbase hash (node left right) = node (with_coinbase hash left) right

module _ (double_sha256 : List ℕ → List ℕ) where
  -- The hash of a node is that of its left half's and then its right half's.
  unfoldable pub tree_root : MerkleTree → List ℕ
  tree_root (leaf hash) = hash
  tree_root (node left right) = double_sha256 (tree_root left ++ tree_root right)

  -- The hashes beside the path from the coinbase up to the root.
  unfoldable pub siblings : MerkleTree → List (List ℕ)
  siblings (leaf hash) = []
  siblings (node left right) = siblings left ++ (tree_root right ∷ [])

module _ (double_sha256 : List ℕ → List ℕ) (malloc : ℕ → Bool) where
  one_more :
      (pair branch : List ℕ) (branches : List (List ℕ))
      → calculate_merkle_root_hash double_sha256 malloc pair (branches ++ (branch ∷ []))
        ≡ double_sha256 (calculate_merkle_root_hash double_sha256 malloc pair branches ++ branch)
  unfolding calculate_merkle_root_hash
  one_more pair branch [] = refl
  one_more pair branch (first ∷ branches) = one_more (double_sha256 (pair ++ first)) branch branches

  pub calculate_merkle_root_hash-siblings :
      (hash : List ℕ) (t : MerkleTree)
      → calculate_merkle_root_hash double_sha256 malloc hash (siblings double_sha256 t)
        ≡ tree_root double_sha256 (with_coinbase hash t)
  unfolding calculate_merkle_root_hash siblings tree_root with_coinbase
  calculate_merkle_root_hash-siblings hash (leaf old) = refl
  calculate_merkle_root_hash-siblings hash (node left right) =
      one_more hash (tree_root double_sha256 right) (siblings double_sha256 left)
      ∙ ap (λ (h : List ℕ). double_sha256 (h ++ tree_root double_sha256 right))
          (calculate_merkle_root_hash-siblings hash left)
