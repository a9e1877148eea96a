-- ===== src/Stratum/Results/Accepted.antt =====
-- From the notification of a pool to the share that main/stratum_minimal.c submits for it: what the
-- pool reads from the message gives it back the header that was mined.
use m45_gamma_firmware.Base.{ℕ, ◌-◌, ◌^◌, ◌≤◌, ◌<◌, bit_and, bit_or, ◌≡◌, some, List, [], ◌∷◌}
use m45_gamma_firmware.Base.Int.{pos}
use m45_gamma_firmware.Hex.{uint32_to_hex8}
use m45_gamma_firmware.Hex.Words.{joined}
use m45_gamma_firmware.Mining.Coinbase.Tree.{MerkleTree}
use m45_gamma_firmware.Mining.Header.Layout.{block_header}
use m45_gamma_firmware.Stratum.Notify.{Notify}
use m45_gamma_firmware.Stratum.Dispatch.Submitted.{pool_root}
use m45_gamma_firmware.Stratum.Json.Submit.{request_text}
use m45_gamma_firmware.Stratum.Results.{Share, share_message}

-- The version that a pool with a mask for version rolling gets from its own and submitted bits, as
-- BIP 310 has it: outside the mask its own bits, under the mask those submitted.
abbrev pub rolled_version : ℕ → ℕ → ℕ → ℕ
rolled_version mask version bits = bit_or (bit_and version (0xffffffff - mask)) (bit_and bits mask)

-- The text of a submitted share.
abbrev pub share_text : ℕ → List ℕ → List ℕ → List ℕ → List ℕ → Share → List ℕ
share_text request_id user jobid hex ntime s =
    request_text (pos request_id)
      (user ∷ jobid ∷ hex ∷ ntime ∷ uint32_to_hex8 s.nonce ∷ uint32_to_hex8 s.version_bits ∷ [])

-- What the pool makes of a message: the texts it finds there, that its mask allows the version bits,
-- and the difficulty of the header that it rebuilds from them.
pub record IsAccepted (rebuilt : ℕ → ℕ → List ℕ) (difficulty : List ℕ → ℕ)
    (pool_diff current_diff : ℕ) (request_id : ℕ) (user jobid hex ntime : List ℕ) (mask version : ℕ)
    (s : Share) : Type 0 where
  pub message :
      share_message request_id (some user) s ≡ some (share_text request_id user jobid hex ntime s)
  pub allowed : bit_and s.version_bits (0xffffffff - mask) ≡ 0
  pub header : difficulty (rebuilt (rolled_version mask version s.version_bits) s.nonce) ≡ s.diff
  pub enough : (pool_diff ≤ s.diff) × (current_diff ≤ s.diff)

-- The numbers of version rolling: a mask, a version with no bits under it, and bits of a nonce.
pub record IsRolling (mask version bits : ℕ) : Type 0 where
  pub used : 0 < mask
  pub mask_small : mask < 2 ^ 32
  pub version_small : version < 2 ^ 32
  pub bits_small : bits < 2 ^ 32
  pub free : bit_and version mask ≡ 0

-- The header that the pool rebuilds for a version and a nonce, with the second extranonce of a
-- share.
abbrev pub rebuilt :
    (List ℕ → List ℕ) → MerkleTree → List (List ℕ) → Notify → List ℕ → List ℕ → ℕ → ℕ → List ℕ
rebuilt double_sha256 transactions words n extranonce hex version nonce =
    block_header version (joined words) (pool_root double_sha256 transactions n extranonce hex)
      n.ntime n.target nonce
