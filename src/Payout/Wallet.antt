-- ===== src/Payout/Wallet.antt =====
-- The output script of a wallet address: `payout_wallet_script` and `payout_wallet_text_script` of
-- main/stratum_payout.c.
use m45_gamma_firmware.Base.{
  ℕ, ◌+◌, ◌%◌, not, Option, none, some, List, [], ◌∷◌, ◌++◌, ltb, ◌==◌, if◌then◌else◌, length,
  get_or, take, drop,
}
use m45_gamma_firmware.Payout.Base58.{base58check_decode, index_of}
use m45_gamma_firmware.Payout.Bech32.{bech32_decode_witness}

module _ (double_sha256 : List ℕ → List ℕ) where
  -- The pay-to-public-key-hash and pay-to-script-hash scripts of a 21-byte Base58Check payload.
  unfoldable pub base58_script : List ℕ → Option (List ℕ)
  base58_script decoded =
      if not (length decoded == 21)
      then none
      else if get_or decoded 0 0 == 0x00
      then some (0x76 ∷ 0xa9 ∷ 0x14 ∷ take 20 (drop 1 decoded) ++ (0x88 ∷ 0xac ∷ []))
      else if get_or decoded 0 0 == 0x05
      then some (0xa9 ∷ 0x14 ∷ take 20 (drop 1 decoded) ++ (0x87 ∷ []))
      else none

  witness_script : List ℕ → Option (List ℕ)
  unfolding bech32_decode_witness
  witness_script wallet = elim (bech32_decode_witness wallet) [
    | none ↦ none
    | some (version, program) ↦
        some
          ((if version == 0 then 0x00 else (0x50 + version) % 256) ∷ length program % 256 ∷ program)
  ]

  unfoldable pub wallet_script : List ℕ → Option (List ℕ)
  unfolding base58_script witness_script base58check_decode
  wallet_script wallet = elim (base58check_decode double_sha256 wallet) [
    | none ↦ witness_script wallet
    | some decoded ↦ elim (base58_script decoded) [
      | none ↦ witness_script wallet
      | some script ↦ some script
    ]
  ]

  abbrev wallet_address_max : ℕ
  wallet_address_max = 128

  -- A null pointer is the empty text here, which is refused alike.
  unfoldable pub wallet_text_script : List ℕ → Option (List ℕ)
  unfolding wallet_script index_of
  wallet_text_script wallet = if length wallet == 0 then none else elim (wallet_script wallet) [
    | some script ↦ some script
    | none ↦ elim (index_of wallet b'.') [
      | none ↦ none
      | some worker ↦
          if worker == 0
          then none
          else if ltb wallet_address_max worker
          then none
          else wallet_script (take worker wallet)
    ]
  ]
