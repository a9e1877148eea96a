-- ===== src/Payout/Examples.antt =====
-- The payout check on a concrete coinbase and wallet.
use m45_gamma_firmware.Base.{
  ℕ, ◌+◌, ◌*◌, ◌/◌, ◌≤◌, ◌≡◌, refl, ◌↔◌, true, some, List, [], ◌∷◌, ◌++◌, arith, replicate,
}
use m45_gamma_firmware.Payout.Reader.{read_varint}
use m45_gamma_firmware.Payout.Reader.Layout.{at, le_bytes, varint, read_varint-at}
use m45_gamma_firmware.Payout.Base58.{
  base58check_decode, digits_loop, base58_value, index_of, mul_add, push_carry, leading_ones,
  strip_zeroes,
}
use m45_gamma_firmware.Payout.Wallet.{base58_script, wallet_script, wallet_text_script}
use m45_gamma_firmware.Payout.Scan.{scan_coinbase_outputs}
use m45_gamma_firmware.Payout.Scan.Format.{
  Coinbase, CoinbaseFits, coinbase_bytes, count_bytes, input_bytes, output_bytes, InFits, OutFits,
  value_sum, wallet_sum,
}
use m45_gamma_firmware.Payout.Scan.RoundTrip.{scan_coinbase_outputs_lem}
use m45_gamma_firmware.Payout.Evaluate.{ok, evaluate}
use m45_gamma_firmware.Payout.Evaluate.Shares.{evaluate_lem}

read_varint-at_example :
    read_varint (at [] (varint 515 ++ (7 ∷ []))) ≡ some (515, at ([] ++ varint 515) (7 ∷ []))
read_varint-at_example = read_varint-at 515 [] (7 ∷ []) (omega arith)

-- The pay-to-public-key-hash script of the hash zero.
abbrev zero_script : List ℕ
zero_script = 0x76 ∷ 0xa9 ∷ 0x14 ∷ replicate 20 0 ++ (0x88 ∷ 0xac ∷ [])

abbrev coinbase : Coinbase
coinbase = record {
  version = 1 ∷ 0 ∷ 0 ∷ 0 ∷ [];
  segwit = true;
  inputs =
      record { outpoint = replicate 36 0; script = 3 ∷ 4 ∷ []; sequence = replicate 4 255 } ∷ [];
  outputs =
      record { value = 300; script = zero_script } ∷ record { value = 5; script = 1 ∷ [] } ∷ [];
  tail = replicate 4 0;
}

coinbase-CoinbaseFits : CoinbaseFits coinbase
unfolding CoinbaseFits coinbase_bytes count_bytes input_bytes output_bytes InFits OutFits varint
    le_bytes
coinbase-CoinbaseFits = (
  omega arith,
  refl,
  omega arith,
  omega arith,
  omega arith,
  omega arith,
  ((refl, refl, omega arith), tt),
  ((omega arith, omega arith), ((omega arith, omega arith), tt)),
)

total_is : value_sum coinbase.outputs ≡ 305
total_is = unfold value_sum in refl

share_is : wallet_sum zero_script coinbase.outputs ≡ 300
share_is = unfold wallet_sum in refl

scan_coinbase_outputs_lem_example :
    scan_coinbase_outputs (coinbase_bytes coinbase) zero_script
    ≡ some (value_sum coinbase.outputs, wallet_sum zero_script coinbase.outputs)
scan_coinbase_outputs_lem_example =
    scan_coinbase_outputs_lem zero_script coinbase coinbase-CoinbaseFits (omega (arith, total_is))
      (omega (arith, total_is))

-- A hash function for the checks: 32 zero bytes.
abbrev zero_hash : List ℕ → List ℕ
zero_hash bytes = replicate 32 0

-- 25 zero bytes in Base58: version, hash and checksum.
abbrev zero_wallet : List ℕ
zero_wallet = replicate 25 b'1'

zero_wallet_script : wallet_text_script zero_hash zero_wallet ≡ some zero_script
unfolding wallet_text_script wallet_script base58check_decode digits_loop base58_value index_of
    mul_add push_carry leading_ones strip_zeroes base58_script
zero_wallet_script = refl

evaluate_lem_example : ((evaluate zero_hash zero_wallet (coinbase_bytes coinbase)).status ≡ ok) ↔ (
    9700 * value_sum coinbase.outputs
    ≤ wallet_sum zero_script coinbase.outputs * 10000 + value_sum coinbase.outputs / 2)
evaluate_lem_example =
    evaluate_lem zero_hash zero_wallet zero_script coinbase zero_wallet_script coinbase-CoinbaseFits
      (omega (arith, share_is)) (omega (arith, total_is))
