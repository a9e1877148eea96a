-- ===== src/Payout/Evaluate/Shares.antt =====
-- The payout check as a whole, on a serialised coinbase.
use m45_gamma_firmware.Base.{ℕ, ◌+◌, ◌*◌, ◌/◌, ◌^◌, ◌≤◌, ◌<◌, ◌≡◌, ap, ◌∙◌, ◌↔◌, some, List, arith}
use m45_gamma_firmware.Payout.Wallet.{wallet_text_script}
use m45_gamma_firmware.Payout.Scan.Format.{
  Coinbase, CoinbaseFits, coinbase_bytes, value_sum, wallet_sum,
}
use m45_gamma_firmware.Payout.Scan.RoundTrip.{wallet_sum-le, scan_coinbase_outputs_lem}
use m45_gamma_firmware.Payout.Evaluate.{ok, judge, scanned, with_script, evaluate}
use m45_gamma_firmware.Payout.Evaluate.Verdict.{judge_lem}

evaluate-judge :
    (double_sha256 : List ℕ → List ℕ) (wallet script : List ℕ) (c : Coinbase)
    → wallet_text_script double_sha256 wallet ≡ some script
    → CoinbaseFits c
    → 0 < value_sum c.outputs
    → value_sum c.outputs < 2 ^ 64
    → evaluate double_sha256 wallet (coinbase_bytes c)
      ≡ judge (value_sum c.outputs) (wallet_sum script c.outputs)
unfolding evaluate
evaluate-judge double_sha256 wallet script c known fits pos lt =
    ap (λ o. with_script (coinbase_bytes c) o) known
    ∙ ap scanned (scan_coinbase_outputs_lem script c fits pos lt)

-- For a wallet whose address has a script and a serialised coinbase whose outputs pay that script,
-- with less than 2^50 in all: the check reports `ok` exactly if the script's share of the outputs,
-- rounded to the nearest hundredth of a percent, is at least 97%.
pub evaluate_lem :
    (double_sha256 : List ℕ → List ℕ) (wallet script : List ℕ) (c : Coinbase)
    → wallet_text_script double_sha256 wallet ≡ some script
    → CoinbaseFits c
    → 0 < wallet_sum script c.outputs
    → value_sum c.outputs < 2 ^ 50
    → ((evaluate double_sha256 wallet (coinbase_bytes c)).status ≡ ok)
      ↔ (9700 * value_sum c.outputs ≤ wallet_sum script c.outputs * 10000 + value_sum c.outputs / 2)
evaluate_lem double_sha256 wallet script c known fits pos lt =
    let le = wallet_sum-le script c.outputs in
    rw (evaluate-judge double_sha256 wallet script c known fits (omega arith) (omega arith))
      ((judge_lem (value_sum c.outputs) (wallet_sum script c.outputs) pos le lt).3)
