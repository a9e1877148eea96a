-- ===== src/Payout/Evaluate.antt =====
-- The verdict: `stratum_payout_evaluate` of main/stratum_payout.c.
use m45_gamma_firmware.Base.{
  ℕ, ◌+◌, ◌*◌, ◌/◌, ◌%◌, ◌^◌, Option, none, some, List, ltb, ◌==◌, if◌then◌else◌,
}
pub mod Verdict
pub mod Shares
use m45_gamma_firmware.Payout.Wallet.{wallet_text_script}
use m45_gamma_firmware.Payout.Scan.{scan_coinbase_outputs}

-- STRATUM_PAYOUT_STATUS_*; `unchecked` is never returned.
pub data Status : Type 0 where
  unchecked ok low missing unsupported_wallet parse_error : Status

pub record PayoutResult : Type 0 where
  pub status : Status
  pub percent_x100 : ℕ

abbrev pub min_percent_x100 : ℕ
min_percent_x100 = 9700

-- The part behind the scan, on its two sums.
pub judge : ℕ → ℕ → PayoutResult
judge total_value wallet_value =
    let percent_x100 = (wallet_value * 10000 % 2 ^ 64 + total_value / 2) % 2 ^ 64 / total_value in
    let cut = if ltb 65535 percent_x100 then 65535 else percent_x100 in
    if wallet_value == 0
    then record { status = missing; percent_x100 = 0 }
    else record { status = if ltb cut min_percent_x100 then low else ok; percent_x100 = cut }

-- The result for the outcome of the scan, and for the wallet's script.
abbrev pub scanned : Option (ℕ × ℕ) → PayoutResult
scanned none = record { status = parse_error; percent_x100 = 0 }
scanned (some (total_value, wallet_value)) = judge total_value wallet_value

abbrev pub with_script : List ℕ → Option (List ℕ) → PayoutResult
with_script coinbase none = record { status = unsupported_wallet; percent_x100 = 0 }
with_script coinbase (some script) = scanned (scan_coinbase_outputs coinbase script)

pub evaluate : (List ℕ → List ℕ) → List ℕ → List ℕ → PayoutResult
evaluate double_sha256 wallet coinbase =
    with_script coinbase (wallet_text_script double_sha256 wallet)
