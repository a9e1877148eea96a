-- ===== src/Payout.antt =====
-- Where a coinbase pays: main/stratum_payout.c. `Reader` reads the transaction, `Base58` and `Bech32`
-- decode addresses, `Wallet` makes their output scripts, `Scan` sums the outputs, `Evaluate` judges.
pub mod Reader
pub mod Base58
pub mod Bech32
pub mod Wallet
pub mod Scan
pub mod Evaluate
mod Examples
