-- ===== src/Payout/Scan.antt =====
-- The sums over a coinbase's outputs: `payout_scan_coinbase_outputs` of main/stratum_payout.c.
use m45_gamma_firmware.Base.{
  ℕ, zero, suc, ◌+◌, ◌%◌, ◌^◌, ◌&&◌, ◌||◌, not, Option, none, some, List, ltb, leb, ◌==◌,
  if◌then◌else◌, length, get_or, list_eq,
}
pub mod Format
pub mod RoundTrip
use m45_gamma_firmware.Payout.Reader.{
  Reader, M, ◌>>=◌, ◌>>◌, return, fail, guard, read_bytes, skip_bytes, read_u64_le, read_varint,
}

-- The segwit marker: after a zero input count with a 0x01 behind it the count is read once more.
read_input_count : M ℕ
read_input_count = do
  input_count ← read_varint
  λ r.
      if input_count == 0
        && leb (r.offset + 1) (length r.bytes)
        && (get_or r.bytes r.offset 0 == 0x01)
      then read_varint (record r { offset = r.offset + 1 })
      else some (input_count, r)

-- The loop over the inputs, `n` left.
skip_inputs : ℕ → ℕ → M (Unit {0})
skip_inputs coinbase_len zero = return tt
skip_inputs coinbase_len (suc n) = do
  skip_bytes 36
  script_len ← read_varint
  guard (not (ltb coinbase_len script_len))
  skip_bytes script_len
  skip_bytes 4
  skip_inputs coinbase_len n

-- The loop over the outputs, `n` left: the two sums modulo 2^64.
sum_outputs : List ℕ → ℕ → ℕ → ℕ → ℕ → M (ℕ × ℕ)
sum_outputs wallet_script coinbase_len zero total_value wallet_value =
    return (total_value, wallet_value)
sum_outputs wallet_script coinbase_len (suc n) total_value wallet_value = do
  value ← read_u64_le
  script_len ← read_varint
  guard (not (ltb coinbase_len script_len))
  script ← read_bytes script_len
  sum_outputs wallet_script coinbase_len n ((total_value + value) % 2 ^ 64) (
      if (script_len == length wallet_script) && list_eq script wallet_script
      then (wallet_value + value) % 2 ^ 64
      else wallet_value)

scan_reader : List ℕ → ℕ → M (ℕ × ℕ)
unfolding read_input_count skip_inputs sum_outputs
scan_reader wallet_script coinbase_len = do
  skip_bytes 4
  input_count ← read_input_count
  guard (not (input_count == 0 || ltb 8 input_count))
  skip_inputs coinbase_len input_count
  output_count ← read_varint
  guard (not (output_count == 0 || ltb 64 output_count))
  sum_outputs wallet_script coinbase_len output_count 0 0

-- `success && total > 0`
abbrev pub totals : Option ((ℕ × ℕ) × Reader) → Option (ℕ × ℕ)
totals none = none
totals (some ((total_value, wallet_value), r)) =
    if ltb 0 total_value then some (total_value, wallet_value) else none

-- `*total_value` and `*wallet_value`, or false.
pub scan_coinbase_outputs : List ℕ → List ℕ → Option (ℕ × ℕ)
unfolding scan_reader
scan_coinbase_outputs coinbase wallet_script =
    totals (scan_reader wallet_script (length coinbase) (record { bytes = coinbase; offset = 0 }))
