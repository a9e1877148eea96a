-- ===== src/Payout/Scan/Format.antt =====
-- The serialised form of a coinbase transaction, and the sums over its outputs.
use m45_gamma_firmware.Base.{
  ℕ, ◌+◌, ◌^◌, ◌≤◌, ◌<◌, ◌≡◌, Bool, true, false, List, [], ◌∷◌, ◌++◌, if◌then◌else◌, length, All,
  list_eq,
}
use m45_gamma_firmware.Payout.Reader.Layout.{le_bytes, varint}

pub record TxIn : Type 0 where
  pub outpoint : List ℕ
  pub script : List ℕ
  pub sequence : List ℕ

pub record TxOut : Type 0 where
  pub value : ℕ
  pub script : List ℕ

-- The fields one after another, in front of `rest`, the script behind its length.
unfoldable pub input_bytes : List TxIn → List ℕ → List ℕ
input_bytes [] rest = rest
input_bytes (i ∷ is) rest =
    i.outpoint ++ (varint (length i.script) ++ (i.script ++ (i.sequence ++ input_bytes is rest)))

unfoldable pub output_bytes : List TxOut → List ℕ → List ℕ
output_bytes [] rest = rest
output_bytes (o ∷ os) rest =
    le_bytes 8 o.value ++ (varint (length o.script) ++ (o.script ++ output_bytes os rest))

-- All that the outputs pay, and what they pay to one script.
unfoldable pub value_sum : List TxOut → ℕ
value_sum [] = 0
value_sum (o ∷ os) = o.value + value_sum os

unfoldable pub wallet_sum : List ℕ → List TxOut → ℕ
wallet_sum wallet [] = 0
wallet_sum wallet (o ∷ os) = (if list_eq o.script wallet then o.value else 0) + wallet_sum wallet os

-- Scripts are not longer than the whole transaction, whose length is a `size_t`.
unfoldable pub InFits : ℕ → TxIn → Type 0
InFits len i = (length i.outpoint ≡ 36) × (length i.sequence ≡ 4) × (length i.script ≤ len)

unfoldable pub OutFits : ℕ → TxOut → Type 0
OutFits len o = (o.value < 2 ^ 64) × (length o.script ≤ len)

-- A coinbase transaction: `segwit` puts a marker before the inputs, and `tail` is what follows the
-- outputs, witnesses and lock time.
pub record Coinbase : Type 0 where
  pub version : List ℕ
  pub segwit : Bool
  pub inputs : List TxIn
  pub outputs : List TxOut
  pub tail : List ℕ

unfoldable pub count_bytes : Bool → ℕ → List ℕ → List ℕ
count_bytes true n rest = 0 ∷ 1 ∷ varint n ++ rest
count_bytes false n rest = varint n ++ rest

unfoldable pub coinbase_bytes : Coinbase → List ℕ
coinbase_bytes c =
    c.version
    ++ count_bytes c.segwit (length c.inputs)
        (input_bytes c.inputs (varint (length c.outputs) ++ output_bytes c.outputs c.tail))

unfoldable pub CoinbaseFits : Coinbase → Type 0
CoinbaseFits c =
    (length (coinbase_bytes c) < 2 ^ 64)
    × (length c.version ≡ 4)
    × (0 < length c.inputs)
    × (length c.inputs ≤ 8)
    × (0 < length c.outputs)
    × (length c.outputs ≤ 64)
    × All (InFits (length (coinbase_bytes c))) c.inputs
    × All (OutFits (length (coinbase_bytes c))) c.outputs
