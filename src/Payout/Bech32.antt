-- ===== src/Payout/Bech32.antt =====
-- Bech32 and Bech32m addresses: the `payout_bech32_*` functions of main/stratum_payout.c.
use m45_gamma_firmware.Base.{
  ℕ, zero, suc, ◌+◌, ◌-◌, ◌*◌, ◌/◌, ◌%◌, ◌^◌, bit_or, bit_xor, Bool, false, ◌&&◌, ◌||◌, not, Option,
  none, some, List, [], ◌∷◌, ◌++◌, map, ltb, leb, ◌==◌, if◌then◌else◌, length, get_or, take, drop,
  list_eq,
}
use m45_gamma_firmware.Payout.Base58.{codes, index_of}

abbrev bech32_decode_max : ℕ
bech32_decode_max = 90

abbrev charset : List ℕ
charset = codes "qpzry9x8gf2tvdw0s3jn54khce6mua7l"

-- `none` is -1.
pub bech32_value : ℕ → Option ℕ
unfolding index_of
bech32_value ch = index_of charset ch

abbrev generator : List ℕ
generator = 0x3b6a57b2 ∷ 0x26508e6d ∷ 0x1ea119fa ∷ 0x3d4233dd ∷ 0x2a1462b3 ∷ []

-- The loop over the generator, the lowest bit of `top` first.
polymod_xor : List ℕ → ℕ → ℕ → ℕ
polymod_xor [] top chk = chk
polymod_xor (g ∷ gs) top chk =
    polymod_xor gs (top / 2) (if top % 2 == 1 then bit_xor chk g else chk)

pub polymod_step : ℕ → ℕ → ℕ
unfolding polymod_xor
polymod_step chk value =
    polymod_xor generator (chk / 2 ^ 25 % 256) (bit_xor (chk % 2 ^ 25 * 2 ^ 5) value)

-- `while (bits >= to_bits)`: each round takes at least a bit, so `bits` rounds are enough.
pub emit : ℕ → ℕ → ℕ → ℕ → ℕ → List ℕ → Option (ℕ × List ℕ)
emit zero accumulator to_bits max_out bits out = some (bits, out)
emit (suc fuel) accumulator to_bits max_out bits out =
    let more =
      emit fuel accumulator to_bits max_out (bits - to_bits)
        (out ++ (accumulator / 2 ^ (bits - to_bits) % 2 ^ to_bits ∷ [])) in
    if ltb bits to_bits then some (bits, out) else if leb max_out (length out) then none else more

-- The loop over the input, from an accumulator, a count of bits and the output so far.
pub convert_loop :
    (from_bits to_bits max_out : ℕ) → List ℕ → ℕ → ℕ → List ℕ → Option (ℕ × ℕ × List ℕ)
unfolding emit
convert_loop from_bits to_bits max_out [] accumulator bits out = some (accumulator, bits, out)
convert_loop from_bits to_bits max_out (b ∷ input) accumulator bits out =
    let acc = bit_or (accumulator * 2 ^ from_bits % 2 ^ 32) b in
    if not (b / 2 ^ from_bits == 0)
    then none
    else elim (emit (bits + from_bits) acc to_bits max_out (bits + from_bits) out) [
      | none ↦ none
      | some (bits', out') ↦ convert_loop from_bits to_bits max_out input acc bits' out'
    ]

-- `max_out` is `*out_len` on entry.
pub convert_bits : (from_bits to_bits : ℕ) → Bool → ℕ → List ℕ → Option (List ℕ)
unfolding convert_loop
convert_bits from_bits to_bits pad max_out input =
    elim (convert_loop from_bits to_bits max_out input 0 0 []) [
      | none ↦ none
      | some (accumulator, bits, out) ↦
          let rest = accumulator * 2 ^ (to_bits - bits) % 2 ^ 32 % 2 ^ to_bits in
          if pad
          then (if ltb 0 bits
              then (if leb max_out (length out) then none else some (out ++ (rest ∷ [])))
              else some out)
          else if leb from_bits bits || not (rest == 0)
          then none
          else some out
    ]

-- What the first loop of `payout_bech32_decode_witness` collects; `separator` is the last '1'.
pub record Cased : Type 0 where
  pub lower : List ℕ
  pub has_lower : Bool
  pub has_upper : Bool
  pub separator : Option ℕ

case_loop : List ℕ → ℕ → Cased → Option Cased
case_loop [] i s = some s
case_loop (ch ∷ address) i s =
    let small = leb b'a' ch && leb ch b'z' in
    let big = leb b'A' ch && leb ch b'Z' in
    let low = if big then ch + 32 else ch in
    let next : Cased = record {
      lower = s.lower ++ (low ∷ []);
      has_lower = s.has_lower || small;
      has_upper = s.has_upper || big;
      separator = if low == b'1' then some i else s.separator;
    } in
    let rest = case_loop address (i + 1) next in if ltb ch 33 || ltb 126 ch then none else rest

-- The checksum over the human-readable part, then over the data.
polymod_all : ℕ → List ℕ → ℕ
unfolding polymod_step
polymod_all polymod [] = polymod
polymod_all polymod (v ∷ vs) = polymod_all (polymod_step polymod v) vs

-- The values of the characters behind the separator.
data_values : List ℕ → Option (List ℕ)
unfolding bech32_value
data_values [] = some []
data_values (ch ∷ text) = elim (bech32_value ch) [
  | none ↦ none
  | some v ↦ elim (data_values text) [ none ↦ none | some vs ↦ some (v ∷ vs) ]
]

abbrev bech32m_const : ℕ
bech32m_const = 0x2bc830a3

-- Everything behind the case loop: the witness version and program.
witness_of : List ℕ → ℕ → Option (ℕ × List ℕ)
unfolding polymod_all data_values convert_bits
witness_of lower separator =
    let hrp = take separator lower in
    let n = length lower in
    let after_hrp =
      polymod_all (polymod_step (polymod_all 1 (map (λ c. c / 32) hrp)) 0)
        (map (λ c. c % 32) hrp) in
    if ltb separator 1 || ltb n (separator + 7)
    then none
    else if not (list_eq hrp (codes "bc") || list_eq hrp (codes "tb"))
    then none
    else elim (data_values (drop (separator + 1) lower)) [
      | none ↦ none
      | some values ↦
          let polymod = polymod_all after_hrp values in
          let version = get_or values 0 0 in
          if not (polymod == 1) && not (polymod == bech32m_const)
          then none
          else if ltb (length values) 7 || ltb 16 version
          then none
          else elim (convert_bits 5 8 false 40 (take (length values - 7) (drop 1 values))) [
            | none ↦ none
            | some program ↦
                if ltb (length program) 2 || ltb 40 (length program)
                then none
                else if version == 0 && not (polymod == 1)
                then none
                else if ltb 0 version && not (polymod == bech32m_const)
                then none
                else some (version, program)
          ]
    ]

unfoldable pub bech32_decode_witness : List ℕ → Option (ℕ × List ℕ)
unfolding case_loop witness_of
bech32_decode_witness address =
    let n = length address in
    let start : Cased = record {
      lower = [];
      has_lower = false;
      has_upper = false;
      separator = none;
    } in
    if ltb bech32_decode_max n || ltb n 8 then none else elim (case_loop address 0 start) [
      | none ↦ none
      | some s ↦
          if s.has_lower && s.has_upper
          then none
          else elim s.separator [ none ↦ none | some separator ↦ witness_of s.lower separator ]
    ]
