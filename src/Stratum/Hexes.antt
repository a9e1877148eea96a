-- ===== src/Stratum/Hexes.antt =====
-- The hexadecimal fields of a job in main/stratum_minimal.c, checked digit by digit.
use m45_gamma_firmware.Base.{
  ℕ, ◌+◌, ◌-◌, ◌*◌, ◌/◌, ◌%◌, ◌^◌, bit_or, Bool, ◌&&◌, ◌||◌, not, Option, none, some, List, [], ◌∷◌,
  ltb, leb, ◌==◌, if◌then◌else◌, length,
}
use m45_gamma_firmware.Stratum.Text.{◌>>=◌}

unfoldable pub hex_value_checked : ℕ → Option ℕ
hex_value_checked ch =
    if leb b'0' ch && leb ch b'9'
    then some (ch - b'0')
    else if leb b'a' ch && leb ch b'f'
    then some (ch - b'a' + 10)
    else if leb b'A' ch && leb ch b'F'
    then some (ch - b'A' + 10)
    else none

-- The loop of `decode_hex_bytes`, on pairs of digits.
pub decode_pairs : List ℕ → Option (List ℕ)
unfolding hex_value_checked
decode_pairs [] = some []
decode_pairs (c ∷ []) = none
decode_pairs (c ∷ d ∷ hex) =
    let rest = decode_pairs hex in
    hex_value_checked c >>= λ hi.
    hex_value_checked d >>= λ lo. rest >>= λ bytes. some (bit_or (hi * 16) lo % 256 ∷ bytes)

unfoldable pub decode_hex_bytes : List ℕ → ℕ → Option (List ℕ)
unfolding decode_pairs
decode_hex_bytes hex out_len = if length hex == out_len * 2 then decode_pairs hex else none

pub u32_loop : List ℕ → ℕ → Option ℕ
unfolding hex_value_checked
u32_loop [] value = some value
u32_loop (ch ∷ hex) value =
    hex_value_checked ch >>= λ digit. u32_loop hex (bit_or (value * 16 % 2 ^ 32) digit)

unfoldable pub parse_hex_u32_text : List ℕ → Option ℕ
unfolding u32_loop
parse_hex_u32_text hex = if length hex == 0 || ltb 8 (length hex) then none else u32_loop hex 0

-- `decode_hex_alloc_limited_span`, and `decode_hex_alloc_limited` on a whole text; `allocated` says
-- whether `malloc` succeeds, which is not called for no bytes.
unfoldable pub decode_hex_alloc_limited : Bool → List ℕ → ℕ → Option (List ℕ)
unfolding decode_hex_bytes
decode_hex_alloc_limited allocated hex max_bytes =
    let bin_len : ℕ = length hex / 2 in
    if not (length hex % 2 == 0)
    then none
    else if ltb max_bytes bin_len
    then none
    else if bin_len == 0
    then some []
    else if allocated
    then decode_hex_bytes hex bin_len
    else none
