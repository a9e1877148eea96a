-- ===== src/Payout/Base58.antt =====
-- Base58Check addresses: `payout_base58_value` and `payout_base58check_decode` of
-- main/stratum_payout.c.
use m45_gamma_firmware.Base.{
  ℕ, zero, suc, ◌+◌, ◌-◌, ◌*◌, ◌/◌, ◌%◌, ◌^◌, ◌||◌, Option, none, some, List, [], ◌∷◌, ◌++◌, ltb,
  leb, ◌==◌, if◌then◌else◌, length, take, drop, replicate, list_eq,
}
use Prim.Native.String.{String}
use Prim.Native.Char.{code}

-- The character codes of a C string literal.
abbrev pub codes : String → List ℕ
codes String.[] = []
codes (String.◌∷◌ c s) = code c ∷ codes s

-- `strchr(text, ch) - text`
unfoldable pub index_of : List ℕ → ℕ → Option ℕ
index_of [] ch = none
index_of (c ∷ cs) ch =
    let later = index_of cs ch in
    if c == ch then some 0 else elim later [ none ↦ none | some i ↦ some (suc i) ]

abbrev alphabet : List ℕ
alphabet = codes "123456789ABCDEFGHJKLMNPQRSTUVWXYZabcdefghijkmnopqrstuvwxyz"

-- `none` is -1.
unfoldable pub base58_value : ℕ → Option ℕ
unfolding index_of
base58_value ch = index_of alphabet ch

abbrev pub decode_max : ℕ
decode_max = 64

-- The inner `for` over the bytes of `number`, last one first: the new bytes and the carry out.
unfoldable pub mul_add : List ℕ → ℕ → List ℕ × ℕ
mul_add [] carry = ([], carry)
mul_add (b ∷ bs) carry =
    let (bs', low) = mul_add bs carry in
    let sum = (low + b * 58) % 2 ^ 32 in (sum % 256 ∷ bs', sum / 256)

-- `while (carry > 0)`: a 32-bit carry has four bytes at most. `none` where the array is full.
unfoldable pub push_carry : ℕ → List ℕ → ℕ → Option (List ℕ)
push_carry zero number carry = some number
push_carry (suc fuel) number carry =
    let more = push_carry fuel (carry % 256 ∷ number) (carry / 256) in
    if carry == 0 then some number else if leb decode_max (length number) then none else more

-- The loop over the characters.
unfoldable pub digits_loop : List ℕ → List ℕ → Option (List ℕ)
unfolding base58_value mul_add push_carry
digits_loop [] number = some number
digits_loop (ch ∷ text) number = elim (base58_value ch) [
  | none ↦ none
  | some digit ↦
      let (number', carry) = mul_add number digit in
      elim (push_carry 4 number' carry) [ none ↦ none | some number'' ↦ digits_loop text number'' ]
]

-- `while (text[leading_zeroes] == '1')`
unfoldable pub leading_ones : List ℕ → ℕ
leading_ones [] = 0
leading_ones (ch ∷ text) = if ch == b'1' then suc (leading_ones text) else 0

-- What `number` holds from `first_nonzero` on.
unfoldable pub strip_zeroes : List ℕ → List ℕ
strip_zeroes [] = []
strip_zeroes (b ∷ bs) = if b == 0 then strip_zeroes bs else b ∷ bs

module _ (double_sha256 : List ℕ → List ℕ) where
  -- The decoded bytes without the checksum. The hash is the one of the mbedTLS library.
  unfoldable pub base58check_decode : List ℕ → Option (List ℕ)
  unfolding digits_loop leading_ones strip_zeroes
  base58check_decode text = elim (digits_loop text (0 ∷ [])) [
    | none ↦ none
    | some number ↦
        let out = replicate (leading_ones text) 0 ++ strip_zeroes number in
        let n = length out in
        if ltb n 5 || ltb decode_max n
        then none
        else if list_eq (take 4 (double_sha256 (take (n - 4) out))) (drop (n - 4) out)
        then some (take (n - 4) out)
        else none
  ]
