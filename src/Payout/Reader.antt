-- ===== src/Payout/Reader.antt =====
-- `coinbase_reader_t` of main/stratum_payout.c and its reading functions.
use m45_gamma_firmware.Base.{
  ℕ, ◌+◌, ◌*◌, ◌%◌, ◌^◌, bit_or, Bool, true, false, Option, none, some, List, [], ◌∷◌, ltb, ◌==◌,
  if◌then◌else◌, length, get_or, take, drop,
}
pub mod Layout
pub mod Consumes

-- `len` is the length of `bytes`.
pub record Reader : Type 0 where
  pub bytes : List ℕ
  pub offset : ℕ

-- A `bool` function over the reader with an out parameter: `none` is false, after which no caller
-- looks at the reader again.
abbrev pub M : Type 0 → Type 0
M A = Reader → Option (A × Reader)

infixl 5 ◌>>=◌ ◌>>◌
abbrev pub ◌>>=◌ : {A B : Type 0} → M A → (A → M B) → M B
◌>>=◌ m f r = elim (m r) [ none ↦ none | some (a, r') ↦ f a r' ]

abbrev pub ◌>>◌ : {A B : Type 0} → M A → M B → M B
m >> k = m >>= λ _. k

abbrev pub return : {A : Type 0} → A → M A
return a r = some (a, r)

abbrev pub fail : {A : Type 0} → M A
fail r = none

-- `if (!b) return false;`
abbrev pub guard : Bool → M (Unit {0})
guard true r = some (tt, r)
guard false r = none

pub read_bytes : ℕ → M (List ℕ)
read_bytes len r =
    if ltb (length r.bytes) (r.offset + len)
    then none
    else some (take len (drop r.offset r.bytes), record r { offset = r.offset + len })

pub skip_bytes : ℕ → M (Unit {0})
skip_bytes len = do read_bytes len; return tt

-- `value = (value << 8) | bytes[i]` for i from the last index down to 0.
pub le_loop : List ℕ → ℕ
le_loop [] = 0
le_loop (b ∷ bs) = bit_or (le_loop bs * 256 % 2 ^ 64) b

pub read_u64_le : M ℕ
read_u64_le = do bs ← read_bytes 8; return (le_loop bs)

-- `value |= (uint64_t)bytes[i] << (8U * i)` for i from `i` up.
pub or_loop : ℕ → ℕ → List ℕ → ℕ
or_loop value i [] = value
or_loop value i (b ∷ bs) = or_loop (bit_or value (b * 2 ^ (8 * i) % 2 ^ 64)) (i + 1) bs

-- What follows the first byte of a variable-length integer.
pub varint_rest : ℕ → M ℕ
varint_rest first = if ltb first 0xfd then return first else do
  bs ← read_bytes (if first == 0xfd then 2 else if first == 0xfe then 4 else 8)
  return (or_loop 0 0 bs)

pub read_varint : M ℕ
unfolding varint_rest
read_varint = do first ← read_bytes 1; varint_rest (get_or first 0 0)
