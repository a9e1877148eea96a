-- ===== src/Stratum/Text.antt =====
-- The texts of main/stratum_minimal.c: the characters of a C string before its zero character.
use Prim.Native.Char.{code}
use Prim.Native.String.{String}
use m45_gamma_firmware.Base.{
  ℕ, zero, suc, ◌+◌, ◌/◌, ◌%◌, Option, none, some, List, [], ◌∷◌, ltb, if◌then◌else◌,
}
use m45_gamma_firmware.Base.Int.{ℤ, pos, negsuc}

-- A literal, which is ASCII.
abbrev pub codes : String → List ℕ
codes String.[] = []
codes (String.◌∷◌ letter rest) = code letter ∷ codes rest

infixl 4 ◌>>=◌
abbrev pub ◌>>=◌ : {A : Type 0} → {B : Type 0} → Option A → (A → Option B) → Option B
none >>= f = none
some a >>= f = f a

-- `%d`: the digits of a number below 10 ^ places, the last one first to be written.
unfoldable pub digits : ℕ → ℕ → List ℕ → List ℕ
digits zero n tail = tail
digits (suc places) n tail =
    let rest = digits places (n / 10) ((b'0' + n % 10) ∷ tail) in
    if ltb n 10 then (b'0' + n) ∷ tail else rest

-- An `int` has at most ten digits.
unfoldable pub print_int : ℤ → List ℕ
unfolding digits
print_int (pos n) = digits 10 n []
print_int (negsuc n) = b'-' ∷ digits 10 (n + 1) []
