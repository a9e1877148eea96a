-- ===== src/Base/Int.antt =====
-- Signed integers, as far as the code adds and compares them.
use Prim.Native.Nat.{ℕ, ◌+◌, ◌-◌}
use mathlib.Core.Bool.{Bool, true, false}
use m45_gamma_firmware.Base.Tests.{ltb, leb, if◌then◌else◌}

-- `negsuc n` is -(n + 1).
pub data ℤ : Type 0 where
  pos : ℕ → ℤ
  negsuc : ℕ → ℤ

abbrev pub sub_ℕ : ℕ → ℕ → ℤ
sub_ℕ a b = if leb b a then pos (a - b) else negsuc (b - a - 1)

-- Plus and minus a natural number.
unfoldable pub add_ℤ : ℤ → ℕ → ℤ
add_ℤ (pos m) n = pos (m + n)
add_ℤ (negsuc m) n = sub_ℕ n (m + 1)

unfoldable pub sub_ℤ : ℤ → ℕ → ℤ
sub_ℤ (pos m) n = sub_ℕ m n
sub_ℤ (negsuc m) n = negsuc (m + n)

-- a < b
unfoldable pub ltb_ℤ : ℤ → ℤ → Bool
ltb_ℤ (pos m) (pos n) = ltb m n
ltb_ℤ (pos m) (negsuc n) = false
ltb_ℤ (negsuc m) (pos n) = true
ltb_ℤ (negsuc m) (negsuc n) = ltb n m
