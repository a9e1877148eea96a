-- ===== src/Base/Masks.antt =====
-- Numbers under a mask and outside of it.
use Prim.Native.Nat.{ℕ, zero, suc, ◌+◌, ◌/◌, ◌^◌, ◌<◌, bit_and, bit_or, bit_xor, bit_and-bitwise}
use mathlib.Core.Path.{◌≡◌, refl}
use native.Mathlib.Omega.{arith}
use native.Mathlib.Nat.{pow-suc}
use m45_gamma_firmware.Base.Bits.{bit_and_step, bit_or_step, bit_xor_step}

-- A number of w bits with none under one of two opposite masks lies under the other.
pub bit_and_opposite :
    (w x y z : ℕ) → x < 2 ^ w → y + z + 1 ≡ 2 ^ w → bit_and x y ≡ 0 → bit_and x z ≡ x
bit_and_opposite zero zero y z small whole none_there = bit_and-bitwise 0 z
bit_and_opposite zero (suc x) y z small whole none_there = absurd (omega arith)
bit_and_opposite (suc w) x y z small whole none_there =
    let pow : 2 ^ suc w ≡ 2 ^ w + 2 ^ w = omega (arith, pow-suc 2 w) in
    let half =
      bit_and_opposite w (x / 2) (y / 2) (z / 2) (omega arith) (omega arith)
        (omega (arith, bit_and_step x y)) in
    ground (arith, half, bit_and_step x y, bit_and_step x z)

-- Where two numbers lie under opposite masks, setting the bits of one and comparing gives it back.
pub bit_xor-bit_or_opposite :
    (w v b y z : ℕ)
    → v < 2 ^ w
    → b < 2 ^ w
    → y + z + 1 ≡ 2 ^ w
    → bit_and v y ≡ 0
    → bit_and b z ≡ 0
    → bit_xor (bit_or v b) v ≡ b
bit_xor-bit_or_opposite zero zero zero y z hv hb whole fv fb = refl
bit_xor-bit_or_opposite zero zero (suc b) y z hv hb whole fv fb = absurd (omega arith)
bit_xor-bit_or_opposite zero (suc v) b y z hv hb whole fv fb = absurd (omega arith)
bit_xor-bit_or_opposite (suc w) v b y z hv hb whole fv fb =
    let pow : 2 ^ suc w ≡ 2 ^ w + 2 ^ w = omega (arith, pow-suc 2 w) in
    let half =
      bit_xor-bit_or_opposite w (v / 2) (b / 2) (y / 2) (z / 2) (omega arith) (omega arith)
        (omega arith) (omega (arith, bit_and_step v y)) (omega (arith, bit_and_step b z)) in
    ground (
      arith,
      half,
      bit_and_step v y,
      bit_and_step b z,
      bit_or_step v b,
      bit_xor_step (bit_or v b) v,
    )

-- With the bits of a number of a mask that another leaves free: what was set, taken under the mask
-- into the other, is what was built.
pub bit_or_rolled :
    (w v b y z : ℕ)
    → v < 2 ^ w
    → b < 2 ^ w
    → y + z + 1 ≡ 2 ^ w
    → bit_and v y ≡ 0
    → bit_and b z ≡ 0
    → bit_or (bit_and v z) (bit_and (bit_xor (bit_or v b) v) y) ≡ bit_or v b
bit_or_rolled w v b y z hv hb whole fv fb =
    let changed : bit_xor (bit_or v b) v ≡ b =
      bit_xor-bit_or_opposite w v b y z hv hb whole fv fb in
    let own : bit_and v z ≡ v = bit_and_opposite w v y z hv whole fv in
    let rolled : bit_and b y ≡ b = bit_and_opposite w b z y hb (omega arith) fb in
    rw (changed, own, rolled) refl
