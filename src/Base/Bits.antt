-- ===== src/Base/Bits.antt =====
-- The bit operations as arithmetic: the lowest digit, then fields of several digits.
use Prim.Native.Nat.{
  ℕ, zero, suc, ◌+◌, ◌*◌, ◌/◌, ◌%◌, ◌^◌, ◌≤◌, ◌<◌, min, max, bit_and, bit_or, bit_xor, digits,
  differ, bit_and-bitwise, bit_or-bitwise, bit_xor-bitwise,
}
use mathlib.Core.Path.{◌≡◌, refl, ap, ◌∙◌}
use native.Mathlib.Omega.{arith}
use native.Mathlib.Nat.{pow-suc, one-le-pow}

-- An operation that computes digit by digit: `alone` on what is left of the second number when
-- the first is used up, `both` on two digits.
module _ (op : ℕ → ℕ → ℕ) (alone : ℕ → ℕ) (both : ℕ → ℕ → ℕ)
    (means : (x y : ℕ) → op x y ≡ digits alone both x x y) where
  -- More rounds than the first number do not change the outcome.
  spare_rounds :
      (top rounds y x : ℕ)
      → rounds ≤ top
      → x ≤ rounds
      → digits alone both rounds x y ≡ digits alone both x x y
  spare_rounds top zero y zero small enough = refl
  spare_rounds top (suc rounds) y zero small enough = refl
  spare_rounds top zero y (suc x) small enough = absurd (omega arith)
  spare_rounds zero (suc rounds) y (suc x) small enough = absurd (omega arith)
  spare_rounds (suc top) (suc rounds) y (suc x) small enough =
      let half : ℕ = suc x / 2 in
      let here = spare_rounds top rounds (y / 2) half (omega arith) (omega arith) in
      let there = spare_rounds top x (y / 2) half (omega arith) (omega arith) in
      omega (arith, here, there)

  lowest_digit :
      ((y : ℕ) → alone y ≡ alone (y / 2) * 2 + both 0 (y % 2))
      → (x y : ℕ) → op x y ≡ op (x / 2) (y / 2) * 2 + both (x % 2) (y % 2)
  lowest_digit rest zero y = omega (arith, means 0 y, means 0 (y / 2), rest y)
  lowest_digit rest (suc x) y =
      let half : ℕ = suc x / 2 in
      let fewer = spare_rounds x x (y / 2) half (omega arith) (omega arith) in
      omega (arith, fewer, means half (y / 2), means (suc x) y)

pub zero-bit_or : (b : ℕ) → bit_or 0 b ≡ b
zero-bit_or = bit_or-bitwise 0

pub bit_and_step : (x y : ℕ) → bit_and x y ≡ bit_and (x / 2) (y / 2) * 2 + min (x % 2) (y % 2)
bit_and_step = lowest_digit bit_and (λ y. zero) min bit_and-bitwise (λ y. omega arith)

pub bit_or_step : (x y : ℕ) → bit_or x y ≡ bit_or (x / 2) (y / 2) * 2 + max (x % 2) (y % 2)
bit_or_step = lowest_digit bit_or (λ y. y) max bit_or-bitwise (λ y. omega arith)

-- Two digits differ when their sum is odd.
differ_lem : (x y : ℕ) → x < 2 → y < 2 → differ x y ≡ (x + y) % 2
differ_lem zero y x_lt y_lt = omega arith
differ_lem (suc zero) zero x_lt y_lt = refl
differ_lem (suc zero) (suc zero) x_lt y_lt = refl
differ_lem (suc zero) (suc (suc y)) x_lt y_lt = absurd (omega arith)
differ_lem (suc (suc x)) y x_lt y_lt = absurd (omega arith)

pub bit_xor_step : (x y : ℕ) → bit_xor x y ≡ bit_xor (x / 2) (y / 2) * 2 + (x % 2 + y % 2) % 2
bit_xor_step x y =
    let digit = differ_lem (x % 2) (y % 2) (omega arith) (omega arith) in
    omega
      (arith, digit, lowest_digit bit_xor (λ z. z) differ bit_xor-bitwise (λ z. differ_zero z) x y)
  where
    differ_zero : (z : ℕ) → z ≡ z / 2 * 2 + differ 0 (z % 2)
    differ_zero z = omega (arith, differ_lem 0 (z % 2) (omega arith) (omega arith))

-- One digit more in front of a field.
wider : (field k : ℕ) → field * 2 ^ suc k ≡ field * 2 ^ k + field * 2 ^ k
wider field k =
    let twice : 2 ^ suc k ≡ 2 ^ k + 2 ^ k = omega (arith, pow-suc 2 k) in
    omega (arith, ap (λ (scale : ℕ). field * scale) twice)

-- Both numbers cut at digit k: the operations act on the two halves.
module _ (g : ℕ → ℕ → ℕ) (d : ℕ → ℕ → ℕ)
    (step : (a b : ℕ) → g a b ≡ g (a / 2) (b / 2) * 2 + d (a % 2) (b % 2)) where
  split_fields :
      (k q p r s : ℕ)
      → r < 2 ^ k
      → s < 2 ^ k
      → g (q * 2 ^ k + r) (p * 2 ^ k + s) ≡ g q p * 2 ^ k + g r s
  split_fields zero q p r s hr hs = ground (arith, step 0 0)
  split_fields (suc k) q p r s hr hs = ground (
    arith,
    step (q * 2 ^ suc k + r) (p * 2 ^ suc k + s),
    step r s,
    wider q k,
    wider p k,
    wider (g q p) k,
    pow-suc 2 k,
    split_fields k q p (r / 2) (s / 2) (omega (arith, pow-suc 2 k)) (omega (arith, pow-suc 2 k)),
  )

module _ (k q p r s : ℕ) (hr : r < 2 ^ k) (hs : s < 2 ^ k) where
  pub bit_xor_fields : bit_xor (q * 2 ^ k + r) (p * 2 ^ k + s) ≡ bit_xor q p * 2 ^ k + bit_xor r s
  bit_xor_fields = split_fields bit_xor (λ a b. (a + b) % 2) bit_xor_step k q p r s hr hs

  pub bit_and_fields : bit_and (q * 2 ^ k + r) (p * 2 ^ k + s) ≡ bit_and q p * 2 ^ k + bit_and r s
  bit_and_fields = split_fields bit_and min bit_and_step k q p r s hr hs

  pub bit_or_both : bit_or (q * 2 ^ k + r) (p * 2 ^ k + s) ≡ bit_or q p * 2 ^ k + bit_or r s
  bit_or_both = split_fields bit_or max bit_or_step k q p r s hr hs

-- What holds of 0 and passes from a half to the whole holds of every number.
module _ (P : ℕ → Type 0) (start : P 0) (double : (a : ℕ) → P (suc a / 2) → P (suc a)) where
  below : (bound a : ℕ) → a ≤ bound → P a
  below bound zero le = start
  below zero (suc a) le = absurd (omega arith)
  below (suc bound) (suc a) le = double a (below bound (suc a / 2) (omega arith))

  by_halves : (a : ℕ) → P a
  by_halves a = below a a (omega arith)

pub bit_and_self : (a : ℕ) → bit_and a a ≡ a
bit_and_self =
    by_halves (λ a. bit_and a a ≡ a) refl
      (λ a half. omega (arith, half, bit_and_step (suc a) (suc a)))

pub bit_xor_self : (a : ℕ) → bit_xor a a ≡ 0
bit_xor_self =
    by_halves (λ a. bit_xor a a ≡ 0) refl
      (λ a half. omega (arith, half, bit_xor_step (suc a) (suc a)))

pub bit_and_zero : (a : ℕ) → bit_and a 0 ≡ 0
bit_and_zero =
    by_halves (λ a. bit_and a 0 ≡ 0) refl (λ a half. omega (arith, half, bit_and_step (suc a) 0))

pub bit_or-zero : (a : ℕ) → bit_or a 0 ≡ a
bit_or-zero =
    by_halves (λ a. bit_or a 0 ≡ a) refl (λ a half. omega (arith, half, bit_or_step (suc a) 0))

pub bit_xor-zero : (a : ℕ) → bit_xor a 0 ≡ a
bit_xor-zero =
    by_halves (λ a. bit_xor a 0 ≡ a) refl (λ a half. omega (arith, half, bit_xor_step (suc a) 0))

-- `(q << k) | r` is a sum where `r` fits k bits.
pub bit_or_fields : (k q r : ℕ) → r < 2 ^ k → bit_or (q * 2 ^ k) r ≡ q * 2 ^ k + r
bit_or_fields k q r h =
    ground
      (arith, bit_or_both k q 0 0 r (one-le-pow k 2 (omega arith)) h, bit_or-zero q, zero-bit_or r)

pub bit_or_low : (k q r : ℕ) → r < 2 ^ k → bit_or r (q * 2 ^ k) ≡ q * 2 ^ k + r
bit_or_low k q r h =
    ground
      (arith, bit_or_both k 0 q r 0 h (one-le-pow k 2 (omega arith)), bit_or-zero r, zero-bit_or q)

pub zero-bit_xor : (b : ℕ) → bit_xor 0 b ≡ b
zero-bit_xor = bit_xor-bitwise 0

-- Differing twice from the same number gives back the first.
pub bit_xor_cancel : (a b : ℕ) → bit_xor (bit_xor a b) b ≡ a
bit_xor_cancel = by_halves (λ a. (b : ℕ) → bit_xor (bit_xor a b) b ≡ a) start step
  where
    start : (b : ℕ) → bit_xor (bit_xor 0 b) b ≡ 0
    start b = ap (λ c. bit_xor c b) (zero-bit_xor b) ∙ bit_xor_self b

    step :
        (a : ℕ)
        → ((b : ℕ) → bit_xor (bit_xor (suc a / 2) b) b ≡ suc a / 2)
        → (b : ℕ) → bit_xor (bit_xor (suc a) b) b ≡ suc a
    step a half b =
        let top : bit_xor (suc a) b / 2 ≡ bit_xor (suc a / 2) (b / 2) =
          omega (arith, bit_xor_step (suc a) b) in
        let back : bit_xor (bit_xor (suc a) b / 2) (b / 2) ≡ suc a / 2 =
          ap (λ c. bit_xor c (b / 2)) top ∙ half (b / 2) in
        omega (arith, back, bit_xor_step (bit_xor (suc a) b) b, bit_xor_step (suc a) b)
