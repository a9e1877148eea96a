-- ===== src/Asic/Powers/Bounds.antt =====
-- The powers of two bracket their argument, and no fuel runs out.
use m45_gamma_firmware.Base.{
  ℕ, zero, suc, ◌+◌, ◌-◌, ◌*◌, ◌/◌, ◌^◌, ◌≤◌, ◌<◌, ◌≡◌, refl, ap, inl, inr, true, false, some,
  arith, ltb, leb, ◌==◌, if◌then◌else◌, Bool-cases,
}
use m45_gamma_firmware.Asic.Powers.{
  log2_loop, next_power_loop, next_power_of_two, difficulty_mask, reverse_bits,
}
use m45_gamma_firmware.Base.Tables.{all_below, eq_below}
use native.Mathlib.Nat.{pow-suc, one-le-pow}

-- Reversing the bits of a byte twice gives the byte back.
pub reverse_bits-reverse_bits : (b : ℕ) → b < 256 → reverse_bits (reverse_bits b) ≡ b
reverse_bits-reverse_bits b h = eq_below (λ i. reverse_bits (reverse_bits i)) (λ i. i) 256 b table h
  where
    table : all_below 256 (λ i. reverse_bits (reverse_bits i) == i) ≡ true
    table = unfold all_below reverse_bits in refl

-- With rounds enough the loop counts the halvings: `num` lies between two powers of two.
log2_loop_lem :
    (fuel num power : ℕ)
    → 0 < num
    → num < 2 ^ fuel
    → (e : ℕ) × (log2_loop fuel num power ≡ power + e) × (2 ^ e ≤ num) × (num < 2 * 2 ^ e)
unfolding log2_loop
log2_loop_lem zero num power h lt = absurd (omega arith)
log2_loop_lem (suc fuel) num power h lt = elim (Bool-cases (ltb 1 num)) [
  | inl more ↦ step more (log2_loop_lem fuel (num / 2) (power + 1) (ground arith) (half more))
  | inr done ↦ (0, ground (arith, done), omega arith, ground arith)
]
  where
    half : ltb 1 num ≡ true → num / 2 < 2 ^ fuel
    half more = omega (arith, pow-suc 2 fuel)

    step :
        ltb 1 num ≡ true
        → ((e : ℕ) × (log2_loop fuel (num / 2) (power + 1) ≡ power + 1 + e)
            × (2 ^ e ≤ num / 2)
            × (num / 2 < 2 * 2 ^ e))
        → (e : ℕ) × (log2_loop (suc fuel) num power ≡ power + e) × (2 ^ e ≤ num) × (num < 2 * 2 ^ e)
    step more (e, eq, lo, hi) =
        (suc e, ground (arith, eq), omega (arith, pow-suc 2 e), omega (arith, pow-suc 2 e))

-- The mask that the ASIC gets for a difficulty of `d` has all ones below the highest bit of `d`:
-- one more than the mask is a power of two, at most `d`, and more than half of `d`.
pub difficulty_mask_lem :
    (d : ℕ)
    → 0 < d
    → d < 2 ^ 32
    → (e : ℕ) × (difficulty_mask (some d) + 1 ≡ 2 ^ e) × (2 ^ e ≤ d) × (d < 2 * 2 ^ e)
unfolding difficulty_mask
difficulty_mask_lem d pos lt = bracket (log2_loop_lem 32 d 0 pos lt)
  where
    bracket :
        ((e : ℕ) × (log2_loop 32 d 0 ≡ 0 + e) × (2 ^ e ≤ d) × (d < 2 * 2 ^ e))
        → (e : ℕ) × (2 ^ log2_loop 32 d 0 - 1 + 1 ≡ 2 ^ e) × (2 ^ e ≤ d) × (d < 2 * 2 ^ e)
    bracket (e, eq, lo, hi) = (e, ground (arith, eq, one-le-pow e 2 (omega arith)), lo, hi)

next_power_loop_lem :
    (fuel power num : ℕ)
    → 0 < power
    → num ≤ power * 2 ^ fuel
    → power < 2 * num
    → (d : ℕ) × (next_power_loop fuel power num ≡ power * 2 ^ d)
      × (num ≤ power * 2 ^ d)
      × (power * 2 ^ d < 2 * num)
unfolding next_power_loop
next_power_loop_lem zero power num pos h lt = (0, omega arith, h, omega arith)
next_power_loop_lem (suc fuel) power num pos h lt = elim (Bool-cases (ltb power num)) [
  | inl more ↦ step more (
      next_power_loop_lem fuel (power * 2) num (omega arith) (omega (arith, double fuel))
        (ground (arith, more)))
  | inr done ↦ (0, ground (arith, done), ground (arith, done), omega arith)
]
  where
    double : (e : ℕ) → power * 2 ^ suc e ≡ power * 2 * 2 ^ e
    double e = omega (arith, ap (λ (t : ℕ). power * t) (pow-suc 2 e))

    step :
        ltb power num ≡ true
        → ((d : ℕ) × (next_power_loop fuel (power * 2) num ≡ power * 2 * 2 ^ d)
            × (num ≤ power * 2 * 2 ^ d)
            × (power * 2 * 2 ^ d < 2 * num))
        → (d : ℕ) × (next_power_loop (suc fuel) power num ≡ power * 2 ^ d)
          × (num ≤ power * 2 ^ d)
          × (power * 2 ^ d < 2 * num)
    step more (d, eq, lo, hi) =
        (suc d, ground (arith, eq, double d), omega (arith, double d), omega (arith, double d))

-- For 1 <= num <= 2^31 the answer is the least power of two that is at least `num`: a power of two
-- from `num` on, and below twice `num`.
pub next_power_of_two_lem :
    (num : ℕ)
    → 0 < num
    → num ≤ 2 ^ 31
    → (d : ℕ) × (next_power_of_two num ≡ 2 ^ d)
      × (num ≤ next_power_of_two num)
      × (next_power_of_two num < 2 * num)
unfolding next_power_of_two
next_power_of_two_lem num pos le = elim (Bool-cases (leb num 1)) [
  | inl small ↦ (0, ground (arith, small), ground (arith, small), ground (arith, small))
  | inr big ↦ finish big (next_power_loop_lem 31 1 num (omega arith) (omega arith) (omega arith))
]
  where
    finish :
        leb num 1 ≡ false
        → ((d : ℕ) × (next_power_loop 31 1 num ≡ 1 * 2 ^ d)
            × (num ≤ 1 * 2 ^ d)
            × (1 * 2 ^ d < 2 * num))
        → (d : ℕ) × ((if leb num 1 then 1 else next_power_loop 31 1 num) ≡ 2 ^ d)
          × (num ≤ (if leb num 1 then 1 else next_power_loop 31 1 num))
          × ((if leb num 1 then 1 else next_power_loop 31 1 num) < 2 * num)
    finish big (d, eq, lo, hi) =
        (d, rw big (omega (arith, eq)), rw big (omega (arith, eq)), rw big (omega (arith, eq)))
