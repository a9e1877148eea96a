-- ===== src/Asic/Powers.antt =====
-- The integer helpers of main/bitmain_asic.c: bit reversal, powers of two, the difficulty mask.
pub mod Bounds
use m45_gamma_firmware.Base.{
  ℕ, zero, suc, ◌+◌, ◌-◌, ◌*◌, ◌/◌, ◌%◌, ◌^◌, bit_or, Option, none, some, List, [], ◌∷◌, ltb, leb,
  if◌then◌else◌,
}

-- `n` rounds left of the loop in `_reverse_bits`.
reverse_bits_loop : ℕ → ℕ → ℕ → ℕ
reverse_bits_loop zero reversed num = reversed
reverse_bits_loop (suc n) reversed num =
    reverse_bits_loop n (bit_or (reversed * 2 % 256) (num % 2)) (num / 2)

pub reverse_bits : ℕ → ℕ
unfolding reverse_bits_loop
reverse_bits num = reverse_bits_loop 8 0 num

-- `while (num > 1) { num >>= 1; ++power; }`, with 32 rounds at most for a 32-bit `num`.
log2_loop : ℕ → ℕ → ℕ → ℕ
log2_loop zero num power = power
log2_loop (suc fuel) num power =
    let rest = log2_loop fuel (num / 2) (power + 1) in if ltb 1 num then rest else power

unfoldable pub largest_power_of_two : ℕ → ℕ
unfolding log2_loop
largest_power_of_two num = 2 ^ log2_loop 32 num 0

-- `while (power < num) power <<= 1`, with 31 rounds at most below 2 ^ 31.
next_power_loop : ℕ → ℕ → ℕ → ℕ
next_power_loop zero power num = power
next_power_loop (suc fuel) power num =
    let rest = next_power_loop fuel (power * 2) num in if ltb power num then rest else power

-- Negative arguments answer 1 as 0 and 1 do, and are not represented.
pub next_power_of_two : ℕ → ℕ
unfolding next_power_loop
next_power_of_two num = if leb num 1 then 1 else next_power_loop 31 1 num

-- The mask register's number. The argument stands for the C double: `some d` is
-- `(uint32_t)ceil(difficulty)` where that lies in 1 .. 2^32 - 1, and `none` any other value.
pub difficulty_mask : Option ℕ → ℕ
unfolding log2_loop
difficulty_mask none = 0xffffffff
difficulty_mask (some diff_int) = 2 ^ log2_loop 32 diff_int 0 - 1

unfoldable pub get_difficulty_mask : Option ℕ → List ℕ
unfolding difficulty_mask reverse_bits
get_difficulty_mask difficulty =
    let mask = difficulty_mask difficulty in
    0x00
    ∷ 0x14
    ∷ reverse_bits (mask / 2 ^ 24 % 256)
    ∷ reverse_bits (mask / 2 ^ 16 % 256)
    ∷ reverse_bits (mask / 2 ^ 8 % 256)
    ∷ reverse_bits (mask % 256)
    ∷ []
