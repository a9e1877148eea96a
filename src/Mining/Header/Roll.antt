-- ===== src/Mining/Header/Roll.antt =====
-- Rolling the version under the mask of BIP 320.
use m45_gamma_firmware.Base.{
  ℕ, ◌+◌, ◌*◌, ◌/◌, ◌%◌, ◌^◌, ◌<◌, bit_and, bit_or, ◌≡◌, refl, sym, ap, ◌∙◌, arith,
}
use m45_gamma_firmware.Base.Bits.{
  bit_and_fields, bit_or_both, bit_and_zero, zero-bit_or, bit_or-zero,
}
use m45_gamma_firmware.Mining.Header.{increment_bitmask, roll, complement, negate}
use m45_gamma_firmware.Base.Tables.{all_below, eq_below}

low_bits : (x : ℕ) → x < 2 ^ 16 → bit_and x 0xffff ≡ x
low_bits x lt =
    let cut : x / 256 * 2 ^ 8 + x % 256 ≡ x = omega arith in
    ap (λ t. bit_and t 0xffff) (sym cut)
    ∙ bit_and_fields 8 (x / 256) 0xff (x % 256) 0xff (omega arith) (omega arith)
    ∙ omega (arith, byte (x / 256) (omega arith), byte (x % 256) (omega arith))
  where
    byte : (b : ℕ) → b < 256 → bit_and b 0xff ≡ b
    byte b h = eq_below (λ i. bit_and i 0xff) (λ i. i) 256 b (unfold all_below in refl) h

low_bits_13 : (x : ℕ) → x < 2 ^ 13 → bit_and x 0x1fff ≡ x
low_bits_13 x lt =
    let cut : x / 256 * 2 ^ 8 + x % 256 ≡ x = omega arith in
    ap (λ t. bit_and t 0x1fff) (sym cut)
    ∙ bit_and_fields 8 (x / 256) 0x1f (x % 256) 0xff (omega arith) (omega arith)
    ∙ omega (
      arith,
      top (x / 256) (omega arith),
      low_bits (x % 256) (omega arith),
      byte (x % 256) (omega arith),
    )
  where
    byte : (b : ℕ) → b < 256 → bit_and b 0xff ≡ b
    byte b h = eq_below (λ i. bit_and i 0xff) (λ i. i) 256 b (unfold all_below in refl) h

    top : (b : ℕ) → b < 32 → bit_and b 0x1f ≡ b
    top b h = eq_below (λ i. bit_and i 0x1f) (λ i. i) 32 b (unfold all_below in refl) h

high_bits : (h : ℕ) → h < 8 → bit_and h 7 ≡ h
high_bits h lt = eq_below (λ i. bit_and i 7) (λ i. i) 8 h (unfold all_below in refl) lt

-- The three fields of a version: 3 bits, the 16 bits of the mask and 13 bits.
abbrev pub version_of : ℕ → ℕ → ℕ → ℕ
version_of high x low = (high * 2 ^ 16 + x) * 2 ^ 13 + low

fields :
    (high x low h' x' l' : ℕ)
    → x < 2 ^ 16
    → x' < 2 ^ 16
    → low < 2 ^ 13
    → l' < 2 ^ 13
    → bit_and (version_of high x low) (version_of h' x' l')
      ≡ version_of (bit_and high h') (bit_and x x') (bit_and low l')
fields high x low h' x' l' x_lt x'_lt low_lt l'_lt =
    bit_and_fields 13 (high * 2 ^ 16 + x) (h' * 2 ^ 16 + x') low l' low_lt l'_lt
    ∙ ap (λ t. t * 2 ^ 13 + bit_and low l') (bit_and_fields 16 high h' x x' x_lt x'_lt)

-- Under the mask 0x1fffe000, the 16 bits 13 to 28 of a 32-bit version count up by one and its other
-- bits stay, as long as those 16 bits are not all set.
pub roll_lem :
    (high x low : ℕ)
    → high < 8
    → x + 1 < 2 ^ 16
    → low < 2 ^ 13
    → roll 0x1fffe000 (version_of high x low) ≡ version_of high (x + 1) low
unfolding increment_bitmask
roll_lem high x low high_lt x_lt low_lt = rw (carry, overflow, kept, carried) joined
  where
    masked : bit_and (version_of high x low) 0x1fffe000 ≡ x * 2 ^ 13
    masked =
        fields high x low 0 0xffff 0 (omega arith) (omega arith) low_lt (omega arith)
        ∙ rw (bit_and_zero high, low_bits x (omega arith), bit_and_zero low) (omega arith)

    carry :
        (bit_and (version_of high x low) 0x1fffe000 + bit_and 0x1fffe000 (negate 0x1fffe000))
          % 2 ^ 32
        ≡ version_of 0 (x + 1) 0
    carry = rw masked (omega arith)

    overflow : bit_and (version_of 0 (x + 1) 0) (complement 0x1fffe000) ≡ 0
    overflow =
        fields 0 (x + 1) 0 7 0 0x1fff x_lt (omega arith) (omega arith) (omega arith)
        ∙ rw (bit_and_zero (x + 1)) refl

    kept : bit_and (version_of high x low) (complement 0x1fffe000) ≡ version_of high 0 low
    kept =
        fields high x low 7 0 0x1fff (omega arith) (omega arith) low_lt (omega arith)
        ∙ rw (high_bits high high_lt, bit_and_zero x, low_bits_13 low low_lt) refl

    carried : bit_and (version_of 0 (x + 1) 0) 0x1fffe000 ≡ version_of 0 (x + 1) 0
    carried =
        fields 0 (x + 1) 0 0 0xffff 0 x_lt (omega arith) (omega arith) (omega arith)
        ∙ rw (low_bits (x + 1) x_lt) refl

    joined : bit_or (version_of high 0 low) (version_of 0 (x + 1) 0) ≡ version_of high (x + 1) low
    joined =
        bit_or_both 13 (high * 2 ^ 16 + 0) (0 * 2 ^ 16 + (x + 1)) low 0 low_lt (omega arith)
        ∙ rw
            (
              bit_or_both 16 high 0 0 (x + 1) (omega arith) x_lt,
              bit_or-zero high,
              zero-bit_or (x + 1),
              bit_or-zero low,
            )
            refl
