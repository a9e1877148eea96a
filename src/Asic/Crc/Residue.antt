-- ===== src/Asic/Crc/Residue.antt =====
-- The receiver's view of CRC-16: a message followed by its checksum leaves nothing.
use m45_gamma_firmware.Base.{
  ℕ, zero, suc, ◌+◌, ◌*◌, ◌/◌, ◌%◌, ◌<◌, bit_xor, ◌≡◌, refl, ap, ◌∙◌, true, some, List, [], ◌∷◌,
  ◌++◌, arith, ◌==◌,
}
use m45_gamma_firmware.Base.Tables.{all_below, eq_below}
use m45_gamma_firmware.Base.Bits.{bit_xor_fields, bit_xor_self, bit_xor-zero}
use m45_gamma_firmware.Asic.Crc.{crc16_bits, crc16_bytes, crc16_false}

low_byte_table : all_below 256 (λ i. crc16_bits 8 i == i * 256) ≡ true
unfolding all_below crc16_bits
low_byte_table = refl

high_byte_out : (h l : ℕ) → h < 256 → l < 256 → bit_xor (h * 256 + l) (h * 256) ≡ l
high_byte_out h l hh hl =
    ground (arith, bit_xor_fields 8 h h l 0 hl (omega arith), bit_xor_self h, bit_xor-zero l)

two_bytes : (h l : ℕ) → h < 256 → l < 256 → crc16_bytes (h * 256 + l) (h ∷ l ∷ []) ≡ 0
unfolding crc16_bytes
two_bytes h l hh hl =
    rw
      (
        high_byte_out h l hh hl,
        eq_below (λ i. crc16_bits 8 i) (λ i. i * 256) 256 l low_byte_table hl,
        bit_xor_self (l * 256),
      )
      (unfold crc16_bits in refl)

crc16_bits-lt : (n crc : ℕ) → crc < 0x10000 → crc16_bits n crc < 0x10000
unfolding crc16_bits
crc16_bits-lt zero crc h = h
crc16_bits-lt (suc n) crc h = crc16_bits-lt n _ (ground arith)

crc16_bits-lt_of_some : (n crc : ℕ) → crc16_bits (suc n) crc < 0x10000
unfolding crc16_bits
crc16_bits-lt_of_some n crc = crc16_bits-lt n _ (ground arith)

crc16_bytes-lt : (bytes : List ℕ) (crc : ℕ) → crc < 0x10000 → crc16_bytes crc bytes < 0x10000
unfolding crc16_bytes
crc16_bytes-lt [] crc h = h
crc16_bytes-lt (b ∷ bs) crc h =
    crc16_bytes-lt bs (crc16_bits 8 (bit_xor crc (b * 256))) (crc16_bits-lt_of_some 7 _)

crc16_bytes-append :
    (xs ys : List ℕ) (crc : ℕ) → crc16_bytes crc (xs ++ ys) ≡ crc16_bytes (crc16_bytes crc xs) ys
unfolding crc16_bytes
crc16_bytes-append [] ys crc = refl
crc16_bytes-append (x ∷ xs) ys crc = crc16_bytes-append xs ys (crc16_bits 8 (bit_xor crc (x * 256)))

pub crc16_false-lt : (bytes : List ℕ) → crc16_false (some bytes) < 0x10000
unfolding crc16_false
crc16_false-lt bytes = crc16_bytes-lt bytes 0xffff (omega arith)

-- A message with its `crc16_false` behind it, the high byte first, has the CRC zero.
pub crc16_false_residue :
    (bytes : List ℕ) (h l : ℕ)
    → h ≡ crc16_false (some bytes) / 256
    → l ≡ crc16_false (some bytes) % 256
    → crc16_false (some (bytes ++ (h ∷ l ∷ []))) ≡ 0
unfolding crc16_false
crc16_false_residue bytes h l eh el =
    crc16_bytes-append bytes (h ∷ l ∷ []) 0xffff
    ∙ ap (λ c. crc16_bytes c (h ∷ l ∷ [])) join
    ∙ two_bytes h l (omega (arith, crc16_bytes-lt bytes 0xffff)) (omega arith)
  where
    join : crc16_bytes 0xffff bytes ≡ h * 256 + l
    join = omega arith
