-- ===== src/Asic/Crc/Division.antt =====
-- The CRC-5 of main/asic_crc.c as the remainder of a division of polynomials over two elements.
use m45_gamma_firmware.Base.{
  ℕ, ◌+◌, ◌*◌, ◌/◌, ◌%◌, ◌<◌, bit_xor, ◌≡◌, refl, sym, ap, ◌∙◌, true, some, List, [], ◌∷◌, ◌++◌,
  arith, leb, ◌==◌, if◌then◌else◌, All,
}
use m45_gamma_firmware.Base.Tables.{all_below, eq_below}
use m45_gamma_firmware.Asic.Crc.{crc5_bm_init, crc5_bits, crc5_bytes, crc5}
use m45_gamma_firmware.Asic.Crc.Detect.{IsByte}

-- The polynomial x^5 + x^2 + 1.
abbrev generator : ℕ
generator = 37

-- Long division: the next coefficient comes down, and the generator is subtracted from what has the
-- degree 5.
unfoldable pub remainder : ℕ → List ℕ → ℕ
remainder rest [] = rest
remainder rest (coefficient ∷ coefficients) =
    let dividend = rest * 2 + coefficient in
    remainder (if leb 32 dividend then bit_xor dividend generator else dividend) coefficients

-- The bits of a byte and of bytes, the highest first.
abbrev pub byte_bits : ℕ → List ℕ
byte_bits b =
    b / 128 ∷ b / 64 % 2 ∷ b / 32 % 2 ∷ b / 16 % 2 ∷ b / 8 % 2 ∷ b / 4 % 2 ∷ b / 2 % 2 ∷ b % 2 ∷ []

unfoldable pub bits_of : List ℕ → List ℕ
bits_of [] = []
bits_of (byte ∷ bytes) = byte_bits byte ++ bits_of bytes

abbrev pub five_zeros : List ℕ
five_zeros = 0 ∷ 0 ∷ 0 ∷ 0 ∷ 0 ∷ []

-- The checksum of a message of at least a byte: its first five bits are inverted, five zeros are
-- added behind it, and the checksum is what the division leaves.
unfoldable pub checksum : ℕ → List ℕ → ℕ
unfolding remainder bits_of
checksum byte bytes = remainder 0 (bits_of (bit_xor byte 0xF8 ∷ bytes) ++ five_zeros)

remainder-append :
    (rest : ℕ) (xs ys : List ℕ) → remainder rest (xs ++ ys) ≡ remainder (remainder rest xs) ys
unfolding remainder
remainder-append rest [] ys = refl
remainder-append rest (x ∷ xs) ys =
    remainder-append
      (if leb 32 (rest * 2 + x) then bit_xor (rest * 2 + x) generator else rest * 2 + x) xs ys

byte_table :
    all_below 8192 (λ i.
      remainder (remainder (i / 256) (byte_bits (i % 256))) five_zeros
      == crc5_bits 8 (remainder (i / 256) five_zeros) (i % 256))
    ≡ true
unfolding all_below remainder crc5_bits
byte_table = refl

small_table :
    all_below 8192 (λ i.
      remainder (i / 256) (byte_bits (i % 256)) % 32 == remainder (i / 256) (byte_bits (i % 256)))
    ≡ true
unfolding all_below remainder
small_table = refl

first_table :
    all_below 256 (λ i.
      remainder (remainder 0 (byte_bits (bit_xor i 0xF8))) five_zeros == crc5_bits 8 crc5_bm_init i)
    ≡ true
unfolding all_below remainder crc5_bits
first_table = refl

inverted_table : all_below 256 (λ i. bit_xor i 0xF8 % 256 == bit_xor i 0xF8) ≡ true
unfolding all_below
inverted_table = refl

module _ (rest byte : ℕ) (hr : rest < 32) (hb : byte < 256) where
  remainder-byte :
      remainder (remainder rest (byte_bits byte)) five_zeros
      ≡ crc5_bits 8 (remainder rest five_zeros) byte
  remainder-byte = ground (
    arith,
    eq_below (λ i. remainder (remainder (i / 256) (byte_bits (i % 256))) five_zeros)
        (λ i. crc5_bits 8 (remainder (i / 256) five_zeros) (i % 256)) 8192 (rest * 256 + byte)
        byte_table (omega arith),
  )

  remainder-lt : remainder rest (byte_bits byte) < 32
  remainder-lt = ground (
    arith,
    eq_below (λ i. remainder (i / 256) (byte_bits (i % 256)) % 32)
        (λ i. remainder (i / 256) (byte_bits (i % 256))) 8192 (rest * 256 + byte) small_table
        (omega arith),
  )

crc5_bytes-remainder :
    (rest : ℕ) (bytes : List ℕ)
    → rest < 32
    → All IsByte bytes
    → crc5_bytes (remainder rest five_zeros) bytes ≡ remainder rest (bits_of bytes ++ five_zeros)
unfolding crc5_bytes bits_of
crc5_bytes-remainder rest [] hr hb = refl
crc5_bytes-remainder rest (byte ∷ bytes) hr (hb, hbs) =
    ap (λ c. crc5_bytes c bytes) (sym (remainder-byte rest byte hr hb))
    ∙ (crc5_bytes-remainder (remainder rest (byte_bits byte)) bytes (remainder-lt rest byte hr hb)
          hbs
        ∙ sym (remainder-append rest (byte_bits byte) (bits_of bytes ++ five_zeros)))

-- The CRC-5 of a message is the checksum that the division gives.
pub crc5-checksum :
    (byte : ℕ) (bytes : List ℕ)
    → byte < 256
    → All IsByte bytes
    → crc5 (some (byte ∷ bytes)) ≡ checksum byte bytes
unfolding crc5 crc5_bytes checksum bits_of
crc5-checksum byte bytes hb hbs =
    let inverted : bit_xor byte 0xF8 < 256 = ground (
      arith,
      eq_below (λ i. bit_xor i 0xF8 % 256) (λ i. bit_xor i 0xF8) 256 byte inverted_table hb,
    ) in
    let first =
      eq_below (λ i. remainder (remainder 0 (byte_bits (bit_xor i 0xF8))) five_zeros)
        (λ i. crc5_bits 8 crc5_bm_init i) 256 byte first_table hb in
    ap (λ c. crc5_bytes c bytes) (sym first)
    ∙ (crc5_bytes-remainder (remainder 0 (byte_bits (bit_xor byte 0xF8))) bytes
          (remainder-lt 0 (bit_xor byte 0xF8) (omega arith) inverted) hbs
        ∙ sym (remainder-append 0 (byte_bits (bit_xor byte 0xF8)) (bits_of bytes ++ five_zeros)))
