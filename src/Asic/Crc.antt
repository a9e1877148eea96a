-- ===== src/Asic/Crc.antt =====
-- The checksums of the ASIC link: main/asic_crc.c. A byte array is a list of numbers below 256.
pub mod Linear
pub mod Detect
pub mod Residue
pub mod Division
use m45_gamma_firmware.Base.{
  ℕ, zero, suc, ◌*◌, ◌/◌, ◌%◌, bit_or, bit_xor, Option, none, some, List, [], ◌∷◌, leb,
  if◌then◌else◌,
}

abbrev crc16_ccitt_poly : ℕ
crc16_ccitt_poly = 0x1021

abbrev pub crc5_bm_init : ℕ
crc5_bm_init = 0x1f

-- One input bit of `crc5`: the new register.
unfoldable pub crc5_bit : ℕ → ℕ → ℕ
crc5_bit crc input_bit =
    let next_bit = bit_xor (crc / 16) input_bit % 2 in
    bit_xor (bit_or (crc * 2) next_bit) (next_bit * 4) % 256 % 32

-- The loop over `bit_index`: `n` bits left, the highest bit of `byte` first.
unfoldable pub crc5_bits : ℕ → ℕ → ℕ → ℕ
unfolding crc5_bit
crc5_bits zero crc byte = crc
crc5_bits (suc n) crc byte = crc5_bits n (crc5_bit crc (byte / 128 % 2)) (byte * 2 % 256)

-- The loop over `byte_index`.
unfoldable pub crc5_bytes : ℕ → List ℕ → ℕ
unfolding crc5_bits
crc5_bytes crc [] = crc
crc5_bytes crc (byte ∷ rest) = crc5_bytes (crc5_bits 8 crc byte) rest

-- `none` is a null pointer.
unfoldable pub crc5 : Option (List ℕ) → ℕ
unfolding crc5_bytes
crc5 none = 0
crc5 (some bytes) = crc5_bytes crc5_bm_init bytes

crc16_bits : ℕ → ℕ → ℕ
crc16_bits zero crc = crc
crc16_bits (suc n) crc = crc16_bits n (
    if leb 0x8000 (crc % 0x10000)
    then bit_xor (crc * 2) crc16_ccitt_poly % 0x10000
    else crc * 2 % 0x10000)

crc16_bytes : ℕ → List ℕ → ℕ
unfolding crc16_bits
crc16_bytes crc [] = crc
crc16_bytes crc (byte ∷ rest) = crc16_bytes (crc16_bits 8 (bit_xor crc (byte * 256))) rest

pub crc16_ccitt : Option (List ℕ) → ℕ → ℕ
unfolding crc16_bytes
crc16_ccitt none initial_crc = initial_crc
crc16_ccitt (some bytes) initial_crc = crc16_bytes initial_crc bytes

unfoldable pub crc16 : Option (List ℕ) → ℕ
unfolding crc16_ccitt
crc16 bytes = crc16_ccitt bytes 0x0000

pub crc16_false : Option (List ℕ) → ℕ
unfolding crc16_ccitt
crc16_false bytes = crc16_ccitt bytes 0xffff
