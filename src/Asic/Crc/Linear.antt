-- ===== src/Asic/Crc/Linear.antt =====
-- The CRC-5 register after one byte, as a sum of what the old register and the byte contribute.
use m45_gamma_firmware.Base.{ℕ, ◌+◌, ◌*◌, ◌/◌, ◌%◌, ◌<◌, bit_xor, ◌≡◌, refl, true, arith, ◌==◌}
use m45_gamma_firmware.Base.Tables.{all_below, eq_below}
use m45_gamma_firmware.Asic.Crc.{crc5_bits}

-- What a register, and a byte, contribute.
abbrev pub from_register : ℕ → ℕ
from_register crc = crc5_bits 8 crc 0

abbrev pub from_byte : ℕ → ℕ
from_byte byte = crc5_bits 8 0 byte

linear_table :
    all_below 8192 (λ i.
      crc5_bits 8 (i / 256) (i % 256) == bit_xor (from_register (i / 256)) (from_byte (i % 256)))
    ≡ true
unfolding all_below crc5_bits
linear_table = refl

pub crc5_bits_linear :
    (crc byte : ℕ)
    → crc < 32
    → byte < 256
    → crc5_bits 8 crc byte ≡ bit_xor (from_register crc) (from_byte byte)
crc5_bits_linear crc byte hc hb = ground (
  arith,
  eq_below (λ i. crc5_bits 8 (i / 256) (i % 256))
      (λ i. bit_xor (from_register (i / 256)) (from_byte (i % 256))) 8192 (crc * 256 + byte)
      linear_table (omega arith),
)

bits_lt_table :
    all_below 8192 (λ i. crc5_bits 8 (i / 256) (i % 256) % 32 == crc5_bits 8 (i / 256) (i % 256))
    ≡ true
unfolding all_below crc5_bits
bits_lt_table = refl

pub crc5_bits-lt : (crc byte : ℕ) → crc < 32 → byte < 256 → crc5_bits 8 crc byte < 32
crc5_bits-lt crc byte hc hb = ground (
  arith,
  eq_below (λ i. crc5_bits 8 (i / 256) (i % 256) % 32) (λ i. crc5_bits 8 (i / 256) (i % 256)) 8192
      (crc * 256 + byte) bits_lt_table (omega arith),
)
