-- ===== src/Hex/RoundTrip.antt =====
-- Writing bytes in hexadecimal and reading them back.
use m45_gamma_firmware.Base.{
  ℕ, zero, suc, ◌+◌, ◌-◌, ltb, if◌then◌else◌, ◌*◌, ◌/◌, ◌%◌, ◌≤◌, ◌<◌, bit_and, bit_or, ◌≡◌, refl,
  ap₂, true, false, some, List, [], ◌∷◌, arith, leb, ◌==◌, length, All,
}
use m45_gamma_firmware.Base.Tables.{all_below, eq_below}
use m45_gamma_firmware.Hex.{hex_digit, hex_value, hex_digits, bin2hex, hex2bin}

byte_back :
    (b : ℕ)
    → b < 256
    → bit_or (hex_value (hex_digit (b / 16)) * 16 % 256) (hex_value (hex_digit (bit_and b 0x0f)))
      ≡ b
byte_back b h = eq_below code (λ i. i) 256 b table h
  where
    code : ℕ → ℕ
    code i =
        bit_or (hex_value (hex_digit (i / 16)) * 16 % 256) (hex_value (hex_digit (bit_and i 0x0f)))

    table : all_below 256 (λ i. code i == i) ≡ true
    table = unfold all_below in refl

-- What a string of lower-case hexadecimal digits stands for, two digits for each byte.
abbrev digit_value : ℕ → ℕ
digit_value c = if ltb c 0x61 then c - 0x30 else c - 0x57

pub from_hex : List ℕ → List ℕ
from_hex [] = []
from_hex (c ∷ []) = []
from_hex (c ∷ d ∷ hex) = (digit_value c * 16 + digit_value d) ∷ from_hex hex

byte_read :
    (b : ℕ)
    → b < 256
    → digit_value (hex_digit (b / 16)) * 16 + digit_value (hex_digit (bit_and b 0x0f)) ≡ b
byte_read b h = eq_below code (λ i. i) 256 b table h
  where
    code : ℕ → ℕ
    code i = digit_value (hex_digit (i / 16)) * 16 + digit_value (hex_digit (bit_and i 0x0f))

    table : all_below 256 (λ i. code i == i) ≡ true
    table = unfold all_below in refl

from_hex-hex_digits : (bs : List ℕ) → All (λ b. b < 256) bs → from_hex (hex_digits bs) ≡ bs
unfolding from_hex hex_digits
from_hex-hex_digits [] v = refl
from_hex-hex_digits (b ∷ bs) (lt, v) = ap₂ ◌∷◌ (byte_read b lt) (from_hex-hex_digits bs v)

pub length-hex_digits : (bs : List ℕ) → length (hex_digits bs) ≡ length bs * 2
unfolding hex_digits
length-hex_digits [] = refl
length-hex_digits (b ∷ bs) = omega (arith, length-hex_digits bs)

pub hex2bin-hex_digits :
    (bs : List ℕ) (bin_len : ℕ)
    → All (λ b. b < 256) bs
    → length bs ≤ bin_len
    → hex2bin (hex_digits bs) bin_len ≡ bs
unfolding hex2bin hex_digits
hex2bin-hex_digits [] zero v le = refl
hex2bin-hex_digits [] (suc n) v le = refl
hex2bin-hex_digits (b ∷ bs) zero v le = absurd (omega arith)
hex2bin-hex_digits (b ∷ bs) (suc n) (lt, v) le =
    ap₂ ◌∷◌ (byte_back b lt) (hex2bin-hex_digits bs n v (omega arith))

-- With room for the string and its terminator, `bin2hex` writes a string that stands for the bytes
-- and that `hex2bin` reads back to them.
pub hex2bin-bin2hex :
    (buf : List ℕ) (hexlen : ℕ)
    → All (λ b. b < 256) buf
    → length buf * 2 < hexlen
    → (hex : List ℕ) × (bin2hex buf hexlen ≡ some hex)
      × (hex2bin hex (length buf) ≡ buf)
      × (from_hex hex ≡ buf)
unfolding bin2hex
hex2bin-bin2hex buf hexlen v room =
    let enough : leb hexlen (length buf * 2) ≡ false = ground arith in
    (
      hex_digits buf,
      rw enough refl,
      hex2bin-hex_digits buf (length buf) v (omega arith),
      from_hex-hex_digits buf v,
    )
