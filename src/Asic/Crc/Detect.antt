-- ===== src/Asic/Crc/Detect.antt =====
-- What the two checksums detect, and what they leave on a correct message.
use m45_gamma_firmware.Base.{
  ℕ, ◌+◌, ◌*◌, ◌/◌, ◌%◌, ◌^◌, ◌<◌, bit_xor, ◌≡◌, refl, sym, ◌∙◌, ◌≢◌, ◌↔◌, Bool, true, false, ◌||◌,
  not, some, List, [], ◌∷◌, ◌++◌, arith, ◌==◌, All,
}
use m45_gamma_firmware.Base.Tables.{all_below, all_below_sound, eq_below}
use m45_gamma_firmware.Asic.Crc.{crc5_bits, crc5_bytes, crc5}
use m45_gamma_firmware.Asic.Crc.Linear.{from_register, from_byte, crc5_bits_linear, crc5_bits-lt}

abbrev pub IsByte : ℕ → Type 0
IsByte b = b < 256

xor_cancel_table :
    all_below 1024 (λ i. bit_xor (bit_xor (i / 32) (i % 32)) (i % 32) == i / 32) ≡ true
unfolding all_below
xor_cancel_table = refl

xor_cancel_right : (a b c : ℕ) → a < 32 → b < 32 → c < 32 → bit_xor a c ≡ bit_xor b c → a ≡ b
xor_cancel_right a b c ha hb hc e = ground (arith, at a ha, at b hb)
  where
    at : (x : ℕ) → x < 32 → bit_xor (bit_xor x c) c ≡ x
    at x hx = ground (
      arith,
      eq_below (λ i. bit_xor (bit_xor (i / 32) (i % 32)) (i % 32)) (λ i. i / 32) 1024 (x * 32 + c)
          xor_cancel_table (omega arith),
    )

xor_cancel_left_table :
    all_below 1024 (λ i. bit_xor (i / 32) (bit_xor (i / 32) (i % 32)) == i % 32) ≡ true
unfolding all_below
xor_cancel_left_table = refl

xor_cancel_left : (a b c : ℕ) → a < 32 → b < 32 → c < 32 → bit_xor c a ≡ bit_xor c b → a ≡ b
xor_cancel_left a b c ha hb hc e = ground (arith, at a ha, at b hb)
  where
    at : (x : ℕ) → x < 32 → bit_xor c (bit_xor c x) ≡ x
    at x hx = ground (
      arith,
      eq_below (λ i. bit_xor (i / 32) (bit_xor (i / 32) (i % 32))) (λ i. i % 32) 1024 (c * 32 + x)
          xor_cancel_left_table (omega arith),
    )

register_table :
    all_below 1024
      (λ i. not (from_register (i / 32) == from_register (i % 32)) || (i / 32 == i % 32))
    ≡ true
unfolding all_below crc5_bits
register_table = refl

from_register_injective : (c d : ℕ) → c < 32 → d < 32 → from_register c ≡ from_register d → c ≡ d
from_register_injective c d hc hd e = ground (
  arith,
  all_below_sound
      (λ i. not (from_register (i / 32) == from_register (i % 32)) || (i / 32 == i % 32))
      (c * 32 + d) 1024 (omega arith) register_table,
)

flip_table :
    all_below 2048 (λ i. not (from_byte (i % 256) == from_byte (bit_xor (i % 256) (2 ^ (i / 256)))))
    ≡ true
unfolding all_below crc5_bits
flip_table = refl

flip_lt_table :
    all_below 2048
      (λ i. bit_xor (i % 256) (2 ^ (i / 256)) % 256 == bit_xor (i % 256) (2 ^ (i / 256)))
    ≡ true
unfolding all_below
flip_lt_table = refl

from_byte_flip : (b k : ℕ) → b < 256 → k < 8 → from_byte b ≢ from_byte (bit_xor b (2 ^ k))
from_byte_flip b k hb hk e = ground (
  arith,
  all_below_sound (λ i. not (from_byte (i % 256) == from_byte (bit_xor (i % 256) (2 ^ (i / 256)))))
      (k * 256 + b) 2048 (omega arith) flip_table,
)

pub flip-IsByte : (b k : ℕ) → b < 256 → k < 8 → IsByte (bit_xor b (2 ^ k))
flip-IsByte b k hb hk = ground (
  arith,
  eq_below (λ i. bit_xor (i % 256) (2 ^ (i / 256)) % 256) (λ i. bit_xor (i % 256) (2 ^ (i / 256)))
      2048 (k * 256 + b) flip_lt_table (omega arith),
)

-- One byte more keeps different registers apart, and a flipped bit brings equal ones apart.
byte_injective : (c d b : ℕ) → c < 32 → d < 32 → b < 256 → crc5_bits 8 c b ≡ crc5_bits 8 d b → c ≡ d
byte_injective c d b hc hd hb e = from_register_injective c d hc hd (
    xor_cancel_right (from_register c) (from_register d) (from_byte b)
      (crc5_bits-lt c 0 hc (omega arith)) (crc5_bits-lt d 0 hd (omega arith))
      (crc5_bits-lt 0 b (omega arith) hb)
      (sym (crc5_bits_linear c b hc hb) ∙ e ∙ crc5_bits_linear d b hd hb))

byte_flip :
    (c b k : ℕ) → c < 32 → b < 256 → k < 8 → crc5_bits 8 c b ≢ crc5_bits 8 c (bit_xor b (2 ^ k))
byte_flip c b k hc hb hk e = from_byte_flip b k hb hk (
    xor_cancel_left (from_byte b) (from_byte (bit_xor b (2 ^ k))) (from_register c)
      (crc5_bits-lt 0 b (omega arith) hb) (crc5_bits-lt 0 (bit_xor b (2 ^ k)) (omega arith) hf)
      (crc5_bits-lt c 0 hc (omega arith))
      (sym (crc5_bits_linear c b hc hb) ∙ e ∙ crc5_bits_linear c (bit_xor b (2 ^ k)) hc hf))
  where
    hf : bit_xor b (2 ^ k) < 256
    hf = flip-IsByte b k hb hk

pub crc5_bytes-lt : (bytes : List ℕ) (c : ℕ) → c < 32 → All IsByte bytes → crc5_bytes c bytes < 32
unfolding crc5_bytes
crc5_bytes-lt [] c hc h = hc
crc5_bytes-lt (b ∷ bs) c hc h = crc5_bytes-lt bs (crc5_bits 8 c b) (crc5_bits-lt c b hc h.0) h.1

bytes_injective :
    (bytes : List ℕ) (c d : ℕ)
    → c < 32
    → d < 32
    → All IsByte bytes
    → crc5_bytes c bytes ≡ crc5_bytes d bytes
    → c ≡ d
unfolding crc5_bytes
bytes_injective [] c d hc hd h e = e
bytes_injective (b ∷ bs) c d hc hd h e = byte_injective c d b hc hd h.0 (
    bytes_injective bs (crc5_bits 8 c b) (crc5_bits 8 d b) (crc5_bits-lt c b hc h.0)
      (crc5_bits-lt d b hd h.0) h.1 e)

pub crc5_bytes-append :
    (xs ys : List ℕ) (c : ℕ) → crc5_bytes c (xs ++ ys) ≡ crc5_bytes (crc5_bytes c xs) ys
unfolding crc5_bytes
crc5_bytes-append [] ys c = refl
crc5_bytes-append (x ∷ xs) ys c = crc5_bytes-append xs ys (crc5_bits 8 c x)

flip_bytes :
    (back : List ℕ) (c b k : ℕ)
    → c < 32
    → b < 256
    → k < 8
    → All IsByte back
    → crc5_bytes c (b ∷ back) ≢ crc5_bytes c (bit_xor b (2 ^ k) ∷ back)
unfolding crc5_bytes
flip_bytes back c b k hc hb hk h e = byte_flip c b k hc hb hk (
    bytes_injective back (crc5_bits 8 c b) (crc5_bits 8 c (bit_xor b (2 ^ k)))
      (crc5_bits-lt c b hc hb) (crc5_bits-lt c (bit_xor b (2 ^ k)) hc (flip-IsByte b k hb hk)) h e)

-- Flipping any one bit of a message of bytes changes its CRC-5: a frame that differs from an
-- accepted one in a single bit never passes the check.
pub crc5_detects_flip :
    (front back : List ℕ) (b k : ℕ)
    → All IsByte front
    → b < 256
    → All IsByte back
    → k < 8
    → crc5 (some (front ++ (b ∷ back))) ≢ crc5 (some (front ++ (bit_xor b (2 ^ k) ∷ back)))
unfolding crc5
crc5_detects_flip front back b k hf hb hk h e =
    flip_bytes back (crc5_bytes 0x1f front) b k (crc5_bytes-lt front 0x1f (omega arith) hf) hb h hk
      (sym (crc5_bytes-append front (b ∷ back) 0x1f)
        ∙ e
        ∙ crc5_bytes-append front (bit_xor b (2 ^ k) ∷ back) 0x1f)

abbrev as_number : Bool → ℕ
as_number true = 1
as_number false = 0

abbrev accepts : ℕ → ℕ → ℕ
accepts crc last = as_number (crc5_bits 8 crc last == 0)

abbrev matches : ℕ → ℕ → ℕ
matches crc last = as_number (last % 32 == crc5_bits 3 crc last)

last_table : all_below 8192 (λ i. accepts (i / 256) (i % 256) == matches (i / 256) (i % 256)) ≡ true
unfolding all_below crc5_bits
last_table = refl

iff_of_tests : (a b c : ℕ) → as_number (a == 0) ≡ as_number (b == c) → (a ≡ 0) ↔ (b ≡ c)
iff_of_tests a b c e = (λ p. ground arith, λ p. ground arith)

last_iff :
    (c last : ℕ) → c < 32 → last < 256 → (crc5_bits 8 c last ≡ 0) ↔ (last % 32 ≡ crc5_bits 3 c last)
last_iff c last hc hl = iff_of_tests (crc5_bits 8 c last) (last % 32) (crc5_bits 3 c last) (
    rw (div, rem) at
      (eq_below (λ i. accepts (i / 256) (i % 256)) (λ i. matches (i / 256) (i % 256)) 8192
        (c * 256 + last) last_table (omega arith)))
  where
    div : (c * 256 + last) / 256 ≡ c
    div = omega arith

    rem : (c * 256 + last) % 256 ≡ last
    rem = omega arith

-- A message of bytes ending in `last` has CRC-5 zero exactly when the low five bits of `last` are
-- the register after all the bits before them: the bytes of `front` and the top three bits.
pub crc5_zero_iff :
    (front : List ℕ) (last : ℕ)
    → All IsByte front
    → last < 256
    → (crc5 (some (front ++ (last ∷ []))) ≡ 0) ↔ (last % 32 ≡ crc5_bits 3 (crc5 (some front)) last)
unfolding crc5 crc5_bytes
crc5_zero_iff front last hf hl =
    rw (crc5_bytes-append front (last ∷ []) 0x1f)
      (last_iff (crc5_bytes 0x1f front) last (crc5_bytes-lt front 0x1f (omega arith) hf) hl)
