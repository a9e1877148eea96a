-- ===== src/Mining/Extranonce.antt =====
-- The second extranonce: `extranonce_2_generate` and `extranonce_2_generate_bin` of main/mining.c.
use m45_gamma_firmware.Base.{
  ℕ, zero, suc, ◌+◌, ◌-◌, ◌*◌, ◌/◌, ◌<◌, min, ◌≡◌, refl, ap, subst, Option, some, List, [], ◌∷◌,
  ◌++◌, arith, length, take, replicate, All, length-append, length-take, length-replicate,
}
use m45_gamma_firmware.Asic.Bm1370.{le_bytes}
use m45_gamma_firmware.Hex.{bin2hex, hex2bin}
use m45_gamma_firmware.Hex.RoundTrip.{from_hex, hex2bin-bin2hex}

unfoldable pub extranonce_2_generate_bin : ℕ → ℕ → List ℕ
extranonce_2_generate_bin extranonce_2 len =
    take (min len 8) (le_bytes 8 extranonce_2) ++ replicate (len - min len 8) 0

-- `none` would be a `bin2hex` that writes nothing.
pub extranonce_2_generate : ℕ → ℕ → Option (List ℕ)
extranonce_2_generate extranonce_2 len =
    bin2hex (extranonce_2_generate_bin extranonce_2 len) (len * 2 + 1)

length-le_bytes : (n v : ℕ) → length (le_bytes n v) ≡ n
length-le_bytes zero v = refl
length-le_bytes (suc n) v = ap suc (length-le_bytes n (v / 256))

length-generate_bin : (e len : ℕ) → length (extranonce_2_generate_bin e len) ≡ len
unfolding extranonce_2_generate_bin
length-generate_bin e len = ground (
  arith,
  length-append (take (min len 8) (le_bytes 8 e)) (replicate (len - min len 8) 0),
  length-take (min len 8) (le_bytes 8 e),
  length-replicate {A = ℕ} (len - min len 8) 0,
  length-le_bytes 8 e,
)

All-append :
    (xs ys : List ℕ) → All (λ b. b < 256) xs → All (λ b. b < 256) ys → All (λ b. b < 256) (xs ++ ys)
All-append [] ys v w = w
All-append (x ∷ xs) ys (lt, v) w = (lt, All-append xs ys v w)

All-take-le_bytes : (k n v : ℕ) → All (λ b. b < 256) (take k (le_bytes n v))
All-take-le_bytes zero n v = tt
All-take-le_bytes (suc k) zero v = tt
All-take-le_bytes (suc k) (suc n) v = (omega arith, All-take-le_bytes k n (v / 256))

All-zeroes : (n : ℕ) → All (λ b. b < 256) (replicate n 0)
All-zeroes zero = tt
All-zeroes (suc n) = (omega arith, All-zeroes n)

pub bin2hex-generate_bin :
    (e len hexlen : ℕ)
    → len * 2 < hexlen
    → (hex : List ℕ) × (bin2hex (extranonce_2_generate_bin e len) hexlen ≡ some hex)
      × (hex2bin hex len ≡ extranonce_2_generate_bin e len)
      × (from_hex hex ≡ extranonce_2_generate_bin e len)
      × (length (extranonce_2_generate_bin e len) ≡ len)
unfolding extranonce_2_generate_bin
bin2hex-generate_bin e len hexlen room =
    let whole = length-generate_bin e len in
    let back =
      hex2bin-bin2hex (extranonce_2_generate_bin e len) hexlen
        (All-append _ _ (All-take-le_bytes (min len 8) 8 e) (All-zeroes (len - min len 8)))
        (omega (arith, whole)) in
    (
      back.0,
      back.1,
      subst (λ n. hex2bin (back.0) n ≡ extranonce_2_generate_bin e len) whole (back.2),
      back.3,
      whole,
    )

-- The hexadecimal second extranonce, for every counter value and length, is written and stands for
-- exactly the bytes of the binary one, `len` of them, to which it decodes.
pub extranonce_2_generate-bin :
    (e len : ℕ)
    → (hex : List ℕ) × (extranonce_2_generate e len ≡ some hex)
      × (hex2bin hex len ≡ extranonce_2_generate_bin e len)
      × (from_hex hex ≡ extranonce_2_generate_bin e len)
      × (length (extranonce_2_generate_bin e len) ≡ len)
unfolding extranonce_2_generate
extranonce_2_generate-bin e len = bin2hex-generate_bin e len (len * 2 + 1) (omega arith)
