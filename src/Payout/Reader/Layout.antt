-- ===== src/Payout/Reader/Layout.antt =====
-- Reading what lies at the reader's place: integers in their wire format come back as written.
use m45_gamma_firmware.Base.{
  ℕ, zero, suc, ◌+◌, ◌*◌, ◌/◌, ◌%◌, ◌^◌, ◌≤◌, ◌<◌, bit_or, ◌≡◌, refl, ap, ◌∙◌, inl, inr, true,
  false, some, List, [], ◌∷◌, ◌++◌, append_assoc, arith, ltb, ◌==◌, if◌then◌else◌, ltb→lt,
  Bool-cases, length, get_or, length-append, take-append, drop-append,
}
use native.Mathlib.Nat.{pow-suc, div-add-mod, add_comm, mul_assoc}
use native.Mathlib.Numerals.{towards_suc}
use m45_gamma_firmware.Base.Bits.{bit_or_fields, bit_or_low}
use m45_gamma_firmware.Payout.Reader.{
  Reader, M, ◌>>=◌, return, read_bytes, le_loop, or_loop, read_u64_le, varint_rest, read_varint,
}

-- `n` bytes of a value, the lowest first.
unfoldable pub le_bytes : ℕ → ℕ → List ℕ
le_bytes zero value = []
le_bytes (suc n) value = value % 256 ∷ le_bytes n (value / 256)

pub length-le_bytes : (n value : ℕ) → length (le_bytes n value) ≡ n
unfolding le_bytes
length-le_bytes zero value = refl
length-le_bytes (suc n) value = ap suc (length-le_bytes n (value / 256))

-- A reader that has read `front` and has `rest` before it.
unfoldable pub at : List ℕ → List ℕ → Reader
at front rest = record { bytes = front ++ rest; offset = length front }

pub read_bytes-at :
    (n : ℕ) (front chunk rest : List ℕ)
    → length chunk ≡ n
    → read_bytes n (at front (chunk ++ rest)) ≡ some (chunk, at (front ++ chunk) rest)
unfolding read_bytes at
read_bytes-at n front chunk rest e =
    let room : ltb (length (front ++ (chunk ++ rest))) (length front + n) ≡ false =
      ground (arith, length-append front (chunk ++ rest), length-append chunk rest) in
    let len : length (front ++ chunk) ≡ length front + n =
      omega (arith, length-append front chunk) in
    rw (
      room,
      drop-append front (chunk ++ rest) (length front) refl,
      take-append chunk rest n e,
      append_assoc front chunk rest,
      len,
    )

-- The value of little-endian bytes.
le_loop-le_bytes :
    (n value : ℕ) → value < 256 ^ n → value < 2 ^ 64 → le_loop (le_bytes n value) ≡ value
unfolding le_loop le_bytes
le_loop-le_bytes zero value lt small = omega arith
le_loop-le_bytes (suc n) value lt small =
    let high : value / 256 < 256 ^ n = omega (arith, pow-suc 256 n) in
    let fits : value / 256 * 256 % 2 ^ 64 ≡ value / 256 * 2 ^ 8 = omega arith in
    rw (le_loop-le_bytes n (value / 256) high (omega arith), fits)
      (bit_or_fields 8 (value / 256) (value % 256) (omega arith) ∙ omega arith)

pow-add-eight : (k : ℕ) → 2 ^ (8 + k) ≡ 256 * 2 ^ k
pow-add-eight k = rw (add_comm 8 k) (simp towards_suc (omega arith))

scaled : (i v : ℕ) → v * 2 ^ (8 * (i + 1)) ≡ v * 256 * 2 ^ (8 * i)
scaled i v =
    let one_byte : 8 * (i + 1) ≡ 8 + 8 * i = omega arith in
    rw (one_byte, pow-add-eight (8 * i)) (omega (arith, mul_assoc v 256 (2 ^ (8 * i))))

or_loop-le_bytes :
    (n value acc i : ℕ)
    → value < 256 ^ n
    → acc < 2 ^ (8 * i)
    → acc + value * 2 ^ (8 * i) < 2 ^ 64
    → or_loop acc i (le_bytes n value) ≡ acc + value * 2 ^ (8 * i)
unfolding or_loop le_bytes
or_loop-le_bytes zero value acc i lt small fits =
    let none_left : value ≡ 0 = omega arith in rw none_left (omega arith)
or_loop-le_bytes (suc n) value acc i lt small fits =
    let p : ℕ = 2 ^ (8 * i) in
    let split : value * p ≡ value % 256 * p + value / 256 * 256 * p =
      omega (arith, ap (λ (t : ℕ). t * p) (div-add-mod value 256)) in
    let byte : value % 256 * p % 2 ^ 64 ≡ value % 256 * p = omega arith in
    let high : value / 256 < 256 ^ n = omega (arith, pow-suc 256 n) in
    let room : value % 256 * p + p ≤ 256 * p = grind arith in
    let joined : bit_or acc (value % 256 * p % 2 ^ 64) ≡ value % 256 * p + acc =
      ap (λ (t : ℕ). bit_or acc t) byte ∙ bit_or_low (8 * i) (value % 256) acc small in
    ap (λ (t : ℕ). or_loop t (i + 1) (le_bytes n (value / 256))) joined
    ∙ or_loop-le_bytes n (value / 256) (value % 256 * p + acc) (i + 1) high
        (omega (arith, scaled i 1)) (omega (arith, scaled i (value / 256)))
    ∙ omega (arith, scaled i (value / 256))

-- A variable-length integer in its shortest form.
unfoldable pub varint : ℕ → List ℕ
varint v =
    if ltb v 0xfd
    then v ∷ []
    else if ltb v (2 ^ 16)
    then 0xfd ∷ le_bytes 2 v
    else if ltb v (2 ^ 32)
    then 0xfe ∷ le_bytes 4 v
    else 0xff ∷ le_bytes 8 v

pub bind_some :
    {A B : Type 0} (m : M A) (f : A → M B) {r r' : Reader} {a : A}
    → m r ≡ some (a, r')
    → (m >>= f) r ≡ f a r'
bind_some m f e = rw (e, ◌>>=◌)

pub read_u64_le-at :
    (v : ℕ) (front rest : List ℕ)
    → v < 2 ^ 64
    → read_u64_le (at front (le_bytes 8 v ++ rest)) ≡ some (v, at (front ++ le_bytes 8 v) rest)
unfolding read_u64_le
read_u64_le-at v front rest lt =
    bind_some (read_bytes 8) (λ bs. return (le_loop bs))
      (read_bytes-at 8 front (le_bytes 8 v) rest (length-le_bytes 8 v))
    ∙ ap (λ (x : ℕ). some (x, at (front ++ le_bytes 8 v) rest)) (le_loop-le_bytes 8 v lt lt)

or_loop-all : (n v : ℕ) → v < 256 ^ n → v < 2 ^ 64 → or_loop 0 0 (le_bytes n v) ≡ v
or_loop-all n v lt small = or_loop-le_bytes n v 0 0 lt (omega arith) (omega arith) ∙ omega arith

-- The forms with a tag byte before `n` bytes.
tagged :
    (tag n v : ℕ) (front rest : List ℕ)
    → 0xfd ≤ tag
    → (if tag == 0xfd then 2 else if tag == 0xfe then 4 else 8) ≡ n
    → v < 256 ^ n
    → v < 2 ^ 64
    → read_varint (at front ((tag ∷ le_bytes n v) ++ rest))
      ≡ some (v, at (front ++ (tag ∷ le_bytes n v)) rest)
unfolding read_varint varint_rest
tagged tag n v front rest big count lt small =
    bind_some (read_bytes 1) (λ first. varint_rest (get_or first 0 0))
      (read_bytes-at 1 front (tag ∷ []) (le_bytes n v ++ rest) refl)
    ∙ rw (long, count)
        (bind_some (read_bytes n) (λ bs. return (or_loop 0 0 bs))
            (read_bytes-at n (front ++ (tag ∷ [])) (le_bytes n v) rest (length-le_bytes n v))
          ∙ ap (λ (x : ℕ). some (x, at ((front ++ (tag ∷ [])) ++ le_bytes n v) rest))
              (or_loop-all n v lt small)
          ∙ ap (λ (l : List ℕ). some (v, at l rest)) (append_assoc front (tag ∷ []) (le_bytes n v)))
  where
    long : ltb tag 0xfd ≡ false
    long = ground arith

-- Every 64-bit integer in its shortest form is read back, and the reader stands behind it.
pub read_varint-at :
    (v : ℕ) (front rest : List ℕ)
    → v < 2 ^ 64
    → read_varint (at front (varint v ++ rest)) ≡ some (v, at (front ++ varint v) rest)
unfolding varint
read_varint-at v front rest lt = elim (Bool-cases (ltb v 0xfd)) [
  | inl small ↦ rw small (single small)
  | inr more ↦ rw more (elim (Bool-cases (ltb v (2 ^ 16))) [
    | inl two ↦ rw two (tagged 0xfd 2 v front rest (omega arith) refl (ltb→lt _ _ two) lt)
    | inr wider ↦ rw wider (elim (Bool-cases (ltb v (2 ^ 32))) [
      | inl four ↦ rw four (tagged 0xfe 4 v front rest (omega arith) refl (ltb→lt _ _ four) lt)
      | inr eight ↦ rw eight (tagged 0xff 8 v front rest (omega arith) refl lt lt)
    ])
  ])
]
  where
    single :
        ltb v 0xfd ≡ true
        → read_varint (at front ((v ∷ []) ++ rest)) ≡ some (v, at (front ++ (v ∷ [])) rest)
    single small =
        unfold read_varint varint_rest in
        bind_some (read_bytes 1) (λ first. varint_rest (get_or first 0 0))
          (read_bytes-at 1 front (v ∷ []) rest refl)
        ∙ rw small
