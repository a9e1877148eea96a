-- ===== src/Base/Arrays.antt =====
-- `memcpy` and `memmove` inside an array, and how a prefix of the array reads afterwards.
use Prim.Native.Nat.{ℕ, zero, suc, ◌+◌, ◌-◌, ◌≤◌, ◌<◌}
use mathlib.Core.Path.{◌≡◌, refl, ap, ◌∙◌}
use mathlib.Core.List.{List, [], ◌∷◌, ◌++◌}
use native.Mathlib.Omega.{arith}
use mathlib.Core.Logic.{◌⊎◌}
use m45_gamma_firmware.Base.Lists.{
  length, get_or, set, take, drop, length-append, length-take, length-drop,
}

module _ {ℓ} {A : Type ℓ} where
  -- `memcpy(xs + at, src, length src)`, in bounds where `at + length src ≤ length xs`.
  pub memcpy : List A → ℕ → List A → List A
  memcpy xs zero src = src ++ drop (length src) xs
  memcpy [] (suc at) src = []
  memcpy (x ∷ xs) (suc at) src = x ∷ memcpy xs at src

  -- `memmove(xs + to, xs + from, n)`
  unfoldable pub memmove : List A → ℕ → ℕ → ℕ → List A
  memmove xs to from n = take to xs ++ (take n (drop from xs) ++ drop (to + n) xs)

  pub length-memcpy :
      (xs : List A) (at : ℕ) (src : List A)
      → at + length src ≤ length xs
      → length (memcpy xs at src) ≡ length xs
  unfolding memcpy
  length-memcpy xs zero src h =
      omega (arith, length-append src (drop (length src) xs), length-drop (length src) xs)
  length-memcpy [] (suc at) src h = absurd (omega arith)
  length-memcpy (x ∷ xs) (suc at) src h = ap suc (length-memcpy xs at src (omega arith))

  get_or-copied_in :
      (src rest : List A) (i : ℕ) (d : A)
      → i < length src
      → get_or (src ++ rest) i d ≡ get_or src i d
  get_or-copied_in [] rest i d h = absurd (omega arith)
  get_or-copied_in (s ∷ src) rest zero d h = refl
  get_or-copied_in (s ∷ src) rest (suc i) d h = get_or-copied_in src rest i d (omega arith)

  get_or-copied_out :
      (src xs : List A) (i : ℕ) (d : A)
      → length src ≤ i
      → get_or (src ++ drop (length src) xs) i d ≡ get_or xs i d
  get_or-copied_out [] xs i d h = refl
  get_or-copied_out (s ∷ src) xs zero d h = absurd (omega arith)
  get_or-copied_out (s ∷ src) [] (suc i) d h = get_or-end src i d (omega arith)
    where
      get_or-end : (ys : List A) (j : ℕ) (e : A) → length ys ≤ j → get_or (ys ++ []) j e ≡ e
      get_or-end [] j e le = refl
      get_or-end (y ∷ ys) zero e le = absurd (omega arith)
      get_or-end (y ∷ ys) (suc j) e le = get_or-end ys j e (omega arith)
  get_or-copied_out (s ∷ src) (x ∷ xs) (suc i) d h = get_or-copied_out src xs i d (omega arith)

  -- Inside the copied range the array reads as the source, outside as before.
  pub get_or-memcpy_in :
      (xs : List A) (at : ℕ) (src : List A) (i : ℕ) (d : A)
      → at + length src ≤ length xs
      → at ≤ i
      → i < at + length src
      → get_or (memcpy xs at src) i d ≡ get_or src (i - at) d
  unfolding memcpy
  get_or-memcpy_in xs zero src i d h lo hi =
      let e : i ≡ i - 0 = omega arith in
      get_or-copied_in src (drop (length src) xs) i d (omega arith) ∙ ap (λ k. get_or src k d) e
  get_or-memcpy_in [] (suc at) src i d h lo hi = absurd (omega arith)
  get_or-memcpy_in (x ∷ xs) (suc at) src zero d h lo hi = absurd (omega arith)
  get_or-memcpy_in (x ∷ xs) (suc at) src (suc i) d h lo hi =
      let e : i - at ≡ suc i - suc at = omega arith in
      get_or-memcpy_in xs at src i d (omega arith) (omega arith) (omega arith)
      ∙ ap (λ k. get_or src k d) e

  pub get_or-memcpy_out :
      (xs : List A) (at : ℕ) (src : List A) (i : ℕ) (d : A)
      → at + length src ≤ length xs
      → i < at ⊎ (at + length src ≤ i)
      → get_or (memcpy xs at src) i d ≡ get_or xs i d
  unfolding memcpy
  get_or-memcpy_out xs zero src i d h out = get_or-copied_out src xs i d (omega arith)
  get_or-memcpy_out [] (suc at) src i d h out = absurd (omega arith)
  get_or-memcpy_out (x ∷ xs) (suc at) src zero d h out = refl
  get_or-memcpy_out (x ∷ xs) (suc at) src (suc i) d h out =
      get_or-memcpy_out xs at src i d (omega arith) (omega arith)

  pub take-set : (n : ℕ) (xs : List A) (i : ℕ) (v : A) → n ≤ i → take n (set xs i v) ≡ take n xs
  take-set zero xs i v h = refl
  take-set (suc n) [] i v h = refl
  take-set (suc n) (x ∷ xs) zero v h = absurd (omega arith)
  take-set (suc n) (x ∷ xs) (suc i) v h = ap (λ t. x ∷ t) (take-set n xs i v (omega arith))

  pub take-set_end :
      (xs : List A) (i : ℕ) (v : A)
      → i < length xs
      → take (suc i) (set xs i v) ≡ take i xs ++ (v ∷ [])
  take-set_end [] i v h = absurd (omega arith)
  take-set_end (x ∷ xs) zero v h = refl
  take-set_end (x ∷ xs) (suc i) v h = ap (λ t. x ∷ t) (take-set_end xs i v (omega arith))

  pub take-take : (m n : ℕ) (xs : List A) → m ≤ n → take m (take n xs) ≡ take m xs
  take-take zero n xs h = refl
  take-take (suc m) zero xs h = absurd (omega arith)
  take-take (suc m) (suc n) [] h = refl
  take-take (suc m) (suc n) (x ∷ xs) h = ap (λ t. x ∷ t) (take-take m n xs (omega arith))

  take-nil : (n : ℕ) → [] ≡ take {A = A} n []
  take-nil zero = refl
  take-nil (suc n) = refl

  pub drop-take : (m n : ℕ) (xs : List A) → drop m (take n xs) ≡ take (n - m) (drop m xs)
  drop-take zero n xs = let e : n ≡ n - 0 = omega arith in ap (λ k. take k xs) e
  drop-take (suc m) zero xs =
      let e : 0 ≡ 0 - suc m = omega arith in ap (λ k. take k (drop (suc m) xs)) e
  drop-take (suc m) (suc n) [] = take-nil (suc n - suc m)
  drop-take (suc m) (suc n) (x ∷ xs) =
      let e : n - m ≡ suc n - suc m = omega arith in
      drop-take m n xs ∙ ap (λ k. take k (drop m xs)) e

  pub take_prefix :
      (xs ys zs : List A) (n : ℕ) → length xs + length ys ≡ n → take n (xs ++ (ys ++ zs)) ≡ xs ++ ys
  take_prefix [] [] zs zero e = refl
  take_prefix [] [] zs (suc n) e = absurd (omega arith)
  take_prefix [] (y ∷ ys) zs zero e = absurd (omega arith)
  take_prefix [] (y ∷ ys) zs (suc n) e = ap (λ t. y ∷ t) (take_prefix [] ys zs n (omega arith))
  take_prefix (x ∷ xs) ys zs zero e = absurd (omega arith)
  take_prefix (x ∷ xs) ys zs (suc n) e = ap (λ t. x ∷ t) (take_prefix xs ys zs n (omega arith))

  pub length-memmove :
      (xs : List A) (to from n : ℕ)
      → to ≤ from
      → from + n ≤ length xs
      → length (memmove xs to from n) ≡ length xs
  unfolding memmove
  length-memmove xs to from n le h = omega (
    arith,
    length-append (take to xs) (take n (drop from xs) ++ drop (to + n) xs),
    length-append (take n (drop from xs)) (drop (to + n) xs),
    length-take to xs,
    length-take n (drop from xs),
    length-drop from xs,
    length-drop (to + n) xs,
  )

  pub take-suc :
      (m : ℕ) (xs : List A) (d : A)
      → m < length xs
      → take (suc m) xs ≡ take m xs ++ (get_or xs m d ∷ [])
  take-suc m [] d h = absurd (omega arith)
  take-suc zero (x ∷ xs) d h = refl
  take-suc (suc m) (x ∷ xs) d h = ap (λ t. x ∷ t) (take-suc m xs d (omega arith))
