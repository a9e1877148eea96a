-- ===== src/Http/Logs/Moves.antt =====
-- The lines of a log, and how main/wifi_http.c moves them in the array.
use m45_gamma_firmware.Base.{
  ℕ, zero, suc, ◌+◌, ◌-◌, ◌≤◌, ◌≡◌, refl, sym, ap, ◌∙◌, inl, inr, List, [], ◌∷◌, ◌++◌, append_assoc,
  arith, ◌==◌, if◌then◌else◌, ==_iff, Bool-cases, length, take, drop, length-append, length-take,
  length-drop, take-append, drop-append,
}
use m45_gamma_firmware.Base.Arrays.{memmove, drop-take}
use m45_gamma_firmware.Http.Logs.{is_dropped, line_length}

-- The lines of a text, with their newlines.
abbrev first_char : ℕ → List (List ℕ) → List (List ℕ)
first_char ch [] = (ch ∷ []) ∷ []
first_char ch (l ∷ lines) = (ch ∷ l) ∷ lines

unfoldable pub lines_of : List ℕ → List (List ℕ)
lines_of [] = []
lines_of (ch ∷ text) = if ch == 10 then (10 ∷ []) ∷ lines_of text else first_char ch (lines_of text)

-- The lines that are not dropped, one after the other.
unfoldable pub kept : List (List ℕ) → List ℕ
kept [] = []
kept (l ∷ lines) = (if is_dropped l then [] else l) ++ kept lines

pub lines_of-first :
    (ch : ℕ) (text : List ℕ)
    → lines_of (ch ∷ text)
      ≡ take (line_length (ch ∷ text)) (ch ∷ text)
        ∷ lines_of (drop (line_length (ch ∷ text)) (ch ∷ text))
unfolding lines_of line_length
lines_of-first ch [] = elim (Bool-cases (ch == 10)) [
  | inl e ↦ rw e (ap (λ c. (c ∷ []) ∷ []) (sym ((==_iff ch 10).0 e)))
  | inr e ↦ rw e refl
]
lines_of-first ch (next ∷ text) =
    let later = lines_of-first next text in
    elim (Bool-cases (ch == 10)) [
      | inl e ↦ rw e (ap (λ c. (c ∷ []) ∷ lines_of (next ∷ text)) (sym ((==_iff ch 10).0 e)))
      | inr e ↦ rw e (ap (first_char ch) later)
    ]

pub line_length-bounds :
    (ch : ℕ) (text : List ℕ)
    → (1 ≤ line_length (ch ∷ text)) × (line_length (ch ∷ text) ≤ suc (length text))
unfolding line_length
line_length-bounds ch [] = ground arith
line_length-bounds ch (next ∷ text) = ground (arith, line_length-bounds next text)

module _ {A : Type 0} where
  drop-nil : (n : ℕ) → drop {A = A} n [] ≡ []
  drop-nil zero = refl
  drop-nil (suc n) = refl

  take-nil : (n : ℕ) → take {A = A} n [] ≡ []
  take-nil zero = refl
  take-nil (suc n) = refl

  drop-drop : (m n : ℕ) (xs : List A) → drop n (drop m xs) ≡ drop (m + n) xs
  drop-drop zero n xs = let e : n ≡ 0 + n = omega arith in ap (λ k. drop k xs) e
  drop-drop (suc m) n [] = drop-nil n ∙ sym (drop-nil (suc m + n))
  drop-drop (suc m) n (x ∷ xs) =
      let e : suc (m + n) ≡ suc m + n = omega arith in
      drop-drop m n xs ∙ ap (λ k. drop k (x ∷ xs)) e

  pub take-drop : (m n : ℕ) (xs : List A) → take (m + n) xs ≡ take m xs ++ take n (drop m xs)
  take-drop zero n xs = let e : 0 + n ≡ n = omega arith in ap (λ k. take k xs) e
  take-drop (suc m) n [] = take-nil (suc m + n) ∙ sym (take-nil n)
  take-drop (suc m) n (x ∷ xs) =
      let e : suc m + n ≡ suc (m + n) = omega arith in
      ap (λ k. take k (x ∷ xs)) e ∙ ap (λ t. x ∷ t) (take-drop m n xs)

  module _ (xs : List A) (to from n : ℕ) (le : to ≤ from) (h : from + n ≤ length xs) where
    abbrev pub written : List A
    written = take to xs ++ take n (drop from xs)

    length-written : length written ≡ to + n
    length-written = omega (
      arith,
      length-append (take to xs) (take n (drop from xs)),
      length-take to xs,
      length-take n (drop from xs),
      length-drop from xs,
    )

    memmove-written : memmove xs to from n ≡ written ++ drop (to + n) xs
    unfolding memmove
    memmove-written =
        sym (append_assoc {A = A} (take to xs) (take n (drop from xs)) (drop (to + n) xs))

    pub take-memmove : take (to + n) (memmove xs to from n) ≡ written
    take-memmove =
        ap (take (to + n)) memmove-written
        ∙ take-append written (drop (to + n) xs) (to + n) length-written

    pub drop-memmove : drop (from + n) (memmove xs to from n) ≡ drop (from + n) xs
    drop-memmove =
        let e : from + n ≡ (to + n) + (from - to) = omega arith in
        ap (drop (from + n)) memmove-written
        ∙ (ap (λ k. drop k (written ++ drop (to + n) xs)) e
            ∙ (sym (drop-drop (to + n) (from - to) (written ++ drop (to + n) xs))
                ∙ (ap (drop (from - to))
                      (drop-append written (drop (to + n) xs) (to + n) length-written)
                    ∙ (drop-drop (to + n) (from - to) xs ∙ ap (λ k. drop k xs) (sym e)))))

-- The text that is still to be read.
abbrev pub left_of : List ℕ → ℕ → ℕ → List ℕ
left_of body body_len read_pos = take (body_len - read_pos) (drop read_pos body)

pub left-step :
    (body : List ℕ) (body_len read_pos n : ℕ)
    → drop n (left_of body body_len read_pos) ≡ left_of body body_len (read_pos + n)
left-step body body_len read_pos n =
    let e : body_len - read_pos - n ≡ body_len - (read_pos + n) = omega arith in
    drop-take n (body_len - read_pos) (drop read_pos body)
    ∙ (ap (λ k. take k (drop n (drop read_pos body))) e
        ∙ ap (take (body_len - (read_pos + n))) (drop-drop read_pos n body))
