-- ===== src/Stratum/Json/Quote.antt =====
-- JSON strings in a buffer of main/stratum_minimal.c: what is written and when it fits.
use m45_gamma_firmware.Base.{
  ℕ, ◌+◌, ◌/◌, bit_and, ◌≡◌, refl, sym, ap, ◌∙◌, inl, inr, false, Option, none, some, List, [], ◌∷◌,
  ◌++◌, append-nil, append_assoc, arith, ltb, ◌==◌, if◌then◌else◌, Bool-cases, length,
  length-append,
}
use m45_gamma_firmware.Stratum.Text.{◌>>=◌}
use m45_gamma_firmware.Hex.{hex_digit}
use m45_gamma_firmware.Stratum.Json.{
  append_text, append_raw, text_of, append_json_char, append_json_chars, append_json_string,
  needs_escape, append_json_string_fast,
}

-- A text that is put behind another, where both and a zero character fit.
abbrev pub fit : ℕ → List ℕ → List ℕ → Option (List ℕ)
fit size dest text = if ltb (length dest + length text) size then some (dest ++ text) else none

pub append_text-fit :
    (size : ℕ) (dest text : List ℕ) → append_text size dest text ≡ fit size dest text
unfolding append_text
append_text-fit size dest text = ground arith

append_raw-fit : (size : ℕ) (dest text : List ℕ) → append_raw size dest text ≡ fit size dest text
unfolding append_raw
append_raw-fit size dest text = ground arith

-- Two texts one after the other are put there as one.
pub fit-fit :
    (size : ℕ) (dest xs ys : List ℕ)
    → (fit size dest xs >>= λ d. fit size d ys) ≡ fit size dest (xs ++ ys)
fit-fit size dest xs ys = elim (Bool-cases (ltb (length dest + length xs) size)) [
  | inl e ↦
      rw (e, length-append dest xs, length-append xs ys, append_assoc {A = ℕ} dest xs ys)
        (ground arith)
  | inr e ↦ rw (e, length-append xs ys) (ground arith)
]

pub bind_assoc :
    {A B C : Type 0}
    → (o : Option A) (f : A → Option B) (g : B → Option C)
    → (o >>= λ a. f a >>= g) ≡ ((o >>= f) >>= g)
bind_assoc none f g = refl
bind_assoc (some a) f g = refl

pub bind_same :
    {A B : Type 0}
    → (o : Option A) (f g : A → Option B) → ((a : A) → f a ≡ g a)
    → (o >>= f) ≡ (o >>= g)
bind_same none f g same = refl
bind_same (some a) f g same = same a

-- After a text that fits, what an append function puts behind it is put there with it.
pub fit-bind :
    (size : ℕ) (dest xs ys : List ℕ) (f : List ℕ → Option (List ℕ))
    → ((d : List ℕ) → f d ≡ fit size d ys)
    → (fit size dest xs >>= f) ≡ fit size dest (xs ++ ys)
fit-bind size dest xs ys f same =
    bind_same (fit size dest xs) f (λ d. fit size d ys) same ∙ fit-fit size dest xs ys

-- A JSON string as RFC 8259 writes it, with the short escapes.
abbrev pub escape : ℕ → List ℕ
escape ch =
    if ch == b'"'
    then b'\\' ∷ b'"' ∷ []
    else if ch == b'\\'
    then b'\\' ∷ b'\\' ∷ []
    else if ch == 8
    then b'\\' ∷ b'b' ∷ []
    else if ch == 12
    then b'\\' ∷ b'f' ∷ []
    else if ch == 10
    then b'\\' ∷ b'n' ∷ []
    else if ch == 13
    then b'\\' ∷ b'r' ∷ []
    else if ch == 9
    then b'\\' ∷ b't' ∷ []
    else if ltb ch 0x20
    then b'\\' ∷ b'u' ∷ b'0' ∷ b'0' ∷ hex_digit (ch / 16) ∷ hex_digit (bit_and ch 0x0f) ∷ []
    else ch ∷ []

unfoldable pub escapes : List ℕ → List ℕ
escapes [] = []
escapes (ch ∷ text) = escape ch ++ escapes text

abbrev pub quote : List ℕ → List ℕ
quote text = b'"' ∷ escapes text ++ (b'"' ∷ [])

append_json_char-fit :
    (size : ℕ) (dest : List ℕ) (ch : ℕ) → append_json_char size dest ch ≡ fit size dest (escape ch)
unfolding append_json_char
append_json_char-fit size dest ch = ground (arith, append_text-fit size dest)

append_json_chars-fit :
    (size : ℕ) (dest xs text : List ℕ)
    → (fit size dest xs >>= λ d. append_json_chars size d text) ≡ fit size dest (xs ++ escapes text)
unfolding append_json_chars escapes
append_json_chars-fit size dest xs [] =
    bind-some (fit size dest xs) ∙ ap (fit size dest) (sym (append-nil {A = ℕ} xs))
  where
    bind-some : (o : Option (List ℕ)) → (o >>= λ d. some d) ≡ o
    bind-some none = refl
    bind-some (some d) = refl
append_json_chars-fit size dest xs (ch ∷ text) =
    bind_assoc (fit size dest xs) (λ d. append_json_char size d ch)
      (λ d. append_json_chars size d text)
    ∙ (ap (λ o. o >>= λ d. append_json_chars size d text)
          (fit-bind size dest xs (escape ch) (λ d. append_json_char size d ch)
            (λ d. append_json_char-fit size d ch))
        ∙ (append_json_chars-fit size dest (xs ++ escape ch) text
            ∙ ap (fit size dest) (append_assoc {A = ℕ} xs (escape ch) (escapes text))))

append_json_string-fit :
    (size : ℕ) (dest : List ℕ) (text : Option (List ℕ))
    → append_json_string size dest text ≡ fit size dest (quote (text_of text))
unfolding append_json_string
append_json_string-fit size dest text =
    ap
      (λ o. o >>= λ opened. append_json_chars size opened (text_of text) >>= λ written.
        append_text size written (b'"' ∷ []))
      (append_text-fit size dest (b'"' ∷ []))
    ∙ (bind_assoc (fit size dest (b'"' ∷ []))
          (λ opened. append_json_chars size opened (text_of text))
          (λ written. append_text size written (b'"' ∷ []))
        ∙ (ap (λ o. o >>= λ written. append_text size written (b'"' ∷ []))
              (append_json_chars-fit size dest (b'"' ∷ []) (text_of text))
            ∙ fit-bind size dest (b'"' ∷ escapes (text_of text)) (b'"' ∷ []) _
                (λ d. append_text-fit size d (b'"' ∷ []))))

-- A text with no character to escape is its own escaped form.
escapes_none : (text : List ℕ) → needs_escape text ≡ false → escapes text ≡ text
unfolding needs_escape escapes
escapes_none [] e = refl
escapes_none (ch ∷ text) e = ground (arith, escapes_none text)

pub append_json_string_fast-fit :
    (size : ℕ) (dest : List ℕ) (text : Option (List ℕ))
    → append_json_string_fast size dest text ≡ fit size dest (quote (text_of text))
unfolding append_json_string_fast
append_json_string_fast-fit size dest text = elim (Bool-cases (needs_escape (text_of text))) [
  | inl e ↦ rw e (append_json_string-fit size dest text)
  | inr e ↦ rw e (plain e)
]
  where
    plain :
        needs_escape (text_of text) ≡ false
        → (append_raw size dest (b'"' ∷ []) >>= λ opened.
            append_raw size opened (text_of text) >>= λ written.
            append_raw size written (b'"' ∷ []))
          ≡ fit size dest (quote (text_of text))
    plain e =
        let body : List ℕ = text_of text in
        let close = λ (d : List ℕ). append_raw size d (b'"' ∷ []) in
        let rest = λ (d : List ℕ). append_raw size d body >>= close in
        ap (λ o. o >>= rest) (append_raw-fit size dest (b'"' ∷ []))
        ∙ (fit-bind size dest (b'"' ∷ []) (body ++ (b'"' ∷ [])) rest (λ d.
              ap (λ o. o >>= close) (append_raw-fit size d body)
              ∙ fit-bind size d body (b'"' ∷ []) close (λ k. append_raw-fit size k (b'"' ∷ [])))
            ∙ ap (λ t. fit size dest (b'"' ∷ t ++ (b'"' ∷ []))) (sym (escapes_none body e)))

-- Both ways of writing a JSON string, the fast one too, append the quoted text where it fits the
-- buffer with its zero character, and fail otherwise; a null pointer is written as an empty text.
pub append_json_string_lem :
    (size : ℕ) (dest : List ℕ) (text : Option (List ℕ))
    → (append_json_string size dest text ≡ fit size dest (quote (text_of text)))
      × (append_json_string_fast size dest text ≡ fit size dest (quote (text_of text)))
append_json_string_lem size dest text =
    (append_json_string-fit size dest text, append_json_string_fast-fit size dest text)
