-- ===== src/Stratum/Json/Reader.antt =====
-- A reader of JSON strings, independent of main/stratum_minimal.c, and the strings that it writes.
use m45_gamma_firmware.Base.{
  ℕ, zero, suc, ◌+◌, ◌*◌, ◌/◌, ◌<◌, bit_and, ◌≡◌, refl, sym, ap, ◌∙◌, subst, inl, inr, Bool, true,
  false, ◌||◌, Option, none, some, List, [], ◌∷◌, ◌++◌, append_assoc, arith, ltb, ◌==◌,
  if◌then◌else◌, ltb→lt, ==_iff, Bool-cases, length, take, drop, take-append, drop-append,
}
use m45_gamma_firmware.Base.Tables.{all_below, eq_below}
use m45_gamma_firmware.Hex.{hex_digit, hex_value}
use m45_gamma_firmware.Stratum.Json.{append_json_string_fast}
use m45_gamma_firmware.Stratum.Json.Quote.{append_json_string_fast-fit, quote, escape, escapes}

-- Inside a string: between characters, after a backslash, or in the digits of `\u`.
pub data Reading : Type 0 where
  plain : Reading
  escaped : Reading
  unicode : ℕ → ℕ → Reading

pub data Move : Type 0 where
  fail : Move
  close : Move
  more : Reading → List ℕ → Move

abbrev short_escape : ℕ → Move
short_escape ch =
    if ch == b'u'
    then more (unicode 3 0) []
    else if ch == b'b'
    then more plain (8 ∷ [])
    else if ch == b'f'
    then more plain (12 ∷ [])
    else if ch == b'n'
    then more plain (10 ∷ [])
    else if ch == b'r'
    then more plain (13 ∷ [])
    else if ch == b't'
    then more plain (9 ∷ [])
    else if (ch == b'"') || (ch == b'\\') || (ch == b'/')
    then more plain (ch ∷ [])
    else fail

pub move : Reading → ℕ → Move
move plain ch =
    if ch == b'"'
    then close
    else if ch == b'\\'
    then more escaped []
    else if ltb ch 0x20
    then fail
    else more plain (ch ∷ [])
move escaped ch = short_escape ch
move (unicode zero value) ch = more plain ((value * 16 + hex_value ch) ∷ [])
move (unicode (suc places) value) ch = more (unicode places (value * 16 + hex_value ch)) []

unfoldable pub prefixed : List ℕ → Option (List ℕ × List ℕ) → Option (List ℕ × List ℕ)
prefixed out none = none
prefixed out (some (text, rest)) = some (out ++ text, rest)

-- The string up to its closing quote, and what is behind it.
unfoldable pub read_string : Reading → List ℕ → Option (List ℕ × List ℕ)
unfolding move prefixed
read_string r [] = none
read_string r (ch ∷ rest) = elim (move r ch) [
  | fail ↦ none
  | close ↦ some ([], rest)
  | more r' out ↦ prefixed out (read_string r' rest)
]

prefixed-nil : (o : Option (List ℕ × List ℕ)) → prefixed [] o ≡ o
unfolding prefixed
prefixed-nil none = refl
prefixed-nil (some (text, rest)) = refl

-- The two digits of a control character.
control_value : ℕ → ℕ
control_value ch =
    (((0 * 16 + hex_value b'0') * 16 + hex_value b'0') * 16 + hex_value (hex_digit (ch / 16))) * 16
    + hex_value (hex_digit (bit_and ch 0x0f))

control_value_lem : (ch : ℕ) → ch < 32 → control_value ch ≡ ch
unfolding control_value
control_value_lem ch lt = eq_below control_value (λ i. i) 32 ch table lt
  where
    table : all_below 32 (λ i. control_value i == i) ≡ true
    table = unfold all_below in refl

read-control :
    (ch : ℕ) (rest : List ℕ)
    → ch < 32
    → read_string plain
        (b'\\' ∷ b'u' ∷ b'0' ∷ b'0' ∷ hex_digit (ch / 16) ∷ hex_digit (bit_and ch 0x0f) ∷ rest)
      ≡ prefixed (ch ∷ []) (read_string plain rest)
unfolding read_string control_value
read-control ch rest lt =
    prefixed-nil _
    ∙ (prefixed-nil _
        ∙ (prefixed-nil _
            ∙ (prefixed-nil _
                ∙ (prefixed-nil _
                    ∙ ap (λ v. prefixed (v ∷ []) (read_string plain rest))
                        (control_value_lem ch lt)))))

abbrev pub Escaped : List ℕ → ℕ → Type 0
Escaped rest ch =
    read_string plain (escape ch ++ rest) ≡ prefixed (ch ∷ []) (read_string plain rest)

pub read-short :
    (rest : List ℕ)
    → (Escaped rest b'"' × Escaped rest b'\\')
      × ((Escaped rest 8 × Escaped rest 12)
          × ((Escaped rest 10 × Escaped rest 13) × Escaped rest 9))
unfolding read_string
read-short rest = (
  (prefixed-nil _, prefixed-nil _),
  ((prefixed-nil _, prefixed-nil _), ((prefixed-nil _, prefixed-nil _), prefixed-nil _)),
)

pub plain_move :
    (ch : ℕ)
    → (ch == b'"') ≡ false
    → (ch == b'\\') ≡ false
    → ltb ch 0x20 ≡ false
    → move plain ch ≡ more plain (ch ∷ [])
unfolding move
plain_move ch n1 n2 e = rw (n1, n2, e) refl

pub read-more :
    (r r' : Reading) (ch : ℕ) (out rest : List ℕ)
    → move r ch ≡ more r' out
    → read_string r (ch ∷ rest) ≡ prefixed out (read_string r' rest)
unfolding read_string
read-more r r' ch out rest e = ground (arith, e)

-- A character without a short escape.
read-long :
    (ch : ℕ) (rest : List ℕ)
    → (ch == b'"') ≡ false
    → (ch == b'\\') ≡ false
    → (ch == 8) ≡ false
    → (ch == 12) ≡ false
    → (ch == 10) ≡ false
    → (ch == 13) ≡ false
    → (ch == 9) ≡ false
    → Escaped rest ch
unfolding read_string
read-long ch rest n1 n2 n3 n4 n5 n6 n7 = elim (Bool-cases (ltb ch 0x20)) [
  | inl e ↦
      let long : escape ch
          ≡ b'\\' ∷ b'u' ∷ b'0' ∷ b'0' ∷ hex_digit (ch / 16) ∷ hex_digit (bit_and ch 0x0f) ∷ [] =
        rw (n1, n2, n3, n4, n5, n6, n7, e) refl in
      ap (λ t. read_string plain (t ++ rest)) long ∙ read-control ch rest (ltb→lt ch 0x20 e)
  | inr e ↦
      let same : escape ch ≡ ch ∷ [] = rw (n1, n2, n3, n4, n5, n6, n7, e) refl in
      ap (λ t. read_string plain (t ++ rest)) same
      ∙ read-more plain plain ch (ch ∷ []) rest (plain_move ch n1 n2 e)
]

read-escape : (ch : ℕ) (rest : List ℕ) → Escaped rest ch
read-escape ch rest = elim (Bool-cases (ch == b'"')) [
  | inl e ↦ subst (Escaped rest) (sym ((==_iff ch b'"').0 e)) (read-short rest).0.0
  | inr n1 ↦ elim (Bool-cases (ch == b'\\')) [
    | inl e ↦ subst (Escaped rest) (sym ((==_iff ch b'\\').0 e)) (read-short rest).0.1
    | inr n2 ↦ elim (Bool-cases (ch == 8)) [
      | inl e ↦ subst (Escaped rest) (sym ((==_iff ch 8).0 e)) (read-short rest).1.0.0
      | inr n3 ↦ elim (Bool-cases (ch == 12)) [
        | inl e ↦ subst (Escaped rest) (sym ((==_iff ch 12).0 e)) (read-short rest).1.0.1
        | inr n4 ↦ elim (Bool-cases (ch == 10)) [
          | inl e ↦ subst (Escaped rest) (sym ((==_iff ch 10).0 e)) (read-short rest).1.1.0.0
          | inr n5 ↦ elim (Bool-cases (ch == 13)) [
            | inl e ↦ subst (Escaped rest) (sym ((==_iff ch 13).0 e)) (read-short rest).1.1.0.1
            | inr n6 ↦ elim (Bool-cases (ch == 9)) [
              | inl e ↦ subst (Escaped rest) (sym ((==_iff ch 9).0 e)) (read-short rest).1.1.1
              | inr n7 ↦ read-long ch rest n1 n2 n3 n4 n5 n6 n7
            ]
          ]
        ]
      ]
    ]
  ]
]

-- A text that is written as a JSON string is read back from it, whatever follows, by a reader that
-- knows the escapes of JSON.
read_string-quote :
    (text rest : List ℕ) → read_string plain (escapes text ++ (b'"' ∷ rest)) ≡ some (text, rest)
unfolding escapes read_string
read_string-quote [] rest = refl
read_string-quote (ch ∷ text) rest =
    ap (read_string plain) (append_assoc {A = ℕ} (escape ch) (escapes text) (b'"' ∷ rest))
    ∙ (read-escape ch (escapes text ++ (b'"' ∷ rest))
        ∙ (ap (prefixed (ch ∷ [])) (read_string-quote text rest)))

-- Where a text is appended to a buffer as a JSON string, the buffer keeps what it had, and a JSON
-- reader reads from behind that and the opening quote exactly the text, whatever is appended later.
pub append_json_string_fast-read_string :
    (size : ℕ) (dest text out rest : List ℕ)
    → append_json_string_fast size dest (some text) ≡ some out
    → (take (length dest) out ≡ dest)
      × (read_string plain (drop 1 (drop (length dest) out) ++ rest) ≡ some (text, rest))
append_json_string_fast-read_string size dest text out rest e =
    let written : dest ++ quote text ≡ out =
      fitted (ltb (length dest + length (quote text)) size)
        (sym (append_json_string_fast-fit size dest (some text)) ∙ e) in
    subst
      (λ o.
        (take (length dest) o ≡ dest)
        × (read_string plain (drop 1 (drop (length dest) o) ++ rest) ≡ some (text, rest)))
      written
      (
        take-append dest (quote text) (length dest) refl,
        ap (λ t. read_string plain (drop 1 t ++ rest))
              (drop-append dest (quote text) (length dest) refl)
            ∙ (ap (read_string plain) (append_assoc {A = ℕ} (escapes text) (b'"' ∷ []) rest)
                ∙ read_string-quote text rest),
      )
  where
    fitted :
        (b : Bool)
        → (if b then some (dest ++ quote text) else none) ≡ some out
        → dest ++ quote text ≡ out
    fitted true h = ground (arith, h)
    fitted false h = absurd (ground (arith, h))
