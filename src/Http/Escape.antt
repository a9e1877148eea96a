-- ===== src/Http/Escape.antt =====
-- The JSON strings of main/wifi_http.c: when `json_escape` writes what a JSON reader reads.
use m45_gamma_firmware.Base.{
  ℕ, zero, suc, ◌+◌, ◌*◌, ◌≤◌, ◌<◌, ◌≡◌, refl, sym, ap, ◌∙◌, subst, inl, inr, Bool, true, false,
  some, List, [], ◌∷◌, ◌++◌, append_assoc, arith, ltb, ◌==◌, if◌then◌else◌, ltb→lt, lt→ltb, ==_iff,
  Bool-cases, length, replicate, length-append,
}
use m45_gamma_firmware.Stratum.Json.Reader.{
  read_string, plain, prefixed, read-short, read-more, plain_move,
}
use m45_gamma_firmware.Http.{escaped_char, escape_loop, json_escape}

-- The characters that are not control characters.
abbrev pub printable : List ℕ → List ℕ
printable [] = []
printable (ch ∷ text) = if ltb ch 0x20 then printable text else ch ∷ printable text

written_fits :
    (dst_size out ch : ℕ)
    → out + 1 < dst_size
    → out + length (escaped_char dst_size out ch) < dst_size
unfolding escaped_char
written_fits dst_size out ch lt = ground arith

escape_loop-length :
    (dst_size out : ℕ) (text : List ℕ)
    → out < dst_size
    → out + length (escape_loop dst_size out text) < dst_size
unfolding escape_loop
escape_loop-length dst_size out [] lt = omega arith
escape_loop-length dst_size out (ch ∷ text) lt = elim (Bool-cases (ltb (out + 1) dst_size)) [
  | inl e ↦
      let one = written_fits dst_size out ch (ltb→lt (out + 1) dst_size e) in
      rw e (
        omega (
          arith,
          length-append (escaped_char dst_size out ch)
              (escape_loop dst_size (out + length (escaped_char dst_size out ch)) text),
          escape_loop-length dst_size (out + length (escaped_char dst_size out ch)) text one,
        ))
  | inr e ↦ rw e (omega arith)
]

abbrev ReadBack : ℕ → ℕ → List ℕ → ℕ → Type 0
ReadBack dst_size out tail ch =
    read_string plain (escaped_char dst_size out ch ++ tail)
    ≡ (if ltb ch 0x20 then read_string plain tail else prefixed (ch ∷ []) (read_string plain tail))

escaped_short :
    (dst_size out : ℕ) (tail : List ℕ)
    → ltb (out + 2) dst_size ≡ true
    → ReadBack dst_size out tail b'"' × ReadBack dst_size out tail b'\\'
unfolding escaped_char
escaped_short dst_size out tail room = (
  ap (λ (b : Bool). read_string plain ((if b then b'\\' ∷ b'"' ∷ [] else b'"' ∷ []) ++ tail)) room
      ∙ (read-short tail).0.0,
  ap (λ (b : Bool). read_string plain ((if b then b'\\' ∷ b'\\' ∷ [] else b'\\' ∷ []) ++ tail)) room
      ∙ (read-short tail).0.1,
)

-- A character that is written where an escape fits is read back.
written-read_string :
    (dst_size out ch : ℕ) (tail : List ℕ) → out + 2 < dst_size → ReadBack dst_size out tail ch
unfolding escaped_char
written-read_string dst_size out ch tail fits =
    let room : ltb (out + 2) dst_size ≡ true = lt→ltb (out + 2) dst_size fits in
    elim (Bool-cases (ch == b'"')) [
      | inl e ↦
          subst (ReadBack dst_size out tail) (sym ((==_iff ch b'"').0 e))
            (escaped_short dst_size out tail room).0
      | inr n ↦ elim (Bool-cases (ch == b'\\')) [
        | inl e ↦
            subst (ReadBack dst_size out tail) (sym ((==_iff ch b'\\').0 e))
              (escaped_short dst_size out tail room).1
        | inr m ↦ elim (Bool-cases (ltb ch 0x20)) [
          | inl e ↦
              let gone : escaped_char dst_size out ch ≡ [] = ground (arith, n, m, e) in
              ap (λ t. read_string plain (t ++ tail)) gone ∙ rw e refl
          | inr e ↦
              let kept : escaped_char dst_size out ch ≡ ch ∷ [] = ground (arith, n, m, e) in
              ap (λ t. read_string plain (t ++ tail)) kept
              ∙ (read-more plain plain ch (ch ∷ []) tail (plain_move ch n m e) ∙ rw e refl)
        ]
      ]
    ]

escaped_char_short : (dst_size out ch : ℕ) → length (escaped_char dst_size out ch) ≤ 2
unfolding escaped_char
escaped_char_short dst_size out ch = ground arith

escape_loop-read_string :
    (dst_size out : ℕ) (text rest : List ℕ)
    → out + 2 * length text < dst_size
    → read_string plain (escape_loop dst_size out text ++ (b'"' ∷ rest))
      ≡ some (printable text, rest)
unfolding escape_loop read_string prefixed
escape_loop-read_string dst_size out [] rest lt = refl
escape_loop-read_string dst_size out (ch ∷ text) rest lt =
    let written = escaped_char dst_size out ch in
    let short = escaped_char_short dst_size out ch in
    let more = escape_loop dst_size (out + length written) text in
    let room : ltb (out + 1) dst_size ≡ true = lt→ltb (out + 1) dst_size (omega arith) in
    let later =
      escape_loop-read_string dst_size (out + length written) text rest (omega (arith, short)) in
    rw room (
      ap (read_string plain) (append_assoc {A = ℕ} written more (b'"' ∷ rest))
      ∙ (written-read_string dst_size out ch (more ++ (b'"' ∷ rest)) (omega arith)
          ∙ (ap (λ o. if ltb ch 0x20 then o else prefixed (ch ∷ []) o) later ∙ ground arith)))

-- In a buffer of more than twice the length of the text, `json_escape` writes a string that fits with
-- its zero character and that a JSON reader reads as the text without its control characters.
pub json_escape_lem :
    (dst_size : ℕ) (text rest : List ℕ)
    → 2 * length text < dst_size
    → (written : List ℕ) × ((json_escape dst_size (some text) ≡ some written)
        × ((length written < dst_size)
            × (read_string plain (written ++ (b'"' ∷ rest)) ≡ some (printable text, rest))))
unfolding json_escape
json_escape_lem dst_size text rest lt = (
  escape_loop dst_size 0 text,
  (
    ground arith,
    (
      omega (arith, escape_loop-length dst_size 0 text),
      escape_loop-read_string dst_size 0 text rest (omega arith),
    ),
  ),
)

quote_last :
    (n out dst_size : ℕ) (rest : List ℕ)
    → dst_size ≡ out + 2 * n + 2
    → read_string plain (escape_loop dst_size out (replicate (suc n) b'"') ++ (b'"' ∷ rest))
      ≡ some (replicate n b'"', b'"' ∷ rest)
unfolding escape_loop escaped_char read_string prefixed
quote_last zero out dst_size rest e =
    let room : ltb (out + 1) dst_size ≡ true = ground arith in
    let full : ltb (out + 2) dst_size ≡ false = ground arith in rw (room, full) refl
quote_last (suc n) out dst_size rest e =
    let room : ltb (out + 1) dst_size ≡ true = ground arith in
    let fits : ltb (out + 2) dst_size ≡ true = ground arith in
    let later = quote_last n (out + 2) dst_size rest (omega arith) in
    rw (room, fits) (ap (λ o. prefixed [] (prefixed (b'"' ∷ []) o)) later)

-- In a smaller buffer a quote that meets the last free byte is written without its backslash: of
-- n + 1 quotes in a buffer of 2 n + 2 bytes a JSON reader reads n, and then the string is at its end.
pub json_escape_full :
    (n : ℕ) (rest : List ℕ)
    → (written : List ℕ) × ((json_escape (2 * n + 2) (some (replicate (suc n) b'"')) ≡ some written)
        × (read_string plain (written ++ (b'"' ∷ rest)) ≡ some (replicate n b'"', b'"' ∷ rest)))
unfolding json_escape
json_escape_full n rest = (
  escape_loop (2 * n + 2) 0 (replicate (suc n) b'"'),
  (ground arith, quote_last n 0 (2 * n + 2) rest (omega arith)),
)
