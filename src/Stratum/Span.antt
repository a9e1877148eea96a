-- ===== src/Stratum/Span.antt =====
-- The reader of JSON without a tree of main/stratum_minimal.c, the `fast_json_` functions. A cursor
-- is the rest of the line before its zero character.
use m45_gamma_firmware.Base.{
  ℕ, Bool, true, false, ◌||◌, Option, none, some, List, [], ◌∷◌, ltb, ◌==◌, if◌then◌else◌, length,
  list_eq,
}
use m45_gamma_firmware.Stratum.Text.{codes}

unfoldable pub skip_ws : List ℕ → List ℕ
skip_ws [] = []
skip_ws (ch ∷ cursor) =
    if (ch == b' ') || (ch == 9) || (ch == 13) || (ch == 10) then skip_ws cursor else ch ∷ cursor

-- The rest behind a character that is expected, white space skipped.
unfoldable pub consume_char : ℕ → List ℕ → Option (List ℕ)
unfolding skip_ws
consume_char expected cursor = elim (skip_ws cursor) [
  | [] ↦ none
  | ch ∷ rest ↦ if ch == expected then some rest else none
]

-- The loop of `fast_json_parse_string_span`: the span up to the quote, and the rest behind it.
unfoldable pub span_loop : List ℕ → Option (List ℕ × List ℕ)
span_loop [] = none
span_loop (ch ∷ cursor) =
    if ch == b'"'
    then some ([], cursor)
    else if (ch == b'\\') || ltb ch 0x20
    then none
    else elim (span_loop cursor) [ none ↦ none | some (span, rest) ↦ some (ch ∷ span, rest) ]

unfoldable pub parse_string_span : List ℕ → Option (List ℕ × List ℕ)
unfolding skip_ws span_loop
parse_string_span cursor = elim (skip_ws cursor) [
  | [] ↦ none
  | ch ∷ rest ↦ if ch == b'"' then span_loop rest else none
]

-- The rest of a text behind a prefix: `strncmp(text, prefix, strlen(prefix)) == 0`.
unfoldable pub behind : List ℕ → List ℕ → Option (List ℕ)
behind [] text = some text
behind (p ∷ ps) [] = none
behind (p ∷ ps) (ch ∷ text) = if p == ch then behind ps text else none

-- `strstr`, and the rest behind what it finds.
unfoldable pub find : List ℕ → List ℕ → Option (List ℕ)
unfolding behind
find needle [] = behind needle []
find needle (ch ∷ text) = elim (behind needle (ch ∷ text)) [
  | none ↦ find needle text
  | some rest ↦ some rest
]

unfoldable pub parse_bool : List ℕ → Option (Bool × List ℕ)
unfolding skip_ws behind
parse_bool cursor = elim (behind (codes "true") (skip_ws cursor)) [
  | some rest ↦ some (true, rest)
  | none ↦ elim (behind (codes "false") (skip_ws cursor)) [
    | some rest ↦ some (false, rest)
    | none ↦ none
  ]
]

-- The value of a field that the line names anywhere, white space skipped.
unfoldable pub field_value : List ℕ → List ℕ → Option (List ℕ)
unfolding skip_ws find
field_value line quoted_name = elim (find quoted_name line) [
  | none ↦ none
  | some cursor ↦ elim (skip_ws cursor) [
    | [] ↦ none
    | ch ∷ rest ↦ if ch == b':' then some (skip_ws rest) else none
  ]
]

unfoldable pub method_is : List ℕ → List ℕ → Bool
unfolding field_value parse_string_span
method_is line method = elim (field_value line (codes "\"method\"")) [
  | none ↦ false
  | some cursor ↦ elim (parse_string_span cursor) [
    | none ↦ false
    | some (span, rest) ↦ list_eq span method
  ]
]

-- Whether a span contains a text that is not empty.
pub contains_from : List ℕ → List ℕ → Bool
unfolding behind
contains_from needle [] = false
contains_from needle (ch ∷ span) = elim (behind needle (ch ∷ span)) [
  | some rest ↦ true
  | none ↦ contains_from needle span
]

pub span_contains : List ℕ → List ℕ → Bool
unfolding contains_from
span_contains span needle = if length needle == 0 then false else contains_from needle span

-- `fast_parse_response_success`: the success that the line tells, if it tells one.
unfoldable pub parse_response_success : List ℕ → Option Bool
unfolding field_value behind
parse_response_success line =
    let refused = elim (field_value line (codes "\"error\"")) as (λ x. Bool) [
      | none ↦ false
      | some error ↦ elim (behind (codes "null") error) [ none ↦ true | some rest ↦ false ]
    ] in
    let result = elim (field_value line (codes "\"result\"")) as (λ x. Option Bool) [
      | none ↦ none
      | some result ↦ elim (behind (codes "true") result) [
        | some rest ↦ some true
        | none ↦ elim (behind (codes "false") result) [
          | some rest ↦ some false
          | none ↦ elim (behind (codes "null") result) [ some rest ↦ some false | none ↦ none ]
        ]
      ]
    ] in
    if refused then some false else result

-- `while (*cursor != '\0' && *cursor != ',')`
pub to_comma : List ℕ → List ℕ
to_comma [] = []
to_comma (ch ∷ cursor) = if ch == b',' then ch ∷ cursor else to_comma cursor

-- `fast_reject_reason`
pub reject_reason : List ℕ → Option (List ℕ)
unfolding field_value parse_string_span consume_char to_comma
reject_reason line =
    let listed = elim (field_value line (codes "\"error\"")) as (λ x. Option (List ℕ)) [
      | none ↦ none
      | some cursor ↦ elim (consume_char b'[' cursor) [
        | none ↦ none
        | some items ↦ elim (consume_char b',' (to_comma items)) [
          | none ↦ none
          | some second ↦ elim (parse_string_span second) [
            | none ↦ none
            | some (reason, rest) ↦ some reason
          ]
        ]
      ]
    ] in
    elim (field_value line (codes "\"reject-reason\"")) [
      | none ↦ listed
      | some cursor ↦ elim (parse_string_span cursor) [
        | some (reason, rest) ↦ some reason
        | none ↦ listed
      ]
    ]
