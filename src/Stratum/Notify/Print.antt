-- ===== src/Stratum/Notify/Print.antt =====
-- The line of `mining.notify` as a pool sends it, and its spans as main/stratum_minimal.c reads them.
use m45_gamma_firmware.Base.{
  ℕ, zero, suc, ◌≡◌, refl, ap, ◌∙◌, Bool, true, false, Option, none, some, List, [], ◌∷◌, ◌++◌,
  arith, leb, if◌then◌else◌, length, All,
}
use m45_gamma_firmware.Stratum.Text.{codes}
use m45_gamma_firmware.Stratum.Json.{needs_escape}
use m45_gamma_firmware.Stratum.Span.{
  skip_ws, consume_char, span_loop, parse_string_span, parse_bool, field_value,
}
use m45_gamma_firmware.Stratum.Notify.{
  Spans, ◌>>>◌, branches_loop, parse_branches, notify_spans, max_merkle_branches,
}

-- A JSON string with no escapes, in front of what follows it.
abbrev pub string_then : List ℕ → List ℕ → List ℕ
string_then text tail = b'"' ∷ text ++ (b'"' ∷ tail)

abbrev pub Plain : List ℕ → Type 0
Plain text = needs_escape text ≡ false

-- The branches behind the opening bracket.
abbrev pub branches_then : List (List ℕ) → List ℕ → List ℕ
branches_then [] tail = b']' ∷ tail
branches_then (branch ∷ []) tail = string_then branch (b']' ∷ tail)
branches_then (branch ∷ next ∷ branches) tail =
    string_then branch (b',' ∷ branches_then (next ∷ branches) tail)

abbrev pub bool_text : Bool → List ℕ
bool_text true = codes "true"
bool_text false = codes "false"

abbrev pub params_text : Spans → List ℕ
params_text s = string_then s.job_id (
    b','
    ∷ string_then s.prev_block_hash (
        b','
        ∷ string_then s.coinbase_1 (
            b','
            ∷ string_then s.coinbase_2 (
                b','
                ∷ b'['
                ∷ branches_then s.branches (
                    b','
                    ∷ string_then s.version (
                        b','
                        ∷ string_then s.nbits (
                            b','
                            ∷ string_then s.ntime
                                (b',' ∷ bool_text s.clean_jobs ++ codes "]}"))))))))

abbrev pub notify_line : Spans → List ℕ
notify_line s = codes "{\"id\":null,\"method\":\"mining.notify\",\"params\":[" ++ params_text s

span_loop-Plain :
    (text tail : List ℕ) → Plain text → span_loop (text ++ (b'"' ∷ tail)) ≡ some (text, tail)
unfolding span_loop needs_escape
span_loop-Plain [] tail plain = refl
span_loop-Plain (ch ∷ text) tail plain = ground (arith, span_loop-Plain text tail)

string_span-Plain :
    (text tail : List ℕ)
    → Plain text
    → parse_string_span (string_then text tail) ≡ some (text, tail)
unfolding parse_string_span skip_ws
string_span-Plain text tail plain = span_loop-Plain text tail plain

span_then :
    {B : Type 0}
    → (text tail : List ℕ) (f : List ℕ → List ℕ → Option B) → Plain text
    → (parse_string_span (string_then text tail) >>> f) ≡ f text tail
span_then text tail f plain = ap (λ o. o >>> f) (string_span-Plain text tail plain)

branches_loop-branches :
    (room : ℕ) (branch : List ℕ) (branches : List (List ℕ)) (tail : List ℕ)
    → All Plain (branch ∷ branches)
    → branches_loop room (branches_then (branch ∷ branches) tail)
      ≡ (if leb (suc (length branches)) room then some (branch ∷ branches, tail) else none)
unfolding branches_loop skip_ws
branches_loop-branches zero branch branches tail plain = ground arith
branches_loop-branches (suc room) branch [] tail (plain, rest) =
    span_then branch (b']' ∷ tail) _ plain ∙ ground arith
branches_loop-branches (suc room) branch (next ∷ branches) tail (plain, rest) =
    span_then branch (b',' ∷ branches_then (next ∷ branches) tail) _ plain
    ∙ (ap (λ o. with_branch o) (branches_loop-branches room next branches tail rest)
        ∙ longer (leb (suc (length branches)) room) (leb (suc (suc (length branches))) (suc room))
            (ground arith))
  where
    with_branch : Option (List (List ℕ) × List ℕ) → Option (List (List ℕ) × List ℕ)
    with_branch o = o >>> λ found last. some (branch ∷ found, last)

    longer :
        (b c : Bool)
        → b ≡ c
        → with_branch (if b then some (next ∷ branches, tail) else none)
          ≡ (if c then some (branch ∷ next ∷ branches, tail) else none)
    longer true true e = refl
    longer false false e = refl
    longer true false e = absurd (ground arith)
    longer false true e = absurd (ground arith)

parse_branches-branches :
    (branches : List (List ℕ)) (tail : List ℕ)
    → All Plain branches
    → parse_branches (branches_then branches tail)
      ≡ (if leb (length branches) max_merkle_branches then some (branches, tail) else none)
unfolding parse_branches skip_ws
parse_branches-branches [] tail plain = refl
parse_branches-branches (branch ∷ []) tail plain =
    branches_loop-branches max_merkle_branches branch [] tail plain
parse_branches-branches (branch ∷ next ∷ branches) tail plain =
    branches_loop-branches max_merkle_branches branch (next ∷ branches) tail plain

list_then :
    {B : Type 0}
    → (branches : List (List ℕ)) (tail : List ℕ) (f : List (List ℕ) → List ℕ → Option B)
    → All Plain branches
    → (parse_branches (branches_then branches tail) >>> f)
      ≡ (if leb (length branches) max_merkle_branches then f branches tail else none)
list_then branches tail f plain =
    ap (λ o. o >>> f) (parse_branches-branches branches tail plain)
    ∙ whether (leb (length branches) max_merkle_branches)
  where
    whether :
        (b : Bool)
        → ((if b then some (branches, tail) else none) >>> f)
          ≡ (if b then f branches tail else none)
    whether true = refl
    whether false = refl

-- The spans of a line that can be read.
abbrev pub Readable : Spans → Type 0
Readable s =
    ((Plain s.job_id × Plain s.prev_block_hash) × (Plain s.coinbase_1 × Plain s.coinbase_2))
    × (All Plain s.branches × ((Plain s.version × Plain s.nbits) × Plain s.ntime))

bool_last : (b : Bool) (tail : List ℕ) → parse_bool (bool_text b ++ tail) ≡ some (b, tail)
unfolding parse_bool skip_ws
bool_last true tail = refl
bool_last false tail = refl

bool_then :
    {B : Type 0}
    → (b : Bool) (tail : List ℕ) (f : Bool → List ℕ → Option B)
    → (parse_bool (bool_text b ++ tail) >>> f) ≡ f b tail
bool_then b tail f = ap (λ o. o >>> f) (bool_last b tail)

pub notify_spans-notify_line :
    (s : Spans)
    → Readable s
    → notify_spans (notify_line s)
      ≡ (if leb (length s.branches) max_merkle_branches then some s else none)
unfolding notify_spans field_value consume_char skip_ws
notify_spans-notify_line s readable =
    let ((p1, p2), (p3, p4)) = readable.0 in
    let (p5, ((p6, p7), p8)) = readable.1 in
    let t8 = b',' ∷ bool_text s.clean_jobs ++ codes "]}" in
    let t7 = b',' ∷ string_then s.ntime t8 in
    let t6 = b',' ∷ string_then s.nbits t7 in
    let t5 = b',' ∷ string_then s.version t6 in
    let t4 = b',' ∷ b'[' ∷ branches_then s.branches t5 in
    let t3 = b',' ∷ string_then s.coinbase_2 t4 in
    let t2 = b',' ∷ string_then s.coinbase_1 t3 in
    let t1 = b',' ∷ string_then s.prev_block_hash t2 in
    span_then s.job_id t1 _ p1
    ∙ (span_then s.prev_block_hash t2 _ p2
        ∙ (span_then s.coinbase_1 t3 _ p3
            ∙ (span_then s.coinbase_2 t4 _ p4
                ∙ (list_then s.branches t5 _ p5
                    ∙ ap (λ o. if leb (length s.branches) max_merkle_branches then o else none)
                        (span_then s.version t6 _ p6
                          ∙ (span_then s.nbits t7 _ p7
                              ∙ (span_then s.ntime t8 _ p8
                                  ∙ bool_then s.clean_jobs (codes "]}") _)))))))
