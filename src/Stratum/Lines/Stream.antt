-- ===== src/Stratum/Lines/Stream.antt =====
-- The lines of a stream of bytes, however main/stratum_minimal.c receives it in parts.
use m45_gamma_firmware.Base.{
  ℕ, zero, suc, ◌+◌, ◌*◌, ◌≤◌, ◌<◌, ◌≡◌, refl, sym, ap, ◌∙◌, subst, ◌≢◌, ◌⊎◌, inl, inr, true, false,
  none, some, List, [], ◌∷◌, ◌++◌, append_assoc, arith, ltb, leb, ◌==◌, if◌then◌else◌, leb→le,
  Bool-cases, length, get_or, drop, All, length-append, length-drop,
}
use m45_gamma_firmware.Stratum.Lines.{
  RxBuffer, grow, rx_buffer_reserve, Read, received, line, line_before, without_cr, nothing, failed,
  receive_loop, receive_jsonrpc_line, consume_jsonrpc_line, max_line_size, buffer_size,
}

-- All bytes that are received in parts.
abbrev pub stream : List (List ℕ) → List ℕ
stream [] = []
stream (part ∷ parts) = part ++ stream parts

-- Reads that bring the parts.
abbrev pub reads_of : List (List ℕ) → List Read
reads_of [] = []
reads_of (part ∷ parts) = received part true ∷ reads_of parts

-- No newline.
abbrev pub Unbroken : List ℕ → Type 0
Unbroken l = All (λ ch. ch ≢ 10) l

line_before-newline : (l rest : List ℕ) → Unbroken l → line_before (l ++ (10 ∷ rest)) ≡ some l
unfolding line_before
line_before-newline [] rest unbroken = refl
line_before-newline (ch ∷ l) rest unbroken =
    ground (arith, unbroken.0, line_before-newline l rest unbroken.1)

-- A content that ends before the newline of the stream has no newline.
line_before-none :
    (content more l rest : List ℕ)
    → Unbroken l
    → content ++ more ≡ l ++ (10 ∷ rest)
    → length content ≤ length l
    → line_before content ≡ none
unfolding line_before
line_before-none [] more l rest unbroken e le = refl
line_before-none (ch ∷ content) more [] rest unbroken e le = absurd (omega arith)
line_before-none (ch ∷ content) more (x ∷ l) rest unbroken e le =
    let same : ch ≡ x = ap (λ t. get_or t 0 0) e in
    let apart : (ch == 10) ≡ false = ground (arith, same, unbroken.0) in
    let later = line_before-none content more l rest unbroken.1 (ap (drop 1) e) (omega arith) in
    rw (apart, later) refl

-- A content that goes on behind it has that newline as its first.
line_before-some :
    (content more l rest : List ℕ)
    → Unbroken l
    → content ++ more ≡ l ++ (10 ∷ rest)
    → length l < length content
    → (line_before content ≡ some l) × (drop (suc (length l)) content ++ more ≡ rest)
unfolding line_before
line_before-some [] more l rest unbroken e lt = absurd (omega arith)
line_before-some (ch ∷ content) more [] rest unbroken e lt =
    let same : ch ≡ 10 = ap (λ t. get_or t 0 0) e in
    let newline : (ch == 10) ≡ true = ground (arith, same) in rw newline (refl, ap (drop 1) e)
line_before-some (ch ∷ content) more (x ∷ l) rest unbroken e lt =
    let same : ch ≡ x = ap (λ t. get_or t 0 0) e in
    let apart : (ch == 10) ≡ false = ground (arith, same, unbroken.0) in
    let later = line_before-some content more l rest unbroken.1 (ap (drop 1) e) (omega arith) in
    (rw (apart, later.0) (ap (λ k. some (k ∷ l)) same), later.1)

grow-enough :
    (fuel new_size needed : ℕ)
    → needed ≤ new_size + fuel * 1024
    → needed ≤ grow fuel new_size needed
unfolding grow
grow-enough zero new_size needed le = omega arith
grow-enough (suc fuel) new_size needed le =
    ground (arith, grow-enough fuel (new_size + 1024) needed)

grow-least : (fuel new_size needed : ℕ) → new_size ≤ grow fuel new_size needed
unfolding grow
grow-least zero new_size needed = omega arith
grow-least (suc fuel) new_size needed = ground (arith, grow-least fuel (new_size + 1024) needed)

-- A buffer with room for its content and the zero character.
abbrev pub Roomy : RxBuffer → Type 0
Roomy b = length b.content + 1 ≤ b.size

reserve_ok :
    (b : RxBuffer) (needed : ℕ)
    → needed ≤ max_line_size + 1
    → (b' : RxBuffer) × ((rx_buffer_reserve b needed true ≡ some b')
        × ((b'.content ≡ b.content) × ((needed ≤ b'.size) × (b.size ≤ b'.size))))
unfolding rx_buffer_reserve
reserve_ok b needed le =
    let small : ltb (max_line_size + 1) needed ≡ false = ground arith in
    elim (Bool-cases (leb needed b.size)) [
      | inl e ↦ (b, (rw (small, e) refl, (refl, (leb→le needed b.size e, omega arith))))
      | inr e ↦
          let start : ℕ = if b.size == 0 then buffer_size else b.size in
          (
            record b { size = grow 17 start needed },
            (
              rw (small, e) refl,
              (
                refl,
                (
                  grow-enough 17 start needed (ground arith),
                  ground (arith, grow-least 17 start needed),
                ),
              ),
            ),
          )
    ]

receive_loop-found :
    (reads : List Read) (b : RxBuffer) (l : List ℕ)
    → line_before b.content ≡ some l
    → receive_loop reads b ≡ (b, line (without_cr l) (length l + 1), reads)
unfolding receive_loop
receive_loop-found [] b l e = ground (arith, e)
receive_loop-found (received part allocated ∷ reads) b l e = ground (arith, e)
receive_loop-found (nothing leave idle ∷ reads) b l e = ground (arith, e)
receive_loop-found (failed ∷ reads) b l e = ground (arith, e)

receive_loop-more :
    (part : List ℕ) (reads : List Read) (b b' : RxBuffer)
    → line_before b.content ≡ none
    → rx_buffer_reserve b (length b.content + length part + 1) true ≡ some b'
    → receive_loop (received part true ∷ reads) b
      ≡ receive_loop reads (record b' { content = b.content ++ part })
unfolding receive_loop
receive_loop-more part reads b b' n r = ground (arith, n, r)

-- The line is there, with parts that have not been received.
abbrev Takes : List (List ℕ) → RxBuffer → List ℕ → List ℕ → RxBuffer → List (List ℕ) → Type 0
Takes parts b l rest b' left =
    (receive_loop (reads_of parts) b ≡ (b', line (without_cr l) (length l + 1), reads_of left))
    × ((Roomy b' × (length l + 1 ≤ length b'.content))
        × (drop (length l + 1) b'.content ++ stream left ≡ rest))

at_once :
    (parts : List (List ℕ)) (b : RxBuffer) (l rest : List ℕ)
    → Unbroken l
    → b.content ++ stream parts ≡ l ++ (10 ∷ rest)
    → length l < length b.content
    → Roomy b
    → Takes parts b l rest b parts
at_once parts b l rest unbroken e long roomy =
    let found = line_before-some b.content (stream parts) l rest unbroken e long in
    let next : length l + 1 ≡ suc (length l) = omega arith in
    (
      receive_loop-found (reads_of parts) b l found.0,
      ((roomy, omega arith), ap (λ k. drop k b.content ++ stream parts) next ∙ found.1),
    )

receive_loop-line :
    (parts : List (List ℕ)) (b : RxBuffer) (l rest : List ℕ)
    → Unbroken l
    → b.content ++ stream parts ≡ l ++ (10 ∷ rest)
    → length b.content + length (stream parts) ≤ max_line_size
    → Roomy b
    → (b' : RxBuffer) × ((left : List (List ℕ)) × Takes parts b l rest b' left)
receive_loop-line [] b l rest unbroken e le roomy = (
  b,
  (
    [],
    at_once [] b l rest unbroken e
        (omega
          (arith, ap length e, length-append b.content (stream []), length-append l (10 ∷ rest)))
        roomy,
  ),
)
receive_loop-line (part ∷ parts) b l rest unbroken e le roomy =
    elim (Bool-cases (leb (length b.content) (length l))) [
      | inl short ↦
          let n =
            line_before-none b.content (stream (part ∷ parts)) l rest unbroken e
              (leb→le (length b.content) (length l) short) in
          let total = length-append part (stream parts) in
          let joined = length-append b.content part in
          let (b1, (r, (same, (room, wider)))) =
            reserve_ok b (length b.content + length part + 1) (omega (arith, le, total)) in
          let next : RxBuffer = record b1 { content = b.content ++ part } in
          let (b', (left, (t, ok))) =
            receive_loop-line parts next l rest unbroken
              (append_assoc {A = ℕ} b.content part (stream parts) ∙ e)
              (omega (arith, le, total, joined)) (omega (arith, room, joined)) in
          (b', (left, (receive_loop-more part (reads_of parts) b b1 n r ∙ t, ok)))
      | inr long ↦ (
        b,
        (part ∷ parts, at_once (part ∷ parts) b l rest unbroken e (ground (arith, long)) roomy),
      )
    ]

consume-content :
    (b : RxBuffer) (consumed : ℕ)
    → consumed ≢ 0
    → consumed ≤ length b.content
    → consume_jsonrpc_line b consumed ≡ record b { content = drop consumed b.content }
unfolding consume_jsonrpc_line
consume-content b consumed some_byte le = ground arith

receive_jsonrpc_line-receive_loop :
    (parts : List (List ℕ)) (b b1 : RxBuffer)
    → rx_buffer_reserve b buffer_size true ≡ some b1
    → receive_jsonrpc_line true (reads_of parts) b ≡ receive_loop (reads_of parts) b1
unfolding receive_jsonrpc_line
receive_jsonrpc_line-receive_loop parts b b1 r = ground (arith, r)

-- A line that a pool sends is received as it is, its carriage return cut off, however the stream is
-- cut into parts, as long as the buffer and the parts together have at most 16384 bytes and memory is
-- given; consuming it leaves exactly the rest of the stream, and the buffer never holds more than it
-- has room for, the zero character included.
pub receive_jsonrpc_line_lem :
    (parts : List (List ℕ)) (b : RxBuffer) (l rest : List ℕ)
    → Unbroken l
    → b.content ++ stream parts ≡ l ++ (10 ∷ rest)
    → length b.content + length (stream parts) ≤ max_line_size
    → Roomy b ⊎ (b.content ≡ [])
    → (b' : RxBuffer) × ((left : List (List ℕ)) × ((receive_jsonrpc_line true (reads_of parts) b
            ≡ (b', line (without_cr l) (length l + 1), reads_of left))
          × (((consume_jsonrpc_line b' (length l + 1)).content ++ stream left ≡ rest)
              × Roomy (consume_jsonrpc_line b' (length l + 1)))))
receive_jsonrpc_line_lem parts b l rest unbroken e le roomy =
    let (b1, (r, (same, (room, wider)))) = reserve_ok b buffer_size (omega arith) in
    let roomy1 : Roomy b1 = elim roomy [
      | inl fits ↦ omega (arith, ap (λ t. length t) same)
      | inr none_yet ↦ omega (arith, ap (λ t. length t) same, ap (λ t. length t) none_yet)
    ] in
    let (b', (left, (t, ((roomy', some_left), stays)))) =
      receive_loop-line parts b1 l rest unbroken (ap (λ t. t ++ stream parts) same ∙ e)
        (omega (arith, ap (λ t. length t) same)) roomy1 in
    let consumed = consume-content b' (length l + 1) (omega arith) some_left in
    (
      b',
      (
        left,
        (
          receive_jsonrpc_line-receive_loop parts b b1 r ∙ t,
          (
            ap (λ c. c.content ++ stream left) consumed ∙ stays,
            subst Roomy (sym consumed) (omega (arith, length-drop (length l + 1) b'.content)),
          ),
        ),
      ),
    )
