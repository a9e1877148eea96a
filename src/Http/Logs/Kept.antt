-- ===== src/Http/Logs/Kept.antt =====
-- What is left of a log in main/wifi_http.c.
use m45_gamma_firmware.Base.{
  ℕ, zero, suc, ◌+◌, ◌-◌, ◌≤◌, ◌<◌, ◌≡◌, refl, sym, ap, ap₂, ◌∙◌, subst, ◌≢◌, inl, inr, Bool, true,
  false, ◌||◌, List, [], ◌∷◌, ◌++◌, append-nil, append_assoc, arith, ltb, ◌==◌, if◌then◌else◌,
  ltb→lt, ==_iff, Bool-cases, length, take, drop, length-take, length-drop,
}
use m45_gamma_firmware.Base.Arrays.{memmove, take-set, take-take, length-memmove}
use m45_gamma_firmware.Http.Logs.{is_dropped, line_length, filter_loop, filter_normal_logs}
use m45_gamma_firmware.Http.Logs.Moves.{
  take-memmove, drop-memmove, lines_of-first, line_length-bounds, take-drop, left_of, left-step,
  lines_of, kept,
}

-- The array after a line, which is kept or not.
abbrev moved_of : Bool → List ℕ → ℕ → ℕ → ℕ → List ℕ
moved_of dropped body write_pos read_pos n =
    if dropped || (write_pos == read_pos) then body else memmove body write_pos read_pos n

moved_lem :
    (dropped : Bool) (body : List ℕ) (body_len write_pos read_pos n : ℕ)
    → write_pos ≤ read_pos
    → read_pos + n ≤ body_len
    → body_len ≤ length body
    → ((take
            (if dropped then write_pos else write_pos + n)
            (moved_of dropped body write_pos read_pos n)
          ≡ take write_pos body
            ++ (if dropped then [] else take n (left_of body body_len read_pos)))
        × (drop (read_pos + n) (moved_of dropped body write_pos read_pos n)
            ≡ drop (read_pos + n) body))
      × (length (moved_of dropped body write_pos read_pos n) ≡ length body)
moved_lem true body body_len write_pos read_pos n le fits enough =
    ((sym (append-nil {A = ℕ} (take write_pos body)), refl), refl)
moved_lem false body body_len write_pos read_pos n le fits enough =
    let line = take-take n (body_len - read_pos) (drop read_pos body) (omega arith) in
    elim (Bool-cases (write_pos == read_pos)) [
      | inl e ↦
          let same : write_pos ≡ read_pos = (==_iff write_pos read_pos).0 e in
          rw e (
            (
              take-drop write_pos n body
                  ∙ ap (λ t. take write_pos body ++ t)
                      (ap (λ k. take n (drop k body)) same ∙ sym line),
              refl,
            ),
            refl,
          )
      | inr e ↦ rw e (
        (
          take-memmove body write_pos read_pos n le (omega arith)
              ∙ ap (λ t. take write_pos body ++ t) (sym line),
          drop-memmove body write_pos read_pos n le (omega arith),
        ),
        length-memmove body write_pos read_pos n le (omega arith),
      )
    ]

filter_loop-more :
    (fuel : ℕ) (body : List ℕ) (body_len read_pos write_pos : ℕ)
    → read_pos < body_len
    → filter_loop (suc fuel) body body_len read_pos write_pos
      ≡ filter_loop fuel
          (moved_of
            (is_dropped (
              take (line_length (left_of body body_len read_pos)) (left_of body body_len read_pos)))
            body
            write_pos
            read_pos
            (line_length (left_of body body_len read_pos)))
          body_len
          (read_pos + line_length (left_of body body_len read_pos))
          (if is_dropped
              (take (line_length (left_of body body_len read_pos)) (left_of body body_len read_pos))
            then write_pos
            else write_pos + line_length (left_of body body_len read_pos))
unfolding filter_loop
filter_loop-more fuel body body_len read_pos write_pos lt = ground arith

Filtered : List ℕ × ℕ → List ℕ → ℕ → Type 0
Filtered (filtered, end) text body_len = (take end filtered ≡ text) × (end ≤ body_len)

filter_loop-end :
    (fuel : ℕ) (body : List ℕ) (body_len read_pos write_pos : ℕ)
    → ltb read_pos body_len ≡ false
    → filter_loop (suc fuel) body body_len read_pos write_pos ≡ (body, write_pos)
unfolding filter_loop
filter_loop-end fuel body body_len read_pos write_pos e = ground (arith, e)

at_end :
    (body : List ℕ) (body_len read_pos write_pos : ℕ)
    → body_len ≤ read_pos
    → write_pos ≤ body_len
    → Filtered
        (body, write_pos)
        (take write_pos body ++ kept (lines_of (left_of body body_len read_pos)))
        body_len
unfolding Filtered kept lines_of
at_end body body_len read_pos write_pos done le =
    let e : 0 ≡ body_len - read_pos = omega arith in
    (
      sym (append-nil {A = ℕ} (take write_pos body))
          ∙ ap (λ k. take write_pos body ++ kept (lines_of (take k (drop read_pos body)))) e,
      le,
    )

kept-first :
    (text : List ℕ)
    → length text ≢ 0
    → (kept (lines_of text)
        ≡ (if is_dropped (take (line_length text) text) then [] else take (line_length text) text)
          ++ kept (lines_of (drop (line_length text) text)))
      × ((1 ≤ line_length text) × (line_length text ≤ length text))
unfolding kept
kept-first [] some_text = absurd (some_text refl)
kept-first (ch ∷ text) some_text = (ap kept (lines_of-first ch text), line_length-bounds ch text)

write_next_le :
    (dropped : Bool) (write_pos read_pos n : ℕ)
    → write_pos ≤ read_pos
    → (if dropped then write_pos else write_pos + n) ≤ read_pos + n
write_next_le true write_pos read_pos n le = omega arith
write_next_le false write_pos read_pos n le = omega arith

filter_loop-kept :
    (fuel : ℕ) (body : List ℕ) (body_len read_pos write_pos : ℕ)
    → write_pos ≤ read_pos
    → read_pos ≤ body_len
    → body_len ≤ length body
    → body_len ≤ read_pos + fuel
    → Filtered
        (filter_loop fuel body body_len read_pos write_pos)
        (take write_pos body ++ kept (lines_of (left_of body body_len read_pos)))
        body_len
unfolding Filtered filter_loop
filter_loop-kept zero body body_len read_pos write_pos le fits enough fuel_ok =
    at_end body body_len read_pos write_pos (omega arith) (omega arith)
filter_loop-kept (suc fuel) body body_len read_pos write_pos le fits enough fuel_ok =
    let left : List ℕ = left_of body body_len read_pos in
    let n : ℕ = line_length left in
    let dropped : Bool = is_dropped (take n left) in
    let moved : List ℕ = moved_of dropped body write_pos read_pos n in
    let write_next : ℕ = if dropped then write_pos else write_pos + n in
    elim (Bool-cases (ltb read_pos body_len)) [
      | inr e ↦
          subst (λ r. Filtered r (take write_pos body ++ kept (lines_of left)) body_len)
            (sym (filter_loop-end fuel body body_len read_pos write_pos e))
            (at_end body body_len read_pos write_pos (ground arith) (omega arith))
      | inl e ↦
          let lt : read_pos < body_len = ltb→lt read_pos body_len e in
          let size : length left ≡ body_len - read_pos = omega (
            arith,
            length-take (body_len - read_pos) (drop read_pos body),
            length-drop read_pos body,
          ) in
          let (first, (low, high)) = kept-first left (omega (arith, size)) in
          let (starts, same_size) =
            moved_lem dropped body body_len write_pos read_pos n le (omega (arith, high, size))
              enough in
          let rest =
            filter_loop-kept fuel moved body_len (read_pos + n) write_next
              (write_next_le dropped write_pos read_pos n le) (omega (arith, high, size))
              (omega (arith, same_size)) (omega (arith, low)) in
          let unread : left_of moved body_len (read_pos + n) ≡ drop n left =
            ap (take (body_len - (read_pos + n))) starts.1
            ∙ sym (left-step body body_len read_pos n) in
          subst (λ r. Filtered r (take write_pos body ++ kept (lines_of left)) body_len)
            (sym (filter_loop-more fuel body body_len read_pos write_pos lt))
            (
              rest.0
                  ∙ (ap₂ (λ t u. t ++ kept (lines_of u)) starts.0 unread
                      ∙ (append_assoc {A = ℕ} (take write_pos body)
                            (if dropped then [] else take n left) (kept (lines_of (drop n left)))
                          ∙ ap (λ t. take write_pos body ++ t) (sym first))),
              rest.1,
            )
    ]

-- Where the array is longer than the log, it begins after filtering with exactly the lines of the
-- log that are not dropped, in their order, and the length returned is at most the log's.
pub filter_normal_logs_lem :
    (body : List ℕ) (body_len : ℕ)
    → body_len < length body
    → (take (filter_normal_logs body body_len).1 (filter_normal_logs body body_len).0
        ≡ kept (lines_of (take body_len body)))
      × ((filter_normal_logs body body_len).1 ≤ body_len)
unfolding filter_normal_logs Filtered
filter_normal_logs_lem body body_len lt =
    let whole : body_len - 0 ≡ body_len = omega arith in
    let (filtered, bound) =
      filter_loop-kept body_len body body_len 0 0 (omega arith) (omega arith) (omega arith)
        (omega arith) in
    (
      take-set (filter_loop body_len body body_len 0 0).1 (filter_loop body_len body body_len 0 0).0
            (filter_loop body_len body body_len 0 0).1 0 (omega arith)
          ∙ (filtered ∙ ap (λ k. kept (lines_of (take k body))) whole),
      bound,
    )
