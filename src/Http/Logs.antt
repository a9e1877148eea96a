-- ===== src/Http/Logs.antt =====
-- The log of the page without its verbose lines: `filter_normal_logs` of main/wifi_http.c.
use m45_gamma_firmware.Base.{
  ℕ, zero, suc, ◌+◌, ◌-◌, Bool, false, ◌&&◌, ◌||◌, not, List, [], ◌∷◌, ltb, ◌==◌, if◌then◌else◌,
  set, take, drop,
}
use m45_gamma_firmware.Base.Arrays.{memmove}
use m45_gamma_firmware.Stratum.Text.{codes}
use m45_gamma_firmware.Stratum.Span.{span_contains}
pub mod Moves
pub mod Kept

-- `log_line_is_verbose`
pub line_is_verbose : List ℕ → Bool
line_is_verbose [] = false
line_is_verbose (a ∷ []) = false
line_is_verbose (a ∷ b ∷ []) = false
line_is_verbose (a ∷ b ∷ c ∷ l) = (a == b'V') && (b == b' ') && (c == b'(')

-- `line_contains_text` is `span_contains` on a text that is not empty.
pub is_dropped : List ℕ → Bool
unfolding line_is_verbose
is_dropped l =
    (line_is_verbose l && not (span_contains l (codes "share rejected")))
    || span_contains l (codes "share accepted")

-- The length of the first line, its newline included.
pub line_length : List ℕ → ℕ
line_length [] = 0
line_length (ch ∷ body) = if ch == 10 then 1 else suc (line_length body)

-- The loop: the array, `read_pos` and `write_pos`; each round reads a byte at least.
pub filter_loop : ℕ → List ℕ → ℕ → ℕ → ℕ → List ℕ × ℕ
unfolding is_dropped line_length
filter_loop zero body body_len read_pos write_pos = (body, write_pos)
filter_loop (suc fuel) body body_len read_pos write_pos =
    let left = take (body_len - read_pos) (drop read_pos body) in
    let line_len = line_length left in
    let dropped = is_dropped (take line_len left) in
    let moved =
      if dropped || (write_pos == read_pos)
      then body
      else memmove body write_pos read_pos line_len in
    let rest =
      filter_loop fuel moved body_len (read_pos + line_len)
        (if dropped then write_pos else write_pos + line_len) in
    if ltb read_pos body_len then rest else (body, write_pos)

-- The array with the zero character, and the length of the text in it.
pub filter_normal_logs : List ℕ → ℕ → List ℕ × ℕ
unfolding filter_loop
filter_normal_logs body body_len =
    let (filtered, write_pos) = filter_loop body_len body body_len 0 0 in
    (set filtered write_pos 0, write_pos)
