-- ===== src/LogBuffer.antt =====
-- The in-memory log, main/m45_log_buffer.c: a ring of M45_LOG_BUFFER_SIZE bytes that lives while it is read.
use m45_gamma_firmware.Base.{
  ℕ, ◌+◌, ◌-◌, ◌*◌, ◌%◌, ◌^◌, Bool, true, false, ◌||◌, not, Option, none, some, List, [], ◌∷◌, ◌++◌,
  ltb, leb, ◌==◌, if◌then◌else◌, length, take, drop,
}
pub mod Stream
pub mod Readers
mod Examples
use m45_gamma_firmware.Base.Arrays.{memcpy}

abbrev pub buffer_size : ℕ
buffer_size = 16384

abbrev line_max : ℕ
line_max = 512

-- `g_log_buffer` (none for null), `g_log_seq` and `g_log_capture_until_us`.
pub record LogState : Type 0 where
  pub buffer : Option (List ℕ)
  pub seq : ℕ
  pub capture_until_us : ℕ

-- `release_log_buffer` at the time `now_us`: the new state, and the delay with which the timer is
-- started again, if it exists.
unfoldable pub release_log_buffer : LogState → Bool → ℕ → LogState × Option ℕ
release_log_buffer s has_timer now_us =
    if ltb now_us s.capture_until_us
    then (s, if has_timer then some (s.capture_until_us - now_us) else none)
    else (record { buffer = none; seq = 0; capture_until_us = 0 }, none)

pub log_capture_active : LogState → ℕ → Bool
log_capture_active s now_us = elim s.buffer [
  | none ↦ false
  | some _ ↦ ltb now_us s.capture_until_us
]

-- The two `memcpy` of `append_log_bytes`, `len` at most the size of the ring.
pub write_ring : List ℕ → ℕ → List ℕ → List ℕ
write_ring ring offset bytes =
    let len = length bytes in
    let first = if ltb len (buffer_size - offset) then len else buffer_size - offset in
    let head = memcpy ring offset (take first bytes) in
    if ltb first len then memcpy head 0 (drop first bytes) else head

-- A null pointer has no bytes.
pub append_log_bytes : LogState → List ℕ → LogState
append_log_bytes s bytes =
    let kept =
      if ltb buffer_size (length bytes) then drop (length bytes - buffer_size) bytes else bytes in
    if length bytes == 0 then s else elim s.buffer [
      | none ↦ s
      | some ring ↦ record s {
        buffer = some (write_ring ring (s.seq % buffer_size) kept);
        seq = (s.seq + length kept) % 2 ^ 64;
      }
    ]

-- `m45_log_vprintf` at the time `now_us`; the text is what `vsnprintf` would print with room enough.
-- Its own line buffer keeps 511 bytes.
unfoldable pub log_vprintf : LogState → ℕ → List ℕ → LogState
unfolding append_log_bytes log_capture_active
log_vprintf s now_us text =
    if not (log_capture_active s now_us)
    then s
    else if ltb 0 (length text)
    then append_log_bytes s (if ltb (length text) line_max then text else take (line_max - 1) text)
    else s

-- The line that `m45_log_buffer_append_verbose` builds from the two formatted parts, without the
-- case of a prefix that fills the line.
pub verbose_line : List ℕ → List ℕ → List ℕ
verbose_line prefix message =
    let space = line_max - length prefix in
    let line =
      prefix ++ (if ltb (length message) space then message else take (space - 1) message) in
    if ltb (length line + 1) line_max
    then line ++ (10 ∷ [])
    else take (line_max - 2) line ++ (10 ∷ [])

unfoldable pub append_verbose : LogState → ℕ → List ℕ → List ℕ → LogState
unfolding append_log_bytes log_capture_active verbose_line
append_verbose s now_us prefix message =
    if not (log_capture_active s now_us)
    then s
    else if leb line_max (length prefix)
    then s
    else append_log_bytes s (verbose_line prefix message)

-- The first critical section of `m45_log_buffer_keep_active`.
unfoldable pub needs_buffer : LogState → Bool
needs_buffer s = elim s.buffer [ none ↦ true | some _ ↦ false ]

-- The rest of it, on the state that it finds in its second critical section: `needed` is what the
-- first one saw, and `fresh` the result of `malloc`.
unfoldable pub keep_active : LogState → Bool → Option (List ℕ) → ℕ → ℕ → LogState
keep_active s needed fresh now_us timeout_ms =
    let active_until_us = now_us + timeout_ms * 1000 in
    let given = if needed then fresh else none in
    let next : LogState = elim s.buffer [
      | none ↦ record { buffer = given; seq = 0; capture_until_us = active_until_us }
      | some ring ↦ record s { capture_until_us = active_until_us }
    ] in
    if needed then elim fresh [ none ↦ s | some _ ↦ next ] else next

-- The two `memcpy` of `m45_log_buffer_copy_since`.
read_ring : List ℕ → ℕ → ℕ → List ℕ
read_ring ring offset copy_len =
    let first = if ltb copy_len (buffer_size - offset) then copy_len else buffer_size - offset in
    take first (drop offset ring)
    ++ (if ltb first copy_len then take (copy_len - first) ring else [])

-- The text copied, `*next_seq` and `*truncated`.
pub record Copied : Type 0 where
  pub text : List ℕ
  pub next_seq : ℕ
  pub truncated : Bool

-- Where the copy starts before the room in `dst` is looked at, and whether that loses text.
pub start_since : ℕ → ℕ → ℕ × Bool
start_since end_seq since_seq =
    if since_seq == 0 || ltb ((since_seq + buffer_size) % 2 ^ 64) end_seq
    then (if ltb buffer_size end_seq then end_seq - buffer_size else 0, not (since_seq == 0))
    else if ltb end_seq since_seq
    then (end_seq, false)
    else (since_seq, false)

pub copy_ring : List ℕ → ℕ → ℕ → ℕ → Copied
unfolding read_ring start_since
copy_ring ring end_seq since_seq dst_size =
    let (start_seq, was_truncated) = start_since end_seq since_seq in
    let available = end_seq - start_seq in
    let copy_len = if ltb available (dst_size - 1) then available else dst_size - 1 in
    let cut = ltb copy_len available in
    let from = if cut then end_seq - copy_len else start_seq in
    record {
      text = read_ring ring (from % buffer_size) copy_len;
      next_seq = end_seq;
      truncated = if cut then true else was_truncated;
    }

-- A null `dst` is one of size 0.
pub copy_since : LogState → ℕ → ℕ → Copied
copy_since s since_seq dst_size =
    let nothing : Copied = record { text = []; next_seq = 0; truncated = false } in
    if dst_size == 0
    then nothing
    else elim s.buffer [ none ↦ nothing | some ring ↦ copy_ring ring s.seq since_seq dst_size ]
