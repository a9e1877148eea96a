-- ===== src/Stratum/Json.antt =====
-- The JSON that main/stratum_minimal.c writes: the `stratum_append_` functions and the message of
-- `submit_share`.
use m45_gamma_firmware.Base.{
  ℕ, ◌+◌, ◌-◌, ◌/◌, bit_and, Bool, false, ◌||◌, Option, none, some, List, [], ◌∷◌, ◌++◌, ltb, leb,
  ◌==◌, if◌then◌else◌, length,
}
use m45_gamma_firmware.Base.Int.{ℤ}
use m45_gamma_firmware.Hex.{hex_digit, uint32_to_hex8}
use m45_gamma_firmware.Stratum.Text.{codes, ◌>>=◌, print_int}
pub mod Quote
pub mod Reader
pub mod Submit

-- A buffer of `dest_size` bytes with the text up to `*offset`; `none` where the functions return
-- false, after which their callers drop the buffer. The text is a literal or an array.
pub append_text : ℕ → List ℕ → List ℕ → Option (List ℕ)
append_text dest_size dest text =
    if dest_size == 0 || leb dest_size (length dest)
    then none
    else if leb (dest_size - length dest) (length text)
    then none
    else some (dest ++ text)

-- The same with the length of the text as an argument, which is `length text`.
pub append_raw : ℕ → List ℕ → List ℕ → Option (List ℕ)
append_raw dest_size dest text =
    if dest_size == 0 || leb dest_size (length dest)
    then none
    else if leb (dest_size - length dest) (length text)
    then none
    else some (dest ++ text)

pub append_int : ℕ → List ℕ → ℤ → Option (List ℕ)
unfolding append_text
append_int dest_size dest value = append_text dest_size dest (print_int value)

-- A null pointer is read as the empty text.
abbrev pub text_of : Option (List ℕ) → List ℕ
text_of none = []
text_of (some text) = text

-- The `switch` of `stratum_append_json_string`.
pub append_json_char : ℕ → List ℕ → ℕ → Option (List ℕ)
unfolding append_text
append_json_char dest_size dest ch =
    if ch == b'"'
    then append_text dest_size dest (b'\\' ∷ b'"' ∷ [])
    else if ch == b'\\'
    then append_text dest_size dest (b'\\' ∷ b'\\' ∷ [])
    else if ch == 8
    then append_text dest_size dest (b'\\' ∷ b'b' ∷ [])
    else if ch == 12
    then append_text dest_size dest (b'\\' ∷ b'f' ∷ [])
    else if ch == 10
    then append_text dest_size dest (b'\\' ∷ b'n' ∷ [])
    else if ch == 13
    then append_text dest_size dest (b'\\' ∷ b'r' ∷ [])
    else if ch == 9
    then append_text dest_size dest (b'\\' ∷ b't' ∷ [])
    else if ltb ch 0x20
    then append_text dest_size dest
        (b'\\' ∷ b'u' ∷ b'0' ∷ b'0' ∷ hex_digit (ch / 16) ∷ hex_digit (bit_and ch 0x0f) ∷ [])
    else if leb dest_size (length dest + 1)
    then none
    else some (dest ++ ch ∷ [])

pub append_json_chars : ℕ → List ℕ → List ℕ → Option (List ℕ)
unfolding append_json_char
append_json_chars dest_size dest [] = some dest
append_json_chars dest_size dest (ch ∷ text) =
    append_json_char dest_size dest ch >>= λ dest'. append_json_chars dest_size dest' text

pub append_json_string : ℕ → List ℕ → Option (List ℕ) → Option (List ℕ)
unfolding append_text append_json_chars
append_json_string dest_size dest text = append_text dest_size dest (b'"' ∷ []) >>= λ opened.
    append_json_chars dest_size opened (text_of text) >>= λ written.
    append_text dest_size written (b'"' ∷ [])

-- A character that is written as an escape.
unfoldable pub needs_escape : List ℕ → Bool
needs_escape [] = false
needs_escape (ch ∷ text) = ltb ch 0x20 || (ch == b'"') || (ch == b'\\') || needs_escape text

pub append_json_string_fast : ℕ → List ℕ → Option (List ℕ) → Option (List ℕ)
unfolding append_raw append_json_string needs_escape
append_json_string_fast dest_size dest text =
    if needs_escape (text_of text)
    then append_json_string dest_size dest text
    else append_raw dest_size dest (b'"' ∷ []) >>= λ opened.
        append_raw dest_size opened (text_of text) >>= λ written.
        append_raw dest_size written (b'"' ∷ [])

abbrev pub stratum_buffer_size : ℕ
stratum_buffer_size = 1024

-- The message that `submit_share` writes, or `none` where it returns -1: the request, the user, the
-- job's id, extranonce 2 and time as texts, the nonce and the version bits.
pub submit_message :
    ℤ
    → Option (List ℕ)
    → Option (List ℕ)
    → Option (List ℕ)
    → Option (List ℕ)
    → ℕ
    → ℕ
    → Option (List ℕ)
unfolding append_int append_json_string_fast
submit_message request_id pool_user jobid extranonce2 ntime_hex nonce version_bits =
    let size : ℕ = stratum_buffer_size in
    append_text size [] (codes "{\"id\":") >>= λ m1. append_int size m1 request_id >>= λ m2.
    append_text size m2 (codes ",\"method\":\"mining.submit\",\"params\":[") >>= λ m3.
    append_json_string_fast size m3 pool_user >>= λ m4. append_text size m4 (codes ",") >>= λ m5.
    append_json_string_fast size m5 jobid >>= λ m6. append_text size m6 (codes ",") >>= λ m7.
    append_json_string_fast size m7 extranonce2 >>= λ m8. append_text size m8 (codes ",") >>= λ m9.
    append_json_string_fast size m9 ntime_hex >>= λ m10. append_text size m10 (codes ",") >>= λ m11.
    append_json_string_fast size m11 (some (uint32_to_hex8 nonce)) >>= λ m12.
    append_text size m12 (codes ",") >>= λ m13.
    append_json_string_fast size m13 (some (uint32_to_hex8 version_bits)) >>= λ m14.
    append_text size m14 (codes "]}\n")
