-- ===== src/Http.antt =====
-- The texts of the web server: main/wifi_http.c.
use m45_gamma_firmware.Base.{
  ℕ, ◌+◌, ◌&&◌, ◌||◌, Option, none, some, List, [], ◌∷◌, ◌++◌, ltb, leb, ◌==◌, if◌then◌else◌,
  length,
}
mod Examples
pub mod Escape
pub mod Logs
pub mod Origin
pub mod Reconnect
pub mod Upload

-- What `json_escape` writes for a character behind `out` others.
pub escaped_char : ℕ → ℕ → ℕ → List ℕ
escaped_char dst_size out ch =
    if ((ch == b'"') || (ch == b'\\')) && ltb (out + 2) dst_size
    then b'\\' ∷ ch ∷ []
    else if leb 0x20 ch
    then ch ∷ []
    else []

pub escape_loop : ℕ → ℕ → List ℕ → List ℕ
unfolding escaped_char
escape_loop dst_size out [] = []
escape_loop dst_size out (ch ∷ src) =
    let written = escaped_char dst_size out ch in
    let rest = escape_loop dst_size (out + length written) src in
    if ltb (out + 1) dst_size then written ++ rest else []

-- The string in `dst`, or `none` where nothing is written; a null pointer is read as the empty text.
pub json_escape : ℕ → Option (List ℕ) → Option (List ℕ)
unfolding escape_loop
json_escape dst_size src =
    if dst_size == 0
    then none
    else elim src [ none ↦ some [] | some text ↦ some (escape_loop dst_size 0 text) ]
