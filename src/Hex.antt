-- ===== src/Hex.antt =====
-- The hexadecimal and byte-order helpers of main/utils.c.
use m45_gamma_firmware.Base.{
  ℕ, zero, suc, ◌+◌, ◌-◌, ◌*◌, ◌/◌, ◌%◌, bit_and, bit_or, ◌&&◌, Option, none, some, List, [], ◌∷◌,
  ◌++◌, reverse, ltb, leb, if◌then◌else◌, length, take, drop,
}
pub mod RoundTrip
pub mod Words

-- `HEX_TABLE[digit]` as a character code, for a digit below 16.
abbrev pub hex_digit : ℕ → ℕ
hex_digit d = if ltb d 10 then 0x30 + d else 0x61 + (d - 10)

-- `HEX_VALUES[c]`: 0 for a character that is not a digit.
abbrev pub hex_value : ℕ → ℕ
hex_value c =
    if leb 0x30 c && leb c 0x39
    then c - 0x30
    else if leb 0x61 c && leb c 0x66
    then c - 0x61 + 10
    else if leb 0x41 c && leb c 0x46
    then c - 0x41 + 10
    else 0

unfoldable pub hex_digits : List ℕ → List ℕ
hex_digits [] = []
hex_digits (b ∷ bs) = hex_digit (b / 16) ∷ hex_digit (bit_and b 0x0f) ∷ hex_digits bs

-- The string that `bin2hex` writes with room for `hexlen` characters, the terminator not shown, or
-- `none` where it returns 0 and writes nothing.
unfoldable pub bin2hex : List ℕ → ℕ → Option (List ℕ)
unfolding hex_digits
bin2hex buf hexlen = if leb hexlen (length buf * 2) then none else some (hex_digits buf)

-- The bytes that `hex2bin` writes; `hex` has no zero character.
pub hex2bin : List ℕ → ℕ → List ℕ
hex2bin hex zero = []
hex2bin [] (suc bin_len) = []
hex2bin (c ∷ []) (suc bin_len) = (hex_value c * 16) % 256 ∷ []
hex2bin (c ∷ d ∷ hex) (suc bin_len) =
    bit_or (hex_value c * 16 % 256) (hex_value d) ∷ hex2bin hex bin_len

-- `dest[i] = HEX_TABLE[value & 0x0f]; value >>= 4` for `n` places from the last one down.
unfoldable pub hex8_loop : ℕ → ℕ → List ℕ → List ℕ
hex8_loop zero value dest = dest
hex8_loop (suc n) value dest = hex8_loop n (value / 16) (hex_digit (bit_and value 0x0f) ∷ dest)

unfoldable pub uint32_to_hex8 : ℕ → List ℕ
unfolding hex8_loop
uint32_to_hex8 value = hex8_loop 8 value []

-- The word `s[i]` of a 32-byte array.
abbrev pub word : List ℕ → ℕ → List ℕ
word s i = take 4 (drop (4 * i) s)

-- `d[0] = s[7]` to `d[7] = s[0]`.
unfoldable pub reverse_32bit_words : List ℕ → List ℕ
reverse_32bit_words s =
    word s 7
    ++ (word s 6 ++ (word s 5 ++ (word s 4 ++ (word s 3 ++ (word s 2 ++ (word s 1 ++ word s 0))))))

-- `__builtin_bswap32` on the bytes of a word.
abbrev bswap32 : List ℕ → List ℕ
bswap32 w = reverse w

unfoldable pub swap_loop : ℕ → ℕ → List ℕ → List ℕ
swap_loop zero i bytes = []
swap_loop (suc n) i bytes = bswap32 (word bytes i) ++ swap_loop n (i + 1) bytes

unfoldable pub reverse_endianness_per_word : List ℕ → List ℕ
unfolding swap_loop
reverse_endianness_per_word bytes = swap_loop 8 0 bytes
