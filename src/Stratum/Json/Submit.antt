-- ===== src/Stratum/Json/Submit.antt =====
-- The message of `submit_share` of main/stratum_minimal.c.
use m45_gamma_firmware.Base.{ℕ, ◌≡◌, ap, ◌∙◌, Option, some, List, [], ◌∷◌, ◌++◌}
use m45_gamma_firmware.Base.Int.{ℤ}
use m45_gamma_firmware.Hex.{uint32_to_hex8}
use m45_gamma_firmware.Stratum.Text.{codes, ◌>>=◌, print_int}
use m45_gamma_firmware.Stratum.Json.{
  append_text, append_int, text_of, append_json_string_fast, stratum_buffer_size, submit_message,
}
use m45_gamma_firmware.Stratum.Json.Quote.{
  fit, quote, append_text-fit, append_json_string_fast-fit, fit-bind,
}

-- JSON strings with commas between them, and what comes after them.
abbrev quoted : List (List ℕ) → List ℕ → List ℕ
quoted [] tail = tail
quoted (text ∷ []) tail = quote text ++ tail
quoted (text ∷ next ∷ texts) tail = quote text ++ (codes "," ++ quoted (next ∷ texts) tail)

-- The request as one text.
abbrev pub request_text : ℤ → List (List ℕ) → List ℕ
request_text request_id params =
    codes "{\"id\":"
    ++ (print_int request_id
        ++ (codes ",\"method\":\"mining.submit\",\"params\":[" ++ quoted params (codes "]}\n")))

module _ (size : ℕ) where
  text_then :
      (xs ys : List ℕ) (f : List ℕ → Option (List ℕ)) (d : List ℕ)
      → ((e : List ℕ) → f e ≡ fit size e ys)
      → (append_text size d xs >>= f) ≡ fit size d (xs ++ ys)
  text_then xs ys f d same =
      ap (λ o. o >>= f) (append_text-fit size d xs) ∙ fit-bind size d xs ys f same

  string_then :
      (text : Option (List ℕ)) (ys : List ℕ) (f : List ℕ → Option (List ℕ)) (d : List ℕ)
      → ((e : List ℕ) → f e ≡ fit size e ys)
      → (append_json_string_fast size d text >>= f) ≡ fit size d (quote (text_of text) ++ ys)
  string_then text ys f d same =
      ap (λ o. o >>= f) (append_json_string_fast-fit size d text)
      ∙ fit-bind size d (quote (text_of text)) ys f same

-- A share is submitted as the JSON-RPC request `mining.submit` with the user, the job, extranonce 2,
-- the time, the nonce and the version bits, the texts escaped, where it fits a buffer of 1024 bytes
-- with its zero character; a longer message is refused whole.
pub submit_message_lem :
    (request_id : ℤ) (pool_user jobid extranonce2 ntime_hex : Option (List ℕ))
    (nonce version_bits : ℕ)
    → submit_message request_id pool_user jobid extranonce2 ntime_hex nonce version_bits
      ≡ fit stratum_buffer_size [] (
          request_text request_id (
            text_of pool_user
            ∷ text_of jobid
            ∷ text_of extranonce2
            ∷ text_of ntime_hex
            ∷ uint32_to_hex8 nonce
            ∷ uint32_to_hex8 version_bits
            ∷ []))
unfolding submit_message append_int
submit_message_lem request_id pool_user jobid extranonce2 ntime_hex nonce version_bits =
    let n : ℕ = stratum_buffer_size in
    let y13 = codes "]}\n" in
    let y12 = quote (uint32_to_hex8 version_bits) ++ y13 in
    let y11 = codes "," ++ y12 in
    let y10 = quote (uint32_to_hex8 nonce) ++ y11 in
    let y9 = codes "," ++ y10 in
    let y8 = quote (text_of ntime_hex) ++ y9 in
    let y7 = codes "," ++ y8 in
    let y6 = quote (text_of extranonce2) ++ y7 in
    let y5 = codes "," ++ y6 in
    let y4 = quote (text_of jobid) ++ y5 in
    let y3 = codes "," ++ y4 in
    let y2 = quote (text_of pool_user) ++ y3 in
    let y1 = codes ",\"method\":\"mining.submit\",\"params\":[" ++ y2 in
    let y0 = print_int request_id ++ y1 in
    text_then n (codes "{\"id\":") y0 _ [] λ d1. text_then n (print_int request_id) y1 _ d1 λ d2.
      text_then n (codes ",\"method\":\"mining.submit\",\"params\":[") y2 _ d2 λ d3.
        string_then n (pool_user) y3 _ d3 λ d4. text_then n (codes ",") y4 _ d4 λ d5.
          string_then n (jobid) y5 _ d5 λ d6. text_then n (codes ",") y6 _ d6 λ d7.
            string_then n (extranonce2) y7 _ d7 λ d8. text_then n (codes ",") y8 _ d8 λ d9.
              string_then n (ntime_hex) y9 _ d9 λ d10. text_then n (codes ",") y10 _ d10 λ d11.
                string_then n (some (uint32_to_hex8 nonce)) y11 _ d11 λ d12.
                  text_then n (codes ",") y12 _ d12 λ d13.
                    string_then n (some (uint32_to_hex8 version_bits)) y13 _ d13
                      λ d14. append_text-fit n d14 (codes "]}\n")
