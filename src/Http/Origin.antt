-- ===== src/Http/Origin.antt =====
-- The test of a browser's origin before a request is handled:
-- `request_has_disallowed_browser_origin` of main/wifi_http.c. Texts are lists of characters
-- without the zero at their end.
use m45_gamma_firmware.Base.{
  ℕ, ◌+◌, Bool, true, false, ◌&&◌, ◌||◌, not, Option, none, some, List, [], ◌∷◌, map, ltb, leb,
  ◌==◌, if◌then◌else◌, length, take, drop, list_eq,
}
use m45_gamma_firmware.Stratum.Text.{codes}
mod Examples
pub mod SameHost
pub mod Hosts
pub mod Allowed

-- `tolower` of a character of ASCII.
abbrev pub lower : ℕ → ℕ
lower c = if leb b'A' c && leb c b'Z' then c + 32 else c

-- `strncasecmp(a, b, n) == 0` where `b` has n characters at least, or both are as long.
abbrev pub same_start : ℕ → List ℕ → List ℕ → Bool
same_start n a b = list_eq (map lower (take n a)) (map lower (take n b))

-- `strchr(text, c) != NULL`
pub contains : ℕ → List ℕ → Bool
contains c [] = false
contains c (x ∷ text) = (x == c) || contains c text

-- The characters before the first colon.
pub before_colon : List ℕ → List ℕ
before_colon [] = []
before_colon (x ∷ text) = if x == b':' then [] else x ∷ before_colon text

abbrev pub http_prefix : List ℕ
http_prefix = codes "http://"

abbrev pub https_prefix : List ℕ
https_prefix = codes "https://"

-- `authority`, or `none` where the scheme is another.
pub authority_of : List ℕ → Option (List ℕ)
authority_of origin =
    if same_start 7 origin http_prefix
    then some (drop 7 origin)
    else if same_start 8 origin https_prefix
    then some (drop 8 origin)
    else none

-- The comparison of an authority with the host, without their ports.
pub authority_matches : List ℕ → List ℕ → Bool
unfolding contains before_colon
authority_matches authority host =
    let name = before_colon authority in
    let host_name = before_colon host in
    not (length authority == 0)
    && (not (contains b'/' authority)
        && (not (length name == 0)
            && (not (length host_name == 0)
                && (length name == length host_name && same_start (length name) authority host))))

pub http_origin_authority_matches_host : List ℕ → List ℕ → Bool
unfolding authority_of authority_matches
http_origin_authority_matches_host origin host = elim (authority_of origin) [
  | none ↦ false
  | some authority ↦ authority_matches authority host
]

-- The headers of a request, empty where they are missing, and whether the server could copy Origin
-- and Host.
pub record Headers : Type 0 where
  pub sec_fetch_site : List ℕ
  pub origin : List ℕ
  pub host : List ℕ
  pub copied : Bool

-- `http_header_equals` for a value that the server can copy.
abbrev pub header_equals : List ℕ → List ℕ → Bool
header_equals value expected =
    length value == length expected
    && (ltb (length value) 32 && list_eq (map lower value) (map lower expected))

pub request_has_disallowed_browser_origin : Headers → Bool
unfolding http_origin_authority_matches_host
request_has_disallowed_browser_origin h =
    if header_equals h.sec_fetch_site (codes "cross-site")
    then true
    else if length h.origin == 0
    then false
    else if leb 192 (length h.origin) || length h.host == 0 || leb 128 (length h.host)
    then true
    else if not h.copied
    then true
    else not (http_origin_authority_matches_host h.origin h.host)
