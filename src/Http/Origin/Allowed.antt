-- ===== src/Http/Origin/Allowed.antt =====
-- Which requests main/wifi_http.c handles.
use m45_gamma_firmware.Base.{
  ℕ, ◌<◌, ◌≡◌, refl, sym, ap, ◌∙◌, ◌≢◌, ◌↔◌, ◌⊎◌, inl, inr, Bool, true, false, ◌||◌, not, List, [],
  ◌∷◌, map, arith, leb, ◌==◌, if◌then◌else◌, Bool-cases, length, length-append, list_eq, list_eq→eq,
}
use m45_gamma_firmware.Stratum.Text.{codes}
use m45_gamma_firmware.Http.Origin.{
  lower, http_origin_authority_matches_host, Headers, header_equals,
  request_has_disallowed_browser_origin,
}
use m45_gamma_firmware.Http.Origin.Hosts.{is_literal, IsSameHost, IsSameStart-IsSameHost}
use m45_gamma_firmware.Http.Origin.SameHost.{
  positive, length-lower, IsSameStart, http_origin_authority_matches_host_iff,
}

-- A request that is not marked as coming from another site, and that has no origin or one with the
-- host it is sent to, whatever the ports, both short enough to be copied.
abbrev pub IsAllowed : Headers → Type 0
IsAllowed h =
    (map lower h.sec_fetch_site ≢ codes "cross-site")
    × ((h.origin ≡ [])
        ⊎ ((length h.origin < 192)
            × (length h.host < 128)
            × (h.copied ≡ true)
            × IsSameHost h.origin h.host))

header_equals_iff :
    (value : List ℕ)
    → (header_equals value (codes "cross-site") ≡ true) ↔ (map lower value ≡ codes "cross-site")
header_equals_iff value = (
  (λ h. list_eq→eq (map lower value) (codes "cross-site") (ground (arith, h))),
  (λ e.
      let size : length value ≡ 10 = sym (length-lower value) ∙ ap length e in
      let same : list_eq (map lower value) (codes "cross-site") ≡ true =
        ap (λ t. list_eq t (codes "cross-site")) e in
      rw (size, same) refl),
)

empty_of : (text : List ℕ) → (length text == 0) ≡ true → text ≡ []
empty_of [] h = refl
empty_of (x ∷ text) h = absurd (ground (arith, h))

named_host : (origin host : List ℕ) → IsSameStart origin host → 0 < length host
named_host origin host s =
    let same_length : length s.name ≡ length s.host_name =
      sym (length-lower s.name) ∙ (ap length s.same_name ∙ length-lower s.host_name) in
    omega (
      arith,
      positive s.name s.not_empty,
      same_length,
      ap length (s.host_named.1.1.0),
      length-append s.host_name (s.host_named.1.0),
    )

passes :
    {cross copied matches : Bool} (origin_len host_len : ℕ)
    → cross ≡ false
    → origin_len < 192
    → host_len < 128
    → 0 < host_len
    → copied ≡ true
    → matches ≡ true
    → (if cross
        then true
        else if origin_len == 0
        then false
        else if leb 192 origin_len || host_len == 0 || leb 128 host_len
        then true
        else if not copied
        then true
        else not matches)
      ≡ false
passes origin_len host_len cross short short_host some_host copied matches =
    rw (cross, copied, matches) (ground arith)

-- A request to a host that is no IPv6 address gets past the test exactly where it is not marked as
-- coming from another site and has no origin, or one by http or https without a path, whose host is
-- the one that the request asks, up to the case of the letters. The ports are not compared.
pub request_iff :
    (h : Headers)
    → is_literal h.host ≡ false
    → (request_has_disallowed_browser_origin h ≡ false) ↔ IsAllowed h
unfolding request_has_disallowed_browser_origin
request_iff h plain = (to, from)
  where
    is_refused : Bool
    is_refused =
        if header_equals h.sec_fetch_site (codes "cross-site")
        then true
        else if length h.origin == 0
        then false
        else if leb 192 (length h.origin) || length h.host == 0 || leb 128 (length h.host)
        then true
        else if not h.copied
        then true
        else not (http_origin_authority_matches_host h.origin h.host)

    to : is_refused ≡ false → IsAllowed h
    to t =
        let not_cross : header_equals h.sec_fetch_site (codes "cross-site") ≡ false =
          ground (arith, t) in
        let differs : map lower h.sec_fetch_site ≢ codes "cross-site" =
          λ e. cc (not_cross, (header_equals_iff h.sec_fetch_site).1 e) in
        elim (Bool-cases (length h.origin == 0)) [
          | inl e ↦ (differs, inl (empty_of h.origin e))
          | inr e ↦ (
            differs,
            inr (
              ground (arith, t, e),
              ground (arith, t, e),
              ground (arith, t, e),
              (IsSameStart-IsSameHost h.origin h.host plain).0 (
                  (http_origin_authority_matches_host_iff h.origin h.host).0
                    (ground (arith, t, e))),
            ),
          )
        ]

    not_cross_site :
        map lower h.sec_fetch_site ≢ codes "cross-site"
        → header_equals h.sec_fetch_site (codes "cross-site") ≡ false
    not_cross_site differs =
        elim (Bool-cases (header_equals h.sec_fetch_site (codes "cross-site"))) [
          | inl e ↦ absurd (differs ((header_equals_iff h.sec_fetch_site).0 e))
          | inr e ↦ e
        ]

    from : IsAllowed h → is_refused ≡ false
    from (differs, inl e) = rw (not_cross_site differs, ap length e) refl
    from (differs, inr (short, short_host, copied, same_host)) =
        let same = (IsSameStart-IsSameHost h.origin h.host plain).1 same_host in
        let matches = (http_origin_authority_matches_host_iff h.origin h.host).1 same in
        passes (length h.origin) (length h.host) (not_cross_site differs) short short_host
          (named_host h.origin h.host same) copied matches
