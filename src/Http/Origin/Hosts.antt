-- ===== src/Http/Origin/Hosts.antt =====
-- The hosts that main/wifi_http.c compares, as RFC 3986 writes them.
use m45_gamma_firmware.Base.{
  ℕ, ◌≡◌, refl, sym, ap, ◌∙◌, ◌≢◌, ◌↔◌, ◌⊎◌, inl, inr, Bool, true, false, List, [], ◌∷◌, ◌++◌, map,
  arith, ◌==◌,
}
use m45_gamma_firmware.Http.Origin.{lower, contains, http_prefix, https_prefix}
use m45_gamma_firmware.Http.Origin.SameHost.{IsCut, IsSameStart}

-- An IPv6 address stands in brackets.
unfoldable pub is_literal : List ℕ → Bool
is_literal [] = false
is_literal (x ∷ text) = x == b'['

-- The host of an authority, with nothing or a colon and a port behind it: an address in brackets, or
-- a name or an IPv4 address, which has no colon.
pub record HasHost (host authority : List ℕ) : Type 0 where
  pub port : List ℕ
  pub whole : authority ≡ host ++ port
  pub port_text : (port ≡ []) ⊎ ((digits : List ℕ) × (port ≡ b':' ∷ digits))
  pub host_text :
      ((is_literal host ≡ false) × (contains b':' host ≡ false))
      ⊎ ((address : List ℕ) × ((host ≡ b'[' ∷ (address ++ (b']' ∷ [])))
            × (contains b']' address ≡ false)))

-- An origin of a page of the host that the Host header names, by http or https: the hosts are equal
-- up to the case of their letters, and the ports may differ.
pub record IsSameHost (origin host : List ℕ) : Type 0 where
  pub scheme : List ℕ
  pub authority : List ℕ
  pub name : List ℕ
  pub host_name : List ℕ
  pub splits : origin ≡ scheme ++ authority
  pub is_http : (map lower scheme ≡ http_prefix) ⊎ (map lower scheme ≡ https_prefix)
  pub no_path : contains b'/' authority ≡ false
  pub named : HasHost name authority
  pub host_named : HasHost host_name host
  pub not_empty : name ≢ []
  pub same_name : map lower name ≡ map lower host_name

bracket-lower : (x : ℕ) → (x == b'[') ≡ (lower x == b'[')
bracket-lower x = ground arith

is_literal-lower : (a b : List ℕ) → map lower a ≡ map lower b → is_literal a ≡ is_literal b
unfolding is_literal
is_literal-lower [] [] e = refl
is_literal-lower [] (y ∷ b) e = absurd (cc (e))
is_literal-lower (x ∷ a) [] e = absurd (cc (e))
is_literal-lower (x ∷ a) (y ∷ b) e =
    let same : lower x ≡ lower y = cc (e) in
    bracket-lower x ∙ (ap (λ c. c == b'[') same ∙ sym (bracket-lower y))

is_literal-append : (a b : List ℕ) → is_literal (a ++ b) ≡ false → is_literal a ≡ false
unfolding is_literal
is_literal-append [] b e = refl
is_literal-append (x ∷ a) b e = e

is_literal-bracket : (rest : List ℕ) → is_literal (b'[' ∷ rest) ≡ true
unfolding is_literal
is_literal-bracket rest = refl

-- Where the Host header names no IPv6 address, the starts agree exactly where the hosts do.
pub IsSameStart-IsSameHost :
    (origin host : List ℕ)
    → is_literal host ≡ false
    → IsSameStart origin host ↔ IsSameHost origin host
IsSameStart-IsSameHost origin host plain = (to, from)
  where
    plain_host : (host_name port : List ℕ) → host ≡ host_name ++ port → is_literal host_name ≡ false
    plain_host host_name port e = is_literal-append host_name port (ap is_literal (sym e) ∙ plain)

    to : IsSameStart origin host → IsSameHost origin host
    to s =
        let (free, (port, (whole, tail))) = s.named in
        let (host_free, (host_port, (host_whole, host_tail))) = s.host_named in
        let host_plain = plain_host s.host_name host_port host_whole in
        record {
          scheme = s.scheme;
          authority = s.authority;
          name = s.name;
          host_name = s.host_name;
          splits = s.splits;
          is_http = s.is_http;
          no_path = s.no_path;
          named = record {
            port = port;
            whole = whole;
            port_text = tail;
            host_text = inl (is_literal-lower s.name s.host_name s.same_name ∙ host_plain, free);
          };
          host_named = record {
            port = host_port;
            whole = host_whole;
            port_text = host_tail;
            host_text = inl (host_plain, host_free);
          };
          not_empty = s.not_empty;
          same_name = s.same_name;
        }

    cut : (name text : List ℕ) → HasHost name text → is_literal name ≡ false → IsCut name text
    cut name text n not_literal = elim n.host_text [
      | inl (_, free) ↦ (free, (n.port, (n.whole, n.port_text)))
      | inr (address, (e, _)) ↦
          absurd (cc (not_literal, ap is_literal e ∙ is_literal-bracket (address ++ (b']' ∷ []))))
    ]

    from : IsSameHost origin host → IsSameStart origin host
    from s =
        let host_plain = plain_host s.host_name s.host_named.port s.host_named.whole in
        record {
          scheme = s.scheme;
          authority = s.authority;
          name = s.name;
          host_name = s.host_name;
          splits = s.splits;
          is_http = s.is_http;
          no_path = s.no_path;
          named =
              cut s.name s.authority s.named
                (is_literal-lower s.name s.host_name s.same_name ∙ host_plain);
          host_named = cut s.host_name host s.host_named host_plain;
          not_empty = s.not_empty;
          same_name = s.same_name;
        }
