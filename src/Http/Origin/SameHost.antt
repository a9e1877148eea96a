-- ===== src/Http/Origin/SameHost.antt =====
-- Which browser origins main/wifi_http.c lets through.
use m45_gamma_firmware.Base.{
  ℕ, zero, suc, ◌<◌, ◌≡◌, refl, sym, ap, ap₂, ◌∙◌, subst, ◌≢◌, ◌↔◌, ◌⊎◌, inl, inr, true, false,
  none, some, List, [], ◌∷◌, ◌++◌, map, map-append, arith, ◌==◌, ==_iff, Bool-cases, Option-cases,
  length, take, drop, length-append, take-append-drop, take-append, drop-append, list_eq,
  list_eq_refl, list_eq→eq,
}
use m45_gamma_firmware.Http.Origin.{
  lower, same_start, contains, before_colon, http_prefix, https_prefix, authority_of,
  authority_matches, http_origin_authority_matches_host,
}

-- A text without a colon, with nothing or a colon and more behind it.
abbrev pub IsCut : List ℕ → List ℕ → Type 0
IsCut name text =
    (contains b':' name ≡ false)
    × ((port : List ℕ) × ((text ≡ name ++ port)
          × ((port ≡ []) ⊎ ((digits : List ℕ) × (port ≡ b':' ∷ digits)))))

-- A scheme, and behind it up to the first colon what the Host header has up to its first colon, up
-- to the case of the letters. A colon in an IPv6 address cuts it off as a port.
pub record IsSameStart (origin host : List ℕ) : Type 0 where
  pub scheme : List ℕ
  pub authority : List ℕ
  pub name : List ℕ
  pub host_name : List ℕ
  pub splits : origin ≡ scheme ++ authority
  pub is_http : (map lower scheme ≡ http_prefix) ⊎ (map lower scheme ≡ https_prefix)
  pub no_path : contains b'/' authority ≡ false
  pub named : IsCut name authority
  pub host_named : IsCut host_name host
  pub not_empty : name ≢ []
  pub same_name : map lower name ≡ map lower host_name

before_colon-IsCut : (text : List ℕ) → IsCut (before_colon text) text
unfolding before_colon contains
before_colon-IsCut [] = (refl, ([], (refl, inl refl)))
before_colon-IsCut (x ∷ text) =
    let (free, (port, (e, tail))) = before_colon-IsCut text in
    elim (Bool-cases (x == b':')) [
      | inl c ↦
          let colon : x ≡ b':' = (==_iff x b':').0 c in
          rw c (refl, (x ∷ text, (refl, inr (text, ap (λ y. y ∷ text) colon))))
      | inr c ↦ rw c (rw c free, (port, (ap (λ t. x ∷ t) e, tail)))
    ]

IsCut-before_colon :
    (name port : List ℕ)
    → contains b':' name ≡ false
    → (port ≡ []) ⊎ ((digits : List ℕ) × (port ≡ b':' ∷ digits))
    → before_colon (name ++ port) ≡ name
unfolding before_colon contains
IsCut-before_colon [] port free (inl e) = subst (λ t. before_colon t ≡ []) (sym e) refl
IsCut-before_colon [] port free (inr (digits, e)) = subst (λ t. before_colon t ≡ []) (sym e) refl
IsCut-before_colon (x ∷ name) port free tail = elim (Bool-cases (x == b':')) [
  | inl c ↦ absurd (ground (arith, c))
  | inr c ↦ rw c (ap (λ t. x ∷ t) (IsCut-before_colon name port (rw c at free) tail))
]

named_before : (name text : List ℕ) → IsCut name text → before_colon text ≡ name
named_before name text (free, (port, (e, tail))) =
    ap before_colon e ∙ IsCut-before_colon name port free tail

named_take : (name text : List ℕ) → IsCut name text → take (length name) text ≡ name
named_take name text (free, (port, (e, tail))) =
    ap (take (length name)) e ∙ take-append name port (length name) refl

pub length-lower : (text : List ℕ) → length (map lower text) ≡ length text
length-lower [] = refl
length-lower (x ∷ text) = ap suc (length-lower text)

take-lower : (n : ℕ) (text : List ℕ) → map lower (take n text) ≡ take n (map lower text)
take-lower zero text = refl
take-lower (suc n) [] = refl
take-lower (suc n) (x ∷ text) = ap (λ t. lower x ∷ t) (take-lower n text)

same_start_iff :
    (name host_name authority host : List ℕ)
    → take (length name) authority ≡ name
    → take (length name) host ≡ host_name
    → (same_start (length name) authority host ≡ true) ↔ (map lower name ≡ map lower host_name)
same_start_iff name host_name authority host e f = (
  (λ h. sym (ap (map lower) e) ∙ (list_eq→eq _ _ h ∙ ap (map lower) f)),
  (λ h.
      ap₂ (λ a b. list_eq (map lower a) (map lower b)) e f
      ∙ (ap (λ t. list_eq t (map lower host_name)) h ∙ list_eq_refl (map lower host_name))),
)

not_zero : (text : List ℕ) → (length text == 0) ≡ false → text ≢ []
not_zero text h e = absurd (ground (arith, ap length e))

pub positive : (text : List ℕ) → text ≢ [] → 0 < length text
positive [] h = absurd (h refl)
positive (x ∷ text) h = omega arith

-- An authority that matches is a name with the host's name in it.
module _ (authority host : List ℕ) where
  authority_matches-parts :
      authority_matches authority host ≡ true
      → (contains b'/' authority ≡ false)
        × ((before_colon authority ≢ [])
            × (map lower (before_colon authority) ≡ map lower (before_colon host)))
  unfolding authority_matches
  authority_matches-parts h =
      let name : List ℕ = before_colon authority in
      let host_name : List ℕ = before_colon host in
      let same_length : length name ≡ length host_name = ground (arith, h) in
      let start : same_start (length name) authority host ≡ true = ground (arith, h) in
      let host_take = named_take host_name host (before_colon-IsCut host) in
      (
        ground (arith, h),
        (
          not_zero name (ground (arith, h)),
          (same_start_iff name host_name authority host
                (named_take name authority (before_colon-IsCut authority))
                (ap (λ k. take k host) same_length ∙ host_take)).0
              start,
        ),
      )

  authority_matches-named :
      (name host_name : List ℕ)
      → contains b'/' authority ≡ false
      → IsCut name authority
      → IsCut host_name host
      → name ≢ []
      → map lower name ≡ map lower host_name
      → authority_matches authority host ≡ true
  unfolding authority_matches
  authority_matches-named name host_name no_path named host_named not_empty same =
      let e = named_before name authority named in
      let f = named_before host_name host host_named in
      let same_length : length name ≡ length host_name =
        sym (length-lower name) ∙ (ap length same ∙ length-lower host_name) in
      let start =
        (same_start_iff name host_name authority host (named_take name authority named)
            (ap (λ k. take k host) same_length ∙ named_take host_name host host_named)).1
          same in
      let some_name : 0 < length name = positive name not_empty in
      let some_authority : 0 < length authority =
        omega (arith, some_name, ap length (named.1.1.0), length-append name (named.1.0)) in
      rw (e, f, no_path, start) (ground (arith, same_length, some_name, some_authority))

-- The scheme of an origin.
authority_of-splits :
    (origin authority : List ℕ)
    → authority_of origin ≡ some authority
    → (scheme : List ℕ) × ((origin ≡ scheme ++ authority)
        × ((map lower scheme ≡ http_prefix) ⊎ (map lower scheme ≡ https_prefix)))
unfolding authority_of
authority_of-splits origin authority h = elim (Bool-cases (same_start 7 origin http_prefix)) [
  | inl e ↦
      let rest : drop 7 origin ≡ authority = ground (arith, h, e) in
      (
        take 7 origin,
        (
          sym (take-append-drop 7 origin) ∙ ap (λ t. take 7 origin ++ t) rest,
          inl (list_eq→eq (map lower (take 7 origin)) http_prefix e),
        ),
      )
  | inr e ↦ elim (Bool-cases (same_start 8 origin https_prefix)) [
    | inl f ↦
        let rest : drop 8 origin ≡ authority = ground (arith, h, e, f) in
        (
          take 8 origin,
          (
            sym (take-append-drop 8 origin) ∙ ap (λ t. take 8 origin ++ t) rest,
            inr (list_eq→eq (map lower (take 8 origin)) https_prefix f),
          ),
        )
    | inr f ↦ absurd (ground (arith, h, e, f))
  ]
]

authority_of-scheme :
    (scheme authority : List ℕ)
    → (map lower scheme ≡ http_prefix) ⊎ (map lower scheme ≡ https_prefix)
    → authority_of (scheme ++ authority) ≡ some authority
unfolding authority_of
authority_of-scheme scheme authority (inl e) =
    let size : length scheme ≡ 7 = sym (length-lower scheme) ∙ ap length e in
    let front : take 7 (scheme ++ authority) ≡ scheme = take-append scheme authority 7 size in
    let same : same_start 7 (scheme ++ authority) http_prefix ≡ true =
      ap (λ t. list_eq (map lower t) http_prefix) front ∙ ap (λ t. list_eq t http_prefix) e in
    rw same (ap some (drop-append scheme authority 7 size))
authority_of-scheme scheme authority (inr e) =
    let size : length scheme ≡ 8 = sym (length-lower scheme) ∙ ap length e in
    let front : take 8 (scheme ++ authority) ≡ scheme = take-append scheme authority 8 size in
    let seven : map lower (take 7 (scheme ++ authority)) ≡ take 7 https_prefix =
      take-lower 7 (scheme ++ authority)
      ∙ (ap (take 7) (map-append lower scheme authority)
          ∙ ap (λ t. take 7 (t ++ map lower authority)) e) in
    let other : same_start 7 (scheme ++ authority) http_prefix ≡ false =
      ap (λ t. list_eq t http_prefix) seven in
    let same : same_start 8 (scheme ++ authority) https_prefix ≡ true =
      ap (λ t. list_eq (map lower t) https_prefix) front ∙ ap (λ t. list_eq t https_prefix) e in
    rw (other, same) (ap some (drop-append scheme authority 8 size))

-- An origin matches a host exactly where it is a scheme and an authority with the same start.
pub http_origin_authority_matches_host_iff :
    (origin host : List ℕ)
    → (http_origin_authority_matches_host origin host ≡ true) ↔ IsSameStart origin host
unfolding http_origin_authority_matches_host
http_origin_authority_matches_host_iff origin host = (to, from)
  where
    found :
        (authority : List ℕ)
        → authority_of origin ≡ some authority
        → authority_matches authority host ≡ true
        → IsSameStart origin host
    found authority e h =
        let (scheme, (splits, is_http)) = authority_of-splits origin authority e in
        let (no_path, (not_empty, same)) = authority_matches-parts authority host h in
        record {
          scheme = scheme;
          authority = authority;
          name = before_colon authority;
          host_name = before_colon host;
          splits = splits;
          is_http = is_http;
          no_path = no_path;
          named = before_colon-IsCut authority;
          host_named = before_colon-IsCut host;
          not_empty = not_empty;
          same_name = same;
        }

    to :
        elim (authority_of origin) [
          | none ↦ false
          | some authority ↦ authority_matches authority host
        ]
          ≡ true
        → IsSameStart origin host
    to h = elim (Option-cases (authority_of origin)) [
      | inl e ↦ absurd (ground (arith, h, e))
      | inr (authority, e) ↦ found authority e (rw e at h)
    ]

    from :
        IsSameStart origin host
        → elim (authority_of origin) [
          | none ↦ false
          | some authority ↦ authority_matches authority host
        ]
          ≡ true
    from s =
        let e = ap authority_of s.splits ∙ authority_of-scheme s.scheme s.authority s.is_http in
        rw e (
          authority_matches-named s.authority host s.name s.host_name s.no_path s.named s.host_named
            s.not_empty s.same_name)
