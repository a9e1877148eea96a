-- ===== src/Stratum/Requests/Once.antt =====
-- A response to a share is counted once: `fast_handle_share_response` of main/stratum_minimal.c.
use m45_gamma_firmware.Base.{
  ℕ, ◌≡◌, refl, sym, ap, ◌∙◌, subst, ◌≢◌, inl, inr, Bool, true, false, Option, none, some, List, [],
  ◌∷◌, arith, ◌==◌, ==_iff, Bool-cases, Option-cases,
}
use m45_gamma_firmware.Base.Int.{ℤ, pos, negsuc}
use m45_gamma_firmware.Stratum.Span.{parse_response_success}
use m45_gamma_firmware.Stratum.Text.{◌>>=◌}
use m45_gamma_firmware.Stratum.Requests.{
  Waiting, take_slot, share_id, parse_id, record_answer, answered, take_share_request, Client,
  record_response, count_share, answer_of, handle_share_response, Responses,
  take_response_request_ms,
}
use m45_gamma_firmware.Stratum.Requests.Wait.{Fresh, take_slot-Fresh}

-- No two waiting requests have the same id, where they have one.
abbrev pub Distinct : List (ℕ × ℕ) → Type 0
Distinct [] = Unit {0}
Distinct (s ∷ slots) = ((s.0 ≢ 0) → Fresh s.0 slots) × Distinct slots

take_slot-Distinct :
    (id : ℕ) (slots : List (ℕ × ℕ)) → id ≢ 0 → Distinct slots → Fresh id (take_slot id slots).0
unfolding take_slot
take_slot-Distinct id [] nonzero distinct = tt
take_slot-Distinct id ((other, p) ∷ slots) nonzero (here, rest) = elim (Bool-cases (other == id)) [
  | inl e ↦
      let same : other ≡ id = (==_iff other id).0 e in
      rw e (
        (λ z. nonzero (sym z)),
        subst (λ k. Fresh k slots) same (here (λ z. nonzero (sym same ∙ z))),
      )
  | inr e ↦
      let apart : other ≢ id = ground arith in
      rw e (apart, take_slot-Distinct id slots nonzero rest)
]

record_response-shares :
    (c : Client) (pool_id : ℕ) (n now_us : ℕ)
    → (record_response c pool_id (pos n) now_us).shares ≡ c.shares
unfolding record_response
record_response-shares c pool_id n now_us =
    record_answer-shares (take_response_request_ms c.responses pool_id (pos n) now_us)
  where
    record_answer-shares :
        (r : Responses × Option ℕ) → (record_answer c pool_id r).shares ≡ c.shares
    record_answer-shares (responses, none) = refl
    record_answer-shares (responses, some ms) = refl

count_share-shares :
    (c : Client) (success : Bool) (share_pool_id : ℕ)
    → (count_share c success share_pool_id).shares ≡ c.shares
unfolding count_share
count_share-shares c true share_pool_id = refl
count_share-shares c false share_pool_id = refl

bind_inv :
    {A B : Type 0}
    → (o : Option A) (f : A → Option B) (b : B) → (o >>= f) ≡ some b
    → (a : A) × ((o ≡ some a) × (f a ≡ some b))
bind_inv none f b e = absurd (ground (arith, e))
bind_inv (some a) f b e = (a, (refl, e))

share_id-nonzero : (z : ℤ) (n : ℕ) → share_id z ≡ some n → n ≢ 0
share_id-nonzero (pos m) n e = ground (arith, e)
share_id-nonzero (negsuc m) n e = absurd (ground (arith, e))

answer_of-nonzero :
    (line : List ℕ) (id : ℕ) (success : Bool) → answer_of line ≡ some (id, success) → id ≢ 0
unfolding answer_of
answer_of-nonzero line id success e =
    let told_of : ℕ → Option (ℕ × Bool) =
      λ n. parse_response_success line >>= λ told. some (n, told) in
    let answered_id : ℤ → Option (ℕ × Bool) = λ z. share_id z >>= told_of in
    let e' : (parse_id line >>= answered_id) ≡ some (id, success) = ground (arith, e) in
    let (z, (ez, fz)) = bind_inv (parse_id line) answered_id (id, success) e' in
    let (n, (en, fn)) = bind_inv (share_id z) told_of (id, success) fz in
    let (told, (et, ft)) =
      bind_inv (parse_response_success line) (λ t. some (n, t)) (id, success) fn in
    λ zero_id. share_id-nonzero z n en (ground (arith, ft, zero_id))

handle-answered :
    (c : Client) (pool_id : ℕ) (line : List ℕ) (now_us id : ℕ) (success : Bool)
    → answer_of line ≡ some (id, success)
    → handle_share_response c pool_id line now_us
      ≡ answered c pool_id id success now_us (take_share_request c.shares id)
unfolding handle_share_response
handle-answered c pool_id line now_us id success e = ground (arith, e)

answered-shares :
    (c : Client) (pool_id id : ℕ) (success : Bool) (now_us : ℕ) (taken : Waiting × Option ℕ)
    → (answered c pool_id id success now_us taken).0.shares ≡ taken.0
unfolding answered
answered-shares c pool_id id success now_us (shares, none) = refl
answered-shares c pool_id id success now_us (shares, some p) =
    count_share-shares (record_response (record c { shares = shares }) pool_id (pos id) now_us)
      success p
    ∙ record_response-shares (record c { shares = shares }) pool_id id now_us

handle-none :
    (c : Client) (pool_id : ℕ) (line : List ℕ) (now_us : ℕ)
    → answer_of line ≡ none
    → handle_share_response c pool_id line now_us ≡ (c, false)
unfolding handle_share_response
handle-none c pool_id line now_us e = ground (arith, e)

-- A request that does not wait.
unchanged :
    (c : Client) (pool_id id : ℕ) (success : Bool) (now_us : ℕ)
    → take_slot id c.shares.slots ≡ (c.shares.slots, none)
    → answered c pool_id id success now_us (take_share_request c.shares id) ≡ (c, false)
unfolding answered take_share_request
unchanged c pool_id id success now_us e =
    ap (λ t. answered c pool_id id success now_us (record c.shares { slots = t.0 }, t.1)) e

-- A response that arrives twice is counted at most once: after a line has been handled, the same line
-- is not taken for the response to a share and changes nothing, at any time and from any pool, where
-- no two waiting requests have the same id.
pub handle_share_response_lem :
    (c : Client) (pool_id again : ℕ) (line : List ℕ) (now_us later_us : ℕ)
    → Distinct c.shares.slots
    → handle_share_response (handle_share_response c pool_id line now_us).0 again line later_us
      ≡ ((handle_share_response c pool_id line now_us).0, false)
unfolding take_share_request
handle_share_response_lem c pool_id again line now_us later_us distinct =
    elim (Option-cases (answer_of line)) [
      | inl e ↦
          let c' : Client = (handle_share_response c pool_id line now_us).0 in
          handle-none c' again line later_us e
      | inr ((id, success), e) ↦
          let first = handle-answered c pool_id line now_us id success e in
          let c' : Client = (handle_share_response c pool_id line now_us).0 in
          let fresh : Fresh id c'.shares.slots =
            subst (Fresh id)
              (sym (
                ap (λ r. r.0.shares.slots) first
                ∙ ap (λ w. w.slots)
                    (answered-shares c pool_id id success now_us (take_share_request c.shares id))))
              (take_slot-Distinct id c.shares.slots (answer_of-nonzero line id success e)
                distinct) in
          handle-answered c' again line later_us id success e
          ∙ unchanged c' again id success later_us (take_slot-Fresh id c'.shares.slots fresh)
    ]
