-- ===== src/Stratum/Requests/Wait.antt =====
-- How long a submitted share waits for its response in main/stratum_minimal.c.
use m45_gamma_firmware.Base.{
  ℕ, zero, suc, ◌+◌, ◌%◌, ◌≤◌, ◌<◌, ◌≡◌, refl, sym, ap, ◌≢◌, true, false, none, some, List, [], ◌∷◌,
  arith, ◌==◌, length, set, All,
}
use m45_gamma_firmware.Stratum.Requests.{
  share_id_slots, Waiting, mark_share_request, take_slot, take_share_request,
}

-- No slot has the id.
abbrev pub Fresh : ℕ → List (ℕ × ℕ) → Type 0
Fresh id slots = All (λ (s : ℕ × ℕ). s.0 ≢ id) slots

-- One slot has the id and the pool, no other one has the id.
abbrev pub At : ℕ → ℕ → List (ℕ × ℕ) → ℕ → Type 0
At id pool_id [] i = ⊥
At id pool_id (s ∷ slots) zero = (s ≡ (id, pool_id)) × Fresh id slots
At id pool_id (s ∷ slots) (suc i) = (s.0 ≢ id) × At id pool_id slots i

set-At_new :
    (id pool_id : ℕ) (slots : List (ℕ × ℕ)) (i : ℕ)
    → i < length slots
    → Fresh id slots
    → At id pool_id (set slots i (id, pool_id)) i
set-At_new id pool_id [] i lt fresh = absurd (omega arith)
set-At_new id pool_id (s ∷ slots) zero lt fresh = (refl, fresh.1)
set-At_new id pool_id (s ∷ slots) (suc i) lt fresh =
    (fresh.0, set-At_new id pool_id slots i (omega arith) fresh.1)

set-Fresh :
    (id k : ℕ) (entry : ℕ × ℕ) (slots : List (ℕ × ℕ))
    → entry.0 ≢ id
    → Fresh id slots
    → Fresh id (set slots k entry)
set-Fresh id k entry [] ne fresh = fresh
set-Fresh id zero entry (s ∷ slots) ne fresh = (ne, fresh.1)
set-Fresh id (suc k) entry (s ∷ slots) ne fresh = (fresh.0, set-Fresh id k entry slots ne fresh.1)

set-At :
    (id pool_id i k : ℕ) (entry : ℕ × ℕ) (slots : List (ℕ × ℕ))
    → entry.0 ≢ id
    → k ≢ i
    → At id pool_id slots i
    → At id pool_id (set slots k entry) i
set-At id pool_id i k entry [] ne apart at = at
set-At id pool_id zero zero entry (s ∷ slots) ne apart at = absurd (apart refl)
set-At id pool_id zero (suc k) entry (s ∷ slots) ne apart at =
    (at.0, set-Fresh id k entry slots ne at.1)
set-At id pool_id (suc i) zero entry (s ∷ slots) ne apart at = (ne, at.1)
set-At id pool_id (suc i) (suc k) entry (s ∷ slots) ne apart at =
    (at.0, set-At id pool_id i k entry slots ne (λ e. apart (ap suc e)) at.1)

take_slot-At :
    (id pool_id i : ℕ) (slots : List (ℕ × ℕ))
    → id ≢ 0
    → At id pool_id slots i
    → ((take_slot id slots).1 ≡ some pool_id) × Fresh id (take_slot id slots).0
unfolding take_slot
take_slot-At id pool_id i [] nonzero at = absurd at
take_slot-At id pool_id zero ((other, p) ∷ slots) nonzero at =
    let same : other ≡ id = ap (λ s. s.0) at.0 in
    let e : (other == id) ≡ true = ground (arith, same) in
    rw e (ap (λ s. some (s.1)) at.0, ((λ z. nonzero (sym z)), at.1))
take_slot-At id pool_id (suc i) ((other, p) ∷ slots) nonzero at =
    let e : (other == id) ≡ false = ground (arith, at.0) in
    let rest = take_slot-At id pool_id i slots nonzero at.1 in rw e (rest.0, (at.0, rest.1))

pub take_slot-Fresh :
    (id : ℕ) (slots : List (ℕ × ℕ)) → Fresh id slots → take_slot id slots ≡ (slots, none)
unfolding take_slot
take_slot-Fresh id [] fresh = refl
take_slot-Fresh id ((other, p) ∷ slots) fresh =
    let e : (other == id) ≡ false = ground (arith, fresh.0) in
    let rest = take_slot-Fresh id slots fresh.1 in rw e (ap (λ t. ((other, p) ∷ t.0, t.1)) rest)

-- Other shares that are submitted later.
abbrev pub mark_all : Waiting → List (ℕ × ℕ) → Waiting
mark_all w [] = w
mark_all w ((id, pool_id) ∷ later) = mark_all (mark_share_request w id pool_id) later

mark_all-At :
    (id pool_id n k : ℕ) (w : Waiting) (later : List (ℕ × ℕ))
    → All (λ (s : ℕ × ℕ). s.0 ≢ id) later
    → w.next ≡ n + suc k
    → k + length later ≤ 15
    → At id pool_id w.slots (n % 16)
    → At id pool_id (mark_all w later).slots (n % 16)
unfolding mark_share_request
mark_all-At id pool_id n k w [] others e le at = at
mark_all-At id pool_id n k w ((other, p) ∷ later) others e le at =
    mark_all-At id pool_id n (suc k) (mark_share_request w other p) later others.1 (omega arith)
      (omega arith)
      (set-At id pool_id (n % 16) (w.next % share_id_slots) (other, p) w.slots others.0
        (λ same. absurd (omega arith)) at)

-- A share that is submitted under an id other than 0 that no slot has, with at most 15 shares under
-- other ids after it, is found once when its response comes, with the pool it was sent to; after that
-- it is found no more.
pub take_share_request_lem :
    (w : Waiting) (id pool_id : ℕ) (later : List (ℕ × ℕ))
    → length w.slots ≡ share_id_slots
    → id ≢ 0
    → Fresh id w.slots
    → All (λ (s : ℕ × ℕ). s.0 ≢ id) later
    → length later ≤ 15
    → ((take_share_request (mark_all (mark_share_request w id pool_id) later) id).1 ≡ some pool_id)
      × ((take_share_request
            (take_share_request (mark_all (mark_share_request w id pool_id) later) id).0
            id).1
          ≡ none)
unfolding take_share_request mark_share_request
take_share_request_lem w id pool_id later size nonzero fresh others le =
    let marked = mark_share_request w id pool_id in
    let at =
      mark_all-At id pool_id w.next 0 marked later others (omega arith) (omega arith)
        (set-At_new id pool_id w.slots (w.next % 16) (omega arith) fresh) in
    let taken = take_slot-At id pool_id (w.next % 16) (mark_all marked later).slots nonzero at in
    (
      taken.0,
      ap (λ t. t.1) (take_slot-Fresh id (take_slot id (mark_all marked later).slots).0 taken.1),
    )
