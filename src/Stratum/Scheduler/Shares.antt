-- ===== src/Stratum/Scheduler/Shares.antt =====
-- The loops of `pool_slice_scheduler_build_frame` of main/stratum_minimal.c.
use m45_gamma_firmware.Base.{
  ℕ, zero, suc, ◌+◌, ◌*◌, ◌/◌, ◌%◌, ◌≤◌, ◌<◌, ◌≡◌, refl, sym, ap, ◌∙◌, subst, ◌≢◌, inl, inr, Bool,
  true, false, ◌&&◌, not, Option, none, some, List, [], ◌∷◌, arith, ltb, ◌==◌, if◌then◌else◌,
  Bool-cases, Option-cases, get_or, All,
}
use m45_gamma_firmware.Stratum.Scheduler.{
  sum, adjust, Quota, assigned_jobs, raise_zero, best_remainder, grant, top_up,
}

-- No pool without a weight has jobs, each other has one, and at least its proportional part.
abbrev pub Fair : ℕ → Quota → Type 0
Fair total q =
    ((q.weight ≡ 0 → q.jobs ≡ 0) × (q.weight ≢ 0 → 1 ≤ q.jobs)) × (q.weight * 80 / total ≤ q.jobs)

abbrev pub weights : List Quota → List ℕ
weights [] = []
weights (q ∷ qs) = q.weight ∷ weights qs

-- What holds of the index that a search for the best returns.
abbrev pub Picked : {B : Type 0} → (ℕ → Type 0) → Option (ℕ × B) → Type 0
Picked P none = Unit {0}
Picked P (some (i, b)) = P i

best_remainder-Picked :
    (P : ℕ → Type 0) (k : ℕ) (best : Option (ℕ × ℕ)) (qs : List Quota)
    → Picked P best
    → ((i : ℕ) → get_or (weights qs) i 0 ≢ 0 → P (k + i))
    → Picked P (best_remainder k best qs)
unfolding best_remainder
best_remainder-Picked P k best [] old new = old
best_remainder-Picked P k best (q ∷ qs) old new =
    best_remainder-Picked P (k + 1) _ qs (step (q.weight == 0) best old here)
      (λ i w. subst P (omega arith) (new (suc i) w))
  where
    here : (q.weight == 0) ≡ false → P k
    here e = subst P (omega arith) (new 0 (ground arith))

    step :
        (b : Bool) (best : Option (ℕ × ℕ))
        → Picked P best
        → (b ≡ false → P k)
        → Picked P (
            if b then best else elim best [
              | none ↦ some (k, q.remainder)
              | some (j, r) ↦ if ltb r q.remainder then some (k, q.remainder) else some (j, r)
            ])
    step true best old new_one = old
    step false none old new_one = new_one refl
    step false (some (j, r)) old new_one = elim (Bool-cases (ltb r q.remainder)) [
      | inl e ↦ rw e (new_one refl)
      | inr e ↦ rw e old
    ]

best_remainder-none :
    (k : ℕ) (best : Option (ℕ × ℕ)) (qs : List Quota)
    → best_remainder k best qs ≡ none
    → (best ≡ none) × (sum (weights qs) ≡ 0)
unfolding best_remainder
best_remainder-none k best [] e = (e, refl)
best_remainder-none k best (q ∷ qs) e = ground (arith, best_remainder-none (k + 1) _ qs e)

assigned_jobs-adjust :
    (i : ℕ) (qs : List Quota)
    → get_or (weights qs) i 0 ≢ 0
    → assigned_jobs qs < 255
    → assigned_jobs (adjust grant i qs) ≡ assigned_jobs qs + 1
assigned_jobs-adjust i [] w lt = absurd (w refl)
assigned_jobs-adjust zero (q ∷ qs) w lt = omega arith
assigned_jobs-adjust (suc i) (q ∷ qs) w lt =
    omega (arith, assigned_jobs-adjust i qs w (omega arith))

weights-adjust : (i : ℕ) (qs : List Quota) → weights (adjust grant i qs) ≡ weights qs
weights-adjust i [] = refl
weights-adjust zero (q ∷ qs) = refl
weights-adjust (suc i) (q ∷ qs) = ap (λ ws. q.weight ∷ ws) (weights-adjust i qs)

adjust-Fair :
    (total i : ℕ) (qs : List Quota)
    → All (Fair total) qs
    → get_or (weights qs) i 0 ≢ 0
    → assigned_jobs qs < 255
    → All (Fair total) (adjust grant i qs)
adjust-Fair total i [] fair w lt = fair
adjust-Fair total zero (q ∷ qs) (((unweighted, weighted), part), fair) w lt =
    let e : (q.jobs + 1) % 256 ≡ q.jobs + 1 = omega arith in
    (((λ z. absurd (w z), λ n. omega arith), omega arith), fair)
adjust-Fair total (suc i) (q ∷ qs) (f, fair) w lt = (f, adjust-Fair total i qs fair w (omega arith))

top_up-some :
    (missing : ℕ) (qs : List Quota) (i r : ℕ)
    → best_remainder 0 none qs ≡ some (i, r)
    → top_up (suc missing) qs ≡ top_up missing (adjust grant i qs)
unfolding top_up
top_up-some missing qs i r e =
    ap
      (λ (o : Option (ℕ × ℕ)). elim o as (λ x. List Quota) [
        | none ↦ qs
        | some (best, rem) ↦ top_up missing (adjust grant best qs)
      ])
      e

abbrev pub Full : ℕ → List Quota → List Quota → Type 0
Full total qs result =
    (All (Fair total) result × (assigned_jobs result ≡ 80)) × (weights result ≡ weights qs)

-- The jobs that are missing are added one by one.
pub top_up-Fair :
    (total missing : ℕ) (qs : List Quota)
    → All (Fair total) qs
    → sum (weights qs) ≢ 0
    → assigned_jobs qs + missing ≡ 80
    → Full total qs (top_up missing qs)
unfolding top_up
top_up-Fair total zero qs fair w e = ((fair, omega arith), refl)
top_up-Fair total (suc missing) qs fair w e = elim (Option-cases (best_remainder 0 none qs)) [
  | inl n ↦ absurd (w (best_remainder-none 0 none qs n).1)
  | inr ((i, r), s) ↦
      let here : get_or (weights qs) i 0 ≢ 0 = subst (Picked (λ j. get_or (weights qs) j 0 ≢ 0)) s (
        best_remainder-Picked (λ j. get_or (weights qs) j 0 ≢ 0) 0 none qs tt
          (λ j n. subst (λ k. get_or (weights qs) k 0 ≢ 0) (omega arith) n)) in
      let rest =
        top_up-Fair total missing (adjust grant i qs)
          (adjust-Fair total i qs fair here (omega arith))
          (λ z. w (ap sum (sym (weights-adjust i qs)) ∙ z))
          (omega (arith, assigned_jobs-adjust i qs here (omega arith))) in
      subst (Full total qs) (sym (top_up-some missing qs i r s))
        (rest.0, rest.1 ∙ weights-adjust i qs)
]

-- The weighted pools whose part is less than a job.
abbrev pub zeros : List Quota → ℕ
zeros [] = 0
zeros (q ∷ qs) = (if not (q.weight == 0) && (q.jobs == 0) then 1 else 0) + zeros qs

abbrev pub Part : ℕ → Quota → Type 0
Part total q = (q.weight ≡ 0 → q.jobs ≡ 0) × (q.weight * 80 / total ≤ q.jobs)

pub raise_zero-Fair :
    (total assigned : ℕ) (qs : List Quota)
    → All (Part total) qs
    → assigned + zeros qs ≤ 80
    → (All (Fair total) (raise_zero assigned qs)
        × (assigned_jobs (raise_zero assigned qs) ≡ assigned_jobs qs + zeros qs))
      × (weights (raise_zero assigned qs) ≡ weights qs)
unfolding raise_zero
raise_zero-Fair total assigned [] part le = ((tt, refl), refl)
raise_zero-Fair total assigned (q ∷ qs) ((unweighted, p), part) le =
    elim (Bool-cases (not (q.weight == 0) && (q.jobs == 0))) [
      | inl e ↦
          let rest = raise_zero-Fair total (assigned + 1) qs part (ground arith) in
          ground (arith, rest)
      | inr e ↦
          let rest = raise_zero-Fair total assigned qs part (ground arith) in ground (arith, rest)
    ]
