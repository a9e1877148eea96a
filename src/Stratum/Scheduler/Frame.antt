-- ===== src/Stratum/Scheduler/Frame.antt =====
-- A new frame of main/stratum_minimal.c: `pool_slice_scheduler_build_frame`.
use m45_gamma_firmware.Base.{
  ℕ, zero, suc, ◌+◌, ◌-◌, ◌*◌, ◌/◌, ◌≤◌, ◌<◌, ◌≡◌, refl, sym, ap, ◌∙◌, subst, ◌≢◌, inl, inr, ◌&&◌,
  not, List, [], ◌∷◌, map, arith, ◌==◌, if◌then◌else◌, Bool-cases, All,
}
use native.Mathlib.Nat.{div-mul-le_self, zero-div}
use m45_gamma_firmware.Stratum.Scheduler.{
  Slot, sum, frame_jobs, slice_max_jobs, Quota, quota_of, assigned_jobs, raise_zero, top_up, trim,
  slot_of, shared_out, build_frame,
}
use m45_gamma_firmware.Stratum.Scheduler.Shares.{
  Fair, weights, Full, top_up-Fair, zeros, Part, raise_zero-Fair,
}

-- The parts of three weights of at most 99, rounded down, leave a job for each part that is 0.
module _ (total : ℕ) where
  part : ℕ → ℕ
  part w = w * 80 / total

  none_left : ℕ → ℕ
  none_left w = if not (w == 0) && (part w == 0) then 1 else 0

  used : (w : ℕ) → part w * total ≤ w * 80
  unfolding part
  used w = div-mul-le_self (w * 80) total

  mul_mono : (k n : ℕ) → k ≤ n → k * total ≤ n * total
  mul_mono k n le = grind arith

  of_two : (u v : ℕ) → 80 ≤ part u + part v → 80 * total ≤ u * 80 + v * 80
  of_two u v le = omega (arith, used u, used v, mul_mono 80 (part u + part v) le)

  of_three : (u v w : ℕ) → 81 ≤ part u + part v + part w → 81 * total ≤ u * 80 + v * 80 + w * 80
  of_three u v w le =
      omega (arith, used u, used v, used w, mul_mono 81 (part u + part v + part w) le)

  of_one : (u : ℕ) → 79 ≤ part u → 79 * total ≤ u * 80
  of_one u le = omega (arith, used u, mul_mono 79 (part u) le)

  parts_fit :
      (a b c : ℕ)
      → a ≤ 99
      → b ≤ 99
      → c ≤ 99
      → a + b + c ≡ total
      → 0 < total
      → part a + part b + part c + none_left a + none_left b + none_left c ≤ 80
  unfolding none_left
  parts_fit a b c ha hb hc e positive =
      let abc : ¬ 81 ≤ part a + part b + part c = λ h. omega (arith, of_three a b c h) in
      ground (arith, of_one a, of_one b, of_one c, of_two a b, of_two a c, of_two b c)

trim-none : (excess : ℕ) (qs : List Quota) → excess ≡ 0 → trim excess qs ≡ qs
unfolding trim
trim-none zero qs e = refl
trim-none (suc excess) qs e = absurd (omega arith)

abbrev raised_of : List ℕ → ℕ → List Quota
raised_of ws total = raise_zero (assigned_jobs (map (quota_of total) ws)) (map (quota_of total) ws)

abbrev topped_of : List ℕ → ℕ → List Quota
topped_of ws total = top_up (frame_jobs - assigned_jobs (raised_of ws total)) (raised_of ws total)

-- After the second loop has made the jobs 80 there are none to take back.
shared_out_once :
    (ws : List ℕ) (total : ℕ)
    → assigned_jobs (topped_of ws total) ≡ 80
    → shared_out ws total ≡ topped_of ws total
unfolding shared_out
shared_out_once ws total e =
    trim-none (assigned_jobs (topped_of ws total) - frame_jobs) (topped_of ws total) (omega arith)

-- Three weights of at most 99 that are not all 0.
module _ (a b c : ℕ) (a_le : a ≤ 99) (b_le : b ≤ 99) (c_le : c ≤ 99)
    (positive : 0 < a + b + c) where
  abbrev pools : List ℕ
  pools = a ∷ b ∷ c ∷ []

  quota-Part : (total w : ℕ) → part total w ≤ 80 → Part total (quota_of total w)
  unfolding quota_of part
  quota-Part total w le = ground arith

  jobs-quota : (total w : ℕ) → part total w ≤ 80 → (quota_of total w).jobs ≡ part total w
  unfolding quota_of part
  jobs-quota total w le = elim (Bool-cases (w == 0)) [
    | inl e ↦
        let z : w * 80 / total ≡ 0 / total = ap (λ k. k / total) (ground arith) in
        ground (arith, z, zero-div total)
    | inr e ↦ ground arith
  ]

  weight-quota : (total w : ℕ) → (quota_of total w).weight ≡ w
  unfolding quota_of
  weight-quota total w = ground arith

  abbrev total_weight : ℕ
  total_weight = a + b + c

  abbrev quotas : List Quota
  quotas = map (quota_of total_weight) pools

  quotas-lem :
      (All (Part total_weight) quotas × (assigned_jobs quotas + zeros quotas ≤ 80))
      × (weights quotas ≡ pools)
  unfolding none_left
  quotas-lem =
      let fit = parts_fit (a + b + c) a b c a_le b_le c_le refl positive in
      let fit_a : part (a + b + c) a ≤ 80 = omega (arith, fit) in
      let fit_b : part (a + b + c) b ≤ 80 = omega (arith, fit) in
      let fit_c : part (a + b + c) c ≤ 80 = omega (arith, fit) in
      let rewritten : assigned_jobs quotas + zeros quotas ≤ 80 =
        rw
          (
            weight-quota total_weight a,
            weight-quota total_weight b,
            weight-quota total_weight c,
            jobs-quota total_weight a fit_a,
            jobs-quota total_weight b fit_b,
            jobs-quota total_weight c fit_c,
          )
          (omega (arith, fit)) in
      (
        (
          (
            quota-Part total_weight a fit_a,
            (quota-Part total_weight b fit_b, (quota-Part total_weight c fit_c, tt)),
          ),
          rewritten,
        ),
        list_eq3 (weight-quota total_weight a) (weight-quota total_weight b)
            (weight-quota total_weight c),
      )
    where
      list_eq3 : {x y z u v w : ℕ} → x ≡ u → y ≡ v → z ≡ w → x ∷ y ∷ z ∷ [] ≡ u ∷ v ∷ w ∷ []
      list_eq3 p q r = cc

  shared_out-Full : Full total_weight quotas (shared_out pools total_weight)
  shared_out-Full =
      let raised =
        raise_zero-Fair total_weight (assigned_jobs quotas) quotas quotas-lem.0.0 quotas-lem.0.1 in
      let same = raised.1 ∙ quotas-lem.1 in
      let full =
        top_up-Fair total_weight
          (frame_jobs - assigned_jobs (raise_zero (assigned_jobs quotas) quotas))
          (raise_zero (assigned_jobs quotas) quotas) raised.0.0
          (λ z. absurd (omega (arith, z, ap sum same)))
          (omega (arith, raised.0.1, quotas-lem.0.1)) in
      subst (Full total_weight (map (quota_of total_weight) pools))
        (sym (shared_out_once pools total_weight full.0.1)) (full.0, full.1 ∙ raised.1)

-- The slots of a frame.
abbrev pub total_jobs : List Slot → ℕ
total_jobs [] = 0
total_jobs (s ∷ ss) = s.jobs_remaining + total_jobs ss

abbrev pub frame_weights : List Slot → List ℕ
frame_weights [] = []
frame_weights (s ∷ ss) = s.frame_weight ∷ frame_weights ss

-- The slices of at most 12 jobs, each of at least one, that make up the jobs of a slot.
abbrev pub Sliced : Slot → Type 0
Sliced s =
    (s.jobs_remaining ≤ slice_max_jobs * s.chunks_remaining)
    × (s.chunks_remaining ≤ s.jobs_remaining)

-- What a pool is promised in a frame.
abbrev pub Served : ℕ → Slot → Type 0
Served total s =
    (Sliced s
      × ((s.frame_weight ≡ 0 → s.jobs_remaining ≡ 0) × (s.frame_weight ≢ 0 → 1 ≤ s.jobs_remaining)))
    × (s.frame_weight * 80 / total ≤ s.jobs_remaining)

slots-Served :
    (total : ℕ) (qs : List Quota)
    → All (Fair total) qs
    → assigned_jobs qs ≤ 80
    → (All (Served total) (map slot_of qs) × (total_jobs (map slot_of qs) ≡ assigned_jobs qs))
      × (frame_weights (map slot_of qs) ≡ weights qs)
slots-Served total [] fair le = ((tt, refl), refl)
slots-Served total (q ∷ qs) ((use_of, part), fair) le =
    let rest = slots-Served total qs fair (omega arith) in
    let sliced : Sliced (slot_of q) = ground arith in
    (
      ((((sliced, use_of), part), rest.0.0), omega (arith, rest.0.1)),
      ap (λ ws. q.weight ∷ ws) (rest.1),
    )

build_frame-shared_out :
    (ws : List ℕ) (total : ℕ) → 0 < total → build_frame ws total ≡ map slot_of (shared_out ws total)
unfolding build_frame
build_frame-shared_out ws total positive = ground arith

-- For three weights of at most 99 that are not all 0, a new frame has exactly 80 jobs and the
-- weights it was built for: a pool with the weight 0 gets no job, each other pool gets at least one
-- and at least its proportional part rounded down; and the chunks of each pool make slices of 1 to
-- 12 jobs that add up to its jobs.
pub build_frame_lem :
    (a b c : ℕ)
    → a ≤ 99
    → b ≤ 99
    → c ≤ 99
    → 0 < a + b + c
    → ((total_jobs (build_frame (a ∷ b ∷ c ∷ []) (a + b + c)) ≡ 80)
        × (frame_weights (build_frame (a ∷ b ∷ c ∷ []) (a + b + c)) ≡ a ∷ b ∷ c ∷ []))
      × All (Served (a + b + c)) (build_frame (a ∷ b ∷ c ∷ []) (a + b + c))
build_frame_lem a b c ha hb hc positive =
    let ws : List ℕ = a ∷ b ∷ c ∷ [] in
    let full = shared_out-Full a b c ha hb hc positive in
    let slots =
      slots-Served (a + b + c) (shared_out ws (a + b + c)) full.0.0 (omega (arith, full.0.1)) in
    let same = full.1 ∙ (quotas-lem a b c ha hb hc positive).1 in
    subst
      (λ frame.
        ((total_jobs frame ≡ 80) × (frame_weights frame ≡ ws)) × All (Served (a + b + c)) frame)
      (sym (build_frame-shared_out ws (a + b + c) positive))
      ((slots.0.1 ∙ full.0.1, slots.1 ∙ same), slots.0.0)
