-- ===== src/Stratum/Scheduler/Slices.antt =====
-- A slice of main/stratum_minimal.c, as `pool_slice_scheduler_next` chooses and takes it.
use m45_gamma_firmware.Base.{
  ℕ, zero, suc, ◌+◌, ◌-◌, ◌*◌, ◌/◌, ◌≤◌, ◌≡◌, refl, ap, subst, ◌≢◌, inl, inr, Bool, true, false,
  Option, none, some, List, [], ◌∷◌, arith, leb, if◌then◌else◌, leb→le, Bool-cases, get_or, All,
}
use native.Mathlib.Nat.{lt-div-mul-add, div-mul-le_self}
use m45_gamma_firmware.Base.Int.{ℤ, add_ℤ, ltb_ℤ}
use m45_gamma_firmware.Stratum.Scheduler.{
  Slot, zero_slot, adjust, runnable, credit, chunk_total, best_slot, slice_jobs, after_slice,
}
use m45_gamma_firmware.Stratum.Scheduler.Shares.{Picked}
use m45_gamma_firmware.Stratum.Scheduler.Frame.{Sliced, frame_weights}

-- A part rounded up leaves enough, and not too much, for the other chunks.
rounded_up :
    (j c n : ℕ)
    → c ≢ 0
    → c ≤ j
    → 1 ≤ n
    → n ≤ 12
    → j ≤ n * c
    → n * c ≤ j + c - 1
    → (n ≤ j) × ((j - n ≤ 12 * (c - 1)) × (c - 1 ≤ j - n))
rounded_up j zero n some_chunk hc lo hi up down = absurd (some_chunk refl)
rounded_up j (suc c) zero some_chunk hc lo hi up down = absurd (omega arith)
rounded_up j (suc c) (suc zero) some_chunk hc lo hi up down =
    (omega arith, (omega arith, omega arith))
rounded_up j (suc c) (suc (suc n)) some_chunk hc lo hi up down =
    let least : n * 1 ≤ n * suc c = mono_left n 1 (suc c) (omega arith) in
    let most : suc (suc n) * c ≤ 12 * c = mono_right (suc (suc n)) 12 c hi in
    (omega (arith, least), (omega (arith, most), omega (arith, least)))
  where
    mono_left : (n u v : ℕ) → u ≤ v → n * u ≤ n * v
    mono_left n u v le = grind arith

    mono_right : (u v n : ℕ) → u ≤ v → u * n ≤ v * n
    mono_right u v n le = grind arith

-- The size of the next slice of a slot.
module _ (s : Slot) (sliced : Sliced s) (some_chunk : s.chunks_remaining ≢ 0) where
  abbrev j : ℕ
  j = s.jobs_remaining

  abbrev c : ℕ
  c = s.chunks_remaining

  -- The quotient rounded up, without the reduction to a byte.
  even : ℕ
  even = (j + c - 1) / c

  even_fits : (j ≤ even * c) × (even * c ≤ j + c - 1)
  unfolding even
  even_fits =
      let upper = lt-div-mul-add {a = j + c - 1} {b = c} (omega arith) in
      (omega (arith, upper), div-mul-le_self (j + c - 1) c)

  mul_mono : (k n : ℕ) → k ≤ n → k * c ≤ n * c
  mul_mono k n le = grind arith

  even-bounds : (1 ≤ even) × (even ≤ 12)
  even-bounds = (
    pos_of even even_fits.0,
    elim (Bool-cases (leb even 12)) [
      | inl e ↦ leb→le even 12 e
      | inr e ↦ absurd (omega (arith, even_fits, mul_mono 13 even (ground arith)))
    ],
  )
    where
      pos_of : (n : ℕ) → j ≤ n * c → 1 ≤ n
      pos_of zero le = absurd (omega arith)
      pos_of (suc n) le = omega arith

  slice_jobs-even : slice_jobs s ≡ even
  unfolding slice_jobs even
  slice_jobs-even = ground (arith, even-bounds)

  pub slice_fits :
      (((1 ≤ slice_jobs s) × (slice_jobs s ≤ 12)) × (slice_jobs s ≤ j))
      × ((j - slice_jobs s ≤ 12 * (c - 1)) × (c - 1 ≤ j - slice_jobs s))
  slice_fits =
      let fits =
        rounded_up j c even some_chunk sliced.1 even-bounds.0 even-bounds.1 even_fits.0
          even_fits.1 in
      rw slice_jobs-even ((even-bounds, fits.0), fits.1)

-- A pool that has chunks left is ready.
abbrev pub Attended : List Bool → List Slot → Type 0
Attended rs [] = Unit {0}
Attended [] (s ∷ ss) = (s.chunks_remaining ≡ 0) × Attended [] ss
Attended (r ∷ rs) (s ∷ ss) = (r ≡ false → s.chunks_remaining ≡ 0) × Attended rs ss

abbrev pub total_chunks : List Slot → ℕ
total_chunks [] = 0
total_chunks (s ∷ ss) = s.chunks_remaining + total_chunks ss

abbrev pub jobs_of : List Slot → List ℕ
jobs_of [] = []
jobs_of (s ∷ ss) = s.jobs_remaining ∷ jobs_of ss

-- The state of a frame while it runs.
abbrev pub Running : List Bool → List Slot → Type 0
Running rs ss = All Sliced ss × Attended rs ss

pub chunk_total-total :
    (rs : List Bool) (ss : List Slot) → Running rs ss → chunk_total rs ss ≡ total_chunks ss
unfolding chunk_total
chunk_total-total rs [] run = empty_total rs
  where
    empty_total : (rs : List Bool) → chunk_total rs [] ≡ 0
    empty_total [] = refl
    empty_total (r ∷ rs) = refl
chunk_total-total [] (s ∷ ss) ((sliced, all_sliced), (none_left, attended)) =
    let rest = chunk_total-total [] ss (all_sliced, attended) in omega (arith, rest, none_left)
chunk_total-total (r ∷ rs) (s ∷ ss) ((sliced, all_sliced), (no_wait, attended)) =
    let rest = chunk_total-total rs ss (all_sliced, attended) in ground (arith, rest)

-- The increases of the `smooth` values change nothing else.
abbrev Alike : List Slot → List Slot → Type 0
Alike ss ts =
    ((jobs_of ss ≡ jobs_of ts) × (total_chunks ss ≡ total_chunks ts))
    × (frame_weights ss ≡ frame_weights ts)

pub credit_lem :
    (rs : List Bool) (ss : List Slot)
    → Running rs ss
    → Running rs (credit rs ss) × Alike (credit rs ss) ss
unfolding credit
credit_lem [] ss run = (run, ((refl, refl), refl))
credit_lem (r ∷ rs) [] run = (run, ((refl, refl), refl))
credit_lem (r ∷ rs) (s ∷ ss) ((sliced, all_sliced), (no_wait, attended)) =
    whether (runnable r s) (credit rs ss) (credit_lem rs ss (all_sliced, attended))
  where
    alike_step : (ts : List Slot) → Alike ts ss → Alike (s ∷ ts) (s ∷ ss)
    alike_step ts a = (
      (ap (λ js. s.jobs_remaining ∷ js) a.0.0, omega (arith, a.0.1)),
      ap (λ ws. s.frame_weight ∷ ws) a.1,
    )

    whether :
        (b : Bool) (ts : List Slot)
        → Running rs ts × Alike ts ss
        → (Running
              (r ∷ rs)
              ((if b then record s { smooth = add_ℤ s.smooth s.chunks_remaining } else s) ∷ ts)
            × Alike
                ((if b then record s { smooth = add_ℤ s.smooth s.chunks_remaining } else s) ∷ ts)
                (s ∷ ss))
    whether true ts (run, alike) = (((sliced, run.0), (no_wait, run.1)), alike_step ts alike)
    whether false ts (run, alike) = (((sliced, run.0), (no_wait, run.1)), alike_step ts alike)

-- The pool that runs next is one that can.
abbrev pub CanRun : List Bool → List Slot → ℕ → Type 0
CanRun rs ss i = runnable (get_or rs i false) (get_or ss i zero_slot) ≡ true

pub best_slot-Picked :
    (P : ℕ → Type 0) (k : ℕ) (best : Option (ℕ × ℤ)) (rs : List Bool) (ss : List Slot)
    → Picked P best
    → ((i : ℕ) → CanRun rs ss i → P (k + i))
    → Picked P (best_slot k best rs ss)
unfolding best_slot
best_slot-Picked P k best [] ss old new = old
best_slot-Picked P k best (r ∷ rs) [] old new = old
best_slot-Picked P k best (r ∷ rs) (s ∷ ss) old new =
    best_slot-Picked P (k + 1) _ rs ss
      (step (runnable r s) best old (λ e. subst P (omega arith) (new 0 e)))
      (λ i w. subst P (omega arith) (new (suc i) w))
  where
    step :
        (b : Bool) (best : Option (ℕ × ℤ))
        → Picked P best
        → (b ≡ true → P k)
        → Picked P (
            if b
            then elim best [
              | none ↦ some (k, s.smooth)
              | some (i, m) ↦ if ltb_ℤ m s.smooth then some (k, s.smooth) else some (i, m)
            ]
            else best)
    step false best old new_one = old
    step true none old new_one = new_one refl
    step true (some (i, m)) old new_one = elim (Bool-cases (ltb_ℤ m s.smooth)) [
      | inl e ↦ rw e (new_one refl)
      | inr e ↦ rw e old
    ]

pub best_slot-none :
    (k : ℕ) (best : Option (ℕ × ℤ)) (rs : List Bool) (ss : List Slot)
    → best_slot k best rs ss ≡ none
    → (best ≡ none) × (chunk_total rs ss ≡ 0)
unfolding best_slot chunk_total
best_slot-none k best [] ss e = (e, refl)
best_slot-none k best (r ∷ rs) [] e = (e, refl)
best_slot-none k best (r ∷ rs) (s ∷ ss) e = ground (arith, best_slot-none (k + 1) _ rs ss e)

-- A slice that is taken off the slot that runs.
abbrev pub Step : List Bool → List Slot → List Slot → ℕ → ℕ → Type 0
Step rs ss ts i n =
    Running rs ts
    × (((jobs_of ts ≡ adjust (λ j. j - n) i (jobs_of ss))
          × (suc (total_chunks ts) ≡ total_chunks ss))
        × (frame_weights ts ≡ frame_weights ss))

module _ (t : ℕ) where
  after_jobs : (s : Slot) → (after_slice t s).jobs_remaining ≡ s.jobs_remaining - slice_jobs s
  unfolding after_slice
  after_jobs s = ground arith

  after_chunks : (s : Slot) → (after_slice t s).chunks_remaining ≡ s.chunks_remaining - 1
  unfolding after_slice
  after_chunks s = refl

  after_weight : (s : Slot) → (after_slice t s).frame_weight ≡ s.frame_weight
  unfolding after_slice
  after_weight s = refl

  after-Sliced : (s : Slot) → Sliced s → s.chunks_remaining ≢ 0 → Sliced (after_slice t s)
  unfolding after_slice
  after-Sliced s sliced some_chunk = rw (after_jobs s) (slice_fits s sliced some_chunk).1

  pub adjust_lem :
      (rs : List Bool) (ss : List Slot) (i : ℕ)
      → Running rs ss
      → CanRun rs ss i
      → Step rs ss (adjust (after_slice t) i ss) i (slice_jobs (get_or ss i zero_slot))
  adjust_lem rs [] i run can = absurd (ground arith)
  adjust_lem [] (s ∷ ss) i run can = absurd (ground arith)
  adjust_lem (r ∷ rs) (s ∷ ss) zero ((sliced, all_sliced), (no_wait, attended)) can =
      let some_chunk : s.chunks_remaining ≢ 0 = ground arith in
      (
        (
          (after-Sliced s sliced some_chunk, all_sliced),
          (λ e. absurd (some_chunk (no_wait e)), attended),
        ),
        (
          (ap (λ j. j ∷ jobs_of ss) (after_jobs s), omega (arith, after_chunks s)),
          ap (λ w. w ∷ frame_weights ss) (after_weight s),
        ),
      )
  adjust_lem (r ∷ rs) (s ∷ ss) (suc i) ((sliced, all_sliced), (no_wait, attended)) can =
      let rest = adjust_lem rs ss i (all_sliced, attended) can in
      (
        ((sliced, rest.0.0), (no_wait, rest.0.1)),
        (
          (ap (λ js. s.jobs_remaining ∷ js) rest.1.0.0, omega (arith, rest.1.0.1)),
          ap (λ ws. s.frame_weight ∷ ws) rest.1.1,
        ),
      )
