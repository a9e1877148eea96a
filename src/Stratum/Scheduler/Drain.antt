-- ===== src/Stratum/Scheduler/Drain.antt =====
-- The slices of a frame of main/stratum_minimal.c, one call of `pool_slice_scheduler_next` after another.
use m45_gamma_firmware.Base.{
  ℕ, zero, suc, ◌+◌, ◌-◌, ◌≤◌, ◌≡◌, refl, sym, ap, ◌∙◌, subst, ◌≢◌, inl, inr, Bool, true, false,
  none, some, List, [], ◌∷◌, arith, ◌==◌, if◌then◌else◌, Option-cases, length, get_or, All,
}
use m45_gamma_firmware.Base.Int.{ℤ}
use m45_gamma_firmware.Stratum.Scheduler.{
  Slot, zero_slot, sum, adjust, credit, chunk_total, best_slot, slice_jobs, after_slice, next_slice,
  frame_matches, has_work, build_frame, pool_slice_scheduler_next,
}
use m45_gamma_firmware.Stratum.Scheduler.Shares.{Picked}
use m45_gamma_firmware.Stratum.Scheduler.Frame.{Sliced, frame_weights}
use m45_gamma_firmware.Stratum.Scheduler.Slices.{
  slice_fits, Running, chunk_total-total, credit_lem, CanRun, best_slot-Picked, best_slot-none,
  Step, adjust_lem, total_chunks, jobs_of,
}

next_slice-some :
    (ss : List Slot) (rs : List Bool) (i : ℕ) (m : ℤ)
    → best_slot 0 none rs (credit rs ss) ≡ some (i, m)
    → chunk_total rs ss ≢ 0
    → next_slice ss rs ≡ (
      adjust (after_slice (chunk_total rs ss)) i (credit rs ss),
      some (i, slice_jobs (get_or (credit rs ss) i zero_slot)),
    )
unfolding next_slice
next_slice-some ss rs i m e positive = ground (arith, e)

get_or-jobs_of :
    (ss : List Slot) (i : ℕ) → (get_or ss i zero_slot).jobs_remaining ≡ get_or (jobs_of ss) i 0
get_or-jobs_of [] i = refl
get_or-jobs_of (s ∷ ss) zero = refl
get_or-jobs_of (s ∷ ss) (suc i) = get_or-jobs_of ss i

get_or-Sliced : (ss : List Slot) (i : ℕ) → All Sliced ss → Sliced (get_or ss i zero_slot)
get_or-Sliced [] i all_sliced = (omega arith, omega arith)
get_or-Sliced (s ∷ ss) zero all_sliced = all_sliced.0
get_or-Sliced (s ∷ ss) (suc i) all_sliced = get_or-Sliced ss i all_sliced.1

-- A slice of n jobs that pool i gets.
abbrev Slice : List Bool → List Slot → ℕ → ℕ → Type 0
Slice rs ss i n =
    ((get_or rs i false ≡ true) × (n ≤ get_or (jobs_of ss) i 0)) × ((1 ≤ n) × (n ≤ 12))

next_slice_lem :
    (ss : List Slot) (rs : List Bool)
    → Running rs ss
    → total_chunks ss ≢ 0
    → (ts : List Slot) × ((i : ℕ) × ((n : ℕ) × ((next_slice ss rs ≡ (ts, some (i, n)))
            × (Step rs ss ts i n × Slice rs ss i n))))
next_slice_lem ss rs run positive =
    let cs : List Slot = credit rs ss in
    let credited = credit_lem rs ss run in
    let total = chunk_total-total rs ss run in
    elim (Option-cases (best_slot 0 none rs cs)) [
      | inl e ↦ absurd (
          omega (
            arith,
            (best_slot-none 0 none rs cs e).1,
            chunk_total-total rs cs credited.0,
            credited.1.0.1,
          ))
      | inr ((i, m), e) ↦
          let can : CanRun rs cs i = subst (Picked (CanRun rs cs)) e (
            best_slot-Picked (CanRun rs cs) 0 none rs cs tt
              (λ k h. subst (CanRun rs cs) (omega arith) h)) in
          let chosen : Slot = get_or cs i zero_slot in
          let fits = slice_fits chosen (get_or-Sliced cs i credited.0.0) (ground (arith, can)) in
          let step = adjust_lem (chunk_total rs ss) rs cs i credited.0 can in
          let ready : get_or rs i false ≡ true = ground (arith, can) in
          let same = credited.1.0.0 in
          (
            adjust (after_slice (chunk_total rs ss)) i cs,
            (
              i,
              (
                slice_jobs chosen,
                (
                  next_slice-some ss rs i m e (λ z. positive (sym total ∙ z)),
                  (
                    (
                      step.0,
                      (
                        (
                          step.1.0.0 ∙ ap (adjust (λ j. j - slice_jobs chosen) i) same,
                          step.1.0.1 ∙ credited.1.0.1,
                        ),
                        step.1.1 ∙ credited.1.1,
                      ),
                    ),
                    (
                      (
                        ready,
                        omega (arith, fits.0.1, get_or-jobs_of cs i, ap (λ js. get_or js i 0) same),
                      ),
                      fits.0.0,
                    ),
                  ),
                ),
              ),
            ),
          )
    ]

-- A frame that is not used up is run on.
has_work-Sliced : (ss : List Slot) → All Sliced ss → total_chunks ss ≢ 0 → has_work ss ≡ true
unfolding has_work
has_work-Sliced [] sliced positive = absurd (positive refl)
has_work-Sliced (s ∷ ss) (sliced, all_sliced) positive =
    ground (arith, has_work-Sliced ss all_sliced)

frame_matches-frame_weights : (ss : List Slot) → frame_matches ss (frame_weights ss) ≡ true
unfolding frame_matches
frame_matches-frame_weights [] = refl
frame_matches-frame_weights (s ∷ ss) = ground (arith, frame_matches-frame_weights ss)

pub next-next_slice :
    (ss : List Slot) (rs : List Bool)
    → All Sliced ss
    → total_chunks ss ≢ 0
    → sum (frame_weights ss) ≢ 0
    → pool_slice_scheduler_next ss rs (frame_weights ss) ≡ next_slice ss rs
unfolding pool_slice_scheduler_next
next-next_slice ss rs sliced positive weighted =
    ground (arith, has_work-Sliced ss sliced positive, frame_matches-frame_weights ss)

pub next-build_frame :
    (ss : List Slot) (rs : List Bool) (ws : List ℕ)
    → has_work ss ≡ false
    → sum ws ≢ 0
    → pool_slice_scheduler_next ss rs ws ≡ next_slice (build_frame ws (sum ws)) rs
unfolding pool_slice_scheduler_next
next-build_frame ss rs ws idle weighted = ground (arith, idle)

-- The slices of a number of calls, for as long as there are any.
abbrev pub run : ℕ → List Slot → List Bool → List ℕ → List (ℕ × ℕ)
run zero ss rs ws = []
run (suc calls) ss rs ws =
    let (ts, slice) = pool_slice_scheduler_next ss rs ws in
    elim slice [ none ↦ [] | some given ↦ given ∷ run calls ts rs ws ]

-- The jobs that a pool gets in a list of slices.
abbrev pub served : ℕ → List (ℕ × ℕ) → ℕ
served pool [] = 0
served pool ((i, n) ∷ slices) = (if i == pool then n else 0) + served pool slices

-- A slice is of 1 to 12 jobs and for a pool that is ready.
abbrev pub Allowed : List Bool → ℕ × ℕ → Type 0
Allowed rs (i, n) = (get_or rs i false ≡ true) × ((1 ≤ n) × (n ≤ 12))

take_slice :
    (js : List ℕ) (i n pool : ℕ)
    → n ≤ get_or js i 0
    → (if i == pool then n else 0) + get_or (adjust (λ j. j - n) i js) pool 0 ≡ get_or js pool 0
take_slice [] i n pool le = ground arith
take_slice (j ∷ js) zero n zero le = omega arith
take_slice (j ∷ js) zero n (suc pool) le = ground arith
take_slice (j ∷ js) (suc i) n zero le = ground arith
take_slice (j ∷ js) (suc i) n (suc pool) le = ground (arith, take_slice js i n pool le)

-- What is promised of the slices of a frame.
abbrev pub Drained : List Bool → List Slot → List (ℕ × ℕ) → Type 0
Drained rs ss slices =
    (((pool : ℕ) → served pool slices ≡ get_or (jobs_of ss) pool 0)
      × (length slices ≡ total_chunks ss))
    × All (Allowed rs) slices

run-step :
    (calls : ℕ) (ss ts : List Slot) (rs : List Bool) (ws : List ℕ) (i n : ℕ)
    → pool_slice_scheduler_next ss rs ws ≡ (ts, some (i, n))
    → run (suc calls) ss rs ws ≡ (i, n) ∷ run calls ts rs ws
run-step calls ss ts rs ws i n e = ground (arith, e)

used_up :
    (ss : List Slot) (pool : ℕ)
    → All Sliced ss
    → total_chunks ss ≡ 0
    → get_or (jobs_of ss) pool 0 ≡ 0
used_up [] pool sliced e = refl
used_up (s ∷ ss) zero sliced e = omega (arith, sliced.0)
used_up (s ∷ ss) (suc pool) sliced e = used_up ss pool sliced.1 (omega arith)

pub run-Drained :
    (calls : ℕ) (ss : List Slot) (rs : List Bool) (ws : List ℕ)
    → calls ≡ total_chunks ss
    → Running rs ss
    → frame_weights ss ≡ ws
    → sum ws ≢ 0
    → Drained rs ss (run calls ss rs ws)
run-Drained zero ss rs ws e running same weighted =
    (((λ pool. sym (used_up ss pool running.0 (sym e))), e), tt)
run-Drained (suc calls) ss rs ws e running same weighted =
    let positive : total_chunks ss ≢ 0 = omega arith in
    let (ts, (i, (n, (eq, (step, slice))))) = next_slice_lem ss rs running positive in
    let next =
      subst (λ v. pool_slice_scheduler_next ss rs v ≡ next_slice ss rs) same
        (next-next_slice ss rs running.0 positive (λ z. weighted (ap sum (sym same) ∙ z))) in
    let rest =
      run-Drained calls ts rs ws (omega (arith, step.1.0.1)) step.0 (step.1.1 ∙ same) weighted in
    subst (Drained rs ss) (sym (run-step calls ss ts rs ws i n (next ∙ eq))) (
      (
        (λ pool.
            ap (λ k. (if i == pool then n else 0) + k)
              (rest.0.0 pool ∙ ap (λ js. get_or js pool 0) step.1.0.0)
            ∙ take_slice (jobs_of ss) i n pool slice.0.1),
        omega (arith, rest.0.1, step.1.0.1),
      ),
      ((slice.0.0, slice.1), rest.1),
    )
