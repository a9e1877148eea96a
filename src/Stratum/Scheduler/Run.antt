-- ===== src/Stratum/Scheduler/Run.antt =====
-- The slices of a frame of main/stratum_minimal.c: `pool_slice_scheduler_next`.
use m45_gamma_firmware.Base.{
  ℕ, zero, suc, ◌+◌, ◌≤◌, ◌≡◌, refl, sym, ap, ◌∙◌, subst, ◌≢◌, inl, inr, Bool, true, false, ◌&&◌,
  List, [], ◌∷◌, arith, ◌==◌, if◌then◌else◌, Bool-cases, get_or, set, drop, All,
}
use m45_gamma_firmware.Stratum.Scheduler.{
  ready_pool_weights, weights_of, Slot, sum, next_slice, has_work, build_frame,
  pool_slice_scheduler_next,
}
use m45_gamma_firmware.Stratum.Scheduler.Frame.{Sliced, Served, frame_weights, build_frame_lem}
use m45_gamma_firmware.Stratum.Scheduler.Slices.{Running, total_chunks}
use m45_gamma_firmware.Stratum.Scheduler.Drain.{
  next-next_slice, next-build_frame, run-Drained, run, Drained,
}

-- The frame that is built for the pools that are ready.
abbrev pub frame_of : List Bool → List ℕ → List Slot
frame_of rs configured =
    build_frame (ready_pool_weights rs configured) (sum (ready_pool_weights rs configured))

-- A pool that is not ready has the weight 0.
abbrev Waits : List Bool → List ℕ → Type 0
Waits rs [] = Unit {0}
Waits [] (w ∷ ws) = (w ≡ 0) × Waits [] ws
Waits (r ∷ rs) (w ∷ ws) = (r ≡ false → w ≡ 0) × Waits rs ws

no_chunks : (s : Slot) → Sliced s → s.jobs_remaining ≡ 0 → s.chunks_remaining ≡ 0
no_chunks s sliced e = omega arith

Served-Running :
    (total : ℕ) (rs : List Bool) (ws : List ℕ) (ss : List Slot)
    → Waits rs ws
    → frame_weights ss ≡ ws
    → All (Served total) ss
    → Running rs ss
Served-Running total rs ws [] waits same served_all = (tt, tt)
Served-Running total rs [] (s ∷ ss) waits same (here, rest) = absurd (ground arith)
Served-Running total [] (w ∷ ws) (s ∷ ss) waits same (here, rest) =
    let next = Served-Running total [] ws ss waits.1 (ap (drop 1) same) rest in
    let idle : s.frame_weight ≡ 0 = ap (λ vs. get_or vs 0 0) same ∙ waits.0 in
    ((here.0.0, next.0), (no_chunks s here.0.0 (here.0.1.0 idle), next.1))
Served-Running total (r ∷ rs) (w ∷ ws) (s ∷ ss) waits same (here, rest) =
    let next = Served-Running total rs ws ss waits.1 (ap (drop 1) same) rest in
    let idle : r ≡ false → s.frame_weight ≡ 0 = λ e. ap (λ vs. get_or vs 0 0) same ∙ waits.0 e in
    ((here.0.0, next.0), (λ e. no_chunks s here.0.0 (here.0.1.0 (idle e)), next.1))

run-next :
    (calls : ℕ) (ss ts : List Slot) (rs : List Bool) (ws : List ℕ)
    → pool_slice_scheduler_next ss rs ws ≡ pool_slice_scheduler_next ts rs ws
    → run calls ss rs ws ≡ run calls ts rs ws
run-next zero ss ts rs ws e = refl
run-next (suc calls) ss ts rs ws e = ground (arith, e)

run-none :
    (calls : ℕ) (ss ts : List Slot) (rs : List Bool) (ws : List ℕ)
    → calls ≡ 0
    → run calls ss rs ws ≡ run calls ts rs ws
run-none zero ss ts rs ws e = refl
run-none (suc calls) ss ts rs ws e = absurd (omega arith)

frame-Drained :
    (initial : List Slot) (rs : List Bool) (a b c : ℕ)
    → a ≤ 99
    → b ≤ 99
    → c ≤ 99
    → has_work initial ≡ false
    → sum (a ∷ b ∷ c ∷ []) ≢ 0
    → Waits rs (a ∷ b ∷ c ∷ [])
    → Drained rs (build_frame (a ∷ b ∷ c ∷ []) (sum (a ∷ b ∷ c ∷ []))) (
        run
          (total_chunks (build_frame (a ∷ b ∷ c ∷ []) (sum (a ∷ b ∷ c ∷ []))))
          initial
          rs
          (a ∷ b ∷ c ∷ []))
frame-Drained initial rs a b c ha hb hc idle weighted waits =
    let ws : List ℕ = a ∷ b ∷ c ∷ [] in
    let total : a + b + c ≡ sum ws = omega arith in
    let frame : List Slot = build_frame ws (sum ws) in
    let built = build_frame_lem a b c ha hb hc (omega (arith, weighted)) in
    let same : frame_weights frame ≡ ws =
      subst (λ t. frame_weights (build_frame ws t) ≡ ws) total built.0.1 in
    let running : Running rs frame =
      subst (λ t. Running rs (build_frame ws t)) total
        (Served-Running (a + b + c) rs ws (build_frame ws (a + b + c)) waits built.0.1 built.1) in
    let drained = run-Drained (total_chunks frame) frame rs ws refl running same weighted in
    elim (Bool-cases (total_chunks frame == 0)) [
      | inl z ↦
          subst (Drained rs frame)
            (run-none (total_chunks frame) frame initial rs ws (ground arith)) drained
      | inr some_chunk ↦
          let next =
            subst (λ vs. pool_slice_scheduler_next frame rs vs ≡ next_slice frame rs) same
              (next-next_slice frame rs running.0 (ground arith)
                (λ z. weighted (ap sum (sym same) ∙ z))) in
          subst (Drained rs frame)
            (run-next (total_chunks frame) frame initial rs ws
              (next ∙ sym (next-build_frame initial rs ws idle weighted)))
            drained
    ]

-- Three pools.
module _ (r0 r1 r2 : Bool) (w0 w1 w2 : ℕ) (w0_le : w0 ≤ 99) (w1_le : w1 ≤ 99)
    (w2_le : w2 ≤ 99) where
  abbrev flags : List Bool
  flags = r0 ∷ r1 ∷ r2 ∷ []

  abbrev configured : List ℕ
  configured = w0 ∷ w1 ∷ w2 ∷ []

  effective :
      (e0 : ℕ) × ((e1 : ℕ) × ((e2 : ℕ) × ((ready_pool_weights flags configured ≡ e0 ∷ e1 ∷ e2 ∷ [])
            × (((e0 ≤ 99) × ((e1 ≤ 99) × (e2 ≤ 99))) × Waits flags (e0 ∷ e1 ∷ e2 ∷ [])))))
  unfolding ready_pool_weights
  effective =
      let fallback : Bool = sum (weights_of flags configured) == 0 && r0 in
      (
        if fallback then 99 else (if r0 then w0 else 0),
        (
          if r1 then w1 else 0,
          (
            if r2 then w2 else 0,
            (
              which fallback,
              (
                (le fallback, (le_if r1 w1 w1_le, le_if r2 w2 w2_le)),
                (ground arith, (ground arith, (ground arith, tt))),
              ),
            ),
          ),
        ),
      )
    where
      which :
          (b : Bool)
          → (if b then set (weights_of flags configured) 0 99 else weights_of flags configured)
            ≡ (if b then 99 else (if r0 then w0 else 0))
              ∷ (if r1 then w1 else 0)
              ∷ (if r2 then w2 else 0)
              ∷ []
      which true = refl
      which false = refl

      le_if : (b : Bool) (w : ℕ) → w ≤ 99 → (if b then w else 0) ≤ 99
      le_if true w h = h
      le_if false w h = omega arith

      le : (b : Bool) → (if b then 99 else (if r0 then w0 else 0)) ≤ 99
      le true = omega arith
      le false = le_if r0 w0 w0_le

-- Three pools with weights of at most 99, at least one of them ready: from a scheduler with no work
-- left and as long as the ready pools stay the same, a frame is used up in as many calls as it has
-- chunks; each call returns a slice of 1 to 12 jobs for a ready pool, and every pool gets exactly the
-- jobs that the frame has for it.
pub pool_slice_scheduler_next_lem :
    (initial : List Slot) (r0 r1 r2 : Bool) (w0 w1 w2 : ℕ)
    → w0 ≤ 99
    → w1 ≤ 99
    → w2 ≤ 99
    → has_work initial ≡ false
    → sum (ready_pool_weights (r0 ∷ r1 ∷ r2 ∷ []) (w0 ∷ w1 ∷ w2 ∷ [])) ≢ 0
    → Drained (r0 ∷ r1 ∷ r2 ∷ []) (frame_of (r0 ∷ r1 ∷ r2 ∷ []) (w0 ∷ w1 ∷ w2 ∷ [])) (
        run
          (total_chunks (frame_of (r0 ∷ r1 ∷ r2 ∷ []) (w0 ∷ w1 ∷ w2 ∷ [])))
          initial
          (r0 ∷ r1 ∷ r2 ∷ [])
          (ready_pool_weights (r0 ∷ r1 ∷ r2 ∷ []) (w0 ∷ w1 ∷ w2 ∷ [])))
pool_slice_scheduler_next_lem initial r0 r1 r2 w0 w1 w2 h0 h1 h2 idle some_pool =
    let rs : List Bool = r0 ∷ r1 ∷ r2 ∷ [] in
    let ws : List ℕ = ready_pool_weights rs (w0 ∷ w1 ∷ w2 ∷ []) in
    let (e0, (e1, (e2, (e, (le, waits))))) = effective r0 r1 r2 w0 w1 w2 h0 h1 h2 in
    let weighted : sum (e0 ∷ e1 ∷ e2 ∷ []) ≢ 0 = λ z. some_pool (ap sum e ∙ z) in
    subst
      (λ vs.
        Drained rs (build_frame vs (sum vs))
          (run (total_chunks (build_frame vs (sum vs))) initial rs vs))
      (sym e) (frame-Drained initial rs e0 e1 e2 le.0 le.1.0 le.1.1 idle weighted waits)
