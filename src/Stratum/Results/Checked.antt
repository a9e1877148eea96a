-- ===== src/Stratum/Results/Checked.antt =====
-- Which nonces main/stratum_minimal.c submits, and that the pool finds them good.
use m45_gamma_firmware.Base.{
  ℕ, ◌≤◌, bit_and, bit_or, bit_xor, ◌≡◌, refl, ap, subst, ◌⊎◌, inl, inr, Bool, true, false, ◌&&◌,
  not, none, some, List, arith, ltb, leb, ◌==◌, if◌then◌else◌, ==_iff, Bool-cases,
}
use m45_gamma_firmware.Base.Bits.{bit_xor_cancel}
use m45_gamma_firmware.Asic.Bm1370.{TaskResult}
use m45_gamma_firmware.Mining.Header.{test_nonce_header, complement}
use m45_gamma_firmware.Stratum.Work.{is_positive}
use m45_gamma_firmware.Stratum.Results.{ActiveJob, Share, nonce_error, dropped, valid, judge_job}

-- What makes a nonce a share: its version bits lie under the mask of the job, where it has one, the
-- work goes on, and the difficulty is positive and not below the job's or the pool's.
pub record IsShare (difficulty : List ℕ → ℕ) (a : ActiveJob) (r : TaskResult) (current_diff : ℕ)
    (s : Share) : Type 0 where
  pub of_job : s.active ≡ a
  pub same_nonce : s.nonce ≡ r.nonce
  pub masked : (a.version_mask ≡ 0) ⊎ (bit_and r.version_bits (complement a.version_mask) ≡ 0)
  pub changed : s.version_bits ≡ bit_xor (bit_or a.job.version r.version_bits) a.job.version
  pub measured :
      difficulty (test_nonce_header a.job r.nonce (bit_xor s.version_bits a.job.version)) ≡ s.diff
  pub positive : is_positive s.diff ≡ true
  pub enough : (a.pool_diff ≤ s.diff) × (current_diff ≤ s.diff)

inverted :
    (bad zero_diff paused weak block block' : Bool) (s s' : Share)
    → (if bad
        then nonce_error
        else if zero_diff
        then nonce_error
        else if paused
        then dropped
        else valid block (if weak then none else some s))
      ≡ valid block' (some s')
    → (bad ≡ false) × (zero_diff ≡ false) × (paused ≡ false) × (weak ≡ false) × (s ≡ s')
inverted true zero_diff paused weak block block' s s' h = absurd (cc)
inverted false true paused weak block block' s s' h = absurd (cc)
inverted false false true weak block block' s s' h = absurd (cc)
inverted false false false true block block' s s' h = absurd (cc)
inverted false false false false block block' s s' h = (refl, refl, refl, refl, cc)

mask_cases :
    (mask over : ℕ) → (not (mask == 0) && not (over == 0)) ≡ false → (mask ≡ 0) ⊎ (over ≡ 0)
mask_cases mask over h = elim (Bool-cases (mask == 0)) [
  | inl e ↦ inl ((==_iff mask 0).0 e)
  | inr e ↦ inr (ground (arith, e))
]

reached :
    (pool_diff current_diff diff : ℕ)
    → ltb diff (if ltb pool_diff current_diff then current_diff else pool_diff) ≡ false
    → (pool_diff ≤ diff) × (current_diff ≤ diff)
reached pool_diff current_diff diff h = (ground arith, ground arith)

not_less :
    {pool_diff current_diff diff : ℕ}
    → pool_diff ≤ diff
    → current_diff ≤ diff
    → ltb diff (if ltb pool_diff current_diff then current_diff else pool_diff) ≡ false
not_less own pool = ground arith

module _ (difficulty : List ℕ → ℕ) (a : ActiveJob) (r : TaskResult) (current_diff : ℕ) where
  -- A nonce is submitted only if the work goes on and it is a share: with the version that the pool
  -- gets by applying the submitted bits to the job's, the header reaches both difficulties.
  pub judge_job-IsShare :
      (work_paused block : Bool) (s : Share)
      → judge_job difficulty a r work_paused current_diff ≡ valid block (some s)
      → (work_paused ≡ false) × IsShare difficulty a r current_diff s
  unfolding judge_job
  judge_job-IsShare work_paused block s h =
      let rolled : ℕ = bit_or a.job.version r.version_bits in
      let diff : ℕ = difficulty (test_nonce_header a.job r.nonce rolled) in
      let made : Share = record {
        active = a;
        nonce = r.nonce;
        version_bits = bit_xor rolled a.job.version;
        diff = diff;
      } in
      let over : ℕ = bit_and r.version_bits (complement a.version_mask) in
      let (good, measured, running, strong, same) =
        inverted (not (a.version_mask == 0) && not (over == 0)) (not (is_positive diff)) work_paused
          (ltb diff (if ltb a.pool_diff current_diff then current_diff else a.pool_diff))
          (is_positive a.block_diff && leb a.block_diff diff) block made s h in
      (
        running,
        subst (IsShare difficulty a r current_diff) same (record {
          of_job = refl;
          same_nonce = refl;
          masked = mask_cases a.version_mask over good;
          changed = refl;
          measured =
              ap (λ v. difficulty (test_nonce_header a.job r.nonce v))
                (bit_xor_cancel rolled a.job.version);
          positive = ground (arith, measured);
          enough = reached a.pool_diff current_diff diff strong;
        }),
      )

  -- Conversely a nonce whose bits are masked, whose header has a positive difficulty and reaches
  -- both, is submitted while the work goes on.
  pub judge_job-share :
      (a.version_mask ≡ 0) ⊎ (bit_and r.version_bits (complement a.version_mask) ≡ 0)
      → let rolled = bit_or a.job.version r.version_bits in
        let diff = difficulty (test_nonce_header a.job r.nonce rolled) in
        is_positive diff ≡ true
        → a.pool_diff ≤ diff
        → current_diff ≤ diff
        → judge_job difficulty a r false current_diff
          ≡ valid (is_positive a.block_diff && leb a.block_diff diff) (
              some (record {
                active = a;
                nonce = r.nonce;
                version_bits = bit_xor rolled a.job.version;
                diff = diff;
              }))
  unfolding judge_job
  judge_job-share (inl m) positive own pool =
      let enough = not_less own pool in rw (m, positive, enough) refl
  judge_job-share (inr m) positive own pool =
      let enough = not_less own pool in
      rw (m, positive, enough)
        (elim (Bool-cases (a.version_mask == 0)) [ inl e ↦ rw e refl | inr e ↦ rw e refl ])
