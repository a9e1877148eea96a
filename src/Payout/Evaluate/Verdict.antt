-- ===== src/Payout/Evaluate/Verdict.antt =====
-- The percentage and the status against the sums that they stand for.
use m45_gamma_firmware.Base.{
  ℕ, ◌+◌, ◌*◌, ◌/◌, ◌%◌, ◌^◌, ◌≤◌, ◌<◌, ◌≡◌, refl, ◌↔◌, inl, inr, false, arith, ltb, ◌==◌, ltb→lt,
  Bool-cases,
}
use m45_gamma_firmware.Payout.Evaluate.{ok, low, judge, min_percent_x100}

quotient : (x t : ℕ) → 0 < t → (x / t * t ≤ x) × (x < x / t * t + t)
quotient x t pos = grind arith

-- The facts about a rounded share p of x = 10000 w + t / 2.
module _ (t x p : ℕ) (pos : 0 < t) (x_le : x < 10001 * t) (below : p * t ≤ x)
    (above : x < p * t + t) where
  share_le : p ≤ 10000
  share_le = grind arith

  at_least : 9700 ≤ p → 9700 * t ≤ x
  at_least h = grind arith

  at_most : p < 9700 → x < 9700 * t
  at_most h = grind arith

-- With a wallet sum that is not 0 and at most the total, and a total below 2^50 (more than all
-- bitcoin there can be), the percentage is the wallet's share in hundredths of a percent, rounded to
-- the nearest, at most 10000; the status is `ok` exactly from 97% on, and `low` below.
pub judge_lem :
    (total wallet : ℕ)
    → 0 < wallet
    → wallet ≤ total
    → total < 2 ^ 50
    → let r = judge total wallet in
      (r.percent_x100 ≤ 10000)
      × (r.percent_x100 * total ≤ wallet * 10000 + total / 2)
      × (wallet * 10000 + total / 2 < r.percent_x100 * total + total)
      × ((r.status ≡ ok) ↔ (9700 * total ≤ wallet * 10000 + total / 2))
      × ((r.status ≡ low) ↔ (wallet * 10000 + total / 2 < 9700 * total))
unfolding judge
judge_lem total wallet pos le small =
    let x : ℕ = wallet * 10000 + total / 2 in
    let p : ℕ = x / total in
    let q = quotient x total (omega arith) in
    let same : (wallet * 10000 % 2 ^ 64 + total / 2) % 2 ^ 64 ≡ x = omega arith in
    let paid : (wallet == 0) ≡ false = ground arith in
    let cap : p ≤ 10000 = share_le total x p (omega arith) (omega arith) q.0 q.1 in
    let fits : ltb 65535 p ≡ false = ground arith in
    rw (same, paid, fits)
      (
        cap,
        q.0,
        q.1,
        elim (Bool-cases (ltb p min_percent_x100)) [
          | inl lower ↦
              let under =
                at_most total x p (omega arith) (omega arith) q.0 q.1 (ltb→lt _ _ lower) in
              rw lower (λ e. cc, λ h. absurd (omega arith))
          | inr enough ↦
              let over =
                at_least total x p (omega arith) (omega arith) q.0 q.1 (ground (arith, enough)) in
              rw enough (λ e. over, λ h. refl)
        ],
        elim (Bool-cases (ltb p min_percent_x100)) [
          | inl lower ↦
              let under =
                at_most total x p (omega arith) (omega arith) q.0 q.1 (ltb→lt _ _ lower) in
              rw lower (λ e. under, λ h. refl)
          | inr enough ↦
              let over =
                at_least total x p (omega arith) (omega arith) q.0 q.1 (ground (arith, enough)) in
              rw enough (λ e. cc, λ h. absurd (omega arith))
        ],
      )
