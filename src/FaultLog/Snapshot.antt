-- ===== src/FaultLog/Snapshot.antt =====
-- Reading the fault history, newest entry first.
use m45_gamma_firmware.Base.{
  ℕ, zero, suc, ◌+◌, ◌-◌, ◌≤◌, ◌≡◌, refl, sym, ap, ◌∙◌, inl, inr, List, [], ◌∷◌, reverse,
  reverse-append, arith, ltb, ◌==◌, ==_iff, Bool-cases, length, get_or, take, length-append,
  length-take, take_of_le,
}
use m45_gamma_firmware.Base.Arrays.{take-suc}
use m45_gamma_firmware.FaultLog.{FaultStore, capacity, no_entry, snapshot, snapshot_loop}
use m45_gamma_firmware.FaultLog.History.{history, IsValid}

snapshot_loop-reverse :
    (g : FaultStore) (i n : ℕ)
    → i + n ≤ g.count
    → g.count ≤ length g.entries
    → snapshot_loop g i n ≡ take n (reverse (take (g.count - i) g.entries))
unfolding snapshot_loop
snapshot_loop-reverse g i zero h le = refl
snapshot_loop-reverse g i (suc n) h le =
    let m : ℕ = g.count - 1 - i in
    let top : g.count - i ≡ suc m = omega arith in
    let rest : g.count - (i + 1) ≡ m = omega arith in
    rw (top, take-suc m g.entries no_entry (omega arith), reverse-append (take m g.entries))
      (ap (λ r. get_or g.entries m no_entry ∷ r)
        (snapshot_loop-reverse g (i + 1) n (omega arith) le
          ∙ ap (λ k. take n (reverse (take k g.entries))) rest))

length-reverse {ℓ} : {A : Type ℓ} (xs : List A) → length (reverse xs) ≡ length xs
length-reverse [] = refl
length-reverse (x ∷ xs) =
    ap length (reverse-append (x ∷ []) xs)
    ∙ omega (arith, length-append (reverse xs) (x ∷ []), length-reverse xs)

-- `m45_fault_log_snapshot` gives the newest entries first, as many as the caller has room for.
pub snapshot-history :
    (g : FaultStore) (capacity : ℕ)
    → IsValid g
    → snapshot g capacity ≡ take capacity (reverse (history g))
unfolding snapshot
snapshot-history g capacity v = elim (Bool-cases (capacity == 0)) [
  | inl nothing ↦
      rw nothing (ap (λ n. take n (reverse (history g))) (sym ((==_iff capacity 0).0 nothing)))
  | inr something ↦ rw something (elim (Bool-cases (ltb g.count capacity)) [
    | inl all_fit ↦ rw all_fit (
        loop g.count (omega arith)
        ∙ take_of_le g.count (reverse (history g)) (omega (arith, len))
        ∙ sym (take_of_le capacity (reverse (history g)) (ground (arith, len, all_fit))))
    | inr cut ↦ rw cut (loop capacity (ground (arith, cut)))
  ])
]
  where
    len : length (reverse (history g)) ≡ g.count
    len = length-reverse (history g) ∙ omega (arith, length-take g.count g.entries)

    loop : (n : ℕ) → n ≤ g.count → snapshot_loop g 0 n ≡ take n (reverse (history g))
    loop n le = snapshot_loop-reverse g 0 n (omega arith) (omega arith) ∙ whole
      where
        whole : take n (reverse (take (g.count - 0) g.entries)) ≡ take n (reverse (history g))
        whole =
            let same : g.count - 0 ≡ g.count = omega arith in
            ap (λ k. take n (reverse (take k g.entries))) same
