-- ===== src/FaultLog/Removal.antt =====
-- Removing an entry from the fault history.
use m45_gamma_firmware.Base.{
  ℕ, zero, suc, ◌+◌, ◌-◌, ◌≤◌, ◌<◌, ◌≡◌, refl, sym, ap, ◌∙◌, ◌≢◌, ◌↔◌, inl, inr, none, List, [],
  ◌∷◌, ◌++◌, append-nil, arith, ltb, ◌==◌, if◌then◌else◌, ltb→lt, ==_iff, Bool-cases, length, take,
  drop, All, length-set, length-take, length-drop,
}
use m45_gamma_firmware.Base.Arrays.{memmove, length-memmove, take-set, take_prefix}
use m45_gamma_firmware.FaultLog.{
  FaultEntry, FaultStore, err_not_found, no_entry, Nvs, find_id, erase_at, remove,
}
use m45_gamma_firmware.FaultLog.History.{history, IsValid}

-- `remove` without the first entry of that id.
abbrev pub without : ℕ → List FaultEntry → List FaultEntry
without id [] = []
without id (e ∷ es) = if e.id == id then es else e ∷ without id es

abbrev pub Absent : ℕ → List FaultEntry → Type 0
Absent id = All (λ e. e.id ≢ id)

find_id_found :
    (id n : ℕ) (es : List FaultEntry)
    → n ≤ length es
    → find_id id n es < n
    → without id (take n es)
      ≡ take (find_id id n es) es
        ++ take (n - suc (find_id id n es)) (drop (suc (find_id id n es)) es)
unfolding find_id
find_id_found id zero es le lt = absurd (omega arith)
find_id_found id (suc n) [] le lt = absurd (omega arith)
find_id_found id (suc n) (e ∷ es) le lt = elim (Bool-cases (e.id == id)) [
  | inl here ↦ let all_left : n ≡ suc n - 1 = omega arith in rw here (ap (λ k. take k es) all_left)
  | inr later ↦
      let left : n - suc (find_id id n es) ≡ suc n - suc (suc (find_id id n es)) = omega arith in
      rw later (
        ap (λ r. e ∷ r)
          (find_id_found id n es (omega arith) (ground (arith, later))
            ∙ ap (λ k. take (find_id id n es) es ++ take k (drop (suc (find_id id n es)) es)) left))
]

find_id-Absent :
    (id n : ℕ) (es : List FaultEntry)
    → n ≤ length es
    → (find_id id n es ≡ n) ↔ Absent id (take n es)
unfolding find_id
find_id-Absent id zero es le = (λ e. tt, λ a. refl)
find_id-Absent id (suc n) [] le = absurd (omega arith)
find_id-Absent id (suc n) (e ∷ es) le =
    let rest = find_id-Absent id n es (omega arith) in
    elim (Bool-cases (e.id == id)) [
      | inl here ↦ rw here (λ q. absurd (omega arith), λ a. absurd (a.0 ((==_iff e.id id).0 here)))
      | inr later ↦ rw later (
        λ q. (λ same. cc (later, (==_iff e.id id).1 same), rest.0 (omega arith)),
        λ a. ap suc (rest.1 a.1),
      )
    ]

erase_at-history :
    (g : FaultStore) (i : ℕ)
    → i < g.count
    → g.count ≤ length g.entries
    → history (erase_at g i) ≡ take i g.entries ++ take (g.count - suc i) (drop (suc i) g.entries)
unfolding erase_at
erase_at-history g i lt le =
    take-set (g.count - 1) moved (g.count - 1) no_entry (omega arith)
    ∙ elim (Bool-cases (ltb (i + 1) g.count)) [
      | inl more ↦ rw more (inside (ltb→lt (i + 1) g.count more))
      | inr last ↦ rw last (at_end (ground (arith, last)))
    ]
  where
    moved : List FaultEntry
    moved = if ltb (i + 1) g.count then memmove g.entries i (i + 1) (g.count - i - 1) else g.entries

    kept : List FaultEntry
    kept = take i g.entries ++ take (g.count - suc i) (drop (suc i) g.entries)

    inside :
        i + 1 < g.count → take (g.count - 1) (memmove g.entries i (i + 1) (g.count - i - 1)) ≡ kept
    inside more =
        let n : g.count - i - 1 ≡ g.count - suc i = omega arith in
        let from : i + 1 ≡ suc i = omega arith in
        rw (n, from)
          (unfold memmove in
            take_prefix (take i g.entries) (take (g.count - suc i) (drop (suc i) g.entries))
              (drop (i + (g.count - suc i)) g.entries) (g.count - 1)
              (omega (
                arith,
                length-take i g.entries,
                length-take (g.count - suc i) (drop (suc i) g.entries),
                length-drop (suc i) g.entries,
              )))

    at_end : g.count ≡ suc i → take (g.count - 1) g.entries ≡ kept
    at_end e =
        let n : g.count - 1 ≡ i = omega arith in
        let none_left : g.count - suc i ≡ 0 = omega arith in
        rw (n, none_left) (sym (append-nil (take i g.entries)))

without-Absent : (id : ℕ) (es : List FaultEntry) → Absent id es → without id es ≡ es
without-Absent id [] a = refl
without-Absent id (e ∷ es) a = elim (Bool-cases (e.id == id)) [
  | inl here ↦ absurd (a.0 ((==_iff e.id id).0 here))
  | inr later ↦ rw later (ap (λ r. e ∷ r) (without-Absent id es a.1))
]

find_id-le : (id n : ℕ) (es : List FaultEntry) → find_id id n es ≤ n
unfolding find_id
find_id-le id zero es = omega arith
find_id-le id (suc n) [] = omega arith
find_id-le id (suc n) (e ∷ es) = ground (arith, find_id-le id n es)

erase_at-IsValid : (g : FaultStore) (i : ℕ) → IsValid g → i < g.count → IsValid (erase_at g i)
unfolding erase_at
erase_at-IsValid g i v lt = ground (
  arith,
  length-set (memmove g.entries i (i + 1) (g.count - i - 1)) (g.count - 1) no_entry,
  length-memmove g.entries i (i + 1) (g.count - i - 1),
  length-set g.entries (g.count - 1) no_entry,
)

count-erase_at : (g : FaultStore) (i : ℕ) → i < g.count → (erase_at g i).count + 1 ≡ g.count
unfolding erase_at
count-erase_at g i lt = omega arith

-- `remove` answers ESP_ERR_NOT_FOUND, and changes nothing, exactly when no entry of the history has
-- the id; else it takes out the first entry that has it. The store stays valid.
pub remove-history :
    (nvs : Nvs) (g : FaultStore) (id : ℕ)
    → IsValid g
    → let g' = (remove nvs g id).0 in
      (history g' ≡ without id (history g))
      × (Absent id (history g) → remove nvs g id ≡ (g, (err_not_found, none)))
      × (¬ Absent id (history g) → g'.count + 1 ≡ g.count)
      × IsValid g'
unfolding remove
remove-history nvs g id v =
    let i = find_id id g.count g.entries in
    let fits : g.count ≤ length g.entries = omega arith in
    let absent = find_id-Absent id g.count g.entries fits in
    elim (Bool-cases (i == g.count)) [
      | inl missing ↦
          let none_here = absent.0 ((==_iff i g.count).0 missing) in
          rw missing (
            sym (without-Absent id (history g) none_here),
            λ a. refl,
            λ some_here. absurd (some_here none_here),
            v,
          )
      | inr found ↦
          let lt : i < g.count = ground (arith, found, find_id-le id g.count g.entries) in
          rw found (
            erase_at-history g i lt fits ∙ sym (find_id_found id g.count g.entries fits lt),
            λ a. absurd (omega (arith, absent.1 a)),
            λ some_here. count-erase_at g i lt,
            erase_at-IsValid g i v lt,
          )
    ]
