-- ===== src/FaultLog/History.antt =====
-- The entries in use, oldest first, are a list of at most eight; what each operation does to it.
use m45_gamma_firmware.Base.{
  ℕ, suc, ◌+◌, ◌-◌, ◌^◌, ◌≤◌, ◌<◌, ◌≡◌, sym, ap, ◌∙◌, inl, inr, false, List, [], ◌∷◌, ◌++◌, arith,
  ◌==◌, ==_iff, Bool-cases, length, set, take, drop, length-set, length-take, length-drop,
}
use m45_gamma_firmware.Base.Arrays.{memmove, length-memmove, take-set_end, take_prefix, drop-take}
use m45_gamma_firmware.FaultLog.{
  FaultEntry, FaultStore, capacity, fault_magic, Nvs, NvsLoad, init, is_repeat, new_entry,
  make_room, append_entry, record_fault,
}

abbrev pub history : FaultStore → List FaultEntry
history g = take g.count g.entries

pub record IsValid (g : FaultStore) : Type 0 where
  pub magic : g.magic ≡ fault_magic
  pub room : length g.entries ≡ capacity
  pub count_le : g.count ≤ capacity
  pub next_pos : 0 < g.next_id
  pub next_lt : g.next_id < 2 ^ 32

-- Whatever the flash holds, the store is valid after `init`, if a blob of the right size is read
-- into the eight entries and its id counter is a 32-bit number.
pub init-IsValid :
    (nvs : NvsLoad)
    → length nvs.blob.entries ≡ capacity
    → nvs.blob.next_id < 2 ^ 32
    → IsValid (init nvs).0
unfolding init
init-IsValid nvs room lt = ground arith

append_entry-history :
    (g : FaultStore) (e : FaultEntry)
    → g.count < length g.entries
    → history (append_entry g e) ≡ history g ++ (e ∷ [])
unfolding append_entry
append_entry-history g e lt =
    let one_more : g.count + 1 ≡ suc g.count = omega arith in
    ap (λ n. take n (set g.entries g.count e)) one_more ∙ take-set_end g.entries g.count e lt

make_room-history :
    (g : FaultStore)
    → IsValid g
    → (history (make_room g) ≡ drop (g.count - 7) (history g))
      × (length (make_room g).entries ≡ capacity)
      × ((make_room g).count < capacity)
unfolding make_room
make_room-history g v = elim (Bool-cases (g.count == capacity)) [
  | inl full ↦ rw full (
    shifted g.entries g.count ((==_iff g.count capacity).0 full) v.room,
    length-memmove g.entries 0 1 7 (omega arith) (omega arith) ∙ v.room,
    ground (arith, full),
  )
  | inr space ↦ rw space (
    let none_off : 0 ≡ g.count - 7 = ground (arith, space) in
        ap (λ k. drop k (take g.count g.entries)) none_off,
    v.room,
    ground (arith, space),
  )
]
  where
    shifted :
        (es : List FaultEntry) (c : ℕ)
        → c ≡ 8
        → length es ≡ 8
        → take (c - 1) (memmove es 0 1 7) ≡ drop (c - 7) (take c es)
    shifted es c e len = rw e (
        unfold memmove in
        take_prefix [] (take 7 (drop 1 es)) (drop 7 es) 7
          (omega (arith, length-take 7 (drop 1 es), length-drop 1 es))
        ∙ sym (drop-take 1 8 es))

append_entry-IsValid :
    (g : FaultStore) (e : FaultEntry)
    → g.magic ≡ fault_magic
    → length g.entries ≡ capacity
    → g.count < capacity
    → IsValid (append_entry g e)
unfolding append_entry
append_entry-IsValid g e magic room lt = ground (arith, length-set g.entries g.count e)

-- A message that is not a repetition is appended to the history, as the entry that the code builds;
-- of eight entries the oldest is dropped. The store stays valid.
pub record_fault-history :
    (nvs : Nvs) (g : FaultStore) (message : List ℕ) (uptime now : ℕ)
    → IsValid g
    → 0 < length message
    → is_repeat g message uptime ≡ false
    → let g' = (record_fault nvs g message uptime now).0 in
      (history g' ≡ drop (g.count - 7) (history g) ++ (new_entry g message uptime now ∷ []))
      × IsValid g'
unfolding record_fault
record_fault-history nvs g message uptime now v some_text fresh =
    let (kept, room, space) = make_room-history g v in
    let e = new_entry g message uptime now in
    let given : (length message == 0) ≡ false = ground arith in
    rw (given, fresh)
      (
        append_entry-history (make_room g) e (omega arith) ∙ ap (λ h. h ++ (e ∷ [])) kept,
        append_entry-IsValid (make_room g) e (make_room-magic g ∙ v.magic) room space,
      )
  where
    make_room-magic : (s : FaultStore) → (make_room s).magic ≡ s.magic
    make_room-magic s = unfold make_room in ground arith
