-- ===== src/FaultLog/Examples.antt =====
-- The fault history on a concrete store.
use m45_gamma_firmware.Base.{
  ◌+◌, ◌-◌, ◌≡◌, refl, false, none, [], ◌∷◌, ◌++◌, arith, drop, replicate,
}
use m45_gamma_firmware.FaultLog.{
  FaultEntry, FaultStore, fault_magic, err_not_found, no_entry, Nvs, init, is_repeat, new_entry,
  record_fault, remove,
}
use m45_gamma_firmware.FaultLog.History.{history, IsValid, init-IsValid, record_fault-history}
use m45_gamma_firmware.FaultLog.Removal.{without, Absent, remove-history}

abbrev entry : FaultEntry
entry = record { id = 1; epoch_seconds = 0; uptime_seconds = 10; message = b'A' ∷ [] }

abbrev one_entry : FaultStore
one_entry = record {
  magic = fault_magic;
  next_id = 2;
  count = 1;
  entries = entry ∷ replicate 7 no_entry;
}

one_entry-IsValid : IsValid one_entry
one_entry-IsValid = record {
  magic = refl;
  room = refl;
  count_le = omega arith;
  next_pos = omega arith;
  next_lt = omega arith;
}

abbrev flash : Nvs
flash = record { open_err = 0; set_err = 0; commit_err = 0 }

init-IsValid_example :
    IsValid (init (record { open_err = 0; get_err = 0; size = 4; blob = one_entry })).0
init-IsValid_example =
    init-IsValid (record { open_err = 0; get_err = 0; size = 4; blob = one_entry }) refl
      (omega arith)

record_fault-history_example :
    let g' = (record_fault flash one_entry (b'B' ∷ []) 20 0).0 in
    (history g' ≡ drop (1 - 7) (history one_entry) ++ (new_entry one_entry (b'B' ∷ []) 20 0 ∷ []))
    × IsValid g'
record_fault-history_example =
    record_fault-history flash one_entry (b'B' ∷ []) 20 0 one_entry-IsValid (omega arith) fresh
  where
    fresh : is_repeat one_entry (b'B' ∷ []) 20 ≡ false
    fresh = unfold is_repeat in refl

remove-history_example :
    let g' = (remove flash one_entry 1).0 in
    (history g' ≡ without 1 (history one_entry))
    × (Absent 1 (history one_entry) → remove flash one_entry 1 ≡ (one_entry, (err_not_found, none)))
    × (¬ Absent 1 (history one_entry) → g'.count + 1 ≡ 1)
    × IsValid g'
remove-history_example = remove-history flash one_entry 1 one_entry-IsValid
