-- ===== src/FaultLog/Repeat.antt =====
-- When a fault counts as a repetition of the newest one.
use m45_gamma_firmware.Base.{
  ℕ, ◌-◌, ◌≤◌, ◌<◌, ◌≡◌, ap, false, List, arith, length, get_or, list_eq→eq,
}
use m45_gamma_firmware.FaultLog.{FaultStore, no_entry, is_repeat}

-- A message of more than 95 characters is never a repetition, since the stored copy is shorter.
pub is_repeat_long :
    (g : FaultStore) (message : List ℕ) (uptime : ℕ)
    → length (get_or g.entries (g.count - 1) no_entry).message ≤ 95
    → 95 < length message
    → is_repeat g message uptime ≡ false
unfolding is_repeat
is_repeat_long g message uptime short long = ground (
  arith,
  list_eq→eq (get_or g.entries (g.count - 1) no_entry).message message,
  ap (length {A = ℕ}),
)
