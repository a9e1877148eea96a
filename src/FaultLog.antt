-- ===== src/FaultLog.antt =====
-- The persistent fault history, main/m45_fault_log.c.
use m45_gamma_firmware.Base.{
  ℕ, zero, suc, ◌+◌, ◌-◌, ◌%◌, ◌^◌, Bool, ◌&&◌, ◌||◌, not, Option, none, some, List, [], ◌∷◌, ltb,
  leb, ◌==◌, if◌then◌else◌, length, get_or, set, take, replicate, list_eq,
}
pub mod History
pub mod Removal
pub mod Snapshot
pub mod Repeat
mod Examples
use m45_gamma_firmware.Base.Arrays.{memmove}

-- `m45_fault_entry_t`. A message is a C string, without its final zero.
pub record FaultEntry : Type 0 where
  pub id : ℕ
  pub epoch_seconds : ℕ
  pub uptime_seconds : ℕ
  pub message : List ℕ

-- `fault_store_t`; `entries` has M45_FAULT_LOG_CAPACITY elements, of which `count` are in use.
pub record FaultStore : Type 0 where
  pub magic : ℕ
  pub next_id : ℕ
  pub count : ℕ
  pub entries : List FaultEntry

abbrev pub capacity : ℕ
capacity = 8

abbrev fault_message_max : ℕ
fault_message_max = 95

abbrev pub fault_magic : ℕ
fault_magic = 0x4d343546

abbrev valid_wall_time_epoch : ℕ
valid_wall_time_epoch = 1704067200

-- sizeof(fault_store_t)
abbrev pub store_size : ℕ
store_size = 976

-- `esp_err_t` values that the module itself returns or compares with.
abbrev pub esp_ok : ℕ
esp_ok = 0

abbrev pub err_invalid_arg : ℕ
err_invalid_arg = 0x102

abbrev pub err_not_found : ℕ
err_not_found = 0x105

abbrev pub err_nvs_not_found : ℕ
err_nvs_not_found = 0x1102

abbrev pub no_entry : FaultEntry
no_entry = record { id = 0; epoch_seconds = 0; uptime_seconds = 0; message = [] }

-- The store after `fault_store_reset`.
abbrev pub fault_store_reset : FaultStore
fault_store_reset = record {
  magic = fault_magic;
  next_id = 1;
  count = 0;
  entries = replicate capacity no_entry;
}

-- What the NVS library answers to one `fault_store_save_locked`.
pub record Nvs : Type 0 where
  pub open_err : ℕ
  pub set_err : ℕ
  pub commit_err : ℕ

-- The error code, and the blob handed to `nvs_set_blob`, if it came to that.
pub fault_store_save : Nvs → FaultStore → ℕ × Option FaultStore
fault_store_save nvs g_faults =
    if not (nvs.open_err == esp_ok)
    then (nvs.open_err, none)
    else (if nvs.set_err == esp_ok then nvs.commit_err else nvs.set_err, some g_faults)

-- What the NVS library answers on start: the code of `nvs_open`, and the code, size and contents
-- that `nvs_get_blob` gives. With the code ESP_ERR_NVS_NOT_FOUND it leaves its arguments alone.
pub record NvsLoad : Type 0 where
  pub open_err : ℕ
  pub get_err : ℕ
  pub size : ℕ
  pub blob : FaultStore

-- The store and the size variable after `nvs_get_blob`.
abbrev loaded : NvsLoad → FaultStore × ℕ
loaded nvs =
    if nvs.get_err == err_nvs_not_found
    then (fault_store_reset, store_size)
    else (nvs.blob, nvs.size)

pub init : NvsLoad → FaultStore × ℕ
init nvs =
    if nvs.open_err == err_nvs_not_found
    then (fault_store_reset, esp_ok)
    else if not (nvs.open_err == esp_ok)
    then (fault_store_reset, nvs.open_err)
    else let (g_faults, size) = loaded nvs in
      let err = if nvs.get_err == err_nvs_not_found then esp_ok else nvs.get_err in
      if not (err == esp_ok)
        || not (size == store_size)
        || not (g_faults.magic == fault_magic)
        || ltb capacity g_faults.count
        || (g_faults.next_id == 0)
      then (fault_store_reset, esp_ok)
      else (g_faults, err)

-- The test for a repetition of the newest entry within five seconds.
pub is_repeat : FaultStore → List ℕ → ℕ → Bool
is_repeat g message uptime_seconds =
    let latest = get_or g.entries (g.count - 1) no_entry in
    ltb 0 g.count
    && list_eq latest.message message
    && leb latest.uptime_seconds uptime_seconds
    && leb (uptime_seconds - latest.uptime_seconds) 5

-- `strlcpy` into the message field keeps 95 characters.
pub new_entry : FaultStore → List ℕ → ℕ → ℕ → FaultEntry
new_entry g message uptime_seconds now = record {
  id = g.next_id;
  epoch_seconds = if leb valid_wall_time_epoch now then now else 0;
  uptime_seconds = uptime_seconds;
  message = take fault_message_max message;
}

-- The entries move down by one when the array is full.
pub make_room : FaultStore → FaultStore
make_room g =
    if g.count == capacity
    then record g { entries = memmove g.entries 0 1 (capacity - 1); count = g.count - 1 }
    else g

pub append_entry : FaultStore → FaultEntry → FaultStore
append_entry g entry = record g {
  entries = set g.entries g.count entry;
  count = g.count + 1;
  next_id = if (g.next_id + 1) % 2 ^ 32 == 0 then 1 else (g.next_id + 1) % 2 ^ 32;
}

-- `m45_fault_log_record`: the uptime in seconds and `time(NULL)` are arguments. A null message is
-- the empty one here, which is refused alike.
pub record_fault : Nvs → FaultStore → List ℕ → ℕ → ℕ → FaultStore × (ℕ × Option FaultStore)
unfolding is_repeat make_room append_entry new_entry fault_store_save
record_fault nvs g message uptime_seconds now =
    if length message == 0
    then (g, (err_invalid_arg, none))
    else if is_repeat g message uptime_seconds
    then (g, (esp_ok, none))
    else let g' = append_entry (make_room g) (new_entry g message uptime_seconds now) in
      (g', fault_store_save nvs g')

-- The copy loop of `m45_fault_log_snapshot`, `n` rounds left.
snapshot_loop : FaultStore → ℕ → ℕ → List FaultEntry
snapshot_loop g i zero = []
snapshot_loop g i (suc n) = get_or g.entries (g.count - 1 - i) no_entry ∷ snapshot_loop g (i + 1) n

-- The entries written, newest first.
pub snapshot : FaultStore → ℕ → List FaultEntry
unfolding snapshot_loop
snapshot g capacity =
    if capacity == 0
    then []
    else snapshot_loop g 0 (if ltb g.count capacity then g.count else capacity)

-- The search loop of `m45_fault_log_remove`: the first index with this id among the next n entries,
-- or n.
pub find_id : ℕ → ℕ → List FaultEntry → ℕ
find_id id zero entries = 0
find_id id (suc n) [] = suc n
find_id id (suc n) (entry ∷ entries) = if entry.id == id then 0 else suc (find_id id n entries)

-- The array after entry `index` has been taken out and the last used place cleared.
pub erase_at : FaultStore → ℕ → FaultStore
erase_at g index =
    let moved =
      if ltb (index + 1) g.count
      then memmove g.entries index (index + 1) (g.count - index - 1)
      else g.entries in
    record g { entries = set moved (g.count - 1) no_entry; count = g.count - 1 }

pub remove : Nvs → FaultStore → ℕ → FaultStore × (ℕ × Option FaultStore)
unfolding find_id erase_at fault_store_save
remove nvs g id =
    let index = find_id id g.count g.entries in
    if index == g.count
    then (g, (err_not_found, none))
    else let g' = erase_at g index in (g', fault_store_save nvs g')

unfoldable pub clear : Nvs → FaultStore → FaultStore × (ℕ × Option FaultStore)
unfolding fault_store_save
clear nvs g =
    let g' : FaultStore = record fault_store_reset {
      next_id = if g.next_id == 0 then 1 else g.next_id;
    } in
    (g', fault_store_save nvs g')
