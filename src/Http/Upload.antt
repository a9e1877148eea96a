-- ===== src/Http/Upload.antt =====
-- The upload of a firmware image, `ota_install_handler` of main/wifi_http.c: the pieces that arrive,
-- the partition table of a factory image, and what is written to the flash.
use m45_gamma_firmware.Base.{
  ℕ, zero, suc, ◌+◌, ◌-◌, ◌*◌, ◌/◌, ◌^◌, bit_or, ◌⊎◌, inl, inr, Bool, true, false, ◌&&◌, ◌||◌, not,
  Option, none, some, List, [], ◌∷◌, ◌++◌, ltb, leb, ◌==◌, if◌then◌else◌, length, get_or, take,
  drop, replicate,
}
use m45_gamma_firmware.Base.Arrays.{memcpy}
mod Examples
pub mod Table
pub mod Read
pub mod Pieces
pub mod Writes
pub mod Whole

abbrev pub table_offset : ℕ
table_offset = 0x8000

abbrev pub table_size : ℕ
table_size = 0xC00

-- `SIZE_MAX` of the 32-bit processor: no image is known.
abbrev pub size_max : ℕ
size_max = 0xFFFFFFFF

abbrev pub image_magic : ℕ
image_magic = 0xE9

-- `partition_table`, `table_bytes`, `image_offset`, `image_size`, `ota_started`,
-- `factory_table_checked`, `received`, and what was written since `esp_ota_begin`.
pub record Upload : Type 0 where
  pub received : ℕ
  pub table : List ℕ
  pub table_bytes : ℕ
  pub image_offset : ℕ
  pub image_size : ℕ
  pub flash : List ℕ
  pub started : Bool
  pub checked : Bool

abbrev pub no_upload : Upload
no_upload = record {
  received = 0;
  table = replicate table_size 0;
  table_bytes = 0;
  image_offset = size_max;
  image_size = 0;
  flash = [];
  started = false;
  checked = false;
}

pub data UploadError : Type 0 where
  timed_out : UploadError
  upload_failed : UploadError
  unsupported_image : UploadError
  invalid_app : UploadError
  begin_failed : UploadError
  write_failed : UploadError
  empty_app : UploadError

-- What one round of the loop meets: a time-out of the whole upload or of the socket only, a broken
-- connection, or bytes, with whether `esp_ota_begin` and `esp_ota_write` succeed on them.
pub data Round : Type 0 where
  late : Round
  waited : Round
  broken : Round
  piece : List ℕ → Bool → Bool → Round

pub read_le32 : List ℕ → ℕ
read_le32 bytes =
    bit_or
      (bit_or (bit_or (get_or bytes 0 0) (get_or bytes 1 0 * 2 ^ 8)) (get_or bytes 2 0 * 2 ^ 16))
      (get_or bytes 3 0 * 2 ^ 24)

-- `app_type` is ESP_PARTITION_TYPE_APP.
module _ (app_type : ℕ) where
  unfoldable pub range_loop : List ℕ → ℕ → ℕ → Option (ℕ × ℕ)
  unfolding read_le32
  range_loop table offset zero = none
  range_loop table offset (suc entries) =
      let entry = drop offset table in
      let rest = range_loop table (offset + 32) entries in
      if get_or entry 0 0 == 0xFF && get_or entry 1 0 == 0xFF
      then none
      else if not (get_or entry 0 0 == 0xAA) || not (get_or entry 1 0 == 0x50)
      then none
      else if not (get_or entry 2 0 == app_type)
      then rest
      else if read_le32 (drop 4 entry) == 0 || read_le32 (drop 8 entry) == 0
      then none
      else some (read_le32 (drop 4 entry), read_le32 (drop 8 entry))

  -- The table has room for 96 entries of 32 bytes.
  unfoldable pub ota_factory_app_range : List ℕ → Option (ℕ × ℕ)
  unfolding range_loop
  ota_factory_app_range table = range_loop table 0 (table_size / 32)

-- `content_len` is the length that the request announces.
pub note_magic : ℕ → List ℕ → Upload → Upload
note_magic content_len buf u =
    if u.image_offset == size_max && u.received == 0 && get_or buf 0 0 == image_magic
    then record u { image_offset = 0; image_size = content_len }
    else u

abbrev pub table_needed : List ℕ → Upload → Bool
table_needed buf u =
    not u.checked && (ltb table_offset (u.received + length buf) && ltb u.table_bytes table_size)

pub copy_table : List ℕ → Upload → Upload
copy_table buf u =
    let chunk_end = u.received + length buf in
    let copy_start = if ltb table_offset u.received then u.received else table_offset in
    let copy_end =
      if ltb chunk_end (table_offset + table_size) then chunk_end else table_offset + table_size in
    if ltb copy_start copy_end
    then record u {
      table =
          memcpy u.table (copy_start - table_offset)
            (take (copy_end - copy_start) (drop (copy_start - u.received) buf));
      table_bytes =
          if copy_start - table_offset == u.table_bytes
          then u.table_bytes + (copy_end - copy_start)
          else u.table_bytes;
    }
    else u

module _ (app_type : ℕ) where
  pub check_table : Upload → UploadError ⊎ Upload
  unfolding ota_factory_app_range
  check_table u =
      if leb table_size u.table_bytes
      then elim (ota_factory_app_range app_type u.table) [
        | none ↦
            if u.image_offset == size_max
            then inl unsupported_image
            else inr (record u { checked = true })
        | some (offset, size) ↦
            if ltb 0 offset
            then inr (record u {
              checked = true;
              started = false;
              flash = if u.started then [] else u.flash;
              image_offset = offset;
              image_size = size;
            })
            else inr (record u { checked = true })
      ]
      else inr u

  pub read_table : List ℕ → Upload → UploadError ⊎ Upload
  unfolding copy_table check_table
  read_table buf u = if table_needed buf u then check_table (copy_table buf u) else inr u

-- `capacity` is the size of the partition.
pub write_image : ℕ → ℕ → List ℕ → Bool → Bool → Upload → UploadError ⊎ Upload
write_image capacity content_len buf begin_ok write_ok u =
    let chunk_end = u.received + length buf in
    let image_end =
      if ltb (size_max - u.image_offset) u.image_size
      then content_len
      else u.image_offset + u.image_size in
    let end = if ltb content_len image_end then content_len else image_end in
    let write_start = if ltb u.image_offset u.received then u.received else u.image_offset in
    let write_end = if ltb chunk_end end then chunk_end else end in
    let written = take (write_end - write_start) (drop (write_start - u.received) buf) in
    if u.image_offset == size_max
    then (if leb (table_offset + table_size) chunk_end then inl unsupported_image else inr u)
    else if not (ltb write_start write_end)
    then inr u
    else if not u.started && not (get_or written 0 0 == image_magic)
    then inl invalid_app
    else if not u.started && not begin_ok
    then inl begin_failed
    else if ltb capacity (length u.flash + length written) || not write_ok
    then inl write_failed
    else inr (record u { started = true; flash = u.flash ++ written })

module _ (app_type capacity content_len : ℕ) where
  pub take_piece : List ℕ → Bool → Bool → Upload → UploadError ⊎ Upload
  unfolding note_magic read_table write_image
  take_piece buf begin_ok write_ok u =
      elim (read_table app_type buf (note_magic content_len buf u)) [
        | inl error ↦ inl error
        | inr v ↦ elim (write_image capacity content_len buf begin_ok write_ok v) [
          | inl error ↦ inl error
          | inr w ↦ inr (record w { received = w.received + length buf })
        ]
      ]

  -- The test behind the loop.
  abbrev pub finish : Upload → UploadError ⊎ Upload
  finish u = if not u.started || length u.flash == 0 then inl empty_app else inr u

  -- The loop, over the rounds it meets, until the announced length has come: without more of them it
  -- runs out of time.
  pub upload_loop : List Round → Upload → UploadError ⊎ Upload
  unfolding take_piece
  upload_loop [] u = if leb content_len u.received then finish u else inl timed_out
  upload_loop (late ∷ rounds) u = if leb content_len u.received then finish u else inl timed_out
  upload_loop (waited ∷ rounds) u =
      let rest = upload_loop rounds u in if leb content_len u.received then finish u else rest
  upload_loop (broken ∷ rounds) u =
      if leb content_len u.received then finish u else inl upload_failed
  upload_loop (piece buf begin_ok write_ok ∷ rounds) u =
      let rest : UploadError ⊎ Upload = elim (take_piece buf begin_ok write_ok u) [
        | inl error ↦ inl error
        | inr v ↦ upload_loop rounds v
      ] in
      if leb content_len u.received then finish u else rest
