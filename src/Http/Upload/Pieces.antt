-- ===== src/Http/Upload/Pieces.antt =====
-- One piece of the upload of an application image to main/wifi_http.c.
use m45_gamma_firmware.Base.{
  ℕ, ◌+◌, ◌-◌, ◌≤◌, ◌<◌, ◌≡◌, refl, sym, ap, ap₂, ◌∙◌, ◌⊎◌, inl, inr, true, false, none, List, ◌++◌,
  arith, ltb, ◌==◌, ==_iff, length, get_or, take, drop, length-append,
}
use m45_gamma_firmware.Http.Upload.{
  Upload, size_max, table_offset, table_size, image_magic, ota_factory_app_range, note_magic,
  read_table, write_image, take_piece,
}
use m45_gamma_firmware.Http.Upload.Table.{TableAt}
use m45_gamma_firmware.Http.Upload.Read.{PlainRead, read_table-plain}
use m45_gamma_firmware.Http.Upload.Writes.{image_in, write_image-image}

-- All that has come was written, as an image from the first byte on.
pub record PlainAt (content_len : ℕ) (u : Upload) (all : List ℕ) : Type 0 where
  pub table : TableAt u all
  pub here : u.received ≡ length all
  pub image :
      ((length all ≡ 0) × (u.image_offset ≡ size_max))
      ⊎ ((0 < length all) × ((u.image_offset ≡ 0) × (u.image_size ≡ content_len)))
  pub flash : u.flash ≡ image_in 0 content_len all
  pub started : u.started ≡ ltb 0 (length all)

note_magic-plain :
    (content_len : ℕ) (u : Upload) (all buf : List ℕ)
    → PlainAt content_len u all
    → (length all ≡ 0 → get_or buf 0 0 ≡ image_magic)
    → note_magic content_len buf u ≡ record u { image_offset = 0; image_size = content_len }
unfolding note_magic
note_magic-plain content_len u all buf p magic = elim p.image [
  | inl (none_yet, unknown) ↦
      let first : (get_or buf 0 0 == image_magic) ≡ true =
        (==_iff (get_or buf 0 0) image_magic).1 (magic none_yet) in
      let at_start : (u.received == 0) ≡ true = (==_iff u.received 0).1 (p.here ∙ none_yet) in
      let not_known : (u.image_offset == size_max) ≡ true =
        (==_iff u.image_offset size_max).1 unknown in
      rw (not_known, at_start, first) refl
  | inr (some_bytes, (offset, size)) ↦
      let known : (u.image_offset == size_max) ≡ false = rw offset refl in
      rw known (ap₂ (λ (o : ℕ) (n : ℕ). record u { image_offset = o; image_size = n }) offset size)
]

take_piece-steps :
    (app_type capacity content_len : ℕ) (u v w : Upload) (buf : List ℕ)
    → read_table app_type buf (note_magic content_len buf u) ≡ inr v
    → write_image capacity content_len buf true true v ≡ inr w
    → take_piece app_type capacity content_len buf true true u
      ≡ inr (record w { received = w.received + length buf })
unfolding take_piece
take_piece-steps app_type capacity content_len u v w buf read written =
    rw (take_piece, read, written) refl

-- A piece of the upload.
pub take_piece-plain :
    (app_type capacity content_len : ℕ) (u : Upload) (all buf rest : List ℕ)
    → PlainAt content_len u all
    → (length all ≡ 0 → get_or buf 0 0 ≡ image_magic)
    → 0 < length buf
    → 0 < content_len
    → content_len < size_max
    → content_len ≤ capacity
    → ota_factory_app_range app_type (take table_size (drop table_offset ((all ++ buf) ++ rest)))
      ≡ none
    → (v : Upload) × ((take_piece app_type capacity content_len buf true true u ≡ inr v)
        × PlainAt content_len v (all ++ buf))
take_piece-plain app_type capacity content_len u all buf rest p magic some_bytes some_len small room
      no_range =
    let noted : Upload = record u { image_offset = 0; image_size = content_len } in
    let t : TableAt noted all = record {
      size = p.table.size;
      count = p.table.count;
      held = p.table.held;
      looked = p.table.looked;
    } in
    let read : PlainRead app_type noted all buf =
      read_table-plain app_type noted all buf rest t p.here some_bytes (omega arith) no_range in
    let w : Upload = record noted {
      table = read.table;
      table_bytes = read.bytes;
      checked = read.checked;
    } in
    let first : length all ≤ 0
        → 0 < length all + length buf
        → get_or buf (0 - length all) 0 ≡ image_magic =
      λ le lt.
        let place : 0 - length all ≡ 0 = omega arith in
        ap (λ k. get_or buf k 0) place ∙ magic (omega (arith, le)) in
    let longer : length (all ++ buf) ≡ length all + length buf = length-append all buf in
    let written =
      write_image-image capacity content_len all buf w p.here (omega arith) some_len (omega arith)
        (omega (arith, small)) room p.flash p.started first in
    let v : Upload = record w {
      started = ltb 0 (length all + length buf);
      flash = image_in 0 content_len (all ++ buf);
      received = u.received + length buf;
    } in
    (
      v,
      (
        take_piece-steps app_type capacity content_len u w
            (record w {
              started = ltb 0 (length all + length buf);
              flash = image_in 0 content_len (all ++ buf);
            })
            buf
            (ap (read_table app_type buf) (note_magic-plain content_len u all buf p magic)
              ∙ read.reads)
            written,
        record {
          table = record {
            size = read.at.size;
            count = read.at.count;
            held = read.at.held;
            looked = read.at.looked;
          };
          here = omega (arith, p.here, longer);
          image = inr (omega (arith, longer, some_bytes), (refl, refl));
          flash = refl;
          started = ap (ltb 0) (sym longer);
        },
      ),
    )
