-- ===== src/Http/Upload/Table.antt =====
-- The partition table that `ota_install_handler` of main/wifi_http.c collects from the pieces.
use m45_gamma_firmware.Base.{
  ℕ, ◌+◌, ◌-◌, ◌≤◌, ◌<◌, min, ◌≡◌, sym, ap, ◌∙◌, inl, inr, true, List, ◌++◌, arith, ltb, leb, ◌==◌,
  if◌then◌else◌, ltb→lt, ==_iff, Bool-cases, length, get_or, take, drop, length-append, length-take,
  length-drop, get_or-append_left, get_or-append_from, get_or-take, get_or-drop, list_ext,
}
use m45_gamma_firmware.Base.Arrays.{memcpy, length-memcpy, get_or-memcpy_in, get_or-memcpy_out}
use m45_gamma_firmware.Http.Upload.{Upload, table_offset, table_size, table_needed, copy_table}

-- The table holds what has come of it, and has been looked at once it was complete.
pub record TableAt (u : Upload) (all : List ℕ) : Type 0 where
  pub size : length u.table ≡ table_size
  pub count : u.table_bytes ≡ min (length all - table_offset) table_size
  pub held : (i : ℕ) → i < u.table_bytes → get_or u.table i 0 ≡ get_or all (table_offset + i) 0
  pub looked : u.checked ≡ leb table_size u.table_bytes

-- A complete table is the part of the upload at its offset.
pub TableAt-whole :
    (u : Upload) (all rest : List ℕ)
    → TableAt u all
    → u.table_bytes ≡ table_size
    → u.table ≡ take table_size (drop table_offset (all ++ rest))
TableAt-whole u all rest t full =
    let long : table_offset + table_size ≤ length all = omega (arith, t.count, full) in
    let size : length (take table_size (drop table_offset (all ++ rest))) ≡ table_size = omega (
      arith,
      length-take table_size (drop table_offset (all ++ rest)),
      length-drop table_offset (all ++ rest),
      length-append all rest,
      long,
    ) in
    list_ext u.table (take table_size (drop table_offset (all ++ rest))) 0 (t.size ∙ sym size)
      (λ i lt.
        let inside : i < table_size = omega (arith, lt, t.size) in
        t.held i (omega (arith, inside, full))
        ∙ (sym (get_or-append_left all rest (table_offset + i) 0 (omega (arith, inside, long)))
            ∙ sym (
                get_or-take table_size (drop table_offset (all ++ rest)) i 0 inside
                ∙ get_or-drop table_offset (all ++ rest) i 0)))

-- A piece that the table needs is copied behind what it holds.
pub copy_table-needed :
    (u : Upload) (all buf : List ℕ)
    → TableAt u all
    → u.received ≡ length all
    → 0 < length buf
    → table_needed buf u ≡ true
    → (table : List ℕ) × ((copy_table buf u ≡ record u {
      table = table;
      table_bytes = min (length (all ++ buf) - table_offset) table_size;
    })
        × ((length table ≡ table_size)
            × ((i : ℕ)
                → i < min (length (all ++ buf) - table_offset) table_size
                → get_or table i 0 ≡ get_or (all ++ buf) (table_offset + i) 0)))
unfolding copy_table
copy_table-needed u all buf t here some_bytes needed =
    let copy_start : ℕ = if ltb table_offset u.received then u.received else table_offset in
    let copy_end : ℕ =
      if ltb (u.received + length buf) (table_offset + table_size)
      then u.received + length buf
      else table_offset + table_size in
    let source : List ℕ = take (copy_end - copy_start) (drop (copy_start - u.received) buf) in
    let table : List ℕ = memcpy u.table (copy_start - table_offset) source in
    let reaches : ltb table_offset (u.received + length buf) ≡ true = ground (arith, needed) in
    let open_still : u.table_bytes < table_size = ground (arith, needed) in
    let goes : ltb copy_start copy_end ≡ true =
      ground (arith, reaches, open_still, t.count, here, some_bytes) in
    let behind : copy_start - table_offset ≡ u.table_bytes =
      ground (arith, open_still, t.count, here) in
    let at_end : (copy_start - table_offset == u.table_bytes) ≡ true = (==_iff _ _).1 behind in
    let source_size : length source ≡ copy_end - copy_start = ground (
      arith,
      length-take (copy_end - copy_start) (drop (copy_start - u.received) buf),
      length-drop (copy_start - u.received) buf,
      goes,
    ) in
    let longer : length (all ++ buf) ≡ length all + length buf = length-append all buf in
    let total : u.table_bytes + (copy_end - copy_start)
        ≡ min (length (all ++ buf) - table_offset) table_size =
      ground (arith, open_still, t.count, here, goes, longer) in
    let fits : copy_start - table_offset + length source ≤ length u.table =
      ground (arith, source_size, t.size, goes) in
    (
      table,
      (
        rw (goes, at_end) (ap (λ (n : ℕ). record u { table = table; table_bytes = n }) total),
        (
          length-memcpy u.table (copy_start - table_offset) source fits ∙ t.size,
          λ i lt. elim (Bool-cases (ltb i u.table_bytes)) [
            | inl old ↦
                let before : i < u.table_bytes = ltb→lt i u.table_bytes old in
                get_or-memcpy_out u.table (copy_start - table_offset) source i 0 fits
                  (inl (omega (arith, before, behind)))
                ∙ (t.held i before
                    ∙ sym (
                        get_or-append_left all buf (table_offset + i) 0
                          (omega (arith, before, t.count))))
            | inr fresh ↦
                let from : u.table_bytes ≤ i = ground (arith, fresh) in
                let place : copy_start - u.received + (i - (copy_start - table_offset))
                    ≡ table_offset + i - length all =
                  ground (arith, from, behind, here, t.count, open_still) in
                get_or-memcpy_in u.table (copy_start - table_offset) source i 0 fits
                  (omega (arith, from, behind)) (omega (arith, lt, total, behind, source_size))
                ∙ (get_or-take (copy_end - copy_start) (drop (copy_start - u.received) buf)
                      (i - (copy_start - table_offset)) 0 (omega (arith, lt, total, behind, from))
                    ∙ (get_or-drop (copy_start - u.received) buf (i - (copy_start - table_offset)) 0
                        ∙ (ap (λ k. get_or buf k 0) place
                            ∙ sym (
                                get_or-append_from all buf (table_offset + i) 0
                                  (omega (arith, from, t.count, open_still))))))
          ],
        ),
      ),
    )
