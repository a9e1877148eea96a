-- ===== src/Http/Upload/Read.antt =====
-- The look at the partition table that `ota_install_handler` of main/wifi_http.c takes.
use m45_gamma_firmware.Base.{
  ℕ, ◌+◌, ◌-◌, ◌≤◌, ◌<◌, min, ◌≡◌, refl, sym, ap, ◌∙◌, subst, ◌⊎◌, inl, inr, Bool, true, false,
  none, List, ◌++◌, arith, ltb, leb, ◌==◌, leb→le, ==_iff, Bool-cases, length, take, drop,
  length-append, get_or-append_left,
}
use m45_gamma_firmware.Http.Upload.{
  Upload, size_max, table_offset, table_size, ota_factory_app_range, table_needed, copy_table,
  check_table, read_table,
}
use m45_gamma_firmware.Http.Upload.Table.{TableAt, TableAt-whole, copy_table-needed}

less_other : (a b : ℕ) → a < b → (a == b) ≡ false
less_other a b lt = elim (Bool-cases (a == b)) [
  | inl e ↦ absurd (omega (arith, (==_iff a b).0 e, lt))
  | inr e ↦ e
]

read_table-needed :
    (app_type : ℕ) (u : Upload) (buf : List ℕ)
    → table_needed buf u ≡ true
    → read_table app_type buf u ≡ check_table app_type (copy_table buf u)
unfolding read_table
read_table-needed app_type u buf needed = rw needed refl

check_table-plain :
    (app_type : ℕ) (u : Upload)
    → leb table_size u.table_bytes ≡ true
    → u.image_offset < size_max
    → ota_factory_app_range app_type u.table ≡ none
    → check_table app_type u ≡ inr (record u { checked = true })
unfolding check_table
check_table-plain app_type u full known no_range =
    rw (full, no_range, less_other u.image_offset size_max known) refl

check_table-partial :
    (app_type : ℕ) (u : Upload)
    → leb table_size u.table_bytes ≡ false
    → check_table app_type u ≡ inr u
unfolding check_table
check_table-partial app_type u partial = rw partial refl

needed_unread : (buf : List ℕ) (u : Upload) → table_needed buf u ≡ true → u.checked ≡ false
needed_unread buf u needed = elim (Bool-cases u.checked) [
  | inl e ↦ absurd (cc (rw e at needed))
  | inr e ↦ e
]

spared_cases :
    (u : Upload) (buf : List ℕ)
    → u.checked ≡ leb table_size u.table_bytes
    → table_needed buf u ≡ false
    → (table_size ≤ u.table_bytes) ⊎ (u.received + length buf ≤ table_offset)
spared_cases u buf looked spared = elim (Bool-cases (leb table_size u.table_bytes)) [
  | inl full ↦ inl (leb→le table_size u.table_bytes full)
  | inr partial ↦
      let unread : u.checked ≡ false = looked ∙ partial in
      elim (Bool-cases (ltb table_offset (u.received + length buf))) [
        | inl reached ↦
            let closed : ltb u.table_bytes table_size ≡ false = rw (unread, reached) at spared in
            inl (ground (arith, closed))
        | inr before ↦ inr (ground (arith, before))
      ]
]

-- What a piece does not add to the table stays.
spared-TableAt :
    (u : Upload) (all buf : List ℕ)
    → TableAt u all
    → u.received ≡ length all
    → table_needed buf u ≡ false
    → TableAt u (all ++ buf)
spared-TableAt u all buf t here spared =
    let longer : length (all ++ buf) ≡ length all + length buf = length-append all buf in
    let full_or_before : (table_size ≤ u.table_bytes) ⊎ (length all + length buf ≤ table_offset) =
      subst (λ r. (table_size ≤ u.table_bytes) ⊎ (r + length buf ≤ table_offset)) here
        (spared_cases u buf t.looked spared) in
    record {
      size = t.size;
      count = elim full_or_before [
        | inl full ↦ omega (arith, t.count, longer, full)
        | inr before ↦ omega (arith, t.count, longer, before)
      ];
      held = λ i lt.
          t.held i lt
          ∙ sym (get_or-append_left all buf (table_offset + i) 0 (omega (arith, lt, t.count)));
      looked = t.looked;
    }

-- What a piece makes of the table where it is not the one of a factory image.
pub record PlainRead (app_type : ℕ) (u : Upload) (all buf : List ℕ) : Type 0 where
  pub table : List ℕ
  pub bytes : ℕ
  pub checked : Bool
  pub reads :
      read_table app_type buf u
      ≡ inr (record u { table = table; table_bytes = bytes; checked = checked })
  pub at : TableAt (record u { table = table; table_bytes = bytes; checked = checked }) (all ++ buf)

-- A piece leaves the table as far as it has come and, where the complete one has no range, nothing
-- else changed.
pub read_table-plain :
    (app_type : ℕ) (u : Upload) (all buf rest : List ℕ)
    → TableAt u all
    → u.received ≡ length all
    → 0 < length buf
    → u.image_offset < size_max
    → ota_factory_app_range app_type (take table_size (drop table_offset ((all ++ buf) ++ rest)))
      ≡ none
    → PlainRead app_type u all buf
unfolding read_table
read_table-plain app_type u all buf rest t here some_bytes known no_range =
    elim (Bool-cases (table_needed buf u)) [
      | inl needed ↦
          let (table, (copied, (size, held))) =
            copy_table-needed u all buf t here some_bytes needed in
          let bytes : ℕ = min (length (all ++ buf) - table_offset) table_size in
          elim (Bool-cases (leb table_size bytes)) [
            | inl full ↦
                let v : Upload = record u { table = table; table_bytes = bytes; checked = true } in
                let at : TableAt v (all ++ buf) = record {
                  size = size;
                  count = refl;
                  held = held;
                  looked = sym full;
                } in
                let whole : bytes ≡ table_size = omega (arith, leb→le table_size bytes full) in
                let none_found : ota_factory_app_range app_type table ≡ none =
                  ap (ota_factory_app_range app_type) (TableAt-whole v (all ++ buf) rest at whole)
                  ∙ no_range in
                record {
                  table = table;
                  bytes = bytes;
                  checked = true;
                  reads =
                      read_table-needed app_type u buf needed
                      ∙ (ap (check_table app_type) copied
                          ∙ check_table-plain app_type
                              (record u { table = table; table_bytes = bytes }) full known
                              none_found);
                  at = at;
                }
            | inr partial ↦ record {
              table = table;
              bytes = bytes;
              checked = u.checked;
              reads =
                  read_table-needed app_type u buf needed
                  ∙ (ap (check_table app_type) copied
                      ∙ check_table-partial app_type
                          (record u { table = table; table_bytes = bytes }) partial);
              at = record {
                size = size;
                count = refl;
                held = held;
                looked = needed_unread buf u needed ∙ sym partial;
              };
            }
          ]
      | inr spared ↦ record {
        table = u.table;
        bytes = u.table_bytes;
        checked = u.checked;
        reads = rw spared refl;
        at = spared-TableAt u all buf t here spared;
      }
    ]
