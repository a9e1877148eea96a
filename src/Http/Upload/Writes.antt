-- ===== src/Http/Upload/Writes.antt =====
-- What `ota_install_handler` of main/wifi_http.c writes from one piece of an upload.
use m45_gamma_firmware.Base.{
  ℕ, zero, suc, ◌+◌, ◌-◌, ◌≤◌, ◌<◌, min, ◌≡◌, refl, sym, ap, ap₂, ◌∙◌, ◌⊎◌, inl, inr, Bool, true,
  false, ◌&&◌, ◌||◌, not, List, [], ◌∷◌, ◌++◌, append-nil, arith, ltb, leb, ◌==◌, if◌then◌else◌,
  ==_iff, Bool-cases, length, get_or, take, drop, length-append, length-take, length-drop,
  get_or-take, get_or-drop,
}
use m45_gamma_firmware.Http.Upload.{
  Upload, UploadError, invalid_app, begin_failed, write_failed, size_max, image_magic, table_offset,
  table_size, unsupported_image, write_image,
}

-- The bytes of an image in the bytes received.
abbrev pub image_in : ℕ → ℕ → List ℕ → List ℕ
image_in offset size all = take size (drop offset all)

take_both : (n : ℕ) (xs ys : List ℕ) → take n (xs ++ ys) ≡ take n xs ++ take (n - length xs) ys
take_both zero xs ys = let e : 0 - length xs ≡ 0 = omega arith in sym (ap (λ k. take k ys) e)
take_both (suc n) [] ys = let e : suc n ≡ suc n - 0 = omega arith in ap (λ k. take k ys) e
take_both (suc n) (x ∷ xs) ys =
    let e : n - length xs ≡ suc n - suc (length xs) = omega arith in
    ap (λ t. x ∷ t) (take_both n xs ys ∙ ap (λ k. take n xs ++ take k ys) e)

drop_both : (n : ℕ) (xs ys : List ℕ) → drop n (xs ++ ys) ≡ drop n xs ++ drop (n - length xs) ys
drop_both zero xs ys = let e : 0 - length xs ≡ 0 = omega arith in ap (λ k. xs ++ drop k ys) (sym e)
drop_both (suc n) [] ys = let e : suc n ≡ suc n - 0 = omega arith in ap (λ k. drop k ys) e
drop_both (suc n) (x ∷ xs) ys =
    let e : n - length xs ≡ suc n - suc (length xs) = omega arith in
    drop_both n xs ys ∙ ap (λ k. drop n xs ++ drop k ys) e

take_short : (m n : ℕ) (ys : List ℕ) → m ≡ min n (length ys) → take m ys ≡ take n ys
take_short zero zero ys e = refl
take_short zero (suc n) [] e = refl
take_short zero (suc n) (y ∷ ys) e = absurd (omega (arith, e))
take_short (suc m) zero ys e = absurd (omega (arith, e))
take_short (suc m) (suc n) [] e = refl
take_short (suc m) (suc n) (y ∷ ys) e = ap (λ t. y ∷ t) (take_short m n ys (omega (arith, e)))

pub image_in-append :
    (offset size : ℕ) (all buf : List ℕ)
    → image_in offset size (all ++ buf)
      ≡ image_in offset size all
        ++ take (size - (length all - offset)) (drop (offset - length all) buf)
image_in-append offset size all buf =
    let e : size - length (drop offset all) ≡ size - (length all - offset) =
      omega (arith, length-drop offset all) in
    ap (take size) (drop_both offset all buf)
    ∙ (take_both size (drop offset all) (drop (offset - length all) buf)
        ∙ ap (λ k. take size (drop offset all) ++ take k (drop (offset - length all) buf)) e)

-- The range of the piece that is written is the rest of the image in it.
range :
    (offset size received end : ℕ) (buf : List ℕ)
    → end ≡ offset + size
    → let write_start = if ltb offset received then received else offset in
      let write_end = if ltb (received + length buf) end then received + length buf else end in
      take (write_end - write_start) (drop (write_start - received) buf)
      ≡ take (size - (received - offset)) (drop (offset - received) buf)
range offset size received end buf e =
    let write_start : ℕ = if ltb offset received then received else offset in
    let write_end : ℕ = if ltb (received + length buf) end then received + length buf else end in
    let same : write_start - received ≡ offset - received = ground arith in
    let n : write_end - write_start
        ≡ min (size - (received - offset)) (length (drop (offset - received) buf)) =
      ground (arith, length-drop (offset - received) buf, e) in
    ap (λ k. take (write_end - write_start) (drop k buf)) same
    ∙ take_short (write_end - write_start) (size - (received - offset))
        (drop (offset - received) buf) n

-- The tests of a piece whose bytes `written` may be written.
written_ok :
    (capacity : ℕ) (u : Upload) (goes : Bool) (written : List ℕ) (skipped : UploadError ⊎ Upload)
    (started : Bool)
    → u.image_offset < size_max
    → (goes ≡ true → started ≡ true)
    → (goes ≡ false → (started ≡ u.started) × (written ≡ []))
    → (goes ≡ true → u.started ≡ false → get_or written 0 0 ≡ image_magic)
    → length (u.flash ++ written) ≤ capacity
    → (if u.image_offset == size_max
        then skipped
        else if not goes
        then inr u
        else if not u.started && not (get_or written 0 0 == image_magic)
        then inl invalid_app
        else if not u.started && not true
        then inl begin_failed
        else if ltb capacity (length u.flash + length written) || not true
        then inl write_failed
        else inr (record u { started = true; flash = u.flash ++ written }))
      ≡ inr (record u { started = started; flash = u.flash ++ written })
written_ok capacity u goes written skipped started known begun idle magic room =
    let other : (u.image_offset == size_max) ≡ false = ground (arith, known) in
    let fits : ltb capacity (length u.flash + length written) ≡ false =
      ground (arith, room, length-append u.flash written) in
    let begins : (not u.started && not true) ≡ false = elim (Bool-cases u.started) [
      | inl on ↦ rw on refl
      | inr off ↦ rw off refl
    ] in
    elim (Bool-cases goes) [
      | inl going ↦
          let good : (not u.started && not (get_or written 0 0 == image_magic)) ≡ false =
            elim (Bool-cases u.started) [
              | inl on ↦ rw on refl
              | inr off ↦
                  let first : (get_or written 0 0 == image_magic) ≡ true =
                    (==_iff (get_or written 0 0) image_magic).1 (magic going off) in
                  rw (off, first) refl
            ] in
          rw (other, going, good, begins, fits, begun going) refl
      | inr resting ↦
          let (same, nothing) = idle resting in
          let kept : u.flash ++ written ≡ u.flash =
            ap (λ w. u.flash ++ w) nothing ∙ append-nil u.flash in
          rw (other, resting)
            (sym (
              ap₂ (λ (s : Bool) (f : List ℕ). inr (record u { started = s; flash = f })) same kept))
    ]

-- While the image lies within the upload and the partition, and starts with the magic byte, a piece
-- is written so that the flash holds what has come of the image.
pub write_image-image :
    (capacity content_len : ℕ) (all buf : List ℕ) (u : Upload)
    → u.received ≡ length all
    → u.image_offset < size_max
    → 0 < u.image_size
    → u.image_offset + u.image_size ≤ content_len
    → content_len ≤ size_max
    → u.image_size ≤ capacity
    → u.flash ≡ image_in u.image_offset u.image_size all
    → u.started ≡ ltb u.image_offset (length all)
    → (length all ≤ u.image_offset
        → u.image_offset < length all + length buf
        → get_or buf (u.image_offset - length all) 0 ≡ image_magic)
    → write_image capacity content_len buf true true u
      ≡ inr (record u {
        started = ltb u.image_offset (length all + length buf);
        flash = image_in u.image_offset u.image_size (all ++ buf);
      })
unfolding write_image
write_image-image capacity content_len all buf u here known some_image inside small room flash
      started magic =
    let chunk_end : ℕ = u.received + length buf in
    let image_end : ℕ =
      if ltb (size_max - u.image_offset) u.image_size
      then content_len
      else u.image_offset + u.image_size in
    let end : ℕ = if ltb content_len image_end then content_len else image_end in
    let whole : end ≡ u.image_offset + u.image_size = ground arith in
    let write_start : ℕ = if ltb u.image_offset u.received then u.received else u.image_offset in
    let write_end : ℕ = if ltb chunk_end end then chunk_end else end in
    let written : List ℕ = take (write_end - write_start) (drop (write_start - u.received) buf) in
    let rest : List ℕ =
      take (u.image_size - (length all - u.image_offset))
        (drop (u.image_offset - length all) buf) in
    let same : written ≡ rest =
      range u.image_offset u.image_size u.received end buf whole
      ∙ ap (λ r. take (u.image_size - (r - u.image_offset)) (drop (u.image_offset - r) buf)) here in
    let after : u.flash ++ written ≡ image_in u.image_offset u.image_size (all ++ buf) =
      ap₂ ◌++◌ flash same ∙ sym (image_in-append u.image_offset u.image_size all buf) in
    let goes : Bool = ltb write_start write_end in
    let size_left : length (u.flash ++ written) ≤ capacity =
      omega (
        arith,
        ap length after,
        length-take u.image_size (drop u.image_offset (all ++ buf)),
        room,
      ) in
    let begun : goes ≡ true → ltb u.image_offset (length all + length buf) ≡ true =
      λ h. ground (arith, h, here) in
    let resting : goes ≡ false
        → (ltb u.image_offset (length all + length buf) ≡ u.started) × (written ≡ []) =
      λ h.
        let none_left : write_end - write_start ≡ 0 = ground (arith, h) in
        (
          ground (arith, h, here, started, some_image),
          ap (λ k. take k (drop (write_start - u.received) buf)) none_left,
        ) in
    let first : goes ≡ true → u.started ≡ false → get_or written 0 0 ≡ image_magic = λ h off.
      let before : length all ≤ u.image_offset = ground (arith, started, off) in
      let reached : u.image_offset < length all + length buf = ground (arith, h, here) in
      let some_left : 0 < u.image_size - (length all - u.image_offset) =
        omega (arith, before, some_image) in
      let place : u.image_offset - length all + 0 ≡ u.image_offset - length all = omega arith in
      ap (λ w. get_or w 0 0) same
      ∙ (get_or-take (u.image_size - (length all - u.image_offset))
            (drop (u.image_offset - length all) buf) 0 0 some_left
          ∙ (get_or-drop (u.image_offset - length all) buf 0 0
              ∙ (ap (λ k. get_or buf k 0) place ∙ magic before reached))) in
    written_ok capacity u goes written
      (if leb (table_offset + table_size) chunk_end then inl unsupported_image else inr u)
      (ltb u.image_offset (length all + length buf)) known begun resting first size_left
    ∙ ap
        (λ (f : List ℕ).
          inr (record u { started = ltb u.image_offset (length all + length buf); flash = f }))
        after
