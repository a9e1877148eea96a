-- ===== src/Http/Upload/Whole.antt =====
-- The upload of an application image to main/wifi_http.c, in whatever pieces it comes.
use m45_gamma_firmware.Base.{
  ℕ, ◌-◌, ◌≤◌, ◌<◌, ◌≡◌, refl, sym, ap, ap₂, ◌∙◌, subst, ◌⊎◌, inl, inr, Bool, true, false, none,
  List, [], ◌∷◌, ◌++◌, append-nil, append_assoc, arith, leb, ◌==◌, lt→ltb, leb→le, ==_iff,
  Bool-cases, length, get_or, take, drop, length-append, length-replicate, take_of_le,
  get_or-append_left, get_or-append_from,
}
use m45_gamma_firmware.Http.Upload.{
  Upload, UploadError, Round, late, waited, broken, piece, no_upload, size_max, table_offset,
  table_size, image_magic, ota_factory_app_range, take_piece, finish, upload_loop,
}
use m45_gamma_firmware.Http.Upload.Pieces.{PlainAt, take_piece-plain}

-- The bytes that the rounds bring.
unfoldable pub sent : List Round → List ℕ
sent [] = []
sent (late ∷ rounds) = sent rounds
sent (waited ∷ rounds) = sent rounds
sent (broken ∷ rounds) = sent rounds
sent (piece buf begin_ok write_ok ∷ rounds) = buf ++ sent rounds

-- No time-out of the whole upload, no broken connection, no empty piece and no error of the flash.
unfoldable pub AllGood : List Round → Type 0
AllGood [] = Unit
AllGood (late ∷ rounds) = ⊥
AllGood (waited ∷ rounds) = AllGood rounds
AllGood (broken ∷ rounds) = ⊥
AllGood (piece buf begin_ok write_ok ∷ rounds) =
    (0 < length buf) × ((begin_ok ≡ true) × ((write_ok ≡ true) × AllGood rounds))

finish-plain :
    (app_type capacity content_len : ℕ) (u : Upload) (all : List ℕ)
    → PlainAt content_len u all
    → 0 < content_len
    → length all ≡ content_len
    → (finish app_type capacity content_len u ≡ inr u) × (u.flash ≡ all)
finish-plain app_type capacity content_len u all p some_len full =
    let whole : u.flash ≡ all = p.flash ∙ take_of_le content_len all (omega (arith, full)) in
    let begun : u.started ≡ true =
      p.started ∙ lt→ltb 0 (length all) (omega (arith, full, some_len)) in
    let some_flash : (length u.flash == 0) ≡ false = elim (Bool-cases (length u.flash == 0)) [
      | inl e ↦
          absurd (omega (arith, (==_iff (length u.flash) 0).0 e, ap length whole, full, some_len))
      | inr e ↦ e
    ] in
    (rw (begun, some_flash) refl, whole)

abbrev Flashed : UploadError ⊎ Upload → List ℕ → Type 0
Flashed result stream = (u : Upload) × ((result ≡ inr u) × (u.flash ≡ stream))

le_true : (a b : ℕ) → a ≤ b → leb a b ≡ true
le_true a b h = ground (arith, h)

nothing_left :
    (all more stream : List ℕ) → all ++ more ≡ stream → length stream ≤ length all → all ≡ stream
nothing_left all [] stream e le = sym (append-nil all) ∙ e
nothing_left all (x ∷ more) stream e le =
    absurd (omega (arith, length-append all (x ∷ more), ap length e, le))

next_round :
    (app_type capacity content_len : ℕ) (rounds : List Round) (u v : Upload) (buf : List ℕ)
    (begin_ok write_ok : Bool)
    → leb content_len u.received ≡ false
    → take_piece app_type capacity content_len buf begin_ok write_ok u ≡ inr v
    → upload_loop app_type capacity content_len (piece buf begin_ok write_ok ∷ rounds) u
      ≡ upload_loop app_type capacity content_len rounds v
unfolding upload_loop
next_round app_type capacity content_len rounds u v buf begin_ok write_ok open_still taken =
    rw open_still (ap after taken)
  where
    after : UploadError ⊎ Upload → UploadError ⊎ Upload
    after r = elim r [
      | inl error ↦ inl error
      | inr w ↦ upload_loop app_type capacity content_len rounds w
    ]

-- The loop is over once all has come.
over-plain :
    (app_type capacity content_len : ℕ) (stream more : List ℕ) (u : Upload) (all : List ℕ)
    → PlainAt content_len u all
    → length stream ≡ content_len
    → 0 < content_len
    → all ++ more ≡ stream
    → leb content_len u.received ≡ true
    → Flashed (finish app_type capacity content_len u) stream
over-plain app_type capacity content_len stream more u all p size some_len e over =
    let come : content_len ≤ u.received = leb→le content_len u.received over in
    let whole : all ≡ stream = nothing_left all more stream e (omega (arith, come, p.here, size)) in
    let (finished, written) =
      finish-plain app_type capacity content_len u all p some_len (ap length whole ∙ size) in
    (u, (finished, written ∙ whole))

loop-plain :
    (app_type capacity content_len : ℕ) (stream : List ℕ) (rounds : List Round) (u : Upload)
    (all : List ℕ)
    → PlainAt content_len u all
    → length stream ≡ content_len
    → 0 < content_len
    → content_len < size_max
    → content_len ≤ capacity
    → get_or stream 0 0 ≡ image_magic
    → ota_factory_app_range app_type (take table_size (drop table_offset stream)) ≡ none
    → AllGood rounds
    → all ++ sent rounds ≡ stream
    → Flashed (upload_loop app_type capacity content_len rounds u) stream
unfolding upload_loop sent AllGood
loop-plain app_type capacity content_len stream [] u all p size some_len small room magic no_range
      good e =
    let whole : all ≡ stream = sym (append-nil all) ∙ e in
    let over : leb content_len u.received ≡ true =
      le_true content_len u.received (omega (arith, p.here, ap length whole, size)) in
    rw over (over-plain app_type capacity content_len stream [] u all p size some_len e over)
loop-plain app_type capacity content_len stream (late ∷ rounds) u all p size some_len small room
      magic no_range good e =
    absurd good
loop-plain app_type capacity content_len stream (waited ∷ rounds) u all p size some_len small room
      magic no_range good e =
    elim (Bool-cases (leb content_len u.received)) [
      | inl over ↦ rw over (
          over-plain app_type capacity content_len stream (sent rounds) u all p size some_len e
            over)
      | inr open_still ↦ rw open_still (
          loop-plain app_type capacity content_len stream rounds u all p size some_len small room
            magic no_range good e)
    ]
loop-plain app_type capacity content_len stream (broken ∷ rounds) u all p size some_len small room
      magic no_range good e =
    absurd good
loop-plain app_type capacity content_len stream (piece buf begin_ok write_ok ∷ rounds) u all p size
      some_len small room magic no_range (some_bytes, (begun, (written, good))) e =
    let next : (all ++ buf) ++ sent rounds ≡ stream = append_assoc all buf (sent rounds) ∙ e in
    let first : length all ≡ 0 → get_or buf 0 0 ≡ image_magic = λ h.
      let from : 0 ≡ 0 - length all = omega arith in
      sym (get_or-append_left buf (sent rounds) 0 0 some_bytes)
      ∙ (ap (λ k. get_or (buf ++ sent rounds) k 0) from
          ∙ (sym (get_or-append_from all (buf ++ sent rounds) 0 0 (omega (arith, h)))
              ∙ (ap (λ s. get_or s 0 0) e ∙ magic))) in
    let (v, (taken, after)) =
      take_piece-plain app_type capacity content_len u all buf (sent rounds) p first some_bytes
        some_len small room
        (ap (λ s. ota_factory_app_range app_type (take table_size (drop table_offset s))) next
          ∙ no_range) in
    elim (Bool-cases (leb content_len u.received)) [
      | inl over ↦ rw over (
          over-plain app_type capacity content_len stream (buf ++ sent rounds) u all p size some_len
            e over)
      | inr open_still ↦
          subst (λ r. Flashed r stream)
            (sym (
              next_round app_type capacity content_len rounds u v buf begin_ok write_ok open_still (
                ap₂ (λ b w. take_piece app_type capacity content_len buf b w u) begun written
                ∙ taken)))
            (loop-plain app_type capacity content_len stream rounds v (all ++ buf) after size
              some_len small room magic no_range good next)
    ]

-- An upload whose first byte is the magic byte of an image, and that has no factory image's partition
-- table with an application in it, is written to the flash as it is, whatever the pieces that it comes
-- in and whatever waits between them, if it fits the partition and none of its pieces is empty, late or
-- refused by the flash.
pub upload_loop-plain :
    (app_type capacity : ℕ) (stream : List ℕ) (rounds : List Round)
    → 0 < length stream
    → length stream < size_max
    → length stream ≤ capacity
    → get_or stream 0 0 ≡ image_magic
    → ota_factory_app_range app_type (take table_size (drop table_offset stream)) ≡ none
    → AllGood rounds
    → sent rounds ≡ stream
    → (u : Upload) × ((upload_loop app_type capacity (length stream) rounds no_upload ≡ inr u)
        × (u.flash ≡ stream))
upload_loop-plain app_type capacity stream rounds some_len small room magic no_range good e =
    loop-plain app_type capacity (length stream) stream rounds no_upload []
      (record {
        table = record {
          size = length-replicate {A = ℕ} table_size 0;
          count = omega arith;
          held = λ i lt. absurd (omega (arith, lt));
          looked = refl;
        };
        here = refl;
        image = inl (refl, refl);
        flash = sym (take_of_le (length stream) [] (omega arith));
        started = refl;
      })
      refl some_len small room magic no_range good e
