-- ===== src/Http/Upload/Examples.antt =====
-- The theorem on uploads at a concrete input, in two pieces with a wait between them.
use m45_gamma_firmware.Base.{ℕ, ◌≡◌, refl, inr, true, List, [], ◌∷◌, arith, length}
use m45_gamma_firmware.Http.Upload.{
  Upload, Round, piece, waited, no_upload, upload_loop, ota_factory_app_range, range_loop,
}
use m45_gamma_firmware.Http.Upload.Whole.{sent, AllGood, upload_loop-plain}

abbrev small_image : List ℕ
small_image = 0xE9 ∷ 1 ∷ 2 ∷ []

abbrev two_pieces : List Round
two_pieces = piece (0xE9 ∷ 1 ∷ []) true true ∷ waited ∷ piece (2 ∷ []) true true ∷ []

two_pieces-AllGood : AllGood two_pieces
unfolding AllGood
two_pieces-AllGood = (omega arith, (refl, (refl, (omega arith, (refl, (refl, tt))))))

upload_loop-plain_example :
    (u : Upload) × ((upload_loop 0 100 (length small_image) two_pieces no_upload ≡ inr u)
      × (u.flash ≡ small_image))
unfolding ota_factory_app_range range_loop sent
upload_loop-plain_example =
    upload_loop-plain 0 100 small_image two_pieces (omega arith) (omega arith) (omega arith) refl
      refl two_pieces-AllGood refl
