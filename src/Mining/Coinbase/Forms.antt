-- ===== src/Mining/Coinbase/Forms.antt =====
-- The three forms of the coinbase hash agree.
use m45_gamma_firmware.Base.{
  ℕ, ◌+◌, ◌-◌, ◌/◌, ◌≤◌, ◌<◌, ◌≡◌, refl, ap, ◌∙◌, ◌⊎◌, inl, inr, Bool, true, false, ◌||◌, some,
  List, [], ◌∷◌, ◌++◌, append-nil, arith, ltb, Bool-cases, length, All,
}
use m45_gamma_firmware.Hex.{hex_digits}
use m45_gamma_firmware.Hex.RoundTrip.{length-hex_digits, hex2bin-hex_digits}
use m45_gamma_firmware.Mining.Coinbase.{
  Span, bytes, zero_hash, calculate_coinbase_tx_hash_parts, calculate_coinbase_tx_hash_bin,
  calculate_coinbase_tx_hash, decode_all,
}

IsByte : ℕ → Type 0
IsByte b = b < 256

half_hex : (bs : List ℕ) → length (hex_digits bs) / 2 ≡ length bs
half_hex bs = omega (arith, length-hex_digits bs)

module _ (double_sha256 : List ℕ → List ℕ) (malloc : ℕ → Bool) where
  decode_one :
      (bs : List ℕ) (rest : List (List ℕ)) (room : ℕ)
      → All (λ b. b < 256) bs
      → length bs ≤ room
      → decode_all double_sha256 malloc (hex_digits bs ∷ rest) room
        ≡ bs ++ decode_all double_sha256 malloc rest (room - length bs)
  unfolding decode_all
  decode_one bs rest room v le = rw (hex2bin-hex_digits bs room v le) refl

  -- `calculate_coinbase_tx_hash` of the hexadecimal strings of four byte strings is
  -- `calculate_coinbase_tx_hash_parts` of the byte strings, the two length errors included.
  pub calculate_coinbase_tx_hash-parts :
      (c1 c2 e1 e2 : List ℕ)
      → All (λ b. b < 256) c1
      → All (λ b. b < 256) c2
      → All (λ b. b < 256) e1
      → All (λ b. b < 256) e2
      → calculate_coinbase_tx_hash double_sha256 malloc
          (some (hex_digits c1))
          (some (hex_digits c2))
          (some (hex_digits e1))
          (some (hex_digits e2))
        ≡ some (
            calculate_coinbase_tx_hash_parts double_sha256 malloc
              (bytes c1)
              (bytes e1)
              (bytes e2)
              (bytes c2))
  unfolding calculate_coinbase_tx_hash calculate_coinbase_tx_hash_parts
  calculate_coinbase_tx_hash-parts c1 c2 e1 e2 v1 v2 w1 w2 =
      let n : ℕ = length c1 + length e1 + length e2 + length c2 in
      let len : (length (hex_digits c1)
              + length (hex_digits e1)
              + length (hex_digits e2)
              + length (hex_digits c2))
            / 2
          ≡ n =
        omega (
          arith,
          length-hex_digits c1,
          length-hex_digits e1,
          length-hex_digits e2,
          length-hex_digits c2,
        ) in
      rw (len, tx n (omega arith))
        (elim (Bool-cases (ltb 4096 n)) [ inl long ↦ rw long refl | inr fits ↦ rw fits refl ])
    where
      nothing_left : (room : ℕ) → decode_all double_sha256 malloc [] room ≡ []
      nothing_left room = unfold decode_all in refl

      tx :
          (n : ℕ)
          → n ≡ length c1 + length e1 + length e2 + length c2
          → decode_all double_sha256 malloc
              (hex_digits c1 ∷ hex_digits e1 ∷ hex_digits e2 ∷ hex_digits c2 ∷ [])
              n
            ≡ c1 ++ (e1 ++ (e2 ++ c2))
      tx n e =
          decode_one c1 _ n v1 (omega arith)
          ∙ ap (λ (t : List ℕ). c1 ++ t)
              (decode_one e1 _ (n - length c1) w1 (omega arith)
                ∙ ap (λ (t : List ℕ). e1 ++ t)
                    (decode_one e2 _ (n - length c1 - length e1) w2 (omega arith)
                      ∙ ap (λ (t : List ℕ). e2 ++ t)
                          (decode_one c2 [] (n - length c1 - length e1 - length e2) v2 (omega arith)
                            ∙ ap (λ (t : List ℕ). c2 ++ t) (nothing_left _)
                            ∙ append-nil c2)))

  -- `calculate_coinbase_tx_hash_bin` of the hexadecimal strings of two extranonces of at most 64
  -- bytes is `calculate_coinbase_tx_hash_parts` of their bytes, whatever the other two parts are;
  -- with a longer first or second extranonce it is the zero hash.
  pub calculate_coinbase_tx_hash_bin-parts :
      (c1 c2 : Span) (e1 e2 : List ℕ)
      → All (λ b. b < 256) e1
      → All (λ b. b < 256) e2
      → ((length e1 ≤ 64)
          → (length e2 ≤ 64)
          → calculate_coinbase_tx_hash_bin double_sha256 malloc c1 c2
              (some (hex_digits e1))
              (some (hex_digits e2))
            ≡ some
                (calculate_coinbase_tx_hash_parts double_sha256 malloc c1 (bytes e1) (bytes e2) c2))
        × ((64 < length e1) ⊎ (64 < length e2)
            → calculate_coinbase_tx_hash_bin double_sha256 malloc c1 c2
                (some (hex_digits e1))
                (some (hex_digits e2))
              ≡ some zero_hash)
  unfolding calculate_coinbase_tx_hash_bin
  calculate_coinbase_tx_hash_bin-parts c1 c2 e1 e2 v1 v2 =
      rw
        (
          half_hex e1,
          half_hex e2,
          hex2bin-hex_digits e1 (length e1) v1 (omega arith),
          hex2bin-hex_digits e2 (length e2) v2 (omega arith),
        )
        (
          (λ le1 le2.
              let ok : (ltb 64 (length e1) || ltb 64 (length e2)) ≡ false = ground arith in
              rw ok refl),
          λ long.
              let bad : (ltb 64 (length e1) || ltb 64 (length e2)) ≡ true = ground arith in
              rw bad refl,
        )
