-- ===== src/Asic/Bm1370/Packets.antt =====
-- Every packet that `_send_BM1370` builds is well formed for its receiver.
use m45_gamma_firmware.Base.{
  ℕ, suc, ◌+◌, ◌/◌, ◌%◌, ◌^◌, ◌≤◌, ◌<◌, bit_xor, ◌≡◌, refl, sym, ap, ◌∙◌, ◌≢◌, some, List, [], ◌∷◌,
  ◌++◌, arith, length, get_or, drop, All, length-append, get_or-append_right,
}
use m45_gamma_firmware.Asic.Crc.{crc5, crc16_false}
use m45_gamma_firmware.Asic.Crc.Detect.{IsByte, crc5_detects_flip}
use m45_gamma_firmware.Asic.Crc.Residue.{crc16_false_residue, crc16_false-lt}
use m45_gamma_firmware.Asic.Bm1370.{send_bm1370}

module _ (header : ℕ) (payload : List ℕ) where
  -- A job packet of up to 251 payload bytes: its length byte counts the bytes behind the preamble,
  -- and the CRC-16 over all of those leaves zero.
  pub send_bm1370_job :
      header / 0x20 % 2 ≡ 1
      → length payload ≤ 251
      → let f = send_bm1370 header payload in
        (length f ≡ length payload + 6)
        × (get_or f 3 0 + 2 ≡ length f)
        × (crc16_false (some (drop 2 f)) ≡ 0)
  unfolding send_bm1370
  send_bm1370_job hj fits =
      let covered : List ℕ = header ∷ (length payload + 4) % 256 ∷ payload in
      let h : ℕ = crc16_false (some covered) / 256 % 256 in
      let l : ℕ = crc16_false (some covered) % 256 in
      rw hj (
        omega (arith, length-append payload (h ∷ l ∷ [])),
        omega (arith, length-append payload (h ∷ l ∷ [])),
        crc16_false_residue covered h l (omega (arith, crc16_false-lt covered)) refl,
      )

  cmd_layout :
      header / 0x20 % 2 ≡ 0
      → let covered : List ℕ = header ∷ (length payload + 3) % 256 ∷ payload in
        send_bm1370 header payload ≡ 0x55 ∷ 0xaa ∷ covered ++ (crc5 (some covered) ∷ [])
  unfolding send_bm1370
  cmd_layout hc = rw hc

  -- A command packet of up to 252 payload bytes: its length byte counts the bytes behind the
  -- preamble, its last byte is the CRC-5 of the bytes between, and that byte is wrong for the packet
  -- in which a single bit of the payload is flipped.
  pub send_bm1370_cmd :
      (front back : List ℕ) (b k : ℕ)
      → header / 0x20 % 2 ≡ 0
      → header < 256
      → length payload ≤ 252
      → payload ≡ front ++ (b ∷ back)
      → All IsByte front
      → b < 256
      → All IsByte back
      → k < 8
      → let f = send_bm1370 header payload in
        (length f ≡ length payload + 5)
        × (get_or f 3 0 + 2 ≡ length f)
        × (get_or f (length payload + 4) 0
            ≡ crc5 (some (header ∷ get_or f 3 0 ∷ front ++ (b ∷ back))))
        × (get_or f (length payload + 4) 0
            ≢ crc5 (some (header ∷ get_or f 3 0 ∷ front ++ (bit_xor b (2 ^ k) ∷ back))))
  send_bm1370_cmd front back b k hc hh fits split hf hb hbk hk =
      let len : ℕ = (length payload + 3) % 256 in
      let covered : List ℕ = header ∷ len ∷ payload in
      let c : ℕ = crc5 (some covered) in
      let last : get_or (payload ++ (c ∷ [])) (length payload) 0 ≡ c =
        ap (λ i. get_or (payload ++ (c ∷ [])) i 0) (omega arith)
        ∙ get_or-append_right payload (c ∷ []) 0 0 in
      let place : length payload + 4 ≡ suc (suc (suc (suc (length payload)))) = omega arith in
      let same : crc5 (some covered) ≡ crc5 (some (header ∷ len ∷ front ++ (b ∷ back))) =
        ap (λ p. crc5 (some (header ∷ len ∷ p))) split in
      rw (cmd_layout hc, place)
        (
          omega (arith, length-append payload (c ∷ [])),
          omega (arith, length-append payload (c ∷ [])),
          last ∙ same,
          λ e.
              crc5_detects_flip (header ∷ len ∷ front) back b k (hh, (omega arith, hf)) hb hbk hk
                (sym same ∙ sym last ∙ e),
        )
