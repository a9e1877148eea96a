-- ===== src/Http/Reconnect/Masks.antt =====
-- The masks of main/wifi_http.c, bit by bit.
use m45_gamma_firmware.Base.{
  ℕ, zero, suc, ◌+◌, ◌*◌, ◌/◌, ◌%◌, ◌^◌, ◌<◌, bit_or, ◌≡◌, refl, sym, ap, ◌∙◌, inl, inr, Bool, true,
  false, ◌&&◌, ◌||◌, arith, if◌then◌else◌, Bool-cases,
}
use m45_gamma_firmware.Http.Reconnect.{
  Settings, flags_differ, pool_reconnect_bit, aux_pool_active_for_config, add_bit, primary_active,
  configured_pool_reconnect_mask, primary_changed, aux_changed, mode_mask,
  active_pool_settings_reconnect_mask,
}

abbrev bit : Bool → ℕ
bit b = if b then 1 else 0

-- The mask with the bits of the three pools.
abbrev pub bits : Bool → Bool → Bool → ℕ
bits b0 b1 b2 = bit b0 + 2 * bit b1 + 4 * bit b2

add_bit-0 : (test b0 b1 b2 : Bool) → add_bit (bits b0 b1 b2) 0 test ≡ bits (b0 || test) b1 b2
unfolding pool_reconnect_bit
add_bit-0 test b0 b1 b2 = ground arith

add_bit-1 : (test b0 b1 b2 : Bool) → add_bit (bits b0 b1 b2) 1 test ≡ bits b0 (b1 || test) b2
unfolding pool_reconnect_bit
add_bit-1 test b0 b1 b2 = ground arith

add_bit-2 : (test b0 b1 b2 : Bool) → add_bit (bits b0 b1 b2) 2 test ≡ bits b0 b1 (b2 || test)
unfolding pool_reconnect_bit
add_bit-2 test b0 b1 b2 = ground arith

-- The three bits of a mask, one after the other.
three_bits :
    (mask : ℕ) (b0 b1 b2 t0 t1 t2 : Bool)
    → mask ≡ bits b0 b1 b2
    → add_bit (add_bit (add_bit mask 0 t0) 1 t1) 2 t2 ≡ bits (b0 || t0) (b1 || t1) (b2 || t2)
three_bits mask b0 b1 b2 t0 t1 t2 e =
    ap (λ m. add_bit (add_bit (add_bit m 0 t0) 1 t1) 2 t2) e
    ∙ (ap (λ m. add_bit (add_bit m 1 t1) 2 t2) (add_bit-0 t0 b0 b1 b2)
        ∙ (ap (λ m. add_bit m 2 t2) (add_bit-1 t1 (b0 || t0) b1 b2)
            ∙ add_bit-2 t2 (b0 || t0) (b1 || t1) b2))

bits_or :
    (a0 a1 a2 b0 b1 b2 : Bool)
    → bit_or (bits a0 a1 a2) (bits b0 b1 b2) ≡ bits (a0 || b0) (a1 || b1) (a2 || b2)
bits_or true a1 a2 b0 b1 b2 = ground arith
bits_or false a1 a2 b0 b1 b2 = ground arith

pub or_false : (a b : Bool) → (a || b) ≡ false → (a ≡ false) × (b ≡ false)
or_false false b h = (refl, h)
or_false true b h = absurd (cc)

-- The bits that a comparison of the pools' settings sets.
abbrev pub either : Settings → Settings → ℕ → Bool
either old_config new_config i =
    aux_pool_active_for_config old_config i || aux_pool_active_for_config new_config i

abbrev pub new_mode : Settings → Settings → Bool
new_mode old_config new_config =
    flags_differ old_config.multi_pool_enabled new_config.multi_pool_enabled

-- The bits of the pools that a comparison finds changed, and of those that have a connection.
abbrev pub active_bits : Settings → Settings → ℕ
active_bits old_config new_config =
    bits
      (primary_changed old_config new_config
        || (new_mode old_config new_config
            && (primary_active old_config || primary_active new_config)))
      ((new_mode old_config new_config && either old_config new_config 0)
        || aux_changed old_config new_config 0)
      ((new_mode old_config new_config && either old_config new_config 1)
        || aux_changed old_config new_config 1)

abbrev pub configured_bits : Settings → ℕ
configured_bits config =
    bits (primary_active config) (aux_pool_active_for_config config 0)
      (aux_pool_active_for_config config 1)

mode_mask-bits :
    (old_config new_config : Settings) (b0 : Bool)
    → mode_mask old_config new_config (bits b0 false false)
      ≡ bits
          (b0
            || (new_mode old_config new_config
                && (primary_active old_config || primary_active new_config)))
          (new_mode old_config new_config && either old_config new_config 0)
          (new_mode old_config new_config && either old_config new_config 1)
unfolding mode_mask
mode_mask-bits old_config new_config b0 = elim (Bool-cases (new_mode old_config new_config)) [
  | inl e ↦ rw e (
      three_bits (bits b0 false false) b0 false false
        (primary_active old_config || primary_active new_config) (either old_config new_config 0)
        (either old_config new_config 1) refl)
  | inr e ↦ rw e (ap (λ b. bits b false false) (sym (or-false b0)))
]
  where
    or-false : (b : Bool) → (b || false) ≡ b
    or-false true = refl
    or-false false = refl

pub active_mask-bits :
    (old_config new_config : Settings)
    → active_pool_settings_reconnect_mask old_config new_config
      ≡ bits
          (primary_changed old_config new_config
            || (new_mode old_config new_config
                && (primary_active old_config || primary_active new_config)))
          ((new_mode old_config new_config && either old_config new_config 0)
            || aux_changed old_config new_config 0)
          ((new_mode old_config new_config && either old_config new_config 1)
            || aux_changed old_config new_config 1)
unfolding active_pool_settings_reconnect_mask
active_mask-bits old_config new_config =
    let changed : Bool = primary_changed old_config new_config in
    let mode = new_mode old_config new_config in
    let mode0 : Bool = mode && (primary_active old_config || primary_active new_config) in
    let mode1 : Bool = mode && either old_config new_config 0 in
    let mode2 : Bool = mode && either old_config new_config 1 in
    let aux0 : Bool = aux_changed old_config new_config 0 in
    let aux1 : Bool = aux_changed old_config new_config 1 in
    ap (λ m. add_bit (add_bit (mode_mask old_config new_config m) 1 aux0) 2 aux1)
      (add_bit-0 changed false false false)
    ∙ (ap (λ m. add_bit (add_bit m 1 aux0) 2 aux1) (mode_mask-bits old_config new_config changed)
        ∙ (ap (λ m. add_bit m 2 aux1) (add_bit-1 aux0 (changed || mode0) mode1 mode2)
            ∙ add_bit-2 aux1 (changed || mode0) (mode1 || aux0) mode2))

pub configured-bits :
    (config : Settings)
    → configured_pool_reconnect_mask config
      ≡ bits
          (primary_active config)
          (aux_pool_active_for_config config 0)
          (aux_pool_active_for_config config 1)
unfolding configured_pool_reconnect_mask
configured-bits config =
    let b0 : Bool = primary_active config in
    let b1 : Bool = aux_pool_active_for_config config 0 in
    let b2 : Bool = aux_pool_active_for_config config 1 in
    ap (λ m. add_bit (add_bit m 1 b1) 2 b2) (add_bit-0 b0 false false false)
    ∙ (ap (λ m. add_bit m 2 b2) (add_bit-1 b1 b0 false false) ∙ add_bit-2 b2 b0 b1 false)

abbrev pub chosen : Bool → Bool → Bool → ℕ → Bool
chosen b0 b1 b2 zero = b0
chosen b0 b1 b2 (suc zero) = b1
chosen b0 b1 b2 (suc (suc i)) = b2

clear_bit :
    (b0 b1 b2 : Bool) (pool_id : ℕ)
    → pool_id < 3
    → bits b0 b1 b2 / 2 ^ pool_id % 2 ≡ 0
    → chosen b0 b1 b2 pool_id ≡ false
clear_bit b0 b1 b2 zero lt h = ground (arith, h)
clear_bit b0 b1 b2 (suc zero) lt h = ground (arith, h)
clear_bit b0 b1 b2 (suc (suc zero)) lt h = ground (arith, h)
clear_bit b0 b1 b2 (suc (suc (suc i))) lt h = absurd (omega arith)

-- Bits that are added leave a clear bit clear before.
pub more_bits :
    (a0 a1 a2 c0 c1 c2 d0 d1 d2 more : Bool) (pool_id : ℕ)
    → pool_id < 3
    → (if more
          then bit_or (bits a0 a1 a2) (bit_or (bits c0 c1 c2) (bits d0 d1 d2))
          else bits a0 a1 a2)
        / 2 ^ pool_id
        % 2
      ≡ 0
    → chosen a0 a1 a2 pool_id ≡ false
more_bits a0 a1 a2 c0 c1 c2 d0 d1 d2 false pool_id lt h = clear_bit a0 a1 a2 pool_id lt h
more_bits a0 a1 a2 c0 c1 c2 d0 d1 d2 true pool_id lt h =
    let sum =
      ap (bit_or (bits a0 a1 a2)) (bits_or c0 c1 c2 d0 d1 d2)
      ∙ bits_or a0 a1 a2 (c0 || d0) (c1 || d1) (c2 || d2) in
    go pool_id (
      clear_bit (a0 || (c0 || d0)) (a1 || (c1 || d1)) (a2 || (c2 || d2)) pool_id lt
        (ap (λ m. m / 2 ^ pool_id % 2) (sym sum) ∙ h))
  where
    go :
        (i : ℕ)
        → chosen (a0 || (c0 || d0)) (a1 || (c1 || d1)) (a2 || (c2 || d2)) i ≡ false
        → chosen a0 a1 a2 i ≡ false
    go zero e = (or_false a0 (c0 || d0) e).0
    go (suc zero) e = (or_false a1 (c1 || d1) e).0
    go (suc (suc i)) e = (or_false a2 (c2 || d2) e).0
