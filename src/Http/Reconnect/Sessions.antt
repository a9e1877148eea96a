-- ===== src/Http/Reconnect/Sessions.antt =====
-- A change of the settings of main/wifi_http.c ends every connection that it makes out of date.
use m45_gamma_firmware.Base.{
  ℕ, zero, suc, ◌/◌, ◌%◌, ◌^◌, ◌<◌, bit_or, ◌≡◌, refl, ap, ◌⊎◌, inl, inr, Bool, true, false, ◌&&◌,
  ◌||◌, not, Option, none, some, List, [], ◌∷◌, arith, ◌==◌, if◌then◌else◌, Bool-cases, list_eq→eq,
}
use m45_gamma_firmware.Http.Reconnect.{
  Settings, aux_of, is_set, flags_differ, settings_string_changed, aux_pool_active_for_config,
  primary_active, primary_changed, aux_changed, pool_difficulty_settings_changed,
  runtime_reconnect_flags,
}
use m45_gamma_firmware.Http.Reconnect.Masks.{
  or_false, either, new_mode, chosen, active_bits, configured_bits, active_mask-bits,
  configured-bits, more_bits,
}

-- What a pool's connection is made with.
pub record Session : Type 0 where
  pub host : List ℕ
  pub port : ℕ
  pub tls : Bool
  pub user : List ℕ
  pub pass : List ℕ
  pub share_percent : ℕ

-- `pool_credentials` of main/stratum_minimal.c falls back to "x", and an auxiliary pool's user to
-- the primary one.
abbrev or_else : List ℕ → List ℕ → List ℕ
or_else text other = if is_set text then text else other

abbrev x_pass : List ℕ
x_pass = b'x' ∷ []

-- The session of a pool, if it has one.
pub session : Settings → ℕ → Option Session
unfolding aux_pool_active_for_config
session config zero =
    if primary_active config
    then some (record {
      host = config.pool_host;
      port = config.pool_port;
      tls = config.pool_tls;
      user = config.pool_user;
      pass = or_else config.pool_pass x_pass;
      share_percent = 100;
    })
    else none
session config (suc i) =
    let aux = aux_of config i in
    if aux_pool_active_for_config config i
    then some (record {
      host = aux.host;
      port = aux.port;
      tls = aux.tls;
      user = or_else aux.user config.pool_user;
      pass = or_else aux.pass x_pass;
      share_percent = aux.share_percent;
    })
    else none

same_text : (a b : List ℕ) → settings_string_changed a b ≡ false → a ≡ b
unfolding settings_string_changed
same_text a b h = list_eq→eq a b (ground (arith, h))

same_flag : (a b : Bool) → flags_differ a b ≡ false → a ≡ b
same_flag true true h = refl
same_flag true false h = absurd (cc)
same_flag false true h = absurd (cc)
same_flag false false h = refl

-- Two connections without a difference.
same_parts :
    (h h' : List ℕ) (p p' : ℕ) (t t' : Bool) (u u' w w' : List ℕ)
    → (settings_string_changed h h'
        || not (p == p')
        || flags_differ t t'
        || settings_string_changed u u'
        || settings_string_changed w w')
      ≡ false
    → (h ≡ h') × (p ≡ p') × (t ≡ t') × (u ≡ u') × (w ≡ w')
same_parts h h' p p' t t' u u' w w' same = (
  same_text h h' (ground (arith, same)),
  ground (arith, same),
  same_flag t t' (ground (arith, same)),
  same_text u u' (ground (arith, same)),
  same_text w w' (ground (arith, same)),
)

both_none :
    (mode a b : Bool) → (mode && (a || b)) ≡ false → (mode ≡ false) ⊎ ((a ≡ false) × (b ≡ false))
both_none false a b h = inl refl
both_none true a b h = inr (ground (arith, h), ground (arith, h))

primary_same :
    (old_config new_config : Settings)
    → primary_changed old_config new_config ≡ false
    → (flags_differ old_config.multi_pool_enabled new_config.multi_pool_enabled
        && (primary_active old_config || primary_active new_config))
      ≡ false
    → session old_config 0 ≡ session new_config 0
unfolding primary_changed session
primary_same old_config new_config h mode =
    let (host, port, tls, user, pass) =
      same_parts old_config.pool_host new_config.pool_host old_config.pool_port new_config.pool_port
        old_config.pool_tls new_config.pool_tls old_config.pool_user new_config.pool_user
        old_config.pool_pass new_config.pool_pass h in
    elim (both_none (flags_differ old_config.multi_pool_enabled new_config.multi_pool_enabled)
      (primary_active old_config) (primary_active new_config) mode) [
        | inl same_mode ↦
            let multi =
              same_flag old_config.multi_pool_enabled new_config.multi_pool_enabled same_mode in
            rw (multi, host, port, tls, user, pass) refl
        | inr (none_old, none_new) ↦ rw (none_old, none_new) refl
      ]

same_default :
    (u pu pu' : List ℕ)
    → (settings_string_changed pu pu' && not (is_set u)) ≡ false
    → or_else u pu ≡ or_else u pu'
same_default u pu pu' h = elim (Bool-cases (is_set u)) [
  | inl e ↦ rw e refl
  | inr e ↦ rw e (same_text pu pu' (ground (arith, h, e)))
]

-- Two active auxiliary pools without a difference, or two that are not active.
aux_parts :
    (a b : Bool) (h h' : List ℕ) (p p' : ℕ) (t t' e e' : Bool) (u u' w w' pu pu' : List ℕ)
    (q q' : ℕ)
    → ((a || b)
        && (flags_differ a b
            || (settings_string_changed h h'
                || not (p == p')
                || flags_differ t t'
                || flags_differ e e')
            || (settings_string_changed u u' || settings_string_changed w w')
            || (b && (settings_string_changed pu pu' && not (is_set u')))
            || not (q == q')))
      ≡ false
    → ((a ≡ false) × (b ≡ false))
      ⊎ ((a ≡ true)
          × (b ≡ true)
          × (h ≡ h')
          × (p ≡ p')
          × (t ≡ t')
          × (u ≡ u')
          × (w ≡ w')
          × (q ≡ q')
          × (or_else u' pu ≡ or_else u' pu'))
aux_parts false false h h' p p' t t' e e' u u' w w' pu pu' q q' same = inl (refl, refl)
aux_parts false true h h' p p' t t' e e' u u' w w' pu pu' q q' same = absurd (cc)
aux_parts true false h h' p p' t t' e e' u u' w w' pu pu' q q' same = absurd (cc)
aux_parts true true h h' p p' t t' e e' u u' w w' pu pu' q q' same = inr (
  refl,
  refl,
  same_text h h' (ground (arith, same)),
  ground (arith, same),
  same_flag t t' (ground (arith, same)),
  same_text u u' (ground (arith, same)),
  same_text w w' (ground (arith, same)),
  ground (arith, same),
  same_default u' pu pu' (ground (arith, same)),
)

aux_same :
    (old_config new_config : Settings) (i : ℕ)
    → aux_changed old_config new_config i ≡ false
    → session old_config (suc i) ≡ session new_config (suc i)
unfolding aux_changed session
aux_same old_config new_config i h =
    let old_aux = aux_of old_config i in
    let new_aux = aux_of new_config i in
    elim (aux_parts (aux_pool_active_for_config old_config i)
      (aux_pool_active_for_config new_config i) old_aux.host new_aux.host old_aux.port new_aux.port
      old_aux.tls new_aux.tls old_aux.enabled new_aux.enabled old_aux.user new_aux.user old_aux.pass
      new_aux.pass old_config.pool_user new_config.pool_user old_aux.share_percent
      new_aux.share_percent h) [
        | inl (none_old, none_new) ↦ rw (none_old, none_new) refl
        | inr (act, act', host, port, tls, user, pass, share, default) ↦
            rw (act, act', host, port, tls, user, pass, share)
              (ap
                (λ text. some (record {
                  host = new_aux.host;
                  port = new_aux.port;
                  tls = new_aux.tls;
                  user = text;
                  pass = or_else new_aux.pass x_pass;
                  share_percent = new_aux.share_percent;
                }))
                default)
      ]

sessions_same :
    (old_config new_config : Settings) (pool_id : ℕ)
    → pool_id < 3
    → chosen
        (primary_changed old_config new_config
          || (new_mode old_config new_config
              && (primary_active old_config || primary_active new_config)))
        ((new_mode old_config new_config && either old_config new_config 0)
          || aux_changed old_config new_config 0)
        ((new_mode old_config new_config && either old_config new_config 1)
          || aux_changed old_config new_config 1)
        pool_id
      ≡ false
    → session old_config pool_id ≡ session new_config pool_id
sessions_same old_config new_config zero lt h =
    let (changed, mode) =
      or_false (primary_changed old_config new_config)
        (new_mode old_config new_config && (primary_active old_config || primary_active new_config))
        h in
    primary_same old_config new_config changed mode
sessions_same old_config new_config (suc zero) lt h =
    aux_same old_config new_config 0
      (or_false (new_mode old_config new_config && either old_config new_config 0)
        (aux_changed old_config new_config 0) h).1
sessions_same old_config new_config (suc (suc zero)) lt h =
    aux_same old_config new_config 1
      (or_false (new_mode old_config new_config && either old_config new_config 1)
        (aux_changed old_config new_config 1) h).1
sessions_same old_config new_config (suc (suc (suc i))) lt h = absurd (omega arith)

-- A pool whose bit is clear in the mask keeps a connection that is still right: whether it has one,
-- its host, port, encryption, user, password and share are the same under the new settings.
pub runtime_reconnect_flags_lem :
    (suggested : Settings → ℕ) (old_config new_config : Settings) (pool_id : ℕ)
    → pool_id < 3
    → (runtime_reconnect_flags suggested old_config new_config).1 / 2 ^ pool_id % 2 ≡ 0
    → session old_config pool_id ≡ session new_config pool_id
unfolding runtime_reconnect_flags
runtime_reconnect_flags_lem suggested old_config new_config pool_id lt h =
    sessions_same old_config new_config pool_id lt (
      more_bits _ _ _ _ _ _ _ _ _ (pool_difficulty_settings_changed suggested old_config new_config)
        pool_id lt named)
  where
    named :
        (if pool_difficulty_settings_changed suggested old_config new_config
            then bit_or
                (active_bits old_config new_config)
                (bit_or (configured_bits old_config) (configured_bits new_config))
            else active_bits old_config new_config)
          / 2 ^ pool_id
          % 2
        ≡ 0
    named =
        rw
          (
            active_mask-bits old_config new_config,
            configured-bits old_config,
            configured-bits new_config,
          )
          at h
