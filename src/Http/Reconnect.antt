-- ===== src/Http/Reconnect.antt =====
-- Which connections a change of the settings ends: the masks of main/wifi_http.c.
use m45_gamma_firmware.Base.{
  ℕ, ◌^◌, bit_or, Bool, true, false, ◌&&◌, ◌||◌, not, List, [], ltb, leb, ◌==◌, if◌then◌else◌,
  length, get_or, list_eq,
}
mod Examples
pub mod Masks
pub mod Sessions

-- `m45_aux_pool_t` without its cached address.
pub record AuxSettings : Type 0 where
  pub enabled : Bool
  pub host : List ℕ
  pub port : ℕ
  pub tls : Bool
  pub user : List ℕ
  pub pass : List ℕ
  pub share_percent : ℕ

-- The fields of `m45_config_t` that are compared.
pub record Settings : Type 0 where
  pub wifi_ssid : List ℕ
  pub wifi_password : List ℕ
  pub hostname : List ℕ
  pub pool_host : List ℕ
  pub pool_port : ℕ
  pub pool_tls : Bool
  pub pool_user : List ℕ
  pub pool_pass : List ℕ
  pub multi_pool_enabled : Bool
  pub aux_pools : List AuxSettings
  pub pool_difficulty : ℕ
  pub pool_difficulty_auto : Bool

abbrev pub no_aux : AuxSettings
no_aux = record {
  enabled = false;
  host = [];
  port = 0;
  tls = false;
  user = [];
  pass = [];
  share_percent = 0;
}

abbrev pub aux_of : Settings → ℕ → AuxSettings
aux_of config i = get_or config.aux_pools i no_aux

abbrev pub is_set : List ℕ → Bool
is_set text = not (length text == 0)

-- `a != b` of two flags.
abbrev pub flags_differ : Bool → Bool → Bool
flags_differ true b = not b
flags_differ false b = b

pub settings_string_changed : List ℕ → List ℕ → Bool
settings_string_changed a b = not (list_eq a b)

pub pool_reconnect_bit : ℕ → ℕ
pool_reconnect_bit pool_id = if ltb pool_id 32 then 2 ^ pool_id else 0

pub aux_pool_active_for_config : Settings → ℕ → Bool
aux_pool_active_for_config config i =
    let aux = aux_of config i in
    config.multi_pool_enabled
    && (ltb i 2
        && (aux.enabled
            && (is_set aux.host
                && (ltb 0 aux.port
                    && ((is_set aux.user || is_set config.pool_user)
                        && (leb 1 aux.share_percent && leb aux.share_percent 99))))))

abbrev pub add_bit : ℕ → ℕ → Bool → ℕ
add_bit mask pool_id test = if test then bit_or mask (pool_reconnect_bit pool_id) else mask

-- The primary pool has a connection.
abbrev pub primary_active : Settings → Bool
primary_active config =
    not config.multi_pool_enabled && (is_set config.pool_host && ltb 0 config.pool_port)

pub configured_pool_reconnect_mask : Settings → ℕ
unfolding pool_reconnect_bit aux_pool_active_for_config
configured_pool_reconnect_mask config =
    let mask = if primary_active config then pool_reconnect_bit 0 else 0 in
    let mask_1 = add_bit mask 1 (aux_pool_active_for_config config 0) in
    add_bit mask_1 2 (aux_pool_active_for_config config 1)

pub primary_changed : Settings → Settings → Bool
unfolding settings_string_changed
primary_changed old_config new_config =
    settings_string_changed old_config.pool_host new_config.pool_host
    || not (old_config.pool_port == new_config.pool_port)
    || flags_differ old_config.pool_tls new_config.pool_tls
    || settings_string_changed old_config.pool_user new_config.pool_user
    || settings_string_changed old_config.pool_pass new_config.pool_pass

-- The body of the last loop: whether it sets the bit of the pool.
pub aux_changed : Settings → Settings → ℕ → Bool
unfolding settings_string_changed aux_pool_active_for_config
aux_changed old_config new_config i =
    let old_aux = aux_of old_config i in
    let new_aux = aux_of new_config i in
    let old_active = aux_pool_active_for_config old_config i in
    let new_active = aux_pool_active_for_config new_config i in
    let endpoint_changed =
      settings_string_changed old_aux.host new_aux.host
      || not (old_aux.port == new_aux.port)
      || flags_differ old_aux.tls new_aux.tls
      || flags_differ old_aux.enabled new_aux.enabled in
    let credentials_changed =
      settings_string_changed old_aux.user new_aux.user
      || settings_string_changed old_aux.pass new_aux.pass in
    let default_user_changed =
      new_active
      && (settings_string_changed old_config.pool_user new_config.pool_user
          && not (is_set new_aux.user)) in
    (old_active || new_active)
    && (flags_differ old_active new_active
        || endpoint_changed
        || credentials_changed
        || default_user_changed
        || not (old_aux.share_percent == new_aux.share_percent))

pub mode_mask : Settings → Settings → ℕ → ℕ
unfolding pool_reconnect_bit aux_pool_active_for_config
mode_mask old_config new_config mask =
    let either = λ (i : ℕ).
      aux_pool_active_for_config old_config i || aux_pool_active_for_config new_config i in
    let mask_0 = add_bit mask 0 (primary_active old_config || primary_active new_config) in
    if flags_differ old_config.multi_pool_enabled new_config.multi_pool_enabled
    then add_bit (add_bit mask_0 1 (either 0)) 2 (either 1)
    else mask

pub active_pool_settings_reconnect_mask : Settings → Settings → ℕ
unfolding pool_reconnect_bit primary_changed mode_mask aux_changed
active_pool_settings_reconnect_mask old_config new_config =
    let mask = add_bit 0 0 (primary_changed old_config new_config) in
    let mode = mode_mask old_config new_config mask in
    add_bit (add_bit mode 1 (aux_changed old_config new_config 0)) 2
      (aux_changed old_config new_config 1)

-- `suggested` is `suggested_pool_difficulty_for_config`.
pub pool_difficulty_settings_changed : (Settings → ℕ) → Settings → Settings → Bool
pool_difficulty_settings_changed suggested old_config new_config =
    flags_differ old_config.pool_difficulty_auto new_config.pool_difficulty_auto
    || not (old_config.pool_difficulty == new_config.pool_difficulty)
    || (new_config.pool_difficulty_auto && not (suggested old_config == suggested new_config))

pub wifi_credentials_changed : Settings → Settings → Bool
unfolding settings_string_changed
wifi_credentials_changed old_config new_config =
    settings_string_changed old_config.wifi_ssid new_config.wifi_ssid
    || settings_string_changed old_config.wifi_password new_config.wifi_password

-- The network is to be joined again, and the mask of the pools to connect to again.
pub runtime_reconnect_flags : (Settings → ℕ) → Settings → Settings → Bool × ℕ
unfolding wifi_credentials_changed settings_string_changed active_pool_settings_reconnect_mask
    pool_difficulty_settings_changed configured_pool_reconnect_mask
runtime_reconnect_flags suggested old_config new_config =
    let mask = active_pool_settings_reconnect_mask old_config new_config in
    (
      wifi_credentials_changed old_config new_config
          || settings_string_changed old_config.hostname new_config.hostname,
      if pool_difficulty_settings_changed suggested old_config new_config
          then bit_or mask (
              bit_or (configured_pool_reconnect_mask old_config)
                (configured_pool_reconnect_mask new_config))
          else mask,
    )
