-- ===== src/Http/Reconnect/Examples.antt =====
-- A change of one pool's weight.
use m45_gamma_firmware.Base.{ℕ, ◌/◌, ◌%◌, ◌≡◌, refl, ap, true, false, [], ◌∷◌, arith}
use m45_gamma_firmware.Http.Reconnect.{Settings, AuxSettings, runtime_reconnect_flags}
use m45_gamma_firmware.Http.Reconnect.Sessions.{session, runtime_reconnect_flags_lem}

abbrev pool_of : ℕ → ℕ → AuxSettings
pool_of host share_percent = record {
  enabled = true;
  host = host ∷ [];
  port = 3333;
  tls = false;
  user = 117 ∷ [];
  pass = [];
  share_percent = share_percent;
}

abbrev settings_of : ℕ → Settings
settings_of weight = record {
  wifi_ssid = [];
  wifi_password = [];
  hostname = [];
  pool_host = 97 ∷ [];
  pool_port = 3333;
  pool_tls = false;
  pool_user = 117 ∷ [];
  pool_pass = [];
  multi_pool_enabled = true;
  aux_pools = pool_of 98 weight ∷ pool_of 99 20 ∷ [];
  pool_difficulty = 1000;
  pool_difficulty_auto = false;
}

abbrev fixed : Settings → ℕ
fixed config = config.pool_difficulty

only_first : (runtime_reconnect_flags fixed (settings_of 10) (settings_of 30)).1 ≡ 2
unfolding runtime_reconnect_flags
only_first = refl

runtime_reconnect_flags_lem_example : session (settings_of 10) 2 ≡ session (settings_of 30) 2
runtime_reconnect_flags_lem_example =
    runtime_reconnect_flags_lem fixed (settings_of 10) (settings_of 30) 2 (omega arith)
      (ap (λ m. m / 4 % 2) only_first)
