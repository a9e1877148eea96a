-- ===== src/Config/Examples.antt =====
-- The settings on a concrete configuration.
use m45_gamma_firmware.Base.{◌≡◌, refl, true, false}
use m45_gamma_firmware.Base.Int.{negsuc}
use m45_gamma_firmware.Config.{Config, default_limits}
use m45_gamma_firmware.Config.Limits.{sanitize_config}
use m45_gamma_firmware.Config.Safe.{
  Ordered, sanitize_config-Ordered, IsStock, sanitize_config-IsStock,
}

-- Overclock off, and input voltage limits the wrong way round.
abbrev stored : Config
stored = record {
  pool_difficulty = 0;
  pool_difficulty_auto = true;
  overclock_enabled = false;
  auto_clock_enabled = true;
  auto_domain_reboot_enabled = true;
  auto_clock_target_temp_c = 99;
  auto_clock_max_watts_enabled = false;
  auto_clock_max_watts = 0;
  asic_frequency_mhz = 800;
  asic_voltage_mv = 1300;
  overclock_voltage_offset_mv = negsuc 700;
  asic_voltage_temp_compensation_enabled = false;
  fan_override_enabled = false;
  fan_override_percent = 12;
  fan_auto_off_allowed = true;
  fan_target_override_enabled = true;
  fan_target_temp_c = 80;
  safety_limits_unrestricted = true;
  limits = record default_limits { input_voltage_min_mv = 6000 };
}

sanitize_config-Ordered_example :
    Ordered ((sanitize_config (record stored { overclock_enabled = true })).limits)
sanitize_config-Ordered_example =
    sanitize_config-Ordered (record stored { overclock_enabled = true })

-- The same but for the overclock panel.
abbrev stored_again : Config
stored_again = record stored {
  auto_clock_enabled = false;
  asic_voltage_mv = 900;
  overclock_voltage_offset_mv = negsuc 20;
  limits = default_limits;
}

sanitize_config-IsStock_example :
    (sanitize_config stored ≡ sanitize_config stored_again)
    × IsStock (sanitize_config stored)
    × (sanitize_config (sanitize_config stored) ≡ sanitize_config stored)
sanitize_config-IsStock_example = sanitize_config-IsStock stored stored_again refl refl (record {
  same_difficulty = refl;
  same_difficulty_auto = refl;
  same_override = refl;
  same_percent = refl;
  same_auto_off = refl;
  same_target_override = refl;
  same_target = refl;
})
