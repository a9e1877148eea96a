-- ===== src/Config.antt =====
-- The numeric settings of main/m45_config.c: their sanitising, the auto-clock policy and the
-- effective values that the rest of the firmware asks for.
use m45_gamma_firmware.Base.{
  ℕ, ◌+◌, ◌*◌, ◌/◌, ◌%◌, ◌^◌, Bool, true, false, ◌&&◌, ◌||◌, not, ltb, leb, ◌==◌, if◌then◌else◌,
}
use m45_gamma_firmware.Base.Int.{ℤ, pos, negsuc}
pub mod Limits
pub mod Safe
mod Examples

pub record SafetyLimits : Type 0 where
  pub input_voltage_min_mv : ℕ
  pub input_voltage_expected_min_mv : ℕ
  pub input_voltage_expected_max_mv : ℕ
  pub input_voltage_max_mv : ℕ
  pub asic_voltage_min_mv : ℕ
  pub asic_voltage_max_mv : ℕ
  pub asic_temp_expected_max_c : ℕ
  pub asic_temp_max_c : ℕ
  pub tps546_temp_expected_max_c : ℕ
  pub tps546_temp_max_c : ℕ
  pub iout_warn_deciamps : ℕ
  pub iout_fault_deciamps : ℕ

-- The numbers and flags of `m45_config_t`, the `safety_` fields but the flag in `limits`.
pub record Config : Type 0 where
  pub pool_difficulty : ℕ
  pub pool_difficulty_auto : Bool
  pub overclock_enabled : Bool
  pub auto_clock_enabled : Bool
  pub auto_domain_reboot_enabled : Bool
  pub auto_clock_target_temp_c : ℕ
  pub auto_clock_max_watts_enabled : Bool
  pub auto_clock_max_watts : ℕ
  pub asic_frequency_mhz : ℕ
  pub asic_voltage_mv : ℕ
  pub overclock_voltage_offset_mv : ℤ
  pub asic_voltage_temp_compensation_enabled : Bool
  pub fan_override_enabled : Bool
  pub fan_override_percent : ℕ
  pub fan_auto_off_allowed : Bool
  pub fan_target_override_enabled : Bool
  pub fan_target_temp_c : ℕ
  pub safety_limits_unrestricted : Bool
  pub limits : SafetyLimits

-- `set_default_safety_limits`
abbrev pub default_limits : SafetyLimits
default_limits = record {
  input_voltage_min_mv = 4800;
  input_voltage_expected_min_mv = 4950;
  input_voltage_expected_max_mv = 5400;
  input_voltage_max_mv = 5500;
  asic_voltage_min_mv = 700;
  asic_voltage_max_mv = 1400;
  asic_temp_expected_max_c = 65;
  asic_temp_max_c = 69;
  tps546_temp_expected_max_c = 90;
  tps546_temp_max_c = 110;
  iout_warn_deciamps = 290;
  iout_fault_deciamps = 330;
}

abbrev pub default_if_outside : ℕ → ℕ → ℕ → ℕ → ℕ
default_if_outside value default_value min_value max_value =
    if ltb value min_value || ltb max_value value then default_value else value

abbrev pub clamp_u16 : ℕ → ℕ → ℕ → ℕ
clamp_u16 value min_value max_value =
    if ltb value min_value then min_value else if ltb max_value value then max_value else value

-- The settings of the build, main/Kconfig.projbuild.
abbrev pub stock_frequency_mhz : ℕ
stock_frequency_mhz = 525

abbrev pub stock_voltage_mv : ℕ
stock_voltage_mv = 1150

abbrev pub suggested_difficulty : ℕ
suggested_difficulty = 1000

-- `fan_override_percent` if it is 0 or a percentage that is allowed.
abbrev pub sane_fan_percent : ℕ → ℕ
sane_fan_percent percent =
    if not (percent == 0) && (ltb percent 35 || ltb 100 percent) then 100 else percent

-- `m45_config_apply_auto_clock_policy`
pub apply_auto_clock_policy : Config → Config
apply_auto_clock_policy c =
    if not c.overclock_enabled
    then record c {
      auto_clock_enabled = false;
      auto_domain_reboot_enabled = false;
      auto_clock_target_temp_c = 62;
      auto_clock_max_watts_enabled = true;
      auto_clock_max_watts = 40;
      asic_frequency_mhz = stock_frequency_mhz;
      asic_voltage_mv = stock_voltage_mv;
      overclock_voltage_offset_mv = pos 0;
      asic_voltage_temp_compensation_enabled = true;
      safety_limits_unrestricted = false;
      limits = default_limits;
    }
    else if not c.auto_clock_enabled
    then record c { auto_clock_enabled = false }
    else record c {
      asic_frequency_mhz = stock_frequency_mhz;
      asic_voltage_mv = stock_voltage_mv;
      fan_override_enabled = true;
      fan_override_percent =
          sane_fan_percent (if not c.fan_override_enabled then 100 else c.fan_override_percent);
      fan_auto_off_allowed = false;
    }

-- The range test of `overclock_voltage_offset_mv`: -500 to 300.
abbrev pub sane_offset : ℤ → ℤ
sane_offset (pos n) = if ltb 300 n then pos 0 else pos n
sane_offset (negsuc n) = if ltb 500 (n + 1) then pos 0 else negsuc n

-- `sanitize_config` from `pool_difficulty` to the call of the auto-clock policy.
pub sanitize_settings : Config → Config
sanitize_settings c = record c {
  pool_difficulty = if ltb c.pool_difficulty 1 then suggested_difficulty else c.pool_difficulty;
  asic_frequency_mhz = default_if_outside c.asic_frequency_mhz stock_frequency_mhz 1 1500;
  asic_voltage_mv = default_if_outside c.asic_voltage_mv stock_voltage_mv 500 1370;
  overclock_voltage_offset_mv = sane_offset c.overclock_voltage_offset_mv;
  fan_override_percent = sane_fan_percent c.fan_override_percent;
  fan_target_temp_c = default_if_outside c.fan_target_temp_c 62 35 66;
  auto_clock_target_temp_c = default_if_outside c.auto_clock_target_temp_c 62 35 66;
  auto_clock_max_watts = default_if_outside c.auto_clock_max_watts 40 1 100;
}

-- `m45_config_auto_pool_difficulty`; the products of its uint16 and uint8 arguments fit 64 bits.
pub auto_pool_difficulty : ℕ → ℕ → ℕ → ℕ
auto_pool_difficulty frequency_mhz small_core_count asic_count =
    let hashes_per_second = frequency_mhz * 1000000 * small_core_count * asic_count in
    let denominator = 14 * 4294967296 in
    let difficulty = hashes_per_second * 60 % 2 ^ 64 / denominator in
    if frequency_mhz == 0 || small_core_count == 0 || asic_count == 0
    then suggested_difficulty
    else if ltb difficulty 1
    then 1
    else if ltb 65535 difficulty
    then 65535
    else difficulty

pub effective_asic_frequency_mhz : Config → ℕ
effective_asic_frequency_mhz active =
    if active.overclock_enabled then active.asic_frequency_mhz else stock_frequency_mhz

pub effective_asic_voltage_mv : Config → ℕ
effective_asic_voltage_mv active =
    if active.overclock_enabled then active.asic_voltage_mv else stock_voltage_mv

pub effective_pool_difficulty : Config → ℕ → ℕ → ℕ
effective_pool_difficulty active small_core_count asic_count =
    if not active.pool_difficulty_auto
    then (if leb 1 active.pool_difficulty then active.pool_difficulty else suggested_difficulty)
    else auto_pool_difficulty (effective_asic_frequency_mhz active) small_core_count asic_count

unfoldable pub effective_fan_target_temp_c : Config → ℕ
effective_fan_target_temp_c active =
    if not active.fan_target_override_enabled
    then 62
    else if ltb active.fan_target_temp_c 35
    then 35
    else if ltb 66 active.fan_target_temp_c
    then 66
    else active.fan_target_temp_c

unfoldable pub effective_auto_clock_target_temp_c : Config → ℕ
effective_auto_clock_target_temp_c active =
    if ltb active.auto_clock_target_temp_c 35
    then 35
    else if ltb 66 active.auto_clock_target_temp_c
    then 66
    else active.auto_clock_target_temp_c

unfoldable pub effective_auto_clock_max_watts : Config → ℕ
effective_auto_clock_max_watts active =
    if ltb active.auto_clock_max_watts 1
    then 1
    else if ltb 100 active.auto_clock_max_watts
    then 100
    else active.auto_clock_max_watts
