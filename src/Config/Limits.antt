-- ===== src/Config/Limits.antt =====
-- The safety limits part of `sanitize_config` of main/m45_config.c.
use m45_gamma_firmware.Base.{ℕ, Bool, ◌||◌, not, ltb, leb, if◌then◌else◌}
use m45_gamma_firmware.Config.{
  SafetyLimits, Config, default_if_outside, clamp_u16, apply_auto_clock_policy, sanitize_settings,
}

-- A lower and an upper limit: each in its range unless unrestricted, and both back to their
-- defaults where they are not in order. Input voltage and ASIC voltage have this form.
unfoldable pub sanitize_range : Bool → ℕ × ℕ × ℕ → ℕ × ℕ × ℕ → ℕ → ℕ → ℕ × ℕ
sanitize_range unrestricted (lo_default, lo_min, lo_max) (hi_default, hi_min, hi_max) lo hi =
    let lo' = if not unrestricted then default_if_outside lo lo_default lo_min lo_max else lo in
    let hi' = if not unrestricted then default_if_outside hi hi_default hi_min hi_max else hi in
    if leb hi' lo' then (lo_default, hi_default) else (lo', hi')

-- The expected input voltages between the limits `lo` and `hi`.
unfoldable pub sanitize_expected : Bool → ℕ → ℕ → ℕ → ℕ → ℕ × ℕ
sanitize_expected unrestricted lo hi exp_lo exp_hi =
    let exp_lo' = if not unrestricted then default_if_outside exp_lo 4950 4500 5500 else exp_lo in
    let exp_hi' = if not unrestricted then default_if_outside exp_hi 5400 4500 5500 else exp_hi in
    let fallback_lo = clamp_u16 4950 lo hi in
    let fallback_hi = clamp_u16 5400 lo hi in
    if leb exp_hi' exp_lo' || ltb exp_lo' lo || ltb hi exp_hi'
    then (if leb fallback_hi fallback_lo then (lo, hi) else (fallback_lo, fallback_hi))
    else (exp_lo', exp_hi')

-- A limit and a warning level, which is lowered to the limit where it lies above it. The ASIC and
-- regulator temperatures and the output current have this form: the warning level first.
unfoldable pub sanitize_capped : Bool → ℕ × ℕ × ℕ → ℕ × ℕ × ℕ → ℕ → ℕ → ℕ × ℕ
sanitize_capped unrestricted (exp_default, exp_min, exp_max) (max_default, max_min, max_max) exp
      top =
    let top' =
      if not unrestricted then default_if_outside top max_default max_min max_max else top in
    let exp' =
      if not unrestricted then default_if_outside exp exp_default exp_min exp_max else exp in
    (if ltb top' exp' then top' else exp', top')

unfoldable pub sanitize_limits : Bool → SafetyLimits → SafetyLimits
sanitize_limits unrestricted l =
    let input =
      sanitize_range unrestricted (4800, 4500, 5200) (5500, 5000, 5500) l.input_voltage_min_mv
        l.input_voltage_max_mv in
    let expected =
      sanitize_expected unrestricted (input.0) (input.1) l.input_voltage_expected_min_mv
        l.input_voltage_expected_max_mv in
    let asic =
      sanitize_range unrestricted (700, 700, 1200) (1400, 800, 1400) l.asic_voltage_min_mv
        l.asic_voltage_max_mv in
    let asic_temp =
      sanitize_capped unrestricted (65, 35, 69) (69, 45, 69) l.asic_temp_expected_max_c
        l.asic_temp_max_c in
    let tps546_temp =
      sanitize_capped unrestricted (90, 40, 110) (110, 60, 110) l.tps546_temp_expected_max_c
        l.tps546_temp_max_c in
    let iout =
      sanitize_capped unrestricted (290, 50, 330) (330, 60, 330) l.iout_warn_deciamps
        l.iout_fault_deciamps in
    record {
      input_voltage_min_mv = input.0;
      input_voltage_expected_min_mv = expected.0;
      input_voltage_expected_max_mv = expected.1;
      input_voltage_max_mv = input.1;
      asic_voltage_min_mv = asic.0;
      asic_voltage_max_mv = asic.1;
      asic_temp_expected_max_c = asic_temp.0;
      asic_temp_max_c = asic_temp.1;
      tps546_temp_expected_max_c = tps546_temp.0;
      tps546_temp_max_c = tps546_temp.1;
      iout_warn_deciamps = iout.0;
      iout_fault_deciamps = iout.1;
    }

-- `sanitize_config` after its strings.
unfoldable pub sanitize_config : Config → Config
sanitize_config config =
    let c = apply_auto_clock_policy (sanitize_settings config) in
    record c { limits = sanitize_limits c.safety_limits_unrestricted c.limits }
