-- ===== src/Config/Safe.antt =====
-- What a sanitised configuration guarantees.
use m45_gamma_firmware.Base.{
  ℕ, ◌*◌, ◌/◌, ◌%◌, ◌^◌, ◌≤◌, ◌<◌, ◌≡◌, refl, sym, ap, ◌∙◌, subst, inl, inr, Bool, true, false,
  ◌||◌, not, arith, ltb, leb, ◌==◌, if◌then◌else◌, Bool-cases,
}
use m45_gamma_firmware.Base.Int.{pos}
use m45_gamma_firmware.Config.{
  SafetyLimits, Config, default_limits, stock_frequency_mhz, stock_voltage_mv, suggested_difficulty,
  sane_fan_percent, default_if_outside, clamp_u16, apply_auto_clock_policy, sanitize_settings,
  auto_pool_difficulty, effective_asic_frequency_mhz, effective_pool_difficulty,
}
use m45_gamma_firmware.Config.Limits.{
  sanitize_range, sanitize_expected, sanitize_capped, sanitize_limits, sanitize_config,
}

-- The limits and warning levels are in order.
pub Ordered : SafetyLimits → Type 0
Ordered l =
    (l.input_voltage_min_mv ≤ l.input_voltage_expected_min_mv)
    × (l.input_voltage_expected_min_mv < l.input_voltage_expected_max_mv)
    × (l.input_voltage_expected_max_mv ≤ l.input_voltage_max_mv)
    × (l.asic_voltage_min_mv < l.asic_voltage_max_mv)
    × (l.asic_temp_expected_max_c ≤ l.asic_temp_max_c)
    × (l.tps546_temp_expected_max_c ≤ l.tps546_temp_max_c)
    × (l.iout_warn_deciamps ≤ l.iout_fault_deciamps)

sanitize_range-order :
    (u : Bool) (lo_d lo_min lo_max hi_d hi_min hi_max lo hi : ℕ)
    → lo_d < hi_d
    → (sanitize_range u (lo_d, lo_min, lo_max) (hi_d, hi_min, hi_max) lo hi).0
      < (sanitize_range u (lo_d, lo_min, lo_max) (hi_d, hi_min, hi_max) lo hi).1
unfolding sanitize_range
sanitize_range-order true lo_d lo_min lo_max hi_d hi_min hi_max lo hi lt =
    elim (Bool-cases (leb hi lo)) [ inl bad ↦ rw bad lt | inr good ↦ rw good (ground arith) ]
sanitize_range-order false lo_d lo_min lo_max hi_d hi_min hi_max lo hi lt =
    let lo' : ℕ = default_if_outside lo lo_d lo_min lo_max in
    let hi' : ℕ = default_if_outside hi hi_d hi_min hi_max in
    elim (Bool-cases (leb hi' lo')) [
      | inl bad ↦ rw bad lt
      | inr good ↦ rw good (le_of lo' hi' good)
    ]
  where
    le_of : (a b : ℕ) → leb b a ≡ false → a < b
    le_of a b e = ground arith

sanitize_expected-order :
    (u : Bool) (lo hi exp_lo exp_hi : ℕ)
    → lo < hi
    → (lo ≤ (sanitize_expected u lo hi exp_lo exp_hi).0)
      × ((sanitize_expected u lo hi exp_lo exp_hi).0 < (sanitize_expected u lo hi exp_lo exp_hi).1)
      × ((sanitize_expected u lo hi exp_lo exp_hi).1 ≤ hi)
unfolding sanitize_expected
sanitize_expected-order u lo hi exp_lo exp_hi lt =
    pick (if not u then default_if_outside exp_lo 4950 4500 5500 else exp_lo)
      (if not u then default_if_outside exp_hi 5400 4500 5500 else exp_hi)
  where
    Good : ℕ × ℕ → Type 0
    Good p = (lo ≤ p.0) × (p.0 < p.1) × (p.1 ≤ hi)

    fallback : Good (
        if leb (clamp_u16 5400 lo hi) (clamp_u16 4950 lo hi)
        then (lo, hi)
        else (clamp_u16 4950 lo hi, clamp_u16 5400 lo hi))
    fallback = elim (Bool-cases (leb (clamp_u16 5400 lo hi) (clamp_u16 4950 lo hi))) [
      | inl bad ↦ rw bad (omega arith, lt, omega arith)
      | inr good ↦ rw good (ground arith, ground arith, ground arith)
    ]

    pick :
        (a b : ℕ)
        → Good (
            if leb b a || ltb a lo || ltb hi b
            then (if leb (clamp_u16 5400 lo hi) (clamp_u16 4950 lo hi)
                then (lo, hi)
                else (clamp_u16 4950 lo hi, clamp_u16 5400 lo hi))
            else (a, b))
    pick a b = elim (Bool-cases (leb b a || ltb a lo || ltb hi b)) [
      | inl bad ↦ rw bad fallback
      | inr good ↦ rw good (ground arith, ground arith, ground arith)
    ]

sanitize_capped-order :
    (u : Bool) (e m : ℕ × ℕ × ℕ) (exp top : ℕ)
    → (sanitize_capped u e m exp top).0 ≤ (sanitize_capped u e m exp top).1
unfolding sanitize_capped
sanitize_capped-order u (e_d, e_min, e_max) (m_d, m_min, m_max) exp top =
    lower (if not u then default_if_outside top m_d m_min m_max else top)
      (if not u then default_if_outside exp e_d e_min e_max else exp)
  where
    lower : (t e : ℕ) → (if ltb t e then t else e) ≤ t
    lower t e = ground arith

-- Whatever the stored values are, and with or without restricted limits: the sanitised limits are
-- in order. The minimal input voltage is at most the expected minimum, that is below the expected
-- maximum, and that is at most the maximum; the ASIC voltage limits are in order, and no warning
-- level of the two temperatures and the output current lies above its limit.
pub sanitize_config-Ordered : (config : Config) → Ordered ((sanitize_config config).limits)
unfolding sanitize_config sanitize_limits Ordered
sanitize_config-Ordered config =
    let c = apply_auto_clock_policy (sanitize_settings config) in
    let u = c.safety_limits_unrestricted in
    let l = c.limits in
    let expected =
      sanitize_expected-order u _ _ l.input_voltage_expected_min_mv l.input_voltage_expected_max_mv
        (sanitize_range-order u 4800 4500 5200 5500 5000 5500 l.input_voltage_min_mv
          l.input_voltage_max_mv (omega arith)) in
    (
      expected.0,
      expected.1,
      expected.2,
      sanitize_range-order u 700 700 1200 1400 800 1400 l.asic_voltage_min_mv l.asic_voltage_max_mv
          (omega arith),
      sanitize_capped-order u _ _ l.asic_temp_expected_max_c l.asic_temp_max_c,
      sanitize_capped-order u _ _ l.tps546_temp_expected_max_c l.tps546_temp_max_c,
      sanitize_capped-order u _ _ l.iout_warn_deciamps l.iout_fault_deciamps,
    )

-- What the overclock panel does not set.
pub record IsSameOutside (config config' : Config) : Type 0 where
  pub same_difficulty : config.pool_difficulty ≡ config'.pool_difficulty
  pub same_difficulty_auto : config.pool_difficulty_auto ≡ config'.pool_difficulty_auto
  pub same_override : config.fan_override_enabled ≡ config'.fan_override_enabled
  pub same_percent : config.fan_override_percent ≡ config'.fan_override_percent
  pub same_auto_off : config.fan_auto_off_allowed ≡ config'.fan_auto_off_allowed
  pub same_target_override :
      config.fan_target_override_enabled ≡ config'.fan_target_override_enabled
  pub same_target : config.fan_target_temp_c ≡ config'.fan_target_temp_c

-- The settings of a configuration that was never overclocked.
pub record IsStock (config : Config) : Type 0 where
  pub auto_clock : config.auto_clock_enabled ≡ false
  pub domain_reboot : config.auto_domain_reboot_enabled ≡ false
  pub target_temp : config.auto_clock_target_temp_c ≡ 62
  pub watts_limited : config.auto_clock_max_watts_enabled ≡ true
  pub watts : config.auto_clock_max_watts ≡ 40
  pub frequency : config.asic_frequency_mhz ≡ stock_frequency_mhz
  pub voltage : config.asic_voltage_mv ≡ stock_voltage_mv
  pub offset : config.overclock_voltage_offset_mv ≡ pos 0
  pub compensated : config.asic_voltage_temp_compensation_enabled ≡ true
  pub restricted : config.safety_limits_unrestricted ≡ false
  pub all_limits : config.limits ≡ default_limits

-- The stock configuration with some settings outside the panel.
stock_of : ℕ → Bool → Bool → ℕ → Bool → Bool → ℕ → Config
stock_of difficulty difficulty_auto override percent auto_off target_override target = record {
  pool_difficulty = difficulty;
  pool_difficulty_auto = difficulty_auto;
  overclock_enabled = false;
  auto_clock_enabled = false;
  auto_domain_reboot_enabled = false;
  auto_clock_target_temp_c = 62;
  auto_clock_max_watts_enabled = true;
  auto_clock_max_watts = 40;
  asic_frequency_mhz = stock_frequency_mhz;
  asic_voltage_mv = stock_voltage_mv;
  overclock_voltage_offset_mv = pos 0;
  asic_voltage_temp_compensation_enabled = true;
  fan_override_enabled = override;
  fan_override_percent = percent;
  fan_auto_off_allowed = auto_off;
  fan_target_override_enabled = target_override;
  fan_target_temp_c = target;
  safety_limits_unrestricted = false;
  limits = default_limits;
}

abbrev sane_difficulty : ℕ → ℕ
sane_difficulty difficulty = if ltb difficulty 1 then suggested_difficulty else difficulty

abbrev sane_target : ℕ → ℕ
sane_target target = default_if_outside target 62 35 66

sanitize_config-off :
    (config : Config)
    → config.overclock_enabled ≡ false
    → sanitize_config config
      ≡ stock_of
          (sane_difficulty config.pool_difficulty)
          config.pool_difficulty_auto
          config.fan_override_enabled
          (sane_fan_percent config.fan_override_percent)
          config.fan_auto_off_allowed
          config.fan_target_override_enabled
          (sane_target config.fan_target_temp_c)
unfolding sanitize_config sanitize_limits sanitize_range sanitize_expected sanitize_capped
    apply_auto_clock_policy sanitize_settings stock_of
sanitize_config-off config off = rw off refl

stock_same :
    {d d' p p' t t' : ℕ} {a a' o o' f f' r r' : Bool}
    → d ≡ d'
    → a ≡ a'
    → o ≡ o'
    → p ≡ p'
    → f ≡ f'
    → r ≡ r'
    → t ≡ t'
    → stock_of d a o p f r t ≡ stock_of d' a' o' p' f' r' t'
stock_same e1 e2 e3 e4 e5 e6 e7 = cc

sane_twice :
    (difficulty percent target : ℕ)
    → (sane_difficulty (sane_difficulty difficulty) ≡ sane_difficulty difficulty)
      × (sane_fan_percent (sane_fan_percent percent) ≡ sane_fan_percent percent)
      × (sane_target (sane_target target) ≡ sane_target target)
sane_twice difficulty percent target = (ground arith, ground arith, ground arith)

-- With the overclock switched off nothing of the overclock panel is left: two configurations that
-- differ in its settings and the safety limits only are sanitised to one and the same, it has the
-- stock value in each of them, and sanitising it once more changes nothing.
pub sanitize_config-IsStock :
    (config config' : Config)
    → config.overclock_enabled ≡ false
    → config'.overclock_enabled ≡ false
    → IsSameOutside config config'
    → (sanitize_config config ≡ sanitize_config config')
      × IsStock (sanitize_config config)
      × (sanitize_config (sanitize_config config) ≡ sanitize_config config)
unfolding stock_of
sanitize_config-IsStock config config' off off' same =
    let stock = sanitize_config-off config off in
    let (difficulty, percent, target) =
      sane_twice config.pool_difficulty config.fan_override_percent config.fan_target_temp_c in
    (
      stock
          ∙ (stock_same (ap (λ d. sane_difficulty d) same.same_difficulty) same.same_difficulty_auto
                same.same_override (ap (λ p. sane_fan_percent p) same.same_percent)
                same.same_auto_off same.same_target_override
                (ap (λ t. sane_target t) same.same_target)
              ∙ sym (sanitize_config-off config' off')),
      subst IsStock (sym stock) (record {
        auto_clock = refl;
        domain_reboot = refl;
        target_temp = refl;
        watts_limited = refl;
        watts = refl;
        frequency = refl;
        voltage = refl;
        offset = refl;
        compensated = refl;
        restricted = refl;
        all_limits = refl;
      }),
      ap sanitize_config stock
          ∙ (sanitize_config-off _ refl
              ∙ (stock_same difficulty refl refl percent refl refl target ∙ sym stock)),
    )

clamped :
    (d : ℕ)
    → (1 ≤ (if ltb d 1 then 1 else if ltb 65535 d then 65535 else d))
      × ((if ltb d 1 then 1 else if ltb 65535 d then 65535 else d) ≤ 65535)
clamped d = (ground arith, ground arith)

InWord : ℕ → Type 0
InWord d = (1 ≤ d) × (d ≤ 65535)

auto_pool_difficulty-InWord : (f cores asics : ℕ) → InWord (auto_pool_difficulty f cores asics)
unfolding auto_pool_difficulty InWord
auto_pool_difficulty-InWord f cores asics = elim (Bool-cases (f == 0 || cores == 0 || asics == 0)) [
  | inl off ↦ rw off (omega arith, omega arith)
  | inr on ↦ rw on (clamped (f * 1000000 * cores * asics * 60 % 2 ^ 64 / (14 * 4294967296)))
]

-- The difficulty asked of the pool lies between 1 and 65535, automatic or configured, for every
-- frequency and chip count, where the configured difficulty fits 16 bits.
pub effective_pool_difficulty_lem :
    (config : Config) (small_core_count asic_count : ℕ)
    → config.pool_difficulty < 2 ^ 16
    → (1 ≤ effective_pool_difficulty config small_core_count asic_count)
      × (effective_pool_difficulty config small_core_count asic_count ≤ 65535)
unfolding effective_pool_difficulty InWord effective_asic_frequency_mhz
effective_pool_difficulty_lem config cores asics lt =
    elim (Bool-cases (config.pool_difficulty_auto)) [
      | inl auto ↦
          rw auto (auto_pool_difficulty-InWord (effective_asic_frequency_mhz config) cores asics)
      | inr fixed ↦ rw fixed (elim (Bool-cases (leb 1 config.pool_difficulty)) [
        | inl some_set ↦ rw some_set (ground arith, omega arith)
        | inr unset ↦ rw unset (omega arith, omega arith)
      ])
    ]
