-- ===== src/Settings/Tests.antt =====
-- The settings laws on concrete numbers, with natural numbers for the values.
use grbl_mega_plasma.Prelude.{ℕ, ◌*◌, ◌≡◌, refl, inr, arith, true, false, [], ◌∷◌, u8}
use grbl_mega_plasma.Settings.{
  FloatOps, Flags, Settings, stored, write_global_settings, store_cycle,
  settings_store_global_setting,
}
use grbl_mega_plasma.Settings.Laws.{IsSafe, settings_store_global_setting-IsSafe}

abbrev test_ops : FloatOps ℕ
test_ops = record {
  is_negative = λ v. false;
  trunc = u8;
  negate = λ v. v;
  per_minute_squared = λ v. v * 3600;
}

abbrev test_flags : Flags
test_flags = record {
  report_inches = false;
  laser_mode = false;
  invert_st_enable = false;
  hard_limit_enable = false;
  homing_enable = true;
  soft_limit_enable = true;
  invert_limit_pins = false;
  invert_probe_pin = false;
}

abbrev zeros : ℕ → ℕ
zeros i = 0

abbrev test_settings : Settings ℕ
test_settings = record {
  steps_per_mm = zeros;
  max_rate = zeros;
  acceleration = zeros;
  max_travel = zeros;
  pulse_microseconds = 10;
  step_invert_mask = 0;
  dir_invert_mask = 0;
  stepper_idle_lock_time = 25;
  status_report_mask = 1;
  junction_deviation = 0;
  arc_tolerance = 0;
  rpm_max = 1000;
  rpm_min = 0;
  flags = test_flags;
  homing_dir_mask = 0;
  homing_feed_rate = 25;
  homing_seek_rate = 500;
  homing_debounce_delay = 250;
  homing_pulloff = 1;
}

test_settings-IsSafe : IsSafe test_settings
test_settings-IsSafe = record { pulse = omega arith; limits = inr refl }

-- `$22=0` turns homing off, and the soft limits with it.
abbrev without_homing : Settings ℕ
without_homing = record test_settings {
  flags = record test_flags { homing_enable = false; soft_limit_enable = false };
}

homing_off :
    settings_store_global_setting test_ops 22 0 test_settings
    ≡ stored without_homing (write_global_settings ∷ [])
unfolding settings_store_global_setting store_cycle
homing_off = refl

settings_store_global_setting-IsSafe_example : IsSafe without_homing
settings_store_global_setting-IsSafe_example =
    settings_store_global_setting-IsSafe test_ops 22 0 test_settings without_homing
      (write_global_settings ∷ []) test_settings-IsSafe homing_off
