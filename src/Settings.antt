-- ===== src/Settings.antt =====
-- `settings_store_global_setting` of settings.c: how `$n=value` changes the settings.
-- Floating point numbers are a parameter `F` with the functions that the code applies to them. The
-- step rate check is off in this build (MAX_STEP_RATE_HZ).
pub mod Laws
mod Tests
use grbl_mega_plasma.Prelude.{
  ℕ, zero, suc, ◌+◌, ◌-◌, Bool, true, false, not, ◌||◌, ◌&&◌, ◌==◌, ltb, leb, List, [], ◌∷◌,
  if◌then◌else◌,
}

pub record FloatOps {ℓ} (F : Type ℓ) : Type ℓ where
  pub is_negative : F → Bool
  pub trunc : F → ℕ
  pub negate : F → F
  pub per_minute_squared : F → F

-- The bits of `settings.flags`.
pub record Flags : Type 0 where
  pub report_inches : Bool
  pub laser_mode : Bool
  pub invert_st_enable : Bool
  pub hard_limit_enable : Bool
  pub homing_enable : Bool
  pub soft_limit_enable : Bool
  pub invert_limit_pins : Bool
  pub invert_probe_pin : Bool

-- `settings_t`; an array over the axes is a function of the axis.
pub record Settings {ℓ} (F : Type ℓ) : Type ℓ where
  pub steps_per_mm : ℕ → F
  pub max_rate : ℕ → F
  pub acceleration : ℕ → F
  pub max_travel : ℕ → F
  pub pulse_microseconds : ℕ
  pub step_invert_mask : ℕ
  pub dir_invert_mask : ℕ
  pub stepper_idle_lock_time : ℕ
  pub status_report_mask : ℕ
  pub junction_deviation : F
  pub arc_tolerance : F
  pub rpm_max : F
  pub rpm_min : F
  pub flags : Flags
  pub homing_dir_mask : ℕ
  pub homing_feed_rate : F
  pub homing_seek_rate : F
  pub homing_debounce_delay : ℕ
  pub homing_pulloff : F

-- A call that follows a change.
pub data Update : Type 0 where
  st_generate_step_dir_invert_masks probe_configure_invert_mask system_flag_wco_change : Update
  limits_init spindle_init write_global_settings : Update

-- What the function returns: an error with no change, or STATUS_OK with the settings and the calls,
-- oldest first.
pub data Stored {ℓ} (F : Type ℓ) : Type ℓ where
  negative_value setting_step_pulse_min soft_limit_error invalid_statement : Stored F
  stored : Settings F → List Update → Stored F

abbrev pub put {ℓ} : {F : Type ℓ} → ℕ → F → (ℕ → F) → ℕ → F
put n v a i = if i == n then v else a i

-- The `switch` on the axis setting's index.
unfoldable pub store_axis {ℓ} : {F : Type ℓ} → FloatOps F → ℕ → ℕ → F → Settings F → Settings F
store_axis ops set_idx axis v s =
    if set_idx == 0
    then record s { steps_per_mm = put axis v s.steps_per_mm }
    else if set_idx == 1
    then record s { max_rate = put axis v s.max_rate }
    else if set_idx == 2
    then record s { acceleration = put axis (ops.per_minute_squared v) s.acceleration }
    else if set_idx == 3
    then record s { max_travel = put axis (ops.negate v) s.max_travel }
    else s

-- The loop over `set_idx`; `fuel` is `AXIS_N_SETTINGS - set_idx`. `N_AXIS` is 3 and
-- `AXIS_SETTINGS_INCREMENT` is 10.
unfoldable pub find_axis {ℓ} : {F : Type ℓ} → FloatOps F → ℕ → ℕ → ℕ → F → Settings F → Stored F
find_axis ops zero set_idx parameter v s = stored s (write_global_settings ∷ [])
find_axis ops (suc fuel) set_idx parameter v s =
    let rest = find_axis ops fuel (set_idx + 1) (parameter - 10) v s in
    if ltb parameter 3
    then stored (store_axis ops set_idx parameter v s) (write_global_settings ∷ [])
    else if ltb parameter 10 || set_idx + 1 == 4
    then invalid_statement
    else rest

abbrev saved {ℓ} : {F : Type ℓ} → Settings F → Stored F
saved s = stored s (write_global_settings ∷ [])

abbrev saved_after {ℓ} : {F : Type ℓ} → Update → Settings F → Stored F
saved_after u s = stored s (u ∷ write_global_settings ∷ [])

-- The `switch` on a setting that belongs to no axis: the integers and flags below 20.
unfoldable pub store_machine {ℓ} : {F : Type ℓ} → ℕ → ℕ → F → Settings F → Stored F
store_machine parameter n v s =
    let on = not (n == 0) in
    let flags = s.flags in
    if parameter == 0
    then if ltb n 3 then setting_step_pulse_min else saved (record s { pulse_microseconds = n })
    else if parameter == 1
    then saved (record s { stepper_idle_lock_time = n })
    else if parameter == 2
    then saved_after st_generate_step_dir_invert_masks (record s { step_invert_mask = n })
    else if parameter == 3
    then saved_after st_generate_step_dir_invert_masks (record s { dir_invert_mask = n })
    else if parameter == 4
    then saved (record s { flags = record flags { invert_st_enable = on } })
    else if parameter == 5
    then saved (record s { flags = record flags { invert_limit_pins = on } })
    else if parameter == 6
    then saved_after probe_configure_invert_mask
        (record s { flags = record flags { invert_probe_pin = on } })
    else if parameter == 10
    then saved (record s { status_report_mask = n })
    else if parameter == 11
    then saved (record s { junction_deviation = v })
    else if parameter == 12
    then saved (record s { arc_tolerance = v })
    else if parameter == 13
    then saved_after system_flag_wco_change
        (record s { flags = record flags { report_inches = on } })
    else invalid_statement

-- The rest: limits, homing and the spindle.
unfoldable pub store_cycle {ℓ} : {F : Type ℓ} → ℕ → ℕ → F → Settings F → Stored F
store_cycle parameter n v s =
    let on = not (n == 0) in
    let flags = s.flags in
    if parameter == 20
    then if on && not flags.homing_enable
      then soft_limit_error
      else saved (record s { flags = record flags { soft_limit_enable = on } })
    else if parameter == 21
    then saved_after limits_init (record s { flags = record flags { hard_limit_enable = on } })
    else if parameter == 22
    then if on
      then saved (record s { flags = record flags { homing_enable = true } })
      else saved
          (record s { flags = record flags { homing_enable = false; soft_limit_enable = false } })
    else if parameter == 23
    then saved (record s { homing_dir_mask = n })
    else if parameter == 24
    then saved (record s { homing_feed_rate = v })
    else if parameter == 25
    then saved (record s { homing_seek_rate = v })
    else if parameter == 26
    then saved (record s { homing_debounce_delay = n })
    else if parameter == 27
    then saved (record s { homing_pulloff = v })
    else if parameter == 30
    then saved_after spindle_init (record s { rpm_max = v })
    else if parameter == 31
    then saved_after spindle_init (record s { rpm_min = v })
    else if parameter == 32
    then saved (record s { flags = record flags { laser_mode = on } })
    else invalid_statement

-- `AXIS_SETTINGS_START_VAL` is 100.
unfoldable pub settings_store_global_setting {ℓ} :
    {F : Type ℓ} → FloatOps F → ℕ → F → Settings F → Stored F
settings_store_global_setting ops parameter v s =
    if ops.is_negative v
    then negative_value
    else if leb 100 parameter
    then find_axis ops 4 0 (parameter - 100) v s
    else if ltb parameter 20
    then store_machine parameter (ops.trunc v) v s
    else store_cycle parameter (ops.trunc v) v s
