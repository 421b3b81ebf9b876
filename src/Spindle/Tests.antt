-- ===== src/Spindle/Tests.antt =====
-- The spindle's states on a concrete speed, in thousandths.
use grbl_mega_plasma.Prelude.{ℕ, ◌/◌, ◌≡◌, refl, true, false, if◌then◌else◌, ◌==◌}
use grbl_mega_plasma.Fixtures.{fixed_ops}
use grbl_mega_plasma.Spindle.{
  Rounding, SpindleState, SpindleSettings, Spindle, spindle_get_state, spindle_set_state,
  spindle_compute_pwm_value,
}
use grbl_mega_plasma.Spindle.Laws.{pwm_of, get-set_state}

abbrev rounding : Rounding ℕ
rounding = record { ceil = λ a. a; floor = λ a. a; truncate = λ a. a / 1000 }

abbrev settings : SpindleSettings ℕ
settings = record { rpm_max = 1000000; rpm_min = 0; laser_mode = false }

abbrev off : Spindle ℕ
off = record {
  ocr = 0;
  com_b = false;
  enable_port = false;
  direction_port = true;
  spindle_speed = 0;
  pwm_gradient = 1000;
}

get-set_state_example :
    spindle_get_state
      (spindle_set_state fixed_ops rounding settings false 100 SpindleState.cw 500000 off)
    ≡ (if pwm_of fixed_ops rounding settings SpindleState.cw 100 500000 off == 0
        then SpindleState.disable
        else SpindleState.cw)
get-set_state_example =
    get-set_state fixed_ops rounding settings false SpindleState.cw 100 500000 off

-- `S500` turns the spindle on.
state_lem : pwm_of fixed_ops rounding settings SpindleState.cw 100 500000 off ≡ 501
unfolding pwm_of spindle_compute_pwm_value
state_lem = refl
