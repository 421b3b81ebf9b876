-- ===== src/Spindle.antt =====
-- spindle_control.c in the build without ENABLE_PIECEWISE_LINEAR_SPINDLE, INVERT_SPINDLE_ENABLE_PIN
-- and SPINDLE_ENABLE_OFF_WITH_ZERO_SPEED. `Rounding` is the C library's rounding, and the conversion
-- of a `float` to an unsigned integer.
pub mod Laws
mod Tests
use grbl_mega_plasma.Prelude.{ℕ, Bool, true, false, not, ◌||◌, ◌&&◌, ◌==◌, if◌then◌else◌}
use grbl_mega_plasma.Floats.{Floats, at_most}
use grbl_mega_plasma.Planner.Profile.{scale}

pub record Rounding (F : Type 0) : Type 0 where
  pub ceil : F → F
  pub floor : F → F
  pub truncate : F → ℕ

-- `spindle_set_state`'s argument, and `SPINDLE_STATE_*`
pub data SpindleState : Type 0 where
  disable cw ccw : SpindleState

pub record SpindleSettings (F : Type 0) : Type 0 where
  pub rpm_max : F
  pub rpm_min : F
  pub laser_mode : Bool

-- The registers and pins of the spindle, `sys.spindle_speed` and `pwm_gradient`.
pub record Spindle (F : Type 0) : Type 0 where
  pub ocr : ℕ
  pub com_b : Bool
  pub enable_port : Bool
  pub direction_port : Bool
  pub spindle_speed : F
  pub pwm_gradient : F

-- `SPINDLE_PWM_MAX_VALUE`
abbrev pub spindle_pwm_max_value : ℕ
spindle_pwm_max_value = 1024

module _ {F : Type 0} where
  unfoldable pub spindle_get_state : Spindle F → SpindleState
  spindle_get_state s =
      if s.enable_port && s.com_b
      then (if s.direction_port then SpindleState.ccw else SpindleState.cw)
      else SpindleState.disable

  unfoldable pub spindle_stop : Spindle F → Spindle F
  spindle_stop s = record s { com_b = false; enable_port = false }

  unfoldable pub spindle_set_speed : ℕ → Spindle F → Spindle F
  spindle_set_speed pwm_value s = record s { ocr = pwm_value; com_b = not (pwm_value == 0) }

module _ {F : Type 0} (ops : Floats F) (r : Rounding F) where
  -- The PWM value, and the speed that `sys.spindle_speed` takes.
  unfoldable pub spindle_compute_pwm_value : SpindleSettings F → F → ℕ → F → ℕ × F
  spindle_compute_pwm_value c gradient spindle_speed_ovr rpm0 =
      let rpm = scale ops spindle_speed_ovr rpm0 in
      let off : F = ops.literal 0 0 in
      let least : ℕ = 1 in
      let most : ℕ = spindle_pwm_max_value in
      let none_out : ℕ = 0 in
      if at_most ops c.rpm_max c.rpm_min || at_most ops c.rpm_max rpm
      then (most, c.rpm_max)
      else if at_most ops rpm c.rpm_min
      then (if ops.eq rpm off then (none_out, off) else (least, c.rpm_min))
      else (
        r.truncate (ops.add (r.floor (ops.mul (ops.sub rpm c.rpm_min) gradient)) (ops.literal 1 0)),
        rpm,
      )

  unfoldable pub spindle_init : SpindleSettings F → Spindle F → Spindle F
  unfolding spindle_stop
  spindle_init c s =
      spindle_stop
        (record s { pwm_gradient = ops.div (ops.literal 1023 0) (ops.sub c.rpm_max c.rpm_min) })

  -- The branch of `spindle_set_state` that starts the spindle.
  unfoldable pub start_spindle : SpindleSettings F → ℕ → Bool → F → Spindle F → Spindle F
  unfolding spindle_set_speed
  start_spindle c spindle_speed_ovr counter_clockwise rpm s =
      let v =
        spindle_compute_pwm_value c s.pwm_gradient spindle_speed_ovr
          (if c.laser_mode && counter_clockwise then ops.literal 0 0 else rpm) in
      record (spindle_set_speed v.0 (record s { direction_port = counter_clockwise })) {
        spindle_speed = v.1;
        enable_port = true;
      }

  -- `spindle_set_state`, when `sys.abort` is as given; it also clears `sys.report_ovr_counter`.
  unfoldable pub spindle_set_state :
      SpindleSettings F → Bool → ℕ → SpindleState → F → Spindle F → Spindle F
  unfolding start_spindle spindle_stop
  spindle_set_state c abort ovr SpindleState.disable rpm s =
      if abort then s else spindle_stop (record s { spindle_speed = ops.literal 0 0 })
  spindle_set_state c abort ovr SpindleState.cw rpm s =
      if abort then s else start_spindle c ovr false rpm s
  spindle_set_state c abort ovr SpindleState.ccw rpm s =
      if abort then s else start_spindle c ovr true rpm s
