-- ===== src/Spindle/Laws.antt =====
-- What `spindle_get_state` of spindle_control.c reports after `spindle_set_state`.
use grbl_mega_plasma.Prelude.{ℕ, Bool, true, false, ◌==◌, ◌≡◌, refl, arith, if◌then◌else◌}
use grbl_mega_plasma.Floats.{Floats}
use grbl_mega_plasma.Spindle.{
  Rounding, SpindleState, SpindleSettings, Spindle, spindle_get_state, spindle_stop,
  spindle_set_speed, spindle_compute_pwm_value, start_spindle, spindle_set_state,
}

module _ {F : Type 0} (ops : Floats F) (r : Rounding F) (c : SpindleSettings F) where
  -- The PWM value of a state and a speed: M4 in laser mode starts with none.
  unfoldable pub pwm_of : SpindleState → ℕ → F → Spindle F → ℕ
  pwm_of SpindleState.disable ovr rpm s = 0
  pwm_of SpindleState.cw ovr rpm s = (spindle_compute_pwm_value ops r c s.pwm_gradient ovr rpm).0
  pwm_of SpindleState.ccw ovr rpm s =
      (spindle_compute_pwm_value ops r c s.pwm_gradient ovr
        (if c.laser_mode then ops.literal 0 0 else rpm)).0

  -- After `spindle_set_state`, whatever the pins were before: `spindle_get_state` reports what it did
  -- before if the call was blocked by an abort. Otherwise it reports the state that was set if the
  -- PWM value is not zero, and a disabled spindle if it is. The PWM value is that of the scaled speed,
  -- except that M5 has the value zero and that M4 in laser mode has the value of the speed zero.
  pub get-set_state :
      (abort : Bool) (state : SpindleState) (ovr : ℕ) (rpm : F) (s : Spindle F)
      → spindle_get_state (spindle_set_state ops r c abort ovr state rpm s) ≡ (
          if abort
          then spindle_get_state s
          else if pwm_of state ovr rpm s == 0
          then SpindleState.disable
          else state)
  unfolding spindle_get_state spindle_set_state start_spindle spindle_set_speed spindle_stop pwm_of
  get-set_state true SpindleState.disable ovr rpm s = refl
  get-set_state true SpindleState.cw ovr rpm s = refl
  get-set_state true SpindleState.ccw ovr rpm s = refl
  get-set_state false SpindleState.disable ovr rpm s = refl
  get-set_state false SpindleState.cw ovr rpm s = ground arith
  get-set_state false SpindleState.ccw ovr rpm s = ground arith
