-- ===== src/System.antt =====
-- The shared state of system.h and main.c, and the flag handlers of system.c.
-- A flag byte is a record with a Boolean for each `bit(n)`. `sys.state` holds one `STATE_*` value at
-- a time, so it is an enumeration, and a mask test on it is a predicate by clauses.
-- A call into a module that is not part of this state is recorded in `trace`, newest first.
pub mod Reset
pub mod Command
pub mod Travel
mod Tests
use grbl_mega_plasma.Prelude.{ℕ, Bool, true, false, List, [], ◌∷◌}

-- `STATE_*`
pub data State : Type 0 where
  idle alarm check_mode homing cycle hold jog safety_door sleep : State

-- `EXEC_*` bits of `sys_rt_exec_state`
pub data ExecFlag : Type 0 where
  status_report cycle_start cycle_stop feed_hold reset safety_door motion_cancel sleep : ExecFlag

pub record ExecState : Type 0 where
  pub status_report : Bool
  pub cycle_start : Bool
  pub cycle_stop : Bool
  pub feed_hold : Bool
  pub reset : Bool
  pub safety_door : Bool
  pub motion_cancel : Bool
  pub sleep : Bool

-- `EXEC_FEED_OVR_*` and `EXEC_RAPID_OVR_*` bits of `sys_rt_exec_motion_override`
pub data MotionFlag : Type 0 where
  feed_reset feed_coarse_plus feed_coarse_minus feed_fine_plus feed_fine_minus : MotionFlag
  rapid_reset rapid_medium rapid_low : MotionFlag

pub record MotionOverride : Type 0 where
  pub feed_reset : Bool
  pub feed_coarse_plus : Bool
  pub feed_coarse_minus : Bool
  pub feed_fine_plus : Bool
  pub feed_fine_minus : Bool
  pub rapid_reset : Bool
  pub rapid_medium : Bool
  pub rapid_low : Bool

-- `EXEC_SPINDLE_OVR_*` and `EXEC_COOLANT_*` bits of `sys_rt_exec_accessory_override`
pub data AccessoryFlag : Type 0 where
  spindle_reset spindle_coarse_plus spindle_coarse_minus spindle_fine_plus : AccessoryFlag
  spindle_fine_minus spindle_stop flood_toggle mist_toggle : AccessoryFlag

pub record AccessoryOverride : Type 0 where
  pub spindle_reset : Bool
  pub spindle_coarse_plus : Bool
  pub spindle_coarse_minus : Bool
  pub spindle_fine_plus : Bool
  pub spindle_fine_minus : Bool
  pub spindle_stop : Bool
  pub flood_toggle : Bool
  pub mist_toggle : Bool

-- `SUSPEND_*` bits of `sys.suspend`
pub record Suspend : Type 0 where
  pub hold_complete : Bool
  pub restart_retract : Bool
  pub retract_complete : Bool
  pub initiate_restore : Bool
  pub restore_complete : Bool
  pub safety_door_ajar : Bool
  pub motion_cancel : Bool
  pub jog_cancel : Bool

-- `STEP_CONTROL_*` bits of `sys.step_control`
pub record StepControl : Type 0 where
  pub end_motion : Bool
  pub execute_hold : Bool
  pub execute_sys_motion : Bool
  pub update_spindle_pwm : Bool

-- `SPINDLE_STOP_OVR_*` bits of `sys.spindle_stop_ovr`
pub record SpindleStop : Type 0 where
  pub enabled : Bool
  pub initiate : Bool
  pub restore : Bool
  pub restore_cycle : Bool

-- `gc_state.modal.coolant`, the two `COOLANT_*_ENABLE` bits
pub record Coolant : Type 0 where
  pub flood : Bool
  pub mist : Bool

-- A call into another module.
pub data Call : Type 0 where
  report_realtime_status report_critical_event report_safety_door_ajar : Call
  report_power_source_fault report_alarm_tourch_signal report_alarm_out_servo_x1 : Call
  report_alarm_message : ℕ → Call
  st_update_plan_block_parameters st_prep_buffer st_wake_up st_reset st_go_idle : Call
  plan_reset plan_cycle_reinitialize plan_sync_position gc_sync_position : Call
  plan_update_velocity_profile_parameters : Call
  spindle_stop coolant_stop spindle_set_state : Call
  coolant_set_state : Coolant → Call

-- `system_t`; the fields that the code in this library does not touch are left out.
pub record Sys : Type 0 where
  pub state : State
  pub abort : Bool
  pub suspend : Suspend
  pub soft_limit : Bool
  pub step_control : StepControl
  pub f_override : ℕ
  pub r_override : ℕ
  pub spindle_speed_ovr : ℕ
  pub spindle_stop_ovr : SpindleStop
  pub report_ovr_counter : ℕ

-- `sys` with the realtime flag bytes, the modal coolant state, whether the planner's buffer holds a
-- block (`plan_get_current_block() != NULL`), and the trace.
pub record Machine : Type 0 where
  pub sys : Sys
  pub exec : ExecState
  pub exec_alarm : ℕ
  pub motion_ovr : MotionOverride
  pub accessory_ovr : AccessoryOverride
  pub coolant : Coolant
  pub block_queued : Bool
  pub trace : List Call

abbrev pub no_exec : ExecState
no_exec = record {
  status_report = false;
  cycle_start = false;
  cycle_stop = false;
  feed_hold = false;
  reset = false;
  safety_door = false;
  motion_cancel = false;
  sleep = false;
}

abbrev pub no_motion_ovr : MotionOverride
no_motion_ovr = record {
  feed_reset = false;
  feed_coarse_plus = false;
  feed_coarse_minus = false;
  feed_fine_plus = false;
  feed_fine_minus = false;
  rapid_reset = false;
  rapid_medium = false;
  rapid_low = false;
}

abbrev pub no_accessory_ovr : AccessoryOverride
no_accessory_ovr = record {
  spindle_reset = false;
  spindle_coarse_plus = false;
  spindle_coarse_minus = false;
  spindle_fine_plus = false;
  spindle_fine_minus = false;
  spindle_stop = false;
  flood_toggle = false;
  mist_toggle = false;
}

-- `SUSPEND_DISABLE`
abbrev pub no_suspend : Suspend
no_suspend = record {
  hold_complete = false;
  restart_retract = false;
  retract_complete = false;
  initiate_restore = false;
  restore_complete = false;
  safety_door_ajar = false;
  motion_cancel = false;
  jog_cancel = false;
}

-- `STEP_CONTROL_NORMAL_OP`
abbrev pub normal_op : StepControl
normal_op = record {
  end_motion = false;
  execute_hold = false;
  execute_sys_motion = false;
  update_spindle_pwm = false;
}

-- `SPINDLE_STOP_OVR_DISABLED`
abbrev pub no_spindle_stop : SpindleStop
no_spindle_stop = record {
  enabled = false;
  initiate = false;
  restore = false;
  restore_cycle = false;
}

abbrev pub call : Call → Machine → Machine
call c m = record m { trace = c ∷ m.trace }

-- A flag's bit of the byte takes the value `b`.
unfoldable pub put_exec : ExecFlag → Bool → ExecState → ExecState
put_exec ExecFlag.status_report b e = record e { status_report = b }
put_exec ExecFlag.cycle_start b e = record e { cycle_start = b }
put_exec ExecFlag.cycle_stop b e = record e { cycle_stop = b }
put_exec ExecFlag.feed_hold b e = record e { feed_hold = b }
put_exec ExecFlag.reset b e = record e { reset = b }
put_exec ExecFlag.safety_door b e = record e { safety_door = b }
put_exec ExecFlag.motion_cancel b e = record e { motion_cancel = b }
put_exec ExecFlag.sleep b e = record e { sleep = b }

unfoldable pub set_exec_state_flag : ExecFlag → Machine → Machine
unfolding put_exec
set_exec_state_flag f m = record m { exec = put_exec f true m.exec }

-- The mask is the list of its flags.
unfoldable pub clear_exec_state_flag : List ExecFlag → Machine → Machine
unfolding put_exec
clear_exec_state_flag [] m = m
clear_exec_state_flag (f ∷ fs) m =
    clear_exec_state_flag fs (record m { exec = put_exec f false m.exec })

unfoldable pub set_exec_alarm : ℕ → Machine → Machine
set_exec_alarm code m = record m { exec_alarm = code }

unfoldable pub clear_exec_alarm : Machine → Machine
clear_exec_alarm m = record m { exec_alarm = 0 }

unfoldable pub put_motion : MotionFlag → MotionOverride → MotionOverride
put_motion MotionFlag.feed_reset e = record e { feed_reset = true }
put_motion MotionFlag.feed_coarse_plus e = record e { feed_coarse_plus = true }
put_motion MotionFlag.feed_coarse_minus e = record e { feed_coarse_minus = true }
put_motion MotionFlag.feed_fine_plus e = record e { feed_fine_plus = true }
put_motion MotionFlag.feed_fine_minus e = record e { feed_fine_minus = true }
put_motion MotionFlag.rapid_reset e = record e { rapid_reset = true }
put_motion MotionFlag.rapid_medium e = record e { rapid_medium = true }
put_motion MotionFlag.rapid_low e = record e { rapid_low = true }

unfoldable pub set_exec_motion_override_flag : MotionFlag → Machine → Machine
unfolding put_motion
set_exec_motion_override_flag f m = record m { motion_ovr = put_motion f m.motion_ovr }

unfoldable pub clear_exec_motion_overrides : Machine → Machine
clear_exec_motion_overrides m = record m { motion_ovr = no_motion_ovr }

unfoldable pub put_accessory : AccessoryFlag → AccessoryOverride → AccessoryOverride
put_accessory AccessoryFlag.spindle_reset e = record e { spindle_reset = true }
put_accessory AccessoryFlag.spindle_coarse_plus e = record e { spindle_coarse_plus = true }
put_accessory AccessoryFlag.spindle_coarse_minus e = record e { spindle_coarse_minus = true }
put_accessory AccessoryFlag.spindle_fine_plus e = record e { spindle_fine_plus = true }
put_accessory AccessoryFlag.spindle_fine_minus e = record e { spindle_fine_minus = true }
put_accessory AccessoryFlag.spindle_stop e = record e { spindle_stop = true }
put_accessory AccessoryFlag.flood_toggle e = record e { flood_toggle = true }
put_accessory AccessoryFlag.mist_toggle e = record e { mist_toggle = true }

unfoldable pub set_exec_accessory_override_flag : AccessoryFlag → Machine → Machine
unfolding put_accessory
set_exec_accessory_override_flag f m = record m { accessory_ovr = put_accessory f m.accessory_ovr }

unfoldable pub clear_exec_accessory_overrides : Machine → Machine
clear_exec_accessory_overrides m = record m { accessory_ovr = no_accessory_ovr }
