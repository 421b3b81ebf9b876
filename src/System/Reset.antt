-- ===== src/System/Reset.antt =====
-- `mc_reset` of motion_control.c, which interrupts call to abort whatever runs.
pub mod Laws
use grbl_mega_plasma.Prelude.{Bool, true, false, ◌||◌, ◌==◌, if◌then◌else◌}
use grbl_mega_plasma.System.{
  State, ExecFlag, Machine, Call, call, set_exec_state_flag, set_exec_alarm,
}

-- `state & (STATE_CYCLE | STATE_HOMING | STATE_JOG)`
abbrev pub in_motion_state : State → Bool
in_motion_state State.cycle = true
in_motion_state State.homing = true
in_motion_state State.jog = true
in_motion_state _ = false

-- The alarm that a reset during a motion leaves: position has likely been lost.
abort_alarm : Machine → Machine
abort_alarm m = elim m.sys.state [
  | State.homing ↦ if m.exec_alarm == 0 then set_exec_alarm 6 m else m
  | _ ↦ set_exec_alarm 3 m
]

unfoldable pub mc_reset : Machine → Machine
unfolding abort_alarm set_exec_alarm set_exec_state_flag
mc_reset m =
    if m.exec.reset
    then m
    else let killed =
        call Call.coolant_stop (call Call.spindle_stop (set_exec_state_flag ExecFlag.reset m)) in
      if in_motion_state m.sys.state
        || (m.sys.step_control.execute_hold || m.sys.step_control.execute_sys_motion)
      then call Call.st_go_idle (abort_alarm killed)
      else killed
