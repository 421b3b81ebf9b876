-- ===== src/Protocol/Realtime.antt =====
-- `protocol_exec_rt_system` of protocol.c as a whole, in the build without PARKING_ENABLE and DEBUG.
-- Interrupts may set flags while it runs: `meanwhile` are those that come during the wait after a
-- critical alarm, `arrived` those that come between the reading of `sys_rt_exec_state` and the
-- clearing of its first flag.
pub mod Frame
pub mod Ranges
pub mod Critical
pub mod Returns
pub mod Holding
pub mod Door
pub mod Resume
pub mod Start
use grbl_mega_plasma.Prelude.{
  Bool, true, false, ◌||◌, Option, none, some, List, [], ◌∷◌, if◌then◌else◌,
}
use grbl_mega_plasma.System.{State, ExecFlag, ExecState, Machine, Call, call, set_exec_state_flag}
use grbl_mega_plasma.Protocol.Override.{motion_overrides, accessory_overrides}
use grbl_mega_plasma.Protocol.Hold.{exec_alarm, exec_status, exec_holds, any_hold}
use grbl_mega_plasma.Protocol.Cycle.{exec_cycle_start, exec_cycle_stop}

-- Flags that interrupts set.
unfoldable pub arrive : List ExecFlag → Machine → Machine
unfolding set_exec_state_flag
arrive [] m = m
arrive (f ∷ fs) m = arrive fs (set_exec_state_flag f m)

abbrev pub any_exec : ExecState → Bool
any_exec rt = any_hold rt || (rt.status_report || rt.cycle_start || rt.cycle_stop || rt.reset)

-- The flags of the copy `rt`, when no reset is among them.
unfoldable pub exec_flags : ExecState → Machine → Machine
exec_flags rt m = exec_cycle_stop rt (exec_cycle_start rt (exec_holds rt (exec_status rt m)))

-- `state & (STATE_CYCLE | STATE_HOLD | STATE_SAFETY_DOOR | STATE_HOMING | STATE_SLEEP | STATE_JOG)`
abbrev pub prepares : State → Bool
prepares State.idle = false
prepares State.alarm = false
prepares State.check_mode = false
prepares _ = true

unfoldable pub reload : Machine → Machine
reload m = if prepares m.sys.state then call Call.st_prep_buffer m else m

-- What follows the alarm part: a reset sets `sys.abort` and leaves at once.
unfoldable pub exec_state : List ExecFlag → Machine → Machine
exec_state arrived m =
    let rt = m.exec in
    let m1 = arrive arrived m in
    if rt.reset
    then record m1 { sys = record (m1.sys) { abort = true } }
    else reload
        (accessory_overrides (motion_overrides (if any_exec rt then exec_flags rt m1 else m1)))

-- `none` while the wait after a critical alarm lasts.
unfoldable pub protocol_exec_rt_system : List ExecFlag → List ExecFlag → Machine → Option Machine
protocol_exec_rt_system meanwhile arrived m = elim (exec_alarm meanwhile m) [
  | none ↦ none
  | some m1 ↦ some (exec_state arrived m1)
]
