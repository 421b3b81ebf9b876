-- ===== src/Protocol/Hold.antt =====
-- The alarm, status and hold parts of `protocol_exec_rt_system`, in the build without
-- PARKING_ENABLE. `rt` is the copy of `sys_rt_exec_state` that the function takes.
use grbl_mega_plasma.Prelude.{
  Bool, true, false, ◌||◌, Option, none, some, List, [], ◌∷◌, ◌==◌, if◌then◌else◌,
}
use grbl_mega_plasma.System.{
  State, ExecFlag, ExecState, Suspend, StepControl, Machine, Call, call, no_suspend, normal_op,
  set_exec_state_flag, clear_exec_state_flag, clear_exec_alarm,
}

abbrev pub set_state : State → Machine → Machine
set_state s m = record m { sys = record (m.sys) { state = s } }

abbrev pub set_suspend : Suspend → Machine → Machine
set_suspend s m = record m { sys = record (m.sys) { suspend = s } }

abbrev pub set_step_control : StepControl → Machine → Machine
set_step_control c m = record m { sys = record (m.sys) { step_control = c } }

-- `do {} while (bit_isfalse(sys_rt_exec_state, EXEC_RESET))`, on the flags that interrupts set
-- meanwhile; `none` while no reset has come.
unfoldable pub await_reset : List ExecFlag → Machine → Option Machine
unfolding set_exec_state_flag
await_reset [] m = if m.exec.reset then some m else none
await_reset (f ∷ fs) m =
    let rest = await_reset fs (set_exec_state_flag f m) in if m.exec.reset then some m else rest

-- The alarm part. Hard limits (1) and soft limits (2) block until a reset.
unfoldable pub exec_alarm : List ExecFlag → Machine → Option Machine
unfolding await_reset clear_exec_state_flag clear_exec_alarm
exec_alarm meanwhile m =
    let code = m.exec_alarm in
    if code == 0
    then some m
    else let m1 = call (Call.report_alarm_message code) (set_state State.alarm m) in
      if code == 1 || code == 2
      then elim (await_reset meanwhile
          (clear_exec_state_flag (ExecFlag.reset ∷ []) (call Call.report_critical_event m1))) [
            | none ↦ none
            | some m2 ↦ some (clear_exec_alarm m2)
          ]
      else some (clear_exec_alarm m1)

unfoldable pub exec_status : ExecState → Machine → Machine
unfolding clear_exec_state_flag
exec_status rt m =
    if rt.status_report
    then clear_exec_state_flag (ExecFlag.status_report ∷ []) (call Call.report_realtime_status m)
    else m

-- In a cycle or a jog, the stepper is told to decelerate to a hold.
unfoldable pub initiate_hold : ExecState → Machine → Machine
initiate_hold rt m =
    let held =
      call Call.st_update_plan_block_parameters
        (set_step_control (record normal_op { execute_hold = true }) m) in
    if m.sys.suspend.motion_cancel || m.sys.suspend.jog_cancel then m else elim m.sys.state [
      | State.cycle ↦ held
      | State.jog ↦
          if rt.sleep then held else set_suspend (record (m.sys.suspend) { jog_cancel = true }) held
      | _ ↦ m
    ]

unfoldable pub idle_hold : Machine → Machine
idle_hold m = elim m.sys.state [
  | State.idle ↦ set_suspend (record no_suspend { hold_complete = true }) m
  | _ ↦ m
]

unfoldable pub cancel_motion : ExecState → Machine → Machine
cancel_motion rt m =
    if rt.motion_cancel
    then elim m.sys.state [
      | State.jog ↦ m
      | _ ↦ set_suspend (record (m.sys.suspend) { motion_cancel = true }) m
    ]
    else m

unfoldable pub hold_feed : ExecState → Machine → Machine
hold_feed rt m =
    if rt.feed_hold
    then elim m.sys.state [
      | State.safety_door ↦ m
      | State.jog ↦ m
      | State.sleep ↦ m
      | _ ↦ set_state State.hold m
    ]
    else m

-- The door opens while the machine is being restored after an earlier opening.
restart_retract : Suspend → Suspend
restart_retract s =
    if s.initiate_restore
    then record s {
      retract_complete = false;
      initiate_restore = false;
      restore_complete = false;
      restart_retract = true;
    }
    else s

unfoldable pub open_door : ExecState → Machine → Machine
unfolding restart_retract
open_door rt m =
    if rt.safety_door
    then set_suspend (record (m2.sys.suspend) { safety_door_ajar = true }) m2
    else m
  where
    m1 : Machine
    m1 = call Call.report_safety_door_ajar m

    m2 : Machine
    m2 = if m1.sys.suspend.jog_cancel then m1 else elim m1.sys.state [
      | State.safety_door ↦ set_suspend (restart_retract m1.sys.suspend) m1
      | State.sleep ↦ m1
      | _ ↦ set_state State.safety_door m1
    ]

-- `!(state & (STATE_ALARM | STATE_CHECK_MODE))`
abbrev pub allows_hold : State → Bool
allows_hold State.alarm = false
allows_hold State.check_mode = false
allows_hold _ = true

unfoldable pub hold_methods : ExecState → Machine → Machine
hold_methods rt m =
    if allows_hold m.sys.state
    then open_door rt (hold_feed rt (cancel_motion rt (idle_hold (initiate_hold rt m))))
    else m

unfoldable pub go_to_sleep : ExecState → Machine → Machine
go_to_sleep rt m =
    if rt.sleep
    then set_state State.sleep (elim m.sys.state [
      | State.alarm ↦
          set_suspend (record (m.sys.suspend) { retract_complete = true; hold_complete = true }) m
      | _ ↦ m
    ])
    else m

abbrev pub any_hold : ExecState → Bool
any_hold rt = rt.motion_cancel || rt.feed_hold || rt.safety_door || rt.sleep

abbrev pub hold_flags : List ExecFlag
hold_flags =
    ExecFlag.motion_cancel ∷ ExecFlag.feed_hold ∷ ExecFlag.safety_door ∷ ExecFlag.sleep ∷ []

unfoldable pub exec_holds : ExecState → Machine → Machine
unfolding clear_exec_state_flag
exec_holds rt m =
    if any_hold rt then clear_exec_state_flag hold_flags (go_to_sleep rt (hold_methods rt m)) else m
