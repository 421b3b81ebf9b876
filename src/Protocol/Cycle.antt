-- ===== src/Protocol/Cycle.antt =====
-- The cycle start and cycle stop parts of `protocol_exec_rt_system`. `rt` is the copy of
-- `sys_rt_exec_state` that the function takes.
use grbl_mega_plasma.Prelude.{Bool, true, false, not, ◌||◌, ◌&&◌, [], ◌∷◌, if◌then◌else◌}
use grbl_mega_plasma.System.{
  State, ExecFlag, ExecState, Machine, Call, call, no_suspend, normal_op, clear_exec_state_flag,
}
use grbl_mega_plasma.Protocol.Override.{any_stop}
use grbl_mega_plasma.Protocol.Hold.{set_state, set_suspend, set_step_control}

-- With the door closed again, a cycle start resumes or begins to restore.
unfoldable pub resume_door : Machine → Machine
resume_door m = elim m.sys.state [
  | State.safety_door ↦
      if m.sys.suspend.safety_door_ajar
      then m
      else if m.sys.suspend.restore_complete
      then set_state State.idle m
      else if m.sys.suspend.retract_complete
      then set_suspend (record (m.sys.suspend) { initiate_restore = true }) m
      else m
  | _ ↦ m
]

-- `STEP_CONTROL_NORMAL_OP`, and the cycle starts if a block is queued and the motion not cancelled.
unfoldable pub begin_cycle : Machine → Machine
begin_cycle m =
    let m1 = set_step_control normal_op m in
    if m.block_queued && not m.sys.suspend.motion_cancel
    then call Call.st_wake_up
        (call Call.st_prep_buffer (set_state State.cycle (set_suspend no_suspend m1)))
    else set_state State.idle (set_suspend no_suspend m1)

unfoldable pub start_cycle : Machine → Machine
start_cycle m = elim m.sys.state [
  | State.idle ↦ begin_cycle m
  | State.hold ↦
      if not m.sys.suspend.hold_complete
      then m
      else if any_stop m.sys.spindle_stop_ovr
      then record m {
        sys = record (m.sys) {
          spindle_stop_ovr = record (m.sys.spindle_stop_ovr) { restore_cycle = true };
        };
      }
      else begin_cycle m
  | _ ↦ m
]

unfoldable pub exec_cycle_start : ExecState → Machine → Machine
unfolding clear_exec_state_flag
exec_cycle_start rt m =
    if rt.cycle_start
    then clear_exec_state_flag (ExecFlag.cycle_start ∷ []) (
        if rt.feed_hold || (rt.motion_cancel || rt.safety_door)
        then m
        else start_cycle (resume_door m))
    else m

-- `state & (STATE_HOLD | STATE_SAFETY_DOOR | STATE_SLEEP)`
abbrev pub is_held : State → Bool
is_held State.hold = true
is_held State.safety_door = true
is_held State.sleep = true
is_held _ = false

-- The hold is complete: ready to resume.
unfoldable pub finish_hold : Machine → Machine
finish_hold m =
    let m1 = call Call.plan_cycle_reinitialize m in
    let m2 =
      if m.sys.step_control.execute_hold
      then set_suspend (record (m.sys.suspend) { hold_complete = true }) m1
      else m1 in
    set_step_control
      (record (m.sys.step_control) { execute_hold = false; execute_sys_motion = false }) m2

-- After a jog cancel the buffers are flushed and the positions synchronised.
flush_jog : Machine → Machine
flush_jog m =
    let m1 = set_step_control normal_op m in
    let m2 = record m1 { block_queued = false } in
    call Call.plan_sync_position
      (call Call.gc_sync_position (call Call.st_reset (call Call.plan_reset m2)))

unfoldable pub finish_motion : Machine → Machine
unfolding flush_jog
finish_motion m =
    let m1 = if m.sys.suspend.jog_cancel then flush_jog m else m in
    if m.sys.suspend.safety_door_ajar
    then set_state State.safety_door
        (set_suspend (record (m.sys.suspend) { jog_cancel = false; hold_complete = true }) m1)
    else set_state State.idle (set_suspend no_suspend m1)

unfoldable pub exec_cycle_stop : ExecState → Machine → Machine
unfolding clear_exec_state_flag
exec_cycle_stop rt m =
    if rt.cycle_stop
    then clear_exec_state_flag (ExecFlag.cycle_stop ∷ []) (
        if is_held m.sys.state && (not m.sys.soft_limit && not m.sys.suspend.jog_cancel)
        then finish_hold m
        else finish_motion m)
    else m
