-- ===== src/Protocol/Realtime/Resume.antt =====
-- How a complete hold resumes.
use grbl_mega_plasma.Prelude.{◌≡◌, sym, ap, ap₂, subst, ◌∙◌, arith, Bool, true, false, List, some}
use grbl_mega_plasma.System.{
  State, ExecFlag, ExecState, Sys, Machine, no_suspend, clear_exec_state_flag,
}
use grbl_mega_plasma.Protocol.Override.{any_stop}
use grbl_mega_plasma.Protocol.Hold.{exec_status, exec_holds, any_hold}
use grbl_mega_plasma.Protocol.Cycle.{resume_door, begin_cycle, start_cycle, exec_cycle_start}
use grbl_mega_plasma.Protocol.Realtime.{arrive, exec_flags, exec_state, protocol_exec_rt_system}
use grbl_mega_plasma.Protocol.Realtime.Frame.{
  exec_state-Keeps, arrive_kept, protocol_quiet, exec_status_kept, exec_cycle_stop_none,
  exec_holds_none,
}

-- A complete hold without a spindle stop.
pub record Held (s : Sys) : Type 0 where
  pub hold : s.state ≡ State.hold
  pub complete : s.suspend.hold_complete ≡ true
  pub no_stop : any_stop s.spindle_stop_ovr ≡ false

-- A cycle start request is read, and no other one that changes the state.
pub record StartOnly (rt : ExecState) : Type 0 where
  pub start : rt.cycle_start ≡ true
  pub no_hold : any_hold rt ≡ false
  pub no_stop : rt.cycle_stop ≡ false
  pub no_reset : rt.reset ≡ false

-- In motion with a block queued that is not cancelled, idle otherwise.
abbrev pub resumed : Bool → Bool → State
resumed true false = State.cycle
resumed _ _ = State.idle

exec_cycle_start-resumed :
    (rt : ExecState) (m : Machine)
    → Held m.sys
    → StartOnly rt
    → ((exec_cycle_start rt m).sys.state ≡ resumed m.block_queued m.sys.suspend.motion_cancel)
      × ((exec_cycle_start rt m).sys.suspend ≡ no_suspend)
unfolding exec_cycle_start resume_door start_cycle begin_cycle clear_exec_state_flag
exec_cycle_start-resumed rt m h k =
    ground (arith, h.hold, h.complete, h.no_stop, k.start, k.no_hold)

-- A pass that reads a cycle start request, and no reset, hold or cycle stop request, ends a complete
-- hold without a spindle stop and without an alarm: the motion runs again if a block is queued and
-- the motion was not cancelled, else the machine is idle; and no suspend flag is left.
pub hold_resumes :
    (meanwhile arrived : List ExecFlag) (m : Machine)
    → m.exec_alarm ≡ 0
    → Held m.sys
    → StartOnly m.exec
    → (n : Machine) × (protocol_exec_rt_system meanwhile arrived m ≡ some n)
      × (n.sys.state ≡ resumed m.block_queued m.sys.suspend.motion_cancel)
      × (n.sys.suspend ≡ no_suspend)
unfolding exec_flags
hold_resumes meanwhile arrived m quiet h k =
    let rt = m.exec in
    let m1 = arrive arrived m in
    let a = exec_status rt m1 in
    let a_sys : a.sys ≡ m.sys = (exec_status_kept rt m1).0 ∙ (arrive_kept arrived m).0 in
    let a_queued : a.block_queued ≡ m.block_queued =
      (exec_status_kept rt m1).1 ∙ (arrive_kept arrived m).1 in
    let started = exec_cycle_start-resumed rt a (subst Held (sym a_sys) h) k in
    let same : exec_flags rt m1 ≡ exec_cycle_start rt a =
      exec_cycle_stop_none rt (exec_cycle_start rt (exec_holds rt a)) k.no_stop
      ∙ ap (λ (x : Machine). exec_cycle_start rt x) (exec_holds_none rt a k.no_hold) in
    let keeps = exec_state-Keeps arrived m k.no_reset (ground (arith, k.start)) in
    (
      exec_state arrived m,
      protocol_quiet meanwhile arrived m quiet,
      keeps.state
          ∙ ap (λ (x : Machine). x.sys.state) same
          ∙ started.0
          ∙ ap₂ (λ (b : Bool) (s : Sys). resumed b s.suspend.motion_cancel) a_queued a_sys,
      keeps.suspend ∙ ap (λ (x : Machine). x.sys.suspend) same ∙ started.1,
    )
