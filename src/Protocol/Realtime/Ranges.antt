-- ===== src/Protocol/Realtime/Ranges.antt =====
-- The override percentages stay in their ranges.
use grbl_mega_plasma.Prelude.{
  ◌≡◌, refl, sym, subst, ◌∙◌, arith, if_cases, if◌then◌else◌, some, List, [], ◌∷◌, ◌||◌, ◌==◌,
}
use grbl_mega_plasma.System.{
  State, ExecFlag, ExecState, Sys, Machine, clear_exec_state_flag, call, Call, clear_exec_alarm,
}
use grbl_mega_plasma.Protocol.Override.Bounds.{
  InRange, SameOverrides, same_InRange, motion_overrides-InRange, accessory_overrides-InRange,
}
use grbl_mega_plasma.Protocol.Hold.{
  exec_alarm, await_reset, exec_status, exec_holds, hold_methods, initiate_hold, idle_hold,
  cancel_motion, hold_feed, open_door, go_to_sleep, any_hold, hold_flags, allows_hold, set_state,
}
use grbl_mega_plasma.Protocol.Cycle.{
  resume_door, begin_cycle, start_cycle, finish_hold, finish_motion, exec_cycle_start,
  exec_cycle_stop,
}
use grbl_mega_plasma.Protocol.Realtime.Returns.{
  Returns, Returns-map, Returns_some, await_reset-Returns,
}
use grbl_mega_plasma.Protocol.Realtime.Frame.{arrive_sys}
use grbl_mega_plasma.Protocol.Realtime.{
  arrive, any_exec, exec_flags, reload, prepares, exec_state, protocol_exec_rt_system,
}

clear_sys : (fs : List ExecFlag) (m : Machine) → (clear_exec_state_flag fs m).sys ≡ m.sys
unfolding clear_exec_state_flag
clear_sys [] m = refl
clear_sys (f ∷ fs) m = clear_sys fs _

exec_status_same : (rt : ExecState) (m : Machine) → SameOverrides m.sys (exec_status rt m).sys
unfolding exec_status clear_exec_state_flag
exec_status_same rt m = ground arith

same_refl : {s : Sys} → SameOverrides s s
same_refl = record { feed = refl; rapid = refl; spindle = refl }

Same-trans : {r s t : Sys} → SameOverrides r s → SameOverrides s t → SameOverrides r t
Same-trans p q = record {
  feed = q.feed ∙ p.feed;
  rapid = q.rapid ∙ p.rapid;
  spindle = q.spindle ∙ p.spindle;
}

reload-InRange : (m : Machine) → InRange m.sys → InRange (reload m).sys
unfolding reload
reload-InRange m h = if_cases (λ n. InRange n.sys) (prepares m.sys.state) _ m (λ _. h) (λ _. h)

initiate_hold_same : (rt : ExecState) (m : Machine) → SameOverrides m.sys (initiate_hold rt m).sys
unfolding initiate_hold
initiate_hold_same rt m = ground arith

idle_hold_same : (m : Machine) → SameOverrides m.sys (idle_hold m).sys
unfolding idle_hold
idle_hold_same m = ground arith

cancel_motion_same : (rt : ExecState) (m : Machine) → SameOverrides m.sys (cancel_motion rt m).sys
unfolding cancel_motion
cancel_motion_same rt m = ground arith

hold_feed_same : (rt : ExecState) (m : Machine) → SameOverrides m.sys (hold_feed rt m).sys
unfolding hold_feed
hold_feed_same rt m = ground arith

open_door_same : (rt : ExecState) (m : Machine) → SameOverrides m.sys (open_door rt m).sys
unfolding open_door
open_door_same rt m = ground arith

go_to_sleep_same : (rt : ExecState) (m : Machine) → SameOverrides m.sys (go_to_sleep rt m).sys
unfolding go_to_sleep
go_to_sleep_same rt m = ground arith

resume_door_same : (m : Machine) → SameOverrides m.sys (resume_door m).sys
unfolding resume_door
resume_door_same m = ground arith

start_cycle_same : (m : Machine) → SameOverrides m.sys (start_cycle m).sys
unfolding start_cycle begin_cycle
start_cycle_same m = ground arith

exec_cycle_stop_same :
    (rt : ExecState) (m : Machine) → SameOverrides m.sys (exec_cycle_stop rt m).sys
unfolding exec_cycle_stop finish_hold finish_motion
exec_cycle_stop_same rt m = ground arith

hold_methods_same : (rt : ExecState) (m : Machine) → SameOverrides m.sys (hold_methods rt m).sys
unfolding hold_methods
hold_methods_same rt m =
    let a = initiate_hold rt m in
    let b = idle_hold a in
    let c = cancel_motion rt b in
    let d = hold_feed rt c in
    if_cases (λ n. SameOverrides m.sys n.sys) (allows_hold m.sys.state) (open_door rt d) m
      (λ _. Same-trans (initiate_hold_same rt m) (
        Same-trans (idle_hold_same a) (
          Same-trans (cancel_motion_same rt b)
            (Same-trans (hold_feed_same rt c) (open_door_same rt d)))))
      (λ _. same_refl)

cleared_same :
    (fs : List ExecFlag) {s : Sys} (m : Machine)
    → SameOverrides s m.sys
    → SameOverrides s (clear_exec_state_flag fs m).sys
cleared_same fs {s} m h = subst (λ t. SameOverrides s t) (sym (clear_sys fs m)) h

exec_holds_same : (rt : ExecState) (m : Machine) → SameOverrides m.sys (exec_holds rt m).sys
unfolding exec_holds
exec_holds_same rt m =
    let n = hold_methods rt m in
    if_cases (λ n. SameOverrides m.sys n.sys) (any_hold rt) _ m
      (λ _.
        cleared_same hold_flags (go_to_sleep rt n)
          (Same-trans (hold_methods_same rt m) (go_to_sleep_same rt n)))
      (λ _. same_refl)

exec_cycle_start_same :
    (rt : ExecState) (m : Machine) → SameOverrides m.sys (exec_cycle_start rt m).sys
unfolding exec_cycle_start
exec_cycle_start_same rt m =
    let started = start_cycle (resume_door m) in
    if_cases (λ n. SameOverrides m.sys n.sys) rt.cycle_start _ m
      (λ _.
        cleared_same (ExecFlag.cycle_start ∷ [])
          (if rt.feed_hold || (rt.motion_cancel || rt.safety_door) then m else started)
          (if_cases (λ n. SameOverrides m.sys n.sys)
            (rt.feed_hold || (rt.motion_cancel || rt.safety_door)) m started (λ _. same_refl)
            (λ _. Same-trans (resume_door_same m) (start_cycle_same (resume_door m)))))
      (λ _. same_refl)

exec_flags_same : (rt : ExecState) (m : Machine) → SameOverrides m.sys (exec_flags rt m).sys
unfolding exec_flags
exec_flags_same rt m =
    let a = exec_status rt m in
    let b = exec_holds rt a in
    let c = exec_cycle_start rt b in
    Same-trans (exec_status_same rt m) (
      Same-trans (exec_holds_same rt a)
        (Same-trans (exec_cycle_start_same rt b) (exec_cycle_stop_same rt c)))

-- A pass after the alarm part keeps the ranges.
exec_state-InRange :
    (arrived : List ExecFlag) (m : Machine) → InRange m.sys → InRange (exec_state arrived m).sys
unfolding exec_state
exec_state-InRange arrived m h =
    let in_range : Machine → Type 0 = λ n. InRange n.sys in
    let rt = m.exec in
    let m1 = arrive arrived m in
    let h1 : InRange m1.sys = subst (λ s. InRange s) (sym (arrive_sys arrived m)) h in
    if_cases in_range rt.reset _ _
      (λ _. record {
        feed_low = h1.feed_low;
        feed_high = h1.feed_high;
        rapid = h1.rapid;
        spindle_low = h1.spindle_low;
        spindle_high = h1.spindle_high;
      })
      (λ _. reload-InRange _ (
        accessory_overrides-InRange _ (
          motion_overrides-InRange _ (
            if_cases in_range (any_exec rt) (exec_flags rt m1) m1
              (λ _. same_InRange m1.sys (exec_flags rt m1).sys (exec_flags_same rt m1) h1)
              (λ _. h1)))))

exec_alarm-InRange :
    (fs : List ExecFlag) (m : Machine)
    → InRange m.sys
    → Returns (λ n. InRange n.sys) (exec_alarm fs m)
unfolding exec_alarm clear_exec_alarm clear_exec_state_flag
exec_alarm-InRange fs m h =
    let in_range : Machine → Type 0 = λ n. InRange n.sys in
    let m1 = call (Call.report_alarm_message m.exec_alarm) (set_state State.alarm m) in
    let m2 = clear_exec_state_flag (ExecFlag.reset ∷ []) (call Call.report_critical_event m1) in
    let h1 : InRange m1.sys =
      same_InRange m.sys m1.sys record { feed = refl; rapid = refl; spindle = refl } h in
    if_cases (Returns in_range) (m.exec_alarm == 0) (some m) _ (λ _. h)
      (λ _.
        if_cases (Returns in_range) (m.exec_alarm == 1 || m.exec_alarm == 2) _
          (some (clear_exec_alarm m1))
          (λ _.
            Returns-map in_range in_range clear_exec_alarm (await_reset fs m2) (λ n k. k)
              (await_reset-Returns in_range fs m2 (λ n e. subst InRange (sym e) h1)))
          (λ _. h1))

-- The override percentages stay in their ranges, whatever the state, the flags and the interrupts
-- that come meanwhile: feed and spindle in 10..200, rapid one of 100, 50 and 25.
pub overrides-InRange :
    (meanwhile arrived : List ExecFlag) (m n : Machine)
    → InRange m.sys
    → protocol_exec_rt_system meanwhile arrived m ≡ some n
    → InRange n.sys
unfolding protocol_exec_rt_system
overrides-InRange meanwhile arrived m n h e =
    let in_range : Machine → Type 0 = λ n. InRange n.sys in
    Returns_some in_range (protocol_exec_rt_system meanwhile arrived m) n e (
      Returns-map in_range in_range (exec_state arrived) (exec_alarm meanwhile m)
        (exec_state-InRange arrived) (exec_alarm-InRange meanwhile m h))
