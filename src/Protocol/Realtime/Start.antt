-- ===== src/Protocol/Realtime/Start.antt =====
-- What it takes to start a cycle.
use grbl_mega_plasma.Prelude.{
  ◌≡◌, sym, ap, subst, ◌∙◌, arith, ◌⊎◌, inl, inr, Bool, true, false, false≢true, ◌≢◌, if_cases,
  Bool-cases, if◌then◌else◌, List, some,
}
use grbl_mega_plasma.System.{State, ExecFlag, ExecState, Sys, Machine, clear_exec_state_flag}
use grbl_mega_plasma.Protocol.Override.{motion_overrides, accessory_overrides, any_stop}
use grbl_mega_plasma.Protocol.Hold.{
  exec_status, exec_holds, hold_methods, initiate_hold, idle_hold, cancel_motion, hold_feed,
  open_door, go_to_sleep, exec_alarm, any_hold, allows_hold,
}
use grbl_mega_plasma.Protocol.Cycle.{
  resume_door, begin_cycle, start_cycle, finish_hold, finish_motion, exec_cycle_start,
  exec_cycle_stop,
}
use grbl_mega_plasma.Protocol.Realtime.{
  arrive, any_exec, exec_flags, reload, exec_state, protocol_exec_rt_system,
}
use grbl_mega_plasma.Protocol.Realtime.Returns.{Returns-map, Returns_some, exec_alarm-Returns}
use grbl_mega_plasma.Protocol.Realtime.Frame.{
  tail-Keeps, exec_holds_none, exec_status_kept, arrive_kept,
}

abbrev is_cycle : Machine → Bool
is_cycle m = elim m.sys.state [ State.cycle ↦ true | _ ↦ false ]

-- The machine is at rest or held, in a way that a cycle start ends.
pub data CanStart (s : Sys) : Type 0 where
  from_idle : s.state ≡ State.idle → CanStart s
  from_hold :
      s.state ≡ State.hold
      → s.suspend.hold_complete ≡ true
      → any_stop s.spindle_stop_ovr ≡ false
      → CanStart s
  from_door :
      s.state ≡ State.safety_door
      → s.suspend.safety_door_ajar ≡ false
      → s.suspend.restore_complete ≡ true
      → CanStart s

start_cycle_needs :
    (m : Machine)
    → is_cycle m ≡ false
    → is_cycle (start_cycle (resume_door m)) ≡ true
    → (m.block_queued ≡ true) × (m.sys.suspend.motion_cancel ≡ false) × CanStart m.sys
unfolding start_cycle resume_door begin_cycle
start_cycle_needs m n h = ground arith

exec_cycle_stop_starts :
    (rt : ExecState) (m : Machine) → is_cycle (exec_cycle_stop rt m) ≡ true → is_cycle m ≡ true
unfolding exec_cycle_stop finish_hold finish_motion
exec_cycle_stop_starts rt m h = ground arith

-- No request is pending that a cycle start gives way to.
pub record Unhindered (rt : ExecState) : Type 0 where
  pub start : rt.cycle_start ≡ true
  pub no_hold : rt.feed_hold ≡ false
  pub no_cancel : rt.motion_cancel ≡ false
  pub no_door : rt.safety_door ≡ false

exec_cycle_start_needs :
    (rt : ExecState) (m : Machine)
    → is_cycle m ≡ false
    → is_cycle (exec_cycle_start rt m) ≡ true
    → Unhindered rt
      × (m.block_queued ≡ true)
      × (m.sys.suspend.motion_cancel ≡ false)
      × CanStart m.sys
unfolding exec_cycle_start clear_exec_state_flag
exec_cycle_start_needs rt m n h = ground (arith, start_cycle_needs m n)

initiate_hold_rests :
    (rt : ExecState) (m : Machine) → is_cycle m ≡ false → is_cycle (initiate_hold rt m) ≡ false
unfolding initiate_hold
initiate_hold_rests rt m h = ground arith

idle_hold_rests : (m : Machine) → is_cycle m ≡ false → is_cycle (idle_hold m) ≡ false
unfolding idle_hold
idle_hold_rests m h = ground arith

cancel_motion_rests :
    (rt : ExecState) (m : Machine) → is_cycle m ≡ false → is_cycle (cancel_motion rt m) ≡ false
unfolding cancel_motion
cancel_motion_rests rt m h = ground arith

hold_feed_rests :
    (rt : ExecState) (m : Machine) → is_cycle m ≡ false → is_cycle (hold_feed rt m) ≡ false
unfolding hold_feed
hold_feed_rests rt m h = ground arith

open_door_rests :
    (rt : ExecState) (m : Machine) → is_cycle m ≡ false → is_cycle (open_door rt m) ≡ false
unfolding open_door
open_door_rests rt m h = ground arith

hold_methods_rests :
    (rt : ExecState) (m : Machine) → is_cycle m ≡ false → is_cycle (hold_methods rt m) ≡ false
unfolding hold_methods
hold_methods_rests rt m h =
    let a = initiate_hold rt m in
    let b = idle_hold a in
    let c = cancel_motion rt b in
    let d = hold_feed rt c in
    if_cases (λ n. is_cycle n ≡ false) (allows_hold m.sys.state) (open_door rt d) m
      (λ _. open_door_rests rt d (
        hold_feed_rests rt c
          (cancel_motion_rests rt b (idle_hold_rests a (initiate_hold_rests rt m h)))))
      (λ _. h)

exec_holds_rests :
    (rt : ExecState) (m : Machine) → is_cycle m ≡ false → is_cycle (exec_holds rt m) ≡ false
unfolding exec_holds go_to_sleep clear_exec_state_flag
exec_holds_rests rt m h = ground (arith, hold_methods_rests rt m h)

go_to_sleep_lem :
    (rt : ExecState) (m : Machine) → rt.sleep ≡ true → (go_to_sleep rt m).sys.state ≡ State.sleep
unfolding go_to_sleep
go_to_sleep_lem rt m h = ground arith

-- A sleep request leads to the sleep state.
exec_holds_sleep :
    (rt : ExecState) (m : Machine) → rt.sleep ≡ true → (exec_holds rt m).sys.state ≡ State.sleep
unfolding exec_holds clear_exec_state_flag
exec_holds_sleep rt m h = ground (arith, go_to_sleep_lem rt (hold_methods rt m) h)

-- A machine that is not in a cycle, and the flags of a pass, for a cycle to start.
pub record Starts (rt : ExecState) (m : Machine) : Type 0 where
  pub unhindered : Unhindered rt
  pub no_sleep : rt.sleep ≡ false
  pub queued : m.block_queued ≡ true
  pub not_cancelled : m.sys.suspend.motion_cancel ≡ false
  pub can_start : CanStart m.sys

from_sleep : (m : Machine) → m.sys.state ≡ State.sleep → ¬ CanStart m.sys
from_sleep m h k = ground arith

held_flags : (rt : ExecState) → Unhindered rt → rt.sleep ≡ false → any_hold rt ≡ false
held_flags rt u h = rw (u.no_hold, u.no_cancel, u.no_door, h)

same_Starts :
    (rt : ExecState) (m n : Machine)
    → (n.sys ≡ m.sys) × (n.block_queued ≡ m.block_queued)
    → Starts rt n
    → Starts rt m
same_Starts rt m n e h = record {
  unhindered = h.unhindered;
  no_sleep = h.no_sleep;
  queued = sym e.1 ∙ h.queued;
  not_cancelled = sym (ap (λ (s : Sys). s.suspend.motion_cancel) e.0) ∙ h.not_cancelled;
  can_start = subst CanStart e.0 h.can_start;
}

exec_flags_needs :
    (rt : ExecState) (m : Machine)
    → is_cycle m ≡ false
    → is_cycle (exec_flags rt m) ≡ true
    → Starts rt m
unfolding exec_flags
exec_flags_needs rt m n h = go (Bool-cases rt.sleep)
  where
    a : Machine
    a = exec_status rt m

    b : Machine
    b = exec_holds rt a

    rests : is_cycle a ≡ false
    rests = ground (arith, exec_status_kept rt m)

    needs :
        Unhindered rt
        × (b.block_queued ≡ true)
        × (b.sys.suspend.motion_cancel ≡ false)
        × CanStart b.sys
    needs =
        exec_cycle_start_needs rt b (exec_holds_rests rt a rests)
          (exec_cycle_stop_starts rt (exec_cycle_start rt b) h)

    go : (rt.sleep ≡ true) ⊎ (rt.sleep ≡ false) → Starts rt m
    go (inl asleep) = absurd (from_sleep b (exec_holds_sleep rt a asleep) needs.3)
    go (inr awake) =
        let same : b ≡ a = exec_holds_none rt a (held_flags rt needs.0 awake) in
        let kept = exec_status_kept rt m in
        same_Starts rt m b
          (
            ap (λ (x : Machine). x.sys) same ∙ kept.0,
            ap (λ (x : Machine). x.block_queued) same ∙ kept.1,
          )
          (record {
            unhindered = needs.0;
            no_sleep = awake;
            queued = needs.1;
            not_cancelled = needs.2;
            can_start = needs.3;
          })

exec_state_needs :
    (arrived : List ExecFlag) (m : Machine)
    → is_cycle m ≡ false
    → is_cycle (exec_state arrived m) ≡ true
    → Starts m.exec m
unfolding exec_state
exec_state_needs arrived m n =
    if_cases (λ o. is_cycle o ≡ true → Starts rt m) rt.reset _
      (reload (accessory_overrides (motion_overrides flagged)))
      (λ _ h. absurd (false≢true (sym rests ∙ h)))
      (λ _ h. needs (sym (ap cycle_of (tail-Keeps flagged).state) ∙ h))
  where
    rt : ExecState
    rt = m.exec

    m1 : Machine
    m1 = arrive arrived m

    cycle_of : State → Bool
    cycle_of s = elim s [ State.cycle ↦ true | _ ↦ false ]

    flagged : Machine
    flagged = if any_exec rt then exec_flags rt m1 else m1

    rests : is_cycle m1 ≡ false
    rests = ap (λ (s : Sys). cycle_of s.state) (arrive_kept arrived m).0 ∙ n

    needs : is_cycle flagged ≡ true → Starts rt m
    needs =
        if_cases (λ o. is_cycle o ≡ true → Starts rt m) (any_exec rt) (exec_flags rt m1) m1
          (λ _ h. same_Starts rt m m1 (arrive_kept arrived m) (exec_flags_needs rt m1 rests h))
          (λ _ h. absurd (false≢true (sym rests ∙ h)))

exec_state_rests :
    (arrived : List ExecFlag) (m : Machine)
    → m.sys.state ≡ State.alarm
    → ¬ (exec_state arrived m).sys.state ≡ State.cycle
exec_state_rests arrived m h e =
    let starts = exec_state_needs arrived m (ground arith) (ground arith) in
    absurd (ground (arith, starts.can_start))

-- The function makes a machine that is in no cycle start one only from idle, from a complete hold
-- without a spindle stop, or from a restored safety door, with a block queued that is not
-- cancelled, without an alarm, and on a cycle start request with which neither a hold, a cancel, a
-- door nor a sleep request is read.
pub start_needs :
    (meanwhile arrived : List ExecFlag) (m n : Machine)
    → m.sys.state ≢ State.cycle
    → protocol_exec_rt_system meanwhile arrived m ≡ some n
    → n.sys.state ≡ State.cycle
    → (m.exec_alarm ≡ 0) × Starts m.exec m
unfolding protocol_exec_rt_system
start_needs meanwhile arrived m n rests e =
    let P : Machine → Type 0 =
      λ o. o.sys.state ≡ State.cycle → (m.exec_alarm ≡ 0) × Starts m.exec m in
    let Q : Machine → Type 0 = λ o. P (exec_state arrived o) in
    Returns_some P (protocol_exec_rt_system meanwhile arrived m) n e (
      Returns-map Q P (exec_state arrived) (exec_alarm meanwhile m) (λ o h. h)
        (exec_alarm-Returns Q meanwhile m
          (λ quiet h. (quiet, exec_state_needs arrived m (ground arith) (ground arith)))
          (λ o in_alarm h. absurd (exec_state_rests arrived o in_alarm h))))
