-- ===== src/Protocol/Realtime/Holding.antt =====
-- What a hold request leads to.
use grbl_mega_plasma.Prelude.{
  ◌≡◌, refl, sym, ap, subst, ◌∙◌, arith, true, false, ◌||◌, if_cases, List, some,
}
use grbl_mega_plasma.System.{
  State, ExecFlag, ExecState, Sys, Machine, clear_exec_state_flag, put_exec,
}
use grbl_mega_plasma.Protocol.Hold.{
  exec_status, exec_holds, hold_methods, initiate_hold, idle_hold, cancel_motion, hold_feed,
  open_door, go_to_sleep, any_hold, allows_hold,
}
use grbl_mega_plasma.Protocol.Cycle.{
  resume_door, begin_cycle, start_cycle, finish_hold, finish_motion, exec_cycle_start,
  exec_cycle_stop,
}
use grbl_mega_plasma.Protocol.Realtime.{arrive, exec_flags, exec_state, protocol_exec_rt_system}
use grbl_mega_plasma.Protocol.Realtime.Frame.{
  exec_state-Keeps, arrive_sys, protocol_quiet, exec_status_sys, exec_cycle_stop_none, some_exec,
}

-- The four requests of the hold part are no longer pending.
pub record NoneHeld (e : ExecState) : Type 0 where
  pub cancel : e.motion_cancel ≡ false
  pub feed : e.feed_hold ≡ false
  pub door : e.safety_door ≡ false
  pub sleep : e.sleep ≡ false

exec_holds-NoneHeld :
    (rt : ExecState) (m : Machine) → any_hold rt ≡ true → NoneHeld (exec_holds rt m).exec
unfolding exec_holds clear_exec_state_flag put_exec
exec_holds-NoneHeld rt m h = ground arith

resume_door-exec : (m : Machine) → (resume_door m).exec ≡ m.exec
unfolding resume_door
resume_door-exec m = ground arith

start_cycle-exec : (m : Machine) → (start_cycle m).exec ≡ m.exec
unfolding start_cycle begin_cycle
start_cycle-exec m = ground arith

exec_cycle_start-NoneHeld :
    (rt : ExecState) (m : Machine) → NoneHeld m.exec → NoneHeld (exec_cycle_start rt m).exec
unfolding exec_cycle_start clear_exec_state_flag put_exec
exec_cycle_start-NoneHeld rt m h = ground (
  arith,
  start_cycle-exec (resume_door m) ∙ resume_door-exec m,
  h.cancel,
  h.feed,
  h.door,
  h.sleep,
)

exec_cycle_stop-NoneHeld :
    (rt : ExecState) (m : Machine) → NoneHeld m.exec → NoneHeld (exec_cycle_stop rt m).exec
unfolding exec_cycle_stop clear_exec_state_flag put_exec finish_hold finish_motion
exec_cycle_stop-NoneHeld rt m h = ground (arith, h.cancel, h.feed, h.door, h.sleep)

-- When a pass without an alarm and without a reset reads any of the four hold requests (motion
-- cancel, feed hold, safety door, sleep), none of the four is pending after it, also not one that
-- an interrupt has set since the flags were read: that request is lost.
pub requests_lost :
    (meanwhile arrived : List ExecFlag) (m : Machine)
    → m.exec_alarm ≡ 0
    → m.exec.reset ≡ false
    → any_hold m.exec ≡ true
    → (n : Machine) × (protocol_exec_rt_system meanwhile arrived m ≡ some n) × NoneHeld n.exec
unfolding exec_flags
requests_lost meanwhile arrived m quiet no_reset held =
    let rt = m.exec in
    let a = exec_status rt (arrive arrived m) in
    let b = exec_holds rt a in
    let cleared =
      exec_cycle_stop-NoneHeld rt (exec_cycle_start rt b)
        (exec_cycle_start-NoneHeld rt b (exec_holds-NoneHeld rt a held)) in
    let keeps = exec_state-Keeps arrived m no_reset (some_exec rt held) in
    (
      exec_state arrived m,
      protocol_quiet meanwhile arrived m quiet,
      subst NoneHeld (sym keeps.exec) cleared,
    )

-- A cycle that runs and is not being cancelled.
pub record Running (s : Sys) : Type 0 where
  pub cycle : s.state ≡ State.cycle
  pub no_cancel : s.suspend.motion_cancel ≡ false
  pub no_jog_cancel : s.suspend.jog_cancel ≡ false

-- The stepper decelerates to a hold.
pub record Holds (s : Sys) : Type 0 where
  pub hold : s.state ≡ State.hold
  pub execute : s.step_control.execute_hold ≡ true

-- Decelerating, before the state changes.
record Slows (s : Sys) : Type 0 where
  cycle : s.state ≡ State.cycle
  execute : s.step_control.execute_hold ≡ true

initiate_hold-Slows :
    (rt : ExecState) (m : Machine) → Running m.sys → Slows (initiate_hold rt m).sys
unfolding initiate_hold
initiate_hold-Slows rt m r = ground (arith, r.cycle, r.no_cancel, r.no_jog_cancel)

cancel_motion-Slows :
    (rt : ExecState) (m : Machine) → Slows m.sys → Slows (cancel_motion rt (idle_hold m)).sys
unfolding cancel_motion idle_hold
cancel_motion-Slows rt m h = ground (arith, h.cycle, h.execute)

hold_feed-Holds :
    (rt : ExecState) (m : Machine) → rt.feed_hold ≡ true → Slows m.sys → Holds (hold_feed rt m).sys
unfolding hold_feed
hold_feed-Holds rt m f h = ground (arith, h.cycle, h.execute)

open_door_none : (rt : ExecState) (m : Machine) → rt.safety_door ≡ false → open_door rt m ≡ m
unfolding open_door
open_door_none rt m h = rw h

go_to_sleep_none : (rt : ExecState) (m : Machine) → rt.sleep ≡ false → go_to_sleep rt m ≡ m
unfolding go_to_sleep
go_to_sleep_none rt m h = rw h

hold_methods-Holds :
    (rt : ExecState) (m : Machine)
    → Running m.sys
    → rt.feed_hold ≡ true
    → rt.safety_door ≡ false
    → Holds (hold_methods rt m).sys
unfolding hold_methods
hold_methods-Holds rt m r f d =
    let c = cancel_motion rt (idle_hold (initiate_hold rt m)) in
    let e = hold_feed rt c in
    let held : Holds e.sys =
      hold_feed-Holds rt c f
        (cancel_motion-Slows rt (initiate_hold rt m) (initiate_hold-Slows rt m r)) in
    if_cases (λ (n : Machine). Holds n.sys) (allows_hold m.sys.state) (open_door rt e) m
      (λ _. subst (λ (n : Machine). Holds n.sys) (sym (open_door_none rt e d)) held)
      (λ no_hold. absurd (ground (arith, r.cycle)))

exec_holds-Holds :
    (rt : ExecState) (m : Machine)
    → Running m.sys
    → rt.feed_hold ≡ true
    → rt.safety_door ≡ false
    → rt.sleep ≡ false
    → Holds (exec_holds rt m).sys
unfolding exec_holds clear_exec_state_flag
exec_holds-Holds rt m r f d s =
    if_cases (λ (n : Machine). Holds n.sys) (any_hold rt) _ m
      (λ _.
        subst (λ (n : Machine). Holds n.sys) (sym (go_to_sleep_none rt (hold_methods rt m) s))
          (hold_methods-Holds rt m r f d))
      (λ no_hold. absurd (ground arith))

exec_cycle_start_blocked :
    (rt : ExecState) (m : Machine)
    → (rt.feed_hold || (rt.motion_cancel || rt.safety_door)) ≡ true
    → (exec_cycle_start rt m).sys ≡ m.sys
unfolding exec_cycle_start clear_exec_state_flag
exec_cycle_start_blocked rt m h = ground arith

-- A feed hold request that is read during a running cycle, without an alarm and without a reset,
-- door, sleep or cycle stop request, makes the state a hold and has the stepper decelerate, whatever
-- else is read with it, a cycle start and a motion cancel included.
pub feed_hold_stops :
    (meanwhile arrived : List ExecFlag) (m : Machine)
    → m.exec_alarm ≡ 0
    → Running m.sys
    → m.exec.feed_hold ≡ true
    → (m.exec.reset ≡ false)
      × (m.exec.safety_door ≡ false)
      × (m.exec.sleep ≡ false)
      × (m.exec.cycle_stop ≡ false)
    → (n : Machine) × (protocol_exec_rt_system meanwhile arrived m ≡ some n) × Holds n.sys
unfolding exec_flags
feed_hold_stops meanwhile arrived m quiet runs feed (no_reset, no_door, no_sleep, no_stop) =
    let rt = m.exec in
    let a = exec_status rt (arrive arrived m) in
    let b = exec_holds rt a in
    let c = exec_cycle_start rt b in
    let a_same : a.sys ≡ m.sys = exec_status_sys rt (arrive arrived m) ∙ arrive_sys arrived m in
    let held : Holds b.sys =
      exec_holds-Holds rt a (subst Running (sym a_same) runs) feed no_door no_sleep in
    let blocked : c.sys ≡ b.sys = exec_cycle_start_blocked rt b (rw feed refl) in
    let stops : (exec_cycle_stop rt c).sys ≡ b.sys =
      ap (λ (n : Machine). n.sys) (exec_cycle_stop_none rt c no_stop) ∙ blocked in
    let keeps = exec_state-Keeps arrived m no_reset (some_exec rt (ground arith)) in
    (
      exec_state arrived m,
      protocol_quiet meanwhile arrived m quiet,
      record {
        hold = keeps.state ∙ ap (λ (s : Sys). s.state) stops ∙ held.hold;
        execute =
            keeps.execute_hold ∙ ap (λ (s : Sys). s.step_control.execute_hold) stops ∙ held.execute;
      },
    )
