-- ===== src/Protocol/Realtime/Door.antt =====
-- States that a pass does not leave: the safety door with the door ajar, and the alarm lock.
use grbl_mega_plasma.Prelude.{
  ◌≡◌, refl, sym, ap, subst, ◌∙◌, arith, ◌⊎◌, true, false, if_cases, if◌then◌else◌, List, some,
}
use grbl_mega_plasma.System.{
  State, ExecFlag, ExecState, Sys, Suspend, Machine, clear_exec_state_flag,
}
use grbl_mega_plasma.Protocol.Hold.{
  exec_status, exec_holds, hold_methods, initiate_hold, idle_hold, cancel_motion, hold_feed,
  open_door, go_to_sleep, any_hold, allows_hold,
}
use grbl_mega_plasma.Protocol.Override.{motion_overrides, accessory_overrides}
use grbl_mega_plasma.Protocol.Cycle.{
  resume_door, start_cycle, finish_hold, finish_motion, exec_cycle_start, exec_cycle_stop,
}
use grbl_mega_plasma.Protocol.Realtime.{
  arrive, any_exec, exec_flags, reload, exec_state, protocol_exec_rt_system,
}
use grbl_mega_plasma.Protocol.Realtime.Frame.{
  tail-Keeps, arrive_sys, protocol_quiet, exec_status_sys, exec_cycle_stop_none,
}

-- The state is that of the safety door or sleep, and the door is marked as ajar.
pub record AtDoor (s : Sys) : Type 0 where
  pub parked : (s.state ≡ State.safety_door) ⊎ (s.state ≡ State.sleep)
  pub ajar : s.suspend.safety_door_ajar ≡ true

-- A step of the pass keeps a property of the state and the suspend flags.
hold_first-AtDoor :
    (rt : ExecState) (m : Machine) → AtDoor m.sys → AtDoor (idle_hold (initiate_hold rt m)).sys
unfolding initiate_hold idle_hold
hold_first-AtDoor rt m h = ground (arith, h.parked, h.ajar)

cancel_motion-AtDoor :
    (rt : ExecState) (m : Machine) → AtDoor m.sys → AtDoor (cancel_motion rt m).sys
unfolding cancel_motion
cancel_motion-AtDoor rt m h = ground (arith, h.parked, h.ajar)

hold_feed-AtDoor : (rt : ExecState) (m : Machine) → AtDoor m.sys → AtDoor (hold_feed rt m).sys
unfolding hold_feed
hold_feed-AtDoor rt m h = ground (arith, h.parked, h.ajar)

open_door-AtDoor : (rt : ExecState) (m : Machine) → AtDoor m.sys → AtDoor (open_door rt m).sys
unfolding open_door
open_door-AtDoor rt m h = ground (arith, h.parked, h.ajar)

go_to_sleep-AtDoor : (rt : ExecState) (m : Machine) → AtDoor m.sys → AtDoor (go_to_sleep rt m).sys
unfolding go_to_sleep
go_to_sleep-AtDoor rt m h = ground (arith, h.parked, h.ajar)

hold_methods-AtDoor : (rt : ExecState) (m : Machine) → AtDoor m.sys → AtDoor (hold_methods rt m).sys
unfolding hold_methods
hold_methods-AtDoor rt m h =
    let b = idle_hold (initiate_hold rt m) in
    let c = cancel_motion rt b in
    let d = hold_feed rt c in
    if_cases (λ (n : Machine). AtDoor n.sys) (allows_hold m.sys.state) (open_door rt d) m
      (λ _.
        open_door-AtDoor rt d
          (hold_feed-AtDoor rt c (cancel_motion-AtDoor rt b (hold_first-AtDoor rt m h))))
      (λ _. h)

exec_holds-AtDoor : (rt : ExecState) (m : Machine) → AtDoor m.sys → AtDoor (exec_holds rt m).sys
unfolding exec_holds clear_exec_state_flag
exec_holds-AtDoor rt m h =
    let n = go_to_sleep rt (hold_methods rt m) in
    let k = go_to_sleep-AtDoor rt (hold_methods rt m) (hold_methods-AtDoor rt m h) in
    if_cases (λ (o : Machine). AtDoor o.sys) (any_hold rt) _ m (λ _. k) (λ _. h)

exec_cycle_start-AtDoor :
    (rt : ExecState) (m : Machine) → AtDoor m.sys → AtDoor (exec_cycle_start rt m).sys
unfolding exec_cycle_start resume_door start_cycle clear_exec_state_flag
exec_cycle_start-AtDoor rt m h = ground (arith, h.parked, h.ajar)

exec_cycle_stop-AtDoor :
    (rt : ExecState) (m : Machine) → AtDoor m.sys → AtDoor (exec_cycle_stop rt m).sys
unfolding exec_cycle_stop finish_hold finish_motion clear_exec_state_flag
exec_cycle_stop-AtDoor rt m h = ground (arith, h.parked, h.ajar)

-- A property of the state and the suspend flags that the flags' part keeps, the whole pass keeps.
pass_keeps :
    (P : Sys → Type 0) (arrived : List ExecFlag) (m : Machine)
    → ((s t : Sys) → t.state ≡ s.state → t.suspend ≡ s.suspend → P s → P t)
    → ((n : Machine) → P n.sys → P (exec_flags m.exec n).sys)
    → P m.sys
    → P (exec_state arrived m).sys
unfolding exec_state
pass_keeps P arrived m depends flags h =
    let m1 = arrive arrived m in
    let h1 : P m1.sys = subst P (sym (arrive_sys arrived m)) h in
    let o : Machine = if any_exec m.exec then exec_flags m.exec m1 else m1 in
    let k = tail-Keeps o in
    if_cases (λ (n : Machine). P n.sys) m.exec.reset _
      (reload (accessory_overrides (motion_overrides o))) (λ _. depends m1.sys _ refl refl h1)
      (λ _. depends o.sys _ k.state k.suspend (
        if_cases (λ (n : Machine). P n.sys) (any_exec m.exec) (exec_flags m.exec m1) m1
          (λ _. flags m1 h1) (λ _. h1)))

-- In the safety door state or in sleep, with the door marked as ajar and no alarm code pending: a pass
-- returns, the state after it is the safety door state or sleep, and the door stays marked as ajar,
-- whatever flags are set.
pub door_stays :
    (meanwhile arrived : List ExecFlag) (m : Machine)
    → m.exec_alarm ≡ 0
    → AtDoor m.sys
    → (n : Machine) × (protocol_exec_rt_system meanwhile arrived m ≡ some n) × AtDoor n.sys
unfolding exec_flags
door_stays meanwhile arrived m quiet h =
    let rt = m.exec in
    (
      exec_state arrived m,
      protocol_quiet meanwhile arrived m quiet,
      pass_keeps AtDoor arrived m
          (λ s t e f d. record {
            parked = rw e d.parked;
            ajar = ap (λ (x : Suspend). x.safety_door_ajar) f ∙ d.ajar;
          })
          (λ n d.
            let a = exec_status rt n in
            let b = exec_holds rt a in
            exec_cycle_stop-AtDoor rt (exec_cycle_start rt b) (
              exec_cycle_start-AtDoor rt b
                (exec_holds-AtDoor rt a (subst AtDoor (sym (exec_status_sys rt n)) d))))
          h,
    )

exec_holds_locked :
    (rt : ExecState) (m : Machine)
    → rt.sleep ≡ false
    → m.sys.state ≡ State.alarm
    → (exec_holds rt m).sys.state ≡ State.alarm
unfolding exec_holds hold_methods go_to_sleep clear_exec_state_flag
exec_holds_locked rt m s h =
    let first : hold_methods rt m ≡ m =
      if_cases (λ (n : Machine). n ≡ m) (allows_hold m.sys.state) _ m (λ e. absurd (ground arith))
        (λ _. refl) in
    ground arith

exec_cycle_start_locked :
    (rt : ExecState) (m : Machine)
    → m.sys.state ≡ State.alarm
    → (exec_cycle_start rt m).sys.state ≡ State.alarm
unfolding exec_cycle_start resume_door start_cycle clear_exec_state_flag
exec_cycle_start_locked rt m h = ground arith

-- In the alarm state, a pass that reads no alarm code and neither a sleep nor a cycle stop request
-- returns in the alarm state: no cycle start, hold, cancel or door request ends it.
pub alarm_locks :
    (meanwhile arrived : List ExecFlag) (m : Machine)
    → m.exec_alarm ≡ 0
    → m.exec.sleep ≡ false
    → m.exec.cycle_stop ≡ false
    → m.sys.state ≡ State.alarm
    → (n : Machine) × (protocol_exec_rt_system meanwhile arrived m ≡ some n)
      × (n.sys.state ≡ State.alarm)
unfolding exec_flags
alarm_locks meanwhile arrived m quiet no_sleep no_stop h =
    let rt = m.exec in
    (
      exec_state arrived m,
      protocol_quiet meanwhile arrived m quiet,
      pass_keeps (λ s. s.state ≡ State.alarm) arrived m (λ s t e f d. e ∙ d)
          (λ n d.
            let a = exec_status rt n in
            let b = exec_holds rt a in
            let c = exec_cycle_start rt b in
            let d1 : a.sys.state ≡ State.alarm =
              ap (λ (s : Sys). s.state) (exec_status_sys rt n) ∙ d in
            ap (λ (x : Machine). x.sys.state) (exec_cycle_stop_none rt c no_stop)
            ∙ exec_cycle_start_locked rt b (exec_holds_locked rt a no_sleep d1))
          h,
    )
