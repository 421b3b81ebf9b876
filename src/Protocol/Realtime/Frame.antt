-- ===== src/Protocol/Realtime/Frame.antt =====
-- What the override part and the reloading leave alone.
use grbl_mega_plasma.Prelude.{
  ◌≡◌, refl, sym, ap, ◌∙◌, arith, if_cases, false≢true, true, false, ◌==◌, List, [], ◌∷◌, Option,
  none, some,
}
use grbl_mega_plasma.System.{
  ExecFlag, ExecState, clear_exec_state_flag, set_exec_state_flag, AccessoryOverride, Machine,
  clear_exec_accessory_overrides,
}
use grbl_mega_plasma.Protocol.Override.{
  motion_overrides, accessory_overrides, spindle_speed_override, spindle_stop_override,
  coolant_override, any_accessory,
}
use grbl_mega_plasma.Protocol.Hold.{exec_alarm, exec_status, exec_holds, any_hold}
use grbl_mega_plasma.Protocol.Cycle.{exec_cycle_stop}
use grbl_mega_plasma.Protocol.Realtime.{
  arrive, any_exec, exec_flags, reload, exec_state, protocol_exec_rt_system,
}

-- The system state, the suspend flags, the realtime flags and the hold of the stepper are as they were.
pub record Keeps (m n : Machine) : Type 0 where
  pub state : n.sys.state ≡ m.sys.state
  pub suspend : n.sys.suspend ≡ m.sys.suspend
  pub exec : n.exec ≡ m.exec
  pub abort : n.sys.abort ≡ m.sys.abort
  pub execute_hold : n.sys.step_control.execute_hold ≡ m.sys.step_control.execute_hold

same_Keeps : {m : Machine} → Keeps m m
same_Keeps = record { state = refl; suspend = refl; exec = refl; abort = refl; execute_hold = refl }

Keeps-trans : {a b c : Machine} → Keeps a b → Keeps b c → Keeps a c
Keeps-trans p q = record {
  state = q.state ∙ p.state;
  suspend = q.suspend ∙ p.suspend;
  exec = q.exec ∙ p.exec;
  abort = q.abort ∙ p.abort;
  execute_hold = q.execute_hold ∙ p.execute_hold;
}

motion_overrides-Keeps : (m : Machine) → Keeps m (motion_overrides m)
unfolding motion_overrides
motion_overrides-Keeps m = ground arith

spindle_speed-Keeps : (rt : AccessoryOverride) (m : Machine) → Keeps m (spindle_speed_override rt m)
unfolding spindle_speed_override
spindle_speed-Keeps rt m = ground arith

spindle_stop-Keeps : (rt : AccessoryOverride) (m : Machine) → Keeps m (spindle_stop_override rt m)
unfolding spindle_stop_override
spindle_stop-Keeps rt m = ground arith

coolant-Keeps : (rt : AccessoryOverride) (m : Machine) → Keeps m (coolant_override rt m)
unfolding coolant_override
coolant-Keeps rt m = ground arith

reload-Keeps : (m : Machine) → Keeps m (reload m)
unfolding reload
reload-Keeps m = ground arith

accessory_overrides-Keeps : (m : Machine) → Keeps m (accessory_overrides m)
unfolding accessory_overrides
accessory_overrides-Keeps m =
    let rt = m.accessory_ovr in
    let m0 = clear_exec_accessory_overrides m in
    let cleared : Keeps m m0 =
      unfold clear_exec_accessory_overrides in
      record { state = refl; suspend = refl; exec = refl; abort = refl; execute_hold = refl } in
    let m1 = spindle_speed_override rt m0 in
    let m2 = spindle_stop_override rt m1 in
    if_cases (Keeps m) (any_accessory rt) (coolant_override rt m2) m
      (λ _. Keeps-trans {b = m0} cleared (
        Keeps-trans (spindle_speed-Keeps rt m0)
          (Keeps-trans (spindle_stop-Keeps rt m1) (coolant-Keeps rt m2))))
      (λ _. same_Keeps)

-- The overrides and the reloading together.
pub tail-Keeps : (m : Machine) → Keeps m (reload (accessory_overrides (motion_overrides m)))
tail-Keeps m =
    let m1 = motion_overrides m in
    let m2 = accessory_overrides m1 in
    Keeps-trans (motion_overrides-Keeps m)
      (Keeps-trans (accessory_overrides-Keeps m1) (reload-Keeps m2))

-- The rest of a pass in which a flag is read, and no reset.
pub exec_state-Keeps :
    (arrived : List ExecFlag) (m : Machine)
    → m.exec.reset ≡ false
    → any_exec m.exec ≡ true
    → Keeps (exec_flags m.exec (arrive arrived m)) (exec_state arrived m)
unfolding exec_state
exec_state-Keeps arrived m h k =
    let o = exec_flags m.exec (arrive arrived m) in
    let tail : Machine → Machine = λ x. reload (accessory_overrides (motion_overrides x)) in
    if_cases (λ n. Keeps o n) m.exec.reset _ _ (λ e. absurd (false≢true (sym h ∙ e)))
      (λ _.
        if_cases (λ n. Keeps o (tail n)) (any_exec m.exec) o (arrive arrived m) (λ _. tail-Keeps o)
          (λ e. absurd (false≢true (sym e ∙ k))))

-- Interrupts set realtime flags, and nothing else.
pub arrive_sys : (fs : List ExecFlag) (m : Machine) → (arrive fs m).sys ≡ m.sys
unfolding arrive set_exec_state_flag
arrive_sys [] m = refl
arrive_sys (f ∷ fs) m = arrive_sys fs (set_exec_state_flag f m)

-- Without an alarm the function is the rest of the pass.
pub protocol_quiet :
    (meanwhile arrived : List ExecFlag) (m : Machine)
    → m.exec_alarm ≡ 0
    → protocol_exec_rt_system meanwhile arrived m ≡ some (exec_state arrived m)
unfolding protocol_exec_rt_system exec_alarm
protocol_quiet meanwhile arrived m h =
    ap (λ (o : Option Machine). elim o [ none ↦ none | some n ↦ some (exec_state arrived n) ])
      (if_cases (λ o. o ≡ some m) (m.exec_alarm == 0) (some m) _ (λ _. refl)
        (λ e. absurd (ground arith)))

pub exec_status_sys : (rt : ExecState) (m : Machine) → (exec_status rt m).sys ≡ m.sys
unfolding exec_status clear_exec_state_flag
exec_status_sys rt m = ground arith

pub exec_cycle_stop_none :
    (rt : ExecState) (m : Machine) → rt.cycle_stop ≡ false → exec_cycle_stop rt m ≡ m
unfolding exec_cycle_stop
exec_cycle_stop_none rt m h = rw h

pub some_exec : (rt : ExecState) → any_hold rt ≡ true → any_exec rt ≡ true
some_exec rt h = ground arith

pub exec_holds_none : (rt : ExecState) (m : Machine) → any_hold rt ≡ false → exec_holds rt m ≡ m
unfolding exec_holds
exec_holds_none rt m h = rw h

-- Neither an interrupt nor a status report touches the planner.
pub exec_status_kept :
    (rt : ExecState) (m : Machine)
    → ((exec_status rt m).sys ≡ m.sys) × ((exec_status rt m).block_queued ≡ m.block_queued)
unfolding exec_status clear_exec_state_flag
exec_status_kept rt m = ground arith

pub arrive_kept :
    (fs : List ExecFlag) (m : Machine)
    → ((arrive fs m).sys ≡ m.sys) × ((arrive fs m).block_queued ≡ m.block_queued)
unfolding arrive set_exec_state_flag
arrive_kept [] m = (refl, refl)
arrive_kept (f ∷ fs) m = arrive_kept fs (set_exec_state_flag f m)
