-- ===== src/Protocol/Realtime/Returns.antt =====
-- The function may wait for ever: properties of what it returns, and the two results of its alarm
-- part.
use grbl_mega_plasma.Prelude.{
  ◌≡◌, refl, subst, ◌||◌, ◌==◌, ==_iff, if_cases, Option, none, some, List, [], ◌∷◌, ap,
}
use grbl_mega_plasma.System.{
  State, ExecFlag, Sys, Machine, Call, call, clear_exec_state_flag, set_exec_state_flag,
  clear_exec_alarm,
}
use grbl_mega_plasma.Protocol.Hold.{exec_alarm, await_reset, set_state}

-- What holds of the machine, if the function returns.
abbrev pub Returns : (Machine → Type 0) → Option Machine → Type 0
Returns P none = Unit {0}
Returns P (some n) = P n

pub Returns-map :
    (P Q : Machine → Type 0) (f : Machine → Machine) (o : Option Machine)
    → ((n : Machine) → P n → Q (f n))
    → Returns P o
    → Returns Q (elim o [ none ↦ none | some n ↦ some (f n) ])
Returns-map P Q f none k h = tt
Returns-map P Q f (some n) k h = k n h

pub Returns_some :
    (P : Machine → Type 0) (o : Option Machine) (n : Machine) → o ≡ some n → Returns P o → P n
Returns_some P o n e h = subst (Returns P) e h

pub await_reset-Returns :
    (P : Machine → Type 0) (fs : List ExecFlag) (m : Machine)
    → ((n : Machine) → n.sys ≡ m.sys → P n)
    → Returns P (await_reset fs m)
unfolding await_reset set_exec_state_flag
await_reset-Returns P [] m h =
    if_cases (Returns P) m.exec.reset (some m) none (λ _. h m refl) (λ _. tt)
await_reset-Returns P (f ∷ fs) m h =
    if_cases (Returns P) m.exec.reset (some m) _ (λ _. h m refl)
      (λ _. await_reset-Returns P fs (set_exec_state_flag f m) h)

-- The alarm part changes nothing without an alarm, and leaves the alarm state otherwise.
pub exec_alarm-Returns :
    (P : Machine → Type 0) (fs : List ExecFlag) (m : Machine)
    → (m.exec_alarm ≡ 0 → P m)
    → ((n : Machine) → n.sys.state ≡ State.alarm → P n)
    → Returns P (exec_alarm fs m)
unfolding exec_alarm clear_exec_alarm clear_exec_state_flag
exec_alarm-Returns P fs m h k =
    let m1 = call (Call.report_alarm_message m.exec_alarm) (set_state State.alarm m) in
    let m2 = clear_exec_state_flag (ExecFlag.reset ∷ []) (call Call.report_critical_event m1) in
    let in_alarm : Machine → Type 0 = λ n. n.sys.state ≡ State.alarm in
    if_cases (Returns P) (m.exec_alarm == 0) (some m) _ (λ e. h ((==_iff m.exec_alarm 0).0 e))
      (λ _.
        if_cases (Returns P) (m.exec_alarm == 1 || m.exec_alarm == 2) _ (some (clear_exec_alarm m1))
          (λ _.
            Returns-map in_alarm P clear_exec_alarm (await_reset fs m2)
              (λ n e. k (clear_exec_alarm n) e)
              (await_reset-Returns in_alarm fs m2 (λ n e. ap (λ (s : Sys). s.state) e)))
          (λ _. k (clear_exec_alarm m1) refl))
