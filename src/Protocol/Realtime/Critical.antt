-- ===== src/Protocol/Realtime/Critical.antt =====
-- Alarms: the lock that they leave, and the wait after a critical one.
use grbl_mega_plasma.Prelude.{
  false≢true, ◌≡◌, refl, sym, ap, ◌∙◌, arith, ◌⊎◌, inl, inr, Bool, true, false, ◌||◌, ◌==◌,
  Bool-cases, if_cases, List, [], ◌∷◌, Option, none, some,
}
use grbl_mega_plasma.System.{
  State, ExecFlag, Sys, Machine, Call, call, clear_exec_state_flag, set_exec_state_flag, put_exec,
  clear_exec_alarm,
}
use grbl_mega_plasma.Protocol.Hold.{exec_alarm, await_reset, set_state}
use grbl_mega_plasma.Protocol.Realtime.Frame.{arrive_sys}
use grbl_mega_plasma.Protocol.Realtime.{exec_state, protocol_exec_rt_system}

abbrev pub is_reset : ExecFlag → Bool
is_reset ExecFlag.reset = true
is_reset _ = false

-- A reset is among the flags.
abbrev pub has_reset : List ExecFlag → Bool
has_reset [] = false
has_reset (f ∷ fs) = is_reset f || has_reset fs

await_reset-none :
    (fs : List ExecFlag) (m : Machine)
    → m.exec.reset ≡ false
    → has_reset fs ≡ false
    → await_reset fs m ≡ none
unfolding await_reset set_exec_state_flag put_exec
await_reset-none [] m h k = rw h refl
await_reset-none (f ∷ fs) m h k = ground (arith, await_reset-none fs (set_exec_state_flag f m))

-- The state in which the wait ends: after a reset, with `sys` as it was.
record Released (m n : Machine) : Type 0 where
  sys : n.sys ≡ m.sys
  reset : n.exec.reset ≡ true

reset_or_flag :
    (f : ExecFlag) (m : Machine) (b : Bool)
    → (m.exec.reset || (is_reset f || b)) ≡ true
    → ((set_exec_state_flag f m).exec.reset || b) ≡ true
unfolding set_exec_state_flag put_exec
reset_or_flag f m b h = ground arith

await_reset-some :
    (fs : List ExecFlag) (m : Machine)
    → (m.exec.reset || has_reset fs) ≡ true
    → (n : Machine) × (await_reset fs m ≡ some n) × Released m n
unfolding await_reset set_exec_state_flag
await_reset-some [] m h = (m, ground arith, ground arith)
await_reset-some (f ∷ fs) m h =
    let m1 = set_exec_state_flag f m in
    let (n, e, r) = await_reset-some fs m1 (reset_or_flag f m (has_reset fs) h) in
    if_cases (λ o. (n : Machine) × (o ≡ some n) × Released m n) m.exec.reset (some m)
      (await_reset fs m1) (λ now. (m, refl, record { sys = refl; reset = now }))
      (λ _. (n, e, record { sys = r.sys; reset = r.reset }))

-- The machine that waits for a reset.
waiting : Machine → Machine
waiting m = clear_exec_state_flag (ExecFlag.reset ∷ []) (
    call Call.report_critical_event
      (call (Call.report_alarm_message m.exec_alarm) (set_state State.alarm m)))

waiting_lem :
    (m : Machine) → ((waiting m).exec.reset ≡ false) × ((waiting m).sys.state ≡ State.alarm)
unfolding waiting clear_exec_state_flag put_exec
waiting_lem m = (refl, refl)

exec_alarm_critical :
    (fs : List ExecFlag) (m : Machine)
    → (m.exec_alarm ≡ 1) ⊎ (m.exec_alarm ≡ 2)
    → exec_alarm fs m
      ≡ (elim (await_reset fs (waiting m)) [ none ↦ none | some n ↦ some (clear_exec_alarm n) ])
unfolding exec_alarm waiting
exec_alarm_critical fs m h =
    let wait : Option Machine = elim (await_reset fs (waiting m)) [
      | none ↦ none
      | some n ↦ some (clear_exec_alarm n)
    ] in
    let m1 = call (Call.report_alarm_message m.exec_alarm) (set_state State.alarm m) in
    if_cases (λ o. o ≡ wait) (m.exec_alarm == 0) (some m) _ (λ e. absurd (ground arith))
      (λ _.
        if_cases (λ o. o ≡ wait) (m.exec_alarm == 1 || m.exec_alarm == 2) wait
          (some (clear_exec_alarm m1)) (λ _. refl) (λ e. absurd (ground arith)))

-- What a reset makes of the rest of the pass.
exec_state_reset :
    (arrived : List ExecFlag) (m : Machine)
    → m.exec.reset ≡ true
    → ((exec_state arrived m).sys.abort ≡ true) × ((exec_state arrived m).sys.state ≡ m.sys.state)
unfolding exec_state
exec_state_reset arrived m h =
    if_cases (λ (n : Machine). (n.sys.abort ≡ true) × (n.sys.state ≡ m.sys.state)) m.exec.reset _ _
      (λ _. (refl, ap (λ (s : Sys). s.state) (arrive_sys arrived m)))
      (λ e. absurd (false≢true (sym e ∙ h)))

-- With a hard limit (1) or soft limit (2) alarm pending, the function returns exactly if a reset
-- comes after it began: it waits for that long, and then leaves the machine in the alarm state with
-- a system abort requested. A reset that was pending before does not count.
pub critical_waits :
    (meanwhile arrived : List ExecFlag) (m : Machine)
    → (m.exec_alarm ≡ 1) ⊎ (m.exec_alarm ≡ 2)
    → ((has_reset meanwhile ≡ false) × (protocol_exec_rt_system meanwhile arrived m ≡ none))
      ⊎ ((has_reset meanwhile ≡ true)
          × ((n : Machine) × (protocol_exec_rt_system meanwhile arrived m ≡ some n)
              × (n.sys.state ≡ State.alarm)
              × (n.sys.abort ≡ true)))
unfolding protocol_exec_rt_system
critical_waits meanwhile arrived m h = go (Bool-cases (has_reset meanwhile))
  where
    w : Machine
    w = waiting m

    waited : Option Machine → Option Machine
    waited o = elim o [ none ↦ none | some n ↦ some (clear_exec_alarm n) ]

    pass : Option Machine → Option Machine
    pass o = elim o [ none ↦ none | some n ↦ some (exec_state arrived n) ]

    -- The whole pass, from what the wait gives.
    passed :
        (o : Option Machine)
        → await_reset meanwhile w ≡ o
        → pass (exec_alarm meanwhile m) ≡ pass (waited o)
    passed o e = ap pass (exec_alarm_critical meanwhile m h ∙ ap waited e)

    returns :
        (n : Machine)
        → await_reset meanwhile w ≡ some n
        → Released w n
        → (k : Machine) × (pass (exec_alarm meanwhile m) ≡ some k)
          × (k.sys.state ≡ State.alarm)
          × (k.sys.abort ≡ true)
    returns n e r =
        let n1 = clear_exec_alarm n in
        let done = exec_state_reset arrived n1 (unfold clear_exec_alarm in r.reset) in
        let in_alarm : n1.sys.state ≡ State.alarm =
          unfold clear_exec_alarm in (ap (λ (s : Sys). s.state) r.sys ∙ (waiting_lem m).1) in
        (exec_state arrived n1, passed (some n) e, done.1 ∙ in_alarm, done.0)

    go :
        (has_reset meanwhile ≡ true) ⊎ (has_reset meanwhile ≡ false)
        → ((has_reset meanwhile ≡ false) × (pass (exec_alarm meanwhile m) ≡ none))
          ⊎ ((has_reset meanwhile ≡ true)
              × ((n : Machine) × (pass (exec_alarm meanwhile m) ≡ some n)
                  × (n.sys.state ≡ State.alarm)
                  × (n.sys.abort ≡ true)))
    go (inl comes) =
        let (n, e, r) =
          await_reset-some meanwhile w
            (ap (λ (b : Bool). b || has_reset meanwhile) (waiting_lem m).0 ∙ comes) in
        inr (comes, returns n e r)
    go (inr none_comes) =
        inl (none_comes, passed none (await_reset-none meanwhile w (waiting_lem m).0 none_comes))
