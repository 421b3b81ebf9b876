-- ===== src/System/Command/Laws.antt =====
-- What the `$` commands leave alone while the machine is busy.
use grbl_mega_plasma.Prelude.{
  ℕ, ◌≡◌, ◌≢◌, refl, ap, ◌∙◌, ◌⊎◌, inl, inr, take, arith, Bool, true, false, ◌==◌, List, if_cases,
  if◌then◌else◌, get_or,
}
use grbl_mega_plasma.System.{State}
use grbl_mega_plasma.System.Command.{
  Status, Console, Services, when_ready, invalid_statement, jog, view, home, maintain, thc_command,
  is_view, rest_of, set_state, effect, status_ok, grbl_help, system_execute_line,
}

-- A cycle, a hold, homing, an open door, or sleep.
abbrev pub is_busy : State → Bool
is_busy State.cycle = true
is_busy State.hold = true
is_busy State.homing = true
is_busy State.safety_door = true
is_busy State.sleep = true
is_busy _ = false

-- What a busy machine keeps: its state, and the voltage that the height control holds, but for the
-- command that sets it.
abbrev pub IsKept : {F : Type 0} → Services F → List ℕ → Console → Console → Type 0
IsKept ops line k n =
    (n.machine ≡ k.machine)
    × ((n.analog_set_val ≡ k.analog_set_val)
        ⊎ ((get_or line 1 0 ≡ b'T')
            × (get_or line 2 0 ≡ b'=')
            × (n.analog_set_val ≡ ops.atoi (take 5 (rest_of 3 line)))))

jog_busy :
    {F : Type 0} (ops : Services F) (line : List ℕ) (k : Console)
    → is_busy k.machine.sys.state ≡ true
    → IsKept ops line k (jog ops line k).1
unfolding jog
jog_busy ops line k h = ground arith

view_busy :
    {F : Type 0} (ops : Services F) (line : List ℕ) (c : ℕ) (k : Console)
    → is_busy k.machine.sys.state ≡ true
    → IsKept ops line k (view ops c k).1
unfolding view
view_busy ops line c k h = ground arith

when_ready_busy :
    {F : Type 0} (ops : Services F) (line : List ℕ) (r : Status × Console) (k : Console)
    → is_busy k.machine.sys.state ≡ true
    → IsKept ops line k (when_ready k r).1
unfolding when_ready
when_ready_busy ops line r k h = ground arith

when_ready_lem :
    (r : Status × Console) (k : Console)
    → (k.machine.sys.state ≡ State.idle) ⊎ (k.machine.sys.state ≡ State.alarm)
    → when_ready k r ≡ r
unfolding when_ready
when_ready_lem r k h = ground arith

home_refused :
    {F : Type 0} (ops : Services F) (line : List ℕ) (k : Console)
    → ops.homing_enable ≡ true
    → get_or line 2 0 ≢ 0
    → home ops line k ≡ (invalid_statement, set_state State.homing k)
unfolding home
home_refused ops line k on more = ground arith

pub busy_unchanged :
    {F : Type 0} (ops : Services F) (line : List ℕ) (k : Console)
    → is_busy k.machine.sys.state ≡ true
    → IsKept ops line k (system_execute_line ops line k).1
unfolding system_execute_line thc_command
busy_unchanged ops line k h =
    let c = get_or line 1 0 in
    let Same : Status × Console → Type 0 = λ r. IsKept ops line k r.1 in
    if_cases Same (c == 0) _ _ (λ _. (refl, inl refl))
      (λ _.
        if_cases Same (c == b'J') (jog ops line k) _ (λ _. jog_busy ops line k h)
          (λ _.
            if_cases Same (is_view c) _ _
              (λ _.
                if_cases Same (get_or line 2 0 == 0) (view ops c k) (invalid_statement, k)
                  (λ _. view_busy ops line c k h) (λ _. (refl, inl refl)))
              (λ _.
                if_cases Same (c == b'T') _ _
                  (λ t.
                    if_cases Same (get_or line 2 0 == b'=') _ _
                      (λ s. (refl, inr (ground arith, ground arith, refl))) (λ _. (refl, inl refl)))
                  (λ _. when_ready_busy ops line (maintain ops c line k) k h))))

-- A homing command with anything behind the `$H`, in the state idle or alarm and with homing on,
-- is refused as an invalid statement but leaves the state homing, in which no later `$` line
-- changes the machine.
pub bad_home_sticks :
    {F : Type 0} (ops : Services F) (line next : List ℕ) (k : Console)
    → (k.machine.sys.state ≡ State.idle) ⊎ (k.machine.sys.state ≡ State.alarm)
    → ops.homing_enable ≡ true
    → get_or line 1 0 ≡ b'H'
    → get_or line 2 0 ≢ 0
    → let r = system_execute_line ops line k in
      (r.0 ≡ invalid_statement)
      × (r.1.machine.sys.state ≡ State.homing)
      × ((system_execute_line ops next r.1).1.machine ≡ r.1.machine)
unfolding system_execute_line maintain
bad_home_sticks ops line next k free on h_line more = (
  ap (λ (r : Status × Console). r.0) refused,
  in_homing,
  (busy_unchanged ops next (system_execute_line ops line k).1 (ap is_busy in_homing)).0,
)
  where
    refused : system_execute_line ops line k ≡ (invalid_statement, set_state State.homing k)
    refused =
        ap
          (λ (c : ℕ).
            if c == 0
            then (status_ok, effect grbl_help k)
            else if c == b'J'
            then jog ops line k
            else if is_view c
            then (if get_or line 2 0 == 0 then view ops c k else (invalid_statement, k))
            else if c == b'T'
            then thc_command ops line k
            else when_ready k (maintain ops c line k))
          h_line
        ∙ when_ready_lem (home ops line k) k free
        ∙ home_refused ops line k on more

    in_homing : (system_execute_line ops line k).1.machine.sys.state ≡ State.homing
    in_homing = ap (λ (r : Status × Console). r.1.machine.sys.state) refused
