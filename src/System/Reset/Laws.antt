-- ===== src/System/Reset/Laws.antt =====
-- What a reset request leaves behind.
use grbl_mega_plasma.Prelude.{◌≡◌, ◌⊎◌, ◌≢◌, arith, Bool, true, false, List, [], ◌∷◌, ◌++◌}
use grbl_mega_plasma.System.{State, Machine, Call, set_exec_state_flag, set_exec_alarm, put_exec}
use grbl_mega_plasma.System.Reset.{mc_reset}

-- The machine moves, or a hold or a system motion is being executed.
abbrev pub Moves : Machine → Type 0
Moves m =
    (m.sys.state ≡ State.cycle)
    ⊎ (m.sys.state ≡ State.homing)
    ⊎ (m.sys.state ≡ State.jog)
    ⊎ (m.sys.step_control.execute_hold ≡ true)
    ⊎ (m.sys.step_control.execute_sys_motion ≡ true)

-- The calls of a first reset, newest first.
abbrev pub stops : Bool → List Call
stops true = Call.st_go_idle ∷ Call.coolant_stop ∷ Call.spindle_stop ∷ []
stops false = Call.coolant_stop ∷ Call.spindle_stop ∷ []

-- With no reset pending, `mc_reset` leaves a reset request, and a second call changes nothing. The
-- first call stops the spindle and then the coolant. If the machine is in a cycle, homing or a
-- jog, or executes a hold or a system motion, it then stops the steppers and leaves an alarm: that
-- of a failed homing if the machine is homing and none is pending, the pending one if there is one
-- then, and that of an aborted cycle otherwise. If not, the alarm code stays as it was.
pub reset_stops :
    (m : Machine)
    → m.exec.reset ≡ false
    → let n = mc_reset m in
      (n.exec.reset ≡ true)
      × (mc_reset n ≡ n)
      × ((Moves m
            × (n.trace ≡ stops true ++ m.trace)
            × (n.exec_alarm ≢ 0)
            × (((m.sys.state ≡ State.homing) × (m.exec_alarm ≡ 0) × (n.exec_alarm ≡ 6))
                ⊎ ((m.sys.state ≡ State.homing) × (n.exec_alarm ≡ m.exec_alarm))
                ⊎ ((m.sys.state ≢ State.homing) × (n.exec_alarm ≡ 3))))
          ⊎ ((¬ Moves m) × (n.trace ≡ stops false ++ m.trace) × (n.exec_alarm ≡ m.exec_alarm)))
unfolding mc_reset set_exec_alarm set_exec_state_flag put_exec
reset_stops m h = ground arith
