-- ===== src/Protocol/Tests.antt =====
-- The laws of the line reader and of the realtime executor on concrete states.
use grbl_mega_plasma.Prelude.{
  ℕ, ◌≤◌, ◌<◌, ◌≡◌, refl, ◌≢◌, ◌⊎◌, inl, true, false, none, some, List, [], ◌∷◌, arith, replicate,
  length,
}
use grbl_mega_plasma.System.{State, ExecFlag, Machine, no_exec, no_motion_ovr, no_suspend}
use grbl_mega_plasma.Fixtures.{idle_sys, running_machine}
use grbl_mega_plasma.Protocol.Line.{Reader, no_flags, status_overflow, end_of_line}
use grbl_mega_plasma.Protocol.Line.Clean.{IsFresh, accept_all, clean}
use grbl_mega_plasma.Protocol.Line.Dispatched.{IsText, expected, line_dispatched}
use grbl_mega_plasma.Protocol.Override.{new_f_override}
use grbl_mega_plasma.Protocol.Override.Bounds.{InRange, feed_sum}
use grbl_mega_plasma.Protocol.Realtime.{exec_state, protocol_exec_rt_system}
use grbl_mega_plasma.Protocol.Realtime.Frame.{protocol_quiet}
use grbl_mega_plasma.Protocol.Realtime.Ranges.{overrides-InRange}
use grbl_mega_plasma.Protocol.Realtime.Critical.{has_reset, critical_waits}
use grbl_mega_plasma.Protocol.Realtime.Holding.{Holds, feed_hold_stops}
use grbl_mega_plasma.Protocol.Realtime.Door.{AtDoor, door_stays, alarm_locks}
use grbl_mega_plasma.Protocol.Realtime.Resume.{hold_resumes}
use grbl_mega_plasma.Protocol.Realtime.Start.{Starts, start_needs}

abbrev fresh_reader : Reader
fresh_reader = record { line = replicate 256 0; char_counter = 0; line_flags = no_flags }

-- `g0 (up) x1`
abbrev test_line : List ℕ
test_line = b'g' ∷ b'0' ∷ b' ' ∷ b'(' ∷ b'u' ∷ b')' ∷ b'x' ∷ b'1' ∷ []

fresh_reader-IsFresh : IsFresh fresh_reader
fresh_reader-IsFresh = record { size = refl; counter = refl; flags = refl }

line_dispatched_example :
    let (d, r) = end_of_line State.idle false (accept_all test_line fresh_reader) in
    IsFresh r
    × (((length (clean test_line) ≤ 255)
          × ((line : List ℕ) × (d ≡ some (expected State.idle (clean test_line) line))
              × IsText (clean test_line) line))
        ⊎ ((255 < length (clean test_line)) × (d ≡ some status_overflow)))
line_dispatched_example = line_dispatched State.idle test_line fresh_reader fresh_reader-IsFresh

-- Both decrements at 10 per cent lead to 200 per cent.
feed_sum_example :
    new_f_override (record no_motion_ovr { feed_coarse_minus = true; feed_fine_minus = true }) 10
    ≡ 200
feed_sum_example =
    feed_sum (record no_motion_ovr { feed_coarse_minus = true; feed_fine_minus = true }) 10
      (omega arith) (omega arith)

abbrev held_machine : Machine
held_machine = record running_machine {
  sys = record idle_sys {
    state = State.hold;
    suspend = record no_suspend { hold_complete = true };
  };
  exec = record no_exec { cycle_start = true };
}

idle_sys-InRange : InRange (record idle_sys { state = State.cycle })
idle_sys-InRange = record {
  feed_low = omega arith;
  feed_high = omega arith;
  rapid = inl refl;
  spindle_low = omega arith;
  spindle_high = omega arith;
}

overrides-InRange_example : InRange (exec_state [] running_machine).sys
overrides-InRange_example =
    overrides-InRange [] [] running_machine (exec_state [] running_machine) idle_sys-InRange
      (protocol_quiet [] [] running_machine refl)

abbrev limit_machine : Machine
limit_machine = record running_machine { exec_alarm = 1 }

critical_waits_example :
    ((has_reset (ExecFlag.reset ∷ []) ≡ false)
      × (protocol_exec_rt_system (ExecFlag.reset ∷ []) [] limit_machine ≡ none))
    ⊎ ((has_reset (ExecFlag.reset ∷ []) ≡ true)
        × ((n : Machine) × (protocol_exec_rt_system (ExecFlag.reset ∷ []) [] limit_machine ≡ some n)
            × (n.sys.state ≡ State.alarm)
            × (n.sys.abort ≡ true)))
critical_waits_example = critical_waits (ExecFlag.reset ∷ []) [] limit_machine (inl refl)

abbrev hold_request : Machine
hold_request = record running_machine {
  exec = record no_exec { feed_hold = true; cycle_start = true };
}

feed_hold_stops_example :
    (n : Machine) × (protocol_exec_rt_system [] [] hold_request ≡ some n) × Holds n.sys
feed_hold_stops_example =
    feed_hold_stops [] [] hold_request refl
      (record { cycle = refl; no_cancel = refl; no_jog_cancel = refl }) refl
      (refl, refl, refl, refl)

abbrev door_machine : Machine
door_machine = record held_machine {
  sys = record idle_sys {
    state = State.safety_door;
    suspend = record no_suspend { safety_door_ajar = true; restore_complete = true };
  };
}

door_stays_example :
    (n : Machine) × (protocol_exec_rt_system [] [] door_machine ≡ some n) × AtDoor n.sys
door_stays_example = door_stays [] [] door_machine refl (record { parked = inl refl; ajar = refl })

abbrev locked_machine : Machine
locked_machine = record held_machine { sys = record idle_sys { state = State.alarm } }

alarm_locks_example :
    (n : Machine) × (protocol_exec_rt_system [] [] locked_machine ≡ some n)
    × (n.sys.state ≡ State.alarm)
alarm_locks_example = alarm_locks [] [] locked_machine refl refl refl refl

-- The pass that resumes the motion.
resumed_run :
    (n : Machine) × (protocol_exec_rt_system [] [] held_machine ≡ some n)
    × (n.sys.state ≡ State.cycle)
    × (n.sys.suspend ≡ no_suspend)
resumed_run =
    hold_resumes [] [] held_machine refl (record { hold = refl; complete = refl; no_stop = refl })
      (record { start = refl; no_hold = refl; no_stop = refl; no_reset = refl })

hold_resumes_example :
    (n : Machine) × (protocol_exec_rt_system [] [] held_machine ≡ some n)
    × (n.sys.state ≡ State.cycle)
    × (n.sys.suspend ≡ no_suspend)
hold_resumes_example =
    hold_resumes [] [] held_machine refl (record { hold = refl; complete = refl; no_stop = refl })
      (record { start = refl; no_hold = refl; no_stop = refl; no_reset = refl })

not_cycle : State.hold ≢ State.cycle
not_cycle e = cc

start_needs_example : (held_machine.exec_alarm ≡ 0) × Starts held_machine.exec held_machine
start_needs_example =
    start_needs [] [] held_machine (resumed_run.0) not_cycle resumed_run.1 resumed_run.2
