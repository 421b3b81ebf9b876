-- ===== src/System/Tests.antt =====
-- The laws of the reset and of the `$` commands on concrete machines.
use grbl_mega_plasma.Prelude.{ℕ, ◌≡◌, refl, ◌⊎◌, inl, ◌≢◌, arith, true, false, ◌++◌, none, [], ◌∷◌}
use grbl_mega_plasma.System.Reset.{mc_reset}
use grbl_mega_plasma.System.Reset.Laws.{Moves, stops, reset_stops}
use grbl_mega_plasma.System.{State, Machine}
use grbl_mega_plasma.System.Command.{Services, Console, invalid_statement, system_execute_line}
use grbl_mega_plasma.System.Command.Laws.{bad_home_sticks}
use grbl_mega_plasma.Fixtures.{idle_machine, running_machine}

reset_stops_example :
    ((mc_reset running_machine).exec.reset ≡ true)
    × (mc_reset (mc_reset running_machine) ≡ mc_reset running_machine)
    × ((Moves running_machine
          × ((mc_reset running_machine).trace ≡ stops true ++ running_machine.trace)
          × ((mc_reset running_machine).exec_alarm ≢ 0)
          × (((running_machine.sys.state ≡ State.homing)
                × (running_machine.exec_alarm ≡ 0)
                × ((mc_reset running_machine).exec_alarm ≡ 6))
              ⊎ ((running_machine.sys.state ≡ State.homing)
                  × ((mc_reset running_machine).exec_alarm ≡ running_machine.exec_alarm))
              ⊎ ((running_machine.sys.state ≢ State.homing)
                  × ((mc_reset running_machine).exec_alarm ≡ 3))))
        ⊎ ((¬ Moves running_machine)
            × ((mc_reset running_machine).trace ≡ stops false ++ running_machine.trace)
            × ((mc_reset running_machine).exec_alarm ≡ running_machine.exec_alarm)))
reset_stops_example = reset_stops running_machine refl

-- Every routine of another module succeeds without doing anything.
abbrev test_services : Services ℕ
test_services = record {
  gc_execute_line = λ line m. (0, m);
  mc_homing_cycle = λ m. m;
  settings_read_startup_line = λ n. none;
  read_float = λ line pos. none;
  trunc = λ v. v;
  above_255 = λ v. false;
  settings_store_global_setting = λ n v. 0;
  atoi = λ line. 0;
  homing_enable = true;
}

abbrev console : Machine → Console
console m = record { machine = m; analog_set_val = 3; effects = [] }

-- `$HX`, and then `$X`
bad_home_sticks_example :
    let r =
      system_execute_line test_services (b'$' ∷ b'H' ∷ b'X' ∷ 0 ∷ []) (console idle_machine) in
    (r.0 ≡ invalid_statement)
    × (r.1.machine.sys.state ≡ State.homing)
    × ((system_execute_line test_services (b'$' ∷ b'X' ∷ 0 ∷ []) r.1).1.machine ≡ r.1.machine)
bad_home_sticks_example =
    bad_home_sticks test_services (b'$' ∷ b'H' ∷ b'X' ∷ 0 ∷ []) (b'$' ∷ b'X' ∷ 0 ∷ [])
      (console idle_machine) (inl refl) refl refl (omega arith)
