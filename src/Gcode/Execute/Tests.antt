-- ===== src/Gcode/Execute/Tests.antt =====
-- STEP 4 of gcode.c on a concrete block. A number is given in thousandths.
use grbl_mega_plasma.Prelude.{ℕ, ◌≡◌, refl, true, false, none, some, [], ◌+◌, ◌*◌}
use grbl_mega_plasma.Fixtures.{fixed_ops}
use grbl_mega_plasma.Floats.{Floats}
use grbl_mega_plasma.System.Travel.{IsWithin, system_check_travel_limits}
use grbl_mega_plasma.Gcode.{Result, fail, ok, AxisCommand}
use grbl_mega_plasma.Gcode.Check.Axis.{xyz}
use grbl_mega_plasma.Gcode.Check.Block.{begin}
use grbl_mega_plasma.Gcode.Check.Tests.{at_rest, feed_line}
use grbl_mega_plasma.Gcode.Execute.{
  Outside, Execution, modes, values, setup_laser, set_feed, sync_speed, set_spindle_speed,
  set_spindle, set_coolant, dwell, set_tool_length, set_coord_select,
}
use grbl_mega_plasma.Gcode.Execute.Program.{
  do_non_modal, do_motion, do_program_flow, set_modes, execute_block, execute_jog,
}
use grbl_mega_plasma.Gcode.Execute.Laws.{final_modes, ends_program, overrides_of, execute-modes}
use grbl_mega_plasma.Gcode.Execute.Jog.{execute_jog-IsWithin}

abbrev bench : Outside ℕ
bench = record {
  laser_mode = false;
  check_mode = false;
  read = λ n. none;
  probe = λ a d. (2, a);
  soft_limits = false;
  max_travel = record { x = 0; y = 0; z = 0 };
  idle = true;
  block_queued = λ a d. true;
  position = at_rest.position;
}

-- `G1 X10 F100`, checked
abbrev feeding : Execution ℕ
feeding = record {
  g = at_rest;
  checked = begin at_rest (record feed_line {
    block = record (feed_line.block) { axis_command = AxisCommand.motion_mode };
  });
  pl_data = record {
    feed_rate = 0;
    spindle_speed = 0;
    line_number = 0;
    condition = record {
      rapid_motion = false;
      system_motion = false;
      no_feed_override = false;
      inverse_time = false;
      spindle_cw = false;
      spindle_ccw = false;
      coolant_flood = false;
      coolant_mist = false;
    };
  };
  laser_disable = false;
  laser_is_motion = false;
  laser_force_sync = false;
  actions = [];
}

abbrev executed : Execution ℕ
executed = go (execute_block fixed_ops bench feeding)
  where
    go : Result (Execution ℕ) → Execution ℕ
    go (fail s) = feeding
    go (ok t) = t

executed_lem : execute_block fixed_ops bench feeding ≡ ok executed
unfolding execute_block do_program_flow do_motion do_non_modal set_modes set_coord_select
    set_tool_length dwell set_coolant set_spindle set_spindle_speed sync_speed set_feed setup_laser
executed_lem = refl

execute-modes_example :
    (executed.g.modal ≡ final_modes (modes feeding))
    × (ends_program (modes feeding) ≡ true → overrides_of executed.actions ≡ some (100, 100, 100))
execute-modes_example = execute-modes fixed_ops bench feeding executed executed_lem (λ k. refl)

-- A number `n` stands for `n - 1000000` thousandths, so that the travel can be negative.
abbrev shifted_ops : Floats ℕ
shifted_ops = record fixed_ops { literal = λ m e. 1000000 + m * 1000 }

-- Soft limits, with a travel of 1000 mm on each axis.
abbrev limited : Outside ℕ
limited = record bench { soft_limits = true }

abbrev jogged : Execution ℕ
jogged = result (execute_jog shifted_ops limited feeding)
  where
    result : Result (Execution ℕ) → Execution ℕ
    result (fail s) = feeding
    result (ok t) = t

jogged_lem : execute_jog shifted_ops limited feeding ≡ ok jogged
unfolding execute_jog system_check_travel_limits
jogged_lem = refl

execute_jog-IsWithin_example :
    (jogged.g.position ≡ xyz (values feeding))
    × (IsWithin shifted_ops limited.max_travel jogged.g.position
        × (jogged.g.modal ≡ feeding.g.modal))
execute_jog-IsWithin_example =
    execute_jog-IsWithin shifted_ops limited feeding jogged jogged_lem refl
