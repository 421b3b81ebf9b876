-- ===== src/Gcode/Execute/Program.antt =====
-- STEP 4 of gcode.c, continued: the non-modal commands, the motion, the program flow, and a jog.
use grbl_mega_plasma.Prelude.{ℕ, true, false, not, ◌||◌, ◌&&◌, ◌==◌, none, some, if◌then◌else◌}
use grbl_mega_plasma.Floats.{Floats}
use grbl_mega_plasma.Planner.{Axes, Condition}
use grbl_mega_plasma.Planner.Line.{LineData}
use grbl_mega_plasma.System.Travel.{system_check_travel_limits}
use grbl_mega_plasma.Gcode.{Status, Result, fail, ok, Modal}
use grbl_mega_plasma.Gcode.Check.{is_motion}
use grbl_mega_plasma.Gcode.Check.Axis.{xyz, ijk}
use grbl_mega_plasma.Gcode.Check.Block.{has_command}
use grbl_mega_plasma.Gcode.Execute.{
  Action, Outside, Execution, act, modes, values, set_modal, set_condition, setup_laser, set_feed,
  set_spindle_speed, set_spindle, set_coolant, dwell, set_tool_length, set_coord_select,
}

-- `DEFAULT_FEED_OVERRIDE`, `DEFAULT_RAPID_OVERRIDE` and `DEFAULT_SPINDLE_SPEED_OVERRIDE`
abbrev pub default_feed_override : ℕ
default_feed_override = 100

abbrev pub default_rapid_override : ℕ
default_rapid_override = 100

abbrev pub default_spindle_speed_override : ℕ
default_spindle_speed_override = 100

-- The modes that `M2` and `M30` reset.
unfoldable pub reset_modes : Modal → Modal
reset_modes m = record m {
  motion = 1;
  plane_select = 0;
  distance = 0;
  feed_rate = 0;
  coord_select = 0;
  spindle = 0;
  flood = false;
  mist = false;
}

module _ {F : Type 0} where
  abbrev set_position : Axes F → Execution F → Execution F
  set_position a e = record e { g = record (e.g) { position = a } }

  abbrev set_rapid : Execution F → Execution F
  set_rapid e = set_condition (λ (c : Condition). record c { rapid_motion = true }) e

  abbrev line_to : Axes F → Execution F → Execution F
  line_to a e = act (Action.mc_line a e.pl_data) e

  unfoldable pub write_coordinate_data : Execution F → Execution F
  write_coordinate_data e =
      let n = e.checked.coord_select in
      let a = ijk (values e) in
      let e1 = act (Action.settings_write_coord_data n a) e in
      if e.g.modal.coord_select == n
      then act Action.system_flag_wco_change (record e1 { g = record (e1.g) { coord_system = a } })
      else e1

  unfoldable pub move_home : Execution F → Execution F
  move_home e =
      let e1 = set_rapid e in
      let e2 =
        if has_command e.checked.parser.block.axis_command
        then line_to (xyz (values e)) e1
        else e1 in
      set_position (ijk (values e)) (line_to (ijk (values e)) e2)

  abbrev set_offset : Axes F → Execution F → Execution F
  set_offset a e =
      act Action.system_flag_wco_change (record e { g = record (e.g) { coord_offset = a } })

  unfoldable pub do_non_modal : Floats F → Execution F → Execution F
  do_non_modal ops e =
      let n = e.checked.parser.block.non_modal_command in
      let zero_float = ops.literal 0 0 in
      if n == 10
      then write_coordinate_data e
      else if n == 28 || n == 30
      then move_home e
      else if n == 38
      then act (Action.settings_write_coord_data 6 e.g.position) e
      else if n == 40
      then act (Action.settings_write_coord_data 7 e.g.position) e
      else if n == 92
      then set_offset (xyz (values e)) e
      else if n == 102
      then set_offset (record { x = zero_float; y = zero_float; z = zero_float }) e
      else e

  -- A probing cycle, and the position it leaves: the target, the machine's, or the old one.
  unfoldable pub do_probe : Outside F → Execution F → Execution F
  do_probe o e =
      let e1 = set_condition (λ (c : Condition). record c { no_feed_override = true }) e in
      let r = o.probe (xyz (values e)) e1.pl_data in
      let e2 =
        act
          (Action.mc_probe_cycle (xyz (values e)) e1.pl_data e.checked.probe_is_no_error
            e.checked.probe_is_away)
          e1 in
      if r.0 == 0 then set_position r.1 e2 else if r.0 == 1 then set_position o.position e2 else e2

  unfoldable pub do_motion : Outside F → Execution F → Execution F
  do_motion o e =
      let motion = (modes e).motion in
      let v = values e in
      let goal = xyz v in
      let e1 = set_modal (λ (m : Modal). record m { motion = motion }) e in
      let arc =
        act
          (Action.mc_arc goal e.pl_data e.g.position (ijk v) v.r (modes e).plane_select
            e.checked.arc_is_clockwise)
          e1 in
      let probe = do_probe o e1 in
      if motion == 80 || not (is_motion e.checked.parser.block.axis_command)
      then e1
      else if motion == 1
      then set_position goal (line_to goal e1)
      else if motion == 0
      then set_position goal (line_to goal (set_rapid e1))
      else if motion == 2 || motion == 3
      then set_position goal arc
      else probe

  unfoldable pub pause : Outside F → Execution F → Execution F
  pause o e =
      if o.check_mode then e else act Action.protocol_execute_realtime (act Action.feed_hold e)

  -- `M2` and `M30`; `RESTORE_OVERRIDES_AFTER_PROGRAM_END` is defined. The status is that of the reading of G54.
  unfoldable pub end_program : Outside F → Execution F → Result (Execution F)
  end_program o e =
      let e1 =
        act
          (Action.set_overrides default_feed_override default_rapid_override
            default_spindle_speed_override)
          (set_modal reset_modes e) in
      let stop : Axes F → Execution F = λ a. act Action.coolant_disable (
        act Action.spindle_disable (
          act Action.system_flag_wco_change
            (record e1 { g = record (e1.g) { coord_system = a } }))) in
      if o.check_mode then ok (act Action.report_program_end e1) else (elim (o.read 0) [
        | none ↦ fail Status.setting_read_fail
        | some a ↦ ok (act Action.report_program_end (stop a))
      ])

  -- `PROGRAM_FLOW_RUNNING`
  abbrev run_on : Execution F → Execution F
  run_on e = set_modal (λ (m : Modal). record m { program_flow = 0 }) e

  unfoldable pub do_program_flow : Outside F → Execution F → Result (Execution F)
  do_program_flow o e =
      let flow = (modes e).program_flow in
      let e1 = set_modal (λ (m : Modal). record m { program_flow = flow }) e in
      let e2 = act Action.protocol_buffer_synchronize e1 in
      if flow == 0
      then ok e1
      else if flow == 3
      then ok (run_on (pause o e2))
      else (elim (end_program o e2) [ fail s ↦ fail s | ok e3 ↦ ok (run_on e3) ])

  -- The steps before the motion, in their order.
  unfoldable pub set_modes : Floats F → Outside F → Execution F → Execution F
  set_modes ops o e =
      let e1 = set_feed (setup_laser o e) in
      let e2 = set_coolant ops (set_spindle ops (set_spindle_speed ops e1)) in
      set_coord_select ops (set_tool_length ops (dwell ops e2))

  unfoldable pub execute_block : Floats F → Outside F → Execution F → Result (Execution F)
  execute_block ops o e = do_program_flow o (do_motion o (do_non_modal ops (set_modes ops o e)))

  -- The set-up of `pl_data` by `gc_execute_line` and `jog_execute` for a jog.
  unfoldable pub jog_data : Execution F → LineData F
  jog_data e =
      let m = e.g.modal in
      let v = values e in
      record (e.pl_data) {
        feed_rate = v.f;
        line_number = v.n;
        spindle_speed = e.g.spindle_speed;
        condition = record (e.pl_data.condition) {
          no_feed_override = true;
          spindle_cw = m.spindle == 16;
          spindle_ccw = m.spindle == 32;
          coolant_flood = m.flood;
          coolant_mist = m.mist;
        };
      }

  -- `jog_execute` of jog.c after its set-up of `pl_data`.
  unfoldable pub execute_jog : Floats F → Outside F → Execution F → Result (Execution F)
  unfolding system_check_travel_limits jog_data
  execute_jog ops o e =
      let goal = xyz (values e) in
      let d = jog_data e in
      let e1 = act (Action.mc_line goal d) (record e { pl_data = d }) in
      if o.soft_limits && system_check_travel_limits ops o.max_travel goal
      then fail Status.travel_exceeded
      else ok (
          set_position goal
            (if o.idle && o.block_queued goal d then act Action.start_jog e1 else e1))
