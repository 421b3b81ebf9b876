-- ===== src/Gcode/Execute.antt =====
-- STEP 4 of `gc_execute_line` of gcode.c: a checked block is executed in the order of execution, and
-- the parser's state takes its modes. What the step calls is recorded in `actions`, newest first.
-- `Outside` is what it reads of the rest of the machine: the settings and the state, the answer of the
-- probe, whether a jog's line puts a block into the planner's buffer, the stored coordinates, and the
-- position that `gc_sync_position` gives. `start_jog` is the start of a jog in jog.c: the state, the
-- segment buffer and the wake-up of the steppers.
pub mod Program
pub mod Laws
pub mod Jog
mod Tests
use grbl_mega_plasma.Prelude.{
  ℕ, Bool, true, false, not, ◌||◌, ◌&&◌, ◌==◌, Option, none, some, List, [], ◌∷◌, if◌then◌else◌,
}
use grbl_mega_plasma.Floats.{Floats}
use grbl_mega_plasma.Planner.{Axes, Condition}
use grbl_mega_plasma.Planner.Line.{LineData}
use grbl_mega_plasma.Gcode.{AxisCommand, Modal}
use grbl_mega_plasma.Gcode.Word.{Values}
use grbl_mega_plasma.Gcode.Check.{GcState, Checked, any_axis, is_motion, is_tool_offset}
use grbl_mega_plasma.Gcode.Check.Axis.{xyz, ijk, with_xyz}
use grbl_mega_plasma.Gcode.Check.Block.{has_command}

-- A call of the step into the rest of the program.
pub data Action (F : Type 0) : Type 0 where
  spindle_sync : ℕ → F → Action F
  coolant_sync : Bool → Bool → Action F
  mc_dwell : F → Action F
  settings_write_coord_data : ℕ → Axes F → Action F
  system_flag_wco_change : Action F
  mc_line : Axes F → LineData F → Action F
  mc_arc : Axes F → LineData F → Axes F → Axes F → F → ℕ → Bool → Action F
  mc_probe_cycle : Axes F → LineData F → Bool → Bool → Action F
  start_jog : Action F
  protocol_buffer_synchronize : Action F
  feed_hold : Action F
  protocol_execute_realtime : Action F
  spindle_disable : Action F
  coolant_disable : Action F
  report_program_end : Action F
  set_overrides : ℕ → ℕ → ℕ → Action F

pub record Outside (F : Type 0) : Type 0 where
  pub laser_mode : Bool
  pub check_mode : Bool
  pub read : ℕ → Option (Axes F)
  pub probe : Axes F → LineData F → (ℕ × Axes F)
  pub soft_limits : Bool
  pub max_travel : Axes F
  pub idle : Bool
  pub block_queued : Axes F → LineData F → Bool
  pub position : Axes F

-- `gc_state`, the block, `pl_data`, and the three laser flags of `gc_parser_flags`.
pub record Execution (F : Type 0) : Type 0 where
  pub g : GcState F
  pub checked : Checked F
  pub pl_data : LineData F
  pub laser_disable : Bool
  pub laser_is_motion : Bool
  pub laser_force_sync : Bool
  pub actions : List (Action F)

-- `MOTION_MODE_LINEAR`, `MOTION_MODE_CW_ARC` and `MOTION_MODE_CCW_ARC`
abbrev pub is_cut : ℕ → Bool
is_cut m = m == 1 || m == 2 || m == 3

module _ {F : Type 0} where
  abbrev pub act : Action F → Execution F → Execution F
  act a e = record e { actions = a ∷ e.actions }

  abbrev pub modes : Execution F → Modal
  modes e = e.checked.parser.block.modal

  abbrev pub values : Execution F → Values F
  values e = e.checked.parser.values

  abbrev pub set_modal : (Modal → Modal) → Execution F → Execution F
  set_modal f e = record e { g = record (e.g) { modal = f e.g.modal } }

  abbrev pub set_condition : (Condition → Condition) → Execution F → Execution F
  set_condition f e = record e {
    pl_data = record (e.pl_data) { condition = f e.pl_data.condition };
  }

  unfoldable pub setup_laser : Outside F → Execution F → Execution F
  setup_laser o e =
      let b = e.checked.parser.block in
      let off = not (is_cut b.modal.motion) in
      let moves = any_axis b.axis_words && is_motion b.axis_command in
      let was_cut = is_cut e.g.modal.motion in
      let sync = e.g.modal.spindle == 16 && (if was_cut then off else not off) in
      if o.laser_mode
      then record e {
        laser_disable = off;
        laser_is_motion = moves;
        laser_force_sync = if moves then false else sync;
      }
      else e

  -- The line number, the feed rate mode and the feed rate.
  unfoldable pub set_feed : Execution F → Execution F
  set_feed e =
      let v = values e in
      let mode = (modes e).feed_rate in
      record e {
        g = record (e.g) {
          line_number = v.n;
          feed_rate = v.f;
          modal = record (e.g.modal) { feed_rate = mode };
        };
        pl_data = record (e.pl_data) {
          line_number = v.n;
          feed_rate = v.f;
          condition = record (e.pl_data.condition) {
            inverse_time = e.pl_data.condition.inverse_time || not (mode == 0);
          };
        };
      }

  module _ (ops : Floats F) where
    abbrev zero_float : F
    zero_float = ops.literal 0 0

    unfoldable pub sync_speed : Execution F → Execution F
    sync_speed e =
        let spindle = e.g.modal.spindle in
        if spindle == 0 || e.laser_is_motion
        then e
        else act
            (Action.spindle_sync spindle (if e.laser_disable then zero_float else (values e).s)) e

    unfoldable pub set_spindle_speed : Execution F → Execution F
    set_spindle_speed e =
        let s = (values e).s in
        let e1 = sync_speed e in
        let e2 =
          if not (ops.eq e.g.spindle_speed s) || e.laser_force_sync
          then record e1 { g = record (e1.g) { spindle_speed = s } }
          else e in
        if e.laser_disable
        then e2
        else record e2 { pl_data = record (e2.pl_data) { spindle_speed = e2.g.spindle_speed } }

    unfoldable pub set_spindle : Execution F → Execution F
    set_spindle e =
        let e0 = record e { g = record (e.g) { tool = (values e).t } } in
        let new = (modes e).spindle in
        let e1 =
          if e.g.modal.spindle == new
          then e0
          else set_modal (λ (m : Modal). record m { spindle = new })
              (act (Action.spindle_sync new e.pl_data.spindle_speed) e0) in
        set_condition
          (λ (c : Condition). record c {
            spindle_cw = c.spindle_cw || e1.g.modal.spindle == 16;
            spindle_ccw = c.spindle_ccw || e1.g.modal.spindle == 32;
          })
          e1

    abbrev same : Bool → Bool → Bool
    same a b = if a then b else not b

    unfoldable pub set_coolant : Execution F → Execution F
    set_coolant e =
        let m = modes e in
        let e1 =
          if same e.g.modal.flood m.flood && same e.g.modal.mist m.mist
          then e
          else set_modal (λ (k : Modal). record k { flood = m.flood; mist = m.mist })
              (act (Action.coolant_sync m.flood m.mist) e) in
        set_condition
          (λ (c : Condition). record c {
            coolant_flood = c.coolant_flood || e1.g.modal.flood;
            coolant_mist = c.coolant_mist || e1.g.modal.mist;
          })
          e1

    -- The dwell, the plane and the units.
    unfoldable pub dwell : Execution F → Execution F
    dwell e =
        let m = modes e in
        let e1 =
          if e.checked.parser.block.non_modal_command == 4
          then act (Action.mc_dwell (values e).p) e
          else e in
        set_modal (λ (k : Modal). record k { plane_select = m.plane_select; units = m.units }) e1

    unfoldable pub set_tool_length : Execution F → Execution F
    set_tool_length e =
        let mode = (modes e).tool_length in
        let z = if mode == 0 then zero_float else (values e).z in
        let p = e.checked.parser in
        let e1 =
          set_modal (λ (k : Modal). record k { tool_length = mode })
            (record e {
              checked = record (e.checked) {
                parser = record p { values = record (p.values) { z = z } };
              };
            }) in
        if not (is_tool_offset e.checked.parser.block.axis_command)
        then e
        else if ops.eq e.g.tool_length_offset z
        then e1
        else act Action.system_flag_wco_change
            (record e1 { g = record (e1.g) { tool_length_offset = z } })

    -- The coordinate system and the distance mode.
    unfoldable pub set_coord_select : Execution F → Execution F
    set_coord_select e =
        let m = modes e in
        let e1 =
          if e.g.modal.coord_select == m.coord_select
          then e
          else act Action.system_flag_wco_change (record e {
            g = record (e.g) {
              coord_system = e.checked.coord_system;
              modal = record (e.g.modal) { coord_select = m.coord_select };
            };
          }) in
        set_modal (λ (k : Modal). record k { distance = m.distance }) e1
