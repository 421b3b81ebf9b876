-- ===== src/Gcode/Check/NonModal.antt =====
-- STEP 3 of gcode.c, the non-modal commands: G10, G92, the target position, G28, G30 and G53. The
-- tool length offset belongs to the Z axis.
use grbl_mega_plasma.Prelude.{ℕ, ◌-◌, not, ◌||◌, ◌&&◌, ◌==◌, ltb, Option, none, some, if◌then◌else◌}
use grbl_mega_plasma.Floats.{Floats}
use grbl_mega_plasma.Planner.{Axes}
use grbl_mega_plasma.Planner.Line.{over₂}
use grbl_mega_plasma.Gcode.{Status, Result, fail, ok, AxisCommand}
use grbl_mega_plasma.Gcode.Word.{FloatOps}
use grbl_mega_plasma.Gcode.Check.{
  GcState, Checked, and_then, reject_if, any_axis, is_tool_offset, on_values, has_word, use_word,
  set_axis_command,
}
use grbl_mega_plasma.Gcode.Check.Axis.{xyz, with_xyz, with_ijk, by_word}

module _ {F : Type 0} (ops : Floats F) (to : FloatOps F) where
  -- With the tool length offset taken from the Z axis, or added to it.
  abbrev less_tool : GcState F → Axes F → Axes F
  less_tool g a = record a { z = ops.sub a.z g.tool_length_offset }

  abbrev plus_tool : GcState F → Axes F → Axes F
  plus_tool g a = record a { z = ops.add a.z g.tool_length_offset }

  -- The checks of `G10`.
  unfoldable pub check_coordinate_data : Checked F → Result (Checked F)
  check_coordinate_data s =
      let v = s.parser.values in
      if not (any_axis s.parser.block.axis_words)
      then fail Status.gcode_no_axis_words
      else if not (has_word 6 s || has_word 4 s)
      then fail Status.gcode_value_word_missing
      else if ltb 6 (to.trunc v.p)
      then fail Status.gcode_unsupported_coord_sys
      else if v.l == 20
      then ok s
      else if v.l == 2
      then reject_if (has_word 7 s) Status.gcode_unsupported_command s
      else fail Status.gcode_unsupported_command

  -- The coordinate system that `G10` changes.
  unfoldable pub selected_system : Checked F → ℕ
  selected_system s =
      let p = to.trunc s.parser.values.p in
      if ltb 0 p then p - 1 else s.parser.block.modal.coord_select

  -- The coordinates that `G10` stores, in place of `IJK`.
  unfoldable pub coordinate_data : GcState F → Checked F → Axes F → Axes F
  coordinate_data g s stored =
      let v = s.parser.values in
      let here = less_tool g (over₂ ops.sub (over₂ ops.sub g.position g.coord_offset) (xyz v)) in
      by_word s.parser.block.axis_words (if v.l == 20 then here else xyz v) stored

  unfoldable pub set_coordinate_data :
      (ℕ → Option (Axes F)) → GcState F → Checked F → Result (Checked F)
  set_coordinate_data read g s = and_then (check_coordinate_data s) (λ (a : Checked F).
      elim (read (selected_system a)) [
        | none ↦ fail Status.setting_read_fail
        | some stored ↦
            ok
              (record (on_values (with_ijk (coordinate_data g a stored))
                (use_word 4 (use_word 6 a))) { coord_select = selected_system a })
      ])

  -- `G92`: the new offsets, in place of `XYZ`.
  unfoldable pub set_coordinate_offset : GcState F → Checked F → Result (Checked F)
  set_coordinate_offset g s =
      let w = s.parser.block.axis_words in
      let offset =
        less_tool g
          (over₂ ops.sub (over₂ ops.sub g.position s.coord_system) (xyz s.parser.values)) in
      reject_if (not (any_axis w)) Status.gcode_no_axis_words
        (on_values (with_xyz (by_word w offset g.coord_offset)) s)

  -- The value of a word as a position.
  unfoldable pub position_of : GcState F → Checked F → Axes F
  position_of g s =
      let b = s.parser.block in
      let a = xyz s.parser.values in
      if b.non_modal_command == 53
      then a
      else if b.modal.distance == 0
      then plus_tool g (over₂ ops.add a (over₂ ops.add s.coord_system g.coord_offset))
      else over₂ ops.add a g.position

  unfoldable pub set_target : GcState F → Checked F → Checked F
  set_target g s =
      let w = s.parser.block.axis_words in
      if is_tool_offset s.parser.block.axis_command || not (any_axis w)
      then s
      else on_values (with_xyz (by_word w (position_of g s) g.position)) s

  -- `G28` and `G30`, from the position stored at `index`.
  unfoldable pub go_home : (ℕ → Option (Axes F)) → ℕ → GcState F → Checked F → Result (Checked F)
  go_home read index g s =
      let w = s.parser.block.axis_words in
      elim (read index) [
        | none ↦ fail Status.setting_read_fail
        | some home ↦
            if any_axis w
            then ok (on_values (with_ijk (by_word w home g.position)) s)
            else ok (set_axis_command AxisCommand.no_axis_command (on_values (with_ijk home) s))
      ]

  -- `SETTING_INDEX_G28` and `SETTING_INDEX_G30`
  unfoldable pub check_rest : (ℕ → Option (Axes F)) → GcState F → Checked F → Result (Checked F)
  check_rest read g s =
      let n = s.parser.block.non_modal_command in
      let motion = s.parser.block.modal.motion in
      let home28 = go_home read 6 g s in
      let home30 = go_home read 7 g s in
      if n == 28
      then home28
      else if n == 30
      then home30
      else reject_if (n == 53 && not (motion == 0 || motion == 1))
          Status.gcode_g53_invalid_motion_mode s

  unfoldable pub check_non_modal :
      (ℕ → Option (Axes F)) → GcState F → Checked F → Result (Checked F)
  check_non_modal read g s =
      let n = s.parser.block.non_modal_command in
      if n == 10
      then set_coordinate_data read g s
      else if n == 92
      then set_coordinate_offset g s
      else check_rest read g (set_target g s)
