-- ===== src/Gcode/Check/Motion.antt =====
-- STEP 3 of gcode.c, the motion modes: lines, arcs and probing.
use grbl_mega_plasma.Prelude.{ℕ, Bool, true, not, ◌||◌, ◌&&◌, ◌==◌, if◌then◌else◌}
use grbl_mega_plasma.Floats.{Floats}
use grbl_mega_plasma.Planner.{Axes}
use grbl_mega_plasma.Gcode.{Status, Result, fail, ok, AxisCommand}
use grbl_mega_plasma.Gcode.Word.{Values}
use grbl_mega_plasma.Gcode.Check.{
  GcState, Checked, reject_if, any_axis, plane_axes, is_motion, from_inches, in_inches, on_values,
  has_word, use_word, set_axis_command,
}
use grbl_mega_plasma.Gcode.Check.Axis.{xyz, ijk, with_ijk, axis, set_axis, by_word}

module _ {F : Type 0} (ops : Floats F) where
  abbrev pub is_zero : F → Bool
  is_zero v = ops.eq v (ops.literal 0 0)

  -- `hypot_f` of nuts_bolts.c
  unfoldable pub hypot_f : F → F → F
  hypot_f x y = ops.sqrt (ops.add (ops.mul x x) (ops.mul y y))

  -- `isequal_position_vector`, a comparison of memory.
  unfoldable pub isequal_position_vector : Axes F → Axes F → Bool
  isequal_position_vector a b =
      ops.same_bits a.x b.x && (ops.same_bits a.y b.y && ops.same_bits a.z b.z)

  -- The way to the target along an axis of the plane.
  abbrev pub travel : GcState F → Checked F → ℕ → F
  travel g s n = ops.sub (axis n (xyz s.parser.values)) (axis n g.position)

  -- `4*r*r - x*x - y*y`
  unfoldable pub half_chord : F → F → F → F
  half_chord r x y =
      ops.sub (ops.sub (ops.mul (ops.mul (ops.literal 4 0) r) r) (ops.mul x x)) (ops.mul y y)

  -- `h_x2_div_d` with its sign for the direction of the arc and of the radius.
  unfoldable pub center_offset : Bool → F → F → F → F
  center_offset ccw r x y =
      let h = ops.div (ops.neg (ops.sqrt (half_chord r x y))) (hypot_f x y) in
      let h1 = if ccw then ops.neg h else h in if ops.lt r (ops.literal 0 0) then ops.neg h1 else h1

  abbrev half : F → F
  half v = ops.mul (ops.literal 5 1) v

  -- The radius in millimeters.
  abbrev radius_of : Checked F → F
  radius_of s = if in_inches ops s then from_inches ops s.parser.values.r else s.parser.values.r

  -- An arc by its radius: the center goes to `IJK`.
  unfoldable pub radius_arc : GcState F → Checked F → Result (Checked F)
  radius_arc g s =
      let plane = plane_axes s.parser.block.modal.plane_select in
      let x = travel g s plane.0 in
      let y = travel g s plane.1 in
      let r = radius_of s in
      let h = center_offset (s.parser.block.modal.motion == 3) r x y in
      let center =
        set_axis plane.1 (half (ops.add y (ops.mul x h)))
          (set_axis plane.0 (half (ops.sub x (ops.mul y h))) (ijk s.parser.values)) in
      if isequal_position_vector g.position (xyz s.parser.values)
      then fail Status.gcode_invalid_target
      else if ops.lt (half_chord r x y) (ops.literal 0 0)
      then fail Status.gcode_arc_radius_error
      else ok (
          on_values
            (λ (v : Values F). record (with_ijk center v) {
              r = if ops.lt r (ops.literal 0 0) then ops.neg r else r;
            })
            (use_word 7 s))

  -- The two radii of an arc by its center differ too much.
  unfoldable pub radii_differ : F → F → Bool
  radii_differ target r =
      let delta = ops.fabs (ops.sub target r) in
      ops.lt (ops.literal 5 3) delta
      && (ops.lt (ops.literal 5 1) delta || ops.lt (ops.mul (ops.literal 1 3) r) delta)

  -- The `IJK` words in millimeters.
  abbrev center_of : Checked F → Axes F
  center_of s =
      let c = ijk s.parser.values in
      let w = s.parser.block.ijk_words in
      if in_inches ops s
      then by_word w
          (record { x = from_inches ops c.x; y = from_inches ops c.y; z = from_inches ops c.z }) c
      else c

  -- An arc by the offset of its center: the radius goes to `R`.
  unfoldable pub offset_arc : GcState F → Checked F → Result (Checked F)
  offset_arc g s =
      let plane = plane_axes s.parser.block.modal.plane_select in
      let w = s.parser.block.ijk_words in
      let c = center_of s in
      let i = axis plane.0 c in
      let j = axis plane.1 c in
      let target = hypot_f (ops.sub (travel g s plane.0) i) (ops.sub (travel g s plane.1) j) in
      let r = hypot_f i j in
      if not (w plane.0 || w plane.1)
      then fail Status.gcode_no_offsets_in_plane
      else reject_if (radii_differ target r) Status.gcode_invalid_target (
          on_values (λ (v : Values F). record (with_ijk c v) { r = r })
            (use_word 1 (use_word 2 (use_word 3 s))))

  unfoldable pub check_arc : GcState F → Checked F → Result (Checked F)
  check_arc g s =
      let plane = plane_axes s.parser.block.modal.plane_select in
      let w = s.parser.block.axis_words in
      let s1 =
        if s.parser.block.modal.motion == 2 then record s { arc_is_clockwise = true } else s in
      let by_radius = radius_arc g s1 in
      let by_offset = offset_arc g s1 in
      if not (any_axis w)
      then fail Status.gcode_no_axis_words
      else if not (w plane.0 || w plane.1)
      then fail Status.gcode_no_axis_words_in_plane
      else if has_word 7 s1
      then by_radius
      else by_offset

  unfoldable pub check_probe : GcState F → Checked F → Result (Checked F)
  check_probe g s =
      let motion = s.parser.block.modal.motion in
      let s1 = record s {
        probe_is_no_error = s.probe_is_no_error || (motion == 141 || motion == 143);
        probe_is_away = s.probe_is_away || (motion == 142 || motion == 143);
      } in
      if not (any_axis s.parser.block.axis_words)
      then fail Status.gcode_no_axis_words
      else reject_if (isequal_position_vector g.position (xyz s.parser.values))
          Status.gcode_invalid_target s1

  -- Without axis words a line does nothing.
  unfoldable pub check_line : Checked F → Checked F
  check_line s =
      if any_axis s.parser.block.axis_words
      then s
      else set_axis_command AxisCommand.no_axis_command s

  -- The modes with a feed rate: all but `G0` and `G80`.
  unfoldable pub check_fed : GcState F → Checked F → Result (Checked F)
  check_fed g s =
      let motion = s.parser.block.modal.motion in
      let arc = check_arc g s in
      let probe = check_probe g s in
      if is_zero s.parser.values.f
      then fail Status.gcode_undefined_feed_rate
      else if motion == 1
      then ok (check_line s)
      else if motion == 2 || motion == 3
      then arc
      else if motion == 140 || motion == 141 || motion == 142 || motion == 143
      then probe
      else ok s

  unfoldable pub check_motion : GcState F → Checked F → Result (Checked F)
  check_motion g s =
      let motion = s.parser.block.modal.motion in
      let fed = check_fed g s in
      if motion == 80
      then reject_if (any_axis s.parser.block.axis_words) Status.gcode_axis_words_exist s
      else if not (is_motion s.parser.block.axis_command)
      then ok s
      else if motion == 0
      then ok (check_line s)
      else fed
