-- ===== src/Gcode/Check/Later.antt =====
-- What the later checks of STEP 3 of gcode.c keep: those of the non-modal commands, of the motion
-- modes and of unused words.
use grbl_mega_plasma.Prelude.{ℕ, true, ◌==◌, if◌then◌else◌, if_cases, Option, arith}
use grbl_mega_plasma.Floats.{Floats}
use grbl_mega_plasma.Planner.{Axes}
use grbl_mega_plasma.Gcode.Word.{FloatOps}
use grbl_mega_plasma.Gcode.Check.{GcState, Checked, reject_if, use_word, set_axis_command}
use grbl_mega_plasma.Gcode.Check.NonModal.{
  check_coordinate_data, set_coordinate_data, set_coordinate_offset, set_target, go_home,
  check_rest, check_non_modal,
}
use grbl_mega_plasma.Gcode.Check.Motion.{
  radius_arc, offset_arc, check_arc, check_probe, check_line, check_fed, check_motion,
}
use grbl_mega_plasma.Gcode.Check.Accepts.{Accepts}
use grbl_mega_plasma.Gcode.Check.Kept.{Kept, Kept-refl, Kept-trans, Kept-then}

module _ {F : Type 0} (ops : Floats F) (to : FloatOps F) where
  pub check_coordinate_data-Kept :
      (s : Checked F) → Accepts (Kept s) (check_coordinate_data ops to s)
  unfolding check_coordinate_data reject_if
  check_coordinate_data-Kept s = λ t e. ground (arith, Kept-refl s)

  set_coordinate_data-Kept :
      (read : ℕ → Option (Axes F)) (g : GcState F) (s : Checked F)
      → Accepts (Kept s) (set_coordinate_data ops to read g s)
  unfolding set_coordinate_data use_word
  set_coordinate_data-Kept read g s =
      Kept-then s (check_coordinate_data ops to s) _ (check_coordinate_data-Kept s)
        (λ t. λ u e. ground arith)

  set_coordinate_offset-Kept :
      (g : GcState F) (s : Checked F) → Accepts (Kept s) (set_coordinate_offset ops to g s)
  unfolding set_coordinate_offset reject_if
  set_coordinate_offset-Kept g s = λ t e. ground arith

  set_target-Kept : (g : GcState F) (s : Checked F) → Kept s (set_target ops to g s)
  unfolding set_target
  set_target-Kept g s = ground arith

  go_home-Kept :
      (read : ℕ → Option (Axes F)) (index : ℕ) (g : GcState F) (s : Checked F)
      → Accepts (Kept s) (go_home ops to read index g s)
  unfolding go_home set_axis_command
  go_home-Kept read index g s = λ t e. ground arith

  pub check_rest-Kept :
      (read : ℕ → Option (Axes F)) (g : GcState F) (s : Checked F)
      → Accepts (Kept s) (check_rest ops to read g s)
  unfolding check_rest reject_if
  check_rest-Kept read g s =
      λ t e. ground (arith, go_home-Kept read 6 g s t, go_home-Kept read 7 g s t, Kept-refl s)

  pub check_non_modal-Kept :
      (read : ℕ → Option (Axes F)) (g : GcState F) (s : Checked F)
      → Accepts (Kept s) (check_non_modal ops to read g s)
  unfolding check_non_modal
  check_non_modal-Kept read g s =
      let n = s.parser.block.non_modal_command in
      let r = check_rest ops to read g (set_target ops to g s) in
      let o = set_coordinate_offset ops to g s in
      let d = set_coordinate_data ops to read g s in
      if_cases (Accepts (Kept s)) (n == 10) d (if n == 92 then o else r)
        (λ h. set_coordinate_data-Kept read g s)
        (λ h.
          if_cases (Accepts (Kept s)) (n == 92) o r (λ k. set_coordinate_offset-Kept g s)
            (λ k t e.
              Kept-trans (set_target-Kept g s)
                (check_rest-Kept read g (set_target ops to g s) t e)))

  pub check_line-Kept : (s : Checked F) → Kept s (check_line ops s)
  unfolding check_line set_axis_command
  check_line-Kept s = ground arith

  radius_arc-Kept : (g : GcState F) (s : Checked F) → Accepts (Kept s) (radius_arc ops g s)
  unfolding radius_arc use_word
  radius_arc-Kept g s = λ t e. ground arith

  offset_arc-Kept : (g : GcState F) (s : Checked F) → Accepts (Kept s) (offset_arc ops g s)
  unfolding offset_arc use_word reject_if
  offset_arc-Kept g s = λ t e. ground arith

  pub check_arc-Kept : (g : GcState F) (s : Checked F) → Accepts (Kept s) (check_arc ops g s)
  unfolding check_arc
  check_arc-Kept g s = λ t e.
      let s1 =
        if s.parser.block.modal.motion == 2 then record s { arc_is_clockwise = true } else s in
      let flagged : Kept s s1 = ground (arith, Kept-refl s) in
      Kept-trans flagged (ground (arith, radius_arc-Kept g s1 t, offset_arc-Kept g s1 t))

  pub check_probe-Kept : (g : GcState F) (s : Checked F) → Accepts (Kept s) (check_probe ops g s)
  unfolding check_probe reject_if
  check_probe-Kept g s = λ t e. ground arith

  pub check_fed-Kept : (g : GcState F) (s : Checked F) → Accepts (Kept s) (check_fed ops g s)
  unfolding check_fed
  check_fed-Kept g s = λ t e.
      ground (arith, check_line-Kept s, check_arc-Kept g s t, check_probe-Kept g s t, Kept-refl s)

  pub check_motion-Kept : (g : GcState F) (s : Checked F) → Accepts (Kept s) (check_motion ops g s)
  unfolding check_motion reject_if
  check_motion-Kept g s =
      λ t e. ground (arith, check_line-Kept s, check_fed-Kept g s t, Kept-refl s)
