-- ===== src/Gcode/Check/Kept.antt =====
-- What the checks of STEP 3 of gcode.c keep of a block: its commands and modes, and its S and T words.
use grbl_mega_plasma.Prelude.{ℕ, ◌≡◌, refl, ◌∙◌, Bool, if_cases, Option, arith}
use grbl_mega_plasma.Floats.{Floats}
use grbl_mega_plasma.Planner.{Axes}
use grbl_mega_plasma.Gcode.{Result, AxisCommand}
use grbl_mega_plasma.Gcode.Check.{
  GcState, Checked, and_then, reject_if, use_word, set_axis_command, implicit_motion,
  check_line_number, convert_feed, check_inverse_time, keep_feed, check_feed, keep_spindle_speed,
  check_dwell, convert_axes, check_tool_offset, check_coord_system, any_axis,
}
use grbl_mega_plasma.Gcode.Check.Accepts.{Accepts, Accepts-reject_if, Accepts-and_then}

module _ {F : Type 0} where
  pub record Kept (s t : Checked F) : Type 0 where
    pub modal_lem : t.parser.block.modal ≡ s.parser.block.modal
    pub command_lem : t.parser.block.command_words ≡ s.parser.block.command_words
    pub s_word_lem : t.parser.block.value_words 8 ≡ s.parser.block.value_words 8
    pub t_word_lem : t.parser.block.value_words 9 ≡ s.parser.block.value_words 9

  pub Kept-refl : (s : Checked F) → Kept s s
  Kept-refl s = record {
    modal_lem = refl;
    command_lem = refl;
    s_word_lem = refl;
    t_word_lem = refl;
  }

  pub Kept-trans : {r s t : Checked F} → Kept r s → Kept s t → Kept r t
  Kept-trans h k = record {
    modal_lem = k.modal_lem ∙ h.modal_lem;
    command_lem = k.command_lem ∙ h.command_lem;
    s_word_lem = k.s_word_lem ∙ h.s_word_lem;
    t_word_lem = k.t_word_lem ∙ h.t_word_lem;
  }

  -- Two checks in a row.
  pub Kept-then :
      (s : Checked F) (r : Result (Checked F)) (k : Checked F → Result (Checked F))
      → Accepts (Kept s) r
      → ((t : Checked F) → Accepts (Kept t) (k t))
      → Accepts (Kept s) (and_then r k)
  Kept-then s r k h g =
      Accepts-and_then (Kept s) (Kept s) r k h (λ t kept u e. Kept-trans kept (g t u e))

  pub implicit-Kept : (s : Checked F) → Kept s (implicit_motion s)
  unfolding implicit_motion set_axis_command
  implicit-Kept s =
      if_cases (Kept s) (any_axis s.parser.block.axis_words) _ s
        (λ h. go s.parser.block.axis_command) (λ h. Kept-refl s)
    where
      go :
          (c : AxisCommand)
          → Kept s (elim c [
            | AxisCommand.no_axis_command ↦ set_axis_command AxisCommand.motion_mode s
            | _ ↦ s
          ])
      go AxisCommand.no_axis_command = record {
        modal_lem = refl;
        command_lem = refl;
        s_word_lem = refl;
        t_word_lem = refl;
      }
      go AxisCommand.non_modal = Kept-refl s
      go AxisCommand.motion_mode = Kept-refl s
      go AxisCommand.tool_length_offset = Kept-refl s

  module _ (ops : Floats F) where
    convert_feed-Kept : (s : Checked F) → Kept s (convert_feed ops s)
    unfolding convert_feed
    convert_feed-Kept s = ground arith

    keep_feed-Kept : (g : GcState F) (s : Checked F) → Kept s (keep_feed ops g s)
    unfolding keep_feed
    keep_feed-Kept g s = ground (arith, convert_feed-Kept s, Kept-refl s)

    pub convert_axes-Kept : (s : Checked F) → Kept s (convert_axes ops s)
    unfolding convert_axes
    convert_axes-Kept s = ground arith

    pub keep_spindle_speed-Kept :
        (g : GcState F) (s : Checked F) → Kept s (keep_spindle_speed ops g s)
    unfolding keep_spindle_speed
    keep_spindle_speed-Kept g s = ground arith

    pub check_feed-Kept :
        (jog : Bool) (g : GcState F) (s : Checked F) → Accepts (Kept s) (check_feed ops jog g s)
    unfolding check_feed check_inverse_time reject_if
    check_feed-Kept jog g s =
        λ t e. ground (arith, convert_feed-Kept s, keep_feed-Kept g s, Kept-refl s)

    pub check_dwell-Kept : (s : Checked F) → Accepts (Kept s) (check_dwell ops s)
    unfolding check_dwell use_word
    check_dwell-Kept s = λ t e. ground arith

    pub check_tool_offset-Kept : (s : Checked F) → Accepts (Kept s) (check_tool_offset ops s)
    unfolding check_tool_offset
    check_tool_offset-Kept s = Accepts-reject_if (Kept s) _ _ s (λ h. Kept-refl s)

    pub check_line_number-Kept : (s : Checked F) → Accepts (Kept s) (check_line_number s)
    unfolding check_line_number
    check_line_number-Kept s = Accepts-reject_if (Kept s) _ _ s (λ h. Kept-refl s)

    pub check_coord_system-Kept :
        (read : ℕ → Option (Axes F)) (g : GcState F) (s : Checked F)
        → Accepts (Kept s) (check_coord_system ops read g s)
    unfolding check_coord_system
    check_coord_system-Kept read g s = λ t e. ground arith
