-- ===== src/Gcode/Check/Block.antt =====
-- STEP 3 of gcode.c as a whole, with the check for unused words, and the check of a jog command at
-- the start of STEP 4.
use grbl_mega_plasma.Prelude.{
  ℕ, zero, suc, Bool, true, false, not, ◌||◌, ◌&&◌, ◌==◌, Option, if◌then◌else◌,
}
use grbl_mega_plasma.Floats.{Floats}
use grbl_mega_plasma.Planner.{Axes}
use grbl_mega_plasma.Gcode.{Status, Result, ok, AxisCommand, Bits}
use grbl_mega_plasma.Gcode.Word.{Parser, FloatOps}
use grbl_mega_plasma.Gcode.Check.{GcState, Checked, and_then, reject_if, use_word, check_setup}
use grbl_mega_plasma.Gcode.Check.NonModal.{check_non_modal}
use grbl_mega_plasma.Gcode.Check.Motion.{check_motion}

-- Whether one of the first `n` bits is set.
unfoldable pub any_below : ℕ → Bits → Bool
any_below zero b = false
any_below (suc n) b = b n || any_below n b

abbrev pub has_command : AxisCommand → Bool
has_command AxisCommand.no_axis_command = false
has_command _ = true

module _ {F : Type 0} where
  -- The words that are always used: N and F, and S and T but in a jog, and those of the axes with an
  -- axis command.
  unfoldable pub use_single_words : Bool → Checked F → Checked F
  unfolding use_word
  use_single_words jog s =
      let s1 = use_word 5 (use_word 0 s) in if jog then s1 else use_word 8 (use_word 9 s1)

  unfoldable pub use_axis_words : Checked F → Checked F
  unfolding use_word
  use_axis_words s =
      if has_command s.parser.block.axis_command
      then use_word 10 (use_word 11 (use_word 12 s))
      else s

  unfoldable pub check_unused : Bool → Checked F → Result (Checked F)
  check_unused jog s =
      let s1 = use_axis_words (use_single_words jog s) in
      reject_if (any_below 13 s1.parser.block.value_words) Status.gcode_unused_words s1

  -- The commands that a jog may have: those of the groups G3, G6 and G0.
  unfoldable pub check_jog : Checked F → Result (Checked F)
  check_jog s =
      let b = s.parser.block in
      let others : Bits = λ i. b.command_words i && not (i == 3 || i == 6 || i == 0) in
      reject_if (any_below 14 others || not (b.non_modal_command == 53 || b.non_modal_command == 0))
        Status.invalid_jog_command s

  -- The local variables before the checks.
  abbrev pub begin : GcState F → Parser F → Checked F
  begin g p = record {
    parser = p;
    coord_select = 0;
    coord_system = g.coord_system;
    arc_is_clockwise = false;
    probe_is_no_error = false;
    probe_is_away = false;
  }

  -- STEP 3, and the check of a jog that follows it.
  unfoldable pub check_block :
      Floats F
      → FloatOps F
      → (ℕ → Option (Axes F))
      → Bool
      → GcState F
      → Parser F
      → Result (Checked F)
  check_block ops to read jog g p =
      and_then (check_setup ops read jog g (begin g p)) (λ (a : Checked F).
        and_then (check_non_modal ops to read g a) (λ (b : Checked F).
          and_then (check_motion ops g b) (λ (c : Checked F).
            and_then (check_unused jog c) (λ (d : Checked F). if jog then check_jog d else ok d))))
