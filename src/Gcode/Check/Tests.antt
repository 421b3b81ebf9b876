-- ===== src/Gcode/Check/Tests.antt =====
-- The laws of STEP 3 of gcode.c on concrete blocks. A number is given in thousandths.
use grbl_mega_plasma.Prelude.{ℕ, ◌<◌, ◌≡◌, refl, true, false, ◌==◌, ◌||◌, Option, none, ◌⊎◌, arith}
use grbl_mega_plasma.Fixtures.{fixed_ops}
use grbl_mega_plasma.Planner.{Axes}
use grbl_mega_plasma.Gcode.{Result, fail, ok}
use grbl_mega_plasma.Gcode.Word.{Parser}
use grbl_mega_plasma.Gcode.Tests.{test_ops, empty_parser}
use grbl_mega_plasma.Gcode.Check.{
  GcState, Checked, and_then, reject_if, use_word, is_motion, set_axis_command, check_setup,
  implicit_motion, keep_spindle_speed, convert_axes, check_line_number, check_feed, check_dwell,
  check_tool_offset, check_coord_system, convert_feed, keep_feed,
}
use grbl_mega_plasma.Gcode.Check.NonModal.{check_non_modal, check_rest, set_target, position_of}
use grbl_mega_plasma.Gcode.Check.Motion.{is_zero, check_line, check_fed, check_motion}
use grbl_mega_plasma.Gcode.Check.Block.{
  any_below, use_single_words, use_axis_words, check_unused, check_jog, check_block, begin,
}
use grbl_mega_plasma.Gcode.Check.Jog.{jog_words}
use grbl_mega_plasma.Gcode.Check.Fed.{accepted-IsFed}

abbrev origin : Axes ℕ
origin = record { x = 0; y = 0; z = 0 }

abbrev pub at_rest : GcState ℕ
at_rest = record {
  modal = empty_parser.block.modal;
  spindle_speed = 0;
  feed_rate = 0;
  position = origin;
  coord_system = origin;
  coord_offset = origin;
  tool_length_offset = 0;
  line_number = 0;
  tool = 0;
}

abbrev nothing_stored : ℕ → Option (Axes ℕ)
nothing_stored n = none

-- `G91 X10 F100`
abbrev jog_line : Parser ℕ
jog_line = record empty_parser {
  block = record (empty_parser.block) {
    command_words = λ i. i == 3;
    value_words = λ i. i == 0 || i == 10;
    axis_words = λ i. i == 0;
    modal = record (empty_parser.block.modal) { distance = 1 };
  };
  values = record (empty_parser.values) { f = 100000; x = 10000 };
}

-- `G1 X10 F100`
abbrev pub feed_line : Parser ℕ
feed_line = record jog_line {
  block = record (jog_line.block) {
    command_words = λ i. i == 1;
    modal = record (empty_parser.block.modal) { motion = 1 };
  };
}

abbrev checked_or : Checked ℕ → Result (Checked ℕ) → Checked ℕ
checked_or d (fail e) = d
checked_or d (ok t) = t

abbrev jogged : Checked ℕ
jogged =
    checked_or (begin at_rest jog_line)
      (check_block fixed_ops test_ops nothing_stored true at_rest jog_line)

abbrev fed : Checked ℕ
fed =
    checked_or (begin at_rest feed_line)
      (check_block fixed_ops test_ops nothing_stored false at_rest feed_line)

jogged_lem : check_block fixed_ops test_ops nothing_stored true at_rest jog_line ≡ ok jogged
unfolding check_block and_then check_setup check_line_number reject_if implicit_motion
    set_axis_command check_feed keep_feed convert_feed keep_spindle_speed check_dwell convert_axes
    check_tool_offset check_coord_system check_non_modal check_rest set_target position_of
    check_motion check_fed check_line check_unused use_single_words use_axis_words use_word
    any_below check_jog
jogged_lem = refl

fed_lem : check_block fixed_ops test_ops nothing_stored false at_rest feed_line ≡ ok fed
unfolding check_block and_then check_setup check_line_number reject_if implicit_motion
    set_axis_command check_feed keep_feed convert_feed keep_spindle_speed check_dwell convert_axes
    check_tool_offset check_coord_system check_non_modal check_rest set_target position_of
    check_motion check_fed check_line check_unused use_single_words use_axis_words use_word
    any_below check_jog
fed_lem = refl

jog_words_example :
    (jog_line.block.value_words 0 ≡ true)
    × (jog_line.block.value_words 8 ≡ false)
    × (jog_line.block.value_words 9 ≡ false)
    × ((i : ℕ) → i < 14 → jog_line.block.command_words i ≡ true → (i ≡ 3) ⊎ (i ≡ 6) ⊎ (i ≡ 0))
jog_words_example = jog_words fixed_ops test_ops nothing_stored at_rest jog_line jogged jogged_lem

fed_motion : (is_motion fed.parser.block.axis_command ≡ true) × (fed.parser.block.modal.motion ≡ 1)
unfolding check_block and_then check_setup check_line_number reject_if implicit_motion
    set_axis_command check_feed keep_feed convert_feed keep_spindle_speed check_dwell convert_axes
    check_tool_offset check_coord_system check_non_modal check_rest set_target position_of
    check_motion check_fed check_line check_unused use_single_words use_axis_words use_word
    any_below check_jog
fed_motion = (refl, refl)

accepted-IsFed_example : is_zero fixed_ops fed.parser.values.f ≡ false
accepted-IsFed_example =
    accepted-IsFed fixed_ops test_ops nothing_stored false at_rest feed_line fed fed_lem
      fed_motion.0 (λ e. absurd (omega (arith, fed_motion.1)))
      (λ e. absurd (omega (arith, fed_motion.1)))
