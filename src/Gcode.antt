-- ===== src/Gcode.antt =====
-- gcode.c, STEP 2 of `gc_execute_line`: the words of a block. Types of gcode.h.
-- Floating point numbers are a parameter `F`; what the parser computes from them comes as the
-- functions of a record.
pub mod Command
pub mod Word
pub mod Check
pub mod Execute
mod Tests
use grbl_mega_plasma.Prelude.{ℕ, Bool, List, ◌==◌, if◌then◌else◌}

-- `STATUS_*` of report.h, those of the words and of their checks.
pub data Status : Type 0 where
  expected_command_letter bad_number_format invalid_statement : Status
  gcode_axis_command_conflict gcode_unsupported_command gcode_command_value_not_integer : Status
  gcode_modal_group_violation gcode_word_repeated negative_value : Status
  gcode_max_value_exceeded gcode_pin_locked : Status
  gcode_invalid_line_number gcode_undefined_feed_rate gcode_value_word_missing : Status
  gcode_g43_dynamic_axis_error gcode_unsupported_coord_sys setting_read_fail : Status
  gcode_no_axis_words gcode_axis_words_exist gcode_g53_invalid_motion_mode : Status
  gcode_no_axis_words_in_plane gcode_no_offsets_in_plane gcode_invalid_target : Status
  gcode_arc_radius_error gcode_unused_words invalid_jog_command travel_exceeded : Status

-- `FAIL(status)` returns from the function.
pub data Result {ℓ} (A : Type ℓ) : Type ℓ where
  fail : Status → Result A
  ok : A → Result A

-- `AXIS_COMMAND_*`
pub data AxisCommand : Type 0 where
  no_axis_command non_modal motion_mode tool_length_offset : AxisCommand

-- `gc_modal_t`; `coolant` is the two bits of the byte.
pub record Modal : Type 0 where
  pub motion : ℕ
  pub feed_rate : ℕ
  pub units : ℕ
  pub distance : ℕ
  pub plane_select : ℕ
  pub tool_length : ℕ
  pub coord_select : ℕ
  pub program_flow : ℕ
  pub flood : Bool
  pub mist : Bool
  pub spindle : ℕ

-- A tracking variable, as the function from a bit's index to the bit.
abbrev pub Bits : Type 0
Bits = ℕ → Bool

abbrev pub set_bit : ℕ → Bits → Bits
set_bit n b i = if i == n then Bool.true else b i

-- `gc_block` and the tracking variables of the loop. `external` is the M commands whose routine has
-- been called, newest first.
pub record Block : Type 0 where
  pub axis_command : AxisCommand
  pub word_bit : ℕ
  pub command_words : Bits
  pub value_words : Bits
  pub axis_words : Bits
  pub ijk_words : Bits
  pub non_modal_command : ℕ
  pub modal : Modal
  pub external : List ℕ
