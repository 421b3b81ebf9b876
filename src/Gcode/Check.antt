-- ===== src/Gcode/Check.antt =====
-- STEP 3 of `gc_execute_line` of gcode.c: the state that it checks a block against, and its checks
-- before the non-modal commands. `settings_read_coord_data` comes as the function `read`.
pub mod Axis
pub mod NonModal
pub mod Motion
pub mod Block
pub mod Accepts
pub mod Kept
pub mod Later
pub mod Jog
pub mod Fed
pub mod Tests
use grbl_mega_plasma.Prelude.{
  ℕ, zero, suc, Bool, true, false, not, ◌||◌, ◌&&◌, ◌==◌, ltb, Option, none, some, if◌then◌else◌,
}
use grbl_mega_plasma.Floats.{Floats}
use grbl_mega_plasma.Planner.{Axes}
use grbl_mega_plasma.Gcode.{Status, Result, fail, ok, AxisCommand, Modal, Bits, set_bit}
use grbl_mega_plasma.Gcode.Word.{Values, Parser, FloatOps}

-- `parser_state_t`
pub record GcState (F : Type 0) : Type 0 where
  pub modal : Modal
  pub spindle_speed : F
  pub feed_rate : F
  pub position : Axes F
  pub coord_system : Axes F
  pub coord_offset : Axes F
  pub tool_length_offset : F
  pub line_number : ℕ
  pub tool : ℕ

-- The parsed block, the `IJK` values as an array, and the local variables of the step.
pub record Checked (F : Type 0) : Type 0 where
  pub parser : Parser F
  pub coord_select : ℕ
  pub coord_system : Axes F
  pub arc_is_clockwise : Bool
  pub probe_is_no_error : Bool
  pub probe_is_away : Bool

-- The rest of the function behind a check that may return.
unfoldable pub and_then {ℓ κ} : {A : Type ℓ} {B : Type κ} → Result A → (A → Result B) → Result B
and_then (fail e) k = fail e
and_then (ok a) k = k a

-- `if (test) { FAIL(status); }`
unfoldable pub reject_if {ℓ} : {A : Type ℓ} → Bool → Status → A → Result A
reject_if b e a = if b then fail e else ok a

-- Whether a word with one of `X`, `Y`, `Z` stands in the block.
abbrev pub any_axis : Bits → Bool
any_axis b = b 0 || b 1 || b 2

abbrev pub clear_bit : ℕ → Bits → Bits
clear_bit n b i = if i == n then false else b i

-- `PLANE_SELECT_*`: `axis_0` and `axis_1`.
unfoldable pub plane_axes : ℕ → (ℕ × ℕ)
plane_axes p = if p == 0 then (0, 1) else if p == 1 then (2, 0) else (1, 2)

abbrev pub is_motion : AxisCommand → Bool
is_motion AxisCommand.motion_mode = true
is_motion _ = false

abbrev pub is_tool_offset : AxisCommand → Bool
is_tool_offset AxisCommand.tool_length_offset = true
is_tool_offset _ = false

module _ {F : Type 0} where
  abbrev pub on_values : (Values F → Values F) → Checked F → Checked F
  on_values f s = record s { parser = record (s.parser) { values = f s.parser.values } }

  abbrev pub has_word : ℕ → Checked F → Bool
  has_word n s = s.parser.block.value_words n

  -- `bit_false(value_words,bit(n))`
  unfoldable pub use_word : ℕ → Checked F → Checked F
  use_word n s = record s {
    parser = record (s.parser) {
      block = record (s.parser.block) { value_words = clear_bit n s.parser.block.value_words };
    };
  }

  unfoldable pub set_axis_command : AxisCommand → Checked F → Checked F
  set_axis_command a s = record s {
    parser = record (s.parser) { block = record (s.parser.block) { axis_command = a } };
  }

  -- The implicit axis command.
  unfoldable pub implicit_motion : Checked F → Checked F
  unfolding set_axis_command
  implicit_motion s =
      if any_axis s.parser.block.axis_words
      then (elim s.parser.block.axis_command [
        | AxisCommand.no_axis_command ↦ set_axis_command AxisCommand.motion_mode s
        | _ ↦ s
      ])
      else s

  -- `MAX_LINE_NUMBER`
  unfoldable pub check_line_number : Checked F → Result (Checked F)
  check_line_number s =
      reject_if (has_word 5 s && ltb 10000000 s.parser.values.n) Status.gcode_invalid_line_number s

  module _ (ops : Floats F) where
    -- `MM_PER_INCH`
    abbrev pub from_inches : F → F
    from_inches v = ops.mul v (ops.literal 254 1)

    abbrev pub in_inches : Checked F → Bool
    in_inches s = s.parser.block.modal.units == 1

    unfoldable pub convert_feed : Checked F → Checked F
    convert_feed s =
        if in_inches s then on_values (λ (v : Values F). record v { f = from_inches v.f }) s else s

    -- In inverse time mode a feed motion needs its own `F` word.
    unfoldable pub check_inverse_time : Checked F → Result (Checked F)
    check_inverse_time s =
        let motion = s.parser.block.modal.motion in
        reject_if
          (is_motion s.parser.block.axis_command
            && (not (motion == 80) && (not (motion == 0) && not (has_word 0 s))))
          Status.gcode_undefined_feed_rate s

    unfoldable pub keep_feed : GcState F → Checked F → Checked F
    keep_feed g s =
        if g.modal.feed_rate == 0
        then (if has_word 0 s
            then convert_feed s
            else on_values (λ (v : Values F). record v { f = g.feed_rate }) s)
        else s

    unfoldable pub check_feed : Bool → GcState F → Checked F → Result (Checked F)
    check_feed jog g s =
        if jog
        then (if has_word 0 s then ok (convert_feed s) else fail Status.gcode_undefined_feed_rate)
        else if s.parser.block.modal.feed_rate == 1
        then check_inverse_time s
        else ok (keep_feed g s)

    unfoldable pub keep_spindle_speed : GcState F → Checked F → Checked F
    keep_spindle_speed g s =
        if has_word 8 s then s else on_values (λ (v : Values F). record v { s = g.spindle_speed }) s

    unfoldable pub check_dwell : Checked F → Result (Checked F)
    check_dwell s =
        if s.parser.block.non_modal_command == 4
        then (if has_word 6 s then ok (use_word 6 s) else fail Status.gcode_value_word_missing)
        else ok s

    unfoldable pub convert_axes : Checked F → Checked F
    convert_axes s =
        let w = s.parser.block.axis_words in
        let convert : Bool → F → F = λ b v. if b then from_inches v else v in
        if in_inches s
        then on_values
            (λ (v : Values F). record v {
              x = convert (w 0) v.x;
              y = convert (w 1) v.y;
              z = convert (w 2) v.z;
            })
            s
        else s

    -- `G43.1` takes a word for `TOOL_LENGTH_OFFSET_AXIS`, the Z axis, and no other.
    unfoldable pub check_tool_offset : Checked F → Result (Checked F)
    check_tool_offset s =
        let w = s.parser.block.axis_words in
        reject_if
          (is_tool_offset s.parser.block.axis_command
            && (s.parser.block.modal.tool_length == 1 && (w 0 || w 1 || not (w 2))))
          Status.gcode_g43_dynamic_axis_error s

    unfoldable pub check_coord_system :
        (ℕ → Option (Axes F)) → GcState F → Checked F → Result (Checked F)
    check_coord_system read g s =
        let select = s.parser.block.modal.coord_select in
        let s1 = record s { coord_system = g.coord_system } in
        if not (s.parser.block.command_words 9)
        then ok s1
        else if ltb 6 select
        then fail Status.gcode_unsupported_coord_sys
        else if g.modal.coord_select == select
        then ok s1
        else (elim (read select) [
          | none ↦ fail Status.setting_read_fail
          | some a ↦ ok (record s1 { coord_system = a })
        ])

    -- The checks up to the choice of the coordinate system, in their order.
    unfoldable pub check_setup :
        (ℕ → Option (Axes F)) → Bool → GcState F → Checked F → Result (Checked F)
    check_setup read jog g s = and_then (check_line_number (implicit_motion s)) (λ (a : Checked F).
        and_then (check_feed jog g a) (λ (b : Checked F).
          and_then (check_dwell (keep_spindle_speed g b)) (λ (c : Checked F).
            and_then (check_tool_offset (convert_axes c)) (check_coord_system read g))))
