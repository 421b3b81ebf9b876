-- ===== src/Gcode/Command.antt =====
-- The G and M words: the two `switch` statements on `int_value`.
pub mod Groups
use grbl_mega_plasma.Prelude.{
  ℕ, ◌+◌, ◌-◌, ◌/◌, Bool, true, false, not, ◌||◌, ◌&&◌, ◌==◌, leb, ltb, List, ◌∷◌, if◌then◌else◌,
  u8,
}
use grbl_mega_plasma.Gcode.{
  Status, Result, fail, ok, AxisCommand, Modal, Block, set_bit, gcode_axis_command_conflict,
  gcode_unsupported_command, gcode_command_value_not_integer, gcode_modal_group_violation,
  gcode_pin_locked, expected_command_letter, invalid_statement,
}

-- The cases of the `switch` on a G word's integer part.
pub data GCase : Type 0 where
  axis_non_modal other_non_modal axis_motion cancel_motion plane distance feed_mode units : GCase
  cutter tool_length coordinates control unsupported : GCase

unfoldable pub g_case : ℕ → GCase
g_case n =
    if n == 10 || (n == 28 || (n == 30 || n == 92))
    then axis_non_modal
    else if n == 4 || n == 53
    then other_non_modal
    else if leb n 3 || n == 38
    then axis_motion
    else if n == 80
    then cancel_motion
    else if n == 17 || (n == 18 || n == 19)
    then plane
    else if n == 90 || n == 91
    then distance
    else if n == 93 || n == 94
    then feed_mode
    else if n == 20 || n == 21
    then units
    else if n == 40
    then cutter
    else if n == 43 || n == 49
    then tool_length
    else if leb 54 n && leb n 59
    then coordinates
    else if n == 61
    then control
    else unsupported

abbrev pub is_free : AxisCommand → Bool
is_free AxisCommand.no_axis_command = true
is_free _ = false

-- `if (axis_command) { FAIL } axis_command = c`
unfoldable pub claim_axis : AxisCommand → Block → Result Block
claim_axis c b =
    if is_free b.axis_command
    then ok (record b { axis_command = c })
    else fail gcode_axis_command_conflict

-- The code under `case 4: case 53:`, with the mantissa that it leaves.
unfoldable pub g_non_modal : ℕ → ℕ → Block → Result (Block × ℕ)
g_non_modal n mantissa b =
    let b1 = record b { word_bit = 0; non_modal_command = n } in
    if n == 28 || (n == 30 || n == 92)
    then if not (mantissa == 0 || mantissa == 10)
      then fail gcode_unsupported_command
      else ok (record b1 { non_modal_command = u8 (n + mantissa) }, 0)
    else ok (b1, mantissa)

-- The code under `case 80:`.
unfoldable pub g_motion : ℕ → ℕ → Block → Result (Block × ℕ)
g_motion n mantissa b =
    let b1 = record b { word_bit = 1; modal = record (b.modal) { motion = n } } in
    if n == 38
    then if not (mantissa == 20 || (mantissa == 30 || (mantissa == 40 || mantissa == 50)))
      then fail gcode_unsupported_command
      else ok
          (record b1 { modal = record (b1.modal) { motion = u8 (n + (mantissa / 10 + 100)) } }, 0)
    else ok (b1, mantissa)

unfoldable pub g_distance : ℕ → ℕ → Block → Result (Block × ℕ)
g_distance n mantissa b =
    if mantissa == 0
    then ok (record b { word_bit = 3; modal = record (b.modal) { distance = n - 90 } }, mantissa)
    else if not (mantissa == 10) || n == 90
    then fail gcode_unsupported_command
    else ok (record b { word_bit = 4 }, 0)

unfoldable pub g_tool_length : ℕ → ℕ → Block → Result (Block × ℕ)
unfolding claim_axis
g_tool_length n mantissa b =
    elim (claim_axis AxisCommand.tool_length_offset (record b { word_bit = 8 })) [
      | fail s ↦ fail s
      | ok b1 ↦
          if n == 49
          then ok (record b1 { modal = record (b1.modal) { tool_length = 0 } }, 0)
          else if mantissa == 10
          then ok (record b1 { modal = record (b1.modal) { tool_length = 1 } }, 0)
          else fail gcode_unsupported_command
    ]

-- The code of a case, with the mantissa that it leaves.
unfoldable pub g_switch : GCase → ℕ → ℕ → Block → Result (Block × ℕ)
unfolding claim_axis
g_switch axis_non_modal n mantissa b =
    if mantissa == 0
    then elim (claim_axis AxisCommand.non_modal b) [
      | fail s ↦ fail s
      | ok b1 ↦ g_non_modal n mantissa b1
    ]
    else g_non_modal n mantissa b
g_switch other_non_modal n mantissa b = g_non_modal n mantissa b
g_switch axis_motion n mantissa b = elim (claim_axis AxisCommand.motion_mode b) [
  | fail s ↦ fail s
  | ok b1 ↦ g_motion n mantissa b1
]
g_switch cancel_motion n mantissa b = g_motion n mantissa b
g_switch plane n mantissa b =
    ok (record b { word_bit = 2; modal = record (b.modal) { plane_select = n - 17 } }, mantissa)
g_switch distance n mantissa b = g_distance n mantissa b
g_switch feed_mode n mantissa b =
    ok (record b { word_bit = 5; modal = record (b.modal) { feed_rate = 94 - n } }, mantissa)
g_switch units n mantissa b =
    ok (record b { word_bit = 6; modal = record (b.modal) { units = 21 - n } }, mantissa)
g_switch cutter n mantissa b = ok (record b { word_bit = 7 }, mantissa)
g_switch tool_length n mantissa b = g_tool_length n mantissa b
g_switch coordinates n mantissa b =
    ok (record b { word_bit = 9; modal = record (b.modal) { coord_select = n - 54 } }, mantissa)
g_switch control n mantissa b =
    if not (mantissa == 0)
    then fail gcode_unsupported_command
    else ok (record b { word_bit = 10 }, mantissa)
g_switch unsupported n mantissa b = fail gcode_unsupported_command

-- `if bit_istrue(command_words,bit(word_bit)) { FAIL }  command_words |= bit(word_bit)`
unfoldable pub mark_command : Block → Result Block
mark_command b =
    if b.command_words b.word_bit
    then fail gcode_modal_group_violation
    else ok (record b { command_words = set_bit b.word_bit b.command_words })

unfoldable pub g_word : ℕ → ℕ → Block → Result Block
unfolding mark_command
g_word n mantissa b = elim (g_switch (g_case n) n mantissa b) [
  | fail s ↦ fail s
  | ok (b1, left) ↦ if ltb 0 left then fail gcode_command_value_not_integer else mark_command b1
]

-- The cases of the `switch` on an M word.
pub data MCase : Type 0 where
  program_flow spindle coolant : MCase
  stepper_enable stepper_disable pin pwm wait_async wait_sync : MCase
  alarms_on alarms_off ignored restore unsupported : MCase

unfoldable pub m_case : ℕ → MCase
m_case n =
    if leb n 2 || n == 30
    then program_flow
    else if leb 3 n && leb n 5
    then spindle
    else if leb 7 n && leb n 9
    then coolant
    else if n == 17
    then stepper_enable
    else if n == 18
    then stepper_disable
    else if n == 42
    then pin
    else if n == 219
    then pwm
    else if n == 226
    then wait_async
    else if n == 227
    then wait_sync
    else if n == 229
    then alarms_on
    else if n == 230
    then alarms_off
    else if n == 231 || n == 232
    then ignored
    else if n == 233
    then restore
    else MCase.unsupported

-- A routine is called on the line.
abbrev pub calls : ℕ → Block → Block
calls n b = record b { external = n ∷ b.external }

-- The routine's result: 2 for a blocked pin, 1 for a bad format, which `bad` reports.
unfoldable pub checked : ℕ → Status → Block → Result Block
checked result bad b =
    if result == 2 then fail gcode_pin_locked else if result == 1 then fail bad else ok b

-- SPINDLE_ENABLE_CW and SPINDLE_ENABLE_CCW are the planner's condition bits 4 and 5.
unfoldable pub m_spindle : ℕ → ℕ
m_spindle n = if n == 3 then 16 else if n == 4 then 32 else 0

unfoldable pub m_coolant : ℕ → Modal → Modal
m_coolant n o =
    if n == 7
    then record o { mist = true }
    else if n == 8
    then record o { flood = true }
    else record o { mist = false; flood = false }

-- M1 is ignored, M0 pauses, and the others are stored as they are.
unfoldable pub m_flow : ℕ → Modal → Modal
m_flow n o = if n == 1 then o else record o { program_flow = if n == 0 then 3 else n }

-- `outcome n` is what the routine of Mn returns for this line.
unfoldable pub m_switch : (ℕ → ℕ) → MCase → ℕ → Block → Result Block
unfolding checked m_spindle m_coolant m_flow
m_switch outcome program_flow n b = ok (record b { word_bit = 11; modal = m_flow n b.modal })
m_switch outcome spindle n b =
    ok (record b { word_bit = 12; modal = record (b.modal) { spindle = m_spindle n } })
m_switch outcome coolant n b = ok (record b { word_bit = 13; modal = m_coolant n b.modal })
m_switch outcome pin n b = checked (outcome n) expected_command_letter (calls n b)
m_switch outcome pwm n b = checked (outcome n) expected_command_letter (calls n b)
m_switch outcome wait_async n b = checked (outcome n) invalid_statement (calls n b)
m_switch outcome wait_sync n b = checked (outcome n) invalid_statement (calls n b)
m_switch outcome ignored n b = ok b
m_switch outcome MCase.unsupported n b = fail gcode_unsupported_command
m_switch outcome _ n b = ok (calls n b)

unfoldable pub m_word : (ℕ → ℕ) → ℕ → ℕ → Block → Result Block
unfolding mark_command
m_word outcome n mantissa b =
    if ltb 0 mantissa
    then fail gcode_command_value_not_integer
    else elim (m_switch outcome (m_case n) n b) [ fail s ↦ fail s | ok b1 ↦ mark_command b1 ]
