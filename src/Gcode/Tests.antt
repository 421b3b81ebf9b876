-- ===== src/Gcode/Tests.antt =====
-- The laws of the word parser on concrete blocks. A number is given in hundredths.
use grbl_mega_plasma.Prelude.{
  ℕ, ◌-◌, ◌*◌, ◌/◌, ◌<◌, ◌≡◌, refl, arith, false, ltb, Option, some, List, [], ◌∷◌, u8,
}
use grbl_mega_plasma.Gcode.{Block, Result, ok, AxisCommand, Bits}
use grbl_mega_plasma.Gcode.Command.{
  g_word, m_word, g_case, g_switch, g_motion, claim_axis, mark_command, m_case, m_switch,
}
use grbl_mega_plasma.Gcode.Word.{
  FloatOps, Parser, letter_case, store_value, value_word, parse_word, parse_words,
}
use grbl_mega_plasma.Gcode.Word.Laws.{Distinct, keys, result_or}
use grbl_mega_plasma.Gcode.Word.Distinct.{accepted-Distinct}

abbrev pub test_ops : FloatOps ℕ
test_ops = record {
  trunc = λ v. u8 (v / 100);
  hundredths = λ v n. v - 100 * n;
  whole = λ v. v / 100;
  is_negative = λ v. false;
  exceeds = λ v n. ltb (n * 100) v;
}

test_ops_bytes : (v : ℕ) → test_ops.trunc v < 256
test_ops_bytes v = omega arith

abbrev pub no_bits : Bits
no_bits i = false

abbrev empty_block : Block
empty_block = record {
  axis_command = AxisCommand.no_axis_command;
  word_bit = 0;
  command_words = no_bits;
  value_words = no_bits;
  axis_words = no_bits;
  ijk_words = no_bits;
  non_modal_command = 0;
  modal = record {
    motion = 0;
    feed_rate = 0;
    units = 0;
    distance = 0;
    plane_select = 0;
    tool_length = 0;
    coord_select = 0;
    program_flow = 0;
    flood = false;
    mist = false;
    spindle = 0;
  };
  external = [];
}

abbrev pub empty_parser : Parser ℕ
empty_parser = record {
  block = empty_block;
  values = record {
    f = 0;
    i = 0;
    j = 0;
    k = 0;
    l = 0;
    n = 0;
    p = 0;
    r = 0;
    s = 0;
    t = 0;
    x = 0;
    y = 0;
    z = 0;
  };
}

abbrev no_outcome : ℕ → ℕ
no_outcome n = 0

-- `G1 X2.5 M3`
abbrev test_words : List (ℕ × Option ℕ)
test_words = (b'G', some 100) ∷ (b'X', some 250) ∷ (b'M', some 300) ∷ []

test_words_accepted :
    parse_words test_ops no_outcome test_words empty_parser
    ≡ ok (result_or empty_parser (parse_words test_ops no_outcome test_words empty_parser))
unfolding parse_words parse_word g_word m_word g_case g_switch g_motion claim_axis mark_command
    m_case m_switch letter_case value_word store_value
test_words_accepted = refl

accepted-Distinct_example : Distinct (keys test_ops test_words)
accepted-Distinct_example =
    accepted-Distinct test_ops no_outcome test_words empty_parser
      (result_or empty_parser (parse_words test_ops no_outcome test_words empty_parser))
      test_ops_bytes test_words_accepted

abbrev or_empty : Result Block → Block
or_empty r = result_or empty_block r

g1_accepted : g_word 1 0 empty_block ≡ ok (or_empty (g_word 1 0 empty_block))
unfolding g_word g_case g_switch g_motion claim_axis mark_command
g1_accepted = refl

-- `G1 M42`: the pin command is not accepted.
