-- ===== src/Gcode/Word.antt =====
-- The words of a block: the body of the loop of STEP 2 and the loop itself. A line is given as its
-- words, each with what `read_float` gives for the text behind the letter.
pub mod Laws
pub mod Distinct
use grbl_mega_plasma.Prelude.{
  ℕ, Bool, true, false, ◌||◌, ◌&&◌, ◌==◌, leb, ltb, Option, none, some, List, [], ◌∷◌,
  if◌then◌else◌,
}
use grbl_mega_plasma.Gcode.{
  Status, Result, fail, ok, Block, Bits, set_bit, gcode_unsupported_command,
  gcode_max_value_exceeded, gcode_word_repeated, negative_value, expected_command_letter,
  bad_number_format,
}
use grbl_mega_plasma.Gcode.Command.{g_word, m_word}

-- What the parser computes from a floating point number: `(uint8_t)trunc(v)`,
-- `(uint16_t)round(100*(v-n))`, `(int32_t)trunc(v)`, `v < 0` and `v > n`.
pub record FloatOps {ℓ} (F : Type ℓ) : Type ℓ where
  pub trunc : F → ℕ
  pub hundredths : F → ℕ → ℕ
  pub whole : F → ℕ
  pub is_negative : F → Bool
  pub exceeds : F → ℕ → Bool

-- `gc_values_t`
pub record Values {ℓ} (F : Type ℓ) : Type ℓ where
  pub f : F
  pub i : F
  pub j : F
  pub k : F
  pub l : ℕ
  pub n : ℕ
  pub p : F
  pub r : F
  pub s : F
  pub t : ℕ
  pub x : F
  pub y : F
  pub z : F

pub record Parser {ℓ} (F : Type ℓ) : Type ℓ where
  pub block : Block
  pub values : Values F

-- The letters of the value words; the index of their bit, `WORD_*`.
pub data Letter : Type 0 where
  f_word i_word j_word k_word l_word n_word p_word r_word s_word t_word x_word y_word z_word :
      Letter

abbrev pub word_index : Letter → ℕ
word_index f_word = 0
word_index i_word = 1
word_index j_word = 2
word_index k_word = 3
word_index l_word = 4
word_index n_word = 5
word_index p_word = 6
word_index r_word = 7
word_index s_word = 8
word_index t_word = 9
word_index x_word = 10
word_index y_word = 11
word_index z_word = 12

unfoldable pub letter_case : ℕ → Option Letter
letter_case c =
    if c == b'F'
    then some f_word
    else if c == b'I'
    then some i_word
    else if c == b'J'
    then some j_word
    else if c == b'K'
    then some k_word
    else if c == b'L'
    then some l_word
    else if c == b'N'
    then some n_word
    else if c == b'P'
    then some p_word
    else if c == b'R'
    then some r_word
    else if c == b'S'
    then some s_word
    else if c == b'T'
    then some t_word
    else if c == b'X'
    then some x_word
    else if c == b'Y'
    then some y_word
    else if c == b'Z'
    then some z_word
    else none

-- `bit(WORD_F)|bit(WORD_N)|bit(WORD_P)|bit(WORD_T)|bit(WORD_S)`
abbrev pub must_be_positive : Letter → Bool
must_be_positive f_word = true
must_be_positive n_word = true
must_be_positive p_word = true
must_be_positive t_word = true
must_be_positive s_word = true
must_be_positive _ = false

-- The axis bits of `axis_words` and `ijk_words`.
abbrev pub mark_axes : Letter → Block → Block
mark_axes i_word b = record b { ijk_words = set_bit 0 b.ijk_words }
mark_axes j_word b = record b { ijk_words = set_bit 1 b.ijk_words }
mark_axes k_word b = record b { ijk_words = set_bit 2 b.ijk_words }
mark_axes x_word b = record b { axis_words = set_bit 0 b.axis_words }
mark_axes y_word b = record b { axis_words = set_bit 1 b.axis_words }
mark_axes z_word b = record b { axis_words = set_bit 2 b.axis_words }
mark_axes _ b = b

unfoldable pub store_value {ℓ} : {F : Type ℓ} → FloatOps F → Letter → F → Values F → Values F
store_value ops f_word v a = record a { f = v }
store_value ops i_word v a = record a { i = v }
store_value ops j_word v a = record a { j = v }
store_value ops k_word v a = record a { k = v }
store_value ops l_word v a = record a { l = ops.trunc v }
store_value ops n_word v a = record a { n = ops.whole v }
store_value ops p_word v a = record a { p = v }
store_value ops r_word v a = record a { r = v }
store_value ops s_word v a = record a { s = v }
store_value ops t_word v a = record a { t = ops.trunc v }
store_value ops x_word v a = record a { x = v }
store_value ops y_word v a = record a { y = v }
store_value ops z_word v a = record a { z = v }

-- `MAX_TOOL_NUMBER` is 255.
unfoldable pub value_word {ℓ} :
    {F : Type ℓ} → FloatOps F → Letter → F → Parser F → Result (Parser F)
value_word ops w v q =
    let n = word_index w in
    let b = mark_axes w (record (q.block) { word_bit = n }) in
    let tool : Bool = elim w [ t_word ↦ true | _ ↦ false ] in
    if tool && ops.exceeds v 255
    then fail gcode_max_value_exceeded
    else if b.value_words n
    then fail gcode_word_repeated
    else if must_be_positive w && ops.is_negative v
    then fail negative_value
    else ok record {
      block = record b { value_words = set_bit n b.value_words };
      values = store_value ops w v q.values;
    }

abbrev on_block {ℓ} : {F : Type ℓ} → Parser F → Result Block → Result (Parser F)
on_block q (fail s) = fail s
on_block q (ok b) = ok (record q { block = b })

-- A word with a number.
unfoldable pub parse_word {ℓ} :
    {F : Type ℓ} → FloatOps F → (ℕ → ℕ) → ℕ → F → Parser F → Result (Parser F)
parse_word ops outcome letter v q =
    let n = ops.trunc v in
    if letter == b'G'
    then on_block q (g_word n (ops.hundredths v n) q.block)
    else if letter == b'M'
    then on_block q (m_word outcome n (ops.hundredths v n) q.block)
    else elim (letter_case letter) [
      | none ↦ fail gcode_unsupported_command
      | some w ↦ value_word ops w v q
    ]

-- The M commands that take the rest of the line for themselves.
abbrev pub ends_line : ℕ → ℕ → Bool
ends_line letter n =
    letter == b'M' && (n == 17 || n == 18 || n == 42 || n == 219 || (leb 227 n && leb n 233))

-- The loop. A word is its letter with the number behind it, or with nothing if that is no number.
unfoldable pub parse_words {ℓ} :
    {F : Type ℓ} → FloatOps F → (ℕ → ℕ) → List (ℕ × Option F) → Parser F → Result (Parser F)
parse_words ops outcome [] q = ok q
parse_words ops outcome ((letter, none) ∷ ws) q =
    if ltb letter b'A' || ltb b'Z' letter
    then fail expected_command_letter
    else fail bad_number_format
parse_words ops outcome ((letter, some v) ∷ ws) q =
    if ltb letter b'A' || ltb b'Z' letter
    then fail expected_command_letter
    else elim (parse_word ops outcome letter v q) [
      | fail s ↦ fail s
      | ok q1 ↦ if ends_line letter (ops.trunc v) then ok q1 else parse_words ops outcome ws q1
    ]
