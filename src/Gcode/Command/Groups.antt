-- ===== src/Gcode/Command/Groups.antt =====
-- The modal group that a G or M word is marked in.
use grbl_mega_plasma.Prelude.{
  ℕ, ◌≡◌, refl, ap, ap₂, subst, sym, ◌∙◌, arith, Bool, true, false, ◌||◌, ◌&&◌, ◌==◌, leb, ltb, ◌<◌,
  holds_to, holds_to_lem, ==_iff, if◌then◌else◌, if_cases, Option, none, some,
}
use grbl_mega_plasma.Gcode.{
  Result, fail, ok, Block, Bits, set_bit, gcode_modal_group_violation,
  gcode_command_value_not_integer,
}
use grbl_mega_plasma.Gcode.Command.{
  GCase, g_case, claim_axis, g_non_modal, g_motion, g_distance, g_tool_length, g_switch,
  mark_command, g_word, MCase, m_case, m_switch, m_word, checked,
}

-- The modal groups of NIST RS274-NGC, table 4, by the numbers `MODAL_GROUP_*`; `is_whole` says that
-- the word's number has no hundredths.
unfoldable pub g_group : ℕ → Bool → ℕ
g_group n is_whole =
    if leb n 3 || (n == 38 || n == 80)
    then 1
    else if leb 17 n && leb n 19
    then 2
    else if leb 90 n && leb n 91
    then (if is_whole then 3 else 4)
    else if leb 93 n && leb n 94
    then 5
    else if leb 20 n && leb n 21
    then 6
    else if n == 40
    then 7
    else if n == 43 || n == 49
    then 8
    else if leb 54 n && leb n 59
    then 9
    else if n == 61
    then 10
    else 0

case_group : GCase → Bool → ℕ
case_group GCase.axis_non_modal is_whole = 0
case_group GCase.other_non_modal is_whole = 0
case_group GCase.axis_motion is_whole = 1
case_group GCase.cancel_motion is_whole = 1
case_group GCase.plane is_whole = 2
case_group GCase.distance is_whole = if is_whole then 3 else 4
case_group GCase.feed_mode is_whole = 5
case_group GCase.units is_whole = 6
case_group GCase.cutter is_whole = 7
case_group GCase.tool_length is_whole = 8
case_group GCase.coordinates is_whole = 9
case_group GCase.control is_whole = 10
case_group GCase.unsupported is_whole = 0

-- The two agree on every number that a `uint8_t` holds.
Agree : Bool → Type 0
Agree is_whole = holds_to 256 (λ n. case_group (g_case n) is_whole == g_group n is_whole) ≡ true

agree : (is_whole : Bool) → Agree is_whole
unfolding Agree holds_to case_group g_case g_group
agree true = refl
agree false = refl

case_group_lem :
    (n : ℕ) (is_whole : Bool) → n < 256 → case_group (g_case n) is_whole ≡ g_group n is_whole
unfolding Agree
case_group_lem n is_whole small = (==_iff (case_group (g_case n) is_whole) (g_group n is_whole)).0 (
    holds_to_lem (λ i. case_group (g_case i) is_whole == g_group i is_whole) 256 n small
      (agree is_whole))

-- The bits are as they were, and the word's bit is that of its group.
record Selects (b b1 : Block) (group : ℕ) : Type 0 where
  bit : b1.word_bit ≡ group
  commands : b1.command_words ≡ b.command_words
  values : b1.value_words ≡ b.value_words

g_switch-Selects :
    (c : GCase) (n m left : ℕ) (b b1 : Block)
    → g_switch c n m b ≡ ok (b1, left)
    → Selects b b1 (case_group c (m == 0))
unfolding g_switch g_non_modal g_motion g_distance g_tool_length claim_axis case_group
g_switch-Selects c n m left b b1 e = ground arith

-- An accepted word: its group's bit was clear and is set, and the other bits are as they were.
pub record Marks (b b1 : Block) (group : ℕ) : Type 0 where
  pub clear : b.command_words group ≡ false
  pub commands : b1.command_words ≡ set_bit group b.command_words
  pub values : b1.value_words ≡ b.value_words
  pub bit : b1.word_bit ≡ group

abbrev result_or : Block → Result Block → Block
result_or d (fail s) = d
result_or d (ok b) = b

marked :
    (b b1 : Block) (group : ℕ)
    → Selects b b1 group
    → b1.command_words b1.word_bit ≡ false
    → Marks b (record b1 { command_words = set_bit b1.word_bit b1.command_words }) group
marked b b1 group h free = record {
  clear = sym (ap₂ (λ (w : Bits) (i : ℕ). w i) h.commands h.bit) ∙ free;
  commands = ap₂ (λ (i : ℕ) (w : Bits). set_bit i w) h.bit h.commands;
  values = h.values;
  bit = h.bit;
}

mark_command-Marks :
    (b b1 b2 : Block) (group : ℕ) → Selects b b1 group → mark_command b1 ≡ ok b2 → Marks b b2 group
unfolding mark_command
mark_command-Marks b b1 b2 group h =
    if_cases (λ r. r ≡ ok b2 → Marks b b2 group) (b1.command_words b1.word_bit)
      (fail gcode_modal_group_violation)
      (ok (record b1 { command_words = set_bit b1.word_bit b1.command_words })) (λ _ e. absurd (cc))
      (λ free e. subst (λ x. Marks b x group) (ap (result_or b) e) (marked b b1 group h free))

pub g_word-Marks :
    (n m : ℕ) (b b2 : Block) → n < 256 → g_word n m b ≡ ok b2 → Marks b b2 (g_group n (m == 0))
unfolding g_word
g_word-Marks n m b b2 small = go (g_switch (g_case n) n m b) refl
  where
    go :
        (o : Result (Block × ℕ))
        → g_switch (g_case n) n m b ≡ o
        → (elim o [
          | fail s ↦ fail s
          | ok (b1, left) ↦
              if ltb 0 left then fail gcode_command_value_not_integer else mark_command b1
        ])
          ≡ ok b2
        → Marks b b2 (g_group n (m == 0))
    go (fail s) e = λ k. absurd cc
    go (ok (b1, left)) e =
        if_cases (λ r. r ≡ ok b2 → Marks b b2 (g_group n (m == 0))) (ltb 0 left)
          (fail gcode_command_value_not_integer) (mark_command b1) (λ _ k. absurd cc)
          (λ _ k.
            mark_command-Marks b b1 b2 _
              (subst (λ g. Selects b b1 g) (case_group_lem n (m == 0) small)
                (g_switch-Selects (g_case n) n m left b b1 e))
              k)

-- The same of the M words that have a group: program flow, spindle and coolant.
unfoldable pub m_group : ℕ → Option ℕ
m_group n =
    if leb n 2 || n == 30
    then some 11
    else if leb 3 n && leb n 5
    then some 12
    else if leb 7 n && leb n 9
    then some 13
    else none

-- The bit that an M word is marked in: that of its group, or the one of the word before it.
abbrev pub bit_or : ℕ → Option ℕ → ℕ
bit_or n none = n
bit_or n (some g) = g

m_case_group : MCase → Option ℕ
m_case_group MCase.program_flow = some 11
m_case_group MCase.spindle = some 12
m_case_group MCase.coolant = some 13
m_case_group _ = none

m_case_group_lem : (n : ℕ) → m_case_group (m_case n) ≡ m_group n
unfolding m_case_group m_case m_group
m_case_group_lem n = ground arith

m_switch-Selects :
    (outcome : ℕ → ℕ) (c : MCase) (n : ℕ) (b b1 : Block)
    → m_switch outcome c n b ≡ ok b1
    → Selects b b1 (bit_or b.word_bit (m_case_group c))
unfolding m_switch checked m_case_group
m_switch-Selects outcome c n b b1 e = ground arith

pub m_word-Marks :
    (outcome : ℕ → ℕ) (n m : ℕ) (b b2 : Block)
    → m_word outcome n m b ≡ ok b2
    → Marks b b2 (bit_or b.word_bit (m_group n))
unfolding m_word
m_word-Marks outcome n m b b2 =
    if_cases (λ r. r ≡ ok b2 → Marks b b2 (bit_or b.word_bit (m_group n))) (ltb 0 m)
      (fail gcode_command_value_not_integer) _ (λ _ e. absurd cc)
      (λ _. go (m_switch outcome (m_case n) n b) refl)
  where
    go :
        (o : Result Block)
        → m_switch outcome (m_case n) n b ≡ o
        → (elim o [ fail s ↦ fail s | ok b1 ↦ mark_command b1 ]) ≡ ok b2
        → Marks b b2 (bit_or b.word_bit (m_group n))
    go (fail s) e = λ k. absurd cc
    go (ok b1) e = mark_command-Marks b b1 b2 _ (
        subst (λ g. Selects b b1 (bit_or b.word_bit g)) (m_case_group_lem n)
          (m_switch-Selects outcome (m_case n) n b b1 e))
