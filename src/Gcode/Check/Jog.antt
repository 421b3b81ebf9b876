-- ===== src/Gcode/Check/Jog.antt =====
-- What STEP 3 of gcode.c promises of an accepted jog command.
use grbl_mega_plasma.Prelude.{
  ℕ, zero, suc, ◌<◌, ◌≡◌, refl, sym, ◌∙◌, ap, subst, true, false, not, ◌||◌, ◌&&◌, ◌==◌, ◌⊎◌, inl,
  inr, Option, arith,
}
use grbl_mega_plasma.Floats.{Floats}
use grbl_mega_plasma.Planner.{Axes}
use grbl_mega_plasma.Planner.Smooth.{eq_cases}
use grbl_mega_plasma.Gcode.{ok, Bits}
use grbl_mega_plasma.Gcode.Word.{Parser, FloatOps}
use grbl_mega_plasma.Gcode.Check.{
  GcState, Checked, and_then, reject_if, use_word, has_word, set_axis_command, check_setup,
  implicit_motion, keep_spindle_speed, convert_axes, check_line_number, check_feed, check_dwell,
  check_tool_offset, check_coord_system,
}
use grbl_mega_plasma.Gcode.Check.NonModal.{check_non_modal}
use grbl_mega_plasma.Gcode.Check.Motion.{check_motion}
use grbl_mega_plasma.Gcode.Check.Block.{
  any_below, use_single_words, use_axis_words, check_unused, check_jog, check_block, begin,
}
use grbl_mega_plasma.Gcode.Check.Accepts.{Accepts, Accepts-reject_if, Accepts-and_then}
use grbl_mega_plasma.Gcode.Check.Kept.{
  Kept, Kept-trans, Kept-then, implicit-Kept, convert_axes-Kept, keep_spindle_speed-Kept,
  check_feed-Kept, check_dwell-Kept, check_tool_offset-Kept, check_coord_system-Kept,
}
use grbl_mega_plasma.Gcode.Check.Later.{check_non_modal-Kept, check_motion-Kept}

any_below_lem : (n i : ℕ) (b : Bits) → i < n → any_below n b ≡ false → b i ≡ false
unfolding any_below
any_below_lem zero i b small none_set = absurd (omega arith)
any_below_lem (suc n) i b small none_set = elim (eq_cases i n) [
  | inl same ↦ rw same (ground arith)
  | inr ne ↦ any_below_lem n i b (omega arith) (ground arith)
]

module _ {F : Type 0} (ops : Floats F) (to : FloatOps F) (read : ℕ → Option (Axes F)) where
  -- The setup checks behind that of the feed rate.
  after_feed-Kept :
      (g : GcState F) (s : Checked F)
      → Accepts (Kept s) (
          and_then (check_dwell ops (keep_spindle_speed ops g s)) (λ (c : Checked F).
            and_then (check_tool_offset ops (convert_axes ops c)) (check_coord_system ops read g)))
  after_feed-Kept g s =
      Kept-then s _ _
        (λ t e. Kept-trans (keep_spindle_speed-Kept ops g s) (check_dwell-Kept ops _ t e))
        (λ c.
          Kept-then c _ _
            (λ t e. Kept-trans (convert_axes-Kept ops c) (check_tool_offset-Kept ops _ t e))
            (λ d. check_coord_system-Kept ops read g d))

  -- The setup checks of a jog keep the block and see its `F` word.
  jog_feed :
      (g : GcState F) (s : Checked F) → Accepts (λ t. has_word 0 s ≡ true) (check_feed ops true g s)
  unfolding check_feed
  jog_feed g s = λ t e. ground arith

  implicit_word : (s : Checked F) → has_word 0 (implicit_motion s) ≡ has_word 0 s
  unfolding implicit_motion set_axis_command
  implicit_word s = ground arith

  line_number_same : (s : Checked F) → Accepts (λ t. t ≡ s) (check_line_number s)
  unfolding check_line_number
  line_number_same s = Accepts-reject_if (λ t. t ≡ s) _ _ s (λ h. refl)

  jog_setup :
      (g : GcState F) (s : Checked F)
      → Accepts (λ t. Kept s t × (has_word 0 s ≡ true)) (check_setup ops read true g s)
  unfolding check_setup
  jog_setup g s =
      let P : Checked F → Type 0 = λ t. Kept s t × (has_word 0 s ≡ true) in
      let i = implicit_motion s in
      Accepts-and_then (λ a. a ≡ i) P (check_line_number i) _ (line_number_same i)
        (λ a same.
          Accepts-and_then (λ b. Kept s b × (has_word 0 s ≡ true)) P (check_feed ops true g a) _
            (λ b e. (
              Kept-trans (subst (Kept s) (sym same) (implicit-Kept s))
                  (check_feed-Kept ops true g a b e),
              sym (implicit_word s) ∙ ap (has_word 0) (sym same) ∙ jog_feed g a b e,
            ))
            (λ b h t e. (Kept-trans h.0 (after_feed-Kept g b t e), h.1)))

  -- The words that a jog does not use lead to an error, and its commands are those of three groups.
  unused_jog :
      (s : Checked F)
      → Accepts
          (λ t.
            (s.parser.block.value_words 8 ≡ false)
            × (s.parser.block.value_words 9 ≡ false)
            × (t.parser.block.command_words ≡ s.parser.block.command_words))
          (check_unused true s)
  unfolding check_unused use_single_words use_axis_words use_word reject_if any_below
  unused_jog s = λ t e. ground arith

  groups_jog :
      (s : Checked F)
      → Accepts
          (λ t.
            (i : ℕ) → i < 14 → s.parser.block.command_words i ≡ true → (i ≡ 3) ⊎ (i ≡ 6) ⊎ (i ≡ 0))
          (check_jog s)
  unfolding check_jog reject_if
  groups_jog s = λ t e i small set.
      let c : Bits = s.parser.block.command_words in
      let others : Bits = λ j. c j && not (j == 3 || j == 6 || j == 0) in
      let none_set : any_below 14 others ≡ false = ground arith in
      let not_other : others i ≡ false = any_below_lem 14 i others small none_set in ground arith

  -- An accepted jog has an F word, no S and no T word, and only commands of the groups G3 (distance),
  -- G6 (units) and G0 (non-modal).
  pub jog_words :
      (g : GcState F) (p : Parser F) (t : Checked F)
      → check_block ops to read true g p ≡ ok t
      → (p.block.value_words 0 ≡ true)
        × (p.block.value_words 8 ≡ false)
        × (p.block.value_words 9 ≡ false)
        × ((i : ℕ) → i < 14 → p.block.command_words i ≡ true → (i ≡ 3) ⊎ (i ≡ 6) ⊎ (i ≡ 0))
  unfolding check_block
  jog_words g p =
      let s = begin g p in
      let Q : Checked F → Type 0 = λ a. Kept s a × (has_word 0 s ≡ true) in
      let P : Checked F → Type 0 = λ t.
        (p.block.value_words 0 ≡ true)
        × (p.block.value_words 8 ≡ false)
        × (p.block.value_words 9 ≡ false)
        × ((i : ℕ) → i < 14 → p.block.command_words i ≡ true → (i ≡ 3) ⊎ (i ≡ 6) ⊎ (i ≡ 0)) in
      Accepts-and_then Q P (check_setup ops read true g s) _ (jog_setup g s) (λ a h.
        Accepts-and_then Q P (check_non_modal ops to read g a) _
          (λ b e. (Kept-trans h.0 (check_non_modal-Kept ops to read g a b e), h.1))
          (λ b h.
            Accepts-and_then Q P (check_motion ops g b) _
              (λ c e. (Kept-trans h.0 (check_motion-Kept ops to g b c e), h.1))
              (λ c h.
                Accepts-and_then
                  (λ d.
                    (c.parser.block.value_words 8 ≡ false)
                    × (c.parser.block.value_words 9 ≡ false)
                    × (d.parser.block.command_words ≡ c.parser.block.command_words))
                  P (check_unused true c) _ (unused_jog c)
                  (λ d u t e.
                    let commands : d.parser.block.command_words ≡ p.block.command_words =
                      u.2 ∙ h.0.command_lem in
                    (
                      h.1,
                      sym h.0.s_word_lem ∙ u.0,
                      sym h.0.t_word_lem ∙ u.1,
                      λ i small set.
                          groups_jog d t e i small (ap (λ (w : Bits). w i) commands ∙ set),
                    )))))
