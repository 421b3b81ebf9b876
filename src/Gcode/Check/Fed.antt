-- ===== src/Gcode/Check/Fed.antt =====
-- What STEP 3 of gcode.c promises of an accepted motion: its feed rate and its axis words.
use grbl_mega_plasma.Prelude.{
  ℕ, ◌≡◌, ◌≢◌, refl, Bool, true, false, ◌==◌, if◌then◌else◌, if_cases, Option, arith,
}
use grbl_mega_plasma.Floats.{Floats}
use grbl_mega_plasma.Planner.{Axes}
use grbl_mega_plasma.Gcode.{ok}
use grbl_mega_plasma.Gcode.Word.{Parser, FloatOps}
use grbl_mega_plasma.Gcode.Check.{
  GcState, Checked, reject_if, use_word, is_motion, set_axis_command, check_setup,
}
use grbl_mega_plasma.Gcode.Check.NonModal.{check_non_modal}
use grbl_mega_plasma.Gcode.Check.Motion.{
  is_zero, radius_arc, offset_arc, check_line, check_arc, check_probe, check_fed, check_motion,
}
use grbl_mega_plasma.Gcode.Check.Block.{
  use_single_words, use_axis_words, check_unused, check_jog, check_block, begin,
}
use grbl_mega_plasma.Gcode.Check.Accepts.{Accepts, Accepts-ok, Accepts-reject_if, Accepts-and_then}

module _ {F : Type 0} (ops : Floats F) where
  -- The feed rate and the axis words are those of another block.
  abbrev SameFeed : Checked F → Checked F → Type 0
  SameFeed s t =
      (t.parser.values.f ≡ s.parser.values.f)
      × (t.parser.block.axis_words ≡ s.parser.block.axis_words)
      × (t.parser.block.modal ≡ s.parser.block.modal)

  -- A motion that is executed has a feed rate, and words for its axes.
  abbrev pub IsFed : Checked F → Type 0
  IsFed t =
      is_motion t.parser.block.axis_command ≡ true
      → t.parser.block.modal.motion ≢ 0
      → t.parser.block.modal.motion ≢ 80
      → is_zero ops t.parser.values.f ≡ false

  radius_arc-SameFeed : (g : GcState F) (s : Checked F) → Accepts (SameFeed s) (radius_arc ops g s)
  unfolding radius_arc use_word
  radius_arc-SameFeed g s = λ t e. ground arith

  offset_arc-SameFeed : (g : GcState F) (s : Checked F) → Accepts (SameFeed s) (offset_arc ops g s)
  unfolding offset_arc use_word reject_if
  offset_arc-SameFeed g s = λ t e. ground arith

  check_arc-SameFeed : (g : GcState F) (s : Checked F) → Accepts (SameFeed s) (check_arc ops g s)
  unfolding check_arc
  check_arc-SameFeed g s = λ t e.
      let s1 =
        if s.parser.block.modal.motion == 2 then record s { arc_is_clockwise = true } else s in
      let flagged : SameFeed s s1 = ground arith in
      ground (arith, radius_arc-SameFeed g s1 t, offset_arc-SameFeed g s1 t)

  check_probe-SameFeed :
      (g : GcState F) (s : Checked F) → Accepts (SameFeed s) (check_probe ops g s)
  unfolding check_probe reject_if
  check_probe-SameFeed g s = λ t e. ground arith

  check_line-SameFeed : (s : Checked F) → SameFeed s (check_line ops s)
  unfolding check_line set_axis_command
  check_line-SameFeed s = ground arith

  check_fed-IsFed : (g : GcState F) (s : Checked F) → Accepts IsFed (check_fed ops g s)
  unfolding check_fed
  check_fed-IsFed g s = λ t e m n k.
      ground (arith, check_line-SameFeed s, check_arc-SameFeed g s t, check_probe-SameFeed g s t)

  check_motion-IsFed : (g : GcState F) (s : Checked F) → Accepts IsFed (check_motion ops g s)
  unfolding check_motion reject_if
  check_motion-IsFed g s = λ t e m n k. ground (arith, check_line-SameFeed s, check_fed-IsFed g s t)

  unused-IsFed : (jog : Bool) (s : Checked F) → IsFed s → Accepts IsFed (check_unused jog s)
  unfolding check_unused use_single_words use_axis_words use_word reject_if
  unused-IsFed jog s h = λ t e m n k. ground arith

  jog-IsFed : (s : Checked F) → IsFed s → Accepts IsFed (check_jog s)
  unfolding check_jog
  jog-IsFed s h = Accepts-reject_if IsFed _ _ s (λ e. h)

  -- A block that is accepted, jog or not, with a motion to execute that is neither a seek (G0) nor
  -- G80, has a feed rate other than zero.
  pub accepted-IsFed :
      (to : FloatOps F) (read : ℕ → Option (Axes F)) (jog : Bool) (g : GcState F) (p : Parser F)
      (t : Checked F)
      → check_block ops to read jog g p ≡ ok t
      → is_motion t.parser.block.axis_command ≡ true
      → t.parser.block.modal.motion ≢ 0
      → t.parser.block.modal.motion ≢ 80
      → is_zero ops t.parser.values.f ≡ false
  unfolding check_block
  accepted-IsFed to read jog g p =
      let Any : Checked F → Type 0 = λ a. a ≡ a in
      Accepts-and_then Any IsFed (check_setup ops read jog g (begin g p)) _ (λ a e. refl)
        (λ a h.
          Accepts-and_then Any IsFed (check_non_modal ops to read g a) _ (λ b e. refl)
            (λ b h.
              Accepts-and_then IsFed IsFed (check_motion ops g b) _ (check_motion-IsFed g b) (λ c h.
                Accepts-and_then IsFed IsFed (check_unused jog c) _ (unused-IsFed jog c h) (λ d h.
                  if_cases (Accepts IsFed) jog (check_jog d) (ok d) (λ e. jog-IsFed d h)
                    (λ e. Accepts-ok IsFed d h)))))
