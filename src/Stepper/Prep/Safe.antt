-- ===== src/Stepper/Prep/Safe.antt =====
-- `st_prep_buffer` of stepper.c with the interrupt: the main program prepares segments while the
-- interrupt executes others.
use grbl_mega_plasma.Prelude.{
  ℕ, zero, suc, ◌≡◌, ◌≢◌, inl, inr, refl, some, none, ◌∙◌, ap, sym, subst, arith, ◌==◌, if_cases,
}
use grbl_mega_plasma.Floats.{ℤ, Floats}
use grbl_mega_plasma.Spindle.{Rounding}
use grbl_mega_plasma.Planner.{Axes}
use grbl_mega_plasma.Stepper.{Stepper, StBlock}
use grbl_mega_plasma.Stepper.Prep.{Generator, PrepSettings, control, select_block}
use grbl_mega_plasma.Stepper.Prep.Profile.{begin_block}
use grbl_mega_plasma.Stepper.Prep.Walk.{walk_segment}
use grbl_mega_plasma.Stepper.Prep.Fill.{
  Outcome, make_segment, prep_segment, prep_round, fill_buffer, st_prep_buffer,
}
use grbl_mega_plasma.Stepper.Prep.Ring.{
  IsLive, block_index, IsChained, IsPrepared, IsPrepared-IsChained, Keeps, Keeps-refl, Keeps-trans,
}
use grbl_mega_plasma.Stepper.Prep.Ring.Load.{begin-Keeps}
use grbl_mega_plasma.Stepper.Prep.Ring.Round.{state, Safe, SafeRound, make-Safe}
use grbl_mega_plasma.Stepper.Line.{Undisturbed, IsShifted}

some_inj : {a b : ℕ} → some a ≡ some b → a ≡ b
some_inj e = cc

module _ {F : Type 0} (ops : Floats F) (r : Rounding F) (rounds : ℕ) (c : PrepSettings F) where
  prep_segment-Safe :
      (j : ℕ) (g : Generator F)
      → IsChained 1 g.prep.st_block_index g.driver
      → g.driver.tail ≢ g.driver.next_head
      → g.planner.pl_block ≡ some j
      → SafeRound g (prep_segment ops r rounds c j g)
  unfolding prep_segment
  prep_segment-Safe j g h room block =
      elim (walk_segment ops rounds g.prep (g.planner.block_buffer j) g.planner.current_speed)
        as (λ o.
          SafeRound g (elim o [ none ↦ Outcome.running g | some w ↦ make_segment ops r c j w g ])) [
            | none ↦ (Keeps-refl g.driver, inr (h, inl (λ e. cc)))
            | some w ↦ make-Safe ops r c j w g h room block
          ]

  safe_trans :
      (g h : Generator F) (o : Outcome F) → Keeps g.driver h.driver → SafeRound h o → SafeRound g o
  safe_trans g h o k s = (Keeps-trans g.driver h.driver (state o).driver k s.0, s.1)

  prep_round-Safe :
      (g : Generator F)
      → IsPrepared g
      → g.driver.tail ≢ g.driver.next_head
      → SafeRound g (prep_round ops r rounds c g)
  unfolding prep_round
  prep_round-Safe g h room =
      (elim g.planner.pl_block
          as (λ o.
            g.planner.pl_block ≡ o
            → SafeRound g (elim o [
              | some j ↦ prep_segment ops r rounds c j g
              | none ↦ elim (select_block g) [
                | none ↦ Outcome.returned g
                | some j ↦ prep_segment ops r rounds c j (begin_block ops c j g)
              ]
            ])) [
              | some j ↦ λ e. prep_segment-Safe j g (IsPrepared-IsChained g h) room e
              | none ↦ λ e.
                  elim (select_block g)
                    as (λ o. SafeRound g (elim o [
                      | none ↦ Outcome.returned g
                      | some j ↦ prep_segment ops r rounds c j (begin_block ops c j g)
                    ])) [
                      | none ↦ (Keeps-refl g.driver, h)
                      | some j ↦
                          let (k, chained, block, free) = begin-Keeps ops c j g e h room in
                          safe_trans g (begin_block ops c j g)
                            (prep_segment ops r rounds c j (begin_block ops c j g)) k
                            (prep_segment-Safe j (begin_block ops c j g) chained free block)
                    ]
            ])
        refl

  fill_buffer-Safe :
      (fuel : ℕ) (g : Generator F) → IsPrepared g → Safe g (fill_buffer ops r fuel rounds c g)
  unfolding fill_buffer
  fill_buffer-Safe zero g h = (Keeps-refl g.driver, h)
  fill_buffer-Safe (suc fuel) g h =
      if_cases (Safe g) (g.driver.tail == g.driver.next_head) g _ (λ e. (Keeps-refl g.driver, h))
        (λ e.
          after (fill_buffer-Safe fuel) (prep_round ops r rounds c g)
            (prep_round-Safe g h (ground arith)))
    where
      after :
          ((k : Generator F) → IsPrepared k → Safe k (fill_buffer ops r fuel rounds c k))
          → (o : Outcome F) → SafeRound g o
          → Safe g (elim o [
            | Outcome.returned k ↦ k
            | Outcome.running k ↦ k
            | Outcome.next k ↦ fill_buffer ops r fuel rounds c k
          ])
      after rest (Outcome.returned k) s = s
      after rest (Outcome.running k) s = s
      after rest (Outcome.next k) s =
          let (kept, prepared) = rest k s.1 in
          (
            Keeps-trans g.driver k.driver (fill_buffer ops r fuel rounds c k).driver s.0 kept,
            prepared,
          )

  -- However long its loops run: from a state in which the waiting segments' blocks follow one another
  -- up to the block being prepared, `st_prep_buffer` overwrites no segment that waits or is executed
  -- and no block that such a segment uses, leaves the interrupt's state and the position alone, and
  -- leads to such a state. So nine block buffers are enough for the ten places of the segment buffer.
  pub prep_buffer-Keeps :
      (g : Generator F)
      → IsPrepared g
      → Keeps g.driver (st_prep_buffer ops r rounds c g).driver
        × IsPrepared (st_prep_buffer ops r rounds c g)
  unfolding st_prep_buffer
  prep_buffer-Keeps g h =
      if_cases (Safe g) (control g).end_motion g (fill_buffer ops r 10 rounds c g)
        (λ e. (Keeps-refl g.driver, h)) (λ e. fill_buffer-Safe 10 g h)

  -- So a call between two ticks of a block does not disturb it.
  pub prep_buffer-Undisturbed :
      (n : ℕ) (s : Axes ℕ) (b : StBlock) (k : ℕ) (start : Axes ℤ) (shape : IsShifted n s b)
      (g : Generator F)
      → IsPrepared g
      → g.driver.st.exec_segment ≡ some g.driver.tail
      → IsLive g.driver g.driver.tail
      → block_index g.driver g.driver.tail ≡ k
      → Undisturbed n s b k start shape g.driver (st_prep_buffer ops r rounds c g).driver
  prep_buffer-Undisturbed n s b k start shape g h executing live mine =
      let kept = (prep_buffer-Keeps g h).0 in
      record {
        counter_lem = ap (λ (t : Stepper). t.counter) kept.st_lem;
        steps_lem = ap (λ (t : Stepper). t.steps) kept.st_lem;
        index_lem = ap (λ (t : Stepper). t.exec_block_index) kept.st_lem;
        block_lem = ap (λ (t : Stepper). t.exec_block) kept.st_lem;
        segment_lem = ap (λ (t : Stepper). t.exec_segment) kept.st_lem;
        copied =
            subst
              (λ (i : ℕ).
                (st_prep_buffer ops r rounds c g).driver.st_block_buffer i
                ≡ g.driver.st_block_buffer i)
              mine (kept.blocks g.driver.tail live);
        kept = λ i e.
            let same : i ≡ g.driver.tail = some_inj (sym e ∙ executing) in
            subst
              (λ (m : ℕ).
                (st_prep_buffer ops r rounds c g).driver.segment_buffer m
                ≡ g.driver.segment_buffer m)
              (sym same) (kept.segments g.driver.tail live);
        busy_lem = kept.busy_lem;
        position_lem = kept.position_lem;
      }
