-- ===== src/Stepper/Prep/Ring/Grow.antt =====
-- A round of `st_prep_buffer` of stepper.c that another one follows fills a place of the segment buffer.
use grbl_mega_plasma.Prelude.{
  ℕ, ◌+◌, ◌%◌, ◌<◌, ◌≡◌, refl, some, none, ◌∙◌, ap, arith, ◌==◌, ◌&&◌, ◌||◌, not, if_cases,
}
use grbl_mega_plasma.Floats.{Floats}
use grbl_mega_plasma.Spindle.{Rounding}
use grbl_mega_plasma.Stepper.{Driver}
use grbl_mega_plasma.Stepper.Prep.{Generator, PrepSettings, control, select_block, end_motion}
use grbl_mega_plasma.Stepper.Prep.Profile.{begin_block}
use grbl_mega_plasma.Stepper.Prep.Walk.{Walk, walk_segment}
use grbl_mega_plasma.Stepper.Prep.Fill.{
  Outcome, set_segment, rate_segment, push_segment, write_segment, take_walk, update_pwm,
  finish_round, emit_segment, close_segment, make_segment, prep_segment, prep_round,
}
use grbl_mega_plasma.Stepper.Prep.Ring.{SameRing}
use grbl_mega_plasma.Stepper.Prep.Ring.Load.{begin-SameRing}
use grbl_mega_plasma.Stepper.Prep.Ring.Push.{update_pwm-Phase}
use grbl_mega_plasma.Stepper.Prep.Ring.Round.{take_walk-Phase}

-- The places of the ring are in range.
pub record IsInRange (d : Driver) : Type 0 where
  pub tail_in : d.tail < 10
  pub head_in : d.head < 10
  pub next_head_lem : d.next_head ≡ (d.head + 1) % 10

-- One more segment.
pub record Grows (d e : Driver) : Type 0 where
  pub tail_lem : e.tail ≡ d.tail
  pub head_lem : e.head ≡ d.next_head
  pub next_head_lem : e.next_head ≡ (d.next_head + 1) % 10

abbrev pub GrowsNext : {F : Type 0} → Driver → Outcome F → Type 0
GrowsNext d (Outcome.next h) = Grows d h.driver
GrowsNext d _ = Unit {0}

module _ {F : Type 0} (ops : Floats F) (r : Rounding F) (c : PrepSettings F) (j : ℕ) where
  emit-Grows :
      (mm dt left n_left last_left : F) (g : Generator F)
      → g.driver.next_head < 10
      → Grows g.driver (emit_segment ops r j mm dt left n_left last_left g).driver
  unfolding emit_segment push_segment rate_segment set_segment
  emit-Grows mm dt left n_left last_left g small = record {
    tail_lem = refl;
    head_lem = refl;
    next_head_lem = ground arith;
  }

  finish-GrowsNext :
      (mm : F) (d : Driver) (h : Generator F)
      → Grows d h.driver
      → GrowsNext d (finish_round ops r j mm h)
  unfolding finish_round
  finish-GrowsNext mm d h grown =
      if_cases (GrowsNext d) (not (ops.eq mm h.prep.mm_complete)) _ _ (λ e. grown)
        (λ e.
          if_cases (GrowsNext d) (ops.lt (ops.literal 0 0) mm || (control h).execute_sys_motion) _ _
            (λ f. tt) (λ f. grown))

  close-GrowsNext :
      (w : Walk F) (g : Generator F)
      → g.driver.next_head < 10
      → GrowsNext g.driver (close_segment ops r j w g)
  unfolding close_segment write_segment set_segment
  close-GrowsNext w g small =
      let left = ops.mul g.prep.step_per_mm w.mm_remaining in
      let n_left = r.ceil left in
      let last_left = r.ceil g.prep.steps_remaining in
      let n = r.truncate (ops.sub last_left n_left) % 65536 in
      let g1 = write_segment n g in
      let e = emit-Grows w.mm_remaining w.dt left n_left last_left g1 small in
      if_cases (GrowsNext g.driver) (n == 0 && (control g1).execute_hold)
        (Outcome.returned (end_motion g1))
        (finish_round ops r j w.mm_remaining
          (emit_segment ops r j w.mm_remaining w.dt left n_left last_left g1))
        (λ q. tt)
        (λ q.
          finish-GrowsNext w.mm_remaining g.driver
            (emit_segment ops r j w.mm_remaining w.dt left n_left last_left g1)
            (record {
              tail_lem = e.tail_lem;
              head_lem = e.head_lem;
              next_head_lem = e.next_head_lem;
            }))

same-Grows : (d e f : Driver) → SameRing d e → Grows e f → Grows d f
same-Grows d e f s g = record {
  tail_lem = g.tail_lem ∙ s.tail_lem;
  head_lem = g.head_lem ∙ s.next_head_lem;
  next_head_lem = g.next_head_lem ∙ ap (λ (n : ℕ). (n + 1) % 10) s.next_head_lem;
}

same-GrowsNext :
    {F : Type 0} (d e : Driver) (o : Outcome F) → SameRing d e → GrowsNext e o → GrowsNext d o
same-GrowsNext d e (Outcome.returned h) s grown = tt
same-GrowsNext d e (Outcome.running h) s grown = tt
same-GrowsNext d e (Outcome.next h) s grown = same-Grows d e h.driver s grown

module _ {F : Type 0} (ops : Floats F) (r : Rounding F) (rounds : ℕ) (c : PrepSettings F) where
  make-GrowsNext :
      (j : ℕ) (w : Walk F) (g : Generator F)
      → g.driver.next_head < 10
      → GrowsNext g.driver (make_segment ops r c j w g)
  unfolding make_segment
  make-GrowsNext j w g small =
      let g1 = take_walk w g in
      let g2 = update_pwm ops r c j g1 in
      let p = (take_walk-Phase ops r c j w g).ring in
      let q = (update_pwm-Phase ops r c j g1).ring in
      let small2 : g2.driver.next_head < 10 = omega (arith, p.next_head_lem, q.next_head_lem) in
      same-GrowsNext g.driver g1.driver (close_segment ops r j w g2) p (
        same-GrowsNext g1.driver g2.driver (close_segment ops r j w g2) q
          (close-GrowsNext ops r c j w g2 small2))

  prep_segment-GrowsNext :
      (j : ℕ) (g : Generator F)
      → g.driver.next_head < 10
      → GrowsNext g.driver (prep_segment ops r rounds c j g)
  unfolding prep_segment
  prep_segment-GrowsNext j g small =
      elim (walk_segment ops rounds g.prep (g.planner.block_buffer j) g.planner.current_speed)
        as (λ o.
          GrowsNext g.driver
            (elim o [ none ↦ Outcome.running g | some w ↦ make_segment ops r c j w g ])) [
              | none ↦ tt
              | some w ↦ make-GrowsNext j w g small
            ]

  pub prep_round-GrowsNext :
      (g : Generator F) → g.driver.next_head < 10 → GrowsNext g.driver (prep_round ops r rounds c g)
  unfolding prep_round
  prep_round-GrowsNext g small =
      elim g.planner.pl_block
        as (λ o. GrowsNext g.driver (elim o [
          | some j ↦ prep_segment ops r rounds c j g
          | none ↦ elim (select_block g) [
            | none ↦ Outcome.returned g
            | some j ↦ prep_segment ops r rounds c j (begin_block ops c j g)
          ]
        ])) [
          | some j ↦ prep_segment-GrowsNext j g small
          | none ↦
              elim (select_block g)
                as (λ o. GrowsNext g.driver (elim o [
                  | none ↦ Outcome.returned g
                  | some j ↦ prep_segment ops r rounds c j (begin_block ops c j g)
                ])) [
                  | none ↦ tt
                  | some j ↦
                      let h = begin_block ops c j g in
                      let s = begin-SameRing ops c j g in
                      same-GrowsNext g.driver h.driver (prep_segment ops r rounds c j h) s
                        (prep_segment-GrowsNext j h (omega (arith, s.next_head_lem, small)))
                ]
        ]
