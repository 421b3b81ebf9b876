-- ===== src/Stepper/Prep/Ring/Round.antt =====
-- `st_prep_buffer` of stepper.c, whatever number of rounds its loop over the ramps takes.
use grbl_mega_plasma.Prelude.{
  ℕ, ◌%◌, ◌≡◌, ◌≢◌, inl, inr, refl, some, none, ◌∙◌, ap, sym, ◌==◌, ◌&&◌, ◌||◌, not, if_cases,
}
use grbl_mega_plasma.Floats.{Floats}
use grbl_mega_plasma.Spindle.{Rounding}
use grbl_mega_plasma.Planner.{Planner}
use grbl_mega_plasma.Stepper.Prep.{Prep, Generator, PrepSettings, control, end_motion}
use grbl_mega_plasma.Stepper.Prep.Walk.{Walk}
use grbl_mega_plasma.Stepper.Prep.Fill.{
  Outcome, written, write_segment, take_walk, close_segment, set_segment, update_pwm, finish_round,
  emit_segment, make_segment,
}
use grbl_mega_plasma.Stepper.Prep.Ring.{block_index, IsChained, IsPrepared, Keeps, Keeps-trans}
use grbl_mega_plasma.Stepper.Prep.Ring.Push.{
  Phase, Written, written-Keeps, written-IsChained, update_pwm-Phase, end_motion-Phase,
  set_segment-Written,
}
use grbl_mega_plasma.Stepper.Prep.Ring.Emit.{Phase-Keeps, Phase-IsChained, Phase-room, emit-Keeps}

some≢none : {a : ℕ} → some a ≢ none
some≢none e = cc

abbrev pub state : {F : Type 0} → Outcome F → Generator F
state (Outcome.returned g) = g
state (Outcome.next g) = g
state (Outcome.running g) = g

-- What a round or a call promises.
abbrev pub Safe : {F : Type 0} → Generator F → Generator F → Type 0
Safe g h = Keeps g.driver h.driver × IsPrepared h

abbrev pub SafeRound : {F : Type 0} → Generator F → Outcome F → Type 0
SafeRound g o = Safe g (state o)

module _ {F : Type 0} (ops : Floats F) (r : Rounding F) (c : PrepSettings F) (j : ℕ) where
  finish-Safe :
      (mm : F) (g h : Generator F)
      → Keeps g.driver h.driver
      → IsChained 0 h.prep.st_block_index h.driver
      → SafeRound g (finish_round ops r j mm h)
  unfolding finish_round
  finish-Safe mm g h k chained =
      if_cases (SafeRound g) (not (ops.eq mm h.prep.mm_complete)) _ _ (λ e. (k, inl chained))
        (λ e.
          if_cases (SafeRound g) (ops.lt (ops.literal 0 0) mm || (control h).execute_sys_motion) _ _
            (λ f.
              let p = end_motion-Phase ops r c j h in
              (
                Keeps-trans g.driver h.driver (end_motion h).driver k
                    (Phase-Keeps h (end_motion h) p),
                inl (Phase-IsChained 0 h (end_motion h) p chained),
              ))
            (λ f. (k, inl chained)))

  write-Written :
      (n : ℕ) (g : Generator F) → Written g.prep.st_block_index g.driver (write_segment n g).driver
  unfolding write_segment
  write-Written n g = set_segment-Written ops r c j (written n g.prep) g.prep.st_block_index g refl

  write_index : (n : ℕ) (g : Generator F) → (write_segment n g).prep ≡ g.prep
  unfolding write_segment set_segment
  write_index n g = refl

  write_planner : (n : ℕ) (g : Generator F) → (write_segment n g).planner ≡ g.planner
  unfolding write_segment set_segment
  write_planner n g = refl

  -- What follows the writing of the segment's data, on both branches.
  module _ (n : ℕ) (g : Generator F) (h : IsChained 1 g.prep.st_block_index g.driver)
      (room : g.driver.tail ≢ g.driver.next_head) (block : g.planner.pl_block ≡ some j) where
    write_segment-Keeps : Keeps g.driver (write_segment n g).driver
    write_segment-Keeps =
        written-Keeps g.prep.st_block_index g.driver (write_segment n g).driver (write-Written n g)
          h

    written_index : (write_segment n g).prep.st_block_index ≡ g.prep.st_block_index
    written_index = ap (λ (p : Prep F). p.st_block_index) (write_index n g)

    write_segment-IsChained :
        IsChained 1 (write_segment n g).prep.st_block_index (write_segment n g).driver
    write_segment-IsChained = rw written_index (
        written-IsChained g.prep.st_block_index g.driver (write_segment n g).driver
          (write-Written n g) h)

    bail-Safe : Safe g (end_motion (write_segment n g))
    bail-Safe =
        let g1 = write_segment n g in
        let p = end_motion-Phase ops r c j g1 in
        let there : (end_motion g1).planner.pl_block ≡ some j =
          p.pl_block_lem ∙ ap (λ (q : Planner F). q.pl_block) (write_planner n g) ∙ block in
        (
          Keeps-trans g.driver g1.driver (end_motion g1).driver write_segment-Keeps
              (Phase-Keeps g1 (end_motion g1) p),
          inr (
            Phase-IsChained 1 g1 (end_motion g1) p write_segment-IsChained,
            inl (λ e. some≢none (sym there ∙ e)),
          ),
        )

    go_on-Safe :
        (mm dt left n_left last_left : F)
        → SafeRound g (
            finish_round ops r j mm
              (emit_segment ops r j mm dt left n_left last_left (write_segment n g)))
    go_on-Safe mm dt left n_left last_left =
        let g1 = write_segment n g in
        let w = write-Written n g in
        let own : block_index g1.driver g1.driver.head ≡ g1.prep.st_block_index =
          ap (block_index g1.driver) w.head_lem ∙ w.index_lem ∙ sym written_index in
        let free : g1.driver.tail ≢ g1.driver.next_head =
          λ e. room (sym w.tail_lem ∙ e ∙ w.next_head_lem) in
        let (k, chained) =
          emit-Keeps ops r c j mm dt left n_left last_left g1 write_segment-IsChained free own in
        finish-Safe mm g (emit_segment ops r j mm dt left n_left last_left g1)
          (Keeps-trans g.driver g1.driver
            (emit_segment ops r j mm dt left n_left last_left g1).driver write_segment-Keeps k)
          chained

  close-Safe :
      (w : Walk F) (g : Generator F)
      → IsChained 1 g.prep.st_block_index g.driver
      → g.driver.tail ≢ g.driver.next_head
      → g.planner.pl_block ≡ some j
      → SafeRound g (close_segment ops r j w g)
  unfolding close_segment
  close-Safe w g h room block =
      let left = ops.mul g.prep.step_per_mm w.mm_remaining in
      let n_left = r.ceil left in
      let last_left = r.ceil g.prep.steps_remaining in
      let n = r.truncate (ops.sub last_left n_left) % 65536 in
      let g1 = write_segment n g in
      if_cases (SafeRound g) (n == 0 && (control g1).execute_hold)
        (Outcome.returned (end_motion g1))
        (finish_round ops r j w.mm_remaining
          (emit_segment ops r j w.mm_remaining w.dt left n_left last_left g1))
        (λ e. bail-Safe n g h room block)
        (λ e. go_on-Safe n g h room block w.mm_remaining w.dt left n_left last_left)

  pub take_walk-Phase : (w : Walk F) (g : Generator F) → Phase g (take_walk w g)
  unfolding take_walk
  take_walk-Phase w g = record {
    ring = record {
      tail_lem = refl;
      head_lem = refl;
      next_head_lem = refl;
      st_lem = refl;
      position_lem = refl;
      busy_lem = refl;
      segments_lem = refl;
    };
    blocks_lem = refl;
    index_lem = refl;
    pl_block_lem = refl;
  }

  pub make-Safe :
      (w : Walk F) (g : Generator F)
      → IsChained 1 g.prep.st_block_index g.driver
      → g.driver.tail ≢ g.driver.next_head
      → g.planner.pl_block ≡ some j
      → SafeRound g (make_segment ops r c j w g)
  unfolding make_segment
  make-Safe w g h room block =
      let g1 = take_walk w g in
      let p = take_walk-Phase w g in
      let g2 = update_pwm ops r c j g1 in
      let q = update_pwm-Phase ops r c j g1 in
      let s =
        close-Safe w g2 (Phase-IsChained 1 g1 g2 q (Phase-IsChained 1 g g1 p h))
          (Phase-room g1 g2 q (Phase-room g g1 p room)) (q.pl_block_lem ∙ p.pl_block_lem ∙ block) in
      (
        Keeps-trans g.driver g1.driver (state (close_segment ops r j w g2)).driver
            (Phase-Keeps g g1 p)
            (Keeps-trans g1.driver g2.driver (state (close_segment ops r j w g2)).driver
              (Phase-Keeps g1 g2 q) s.0),
        s.1,
      )
