-- ===== src/Planner/Reinitialize.antt =====
-- `plan_cycle_reinitialize` of planner.c makes a plan that can be executed.
use grbl_mega_plasma.Prelude.{ℕ, ◌<◌, ◌≡◌, refl, sym, subst, ◌≢◌, arith, Option, none, some}
use grbl_mega_plasma.Floats.{Floats, IsOrdered}
use grbl_mega_plasma.Planner.{
  Planner, block_buffer_size, put, set_entry, replan_block, st_update_plan_block_parameters,
}
use grbl_mega_plasma.Planner.Recalculate.{plan_cycle_reinitialize, planner_recalculate}
use grbl_mega_plasma.Planner.Append.{IsExecutable}
use grbl_mega_plasma.Planner.Plan.{IsPlanned, InStep}
use grbl_mega_plasma.Planner.Notice.{update-Keeps}
use grbl_mega_plasma.Planner.Laws.{replanned}

module _ {F : Type 0} (ops : Floats F) where
  -- The planned block put back to the first one.
  unplanned :
      (s : Planner F)
      → IsExecutable ops s
      → InStep ops s
      → IsPlanned ops (record s { planned = s.tail })
  unplanned s x step =
      let t_in : s.tail < block_buffer_size = x.valid.tail_in in
      record {
        valid = record {
          tail_in = t_in;
          head_in = x.valid.head_in;
          planned_in = t_in;
          next_head_lem = x.valid.next_head_lem;
          planned_between = omega arith;
        };
        smooth = x.smooth;
        reached = λ i l m n. absurd (omega arith);
        in_step = step;
      }

  update-unplanned :
      (s : Planner F)
      → record (st_update_plan_block_parameters ops s) {
        planned = (st_update_plan_block_parameters ops s).tail;
      }
        ≡ st_update_plan_block_parameters ops (record s { planned = s.tail })
  unfolding st_update_plan_block_parameters replan_block set_entry put
  update-unplanned s = go s.pl_block
    where
      go :
          (o : Option ℕ)
          → ◌≡◌ {A = Planner F}
              (record (elim o [ none ↦ s | some i ↦ replan_block ops i s ]) {
                planned =
                    (elim o as (λ _. Planner F) [ none ↦ s | some i ↦ replan_block ops i s ]).tail;
              })
              (elim o [
                | none ↦ record s { planned = s.tail }
                | some i ↦ replan_block ops i (record s { planned = s.tail })
              ])
      go none = refl
      go (some i) = refl

  -- If blocks wait, the plan can be executed and the stepper is slow enough for it, then the plan
  -- that `plan_cycle_reinitialize` makes from the stepper's speed can be executed.
  pub reinitialize-IsExecutable :
      (s : Planner F)
      → IsOrdered ops
      → IsExecutable ops s
      → InStep ops s
      → s.tail ≢ s.head
      → IsExecutable ops (plan_cycle_reinitialize ops s)
  unfolding plan_cycle_reinitialize
  reinitialize-IsExecutable s ordered x step ne =
      let t = record s { planned = s.tail } in
      let k = update-Keeps ops t (unplanned s x step) refl (λ e. ne (sym e)) in
      let u = st_update_plan_block_parameters ops t in
      let u_tail : u.tail ≡ s.tail = k.tail_lem in
      let u_head : u.head ≡ s.head = k.head_lem in
      subst (λ (v : Planner F). IsExecutable ops (planner_recalculate ops v))
        (sym (update-unplanned s)) (replanned ops u ordered k.plan (omega arith))
