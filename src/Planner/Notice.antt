-- ===== src/Planner/Notice.antt =====
-- The notice to the stepper in `planner_recalculate` keeps a plan that can be executed.
use grbl_mega_plasma.Prelude.{ℕ, ◌<◌, ◌≡◌, refl, sym, subst, ◌∙◌, ◌≢◌, arith, Option, none, some}
use grbl_mega_plasma.Floats.{Floats, le}
use grbl_mega_plasma.Planner.{
  Planner, block_buffer_size, set_entry, put, replan_block, st_update_plan_block_parameters,
}
use grbl_mega_plasma.Planner.Smooth.{exit}
use grbl_mega_plasma.Planner.Plan.{entries, gains, IsPlanned, IsSmooth-set_entry}

module _ {F : Type 0} (ops : Floats F) where
  -- A plan that can be executed, with the indices of another state.
  pub record Keeps (s t : Planner F) : Type 0 where
    pub plan : IsPlanned ops t
    pub tail_lem : t.tail ≡ s.tail
    pub head_lem : t.head ≡ s.head
    pub planned_lem : t.planned ≡ s.planned

  pub Keeps-self : (s : Planner F) → IsPlanned ops s → Keeps s s
  Keeps-self s p = record { plan = p; tail_lem = refl; head_lem = refl; planned_lem = refl }

  pub Keeps-trans : (r s t : Planner F) → Keeps r s → Keeps s t → Keeps r t
  Keeps-trans r s t h k = record {
    plan = k.plan;
    tail_lem = k.tail_lem ∙ h.tail_lem;
    head_lem = k.head_lem ∙ h.head_lem;
    planned_lem = k.planned_lem ∙ h.planned_lem;
  }

  pub Keeps-set_entry :
      (i : ℕ) (v : F) (s : Planner F) → IsPlanned ops (set_entry i v s) → Keeps s (set_entry i v s)
  unfolding set_entry put
  Keeps-set_entry i v s p = record {
    plan = p;
    tail_lem = refl;
    head_lem = refl;
    planned_lem = refl;
  }

  -- The stepper's notice, when the first block is the planned one.
  module _ (s : Planner F) (p : IsPlanned ops s) (at_tail : s.planned ≡ s.tail)
      (ne : s.head ≢ s.tail) where
    replan-IsPlanned :
        le ops
          (ops.mul s.current_speed s.current_speed)
          (ops.add (exit ops (entries ops s) s.head s.tail) (gains ops s s.tail))
        → Keeps s (replan_block ops s.tail s)
    unfolding replan_block set_entry put
    replan-IsPlanned slow =
        let t_in : s.tail < block_buffer_size = p.valid.tail_in in
        let h_in : s.head < block_buffer_size = p.valid.head_in in
        record {
          plan = record {
            valid = record {
              tail_in = p.valid.tail_in;
              head_in = p.valid.head_in;
              planned_in = p.valid.planned_in;
              next_head_lem = p.valid.next_head_lem;
              planned_between = p.valid.planned_between;
            };
            smooth =
                IsSmooth-set_entry ops s.tail (ops.mul s.current_speed s.current_speed) s p.smooth
                  h_in (t_in, omega arith) (λ h. absurd (omega arith)) slow
                  (λ j l next. absurd (omega arith));
            reached = λ i l m n. absurd (omega arith);
            in_step = λ i e. absurd cc;
          };
          tail_lem = refl;
          head_lem = refl;
          planned_lem = refl;
        }

    pub update-Keeps : Keeps s (st_update_plan_block_parameters ops s)
    unfolding st_update_plan_block_parameters
    update-Keeps = go s.pl_block refl
      where
        go :
            (o : Option ℕ)
            → s.pl_block ≡ o
            → Keeps s (elim o [ none ↦ s | some i ↦ replan_block ops i s ])
        go none e = Keeps-self s p
        go (some i) e =
            let h = p.in_step i e in
            subst (λ (k : ℕ). Keeps s (replan_block ops k s)) (sym h.0) (replan-IsPlanned h.1)
