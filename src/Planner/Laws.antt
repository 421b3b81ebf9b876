-- ===== src/Planner/Laws.antt =====
-- What a plan computed by planner.c promises: every block can be executed from its entry speed.
use grbl_mega_plasma.Prelude.{
  ◌+◌, ◌-◌, ◌%◌, ◌<◌, ◌≡◌, refl, subst, ◌∙◌, ◌≢◌, arith, ◌==◌, ==_iff, if◌then◌else◌, if_cases,
  ◌||◌, none,
}
use grbl_mega_plasma.Floats.{ℤ, Floats, le, IsOrdered}
use grbl_mega_plasma.Planner.{
  Axes, Block, Planner, block_buffer_size, gain, put, plan_next_block_index, plan_prev_block_index,
}
use grbl_mega_plasma.Planner.Recalculate.{planner_recalculate, reverse_from, forward_from}
use grbl_mega_plasma.Planner.Order.{offset, plan_next_block_index_lem, plan_prev_block_index_lem}
use grbl_mega_plasma.Planner.Profile.{plan_compute_profile_parameters}
use grbl_mega_plasma.Planner.Line.{
  LineData, Context, next_block, limited_block, push_block, line_block, with_junction,
  plan_buffer_line, line_direction, junction_speed_sqr, empty_line, PlanResult, target_steps,
  base_steps,
}
use grbl_mega_plasma.Planner.Append.{IsExecutable, Appends, appended-IsPlanned, put_self, put_ne}
use grbl_mega_plasma.Planner.Smooth.{IsLive}
use grbl_mega_plasma.Planner.Plan.{IsPlanned, IsReached, InStep}
use grbl_mega_plasma.Planner.Kept.{put_head-IsExecutable}
use grbl_mega_plasma.Planner.Reverse.{reverse_from-Keeps}
use grbl_mega_plasma.Planner.Forward.{Advances, forward_pass-Advances}

module _ {F : Type 0} (ops : Floats F) where
  forward_from-Advances :
      (s : Planner F)
      → IsOrdered ops
      → IsPlanned ops s
      → IsLive s.tail s.head s.planned
      → Advances ops s (forward_from ops s) (offset s.head s.tail)
  unfolding forward_from
  forward_from-Advances s ordered p live =
      let t_in : s.tail < block_buffer_size = p.valid.tail_in in
      let h_in : s.head < block_buffer_size = p.valid.head_in in
      forward_pass-Advances ops ordered block_buffer_size s.planned
        (plan_next_block_index s.planned) s (plan_next_block_index_lem s.planned live.0) p.valid
        p.smooth p.reached live (omega arith)

  -- If blocks wait and the plan can be executed up to the planned one, then
  -- after `planner_recalculate` the same blocks wait; no block behind the first is entered above its
  -- maximum speed; each block can slow down to the entry speed of the next, and the last one to a
  -- stop; and each block can speed up to the entry speed of the next.
  pub recalculate-IsPlanned :
      (s : Planner F)
      → IsOrdered ops
      → IsPlanned ops s
      → s.tail ≢ s.head
      → Advances ops s (planner_recalculate ops s) (offset s.head s.tail)
  unfolding planner_recalculate
  recalculate-IsPlanned s ordered p ne_empty =
      let t_in : s.tail < block_buffer_size = p.valid.tail_in in
      let h_in : s.head < block_buffer_size = p.valid.head_in in
      let p_in : s.planned < block_buffer_size = p.valid.planned_in in
      let between = p.valid.planned_between in
      let last = plan_prev_block_index s.head in
      let last_lem : last ≡ (s.head + block_buffer_size - 1) % block_buffer_size =
        plan_prev_block_index_lem s.head h_in in
      if_cases (λ (t : Planner F). Advances ops s t (offset s.head s.tail)) (last == s.planned) s
        (forward_from ops (reverse_from ops last s))
        (λ h.
          let same : last ≡ s.planned = (==_iff last s.planned).0 h in
          record {
            valid = p.valid;
            smooth = p.smooth;
            reached = λ i l m n. p.reached i l m (omega arith);
            tail_lem = refl;
            head_lem = refl;
          })
        (λ h.
          let ne : last ≢ s.planned = ground arith in
          let r = reverse_from ops last s in
          let k =
            reverse_from-Keeps ops ordered last s p (omega arith, omega arith) (omega arith)
              (omega arith) in
          let r_tail : r.tail ≡ s.tail = k.tail_lem in
          let r_head : r.head ≡ s.head = k.head_lem in
          let r_planned : r.planned ≡ s.planned = k.planned_lem in
          let f = forward_from-Advances r ordered k.plan (omega arith, omega arith) in
          let far : offset r.head r.tail ≡ offset s.head s.tail = omega arith in
          record {
            valid = f.valid;
            smooth = f.smooth;
            reached = subst (IsReached ops (forward_from ops r)) far f.reached;
            tail_lem = f.tail_lem ∙ r_tail;
            head_lem = f.head_lem ∙ r_head;
          })

  pub replanned :
      (s : Planner F)
      → IsOrdered ops
      → IsPlanned ops s
      → s.tail ≢ s.head
      → IsExecutable ops (planner_recalculate ops s)
  replanned s ordered p ne =
      let r = planner_recalculate ops s in
      let a = recalculate-IsPlanned s ordered p ne in
      let r_tail : r.tail ≡ s.tail = a.tail_lem in
      let r_head : r.head ≡ s.head = a.head_lem in
      let far : offset s.head s.tail ≡ offset r.head r.tail = omega arith in
      record { valid = a.valid; smooth = a.smooth; reached = subst (IsReached ops r) far a.reached }

  push-Appends :
      (c : Context F) (u : Axes F) (goal : Axes ℤ) (b : Block F) (s : Planner F)
      → Appends ops (limited_block ops c s b) s (push_block ops c u goal b s)
  unfolding push_block put
  push-Appends c u goal b s = record {
    head_lem = refl;
    tail_lem = refl;
    planned_lem = refl;
    next_head_lem = refl;
    last_lem = put_self s.head s.head (limited_block ops c s b) s refl;
    others = λ j ne. put_ne s.head j (limited_block ops c s b) s ne;
    pl_block_lem = refl;
    speed_lem = refl;
  }

  -- Every line begins at rest.
  at_rest :
      (c : Context F) (target : Axes F) (d : LineData F) (s : Planner F)
      → (limited_block ops c s (next_block ops c target d s)).entry_speed_sqr ≡ ops.literal 0 0
  unfolding limited_block plan_compute_profile_parameters next_block with_junction line_block
  at_rest c target d s =
      let b = line_block ops c d (target_steps ops c target) (base_steps ops c d s) in
      let u = line_direction ops c target d s in
      if_cases (λ (b : Block F). b.entry_speed_sqr ≡ ops.literal 0 0)
        ((s.head == s.tail) || b.condition.system_motion) b
        (record b { max_junction_speed_sqr = junction_speed_sqr ops c s.previous_unit_vec u })
        (λ h. refl) (λ h. refl)

  -- If the plan of a ring with room can be executed, the stepper is slow enough for it, and the
  -- new line's acceleration times length and its maximum entry speed are not negative, then after
  -- `plan_buffer_line`, on each of its branches, the plan can be executed: no block behind the
  -- first is entered above its maximum speed, each can slow down and speed up to the entry speed of
  -- the next, and the last one can slow down to a stop.
  pub buffer_line-IsExecutable :
      (c : Context F) (target : Axes F) (d : LineData F) (s : Planner F)
      → IsOrdered ops
      → IsExecutable ops s
      → InStep ops s
      → (s.tail ≡ s.head → s.pl_block ≡ none)
      → s.next_head ≢ s.tail
      → le ops (ops.literal 0 0) (gain ops (limited_block ops c s (next_block ops c target d s)))
      → le ops
          (ops.literal 0 0)
          (limited_block ops c s (next_block ops c target d s)).max_entry_speed_sqr
      → IsExecutable ops (plan_buffer_line ops c target d s).1
  unfolding plan_buffer_line
  buffer_line-IsExecutable c target d s ordered x step idle room forward bound =
      let b = next_block ops c target d s in
      let goal = target_steps ops c target in
      let t = push_block ops c (line_direction ops c target d s) goal b s in
      let a = push-Appends c (line_direction ops c target d s) goal b s in
      let P : (PlanResult × Planner F) → Type 0 = λ r. IsExecutable ops r.1 in
      let none_added : PlanResult × Planner F =
        (PlanResult.empty_block, put s.head (empty_line ops c d goal (base_steps ops c d s)) s) in
      if_cases P (b.step_event_count == 0) none_added
        (if d.condition.system_motion
          then (PlanResult.ok, put s.head b s)
          else (PlanResult.ok, planner_recalculate ops t))
        (λ h. put_head-IsExecutable ops (empty_line ops c d goal (base_steps ops c d s)) s x)
        (λ h.
          if_cases P d.condition.system_motion (PlanResult.ok, put s.head b s)
            (PlanResult.ok, planner_recalculate ops t) (λ k. put_head-IsExecutable ops b s x)
            (λ k.
              let t_in : s.tail < block_buffer_size = x.valid.tail_in in
              let h_in : s.head < block_buffer_size = x.valid.head_in in
              let th : t.head ≡ s.next_head = a.head_lem in
              let tt : t.tail ≡ s.tail = a.tail_lem in
              replanned t ordered
                (appended-IsPlanned ops ordered (limited_block ops c s b) s t x a room
                  (at_rest c target d s) forward bound idle step)
                (omega arith)))
