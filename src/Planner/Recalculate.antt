-- ===== src/Planner/Recalculate.antt =====
-- `planner_recalculate` and `plan_cycle_reinitialize` of planner.c. Each loop runs on fuel, one unit
-- a round; a ring has 36 blocks.
use grbl_mega_plasma.Prelude.{ℕ, zero, suc, ◌==◌, if◌then◌else◌}
use grbl_mega_plasma.Floats.{Floats, min}
use grbl_mega_plasma.Planner.{
  Planner, set_entry, gain, block_buffer_size, plan_next_block_index, plan_prev_block_index,
  st_update_plan_block_parameters,
}

module _ {F : Type 0} (ops : Floats F) where
  -- The body of the reverse pass below the notice to the stepper.
  unfoldable pub slow_down : ℕ → ℕ → Planner F → Planner F
  slow_down cur next s =
      let b = s.block_buffer cur in
      let v = ops.add (s.block_buffer next).entry_speed_sqr (gain ops b) in
      if ops.eq b.entry_speed_sqr b.max_entry_speed_sqr
      then s
      else set_entry cur (if ops.lt v b.max_entry_speed_sqr then v else b.max_entry_speed_sqr) s

  -- `if (block_index == block_buffer_tail) { st_update_plan_block_parameters(); }`
  unfoldable pub notify_at_tail : ℕ → Planner F → Planner F
  notify_at_tail i s = if i == s.tail then st_update_plan_block_parameters ops s else s

  -- `while (block_index != block_buffer_planned)`, with `current` of the last round as `next`.
  unfoldable pub reverse_pass : ℕ → ℕ → ℕ → Planner F → Planner F
  reverse_pass zero next i s = s
  reverse_pass (suc fuel) next i s =
      let before = plan_prev_block_index i in
      let rest = reverse_pass fuel i before (slow_down i next (notify_at_tail before s)) in
      if i == s.planned then s else rest

  -- The body of the forward pass.
  unfoldable pub speed_up : ℕ → ℕ → Planner F → Planner F
  speed_up cur next s =
      let entry = (s.block_buffer cur).entry_speed_sqr in
      let v = ops.add entry (gain ops (s.block_buffer cur)) in
      let old = (s.block_buffer next).entry_speed_sqr in
      if ops.lt entry old
      then (if ops.lt v old then record (set_entry next v s) { planned = next } else s)
      else s

  unfoldable pub mark_planned : ℕ → Planner F → Planner F
  mark_planned next s =
      let b = s.block_buffer next in
      if ops.eq b.entry_speed_sqr b.max_entry_speed_sqr then record s { planned = next } else s

  -- `while (block_index != block_buffer_head)`, with `next` of the last round as `current`.
  unfoldable pub forward_pass : ℕ → ℕ → ℕ → Planner F → Planner F
  forward_pass zero cur i s = s
  forward_pass (suc fuel) cur i s =
      let rest =
        forward_pass fuel i (plan_next_block_index i) (mark_planned i (speed_up cur i s)) in
      if i == s.head then s else rest

  -- The maximum entry speed of the last block, which ends at rest.
  unfoldable pub plan_last : ℕ → Planner F → Planner F
  plan_last i s =
      let b = s.block_buffer i in set_entry i (min ops b.max_entry_speed_sqr (gain ops b)) s

  -- The reverse pass, begun at the last block.
  unfoldable pub reverse_from : ℕ → Planner F → Planner F
  reverse_from last s =
      let i = plan_prev_block_index last in
      let s1 = plan_last last s in
      if i == s1.planned then notify_at_tail i s1 else reverse_pass block_buffer_size last i s1

  unfoldable pub forward_from : Planner F → Planner F
  forward_from s = forward_pass block_buffer_size s.planned (plan_next_block_index s.planned) s

  unfoldable pub planner_recalculate : Planner F → Planner F
  planner_recalculate s =
      let last = plan_prev_block_index s.head in
      if last == s.planned then s else forward_from (reverse_from last s)

  unfoldable pub plan_cycle_reinitialize : Planner F → Planner F
  plan_cycle_reinitialize s =
      let s1 = st_update_plan_block_parameters ops s in
      planner_recalculate (record s1 { planned = s1.tail })
