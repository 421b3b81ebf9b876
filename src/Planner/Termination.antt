-- ===== src/Planner/Termination.antt =====
-- The loops of planner.c end: more fuel than the 36 blocks of the ring changes nothing.
use grbl_mega_plasma.Prelude.{
  ℕ, zero, suc, ◌+◌, ◌-◌, ◌%◌, ◌≤◌, ◌<◌, ◌≡◌, refl, sym, ap, ◌∙◌, Bool, true, arith, ◌==◌,
  if◌then◌else◌, if_cases, inl, inr, Option, none, some,
}
use grbl_mega_plasma.Planner.Smooth.{eq_cases}
use grbl_mega_plasma.Floats.{Floats}
use grbl_mega_plasma.Planner.{
  Planner, block_buffer_size, plan_next_block_index, plan_prev_block_index, set_entry, put,
  replan_block, st_update_plan_block_parameters,
}
use grbl_mega_plasma.Planner.Recalculate.{
  slow_down, notify_at_tail, reverse_pass, speed_up, mark_planned, forward_pass,
}
use grbl_mega_plasma.Planner.Profile.{
  Overrides, plan_compute_profile_nominal_speed, plan_compute_profile_parameters, update_profiles,
}
use grbl_mega_plasma.Planner.Order.{offset, plan_next_block_index_lem, plan_prev_block_index_lem}

module _ {F : Type 0} (ops : Floats F) where
  update_planned : (s : Planner F) → (st_update_plan_block_parameters ops s).planned ≡ s.planned
  unfolding st_update_plan_block_parameters replan_block set_entry put
  update_planned s = go s.pl_block
    where
      go :
          (o : Option ℕ)
          → (elim o as (λ _. Planner F) [ none ↦ s | some i ↦ replan_block ops i s ]).planned
            ≡ s.planned
      go none = refl
      go (some i) = refl

  notify_planned : (i : ℕ) (s : Planner F) → (notify_at_tail ops i s).planned ≡ s.planned
  unfolding notify_at_tail
  notify_planned i s =
      if_cases (λ (t : Planner F). t.planned ≡ s.planned) (i == s.tail)
        (st_update_plan_block_parameters ops s) s (λ h. update_planned s) (λ h. refl)

  slow_down_planned : (i next : ℕ) (s : Planner F) → (slow_down ops i next s).planned ≡ s.planned
  unfolding slow_down set_entry put
  slow_down_planned i next s =
      if_cases (λ (t : Planner F). t.planned ≡ s.planned) _ s _ (λ h. refl) (λ h. refl)

  speed_up_head : (i next : ℕ) (s : Planner F) → (speed_up ops i next s).head ≡ s.head
  unfolding speed_up set_entry put
  speed_up_head i next s = ground arith

  mark_head : (next : ℕ) (s : Planner F) → (mark_planned ops next s).head ≡ s.head
  unfolding mark_planned
  mark_head next s = ground arith

  reverse_done :
      (fuel next i : ℕ) (s : Planner F) → i ≡ s.planned → reverse_pass ops fuel next i s ≡ s
  unfolding reverse_pass
  reverse_done zero next i s same = refl
  reverse_done (suc fuel) next i s same =
      let test : (i == s.planned) ≡ true = ground arith in
      ap
        (λ (b : Bool).
          if b
          then s
          else reverse_pass ops fuel i (plan_prev_block_index i)
              (slow_down ops i next (notify_at_tail ops (plan_prev_block_index i) s)))
        test

  -- Two amounts of fuel that cover the distance to the planned block give the same.
  reverse_enough :
      (fuel more next i : ℕ) (s : Planner F)
      → i < block_buffer_size
      → s.planned < block_buffer_size
      → offset i s.planned ≤ fuel
      → offset i s.planned ≤ more
      → reverse_pass ops fuel next i s ≡ reverse_pass ops more next i s
  unfolding reverse_pass
  reverse_enough zero more next i s i_in p_in enough also =
      sym (reverse_done more next i s (omega arith))
  reverse_enough (suc fuel) zero next i s i_in p_in enough also =
      reverse_done (suc fuel) next i s (omega arith)
  reverse_enough (suc fuel) (suc more) next i s i_in p_in enough also =
      elim (eq_cases i s.planned) [
        | inl same ↦
            reverse_done (suc fuel) next i s same ∙ sym (reverse_done (suc more) next i s same)
        | inr ne ↦
            let b = plan_prev_block_index i in
            let b_lem : b ≡ (i + block_buffer_size - 1) % block_buffer_size =
              plan_prev_block_index_lem i i_in in
            let t = slow_down ops i next (notify_at_tail ops b s) in
            let t_planned : t.planned ≡ s.planned =
              slow_down_planned i next (notify_at_tail ops b s) ∙ notify_planned b s in
            ap (λ (r : Planner F). if i == s.planned then s else r)
              (reverse_enough fuel more i b t (omega arith) (omega arith) (omega arith)
                (omega arith))
      ]

  forward_done : (fuel cur i : ℕ) (s : Planner F) → i ≡ s.head → forward_pass ops fuel cur i s ≡ s
  unfolding forward_pass
  forward_done zero cur i s same = refl
  forward_done (suc fuel) cur i s same =
      let test : (i == s.head) ≡ true = ground arith in
      ap
        (λ (b : Bool).
          if b
          then s
          else forward_pass ops fuel i (plan_next_block_index i)
              (mark_planned ops i (speed_up ops cur i s)))
        test

  -- Two amounts of fuel that cover the distance to the head give the same.
  forward_enough :
      (fuel more cur i : ℕ) (s : Planner F)
      → i < block_buffer_size
      → s.head < block_buffer_size
      → offset s.head i ≤ fuel
      → offset s.head i ≤ more
      → forward_pass ops fuel cur i s ≡ forward_pass ops more cur i s
  unfolding forward_pass
  forward_enough zero more cur i s i_in h_in enough also =
      sym (forward_done more cur i s (omega arith))
  forward_enough (suc fuel) zero cur i s i_in h_in enough also =
      forward_done (suc fuel) cur i s (omega arith)
  forward_enough (suc fuel) (suc more) cur i s i_in h_in enough also = elim (eq_cases i s.head) [
    | inl same ↦ forward_done (suc fuel) cur i s same ∙ sym (forward_done (suc more) cur i s same)
    | inr ne ↦
        let n = plan_next_block_index i in
        let n_lem : n ≡ (i + 1) % block_buffer_size = plan_next_block_index_lem i i_in in
        let t = mark_planned ops i (speed_up ops cur i s) in
        let t_head : t.head ≡ s.head = mark_head i (speed_up ops cur i s) ∙ speed_up_head cur i s in
        ap (λ (r : Planner F). if i == s.head then s else r)
          (forward_enough fuel more i n t (omega arith) (omega arith) (omega arith) (omega arith))
  ]

  update_done :
      (fuel : ℕ) (o : Overrides) (i : ℕ) (previous : F) (s : Planner F)
      → i ≡ s.head
      → update_profiles ops (suc fuel) o i previous s
        ≡ record s { previous_nominal_speed = previous }
  unfolding update_profiles
  update_done fuel o i previous s same =
      let b = s.block_buffer i in
      let nominal = plan_compute_profile_nominal_speed ops o b in
      let test : (i == s.head) ≡ true = ground arith in
      ap
        (λ (t : Bool).
          if t
          then record s { previous_nominal_speed = previous }
          else update_profiles ops fuel o (plan_next_block_index i) nominal
              (put i (plan_compute_profile_parameters ops nominal previous b) s))
        test

  -- Two amounts of fuel of more than the distance to the head give the same.
  update_enough :
      (fuel more : ℕ) (o : Overrides) (i : ℕ) (previous : F) (s : Planner F)
      → i < block_buffer_size
      → s.head < block_buffer_size
      → offset s.head i < fuel
      → offset s.head i < more
      → update_profiles ops fuel o i previous s ≡ update_profiles ops more o i previous s
  unfolding update_profiles put
  update_enough zero more o i previous s i_in h_in enough also = absurd (omega arith)
  update_enough (suc fuel) zero o i previous s i_in h_in enough also = absurd (omega arith)
  update_enough (suc fuel) (suc more) o i previous s i_in h_in enough also =
      elim (eq_cases i s.head) [
        | inl same ↦
            update_done fuel o i previous s same ∙ sym (update_done more o i previous s same)
        | inr ne ↦
            let b = s.block_buffer i in
            let nominal = plan_compute_profile_nominal_speed ops o b in
            let n = plan_next_block_index i in
            let n_lem : n ≡ (i + 1) % block_buffer_size = plan_next_block_index_lem i i_in in
            let t = put i (plan_compute_profile_parameters ops nominal previous b) s in
            ap
              (λ (r : Planner F).
                if i == s.head then record s { previous_nominal_speed = previous } else r)
              (update_enough fuel more o n nominal t (omega arith) h_in (omega arith) (omega arith))
      ]

  -- From any index of the ring, each of the three loops over it (the reverse pass to the planned
  -- block, the forward pass and the update of the profiles to the head) ends within its fuel of 36
  -- rounds: with any more fuel it gives the same state.
  pub loops_end :
      (fuel next i : ℕ) (o : Overrides) (previous : F) (s : Planner F)
      → i < block_buffer_size
      → s.planned < block_buffer_size
      → s.head < block_buffer_size
      → block_buffer_size ≤ fuel
      → (reverse_pass ops fuel next i s ≡ reverse_pass ops block_buffer_size next i s)
        × (forward_pass ops fuel next i s ≡ forward_pass ops block_buffer_size next i s)
        × (update_profiles ops fuel o i previous s
            ≡ update_profiles ops block_buffer_size o i previous s)
  loops_end fuel next i o previous s i_in p_in h_in more = (
    reverse_enough fuel block_buffer_size next i s i_in p_in (omega arith) (omega arith),
    forward_enough fuel block_buffer_size next i s i_in h_in (omega arith) (omega arith),
    update_enough fuel block_buffer_size o i previous s i_in h_in (omega arith) (omega arith),
  )
