-- ===== src/Planner/Stale.antt =====
-- Two runs in which planner.c works with stale plans, on the numbers of Planner/Tests.
use grbl_mega_plasma.Prelude.{ℕ, zero, suc, ◌*◌, ◌≡◌, refl}
use grbl_mega_plasma.Floats.{min}
use grbl_mega_plasma.Planner.{
  Block, Planner, put, gain, plan_next_block_index, plan_prev_block_index, set_entry, replan_block,
  st_update_plan_block_parameters,
}
use grbl_mega_plasma.Planner.Recalculate.{
  plan_cycle_reinitialize, planner_recalculate, reverse_pass, forward_pass, reverse_from,
  forward_from, plan_last, notify_at_tail, slow_down, speed_up, mark_planned,
}
use grbl_mega_plasma.Planner.Profile.{
  update_profiles, plan_compute_profile_nominal_speed, plan_compute_profile_parameters,
  overridden_rate, junction_limit, plan_update_velocity_profile_parameters,
}
use grbl_mega_plasma.Fixtures.{fixed_ops}
use grbl_mega_plasma.Planner.Tests.{blank, start}

-- With an empty ring of blank blocks, `plan_cycle_reinitialize` moves the planned index away.
abbrev reinitialized : ℕ
reinitialized = (plan_cycle_reinitialize fixed_ops start).planned

reinitialize_empty : reinitialized ≡ 35
unfolding plan_cycle_reinitialize st_update_plan_block_parameters replan_block set_entry put
    plan_next_block_index plan_prev_block_index planner_recalculate reverse_from forward_from
    plan_last reverse_pass forward_pass notify_at_tail slow_down speed_up mark_planned min
reinitialize_empty = refl

-- Three blocks: the second is entered at its junction speed (10), the third is then slowed down from
-- a speed of 20 to one of 4 by a feed override of 20 percent.
abbrev row : ℕ → ℕ → ℕ → ℕ → ℕ → Block ℕ
row entry cap junction rate millimeters = record blank {
  entry_speed_sqr = entry * 1000;
  max_entry_speed_sqr = cap * 1000;
  max_junction_speed_sqr = junction * 1000;
  programmed_rate = rate * 1000;
  rapid_rate = 500000;
  acceleration = 10000;
  millimeters = millimeters * 1000;
}

abbrev three_blocks : ℕ → Block ℕ
three_blocks zero = row 0 0 0 50 10
three_blocks (suc zero) = row 100 100 100 50 3
three_blocks (suc (suc zero)) = row 160 400 900 20 8
three_blocks _ = blank

abbrev overridden : Planner ℕ
overridden = plan_cycle_reinitialize fixed_ops (
    plan_update_velocity_profile_parameters fixed_ops (record { r_override = 100; f_override = 20 })
      (record start { block_buffer = three_blocks; head = 3; next_head = 4; planned = 1 }))

abbrev second : ℕ
second = (overridden.block_buffer 1).entry_speed_sqr

abbrev third : ℕ
third = (overridden.block_buffer 2).entry_speed_sqr

-- The second block keeps its speed, from which it cannot slow down to that of the third.
no_slow_down : (second ≡ 100000) × (third ≡ 16000) × (gain fixed_ops (three_blocks 1) ≡ 60000)
unfolding plan_cycle_reinitialize st_update_plan_block_parameters replan_block set_entry put
    plan_next_block_index plan_prev_block_index planner_recalculate reverse_from forward_from
    plan_last reverse_pass forward_pass notify_at_tail slow_down speed_up mark_planned min
    plan_update_velocity_profile_parameters update_profiles plan_compute_profile_nominal_speed
    plan_compute_profile_parameters overridden_rate junction_limit
no_slow_down = (refl, refl, refl)
