-- ===== src/Planner/Profile.antt =====
-- The nominal and maximum entry speeds of a block in planner.c. `plan_update_velocity_profile` has a
-- loop round the ring, on fuel: a ring has 36 blocks.
use grbl_mega_plasma.Prelude.{ℕ, zero, suc, ◌^◌, ◌==◌, if◌then◌else◌}
use grbl_mega_plasma.Floats.{ℤ, Floats}
use grbl_mega_plasma.Planner.{Block, Planner, put, block_buffer_size, plan_next_block_index}

-- `sys.r_override` and `sys.f_override`
pub record Overrides : Type 0 where
  pub r_override : ℕ
  pub f_override : ℕ

module _ {F : Type 0} (ops : Floats F) where
  -- `MINIMUM_FEED_RATE` and `SOME_LARGE_VALUE`
  abbrev pub minimum_feed_rate : F
  minimum_feed_rate = ops.literal 1 0

  abbrev pub some_large_value : F
  some_large_value = ops.literal (10 ^ 38) 0

  -- `0.01*override` times the rate
  abbrev pub scale : ℕ → F → F
  scale percent rate = ops.mul rate (ops.mul (ops.literal 1 2) (ops.of_int (ℤ.pos percent)))

  unfoldable pub overridden_rate : Overrides → Block F → F
  overridden_rate o b =
      let fed =
        if b.condition.no_feed_override
        then b.programmed_rate
        else scale o.f_override b.programmed_rate in
      if b.condition.rapid_motion
      then scale o.r_override b.programmed_rate
      else if ops.lt b.rapid_rate fed
      then b.rapid_rate
      else fed

  unfoldable pub plan_compute_profile_nominal_speed : Overrides → Block F → F
  plan_compute_profile_nominal_speed o b =
      let v = overridden_rate o b in if ops.lt minimum_feed_rate v then v else minimum_feed_rate

  -- The new `max_entry_speed_sqr`.
  unfoldable pub junction_limit : F → F → F → F
  junction_limit junction nominal previous =
      let v =
        if ops.lt previous nominal then ops.mul previous previous else ops.mul nominal nominal in
      if ops.lt junction v then junction else v

  unfoldable pub plan_compute_profile_parameters : F → F → Block F → Block F
  plan_compute_profile_parameters nominal previous b = record b {
    max_entry_speed_sqr = junction_limit b.max_junction_speed_sqr nominal previous;
  }

  -- The loop, with `prev_nominal_speed` as an argument.
  unfoldable pub update_profiles : ℕ → Overrides → ℕ → F → Planner F → Planner F
  update_profiles zero o i previous s = s
  update_profiles (suc fuel) o i previous s =
      let b = s.block_buffer i in
      let nominal = plan_compute_profile_nominal_speed o b in
      let rest =
        update_profiles fuel o (plan_next_block_index i) nominal
          (put i (plan_compute_profile_parameters nominal previous b) s) in
      if i == s.head then record s { previous_nominal_speed = previous } else rest

  unfoldable pub plan_update_velocity_profile_parameters : Overrides → Planner F → Planner F
  plan_update_velocity_profile_parameters o s =
      update_profiles block_buffer_size o s.tail some_large_value s
