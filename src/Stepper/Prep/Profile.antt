-- ===== src/Stepper/Prep/Profile.antt =====
-- The part of `st_prep_buffer` of stepper.c that begins a block: it loads the block's data, unless only
-- the velocity profile is to be computed again, and computes that profile.
use grbl_mega_plasma.Prelude.{ℕ, true, false, not, ◌||◌, ◌&&◌, some, if◌then◌else◌}
use grbl_mega_plasma.Floats.{ℤ, Floats, at_most}
use grbl_mega_plasma.Planner.{Block, put, gain, plan_get_exec_block_exit_speed_sqr}
use grbl_mega_plasma.Planner.Profile.{Overrides, plan_compute_profile_nominal_speed}
use grbl_mega_plasma.Stepper.Prep.{
  Ramp, Prep, Generator, PrepSettings, control, set_control, store_block,
}

module _ {F : Type 0} (ops : Floats F) where
  abbrev nil_float : F
  nil_float = ops.literal 0 0

  -- A block loaded in mid-hold starts at the speed that the last one ends with.
  unfoldable pub load_speed : ℕ → Generator F → Generator F
  load_speed j g =
      let b = g.planner.block_buffer j in
      let v = g.prep.exit_speed in
      if (control g).execute_hold || g.prep.flag_decel_override
      then record g {
        planner = record (put j (record b { entry_speed_sqr = ops.mul v v }) g.planner) {
          current_speed = v;
        };
        prep = record (g.prep) { flag_decel_override = false };
      }
      else record g { planner = record (g.planner) { current_speed = ops.sqrt b.entry_speed_sqr } }

  unfoldable pub set_up_block : PrepSettings F → Block F → Generator F → Generator F
  unfolding store_block
  set_up_block c b g =
      let g1 = store_block c b g in
      let steps = ops.of_int (ℤ.pos b.step_event_count) in
      let per_mm = ops.div steps b.millimeters in
      record g1 {
        prep = record (g1.prep) {
          steps_remaining = steps;
          step_per_mm = per_mm;
          req_mm_increment = ops.div (ops.literal 125 2) per_mm;
          dt_remainder = nil_float;
          inv_rate =
              if c.spindle.laser_mode && b.condition.spindle_ccw
              then ops.div (ops.literal 1 0) b.programmed_rate
              else g1.prep.inv_rate;
        };
      }

  unfoldable pub load_block : PrepSettings F → ℕ → Generator F → Generator F
  unfolding set_up_block load_speed
  load_block c j g = load_speed j (set_up_block c (g.planner.block_buffer j) g)

  -- A recomputation clears the flags, a new block is loaded.
  unfoldable pub load_or_recompute : PrepSettings F → ℕ → Generator F → Generator F
  unfolding load_block
  load_or_recompute c j g =
      if g.planner.recalculate_flag
      then record g {
        planner = record (g.planner) { recalculate_flag = false };
        prep = record (g.prep) { flag_decel_override = false };
      }
      else load_block c j g

  abbrev half_inverse : Block F → F
  half_inverse b = ops.div (ops.literal 5 1) b.acceleration

  -- The profile of a forced deceleration.
  unfoldable pub hold_profile : Block F → Prep F → Prep F
  hold_profile b p =
      let decel_dist = ops.sub b.millimeters (ops.mul (half_inverse b) b.entry_speed_sqr) in
      if ops.lt decel_dist nil_float
      then record p {
        ramp_type = Ramp.decel;
        mm_complete = nil_float;
        exit_speed = ops.sqrt (ops.sub b.entry_speed_sqr (gain ops b));
      }
      else record p { ramp_type = Ramp.decel; mm_complete = decel_dist; exit_speed = nil_float }

  -- The profile of a block that is entered faster than its nominal speed.
  unfoldable pub override_profile : Block F → F → F → Prep F → Prep F
  override_profile b nominal exit_sqr p =
      let nominal_sqr = ops.mul nominal nominal in
      let until =
        ops.sub b.millimeters (ops.mul (half_inverse b) (ops.sub b.entry_speed_sqr nominal_sqr)) in
      let p1 = record p { accelerate_until = until } in
      if at_most ops until nil_float
      then record p1 {
        ramp_type = Ramp.decel;
        exit_speed = ops.sqrt (ops.sub b.entry_speed_sqr (gain ops b));
        flag_decel_override = true;
      }
      else record p1 {
        decelerate_after = ops.mul (half_inverse b) (ops.sub nominal_sqr exit_sqr);
        maximum_speed = nominal;
        ramp_type = Ramp.decel_override;
      }

  -- Trapezoid and triangle.
  unfoldable pub cruise_profile : Block F → F → F → F → Prep F → Prep F
  cruise_profile b nominal exit_sqr intersect p =
      let nominal_sqr = ops.mul nominal nominal in
      let after = ops.mul (half_inverse b) (ops.sub nominal_sqr exit_sqr) in
      let p1 = record p { decelerate_after = after; maximum_speed = nominal } in
      if ops.lt after intersect
      then (if ops.eq b.entry_speed_sqr nominal_sqr
          then record p1 { ramp_type = Ramp.cruise }
          else record p1 {
            accelerate_until =
                ops.sub p1.accelerate_until
                  (ops.mul (half_inverse b) (ops.sub nominal_sqr b.entry_speed_sqr));
          })
      else record p {
        accelerate_until = intersect;
        decelerate_after = intersect;
        maximum_speed =
            ops.sqrt
              (ops.add (ops.mul (ops.mul (ops.literal 2 0) b.acceleration) intersect) exit_sqr);
      }

  unfoldable pub normal_profile : Block F → F → F → F → Prep F → Prep F
  unfolding override_profile cruise_profile
  normal_profile b nominal exit_sqr exit_speed p =
      let p1 = record p {
        mm_complete = nil_float;
        ramp_type = Ramp.accel;
        accelerate_until = b.millimeters;
        exit_speed = exit_speed;
      } in
      let intersect =
        ops.mul (ops.literal 5 1)
          (ops.add b.millimeters (ops.mul (half_inverse b) (ops.sub b.entry_speed_sqr exit_sqr))) in
      if ops.lt (ops.mul nominal nominal) b.entry_speed_sqr
      then override_profile b nominal exit_sqr p1
      else if not (ops.lt nil_float intersect)
      then record p1 { accelerate_until = nil_float; maximum_speed = exit_speed }
      else if ops.lt intersect b.millimeters
      then cruise_profile b nominal exit_sqr intersect p1
      else record p1 { ramp_type = Ramp.decel }

  unfoldable pub new_profile : ℕ → Generator F → Prep F
  unfolding hold_profile normal_profile
  new_profile j g =
      let b = g.planner.block_buffer j in
      let sys = g.driver.machine.sys in
      let o : Overrides = record { r_override = sys.r_override; f_override = sys.f_override } in
      let exit_sqr =
        if (control g).execute_sys_motion
        then nil_float
        else plan_get_exec_block_exit_speed_sqr ops g.planner in
      let exit_speed = if (control g).execute_sys_motion then nil_float else ops.sqrt exit_sqr in
      if (control g).execute_hold
      then hold_profile b g.prep
      else normal_profile b (plan_compute_profile_nominal_speed ops o b) exit_sqr exit_speed g.prep

  -- The part of a round for a block that `pl_block` does not yet point to.
  unfoldable pub begin_block : PrepSettings F → ℕ → Generator F → Generator F
  unfolding set_control
  begin_block c j g =
      let g1 =
        load_or_recompute c j (record g { planner = record (g.planner) { pl_block = some j } }) in
      set_control (record (control g1) { update_spindle_pwm = true })
        (record g1 { prep = new_profile j g1 })
