-- ===== src/Stepper/Prep/Walk.antt =====
-- The loop of `st_prep_buffer` that follows the velocity profile for the time of one segment. It is
-- run for a number of rounds; `none` means that it has not ended by then.
use grbl_mega_plasma.Prelude.{ℕ, zero, suc, Bool, false, ◌&&◌, Option, none, some, if◌then◌else◌}
use grbl_mega_plasma.Floats.{Floats, at_most}
use grbl_mega_plasma.Planner.{Block}
use grbl_mega_plasma.Stepper.Prep.{Ramp, Prep}

-- The loop's variables, with `prep.ramp_type` and `prep.current_speed`.
pub record Walk (F : Type 0) : Type 0 where
  pub ramp_type : Ramp
  pub current_speed : F
  pub dt_max : F
  pub dt : F
  pub time_var : F
  pub mm_remaining : F

module _ {F : Type 0} (ops : Floats F) where
  -- `DT_SEGMENT`
  abbrev pub dt_segment : F
  dt_segment = ops.div (ops.literal 1 0) (ops.literal 6000 0)

  abbrev two : F
  two = ops.literal 2 0

  abbrev half : F
  half = ops.literal 5 1

  -- The time for a distance between two speeds.
  abbrev travel_time : F → F → F → F
  travel_time distance u v = ops.div (ops.mul two distance) (ops.add u v)

  unfoldable pub walk_decel_override : Prep F → Block F → Walk F → Walk F
  walk_decel_override p b w =
      let speed_var = ops.mul b.acceleration w.time_var in
      if at_most ops (ops.sub w.current_speed p.maximum_speed) speed_var
      then record w {
        mm_remaining = p.accelerate_until;
        time_var =
            travel_time (ops.sub b.millimeters p.accelerate_until) w.current_speed p.maximum_speed;
        ramp_type = Ramp.cruise;
        current_speed = p.maximum_speed;
      }
      else record w {
        mm_remaining =
            ops.sub w.mm_remaining
              (ops.mul w.time_var (ops.sub w.current_speed (ops.mul half speed_var)));
        current_speed = ops.sub w.current_speed speed_var;
      }

  unfoldable pub walk_accel : Prep F → Block F → Walk F → Walk F
  walk_accel p b w =
      let speed_var = ops.mul b.acceleration w.time_var in
      let mm =
        ops.sub w.mm_remaining
          (ops.mul w.time_var (ops.add w.current_speed (ops.mul half speed_var))) in
      if ops.lt mm p.accelerate_until
      then record w {
        mm_remaining = p.accelerate_until;
        time_var =
            travel_time (ops.sub b.millimeters p.accelerate_until) w.current_speed p.maximum_speed;
        ramp_type =
            if ops.eq p.accelerate_until p.decelerate_after then Ramp.decel else Ramp.cruise;
        current_speed = p.maximum_speed;
      }
      else record w { mm_remaining = mm; current_speed = ops.add w.current_speed speed_var }

  unfoldable pub walk_cruise : Prep F → Walk F → Walk F
  walk_cruise p w =
      let mm_var = ops.sub w.mm_remaining (ops.mul p.maximum_speed w.time_var) in
      if ops.lt mm_var p.decelerate_after
      then record w {
        time_var = ops.div (ops.sub w.mm_remaining p.decelerate_after) p.maximum_speed;
        mm_remaining = p.decelerate_after;
        ramp_type = Ramp.decel;
      }
      else record w { mm_remaining = mm_var }

  unfoldable pub walk_decel : Prep F → Block F → Walk F → Walk F
  walk_decel p b w =
      let speed_var = ops.mul b.acceleration w.time_var in
      let mm_var =
        ops.sub w.mm_remaining
          (ops.mul w.time_var (ops.sub w.current_speed (ops.mul half speed_var))) in
      if ops.lt speed_var w.current_speed && ops.lt p.mm_complete mm_var
      then record w { mm_remaining = mm_var; current_speed = ops.sub w.current_speed speed_var }
      else record w {
        time_var = travel_time (ops.sub w.mm_remaining p.mm_complete) w.current_speed p.exit_speed;
        mm_remaining = p.mm_complete;
        current_speed = p.exit_speed;
      }

  -- The switch.
  unfoldable pub walk_ramp : Prep F → Block F → Ramp → Walk F → Walk F
  walk_ramp p b Ramp.decel_override w = walk_decel_override p b w
  walk_ramp p b Ramp.accel w = walk_accel p b w
  walk_ramp p b Ramp.cruise w = walk_cruise p w
  walk_ramp p b Ramp.decel w = walk_decel p b w

  -- A round, and whether another one follows.
  unfoldable pub walk_round : Prep F → Block F → F → Walk F → Walk F × Bool
  walk_round p b minimum_mm w0 =
      let w = walk_ramp p b w0.ramp_type w0 in
      let dt = ops.add w.dt w.time_var in
      let more = ops.lt p.mm_complete w.mm_remaining in
      let longer = ops.add w.dt_max dt_segment in
      if ops.lt dt w.dt_max
      then (record w { dt = dt; time_var = ops.sub w.dt_max dt }, more)
      else if ops.lt minimum_mm w.mm_remaining
      then (record w { dt = dt; dt_max = longer; time_var = ops.sub longer dt }, more)
      else (record w { dt = dt }, false)

  unfoldable pub walk_loop : ℕ → Prep F → Block F → F → Walk F → Option (Walk F)
  walk_loop zero p b minimum_mm w = none
  walk_loop (suc rounds) p b minimum_mm w =
      let next = walk_round p b minimum_mm w in
      let rest = walk_loop rounds p b minimum_mm next.0 in if next.1 then rest else some (next.0)

  -- The loop from its start, for the block `b` at the speed `current_speed`.
  unfoldable pub walk_segment : ℕ → Prep F → Block F → F → Option (Walk F)
  walk_segment rounds p b current_speed =
      let least = ops.sub b.millimeters p.req_mm_increment in
      let minimum_mm = if ops.lt least (ops.literal 0 0) then ops.literal 0 0 else least in
      walk_loop rounds p b minimum_mm (record {
        ramp_type = p.ramp_type;
        current_speed = current_speed;
        dt_max = dt_segment;
        dt = ops.literal 0 0;
        time_var = dt_segment;
        mm_remaining = b.millimeters;
      })
