-- ===== src/Planner/Line.antt =====
-- `plan_buffer_line` of planner.c, with `convert_delta_vector_to_unit_vector` and
-- `limit_value_by_axis_maximum` of nuts_bolts.c. The loops over the axes are unrolled.
use grbl_mega_plasma.Prelude.{ℕ, Bool, not, ◌||◌, ltb, ◌==◌, if◌then◌else◌}
use grbl_mega_plasma.Floats.{ℤ, ◌-ℤ◌, labs, Floats, min, max}
use grbl_mega_plasma.Planner.{Axes, Condition, Block, Planner, put, plan_next_block_index}
use grbl_mega_plasma.Planner.Profile.{
  Overrides, some_large_value, plan_compute_profile_nominal_speed, plan_compute_profile_parameters,
}
use grbl_mega_plasma.Planner.Recalculate.{planner_recalculate}

-- `plan_line_data_t`
pub record LineData (F : Type 0) : Type 0 where
  pub feed_rate : F
  pub spindle_speed : F
  pub line_number : ℕ
  pub condition : Condition

-- The settings that the planner reads, and `sys_position`.
pub record Context (F : Type 0) : Type 0 where
  pub steps_per_mm : Axes F
  pub max_rate : Axes F
  pub acceleration : Axes F
  pub junction_deviation : F
  pub overrides : Overrides
  pub sys_position : Axes ℤ

-- `PLAN_OK` and `PLAN_EMPTY_BLOCK`
pub data PlanResult : Type 0 where
  ok empty_block : PlanResult

abbrev pub over : {A B : Type 0} → (A → B) → Axes A → Axes B
over f v = record { x = f v.x; y = f v.y; z = f v.z }

abbrev pub over₂ : {A B C : Type 0} → (A → B → C) → Axes A → Axes B → Axes C
over₂ f v w = record { x = f v.x w.x; y = f v.y w.y; z = f v.z w.z }

-- `max(a,b)` on step counts
abbrev max_steps : ℕ → ℕ → ℕ
max_steps a b = if ltb b a then a else b

module _ {F : Type 0} (ops : Floats F) where
  abbrev zero_float : F
  zero_float = ops.literal 0 0

  abbrev nonzero : F → Bool
  nonzero v = not (ops.eq v zero_float)

  abbrev add_square : F → F → F
  add_square v sum = if nonzero v then ops.add sum (ops.mul v v) else sum

  -- The length of a vector, and the vector scaled to length one.
  unfoldable pub magnitude : Axes F → F
  magnitude v = ops.sqrt (add_square v.z (add_square v.y (add_square v.x zero_float)))

  unfoldable pub unit_vector : Axes F → Axes F
  unit_vector v =
      let inv_magnitude = ops.div (ops.literal 1 0) (magnitude v) in
      over (λ (c : F). ops.mul c inv_magnitude) v

  abbrev limit_axis : F → F → F → F
  limit_axis max_value v limit =
      if nonzero v then min ops limit (ops.fabs (ops.div max_value v)) else limit

  unfoldable pub limit_value_by_axis_maximum : Axes F → Axes F → F
  limit_value_by_axis_maximum m v =
      limit_axis m.z v.z (limit_axis m.y v.y (limit_axis m.x v.x (some_large_value ops)))

  -- The junction speed of two lines, from their unit vectors.
  unfoldable pub cos_theta : Axes F → Axes F → F
  cos_theta p u =
      ops.sub (ops.sub (ops.sub zero_float (ops.mul p.x u.x)) (ops.mul p.y u.y)) (ops.mul p.z u.z)

  unfoldable pub junction_speed_sqr : Context F → Axes F → Axes F → F
  junction_speed_sqr c p u =
      let lowest = ops.mul zero_float zero_float in
      let theta = cos_theta p u in
      let acceleration =
        limit_value_by_axis_maximum c.acceleration (unit_vector (over₂ ops.sub u p)) in
      let half_sin = ops.sqrt (ops.mul (ops.literal 5 1) (ops.sub (ops.literal 1 0) theta)) in
      if ops.lt (ops.literal 999999 6) theta
      then lowest
      else if ops.lt theta (ops.neg (ops.literal 999999 6))
      then some_large_value ops
      else max ops lowest (
          ops.div (ops.mul (ops.mul acceleration c.junction_deviation) half_sin)
            (ops.sub (ops.literal 1 0) half_sin))

  -- `lround(target[idx]*settings.steps_per_mm[idx])`
  unfoldable pub target_steps : Context F → Axes F → Axes ℤ
  target_steps c target = over₂ (λ (t k : F). ops.lround (ops.mul t k)) target c.steps_per_mm

  -- The numerators of the unit vector.
  unfoldable pub delta_mm : Context F → Axes ℤ → Axes ℤ → Axes F
  delta_mm c target position =
      over₂ (λ (d : ℤ) (k : F). ops.div (ops.of_int d) k) (over₂ ◌-ℤ◌ target position)
        c.steps_per_mm

  unfoldable pub programmed_rate : LineData F → F → F → F
  programmed_rate d rapid_rate millimeters =
      if d.condition.rapid_motion
      then rapid_rate
      else if d.condition.inverse_time
      then ops.mul d.feed_rate millimeters
      else d.feed_rate

  -- The block, up to its junction speed. `base` is the position the line starts from.
  unfoldable pub line_block : Context F → LineData F → Axes ℤ → Axes ℤ → Block F
  line_block c d target base =
      let steps = over labs (over₂ ◌-ℤ◌ target base) in
      let delta = delta_mm c target base in
      let u = unit_vector delta in
      let rapid_rate = limit_value_by_axis_maximum c.max_rate u in
      record {
        steps = steps;
        step_event_count = max_steps (max_steps (max_steps 0 steps.x) steps.y) steps.z;
        direction_bits = over (λ (v : F). ops.lt v zero_float) delta;
        condition = d.condition;
        line_number = d.line_number;
        entry_speed_sqr = zero_float;
        max_entry_speed_sqr = zero_float;
        acceleration = limit_value_by_axis_maximum c.acceleration u;
        millimeters = magnitude delta;
        max_junction_speed_sqr = zero_float;
        rapid_rate = rapid_rate;
        programmed_rate = programmed_rate d rapid_rate (magnitude delta);
        spindle_speed = d.spindle_speed;
      }

  -- The block with its maximum entry speed.
  unfoldable pub limited_block : Context F → Planner F → Block F → Block F
  limited_block c s b =
      plan_compute_profile_parameters ops (plan_compute_profile_nominal_speed ops c.overrides b)
        s.previous_nominal_speed b

  -- The end of `plan_buffer_line` for a line that is no system motion: the block gets its maximum
  -- entry speed and the head moves on.
  unfoldable pub push_block : Context F → Axes F → Axes ℤ → Block F → Planner F → Planner F
  push_block c u target b s = record (put s.head (limited_block c s b) s) {
    previous_nominal_speed = plan_compute_profile_nominal_speed ops c.overrides b;
    previous_unit_vec = u;
    position = target;
    head = s.next_head;
    next_head = plan_next_block_index s.next_head;
  }

  -- The junction speed the block gets.
  unfoldable pub with_junction : Context F → Axes F → Planner F → Block F → Block F
  with_junction c u s b =
      if (s.head == s.tail) || b.condition.system_motion
      then b
      else record b { max_junction_speed_sqr = junction_speed_sqr c s.previous_unit_vec u }

  -- The blank block that `memset` leaves, with what `pl_data` gives, when the line has no length.
  abbrev pub empty_line : Context F → LineData F → Axes ℤ → Axes ℤ → Block F
  empty_line c d target base = record (line_block c d target base) {
    acceleration = zero_float;
    millimeters = zero_float;
    rapid_rate = zero_float;
    programmed_rate = zero_float;
  }

  -- `position_steps`
  unfoldable pub base_steps : Context F → LineData F → Planner F → Axes ℤ
  base_steps c d s = if d.condition.system_motion then c.sys_position else s.position

  unfoldable pub line_direction : Context F → Axes F → LineData F → Planner F → Axes F
  line_direction c target d s = unit_vector (delta_mm c (target_steps c target) (base_steps c d s))

  -- The block of a line, before its maximum entry speed is known.
  unfoldable pub next_block : Context F → Axes F → LineData F → Planner F → Block F
  next_block c target d s =
      with_junction c (line_direction c target d s) s
        (line_block c d (target_steps c target) (base_steps c d s))

  unfoldable pub plan_buffer_line :
      Context F → Axes F → LineData F → Planner F → (PlanResult × Planner F)
  plan_buffer_line c target d s =
      let goal = target_steps c target in
      let b = next_block c target d s in
      if b.step_event_count == 0
      then (PlanResult.empty_block, put s.head (empty_line c d goal (base_steps c d s)) s)
      else if d.condition.system_motion
      then (PlanResult.ok, put s.head b s)
      else (
        PlanResult.ok,
        planner_recalculate ops (push_block c (line_direction c target d s) goal b s),
      )
