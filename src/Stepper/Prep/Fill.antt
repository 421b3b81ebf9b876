-- ===== src/Stepper/Prep/Fill.antt =====
-- The rounds of `st_prep_buffer` of stepper.c: one segment each. The interrupt does not run inside.
use grbl_mega_plasma.Prelude.{
  ℕ, zero, suc, ◌+◌, ◌*◌, ◌/◌, ◌%◌, ◌^◌, false, not, ◌||◌, ◌&&◌, none, some, ltb, ◌==◌,
  if◌then◌else◌, u8,
}
use grbl_mega_plasma.Floats.{Floats}
use grbl_mega_plasma.Spindle.{Rounding, spindle_compute_pwm_value}
use grbl_mega_plasma.Planner.{plan_discard_current_block}
use grbl_mega_plasma.Stepper.{segment_buffer_size, Segment}
use grbl_mega_plasma.Stepper.Tick.{u32}
use grbl_mega_plasma.Stepper.Prep.{
  Prep, Generator, PrepSettings, control, set_control, end_motion, set_block, select_block,
}
use grbl_mega_plasma.Stepper.Prep.Profile.{begin_block}
use grbl_mega_plasma.Stepper.Prep.Walk.{Walk, walk_segment}

abbrev u16 : ℕ → ℕ
u16 n = n % 65536

-- The AMASS level for a step of `cycles` clock cycles: F_CPU is 16000000.
unfoldable pub amass_level_of : ℕ → ℕ
amass_level_of cycles =
    if ltb cycles 2000 then 0 else if ltb cycles 4000 then 1 else if ltb cycles 8000 then 2 else 3

-- A round returns from `st_prep_buffer`, or another one may follow, or its loop over the ramps has
-- not ended in the rounds that it was given.
pub data Outcome (F : Type 0) : Type 0 where
  returned : Generator F → Outcome F
  next : Generator F → Outcome F
  running : Generator F → Outcome F

-- The step timing and the AMASS level of a segment.
abbrev pub rated : ℕ → Segment → Segment
rated cycles q =
    let level = amass_level_of cycles in
    let scaled = cycles / 2 ^ level in
    record q {
      amass_level = level;
      n_step = u16 (q.n_step * 2 ^ level);
      cycles_per_tick = if ltb scaled 65536 then scaled else 65535;
    }

module _ {F : Type 0} where
  -- The data of a new segment with `n` steps.
  abbrev pub written : ℕ → Prep F → Segment → Segment
  written n p q = record q {
    st_block_index = p.st_block_index;
    spindle_pwm = p.current_spindle_pwm;
    n_step = n;
  }

  -- A write to the segment at the head.
  unfoldable pub set_segment : (Segment → Segment) → Generator F → Generator F
  set_segment f g =
      let i = g.driver.head in
      record g {
        driver = record (g.driver) {
          segment_buffer = λ (k : ℕ).
              if k == i then f (g.driver.segment_buffer i) else g.driver.segment_buffer k;
        };
      }

  unfoldable pub rate_segment : ℕ → Generator F → Generator F
  unfolding set_segment
  rate_segment cycles g = set_segment (rated cycles) g

  unfoldable pub write_segment : ℕ → Generator F → Generator F
  unfolding set_segment
  write_segment n g = set_segment (written n g.prep) g

  unfoldable pub take_walk : Walk F → Generator F → Generator F
  take_walk w g = record g {
    planner = record (g.planner) { current_speed = w.current_speed };
    prep = record (g.prep) { ramp_type = w.ramp_type };
  }

  unfoldable pub push_segment : Generator F → Generator F
  push_segment g =
      let d = g.driver in
      let after = u8 (d.next_head + 1) in
      record g {
        driver = record d {
          head = d.next_head;
          next_head = if after == segment_buffer_size then 0 else after;
        };
      }

module _ {F : Type 0} (ops : Floats F) (r : Rounding F) where
  -- The PWM value of the segment.
  unfoldable pub update_pwm : PrepSettings F → ℕ → Generator F → Generator F
  unfolding set_control
  update_pwm c j g =
      let b = g.planner.block_buffer j in
      let adjusted = (g.driver.st_block_buffer g.prep.st_block_index).is_pwm_rate_adjusted in
      let rpm =
        if adjusted
        then ops.mul b.spindle_speed (ops.mul g.planner.current_speed g.prep.inv_rate)
        else b.spindle_speed in
      let v =
        spindle_compute_pwm_value ops r c.spindle c.pwm_gradient
          g.driver.machine.sys.spindle_speed_ovr rpm in
      let set : ℕ → F → Generator F = λ pwm speed.
        set_control (record (control g) { update_spindle_pwm = false })
          (record g {
            prep = record (g.prep) { current_spindle_pwm = pwm };
            spindle_speed = speed;
          }) in
      if adjusted || (control g).update_spindle_pwm
      then (if b.condition.spindle_cw || b.condition.spindle_ccw
          then set v.0 v.1
          else set 0 (ops.literal 0 0))
      else g

  -- What a segment leaves: the end of the profile, with whether the call returns.
  unfoldable pub finish_round : ℕ → F → Generator F → Outcome F
  unfolding end_motion
  finish_round j mm_remaining g =
      if not (ops.eq mm_remaining g.prep.mm_complete)
      then Outcome.next g
      else if ops.lt (ops.literal 0 0) mm_remaining || (control g).execute_sys_motion
      then Outcome.returned (end_motion g)
      else Outcome.next (record g {
        planner = plan_discard_current_block (record (g.planner) { pl_block = none });
      })

  -- The rate of a segment of `n_step` steps, which becomes ready for the interrupt.
  unfoldable pub emit_segment : ℕ → F → F → F → F → F → Generator F → Generator F
  unfolding rate_segment push_segment
  emit_segment j mm_remaining dt left n_left last_left g =
      let inv_rate = ops.div (ops.add dt g.prep.dt_remainder) (ops.sub last_left left) in
      let cycles = u32 (r.truncate (r.ceil (ops.mul (ops.literal 960000000 0) inv_rate))) in
      let g1 = push_segment (rate_segment cycles g) in
      set_block j (record (g1.planner.block_buffer j) { millimeters = mm_remaining })
        (record g1 {
          prep = record (g1.prep) {
            steps_remaining = n_left;
            dt_remainder = ops.mul (ops.sub n_left left) inv_rate;
          };
        })

  -- The segment's steps; at the end of a feed hold there may be none to execute.
  unfoldable pub close_segment : ℕ → Walk F → Generator F → Outcome F
  unfolding write_segment end_motion
  close_segment j w g =
      let left = ops.mul g.prep.step_per_mm w.mm_remaining in
      let n_left = r.ceil left in
      let last_left = r.ceil g.prep.steps_remaining in
      let n_step = u16 (r.truncate (ops.sub last_left n_left)) in
      let g1 = write_segment n_step g in
      if n_step == 0 && (control g1).execute_hold
      then Outcome.returned (end_motion g1)
      else finish_round j w.mm_remaining
          (emit_segment j w.mm_remaining w.dt left n_left last_left g1)

  -- The rest of a round, when the loop over the ramps has ended with `w`.
  unfoldable pub make_segment : PrepSettings F → ℕ → Walk F → Generator F → Outcome F
  unfolding update_pwm take_walk close_segment
  make_segment c j w g = close_segment j w (update_pwm c j (take_walk w g))

  -- A round with the block at `j`.
  unfoldable pub prep_segment : ℕ → PrepSettings F → ℕ → Generator F → Outcome F
  prep_segment rounds c j g =
      elim (walk_segment ops rounds g.prep (g.planner.block_buffer j) g.planner.current_speed) [
        | none ↦ Outcome.running g
        | some w ↦ make_segment c j w g
      ]

  unfoldable pub prep_round : ℕ → PrepSettings F → Generator F → Outcome F
  prep_round rounds c g = elim g.planner.pl_block [
    | some j ↦ prep_segment rounds c j g
    | none ↦ elim (select_block g) [
      | none ↦ Outcome.returned g
      | some j ↦ prep_segment rounds c j (begin_block ops c j g)
    ]
  ]

  -- The state that the loop reaches.
  unfoldable pub fill_buffer : ℕ → ℕ → PrepSettings F → Generator F → Generator F
  fill_buffer zero rounds c g = g
  fill_buffer (suc fuel) rounds c g =
      if g.driver.tail == g.driver.next_head then g else (elim (prep_round rounds c g) [
        | Outcome.returned h ↦ h
        | Outcome.running h ↦ h
        | Outcome.next h ↦ fill_buffer fuel rounds c h
      ])

  -- `st_prep_buffer`: every round but the last fills one of the nine free places.
  unfoldable pub st_prep_buffer : ℕ → PrepSettings F → Generator F → Generator F
  st_prep_buffer rounds c g =
      if (control g).end_motion then g else fill_buffer segment_buffer_size rounds c g
