-- ===== src/Stepper/Prep/Tests.antt =====
-- The preparation of segments on a planner with one block, and a segment that waits.
use grbl_mega_plasma.Prelude.{if◌then◌else◌, ℕ, ◌/◌, ◌≡◌, refl, arith, true, false, none, some, inl}
use grbl_mega_plasma.Fixtures.{fixed_ops}
use grbl_mega_plasma.Floats.{ℤ}
use grbl_mega_plasma.Spindle.{Rounding}
use grbl_mega_plasma.Planner.{Block, Planner}
use grbl_mega_plasma.Stepper.{Driver, all_axes}
use grbl_mega_plasma.Stepper.Tick.{
  step_block, load_segment, check_probe, step_segment, run_segment, tick,
}
use grbl_mega_plasma.Stepper.Line.{Undisturbed}
use grbl_mega_plasma.Stepper.Bresenham.{moved}
use grbl_mega_plasma.Stepper.Tests.{
  config, loaded, after_one, after_two, first_tick, small_steps, small_block, shape, ran,
}
use grbl_mega_plasma.Stepper.Prep.{Ramp, Generator, PrepSettings, st_block, control}
use grbl_mega_plasma.Stepper.Prep.Fill.{st_prep_buffer, fill_buffer}
use grbl_mega_plasma.Stepper.Prep.Rounds.{prep_buffer_enough}
use grbl_mega_plasma.Stepper.Prep.Ring.{IsPrepared, Keeps}
use grbl_mega_plasma.Stepper.Prep.Safe.{prep_buffer-Keeps, prep_buffer-Undisturbed}
use grbl_mega_plasma.Stepper.Prep.Interrupt.{IsFilled, tick-IsPrepared}
use grbl_mega_plasma.Stepper.Prep.Executed.{IsCountable, st_block-IsShifted, block_executed}

abbrev round_thousandths : Rounding ℕ
round_thousandths = record { ceil = λ a. a; floor = λ a. a; truncate = λ a. a / 1000 }

abbrev settings : PrepSettings ℕ
settings = record {
  spindle = record { rpm_max = 1000000; rpm_min = 0; laser_mode = false };
  pwm_gradient = 1;
}

-- 2 step events over 1 mm.
abbrev planned : Block ℕ
planned = record {
  steps = small_steps;
  step_event_count = 2;
  direction_bits = record { x = false; y = true; z = false };
  condition = record {
    rapid_motion = false;
    system_motion = false;
    no_feed_override = false;
    inverse_time = false;
    spindle_cw = false;
    spindle_ccw = false;
    coolant_flood = false;
    coolant_mist = false;
  };
  line_number = 0;
  entry_speed_sqr = 0;
  max_entry_speed_sqr = 0;
  acceleration = 100000;
  millimeters = 1000;
  max_junction_speed_sqr = 0;
  rapid_rate = 10000;
  programmed_rate = 10000;
  spindle_speed = 0;
}

abbrev planner : Planner ℕ
planner = record {
  block_buffer = λ i. planned;
  tail = 0;
  head = 1;
  next_head = 2;
  planned = 0;
  position = all_axes (ℤ.pos 0);
  previous_unit_vec = all_axes 0;
  previous_nominal_speed = 0;
  pl_block = none;
  current_speed = 0;
  recalculate_flag = false;
}

abbrev preparing : Driver → Generator ℕ
preparing d = record {
  planner = planner;
  prep = record {
    st_block_index = 1;
    flag_decel_override = false;
    dt_remainder = 0;
    steps_remaining = 0;
    step_per_mm = 0;
    req_mm_increment = 0;
    ramp_type = Ramp.accel;
    mm_complete = 0;
    maximum_speed = 0;
    exit_speed = 0;
    accelerate_until = 0;
    decelerate_after = 0;
    inv_rate = 0;
    current_spindle_pwm = 0;
  };
  driver = d;
  spindle_speed = 0;
}

abbrev waiting : Generator ℕ
waiting = preparing loaded

waiting-IsPrepared : IsPrepared waiting
waiting-IsPrepared = inl (record {
  tail_in = omega arith;
  head_in = omega arith;
  next_head_lem = refl;
  index_in = omega arith;
  block_in = λ i l. omega arith;
  level = λ i l. omega arith;
  behind = λ i l. omega (arith, l.1);
})

prep_buffer-Keeps_example :
    Keeps loaded (st_prep_buffer fixed_ops round_thousandths 50 settings waiting).driver
    × IsPrepared (st_prep_buffer fixed_ops round_thousandths 50 settings waiting)
prep_buffer-Keeps_example =
    prep_buffer-Keeps fixed_ops round_thousandths 50 settings waiting waiting-IsPrepared

tick-IsPrepared_example :
    IsPrepared (preparing after_one)
    × IsFilled after_one
    × (after_one.segment_buffer ≡ loaded.segment_buffer)
    × (after_one.st_block_buffer ≡ loaded.st_block_buffer)
tick-IsPrepared_example =
    tick-IsPrepared config waiting after_one waiting-IsPrepared (λ e. omega arith) first_tick

-- The first step has been made, and the second one waits.
abbrev under_way : Generator ℕ
under_way = preparing after_one

under_way-executing : after_one.st.exec_segment ≡ some after_one.tail
unfolding tick run_segment load_segment step_segment check_probe step_block
under_way-executing = refl

under_way_index : after_one.tail ≡ 0
unfolding tick run_segment load_segment step_segment check_probe step_block
under_way_index = refl

under_way_head : after_one.head ≡ 1
unfolding tick run_segment load_segment step_segment check_probe step_block
under_way_head = refl

prep_buffer-Undisturbed_example :
    Undisturbed 2 small_steps small_block 1
      (all_axes (ℤ.pos 0))
      shape
      after_one
      (st_prep_buffer fixed_ops round_thousandths 50 settings under_way).driver
unfolding tick run_segment load_segment step_segment check_probe step_block
prep_buffer-Undisturbed_example =
    prep_buffer-Undisturbed fixed_ops round_thousandths 50 settings 2 small_steps small_block 1
      (all_axes (ℤ.pos 0)) shape under_way tick-IsPrepared_example.0 under_way-executing
      (omega arith, omega arith) refl

planned-IsCountable : IsCountable planned
planned-IsCountable = record {
  some_steps = omega arith;
  short = omega arith;
  x_le = omega arith;
  y_le = omega arith;
  z_le = omega arith;
}

block_executed_example :
    (after_two.sys_position.x ≡ moved false (ℤ.pos 0) 2)
    × (after_two.sys_position.y ≡ moved true (ℤ.pos 0) 1)
    × (after_two.sys_position.z ≡ moved false (ℤ.pos 0) 0)
unfolding st_block
block_executed_example =
    block_executed settings planned planned-IsCountable 1 (all_axes (ℤ.pos 0)) config after_two
      (ran (st_block-IsShifted settings planned planned-IsCountable))

prep_buffer_enough_example : st_prep_buffer fixed_ops round_thousandths 50 settings waiting ≡ (
    if (control waiting).end_motion
    then waiting
    else fill_buffer fixed_ops round_thousandths 25 50 settings waiting)
prep_buffer_enough_example =
    prep_buffer_enough fixed_ops round_thousandths 50 settings 25 waiting (omega arith)
      (record { tail_in = omega arith; head_in = omega arith; next_head_lem = refl })
