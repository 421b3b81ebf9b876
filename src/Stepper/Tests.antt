-- ===== src/Stepper/Tests.antt =====
-- The interrupt of stepper.c on a small block: 2 step events, two steps on X and one on Y.
use grbl_mega_plasma.Prelude.{ℕ, ◌≡◌, refl, arith, true, false, Option, none, some}
use grbl_mega_plasma.Fixtures.{running_machine}
use grbl_mega_plasma.Floats.{ℤ}
use grbl_mega_plasma.Planner.{Axes}
use grbl_mega_plasma.Stepper.{StBlock, Segment, StepSettings, Driver, all_axes, no_stepper}
use grbl_mega_plasma.Stepper.Tick.{
  load_segment, check_probe, step_block, step_segment, run_segment, tick,
}
use grbl_mega_plasma.Stepper.Line.{IsShifted, Run, begin, again}
use grbl_mega_plasma.Stepper.Laws.{IsNear, line-IsNear}

abbrev pub config : StepSettings
config = record {
  pulse_microseconds = 10;
  stepper_idle_lock_time = 25;
  invert_st_enable = false;
  step_invert_mask = all_axes false;
  dir_invert_mask = all_axes false;
}

abbrev pub small_steps : Axes ℕ
small_steps = record { x = 2; y = 1; z = 0 }

abbrev pub small_block : StBlock
small_block = record {
  steps = record { x = 16; y = 8; z = 0 };
  step_event_count = 16;
  direction_bits = record { x = false; y = true; z = false };
  is_pwm_rate_adjusted = false;
}

abbrev small_segment : Segment
small_segment = record {
  n_step = 2;
  cycles_per_tick = 1000;
  st_block_index = 1;
  amass_level = 0;
  spindle_pwm = 0;
}

abbrev pub loaded : Driver
loaded = record {
  st = no_stepper;
  pins = record {
    step_port = all_axes false;
    direction_port = all_axes false;
    stepper_disable_port = false;
    ocie1a = true;
    cs1 = 1;
    ocr1a = 0;
    tcnt0 = 0;
    cs0 = 0;
  };
  st_block_buffer = λ i. small_block;
  segment_buffer = λ i. small_segment;
  tail = 0;
  head = 1;
  next_head = 2;
  busy = false;
  step_port_invert_mask = all_axes false;
  dir_port_invert_mask = all_axes false;
  homing_axis_lock = all_axes false;
  sys_position = all_axes (ℤ.pos 0);
  probe_active = false;
  probe_position = all_axes (ℤ.pos 0);
  probe_pin = false;
  probe_invert_mask = true;
  spindle_pwm = 0;
  machine = running_machine;
}

abbrev pub ticked : Driver → Driver
ticked d = from (tick config d)
  where
    from : Option Driver → Driver
    from none = d
    from (some u) = u

abbrev pub after_one : Driver
after_one = ticked loaded

abbrev pub after_two : Driver
after_two = ticked after_one

pub first_tick : tick config loaded ≡ some after_one
unfolding tick run_segment load_segment step_segment check_probe step_block
first_tick = refl

pub second_tick : tick config after_one ≡ some after_two
unfolding tick run_segment load_segment step_segment check_probe step_block
second_tick = refl

-- X forward to 2, Y back to -1.
position_lem : after_two.sys_position ≡ record { x = ℤ.pos 2; y = ℤ.negsuc 0; z = ℤ.pos 0 }
unfolding tick run_segment load_segment step_segment check_probe step_block
position_lem = refl

pub shape : IsShifted 2 small_steps small_block
shape = record {
  count_lem = refl;
  steps_lem = refl;
  x_le = omega arith;
  y_le = omega arith;
  z_le = omega arith;
  short = omega arith;
}

pub ran :
    (h : IsShifted 2 small_steps small_block)
    → Run 2 small_steps small_block 1 (all_axes (ℤ.pos 0)) h config 16 after_two
unfolding tick run_segment load_segment step_segment check_probe step_block
ran h =
    again 8 16
      (begin {d = loaded} 8
        (record {
          idle = refl;
          between = refl;
          some_left = omega arith;
          mine = refl;
          level = omega arith;
          other_block = omega arith;
          copied = refl;
          at_start = refl;
        })
        first_tick refl)
      (record { mine = refl; level = omega arith; some_left = λ e. omega arith }) second_tick refl

line-IsNear_example :
    IsNear 2 2 16 false (ℤ.pos 0) after_two.sys_position.x
    × IsNear 2 1 16 true (ℤ.pos 0) after_two.sys_position.y
    × IsNear 2 0 16 false (ℤ.pos 0) after_two.sys_position.z
line-IsNear_example =
    line-IsNear 2 small_steps small_block 1 (all_axes (ℤ.pos 0)) shape config 16 after_two
      (ran shape)
