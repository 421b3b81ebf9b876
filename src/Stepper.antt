-- ===== src/Stepper.antt =====
-- The step generation of stepper.c, in the build with DEFAULTS_RAMPS_BOARD and
-- ADAPTIVE_MULTI_AXIS_STEP_SMOOTHING and without STEP_PULSE_DELAY, and the probe monitor of probe.c.
-- A byte for one pin of a port has no bit but that pin's, so it is a Boolean. The three driver enable
-- pins change together, so they are one. `spindle_pwm` is the speed last given to
-- `spindle_set_speed`.
pub mod Tick
pub mod Bresenham
pub mod Run
pub mod Line
pub mod Laws
pub mod Prep
mod Tests
use grbl_mega_plasma.Prelude.{
  ℕ, ◌+◌, ◌-◌, ◌*◌, ◌/◌, ◌%◌, ◌^◌, Bool, true, false, not, ◌||◌, ◌&&◌, Option, none, some, ◌==◌,
  if◌then◌else◌, u8,
}
use grbl_mega_plasma.Floats.{ℤ}
use grbl_mega_plasma.System.{State, ExecFlag, Machine, set_exec_state_flag}
use grbl_mega_plasma.Planner.{Axes}

-- `SEGMENT_BUFFER_SIZE`
abbrev pub segment_buffer_size : ℕ
segment_buffer_size = 10

-- `st_block_t`
pub record StBlock : Type 0 where
  pub steps : Axes ℕ
  pub step_event_count : ℕ
  pub direction_bits : Axes Bool
  pub is_pwm_rate_adjusted : Bool

-- `segment_t`
pub record Segment : Type 0 where
  pub n_step : ℕ
  pub cycles_per_tick : ℕ
  pub st_block_index : ℕ
  pub amass_level : ℕ
  pub spindle_pwm : ℕ

-- `stepper_t`; the two pointers are indices, and `none` is NULL.
pub record Stepper : Type 0 where
  pub counter : Axes ℕ
  pub step_pulse_time : ℕ
  pub step_outbits : Axes Bool
  pub dir_outbits : Axes Bool
  pub steps : Axes ℕ
  pub step_count : ℕ
  pub exec_block_index : ℕ
  pub exec_block : Option ℕ
  pub exec_segment : Option ℕ

-- The pins, and the timer registers: the Timer1 interrupt's enable bit and clock, and Timer0.
pub record Pins : Type 0 where
  pub step_port : Axes Bool
  pub direction_port : Axes Bool
  pub stepper_disable_port : Bool
  pub ocie1a : Bool
  pub cs1 : ℕ
  pub ocr1a : ℕ
  pub tcnt0 : ℕ
  pub cs0 : ℕ

-- The settings that stepper.c reads here.
pub record StepSettings : Type 0 where
  pub pulse_microseconds : ℕ
  pub stepper_idle_lock_time : ℕ
  pub invert_st_enable : Bool
  pub step_invert_mask : Axes Bool
  pub dir_invert_mask : Axes Bool

-- The static variables of stepper.c, with the positions, the probe and the shared state.
pub record Driver : Type 0 where
  pub st : Stepper
  pub pins : Pins
  pub st_block_buffer : ℕ → StBlock
  pub segment_buffer : ℕ → Segment
  pub tail : ℕ
  pub head : ℕ
  pub next_head : ℕ
  pub busy : Bool
  pub step_port_invert_mask : Axes Bool
  pub dir_port_invert_mask : Axes Bool
  pub homing_axis_lock : Axes Bool
  pub sys_position : Axes ℤ
  pub probe_active : Bool
  pub probe_position : Axes ℤ
  pub probe_pin : Bool
  pub probe_invert_mask : Bool
  pub spindle_pwm : ℕ
  pub machine : Machine

-- `^` of two bits
abbrev pub xor : Bool → Bool → Bool
xor a b = if a then not b else b

abbrev pub on_axes : {A B : Type 0} → (A → B) → Axes A → Axes B
on_axes f a = record { x = f a.x; y = f a.y; z = f a.z }

abbrev pub zip_axes : {A B C : Type 0} → (A → B → C) → Axes A → Axes B → Axes C
zip_axes f a b = record { x = f a.x b.x; y = f a.y b.y; z = f a.z b.z }

abbrev pub all_axes : {A : Type 0} → A → Axes A
all_axes a = record { x = a; y = a; z = a }

abbrev is_homing : State → Bool
is_homing State.homing = true
is_homing _ = false

abbrev is_sleep : State → Bool
is_sleep State.sleep = true
is_sleep _ = false

-- `TICKS_PER_MICROSECOND` is 16; the negative number is stored in a byte.
unfoldable pub pulse_time : ℕ → ℕ
pulse_time microseconds = u8 (256 - u8 ((microseconds - 2) * 16 / 8))

unfoldable pub st_wake_up : StepSettings → Driver → Driver
unfolding pulse_time
st_wake_up c d = record d {
  pins = record (d.pins) { stepper_disable_port = c.invert_st_enable; ocie1a = true };
  st = record (d.st) {
    step_outbits = d.step_port_invert_mask;
    step_pulse_time = pulse_time c.pulse_microseconds;
  };
}

unfoldable pub st_go_idle : StepSettings → Driver → Driver
st_go_idle c d =
    let m = d.machine in
    let disable =
      (not (c.stepper_idle_lock_time == 255) || (not (m.exec_alarm == 0) || is_sleep m.sys.state))
      && not (is_homing m.sys.state) in
    record d {
      busy = false;
      pins = record (d.pins) {
        ocie1a = false;
        cs1 = 1;
        stepper_disable_port = xor c.invert_st_enable disable;
      };
    }

unfoldable pub st_generate_step_dir_invert_masks : StepSettings → Driver → Driver
st_generate_step_dir_invert_masks c d = record d {
  step_port_invert_mask = c.step_invert_mask;
  dir_port_invert_mask = c.dir_invert_mask;
}

-- `memset(&st, 0, ...)`
abbrev pub no_stepper : Stepper
no_stepper = record {
  counter = all_axes 0;
  step_pulse_time = 0;
  step_outbits = all_axes false;
  dir_outbits = all_axes false;
  steps = all_axes 0;
  step_count = 0;
  exec_block_index = 0;
  exec_block = none;
  exec_segment = none;
}

-- The part of `st_reset` that concerns the interrupt; `prep` and `pl_block` are those of
-- Stepper/Prep.
unfoldable pub st_reset : StepSettings → Driver → Driver
unfolding st_go_idle st_generate_step_dir_invert_masks
st_reset c d =
    let d1 = st_generate_step_dir_invert_masks c (record (st_go_idle c d) {
      st = no_stepper;
      tail = 0;
      head = 0;
      next_head = 1;
      busy = false;
    }) in
    record d1 {
      st = record (d1.st) { dir_outbits = d1.dir_port_invert_mask };
      pins = record (d1.pins) {
        step_port = d1.step_port_invert_mask;
        direction_port = d1.dir_port_invert_mask;
      };
    }

-- `probe_configure_invert_mask`
unfoldable pub probe_configure_invert_mask : Bool → Bool → Driver → Driver
probe_configure_invert_mask invert_probe_pin is_probe_away d = record d {
  probe_invert_mask = xor is_probe_away (not invert_probe_pin);
}

unfoldable pub probe_get_state : Driver → Bool
probe_get_state d = xor d.probe_pin d.probe_invert_mask

unfoldable pub probe_state_monitor : Driver → Driver
unfolding probe_get_state set_exec_state_flag
probe_state_monitor d =
    if probe_get_state d
    then record d {
      probe_active = false;
      probe_position = d.sys_position;
      machine = set_exec_state_flag ExecFlag.motion_cancel d.machine;
    }
    else d
