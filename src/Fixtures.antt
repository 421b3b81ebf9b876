-- ===== src/Fixtures.antt =====
-- States that the tests of several modules start from.
use grbl_mega_plasma.Floats.{ℤ, labs, Floats}
use grbl_mega_plasma.Prelude.{ℕ, ◌+◌, ◌-◌, ◌*◌, ◌/◌, ◌^◌, ltb, ◌==◌, true, false, [], replicate}
use grbl_mega_plasma.System.{
  State, Sys, Machine, no_exec, no_motion_ovr, no_accessory_ovr, no_suspend, normal_op,
  no_spindle_stop,
}
use grbl_mega_plasma.Alarms.{Alarms, Register}
use grbl_mega_plasma.Serial.Ring.{Ring}

abbrev pub idle_sys : Sys
idle_sys = record {
  state = State.idle;
  abort = false;
  suspend = no_suspend;
  soft_limit = false;
  step_control = normal_op;
  f_override = 100;
  r_override = 100;
  spindle_speed_ovr = 100;
  spindle_stop_ovr = no_spindle_stop;
  report_ovr_counter = 0;
}

-- The machine after a start, without its homing lock.
abbrev pub idle_machine : Machine
idle_machine = record {
  sys = idle_sys;
  exec = no_exec;
  exec_alarm = 0;
  motion_ovr = no_motion_ovr;
  accessory_ovr = no_accessory_ovr;
  coolant = record { flood = false; mist = false };
  block_queued = false;
  trace = [];
}

abbrev pub running_machine : Machine
running_machine = record idle_machine {
  sys = record idle_sys { state = State.cycle };
  block_queued = true;
}

abbrev pub all_low : Register
all_low i = false

abbrev pub armed_alarms : Alarms
armed_alarms = record {
  triggered = false;
  active_port = 0;
  active_bit = 0;
  ddrb = all_low;
  portb = all_low;
  pcmsk0 = all_low;
  ddrk = all_low;
  portk = all_low;
  pcmsk2 = all_low;
  pcicr = all_low;
}

abbrev pub empty_ring : Ring
empty_ring = record { buf = replicate 256 0; head = 254; tail = 254 }

-- Natural numbers of thousandths in place of floating point numbers.
abbrev pub fixed_ops : Floats ℕ
fixed_ops = record {
  literal = λ m e. m * 1000 / 10 ^ e;
  add = λ a b. a + b;
  sub = λ a b. a - b;
  mul = λ a b. a * b / 1000;
  div = λ a b. a * 1000 / b;
  sqrt = λ a. a;
  fabs = λ a. a;
  neg = λ a. 0 - a;
  lt = ltb;
  eq = λ a b. a == b;
  same_bits = λ a b. a == b;
  of_int = λ i. labs i * 1000;
  lround = λ a. ℤ.pos (a / 1000);
}
