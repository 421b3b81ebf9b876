-- ===== src/Stepper/Tick.antt =====
-- The Stepper Driver Interrupt and the Stepper Port Reset Interrupt of stepper.c.
-- `none` is a read through the null pointer `st.exec_block`. Other interrupts may run inside a tick;
-- the main program does not.
use grbl_mega_plasma.Prelude.{
  ℕ, ◌+◌, ◌-◌, ◌/◌, ◌%◌, ◌^◌, Bool, true, false, ◌&&◌, Option, none, some, ltb, ◌==◌, if◌then◌else◌,
  u8,
}
use grbl_mega_plasma.Floats.{ℤ, ◌-ℤ◌}
use grbl_mega_plasma.System.{State, ExecFlag, set_exec_state_flag}
use grbl_mega_plasma.Planner.{Axes}
use grbl_mega_plasma.Stepper.{
  segment_buffer_size, StBlock, Segment, StepSettings, Driver, xor, on_axes, zip_axes, all_axes,
  st_go_idle, probe_state_monitor,
}

-- A store to a `uint32_t`.
abbrev pub u32 : ℕ → ℕ
u32 n = n % 4294967296

-- `sys_position[i]--` and `sys_position[i]++`
unfoldable pub count_step : Bool → ℤ → ℤ
count_step back p = if back then p -ℤ ℤ.pos 1 else p -ℤ ℤ.negsuc 0

-- The direction and step pins take what the last tick computed.
unfoldable pub output_pins : Driver → Driver
output_pins d = record d {
  pins = record (d.pins) {
    direction_port = d.st.dir_outbits;
    step_port = d.st.step_outbits;
    tcnt0 = d.st.step_pulse_time;
    cs0 = 2;
  };
  busy = true;
}

-- The segment's block becomes the one that is executed, if it is another one.
unfoldable pub start_block : Segment → Driver → Driver
start_block g d =
    let half = (d.st_block_buffer g.st_block_index).step_event_count / 2 in
    if d.st.exec_block_index == g.st_block_index then d else record d {
      st = record (d.st) {
        exec_block_index = g.st_block_index;
        exec_block = some g.st_block_index;
        counter = all_axes half;
      };
    }

-- The rest of the loading of the segment `g`, with the block `b`.
unfoldable pub set_up_segment : Segment → StBlock → Driver → Driver
set_up_segment g b d = record d {
  st = record (d.st) {
    dir_outbits = zip_axes xor b.direction_bits d.dir_port_invert_mask;
    steps = on_axes (λ (n : ℕ). n / 2 ^ g.amass_level) b.steps;
  };
  spindle_pwm = g.spindle_pwm;
}

unfoldable pub load_segment : Driver → Option Driver
unfolding start_block set_up_segment
load_segment d =
    let g = d.segment_buffer d.tail in
    let d1 = start_block g (record d {
      st = record (d.st) { exec_segment = some d.tail; step_count = g.n_step };
      pins = record (d.pins) { ocr1a = g.cycles_per_tick };
    }) in
    elim d1.st.exec_block [
      | none ↦ none
      | some k ↦ some (set_up_segment g (d1.st_block_buffer k) d1)
    ]

-- The segment buffer is empty.
unfoldable pub shut_down : StepSettings → Driver → Option Driver
unfolding st_go_idle set_exec_state_flag
shut_down c d =
    let d1 = st_go_idle c d in
    let d2 = record d1 { machine = set_exec_state_flag ExecFlag.cycle_stop d1.machine } in
    elim d1.st.exec_block [
      | none ↦ none
      | some k ↦ some (
          if (d1.st_block_buffer k).is_pwm_rate_adjusted then record d2 { spindle_pwm = 0 } else d2)
    ]

-- One axis of the Bresenham line algorithm.
pub record AxisStep : Type 0 where
  pub counter : ℕ
  pub out : Bool
  pub position : ℤ

unfoldable pub step_axis : ℕ → ℕ → Bool → ℕ → ℤ → AxisStep
unfolding count_step
step_axis count steps back counter position =
    let sum = u32 (counter + steps) in
    if ltb count sum
    then record { counter = sum - count; out = true; position = count_step back position }
    else record { counter = sum; out = false; position = position }

unfoldable pub step_axes : StBlock → Driver → Axes AxisStep
unfolding step_axis
step_axes b d =
    let n = b.step_event_count in
    let s = d.st in
    let p = d.sys_position in
    record {
      x = step_axis n s.steps.x b.direction_bits.x s.counter.x p.x;
      y = step_axis n s.steps.y b.direction_bits.y s.counter.y p.y;
      z = step_axis n s.steps.z b.direction_bits.z s.counter.z p.z;
    }

abbrev locks : State → Bool
locks State.homing = true
locks _ = false

-- The step bits of the next tick: homing locks axes, and the pins may be inverted.
unfoldable pub next_bits : Axes AxisStep → Driver → Axes Bool
next_bits a d =
    let out = on_axes (λ (t : AxisStep). t.out) a in
    zip_axes xor
      (if locks d.machine.sys.state then zip_axes (λ b c. b && c) out d.homing_axis_lock else out)
      d.step_port_invert_mask

unfoldable pub end_segment : Driver → Driver
end_segment d =
    let next = u8 (d.tail + 1) in
    if d.st.step_count == 0
    then record d {
      st = record (d.st) { exec_segment = none };
      tail = if next == segment_buffer_size then 0 else next;
    }
    else d

-- `step_count` is a `uint16_t`.
unfoldable pub step_block : StBlock → Driver → Driver
unfolding step_axes next_bits end_segment
step_block b d =
    let a = step_axes b d in
    let d1 = end_segment (record d {
      st = record (d.st) {
        counter = on_axes (λ (t : AxisStep). t.counter) a;
        step_outbits = next_bits a d;
        step_count = (d.st.step_count + 65535) % 65536;
      };
      sys_position = on_axes (λ (t : AxisStep). t.position) a;
    }) in
    record d1 { busy = false }

unfoldable pub check_probe : Driver → Driver
unfolding probe_state_monitor
check_probe d = if d.probe_active then probe_state_monitor d else d

unfoldable pub step_segment : Driver → Option Driver
step_segment d =
    let d1 = check_probe d in
    elim d1.st.exec_block [ none ↦ none | some k ↦ some (step_block (d1.st_block_buffer k) d1) ]

abbrev pub load_and_step : Option Driver → Option Driver
load_and_step none = none
load_and_step (some d) = step_segment d

unfoldable pub run_segment : StepSettings → Driver → Option Driver
run_segment c d = elim d.st.exec_segment [
  | some i ↦ step_segment d
  | none ↦ if d.head == d.tail then shut_down c d else load_and_step (load_segment d)
]

-- `ISR(TIMER1_COMPA_vect)`
unfoldable pub tick : StepSettings → Driver → Option Driver
unfolding output_pins
tick c d = if d.busy then some d else run_segment c (output_pins d)

-- `ISR(TIMER0_OVF_vect)`
unfoldable pub reset_pins : Driver → Driver
reset_pins d = record d { pins = record (d.pins) { step_port = d.step_port_invert_mask; cs0 = 0 } }
