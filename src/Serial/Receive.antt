-- ===== src/Serial/Receive.antt =====
-- The receive side of serial.c: the interrupt that sorts incoming bytes, and `serial_read`.
pub mod Laws
use grbl_mega_plasma.Prelude.{ℕ, ◌+◌, Bool, true, false, ◌==◌, ltb, if◌then◌else◌, get_or}
use grbl_mega_plasma.System.{
  State, Machine, ExecFlag, MotionFlag, AccessoryFlag, set_exec_state_flag,
  set_exec_motion_override_flag, set_exec_accessory_override_flag,
}
use grbl_mega_plasma.System.Reset.{mc_reset}
use grbl_mega_plasma.Alarms.{Alarms, alarm_enable}
use grbl_mega_plasma.Serial.Ring.{Ring, next_index, store}

-- What ISR(SERIAL_RX) does with a byte.
pub data Action : Type 0 where
  resets starts cancels_jog discards buffers : Action
  flags : ExecFlag → Action
  overrides : MotionFlag → Action
  accessory : AccessoryFlag → Action

-- The `switch` on extended ASCII, with the CMD_* values of config.h.
extended_action : ℕ → Action
extended_action c =
    if c == 0x84
    then flags ExecFlag.safety_door
    else if c == 0x85
    then cancels_jog
    else if c == 0x90
    then overrides MotionFlag.feed_reset
    else if c == 0x91
    then overrides MotionFlag.feed_coarse_plus
    else if c == 0x92
    then overrides MotionFlag.feed_coarse_minus
    else if c == 0x93
    then overrides MotionFlag.feed_fine_plus
    else if c == 0x94
    then overrides MotionFlag.feed_fine_minus
    else if c == 0x95
    then overrides MotionFlag.rapid_reset
    else if c == 0x96
    then overrides MotionFlag.rapid_medium
    else if c == 0x97
    then overrides MotionFlag.rapid_low
    else if c == 0x99
    then accessory AccessoryFlag.spindle_reset
    else if c == 0x9A
    then accessory AccessoryFlag.spindle_coarse_plus
    else if c == 0x9B
    then accessory AccessoryFlag.spindle_coarse_minus
    else if c == 0x9C
    then accessory AccessoryFlag.spindle_fine_plus
    else if c == 0x9D
    then accessory AccessoryFlag.spindle_fine_minus
    else if c == 0x9E
    then accessory AccessoryFlag.spindle_stop
    else if c == 0xA0
    then accessory AccessoryFlag.flood_toggle
    else if c == 0xA1
    then accessory AccessoryFlag.mist_toggle
    else discards

unfoldable pub action : ℕ → Action
unfolding extended_action
action c =
    if c == 0x18
    then resets
    else if c == b'?'
    then flags ExecFlag.status_report
    else if c == b'~'
    then starts
    else if c == b'!'
    then flags ExecFlag.feed_hold
    else if ltb 0x7F c
    then extended_action c
    else buffers

-- What the receive interrupt reaches.
pub record World : Type 0 where
  pub machine : Machine
  pub alarms : Alarms
  pub rx : Ring

-- `if (next_head != tail) { … }`: a byte that finds the ring full is dropped.
unfoldable pub buffer : ℕ → Ring → Ring
buffer c r = let next = next_index r.head in if next == r.tail then r else store c next r

unfoldable pub perform : ℕ → Action → World → World
perform c resets w = record w { machine = mc_reset w.machine }
perform c starts w = record w {
  machine = set_exec_state_flag ExecFlag.cycle_start w.machine;
  alarms =
      if w.alarms.triggered
      then alarm_enable w.alarms.active_port w.alarms.active_bit w.alarms
      else w.alarms;
}
perform c cancels_jog w = elim w.machine.sys.state [
  | State.jog ↦ record w { machine = set_exec_state_flag ExecFlag.motion_cancel w.machine }
  | _ ↦ w
]
perform c discards w = w
perform c buffers w = record w { rx = buffer c w.rx }
perform c (flags f) w = record w { machine = set_exec_state_flag f w.machine }
perform c (overrides f) w = record w { machine = set_exec_motion_override_flag f w.machine }
perform c (accessory f) w = record w { machine = set_exec_accessory_override_flag f w.machine }

-- ISR(SERIAL_RX) for the byte `c` in UDR0.
unfoldable pub rx_isr : ℕ → World → World
unfolding perform action
rx_isr c w = perform c (action c) w

-- `SERIAL_NO_DATA`
abbrev pub serial_no_data : ℕ
serial_no_data = 0xff

unfoldable pub serial_read : Ring → ℕ × Ring
serial_read r =
    if r.head == r.tail
    then (serial_no_data, r)
    else (get_or r.buf r.tail 0, record r { tail = next_index r.tail })

unfoldable pub serial_reset_read_buffer : Ring → Ring
serial_reset_read_buffer r = record r { tail = r.head }
