-- ===== src/Alarms.antt =====
-- The plasma alarms of ports.c: the pin change interrupts of ports B and K that stop the machine.
-- An 8-bit register is the function from a bit's index to the bit.
pub mod Laws
mod Tests
use grbl_mega_plasma.Prelude.{ℕ, Bool, true, false, not, List, [], ◌∷◌, ◌==◌, if◌then◌else◌}
use grbl_mega_plasma.System.{Machine, Call, call, ExecFlag, set_exec_state_flag}

abbrev pub Register : Type 0
Register = ℕ → Bool

-- `alarmTriggered`, `activeAlarmPort`, `activeAlarmBit`, and the registers that the alarms use.
pub record Alarms : Type 0 where
  pub triggered : Bool
  pub active_port : ℕ
  pub active_bit : ℕ
  pub ddrb : Register
  pub portb : Register
  pub pcmsk0 : Register
  pub ddrk : Register
  pub portk : Register
  pub pcmsk2 : Register
  pub pcicr : Register

abbrev pub power_source_fault_bit : ℕ
power_source_fault_bit = 5

abbrev pub alarm_tourch_signal_bit : ℕ
alarm_tourch_signal_bit = 6

abbrev pub alarm_out_servo_x1_bit : ℕ
alarm_out_servo_x1_bit = 7

abbrev pub alarm_out_servo_x2_bit : ℕ
alarm_out_servo_x2_bit = 5

abbrev pub alarm_out_servo_y_bit : ℕ
alarm_out_servo_y_bit = 6

-- `r |= 1 << n` with `true`, `r &= ~(1 << n)` with `false`
abbrev pub put_bit : ℕ → Bool → Register → Register
put_bit n b r i = if i == n then b else r i

abbrev pub put_bits : List ℕ → Bool → Register → Register
put_bits [] b r = r
put_bits (n ∷ ns) b r = put_bits ns b (put_bit n b r)

abbrev pub port_b_bits : List ℕ
port_b_bits = power_source_fault_bit ∷ alarm_tourch_signal_bit ∷ alarm_out_servo_x1_bit ∷ []

abbrev pub port_k_bits : List ℕ
port_k_bits = alarm_out_servo_x2_bit ∷ alarm_out_servo_y_bit ∷ []

-- `PCIE0` and `PCIE2`
abbrev pub pcie0 : ℕ
pcie0 = 0

abbrev pub pcie2 : ℕ
pcie2 = 2

unfoldable pub alarms_init : Alarms → Alarms
alarms_init a = record a {
  triggered = false;
  ddrb = put_bits port_b_bits false a.ddrb;
  portb = put_bits port_b_bits true a.portb;
  pcmsk0 = put_bits port_b_bits true a.pcmsk0;
  ddrk = put_bits port_k_bits false a.ddrk;
  portk = put_bits port_k_bits true a.portk;
  pcmsk2 = put_bits port_k_bits true a.pcmsk2;
  pcicr = put_bit pcie2 true (put_bit pcie0 true a.pcicr);
}

unfoldable pub alarms_disable : Alarms → Alarms
alarms_disable a = record a {
  pcmsk0 = put_bits port_b_bits false a.pcmsk0;
  pcmsk2 = put_bits port_k_bits false a.pcmsk2;
}

-- The mask bit of a pin, for the two ports that have one.
mask_pin : ℕ → ℕ → Bool → Alarms → Alarms
mask_pin port bit b a =
    if port == b'B'
    then record a { pcmsk0 = put_bit bit b a.pcmsk0 }
    else if port == b'K'
    then record a { pcmsk2 = put_bit bit b a.pcmsk2 }
    else a

unfoldable pub alarm_disable : ℕ → ℕ → Alarms → Alarms
unfolding mask_pin
alarm_disable port bit a = mask_pin port bit false a

unfoldable pub alarm_enable : ℕ → ℕ → Alarms → Alarms
unfolding mask_pin
alarm_enable port bit a = let b = mask_pin port bit true a in record b { triggered = false }

unfoldable pub movement_restore : Machine → Machine
unfolding set_exec_state_flag
movement_restore m = set_exec_state_flag ExecFlag.cycle_start m

-- One alarm's branch of the interrupt.
raise : ℕ → Call → Alarms × Machine → Alarms × Machine
unfolding alarm_disable set_exec_state_flag
raise bit message (a, m) = (
  alarm_disable b'B' bit (record a { triggered = true; active_port = b'B'; active_bit = bit }),
  call message (set_exec_state_flag ExecFlag.feed_hold m),
)

-- ISR(PCINT0_vect) at the levels `pinb` of port B. PORTB_PCINTERRUPT_STATE_MASK is 0b10111000: the
-- power source and the servo report a fault by a low level, the torch by a high one.
unfoldable pub pcint0_isr : Register → Alarms × Machine → Alarms × Machine
unfolding raise
pcint0_isr pinb (a, m) =
    if a.triggered
    then (a, m)
    else if not (pinb power_source_fault_bit)
    then raise power_source_fault_bit Call.report_power_source_fault (a, m)
    else if pinb alarm_tourch_signal_bit
    then raise alarm_tourch_signal_bit Call.report_alarm_tourch_signal (a, m)
    else if not (pinb alarm_out_servo_x1_bit)
    then raise alarm_out_servo_x1_bit Call.report_alarm_out_servo_x1 (a, m)
    else (a, m)
