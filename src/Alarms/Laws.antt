-- ===== src/Alarms/Laws.antt =====
-- How an alarm stops the machine, and how it is armed again.
use grbl_mega_plasma.Prelude.{ℕ, ◌≢◌, ◌≡◌, ◌⊎◌, true, false, arith}
use grbl_mega_plasma.System.{Machine, set_exec_state_flag, put_exec}
use grbl_mega_plasma.Serial.Receive.{World, rx_isr}
use grbl_mega_plasma.Alarms.{
  Register, Alarms, power_source_fault_bit, alarm_tourch_signal_bit, alarm_out_servo_x1_bit,
  pcint0_isr, alarm_enable,
}

-- A fault level on one of the three alarm pins.
abbrev pub HasFault : Register → Type 0
HasFault pinb =
    (pinb power_source_fault_bit ≡ false)
    ⊎ (pinb alarm_tourch_signal_bit ≡ true)
    ⊎ (pinb alarm_out_servo_x1_bit ≡ false)

-- With the alarms armed, a fault level on any alarm pin of port B requests a feed hold, marks an
-- alarm on port B as triggered and masks the interrupt of the pin that it names.
pub fault_holds :
    (pinb : Register) (a : Alarms) (m : Machine)
    → a.triggered ≡ false
    → HasFault pinb
    → let (a', m') = pcint0_isr pinb (a, m) in
      (m'.exec.feed_hold ≡ true)
      × (a'.triggered ≡ true)
      × (a'.active_port ≡ b'B')
      × (a'.pcmsk0 a'.active_bit ≡ false)
unfolding pcint0_isr
fault_holds pinb a m armed fault = ground arith

-- Until it is armed again a triggered alarm ignores every further interrupt, and without a fault
-- level an interrupt changes nothing.
quiet :
    (pinb : Register) (a : Alarms) (m : Machine)
    → (a.triggered ≡ true) ⊎ (¬ HasFault pinb)
    → pcint0_isr pinb (a, m) ≡ (a, m)
unfolding pcint0_isr
quiet pinb a m h = ground arith

-- The pin whose fault level comes first: the power source's PB5, the torch's PB6, the servo's PB7.
abbrev pub IsCause : Register → ℕ → Type 0
IsCause pinb bit =
    ((pinb 5 ≡ false) × (bit ≡ 5))
    ⊎ ((pinb 5 ≡ true) × (pinb 6 ≡ true) × (bit ≡ 6))
    ⊎ ((pinb 5 ≡ true) × (pinb 6 ≡ false) × (pinb 7 ≡ false) × (bit ≡ 7))

-- With the alarms armed, a fault level masks the interrupt of the pin that causes the alarm (the
-- power source's before the torch's before the servo's) and no other one's. A cycle start byte from
-- the serial line then enables this pin's interrupt, the alarm is no longer triggered, and both the
-- hold and the cycle start are pending.
pub start_rearms :
    (pinb : Register) (w : World)
    → w.alarms.triggered ≡ false
    → HasFault pinb
    → let (a, m) = pcint0_isr pinb (w.alarms, w.machine) in
      let w' = rx_isr b'~' (record w { alarms = a; machine = m }) in
      (bit : ℕ) × IsCause pinb bit
      × (a.pcmsk0 bit ≡ false)
      × ((i : ℕ) → i ≢ bit → a.pcmsk0 i ≡ w.alarms.pcmsk0 i)
      × (w'.alarms.triggered ≡ false)
      × (w'.alarms.pcmsk0 bit ≡ true)
      × (w'.machine.exec.feed_hold ≡ true)
      × (w'.machine.exec.cycle_start ≡ true)
unfolding pcint0_isr rx_isr alarm_enable set_exec_state_flag put_exec
start_rearms pinb w armed fault = (
  (pcint0_isr pinb (w.alarms, w.machine)).0.active_bit,
  ground arith,
  ground arith,
  λ i ne. ground arith,
  ground arith,
  ground arith,
  ground arith,
  ground arith,
)
