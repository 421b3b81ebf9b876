-- ===== src/Alarms/Tests.antt =====
-- The alarm laws on concrete levels.
use grbl_mega_plasma.Prelude.{ℕ, ◌≢◌, ◌≡◌, refl, inl, inr, true, false}
use grbl_mega_plasma.Serial.Receive.{World, rx_isr}
use grbl_mega_plasma.Fixtures.{idle_machine, armed_alarms, empty_ring}
use grbl_mega_plasma.Alarms.{Register, pcint0_isr}
use grbl_mega_plasma.Alarms.Laws.{HasFault, IsCause, fault_holds, start_rearms}

-- The torch reports a fault, the power source and the servo do not.
abbrev torch_fault : Register
torch_fault i = true

torch_fault_given : HasFault torch_fault
torch_fault_given = inr (inl refl)

fault_holds_example :
    let (a, m) = pcint0_isr torch_fault (armed_alarms, idle_machine) in
    (m.exec.feed_hold ≡ true)
    × (a.triggered ≡ true)
    × (a.active_port ≡ b'B')
    × (a.pcmsk0 a.active_bit ≡ false)
fault_holds_example = fault_holds torch_fault armed_alarms idle_machine refl torch_fault_given

abbrev test_world : World
test_world = record { machine = idle_machine; alarms = armed_alarms; rx = empty_ring }

start_rearms_example :
    let (a, m) = pcint0_isr torch_fault (armed_alarms, idle_machine) in
    let w = rx_isr b'~' (record test_world { alarms = a; machine = m }) in
    (bit : ℕ) × IsCause torch_fault bit
    × (a.pcmsk0 bit ≡ false)
    × ((i : ℕ) → i ≢ bit → a.pcmsk0 i ≡ test_world.alarms.pcmsk0 i)
    × (w.alarms.triggered ≡ false)
    × (w.alarms.pcmsk0 bit ≡ true)
    × (w.machine.exec.feed_hold ≡ true)
    × (w.machine.exec.cycle_start ≡ true)
start_rearms_example = start_rearms torch_fault test_world refl torch_fault_given
