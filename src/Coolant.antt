-- ===== src/Coolant.antt =====
-- coolant_control.c in the build without inverted pins. `coolant_sync` waits for the planner.
use grbl_mega_plasma.Prelude.{Bool, false, ◌≡◌, arith, if◌then◌else◌}
use grbl_mega_plasma.System.{Coolant, Machine}

-- The output pins, with the state that the functions read and write.
pub record CoolantPins : Type 0 where
  pub flood_port : Bool
  pub mist_port : Bool
  pub machine : Machine

unfoldable pub coolant_get_state : CoolantPins → Coolant
coolant_get_state p = record { flood = p.flood_port; mist = p.mist_port }

unfoldable pub coolant_stop : CoolantPins → CoolantPins
coolant_stop p = record p { flood_port = false; mist_port = false }

unfoldable pub set_coolant_pins : Coolant → CoolantPins → CoolantPins
set_coolant_pins mode p = if p.machine.sys.abort then p else record p {
  flood_port = mode.flood;
  mist_port = mode.mist;
  machine = record (p.machine) { sys = record (p.machine.sys) { report_ovr_counter = 0 } };
}

-- What is set is read back, outside an abort.
coolant_get_state-set_coolant_pins :
    (mode : Coolant) (p : CoolantPins)
    → coolant_get_state (set_coolant_pins mode p)
      ≡ (if p.machine.sys.abort then coolant_get_state p else mode)
unfolding coolant_get_state set_coolant_pins
coolant_get_state-set_coolant_pins mode p = ground arith
