-- ===== src/Thc/Tests.antt =====
-- The laws of the height control on concrete voltages.
use grbl_mega_plasma.Prelude.{◌≤◌, ◌<◌, ◌≡◌, refl, ◌⊎◌, arith, true, false, []}
use grbl_mega_plasma.Thc.{Thc, Timer, thc_update, move}
use grbl_mega_plasma.Thc.Laws.{StepsUp, StepsDown, Counted, run, run-Counted, update_direction}

-- The voltage is 20 above the set value, and the torch was rising.
abbrev high_torch : Thc
high_torch = record {
  working = true;
  analog_val = 120;
  analog_set_val = 100;
  hysteresis = 5;
  jog_z_up = true;
  jog_z_down = false;
}

abbrev test_timer : Timer
test_timer = record {
  thc = high_torch;
  axis = record { direction = false; steps = []; counted_up = 0; counted_down = 0 };
  millis_timer = 0;
}

run-Counted_example : Counted false (run false 20 test_timer).axis
run-Counted_example = run-Counted false 20 test_timer (record { up = refl; down = refl })

update_direction_example :
    let u = thc_update high_torch in
    let a = test_timer.axis in
    let b = move false u a in
    ((100 < 125) × (120 < 105) × (u.jog_z_up ≡ false) × (u.jog_z_down ≡ false) × (b ≡ a))
    ⊎ ((105 ≤ 120)
        × (u.jog_z_down ≡ true)
        × (u.jog_z_up ≡ true)
        × (((true ≡ false) × StepsDown false a b) ⊎ ((true ≡ true) × StepsUp false a b)))
    ⊎ ((125 ≤ 100) × (u.jog_z_up ≡ true) × (u.jog_z_down ≡ false) × StepsUp false a b)
update_direction_example =
    update_direction high_torch false test_timer.axis refl (omega arith) (omega arith)
