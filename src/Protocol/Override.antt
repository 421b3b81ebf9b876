-- ===== src/Protocol/Override.antt =====
-- The override part of `protocol_exec_rt_system`: feed, rapid and spindle percentages, the spindle
-- stop and the coolant toggles. Percentages are `uint8_t`, so the increments wrap.
pub mod Bounds
use grbl_mega_plasma.Prelude.{
  ℕ, ◌+◌, ◌-◌, Bool, true, false, not, ◌||◌, ◌&&◌, ◌==◌, ltb, if◌then◌else◌, u8,
}
use grbl_mega_plasma.System.{
  State, Coolant, SpindleStop, MotionOverride, AccessoryOverride, Sys, Machine, Call, call,
  no_spindle_stop, clear_exec_motion_overrides, clear_exec_accessory_overrides,
}

-- `min(x, hi)` and then `max(x, lo)`, the macros of nuts_bolts.h.
abbrev pub limit : ℕ → ℕ → ℕ → ℕ
limit lo hi x = let y = if ltb x hi then x else hi in if ltb lo y then y else lo

-- `x += k` and `x -= k` on a `uint8_t`
abbrev pub add8 : ℕ → ℕ → ℕ
add8 x k = u8 (x + k)

abbrev pub sub8 : ℕ → ℕ → ℕ
sub8 x k = u8 (x + 256 - k)

-- The five tests that both percentages go through, before the limits: reset to 100, coarse steps of
-- 10, fine steps of 1.
unfoldable pub adjust : Bool → Bool → Bool → Bool → Bool → ℕ → ℕ
adjust reset coarse_plus coarse_minus fine_plus fine_minus x0 =
    let x1 = if reset then 100 else x0 in
    let x2 = if coarse_plus then add8 x1 10 else x1 in
    let x3 = if coarse_minus then sub8 x2 10 else x2 in
    let x4 = if fine_plus then add8 x3 1 else x3 in if fine_minus then sub8 x4 1 else x4

unfoldable pub new_f_override : MotionOverride → ℕ → ℕ
unfolding adjust
new_f_override rt f = limit 10 200 (
    adjust rt.feed_reset rt.feed_coarse_plus rt.feed_coarse_minus rt.feed_fine_plus
      rt.feed_fine_minus f)

unfoldable pub new_r_override : MotionOverride → ℕ → ℕ
new_r_override rt r =
    let r1 = if rt.rapid_reset then 100 else r in
    let r2 = if rt.rapid_medium then 50 else r1 in if rt.rapid_low then 25 else r2

unfoldable pub new_spindle_override : AccessoryOverride → ℕ → ℕ
unfolding adjust
new_spindle_override rt s = limit 10 200 (
    adjust rt.spindle_reset rt.spindle_coarse_plus rt.spindle_coarse_minus rt.spindle_fine_plus
      rt.spindle_fine_minus s)

abbrev pub any_motion : MotionOverride → Bool
any_motion o =
    o.feed_reset || o.feed_coarse_plus || o.feed_coarse_minus || o.feed_fine_plus
    || o.feed_fine_minus || o.rapid_reset || o.rapid_medium || o.rapid_low

abbrev pub any_accessory : AccessoryOverride → Bool
any_accessory o =
    o.spindle_reset || o.spindle_coarse_plus || o.spindle_coarse_minus || o.spindle_fine_plus
    || o.spindle_fine_minus || o.spindle_stop || o.flood_toggle || o.mist_toggle

-- The new percentages take effect: the planner recomputes its speeds.
set_motion : ℕ → ℕ → Machine → Machine
set_motion f r m =
    if f == m.sys.f_override && r == m.sys.r_override
    then m
    else call Call.plan_cycle_reinitialize (
        call Call.plan_update_velocity_profile_parameters (record m {
          sys = record (m.sys) { f_override = f; r_override = r; report_ovr_counter = 0 };
        }))

unfoldable pub motion_overrides : Machine → Machine
unfolding set_motion clear_exec_motion_overrides
motion_overrides m =
    let rt = m.motion_ovr in
    if any_motion rt
    then set_motion (new_f_override rt m.sys.f_override) (new_r_override rt m.sys.r_override)
        (clear_exec_motion_overrides m)
    else m

-- `spindle_set_state` of spindle_control.c does nothing during an abort.
spindle_set_state : Machine → Machine
spindle_set_state m =
    if m.sys.abort
    then m
    else call Call.spindle_set_state (record m { sys = record (m.sys) { report_ovr_counter = 0 } })

-- The same of `coolant_set_state` of coolant_control.c.
unfoldable pub coolant_set_state : Coolant → Machine → Machine
coolant_set_state c m =
    if m.sys.abort
    then m
    else call (Call.coolant_set_state c)
        (record m { sys = record (m.sys) { report_ovr_counter = 0 } })

unfoldable pub spindle_speed_override : AccessoryOverride → Machine → Machine
unfolding spindle_set_state
spindle_speed_override rt m =
    let s = new_spindle_override rt m.sys.spindle_speed_ovr in
    if s == m.sys.spindle_speed_ovr
    then m
    else let m1 = record m { sys = record (m.sys) { spindle_speed_ovr = s } } in
      let m2 : Machine = elim m.sys.state [
        | State.idle ↦ spindle_set_state m1
        | _ ↦ record m1 {
          sys = record (m1.sys) {
            step_control = record (m1.sys.step_control) { update_spindle_pwm = true };
          };
        }
      ] in
      record m2 { sys = record (m2.sys) { report_ovr_counter = 0 } }

abbrev pub any_stop : SpindleStop → Bool
any_stop s = s.enabled || s.initiate || s.restore || s.restore_cycle

-- Allowed in the hold state only.
unfoldable pub spindle_stop_override : AccessoryOverride → Machine → Machine
spindle_stop_override rt m =
    if rt.spindle_stop
    then elim m.sys.state [
      | State.hold ↦
          if not (any_stop m.sys.spindle_stop_ovr)
          then record m {
            sys = record (m.sys) { spindle_stop_ovr = record no_spindle_stop { initiate = true } };
          }
          else if m.sys.spindle_stop_ovr.enabled
          then record m {
            sys = record (m.sys) {
              spindle_stop_ovr = record (m.sys.spindle_stop_ovr) { restore = true };
            };
          }
          else m
      | _ ↦ m
    ]
    else m

-- `(state == STATE_IDLE) || (state & (STATE_CYCLE | STATE_HOLD | STATE_JOG))`
abbrev pub allows_coolant : State → Bool
allows_coolant State.idle = true
allows_coolant State.cycle = true
allows_coolant State.hold = true
allows_coolant State.jog = true
allows_coolant _ = false

abbrev pub toggled : AccessoryOverride → Coolant → Coolant
toggled rt c = record {
  flood = if rt.flood_toggle then not c.flood else c.flood;
  mist = if rt.mist_toggle then not c.mist else c.mist;
}

unfoldable pub coolant_override : AccessoryOverride → Machine → Machine
unfolding coolant_set_state
coolant_override rt m =
    if (rt.flood_toggle || rt.mist_toggle) && allows_coolant m.sys.state
    then record (coolant_set_state c m) { coolant = c }
    else m
  where
    c : Coolant
    c = toggled rt m.coolant

unfoldable pub accessory_overrides : Machine → Machine
unfolding clear_exec_accessory_overrides
accessory_overrides m =
    let rt = m.accessory_ovr in
    if any_accessory rt
    then coolant_override rt
        (spindle_stop_override rt (spindle_speed_override rt (clear_exec_accessory_overrides m)))
    else m
