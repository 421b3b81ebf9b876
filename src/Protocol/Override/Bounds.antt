-- ===== src/Protocol/Override/Bounds.antt =====
-- The values of the override percentages: what one pass of the realtime flags makes of them, and
-- that they never leave their ranges.
use grbl_mega_plasma.Prelude.{ℕ, ◌+◌, ◌-◌, ◌≤◌, ◌≡◌, ◌⊎◌, Bool, ltb, if◌then◌else◌, if_cases, arith}
use grbl_mega_plasma.System.{
  MotionOverride, AccessoryOverride, Sys, Machine, clear_exec_accessory_overrides,
}
use grbl_mega_plasma.Protocol.Override.{
  limit, adjust, new_f_override, new_r_override, new_spindle_override, motion_overrides,
  accessory_overrides, spindle_speed_override, spindle_stop_override, coolant_override,
  any_accessory,
}

-- A step's size, if it is asked for.
abbrev pub step : Bool → ℕ → ℕ
step b k = if b then k else 0

-- The percentage that the flags ask for: the sum of their steps, from 100 on a reset, brought into
-- 10..200. A sum below zero is taken for one above the range.
abbrev pub asked : Bool → ℕ → ℕ → ℕ → ℕ
asked reset plus minus x =
    let base = if reset then 100 else x in
    if ltb (base + plus) minus then 200 else limit 10 200 (base + plus - minus)

-- From a percentage in 10..200, a pass over the feed flags gives the sum of the steps that they ask
-- for, brought into 10..200, except that both decrements at 10 per cent, without an increment, give
-- 200 per cent.
pub feed_sum :
    (rt : MotionOverride) (f : ℕ)
    → 10 ≤ f
    → f ≤ 200
    → new_f_override rt f
      ≡ asked rt.feed_reset
          (step rt.feed_coarse_plus 10 + step rt.feed_fine_plus 1)
          (step rt.feed_coarse_minus 10 + step rt.feed_fine_minus 1)
          f
unfolding new_f_override adjust
feed_sum rt f lo hi = ground arith

-- The percentages that `protocol_exec_rt_system` may leave in `sys`.
pub record InRange (s : Sys) : Type 0 where
  pub feed_low : 10 ≤ s.f_override
  pub feed_high : s.f_override ≤ 200
  pub rapid : (s.r_override ≡ 100) ⊎ (s.r_override ≡ 50) ⊎ (s.r_override ≡ 25)
  pub spindle_low : 10 ≤ s.spindle_speed_ovr
  pub spindle_high : s.spindle_speed_ovr ≤ 200

limit_bounds : (x : ℕ) → (10 ≤ limit 10 200 x) × (limit 10 200 x ≤ 200)
limit_bounds x = ground arith

new_r_override_bounds :
    (rt : MotionOverride) (r : ℕ)
    → (r ≡ 100) ⊎ (r ≡ 50) ⊎ (r ≡ 25)
    → (new_r_override rt r ≡ 100) ⊎ (new_r_override rt r ≡ 50) ⊎ (new_r_override rt r ≡ 25)
unfolding new_r_override
new_r_override_bounds rt r h = ground arith

new_f_override_bounds :
    (rt : MotionOverride) (f : ℕ) → (10 ≤ new_f_override rt f) × (new_f_override rt f ≤ 200)
unfolding new_f_override
new_f_override_bounds rt f = search limit_bounds

new_spindle_override_bounds :
    (rt : AccessoryOverride) (s : ℕ)
    → (10 ≤ new_spindle_override rt s) × (new_spindle_override rt s ≤ 200)
unfolding new_spindle_override
new_spindle_override_bounds rt s = search limit_bounds

pub motion_overrides-InRange : (m : Machine) → InRange m.sys → InRange (motion_overrides m).sys
unfolding motion_overrides
motion_overrides-InRange m h = ground (
  arith,
  new_f_override_bounds m.motion_ovr m.sys.f_override,
  new_r_override_bounds m.motion_ovr m.sys.r_override h.rapid,
  h.feed_low,
  h.feed_high,
  h.rapid,
  h.spindle_low,
  h.spindle_high,
)

spindle_speed-InRange :
    (rt : AccessoryOverride) (m : Machine)
    → InRange m.sys
    → InRange (spindle_speed_override rt m).sys
unfolding spindle_speed_override
spindle_speed-InRange rt m h = ground (
  arith,
  new_spindle_override_bounds rt m.sys.spindle_speed_ovr,
  h.feed_low,
  h.feed_high,
  h.rapid,
  h.spindle_low,
  h.spindle_high,
)

-- The three percentages are as they were.
pub record SameOverrides (s t : Sys) : Type 0 where
  pub feed : t.f_override ≡ s.f_override
  pub rapid : t.r_override ≡ s.r_override
  pub spindle : t.spindle_speed_ovr ≡ s.spindle_speed_ovr

pub same_InRange : (s t : Sys) → SameOverrides s t → InRange s → InRange t
same_InRange s t e h = record {
  feed_low = rw e.feed h.feed_low;
  feed_high = rw e.feed h.feed_high;
  rapid = rw e.rapid h.rapid;
  spindle_low = rw e.spindle h.spindle_low;
  spindle_high = rw e.spindle h.spindle_high;
}

spindle_stop-same :
    (rt : AccessoryOverride) (m : Machine) → SameOverrides m.sys (spindle_stop_override rt m).sys
unfolding spindle_stop_override
spindle_stop-same rt m = ground arith

coolant-same :
    (rt : AccessoryOverride) (m : Machine) → SameOverrides m.sys (coolant_override rt m).sys
unfolding coolant_override
coolant-same rt m = ground arith

pub accessory_overrides-InRange :
    (m : Machine) → InRange m.sys → InRange (accessory_overrides m).sys
unfolding accessory_overrides
accessory_overrides-InRange m h =
    let rt = m.accessory_ovr in
    let m0 = clear_exec_accessory_overrides m in
    let m1 = spindle_speed_override rt m0 in
    let m2 = spindle_stop_override rt m1 in
    if_cases (λ n. InRange n.sys) (any_accessory rt) (coolant_override rt m2) m
      (λ _. same_InRange m2.sys (coolant_override rt m2).sys (coolant-same rt m2) (
        same_InRange m1.sys m2.sys (spindle_stop-same rt m1)
          (spindle_speed-InRange rt m0 (unfold clear_exec_accessory_overrides in h))))
      (λ _. h)
