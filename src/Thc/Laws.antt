-- ===== src/Thc/Laws.antt =====
-- When the height control moves the torch, and in which direction.
use grbl_mega_plasma.Prelude.{
  ℕ, suc, zero, ◌+◌, ◌≤◌, ◌<◌, ◌≡◌, ◌⊎◌, not, arith, Bool, true, false, ltb, List, [], ◌∷◌,
  if◌then◌else◌, if_cases,
}
use grbl_mega_plasma.Thc.{Thc, Axis, Timer, thc_update, move, step_z, timer2_isr}

-- The pulses are those that the position counts, each with the direction pin at the level that
-- means its direction.
abbrev pub tally : Bool → List Bool → ℕ
tally level [] = 0
tally level (true ∷ ls) = (if level then 1 else 0) + tally level ls
tally level (false ∷ ls) = (if level then 0 else 1) + tally level ls

pub record Counted (invert : Bool) (a : Axis) : Type 0 where
  pub up : a.counted_up ≡ tally invert a.steps
  pub down : a.counted_down ≡ tally (if invert then false else true) a.steps

move-Counted :
    (invert : Bool) (t : Thc) (a : Axis) → Counted invert a → Counted invert (move invert t a)
unfolding move step_z
move-Counted invert t a h = ground (arith, h.up, h.down)

abbrev pub run : Bool → ℕ → Timer → Timer
run invert zero s = s
run invert (suc n) s = timer2_isr invert (run invert n s)

-- However often the timer interrupt fires, the Z position counts exactly the pulses that were sent
-- with the direction pin at the level for up and for down.
pub run-Counted :
    (invert : Bool) (n : ℕ) (s : Timer)
    → Counted invert s.axis
    → Counted invert (run invert n s).axis
unfolding timer2_isr
run-Counted invert zero s h = h
run-Counted invert (suc n) s h =
    let r = run invert n s in
    if_cases (λ (o : Timer). Counted invert o.axis) (ltb 7 r.millis_timer) _ _
      (λ _. move-Counted invert r.thc r.axis (run-Counted invert n s h))
      (λ _. move-Counted invert r.thc r.axis (run-Counted invert n s h))

-- From the axis `a` to `b`: one pulse with the direction pin at the level of the direction, which is
-- counted, or nothing.
abbrev pub StepsUp : Bool → Axis → Axis → Type 0
StepsUp invert a b =
    (b.steps ≡ invert ∷ a.steps)
    × (b.counted_up ≡ a.counted_up + 1)
    × (b.counted_down ≡ a.counted_down)

abbrev pub StepsDown : Bool → Axis → Axis → Type 0
StepsDown invert a b =
    (b.steps ≡ not invert ∷ a.steps)
    × (b.counted_up ≡ a.counted_up)
    × (b.counted_down ≡ a.counted_down + 1)

-- With the control on and a set value of at least the hysteresis and without overflow, an update
-- stops the torch exactly if the voltage is strictly within the hysteresis of the set value: both
-- requests are cleared, and the next `move` does not step. If the voltage is too high, it asks for
-- down and leaves the request for up, and the next `move` steps down unless up was asked for before,
-- and then up. If the voltage is too low, it asks for up and leaves the request for down, and the
-- next `move` steps up.
pub update_direction :
    (t : Thc) (invert : Bool) (a : Axis)
    → t.working ≡ true
    → t.hysteresis ≤ t.analog_set_val
    → t.analog_set_val + t.hysteresis < 65536
    → let u = thc_update t in
      let b = move invert u a in
      ((t.analog_set_val < t.analog_val + t.hysteresis)
        × (t.analog_val < t.analog_set_val + t.hysteresis)
        × (u.jog_z_up ≡ false)
        × (u.jog_z_down ≡ false)
        × (b ≡ a))
      ⊎ ((t.analog_set_val + t.hysteresis ≤ t.analog_val)
          × (u.jog_z_down ≡ true)
          × (u.jog_z_up ≡ t.jog_z_up)
          × (((t.jog_z_up ≡ false) × StepsDown invert a b)
              ⊎ ((t.jog_z_up ≡ true) × StepsUp invert a b)))
      ⊎ ((t.analog_val + t.hysteresis ≤ t.analog_set_val)
          × (u.jog_z_up ≡ true)
          × (u.jog_z_down ≡ t.jog_z_down)
          × StepsUp invert a b)
unfolding thc_update move step_z
update_direction t invert a on enough fits = ground arith
