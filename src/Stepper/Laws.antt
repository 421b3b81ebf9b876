-- ===== src/Stepper/Laws.antt =====
-- What the ticks of the interrupt of stepper.c do to the machine's position.
use grbl_mega_plasma.Prelude.{ℕ, ◌+◌, ◌*◌, ◌≤◌, ◌<◌, ◌≡◌, ◌∙◌, ap, Bool}
use grbl_mega_plasma.Floats.{ℤ}
use grbl_mega_plasma.Planner.{Axes}
use grbl_mega_plasma.Stepper.{StBlock, StepSettings, Driver}
use grbl_mega_plasma.Stepper.Bresenham.{moved, OnAxis, OnAxis-near, OnAxis-end}
use grbl_mega_plasma.Stepper.Line.{IsShifted, Run, Run-OnLine}

-- `position` is within half a step of the ideal line, `w` eighths of a step event from its start.
pub record IsNear (n s w : ℕ) (back : Bool) (start position : ℤ) : Type 0 where
  pub emitted : ℕ
  pub place : position ≡ moved back start emitted
  pub not_ahead : 8 * (n * emitted) ≤ 4 * n + s * w
  pub not_behind : s * w ≤ 8 * (n * emitted) + 4 * n

OnAxis-IsNear :
    {n s w : ℕ} {back : Bool} {start : ℤ} {counter : ℕ} {position : ℤ}
    → OnAxis n s w back start counter position
    → IsNear n s w back start position
OnAxis-IsNear h =
    let near = OnAxis-near h in
    record { emitted = h.emitted; place = h.place; not_ahead = near.0; not_behind = near.1 }

module _ (n : ℕ) (s : Axes ℕ) (b : StBlock) (k : ℕ) (start : Axes ℤ) (shape : IsShifted n s b)
    (c : StepSettings) where
  -- While a block of `n` step events with `s` steps on the axes, n below 2^28 and no axis with more
  -- than n, is executed by ticks of segments with any AMASS levels, with any other work in between that leaves
  -- the line algorithm's state alone: each axis has moved in its direction by a whole number of
  -- steps that is within half a step of the ideal line.
  pub line-IsNear :
      (w : ℕ) (d : Driver)
      → Run n s b k start shape c w d
      → IsNear n s.x w b.direction_bits.x start.x d.sys_position.x
        × IsNear n s.y w b.direction_bits.y start.y d.sys_position.y
        × IsNear n s.z w b.direction_bits.z start.z d.sys_position.z
  line-IsNear w d r =
      let h = Run-OnLine n s b k start shape r in
      (OnAxis-IsNear h.x, OnAxis-IsNear h.y, OnAxis-IsNear h.z)

  -- When the ticks of a block of `n` step events, n positive and below 2^28 and no axis with more
  -- steps than n, amount to n step events, each axis has moved in its direction by exactly the block's
  -- steps, whatever the AMASS levels of the segments are.
  pub line_done :
      (d : Driver)
      → 0 < n
      → Run n s b k start shape c (8 * n) d
      → (d.sys_position.x ≡ moved b.direction_bits.x start.x s.x)
        × (d.sys_position.y ≡ moved b.direction_bits.y start.y s.y)
        × (d.sys_position.z ≡ moved b.direction_bits.z start.z s.z)
  line_done d some_steps r =
      let h = Run-OnLine n s b k start shape r in
      (
        h.x.place ∙ ap (moved b.direction_bits.x start.x) (OnAxis-end some_steps h.x),
        h.y.place ∙ ap (moved b.direction_bits.y start.y) (OnAxis-end some_steps h.y),
        h.z.place ∙ ap (moved b.direction_bits.z start.z) (OnAxis-end some_steps h.z),
      )
