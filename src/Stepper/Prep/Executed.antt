-- ===== src/Stepper/Prep/Executed.antt =====
-- A block of the planner from `st_prep_buffer` to the interrupt of stepper.c.
use grbl_mega_plasma.Prelude.{ℕ, ◌*◌, ◌≤◌, ◌<◌, ◌≡◌, arith}
use grbl_mega_plasma.Floats.{ℤ}
use grbl_mega_plasma.Planner.{Axes, Block}
use grbl_mega_plasma.Stepper.{StepSettings, Driver}
use grbl_mega_plasma.Stepper.Bresenham.{moved}
use grbl_mega_plasma.Stepper.Line.{IsShifted, Run}
use grbl_mega_plasma.Stepper.Laws.{line_done}
use grbl_mega_plasma.Stepper.Prep.{PrepSettings, st_block}

-- A block that the stepper can count: no axis makes more steps than there are step events.
pub record IsCountable {F : Type 0} (b : Block F) : Type 0 where
  pub some_steps : 0 < b.step_event_count
  pub short : b.step_event_count < 268435456
  pub x_le : b.steps.x ≤ b.step_event_count
  pub y_le : b.steps.y ≤ b.step_event_count
  pub z_le : b.steps.z ≤ b.step_event_count

module _ {F : Type 0} (c : PrepSettings F) (b : Block F) (h : IsCountable b) where
  pub st_block-IsShifted : IsShifted b.step_event_count b.steps (st_block c b)
  unfolding st_block
  st_block-IsShifted =
      let n = h.short in
      let x = h.x_le in
      let y = h.y_le in
      let z = h.z_le in
      record {
        count_lem = omega arith;
        steps_lem = ground arith;
        x_le = x;
        y_le = y;
        z_le = z;
        short = n;
      }

  -- A planner block of which no axis has more steps than there are step events, of which there are
  -- some and fewer than 2^28: once the interrupt has executed the data that `st_prep_buffer` copied
  -- from it for all its step events, at whatever AMASS levels, each axis has moved by exactly the
  -- block's steps in the block's direction.
  pub block_executed :
      (k : ℕ) (start : Axes ℤ) (s : StepSettings) (d : Driver)
      → Run b.step_event_count b.steps
          (st_block c b)
          k
          start
          st_block-IsShifted
          s
          (8 * b.step_event_count)
          d
      → (d.sys_position.x ≡ moved b.direction_bits.x start.x b.steps.x)
        × (d.sys_position.y ≡ moved b.direction_bits.y start.y b.steps.y)
        × (d.sys_position.z ≡ moved b.direction_bits.z start.z b.steps.z)
  unfolding st_block
  block_executed k start s d r =
      line_done b.step_event_count b.steps (st_block c b) k start st_block-IsShifted s d
        h.some_steps r
