-- ===== src/Stepper/Prep.antt =====
-- The preparation of segments by `st_prep_buffer` of stepper.c: its state, and the data of a
-- block. `pl_block`, `prep.current_speed` and PREP_FLAG_RECALCULATE are in the
-- planner's state; there is no parking. `prep.st_block_index` is also the index of `st_prep_block`.
pub mod Profile
pub mod Walk
pub mod Fill
pub mod Ring
pub mod Safe
pub mod Rounds
pub mod Interrupt
pub mod Executed
mod Tests
use grbl_mega_plasma.Prelude.{
  ℕ, ◌+◌, ◌*◌, ◌-◌, Bool, true, false, not, ◌||◌, ◌&&◌, Option, none, some, ◌==◌, if◌then◌else◌, u8,
}
use grbl_mega_plasma.Floats.{ℤ, Floats}
use grbl_mega_plasma.System.{StepControl, Machine}
use grbl_mega_plasma.Spindle.{SpindleSettings}
use grbl_mega_plasma.Planner.{Axes, Block, Planner, put, gain, plan_get_exec_block_exit_speed_sqr}
use grbl_mega_plasma.Planner.Profile.{Overrides, plan_compute_profile_nominal_speed}
use grbl_mega_plasma.Stepper.{segment_buffer_size, StBlock, Driver, on_axes}
use grbl_mega_plasma.Stepper.Tick.{u32}

-- `RAMP_*`
pub data Ramp : Type 0 where
  accel cruise decel decel_override : Ramp

-- `st_prep_t`
pub record Prep (F : Type 0) : Type 0 where
  pub st_block_index : ℕ
  pub flag_decel_override : Bool
  pub dt_remainder : F
  pub steps_remaining : F
  pub step_per_mm : F
  pub req_mm_increment : F
  pub ramp_type : Ramp
  pub mm_complete : F
  pub maximum_speed : F
  pub exit_speed : F
  pub accelerate_until : F
  pub decelerate_after : F
  pub inv_rate : F
  pub current_spindle_pwm : ℕ

-- All that `st_prep_buffer` works on; `spindle_speed` is `sys.spindle_speed`.
pub record Generator (F : Type 0) : Type 0 where
  pub planner : Planner F
  pub prep : Prep F
  pub driver : Driver
  pub spindle_speed : F

-- The spindle's settings with laser mode, and `pwm_gradient`.
pub record PrepSettings (F : Type 0) : Type 0 where
  pub spindle : SpindleSettings F
  pub pwm_gradient : F

unfoldable pub st_next_block_index : ℕ → ℕ
st_next_block_index i = if u8 (i + 1) == segment_buffer_size - 1 then 0 else u8 (i + 1)

module _ {F : Type 0} where
  abbrev pub control : Generator F → StepControl
  control g = g.driver.machine.sys.step_control

  unfoldable pub set_control : StepControl → Generator F → Generator F
  set_control v g = record g {
    driver = record (g.driver) {
      machine = record (g.driver.machine) {
        sys = record (g.driver.machine.sys) { step_control = v };
      };
    };
  }

  unfoldable pub end_motion : Generator F → Generator F
  unfolding set_control
  end_motion g = set_control (record (control g) { end_motion = true }) g

  abbrev pub set_block : ℕ → Block F → Generator F → Generator F
  set_block j b g = record g { planner = put j b g.planner }

  -- `plan_get_system_motion_block` or `plan_get_current_block`, as an index.
  unfoldable pub select_block : Generator F → Option ℕ
  select_block g =
      if (control g).execute_sys_motion
      then some g.planner.head
      else if g.planner.head == g.planner.tail
      then none
      else some g.planner.tail

  -- The Bresenham data of a planner block, multiplied by 8.
  unfoldable pub st_block : PrepSettings F → Block F → StBlock
  st_block c b = record {
    steps = on_axes (λ (n : ℕ). u32 (8 * n)) b.steps;
    step_event_count = u32 (8 * b.step_event_count);
    direction_bits = b.direction_bits;
    is_pwm_rate_adjusted = c.spindle.laser_mode && b.condition.spindle_ccw;
  }

  unfoldable pub store_block : PrepSettings F → Block F → Generator F → Generator F
  unfolding st_block
  store_block c b g =
      let i = st_next_block_index g.prep.st_block_index in
      record g {
        prep = record (g.prep) { st_block_index = i };
        driver = record (g.driver) {
          st_block_buffer = λ (k : ℕ). if k == i then st_block c b else g.driver.st_block_buffer k;
        };
      }
