-- ===== src/Planner.antt =====
-- The planner of planner.c: its ring of motion blocks and the speeds of each block.
-- The stepper's `pl_block` and `prep.current_speed`, which `st_update_plan_block_parameters` of
-- stepper.c reads, are part of the state. `block_buffer` is a function of the index.
pub mod Profile
pub mod Recalculate
pub mod Line
pub mod Order
pub mod Smooth
pub mod Plan
pub mod Notice
pub mod Reverse
pub mod Forward
pub mod Laws
pub mod Append
pub mod Kept
pub mod Reinitialize
pub mod Termination
mod Tests
mod Stale
use grbl_mega_plasma.Prelude.{
  ℕ, ◌+◌, ◌-◌, Bool, true, false, Option, none, some, ◌==◌, leb, if◌then◌else◌, u8,
}
use grbl_mega_plasma.Floats.{ℤ, Floats}

-- `BLOCK_BUFFER_SIZE`
abbrev pub block_buffer_size : ℕ
block_buffer_size = 36

-- An array over `N_AXIS`.
pub record Axes (A : Type 0) : Type 0 where
  pub x : A
  pub y : A
  pub z : A

-- `PL_COND_FLAG_*` bits
pub record Condition : Type 0 where
  pub rapid_motion : Bool
  pub system_motion : Bool
  pub no_feed_override : Bool
  pub inverse_time : Bool
  pub spindle_cw : Bool
  pub spindle_ccw : Bool
  pub coolant_flood : Bool
  pub coolant_mist : Bool

-- `plan_block_t`. A cell of `direction_bits` has no bit but the one of its axis.
pub record Block (F : Type 0) : Type 0 where
  pub steps : Axes ℕ
  pub step_event_count : ℕ
  pub direction_bits : Axes Bool
  pub condition : Condition
  pub line_number : ℕ
  pub entry_speed_sqr : F
  pub max_entry_speed_sqr : F
  pub acceleration : F
  pub millimeters : F
  pub max_junction_speed_sqr : F
  pub rapid_rate : F
  pub programmed_rate : F
  pub spindle_speed : F

-- The static variables of planner.c with the fields of `pl`, and those of stepper.c named above:
-- `pl_block` is the index of the block it points to.
pub record Planner (F : Type 0) : Type 0 where
  pub block_buffer : ℕ → Block F
  pub tail : ℕ
  pub head : ℕ
  pub next_head : ℕ
  pub planned : ℕ
  pub position : Axes ℤ
  pub previous_unit_vec : Axes F
  pub previous_nominal_speed : F
  pub pl_block : Option ℕ
  pub current_speed : F
  pub recalculate_flag : Bool

unfoldable pub plan_next_block_index : ℕ → ℕ
plan_next_block_index i = if u8 (i + 1) == block_buffer_size then 0 else u8 (i + 1)

unfoldable pub plan_prev_block_index : ℕ → ℕ
plan_prev_block_index i = if i == 0 then block_buffer_size - 1 else i - 1

module _ {F : Type 0} where
  -- A write to one block.
  unfoldable pub put : ℕ → Block F → Planner F → Planner F
  put i b s = record s { block_buffer = λ (j : ℕ). if j == i then b else s.block_buffer j }

  unfoldable pub set_entry : ℕ → F → Planner F → Planner F
  unfolding put
  set_entry i v s = put i (record (s.block_buffer i) { entry_speed_sqr = v }) s

  unfoldable pub plan_reset_buffer : Planner F → Planner F
  plan_reset_buffer s = record s { tail = 0; head = 0; next_head = 1; planned = 0 }

  unfoldable pub plan_discard_current_block : Planner F → Planner F
  plan_discard_current_block s =
      let i = plan_next_block_index s.tail in
      if s.head == s.tail
      then s
      else record s { planned = if s.tail == s.planned then i else s.planned; tail = i }

  unfoldable pub plan_get_system_motion_block : Planner F → Block F
  plan_get_system_motion_block s = s.block_buffer s.head

  unfoldable pub plan_get_current_block : Planner F → Option (Block F)
  plan_get_current_block s = if s.head == s.tail then none else some (s.block_buffer s.tail)

  unfoldable pub plan_check_full_buffer : Planner F → Bool
  plan_check_full_buffer s = s.tail == s.next_head

  unfoldable pub plan_get_block_buffer_available : Planner F → ℕ
  plan_get_block_buffer_available s =
      if leb s.tail s.head
      then u8 (block_buffer_size - 1 - (s.head - s.tail))
      else u8 (s.tail - s.head - 1)

  unfoldable pub plan_get_block_buffer_count : Planner F → ℕ
  plan_get_block_buffer_count s =
      if leb s.tail s.head then u8 (s.head - s.tail) else u8 (block_buffer_size - (s.tail - s.head))

  -- `plan_sync_position`, from `sys_position`
  unfoldable pub plan_sync_position : Axes ℤ → Planner F → Planner F
  plan_sync_position sys_position s = record s { position = sys_position }

module _ {F : Type 0} (ops : Floats F) where
  unfoldable pub plan_reset : Planner F → Planner F
  unfolding plan_reset_buffer
  plan_reset s =
      let zero_speed = ops.literal 0 0 in
      plan_reset_buffer (record s {
        position = record { x = ℤ.pos 0; y = ℤ.pos 0; z = ℤ.pos 0 };
        previous_unit_vec = record { x = zero_speed; y = zero_speed; z = zero_speed };
        previous_nominal_speed = zero_speed;
      })

  unfoldable pub plan_get_exec_block_exit_speed_sqr : Planner F → F
  unfolding plan_next_block_index
  plan_get_exec_block_exit_speed_sqr s =
      let i = plan_next_block_index s.tail in
      if i == s.head then ops.literal 0 0 else (s.block_buffer i).entry_speed_sqr

  -- `2*block->acceleration*block->millimeters`: the gain of squared speed over the block.
  abbrev pub gain : Block F → F
  gain b = ops.mul (ops.mul (ops.literal 2 0) b.acceleration) b.millimeters

  -- The body of `st_update_plan_block_parameters` of stepper.c, for the block at `i`.
  unfoldable pub replan_block : ℕ → Planner F → Planner F
  unfolding set_entry
  replan_block i s = record (set_entry i (ops.mul s.current_speed s.current_speed) s) {
    recalculate_flag = true;
    pl_block = none;
  }

  unfoldable pub st_update_plan_block_parameters : Planner F → Planner F
  unfolding replan_block
  st_update_plan_block_parameters s = elim s.pl_block [ none ↦ s | some i ↦ replan_block i s ]
