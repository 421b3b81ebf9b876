-- ===== src/Planner/Tests.antt =====
-- Runs of the planner of planner.c, with thousandths in place of floating point numbers.
use grbl_mega_plasma.Prelude.{ℕ, ◌*◌, ◌/◌, ◌^◌, ◌≡◌, refl, sym, ◌∙◌, false, arith, none, some}
use grbl_mega_plasma.Floats.{ℤ, le, IsOrdered}
use grbl_mega_plasma.Fixtures.{fixed_ops}
use grbl_mega_plasma.Planner.{
  Axes, Condition, Block, Planner, put, plan_next_block_index, plan_prev_block_index,
  plan_discard_current_block, plan_get_current_block,
}
use grbl_mega_plasma.Planner.Line.{
  Context, LineData, plan_buffer_line, next_block, with_junction, line_block, target_steps,
  base_steps, push_block,
}
use grbl_mega_plasma.Planner.Recalculate.{
  plan_cycle_reinitialize, planner_recalculate, reverse_pass, forward_pass,
}
use grbl_mega_plasma.Planner.Profile.{update_profiles}
use grbl_mega_plasma.Planner.Order.{queue, first, rest, discard_queue}
use grbl_mega_plasma.Planner.Plan.{InStep}
use grbl_mega_plasma.Planner.Append.{IsExecutable}
use grbl_mega_plasma.Planner.Laws.{buffer_line-IsExecutable}
use grbl_mega_plasma.Planner.Reinitialize.{reinitialize-IsExecutable}
use grbl_mega_plasma.Planner.Termination.{loops_end}

fixed-IsOrdered : IsOrdered fixed_ops
fixed-IsOrdered = record {
  le_refl = λ a. ground arith;
  le_trans = λ a b c h k. ground arith;
  lt-le = λ a b h. ground arith;
  add_mono = λ a b c h. ground arith;
  le-add = λ a c h. ground arith;
  zero_add = λ c h. ground arith;
  add_zero = λ c h. ground arith;
}

not_negative : (n : ℕ) → le fixed_ops (0 * 1000 / 10 ^ 0) n
not_negative n = ground arith

abbrev all : ℕ → Axes ℕ
all n = record { x = n; y = n; z = n }

abbrev feeding : Condition
feeding = record {
  rapid_motion = false;
  system_motion = false;
  no_feed_override = false;
  inverse_time = false;
  spindle_cw = false;
  spindle_ccw = false;
  coolant_flood = false;
  coolant_mist = false;
}

abbrev pub blank : Block ℕ
blank = record {
  steps = all 0;
  step_event_count = 0;
  direction_bits = record { x = false; y = false; z = false };
  condition = feeding;
  line_number = 0;
  entry_speed_sqr = 0;
  max_entry_speed_sqr = 0;
  acceleration = 0;
  millimeters = 0;
  max_junction_speed_sqr = 0;
  rapid_rate = 0;
  programmed_rate = 0;
  spindle_speed = 0;
}

abbrev pub start : Planner ℕ
start = record {
  block_buffer = λ i. blank;
  tail = 0;
  head = 0;
  next_head = 1;
  planned = 0;
  position = record { x = ℤ.pos 0; y = ℤ.pos 0; z = ℤ.pos 0 };
  previous_unit_vec = all 0;
  previous_nominal_speed = 0;
  pl_block = none;
  current_speed = 0;
  recalculate_flag = false;
}

abbrev bench : Context ℕ
bench = record {
  steps_per_mm = all 10000;
  max_rate = all 500000;
  acceleration = all 50000;
  junction_deviation = 10;
  overrides = record { r_override = 100; f_override = 100 };
  sys_position = record { x = ℤ.pos 0; y = ℤ.pos 0; z = ℤ.pos 0 };
}

abbrev feed : LineData ℕ
feed = record { feed_rate = 100000; spindle_speed = 0; line_number = 1; condition = feeding }

start-IsExecutable : IsExecutable fixed_ops start
start-IsExecutable = record {
  valid = record {
    tail_in = omega arith;
    head_in = omega arith;
    planned_in = omega arith;
    next_head_lem = refl;
    planned_between = omega arith;
  };
  smooth = record {
    capped = λ i l far. absurd (omega arith);
    stops = λ i l. absurd (omega arith);
    gains = λ i l. absurd (omega arith);
  };
  reached = λ i l m n. absurd (omega arith);
}

abbrev one_line : Planner ℕ
one_line = (plan_buffer_line fixed_ops bench (all 7000) feed start).1

one_line-IsExecutable : IsExecutable fixed_ops one_line
one_line-IsExecutable =
    buffer_line-IsExecutable fixed_ops bench (all 7000) feed start fixed-IsOrdered
      start-IsExecutable (λ i e. absurd cc) (λ e. refl) (λ e. absurd (omega arith)) (not_negative _)
      (not_negative _)

-- The first line is the one block of the ring.
one_tail : one_line.tail ≡ 0
unfolding plan_buffer_line next_block with_junction line_block target_steps base_steps
    planner_recalculate plan_prev_block_index push_block put plan_next_block_index
one_tail = refl

one_head : one_line.head ≡ 1
unfolding plan_buffer_line next_block with_junction line_block target_steps base_steps
    planner_recalculate plan_prev_block_index push_block put plan_next_block_index
one_head = refl

one_next : one_line.next_head ≡ 2
unfolding plan_buffer_line next_block with_junction line_block target_steps base_steps
    planner_recalculate plan_prev_block_index push_block put plan_next_block_index
one_next = refl

one_planned : one_line.planned ≡ 0
unfolding plan_buffer_line next_block with_junction line_block target_steps base_steps
    planner_recalculate plan_prev_block_index push_block put plan_next_block_index
one_planned = refl

one_pl_block : one_line.pl_block ≡ none
unfolding plan_buffer_line next_block with_junction line_block target_steps base_steps
    planner_recalculate plan_prev_block_index push_block put plan_next_block_index
one_pl_block = refl

one_line-InStep : InStep fixed_ops one_line
one_line-InStep = λ i e. let nothing : none ≡ some i = sym one_pl_block ∙ e in absurd cc

-- A second line while the first one waits.
buffer_line-IsExecutable_example :
    IsExecutable fixed_ops
      (plan_buffer_line fixed_ops bench (record { x = 9000; y = 7000; z = 1000 }) feed one_line).1
buffer_line-IsExecutable_example =
    buffer_line-IsExecutable fixed_ops bench (record { x = 9000; y = 7000; z = 1000 }) feed one_line
      fixed-IsOrdered one_line-IsExecutable one_line-InStep (λ e. one_pl_block)
      (λ e. absurd (omega (arith, one_next, one_tail))) (not_negative _) (not_negative _)

reinitialize-IsExecutable_example :
    IsExecutable fixed_ops (plan_cycle_reinitialize fixed_ops one_line)
reinitialize-IsExecutable_example =
    reinitialize-IsExecutable fixed_ops one_line fixed-IsOrdered one_line-IsExecutable
      one_line-InStep (λ e. absurd (omega (arith, one_head, one_tail)))

discard_queue_example :
    (plan_get_current_block one_line ≡ first (queue one_line))
    × (queue (plan_discard_current_block one_line) ≡ rest (queue one_line))
discard_queue_example = discard_queue one_line one_line-IsExecutable.valid

loops_end_example :
    (reverse_pass fixed_ops 40 1 0 one_line ≡ reverse_pass fixed_ops 36 1 0 one_line)
    × (forward_pass fixed_ops 40 1 0 one_line ≡ forward_pass fixed_ops 36 1 0 one_line)
    × (update_profiles fixed_ops 40 bench.overrides 0 7 one_line
        ≡ update_profiles fixed_ops 36 bench.overrides 0 7 one_line)
loops_end_example =
    loops_end fixed_ops 40 1 0 bench.overrides 7 one_line (omega arith) (omega (arith, one_planned))
      (omega (arith, one_head)) (omega arith)
