-- ===== src/Stepper/Run.antt =====
-- A block executed by ticks of the interrupt of stepper.c, with the main program in between.
use grbl_mega_plasma.Prelude.{
  ℕ, ◌+◌, ◌/◌, ◌^◌, ◌≡◌, ◌≢◌, ◌⊎◌, false, Option, none, some, arith, Bool-cases, inl, inr, ◌==◌,
  ◌%◌, subst, sym, refl,
}
use grbl_mega_plasma.Stepper.{StBlock, Segment, StepSettings, Driver, on_axes, all_axes}
use grbl_mega_plasma.Stepper.Tick.{
  AxisStep, step_axes, check_probe, step_segment, step_block, end_segment, load_segment,
  start_block, set_up_segment, load_and_step, run_segment, output_pins, tick,
}

-- The segment that a tick executes: the one in progress, or the next one of the buffer.
abbrev pub current : Driver → Segment
current d = elim d.st.exec_segment [ some i ↦ d.segment_buffer i | none ↦ d.segment_buffer d.tail ]

-- What a step of a segment leaves, with the block `b`.
pub record Stepped (b : StBlock) (d u : Driver) : Type 0 where
  pub counter_lem : u.st.counter ≡ on_axes (λ (t : AxisStep). t.counter) (step_axes b d)
  pub position_lem : u.sys_position ≡ on_axes (λ (t : AxisStep). t.position) (step_axes b d)
  pub segment_lem : (u.st.exec_segment ≡ none) ⊎ (u.st.exec_segment ≡ d.st.exec_segment)
  pub steps_lem : u.st.steps ≡ d.st.steps
  pub block_lem : u.st.exec_block ≡ d.st.exec_block
  pub index_lem : u.st.exec_block_index ≡ d.st.exec_block_index
  pub blocks_lem : u.st_block_buffer ≡ d.st_block_buffer
  pub segments_lem : u.segment_buffer ≡ d.segment_buffer
  pub busy_lem : u.busy ≡ false

step_block-Stepped : (b : StBlock) (d : Driver) → Stepped b d (step_block b d)
unfolding step_block end_segment
step_block-Stepped b d = record {
  counter_lem = ground arith;
  position_lem = ground arith;
  segment_lem = elim (Bool-cases ((d.st.step_count + 65535) % 65536 == 0)) [
    | inl e ↦ inl (ground arith)
    | inr e ↦ inr (ground arith)
  ];
  steps_lem = ground arith;
  block_lem = ground arith;
  index_lem = ground arith;
  blocks_lem = ground arith;
  segments_lem = ground arith;
  busy_lem = ground arith;
}

-- The probe changes nothing that a step reads or keeps.
Stepped-check_probe : (b : StBlock) (d u : Driver) → Stepped b (check_probe d) u → Stepped b d u
unfolding check_probe step_axes
Stepped-check_probe b d u h = record {
  counter_lem = ground (arith, h.counter_lem);
  position_lem = ground (arith, h.position_lem);
  segment_lem = ground (arith, h.segment_lem);
  steps_lem = ground (arith, h.steps_lem);
  block_lem = ground (arith, h.block_lem);
  index_lem = ground (arith, h.index_lem);
  blocks_lem = ground (arith, h.blocks_lem);
  segments_lem = ground (arith, h.segments_lem);
  busy_lem = h.busy_lem;
}

check_probe_block : (d : Driver) → (check_probe d).st ≡ d.st
unfolding check_probe
check_probe_block d = ground arith

check_probe_blocks : (d : Driver) → (check_probe d).st_block_buffer ≡ d.st_block_buffer
unfolding check_probe
check_probe_blocks d = ground arith

pub step_segment-Stepped :
    (b : StBlock) (k : ℕ) (d u : Driver)
    → d.st.exec_block ≡ some k
    → d.st_block_buffer k ≡ b
    → step_segment d ≡ some u
    → Stepped b d u
unfolding step_segment
step_segment-Stepped b k d u block copied done =
    let e : u ≡ step_block b (check_probe d) =
      ground (arith, check_probe_block d, check_probe_blocks d) in
    Stepped-check_probe b d u
      (subst (Stepped b (check_probe d)) (sym e) (step_block-Stepped b (check_probe d)))

-- What the loading of the segment at the tail leaves.
pub record Loaded (b : StBlock) (k : ℕ) (d u : Driver) : Type 0 where
  pub segment_lem : u.st.exec_segment ≡ some d.tail
  pub steps_lem :
      u.st.steps ≡ on_axes (λ (n : ℕ). n / 2 ^ (d.segment_buffer d.tail).amass_level) b.steps
  pub block_lem : u.st.exec_block ≡ some k
  pub index_lem : u.st.exec_block_index ≡ k
  pub blocks_lem : u.st_block_buffer ≡ d.st_block_buffer
  pub segments_lem : u.segment_buffer ≡ d.segment_buffer
  pub position_lem : u.sys_position ≡ d.sys_position

module _ (b : StBlock) (k : ℕ) (d u : Driver) (mine : (d.segment_buffer d.tail).st_block_index ≡ k)
    (copied : d.st_block_buffer k ≡ b) (done : load_segment d ≡ some u) where
  pub load_next :
      d.st.exec_block_index ≡ k
      → d.st.exec_block ≡ some k
      → Loaded b k d u × (u.st.counter ≡ d.st.counter)
  unfolding load_segment start_block set_up_segment
  load_next index block = (
    record {
      segment_lem = ground arith;
      steps_lem = ground arith;
      block_lem = ground arith;
      index_lem = ground arith;
      blocks_lem = ground arith;
      segments_lem = ground arith;
      position_lem = ground arith;
    },
    ground arith,
  )

  pub load_first :
      d.st.exec_block_index ≢ k
      → Loaded b k d u × (u.st.counter ≡ all_axes (b.step_event_count / 2))
  unfolding load_segment start_block set_up_segment
  load_first index = (
    record {
      segment_lem = ground arith;
      steps_lem = ground arith;
      block_lem = ground arith;
      index_lem = ground arith;
      blocks_lem = ground arith;
      segments_lem = ground arith;
      position_lem = ground arith;
    },
    ground arith,
  )

-- A tick that goes on with the segment in progress.
pub tick_in_progress :
    (c : StepSettings) (i : ℕ) (d u : Driver)
    → d.busy ≡ false
    → d.st.exec_segment ≡ some i
    → tick c d ≡ some u
    → step_segment (output_pins d) ≡ some u
unfolding tick run_segment
tick_in_progress c i d u idle segment done = ground arith

pub loaded_first :
    (r : Option Driver) (u : Driver)
    → load_and_step r ≡ some u
    → (v : Driver) × (r ≡ some v) × (step_segment v ≡ some u)
loaded_first none u done = absurd (cc)
loaded_first (some v) u done = (v, refl, done)

-- A tick that loads the next segment.
pub tick_loads :
    (c : StepSettings) (d u : Driver)
    → d.busy ≡ false
    → d.st.exec_segment ≡ none
    → d.head ≢ d.tail
    → tick c d ≡ some u
    → (v : Driver) × (load_segment (output_pins d) ≡ some v) × (step_segment v ≡ some u)
unfolding tick run_segment
tick_loads c d u idle segment more done =
    loaded_first (load_segment (output_pins d)) u (ground arith)
