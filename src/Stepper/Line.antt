-- ===== src/Stepper/Line.antt =====
-- The interrupt of stepper.c against the ideal line of its block.
use grbl_mega_plasma.Prelude.{
  ℕ, ◌+◌, ◌*◌, ◌/◌, ◌^◌, ◌≤◌, ◌<◌, ◌≡◌, ◌≢◌, ◌⊎◌, inl, inr, Bool, false, Option, none, some, arith,
  subst, sym, refl, ap, ◌∙◌,
}
use grbl_mega_plasma.Floats.{ℤ}
use grbl_mega_plasma.Planner.{Axes}
use grbl_mega_plasma.Stepper.{StBlock, Segment, StepSettings, Driver, on_axes, all_axes}
use grbl_mega_plasma.Stepper.Tick.{step_axis, step_axes, step_segment, output_pins, tick}
use grbl_mega_plasma.Stepper.Bresenham.{OnAxis, OnAxis-step, OnAxis-start}
use grbl_mega_plasma.Stepper.Run.{
  current, step_segment-Stepped, Loaded, load_next, load_first, tick_in_progress, tick_loads,
}

-- The planner's block of `n` step events, `s` steps on each axis, in eighths.
pub record IsShifted (n : ℕ) (s : Axes ℕ) (b : StBlock) : Type 0 where
  pub count_lem : b.step_event_count ≡ 8 * n
  pub steps_lem : b.steps ≡ on_axes (λ (m : ℕ). 8 * m) s
  pub x_le : s.x ≤ n
  pub y_le : s.y ≤ n
  pub z_le : s.z ≤ n
  pub short : n < 268435456

abbrev dir : StBlock → Axes Bool
dir b = b.direction_bits

-- The block `b`, at the index `k`, is being executed and `w` eighths of a step event of it are done.
pub record OnLine (n : ℕ) (s : Axes ℕ) (b : StBlock) (k : ℕ) (start : Axes ℤ) (w : ℕ) (d : Driver)
    : Type 0 where
  pub block_lem : d.st.exec_block ≡ some k
  pub index_lem : d.st.exec_block_index ≡ k
  pub copied : d.st_block_buffer k ≡ b
  pub busy_lem : d.busy ≡ false
  pub scaled :
      (i : ℕ)
      → d.st.exec_segment ≡ some i
      → d.st.steps ≡ on_axes (λ (m : ℕ). m / 2 ^ (d.segment_buffer i).amass_level) b.steps
  pub x : OnAxis n s.x w b.direction_bits.x start.x d.st.counter.x d.sys_position.x
  pub y : OnAxis n s.y w b.direction_bits.y start.y d.st.counter.y d.sys_position.y
  pub z : OnAxis n s.z w b.direction_bits.z start.z d.st.counter.z d.sys_position.z

Option-cases {ℓ} : {A : Type ℓ} (o : Option A) → (o ≡ none) ⊎ ((a : A) × (o ≡ some a))
Option-cases none = inl refl
Option-cases (some a) = inr (a, refl)

OnAxis-tick :
    (n s w l : ℕ) (back : Bool) (start : ℤ) (count steps c c' : ℕ) (p p' : ℤ)
    → l ≤ 3
    → s ≤ n
    → n < 268435456
    → count ≡ 8 * n
    → steps ≡ 8 * s / 2 ^ l
    → c' ≡ (step_axis count steps back c p).counter
    → p' ≡ (step_axis count steps back c p).position
    → OnAxis n s w back start c p
    → OnAxis n s (w + 8 / 2 ^ l) back start c' p'
OnAxis-tick n s w l back start count steps c c' p p' level small short ce se e f h =
    rw (e, f, ce, se) (OnAxis-step n s w l back start c p level small short h)

module _ (n : ℕ) (s : Axes ℕ) (b : StBlock) (k : ℕ) (start : Axes ℤ) (shape : IsShifted n s b) where
  -- A step of a loaded segment.
  step-OnLine :
      (w i : ℕ) (d u : Driver)
      → d.st.exec_block ≡ some k
      → d.st.exec_block_index ≡ k
      → d.st_block_buffer k ≡ b
      → d.st.exec_segment ≡ some i
      → (d.segment_buffer i).amass_level ≤ 3
      → d.st.steps ≡ on_axes (λ (m : ℕ). m / 2 ^ (d.segment_buffer i).amass_level) b.steps
      → OnAxis n s.x w b.direction_bits.x start.x d.st.counter.x d.sys_position.x
      → OnAxis n s.y w b.direction_bits.y start.y d.st.counter.y d.sys_position.y
      → OnAxis n s.z w b.direction_bits.z start.z d.st.counter.z d.sys_position.z
      → step_segment d ≡ some u
      → OnLine n s b k start (w + 8 / 2 ^ (d.segment_buffer i).amass_level) u
  unfolding step_axes
  step-OnLine w i d u block index copied segment level scaled x y z done =
      let t = step_segment-Stepped b k d u block copied done in
      let l = (d.segment_buffer i).amass_level in
      let steps : d.st.steps ≡ on_axes (λ (m : ℕ). 8 * m / 2 ^ l) s =
        scaled ∙ ap (on_axes (λ (m : ℕ). m / 2 ^ l)) shape.steps_lem in
      record {
        block_lem = t.block_lem ∙ block;
        index_lem = t.index_lem ∙ index;
        copied = ap (λ (f : ℕ → StBlock). f k) t.blocks_lem ∙ copied;
        busy_lem = t.busy_lem;
        scaled = λ j e. elim t.segment_lem [
          | inl stopped ↦ absurd (cc)
          | inr same ↦
              let g : u.segment_buffer j ≡ d.segment_buffer i = cc in
              t.steps_lem
              ∙ scaled
              ∙ ap (λ (h : Segment). on_axes (λ (m : ℕ). m / 2 ^ h.amass_level) b.steps) (sym g)
        ];
        x =
            OnAxis-tick n s.x w l b.direction_bits.x start.x b.step_event_count d.st.steps.x
              d.st.counter.x u.st.counter.x d.sys_position.x u.sys_position.x level shape.x_le
              shape.short shape.count_lem (ap (λ (a : Axes ℕ). a.x) steps)
              (ap (λ (a : Axes ℕ). a.x) t.counter_lem) (ap (λ (a : Axes ℤ). a.x) t.position_lem) x;
        y =
            OnAxis-tick n s.y w l b.direction_bits.y start.y b.step_event_count d.st.steps.y
              d.st.counter.y u.st.counter.y d.sys_position.y u.sys_position.y level shape.y_le
              shape.short shape.count_lem (ap (λ (a : Axes ℕ). a.y) steps)
              (ap (λ (a : Axes ℕ). a.y) t.counter_lem) (ap (λ (a : Axes ℤ). a.y) t.position_lem) y;
        z =
            OnAxis-tick n s.z w l b.direction_bits.z start.z b.step_event_count d.st.steps.z
              d.st.counter.z u.st.counter.z d.sys_position.z u.sys_position.z level shape.z_le
              shape.short shape.count_lem (ap (λ (a : Axes ℕ). a.z) steps)
              (ap (λ (a : Axes ℕ). a.z) t.counter_lem) (ap (λ (a : Axes ℤ). a.z) t.position_lem) z;
      }

  -- What a tick needs to go on with the block: the segment in progress, or the next one, is of the
  -- block and has an AMASS level.
  pub record Continues (d : Driver) : Type 0 where
    pub mine : (current d).st_block_index ≡ k
    pub level : (current d).amass_level ≤ 3
    pub some_left : d.st.exec_segment ≡ none → d.head ≢ d.tail

  load-OnLine :
      (w : ℕ) (d u v : Driver)
      → Loaded b k d v
      → (d.segment_buffer d.tail).amass_level ≤ 3
      → d.st_block_buffer k ≡ b
      → OnAxis n s.x w b.direction_bits.x start.x v.st.counter.x d.sys_position.x
      → OnAxis n s.y w b.direction_bits.y start.y v.st.counter.y d.sys_position.y
      → OnAxis n s.z w b.direction_bits.z start.z v.st.counter.z d.sys_position.z
      → step_segment v ≡ some u
      → OnLine n s b k start (w + 8 / 2 ^ (d.segment_buffer d.tail).amass_level) u
  load-OnLine w d u v h level copied x y z done =
      let g : v.segment_buffer d.tail ≡ d.segment_buffer d.tail =
        ap (λ (f : ℕ → Segment). f d.tail) h.segments_lem in
      let stay = ap (λ (f : ℕ → StBlock). f k) h.blocks_lem in
      subst (λ (q : Segment). OnLine n s b k start (w + 8 / 2 ^ q.amass_level) u) g
        (step-OnLine w d.tail v u h.block_lem h.index_lem (stay ∙ copied) h.segment_lem (rw g level)
          (h.steps_lem
            ∙ ap (λ (q : Segment). on_axes (λ (m : ℕ). m / 2 ^ q.amass_level) b.steps) (sym g))
          (rw h.position_lem x) (rw h.position_lem y) (rw h.position_lem z) done)

  -- A tick that goes on with the block keeps it on its line.
  tick-OnLine :
      (c : StepSettings) (w : ℕ) (d u : Driver)
      → OnLine n s b k start w d
      → Continues d
      → tick c d ≡ some u
      → OnLine n s b k start (w + 8 / 2 ^ (current d).amass_level) u
  unfolding output_pins
  tick-OnLine c w d u h next done = elim (Option-cases d.st.exec_segment) [
    | inl empty ↦
        let (v, loaded, stepped) = tick_loads c d u h.busy_lem empty (next.some_left empty) done in
        let now : current d ≡ d.segment_buffer d.tail = rw empty in
        let (l, same) =
          load_next b k (output_pins d) v
            (ap (λ (q : Segment). q.st_block_index) (sym now) ∙ next.mine) h.copied loaded
            h.index_lem h.block_lem in
        subst (λ (q : Segment). OnLine n s b k start (w + 8 / 2 ^ q.amass_level) u) (sym now)
          (load-OnLine w (output_pins d) u v l
            (subst (λ (q : Segment). q.amass_level ≤ 3) now next.level) h.copied (rw same h.x)
            (rw same h.y) (rw same h.z) stepped)
    | inr (i, running) ↦
        let now : current d ≡ d.segment_buffer i = rw running in
        subst (λ (q : Segment). OnLine n s b k start (w + 8 / 2 ^ q.amass_level) u) (sym now)
          (step-OnLine w i (output_pins d) u h.block_lem h.index_lem h.copied running
            (subst (λ (q : Segment). q.amass_level ≤ 3) now next.level) (h.scaled i running) h.x h.y
            h.z (tick_in_progress c i d u h.busy_lem running done))
  ]

  -- The first tick of the block: its first segment is next, and another block was executed before.
  pub record Begins (d : Driver) : Type 0 where
    pub idle : d.busy ≡ false
    pub between : d.st.exec_segment ≡ none
    pub some_left : d.head ≢ d.tail
    pub mine : (d.segment_buffer d.tail).st_block_index ≡ k
    pub level : (d.segment_buffer d.tail).amass_level ≤ 3
    pub other_block : d.st.exec_block_index ≢ k
    pub copied : d.st_block_buffer k ≡ b
    pub at_start : d.sys_position ≡ start

  begin-OnLine :
      (c : StepSettings) (d u : Driver)
      → Begins d
      → tick c d ≡ some u
      → OnLine n s b k start (8 / 2 ^ (d.segment_buffer d.tail).amass_level) u
  unfolding output_pins
  begin-OnLine c d u h done =
      let (v, loaded, stepped) = tick_loads c d u h.idle h.between h.some_left done in
      let (l, half) = load_first b k (output_pins d) v h.mine h.copied loaded h.other_block in
      let centre : v.st.counter ≡ all_axes (8 * n / 2) =
        half ∙ ap (λ (m : ℕ). all_axes (m / 2)) shape.count_lem in
      let whole : 0 + 8 / 2 ^ (d.segment_buffer d.tail).amass_level
          ≡ 8 / 2 ^ (d.segment_buffer d.tail).amass_level =
        omega arith in
      subst (λ (w : ℕ). OnLine n s b k start w u) whole
        (load-OnLine 0 (output_pins d) u v l h.level h.copied
          (rw (centre, h.at_start) (OnAxis-start n s.x b.direction_bits.x start.x))
          (rw (centre, h.at_start) (OnAxis-start n s.y b.direction_bits.y start.y))
          (rw (centre, h.at_start) (OnAxis-start n s.z b.direction_bits.z start.z)) stepped)

  -- What the main program and other interrupts leave alone between two ticks.
  pub record Undisturbed (d u : Driver) : Type 0 where
    pub counter_lem : u.st.counter ≡ d.st.counter
    pub steps_lem : u.st.steps ≡ d.st.steps
    pub index_lem : u.st.exec_block_index ≡ d.st.exec_block_index
    pub block_lem : u.st.exec_block ≡ d.st.exec_block
    pub segment_lem : u.st.exec_segment ≡ d.st.exec_segment
    pub copied : u.st_block_buffer k ≡ d.st_block_buffer k
    pub kept : (i : ℕ) → d.st.exec_segment ≡ some i → u.segment_buffer i ≡ d.segment_buffer i
    pub busy_lem : u.busy ≡ d.busy
    pub position_lem : u.sys_position ≡ d.sys_position

  other-OnLine :
      (w : ℕ) (d u : Driver) → OnLine n s b k start w d → Undisturbed d u → OnLine n s b k start w u
  other-OnLine w d u h e = record {
    block_lem = e.block_lem ∙ h.block_lem;
    index_lem = e.index_lem ∙ h.index_lem;
    copied = e.copied ∙ h.copied;
    busy_lem = e.busy_lem ∙ h.busy_lem;
    scaled = λ i f.
        let was = sym e.segment_lem ∙ f in
        e.steps_lem
        ∙ h.scaled i was
        ∙ ap (λ (q : Segment). on_axes (λ (m : ℕ). m / 2 ^ q.amass_level) b.steps)
            (sym (e.kept i was));
    x = rw (e.counter_lem, e.position_lem) h.x;
    y = rw (e.counter_lem, e.position_lem) h.y;
    z = rw (e.counter_lem, e.position_lem) h.z;
  }

  -- The states that ticks of the block lead to, with the eighths of step events that they make.
  pub data Run (c : StepSettings) : ℕ → Driver → Type 0 where
    begin :
        {d u : Driver} (w : ℕ)
        → Begins d
        → tick c d ≡ some u
        → w ≡ 8 / 2 ^ (d.segment_buffer d.tail).amass_level
        → Run c w u
    again :
        {d u : Driver} (v w : ℕ)
        → Run c v d
        → Continues d
        → tick c d ≡ some u
        → w ≡ v + 8 / 2 ^ (current d).amass_level
        → Run c w u
    other : {d u : Driver} (w : ℕ) → Run c w d → Undisturbed d u → Run c w u

  pub Run-OnLine : {c : StepSettings} {w : ℕ} {d : Driver} → Run c w d → OnLine n s b k start w d
  Run-OnLine (begin w h done e) = rw e (begin-OnLine _ _ _ h done)
  Run-OnLine (again v w r h done e) = rw e (tick-OnLine _ v _ _ (Run-OnLine r) h done)
  Run-OnLine (other w r e) = other-OnLine w _ _ (Run-OnLine r) e
