-- ===== src/Stepper/Prep/Interrupt.antt =====
-- The interrupt of stepper.c with the segment buffer: a tick frees at most the place at the tail.
use grbl_mega_plasma.Prelude.{
  ℕ, ◌+◌, ◌%◌, ◌<◌, ◌≡◌, ◌≢◌, ◌⊎◌, inl, inr, Bool, Bool-cases, refl, Option, some, none, ◌∙◌, ap,
  sym, subst, arith, ◌==◌, if◌then◌else◌,
}
use grbl_mega_plasma.Stepper.{StBlock, Segment, StepSettings, Driver, st_go_idle}
use grbl_mega_plasma.Stepper.Tick.{
  check_probe, step_block, end_segment, step_segment, load_segment, start_block, set_up_segment,
  load_and_step, shut_down, run_segment, output_pins, tick,
}
use grbl_mega_plasma.Stepper.Run.{loaded_first}
use grbl_mega_plasma.Stepper.Prep.{Generator}
use grbl_mega_plasma.Stepper.Prep.Ring.{
  IsLive, block_index, IsChained, IsPrepared, IsPrepared-IsChained,
}

-- The buffer is not empty while a segment is executed.
abbrev pub IsFilled : Driver → Type 0
IsFilled d = d.st.exec_segment ≢ none → d.head ≢ d.tail

abbrev RingKept : Driver → Driver → Type 0
RingKept d v =
    (v.head ≡ d.head)
    × (v.next_head ≡ d.next_head)
    × (v.tail ≡ d.tail)
    × (v.segment_buffer ≡ d.segment_buffer)
    × (v.st_block_buffer ≡ d.st_block_buffer)

-- The segments and blocks are the same, and the tail has moved on by at most one.
record Advances (d u : Driver) : Type 0 where
  head_lem : u.head ≡ d.head
  next_head_lem : u.next_head ≡ d.next_head
  segments_lem : u.segment_buffer ≡ d.segment_buffer
  blocks_lem : u.st_block_buffer ≡ d.st_block_buffer
  tail_lem : (u.tail ≡ d.tail) ⊎ ((u.tail ≡ (d.tail + 1) % 10) × (d.head ≢ d.tail))
  filled : IsFilled u

some≢none : {a : ℕ} → some a ≢ none
some≢none e = cc

step_block-Advances :
    (b : StBlock) (d : Driver) → d.tail < 10 → d.head ≢ d.tail → Advances d (step_block b d)
unfolding step_block end_segment
step_block-Advances b d small some_left = record {
  head_lem = ground arith;
  next_head_lem = ground arith;
  segments_lem = ground arith;
  blocks_lem = ground arith;
  tail_lem = elim (Bool-cases ((d.st.step_count + 65535) % 65536 == 0)) [
    | inl e ↦ inr (ground arith, some_left)
    | inr e ↦ inl (ground arith)
  ];
  filled = ground arith;
}

check_probe_ring : (d : Driver) → RingKept d (check_probe d)
unfolding check_probe
check_probe_ring d = (ground arith, ground arith, ground arith, ground arith, ground arith)

step_segment-Advances :
    (d u : Driver) → d.tail < 10 → d.head ≢ d.tail → step_segment d ≡ some u → Advances d u
unfolding step_segment
step_segment-Advances d u small some_left done =
    let e = check_probe d in
    let (h, n, t, s, b) = check_probe_ring d in go e.st.exec_block done h n t s b
  where
    go :
        (o : Option ℕ)
        → (elim o [
          | none ↦ none
          | some k ↦ some (step_block ((check_probe d).st_block_buffer k) (check_probe d))
        ])
          ≡ some u
        → (check_probe d).head ≡ d.head
        → (check_probe d).next_head ≡ d.next_head
        → (check_probe d).tail ≡ d.tail
        → (check_probe d).segment_buffer ≡ d.segment_buffer
        → (check_probe d).st_block_buffer ≡ d.st_block_buffer
        → Advances d u
    go none f h n t s b = absurd (cc)
    go (some k) f h n t s b =
        let e = check_probe d in
        let a =
          step_block-Advances (e.st_block_buffer k) e (rw t small)
            (λ q. some_left (sym h ∙ q ∙ t)) in
        let same : step_block (e.st_block_buffer k) e ≡ u = cc in
        subst (Advances d) same (record {
          head_lem = a.head_lem ∙ h;
          next_head_lem = a.next_head_lem ∙ n;
          segments_lem = a.segments_lem ∙ s;
          blocks_lem = a.blocks_lem ∙ b;
          tail_lem = elim a.tail_lem [
            | inl stay ↦ inl (stay ∙ t)
            | inr moved ↦ inr (moved.0 ∙ ap (λ (m : ℕ). (m + 1) % 10) t, some_left)
          ];
          filled = a.filled;
        })

load_segment_ring : (d v : Driver) → load_segment d ≡ some v → RingKept d v
unfolding load_segment start_block set_up_segment
load_segment_ring d v done = (ground arith, ground arith, ground arith, ground arith, ground arith)

shut_down_ring : (c : StepSettings) (d v : Driver) → shut_down c d ≡ some v → RingKept d v
unfolding shut_down st_go_idle
shut_down_ring c d v done = (ground arith, ground arith, ground arith, ground arith, ground arith)

stay-Advances : (d v : Driver) → RingKept d v → IsFilled v → Advances d v
stay-Advances d v (h, n, t, s, b) filled = record {
  head_lem = h;
  next_head_lem = n;
  segments_lem = s;
  blocks_lem = b;
  tail_lem = inl t;
  filled = filled;
}

kept-Advances : (d v u : Driver) → RingKept d v → Advances v u → Advances d u
kept-Advances d v u (h, n, t, s, b) a = record {
  head_lem = a.head_lem ∙ h;
  next_head_lem = a.next_head_lem ∙ n;
  segments_lem = a.segments_lem ∙ s;
  blocks_lem = a.blocks_lem ∙ b;
  tail_lem = elim a.tail_lem [
    | inl stay ↦ inl (stay ∙ t)
    | inr moved ↦ inr (moved.0 ∙ ap (λ (m : ℕ). (m + 1) % 10) t, λ e. moved.1 (h ∙ e ∙ sym t))
  ];
  filled = a.filled;
}

shut_down_idle :
    (c : StepSettings) (d v : Driver)
    → shut_down c d ≡ some v
    → v.st.exec_segment ≡ d.st.exec_segment
unfolding shut_down st_go_idle
shut_down_idle c d v done = ground arith

run-Advances :
    (c : StepSettings) (d u : Driver)
    → d.tail < 10
    → IsFilled d
    → run_segment c d ≡ some u
    → Advances d u
unfolding run_segment
run-Advances c d u small running done =
    (elim d.st.exec_segment
        as (λ o.
          d.st.exec_segment ≡ o
          → (elim o [
            | some i ↦ step_segment d
            | none ↦ if d.head == d.tail then shut_down c d else load_and_step (load_segment d)
          ])
            ≡ some u
          → Advances d u) [
            | some i ↦ λ executed e.
                step_segment-Advances d u small (running (λ q. some≢none (sym executed ∙ q))) e
            | none ↦ λ idle e. elim (Bool-cases (d.head == d.tail)) [
              | inl empty ↦
                  let shut =
                    subst
                      (λ (t : Bool).
                        (if t then shut_down c d else load_and_step (load_segment d)) ≡ some u)
                      empty e in
                  stay-Advances d u (shut_down_ring c d u shut)
                    (λ f. absurd (f (shut_down_idle c d u shut ∙ idle)))
              | inr filled ↦
                  let (v, loaded, stepped) = loaded_first (load_segment d) u (
                    subst
                      (λ (t : Bool).
                        (if t then shut_down c d else load_and_step (load_segment d)) ≡ some u)
                      filled e) in
                  let k = load_segment_ring d v loaded in
                  let left : d.head ≢ d.tail = ground arith in
                  kept-Advances d v u k (
                    step_segment-Advances v u (rw (k.2) small) (λ q. left (sym k.0 ∙ q ∙ k.2))
                      stepped)
            ]
          ])
      refl done

tick-Advances :
    (c : StepSettings) (d u : Driver) → d.tail < 10 → IsFilled d → tick c d ≡ some u → Advances d u
unfolding tick output_pins
tick-Advances c d u small running done = elim (Bool-cases d.busy) [
  | inl b ↦
      let e : some d ≡ some u =
        subst (λ (t : Bool). (if t then some d else run_segment c (output_pins d)) ≡ some u) b
          done in
      let same : d ≡ u = cc in
      subst (Advances d) same (stay-Advances d d (refl, refl, refl, refl, refl) running)
  | inr b ↦
      kept-Advances d (output_pins d) u (refl, refl, refl, refl, refl)
        (run-Advances c (output_pins d) u small running (
          subst (λ (t : Bool). (if t then some d else run_segment c (output_pins d)) ≡ some u) b
            done))
]

advance-IsChained :
    (extra p : ℕ) (d u : Driver) → Advances d u → IsChained extra p d → IsChained extra p u
advance-IsChained extra p d u a h =
    let hd = a.head_lem in
    let ti = h.tail_in in
    let hi = h.head_in in
    let t : (u.tail ≡ d.tail) ⊎ ((u.tail ≡ (d.tail + 1) % 10) × (d.head ≢ d.tail)) = a.tail_lem in
    let back : (i : ℕ) → IsLive u i → IsLive d i = λ i l. (l.0, omega (arith, l.0, l.1)) in
    let segment : (i : ℕ) → u.segment_buffer i ≡ d.segment_buffer i =
      λ i. ap (λ (f : ℕ → Segment). f i) a.segments_lem in
    let index : (i : ℕ) → block_index u i ≡ block_index d i =
      λ i. ap (λ (q : Segment). q.st_block_index) (segment i) in
    record {
      tail_in = omega arith;
      head_in = omega arith;
      next_head_lem = a.next_head_lem ∙ h.next_head_lem ∙ ap (λ (m : ℕ). (m + 1) % 10) (sym hd);
      index_in = h.index_in;
      block_in = λ i l. omega (arith, index i, h.block_in i (back i l));
      level = λ i l. rw (segment i) (h.level i (back i l));
      behind = λ i l. omega (arith, index i, h.behind i (back i l), l.0, l.1);
    }

module _ {F : Type 0} where
  -- From a state in which the waiting segments' blocks follow one another up to the block being
  -- prepared, and in which the buffer is not empty while a segment is executed: a tick of the
  -- interrupt that follows no null pointer leads to such a state, in both respects, and changes no
  -- segment and no block.
  pub tick-IsPrepared :
      (c : StepSettings) (g : Generator F) (u : Driver)
      → IsPrepared g
      → IsFilled g.driver
      → tick c g.driver ≡ some u
      → IsPrepared (record g { driver = u })
        × IsFilled u
        × (u.segment_buffer ≡ g.driver.segment_buffer)
        × (u.st_block_buffer ≡ g.driver.st_block_buffer)
  tick-IsPrepared c g u h filled done =
      let p = g.prep.st_block_index in
      let small = (IsPrepared-IsChained g h).tail_in in
      let a = tick-Advances c g.driver u small filled done in
      let prepared : IsPrepared (record g { driver = u }) = elim h [
        | inl x ↦ inl (advance-IsChained 0 p g.driver u a x)
        | inr (x, y) ↦ inr (advance-IsChained 1 p g.driver u a x, y)
      ] in
      (prepared, a.filled, a.segments_lem, a.blocks_lem)
