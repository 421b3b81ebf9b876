-- ===== src/Stepper/Prep/Ring/Push.antt =====
-- A segment added by stepper.c goes to the free place behind the others.
use grbl_mega_plasma.Prelude.{
  ℕ, ◌+◌, ◌%◌, ◌≤◌, ◌<◌, ◌≡◌, ◌≢◌, ◌⊎◌, inl, inr, Bool-cases, refl, ◌∙◌, ap, sym, arith, ◌==◌,
}
use grbl_mega_plasma.Floats.{Floats}
use grbl_mega_plasma.Spindle.{Rounding}
use grbl_mega_plasma.Stepper.{StBlock, Segment, Driver}
use grbl_mega_plasma.Stepper.Prep.{Generator, PrepSettings, set_control, end_motion}
use grbl_mega_plasma.Stepper.Prep.Fill.{amass_level_of, set_segment, push_segment, update_pwm}
use grbl_mega_plasma.Stepper.Prep.Ring.{IsLive, block_index, IsChained, Keeps, SameRing}

pub amass_level_of-le : (cycles : ℕ) → amass_level_of cycles ≤ 3
unfolding amass_level_of
amass_level_of-le cycles = ground arith

-- A step that leaves the ring, its blocks and the block being prepared.
pub record Phase {F : Type 0} (g h : Generator F) : Type 0 where
  pub ring : SameRing g.driver h.driver
  pub blocks_lem : h.driver.st_block_buffer ≡ g.driver.st_block_buffer
  pub index_lem : h.prep.st_block_index ≡ g.prep.st_block_index
  pub pl_block_lem : h.planner.pl_block ≡ g.planner.pl_block

-- `e` is `d` with another segment at the head.
pub record Written (p : ℕ) (d e : Driver) : Type 0 where
  pub tail_lem : e.tail ≡ d.tail
  pub head_lem : e.head ≡ d.head
  pub next_head_lem : e.next_head ≡ d.next_head
  pub st_lem : e.st ≡ d.st
  pub position_lem : e.sys_position ≡ d.sys_position
  pub busy_lem : e.busy ≡ d.busy
  pub blocks_lem : e.st_block_buffer ≡ d.st_block_buffer
  pub others : (i : ℕ) → i ≢ d.head → e.segment_buffer i ≡ d.segment_buffer i
  pub index_lem : block_index e d.head ≡ p

module _ (p : ℕ) (d e : Driver) (w : Written p d e) (h : IsChained 1 p d) where
  not_head : (i : ℕ) → IsLive d i → i ≢ d.head
  not_head i l same = let t = h.tail_in in let hd = h.head_in in absurd (omega (arith, l.1))

  written_back : (i : ℕ) → IsLive e i → IsLive d i
  written_back i l = let t = w.tail_lem in let hd = w.head_lem in (l.0, omega (arith, l.1))

  written_on : (i : ℕ) → IsLive d i → IsLive e i
  written_on i l = let t = w.tail_lem in let hd = w.head_lem in (l.0, omega (arith, l.1))

  written_segment : (i : ℕ) → IsLive d i → e.segment_buffer i ≡ d.segment_buffer i
  written_segment i l = w.others i (not_head i l)

  written_index : (i : ℕ) → IsLive d i → block_index e i ≡ block_index d i
  written_index i l = ap (λ (q : Segment). q.st_block_index) (written_segment i l)

  pub written-Keeps : Keeps d e
  written-Keeps = record {
    tail_lem = w.tail_lem;
    st_lem = w.st_lem;
    position_lem = w.position_lem;
    busy_lem = w.busy_lem;
    segments = written_segment;
    blocks = λ i l. ap (λ (f : ℕ → StBlock). f (block_index d i)) w.blocks_lem;
    still = written_on;
  }

  pub written-IsChained : IsChained 1 p e
  written-IsChained =
      let t = w.tail_lem in
      let hd = w.head_lem in
      record {
        tail_in = rw t h.tail_in;
        head_in = rw hd h.head_in;
        next_head_lem = w.next_head_lem ∙ h.next_head_lem ∙ ap (λ (n : ℕ). (n + 1) % 10) (sym hd);
        index_in = h.index_in;
        block_in = λ i l.
            let l' = written_back i l in
            let b = written_index i l' in omega (arith, h.block_in i l');
        level = λ i l. let l' = written_back i l in rw (written_segment i l') (h.level i l');
        behind = λ i l.
            let l' = written_back i l in let b = written_index i l' in omega (arith, h.behind i l');
      }

-- `e` is `d` with the segment at the head made ready.
pub record Pushed (d e : Driver) : Type 0 where
  pub tail_lem : e.tail ≡ d.tail
  pub head_lem : e.head ≡ d.next_head
  pub next_head_lem : e.next_head ≡ (d.next_head + 1) % 10
  pub st_lem : e.st ≡ d.st
  pub position_lem : e.sys_position ≡ d.sys_position
  pub busy_lem : e.busy ≡ d.busy
  pub segments_lem : e.segment_buffer ≡ d.segment_buffer
  pub blocks_lem : e.st_block_buffer ≡ d.st_block_buffer

module _ (p : ℕ) (d e : Driver) (w : Pushed d e) (h : IsChained 1 p d) (room : d.tail ≢ d.next_head)
    (mine : block_index d d.head ≡ p) (level : (d.segment_buffer d.head).amass_level ≤ 3) where
  pushed_segment : (i : ℕ) → e.segment_buffer i ≡ d.segment_buffer i
  pushed_segment i = ap (λ (f : ℕ → Segment). f i) w.segments_lem

  pushed_index : (i : ℕ) → block_index e i ≡ block_index d i
  pushed_index i = ap (λ (q : Segment). q.st_block_index) (pushed_segment i)

  pushed_back : (i : ℕ) → IsLive e i → (i ≡ d.head) ⊎ IsLive d i
  pushed_back i l =
      let t = w.tail_lem in
      let hd = w.head_lem in
      let n = h.next_head_lem in
      let ti = h.tail_in in
      let hi = h.head_in in
      elim (Bool-cases (i == d.head)) [
        | inl same ↦ inl (ground arith)
        | inr ne ↦ let ne' : i ≢ d.head = ground arith in inr (l.0, omega (arith, l.0, l.1))
      ]

  pub pushed-Keeps : Keeps d e
  pushed-Keeps = record {
    tail_lem = w.tail_lem;
    st_lem = w.st_lem;
    position_lem = w.position_lem;
    busy_lem = w.busy_lem;
    segments = λ i l. pushed_segment i;
    blocks = λ i l. ap (λ (f : ℕ → StBlock). f (block_index d i)) w.blocks_lem;
    still = λ i l.
        let t = w.tail_lem in
        let hd = w.head_lem in
        let n = h.next_head_lem in
        let ti = h.tail_in in let hi = h.head_in in (l.0, omega (arith, l.1));
  }

  pub pushed-IsChained : IsChained 0 p e
  pushed-IsChained =
      let t = w.tail_lem in
      let hd = w.head_lem in
      let n = h.next_head_lem in
      let ti = h.tail_in in
      let hi = h.head_in in
      let pi = h.index_in in
      record {
        tail_in = omega arith;
        head_in = omega arith;
        next_head_lem = w.next_head_lem ∙ ap (λ (m : ℕ). (m + 1) % 10) (sym hd);
        index_in = pi;
        block_in = λ i l.
            let b = pushed_index i in
            elim (pushed_back i l) [
              | inl same ↦
                  let m : block_index d i ≡ p = ap (block_index d) same ∙ mine in omega arith
              | inr l' ↦ omega (arith, h.block_in i l')
            ];
        level = λ i l. elim (pushed_back i l) [
          | inl same ↦ rw (pushed_segment i, same) level
          | inr l' ↦ rw (pushed_segment i) (h.level i l')
        ];
        behind = λ i l.
            let b = pushed_index i in
            elim (pushed_back i l) [
              | inl same ↦
                  let m : block_index d i ≡ p = ap (block_index d) same ∙ mine in omega (arith, l.0)
              | inr l' ↦ omega (arith, h.behind i l')
            ];
      }

module _ {F : Type 0} (ops : Floats F) (r : Rounding F) (c : PrepSettings F) (j : ℕ) where
  pub update_pwm-Phase : (g : Generator F) → Phase g (update_pwm ops r c j g)
  unfolding update_pwm set_control
  update_pwm-Phase g = record {
    ring = record {
      tail_lem = ground arith;
      head_lem = ground arith;
      next_head_lem = ground arith;
      st_lem = ground arith;
      position_lem = ground arith;
      busy_lem = ground arith;
      segments_lem = ground arith;
    };
    blocks_lem = ground arith;
    index_lem = ground arith;
    pl_block_lem = ground arith;
  }

  pub end_motion-Phase : (g : Generator F) → Phase g (end_motion g)
  unfolding end_motion set_control
  end_motion-Phase g = record {
    ring = record {
      tail_lem = refl;
      head_lem = refl;
      next_head_lem = refl;
      st_lem = refl;
      position_lem = refl;
      busy_lem = refl;
      segments_lem = refl;
    };
    blocks_lem = refl;
    index_lem = refl;
    pl_block_lem = refl;
  }

  pub set_segment-Written :
      (f : Segment → Segment) (p : ℕ) (g : Generator F)
      → (f (g.driver.segment_buffer g.driver.head)).st_block_index ≡ p
      → Written p g.driver (set_segment f g).driver
  unfolding set_segment
  set_segment-Written f p g index = record {
    tail_lem = refl;
    head_lem = refl;
    next_head_lem = refl;
    st_lem = refl;
    position_lem = refl;
    busy_lem = refl;
    blocks_lem = refl;
    others = λ i ne. ground arith;
    index_lem = ground arith;
  }

  pub push_segment-Pushed :
      (g : Generator F) → g.driver.next_head < 10 → Pushed g.driver (push_segment g).driver
  unfolding push_segment
  push_segment-Pushed g small = record {
    tail_lem = refl;
    head_lem = refl;
    next_head_lem = ground arith;
    st_lem = refl;
    position_lem = refl;
    busy_lem = refl;
    segments_lem = refl;
    blocks_lem = refl;
  }
