-- ===== src/Stepper/Prep/Ring.antt =====
-- The segment buffer of stepper.c with the block data that its segments use: what preparing a segment
-- leaves alone.
pub mod Load
pub mod Grow
pub mod Push
pub mod Emit
pub mod Round
use grbl_mega_plasma.Prelude.{
  ℕ, ◌+◌, ◌-◌, ◌%◌, ◌≤◌, ◌<◌, ◌≡◌, ◌≢◌, ◌⊎◌, inl, inr, true, refl, none, ◌∙◌, ap, sym, arith,
}
use grbl_mega_plasma.Stepper.{StBlock, Segment, Driver}
use grbl_mega_plasma.Stepper.Prep.{Generator}

-- How many segments wait or are executed, and how far behind the tail the place `i` is.
abbrev pub count : Driver → ℕ
count d = (d.head + 10 - d.tail) % 10

abbrev pub place : Driver → ℕ → ℕ
place d i = (i + 10 - d.tail) % 10

abbrev pub IsLive : Driver → ℕ → Type 0
IsLive d i = (i < 10) × (place d i < count d)

abbrev pub block_index : Driver → ℕ → ℕ
block_index d i = (d.segment_buffer i).st_block_index

-- The blocks of the segments in the buffer are at most as far behind the block being prepared, which
-- is at the index `p`, as there are segments from them on, and `extra`.
pub record IsChained (extra p : ℕ) (d : Driver) : Type 0 where
  pub tail_in : d.tail < 10
  pub head_in : d.head < 10
  pub next_head_lem : d.next_head ≡ (d.head + 1) % 10
  pub index_in : p < 9
  pub block_in : (i : ℕ) → IsLive d i → block_index d i < 9
  pub level : (i : ℕ) → IsLive d i → (d.segment_buffer i).amass_level ≤ 3
  pub behind :
      (i : ℕ) → IsLive d i → place d i + (p + 9 - block_index d i) % 9 + 1 ≤ count d + extra

weaken : (p : ℕ) (d : Driver) → IsChained 0 p d → IsChained 1 p d
weaken p d h = record {
  tail_in = h.tail_in;
  head_in = h.head_in;
  next_head_lem = h.next_head_lem;
  index_in = h.index_in;
  block_in = h.block_in;
  level = h.level;
  behind = λ i l. omega (arith, h.behind i l);
}

module _ {F : Type 0} where
  -- A block that is loaded and has no segment yet is not loaded again.
  abbrev pub IsPrepared : Generator F → Type 0
  IsPrepared g =
      IsChained 0 g.prep.st_block_index g.driver
      ⊎ (IsChained 1 g.prep.st_block_index g.driver
          × ((g.planner.pl_block ≢ none) ⊎ (g.planner.recalculate_flag ≡ true)))

  pub IsPrepared-IsChained :
      (g : Generator F) → IsPrepared g → IsChained 1 g.prep.st_block_index g.driver
  IsPrepared-IsChained g (inl h) = weaken g.prep.st_block_index g.driver h
  IsPrepared-IsChained g (inr h) = h.0

-- The interrupt's state, the segments in the buffer and the blocks that they use are the same.
pub record Keeps (d e : Driver) : Type 0 where
  pub tail_lem : e.tail ≡ d.tail
  pub st_lem : e.st ≡ d.st
  pub position_lem : e.sys_position ≡ d.sys_position
  pub busy_lem : e.busy ≡ d.busy
  pub segments : (i : ℕ) → IsLive d i → e.segment_buffer i ≡ d.segment_buffer i
  pub blocks :
      (i : ℕ)
      → IsLive d i
      → e.st_block_buffer (block_index d i) ≡ d.st_block_buffer (block_index d i)
  pub still : (i : ℕ) → IsLive d i → IsLive e i

pub Keeps-refl : (d : Driver) → Keeps d d
Keeps-refl d = record {
  tail_lem = refl;
  st_lem = refl;
  position_lem = refl;
  busy_lem = refl;
  segments = λ i l. refl;
  blocks = λ i l. refl;
  still = λ i l. l;
}

pub Keeps-trans : (c d e : Driver) → Keeps c d → Keeps d e → Keeps c e
Keeps-trans c d e h k = record {
  tail_lem = k.tail_lem ∙ h.tail_lem;
  st_lem = k.st_lem ∙ h.st_lem;
  position_lem = k.position_lem ∙ h.position_lem;
  busy_lem = k.busy_lem ∙ h.busy_lem;
  segments = λ i l. k.segments i (h.still i l) ∙ h.segments i l;
  blocks = λ i l.
      let same = ap (λ (q : Segment). q.st_block_index) (h.segments i l) in
      ap e.st_block_buffer (sym same)
      ∙ k.blocks i (h.still i l)
      ∙ ap d.st_block_buffer same
      ∙ h.blocks i l;
  still = λ i l. k.still i (h.still i l);
}

-- Drivers whose rings are the same.
pub record SameRing (d e : Driver) : Type 0 where
  pub tail_lem : e.tail ≡ d.tail
  pub head_lem : e.head ≡ d.head
  pub next_head_lem : e.next_head ≡ d.next_head
  pub st_lem : e.st ≡ d.st
  pub position_lem : e.sys_position ≡ d.sys_position
  pub busy_lem : e.busy ≡ d.busy
  pub segments_lem : e.segment_buffer ≡ d.segment_buffer

module _ (d e : Driver) (s : SameRing d e) where
  pub IsLive-back : (i : ℕ) → IsLive e i → IsLive d i
  IsLive-back i l = let t = s.tail_lem in let h = s.head_lem in (l.0, omega (arith, l.1))

  pub IsLive-on : (i : ℕ) → IsLive d i → IsLive e i
  IsLive-on i l = let t = s.tail_lem in let h = s.head_lem in (l.0, omega (arith, l.1))

  pub segment_same : (i : ℕ) → e.segment_buffer i ≡ d.segment_buffer i
  segment_same i = ap (λ (f : ℕ → Segment). f i) s.segments_lem

  same_index : (i : ℕ) → block_index e i ≡ block_index d i
  same_index i = ap (λ (q : Segment). q.st_block_index) (segment_same i)

  pub IsChained-same : (extra p : ℕ) → IsChained extra p d → IsChained extra p e
  IsChained-same extra p h =
      let t = s.tail_lem in
      let hd = s.head_lem in
      record {
        tail_in = rw t h.tail_in;
        head_in = rw hd h.head_in;
        next_head_lem = s.next_head_lem ∙ h.next_head_lem ∙ ap (λ (n : ℕ). (n + 1) % 10) (sym hd);
        index_in = h.index_in;
        block_in = λ i l. let b = same_index i in omega (arith, h.block_in i (IsLive-back i l));
        level = λ i l. rw (segment_same i) (h.level i (IsLive-back i l));
        behind = λ i l. let b = same_index i in omega (arith, h.behind i (IsLive-back i l));
      }

  pub Keeps-same :
      ((i : ℕ)
        → IsLive d i
        → e.st_block_buffer (block_index d i) ≡ d.st_block_buffer (block_index d i))
      → Keeps d e
  Keeps-same b = record {
    tail_lem = s.tail_lem;
    st_lem = s.st_lem;
    position_lem = s.position_lem;
    busy_lem = s.busy_lem;
    segments = λ i l. segment_same i;
    blocks = b;
    still = IsLive-on;
  }
