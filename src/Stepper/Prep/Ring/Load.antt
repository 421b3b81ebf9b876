-- ===== src/Stepper/Prep/Ring/Load.antt =====
-- The loading of a block by stepper.c overwrites no block that a segment in the buffer uses.
use grbl_mega_plasma.Prelude.{
  ℕ, ◌+◌, ◌%◌, ◌<◌, ◌≡◌, ◌≢◌, inl, inr, Bool-cases, true, false, refl, some, none, ◌∙◌, ap, sym,
  subst, false≢true, arith,
}
use grbl_mega_plasma.Floats.{Floats}
use grbl_mega_plasma.Planner.{put}
use grbl_mega_plasma.Stepper.{StBlock, Driver}
use grbl_mega_plasma.Stepper.Prep.{
  Generator, PrepSettings, st_next_block_index, store_block, set_control,
}
use grbl_mega_plasma.Stepper.Prep.Profile.{
  new_profile, hold_profile, normal_profile, override_profile, cruise_profile, load_speed,
  set_up_block, load_block, load_or_recompute, begin_block,
}
use grbl_mega_plasma.Stepper.Prep.Ring.{
  IsLive, block_index, IsChained, IsPrepared, IsPrepared-IsChained, Keeps, SameRing, IsChained-same,
  Keeps-same,
}

-- The ring of `e` is that of `d`, and its blocks are, but for the one at `p`.
record Loads (p : ℕ) (d e : Driver) : Type 0 where
  ring : SameRing d e
  blocks : (k : ℕ) → k ≢ p → e.st_block_buffer k ≡ d.st_block_buffer k

Loads-ring :
    (p : ℕ) (c d e : Driver)
    → Loads p c d
    → SameRing d e
    → e.st_block_buffer ≡ d.st_block_buffer
    → Loads p c e
Loads-ring p c d e s t blocks = record {
  ring = record {
    tail_lem = t.tail_lem ∙ s.ring.tail_lem;
    head_lem = t.head_lem ∙ s.ring.head_lem;
    next_head_lem = t.next_head_lem ∙ s.ring.next_head_lem;
    st_lem = t.st_lem ∙ s.ring.st_lem;
    position_lem = t.position_lem ∙ s.ring.position_lem;
    busy_lem = t.busy_lem ∙ s.ring.busy_lem;
    segments_lem = t.segments_lem ∙ s.ring.segments_lem;
  };
  blocks = λ k ne. ap (λ (f : ℕ → StBlock). f k) blocks ∙ s.blocks k ne;
}

same_room : (d e : Driver) → SameRing d e → d.tail ≢ d.next_head → e.tail ≢ e.next_head
same_room d e s room = λ q. room (sym s.tail_lem ∙ q ∙ s.next_head_lem)

next_index : (p : ℕ) → p < 9 → st_next_block_index p ≡ (p + 1) % 9
unfolding st_next_block_index
next_index p h = ground arith

-- With a free place, no segment uses the block after the last one loaded.
module _ (p : ℕ) (d e : Driver) (h : IsChained 0 p d) (room : d.tail ≢ d.next_head) where
  fresh : (i : ℕ) → IsLive d i → block_index d i ≢ st_next_block_index p
  fresh i l same =
      let t = h.tail_in in
      let hd = h.head_in in
      let next = h.next_head_lem in
      let index = h.index_in in
      absurd (omega (arith, h.behind i l, h.block_in i l, next_index p index))

  Loads-Keeps : Loads (st_next_block_index p) d e → Keeps d e
  Loads-Keeps s = Keeps-same d e s.ring (λ i l. s.blocks (block_index d i) (fresh i l))

  Loads-IsChained : Loads (st_next_block_index p) d e → IsChained 1 (st_next_block_index p) e
  Loads-IsChained s = IsChained-same d e s.ring 1 (st_next_block_index p) (record {
    tail_in = h.tail_in;
    head_in = h.head_in;
    next_head_lem = h.next_head_lem;
    index_in = let index = h.index_in in omega (arith, next_index p index);
    block_in = h.block_in;
    level = h.level;
    behind = λ i l.
        let index = h.index_in in omega (arith, h.behind i l, h.block_in i l, next_index p index);
  })

module _ {F : Type 0} (ops : Floats F) (c : PrepSettings F) (j : ℕ) (g : Generator F) where
  new_profile_index : (new_profile ops j g).st_block_index ≡ g.prep.st_block_index
  unfolding new_profile hold_profile normal_profile override_profile cruise_profile
  new_profile_index = ground arith

  load_speed_driver : (load_speed ops j g).driver ≡ g.driver
  unfolding load_speed
  load_speed_driver = ground arith

  load_speed_index : (load_speed ops j g).prep.st_block_index ≡ g.prep.st_block_index
  unfolding load_speed
  load_speed_index = ground arith

  load_speed_block : (load_speed ops j g).planner.pl_block ≡ g.planner.pl_block
  unfolding load_speed put
  load_speed_block = ground arith

module _ {F : Type 0} (ops : Floats F) (c : PrepSettings F) (j : ℕ) where
  load_driver :
      (g : Generator F)
      → (load_block ops c j g).driver ≡ (store_block c (g.planner.block_buffer j) g).driver
  unfolding load_block set_up_block
  load_driver g = load_speed_driver ops c j (set_up_block ops c (g.planner.block_buffer j) g)

  load_index :
      (g : Generator F)
      → (load_block ops c j g).prep.st_block_index ≡ st_next_block_index g.prep.st_block_index
  unfolding load_block set_up_block store_block
  load_index g = load_speed_index ops c j (set_up_block ops c (g.planner.block_buffer j) g)

  load_pl_block : (g : Generator F) → (load_block ops c j g).planner.pl_block ≡ g.planner.pl_block
  unfolding load_block set_up_block store_block
  load_pl_block g = load_speed_block ops c j (set_up_block ops c (g.planner.block_buffer j) g)

  store-Loads :
      (g : Generator F)
      → Loads
          (st_next_block_index g.prep.st_block_index)
          g.driver
          (store_block c (g.planner.block_buffer j) g).driver
  unfolding store_block
  store-Loads g = record {
    ring = record {
      tail_lem = refl;
      head_lem = refl;
      next_head_lem = refl;
      st_lem = refl;
      position_lem = refl;
      busy_lem = refl;
      segments_lem = refl;
    };
    blocks = λ k ne. ground arith;
  }

  loaded :
      (g : Generator F)
      → g.planner.recalculate_flag ≡ false
      → load_or_recompute ops c j g ≡ load_block ops c j g
  unfolding load_or_recompute
  loaded g flag = rw flag

  recomputed :
      (g : Generator F)
      → g.planner.recalculate_flag ≡ true
      → ((load_or_recompute ops c j g).driver ≡ g.driver)
        × ((load_or_recompute ops c j g).prep.st_block_index ≡ g.prep.st_block_index)
        × ((load_or_recompute ops c j g).planner.pl_block ≡ g.planner.pl_block)
  unfolding load_or_recompute
  recomputed g flag = (ground arith, ground arith, ground arith)

  -- The block of `begin_block`, which is `g` with `pl_block` set.
  abbrev chosen : Generator F → Generator F
  chosen g = record g { planner = record (g.planner) { pl_block = some j } }

  begin_ring :
      (g : Generator F)
      → SameRing (load_or_recompute ops c j (chosen g)).driver (begin_block ops c j g).driver
  unfolding begin_block set_control
  begin_ring g = record {
    tail_lem = refl;
    head_lem = refl;
    next_head_lem = refl;
    st_lem = refl;
    position_lem = refl;
    busy_lem = refl;
    segments_lem = refl;
  }

  begin_blocks :
      (g : Generator F)
      → (begin_block ops c j g).driver.st_block_buffer
        ≡ (load_or_recompute ops c j (chosen g)).driver.st_block_buffer
  unfolding begin_block set_control
  begin_blocks g = refl

  begin_index :
      (g : Generator F)
      → (begin_block ops c j g).prep.st_block_index
        ≡ (load_or_recompute ops c j (chosen g)).prep.st_block_index
  unfolding begin_block set_control
  begin_index g = new_profile_index ops c j (load_or_recompute ops c j (chosen g))

  begin_pl_block :
      (g : Generator F)
      → (begin_block ops c j g).planner.pl_block
        ≡ (load_or_recompute ops c j (chosen g)).planner.pl_block
  unfolding begin_block set_control
  begin_pl_block g = refl

  first-IsChained :
      (g : Generator F)
      → g.planner.pl_block ≡ none
      → g.planner.recalculate_flag ≡ false
      → IsPrepared g
      → IsChained 0 g.prep.st_block_index g.driver
  first-IsChained g empty flag (inl h) = h
  first-IsChained g empty flag (inr (h, inl ne)) = absurd (ne empty)
  first-IsChained g empty flag (inr (h, inr set)) = absurd (false≢true (sym flag ∙ set))

  begun :
      (g : Generator F)
      → g.planner.recalculate_flag ≡ false
      → Loads (st_next_block_index g.prep.st_block_index) g.driver (begin_block ops c j g).driver
  begun g flag =
      let driver =
        ap (λ (k : Generator F). k.driver) (loaded (chosen g) flag) ∙ load_driver (chosen g) in
      Loads-ring (st_next_block_index g.prep.st_block_index) g.driver
        (store_block c ((chosen g).planner.block_buffer j) (chosen g)).driver
        (begin_block ops c j g).driver (store-Loads (chosen g))
        (subst (λ (d : Driver). SameRing d (begin_block ops c j g).driver) driver (begin_ring g))
        (begin_blocks g ∙ ap (λ (d : Driver). d.st_block_buffer) driver)

  pub begin-SameRing : (g : Generator F) → SameRing g.driver (begin_block ops c j g).driver
  begin-SameRing g = elim (Bool-cases g.planner.recalculate_flag) [
    | inl flag ↦
        subst (λ (d : Driver). SameRing d (begin_block ops c j g).driver)
          (recomputed (chosen g) flag).0 (begin_ring g)
    | inr flag ↦ (begun g flag).ring
  ]

  -- A block begun with a free place: nothing that the buffer's segments use is overwritten.
  pub begin-Keeps :
      (g : Generator F)
      → g.planner.pl_block ≡ none
      → IsPrepared g
      → g.driver.tail ≢ g.driver.next_head
      → Keeps g.driver (begin_block ops c j g).driver
        × IsChained 1 (begin_block ops c j g).prep.st_block_index (begin_block ops c j g).driver
        × ((begin_block ops c j g).planner.pl_block ≡ some j)
        × ((begin_block ops c j g).driver.tail ≢ (begin_block ops c j g).driver.next_head)
  begin-Keeps g empty prepared room = elim (Bool-cases g.planner.recalculate_flag) [
    | inl flag ↦
        let (driver, index, block) = recomputed (chosen g) flag in
        let p : (begin_block ops c j g).prep.st_block_index ≡ g.prep.st_block_index =
          begin_index g ∙ index in
        let ring =
          subst (λ (d : Driver). SameRing d (begin_block ops c j g).driver) driver (begin_ring g) in
        let blocks = begin_blocks g ∙ ap (λ (d : Driver). d.st_block_buffer) driver in
        (
          Keeps-same g.driver (begin_block ops c j g).driver ring
              (λ i l. ap (λ (f : ℕ → StBlock). f (block_index g.driver i)) blocks),
          rw p (
              IsChained-same g.driver (begin_block ops c j g).driver ring 1 g.prep.st_block_index
                (IsPrepared-IsChained g prepared)),
          begin_pl_block g ∙ block,
          same_room g.driver (begin_block ops c j g).driver ring room,
        )
    | inr flag ↦
        let h = first-IsChained g empty flag prepared in
        let q = loaded (chosen g) flag in
        let p : (begin_block ops c j g).prep.st_block_index
            ≡ st_next_block_index g.prep.st_block_index =
          begin_index g
          ∙ ap (λ (k : Generator F). k.prep.st_block_index) q
          ∙ load_index (chosen g) in
        let s = begun g flag in
        (
          Loads-Keeps g.prep.st_block_index g.driver (begin_block ops c j g).driver h room s,
          rw p (
              Loads-IsChained g.prep.st_block_index g.driver (begin_block ops c j g).driver h room
                s),
          begin_pl_block g
              ∙ ap (λ (k : Generator F). k.planner.pl_block) q
              ∙ load_pl_block (chosen g),
          same_room g.driver (begin_block ops c j g).driver s.ring room,
        )
  ]
