-- ===== src/Stepper/Prep/Ring/Emit.antt =====
-- What `st_prep_buffer` of stepper.c leaves alone when it makes a segment ready.
use grbl_mega_plasma.Prelude.{ℕ, ◌≤◌, ◌≡◌, ◌≢◌, ◌∙◌, ap, sym, subst, arith}
use grbl_mega_plasma.Floats.{Floats}
use grbl_mega_plasma.Spindle.{Rounding}
use grbl_mega_plasma.Stepper.{StBlock}
use grbl_mega_plasma.Stepper.Prep.{Generator, PrepSettings}
use grbl_mega_plasma.Stepper.Prep.Fill.{
  rated, set_segment, rate_segment, push_segment, emit_segment,
}
use grbl_mega_plasma.Stepper.Prep.Ring.{
  block_index, IsChained, Keeps, Keeps-trans, IsChained-same, Keeps-same,
}
use grbl_mega_plasma.Stepper.Prep.Ring.Push.{
  Phase, Written, written-Keeps, written-IsChained, pushed-Keeps, pushed-IsChained,
  set_segment-Written, push_segment-Pushed, amass_level_of-le,
}

module _ {F : Type 0} where
  pub Phase-Keeps : (g h : Generator F) → Phase g h → Keeps g.driver h.driver
  Phase-Keeps g h p =
      Keeps-same g.driver h.driver p.ring
        (λ i l. ap (λ (f : ℕ → StBlock). f (block_index g.driver i)) p.blocks_lem)

  pub Phase-IsChained :
      (extra : ℕ) (g h : Generator F)
      → Phase g h
      → IsChained extra g.prep.st_block_index g.driver
      → IsChained extra h.prep.st_block_index h.driver
  Phase-IsChained extra g h p c =
      rw p.index_lem (IsChained-same g.driver h.driver p.ring extra g.prep.st_block_index c)

  pub Phase-room :
      (g h : Generator F)
      → Phase g h
      → g.driver.tail ≢ g.driver.next_head
      → h.driver.tail ≢ h.driver.next_head
  Phase-room g h p room =
      let t = p.ring.tail_lem in let n = p.ring.next_head_lem in λ e. room (sym t ∙ e ∙ n)

module _ {F : Type 0} (ops : Floats F) (r : Rounding F) (c : PrepSettings F) (j : ℕ) where
  rate-Written :
      (cycles : ℕ) (g : Generator F)
      → block_index g.driver g.driver.head ≡ g.prep.st_block_index
      → Written g.prep.st_block_index g.driver (rate_segment cycles g).driver
  unfolding rate_segment
  rate-Written cycles g mine =
      set_segment-Written ops r c j (rated cycles) g.prep.st_block_index g mine

  rate_level :
      (cycles : ℕ) (g : Generator F)
      → ((rate_segment cycles g).driver.segment_buffer g.driver.head).amass_level ≤ 3
  unfolding rate_segment set_segment
  rate_level cycles g = ground (arith, amass_level_of-le cycles)

  -- A segment whose rate is computed and that is then made ready.
  ready-Keeps :
      (cycles : ℕ) (g : Generator F)
      → IsChained 1 g.prep.st_block_index g.driver
      → g.driver.tail ≢ g.driver.next_head
      → block_index g.driver g.driver.head ≡ g.prep.st_block_index
      → Keeps g.driver (push_segment (rate_segment cycles g)).driver
        × IsChained 0 g.prep.st_block_index (push_segment (rate_segment cycles g)).driver
  ready-Keeps cycles g h room mine =
      let p = g.prep.st_block_index in
      let g1 = rate_segment cycles g in
      let w = rate-Written cycles g mine in
      let h1 = written-IsChained p g.driver g1.driver w h in
      let head = w.head_lem in
      let hi = h1.head_in in
      let n1 = h1.next_head_lem in
      let free : g1.driver.tail ≢ g1.driver.next_head =
        λ e. room (sym w.tail_lem ∙ e ∙ w.next_head_lem) in
      let v = push_segment-Pushed ops r c j g1 (omega arith) in
      let own = ap (block_index g1.driver) head ∙ w.index_lem in
      let level =
        subst (λ (i : ℕ). (g1.driver.segment_buffer i).amass_level ≤ 3) (sym head)
          (rate_level cycles g) in
      (
        Keeps-trans g.driver g1.driver (push_segment g1).driver
            (written-Keeps p g.driver g1.driver w h)
            (pushed-Keeps p g1.driver (push_segment g1).driver v h1 free own level),
        pushed-IsChained p g1.driver (push_segment g1).driver v h1 free own level,
      )

  pub emit-Keeps :
      (mm dt left n_left last_left : F) (g : Generator F)
      → IsChained 1 g.prep.st_block_index g.driver
      → g.driver.tail ≢ g.driver.next_head
      → block_index g.driver g.driver.head ≡ g.prep.st_block_index
      → Keeps g.driver (emit_segment ops r j mm dt left n_left last_left g).driver
        × IsChained 0
            (emit_segment ops r j mm dt left n_left last_left g).prep.st_block_index
            (emit_segment ops r j mm dt left n_left last_left g).driver
  unfolding emit_segment push_segment rate_segment set_segment
  emit-Keeps mm dt left n_left last_left g h room mine = ready-Keeps _ g h room mine
