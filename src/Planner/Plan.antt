-- ===== src/Planner/Plan.antt =====
-- The plan that a state of planner.c holds, and what one write to it keeps.
use mathlib.Core.Path.{fun_ext}
use grbl_mega_plasma.Prelude.{
  ℕ, ◌<◌, ◌≡◌, refl, sym, subst, ap, Bool, arith, ◌==◌, ==_iff, if◌then◌else◌, if_apply, Bool-cases,
  ◌∙◌, inl, inr, some,
}
use grbl_mega_plasma.Floats.{Floats, le, IsOrdered}
use grbl_mega_plasma.Planner.{Block, Planner, block_buffer_size, put, set_entry, gain}
use grbl_mega_plasma.Planner.Order.{offset, IsValid}
use grbl_mega_plasma.Planner.Smooth.{
  after, IsLive, exit, Smooth, Reached, put_speed, exit_next, Smooth-put_speed, exit-put_speed,
  Reached-put_speed,
}

module _ {F : Type 0} (ops : Floats F) where
  abbrev pub entries : Planner F → ℕ → F
  entries s i = (s.block_buffer i).entry_speed_sqr

  abbrev pub caps : Planner F → ℕ → F
  caps s i = (s.block_buffer i).max_entry_speed_sqr

  abbrev pub gains : Planner F → ℕ → F
  gains s i = gain ops (s.block_buffer i)

  abbrev pub IsSmooth : Planner F → Type 0
  IsSmooth s = Smooth ops (entries s) (caps s) (gains s) s.tail s.head

  abbrev pub IsReached : Planner F → ℕ → Type 0
  IsReached s n = Reached ops (entries s) (gains s) s.tail s.head n

  -- The stepper is at the first block, and slow enough there for the plan behind it.
  abbrev pub InStep : Planner F → Type 0
  InStep s =
      (i : ℕ)
      → s.pl_block ≡ some i
      → (i ≡ s.tail)
        × le ops (ops.mul s.current_speed s.current_speed)
            (ops.add (exit ops (entries s) s.head s.tail) (gains s s.tail))

  -- The plan can be executed, as far as it has been computed.
  pub record IsPlanned (s : Planner F) : Type 0 where
    pub valid : IsValid s
    pub smooth : IsSmooth s
    pub reached : IsReached s (offset s.planned s.tail)
    pub in_step : InStep s

  put_cell :
      {B : Type 0} (f : Block F → B) (i : ℕ) (b : Block F) (s : Planner F) (j : ℕ)
      → f b ≡ f (s.block_buffer i)
      → f ((put i b s).block_buffer j) ≡ f (s.block_buffer j)
  unfolding put
  put_cell f i b s j same = elim (Bool-cases (j == i)) [
    | inl h ↦
        let e : j ≡ i = (==_iff j i).0 h in
        ap (λ (t : Bool). f (if t then b else s.block_buffer j)) h
        ∙ same
        ∙ ap (λ (k : ℕ). f (s.block_buffer k)) (sym e)
    | inr h ↦ ap (λ (t : Bool). f (if t then b else s.block_buffer j)) h
  ]

  pub entries-set_entry :
      (i : ℕ) (v : F) (s : Planner F) → entries (set_entry i v s) ≡ put_speed ops (entries s) i v
  unfolding set_entry put put_speed
  entries-set_entry i v s = fun_ext (λ j.
      if_apply (λ (b : Block F). b.entry_speed_sqr) (j == i)
        (record (s.block_buffer i) { entry_speed_sqr = v }) (s.block_buffer j))

  pub caps-set_entry : (i : ℕ) (v : F) (s : Planner F) → caps (set_entry i v s) ≡ caps s
  unfolding set_entry
  caps-set_entry i v s =
      fun_ext (λ j. put_cell (λ (b : Block F). b.max_entry_speed_sqr) i _ s j refl)

  pub gains-set_entry : (i : ℕ) (v : F) (s : Planner F) → gains (set_entry i v s) ≡ gains s
  unfolding set_entry
  gains-set_entry i v s = fun_ext (λ j. put_cell (gain ops) i _ s j refl)

  -- What holds of the written plan holds of the plan of the written state.
  pub along :
      (P : (ℕ → F) → (ℕ → F) → Type 0) (i : ℕ) (v : F) (s : Planner F)
      → P (put_speed ops (entries s) i v) (gains s)
      → P (entries (set_entry i v s)) (gains (set_entry i v s))
  along P i v s h =
      subst (λ (e : ℕ → F). P e (gains (set_entry i v s))) (sym (entries-set_entry i v s))
        (subst (P (put_speed ops (entries s) i v)) (sym (gains-set_entry i v s)) h)

  -- A write to one entry speed, as a write to the plan.
  pub IsSmooth-set_entry :
      (i : ℕ) (v : F) (s : Planner F)
      → IsSmooth s
      → s.head < block_buffer_size
      → IsLive s.tail s.head i
      → (0 < offset i s.tail → le ops v (caps s i))
      → le ops v (ops.add (exit ops (entries s) s.head i) (gains s i))
      → ((j : ℕ)
          → IsLive s.tail s.head j
          → after j ≡ i
          → le ops (entries s j) (ops.add v (gains s j)))
      → IsSmooth (set_entry i v s)
  unfolding set_entry put
  IsSmooth-set_entry i v s p h_in live bound own before =
      rw (entries-set_entry i v s, caps-set_entry i v s, gains-set_entry i v s)
        (Smooth-put_speed ops p i v h_in live bound own before)

  -- A speed behind the planned block that is raised within its bounds.
  module _ (ordered : IsOrdered ops) (i : ℕ) (v : F) (s : Planner F) (p : IsPlanned s)
      (live : IsLive s.tail s.head i) (far : offset s.planned s.tail < offset i s.tail)
      (more : le ops (entries s i) v) where
    before_raised :
        (j : ℕ)
        → IsLive s.tail s.head j
        → after j ≡ i
        → le ops (entries s j) (ops.add v (gains s j))
    before_raised j l next =
        let h_in : s.head < block_buffer_size = p.valid.head_in in
        ordered.le_trans (entries s j) (ops.add (exit ops (entries s) s.head j) (gains s j))
          (ops.add v (gains s j)) (p.smooth.stops j l)
          (ordered.add_mono (exit ops (entries s) s.head j) v (gains s j)
            (rw (exit_next ops (entries s) s.head j (omega arith), next) more))

    raised-IsReached : IsReached (set_entry i v s) (offset s.planned s.tail)
    unfolding set_entry put
    raised-IsReached =
        let n = offset s.planned s.tail in
        along (λ (e g : ℕ → F). Reached ops e g s.tail s.head n) i v s
          (Reached-put_speed ops (entries s) (gains s) s.tail s.head n i v far p.valid.tail_in
            p.reached)

    raised-InStep : InStep (set_entry i v s)
    unfolding set_entry put
    raised-InStep k e =
        let h = p.in_step k e in
        let h_in : s.head < block_buffer_size = p.valid.head_in in
        (
          h.0,
          along
              (λ (f g : ℕ → F).
                le ops (ops.mul s.current_speed s.current_speed)
                  (ops.add (exit ops f s.head s.tail) (g s.tail)))
              i v s
              (ordered.le_trans _ _ _ h.1 (
                ordered.add_mono _ _ (gains s s.tail)
                  (exit-put_speed ops (entries s) s.head i s.tail v ordered (omega arith) more))),
        )

    pub raised-IsPlanned :
        le ops v (caps s i)
        → le ops v (ops.add (exit ops (entries s) s.head i) (gains s i))
        → IsPlanned (set_entry i v s)
    unfolding set_entry put
    raised-IsPlanned bound own = record {
      valid = record {
        tail_in = p.valid.tail_in;
        head_in = p.valid.head_in;
        planned_in = p.valid.planned_in;
        next_head_lem = p.valid.next_head_lem;
        planned_between = p.valid.planned_between;
      };
      smooth =
          IsSmooth-set_entry i v s p.smooth p.valid.head_in live (λ h. bound) own before_raised;
      reached = raised-IsReached;
      in_step = raised-InStep;
    }
