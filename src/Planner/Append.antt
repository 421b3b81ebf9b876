-- ===== src/Planner/Append.antt =====
-- A block appended to the ring of planner.c by `plan_buffer_line`, and the first one taken away.
use grbl_mega_plasma.Prelude.{
  ℕ, ◌<◌, ◌≡◌, sym, subst, ap, ◌∙◌, ◌≢◌, Bool, true, false, arith, ◌==◌, if◌then◌else◌, ◌⊎◌, inl,
  inr, none,
}
use grbl_mega_plasma.Floats.{Floats, le, IsOrdered}
use grbl_mega_plasma.Planner.{Block, Planner, block_buffer_size, put, gain, plan_next_block_index}
use grbl_mega_plasma.Planner.Order.{offset, IsValid, count, plan_next_block_index_lem}
use grbl_mega_plasma.Planner.Smooth.{after, IsLive, exit, exit_next, exit_last, eq_cases}
use grbl_mega_plasma.Planner.Plan.{entries, gains, IsSmooth, IsReached, InStep, IsPlanned}

module _ {F : Type 0} where
  pub put_self : (i j : ℕ) (b : Block F) (s : Planner F) → j ≡ i → (put i b s).block_buffer j ≡ b
  unfolding put
  put_self i j b s same =
      let test : (j == i) ≡ true = ground arith in
      ap (λ (t : Bool). if t then b else s.block_buffer j) test

  pub put_ne :
      (i j : ℕ) (b : Block F) (s : Planner F)
      → j ≢ i
      → (put i b s).block_buffer j ≡ s.block_buffer j
  unfolding put
  put_ne i j b s ne =
      let test : (j == i) ≡ false = ground arith in
      ap (λ (t : Bool). if t then b else s.block_buffer j) test

module _ {F : Type 0} (ops : Floats F) where
  -- A state with a plan that can be executed: the stepper can follow it block by block.
  pub record IsExecutable (s : Planner F) : Type 0 where
    pub valid : IsValid s
    pub smooth : IsSmooth ops s
    pub reached : IsReached ops s (count s)

  -- The ring of `t` is that of `s` with the block `b` behind it.
  pub record Appends (b : Block F) (s t : Planner F) : Type 0 where
    pub head_lem : t.head ≡ s.next_head
    pub tail_lem : t.tail ≡ s.tail
    pub planned_lem : t.planned ≡ s.planned
    pub next_head_lem : t.next_head ≡ plan_next_block_index s.next_head
    pub last_lem : t.block_buffer s.head ≡ b
    pub others : (j : ℕ) → j ≢ s.head → t.block_buffer j ≡ s.block_buffer j
    pub pl_block_lem : t.pl_block ≡ s.pl_block
    pub speed_lem : t.current_speed ≡ s.current_speed

  module _ (ordered : IsOrdered ops) (b : Block F) (s t : Planner F) (x : IsExecutable s)
      (a : Appends b s t) (room : s.next_head ≢ s.tail) (rest : b.entry_speed_sqr ≡ ops.literal 0 0)
      (forward : le ops (ops.literal 0 0) (gain ops b))
      (bound : le ops (ops.literal 0 0) b.max_entry_speed_sqr) where
    appended-IsValid : IsValid t
    appended-IsValid =
        let v = x.valid in
        let t_in : s.tail < block_buffer_size = v.tail_in in
        let h_in : s.head < block_buffer_size = v.head_in in
        let p_in : s.planned < block_buffer_size = v.planned_in in
        let next : s.next_head ≡ after s.head = v.next_head_lem in
        let between = v.planned_between in
        let th : t.head ≡ s.next_head = a.head_lem in
        let tt : t.tail ≡ s.tail = a.tail_lem in
        let tp : t.planned ≡ s.planned = a.planned_lem in
        let tn : t.next_head ≡ after s.next_head =
          a.next_head_lem ∙ plan_next_block_index_lem s.next_head (omega arith) in
        record {
          tail_in = omega arith;
          head_in = omega arith;
          planned_in = omega arith;
          next_head_lem = omega arith;
          planned_between = omega arith;
        }

    -- A block of the new ring is the new one or one of the old ring.
    IsLive-cases :
        (i : ℕ) → IsLive t.tail t.head i → (i ≡ s.head) ⊎ ((i ≢ s.head) × IsLive s.tail s.head i)
    IsLive-cases i l =
        let v = x.valid in
        let t_in : s.tail < block_buffer_size = v.tail_in in
        let h_in : s.head < block_buffer_size = v.head_in in
        let next : s.next_head ≡ after s.head = v.next_head_lem in
        let th : t.head ≡ s.next_head = a.head_lem in
        let tt : t.tail ≡ s.tail = a.tail_lem in
        elim (eq_cases i s.head) [ inl same ↦ inl same | inr ne ↦ inr (ne, (l.0, omega arith)) ]

    -- The old blocks end at the speeds they had: the new one is entered at rest.
    exit_append :
        (i : ℕ)
        → IsLive s.tail s.head i
        → exit ops (entries ops t) t.head i ≡ exit ops (entries ops s) s.head i
    exit_append i l =
        let v = x.valid in
        let t_in : s.tail < block_buffer_size = v.tail_in in
        let h_in : s.head < block_buffer_size = v.head_in in
        let next : s.next_head ≡ after s.head = v.next_head_lem in
        let th : t.head ≡ s.next_head = a.head_lem in
        let speed = exit_next ops (entries ops t) t.head i (omega arith) in
        elim (eq_cases (after i) s.head) [
          | inl end ↦
              speed
              ∙ ap (entries ops t) end
              ∙ ap (λ (c : Block F). c.entry_speed_sqr) a.last_lem
              ∙ rest
              ∙ sym (exit_last ops (entries ops s) s.head i end)
          | inr ne ↦
              speed
              ∙ ap (λ (c : Block F). c.entry_speed_sqr) (a.others (after i) ne)
              ∙ sym (exit_next ops (entries ops s) s.head i ne)
        ]

    new_block : (i : ℕ) → i ≡ s.head → t.block_buffer i ≡ b
    new_block i same = ap t.block_buffer same ∙ a.last_lem

    appended-IsSmooth : IsSmooth ops t
    appended-IsSmooth = record {
      capped = λ i l far. elim (IsLive-cases i l) [
        | inl same ↦
            subst (λ (c : Block F). le ops c.entry_speed_sqr c.max_entry_speed_sqr)
              (sym (new_block i same)) (rw rest bound)
        | inr old ↦
            let tt : t.tail ≡ s.tail = a.tail_lem in
            subst (λ (c : Block F). le ops c.entry_speed_sqr c.max_entry_speed_sqr)
              (sym (a.others i old.0)) (x.smooth.capped i old.1 (omega arith))
      ];
      stops = λ i l. elim (IsLive-cases i l) [
        | inl same ↦
            let v = x.valid in
            let h_in : s.head < block_buffer_size = v.head_in in
            let next : s.next_head ≡ after s.head = v.next_head_lem in
            let th : t.head ≡ s.next_head = a.head_lem in
            let end = exit_last ops (entries ops t) t.head i (omega arith) in
            subst
              (λ (c : Block F).
                le ops c.entry_speed_sqr (ops.add (exit ops (entries ops t) t.head i) (gain ops c)))
              (sym (new_block i same)) (rw (rest, end) (ordered.le-add _ _ forward))
        | inr old ↦
            subst
              (λ (c : Block F).
                le ops c.entry_speed_sqr (ops.add (exit ops (entries ops t) t.head i) (gain ops c)))
              (sym (a.others i old.0)) (rw (exit_append i old.1) (x.smooth.stops i old.1))
      ];
      gains = λ i l. elim (IsLive-cases i l) [
        | inl same ↦
            subst (λ (c : Block F). le ops (ops.literal 0 0) (gain ops c)) (sym (new_block i same))
              forward
        | inr old ↦
            subst (λ (c : Block F). le ops (ops.literal 0 0) (gain ops c)) (sym (a.others i old.0))
              (x.smooth.gains i old.1)
      ];
    }

    appended-IsReached : IsReached ops t (offset t.planned t.tail)
    appended-IsReached = λ i l m n.
        let v = x.valid in
        let t_in : s.tail < block_buffer_size = v.tail_in in
        let h_in : s.head < block_buffer_size = v.head_in in
        let p_in : s.planned < block_buffer_size = v.planned_in in
        let between = v.planned_between in
        let tt : t.tail ≡ s.tail = a.tail_lem in
        let tp : t.planned ≡ s.planned = a.planned_lem in
        let here = a.others i (omega arith) in
        let there = a.others (after i) (omega arith) in
        subst
          (λ (c : Block F).
            le ops (entries ops t (after i)) (ops.add c.entry_speed_sqr (gain ops c)))
          (sym here)
          (subst
            (λ (c : Block F). le ops c.entry_speed_sqr (ops.add (entries ops s i) (gains ops s i)))
            (sym there) (x.reached i (l.0, omega arith) (m.0, omega arith) (omega arith)))

    appended-InStep : (s.tail ≡ s.head → s.pl_block ≡ none) → InStep ops s → InStep ops t
    appended-InStep idle step i e = elim (eq_cases s.tail s.head) [
      | inl empty ↦ let nothing : s.pl_block ≡ none = idle empty in absurd cc
      | inr ne ↦
          let h = step i (sym a.pl_block_lem ∙ e) in
          let t_in : s.tail < block_buffer_size = x.valid.tail_in in
          let h_in : s.head < block_buffer_size = x.valid.head_in in
          let tt : t.tail ≡ s.tail = a.tail_lem in
          (
            h.0 ∙ sym tt,
            rw (tt, a.speed_lem, exit_append s.tail (t_in, omega arith))
                (subst
                  (λ (c : Block F).
                    le ops (ops.mul s.current_speed s.current_speed)
                      (ops.add (exit ops (entries ops s) s.head s.tail) (gain ops c)))
                  (sym (a.others s.tail ne)) h.1),
          )
    ]

    pub appended-IsPlanned : (s.tail ≡ s.head → s.pl_block ≡ none) → InStep ops s → IsPlanned ops t
    appended-IsPlanned idle step = record {
      valid = appended-IsValid;
      smooth = appended-IsSmooth;
      reached = appended-IsReached;
      in_step = appended-InStep idle step;
    }
