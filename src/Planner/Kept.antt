-- ===== src/Planner/Kept.antt =====
-- Operations of planner.c that leave the plan of the waiting blocks: a write to the block behind the
-- ring, and the first block taken away.
use grbl_mega_plasma.Prelude.{
  ℕ, ◌<◌, ◌≡◌, sym, subst, ap, ◌∙◌, ◌≢◌, arith, ◌==◌, if◌then◌else◌, if_cases, inl, inr,
}
use grbl_mega_plasma.Floats.{Floats, le}
use grbl_mega_plasma.Planner.{
  Block, Planner, block_buffer_size, put, gain, plan_next_block_index, plan_discard_current_block,
}
use grbl_mega_plasma.Planner.Order.{IsValid, plan_next_block_index_lem, discard-IsValid}
use grbl_mega_plasma.Planner.Smooth.{after, IsLive, exit, exit_next, exit_last, eq_cases}
use grbl_mega_plasma.Planner.Plan.{entries, gains}
use grbl_mega_plasma.Planner.Append.{IsExecutable, put_ne}

module _ {F : Type 0} (ops : Floats F) where
  -- A write to the block behind the ring leaves the plan.
  module _ (b : Block F) (s : Planner F) (x : IsExecutable ops s) where
    exit-put_head :
        (i : ℕ)
        → exit ops (entries ops (put s.head b s)) s.head i ≡ exit ops (entries ops s) s.head i
    exit-put_head i =
        let after_put = entries ops (put s.head b s) in
        elim (eq_cases (after i) s.head) [
          | inl end ↦
              exit_last ops after_put s.head i end
              ∙ sym (exit_last ops (entries ops s) s.head i end)
          | inr ne ↦
              exit_next ops after_put s.head i ne
              ∙ ap (λ (c : Block F). c.entry_speed_sqr) (put_ne s.head (after i) b s ne)
              ∙ sym (exit_next ops (entries ops s) s.head i ne)
        ]

    -- A block that waits is another one.
    put_head_ne :
        (i : ℕ) → IsLive s.tail s.head i → (put s.head b s).block_buffer i ≡ s.block_buffer i
    put_head_ne i l = put_ne s.head i b s (omega arith)

    pub put_head-IsExecutable : IsExecutable ops (put s.head b s)
    unfolding put
    put_head-IsExecutable = record {
      valid = record {
        tail_in = x.valid.tail_in;
        head_in = x.valid.head_in;
        planned_in = x.valid.planned_in;
        next_head_lem = x.valid.next_head_lem;
        planned_between = x.valid.planned_between;
      };
      smooth = record {
        capped = λ i l far.
            subst (λ (c : Block F). le ops c.entry_speed_sqr c.max_entry_speed_sqr)
              (sym (put_head_ne i l)) (x.smooth.capped i l far);
        stops = λ i l.
            subst
              (λ (c : Block F).
                le ops c.entry_speed_sqr
                  (ops.add (exit ops (entries ops (put s.head b s)) s.head i) (gain ops c)))
              (sym (put_head_ne i l)) (rw (exit-put_head i) (x.smooth.stops i l));
        gains = λ i l.
            subst (λ (c : Block F). le ops (ops.literal 0 0) (gain ops c)) (sym (put_head_ne i l))
              (x.smooth.gains i l);
      };
      reached = λ i l m n.
          subst
            (λ (c : Block F).
              le ops (entries ops (put s.head b s) (after i))
                (ops.add c.entry_speed_sqr (gain ops c)))
            (sym (put_head_ne i l))
            (subst
              (λ (c : Block F).
                le ops c.entry_speed_sqr (ops.add (entries ops s i) (gains ops s i)))
              (sym (put_head_ne (after i) m)) (x.reached i l m n));
    }

  -- Taking the first block away leaves the rest of the plan.
  pub discard-IsExecutable :
      (s : Planner F) → IsExecutable ops s → IsExecutable ops (plan_discard_current_block s)
  unfolding plan_discard_current_block
  discard-IsExecutable s x =
      let v = x.valid in
      let h_in : s.head < block_buffer_size = v.head_in in
      let t_in : s.tail < block_buffer_size = v.tail_in in
      let next : plan_next_block_index s.tail ≡ after s.tail =
        plan_next_block_index_lem s.tail t_in in
      if_cases (λ (t : Planner F). IsValid t → IsExecutable ops t) (s.head == s.tail) s
        (record s {
          planned = if s.tail == s.planned then plan_next_block_index s.tail else s.planned;
          tail = plan_next_block_index s.tail;
        })
        (λ h w. x)
        (λ h w.
          let ne : s.head ≢ s.tail = ground arith in
          record {
            valid = w;
            smooth = record {
              capped = λ i l far. x.smooth.capped i (l.0, omega arith) (omega arith);
              stops = λ i l. x.smooth.stops i (l.0, omega arith);
              gains = λ i l. x.smooth.gains i (l.0, omega arith);
            };
            reached = λ i l m n. x.reached i (l.0, omega arith) (m.0, omega arith) (omega arith);
          })
        (discard-IsValid s v)
