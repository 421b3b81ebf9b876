-- ===== src/Planner/Forward.antt =====
-- The forward pass of `planner_recalculate` makes every junction of the plan one that is reached.
use grbl_mega_plasma.Prelude.{
  ℕ, zero, suc, ◌+◌, ◌≤◌, ◌<◌, ◌≡◌, refl, sym, subst, ◌∙◌, ◌≢◌, arith, ◌==◌, ==_iff, if◌then◌else◌,
  if_cases, inl, inr,
}
use grbl_mega_plasma.Floats.{Floats, le, IsOrdered}
use grbl_mega_plasma.Planner.{Planner, block_buffer_size, set_entry, put, plan_next_block_index}
use grbl_mega_plasma.Planner.Recalculate.{speed_up, mark_planned, forward_pass}
use grbl_mega_plasma.Planner.Order.{offset, IsValid, plan_next_block_index_lem}
use grbl_mega_plasma.Planner.Smooth.{
  after, IsLive, Reached, eq_cases, put_speed, put_speed_self, put_speed_ne, Reached-put_speed,
}
use grbl_mega_plasma.Planner.Plan.{
  entries, caps, gains, IsSmooth, IsReached, IsSmooth-set_entry, along,
}

module _ {F : Type 0} (ops : Floats F) where
  -- The plan is smooth and its first `n` junctions are reached; the ring is that of another state.
  pub record Advances (s t : Planner F) (n : ℕ) : Type 0 where
    pub valid : IsValid t
    pub smooth : IsSmooth ops t
    pub reached : IsReached ops t n
    pub tail_lem : t.tail ≡ s.tail
    pub head_lem : t.head ≡ s.head

  -- One junction more.
  Reached-suc :
      (e g : ℕ → F) (tail head cur : ℕ)
      → tail < block_buffer_size
      → cur < block_buffer_size
      → Reached ops e g tail head (offset cur tail)
      → le ops (e (after cur)) (ops.add (e cur) (g cur))
      → Reached ops e g tail head (suc (offset cur tail))
  Reached-suc e g tail head cur t_in c_in r here =
      λ i l m k. elim (eq_cases i cur) [ inl same ↦ rw same here | inr ne ↦ r i l m (omega arith) ]

  module _ (ordered : IsOrdered ops) (cur : ℕ) (s : Planner F) (valid : IsValid s)
      (smooth : IsSmooth ops s) (reached : IsReached ops s (offset cur s.tail))
      (live : IsLive s.tail s.head cur) (next : IsLive s.tail s.head (after cur)) where
    -- The exit speed that the block can speed up to.
    abbrev top : F
    top = ops.add (entries ops s cur) (gains ops s cur)

    lowered-IsSmooth :
        le ops top (entries ops s (after cur)) → IsSmooth ops (set_entry (after cur) top s)
    lowered-IsSmooth less =
        let t_in : s.tail < block_buffer_size = valid.tail_in in
        let h_in : s.head < block_buffer_size = valid.head_in in
        let gain = smooth.gains cur live in
        IsSmooth-set_entry ops (after cur) top s smooth h_in next
          (λ far. ordered.le_trans _ _ _ less (smooth.capped (after cur) next far))
          (ordered.le_trans _ _ _ less (smooth.stops (after cur) next))
          (λ j l e.
            let same : j ≡ cur = omega arith in
            rw same (ordered.le_trans _ _ _ (ordered.le-add _ _ gain) (ordered.le-add _ _ gain)))

    lowered-IsReached : IsReached ops (set_entry (after cur) top s) (suc (offset cur s.tail))
    unfolding set_entry put
    lowered-IsReached =
        let t_in : s.tail < block_buffer_size = valid.tail_in in
        let e = entries ops s in
        let apart : cur ≢ after cur = omega arith in
        along ops (λ (f g : ℕ → F). Reached ops f g s.tail s.head (suc (offset cur s.tail)))
          (after cur) top s
          (Reached-suc (put_speed ops e (after cur) top) (gains ops s) s.tail s.head cur t_in live.0
            (Reached-put_speed ops e (gains ops s) s.tail s.head (offset cur s.tail) (after cur) top
              (omega arith) t_in reached)
            (rw
              (
                put_speed_self ops e (after cur) (after cur) top refl,
                put_speed_ne ops e (after cur) cur top apart,
              )
              (ordered.le_refl top)))

    same-Advances : le ops (entries ops s (after cur)) top → Advances s s (suc (offset cur s.tail))
    same-Advances h = record {
      valid = valid;
      smooth = smooth;
      reached =
          Reached-suc (entries ops s) (gains ops s) s.tail s.head cur valid.tail_in live.0 reached
            h;
      tail_lem = refl;
      head_lem = refl;
    }

    lowered-Advances :
        le ops top (entries ops s (after cur))
        → Advances s
            (record (set_entry (after cur) top s) { planned = after cur })
            (suc (offset cur s.tail))
    unfolding set_entry put
    lowered-Advances less = record {
      valid = record {
        tail_in = valid.tail_in;
        head_in = valid.head_in;
        planned_in = next.0;
        next_head_lem = valid.next_head_lem;
        planned_between = omega arith;
      };
      smooth = lowered-IsSmooth less;
      reached = lowered-IsReached;
      tail_lem = refl;
      head_lem = refl;
    }

    speed_up-Advances : Advances s (speed_up ops cur (after cur) s) (suc (offset cur s.tail))
    unfolding speed_up
    speed_up-Advances =
        let old = entries ops s (after cur) in
        let entry = entries ops s cur in
        let lower = record (set_entry (after cur) top s) { planned = after cur } in
        let P : Planner F → Type 0 = λ t. Advances s t (suc (offset cur s.tail)) in
        if_cases P (ops.lt entry old) (if ops.lt top old then lower else s) s
          (λ less.
            if_cases P (ops.lt top old) lower s (λ h. lowered-Advances (ordered.lt-le _ _ h))
              (λ h. same-Advances h))
          (λ h.
            same-Advances (ordered.le_trans _ _ _ h (ordered.le-add _ _ (smooth.gains cur live))))

    mark_planned-Advances :
        (t : Planner F)
        → Advances s t (suc (offset cur s.tail))
        → Advances s (mark_planned ops (after cur) t) (suc (offset cur s.tail))
    unfolding mark_planned
    mark_planned-Advances t a =
        let t_tail : t.tail ≡ s.tail = a.tail_lem in
        let t_head : t.head ≡ s.head = a.head_lem in
        if_cases (λ (u : Planner F). Advances s u (suc (offset cur s.tail)))
          (ops.eq (entries ops t (after cur)) (caps ops t (after cur)))
          (record t { planned = after cur }) t
          (λ h. record {
            valid = record {
              tail_in = a.valid.tail_in;
              head_in = a.valid.head_in;
              planned_in = next.0;
              next_head_lem = a.valid.next_head_lem;
              planned_between = omega arith;
            };
            smooth = a.smooth;
            reached = a.reached;
            tail_lem = t_tail;
            head_lem = t_head;
          })
          (λ h. a)

  module _ (ordered : IsOrdered ops) where
    Advances-from : (s t u : Planner F) (n m : ℕ) → Advances s t n → Advances t u m → Advances s u m
    Advances-from s t u n m h k = record {
      valid = k.valid;
      smooth = k.smooth;
      reached = k.reached;
      tail_lem = k.tail_lem ∙ h.tail_lem;
      head_lem = k.head_lem ∙ h.head_lem;
    }

    -- At the head every junction is behind.
    all-IsReached :
        (s : Planner F) (cur : ℕ)
        → IsValid s
        → IsReached ops s (offset cur s.tail)
        → IsLive s.tail s.head cur
        → after cur ≡ s.head
        → IsReached ops s (offset s.head s.tail)
    all-IsReached s cur v r live end = λ i l m n.
        let t_in : s.tail < block_buffer_size = v.tail_in in
        let h_in : s.head < block_buffer_size = v.head_in in r i l m (omega arith)

    pub forward_pass-Advances :
        (fuel cur i : ℕ) (s : Planner F)
        → i ≡ after cur
        → IsValid s
        → IsSmooth ops s
        → IsReached ops s (offset cur s.tail)
        → IsLive s.tail s.head cur
        → offset s.head s.tail ≤ fuel + offset cur s.tail
        → Advances s (forward_pass ops fuel cur i s) (offset s.head s.tail)
    unfolding forward_pass
    forward_pass-Advances zero cur i s e v sm r live enough = absurd (omega arith)
    forward_pass-Advances (suc fuel) cur i s e v sm r live enough =
        let t_in : s.tail < block_buffer_size = v.tail_in in
        let h_in : s.head < block_buffer_size = v.head_in in
        if_cases (λ (t : Planner F). Advances s t (offset s.head s.tail)) (i == s.head) s
          (forward_pass ops fuel i (plan_next_block_index i)
            (mark_planned ops i (speed_up ops cur i s)))
          (λ h.
            let same : i ≡ s.head = (==_iff i s.head).0 h in
            record {
              valid = v;
              smooth = sm;
              reached = all-IsReached s cur v r live (omega arith);
              tail_lem = refl;
              head_lem = refl;
            })
          (λ h.
            let ne : i ≢ s.head = ground arith in
            let next : IsLive s.tail s.head (after cur) = (omega arith, omega arith) in
            let a =
              mark_planned-Advances ordered cur s v sm r live next (speed_up ops cur (after cur) s)
                (speed_up-Advances ordered cur s v sm r live next) in
            let t = mark_planned ops i (speed_up ops cur i s) in
            let b : Advances s t (suc (offset cur s.tail)) =
              subst
                (λ (k : ℕ).
                  Advances s (mark_planned ops k (speed_up ops cur k s)) (suc (offset cur s.tail)))
                (sym e) a in
            let t_tail : t.tail ≡ s.tail = b.tail_lem in
            let t_head : t.head ≡ s.head = b.head_lem in
            let there : suc (offset cur s.tail) ≡ offset i t.tail = omega arith in
            let far : offset t.head t.tail ≡ offset s.head s.tail = omega arith in
            Advances-from s t _ _ _ b (
              subst (Advances t (forward_pass ops fuel i (plan_next_block_index i) t)) far (
                forward_pass-Advances fuel i (plan_next_block_index i) t
                  (plan_next_block_index_lem i (omega arith)) b.valid b.smooth
                  (subst (IsReached ops t) there b.reached) (omega arith, omega arith)
                  (omega arith))))
