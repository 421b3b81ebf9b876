-- ===== src/Planner/Reverse.antt =====
-- The reverse pass of `planner_recalculate` keeps a plan that can be executed.
use grbl_mega_plasma.Prelude.{
  ℕ, zero, suc, ◌+◌, ◌-◌, ◌%◌, ◌≤◌, ◌<◌, ◌≡◌, subst, ◌≢◌, arith, ◌==◌, ==_iff, if◌then◌else◌,
  if_cases,
}
use grbl_mega_plasma.Floats.{Floats, le, min, IsOrdered}
use grbl_mega_plasma.Planner.{
  Planner, block_buffer_size, set_entry, plan_prev_block_index, st_update_plan_block_parameters,
}
use grbl_mega_plasma.Planner.Recalculate.{
  slow_down, notify_at_tail, plan_last, reverse_pass, reverse_from,
}
use grbl_mega_plasma.Planner.Order.{offset, plan_prev_block_index_lem}
use grbl_mega_plasma.Planner.Smooth.{after, IsLive, exit, exit_next, exit_last}
use grbl_mega_plasma.Planner.Plan.{entries, caps, gains, IsPlanned, raised-IsPlanned}
use grbl_mega_plasma.Planner.Notice.{Keeps, Keeps-self, Keeps-trans, Keeps-set_entry, update-Keeps}

module _ {F : Type 0} (ops : Floats F) where
  module _ (ordered : IsOrdered ops) where
    slow_down-Keeps :
        (i : ℕ) (s : Planner F)
        → IsPlanned ops s
        → IsLive s.tail s.head i
        → after i ≢ s.head
        → offset s.planned s.tail < offset i s.tail
        → Keeps ops s (slow_down ops i (after i) s)
    unfolding slow_down
    slow_down-Keeps i s p live ne far =
        let v = ops.add (entries ops s (after i)) (gains ops s i) in
        let end : exit ops (entries ops s) s.head i ≡ entries ops s (after i) =
          exit_next ops (entries ops s) s.head i ne in
        let stops : le ops (entries ops s i) v = rw (← end) (p.smooth.stops i live) in
        let capped = p.smooth.capped i live (omega arith) in
        if_cases (λ (t : Planner F). Keeps ops s t) (ops.eq (entries ops s i) (caps ops s i)) s
          (set_entry i (if ops.lt v (caps ops s i) then v else caps ops s i) s)
          (λ h. Keeps-self ops s p)
          (λ h.
            if_cases (λ (w : F). Keeps ops s (set_entry i w s)) (ops.lt v (caps ops s i)) v
              (caps ops s i)
              (λ less. Keeps-set_entry ops i v s (
                raised-IsPlanned ops ordered i v s p live far stops (ordered.lt-le _ _ less)
                  (rw end (ordered.le_refl v))))
              (λ more. Keeps-set_entry ops i (caps ops s i) s (
                raised-IsPlanned ops ordered i (caps ops s i) s p live far capped
                  (ordered.le_refl _) (rw end more))))

    plan_last-Keeps :
        (i : ℕ) (s : Planner F)
        → IsPlanned ops s
        → IsLive s.tail s.head i
        → after i ≡ s.head
        → offset s.planned s.tail < offset i s.tail
        → Keeps ops s (plan_last ops i s)
    unfolding plan_last min
    plan_last-Keeps i s p live last far =
        let c = caps ops s i in
        let g = gains ops s i in
        let end = exit_last ops (entries ops s) s.head i last in
        let stops : le ops (entries ops s i) (ops.add (ops.literal 0 0) g) =
          rw (← end) (p.smooth.stops i live) in
        let forward = p.smooth.gains i live in
        if_cases (λ (w : F). Keeps ops s (set_entry i w s)) (ops.lt c g) c g
          (λ less. Keeps-set_entry ops i c s (
            raised-IsPlanned ops ordered i c s p live far (p.smooth.capped i live (omega arith))
              (ordered.le_refl c)
              (rw end
                (ordered.le_trans _ _ _ (ordered.lt-le c g less) (ordered.zero_add g forward)))))
          (λ more. Keeps-set_entry ops i g s (
            raised-IsPlanned ops ordered i g s p live far
              (ordered.le_trans _ _ _ stops (ordered.add_zero g forward)) more
              (rw end (ordered.zero_add g forward))))

    notify-Keeps :
        (i : ℕ) (s : Planner F)
        → IsPlanned ops s
        → s.head ≢ s.tail
        → (i ≡ s.tail → s.planned ≡ s.tail)
        → Keeps ops s (notify_at_tail ops i s)
    unfolding notify_at_tail
    notify-Keeps i s p ne at_tail =
        if_cases (λ (t : Planner F). Keeps ops s t) (i == s.tail)
          (st_update_plan_block_parameters ops s) s
          (λ h. update-Keeps ops s p (at_tail ((==_iff i s.tail).0 h)) ne) (λ h. Keeps-self ops s p)

    -- A round, given that the rounds to come keep the plan.
    reverse_round :
        (fuel i : ℕ) (s : Planner F)
        → IsPlanned ops s
        → IsLive s.tail s.head i
        → after i ≢ s.head
        → offset s.planned s.tail < offset i s.tail
        → ((j : ℕ) (t : Planner F)
            → IsPlanned ops t
            → IsLive t.tail t.head j
            → after j ≢ t.head
            → offset t.planned t.tail ≤ offset j t.tail
            → Keeps ops t (reverse_pass ops fuel (after j) j t))
        → Keeps ops s (
            reverse_pass ops fuel i
              (plan_prev_block_index i)
              (slow_down ops i (after i) (notify_at_tail ops (plan_prev_block_index i) s)))
    reverse_round fuel i s p live ne far rest =
        let t_in : s.tail < block_buffer_size = p.valid.tail_in in
        let h_in : s.head < block_buffer_size = p.valid.head_in in
        let p_in : s.planned < block_buffer_size = p.valid.planned_in in
        let b = plan_prev_block_index i in
        let b_lem : b ≡ (i + block_buffer_size - 1) % block_buffer_size =
          plan_prev_block_index_lem i live.0 in
        let n = notify_at_tail ops b s in
        let kn = notify-Keeps b s p (omega arith) (λ e. omega arith) in
        let n_tail : n.tail ≡ s.tail = kn.tail_lem in
        let n_head : n.head ≡ s.head = kn.head_lem in
        let n_planned : n.planned ≡ s.planned = kn.planned_lem in
        let d = slow_down ops i (after i) n in
        let kd = slow_down-Keeps i n kn.plan (live.0, omega arith) (omega arith) (omega arith) in
        let d_tail : d.tail ≡ n.tail = kd.tail_lem in
        let d_head : d.head ≡ n.head = kd.head_lem in
        let d_planned : d.planned ≡ n.planned = kd.planned_lem in
        let back : after b ≡ i = omega arith in
        Keeps-trans ops s n _ kn (
          Keeps-trans ops n d _ kd (
            subst (λ (k : ℕ). Keeps ops d (reverse_pass ops fuel k b d)) back
              (rest b d kd.plan (omega arith, omega arith) (omega arith) (omega arith))))

    reverse_pass-Keeps :
        (fuel i : ℕ) (s : Planner F)
        → IsPlanned ops s
        → IsLive s.tail s.head i
        → after i ≢ s.head
        → offset s.planned s.tail ≤ offset i s.tail
        → Keeps ops s (reverse_pass ops fuel (after i) i s)
    unfolding reverse_pass
    reverse_pass-Keeps zero i s p live ne far = Keeps-self ops s p
    reverse_pass-Keeps (suc fuel) i s p live ne far =
        if_cases (λ (t : Planner F). Keeps ops s t) (i == s.planned) s
          (reverse_pass ops fuel i (plan_prev_block_index i)
            (slow_down ops i (after i) (notify_at_tail ops (plan_prev_block_index i) s)))
          (λ h. Keeps-self ops s p)
          (λ h.
            let ne_planned : i ≢ s.planned = ground arith in
            reverse_round fuel i s p live ne (omega arith) (reverse_pass-Keeps fuel))

    pub reverse_from-Keeps :
        (last : ℕ) (s : Planner F)
        → IsPlanned ops s
        → IsLive s.tail s.head last
        → after last ≡ s.head
        → offset s.planned s.tail < offset last s.tail
        → Keeps ops s (reverse_from ops last s)
    unfolding reverse_from
    reverse_from-Keeps last s p live end far =
        let t_in : s.tail < block_buffer_size = p.valid.tail_in in
        let h_in : s.head < block_buffer_size = p.valid.head_in in
        let p_in : s.planned < block_buffer_size = p.valid.planned_in in
        let b = plan_prev_block_index last in
        let b_lem : b ≡ (last + block_buffer_size - 1) % block_buffer_size =
          plan_prev_block_index_lem last live.0 in
        let t = plan_last ops last s in
        let kt = plan_last-Keeps last s p live end far in
        let t_tail : t.tail ≡ s.tail = kt.tail_lem in
        let t_head : t.head ≡ s.head = kt.head_lem in
        let t_planned : t.planned ≡ s.planned = kt.planned_lem in
        let back : after b ≡ last = omega arith in
        Keeps-trans ops s t _ kt (
          if_cases (λ (u : Planner F). Keeps ops t u) (b == t.planned) (notify_at_tail ops b t)
            (reverse_pass ops block_buffer_size last b t)
            (λ h.
              let same : b ≡ t.planned = (==_iff b t.planned).0 h in
              notify-Keeps b t kt.plan (omega arith) (λ e. omega arith))
            (λ h.
              subst (λ (k : ℕ). Keeps ops t (reverse_pass ops block_buffer_size k b t)) back
                (reverse_pass-Keeps block_buffer_size b t kt.plan (omega arith, omega arith)
                  (omega arith) (omega arith))))
