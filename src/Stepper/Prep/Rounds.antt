-- ===== src/Stepper/Prep/Rounds.antt =====
-- The outer loop of `st_prep_buffer` of stepper.c ends: a round that another one follows fills a place.
use grbl_mega_plasma.Prelude.{
  ℕ, zero, suc, ◌+◌, ◌-◌, ◌%◌, ◌≤◌, ◌<◌, ◌≡◌, ◌≢◌, Bool-cases, inl, inr, refl, ◌∙◌, ap, sym, arith,
  ◌==◌, if◌then◌else◌, if_cases,
}
use grbl_mega_plasma.Floats.{Floats}
use grbl_mega_plasma.Spindle.{Rounding}
use grbl_mega_plasma.Stepper.{segment_buffer_size, Driver}
use grbl_mega_plasma.Stepper.Prep.{Generator, PrepSettings, control}
use grbl_mega_plasma.Stepper.Prep.Fill.{Outcome, prep_round, fill_buffer, st_prep_buffer}
use grbl_mega_plasma.Stepper.Prep.Ring.Grow.{IsInRange, Grows, GrowsNext, prep_round-GrowsNext}

-- The free places of the ring.
abbrev free : Driver → ℕ
free d = (d.tail + 10 - d.next_head) % 10

Grows-IsInRange : (d e : Driver) → IsInRange d → Grows d e → IsInRange e
Grows-IsInRange d e h g = record {
  tail_in = omega (arith, h.tail_in, g.tail_lem);
  head_in = omega (arith, h.next_head_lem, g.head_lem);
  next_head_lem = g.next_head_lem ∙ ap (λ (n : ℕ). (n + 1) % 10) (sym g.head_lem);
}

Grows-free : (d e : Driver) → IsInRange d → d.tail ≢ d.next_head → Grows d e → free e + 1 ≡ free d
Grows-free d e h room g =
    let small : d.next_head < 10 = omega (arith, h.next_head_lem) in
    omega (arith, h.tail_in, small, room, g.tail_lem, g.next_head_lem)

module _ {F : Type 0} (ops : Floats F) (r : Rounding F) (rounds : ℕ) (c : PrepSettings F) where
  fill_buffer_full :
      (fuel : ℕ) (g : Generator F)
      → g.driver.tail ≡ g.driver.next_head
      → fill_buffer ops r fuel rounds c g ≡ g
  unfolding fill_buffer
  fill_buffer_full zero g full = refl
  fill_buffer_full (suc fuel) g full = ground arith

  -- What follows a round, when `n` more are given.
  unfoldable after : ℕ → Outcome F → Generator F
  after n (Outcome.returned k) = k
  after n (Outcome.running k) = k
  after n (Outcome.next k) = fill_buffer ops r n rounds c k

  after_lem :
      (n : ℕ) (o : Outcome F)
      → (elim o [
        | Outcome.returned k ↦ k
        | Outcome.running k ↦ k
        | Outcome.next k ↦ fill_buffer ops r n rounds c k
      ])
        ≡ after n o
  unfolding after
  after_lem n (Outcome.returned k) = refl
  after_lem n (Outcome.running k) = refl
  after_lem n (Outcome.next k) = refl

  fill_buffer_room :
      (n : ℕ) (g : Generator F)
      → g.driver.tail ≢ g.driver.next_head
      → fill_buffer ops r (suc n) rounds c g ≡ after n (prep_round ops r rounds c g)
  unfolding fill_buffer
  fill_buffer_room n g room =
      if_cases (λ k. k ≡ after n (prep_round ops r rounds c g))
        (g.driver.tail == g.driver.next_head) g _ (λ e. absurd (room (ground arith)))
        (λ e. after_lem n (prep_round ops r rounds c g))

  after_enough :
      (n m : ℕ) (g : Generator F)
      → g.driver.tail ≢ g.driver.next_head
      → IsInRange g.driver
      → free g.driver ≤ n + 1
      → ((k : Generator F)
          → IsInRange k.driver
          → free k.driver ≤ n
          → fill_buffer ops r m rounds c k ≡ fill_buffer ops r n rounds c k)
      → (o : Outcome F) → GrowsNext g.driver o
      → after m o ≡ after n o
  unfolding after
  after_enough n m g room h few rest (Outcome.returned k) s = refl
  after_enough n m g room h few rest (Outcome.running k) s = refl
  after_enough n m g room h few rest (Outcome.next k) s =
      rest k (Grows-IsInRange g.driver k.driver h s)
        (omega (arith, few, Grows-free g.driver k.driver h room s))

  fill_buffer_enough :
      (n m : ℕ) (g : Generator F)
      → n ≤ m
      → IsInRange g.driver
      → free g.driver ≤ n
      → fill_buffer ops r m rounds c g ≡ fill_buffer ops r n rounds c g
  fill_buffer_enough zero m g le h few =
      fill_buffer_full m g (omega (arith, few, h.tail_in, h.next_head_lem))
      ∙ sym (fill_buffer_full 0 g (omega (arith, few, h.tail_in, h.next_head_lem)))
  fill_buffer_enough (suc n) zero g le h few = absurd (omega arith)
  fill_buffer_enough (suc n) (suc m) g le h few =
      elim (Bool-cases (g.driver.tail == g.driver.next_head)) [
        | inl e ↦
            let full : g.driver.tail ≡ g.driver.next_head = ground arith in
            fill_buffer_full (suc m) g full ∙ sym (fill_buffer_full (suc n) g full)
        | inr e ↦
            let room : g.driver.tail ≢ g.driver.next_head = ground arith in
            fill_buffer_room m g room
            ∙ after_enough n m g room h (omega (arith, few))
                (λ k h2 few2. fill_buffer_enough n m k (omega arith) h2 few2)
                (prep_round ops r rounds c g)
                (prep_round-GrowsNext ops r rounds c g (omega (arith, h.next_head_lem)))
            ∙ sym (fill_buffer_room n g room)
      ]

  -- From a state whose places of the segment buffer are in range, and with the same rounds for the
  -- loop over the ramps: `st_prep_buffer`, which the model stops after ten segments, ends as it does
  -- with any larger number, so its outer loop ends by the source's own conditions.
  pub prep_buffer_enough :
      (n : ℕ) (g : Generator F)
      → segment_buffer_size ≤ n
      → IsInRange g.driver
      → st_prep_buffer ops r rounds c g
        ≡ (if (control g).end_motion then g else fill_buffer ops r n rounds c g)
  unfolding st_prep_buffer
  prep_buffer_enough n g le h =
      ap (λ (k : Generator F). if (control g).end_motion then g else k)
        (sym (fill_buffer_enough segment_buffer_size n g le h (omega arith)))
