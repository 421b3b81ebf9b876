-- ===== src/Planner/Smooth.antt =====
-- Plans of squared entry speeds as functions of the block's index: `e` the entry speeds of the
-- blocks of planner.c, `c` their maximum entry speeds, `g` the gains over each block.
use grbl_mega_plasma.Prelude.{
  ℕ, ◌+◌, ◌%◌, ◌<◌, ◌≡◌, ap, ◌≢◌, Bool, true, false, arith, ◌==◌, if◌then◌else◌, ◌⊎◌, inl, inr,
}
use grbl_mega_plasma.Floats.{Floats, le, IsOrdered}
use grbl_mega_plasma.Planner.{block_buffer_size}
use grbl_mega_plasma.Planner.Order.{offset}

-- The index behind an index in the ring.
abbrev pub after : ℕ → ℕ
after i = (i + 1) % block_buffer_size

-- The block at an index waits to be executed.
abbrev pub IsLive : ℕ → ℕ → ℕ → Type 0
IsLive tail head i = (i < block_buffer_size) × (offset i tail < offset head tail)

pub eq_cases : (a b : ℕ) → (a ≡ b) ⊎ (a ≢ b)
eq_cases a b = ground arith

module _ {F : Type 0} (ops : Floats F) where
  -- The speed at the end of a block: the plan stops behind the last one.
  unfoldable pub exit : (ℕ → F) → ℕ → ℕ → F
  exit e head i = if after i == head then ops.literal 0 0 else e (after i)

  -- No block behind the first is entered above its maximum, and each block is long enough to slow
  -- down to the speed at its end.
  pub record Smooth (e c g : ℕ → F) (tail head : ℕ) : Type 0 where
    pub capped : (i : ℕ) → IsLive tail head i → 0 < offset i tail → le ops (e i) (c i)
    pub stops : (i : ℕ) → IsLive tail head i → le ops (e i) (ops.add (exit e head i) (g i))
    pub gains : (i : ℕ) → IsLive tail head i → le ops (ops.literal 0 0) (g i)

  -- Each of the first `n` blocks is long enough to speed up to the entry speed of the next one.
  abbrev pub Reached : (ℕ → F) → (ℕ → F) → ℕ → ℕ → ℕ → Type 0
  Reached e g tail head n =
      (i : ℕ)
      → IsLive tail head i
      → IsLive tail head (after i)
      → offset i tail < n
      → le ops (e (after i)) (ops.add (e i) (g i))

  unfoldable pub put_speed : (ℕ → F) → ℕ → F → ℕ → F
  put_speed e i v j = if j == i then v else e j

  pub put_speed_self : (e : ℕ → F) (i j : ℕ) (v : F) → j ≡ i → put_speed e i v j ≡ v
  unfolding put_speed
  put_speed_self e i j v same =
      let test : (j == i) ≡ true = ground arith in ap (λ (b : Bool). if b then v else e j) test

  pub put_speed_ne : (e : ℕ → F) (i j : ℕ) (v : F) → j ≢ i → put_speed e i v j ≡ e j
  unfolding put_speed
  put_speed_ne e i j v ne =
      let test : (j == i) ≡ false = ground arith in ap (λ (b : Bool). if b then v else e j) test

  -- The exit speed only depends on the speed of the next block.
  exit_put_ne :
      (e : ℕ → F) (head i j : ℕ) (v : F)
      → after j ≢ i
      → exit (put_speed e i v) head j ≡ exit e head j
  unfolding exit
  exit_put_ne e head i j v ne =
      ap (λ (w : F). if after j == head then ops.literal 0 0 else w)
        (put_speed_ne e i (after j) v ne)

  pub exit_next : (e : ℕ → F) (head j : ℕ) → after j ≢ head → exit e head j ≡ e (after j)
  unfolding exit
  exit_next e head j ne =
      let test : (after j == head) ≡ false = ground arith in
      ap (λ (b : Bool). if b then ops.literal 0 0 else e (after j)) test

  pub exit_last : (e : ℕ → F) (head j : ℕ) → after j ≡ head → exit e head j ≡ ops.literal 0 0
  unfolding exit
  exit_last e head j same =
      let test : (after j == head) ≡ true = ground arith in
      ap (λ (b : Bool). if b then ops.literal 0 0 else e (after j)) test

  module _ {e c g : ℕ → F} {tail head : ℕ} (p : Smooth e c g tail head) (i : ℕ) (v : F) where
    put_capped :
        (j : ℕ)
        → IsLive tail head j
        → 0 < offset j tail
        → (0 < offset i tail → le ops v (c i))
        → le ops (put_speed e i v j) (c j)
    put_capped j l far cap = elim (eq_cases j i) [
      | inl same ↦ rw (put_speed_self e i j v same, same) (cap (omega arith))
      | inr ne ↦ rw (put_speed_ne e i j v ne) (p.capped j l far)
    ]

    put_stops :
        (j : ℕ)
        → IsLive tail head i
        → head < block_buffer_size
        → IsLive tail head j
        → le ops v (ops.add (exit e head i) (g i))
        → (after j ≡ i → le ops (e j) (ops.add v (g j)))
        → le ops (put_speed e i v j) (ops.add (exit (put_speed e i v) head j) (g j))
    put_stops j live h_in l own before = elim (eq_cases j i) [
      | inl same ↦
          rw (put_speed_self e i j v same, exit_put_ne e head i j v (omega arith), same) own
      | inr ne ↦ elim (eq_cases (after j) i) [
        | inl next ↦
            rw
              (
                put_speed_ne e i j v ne,
                exit_next (put_speed e i v) head j (omega arith),
                put_speed_self e i (after j) v next,
              )
              (before next)
        | inr apart ↦ rw (put_speed_ne e i j v ne, exit_put_ne e head i j v apart) (p.stops j l)
      ]
    ]

    -- A changed speed keeps a plan smooth if it is within its own bounds and the block before can
    -- still slow down to it.
    pub Smooth-put_speed :
        head < block_buffer_size
        → IsLive tail head i
        → (0 < offset i tail → le ops v (c i))
        → le ops v (ops.add (exit e head i) (g i))
        → ((j : ℕ) → IsLive tail head j → after j ≡ i → le ops (e j) (ops.add v (g j)))
        → Smooth (put_speed e i v) c g tail head
    Smooth-put_speed h_in live cap own before = record {
      capped = λ j l far. put_capped j l far cap;
      stops = λ j l. put_stops j live h_in l own (before j l);
      gains = p.gains;
    }

  -- A raised speed at `i` raises the exit speed of the block before and of no other.
  pub exit-put_speed :
      (e : ℕ → F) (head i j : ℕ) (v : F)
      → IsOrdered ops
      → i ≢ head
      → le ops (e i) v
      → le ops (exit e head j) (exit (put_speed e i v) head j)
  exit-put_speed e head i j v ordered ne more = elim (eq_cases (after j) i) [
    | inl next ↦
        rw
          (
            exit_next e head j (omega arith),
            exit_next (put_speed e i v) head j (omega arith),
            put_speed_self e i (after j) v next,
            next,
          )
          more
    | inr apart ↦ rw (exit_put_ne e head i j v apart) (ordered.le_refl (exit e head j))
  ]

  -- A changed speed behind the first `n` junctions leaves them reached.
  pub Reached-put_speed :
      (e g : ℕ → F) (tail head n i : ℕ) (v : F)
      → n < offset i tail
      → tail < block_buffer_size
      → Reached e g tail head n
      → Reached (put_speed e i v) g tail head n
  Reached-put_speed e g tail head n i v far t_in r = λ j l m k.
      rw (put_speed_ne e i j v (omega arith), put_speed_ne e i (after j) v (omega arith))
        (r j l m k)
