-- ===== src/Stepper/Bresenham.antt =====
-- One axis of the line algorithm of stepper.c: how far it is from the ideal line.
use grbl_mega_plasma.Prelude.{
  ℕ, zero, suc, ◌+◌, ◌*◌, ◌/◌, ◌^◌, ◌≤◌, ◌<◌, ◌≡◌, refl, Bool, Bool-cases, ◌⊎◌, inl, inr, ltb,
  arith,
}
use grbl_mega_plasma.Floats.{ℤ}
use grbl_mega_plasma.Stepper.Tick.{u32, count_step, step_axis}

-- The position after `n` steps from `p`.
unfoldable pub moved : Bool → ℤ → ℕ → ℤ
moved back p zero = p
moved back p (suc n) = count_step back (moved back p n)

-- After `w` eighths of a step event, an axis with `s` steps in a block of `n` step events has made
-- `emitted` steps from `start`: its counter holds the exact remainder.
pub record OnAxis (n s w : ℕ) (back : Bool) (start : ℤ) (counter : ℕ) (position : ℤ) : Type 0 where
  pub emitted : ℕ
  pub place : position ≡ moved back start emitted
  pub balance : counter + 8 * (n * emitted) ≡ 4 * n + s * w
  pub below : counter ≤ 8 * n

-- One tick that adds `i` to the counter, `v` eighths of a step event.
OnAxis-add :
    (n s w v i : ℕ) (back : Bool) (start : ℤ) (counter : ℕ) (position : ℤ)
    → i ≤ 8 * n
    → n < 268435456
    → s * (w + v) ≡ s * w + i
    → OnAxis n s w back start counter position
    → OnAxis n s
        (w + v)
        back
        start
        (step_axis (8 * n) i back counter position).counter
        (step_axis (8 * n) i back counter position).position
unfolding step_axis moved
OnAxis-add n s w v i back start counter position small short sum h =
    let e = h.emitted in
    let more : n * suc e ≡ n * e + n = grind arith in
    elim (Bool-cases (ltb (8 * n) (u32 (counter + i)))) [
      | inl over ↦ record {
        emitted = suc e;
        place = ground (arith, h.place);
        balance = ground (arith, h.balance);
        below = ground (arith, h.below);
      }
      | inr under ↦ record {
        emitted = e;
        place = ground (arith, h.place);
        balance = ground (arith, h.balance);
        below = ground (arith, h.below);
      }
    ]

-- A tick of a segment at an AMASS level is a part of a step event.
pub OnAxis-step :
    (n s w l : ℕ) (back : Bool) (start : ℤ) (counter : ℕ) (position : ℤ)
    → l ≤ 3
    → s ≤ n
    → n < 268435456
    → OnAxis n s w back start counter position
    → OnAxis n s
        (w + 8 / 2 ^ l)
        back
        start
        (step_axis (8 * n) (8 * s / 2 ^ l) back counter position).counter
        (step_axis (8 * n) (8 * s / 2 ^ l) back counter position).position
OnAxis-step n s w zero back start counter position level small short h =
    OnAxis-add n s w 8 (8 * s / 2 ^ 0) back start counter position (omega arith) short (grind arith)
      h
OnAxis-step n s w (suc zero) back start counter position level small short h =
    OnAxis-add n s w 4 (8 * s / 2 ^ 1) back start counter position (omega arith) short (grind arith)
      h
OnAxis-step n s w (suc (suc zero)) back start counter position level small short h =
    OnAxis-add n s w 2 (8 * s / 2 ^ 2) back start counter position (omega arith) short (grind arith)
      h
OnAxis-step n s w (suc (suc (suc zero))) back start counter position level small short h =
    OnAxis-add n s w 1 (8 * s / 2 ^ 3) back start counter position (omega arith) short (grind arith)
      h
OnAxis-step n s w (suc (suc (suc (suc l)))) back start counter position level small short h =
    absurd (omega arith)

-- The counter of a new block is a half.
pub OnAxis-start : (n s : ℕ) (back : Bool) (start : ℤ) → OnAxis n s 0 back start (8 * n / 2) start
unfolding moved
OnAxis-start n s back start = record {
  emitted = 0;
  place = refl;
  balance = grind arith;
  below = omega arith;
}

-- Never farther than half a step from the ideal line, in eighths of a step event.
pub OnAxis-near :
    {n s w : ℕ} {back : Bool} {start : ℤ} {counter : ℕ} {position : ℤ}
    (h : OnAxis n s w back start counter position)
    → (8 * (n * h.emitted) ≤ 4 * n + s * w) × (s * w ≤ 8 * (n * h.emitted) + 4 * n)
OnAxis-near h = let b = h.balance in let c = h.below in (omega arith, omega arith)

mul_gap : (n a b : ℕ) → a < b → n * a + n ≤ n * b
mul_gap n a b h = grind arith

le_cases : (a b : ℕ) → (a < b) ⊎ (b < a) ⊎ (a ≡ b)
le_cases a b = elim (Bool-cases (ltb a b)) [
  | inl h ↦ inl (ground arith)
  | inr h ↦
      inr (elim (Bool-cases (ltb b a)) [ inl k ↦ inl (ground arith) | inr k ↦ inr (ground arith) ])
]

-- At the end of the block every step has been made.
pub OnAxis-end :
    {n s : ℕ} {back : Bool} {start : ℤ} {counter : ℕ} {position : ℤ}
    → 0 < n
    → (h : OnAxis n s (8 * n) back start counter position) → h.emitted ≡ s
OnAxis-end {n} {s} some_steps h =
    let b = h.balance in
    let c = h.below in
    let e = h.emitted in
    let total : s * (8 * n) ≡ 8 * (n * s) = grind arith in
    elim (le_cases e s) [
      | inl less ↦ absurd (omega (arith, mul_gap n e s less))
      | inr (inl more) ↦ absurd (omega (arith, mul_gap n s e more))
      | inr (inr same) ↦ same
    ]
