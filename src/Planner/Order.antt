-- ===== src/Planner/Order.antt =====
-- The blocks of the planner's ring in their order: what each operation on the indices keeps.
use grbl_mega_plasma.Prelude.{
  ◌↔◌, ℕ, zero, suc, ◌+◌, ◌-◌, ◌%◌, ◌≤◌, ◌<◌, ◌≡◌, refl, ◌≢◌, true, Bool, Bool-cases, inl, inr,
  ==_iff, ◌==◌, if◌then◌else◌, sym, ap, ◌∙◌, arith, List, [], ◌∷◌, Option, none, some,
}
use grbl_mega_plasma.Planner.{
  Block, Planner, block_buffer_size, plan_next_block_index, plan_prev_block_index,
  plan_discard_current_block, plan_get_current_block, plan_check_full_buffer,
  plan_get_block_buffer_available, plan_get_block_buffer_count, plan_reset_buffer,
}

-- How far an index is behind another one, round the end.
abbrev pub offset : ℕ → ℕ → ℕ
offset i from = (i + block_buffer_size - from) % block_buffer_size

pub plan_next_block_index_lem :
    (i : ℕ) → i < block_buffer_size → plan_next_block_index i ≡ (i + 1) % block_buffer_size
unfolding plan_next_block_index
plan_next_block_index_lem i small = ground arith

pub plan_prev_block_index_lem :
    (i : ℕ)
    → i < block_buffer_size
    → plan_prev_block_index i ≡ (i + block_buffer_size - 1) % block_buffer_size
unfolding plan_prev_block_index
plan_prev_block_index_lem i small = ground arith

module _ {F : Type 0} where
  -- The planned block waits, if one does, and else the two indices agree.
  pub record IsValid (s : Planner F) : Type 0 where
    pub tail_in : s.tail < block_buffer_size
    pub head_in : s.head < block_buffer_size
    pub planned_in : s.planned < block_buffer_size
    pub next_head_lem : s.next_head ≡ (s.head + 1) % block_buffer_size
    pub planned_between : offset s.planned s.tail ≤ offset s.head s.tail - 1

  -- The number of blocks that wait.
  abbrev pub count : Planner F → ℕ
  count s = offset s.head s.tail

  -- The `n` blocks from index `i` on.
  abbrev pub blocks_from : (ℕ → Block F) → ℕ → ℕ → List (Block F)
  blocks_from buffer i zero = []
  blocks_from buffer i (suc n) = buffer i ∷ blocks_from buffer ((i + 1) % block_buffer_size) n

  -- The blocks that wait, the one to execute first.
  abbrev pub queue : Planner F → List (Block F)
  queue s = blocks_from s.block_buffer s.tail (count s)

  reset_buffer-IsValid : (s : Planner F) → IsValid (plan_reset_buffer s)
  unfolding plan_reset_buffer
  reset_buffer-IsValid s = ground arith

  pub discard-IsValid : (s : Planner F) → IsValid s → IsValid (plan_discard_current_block s)
  unfolding plan_discard_current_block
  discard-IsValid s v = ground (arith, plan_next_block_index_lem s.tail)

  -- In a valid ring the two counts add up to the 35 blocks that fit, the second is the number of
  -- blocks that wait, and the ring is reported full exactly when no block fits.
  pub counts :
      (s : Planner F)
      → IsValid s
      → (plan_get_block_buffer_available s + plan_get_block_buffer_count s ≡ 35)
        × (plan_get_block_buffer_count s ≡ count s)
        × ((plan_check_full_buffer s ≡ true) ↔ (plan_get_block_buffer_available s ≡ 0))
  unfolding plan_get_block_buffer_available plan_get_block_buffer_count plan_check_full_buffer
  counts s v = ground arith

  abbrev pub first : List (Block F) → Option (Block F)
  first [] = none
  first (b ∷ bs) = some b

  abbrev pub rest : List (Block F) → List (Block F)
  rest [] = []
  rest (b ∷ bs) = bs

  queue_nil : (s : Planner F) → IsValid s → s.head ≡ s.tail → queue s ≡ []
  queue_nil s v empty =
      let t_in : s.tail < block_buffer_size = v.tail_in in
      let none_used : count s ≡ 0 = omega arith in ap (blocks_from s.block_buffer s.tail) none_used

  queue_cons :
      (s : Planner F)
      → IsValid s
      → s.head ≢ s.tail
      → queue s
        ≡ s.block_buffer s.tail
          ∷ queue (record s {
            planned = if s.tail == s.planned then plan_next_block_index s.tail else s.planned;
            tail = plan_next_block_index s.tail;
          })
  queue_cons s v ne =
      let t_in : s.tail < block_buffer_size = v.tail_in in
      let h_in : s.head < block_buffer_size = v.head_in in
      let next = plan_next_block_index_lem s.tail t_in in
      let more : count s ≡ suc (offset s.head (plan_next_block_index s.tail)) =
        omega (arith, next) in
      ap (blocks_from s.block_buffer s.tail) more
      ∙ ap
          (λ (i : ℕ).
            s.block_buffer s.tail
            ∷ blocks_from s.block_buffer i (offset s.head (plan_next_block_index s.tail)))
          (sym next)

  -- In a valid ring `plan_get_current_block` is the first of the blocks that wait, if any does, and
  -- `plan_discard_current_block` takes that block away and leaves the others in their order.
  pub discard_queue :
      (s : Planner F)
      → IsValid s
      → (plan_get_current_block s ≡ first (queue s))
        × (queue (plan_discard_current_block s) ≡ rest (queue s))
  unfolding plan_get_current_block plan_discard_current_block
  discard_queue s v = elim (Bool-cases (s.head == s.tail)) [
    | inl h ↦
        let nil = queue_nil s v ((==_iff s.head s.tail).0 h) in
        (
          rw nil (ap (λ (b : Bool). if b then none else some (s.block_buffer s.tail)) h),
          ap (λ (b : Bool). queue (if b then s else without_first)) h ∙ rw nil refl,
        )
    | inr h ↦
        let ne : s.head ≢ s.tail = ground arith in
        let cons = queue_cons s v ne in
        (
          ap (λ (b : Bool). if b then none else some (s.block_buffer s.tail)) h
              ∙ sym (ap first cons),
          ap (λ (b : Bool). queue (if b then s else without_first)) h ∙ sym (ap rest cons),
        )
  ]
    where
      without_first : Planner F
      without_first = record s {
        planned = if s.tail == s.planned then plan_next_block_index s.tail else s.planned;
        tail = plan_next_block_index s.tail;
      }
