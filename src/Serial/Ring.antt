-- ===== src/Serial/Ring.antt =====
-- A ring of serial.c: 256 bytes, the index of the next free byte and that of the oldest one.
use grbl_mega_plasma.Prelude.{
  ℕ, zero, suc, ◌+◌, ◌-◌, ◌%◌, ◌<◌, ◌≡◌, refl, sym, ap, ap₂, ◌∙◌, ◌≢◌, List, [], ◌∷◌, ◌++◌, arith,
  ◌==◌, leb, if◌then◌else◌, u8, length, get_or, set, length-set, get_or-set_self, get_or-set_ne,
}

-- `serial_*_buffer`, `serial_*_buffer_head`, `serial_*_buffer_tail`
pub record Ring : Type 0 where
  pub buf : List ℕ
  pub head : ℕ
  pub tail : ℕ

-- `RX_RING_BUFFER` and `TX_RING_BUFFER`
abbrev pub ring_size : ℕ
ring_size = 256

-- `i++; if (i == RING) { i = 0; }` on a `uint8_t`
unfoldable pub next_index : ℕ → ℕ
next_index i = if u8 (i + 1) == ring_size then 0 else u8 (i + 1)

-- The byte goes in at `head`.
unfoldable pub store : ℕ → ℕ → Ring → Ring
store x next r = record r { buf = set r.buf r.head x; head = next }

-- `serial_get_rx_buffer_available`
unfoldable pub rx_available : Ring → ℕ
rx_available r =
    if leb r.tail r.head then u8 (255 - (r.head - r.tail)) else u8 (r.tail - r.head - 1)

-- `serial_get_rx_buffer_count`
unfoldable pub rx_count : Ring → ℕ
rx_count r = if leb r.tail r.head then r.head - r.tail else 255 - (r.tail - r.head)

-- `serial_get_tx_buffer_count`
unfoldable pub tx_count : Ring → ℕ
tx_count r = if leb r.tail r.head then r.head - r.tail else u8 (ring_size - (r.tail - r.head))

pub record IsValid (r : Ring) : Type 0 where
  pub storage : length r.buf ≡ ring_size
  pub head_in : r.head < ring_size
  pub tail_in : r.tail < ring_size

-- The number of bytes from `tail` up to `head`, round the end.
abbrev pub used : Ring → ℕ
used r = (r.head + ring_size - r.tail) % ring_size

-- The `n` bytes from index `h` on, round the end.
abbrev pub window : List ℕ → ℕ → ℕ → List ℕ
window buf h zero = []
window buf h (suc n) = get_or buf h 0 ∷ window buf ((h + 1) % ring_size) n

-- The bytes that wait in the ring, oldest first.
abbrev pub contents : Ring → List ℕ
contents r = window r.buf r.tail (used r)

pub next_index_lem : (i : ℕ) → next_index i ≡ (i + 1) % ring_size
unfolding next_index
next_index_lem i = ground arith

pub length-window : (buf : List ℕ) (h n : ℕ) → length (window buf h n) ≡ n
length-window buf h zero = refl
length-window buf h (suc n) = ap suc (length-window buf ((h + 1) % ring_size) n)

-- A write just past a window extends it by that byte.
window-set :
    (buf : List ℕ) (x n h i : ℕ)
    → length buf ≡ ring_size
    → h < ring_size
    → n < ring_size
    → i ≡ (h + n) % ring_size
    → window (set buf i x) h (suc n) ≡ window buf h n ++ (x ∷ [])
window-set buf x zero h i hs hh hn e =
    let same : i ≡ h = omega arith in
    ap (λ (v : ℕ). v ∷ [])
      (ap (λ (j : ℕ). get_or (set buf j x) h 0) same ∙ get_or-set_self buf h x 0 (omega arith))
window-set buf x (suc n) h i hs hh hn e =
    ap₂ ◌∷◌ (get_or-set_ne buf x 0 (omega arith))
      (window-set buf x n ((h + 1) % ring_size) i hs (omega arith) (omega arith) (omega arith))

-- A byte stored in a ring that is not full goes behind the others.
pub contents-store :
    (x : ℕ) (r : Ring)
    → IsValid r
    → next_index r.head ≢ r.tail
    → contents (store x (next_index r.head) r) ≡ contents r ++ (x ∷ [])
unfolding store
contents-store x r v ne =
    let more : (next_index r.head + ring_size - r.tail) % ring_size ≡ suc (used r) =
      omega (arith, next_index_lem r.head) in
    ap (window (set r.buf r.head x) r.tail) more
    ∙ window-set r.buf x (used r) r.tail r.head v.storage v.tail_in (omega arith) (omega arith)

pub store-IsValid : (x : ℕ) (r : Ring) → IsValid r → IsValid (store x (next_index r.head) r)
unfolding store
store-IsValid x r v = ground (arith, next_index_lem r.head, length-set r.buf r.head x)

-- A ring that is not empty holds the byte at `tail`, and behind it what the next tail leaves.
pub contents_pop :
    (r : Ring)
    → IsValid r
    → r.head ≢ r.tail
    → contents r ≡ get_or r.buf r.tail 0 ∷ contents (record r { tail = next_index r.tail })
contents_pop r v ne =
    let some_used : used r ≡ suc ((r.head + ring_size - next_index r.tail) % ring_size) =
      omega (arith, next_index_lem r.tail) in
    ap (window r.buf r.tail) some_used
    ∙ ap
        (λ (k : ℕ).
          get_or r.buf r.tail 0 ∷ window r.buf k (used (record r { tail = next_index r.tail })))
        (sym (next_index_lem r.tail))

pub pop-IsValid : (r : Ring) → IsValid r → IsValid (record r { tail = next_index r.tail })
pop-IsValid r v = ground (arith, next_index_lem r.tail)
