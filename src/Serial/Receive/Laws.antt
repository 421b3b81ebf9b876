-- ===== src/Serial/Receive/Laws.antt =====
-- What reaches the line reader from the wire, in which order, and what never does.
use grbl_mega_plasma.Prelude.{
  ℕ, ◌+◌, ◌-◌, ◌%◌, ◌<◌, ◌≡◌, refl, sym, ap, ◌∙◌, false≢true, Bool, true, false, not, ◌&&◌, ◌||◌,
  List, [], ◌∷◌, ◌++◌, arith, ◌==◌, ltb, if◌then◌else◌, ==_iff, if_cases, holds_to, holds_to_lem,
  length,
}
use grbl_mega_plasma.Serial.Ring.{
  Ring, IsValid, ring_size, used, window, next_index, store, contents, contents-store,
  store-IsValid, contents_pop, pop-IsValid, length-window, next_index_lem,
}
use grbl_mega_plasma.Serial.Receive.{
  Action, cancels_jog, buffers, action, World, buffer, perform, rx_isr, serial_no_data, serial_read,
  serial_reset_read_buffer,
}

-- Bytes that the interrupt lets through to the ring: ASCII, without the four realtime commands.
abbrev pub is_text : ℕ → Bool
is_text c = ltb c 0x80 && not (c == 0x18 || (c == b'?' || (c == b'~' || c == b'!')))

abbrev is_buffers : Action → Bool
is_buffers buffers = true
is_buffers _ = false

same : Bool → Bool → Bool
same true b = b
same false b = not b

same_sound : (a b : Bool) → same a b ≡ true → a ≡ b
unfolding same
same_sound a b h = ground arith

buffers_table : holds_to 256 (λ c. same (is_buffers (action c)) (is_text c)) ≡ true
unfolding holds_to action same
buffers_table = refl

is_buffers-action : (c : ℕ) → c < 256 → is_buffers (action c) ≡ is_text c
is_buffers-action c h = same_sound _ _ (holds_to_lem _ 256 c h buffers_table)

-- A bounded queue of bytes, as the main program sees the receive side.
abbrev pub Queue : Type 0
Queue = List ℕ

-- A byte of text joins a queue with fewer than 255 bytes; any other byte does not.
unfoldable pub arrive : ℕ → Queue → Queue
arrive c q = if is_text c && not (length q == 255) then q ++ c ∷ [] else q

-- The oldest byte, or SERIAL_NO_DATA.
unfoldable pub take_oldest : Queue → ℕ × Queue
take_oldest [] = (serial_no_data, [])
take_oldest (x ∷ q) = (x, q)

full_iff : (r : Ring) → IsValid r → (next_index r.head == r.tail) ≡ (length (contents r) == 255)
full_iff r v =
    ground (arith, next_index_lem r.head, length-window r.buf r.tail (used r), v.head_in, v.tail_in)

buffer_lem :
    (c : ℕ) (r : Ring)
    → IsValid r
    → is_text c ≡ true
    → IsValid (buffer c r) × (contents (buffer c r) ≡ arrive c (contents r))
unfolding buffer arrive
buffer_lem c r v text =
    if_cases (λ r'. IsValid r' × (contents r' ≡ arrive c (contents r)))
      (next_index r.head == r.tail) r (store c (next_index r.head) r)
      (λ full. (v, rw (text, sym (full_iff r v) ∙ full)))
      (λ free. (
        store-IsValid c r v,
        rw (text, sym (full_iff r v) ∙ free)
            (contents-store c r v
              (λ e. false≢true (sym free ∙ (==_iff (next_index r.head) r.tail).1 e))),
      ))

rx-perform :
    (c : ℕ) (k : Action) (w : World)
    → (perform c k w).rx ≡ (if is_buffers k then buffer c w.rx else w.rx)
unfolding perform
rx-perform c cancels_jog w = ground arith
rx-perform c k w = refl

rx-rx_isr :
    (c : ℕ) (w : World) → c < 256 → (rx_isr c w).rx ≡ (if is_text c then buffer c w.rx else w.rx)
unfolding rx_isr
rx-rx_isr c w h =
    rx-perform c (action c) w
    ∙ ap (λ (b : Bool). if b then buffer c w.rx else w.rx) (is_buffers-action c h)

-- An incoming byte changes the queue that the main program reads as `arrive` says, and keeps the
-- ring valid.
rx_isr_arrives :
    (c : ℕ) (w : World)
    → c < 256
    → IsValid w.rx
    → IsValid (rx_isr c w).rx × (contents (rx_isr c w).rx ≡ arrive c (contents w.rx))
rx_isr_arrives c w h v = rw (rx-rx_isr c w h) (
    if_cases (λ r. IsValid r × (contents r ≡ arrive c (contents w.rx))) (is_text c) (buffer c w.rx)
      w.rx (buffer_lem c w.rx v) (λ no_text. (v, unfold arrive in rw no_text)))

serial_read_lem :
    (r : Ring)
    → IsValid r
    → let (x, r') = serial_read r in IsValid r' × ((x, contents r') ≡ take_oldest (contents r))
unfolding serial_read take_oldest
serial_read_lem r v =
    if_cases (λ (o : ℕ × Ring). IsValid o.1 × ((o.0, contents o.1) ≡ take_oldest (contents r)))
      (r.head == r.tail) _ _
      (λ empty.
        let none_used : used r ≡ 0 = omega (arith, (==_iff r.head r.tail).0 empty, v.tail_in) in
        (v, rw none_used))
      (λ some_left. (
        pop-IsValid r v,
        rw (contents_pop r v (λ e. false≢true (sym some_left ∙ (==_iff r.head r.tail).1 e))),
      ))

-- What happens on the receive side: a byte comes in, the main program reads, or throws all away.
pub data Event : Type 0 where
  comes : ℕ → Event
  reads resets_buffer : Event

-- The values that `serial_read` returns in the course of the events.
pub run : World → List Event → List ℕ
run w [] = []
run w (comes c ∷ es) = run (rx_isr c w) es
run w (reads ∷ es) = let (x, r) = serial_read w.rx in x ∷ run (record w { rx = r }) es
run w (resets_buffer ∷ es) = run (record w { rx = serial_reset_read_buffer w.rx }) es

unfoldable pub run_queue : Queue → List Event → List ℕ
run_queue q [] = []
run_queue q (comes c ∷ es) = run_queue (arrive c q) es
run_queue q (reads ∷ es) = let (x, q') = take_oldest q in x ∷ run_queue q' es
run_queue q (resets_buffer ∷ es) = run_queue [] es

-- Every byte that comes in is a byte.
abbrev pub AllBytes : List Event → Type 0
AllBytes [] = Unit {0}
AllBytes (comes c ∷ es) = (c < 256) × AllBytes es
AllBytes (reads ∷ es) = AllBytes es
AllBytes (resets_buffer ∷ es) = AllBytes es

reset_lem :
    (r : Ring)
    → IsValid r
    → IsValid (serial_reset_read_buffer r) × (contents (serial_reset_read_buffer r) ≡ [])
unfolding serial_reset_read_buffer
reset_lem r v =
    let none_used : (r.head + ring_size - r.head) % ring_size ≡ 0 = omega arith in
    (ground arith, ap (window r.buf r.head) none_used)

-- From a valid ring, and for every sequence of incoming bytes, reads and resets, the values that
-- `serial_read` returns are those of the queue: text in the order of its arrival, at most 255 bytes
-- of it, without the realtime commands and extended ASCII, and SERIAL_NO_DATA on an empty queue.
pub rx_refines :
    (w : World) (es : List Event)
    → IsValid w.rx
    → AllBytes es
    → run w es ≡ run_queue (contents w.rx) es
unfolding run run_queue
rx_refines w [] v h = refl
rx_refines w (comes c ∷ es) v h =
    let step = rx_isr_arrives c w h.0 v in
    rx_refines (rx_isr c w) es step.0 h.1 ∙ ap (λ (q : Queue). run_queue q es) step.1
rx_refines w (reads ∷ es) v h =
    let step = serial_read_lem w.rx v in
    let (x, r) = serial_read w.rx in
    ap (λ (l : List ℕ). x ∷ l) (rx_refines (record w { rx = r }) es step.0 h)
    ∙ ap (λ (o : ℕ × Queue). o.0 ∷ run_queue o.1 es) step.1
rx_refines w (resets_buffer ∷ es) v h =
    let step = reset_lem w.rx v in
    rx_refines (record w { rx = serial_reset_read_buffer w.rx }) es step.0 h
    ∙ ap (λ (q : Queue). run_queue q es) step.1
