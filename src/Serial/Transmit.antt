-- ===== src/Serial/Transmit.antt =====
-- The transmit side of serial.c: `serial_write` and the data-register-empty interrupt.
use grbl_mega_plasma.Prelude.{
  ℕ, ◌≡◌, refl, sym, ap, ◌∙◌, ◌≢◌, false≢true, Bool, true, false, inl, inr, List, [], ◌∷◌, ◌++◌,
  append_assoc, append-nil, arith, ◌==◌, if◌then◌else◌, ==_iff, if_cases, Bool-cases, get_or,
}
use grbl_mega_plasma.Serial.Ring.{
  Ring, IsValid, next_index, store, contents, contents-store, store-IsValid, contents_pop,
  pop-IsValid, next_index_lem,
}

-- The ring with the bit UDRIE0 and the bytes that have been written to UDR0, oldest first.
pub record Tx : Type 0 where
  pub ring : Ring
  pub udrie : Bool
  pub sent : List ℕ

-- ISR(SERIAL_UDRE)
unfoldable pub udre_isr : Tx → Tx
udre_isr t =
    let tail = next_index t.ring.tail in
    record t {
      ring = record (t.ring) { tail = tail };
      sent = t.sent ++ get_or t.ring.buf t.ring.tail 0 ∷ [];
      udrie = if tail == t.ring.head then false else t.udrie;
    }

-- The interrupt fires only while it is enabled.
unfoldable pub fire : Tx → Tx
fire t = if t.udrie then udre_isr t else t

-- What happens between two tests of the loop in `serial_write` that waits for space: the transmit
-- interrupt may fire, the reset flag may be seen, or neither.
pub data Poll : Type 0 where
  nothing interrupt reset_seen : Poll

-- How `serial_write` leaves: with the byte stored, by the reset flag, or not yet.
pub data Written : Type 0 where
  stored aborted waiting : Tx → Written

unfoldable pub enqueue : ℕ → ℕ → Tx → Tx
enqueue x next t = record t { ring = store x next t.ring; udrie = true }

-- The loop, on the list of what happens while it runs.
unfoldable pub await_space : ℕ → ℕ → List Poll → Tx → Written
await_space x next [] t = if next == t.ring.tail then waiting t else stored (enqueue x next t)
await_space x next (p ∷ ps) t =
    let rest = await_space x next ps in
    if next == t.ring.tail
    then elim p [ reset_seen ↦ aborted t | interrupt ↦ rest (fire t) | nothing ↦ rest t ]
    else stored (enqueue x next t)

unfoldable pub serial_write : ℕ → List Poll → Tx → Written
serial_write x ps t = await_space x (next_index t.ring.head) ps t

-- The ring is valid, and the interrupt is enabled exactly while bytes wait.
pub record IsValidTx (t : Tx) : Type 0 where
  pub ring_valid : IsValid t.ring
  pub streaming : t.udrie ≡ false → t.ring.head ≡ t.ring.tail
  pub pending : t.udrie ≡ true → t.ring.head ≢ t.ring.tail

-- What has gone out, and behind it what is still to go.
abbrev pub stream : Tx → List ℕ
stream t = t.sent ++ contents t.ring

abbrev pub after : Written → Tx
after (stored t) = t
after (aborted t) = t
after (waiting t) = t

-- The bytes that a call of `serial_write` has put in the ring.
abbrev pub accepted : ℕ → Written → List ℕ
accepted x (stored t) = x ∷ []
accepted x (aborted t) = []
accepted x (waiting t) = []

next-ne : (r : Ring) → IsValid r → next_index r.tail ≢ r.tail
next-ne r v = omega (arith, next_index_lem r.tail, v.tail_in)

-- While bytes wait, the interrupt moves the oldest one out and keeps the stream as it is.
stream-udre_isr :
    (t : Tx) → IsValid t.ring → t.ring.head ≢ t.ring.tail → stream (udre_isr t) ≡ stream t
unfolding udre_isr
stream-udre_isr t v ne =
    rw append_assoc (ap (λ (l : List ℕ). t.sent ++ l) (sym (contents_pop t.ring v ne)))

udre_isr-IsValid : (t : Tx) → IsValidTx t → t.ring.head ≢ t.ring.tail → IsValidTx (udre_isr t)
unfolding udre_isr
udre_isr-IsValid t v ne = record {
  ring_valid = pop-IsValid t.ring v.ring_valid;
  streaming = ground (arith, v.streaming);
  pending = ground arith;
}

pub fire-IsValid : (t : Tx) → IsValidTx t → IsValidTx (fire t) × (stream (fire t) ≡ stream t)
unfolding fire
fire-IsValid t v =
    if_cases (λ u. IsValidTx u × (stream u ≡ stream t)) t.udrie (udre_isr t) t
      (λ on. (udre_isr-IsValid t v (v.pending on), stream-udre_isr t v.ring_valid (v.pending on)))
      (λ _. (v, refl))

head-fire : (t : Tx) → (fire t).ring.head ≡ t.ring.head
unfolding fire udre_isr
head-fire t = ground arith

-- A call leaves a valid state, and the stream with what it accepted at its end.
abbrev Appends : ℕ → Tx → Written → Type 0
Appends x t w = IsValidTx (after w) × (stream (after w) ≡ stream t ++ accepted x w)

-- Where nothing is accepted the stream must be the same.
kept :
    (x : ℕ) (t : Tx) (w : Written) → accepted x w ≡ [] → after w ≡ t → IsValidTx t → Appends x t w
kept x t w none_in same v = rw (same, none_in, append-nil (stream t)) (v, refl)

enqueue_lem :
    (x : ℕ) (t : Tx)
    → IsValidTx t
    → next_index t.ring.head ≢ t.ring.tail
    → Appends x t (stored (enqueue x (next_index t.ring.head) t))
unfolding enqueue store
enqueue_lem x t v ne = (
  record {
    ring_valid = store-IsValid x t.ring v.ring_valid;
    streaming = λ e. cc;
    pending = λ _. ne;
  },
  ap (λ (l : List ℕ). t.sent ++ l) (contents-store x t.ring v.ring_valid ne)
      ∙ sym (append_assoc t.sent (contents t.ring) (x ∷ [])),
)

stored_if_space :
    (x n : ℕ) (t : Tx)
    → n ≡ next_index t.ring.head
    → IsValidTx t
    → (n == t.ring.tail) ≡ false
    → Appends x t (stored (enqueue x n t))
stored_if_space x n t e v free = rw e (
    enqueue_lem x t v
      (λ same. absurd (false≢true (sym free ∙ (==_iff n t.ring.tail).1 (e ∙ same)))))

await_space_lem :
    (x n : ℕ) (ps : List Poll) (t : Tx)
    → n ≡ next_index t.ring.head
    → IsValidTx t
    → Appends x t (await_space x n ps t)
unfolding await_space
await_space_lem x n [] t e v =
    if_cases (Appends x t) (n == t.ring.tail) (waiting t) (stored (enqueue x n t))
      (λ _. kept x t (waiting t) refl refl v) (stored_if_space x n t e v)
await_space_lem x n (nothing ∷ ps) t e v =
    if_cases (Appends x t) (n == t.ring.tail) (await_space x n ps t) (stored (enqueue x n t))
      (λ _. await_space_lem x n ps t e v) (stored_if_space x n t e v)
await_space_lem x n (interrupt ∷ ps) t e v =
    let fired = fire-IsValid t v in
    if_cases (Appends x t) (n == t.ring.tail) (await_space x n ps (fire t)) (stored (enqueue x n t))
      (λ _.
        let rest =
          await_space_lem x n ps (fire t) (e ∙ ap next_index (sym (head-fire t))) fired.0 in
        (
          rest.0,
          rest.1 ∙ ap (λ (l : List ℕ). l ++ accepted x (await_space x n ps (fire t))) fired.1,
        ))
      (stored_if_space x n t e v)
await_space_lem x n (reset_seen ∷ ps) t e v =
    if_cases (Appends x t) (n == t.ring.tail) (aborted t) (stored (enqueue x n t))
      (λ _. kept x t (aborted t) refl refl v) (stored_if_space x n t e v)

-- However `serial_write` leaves, and whatever interrupts fire while it waits, a valid state stays
-- valid, and the bytes sent followed by those that wait have grown by the byte if it was stored and
-- by nothing if not: no byte is lost, doubled or overtaken.
pub serial_write-stream :
    (x : ℕ) (ps : List Poll) (t : Tx)
    → IsValidTx t
    → let w = serial_write x ps t in
      IsValidTx (after w) × (stream (after w) ≡ stream t ++ accepted x w)
unfolding serial_write
serial_write-stream x ps t v = await_space_lem x (next_index t.ring.head) ps t refl v

await_space-free :
    (x n : ℕ) (ps : List Poll) (t : Tx)
    → (n == t.ring.tail) ≡ false
    → await_space x n ps t ≡ stored (enqueue x n t)
unfolding await_space
await_space-free x n [] t free = rw free
await_space-free x n (p ∷ ps) t free = rw free

-- A full ring has bytes to send, so its interrupt is enabled and frees a place.
tail-fire :
    (t : Tx)
    → IsValidTx t
    → next_index t.ring.head ≡ t.ring.tail
    → (next_index t.ring.head == (fire t).ring.tail) ≡ false
unfolding fire udre_isr
tail-fire t v full = ground (
  arith,
  v.streaming,
  next_index_lem t.ring.head,
  next_index_lem t.ring.tail,
  v.ring_valid.head_in,
  v.ring_valid.tail_in,
)

-- A write to a valid transmit state never waits past the first transmit interrupt: the byte is
-- stored before the loop looks again.
pub serial_write_progress :
    (x : ℕ) (ps : List Poll) (t : Tx)
    → IsValidTx t
    → (u : Tx) × (serial_write x (interrupt ∷ ps) t ≡ stored u)
unfolding serial_write await_space enqueue
serial_write_progress x ps t v =
    let n = next_index t.ring.head in
    elim (Bool-cases (n == t.ring.tail)) [
      | inl full ↦ (
        enqueue x n (fire t),
        rw (full, await_space)
            (await_space-free x n ps (fire t) (tail-fire t v ((==_iff n t.ring.tail).0 full))),
      )
      | inr free ↦ (enqueue x n t, await_space-free x n (interrupt ∷ ps) t free)
    ]
