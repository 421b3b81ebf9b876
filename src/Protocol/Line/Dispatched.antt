-- ===== src/Protocol/Line/Dispatched.antt =====
-- Which routine a line is handed to, and with what text.
use grbl_mega_plasma.Prelude.{
  ℕ, suc, ◌+◌, ◌-◌, ◌≤◌, ◌<◌, ◌≡◌, refl, sym, ap, ◌∙◌, ◌⊎◌, inl, inr, false, some, List, [], ◌∷◌,
  ◌==◌, if◌then◌else◌, arith, get_or, set, take, length, length-set, get_or-set_self, get_or-set_ne,
  take-set_ge,
}
use grbl_mega_plasma.System.{State}
use grbl_mega_plasma.Protocol.Line.{
  Reader, accept, append, Dispatch, status_overflow, status_ok, status_system_gc_lock,
  system_execute_line, gc_execute_line, is_locked, end_of_line, dispatch, terminated,
}
use grbl_mega_plasma.Protocol.Line.Clean.{
  clean, clean_comment, accept_all, Holds, IsFresh, Ends, accept_all-Ends,
}

-- The buffer holds the text and a zero behind it.
abbrev pub IsText : List ℕ → List ℕ → Type 0
IsText t line = (take (length t) line ≡ t) × (get_or line (length t) 1 ≡ 0)

-- What is to be done with a text: nothing if it is empty; a `$` leads to the system commands; the
-- g-code parser is locked out in the states alarm and jog.
abbrev pub expected : State → List ℕ → List ℕ → Dispatch
expected state [] line = status_ok
expected state (x ∷ t) line =
    if x == b'$'
    then system_execute_line line
    else if is_locked state
    then status_system_gc_lock
    else gc_execute_line line

first : (l : List ℕ) (x : ℕ) (t : List ℕ) → take (suc (length t)) l ≡ x ∷ t → get_or l 0 0 ≡ x
first [] x t e = cc
first (y ∷ l) x t e = cc

abbrev FirstPos : List ℕ → Type 0
FirstPos [] = Unit {0}
FirstPos (x ∷ t) = 0 < x

mutual
  unfolding clean clean_comment

  clean-FirstPos : (cs : List ℕ) → FirstPos (clean cs)
  clean-FirstPos [] = tt
  clean-FirstPos (c ∷ cs) = ground (arith, clean-FirstPos cs, clean_comment-FirstPos cs)

  clean_comment-FirstPos : (cs : List ℕ) → FirstPos (clean_comment cs)
  clean_comment-FirstPos [] = tt
  clean_comment-FirstPos (c ∷ cs) = ground (arith, clean-FirstPos cs, clean_comment-FirstPos cs)

length-accept : (c : ℕ) (r : Reader) → length (accept c r).line ≡ length r.line
unfolding accept append
length-accept c r =
    ground (
      arith,
      length-set r.line r.char_counter (c - b'a' + b'A'),
      length-set r.line r.char_counter c,
    )

length-accept_all : (cs : List ℕ) (r : Reader) → length (accept_all cs r).line ≡ length r.line
length-accept_all [] r = refl
length-accept_all (c ∷ cs) r = length-accept_all cs (accept c r) ∙ length-accept c r

terminated_lem : (r : Reader) (t : List ℕ) → Holds r t → IsText t (terminated r)
unfolding terminated
terminated_lem r t h =
    let here : r.char_counter < length r.line = omega (arith, h.counter, h.size, h.fits) in
    (
      take-set_ge r.line (length t) r.char_counter 0 (omega (arith, h.counter)) ∙ h.text,
      ap (λ (i : ℕ). get_or (set r.line r.char_counter 0) i 1) (sym h.counter)
          ∙ get_or-set_self r.line r.char_counter 0 1 here,
    )

-- The first character of the terminated line.
first_char : (r : Reader) (t : List ℕ) → Holds r t → get_or (terminated r) 0 0 ≡ get_or t 0 0
unfolding terminated
first_char r [] h =
    ap (λ (i : ℕ). get_or (set r.line i 0) 0 0) h.counter
    ∙ get_or-set_self r.line 0 0 0 (omega (arith, h.size))
first_char r (x ∷ t) h =
    get_or-set_ne r.line 0 0 (omega (arith, h.counter)) ∙ first r.line x t h.text

dispatch_lem :
    (state : State) (r : Reader) (t : List ℕ)
    → Holds r t
    → r.line_flags.overflow ≡ false
    → FirstPos t
    → dispatch state r.line_flags (terminated r) ≡ expected state t (terminated r)
unfolding dispatch terminated
dispatch_lem state r [] h o p = rw (o, first_char r [] h)
dispatch_lem state r (x ∷ t) h o p =
    let not_zero : (x == 0) ≡ false = ground arith in rw (o, first_char r (x ∷ t) h, not_zero)

-- For a line whose text has at most 255 characters, an end of line outside a system abort hands
-- that text, zero-terminated, to the routine that `expected` names, or answers at once as it says;
-- for a longer one it answers with the overflow status; and the reader is ready for the next line.
pub line_dispatched :
    (state : State) (cs : List ℕ) (r : Reader)
    → IsFresh r
    → let (d, r') = end_of_line state false (accept_all cs r) in
      IsFresh r'
      × (((length (clean cs) ≤ 255)
            × ((line : List ℕ) × (d ≡ some (expected state (clean cs) line))
                × IsText (clean cs) line))
          ⊎ ((255 < length (clean cs)) × (d ≡ some status_overflow)))
unfolding end_of_line
line_dispatched state cs r fresh = (
  record {
    size =
        unfold terminated in
        (length-set s.line s.char_counter 0 ∙ length-accept_all cs r ∙ fresh.size);
    counter = refl;
    flags = refl;
  },
  handed (accept_all-Ends cs r fresh),
)
  where
    s : Reader
    s = accept_all cs r

    handed :
        Ends s (clean cs)
        → ((length (clean cs) ≤ 255)
            × ((line : List ℕ) × (some (dispatch state s.line_flags (terminated s))
                  ≡ some (expected state (clean cs) line))
                × IsText (clean cs) line))
          ⊎ ((255 < length (clean cs))
              × (some (dispatch state s.line_flags (terminated s)) ≡ some status_overflow))
    handed (inl (h, o)) = inl (
      h.fits,
      (
        terminated s,
        ap some (dispatch_lem state s (clean cs) h o (clean-FirstPos cs)),
        terminated_lem s (clean cs) h,
      ),
    )
    handed (inr (long, o)) = inr (long, unfold dispatch in rw o)
