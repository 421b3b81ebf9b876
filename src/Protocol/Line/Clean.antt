-- ===== src/Protocol/Line/Clean.antt =====
-- What the line reader makes of the bytes between two ends of line.
use grbl_mega_plasma.Prelude.{
  ℕ, suc, ◌+◌, ◌-◌, ◌≤◌, ◌<◌, ◌≡◌, refl, sym, ap, subst, ◌∙◌, ◌⊎◌, inl, inr, true, false, ◌&&◌,
  List, [], ◌∷◌, ◌++◌, ◌==◌, leb, if◌then◌else◌, if_cases, if_apply, Bool-cases, arith, set, take,
  length, length-set, length-append, take-set, append-nil, append_assoc, u8,
}
use grbl_mega_plasma.Protocol.Line.{LineFlags, Reader, no_flags, append, accept}

abbrev pub upcase : ℕ → ℕ
upcase c = if leb b'a' c && leb c b'z' then c - b'a' + b'A' else c

-- The text of a line: without spaces, control characters, `/` and comments, in upper case.
unfoldable mutual
  pub clean : List ℕ → List ℕ
  clean [] = []
  clean (c ∷ cs) =
      let rest = clean cs in
      let comment = clean_comment cs in
      if leb c b' '
      then rest
      else if c == b'/'
      then rest
      else if c == b'('
      then comment
      else if c == b';'
      then []
      else upcase c ∷ rest

  -- Inside parentheses.
  pub clean_comment : List ℕ → List ℕ
  clean_comment [] = []
  clean_comment (c ∷ cs) =
      let rest = clean cs in let comment = clean_comment cs in if c == b')' then rest else comment

abbrev pub accept_all : List ℕ → Reader → Reader
accept_all [] r = r
accept_all (c ∷ cs) r = accept_all cs (accept c r)

abbrev paren_flags : LineFlags
paren_flags = record { overflow = false; comment_parentheses = true; comment_semicolon = false }

abbrev semicolon_flags : LineFlags
semicolon_flags = record { overflow = false; comment_parentheses = false; comment_semicolon = true }

abbrev overflow_flags : LineFlags
overflow_flags = record { overflow = true; comment_parentheses = false; comment_semicolon = false }

abbrev reader : List ℕ → ℕ → LineFlags → Reader
reader l n f = record { line = l; char_counter = n; line_flags = f }

-- The buffer holds the text `t`, which leaves room for the terminating zero.
pub record Holds (r : Reader) (t : List ℕ) : Type 0 where
  pub size : length r.line ≡ 256
  pub counter : r.char_counter ≡ length t
  pub fits : length t ≤ 255
  pub text : take (length t) r.line ≡ t

-- A reader at the start of a line.
pub record IsFresh (r : Reader) : Type 0 where
  pub size : length r.line ≡ 256
  pub counter : r.char_counter ≡ 0
  pub flags : r.line_flags ≡ no_flags

-- The reader holds the text, or the text was too long and the reader says so.
abbrev pub Ends : Reader → List ℕ → Type 0
Ends r t =
    (Holds r t × (r.line_flags.overflow ≡ false))
    ⊎ ((255 < length t) × (r.line_flags.overflow ≡ true))

semicolon_stays :
    (cs l : List ℕ) (n : ℕ)
    → accept_all cs (reader l n semicolon_flags) ≡ reader l n semicolon_flags
unfolding accept
semicolon_stays [] l n = refl
semicolon_stays (c ∷ cs) l n =
    let r = reader l n semicolon_flags in
    if_cases (λ r'. accept_all cs r' ≡ r) (c == b')') r r (λ _. semicolon_stays cs l n)
      (λ _. semicolon_stays cs l n)

overflow_stays :
    (cs l : List ℕ) (n : ℕ) → accept_all cs (reader l n overflow_flags) ≡ reader l n overflow_flags
unfolding accept
overflow_stays [] l n = refl
overflow_stays (c ∷ cs) l n =
    let r = reader l n overflow_flags in
    if_cases (λ r'. accept_all cs r' ≡ r) (c == b')') r r (λ _. overflow_stays cs l n)
      (λ _. overflow_stays cs l n)

append-Holds :
    (c : ℕ) (l : List ℕ) (n : ℕ) (f : LineFlags) (t : List ℕ)
    → Holds (reader l n f) t
    → n < 255
    → Holds (append c (reader l n f)) (t ++ c ∷ [])
unfolding append
append-Holds c l n f t h lt =
    let longer : length (t ++ c ∷ []) ≡ suc (length t) = omega (arith, length-append t (c ∷ [])) in
    record {
      size = omega (arith, length-set l n c);
      counter = omega (arith, longer, h.counter);
      fits = omega (arith, longer, h.counter);
      text =
          ap (λ (k : ℕ). take k (set l n c)) longer
          ∙ ap (λ (i : ℕ). take (suc (length t)) (set l i c)) h.counter
          ∙ take-set l (length t) c (omega (arith, h.counter, h.size))
          ∙ ap (λ (u : List ℕ). u ++ c ∷ []) h.text;
    }

-- The reader's buffer is full, and the byte `c` sets the overflow flag.
full_Ends :
    (c : ℕ) (cs l t u : List ℕ) (n : ℕ)
    → Holds (reader l n no_flags) t
    → 255 ≤ n
    → Ends (accept_all cs (reader l n overflow_flags)) (t ++ c ∷ u)
full_Ends c cs l t u n h le = inr (
  omega (arith, length-append t (c ∷ u), h.counter),
  ap (λ (r : Reader). r.line_flags.overflow) (overflow_stays cs l n),
)

-- The branches of `accept` beside those of `clean`.
code_cases :
    (P : Reader → List ℕ → Type 0) (c n : ℕ) (l rest comment : List ℕ)
    → P (reader l n no_flags) rest
    → P (reader l n paren_flags) comment
    → P (reader l n semicolon_flags) []
    → (255 ≤ n → P (reader l n overflow_flags) (upcase c ∷ rest))
    → (n < 255 → P (append (upcase c) (reader l n no_flags)) (upcase c ∷ rest))
    → P (accept c (reader l n no_flags)) (
        if leb c b' '
        then rest
        else if c == b'/'
        then rest
        else if c == b'('
        then comment
        else if c == b';'
        then []
        else upcase c ∷ rest)
unfolding accept append
code_cases P c n l rest comment skip paren semi full more = elim (Bool-cases (leb c b' ')) [
  | inl e ↦ rw e skip
  | inr e ↦ elim (Bool-cases (c == b'/')) [
    | inl e1 ↦ rw (e, e1) skip
    | inr e1 ↦ elim (Bool-cases (c == b'(')) [
      | inl e2 ↦ rw (e, e1, e2) paren
      | inr e2 ↦ elim (Bool-cases (c == b';')) [
        | inl e3 ↦ rw (e, e1, e2, e3) semi
        | inr e3 ↦ elim (Bool-cases (leb 255 n)) [
          | inl e4 ↦ rw (e, e1, e2, e3, e4) (full (ground arith))
          | inr e4 ↦
              rw (e, e1, e2, e3, e4)
                (subst (λ r. P r (upcase c ∷ rest))
                  (if_apply (λ x. append x (reader l n no_flags)) (leb b'a' c && leb c b'z')
                    (c - b'a' + b'A') c)
                  (more (ground arith)))
        ]
      ]
    ]
  ]
]

paren_cases :
    (P : Reader → List ℕ → Type 0) (c n : ℕ) (l rest comment : List ℕ)
    → P (reader l n no_flags) rest
    → P (reader l n paren_flags) comment
    → P (accept c (reader l n paren_flags)) (if c == b')' then rest else comment)
unfolding accept
paren_cases P c n l rest comment closed open_still = elim (Bool-cases (c == b')')) [
  | inl e ↦ rw e closed
  | inr e ↦ rw e open_still
]

-- The flags do not matter to what the buffer holds.
Holds-flags :
    (l : List ℕ) (n : ℕ) (f g : LineFlags) (t : List ℕ)
    → Holds (reader l n f) t
    → Holds (reader l n g) t
Holds-flags l n f g t h = record {
  size = h.size;
  counter = h.counter;
  fits = h.fits;
  text = h.text;
}

semicolon_Ends :
    (cs l : List ℕ) (n : ℕ) (t : List ℕ)
    → Holds (reader l n no_flags) t
    → Ends (accept_all cs (reader l n semicolon_flags)) (t ++ [])
semicolon_Ends cs l n t h =
    rw (append-nil t, semicolon_stays cs l n)
      (inl (Holds-flags l n no_flags semicolon_flags t h, refl))

mutual
  unfolding clean clean_comment append

  -- The reader from a text on, outside a comment.
  code_Ends :
      (cs l : List ℕ) (n : ℕ) (t : List ℕ)
      → Holds (reader l n no_flags) t
      → Ends (accept_all cs (reader l n no_flags)) (t ++ clean cs)
  code_Ends [] l n t h = rw (append-nil t) (inl (h, refl))
  code_Ends (c ∷ cs) l n t h =
      code_cases (λ r u. Ends (accept_all cs r) (t ++ u)) c n l (clean cs) (clean_comment cs)
        (code_Ends cs l n t h) (comment_Ends cs l n t h) (semicolon_Ends cs l n t h)
        (λ le. full_Ends (upcase c) cs l t (clean cs) n h le)
        (λ lt. rw (← append_assoc t (upcase c ∷ []) (clean cs)) (
          code_Ends cs (set l n (upcase c)) (u8 (n + 1)) (t ++ upcase c ∷ [])
            (append-Holds (upcase c) l n no_flags t h lt)))

  -- The reader from a text on, inside parentheses.
  comment_Ends :
      (cs l : List ℕ) (n : ℕ) (t : List ℕ)
      → Holds (reader l n no_flags) t
      → Ends (accept_all cs (reader l n paren_flags)) (t ++ clean_comment cs)
  comment_Ends [] l n t h = rw (append-nil t) (inl (Holds-flags l n no_flags paren_flags t h, refl))
  comment_Ends (c ∷ cs) l n t h =
      paren_cases (λ r u. Ends (accept_all cs r) (t ++ u)) c n l (clean cs) (clean_comment cs)
        (code_Ends cs l n t h) (comment_Ends cs l n t h)

pub accept_all-Ends : (cs : List ℕ) (r : Reader) → IsFresh r → Ends (accept_all cs r) (clean cs)
accept_all-Ends cs r fresh =
    subst (λ r'. Ends (accept_all cs r') (clean cs))
      (λ i. record {
        line = r.line;
        char_counter = sym fresh.counter i;
        line_flags = sym fresh.flags i;
      })
      (code_Ends cs r.line 0 []
        (record { size = fresh.size; counter = refl; fits = omega arith; text = refl }))
