-- ===== src/Number/Digits.antt =====
-- The scan of `read_float` of nuts_bolts.c over digits.
use grbl_mega_plasma.Prelude.{
  ℕ, zero, suc, ◌+◌, ◌-◌, ◌*◌, ◌^◌, ◌≤◌, ◌<◌, ◌≡◌, ◌⊎◌, refl, true, false, ap, subst, ◌∙◌, sym,
  arith, List, [], ◌∷◌, ◌++◌, length, Option, none, some, if◌then◌else◌, u8,
}
use grbl_mega_plasma.Print.Laws.{read_digits}
use grbl_mega_plasma.Number.{Scan, take_digit, scan_char, scan}

abbrev pub IsDigits : List ℕ → Type 0
IsDigits [] = Unit {0}
IsDigits (c ∷ cs) = (b'0' ≤ c) × (c ≤ b'9') × IsDigits cs

-- The line does not go on with a digit or a decimal point.
abbrev pub Stops : List ℕ → Type 0
Stops [] = Unit {0}
Stops (c ∷ cs) = ((c < b'.') ⊎ ((c ≡ b'/') ⊎ (b'9' < c))) × (c < 256)

scan_digit :
    (c : ℕ) (s : Scan) → b'0' ≤ c → c ≤ b'9' → scan_char c s ≡ some (take_digit (c - b'0') s)
unfolding scan_char
scan_digit c s low high = ground arith

pub scan_stop : (rest : List ℕ) (s : Scan) → Stops rest → scan rest s ≡ (s, rest)
unfolding scan scan_char
scan_stop [] s h = refl
scan_stop (c ∷ cs) s h = ground arith

-- The scan after digits.
abbrev pub after : List ℕ → Scan → Scan
after ds s = record s {
  intval = read_digits 10 s.intval ds;
  exp = if s.isdecimal then u8 (s.exp + 255 * length ds) else s.exp;
  ndigit = s.ndigit + length ds;
}

power_mono : (n k : ℕ) → n ≤ k → 10 ^ n ≤ 10 ^ k
power_mono zero zero h = omega arith
power_mono zero (suc k) h =
    let rest = power_mono zero k (omega arith) in
    let power : 10 ^ suc k ≡ 10 * 10 ^ k = omega arith in omega (arith, rest, power)
power_mono (suc n) zero h = absurd (omega arith)
power_mono (suc n) (suc k) h =
    let rest = power_mono n k (omega arith) in
    let top : 10 ^ suc k ≡ 10 * 10 ^ k = omega arith in
    let power : 10 ^ suc n ≡ 10 * 10 ^ n = omega arith in omega (arith, rest, power, top)

pub scan_point :
    (s : Scan) → s.isdecimal ≡ false → scan_char b'.' s ≡ some (record s { isdecimal = true })
unfolding scan_char
scan_point s e = ground arith

pub scan_cons :
    (c : ℕ) (cs : List ℕ) (s t : Scan) → scan_char c s ≡ some t → scan (c ∷ cs) s ≡ scan cs t
unfolding scan
scan_cons c cs s t e =
    subst (λ (o : Option Scan). (elim o [ none ↦ (s, c ∷ cs) | some u ↦ scan cs u ]) ≡ scan cs t)
      (sym e) refl

-- The scan after one digit more.
abbrev one_more : ℕ → Scan → Scan
one_more c s = record s {
  intval = 10 * s.intval + (c - b'0');
  exp = if s.isdecimal then u8 (s.exp + 255) else s.exp;
  ndigit = suc s.ndigit;
}

take_digit_lem :
    (c : ℕ) (s : Scan)
    → c ≤ b'9'
    → s.ndigit < 8
    → s.intval < 10 ^ s.ndigit
    → take_digit (c - b'0') s ≡ one_more c s
unfolding take_digit
take_digit_lem c s high few small =
    let limit = power_mono s.ndigit 7 (omega arith) in
    let bound : s.intval < 10000000 = omega (arith, limit, small) in ground arith

pub scan_digits :
    (ds rest : List ℕ) (s : Scan)
    → IsDigits ds
    → s.ndigit + length ds ≤ 8
    → s.intval < 10 ^ s.ndigit
    → s.exp < 256
    → scan (ds ++ rest) s ≡ scan rest (after ds s)
unfolding scan
scan_digits [] rest s h few small range = ap (scan rest) (ground arith)
scan_digits (c ∷ cs) rest s (low, high, h) few small range =
    let power : 10 ^ suc s.ndigit ≡ 10 * 10 ^ s.ndigit = omega arith in
    let next : 10 * s.intval + (c - b'0') < 10 ^ suc s.ndigit = omega (arith, power, small, high) in
    let same : after cs (one_more c s) ≡ after (c ∷ cs) s = ground arith in
    scan_cons c (cs ++ rest) s (one_more c s)
      (scan_digit c s low high ∙ ap some (take_digit_lem c s high (omega arith) small))
    ∙ scan_digits cs rest (one_more c s) h (omega arith) next (ground arith)
    ∙ ap (scan rest) same

pub read_digits_append :
    (v : ℕ) (ds es : List ℕ) → read_digits 10 v (ds ++ es) ≡ read_digits 10 (read_digits 10 v ds) es
read_digits_append v [] es = refl
read_digits_append v (d ∷ ds) es = read_digits_append (10 * v + (d - b'0')) ds es

pub read_digits_bound :
    (v n m : ℕ) (ds : List ℕ)
    → IsDigits ds
    → v < 10 ^ n
    → m ≡ n + length ds
    → read_digits 10 v ds < 10 ^ m
read_digits_bound v n m [] h small e = subst (λ (x : ℕ). v < 10 ^ x) (omega (arith, e)) small
read_digits_bound v n m (d ∷ ds) h small e =
    let power : 10 ^ suc n ≡ 10 * 10 ^ n = omega arith in
    read_digits_bound (10 * v + (d - b'0')) (suc n) m ds h.2 (omega (arith, power, small, h.1))
      (omega (arith, e))
