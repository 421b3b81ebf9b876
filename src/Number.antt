-- ===== src/Number.antt =====
-- `read_float` of nuts_bolts.c. A line is the list of its bytes from the character counter on; its end
-- reads as the NUL that terminates it.
pub mod Digits
pub mod Printed
pub mod Laws
pub mod Setting
mod Tests
use grbl_mega_plasma.Prelude.{
  ℕ, zero, suc, ◌+◌, ◌-◌, ◌*◌, ◌%◌, Bool, true, false, not, ◌&&◌, ◌==◌, leb, List, [], ◌∷◌, Option,
  none, some, if◌then◌else◌, u8, length,
}
use grbl_mega_plasma.Floats.{Floats, ℤ}
use grbl_mega_plasma.System.Command.{rest_of}

-- `MAX_INT_DIGITS`
abbrev pub max_int_digits : ℕ
max_int_digits = 8

-- The locals of the scan. `exp` is an `int8_t` in two's complement.
pub record Scan : Type 0 where
  pub intval : ℕ
  pub exp : ℕ
  pub ndigit : ℕ
  pub isdecimal : Bool

abbrev pub no_digits : Scan
no_digits = record { intval = 0; exp = 0; ndigit = 0; isdecimal = false }

-- A digit: digits after the eighth only count for the exponent.
unfoldable pub take_digit : ℕ → Scan → Scan
take_digit c s =
    let n = u8 (s.ndigit + 1) in
    if leb n max_int_digits
    then record s {
      ndigit = n;
      exp = if s.isdecimal then u8 (s.exp + 255) else s.exp;
      intval = (s.intval * 10 + c) % 4294967296;
    }
    else record s { ndigit = n; exp = if s.isdecimal then s.exp else u8 (s.exp + 1) }

-- The body of the loop, or none where it breaks.
unfoldable pub scan_char : ℕ → Scan → Option Scan
unfolding take_digit
scan_char c0 s =
    let c = u8 (c0 + 208) in
    if leb c 9
    then some (take_digit c s)
    else if c == 254 && not s.isdecimal
    then some (record s { isdecimal = true })
    else none

-- The scan, and the rest of the line from the character that ends it.
unfoldable pub scan : List ℕ → Scan → Scan × List ℕ
scan [] s = (s, [])
scan (c ∷ cs) s = elim (scan_char c s) [ none ↦ (s, c ∷ cs) | some t ↦ scan cs t ]

-- The sign, and the line behind it.
unfoldable pub read_sign : List ℕ → Bool × List ℕ
read_sign [] = (false, [])
read_sign (c ∷ cs) =
    if c == b'-' then (true, cs) else if c == b'+' then (false, cs) else (false, c ∷ cs)

module _ {F : Type 0} (ops : Floats F) where
  -- The loop of a negative exponent, for its absolute value.
  unfoldable pub shrink : ℕ → F → F
  shrink zero fval = fval
  shrink (suc zero) fval = ops.mul fval (ops.literal 1 1)
  shrink (suc (suc n)) fval = shrink n (ops.mul fval (ops.literal 1 2))

  -- The loop of a positive exponent.
  unfoldable pub grow : ℕ → F → F
  grow zero fval = fval
  grow (suc n) fval = grow n (ops.mul fval (ops.literal 10 0))

  unfoldable pub apply_decimal : ℕ → F → F
  unfolding shrink grow
  apply_decimal exp fval =
      if ops.eq fval (ops.literal 0 0)
      then fval
      else if leb 128 exp
      then shrink (256 - exp) fval
      else grow exp fval

  -- The value and the rest of the line; none where it returns false.
  unfoldable pub finish_float : Bool → Scan × List ℕ → Option (F × List ℕ)
  unfolding apply_decimal
  finish_float isnegative p =
      let fval = apply_decimal p.0.exp (ops.of_int (ℤ.pos p.0.intval)) in
      if p.0.ndigit == 0 then none else some (if isnegative then ops.neg fval else fval, p.1)

  unfoldable pub read_float : List ℕ → Option (F × List ℕ)
  unfolding read_sign finish_float scan
  read_float line = let p = read_sign line in finish_float p.0 (scan p.1 no_digits)

  -- The same from a character counter on, with the counter that the call leaves.
  unfoldable pub read_float_at : List ℕ → ℕ → Option (F × ℕ)
  unfolding read_float
  read_float_at line char_counter = elim (read_float (rest_of char_counter line)) [
    | none ↦ none
    | some p ↦ some (p.0, length line - length p.1)
  ]
