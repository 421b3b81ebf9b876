-- ===== src/Number/Laws.antt =====
-- What `read_float` of nuts_bolts.c reads from decimal digits.
use grbl_mega_plasma.Prelude.{
  ℕ, zero, suc, ◌+◌, ◌-◌, ◌*◌, ◌/◌, ◌%◌, ◌==◌, ◌^◌, ◌≤◌, ◌<◌, ◌≡◌, ◌≢◌, refl, Bool, true, false, ap,
  ◌∙◌, sym, arith, leb, List, [], ◌∷◌, ◌++◌, length, some, if◌then◌else◌, u8,
}
use grbl_mega_plasma.Floats.{Floats, ℤ}
use grbl_mega_plasma.Print.{print_uint32_base10, print_integer}
use grbl_mega_plasma.Print.Laws.{read_digits, uint32_read}
use grbl_mega_plasma.Number.{
  Scan, no_digits, scan, read_sign, shrink, grow, apply_decimal, finish_float, read_float,
}
use grbl_mega_plasma.Number.Digits.{
  IsDigits, Stops, after, scan_stop, scan_digits, scan_cons, scan_point, read_digits_append,
  read_digits_bound,
}
use grbl_mega_plasma.Number.Printed.{printed-IsDigits}

abbrev sign_text : Bool → List ℕ
sign_text true = b'-' ∷ []
sign_text false = []

abbrev HasNoSign : List ℕ → Type 0
HasNoSign [] = Unit {0}
HasNoSign (c ∷ cs) = (c ≢ b'-') × (c ≢ b'+')

append-HasNoSign : (ds cs : List ℕ) → IsDigits ds → HasNoSign cs → HasNoSign (ds ++ cs)
append-HasNoSign [] cs h k = k
append-HasNoSign (d ∷ ds) cs h k = (omega (arith, h.0), omega (arith, h.0))

digits-HasNoSign : (ds cs : List ℕ) → IsDigits ds → 0 < length ds → HasNoSign (ds ++ cs)
digits-HasNoSign [] cs h one = absurd (omega arith)
digits-HasNoSign (d ∷ ds) cs h one = (omega (arith, h.0), omega (arith, h.0))

print_sign :
    (neg : Bool) (n : ℕ) (rest : List ℕ)
    → print_integer neg n ++ rest ≡ sign_text neg ++ (print_uint32_base10 n ++ rest)
unfolding print_integer
print_sign true n rest = refl
print_sign false n rest = refl

module _ {F : Type 0} (ops : Floats F) where
  abbrev pub signed : Bool → F → F
  signed true v = ops.neg v
  signed false v = v

  -- `n` factors of a hundredth.
  abbrev hundredths : ℕ → F → F
  hundredths zero v = v
  hundredths (suc n) v = hundredths n (ops.mul v (ops.literal 1 2))

  -- `v` times 0.01 for every two decimals, and times 0.1 for an odd one.
  abbrev scaled_down : ℕ → F → F
  scaled_down k v =
      let w = hundredths (k / 2) v in if k % 2 == 0 then w else ops.mul w (ops.literal 1 1)

  -- The integer `n` with `k` decimals.
  abbrev decimal : ℕ → ℕ → F
  decimal n k =
      let v = ops.of_int (ℤ.pos n) in if ops.eq v (ops.literal 0 0) then v else scaled_down k v

  shrink_lem : (k : ℕ) (v : F) → shrink ops k v ≡ scaled_down k v
  unfolding shrink
  shrink_lem zero v = refl
  shrink_lem (suc zero) v = refl
  shrink_lem (suc (suc k)) v =
      let half : suc (suc k) / 2 ≡ suc (k / 2) = omega arith in
      let odd : suc (suc k) % 2 ≡ k % 2 = omega arith in
      rw (half, odd) (shrink_lem k (ops.mul v (ops.literal 1 2)))

  decimal_zero : (n : ℕ) → decimal n 0 ≡ ops.of_int (ℤ.pos n)
  unfolding shrink
  decimal_zero n = ground arith

  apply_decimal_lem :
      (n k e : ℕ)
      → k ≤ 8
      → e ≡ u8 (255 * k)
      → apply_decimal ops e (ops.of_int (ℤ.pos n)) ≡ decimal n k
  unfolding apply_decimal shrink grow
  apply_decimal_lem n zero e few lem =
      ap (λ (x : ℕ). apply_decimal ops x (ops.of_int (ℤ.pos n))) lem
  apply_decimal_lem n (suc k) e few lem =
      let negative : leb 128 e ≡ true = ground arith in
      let size : 256 - e ≡ suc k = ground arith in rw (negative, size, shrink_lem)

  read_sign_lem :
      (neg : Bool) (cs : List ℕ) → HasNoSign cs → read_sign (sign_text neg ++ cs) ≡ (neg, cs)
  unfolding read_sign
  read_sign_lem true cs h = refl
  read_sign_lem false [] h = refl
  read_sign_lem false (c ∷ cs) h = ground arith

  finish_float_lem :
      (neg : Bool) (s : Scan) (rest : List ℕ) (k : ℕ)
      → s.ndigit ≢ 0
      → k ≤ 8
      → s.exp ≡ u8 (255 * k)
      → finish_float ops neg (s, rest) ≡ some (signed neg (decimal s.intval k), rest)
  unfolding finish_float
  finish_float_lem true s rest k digits few e =
      let v = apply_decimal_lem s.intval k s.exp few e in ground arith
  finish_float_lem false s rest k digits few e =
      let v = apply_decimal_lem s.intval k s.exp few e in ground arith

  read_float_scanned :
      (neg : Bool) (body rest : List ℕ) (s : Scan) (k : ℕ)
      → HasNoSign body
      → scan body no_digits ≡ (s, rest)
      → s.ndigit ≢ 0
      → k ≤ 8
      → s.exp ≡ u8 (255 * k)
      → read_float ops (sign_text neg ++ body) ≡ some (signed neg (decimal s.intval k), rest)
  unfolding read_float
  read_float_scanned neg body rest s k unsigned e digits few f =
      ap (λ (p : Bool × List ℕ). finish_float ops p.0 (scan p.1 no_digits))
        (read_sign_lem neg body unsigned)
      ∙ ap (finish_float ops neg) e
      ∙ finish_float_lem neg s rest k digits few f

  -- An optional minus sign, digits, a decimal point and more digits, eight digits at most and one at
  -- least, in front of a character that is neither a digit nor a point: `read_float` returns the
  -- integer that all the digits stand for, with the sign, and the rest of the line. The integer is
  -- multiplied by the literal 0.01 for every two decimals and then by the literal 0.1 for an odd one,
  -- unless it is equal to zero.
  pub read_float-decimal :
      (neg : Bool) (ds es rest : List ℕ)
      → IsDigits ds
      → IsDigits es
      → 0 < length ds + length es
      → length ds + length es ≤ 8
      → Stops rest
      → read_float ops (sign_text neg ++ (ds ++ b'.' ∷ (es ++ rest)))
        ≡ some (signed neg (decimal (read_digits 10 0 (ds ++ es)) (length es)), rest)
  unfolding read_float
  read_float-decimal neg ds es rest h k one few stops =
      let s = after ds no_digits in
      let t = record s { isdecimal = true } in
      let bound : s.intval < 10 ^ s.ndigit =
        read_digits_bound 0 0 s.ndigit ds h (omega arith) refl in
      let point : scan (b'.' ∷ (es ++ rest)) s ≡ scan (es ++ rest) t =
        scan_cons b'.' (es ++ rest) s t (scan_point s refl) in
      let scanned =
        scan_digits ds (b'.' ∷ (es ++ rest)) no_digits h (omega arith) (omega arith) (omega arith)
        ∙ point
        ∙ scan_digits es rest t k (omega arith) bound (omega arith)
        ∙ scan_stop rest (after es t) stops in
      let value = sym (read_digits_append 0 ds es) in
      read_float_scanned neg (ds ++ b'.' ∷ (es ++ rest)) rest (after es t) (length es)
        (append-HasNoSign ds (b'.' ∷ (es ++ rest)) h (omega arith, omega arith)) scanned
        (omega (arith, one)) (omega arith) (ground arith)
      ∙ ap (λ (v : ℕ). some (signed neg (decimal v (length es)), rest)) value

  -- `read_float` reads an integer of at most eight digits that `printInteger` has written, in front of
  -- a character that is neither a digit nor a point, as this integer with its sign, and returns the
  -- line behind it.
  pub read_float-print_integer :
      (neg : Bool) (n : ℕ) (rest : List ℕ)
      → n < 100000000
      → Stops rest
      → read_float ops (print_integer neg n ++ rest)
        ≡ some (signed neg (ops.of_int (ℤ.pos n)), rest)
  unfolding read_float print_integer
  read_float-print_integer neg n rest small stops =
      let ds = print_uint32_base10 n in
      let (digits, one, few) = printed-IsDigits n small in
      let s = after ds no_digits in
      let value : s.intval ≡ n = (uint32_read n (omega arith)).0 in
      let scanned =
        scan_digits ds rest no_digits digits (omega arith) (omega arith) (omega arith)
        ∙ scan_stop rest s stops in
      ap (read_float ops) (print_sign neg n rest)
      ∙ read_float_scanned neg (ds ++ rest) rest s 0 (digits-HasNoSign ds rest digits one) scanned
          (omega (arith, one)) (omega arith) (ground arith)
      ∙ ap (λ (v : ℕ). some (signed neg (decimal v 0), rest)) value
      ∙ ap (λ (v : F). some (signed neg v, rest)) (decimal_zero n)
