-- ===== src/Number/Setting.antt =====
-- `$n=value` of system.c with `read_float` of nuts_bolts.c, on what print.c writes.
use grbl_mega_plasma.Prelude.{
  ℕ, zero, suc, ◌+◌, ◌-◌, ◌≤◌, ◌<◌, ◌≡◌, ◌⊎◌, inl, inr, refl, Bool, false, ap, subst, ◌∙◌, arith,
  List, [], ◌∷◌, ◌++◌, length, length-append, Option, none, some, get_or,
}
use grbl_mega_plasma.System.{State}
use grbl_mega_plasma.System.Command.{
  Services, Console, returned, rest_of, store_command, maintain, when_ready, system_execute_line,
}
use grbl_mega_plasma.Floats.{Floats, ℤ}
use grbl_mega_plasma.Print.{print_uint32_base10, print_integer}
use grbl_mega_plasma.Number.{read_float, read_float_at}
use grbl_mega_plasma.Number.Laws.{signed, read_float-print_integer}
use grbl_mega_plasma.Number.Digits.{IsDigits}
use grbl_mega_plasma.Number.Printed.{printed-IsDigits}

-- The line goes on with `cs` at the position `i`.
record IsAt (line : List ℕ) (i : ℕ) (cs : List ℕ) : Type 0 where
  rest_lem : rest_of i line ≡ cs
  length_lem : length line ≡ i + length cs

abbrev tail_or : List ℕ → List ℕ
tail_or [] = []
tail_or (c ∷ cs) = cs

rest_of-suc : (i : ℕ) (line : List ℕ) → rest_of (suc i) line ≡ tail_or (rest_of i line)
rest_of-suc zero [] = refl
rest_of-suc zero (x ∷ xs) = refl
rest_of-suc (suc i) [] = refl
rest_of-suc (suc i) (x ∷ xs) = rest_of-suc i xs

get_or-rest_of : (i : ℕ) (line : List ℕ) → get_or line i 0 ≡ get_or (rest_of i line) 0 0
get_or-rest_of zero line = refl
get_or-rest_of (suc i) [] = refl
get_or-rest_of (suc i) (x ∷ xs) = get_or-rest_of i xs

IsAt-suc : (line : List ℕ) (i c : ℕ) (cs : List ℕ) → IsAt line i (c ∷ cs) → IsAt line (suc i) cs
IsAt-suc line i c cs h = record {
  rest_lem = rest_of-suc i line ∙ ap tail_or h.rest_lem;
  length_lem = omega (arith, h.length_lem);
}

IsAt-append :
    (line ds cs : List ℕ) (i j : ℕ) → IsAt line i (ds ++ cs) → j ≡ i + length ds → IsAt line j cs
IsAt-append line [] cs i j h e = subst (λ (k : ℕ). IsAt line k cs) (omega (arith, e)) h
IsAt-append line (d ∷ ds) cs i j h e =
    IsAt-append line ds cs (suc i) j (IsAt-suc line i d (ds ++ cs) h) (omega (arith, e))

IsAt-char : (line : List ℕ) (i c : ℕ) (cs : List ℕ) → IsAt line i (c ∷ cs) → get_or line i 0 ≡ c
IsAt-char line i c cs h = get_or-rest_of i line ∙ ap (λ (l : List ℕ). get_or l 0 0) h.rest_lem

module _ {F : Type 0} (fl : Floats F) where
  read_at :
      (line ds cs : List ℕ) (i : ℕ) (v : F)
      → IsAt line i (ds ++ cs)
      → read_float fl (ds ++ cs) ≡ some (v, cs)
      → read_float_at fl line i ≡ some (v, i + length ds)
  unfolding read_float_at
  read_at line ds cs i v h e =
      let read = ap (read_float fl) h.rest_lem ∙ e in
      let size = length-append ds cs in
      let at : length line - length cs ≡ i + length ds = omega (arith, h.length_lem, size) in
      ap place read ∙ ap (λ (n : ℕ). some (v, n)) at
    where
      place : Option (F × List ℕ) → Option (F × ℕ)
      place o = elim o [ none ↦ none | some p ↦ some (p.0, length line - length p.1) ]

store_command_lem :
    {F : Type 0} (ops : Services F) (line : List ℕ) (pos at end : ℕ) (p v : F) (k : Console)
    → ops.read_float line pos ≡ some (p, at)
    → get_or line at 0 ≡ b'='
    → ops.read_float line (at + 1) ≡ some (v, end)
    → get_or line end 0 ≡ 0
    → ops.above_255 p ≡ false
    → store_command ops false pos line k
      ≡ (returned (ops.settings_store_global_setting (ops.trunc p) v), k)
unfolding store_command
store_command_lem ops line pos at end p v k first equals second ends small = ground arith

dispatch :
    {F : Type 0} (ops : Services F) (line : List ℕ) (k : Console)
    → (k.machine.sys.state ≡ State.idle) ⊎ (k.machine.sys.state ≡ State.alarm)
    → b'0' ≤ get_or line 1 0
    → get_or line 1 0 ≤ b'9'
    → system_execute_line ops line k ≡ store_command ops false 1 line k
unfolding system_execute_line maintain when_ready
dispatch ops line k ready low high = elim ready [ inl e ↦ ground arith | inr e ↦ ground arith ]

-- The services of `system_execute_line` with the modelled `read_float`.
abbrev pub with_reader : {F : Type 0} → Floats F → Services F → Services F
with_reader fl ops = record ops { read_float = read_float_at fl }

-- `$`, the number `n`, `=` and the value, and the NUL.
abbrev pub setting_line : ℕ → Bool → ℕ → List ℕ
setting_line n neg v = b'$' ∷ (print_uint32_base10 n ++ (b'=' ∷ (print_integer neg v ++ (0 ∷ []))))

first_digit :
    (ds cs : List ℕ)
    → IsDigits ds
    → 0 < length ds
    → (b'0' ≤ get_or (ds ++ cs) 0 0) × (get_or (ds ++ cs) 0 0 ≤ b'9')
first_digit [] cs h one = absurd (omega arith)
first_digit (d ∷ ds) cs h one = (h.0, h.1)

-- In the state idle or alarm, a line of `$`, a printed number of at most eight digits that is not
-- above 255, `=` and a printed integer of at most eight digits stores just this value under the
-- integer part of this number and returns the status of the store. The console stays as it was.
pub setting_stored :
    {F : Type 0} (fl : Floats F) (ops : Services F) (n v : ℕ) (neg : Bool) (k : Console)
    → n < 100000000
    → v < 100000000
    → (k.machine.sys.state ≡ State.idle) ⊎ (k.machine.sys.state ≡ State.alarm)
    → ops.above_255 (fl.of_int (ℤ.pos n)) ≡ false
    → system_execute_line (with_reader fl ops) (setting_line n neg v) k ≡ (
      returned (
          ops.settings_store_global_setting
            (ops.trunc (fl.of_int (ℤ.pos n)))
            (signed fl neg (fl.of_int (ℤ.pos v)))),
      k,
    )
unfolding print_integer
setting_stored fl ops n v neg k n_small v_small ready few =
    let line = setting_line n neg v in
    let ds = print_uint32_base10 n in
    let es = print_integer neg v in
    let value = es ++ (0 ∷ []) in
    let at = 1 + length ds in
    let (digits, one, size) = printed-IsDigits n n_small in
    let first = first_digit ds (b'=' ∷ value) digits one in
    let start : IsAt line 1 (ds ++ (b'=' ∷ value)) = record {
      rest_lem = refl;
      length_lem = omega arith;
    } in
    let equals = IsAt-append line ds (b'=' ∷ value) 1 at start refl in
    let behind : IsAt line (at + 1) value =
      subst (λ (i : ℕ). IsAt line i value) (omega arith) (IsAt-suc line at b'=' value equals) in
    let end = IsAt-append line es (0 ∷ []) (at + 1) (at + 1 + length es) behind refl in
    dispatch (with_reader fl ops) line k ready first.0 first.1
    ∙ store_command_lem (with_reader fl ops) line 1 at (at + 1 + length es) (fl.of_int (ℤ.pos n))
        (signed fl neg (fl.of_int (ℤ.pos v))) k
        (read_at fl line ds (b'=' ∷ value) 1 (fl.of_int (ℤ.pos n)) start (
          read_float-print_integer fl false n (b'=' ∷ value) n_small
            (inr (inr (omega arith)), omega arith)))
        (IsAt-char line at b'=' value equals)
        (read_at fl line es (0 ∷ []) (at + 1) (signed fl neg (fl.of_int (ℤ.pos v))) behind
          (read_float-print_integer fl neg v (0 ∷ []) v_small (inl (omega arith), omega arith)))
        (IsAt-char line (at + 1 + length es) 0 [] end) few
