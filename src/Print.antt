-- ===== src/Print.antt =====
-- The integer printing of print.c. What a function writes to the serial line is the list of its
-- bytes.
pub mod Laws
mod Tests
use grbl_mega_plasma.Prelude.{
  ℕ, zero, suc, ◌+◌, ◌-◌, ◌/◌, ◌%◌, Bool, true, false, ◌==◌, leb, List, [], ◌∷◌, ◌++◌,
  if◌then◌else◌, u8,
}

-- `if (digit) { serial_write(digit); }`
abbrev pub write_if : ℕ → List ℕ
write_if digit = if digit == 0 then [] else digit ∷ []

unfoldable pub print_uint8_base10 : ℕ → List ℕ
print_uint8_base10 n0 =
    let digit_a = if leb 100 n0 then u8 (b'0' + n0 % 10) else 0 in
    let n1 = if leb 100 n0 then n0 / 10 else n0 in
    let digit_b = if leb 10 n1 then u8 (b'0' + n1 % 10) else 0 in
    let n2 = if leb 10 n1 then n1 / 10 else n1 in
    u8 (b'0' + n2) ∷ write_if digit_b ++ write_if digit_a

-- The digits are stored lowest first and written from the last one on.
unfoldable pub print_uint8_base2_ndigit : ℕ → ℕ → List ℕ → List ℕ
print_uint8_base2_ndigit n zero out = out
print_uint8_base2_ndigit n (suc digits) out =
    print_uint8_base2_ndigit (n / 2) digits ((b'0' + n % 2) ∷ out)

-- The loop over the digits; `fuel` is the room left in `buf[10]`.
unfoldable pub store_digits : ℕ → ℕ → List ℕ → List ℕ
store_digits zero n out = out
store_digits (suc fuel) n out =
    let rest = store_digits fuel (n / 10) ((b'0' + n % 10) ∷ out) in if n == 0 then out else rest

unfoldable pub print_uint32_base10 : ℕ → List ℕ
print_uint32_base10 n = if n == 0 then b'0' ∷ [] else store_digits 10 n []

-- `printInteger`, for the sign and the absolute value of a `long`.
unfoldable pub print_integer : Bool → ℕ → List ℕ
print_integer is_negative n =
    if is_negative then b'-' ∷ print_uint32_base10 n else print_uint32_base10 n
