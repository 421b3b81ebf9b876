-- ===== src/Print/Laws.antt =====
-- A printed number reads back as itself.
use grbl_mega_plasma.Prelude.{
  ℕ, zero, suc, ◌+◌, ◌-◌, ◌*◌, ◌/◌, ◌%◌, ◌^◌, ◌≤◌, ◌<◌, ◌≡◌, ap, ◌∙◌, arith, ◌==◌, List, [], ◌∷◌,
  if_cases, length,
}
use grbl_mega_plasma.Print.{
  print_uint8_base10, print_uint8_base2_ndigit, store_digits, print_uint32_base10,
}

-- The number that digits to a base stand for, behind the digits of `v`.
abbrev pub read_digits : ℕ → ℕ → List ℕ → ℕ
read_digits base v [] = v
read_digits base v (c ∷ cs) = read_digits base (base * v + (c - b'0')) cs

-- A byte prints as decimal digits that read back as it.
uint8_read : (n : ℕ) → n < 256 → read_digits 10 0 (print_uint8_base10 n) ≡ n
unfolding print_uint8_base10
uint8_read n h = ground arith

store_digits_lem :
    (fuel n : ℕ) (out : List ℕ)
    → n < 10 ^ fuel
    → (read_digits 10 0 (store_digits fuel n out) ≡ read_digits 10 n out)
      × (length (store_digits fuel n out) ≤ fuel + length out)
unfolding store_digits
store_digits_lem zero n out h =
    let none_left : 0 ≡ n = omega arith in
    (ap (λ (v : ℕ). read_digits 10 v out) none_left, omega arith)
store_digits_lem (suc fuel) n out h =
    let power : 10 ^ suc fuel ≡ 10 * 10 ^ fuel = omega arith in
    let smaller : n / 10 < 10 ^ fuel = omega (arith, power) in
    let last : ℕ = b'0' + n % 10 in
    let rest = store_digits_lem fuel (n / 10) (last ∷ out) smaller in
    let digit : 10 * (n / 10) + (last - b'0') ≡ n = omega arith in
    if_cases
      (λ (l : List ℕ).
        (read_digits 10 0 l ≡ read_digits 10 n out) × (length l ≤ suc fuel + length out))
      (n == 0) out (store_digits fuel (n / 10) (last ∷ out))
      (λ e. (ap (λ (v : ℕ). read_digits 10 v out) (ground arith), omega arith))
      (λ _. (rest.0 ∙ ap (λ (v : ℕ). read_digits 10 v out) digit, omega (arith, rest.1)))

-- A 32-bit number prints as at most ten decimal digits, which is the room there is, and they read
-- back as it.
pub uint32_read :
    (n : ℕ)
    → n < 4294967296
    → (read_digits 10 0 (print_uint32_base10 n) ≡ n) × (length (print_uint32_base10 n) ≤ 10)
unfolding print_uint32_base10
uint32_read n h =
    if_cases (λ (l : List ℕ). (read_digits 10 0 l ≡ n) × (length l ≤ 10)) (n == 0) _ _
      (λ e. (ground arith, omega arith)) (λ _. store_digits_lem 10 n [] (omega arith))

base2_lem :
    (digits n : ℕ) (out : List ℕ)
    → n < 2 ^ digits
    → (read_digits 2 0 (print_uint8_base2_ndigit n digits out) ≡ read_digits 2 n out)
      × (length (print_uint8_base2_ndigit n digits out) ≡ digits + length out)
unfolding print_uint8_base2_ndigit
base2_lem zero n out h =
    let none_left : 0 ≡ n = omega arith in
    (ap (λ (v : ℕ). read_digits 2 v out) none_left, omega arith)
base2_lem (suc digits) n out h =
    let power : 2 ^ suc digits ≡ 2 * 2 ^ digits = omega arith in
    let smaller : n / 2 < 2 ^ digits = omega (arith, power) in
    let last : ℕ = b'0' + n % 2 in
    let rest = base2_lem digits (n / 2) (last ∷ out) smaller in
    let digit : 2 * (n / 2) + (last - b'0') ≡ n = omega arith in
    (rest.0 ∙ ap (λ (v : ℕ). read_digits 2 v out) digit, omega (arith, rest.1))

-- A number below 2 to the number of digits asked for prints as exactly that many binary digits, and
-- they read back as it.
pub base2_read :
    (digits n : ℕ)
    → n < 2 ^ digits
    → (read_digits 2 0 (print_uint8_base2_ndigit n digits []) ≡ n)
      × (length (print_uint8_base2_ndigit n digits []) ≡ digits)
base2_read digits n h = let lem = base2_lem digits n [] h in (lem.0, omega (arith, lem.1))
