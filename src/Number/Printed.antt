-- ===== src/Number/Printed.antt =====
-- The digits that print.c writes, for `read_float` of nuts_bolts.c.
use grbl_mega_plasma.Prelude.{
  ℕ, zero, suc, ◌+◌, ◌*◌, ◌/◌, ◌%◌, ◌^◌, ◌≤◌, ◌<◌, ◌≡◌, false, arith, ◌==◌, List, [], ◌∷◌, if_cases,
  length,
}
use grbl_mega_plasma.Print.{store_digits, print_uint32_base10}
use grbl_mega_plasma.Number.Digits.{IsDigits}

store_digits-IsDigits :
    (fuel k n : ℕ) (out : List ℕ)
    → k ≤ fuel
    → n < 10 ^ k
    → IsDigits out
    → IsDigits (store_digits fuel n out) × (length (store_digits fuel n out) ≤ k + length out)
unfolding store_digits
store_digits-IsDigits zero k n out few small h = (h, omega arith)
store_digits-IsDigits (suc fuel) zero n out few small h =
    if_cases (λ (l : List ℕ). IsDigits l × (length l ≤ 0 + length out)) (n == 0) out _
      (λ e. (h, omega arith)) (λ e. absurd (ground arith))
store_digits-IsDigits (suc fuel) (suc k) n out few small h =
    let power : 10 ^ suc k ≡ 10 * 10 ^ k = omega arith in
    let rest =
      store_digits-IsDigits fuel k (n / 10) ((b'0' + n % 10) ∷ out) (omega arith)
        (omega (arith, power, small)) (omega arith, omega arith, h) in
    if_cases (λ (l : List ℕ). IsDigits l × (length l ≤ suc k + length out)) (n == 0) out
      (store_digits fuel (n / 10) ((b'0' + n % 10) ∷ out)) (λ e. (h, omega arith))
      (λ e. (rest.0, omega (arith, rest.1)))

store_digits_longer : (fuel n : ℕ) (out : List ℕ) → length out ≤ length (store_digits fuel n out)
unfolding store_digits
store_digits_longer zero n out = omega arith
store_digits_longer (suc fuel) n out =
    let rest = store_digits_longer fuel (n / 10) ((b'0' + n % 10) ∷ out) in
    if_cases (λ (l : List ℕ). length out ≤ length l) (n == 0) out
      (store_digits fuel (n / 10) ((b'0' + n % 10) ∷ out)) (λ e. omega arith)
      (λ e. omega (arith, rest))

store_digits_starts : (n : ℕ) → (n == 0) ≡ false → 0 < length (store_digits 10 n [])
unfolding store_digits
store_digits_starts n e =
    let longer = store_digits_longer 9 (n / 10) ((b'0' + n % 10) ∷ []) in
    if_cases (λ (l : List ℕ). 0 < length l) (n == 0) []
      (store_digits 9 (n / 10) ((b'0' + n % 10) ∷ [])) (λ f. ground arith)
      (λ f. omega (arith, longer))

pub printed-IsDigits :
    (n : ℕ)
    → n < 100000000
    → IsDigits (print_uint32_base10 n)
      × (0 < length (print_uint32_base10 n))
      × (length (print_uint32_base10 n) ≤ 8)
unfolding print_uint32_base10
printed-IsDigits n small =
    let d = store_digits-IsDigits 10 8 n [] (omega arith) (omega (arith, small)) tt in
    if_cases (λ (l : List ℕ). IsDigits l × (0 < length l) × (length l ≤ 8)) (n == 0) (b'0' ∷ [])
      (store_digits 10 n []) (λ e. ((omega arith, omega arith, tt), omega arith, omega arith))
      (λ e. (d.0, store_digits_starts n e, omega (arith, d.1)))
