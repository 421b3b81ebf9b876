-- ===== src/Print/Tests.antt =====
-- Printed numbers.
use grbl_mega_plasma.Prelude.{◌≡◌, refl, true, [], ◌∷◌}
use grbl_mega_plasma.Print.{store_digits, print_uint32_base10, print_integer}

minus_lem : print_integer true 1150 ≡ b'-' ∷ b'1' ∷ b'1' ∷ b'5' ∷ b'0' ∷ []
unfolding print_integer print_uint32_base10 store_digits
minus_lem = refl
