-- ===== src/Number/Tests.antt =====
-- `read_float` on concrete text.
use grbl_mega_plasma.Prelude.{
  ltb, ◌+◌, ◌/◌, inl, true, ℕ, ◌≡◌, refl, arith, false, List, [], ◌∷◌, ◌++◌, some, none, replicate,
  inr,
}
use grbl_mega_plasma.Fixtures.{fixed_ops}
use grbl_mega_plasma.Fixtures.{idle_machine}
use grbl_mega_plasma.System.Command.{Services, Console, Status, system_execute_line}
use grbl_mega_plasma.Number.Setting.{with_reader, setting_line, setting_stored}
use grbl_mega_plasma.Print.{print_integer}
use grbl_mega_plasma.Number.{read_float, shrink, scan, scan_char, no_digits}
use grbl_mega_plasma.Number.Laws.{read_float-decimal, read_float-print_integer}

abbrev rest : List ℕ
rest = b'Y' ∷ b'2' ∷ []

-- `12.5Y2`, in thousandths
read_float-decimal_example :
    read_float fixed_ops (b'1' ∷ b'2' ∷ b'.' ∷ b'5' ∷ rest) ≡ some (12500, rest)
unfolding shrink
read_float-decimal_example =
    read_float-decimal fixed_ops false (b'1' ∷ b'2' ∷ []) (b'5' ∷ []) rest
      (omega arith, omega arith, (omega arith, omega arith, tt)) (omega arith, omega arith, tt)
      (omega arith) (omega arith) (inr (inr (omega arith)), omega arith)

read_float-print_integer_example :
    read_float fixed_ops (print_integer false 4096 ++ rest) ≡ some (4096000, rest)
read_float-print_integer_example =
    read_float-print_integer fixed_ops false 4096 rest (omega arith)
      (inr (inr (omega arith)), omega arith)

-- A store that answers with the number and the value that it gets
abbrev services : Services ℕ
services = record {
  gc_execute_line = λ line m. (0, m);
  mc_homing_cycle = λ m. m;
  settings_read_startup_line = λ n. none;
  read_float = λ line i. none;
  trunc = λ v. v / 1000;
  above_255 = λ v. ltb 255000 v;
  settings_store_global_setting = λ n v. n + v;
  atoi = λ line. 0;
  homing_enable = true;
}

abbrev console : Console
console = record { machine = idle_machine; analog_set_val = 3; effects = [] }

-- `$110=500`
setting_stored_example :
    system_execute_line (with_reader fixed_ops services) (setting_line 110 false 500) console
    ≡ (Status.returned 500110, console)
setting_stored_example =
    setting_stored fixed_ops services 110 500 false console (omega arith) (omega arith) (inl refl)
      refl

-- A sign and a point without digits.
no_digits_lem : read_float fixed_ops (b'-' ∷ b'.' ∷ rest) ≡ none
unfolding read_float scan_char
no_digits_lem = refl

-- After 136 digits the exponent no longer fits into its type and counts as negative.
exp_lem : (scan (replicate 136 b'1') no_digits).0.exp ≡ 128
unfolding scan scan_char
exp_lem = refl
