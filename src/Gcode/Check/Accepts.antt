-- ===== src/Gcode/Check/Accepts.antt =====
-- What holds of a block that a chain of checks of gcode.c accepts.
use grbl_mega_plasma.Prelude.{◌≡◌, refl, subst, ap, Bool, false, if_cases, Option, none, some}
use grbl_mega_plasma.Gcode.{Status, Result, fail, ok}
use grbl_mega_plasma.Gcode.Check.{and_then, reject_if}

module _ {A : Type 0} where
  -- `P` holds of the result, if there is one.
  abbrev pub Accepts : (A → Type 0) → Result A → Type 0
  Accepts P r = (a : A) → r ≡ ok a → P a

  abbrev result_or : A → Result A → A
  result_or d (fail e) = d
  result_or d (ok a) = a

  pub Accepts-ok : (P : A → Type 0) (a : A) → P a → Accepts P (ok a)
  Accepts-ok P a h b e = subst P (ap (result_or a) e) h

  pub Accepts-fail : (P : A → Type 0) (s : Status) → Accepts P (fail s)
  Accepts-fail P s b e = absurd cc

  pub Accepts-reject_if :
      (P : A → Type 0) (b : Bool) (s : Status) (a : A)
      → (b ≡ false → P a)
      → Accepts P (reject_if b s a)
  unfolding reject_if
  Accepts-reject_if P b s a h =
      if_cases (Accepts P) b (fail s) (ok a) (λ e. Accepts-fail P s) (λ e. Accepts-ok P a (h e))

pub Accepts-and_then :
    {A B : Type 0} (Q : A → Type 0) (P : B → Type 0) (r : Result A) (k : A → Result B)
    → Accepts Q r
    → ((a : A) → Q a → Accepts P (k a))
    → Accepts P (and_then r k)
unfolding and_then
Accepts-and_then Q P (fail s) k h g = Accepts-fail P s
Accepts-and_then Q P (ok a) k h g = g a (h a refl)

-- A check on a value that may be missing.
pub Accepts-option :
    {A B : Type 0} (P : B → Type 0) (o : Option A) (s : Status) (k : A → Result B)
    → ((a : A) → Accepts P (k a))
    → Accepts P (elim o [ none ↦ fail s | some a ↦ k a ])
Accepts-option P none s k h = Accepts-fail P s
Accepts-option P (some a) s k h = h a
