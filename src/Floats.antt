-- ===== src/Floats.antt =====
-- The C arithmetic that the planner and the g-code parser use on `float`, which the compiler and
-- its runtime library supply: a parameter of the model. `ℤ` stands for `int32_t` step counts, whose
-- overflow is undefined in C.
use grbl_mega_plasma.Prelude.{ℕ, ◌+◌, ◌-◌, ◌≡◌, Bool, true, false, ◌||◌, leb, if◌then◌else◌}

pub data ℤ : Type 0 where
  pos : ℕ → ℤ
  negsuc : ℕ → ℤ

abbrev difference : ℕ → ℕ → ℤ
difference a b = if leb b a then ℤ.pos (a - b) else ℤ.negsuc (b - a - 1)

infixl 60 ◌-ℤ◌
abbrev pub ◌-ℤ◌ : ℤ → ℤ → ℤ
ℤ.pos a -ℤ ℤ.pos b = difference a b
ℤ.pos a -ℤ ℤ.negsuc b = ℤ.pos (a + b + 1)
ℤ.negsuc a -ℤ ℤ.pos b = ℤ.negsuc (a + b)
ℤ.negsuc a -ℤ ℤ.negsuc b = difference b a

-- `labs`
abbrev pub labs : ℤ → ℕ
labs (ℤ.pos a) = a
labs (ℤ.negsuc a) = a + 1

-- `literal m e` is the constant m / 10^e, and `same_bits` compares two representations.
pub record Floats (F : Type 0) : Type 0 where
  pub literal : ℕ → ℕ → F
  pub add : F → F → F
  pub sub : F → F → F
  pub mul : F → F → F
  pub div : F → F → F
  pub sqrt : F → F
  pub fabs : F → F
  pub neg : F → F
  pub lt : F → F → Bool
  pub eq : F → F → Bool
  pub same_bits : F → F → Bool
  pub of_int : ℤ → F
  pub lround : F → ℤ

module _ {F : Type 0} (ops : Floats F) where
  abbrev pub le : F → F → Type 0
  le a b = ops.lt b a ≡ false

  -- `min(a,b)` and `max(a,b)` of nuts_bolts.h
  unfoldable pub min : F → F → F
  min a b = if ops.lt a b then a else b

  -- `a <= b`, which like `a < b` is false on a NaN
  abbrev pub at_most : F → F → Bool
  at_most a b = ops.lt a b || ops.eq a b

  unfoldable pub max : F → F → F
  max a b = if ops.lt b a then a else b

  -- What the comparison and a rounded sum promise on values that are no NaN.
  pub record IsOrdered : Type 0 where
    pub le_refl : (a : F) → le a a
    pub le_trans : (a b c : F) → le a b → le b c → le a c
    pub lt-le : (a b : F) → ops.lt a b ≡ true → le a b
    pub add_mono : (a b c : F) → le a b → le (ops.add a c) (ops.add b c)
    pub le-add : (a c : F) → le (ops.literal 0 0) c → le a (ops.add a c)
    pub zero_add : (c : F) → le (ops.literal 0 0) c → le c (ops.add (ops.literal 0 0) c)
    pub add_zero : (c : F) → le (ops.literal 0 0) c → le (ops.add (ops.literal 0 0) c) c
