-- ===== src/Prelude/Tests.antt =====
-- Boolean tests on the native numbers, the conditional, and 8-bit arithmetic.
use Prim.Native.Nat.{ℕ, zero, suc, ◌%◌, ◌<◌, compare, Ordering}
use mathlib.Core.Path.{◌≡◌, refl}
use mathlib.Core.Logic.{◌↔◌, ◌⊎◌, inl, inr}
use mathlib.Core.Bool.{Bool, true, false}
use native.Mathlib.Omega.{arith}

abbrev pub ltb : ℕ → ℕ → Bool
ltb a b = elim (compare a b) [ Ordering.lt ↦ true | _ ↦ false ]

abbrev pub leb : ℕ → ℕ → Bool
leb a b = elim (compare a b) [ Ordering.gt ↦ false | _ ↦ true ]

infix 50 ◌==◌
abbrev pub ◌==◌ : ℕ → ℕ → Bool
a == b = elim (compare a b) [ Ordering.eq ↦ true | _ ↦ false ]

infix 1 if◌then◌else◌
abbrev pub if◌then◌else◌ {ℓ} : {A : Type ℓ} → Bool → A → A → A
if true then x else y = x
if false then x else y = y

pub ==_iff : (a b : ℕ) → ((a == b) ≡ true) ↔ (a ≡ b)
==_iff a b = ground arith

-- To split on a computed value and keep the equation.
pub Bool-cases : (b : Bool) → (b ≡ true) ⊎ (b ≡ false)
Bool-cases true = inl refl
Bool-cases false = inr refl

-- A property of both branches, each under what its test says.
pub if_cases {ℓ κ} :
    {A : Type ℓ} (P : A → Type κ) (b : Bool) (x y : A)
    → (b ≡ true → P x)
    → (b ≡ false → P y)
    → P (if b then x else y)
if_cases P true x y h k = h refl
if_cases P false x y h k = k refl

pub if_apply {ℓ κ} :
    {A : Type ℓ} {B : Type κ} (f : A → B) (b : Bool) (x y : A)
    → f (if b then x else y) ≡ (if b then f x else f y)
if_apply f true x y = refl
if_apply f false x y = refl

-- What a store to a `uint8_t` keeps.
abbrev pub u8 : ℕ → ℕ
u8 n = n % 256

-- A table of a test's results, for a check by evaluation: `holds_to k p` says that the test holds
-- at every index of the table with `k` rows.
unfoldable pub holds_to : ℕ → (ℕ → Bool) → Bool
holds_to zero test = true
holds_to (suc k) test = if test k then holds_to k test else false

pub holds_to_lem : (test : ℕ → Bool) (k i : ℕ) → i < k → holds_to k test ≡ true → test i ≡ true
unfolding holds_to
holds_to_lem test zero i small table = absurd (omega arith)
holds_to_lem test (suc k) i small table = ground (arith, holds_to_lem test k i)
