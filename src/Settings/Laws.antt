-- ===== src/Settings/Laws.antt =====
-- What every change of the settings keeps, and which setting a number names.
use grbl_mega_plasma.Prelude.{
  ℕ, zero, suc, ◌+◌, ◌-◌, ◌/◌, ◌%◌, ◌&&◌, ◌≤◌, ◌≡◌, sym, subst, false≢true, ◌∙◌, ◌⊎◌, ◌||◌, ◌==◌,
  arith, true, false, ltb, leb, List, [], ◌∷◌, if◌then◌else◌, if_cases,
}
use grbl_mega_plasma.Settings.{
  FloatOps, Settings, Update, Stored, stored, negative_value, invalid_statement,
  write_global_settings, store_axis, find_axis, store_machine, store_cycle,
  settings_store_global_setting,
}

-- A step pulse of at least 3 microseconds, and soft limits only with homing.
pub record IsSafe {ℓ} {F : Type ℓ} (s : Settings F) : Type 0 where
  pub pulse : 3 ≤ s.pulse_microseconds
  pub limits : (s.flags.soft_limit_enable ≡ false) ⊎ (s.flags.homing_enable ≡ true)

-- What holds of the settings if they are changed.
abbrev Holding {ℓ} : {F : Type ℓ} → Stored F → Type 0
Holding (stored s us) = IsSafe s
Holding _ = Unit {0}

store_axis-IsSafe {ℓ} :
    {F : Type ℓ} (ops : FloatOps F) (i axis : ℕ) (v : F) (s : Settings F)
    → IsSafe s
    → IsSafe (store_axis ops i axis v s)
unfolding store_axis
store_axis-IsSafe ops i axis v s h = ground (arith, h.pulse, h.limits)

store_machine-IsSafe {ℓ} :
    {F : Type ℓ} (parameter n : ℕ) (v : F) (s : Settings F)
    → IsSafe s
    → Holding (store_machine parameter n v s)
unfolding store_machine
store_machine-IsSafe parameter n v s h = ground (arith, h.pulse, h.limits)

store_cycle-IsSafe {ℓ} :
    {F : Type ℓ} (parameter n : ℕ) (v : F) (s : Settings F)
    → IsSafe s
    → Holding (store_cycle parameter n v s)
unfolding store_cycle
store_cycle-IsSafe parameter n v s h = ground (arith, h.pulse, h.limits)

find_axis-IsSafe {ℓ} :
    {F : Type ℓ} (ops : FloatOps F) (fuel i parameter : ℕ) (v : F) (s : Settings F)
    → IsSafe s
    → Holding (find_axis ops fuel i parameter v s)
unfolding find_axis
find_axis-IsSafe ops zero i parameter v s h = h
find_axis-IsSafe ops (suc fuel) i parameter v s h =
    if_cases Holding (ltb parameter 3) _ _ (λ _. store_axis-IsSafe ops i parameter v s h)
      (λ _.
        if_cases Holding (ltb parameter 10 || i + 1 == 4) invalid_statement _ (λ _. tt)
          (λ _. find_axis-IsSafe ops fuel (i + 1) (parameter - 10) v s h))

store-Holding {ℓ} :
    {F : Type ℓ} (ops : FloatOps F) (parameter : ℕ) (v : F) (s : Settings F)
    → IsSafe s
    → Holding (settings_store_global_setting ops parameter v s)
unfolding settings_store_global_setting
store-Holding ops parameter v s h =
    if_cases Holding (ops.is_negative v) negative_value _ (λ _. tt)
      (λ _.
        if_cases Holding (leb 100 parameter) (find_axis ops 4 0 (parameter - 100) v s) _
          (λ _. find_axis-IsSafe ops 4 0 (parameter - 100) v s h)
          (λ _.
            if_cases Holding (ltb parameter 20) (store_machine parameter (ops.trunc v) v s) _
              (λ _. store_machine-IsSafe parameter (ops.trunc v) v s h)
              (λ _. store_cycle-IsSafe parameter (ops.trunc v) v s h)))

-- Whatever setting is stored with whatever value, the step pulse stays at least 3 microseconds long,
-- and soft limits stay off unless homing is on.
pub settings_store_global_setting-IsSafe {ℓ} :
    {F : Type ℓ} (ops : FloatOps F) (parameter : ℕ) (v : F) (s s1 : Settings F) (us : List Update)
    → IsSafe s
    → settings_store_global_setting ops parameter v s ≡ stored s1 us
    → IsSafe s1
settings_store_global_setting-IsSafe ops parameter v s s1 us h e =
    subst Holding e (store-Holding ops parameter v s h)

-- The setting of an axis that a number from 100 on names: the tens are the kind of setting, the units
-- are the axis.
abbrev pub named {ℓ} : {F : Type ℓ} → FloatOps F → ℕ → F → Settings F → Stored F
named ops k v s =
    if ltb (k % 10) 3 && ltb (k / 10) 4
    then stored (store_axis ops (k / 10) (k % 10) v s) (write_global_settings ∷ [])
    else invalid_statement

find_axis_lem :
    {F : Type 0} (ops : FloatOps F) (k : ℕ) (v : F) (s : Settings F)
    → find_axis ops 4 0 k v s ≡ named ops k v s
unfolding find_axis
find_axis_lem ops k v s = ground arith

-- A value that is not negative and a number from 100 on: the number's tens above 100 name one of the
-- four axis settings and its units one of the three axes, that cell is stored and the settings are
-- written; any other number is refused.
pub axis_number :
    {F : Type 0} (ops : FloatOps F) (parameter : ℕ) (v : F) (s : Settings F)
    → ops.is_negative v ≡ false
    → 100 ≤ parameter
    → settings_store_global_setting ops parameter v s ≡ named ops (parameter - 100) v s
unfolding settings_store_global_setting
axis_number ops parameter v s sign h =
    if_cases (λ r. r ≡ named ops (parameter - 100) v s) (ops.is_negative v) negative_value _
      (λ e. absurd (false≢true (sym sign ∙ e)))
      (λ _.
        if_cases (λ r. r ≡ named ops (parameter - 100) v s) (leb 100 parameter)
          (find_axis ops 4 0 (parameter - 100) v s) _ (λ _. find_axis_lem ops (parameter - 100) v s)
          (λ e. absurd (ground arith)))
