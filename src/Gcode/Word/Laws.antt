-- ===== src/Gcode/Word/Laws.antt =====
-- What an accepted block guarantees about its words.
use grbl_mega_plasma.Prelude.{
  ℕ, ◌≡◌, sym, ap, subst, ◌∙◌, arith, Bool, true, false, ◌&&◌, ◌==◌, ==_iff, if_cases, Option, none,
  some, List, [], ◌∷◌, if◌then◌else◌,
}
use grbl_mega_plasma.Gcode.{
  Result, fail, ok, Block, Bits, set_bit, gcode_max_value_exceeded, gcode_word_repeated,
  negative_value,
}
use grbl_mega_plasma.Gcode.Command.Groups.{g_group, m_group, Marks}
use grbl_mega_plasma.Gcode.Word.{
  FloatOps, Parser, Letter, t_word, word_index, letter_case, must_be_positive, mark_axes,
  value_word, ends_line,
}

-- What a word must be alone in its block for: its modal group, or its letter.
pub data Key : Type 0 where
  group letter : ℕ → Key

abbrev pub same_key : Key → Key → Bool
same_key (group a) (group b) = a == b
same_key (letter a) (letter b) = a == b
same_key _ _ = false

abbrev pub map_key : (ℕ → Key) → Option ℕ → Option Key
map_key f none = none
map_key f (some n) = some (f n)

-- The key of a word with a number. M words that have no modal group have none.
unfoldable pub key_of {ℓ} : {F : Type ℓ} → FloatOps F → ℕ → F → Option Key
unfolding m_group g_group letter_case
key_of ops c v =
    if c == b'G'
    then some (group (g_group (ops.trunc v) (ops.hundredths v (ops.trunc v) == 0)))
    else if c == b'M'
    then map_key group (m_group (ops.trunc v))
    else elim (letter_case c) [ none ↦ none | some w ↦ some (letter (word_index w)) ]

abbrev pub put_key : Option Key → List Key → List Key
put_key none ks = ks
put_key (some k) ks = k ∷ ks

-- The keys of the words that are read, up to an M command that takes the rest of the line.
unfoldable pub keys {ℓ} : {F : Type ℓ} → FloatOps F → List (ℕ × Option F) → List Key
keys ops [] = []
keys ops ((c, none) ∷ ws) = []
keys ops ((c, some v) ∷ ws) =
    let rest = keys ops ws in
    put_key (key_of ops c v) (if ends_line c (ops.trunc v) then [] else rest)

abbrev pub Differs : Key → List Key → Type 0
Differs k [] = Unit {0}
Differs k (x ∷ xs) = (same_key k x ≡ false) × Differs k xs

abbrev pub Distinct : List Key → Type 0
Distinct [] = Unit {0}
Distinct (k ∷ ks) = Differs k ks × Distinct ks

-- The key's bit in the tracking variables.
pub taken : Block → Key → Bool
taken b (group n) = b.command_words n
taken b (letter n) = b.value_words n

pub same_key-taken : (b : Block) (k x : Key) → same_key k x ≡ true → taken b k ≡ taken b x
unfolding taken
same_key-taken b (group m) (group n) e = ap b.command_words ((==_iff m n).0 e)
same_key-taken b (letter m) (letter n) e = ap b.value_words ((==_iff m n).0 e)
same_key-taken b (group m) (letter n) e = absurd cc
same_key-taken b (letter m) (group n) e = absurd cc

-- A word that is accepted: no key is given up, and its own was free and is taken.
pub record Takes (b b1 : Block) (own : Option Key) : Type 0 where
  pub keeps : (k : Key) → taken b k ≡ true → taken b1 k ≡ true
  pub free : (k : Key) → own ≡ some k → taken b k ≡ false
  pub takes : (k : Key) → own ≡ some k → taken b1 k ≡ true

pub set_bit_self : (n : ℕ) (w : Bits) → set_bit n w n ≡ true
set_bit_self n w = ground arith

set_bit_keeps : (n i : ℕ) (w : Bits) → w i ≡ true → set_bit n w i ≡ true
set_bit_keeps n i w h = ground arith

Marks-keeps :
    (b b1 : Block) (g : ℕ) → Marks b b1 g → (k : Key) → taken b k ≡ true → taken b1 k ≡ true
unfolding taken
Marks-keeps b b1 g h (group n) e =
    ap (λ (w : Bits). w n) h.commands ∙ set_bit_keeps g n b.command_words e
Marks-keeps b b1 g h (letter n) e = ap (λ (w : Bits). w n) h.values ∙ e

-- A command without a group.
pub Marks-Takes-none : (b b1 : Block) (g : ℕ) → Marks b b1 g → Takes b b1 none
Marks-Takes-none b b1 g h = record {
  keeps = Marks-keeps b b1 g h;
  free = λ k e. absurd cc;
  takes = λ k e. absurd cc;
}

key_or : Key → Option Key → Key
key_or k none = k
key_or k (some x) = x

same_some : (k x : Key) → some k ≡ some x → k ≡ x
unfolding key_or
same_some k x e = ap (key_or k) e

pub Marks-Takes : (b b1 : Block) (g : ℕ) → Marks b b1 g → Takes b b1 (some (group g))
unfolding taken
Marks-Takes b b1 g h = record {
  keeps = Marks-keeps b b1 g h;
  free = λ k e. subst (λ x. taken b x ≡ false) (same_some (group g) k e) h.clear;
  takes = λ k e.
      subst (λ x. taken b1 x ≡ true) (same_some (group g) k e)
        (ap (λ (w : Bits). w g) h.commands ∙ set_bit_self g b.command_words);
}

mark_axes_lem :
    (w : Letter) (b : Block)
    → ((mark_axes w b).command_words ≡ b.command_words)
      × ((mark_axes w b).value_words ≡ b.value_words)
mark_axes_lem w b = ground arith

-- The block of an accepted value word.
valued : Letter → Block → Block
valued w b =
    let c = mark_axes w (record b { word_bit = word_index w }) in
    record c { value_words = set_bit (word_index w) c.value_words }

valued-Takes :
    (w : Letter) (b : Block)
    → (mark_axes w (record b { word_bit = word_index w })).value_words (word_index w) ≡ false
    → Takes b (valued w b) (some (letter (word_index w)))
unfolding taken valued
valued-Takes w b free = record {
  keeps = keeps;
  free = λ k e.
      subst (λ x. taken b x ≡ false) (same_some own k e)
        (sym (ap (λ (u : Bits). u (word_index w)) kept.1) ∙ free);
  takes = λ k e.
      subst (λ x. taken (valued w b) x ≡ true) (same_some own k e)
        (set_bit_self (word_index w) c.value_words);
}
  where
    c : Block
    c = mark_axes w (record b { word_bit = word_index w })

    own : Key
    own = letter (word_index w)

    kept : (c.command_words ≡ b.command_words) × (c.value_words ≡ b.value_words)
    kept = mark_axes_lem w (record b { word_bit = word_index w })

    keeps : (k : Key) → taken b k ≡ true → taken (valued w b) k ≡ true
    keeps (group n) e = ap (λ (u : Bits). u n) kept.0 ∙ e
    keeps (letter n) e =
        set_bit_keeps (word_index w) n c.value_words (ap (λ (u : Bits). u n) kept.1 ∙ e)

abbrev pub result_or {ℓ} : {A : Type ℓ} → A → Result A → A
result_or d (fail s) = d
result_or d (ok x) = x

-- An accepted value word also has no negative value where its letter forbids one.
pub record Accepts {ℓ} {F : Type ℓ} (ops : FloatOps F) (w : Letter) (v : F) (q q1 : Parser F)
    : Type 0 where
  pub takes : Takes q.block q1.block (some (letter (word_index w)))
  pub sign : (must_be_positive w && ops.is_negative v) ≡ false

pub value_word-Accepts {ℓ} :
    {F : Type ℓ} (ops : FloatOps F) (w : Letter) (v : F) (q q1 : Parser F)
    → value_word ops w v q ≡ ok q1
    → Accepts ops w v q q1
unfolding value_word valued
value_word-Accepts {F} ops w v q q1 =
    let c = mark_axes w (record (q.block) { word_bit = word_index w }) in
    let P : Result (Parser F) → Type ℓ = λ r. r ≡ ok q1 → Accepts ops w v q q1 in
    let tool : Bool = elim w [ t_word ↦ true | _ ↦ false ] in
    if_cases P (tool && ops.exceeds v 255) (fail gcode_max_value_exceeded) _ (λ _ e. absurd cc)
      (λ _.
        if_cases P (c.value_words (word_index w)) (fail gcode_word_repeated) _ (λ _ e. absurd cc)
          (λ free.
            if_cases P (must_be_positive w && ops.is_negative v) (fail negative_value) _
              (λ _ e. absurd cc)
              (λ sign e. record {
                takes =
                    subst (λ (x : Parser F). Takes q.block x.block (some (letter (word_index w))))
                      (ap (result_or q) e) (valued-Takes w q.block free);
                sign = sign;
              })))
