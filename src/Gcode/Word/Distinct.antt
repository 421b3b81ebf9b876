-- ===== src/Gcode/Word/Distinct.antt =====
-- No two words of an accepted block share a modal group or a letter.
use grbl_mega_plasma.Prelude.{
  ℕ, ◌<◌, ◌≡◌, refl, sym, ap, subst, ◌∙◌, false≢true, Bool, true, false, ◌||◌, ◌==◌, ltb, if_cases,
  Bool-cases, inl, inr, ◌⊎◌, Option, none, some, List, [], ◌∷◌, if◌then◌else◌,
}
use grbl_mega_plasma.Gcode.{
  Result, fail, ok, Block, Bits, gcode_unsupported_command, expected_command_letter,
}
use grbl_mega_plasma.Gcode.Command.{g_word, m_word}
use grbl_mega_plasma.Gcode.Command.Groups.{
  g_group, m_group, bit_or, Marks, g_word-Marks, m_word-Marks,
}
use grbl_mega_plasma.Gcode.Word.{
  FloatOps, Parser, Letter, letter_case, word_index, value_word, parse_word, on_block, ends_line,
  parse_words,
}
use grbl_mega_plasma.Gcode.Word.Laws.{
  Key, group, letter, same_key, key_of, map_key, put_key, keys, Differs, Distinct, taken,
  same_key-taken, Takes, set_bit_self, Marks-Takes, Marks-Takes-none, value_word-Accepts, result_or,
}

-- A block that a command word leads to.
on_block-Takes {ℓ} :
    {F : Type ℓ} (q q1 : Parser F) (own : Option Key) (o : Result Block)
    → on_block q o ≡ ok q1
    → ((b : Block) → o ≡ ok b → Takes q.block b own)
    → Takes q.block q1.block own
on_block-Takes q q1 own (fail s) e h = absurd cc
on_block-Takes q q1 own (ok b) e h =
    subst (λ x. Takes q.block x.block own) (ap (result_or q) e) (h b refl)

m_own :
    (b b1 : Block) (g : Option ℕ) → Marks b b1 (bit_or b.word_bit g) → Takes b b1 (map_key group g)
m_own b b1 none h = Marks-Takes-none b b1 b.word_bit h
m_own b b1 (some g) h = Marks-Takes b b1 g h

letter_own {ℓ} :
    {F : Type ℓ} (ops : FloatOps F) (v : F) (q q1 : Parser F) (o : Option Letter)
    → (elim o [ none ↦ fail gcode_unsupported_command | some w ↦ value_word ops w v q ]) ≡ ok q1
    → Takes q.block q1.block (elim o [ none ↦ none | some w ↦ some (letter (word_index w)) ])
letter_own ops v q q1 none e = absurd cc
letter_own ops v q q1 (some w) e = (value_word-Accepts ops w v q q1 e).takes

parse_word-Takes {ℓ} :
    {F : Type ℓ} (ops : FloatOps F) (outcome : ℕ → ℕ) (c : ℕ) (v : F) (q q1 : Parser F)
    → ops.trunc v < 256
    → parse_word ops outcome c v q ≡ ok q1
    → Takes q.block q1.block (key_of ops c v)
unfolding parse_word key_of
parse_word-Takes {F} ops outcome c v q q1 small = go (c == b'G') (c == b'M')
  where
    n : ℕ
    n = ops.trunc v

    m : ℕ
    m = ops.hundredths v n

    go :
        (is_g is_m : Bool)
        → (if is_g
            then on_block q (g_word n m q.block)
            else if is_m
            then on_block q (m_word outcome n m q.block)
            else elim (letter_case c) [
              | none ↦ fail gcode_unsupported_command
              | some w ↦ value_word ops w v q
            ])
          ≡ ok q1
        → Takes q.block q1.block (
            if is_g
            then some (group (g_group n (m == 0)))
            else if is_m
            then map_key group (m_group n)
            else elim (letter_case c) [ none ↦ none | some w ↦ some (letter (word_index w)) ])
    go true is_m e =
        on_block-Takes q q1 _ (g_word n m q.block) e
          (λ b k. Marks-Takes q.block b (g_group n (m == 0)) (g_word-Marks n m q.block b small k))
    go false true e =
        on_block-Takes q q1 _ (m_word outcome n m q.block) e
          (λ b k. m_own q.block b (m_group n) (m_word-Marks outcome n m q.block b k))
    go false false e = letter_own ops v q q1 (letter_case c) e

-- The keys of the words from a point on differ from every key that is taken there, and from each
-- other.
record Follows (b : Block) (ks : List Key) : Type 0 where
  apart : (k : Key) → taken b k ≡ true → Differs k ks
  distinct : Distinct ks

none_follow : (b : Block) → Follows b []
none_follow b = record { apart = λ k h. tt; distinct = tt }

put_Follows :
    (b b1 : Block) (own : Option Key) (ks : List Key)
    → Takes b b1 own
    → Follows b1 ks
    → Follows b (put_key own ks)
put_Follows b b1 none ks h f = record {
  apart = λ k t. f.apart k (h.keeps k t);
  distinct = f.distinct;
}
put_Follows b b1 (some x) ks h f = record {
  apart = λ k t. (differs k t (Bool-cases (same_key k x)), f.apart k (h.keeps k t));
  distinct = (f.apart x (h.takes x refl), f.distinct);
}
  where
    differs :
        (k : Key)
        → taken b k ≡ true
        → (same_key k x ≡ true) ⊎ (same_key k x ≡ false)
        → same_key k x ≡ false
    differs k t (inl same) =
        absurd (false≢true (sym (h.free x refl) ∙ sym (same_key-taken b k x same) ∙ t))
    differs k t (inr other) = other

parse_words-Follows {ℓ} :
    {F : Type ℓ} (ops : FloatOps F) (outcome : ℕ → ℕ) (ws : List (ℕ × Option F)) (q q1 : Parser F)
    → ((v : F) → ops.trunc v < 256)
    → parse_words ops outcome ws q ≡ ok q1
    → Follows q.block (keys ops ws)
unfolding parse_words keys
parse_words-Follows ops outcome [] q q1 small e = none_follow q.block
parse_words-Follows ops outcome ((c, none) ∷ ws) q q1 small e = none_follow q.block
parse_words-Follows {F} ops outcome ((c, some v) ∷ ws) q q1 small accepted =
    if_cases (λ r. r ≡ ok q1 → Follows q.block own_and_rest) (ltb c b'A' || ltb b'Z' c)
      (fail expected_command_letter) _ (λ _ e. absurd cc)
      (λ _.
        go (λ q2. parse_words-Follows ops outcome ws q2 q1 small) (parse_word ops outcome c v q)
          refl)
      accepted
  where
    ends : Bool
    ends = ends_line c (ops.trunc v)

    own_and_rest : List Key
    own_and_rest = put_key (key_of ops c v) (if ends then [] else keys ops ws)

    Tail : Type ℓ
    Tail = (q2 : Parser F) → parse_words ops outcome ws q2 ≡ ok q1 → Follows q2.block (keys ops ws)

    rest :
        (is_last : Bool) (q2 : Parser F)
        → Tail
        → (if is_last then ok q2 else parse_words ops outcome ws q2) ≡ ok q1
        → Follows q2.block (if is_last then [] else keys ops ws)
    rest true q2 tail e = none_follow q2.block
    rest false q2 tail e = tail q2 e

    go :
        Tail
        → (o : Result (Parser F)) → parse_word ops outcome c v q ≡ o
        → (elim o [
          | fail s ↦ fail s
          | ok q2 ↦ if ends then ok q2 else parse_words ops outcome ws q2
        ])
          ≡ ok q1
        → Follows q.block own_and_rest
    go tail (fail s) k e = absurd cc
    go tail (ok q2) k e =
        put_Follows q.block q2.block (key_of ops c v) _
          (parse_word-Takes ops outcome c v q q2 (small v) k) (rest ends q2 tail e)

-- If a block's words are accepted, then no two of its G and M words belong to the same modal group,
-- and no letter gives a value twice. An M command that takes the rest of the line ends the block,
-- and the M commands without a modal group are not counted. The integer part of a number is a byte.
pub accepted-Distinct {ℓ} :
    {F : Type ℓ} (ops : FloatOps F) (outcome : ℕ → ℕ) (ws : List (ℕ × Option F)) (q q1 : Parser F)
    → ((v : F) → ops.trunc v < 256)
    → parse_words ops outcome ws q ≡ ok q1
    → Distinct (keys ops ws)
accepted-Distinct ops outcome ws q q1 small e =
    (parse_words-Follows ops outcome ws q q1 small e).distinct

-- An M command without a modal group (M17, M18, M42, M219, M226 to M233) is never accepted behind
-- an accepted G command: it is marked in the G command's group, which is taken.
pub plasma_refused :
    (outcome : ℕ → ℕ) (n m k h : ℕ) (b b1 b2 : Block)
    → n < 256
    → g_word n m b ≡ ok b1
    → m_group k ≡ none
    → ¬ m_word outcome k h b1 ≡ ok b2
plasma_refused outcome n m k h b b1 b2 small e no_group accepted =
    let g = g_group n (m == 0) in
    let first = g_word-Marks n m b b1 small e in
    let second : Marks b1 b2 (bit_or b1.word_bit none) =
      subst (λ o. Marks b1 b2 (bit_or b1.word_bit o)) no_group
        (m_word-Marks outcome k h b1 b2 accepted) in
    let marked : b1.command_words b1.word_bit ≡ true =
      ap (λ (i : ℕ). b1.command_words i) first.bit
      ∙ ap (λ (w : Bits). w g) first.commands
      ∙ set_bit_self g b.command_words in
    false≢true (sym second.clear ∙ marked)
