-- ===== src/Gdb/Scanner/Tables/Refill.antt =====
-- A token that the end of the buffer cuts in two.
use arm_reimplementation.Base.{
  ℕ, suc, ◌+◌, ◌≡◌, ◌≢◌, ap, ◌∙◌, false, List, [], ◌∷◌, ◌++◌, ◌==◌, get_or, length, arith,
  if◌then◌else◌,
}
use arm_reimplementation.Gdb.Scanner.Tables.{
  yy_base, yy_next, Accepting, find_action, note_accepting, yy_match, yy_get_previous_state,
}

-- No byte of the text ends the token.
unfoldable pub GoesOn : List ℕ → ℕ → Type 0
GoesOn [] state = Unit {0}
GoesOn (c ∷ cs) state = (get_or yy_base (yy_next state c) 0 ≢ 14) × GoesOn cs (yy_next state c)

one_byte :
    (c : ℕ) (rest : List ℕ) (state n : ℕ) (last : Accepting)
    → get_or yy_base (yy_next state c) 0 ≢ 14
    → yy_match (c ∷ rest) state n last
      ≡ yy_match rest (yy_next state c) (n + 1) (note_accepting state n last)
unfolding yy_match
one_byte c rest state n last h = λ i.
    if differs i
    then find_action (yy_next state c) (n + 1) (note_accepting state n last)
    else yy_match rest (yy_next state c) (n + 1) (note_accepting state n last)
  where
    differs : (get_or yy_base (yy_next state c) 0 == 14) ≡ false
    differs = ground arith

-- A match that goes on from the state that `yy_get_previous_state` finds for the text before the
-- end of the buffer is the match of the whole, however the input is cut; the text is one that no
-- token ends in.
pub refill :
    (text more : List ℕ) (state n : ℕ) (last : Accepting)
    → GoesOn text state
    → yy_match (text ++ more) state n last
      ≡ yy_match more
          (yy_get_previous_state text state n last).0
          (n + length text)
          (yy_get_previous_state text state n last).1
unfolding GoesOn yy_get_previous_state
refill [] more state n last h =
    let e : n ≡ n + 0 = omega arith in ap (λ k. yy_match more state k last) e
refill (c ∷ cs) more state n last h =
    one_byte c (cs ++ more) state n last h.0
    ∙ refill cs more (yy_next state c) (n + 1) (note_accepting state n last) h.1
    ∙ ap
        (λ k.
          yy_match more
            (yy_get_previous_state cs (yy_next state c) (n + 1) (note_accepting state n last)).0 k
            (yy_get_previous_state cs (yy_next state c) (n + 1) (note_accepting state n last)).1)
        length_step
  where
    length_step : n + 1 + length cs ≡ n + suc (length cs)
    length_step = omega arith
