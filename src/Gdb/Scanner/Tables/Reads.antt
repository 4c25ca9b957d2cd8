-- ===== src/Gdb/Scanner/Tables/Reads.antt =====
-- A token whose bytes come in several reads.
use arm_reimplementation.Base.{
  ℕ, ◌+◌, ◌≡◌, ◌≢◌, refl, sym, ap, ◌∙◌, Bool, true, false, List, [], ◌∷◌, ◌++◌, append_assoc, ◌==◌,
  ==_iff, get_or, length, All, Bool-cases, inl, inr, if◌then◌else◌, arith,
}
use arm_reimplementation.Gdb.Scanner.Tables.{
  yy_base, yy_accept, yy_chk, yy_def, yy_meta, yy_nxt, yy_step, yy_next, Match, Accepting,
  find_action, note_accepting, yy_match, yy_get_previous_state, match_token, ends_in, scan_reads,
}
use arm_reimplementation.Gdb.Scanner.Tables.Refill.{GoesOn, refill}

-- All that is read.
unfoldable pub joined : List (List ℕ) → List ℕ
joined [] = []
joined (r ∷ reads) = r ++ joined reads

-- The null byte behind the buffer, of class 0, leads from each state in which the match goes on to
-- the state 3, which accepts `YY_END_OF_BUFFER`.
end_of_buffer_seen :
    (yy_step 3 1 0 ≡ 3)
    × (yy_step 3 6 0 ≡ 3)
    × (yy_step 3 9 0 ≡ 3)
    × (yy_step 3 10 0 ≡ 3)
    × (yy_step 3 11 0 ≡ 3)
    × (get_or yy_accept 3 0 ≡ 6)
unfolding yy_step yy_chk yy_base yy_def yy_meta yy_nxt yy_accept
end_of_buffer_seen = (refl, refl, refl, refl, refl, refl)

at_start : Accepting
at_start = record { state = 0; size = 0 }

ends_in-GoesOn : (text : List ℕ) (state : ℕ) → ends_in text state ≡ false → GoesOn text state
unfolding ends_in GoesOn
ends_in-GoesOn [] state h = tt
ends_in-GoesOn (c ∷ cs) state h = elim (Bool-cases (get_or yy_base (yy_next state c) 0 == 14)) [
  | inl ends ↦ absurd (cc ((λ i. if sym ends i then true else ends_in cs (yy_next state c)) ∙ h))
  | inr on ↦ (
    (λ e. cc (on, (==_iff (get_or yy_base (yy_next state c) 0) 14).1 e)),
    ends_in-GoesOn cs (yy_next state c)
        ((λ i. if sym on i then true else ends_in cs (yy_next state c)) ∙ h),
  )
]

GoesOn-append :
    (text more : List ℕ) (state n : ℕ) (last : Accepting)
    → GoesOn text state
    → GoesOn more (yy_get_previous_state text state n last).0
    → GoesOn (text ++ more) state
unfolding GoesOn yy_get_previous_state
GoesOn-append [] more state n last h k = k
GoesOn-append (c ∷ cs) more state n last h k =
    (h.0, GoesOn-append cs more (yy_next state c) (n + 1) (note_accepting state n last) h.1 k)

-- What comes behind the end of a token does not matter to it.
yy_match-append :
    (text more : List ℕ) (state n : ℕ) (last : Accepting)
    → ends_in text state ≡ true
    → yy_match (text ++ more) state n last ≡ yy_match text state n last
unfolding ends_in yy_match
yy_match-append [] more state n last h = cc h
yy_match-append (c ∷ cs) more state n last h =
    elim (Bool-cases (get_or yy_base (yy_next state c) 0 == 14)) [
      | inl ends ↦
          (λ i. if ends i then taken else yy_match (cs ++ more) (yy_next state c) (n + 1) noted)
          ∙ (λ i. if sym ends i then taken else yy_match cs (yy_next state c) (n + 1) noted)
      | inr on ↦
          let ih =
            yy_match-append cs more (yy_next state c) (n + 1) noted
              ((λ i. if sym on i then true else ends_in cs (yy_next state c)) ∙ h) in
          (λ i. if on i then taken else ih i)
          ∙ (λ i. if sym on i then taken else yy_match cs (yy_next state c) (n + 1) noted)
    ]
  where
    noted : Accepting
    noted = note_accepting state n last

    taken : Match
    taken = find_action (yy_next state c) (n + 1) noted

-- A round, with the state of the text at hand.
module _ (text r : List ℕ) (reads : List (List ℕ)) (on : GoesOn text 1) where
  state : ℕ
  state = (yy_get_previous_state text 1 0 at_start).0

  last : Accepting
  last = (yy_get_previous_state text 1 0 at_start).1

  whole :
      match_token (text ++ (r ++ joined reads))
      ≡ yy_match (r ++ joined reads) state (length text) last
  unfolding match_token at_start state last
  whole =
      let e : 0 + length text ≡ length text = omega arith in
      refill text (r ++ joined reads) 1 0 at_start on
      ∙ ap (λ n. yy_match (r ++ joined reads) state n last) e

  one_read :
      ((b : Bool)
        → ends_in r state ≡ b
        → b ≡ false
        → scan_reads (text ++ r) reads ≡ match_token ((text ++ r) ++ joined reads))
      → (b : Bool) → ends_in r state ≡ b
      → (if b then yy_match r state (length text) last else scan_reads (text ++ r) reads)
        ≡ match_token (text ++ (r ++ joined reads))
  one_read further true e =
      sym (yy_match-append r (joined reads) state (length text) last e) ∙ sym whole
  one_read further false e =
      further false e refl ∙ ap match_token (append_assoc text r (joined reads))

-- At the end of the file, the text is the token's.
at_end_of_file :
    (text : List ℕ)
    → GoesOn text 1
    → find_action
        (yy_get_previous_state text 1 0 at_start).0
        (length text)
        (yy_get_previous_state text 1 0 at_start).1
      ≡ match_token (text ++ [])
unfolding match_token yy_match at_start
at_end_of_file text on =
    let e : length text ≡ 0 + length text = omega arith in
    ap
      (λ n.
        find_action (yy_get_previous_state text 1 0 at_start).0 n
          (yy_get_previous_state text 1 0 at_start).1)
      e
    ∙ sym (refill text [] 1 0 at_start on)

-- However the reads cut the input, the match that goes through the end of the buffer is the match of
-- the whole. The reads are not empty, and the text so far is one that no token ends in.
pub scan_reads-match_token :
    (reads : List (List ℕ)) (text : List ℕ)
    → All (λ r. r ≢ []) reads
    → GoesOn text 1
    → scan_reads text reads ≡ match_token (text ++ joined reads)
unfolding scan_reads joined at_start state last
scan_reads-match_token [] text full on = at_end_of_file text on
scan_reads-match_token ([] ∷ reads) text full on = absurd (full.0 refl)
scan_reads-match_token ((c ∷ cs) ∷ reads) text full on =
    one_read text (c ∷ cs) reads on
      (λ b e f. scan_reads-match_token reads (text ++ (c ∷ cs)) full.1 (
        GoesOn-append text (c ∷ cs) 1 0 at_start on
          (ends_in-GoesOn (c ∷ cs) (yy_get_previous_state text 1 0 at_start).0 (e ∙ f))))
      (ends_in (c ∷ cs) (yy_get_previous_state text 1 0 at_start).0) refl
