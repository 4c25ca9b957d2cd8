-- ===== src/Gdb/Scanner/Tables/Rules.antt =====
-- The tables of scanner.c against the rules of scanner.l.
use arm_reimplementation.Base.{
  ℕ, suc, ◌+◌, ◌≡◌, refl, ap, ap₂, ◌∙◌, Bool, true, false, Option, none, some, List, [], ◌∷◌, ◌==◌,
  ◌&&◌, get_or, length, All, if◌then◌else◌, arith,
}
use arm_reimplementation.Runtime.Bytes.{IsByte}
use arm_reimplementation.Gdb.Scanner.{is_hex, match_digits, match_content, prepend}
use arm_reimplementation.Gdb.Scanner.Tables.{
  yy_accept, yy_base, yy_next, Match, Accepting, find_action, note_accepting, yy_match,
}
use arm_reimplementation.Gdb.Scanner.Tables.Classes.{yy_next-6, yy_next-9, yy_next-10, yy_next-11}

-- Where a step leads: the loop ends there or goes on.
unfoldable pub arrive : List ℕ → ℕ → ℕ → Accepting → Match
arrive cs next n last =
    if get_or yy_base next 0 == 14 then find_action next n last else yy_match cs next n last

pub match_round :
    (c : ℕ) (cs : List ℕ) (state n : ℕ) (last : Accepting)
    → yy_match (c ∷ cs) state n last
      ≡ arrive cs (yy_next state c) (n + 1) (note_accepting state n last)
unfolding arrive yy_match
match_round c cs state n last = refl

-- The `$` alone, to which the scanner backs up.
abbrev pub dollar : Accepting
dollar = record { state = 6; size = 1 }

abbrev pub rule_at : ℕ → ℕ → Match
rule_at rule size = record { rule = rule; size = size }

module _ (cs : List ℕ) (n : ℕ) (last : Accepting) where
  pub arrive-ends :
      (arrive cs 12 n last ≡ rule_at 3 n)
      × (arrive cs 4 n last ≡ rule_at 4 n)
      × (arrive cs 5 n last ≡ rule_at 5 n)
      × (arrive cs 7 n last ≡ rule_at 1 n)
      × (arrive cs 8 n last ≡ rule_at 2 n)
      × (arrive cs 13 n dollar ≡ rule_at 4 1)
  unfolding arrive yy_base find_action yy_accept
  arrive-ends = (refl, refl, refl, refl, refl, refl)

  pub arrive_on :
      (arrive cs 6 n last ≡ yy_match cs 6 n last)
      × (arrive cs 9 n last ≡ yy_match cs 9 n last)
      × (arrive cs 10 n last ≡ yy_match cs 10 n last)
      × (arrive cs 11 n last ≡ yy_match cs 11 n last)
  unfolding arrive yy_base
  arrive_on = (refl, refl, refl, refl)

-- What the states behind `$` have noted.
noted :
    (n : ℕ)
    → (note_accepting 9 n dollar ≡ dollar)
      × (note_accepting 10 n dollar ≡ dollar)
      × (note_accepting 11 n dollar ≡ dollar)
unfolding note_accepting yy_accept
noted n = (refl, refl, refl)

noted_first : (last : Accepting) → note_accepting 6 1 last ≡ dollar
unfolding note_accepting yy_accept
noted_first last = refl

at_end :
    (n : ℕ) (last : Accepting)
    → (yy_match [] 6 1 last ≡ rule_at 4 1)
      × (yy_match [] 9 n dollar ≡ rule_at 4 1)
      × (yy_match [] 10 n dollar ≡ rule_at 4 1)
      × (yy_match [] 11 n dollar ≡ rule_at 4 1)
unfolding yy_match find_action yy_accept
at_end n last = (refl, refl, refl, refl)

-- The match for what the rule finds behind `n` bytes.
unfoldable pub found : ℕ → Option (List ℕ × List ℕ) → Match
found n none = rule_at 4 1
found n (some (text, rest)) = rule_at 3 (n + length text)

second_digit :
    (b : ℕ) (cs : List ℕ) (n : ℕ)
    → IsByte b
    → yy_match (b ∷ cs) 11 n dollar ≡ (if is_hex b then rule_at 3 (n + 1) else rule_at 4 1)
second_digit b cs n h =
    match_round b cs 11 n dollar
    ∙ ap₂ (λ s l. arrive cs s (n + 1) l) (yy_next-11 b h) (noted n).2
    ∙ elim (is_hex b)
        as (λ t.
          arrive cs (if t then 12 else 13) (n + 1) dollar
          ≡ (if t then rule_at 3 (n + 1) else rule_at 4 1)) [
            | true ↦ (arrive-ends cs (n + 1) dollar).0
            | false ↦ (arrive-ends cs (n + 1) dollar).5
          ]

lone_digit : (x : Bool) (n : ℕ) → arrive [] (if x then 11 else 13) n dollar ≡ rule_at 4 1
lone_digit true n = (arrive_on [] n dollar).3 ∙ (at_end n dollar).3
lone_digit false n = (arrive-ends [] n dollar).5

both_digits :
    (x y : Bool) (a b : ℕ) (cs : List ℕ) (n : ℕ)
    → yy_match (b ∷ cs) 11 (n + 1 + 1) dollar
      ≡ (if y then rule_at 3 (n + 1 + 1 + 1) else rule_at 4 1)
    → arrive (b ∷ cs) (if x then 11 else 13) (n + 1 + 1) dollar
      ≡ found n (if x && y then some (b'#' ∷ a ∷ b ∷ [], cs) else none)
unfolding found
both_digits true true a b cs n second =
    let e : n + 1 + 1 + 1 ≡ n + 3 = omega arith in
    (arrive_on (b ∷ cs) (n + 1 + 1) dollar).3 ∙ second ∙ ap (rule_at 3) e
both_digits true false a b cs n second = (arrive_on (b ∷ cs) (n + 1 + 1) dollar).3 ∙ second
both_digits false y a b cs n second = (arrive-ends (b ∷ cs) (n + 1 + 1) dollar).5

two_digits :
    (cs : List ℕ) (n : ℕ)
    → All IsByte cs
    → yy_match cs 10 (n + 1) dollar ≡ found n (match_digits cs)
unfolding match_digits found
two_digits [] n h = (at_end (n + 1) dollar).2
two_digits (a ∷ []) n h =
    match_round a [] 10 (n + 1) dollar
    ∙ ap₂ (λ s l. arrive [] s (n + 1 + 1) l) (yy_next-10 a h.0) (noted (n + 1)).1
    ∙ lone_digit (is_hex a) (n + 1 + 1)
two_digits (a ∷ b ∷ cs) n h =
    match_round a (b ∷ cs) 10 (n + 1) dollar
    ∙ ap₂ (λ s l. arrive (b ∷ cs) s (n + 1 + 1) l) (yy_next-10 a h.0) (noted (n + 1)).1
    ∙ both_digits (is_hex a) (is_hex b) a b cs n (second_digit b cs (n + 1 + 1) h.1.0)

found-prepend : (c n : ℕ) (m : Option (List ℕ × List ℕ)) → found (n + 1) m ≡ found n (prepend c m)
unfolding found
found-prepend c n none = refl
found-prepend c n (some (text, rest)) =
    let e : n + 1 + length text ≡ n + suc (length text) = omega arith in ap (rule_at 3) e

-- A byte of the content, from the tests that the rule makes of it.
content_byte :
    (x y : Bool) (c : ℕ) (cs : List ℕ) (n : ℕ)
    → yy_match cs 10 (n + 1) dollar ≡ found n (match_digits cs)
    → yy_match cs 9 (n + 1) dollar ≡ found (n + 1) (match_content cs)
    → arrive cs (if x then 10 else if y then 13 else 9) (n + 1) dollar
      ≡ found n (if x then match_digits cs else if y then none else prepend c (match_content cs))
unfolding found
content_byte true y c cs n digits more = (arrive_on cs (n + 1) dollar).2 ∙ digits
content_byte false true c cs n digits more = (arrive-ends cs (n + 1) dollar).5
content_byte false false c cs n digits more =
    (arrive_on cs (n + 1) dollar).1 ∙ more ∙ found-prepend c n (match_content cs)

inside : (cs : List ℕ) (n : ℕ) → All IsByte cs → yy_match cs 9 n dollar ≡ found n (match_content cs)
unfolding match_content found
inside [] n h = (at_end n dollar).1
inside (c ∷ cs) n h =
    match_round c cs 9 n dollar
    ∙ ap₂ (λ s l. arrive cs s (n + 1) l) (yy_next-9 c h.0) (noted n).0
    ∙ content_byte (c == b'#') (c == b'$') c cs n (two_digits cs n h.1) (inside cs (n + 1) h.1)

pub behind_dollar :
    (cs : List ℕ) (last : Accepting)
    → All IsByte cs
    → yy_match cs 6 1 last ≡ found 1 (match_content cs)
unfolding match_content found
behind_dollar [] last h = (at_end 0 last).0
behind_dollar (c ∷ cs) last h =
    match_round c cs 6 1 last
    ∙ ap₂ (λ s l. arrive cs s 2 l) (yy_next-6 c h.0) (noted_first last)
    ∙ content_byte (c == b'#') (c == b'$') c cs 1 (two_digits cs 1 h.1) (inside cs 2 h.1)
