-- ===== src/Gdb/Scanner/Tables/Tokens.antt =====
-- Tokens by the tables and tokens by the rules.
use arm_reimplementation.Base.{
  ℕ, suc, ◌+◌, ◌≡◌, refl, sym, ap, ◌∙◌, Bool, true, false, Option, none, some, List, [], ◌∷◌, ◌++◌,
  ◌==◌, ◌&&◌, length, take, drop, All, take-append_self, drop-append_self, if◌then◌else◌, arith,
  ==_iff, subst,
}
use arm_reimplementation.Runtime.Bytes.{IsByte}
use arm_reimplementation.Gdb.Scanner.{
  Token, plus, minus, packet, other, newline, is_hex, match_digits, match_content, prepend,
  next_token,
}
use arm_reimplementation.Gdb.Scanner.Tables.{
  Match, Accepting, note_accepting, match_token, token_of, yy_token,
}
use arm_reimplementation.Gdb.Scanner.Tables.Classes.{yy_next-1}
use arm_reimplementation.Gdb.Scanner.Tables.Rules.{
  arrive, match_round, arrive-ends, arrive_on, found, behind_dollar,
}

if_when :
    {A : Type 0} (P : A → Type 0) (b : Bool) (x y : A)
    → (b ≡ true → P x)
    → P y
    → P (if b then x else y)
if_when P true x y h k = h refl
if_when P false x y h k = k

-- The text that a rule finds and the rest are the input.
IsSplit : List ℕ → Option (List ℕ × List ℕ) → Type 0
IsSplit input none = Unit {0}
IsSplit input (some (text, rest)) = input ≡ text ++ rest

match_digits-IsSplit : (cs : List ℕ) → IsSplit (b'#' ∷ cs) (match_digits cs)
unfolding match_digits IsSplit
match_digits-IsSplit [] = tt
match_digits-IsSplit (a ∷ []) = tt
match_digits-IsSplit (a ∷ b ∷ cs) =
    if_when (IsSplit (b'#' ∷ a ∷ b ∷ cs)) (is_hex a && is_hex b) _ _ (λ e. refl) tt

prepend-IsSplit :
    (c : ℕ) (cs : List ℕ) (m : Option (List ℕ × List ℕ))
    → IsSplit cs m
    → IsSplit (c ∷ cs) (prepend c m)
unfolding IsSplit
prepend-IsSplit c cs none h = tt
prepend-IsSplit c cs (some (text, rest)) h = ap (λ (t : List ℕ). c ∷ t) h

match_content-IsSplit : (cs : List ℕ) → IsSplit cs (match_content cs)
unfolding match_content IsSplit
match_content-IsSplit [] = tt
match_content-IsSplit (c ∷ cs) =
    if_when (IsSplit (c ∷ cs)) (c == b'#') _ _
      (λ e.
        subst (λ x. IsSplit (x ∷ cs) (match_digits cs)) (sym ((==_iff c b'#').0 e))
          (match_digits-IsSplit cs))
      (if_when (IsSplit (c ∷ cs)) (c == b'$') _ _ (λ e. tt)
        (prepend-IsSplit c cs (match_content cs) (match_content-IsSplit cs)))

-- A token from a match.
token_from : List ℕ → Match → Token × List ℕ
token_from input m = (token_of m.rule (take m.size input), drop m.size input)

framed : ℕ → List ℕ → Option (List ℕ × List ℕ) → Token × List ℕ
framed c cs none = (other c, cs)
framed c cs (some (text, rest)) = (packet (c ∷ text), rest)

token_from-found :
    (c : ℕ) (cs : List ℕ) (m : Option (List ℕ × List ℕ))
    → IsSplit cs m
    → token_from (c ∷ cs) (found 1 m) ≡ framed c cs m
unfolding token_from token_of found framed IsSplit
token_from-found c cs none h = refl
token_from-found c cs (some (text, rest)) h =
    let e : 1 + length text ≡ suc (length text) = omega arith in
    (λ i. (packet (take (e i) (c ∷ cs)), drop (e i) (c ∷ cs)))
    ∙ (λ i. (packet (c ∷ take (length text) (h i)), drop (length text) (h i)))
    ∙ (λ i. (packet (c ∷ take-append_self text rest i), drop-append_self text rest i))

-- A first byte, from the tests that the rules make of it.
first_byte :
    (a b d e : Bool) (c : ℕ) (cs : List ℕ) (last : Accepting)
    → All IsByte cs
    → token_from
        (c ∷ cs)
        (arrive cs (if a then 5 else if b then 6 else if d then 7 else if e then 8 else 4) 1 last)
      ≡ (if a
          then (newline, cs)
          else if b
          then framed c cs (match_content cs)
          else if d
          then (plus, cs)
          else if e
          then (minus, cs)
          else (other c, cs))
unfolding token_from token_of
first_byte true b d e c cs last h = ap (token_from (c ∷ cs)) (arrive-ends cs 1 last).2
first_byte false true d e c cs last h =
    ap (token_from (c ∷ cs)) ((arrive_on cs 1 last).0 ∙ behind_dollar cs last h)
    ∙ token_from-found c cs (match_content cs) (match_content-IsSplit cs)
first_byte false false true e c cs last h = ap (token_from (c ∷ cs)) (arrive-ends cs 1 last).3
first_byte false false false true c cs last h = ap (token_from (c ∷ cs)) (arrive-ends cs 1 last).4
first_byte false false false false c cs last h = ap (token_from (c ∷ cs)) (arrive-ends cs 1 last).1

framed_elim :
    (c : ℕ) (cs : List ℕ) (m : Option (List ℕ × List ℕ))
    → framed c cs m ≡ elim m as (λ x. Token × List ℕ) [
      | none ↦ (other c, cs)
      | some (content, rest) ↦ (packet (c ∷ content), rest)
    ]
unfolding framed
framed_elim c cs none = refl
framed_elim c cs (some (text, rest)) = refl

-- The order of the tests does not matter.
tests_agree :
    (c : ℕ) (cs : List ℕ)
    → (if c == 10
        then (newline, cs)
        else if c == b'$'
        then framed c cs (match_content cs)
        else if c == b'+'
        then (plus, cs)
        else if c == b'-'
        then (minus, cs)
        else (other c, cs))
      ≡ next_token c cs
unfolding next_token
tests_agree c cs = let same = framed_elim c cs (match_content cs) in ground arith

-- The tables and the rules find the same token at the front of bytes, and leave the same rest.
pub yy_token_lem : (c : ℕ) (cs : List ℕ) → All IsByte (c ∷ cs) → yy_token (c ∷ cs) ≡ next_token c cs
unfolding yy_token match_token token_from
yy_token_lem c cs h =
    ap (token_from (c ∷ cs)) (
      match_round c cs 1 0 start
      ∙ ap (λ s. arrive cs s 1 (note_accepting 1 0 start)) (yy_next-1 c h.0))
    ∙ first_byte (c == 10) (c == b'$') (c == b'+') (c == b'-') c cs (note_accepting 1 0 start) h.1
    ∙ tests_agree c cs
  where
    start : Accepting
    start = record { state = 0; size = 0 }
