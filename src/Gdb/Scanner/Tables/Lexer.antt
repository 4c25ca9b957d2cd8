-- ===== src/Gdb/Scanner/Tables/Lexer.antt =====
-- `yylex` by the tables against the scanner by the rules.
use arm_reimplementation.Base.{
  ℕ, zero, suc, ◌≡◌, refl, sym, ◌∙◌, Option, none, some, List, [], ◌∷◌, All, drop, subst,
}
use arm_reimplementation.Runtime.Bytes.{IsByte}
use arm_reimplementation.Runtime.Io.{Run, Outcome, ok, exits, fault, ◌>>=◌, ◌>>◌, pure}
use arm_reimplementation.Gdb.Packet.{Link, Writer}
use arm_reimplementation.Gdb.Scanner.{Answer, end_of_file, next_token, handle_error, act, scan}
use arm_reimplementation.Gdb.Scanner.Keeps.{Keeps, act-Keeps}
use arm_reimplementation.Gdb.Scanner.Tables.{match_token, yy_token, yylex}
use arm_reimplementation.Gdb.Scanner.Tables.Tokens.{yy_token_lem}

drop-All : (P : ℕ → Type 0) (n : ℕ) (xs : List ℕ) → All P xs → All P (drop n xs)
drop-All P zero xs h = h
drop-All P (suc n) [] h = tt
drop-All P (suc n) (x ∷ xs) h = drop-All P n xs h.1

yy_token_rest : (input : List ℕ) → All IsByte input → All IsByte (yy_token input).1
unfolding yy_token
yy_token_rest input h = drop-All IsByte (match_token input).size input h

-- Two ways to go on that agree on each result.
go_on_agree :
    (o : Outcome Link (Option Answer)) (link : Link) (f g : Option Answer → Run Link Answer)
    → ((r : Option Answer) (l : Link) → o ≡ ok r l → f r l ≡ g r l)
    → ((λ (l : Link). o) >>= f) link ≡ ((λ (l : Link). o) >>= g) link
go_on_agree (ok r l) link f g h = h r l refl
go_on_agree (exits n l) link f g h = refl
go_on_agree fault link f g h = refl

module _ (w : Writer) (writes : (bytes : List ℕ) → Keeps (w bytes)) where
  lex_round :
      (n : ℕ) (link : Link)
      → ((l : Link) → All IsByte l.incoming → yylex w n l ≡ scan w n l)
      → (input : List ℕ) → All IsByte input
      → elim input as (λ x. Outcome Link Answer) [
        | [] ↦ (handle_error w >> pure end_of_file) link
        | c ∷ cs ↦
            (act w (yy_token (c ∷ cs)).0 >>= λ r. elim r [ some a ↦ pure a | none ↦ yylex w n ])
              (record link { incoming = (yy_token (c ∷ cs)).1 })
      ]
        ≡ elim input as (λ x. Outcome Link Answer) [
          | [] ↦ (handle_error w >> pure end_of_file) link
          | c ∷ cs ↦
              (act w (next_token c cs).0 >>= λ r. elim r [ some a ↦ pure a | none ↦ scan w n ])
                (record link { incoming = (next_token c cs).1 })
        ]
  unfolding Keeps
  lex_round n link again [] h = refl
  lex_round n link again (c ∷ cs) h =
      go_on_agree (act w (yy_token (c ∷ cs)).0 (record link { incoming = (yy_token (c ∷ cs)).1 }))
        link (λ r. elim r [ some a ↦ pure a | none ↦ yylex w n ])
        (λ r. elim r [ some a ↦ pure a | none ↦ scan w n ])
        (λ r l e. same r l (
          act-Keeps w writes (yy_token (c ∷ cs)).0
            (record link { incoming = (yy_token (c ∷ cs)).1 }) l r e))
      ∙ (λ i.
          (act w (yy_token_lem c cs h i).0 >>= λ r. elim r [ some a ↦ pure a | none ↦ scan w n ])
            (record link { incoming = (yy_token_lem c cs h i).1 }))
    where
      same :
          (r : Option Answer) (l : Link)
          → l.incoming ≡ (yy_token (c ∷ cs)).1
          → (elim r as (λ x. Run Link Answer) [ some a ↦ pure a | none ↦ yylex w n ]) l
            ≡ (elim r as (λ x. Run Link Answer) [ some a ↦ pure a | none ↦ scan w n ]) l
      same (some a) l e = refl
      same none l e = again l (subst (All IsByte) (sym e) (yy_token_rest (c ∷ cs) h))

-- On bytes, the scanner by the tables of scanner.c does what the rules of scanner.l say, for any
-- number of tokens. The condition is that writing to the descriptor leaves what comes in as it
-- is.
pub yylex-scan :
    (w : Writer) (n : ℕ) (link : Link)
    → ((bytes : List ℕ) → Keeps (w bytes))
    → All IsByte link.incoming
    → yylex w n link ≡ scan w n link
unfolding yylex scan
yylex-scan w zero link writes h = refl
yylex-scan w (suc n) link writes h =
    lex_round w writes n link (λ l k. yylex-scan w n l writes k) link.incoming h
