-- ===== src/Examples/Lexer.antt =====
-- The scanner by its tables, on short inputs.
use arm_reimplementation.Base.{ℕ, ◌+◌, ◌≡◌, List, [], ◌∷◌, ◌++◌, length, All, arith}
use arm_reimplementation.Runtime.Bytes.{IsByte}
use arm_reimplementation.Gdb.Packet.{Link}
use arm_reimplementation.Gdb.Scanner.{next_token, scan}
use arm_reimplementation.Gdb.Scanner.Tables.{
  yy_base, yy_chk, yy_def, yy_nxt, yy_ec, yy_meta, yy_class, yy_step, yy_next, Accepting, yy_match,
  yy_get_previous_state, yy_token, yylex, match_token, scan_reads,
}
use arm_reimplementation.Gdb.Scanner.Tables.Tokens.{yy_token_lem}
use arm_reimplementation.Gdb.Scanner.Tables.Lexer.{yylex-scan}
use arm_reimplementation.Gdb.Scanner.Tables.Refill.{GoesOn, refill}
use arm_reimplementation.Gdb.Scanner.Tables.Reads.{joined, scan_reads-match_token}
use arm_reimplementation.Examples.Packets.{recorder, recorder-Keeps, fresh}

ok_bytes : All IsByte (b'$' ∷ b'O' ∷ b'K' ∷ b'#' ∷ b'9' ∷ b'a' ∷ b'+' ∷ [])
ok_bytes = (
  omega arith,
  (omega arith, (omega arith, (omega arith, (omega arith, (omega arith, (omega arith, tt)))))),
)

yy_token_lem_example :
    yy_token (b'$' ∷ b'O' ∷ b'K' ∷ b'#' ∷ b'9' ∷ b'a' ∷ b'+' ∷ [])
    ≡ next_token b'$' (b'O' ∷ b'K' ∷ b'#' ∷ b'9' ∷ b'a' ∷ b'+' ∷ [])
yy_token_lem_example = yy_token_lem b'$' (b'O' ∷ b'K' ∷ b'#' ∷ b'9' ∷ b'a' ∷ b'+' ∷ []) ok_bytes

-- The answer `OK`, and an acknowledgement behind it.
abbrev ok_link : Link
ok_link = record fresh { incoming = b'$' ∷ b'O' ∷ b'K' ∷ b'#' ∷ b'9' ∷ b'a' ∷ b'+' ∷ [] }

yylex-scan_example : yylex recorder 3 ok_link ≡ scan recorder 3 ok_link
yylex-scan_example = yylex-scan recorder 3 ok_link recorder-Keeps ok_bytes

-- The frame of `OK`, of which the buffer has `$O` first.
abbrev begun : List ℕ
begun = b'$' ∷ b'O' ∷ []

abbrev to_come : List ℕ
to_come = b'K' ∷ b'#' ∷ b'9' ∷ b'a' ∷ []

abbrev at_start : Accepting
at_start = record { state = 0; size = 0 }

begun-GoesOn : GoesOn begun 1
unfolding GoesOn yy_base yy_chk yy_def yy_nxt yy_ec yy_meta yy_class yy_step yy_next
begun-GoesOn = ((λ e. omega arith), ((λ e. omega arith), tt))

refill_example :
    yy_match (begun ++ to_come) 1 0 at_start
    ≡ yy_match to_come
        (yy_get_previous_state begun 1 0 at_start).0
        (0 + length begun)
        (yy_get_previous_state begun 1 0 at_start).1
refill_example = refill begun to_come 1 0 at_start begun-GoesOn

-- The frame of `OK` in three reads, and a byte behind it.
scan_reads-match_token_example :
    scan_reads [] ((b'$' ∷ b'O' ∷ []) ∷ (b'K' ∷ b'#' ∷ b'9' ∷ []) ∷ (b'a' ∷ b'+' ∷ []) ∷ [])
    ≡ match_token (b'$' ∷ b'O' ∷ b'K' ∷ b'#' ∷ b'9' ∷ b'a' ∷ b'+' ∷ [])
unfolding GoesOn joined
scan_reads-match_token_example =
    scan_reads-match_token
      ((b'$' ∷ b'O' ∷ []) ∷ (b'K' ∷ b'#' ∷ b'9' ∷ []) ∷ (b'a' ∷ b'+' ∷ []) ∷ []) []
      ((λ e. cc e), ((λ e. cc e), ((λ e. cc e), tt))) tt
