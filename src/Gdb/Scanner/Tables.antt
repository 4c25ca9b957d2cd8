-- ===== src/Gdb/Scanner/Tables.antt =====
-- scanner.c: the tables that flex made of the rules, and the loop that matches a token by them.
-- The buffer is the bytes that come in, from the next one on: a match that meets the end of what was
-- read goes on with what is read next, and stops where nothing more comes.
pub mod Classes
pub mod Rules
pub mod Tokens
pub mod Lexer
pub mod Refill
pub mod Reads
use arm_reimplementation.Base.{
  ℕ, zero, suc, ◌+◌, Option, none, some, Bool, true, false, List, [], ◌∷◌, ◌==◌, leb, get_or, take,
  drop, length, ◌++◌, if◌then◌else◌,
}
use arm_reimplementation.Runtime.Io.{Run, ok, fault, ◌>>=◌, ◌>>◌, pure}
use arm_reimplementation.Gdb.Packet.{Link, Writer}
use arm_reimplementation.Gdb.Scanner.{
  Answer, end_of_file, Token, plus, minus, packet, other, newline, handle_error, act,
}

unfoldable pub yy_accept : List ℕ
yy_accept = 0 ∷ 0 ∷ 0 ∷ 6 ∷ 4 ∷ 5 ∷ 4 ∷ 1 ∷ 2 ∷ 0 ∷ 0 ∷ 0 ∷ 3 ∷ 0 ∷ []

unfoldable pub yy_ec : List ℕ
yy_ec =
    0 ∷ 1 ∷ 1 ∷ 1 ∷ 1 ∷ 1 ∷ 1 ∷ 1 ∷ 1 ∷ 1 ∷ 2 ∷ 1 ∷ 1 ∷ 1 ∷ 1 ∷ 1 ∷ 1 ∷ 1 ∷ 1 ∷ 1 ∷ 1 ∷ 1 ∷ 1 ∷ 1
    ∷ 1 ∷ 1 ∷ 1 ∷ 1 ∷ 1 ∷ 1 ∷ 1 ∷ 1 ∷ 1 ∷ 1 ∷ 1 ∷ 3 ∷ 4 ∷ 1 ∷ 1 ∷ 1 ∷ 1 ∷ 1 ∷ 1 ∷ 5 ∷ 1 ∷ 6 ∷ 1 ∷ 1
    ∷ 7 ∷ 7 ∷ 7 ∷ 7 ∷ 7 ∷ 7 ∷ 7 ∷ 7 ∷ 7 ∷ 7 ∷ 1 ∷ 1 ∷ 1 ∷ 1 ∷ 1 ∷ 1 ∷ 1 ∷ 7 ∷ 7 ∷ 7 ∷ 7 ∷ 7 ∷ 7 ∷ 1
    ∷ 1 ∷ 1 ∷ 1 ∷ 1 ∷ 1 ∷ 1 ∷ 1 ∷ 1 ∷ 1 ∷ 1 ∷ 1 ∷ 1 ∷ 1 ∷ 1 ∷ 1 ∷ 1 ∷ 1 ∷ 1 ∷ 1 ∷ 1 ∷ 1 ∷ 1 ∷ 1 ∷ 1
    ∷ 1 ∷ 7 ∷ 7 ∷ 7 ∷ 7 ∷ 7 ∷ 7 ∷ 1 ∷ 1 ∷ 1 ∷ 1 ∷ 1 ∷ 1 ∷ 1 ∷ 1 ∷ 1 ∷ 1 ∷ 1 ∷ 1 ∷ 1 ∷ 1 ∷ 1 ∷ 1 ∷ 1
    ∷ 1 ∷ 1 ∷ 1 ∷ 1 ∷ 1 ∷ 1 ∷ 1 ∷ 1 ∷ 1 ∷ 1 ∷ 1 ∷ 1 ∷ 1 ∷ 1 ∷ 1 ∷ 1 ∷ 1 ∷ 1 ∷ 1 ∷ 1 ∷ 1 ∷ 1 ∷ 1 ∷ 1
    ∷ 1 ∷ 1 ∷ 1 ∷ 1 ∷ 1 ∷ 1 ∷ 1 ∷ 1 ∷ 1 ∷ 1 ∷ 1 ∷ 1 ∷ 1 ∷ 1 ∷ 1 ∷ 1 ∷ 1 ∷ 1 ∷ 1 ∷ 1 ∷ 1 ∷ 1 ∷ 1 ∷ 1
    ∷ 1 ∷ 1 ∷ 1 ∷ 1 ∷ 1 ∷ 1 ∷ 1 ∷ 1 ∷ 1 ∷ 1 ∷ 1 ∷ 1 ∷ 1 ∷ 1 ∷ 1 ∷ 1 ∷ 1 ∷ 1 ∷ 1 ∷ 1 ∷ 1 ∷ 1 ∷ 1 ∷ 1
    ∷ 1 ∷ 1 ∷ 1 ∷ 1 ∷ 1 ∷ 1 ∷ 1 ∷ 1 ∷ 1 ∷ 1 ∷ 1 ∷ 1 ∷ 1 ∷ 1 ∷ 1 ∷ 1 ∷ 1 ∷ 1 ∷ 1 ∷ 1 ∷ 1 ∷ 1 ∷ 1 ∷ 1
    ∷ 1 ∷ 1 ∷ 1 ∷ 1 ∷ 1 ∷ 1 ∷ 1 ∷ 1 ∷ 1 ∷ 1 ∷ 1 ∷ 1 ∷ 1 ∷ 1 ∷ 1 ∷ 1 ∷ 1 ∷ 1 ∷ 1 ∷ 1 ∷ 1 ∷ 1 ∷ 1 ∷ 1
    ∷ 1 ∷ 1 ∷ 1 ∷ 1 ∷ 1 ∷ 1 ∷ 1 ∷ 1 ∷ 1 ∷ 1 ∷ 1 ∷ 1 ∷ 1 ∷ 1 ∷ 1 ∷ 1 ∷ []

unfoldable pub yy_meta : List ℕ
yy_meta = 0 ∷ 1 ∷ 1 ∷ 1 ∷ 2 ∷ 1 ∷ 1 ∷ 1 ∷ []

unfoldable pub yy_base : List ℕ
yy_base = 0 ∷ 0 ∷ 0 ∷ 13 ∷ 14 ∷ 14 ∷ 9 ∷ 14 ∷ 14 ∷ 8 ∷ 3 ∷ 2 ∷ 14 ∷ 14 ∷ 7 ∷ []

unfoldable pub yy_def : List ℕ
yy_def = 0 ∷ 13 ∷ 1 ∷ 13 ∷ 13 ∷ 13 ∷ 14 ∷ 13 ∷ 13 ∷ 14 ∷ 13 ∷ 13 ∷ 13 ∷ 0 ∷ 13 ∷ []

unfoldable pub yy_nxt : List ℕ
yy_nxt =
    0 ∷ 4 ∷ 5 ∷ 4 ∷ 6 ∷ 7 ∷ 8 ∷ 4 ∷ 9 ∷ 12 ∷ 11 ∷ 10 ∷ 10 ∷ 13 ∷ 3 ∷ 13 ∷ 13 ∷ 13 ∷ 13 ∷ 13 ∷ 13
    ∷ 13 ∷ []

unfoldable pub yy_chk : List ℕ
yy_chk =
    0 ∷ 1 ∷ 1 ∷ 1 ∷ 1 ∷ 1 ∷ 1 ∷ 1 ∷ 14 ∷ 11 ∷ 10 ∷ 9 ∷ 6 ∷ 3 ∷ 13 ∷ 13 ∷ 13 ∷ 13 ∷ 13 ∷ 13 ∷ 13 ∷ 13
    ∷ []

-- The class of a byte; a null byte has class 1 (`yy_try_NUL_trans`).
unfoldable pub yy_class : ℕ → ℕ
unfolding yy_ec
yy_class c = if c == 0 then 1 else get_or yy_ec c 0

-- The inner loop and the step behind it. `yy_def` leads to 13, whose entries are all its own, in two
-- rounds at most.
unfoldable pub yy_step : ℕ → ℕ → ℕ → ℕ
unfolding yy_chk yy_base yy_def yy_meta yy_nxt
yy_step zero state c = 13
yy_step (suc rounds) state c =
    let next = get_or yy_def state 0 in
    let rest = yy_step rounds next (if leb 14 next then get_or yy_meta c 0 else c) in
    if get_or yy_chk (get_or yy_base state 0 + c) 0 == state
    then get_or yy_nxt (get_or yy_base state 0 + c) 0
    else rest

unfoldable pub yy_next : ℕ → ℕ → ℕ
yy_next state c = yy_step 3 state (yy_class c)

-- The rule that is found and the length of its text.
pub record Match : Type 0 where
  pub rule : ℕ
  pub size : ℕ

-- `yy_last_accepting_state` and `yy_last_accepting_cpos`.
pub record Accepting : Type 0 where
  pub state : ℕ
  pub size : ℕ

-- `yy_find_action`, which backs up where the state accepts nothing.
unfoldable pub find_action : ℕ → ℕ → Accepting → Match
unfolding yy_accept
find_action state n last =
    if get_or yy_accept state 0 == 0
    then record { rule = get_or yy_accept last.state 0; size = last.size }
    else record { rule = get_or yy_accept state 0; size = n }

unfoldable pub note_accepting : ℕ → ℕ → Accepting → Accepting
unfolding yy_accept
note_accepting state n last =
    if get_or yy_accept state 0 == 0 then last else record { state = state; size = n }

-- `yy_match`: the loop ends in a state that no byte leads out of.
unfoldable pub yy_match : List ℕ → ℕ → ℕ → Accepting → Match
yy_match [] state n last = find_action state n last
yy_match (c ∷ cs) state n last =
    let next = yy_next state c in
    let noted = note_accepting state n last in
    let rest = yy_match cs next (n + 1) noted in
    if get_or yy_base next 0 == 14 then find_action next (n + 1) noted else rest

-- `yy_get_previous_state`: the state, and what it has noted, at the end of the text that was read
-- before the buffer was filled again.
unfoldable pub yy_get_previous_state : List ℕ → ℕ → ℕ → Accepting → ℕ × Accepting
yy_get_previous_state [] state n last = (state, last)
yy_get_previous_state (c ∷ cs) state n last =
    yy_get_previous_state cs (yy_next state c) (n + 1) (note_accepting state n last)

-- Whether a byte of the text leads into a state that no byte leads out of.
unfoldable pub ends_in : List ℕ → ℕ → Bool
ends_in [] state = false
ends_in (c ∷ cs) state =
    let rest = ends_in cs (yy_next state c) in
    if get_or yy_base (yy_next state c) 0 == 14 then true else rest

-- `YY_END_OF_BUFFER`: the text of the token so far has met the end of the buffer, and `reads` is what
-- `YY_INPUT` gives from now on, an empty read at the end of the file. The text is moved to the front of
-- the buffer and its state is found again; then the match goes on with what is read, or takes the
-- last state that accepts. At the end of the file, a text that is empty is no token but the end.
unfoldable pub scan_reads : List ℕ → List (List ℕ) → Match
unfolding yy_match yy_get_previous_state ends_in find_action
scan_reads text [] =
    let (state, last) = yy_get_previous_state text 1 0 (record { state = 0; size = 0 }) in
    find_action state (length text) last
scan_reads text ([] ∷ reads) =
    let (state, last) = yy_get_previous_state text 1 0 (record { state = 0; size = 0 }) in
    find_action state (length text) last
scan_reads text ((c ∷ cs) ∷ reads) =
    let (state, last) = yy_get_previous_state text 1 0 (record { state = 0; size = 0 }) in
    let further = scan_reads (text ++ (c ∷ cs)) reads in
    if ends_in (c ∷ cs) state then yy_match (c ∷ cs) state (length text) last else further

-- A token from the start state. What a match before left is overwritten by the first byte.
unfoldable pub match_token : List ℕ → Match
match_token input = yy_match input 1 0 (record { state = 0; size = 0 })

-- `yytext` for a rule; the rules are numbered from 1.
unfoldable pub token_of : ℕ → List ℕ → Token
token_of rule text =
    if rule == 1
    then plus
    else if rule == 2
    then minus
    else if rule == 3
    then packet text
    else if rule == 4
    then other (get_or text 0 0)
    else newline

-- The token at the front of an input, and the rest.
unfoldable pub yy_token : List ℕ → Token × List ℕ
yy_token input =
    let found = match_token input in
    (token_of found.rule (take found.size input), drop found.size input)

module _ (rio_writen : Writer) where
  -- `yylex` by the tables, for `fuel` tokens.
  unfoldable pub yylex : ℕ → Run Link Answer
  yylex zero link = fault
  yylex (suc fuel) link = elim (link.incoming) [
    | [] ↦ (handle_error rio_writen >> pure end_of_file) link
    | c ∷ cs ↦
        (do
          returned ← act rio_writen (yy_token (c ∷ cs)).0
          elim returned [ some answer ↦ pure answer | none ↦ yylex fuel ])
          (record link { incoming = (yy_token (c ∷ cs)).1 })
  ]
