-- ===== src/Gdb/Scanner.antt =====
-- The scanner of what the simulator sends, by the rules of scanner.l: flex takes the longest match
-- of its rules, and the first rule among equals. scanner.c is flex's translation of them.
pub mod Frames
pub mod Tables
pub mod Keeps
pub mod Progress
pub mod Rounds
use arm_reimplementation.Base.{
  ℕ, zero, suc, ◌+◌, Bool, Option, none, some, List, [], ◌∷◌, ◌++◌, ◌==◌, ◌&&◌, ◌||◌, leb, ltb,
  length, if◌then◌else◌,
}
use arm_reimplementation.Runtime.Io.{Run, ok, fault, ◌>>=◌, ◌>>◌, pure}
use arm_reimplementation.Gdb.Packet.{
  Link, Writer, gdb_require_retransmission, gdb_transmit_packet, gdb_packet_check,
}

abbrev pub max_error_size : ℕ
max_error_size = 1024

-- What `yylex` returns: `PACKET` or `EOF`.
pub data Answer : Type 0 where
  packet_read end_of_file : Answer

unfoldable pub is_hex : ℕ → Bool
is_hex c = (leb b'0' c && leb c b'9') || ((leb b'a' c && leb c b'f') || (leb b'A' c && leb c b'F'))

-- `{HEX}{HEX}` behind the `#`: the text from the `#` on, and the rest.
unfoldable pub match_digits : List ℕ → Option (List ℕ × List ℕ)
unfolding is_hex
match_digits [] = none
match_digits (a ∷ []) = none
match_digits (a ∷ b ∷ rest) = if is_hex a && is_hex b then some (b'#' ∷ a ∷ b ∷ [], rest) else none

abbrev pub prepend : ℕ → Option (List ℕ × List ℕ) → Option (List ℕ × List ℕ)
prepend c none = none
prepend c (some (s, rest)) = some (c ∷ s, rest)

-- `[^$#]*"#"{HEX}{HEX}` from the front of the input: what it matches, and the rest.
unfoldable pub match_content : List ℕ → Option (List ℕ × List ℕ)
unfolding match_digits
match_content [] = none
match_content (c ∷ cs) =
    if c == b'#' then match_digits cs else if c == b'$' then none else prepend c (match_content cs)

-- What the rules find at the front of an input that is not empty, and the rest.
pub data Token : Type 0 where
  plus minus : Token
  packet : List ℕ → Token
  other : ℕ → Token
  newline : Token

unfoldable pub next_token : ℕ → List ℕ → Token × List ℕ
unfolding match_content
next_token c cs =
    if c == b'+'
    then (plus, cs)
    else if c == b'-'
    then (minus, cs)
    else if c == 10
    then (newline, cs)
    else if c == b'$'
    then elim (match_content cs) [
      | none ↦ (other c, cs)
      | some (content, rest) ↦ (packet (c ∷ content), rest)
    ]
    else (other c, cs)

unfoldable pub clear_errors : Run Link (Unit {0})
clear_errors link = ok tt (record link { errors = [] })

unfoldable pub echo : ℕ → Run Link (Unit {0})
echo c link = ok tt (record link { echoed = link.echoed ++ (c ∷ []) })

unfoldable pub keep_error : ℕ → Run Link (Unit {0})
keep_error c link =
    if ltb (length link.errors) max_error_size
    then ok tt (record link { errors = link.errors ++ (c ∷ []) })
    else fault

module _ (rio_writen : Writer) where
  -- `buffer[len] = 0` must lie in the array.
  unfoldable pub handle_error : Run Link (Unit {0})
  handle_error link =
      if length link.errors == 0
      then ok tt link
      else if ltb (length link.errors) max_error_size
      then (gdb_require_retransmission rio_writen >> clear_errors) link
      else fault

  unfoldable pub add_character_to_error : ℕ → Run Link (Unit {0})
  add_character_to_error c link =
      (if ltb 1022 (length link.errors) then (handle_error >> keep_error c) else keep_error c) link

  -- The action of a token; `some` is a `return`.
  unfoldable pub act : Token → Run Link (Option Answer)
  act plus = handle_error >> pure none
  act minus = handle_error >> (gdb_transmit_packet rio_writen >> pure none)
  act (packet s) = do
    handle_error
    result ← gdb_packet_check rio_writen s
    if result then pure (some packet_read) else pure none
  act (other c) = add_character_to_error c >> pure none
  act newline = echo 10 >> pure none

  -- `yylex`. Each token takes a byte of the input at least, so one round more than there are bytes
  -- is enough.
  unfoldable pub scan : ℕ → Run Link Answer
  scan zero link = fault
  scan (suc fuel) link = elim (link.incoming) [
    | [] ↦ (handle_error >> pure end_of_file) link
    | c ∷ cs ↦
        (do
          returned ← act (next_token c cs).0
          elim returned [ some answer ↦ pure answer | none ↦ scan fuel ])
          (record link { incoming = (next_token c cs).1 })
  ]

  unfoldable pub gdb_get_packet : Run Link Answer
  gdb_get_packet link = scan (length link.incoming + 1) link
