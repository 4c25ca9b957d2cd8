-- ===== src/Gdb/Scanner/Rounds.antt =====
-- The scanner terminates: each of its tokens takes a byte of the input.
use arm_reimplementation.Base.{
  if_both, ℕ, zero, suc, ◌+◌, ◌≤◌, ◌<◌, ◌≡◌, refl, sym, ap, Option, none, some, List, [], ◌∷◌, ◌==◌,
  ◌&&◌, length, arith, subst,
}
use arm_reimplementation.Runtime.Io.{Outcome, ok, exits, fault, ◌>>=◌, ◌>>◌, pure}
use arm_reimplementation.Gdb.Packet.{Link, Writer}
use arm_reimplementation.Gdb.Scanner.{
  Answer, end_of_file, Token, packet, other, is_hex, match_digits, match_content, prepend,
  next_token, handle_error, act, scan, gdb_get_packet,
}
use arm_reimplementation.Gdb.Scanner.Keeps.{Keeps, act-Keeps}

left_over : Option (List ℕ × List ℕ) → ℕ
left_over none = 0
left_over (some (text, rest)) = length rest

match_digits-left : (cs : List ℕ) → left_over (match_digits cs) ≤ length cs
unfolding match_digits left_over
match_digits-left [] = omega arith
match_digits-left (a ∷ []) = omega arith
match_digits-left (a ∷ b ∷ cs) =
    if_both (λ m. left_over m ≤ suc (suc (length cs))) (is_hex a && is_hex b) _ _ (omega arith)
      (omega arith)

prepend-left : (c : ℕ) (m : Option (List ℕ × List ℕ)) → left_over (prepend c m) ≡ left_over m
unfolding left_over
prepend-left c none = refl
prepend-left c (some (text, rest)) = refl

match_content-left : (cs : List ℕ) → left_over (match_content cs) ≤ length cs
unfolding match_content left_over
match_content-left [] = omega arith
match_content-left (c ∷ cs) =
    if_both (λ m. left_over m ≤ suc (length cs)) (c == b'#') _ _
      (omega (arith, match_digits-left cs))
      (if_both (λ m. left_over m ≤ suc (length cs)) (c == b'$') _ _ (omega arith)
        (omega (arith, prepend-left c (match_content cs), match_content-left cs)))

framed-left :
    (c : ℕ) (cs : List ℕ) (m : Option (List ℕ × List ℕ))
    → left_over m ≤ length cs
    → length
        (elim m as (λ x. Token × List ℕ) [
          | none ↦ (other c, cs)
          | some (content, rest) ↦ (packet (c ∷ content), rest)
        ]).1
      ≤ length cs
unfolding left_over
framed-left c cs none h = omega arith
framed-left c cs (some (content, rest)) h = h

-- A token takes a byte at least.
pub next_token-left : (c : ℕ) (cs : List ℕ) → length (next_token c cs).1 ≤ length cs
unfolding next_token
next_token-left c cs = if_both fits (c == b'+') _ _ (omega arith) (
    if_both fits (c == b'-') _ _ (omega arith) (
      if_both fits (c == 10) _ _ (omega arith) (
        if_both fits (c == b'$') _ _ (framed-left c cs (match_content cs) (match_content-left cs))
          (omega arith))))
  where
    fits : Token × List ℕ → Type 0
    fits t = length t.1 ≤ length cs

-- A run of the scanner: its tokens one after another, up to what ends it. A run is finite, and no
-- number of rounds stands in it.
pub data Scans (w : Writer) : Link → Outcome Link Answer → Type 0 where
  ended :
      {link : Link} → link.incoming ≡ [] → Scans w link ((handle_error w >> pure end_of_file) link)
  answered :
      {link l : Link} {c : ℕ} {cs : List ℕ} {answer : Answer}
      → link.incoming ≡ c ∷ cs
      → act w (next_token c cs).0 (record link { incoming = (next_token c cs).1 })
        ≡ ok (some answer) l
      → Scans w link (ok answer l)
  stopped :
      {link l : Link} {c k : ℕ} {cs : List ℕ}
      → link.incoming ≡ c ∷ cs
      → act w (next_token c cs).0 (record link { incoming = (next_token c cs).1 }) ≡ exits k l
      → Scans w link (exits k l)
  undefined_action :
      {link : Link} {c : ℕ} {cs : List ℕ}
      → link.incoming ≡ c ∷ cs
      → act w (next_token c cs).0 (record link { incoming = (next_token c cs).1 }) ≡ fault
      → Scans w link fault
  goes_on :
      {link l : Link} {c : ℕ} {cs : List ℕ} {o : Outcome Link Answer}
      → link.incoming ≡ c ∷ cs
      → act w (next_token c cs).0 (record link { incoming = (next_token c cs).1 }) ≡ ok none l
      → Scans w l o
      → Scans w link o

module _ (w : Writer) (writes : (bytes : List ℕ) → Keeps (w bytes)) where
  -- A round, from the bytes that come in.
  round : ℕ → Link → List ℕ → Outcome Link Answer
  round fuel link [] = (handle_error w >> pure end_of_file) link
  round fuel link (c ∷ cs) =
      (act w (next_token c cs).0 >>= λ returned. elim returned [
        | some answer ↦ pure answer
        | none ↦ scan w fuel
      ])
        (record link { incoming = (next_token c cs).1 })

  scan-round : (fuel : ℕ) (link : Link) → scan w (suc fuel) link ≡ round fuel link link.incoming
  unfolding scan round
  scan-round fuel link = by_input link.incoming
    where
      by_input :
          (l : List ℕ)
          → elim l as (λ x. Outcome Link Answer) [
            | [] ↦ (handle_error w >> pure end_of_file) link
            | c ∷ cs ↦
                (act w (next_token c cs).0 >>= λ returned. elim returned [
                  | some answer ↦ pure answer
                  | none ↦ scan w fuel
                ])
                  (record link { incoming = (next_token c cs).1 })
          ]
            ≡ round fuel link l
      by_input [] = refl
      by_input (c ∷ cs) = refl

  -- What a round makes of the outcome of a token's action.
  after_action :
      (fuel : ℕ) (link : Link) (c : ℕ) (cs : List ℕ) (o : Outcome Link (Option Answer))
      → link.incoming ≡ c ∷ cs
      → act w (next_token c cs).0 (record link { incoming = (next_token c cs).1 }) ≡ o
      → ((l : Link) → o ≡ ok none l → Scans w l (scan w fuel l))
      → Scans w link (
          ((λ (l : Link). o) >>= λ returned. elim returned [
            | some answer ↦ pure answer
            | none ↦ scan w fuel
          ])
            (record link { incoming = (next_token c cs).1 }))
  after_action fuel link c cs (ok none l) e done rest = goes_on e done (rest l refl)
  after_action fuel link c cs (ok (some answer) l) e done rest = answered e done
  after_action fuel link c cs (exits k l) e done rest = stopped e done
  after_action fuel link c cs fault e done rest = undefined_action e done

  round_ends :
      (fuel : ℕ) (link : Link)
      → ((l : Link) → length l.incoming < fuel → Scans w l (scan w fuel l))
      → (input : List ℕ) → link.incoming ≡ input
      → length input ≤ fuel
      → Scans w link (round fuel link input)
  unfolding round Keeps
  round_ends fuel link rest [] e fits = ended e
  round_ends fuel link rest (c ∷ cs) e fits =
      after_action fuel link c cs
        (act w (next_token c cs).0 (record link { incoming = (next_token c cs).1 })) e refl
        (λ l done.
          let same =
            act-Keeps w writes (next_token c cs).0 (record link { incoming = (next_token c cs).1 })
              l none done in
          rest l (omega (arith, ap length same, next_token-left c cs)))

  scan_ends :
      (fuel : ℕ) (link : Link) → length link.incoming < fuel → Scans w link (scan w fuel link)
  scan_ends zero link h = absurd (omega arith)
  scan_ends (suc fuel) link h =
      subst (Scans w link) (sym (scan-round fuel link))
        (round_ends fuel link (λ l k. scan_ends fuel l k) link.incoming refl (omega arith))

-- `yylex` terminates: on any input, finitely many tokens after one another lead to the outcome of
-- the scanner, which ends with an answer, with the end of the input, or where an action exits or is
-- undefined, and never for want of rounds. The condition is that writing to the descriptor leaves
-- what comes in as it is.
pub get_packet_ends :
    (w : Writer) (link : Link)
    → ((bytes : List ℕ) → Keeps (w bytes))
    → Scans w link (gdb_get_packet w link)
unfolding gdb_get_packet
get_packet_ends w link writes = scan_ends w writes (length link.incoming + 1) link (omega arith)
