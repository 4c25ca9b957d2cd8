-- ===== src/Gdb/Scanner/Progress.antt =====
-- What the scanner does with bytes that start no packet.
pub mod Accepts
use arm_reimplementation.Base.{
  if_both, ℕ, zero, suc, ◌+◌, ◌≤◌, ◌<◌, ◌≡◌, ◌≢◌, refl, sym, ap, ◌∙◌, Bool, true, false, Option,
  none, some, List, [], ◌∷◌, ◌++◌, ◌==◌, ltb, length, take, if◌then◌else◌, arith, subst, All,
  length-append, append_assoc,
}
use arm_reimplementation.Runtime.Printf.{print_hex_width}
use arm_reimplementation.Runtime.Io.{Run, Outcome, ok, exits, fault, ◌>>=◌, ◌>>◌, pure}
use arm_reimplementation.Gdb.Packet.{
  Link, Writer, checksum, set_answer, gdb_send_ack, gdb_require_retransmission, gdb_transmit_packet,
  gdb_packet_check,
}
use arm_reimplementation.Gdb.Packet.Framing.{frame}
use arm_reimplementation.Gdb.Scanner.{
  Answer, packet_read, end_of_file, Token, plus, minus, packet, other, newline, next_token,
  clear_errors, echo, keep_error, handle_error, add_character_to_error, act, scan, gdb_get_packet,
}
use arm_reimplementation.Gdb.Scanner.Frames.{IsPlain, next_token_lem, packet_check_lem}

-- A result is given, and P holds of it and of the state.
unfoldable pub Returns : {A : Type 0} → (A → Link → Type 0) → Outcome Link A → Type 0
Returns P (ok a l) = P a l
Returns P (exits n l) = ⊥
Returns P fault = ⊥

pub returned :
    {A : Type 0} (P : A → Link → Type 0) (o : Outcome Link A)
    → Returns P o
    → (a : A) × (l : Link) × (o ≡ ok a l) × P a l
unfolding Returns
returned P (ok a l) h = (a, l, refl, h)
returned P (exits n l) h = absurd h
returned P fault h = absurd h

bind_outcome :
    {A B : Type 0} (P : A → Link → Type 0) (Q : B → Link → Type 0) (o : Outcome Link A)
    (f : A → Run Link B) (link : Link)
    → Returns P o
    → ((a : A) (l : Link) → P a l → Returns Q (f a l))
    → Returns Q (((λ (l : Link). o) >>= f) link)
unfolding Returns
bind_outcome P Q (ok a l) f link h k = k a l h
bind_outcome P Q (exits n l) f link h k = absurd h
bind_outcome P Q fault f link h k = absurd h

pub bind_Returns :
    {A B : Type 0} (P : A → Link → Type 0) (Q : B → Link → Type 0) (m : Run Link A)
    (f : A → Run Link B) (link : Link)
    → Returns P (m link)
    → ((a : A) (l : Link) → P a l → Returns Q (f a l))
    → Returns Q ((m >>= f) link)
bind_Returns P Q m f link h k = bind_outcome P Q (m link) f link h k

choose :
    {A : Type 0} (P : A → Link → Type 0) (b : Bool) (m k : Run Link A) (link : Link)
    → (b ≡ true → Returns P (m link))
    → (b ≡ false → Returns P (k link))
    → Returns P (if b then m link else k link)
choose P true m k link hm hk = hm refl
choose P false m k link hm hk = hk refl

choose_run :
    {A : Type 0} (P : A → Link → Type 0) (b : Bool) (m k : Run Link A) (link : Link)
    → (b ≡ true → Returns P (m link))
    → (b ≡ false → Returns P (k link))
    → Returns P ((if b then m else k) link)
choose_run P true m k link hm hk = hm refl
choose_run P false m k link hm hk = hk refl

-- The bytes to come are `input`, and the bytes in error are in their array.
unfoldable pub Awaits : List ℕ → Link → Type 0
Awaits input link = (length link.errors ≤ 1023) × (link.incoming ≡ input)

-- The same with no byte in error.
unfoldable pub AwaitsClear : List ℕ → Link → Type 0
AwaitsClear input link = (link.errors ≡ []) × (link.incoming ≡ input)

-- Writing succeeds, and changes nothing but what went out.
unfoldable pub AlwaysSends : Writer → Type 0
AlwaysSends w =
    (bytes : List ℕ) (link : Link)
    → (sent : List ℕ) × (w bytes link ≡ ok tt (record link { sent = sent }))

no_errors : (errors : List ℕ) → (length errors == 0) ≡ true → errors ≡ []
no_errors [] e = refl
no_errors (x ∷ xs) e = absurd (ground arith)

keep_error-Awaits :
    (c : ℕ) (input : List ℕ) (link : Link)
    → Awaits input link
    → length link.errors ≤ 1022
    → Returns (λ u. Awaits input) (keep_error c link)
unfolding Returns Awaits keep_error
keep_error-Awaits c input link h room =
    choose (λ u. Awaits input) (ltb (length link.errors) 1024)
      (λ l. ok tt (record l { errors = l.errors ++ (c ∷ []) })) (λ l. fault) link
      (λ e. (omega (arith, length-append link.errors (c ∷ [])), h.1)) (λ e. ground arith)

-- The token of a byte that starts no packet.
pub plain_token : ℕ → Token
plain_token c =
    if c == b'+' then plus else if c == b'-' then minus else if c == 10 then newline else other c

pub next_token_plain : (c : ℕ) (cs : List ℕ) → c ≢ b'$' → next_token c cs ≡ (plain_token c, cs)
unfolding next_token plain_token
next_token_plain c cs h = ground arith

-- A token that is no packet: the scanner goes on.
unfoldable pub GoesOn : List ℕ → Option Answer → Link → Type 0
unfolding Awaits
GoesOn input r l = (r ≡ none) × Awaits input l

unfoldable pub Goes : Writer → List ℕ → Link → Token → Type 0
Goes w input link t = Returns (GoesOn input) (act w t link)

module _ (w : Writer) (sends : AlwaysSends w) where
  pub write_clear :
      (bytes input : List ℕ) (link : Link)
      → AwaitsClear input link
      → Returns (λ u. AwaitsClear input) (w bytes link)
  unfolding Returns AwaitsClear AlwaysSends
  write_clear bytes input link h =
      subst (Returns (λ u. AwaitsClear input)) (sym (sends bytes link).1) h

  write-Awaits :
      (bytes input : List ℕ) (link : Link)
      → Awaits input link
      → Returns (λ u. Awaits input) (w bytes link)
  unfolding Returns Awaits AlwaysSends
  write-Awaits bytes input link h = subst (Returns (λ u. Awaits input)) (sym (sends bytes link).1) h

  pub handle_error_clear :
      (input : List ℕ) (link : Link)
      → Awaits input link
      → Returns (λ u. AwaitsClear input) (handle_error w link)
  unfolding Returns Awaits AwaitsClear handle_error gdb_require_retransmission clear_errors
  handle_error_clear input link h =
      choose (λ u. AwaitsClear input) (length link.errors == 0) (pure tt)
        (λ l.
          if ltb (length l.errors) 1024
          then (gdb_require_retransmission w >> clear_errors) l
          else fault)
        link (λ e. (no_errors link.errors e, h.1))
        (λ e.
          choose (λ u. AwaitsClear input) (ltb (length link.errors) 1024)
            (gdb_require_retransmission w >> clear_errors) (λ l. fault) link
            (λ f.
              bind_Returns (λ u. Awaits input) (λ u. AwaitsClear input) (w (b'-' ∷ []))
                (λ _. clear_errors) link (write-Awaits (b'-' ∷ []) input link h)
                (λ a l k. (refl, k.1)))
            (λ f. ground arith))

  add_character-Awaits :
      (c : ℕ) (input : List ℕ) (link : Link)
      → Awaits input link
      → Returns (λ u. Awaits input) (add_character_to_error w c link)
  unfolding Awaits AwaitsClear add_character_to_error
  add_character-Awaits c input link h =
      choose_run (λ u. Awaits input) (ltb 1022 (length link.errors))
        (handle_error w >> keep_error c) (keep_error c) link
        (λ e.
          bind_Returns (λ u. AwaitsClear input) (λ u. Awaits input) (handle_error w)
            (λ _. keep_error c) link (handle_error_clear input link h)
            (λ a l k.
              keep_error-Awaits c input l (omega (arith, ap length k.0), k.1)
                (omega (arith, ap length k.0))))
        (λ e. keep_error-Awaits c input link h (ground arith))

  clear-GoesOn :
      (input : List ℕ) (link : Link)
      → AwaitsClear input link
      → Returns (GoesOn input) (ok none link)
  unfolding Returns GoesOn Awaits AwaitsClear
  clear-GoesOn input link h = (refl, (omega (arith, ap length h.0), h.1))

  Awaits-GoesOn :
      (input : List ℕ) (link : Link) → Awaits input link → Returns (GoesOn input) (ok none link)
  unfolding Returns GoesOn
  Awaits-GoesOn input link h = (refl, h)

  act_plus : (input : List ℕ) (link : Link) → Awaits input link → Goes w input link plus
  unfolding Goes act
  act_plus input link h =
      bind_Returns (λ u. AwaitsClear input) (GoesOn input) (handle_error w) (λ _. pure none) link
        (handle_error_clear input link h) (λ a l k. clear-GoesOn input l k)

  act_minus : (input : List ℕ) (link : Link) → Awaits input link → Goes w input link minus
  unfolding Goes act gdb_transmit_packet
  act_minus input link h =
      bind_Returns (λ u. AwaitsClear input) (GoesOn input) (handle_error w) _ link
        (handle_error_clear input link h)
        (λ a l k.
          bind_Returns (λ u. AwaitsClear input) (GoesOn input) (gdb_transmit_packet w)
            (λ _. pure none) l (write_clear (take l.len l.packet) input l k)
            (λ b m j. clear-GoesOn input m j))

  act_other :
      (c : ℕ) (input : List ℕ) (link : Link) → Awaits input link → Goes w input link (other c)
  unfolding Goes act
  act_other c input link h =
      bind_Returns (λ u. Awaits input) (GoesOn input) (add_character_to_error w c) (λ _. pure none)
        link (add_character-Awaits c input link h) (λ a l k. Awaits-GoesOn input l k)

  act_newline : (input : List ℕ) (link : Link) → Awaits input link → Goes w input link newline
  unfolding Goes act echo Awaits
  act_newline input link h =
      Awaits-GoesOn input (record link { echoed = link.echoed ++ (10 ∷ []) }) h

  pub act_plain :
      (c : ℕ) (input : List ℕ) (link : Link) → Awaits input link → Goes w input link (plain_token c)
  unfolding plain_token
  act_plain c input link h = if_both (Goes w input link) (c == b'+') _ _ (act_plus input link h) (
      if_both (Goes w input link) (c == b'-') _ _ (act_minus input link h) (
        if_both (Goes w input link) (c == 10) _ _ (act_newline input link h)
          (act_other c input link h)))
