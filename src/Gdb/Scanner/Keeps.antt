-- ===== src/Gdb/Scanner/Keeps.antt =====
-- What of the scanner leaves the bytes that come in as they are.
use arm_reimplementation.Base.{
  if_both, ℕ, ◌≡◌, refl, sym, ap, ◌∙◌, Bool, true, false, none, some, List, [], ◌∷◌, ◌++◌, ◌==◌,
  length, ltb, if◌then◌else◌,
}
use arm_reimplementation.Runtime.Io.{Run, Outcome, ok, exits, fault, ◌>>=◌, ◌>>◌, pure}
use arm_reimplementation.Gdb.Packet.{
  Link, Writer, set_answer, gdb_send_ack, gdb_require_retransmission, gdb_transmit_packet,
  gdb_packet_check,
}
use arm_reimplementation.Gdb.Scanner.{
  packet_read, Token, plus, minus, packet, other, newline, clear_errors, echo, keep_error,
  handle_error, add_character_to_error, act,
}

-- A computation that succeeds leaves what comes in as it was.
unfoldable pub Keeps : {A : Type 0} → Run Link A → Type 0
Keeps {A} m = (link link' : Link) (a : A) → m link ≡ ok a link' → link'.incoming ≡ link.incoming

out_link : {A : Type 0} → Link → Outcome Link A → Link
out_link l (ok a l') = l'
out_link l (exits n l') = l
out_link l fault = l

bind_cases :
    {A B : Type 0} (o : Outcome Link A) (f : A → Run Link B) (link link' : Link) (b : B)
    → ((a : A) (l : Link) → o ≡ ok a l → l.incoming ≡ link.incoming)
    → ((a : A) → Keeps (f a))
    → ((λ (l : Link). o) >>= f) link ≡ ok b link'
    → link'.incoming ≡ link.incoming
unfolding Keeps
bind_cases (ok a l) f link link' b keeps rest e = rest a l link' b e ∙ keeps a l refl
bind_cases (exits n l) f link link' b keeps rest e = cc e
bind_cases fault f link link' b keeps rest e = cc e

bind-Keeps :
    {A B : Type 0} (m : Run Link A) (f : A → Run Link B)
    → Keeps m
    → ((a : A) → Keeps (f a))
    → Keeps (m >>= f)
unfolding Keeps
bind-Keeps m f keeps rest link link' b e =
    bind_cases (m link) f link link' b (λ a l same. keeps link l a same) rest e

pure-Keeps : {A : Type 0} (a : A) → Keeps {A = A} (pure a)
unfolding Keeps out_link
pure-Keeps a link link' b e = ap (λ o. (out_link link o).incoming) (sym e)

-- A choice by the state.
choice :
    {A : Type 0} (b : Bool) (m k : Run Link A) (link link' : Link) (a : A)
    → Keeps m
    → Keeps k
    → (if b then m link else k link) ≡ ok a link'
    → link'.incoming ≡ link.incoming
unfolding Keeps
choice true m k link link' a hm hk e = hm link link' a e
choice false m k link link' a hm hk e = hk link link' a e

fault-Keeps : (A : Type 0) → Keeps {A = A} (λ l. fault)
unfolding Keeps
fault-Keeps A link link' a e = cc e

clear_errors-Keeps : Keeps clear_errors
unfolding Keeps clear_errors out_link
clear_errors-Keeps link link' a e = ap (λ o. (out_link link o).incoming) (sym e)

echo-Keeps : (c : ℕ) → Keeps (echo c)
unfolding Keeps echo out_link
echo-Keeps c link link' a e = ap (λ o. (out_link link o).incoming) (sym e)

set_answer-Keeps : (s : List ℕ) → Keeps (set_answer s)
unfolding Keeps set_answer out_link
set_answer-Keeps s link link' a e = ap (λ o. (out_link link o).incoming) (sym e)

-- The store of a byte in error.
append_error : ℕ → Run Link (Unit {0})
append_error c l = ok tt (record l { errors = l.errors ++ (c ∷ []) })

append_error-Keeps : (c : ℕ) → Keeps (append_error c)
unfolding Keeps append_error out_link
append_error-Keeps c link link' a e = ap (λ o. (out_link link o).incoming) (sym e)

keep_error-Keeps : (c : ℕ) → Keeps (keep_error c)
unfolding Keeps keep_error append_error
keep_error-Keeps c link link' a e =
    choice (ltb (length link.errors) 1024) (append_error c) (λ l. fault) link link' a
      (append_error-Keeps c) (fault-Keeps (Unit {0})) e

-- A descriptor that is written to leaves what comes in as it is.
module _ (w : Writer) (writes : (bytes : List ℕ) → Keeps (w bytes)) where
  handle_error-Keeps : Keeps (handle_error w)
  unfolding Keeps handle_error gdb_require_retransmission
  handle_error-Keeps link link' a e =
      choice (length link.errors == 0) (pure tt)
        (λ l.
          if ltb (length link.errors) 1024
          then (gdb_require_retransmission w >> clear_errors) l
          else fault)
        link link' a (pure-Keeps tt)
        (λ l l' b h.
          choice (ltb (length link.errors) 1024) (gdb_require_retransmission w >> clear_errors)
            (λ s. fault) l l' b
            (bind-Keeps (w (b'-' ∷ [])) (λ _. clear_errors) (writes (b'-' ∷ []))
              (λ _. clear_errors-Keeps))
            (fault-Keeps (Unit {0})) h)
        e

  add_character-Keeps : (c : ℕ) → Keeps (add_character_to_error w c)
  unfolding Keeps add_character_to_error
  add_character-Keeps c link link' a e =
      if_both Keeps (ltb 1022 (length link.errors)) (handle_error w >> keep_error c) (keep_error c)
        (bind-Keeps (handle_error w) (λ _. keep_error c) handle_error-Keeps
          (λ _. keep_error-Keeps c))
        (keep_error-Keeps c) link link' a e

  transmit-Keeps : Keeps (gdb_transmit_packet w)
  unfolding Keeps gdb_transmit_packet
  transmit-Keeps link link' a e = writes _ link link' a e

  packet_check-Keeps : (s : List ℕ) → Keeps (gdb_packet_check w s)
  unfolding gdb_packet_check gdb_send_ack gdb_require_retransmission
  packet_check-Keeps s =
      if_both Keeps _ _ _
        (bind-Keeps (w (b'+' ∷ [])) _ (writes (b'+' ∷ []))
          (λ _. bind-Keeps (set_answer s) _ (set_answer-Keeps s) (λ _. pure-Keeps true)))
        (bind-Keeps (w (b'-' ∷ [])) _ (writes (b'-' ∷ [])) (λ _. pure-Keeps false))

  pub act-Keeps : (t : Token) → Keeps (act w t)
  unfolding act
  act-Keeps plus = bind-Keeps (handle_error w) _ handle_error-Keeps (λ _. pure-Keeps none)
  act-Keeps minus =
      bind-Keeps (handle_error w) _ handle_error-Keeps
        (λ _. bind-Keeps (gdb_transmit_packet w) _ transmit-Keeps (λ _. pure-Keeps none))
  act-Keeps (packet s) = bind-Keeps (handle_error w) _ handle_error-Keeps (λ _.
      bind-Keeps (gdb_packet_check w s) _ (packet_check-Keeps s)
        (λ result. if_both Keeps result _ _ (pure-Keeps (some packet_read)) (pure-Keeps none)))
  act-Keeps (other c) =
      bind-Keeps (add_character_to_error w c) _ (add_character-Keeps c) (λ _. pure-Keeps none)
  act-Keeps newline = bind-Keeps (echo 10) _ (echo-Keeps 10) (λ _. pure-Keeps none)
