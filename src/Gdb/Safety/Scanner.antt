-- ===== src/Gdb/Safety/Scanner.antt =====
-- The scanner against the arrays of the connection.
use arm_reimplementation.Base.{
  if_both, ℕ, zero, suc, ◌+◌, ◌≤◌, ◌<◌, ◌≡◌, refl, ap, true, none, some, Option, List, [], ◌∷◌,
  ◌++◌, ◌==◌, ltb, length, if◌then◌else◌, arith, length-append,
}
use arm_reimplementation.Runtime.Io.{Run, Outcome, ok, fault, ◌>>=◌, ◌>>◌, pure}
use arm_reimplementation.Gdb.Packet.{
  Link, Writer, gdb_require_retransmission, gdb_transmit_packet, gdb_packet_check,
}
use arm_reimplementation.Gdb.Scanner.{
  Answer, packet_read, end_of_file, Token, plus, minus, packet, other, newline, next_token,
  clear_errors, echo, keep_error, handle_error, add_character_to_error, act, scan, gdb_get_packet,
}
use arm_reimplementation.Gdb.Scanner.Rounds.{next_token-left}
use arm_reimplementation.Gdb.Safety.{
  Stays, IsSound, IsReady, OnlySends, bind_Stays, bind-IsSound, pure-IsSound, choose-IsSound,
  choose_run-IsSound, Stays-weaken, require_retransmission-IsSound, transmit_packet-IsSound,
  packet_check-IsSound,
}

-- Ready, with no byte in error.
IsClear : ℕ → Link → Type 0
IsClear n link = IsReady n link × (link.errors ≡ [])

clear_errors_clears : (n : ℕ) (link : Link) → IsReady n link → Stays (IsClear n) (clear_errors link)
unfolding Stays IsClear IsReady clear_errors
clear_errors_clears n link h = ((h.0, h.1, omega arith, h.3, h.4), refl)

no_errors : (errors : List ℕ) → (length errors == 0) ≡ true → errors ≡ []
no_errors [] e = refl
no_errors (x ∷ xs) e = absurd (ground arith)

keep_error-IsReady :
    (n c : ℕ) (link : Link)
    → IsReady n link
    → length link.errors ≤ 1022
    → Stays (IsReady n) (keep_error c link)
unfolding Stays IsReady keep_error
keep_error-IsReady n c link h room =
    choose-IsSound (IsReady n) (ltb (length link.errors) 1024)
      (λ l. ok tt (record l { errors = l.errors ++ (c ∷ []) })) (λ l. fault) link
      (λ e. (h.0, h.1, omega (arith, length-append link.errors (c ∷ [])), h.3, h.4))
      (λ e. ground arith)

echo-IsSound : (n c : ℕ) → IsSound (IsReady n) (echo c)
unfolding IsSound Stays IsReady echo
echo-IsSound n c link h = h

module _ (w : Writer) (only : OnlySends w) where
  handle_error_clears :
      (n : ℕ) (link : Link) → IsReady n link → Stays (IsClear n) (handle_error w link)
  unfolding Stays IsSound handle_error IsReady IsClear
  handle_error_clears n link h =
      choose-IsSound (IsClear n) (length link.errors == 0) (pure tt)
        (λ l.
          if ltb (length l.errors) 1024
          then (gdb_require_retransmission w >> clear_errors) l
          else fault)
        link (λ e. (h, no_errors link.errors e))
        (λ e.
          choose-IsSound (IsClear n) (ltb (length link.errors) 1024)
            (gdb_require_retransmission w >> clear_errors) (λ l. fault) link
            (λ f.
              bind_Stays (IsReady n) (IsClear n) (gdb_require_retransmission w) (λ _. clear_errors)
                link (require_retransmission-IsSound w only n link h)
                (λ a l k. clear_errors_clears n l k))
            (λ f. ground arith))

  handle_error-IsSound : (n : ℕ) → IsSound (IsReady n) (handle_error w)
  unfolding IsSound IsClear
  handle_error-IsSound n link h =
      Stays-weaken (IsClear n) (IsReady n) (handle_error w link) (λ l k. k.0)
        (handle_error_clears n link h)

  add_character-IsSound : (n c : ℕ) → IsSound (IsReady n) (add_character_to_error w c)
  unfolding IsSound add_character_to_error IsClear
  add_character-IsSound n c link h =
      choose_run-IsSound (IsReady n) (ltb 1022 (length link.errors))
        (handle_error w >> keep_error c) (keep_error c) link
        (λ e.
          bind_Stays (IsClear n) (IsReady n) (handle_error w) (λ _. keep_error c) link
            (handle_error_clears n link h)
            (λ a l k. keep_error-IsReady n c l k.0 (omega (arith, ap length k.1))))
        (λ e. keep_error-IsReady n c link h (ground arith))

  act-IsSound : (n : ℕ) (t : Token) → IsSound (IsReady n) (act w t)
  unfolding act
  act-IsSound n plus =
      bind-IsSound (IsReady n) (handle_error w) _ (handle_error-IsSound n)
        (λ _. pure-IsSound (IsReady n) none)
  act-IsSound n minus = bind-IsSound (IsReady n) (handle_error w) _ (handle_error-IsSound n) (λ _.
      bind-IsSound (IsReady n) (gdb_transmit_packet w) _ (transmit_packet-IsSound w only n)
        (λ _. pure-IsSound (IsReady n) none))
  act-IsSound n (packet s) =
      bind-IsSound (IsReady n) (handle_error w) _ (handle_error-IsSound n) (λ _.
        bind-IsSound (IsReady n) (gdb_packet_check w s) _ (packet_check-IsSound w only n s)
          (λ result.
            if_both (IsSound (IsReady n)) result _ _ (pure-IsSound (IsReady n) (some packet_read))
              (pure-IsSound (IsReady n) none)))
  act-IsSound n (other c) =
      bind-IsSound (IsReady n) (add_character_to_error w c) _ (add_character-IsSound n c)
        (λ _. pure-IsSound (IsReady n) none)
  act-IsSound n newline =
      bind-IsSound (IsReady n) (echo 10) _ (echo-IsSound n 10) (λ _. pure-IsSound (IsReady n) none)

  IsReady-less : (n m : ℕ) (link : Link) → n ≤ m → IsReady n link → IsReady m link
  unfolding IsReady
  IsReady-less n m link h k = (k.0, k.1, k.2, omega arith, k.4)

  -- A round, where the bytes behind it are scanned well.
  scan_round :
      (n fuel : ℕ) (link : Link)
      → ((m : ℕ) → m < fuel → IsSound (IsReady m) (scan w fuel))
      → IsReady n link
      → n < suc fuel
      → (input : List ℕ) → length input ≤ n
      → Stays (IsReady n) (elim input as (λ x. Outcome Link Answer) [
        | [] ↦ (handle_error w >> pure end_of_file) link
        | c ∷ cs ↦
            (act w (next_token c cs).0 >>= λ r. elim r [ some a ↦ pure a | none ↦ scan w fuel ])
              (record link { incoming = (next_token c cs).1 })
      ])
  unfolding IsSound IsReady
  scan_round n fuel link again h enough [] fits =
      bind-IsSound (IsReady n) (handle_error w) _ (handle_error-IsSound n)
        (λ _. pure-IsSound (IsReady n) end_of_file) link h
  scan_round n fuel link again h enough (c ∷ cs) fits =
      Stays-weaken (IsReady (length cs)) (IsReady n) _
        (λ l k. IsReady-less (length cs) n l (omega arith) k)
        (bind_Stays (IsReady (length cs)) (IsReady (length cs)) (act w (next_token c cs).0) _
          (record link { incoming = (next_token c cs).1 })
          (act-IsSound (length cs) (next_token c cs).0
            (record link { incoming = (next_token c cs).1 })
            (h.0, h.1, h.2, next_token-left c cs, h.4))
          (λ r l k. on_result r l k))
    where
      on_result :
          (r : Option Answer) (l : Link)
          → IsReady (length cs) l
          → Stays
              (IsReady (length cs))
              ((elim r as (λ x. Run Link Answer) [ some a ↦ pure a | none ↦ scan w fuel ]) l)
      on_result none l k = again (length cs) (omega arith) l k
      on_result (some a) l k = pure-IsSound (IsReady (length cs)) a l k

  scan-IsSound : (fuel n : ℕ) → n < fuel → IsSound (IsReady n) (scan w fuel)
  unfolding IsSound scan IsReady
  scan-IsSound zero n h link k = absurd (omega arith)
  scan-IsSound (suc fuel) n h link k =
      scan_round n fuel link (λ m g. scan-IsSound fuel m g) k h link.incoming k.3

  pub get_packet-IsSound : (n : ℕ) → IsSound (IsReady n) (gdb_get_packet w)
  unfolding IsSound gdb_get_packet IsReady
  get_packet-IsSound n link h =
      Stays-weaken (IsReady (length link.incoming)) (IsReady n) _
        (λ l k. IsReady-less (length link.incoming) n l h.3 k)
        (scan-IsSound (length link.incoming + 1) (length link.incoming) (omega arith) link
          (h.0, h.1, h.2, omega arith, h.4))
