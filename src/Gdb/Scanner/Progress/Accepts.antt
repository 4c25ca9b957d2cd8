-- ===== src/Gdb/Scanner/Progress/Accepts.antt =====
-- What the scanner does with a frame behind bytes that start no packet.
use arm_reimplementation.Base.{
  ℕ, zero, suc, ◌+◌, ◌≤◌, ◌<◌, ◌≡◌, ◌≢◌, refl, sym, ap, ◌∙◌, Bool, true, false, Option, none, some,
  List, [], ◌∷◌, ◌++◌, length, if◌then◌else◌, arith, subst, All, length-append, append_assoc,
}
use arm_reimplementation.Runtime.Printf.{print_hex_width}
use arm_reimplementation.Runtime.Io.{Run, ok, ◌>>=◌, ◌>>◌, pure}
use arm_reimplementation.Gdb.Packet.{
  Link, Writer, checksum, set_answer, gdb_send_ack, gdb_packet_check,
}
use arm_reimplementation.Gdb.Packet.Framing.{frame}
use arm_reimplementation.Gdb.Scanner.{
  Answer, packet_read, end_of_file, Token, packet, next_token, handle_error, act, scan,
  gdb_get_packet,
}
use arm_reimplementation.Gdb.Scanner.Frames.{IsPlain, next_token_lem, packet_check_lem}
use arm_reimplementation.Gdb.Scanner.Progress.{
  Returns, returned, bind_Returns, Awaits, AwaitsClear, AlwaysSends, plain_token, next_token_plain,
  GoesOn, Goes, write_clear, handle_error_clear, act_plain,
}

-- The packet is accepted.
Accepted : List ℕ → List ℕ → Option Answer → Link → Type 0
Accepted content input r l =
    (r ≡ some packet_read) × (l.incoming ≡ input) × (l.answer ≡ frame content)

Checked : List ℕ → List ℕ → Bool → Link → Type 0
Checked content input b l = (b ≡ true) × (l.incoming ≡ input) × (l.answer ≡ frame content)

-- The outcome of the scanner.
Finds : List ℕ → List ℕ → Answer → Link → Type 0
Finds content input a l = (a ≡ packet_read) × (l.incoming ≡ input) × (l.answer ≡ frame content)

module _ (w : Writer) (sends : AlwaysSends w) where
  checks :
      (content input : List ℕ) (link : Link)
      → AwaitsClear input link
      → Returns (Checked content input) (gdb_packet_check w (frame content) link)
  unfolding gdb_send_ack set_answer Returns Checked AwaitsClear
  checks content input link h =
      subst (λ m. Returns (Checked content input) (m link)) (sym (packet_check_lem w content))
        (bind_Returns (λ u. AwaitsClear input) (Checked content input) (w (b'+' ∷ []))
          (λ _. set_answer (frame content) >> pure true) link
          (write_clear w sends (b'+' ∷ []) input link h) (λ a l k. (refl, k.1, refl)))

  on_check :
      (content input : List ℕ) (b : Bool) (l : Link)
      → Checked content input b l
      → Returns
          (Accepted content input)
          ((if b then pure {S = Link} (some packet_read) else pure none) l)
  unfolding Checked Returns Accepted
  on_check content input true l h = (refl, h.1, h.2)
  on_check content input false l h = absurd (ground arith)

  act-frame :
      (content input : List ℕ) (link : Link)
      → Awaits input link
      → Returns (Accepted content input) (act w (packet (frame content)) link)
  unfolding act
  act-frame content input link h =
      bind_Returns (λ u. AwaitsClear input) (Accepted content input) (handle_error w) _ link
        (handle_error_clear w sends input link h)
        (λ a l k.
          bind_Returns (Checked content input) (Accepted content input)
            (gdb_packet_check w (frame content)) _ l (checks content input l k)
            (λ b m j. on_check content input b m j))

  -- A round on an input that is not empty.
  round_on :
      (P : Answer → Link → Type 0) (fuel c : ℕ) (cs : List ℕ) (t : Token) (rest : List ℕ)
      (link : Link)
      → link.incoming ≡ c ∷ cs
      → next_token c cs ≡ (t, rest)
      → Returns P (
          (act w t >>= λ r. elim r [ some a ↦ pure a | none ↦ scan w fuel ])
            (record link { incoming = rest }))
      → Returns P (scan w (suc fuel) link)
  unfolding scan
  round_on P fuel c cs t rest link has token h =
      subst (Returns P)
        (sym (
          (λ i. elim (has i) [
            | [] ↦ (handle_error w >> pure end_of_file) link
            | b ∷ bs ↦
                (act w (next_token b bs).0 >>= λ r. elim r [ some a ↦ pure a | none ↦ scan w fuel ])
                  (record link { incoming = (next_token b bs).1 })
          ])
          ∙ (λ i.
              (act w (token i).0 >>= λ r. elim r [ some a ↦ pure a | none ↦ scan w fuel ])
                (record link { incoming = (token i).1 }))))
        h

  on_frame :
      (content input : List ℕ) (fuel : ℕ) (r : Option Answer) (l : Link)
      → Accepted content input r l
      → Returns
          (Finds content input)
          ((elim r as (λ x. Run Link Answer) [ some a ↦ pure a | none ↦ scan w fuel ]) l)
  unfolding Accepted Returns Finds
  on_frame content input fuel none l h = absurd (ground arith)
  on_frame content input fuel (some packet_read) l h = (refl, h.1, h.2)
  on_frame content input fuel (some end_of_file) l h = absurd (cc h.0)

  frame_front :
      (content rest : List ℕ) (link : Link)
      → Awaits (frame content ++ rest) link
      → link.incoming
        ≡ b'$' ∷ (content ++ (b'#' ∷ (print_hex_width 2 (checksum content 0) ++ rest)))
  unfolding Awaits frame
  frame_front content rest link h =
      h.1
      ∙ ap (λ (t : List ℕ). b'$' ∷ t)
          (append_assoc content (b'#' ∷ print_hex_width 2 (checksum content 0)) rest)

  scan-frame :
      (content rest : List ℕ) (fuel : ℕ) (link : Link)
      → All IsPlain content
      → Awaits (frame content ++ rest) link
      → Returns (Finds content rest) (scan w (suc fuel) link)
  unfolding Awaits
  scan-frame content rest fuel link inside h =
      round_on (Finds content rest) fuel b'$'
        (content ++ (b'#' ∷ (print_hex_width 2 (checksum content 0) ++ rest)))
        (packet (frame content)) rest link (frame_front content rest link h)
        (next_token_lem content rest inside)
        (bind_Returns (Accepted content rest) (Finds content rest) (act w (packet (frame content)))
          _ (record link { incoming = rest })
          (act-frame content rest (record link { incoming = rest }) (h.0, refl))
          (λ r l k. on_frame content rest fuel r l k))

  -- Bytes that start no packet are passed over, and the frame behind them is found.
  scan-Finds :
      (noise content rest : List ℕ) (fuel : ℕ) (link : Link)
      → All (λ c. c ≢ b'$') noise
      → All IsPlain content
      → length noise < fuel
      → Awaits (noise ++ (frame content ++ rest)) link
      → Returns (Finds content rest) (scan w fuel link)
  unfolding Awaits GoesOn Returns Goes
  scan-Finds noise content rest zero link plain inside enough h = absurd (omega arith)
  scan-Finds [] content rest (suc fuel) link plain inside enough h =
      scan-frame content rest fuel link inside h
  scan-Finds (c ∷ cs) content rest (suc fuel) link plain inside enough h =
      round_on (Finds content rest) fuel c (cs ++ (frame content ++ rest)) (plain_token c)
        (cs ++ (frame content ++ rest)) link h.1
        (next_token_plain c (cs ++ (frame content ++ rest)) plain.0)
        (bind_Returns (GoesOn (cs ++ (frame content ++ rest))) (Finds content rest)
          (act w (plain_token c)) _ (record link { incoming = cs ++ (frame content ++ rest) })
          (act_plain w sends c (cs ++ (frame content ++ rest))
            (record link { incoming = cs ++ (frame content ++ rest) }) (h.0, refl))
          (λ r l k.
            on_noise (λ m j. scan-Finds cs content rest fuel m plain.1 inside (omega arith) j) r l
              k))
    where
      on_noise :
          ((m : Link)
            → Awaits (cs ++ (frame content ++ rest)) m
            → Returns (Finds content rest) (scan w fuel m))
          → (r : Option Answer) (l : Link) → GoesOn (cs ++ (frame content ++ rest)) r l
          → Returns
              (Finds content rest)
              ((elim r as (λ x. Run Link Answer) [ some a ↦ pure a | none ↦ scan w fuel ]) l)
      on_noise again none l k = again l k.1
      on_noise again (some a) l k = absurd (ground arith)

-- Whatever comes before it, as long as no byte of that is `$`, the frame of a content without `$` and
-- `#` is found: the scanner comes back with it as the answer, and what comes behind the frame stays.
-- Bytes that are no acknowledgement and no request are asked for again, and do not stop it. The
-- conditions are that writing succeeds and that the bytes in error are in their array.
pub get_packet_finds :
    (w : Writer) (link : Link) (noise content rest : List ℕ)
    → AlwaysSends w
    → length link.errors ≤ 1023
    → All (λ c. c ≢ b'$') noise
    → All IsPlain content
    → link.incoming ≡ noise ++ (frame content ++ rest)
    → (link' : Link) × (gdb_get_packet w link ≡ ok packet_read link')
      × (link'.incoming ≡ rest)
      × (link'.answer ≡ frame content)
unfolding gdb_get_packet Awaits Finds
get_packet_finds w link noise content rest sends room plain inside has =
    let (a, l, e, found) = returned (Finds content rest) (scan w (length link.incoming + 1) link) (
      scan-Finds w sends noise content rest (length link.incoming + 1) link plain inside
        (omega (arith, ap length has, length-append noise (frame content ++ rest))) (room, has)) in
    (l, e ∙ ap (λ b. ok b l) found.0, found.1, found.2)
