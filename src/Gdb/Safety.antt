-- ===== src/Gdb/Safety.antt =====
-- What a computation on the connection keeps, and that it does not end in undefined behaviour.
pub mod Scanner
pub mod Commands
use arm_reimplementation.Base.{
  if_both, ℕ, zero, suc, ◌+◌, ◌≤◌, ◌<◌, ◌≡◌, ◌⊎◌, inl, inr, refl, sym, ap, ◌∙◌, Bool, true, false,
  none, some, List, [], ◌∷◌, ◌++◌, ◌==◌, leb, ltb, length, take, drop, if◌then◌else◌, arith, subst,
  le→leb, length-append,
}
use arm_reimplementation.Runtime.Bytes.{poke, write_at}
use arm_reimplementation.Runtime.Bytes.Stores.{poke_in_bounds, length-write_at}
use arm_reimplementation.Runtime.Io.{Run, Outcome, ok, exits, fault, ◌>>=◌, ◌>>◌, pure}
use arm_reimplementation.Runtime.Printf.{print_hex_width}
use arm_reimplementation.Runtime.Printf.RoundTrip.{length-print_hex_width}
use arm_reimplementation.Gdb.Packet.{
  Link, Writer, checksum, put_packet, set_len, seal, set_answer, gdb_send_ack,
  gdb_require_retransmission, gdb_transmit_packet, gdb_send_buffer, gdb_send_data, gdb_packet_check,
}
use arm_reimplementation.Gdb.Packet.Framing.{checksum-lt}

-- An outcome is a state of which P holds, or the end of the program; it is never undefined.
unfoldable pub Stays : {A : Type 0} → (Link → Type 0) → Outcome Link A → Type 0
Stays P (ok a l) = P l
Stays P (exits n l) = Unit {0}
Stays P fault = ⊥

-- A computation keeps P, and is never undefined where P holds.
unfoldable pub IsSound : {A : Type 0} → (Link → Type 0) → Run Link A → Type 0
IsSound P m = (link : Link) → P link → Stays P (m link)

bind_outcome :
    {A B : Type 0} (P Q : Link → Type 0) (o : Outcome Link A) (f : A → Run Link B) (link : Link)
    → Stays P o
    → ((a : A) (l : Link) → P l → Stays Q (f a l))
    → Stays Q (((λ (l : Link). o) >>= f) link)
unfolding Stays
bind_outcome P Q (ok a l) f link h k = k a l h
bind_outcome P Q (exits n l) f link h k = tt
bind_outcome P Q fault f link h k = h

-- A step that may hand on more than it takes.
pub bind_Stays :
    {A B : Type 0} (P Q : Link → Type 0) (m : Run Link A) (f : A → Run Link B) (link : Link)
    → Stays P (m link)
    → ((a : A) (l : Link) → P l → Stays Q (f a l))
    → Stays Q ((m >>= f) link)
bind_Stays P Q m f link h k = bind_outcome P Q (m link) f link h k

pub bind-IsSound :
    {A B : Type 0} (P : Link → Type 0) (m : Run Link A) (f : A → Run Link B)
    → IsSound P m
    → ((a : A) → IsSound P (f a))
    → IsSound P (m >>= f)
unfolding IsSound
bind-IsSound P m f h k link p = bind_Stays P P m f link (h link p) k

pub pure-IsSound : {A : Type 0} (P : Link → Type 0) (a : A) → IsSound P (pure a)
unfolding IsSound Stays
pure-IsSound P a link p = p

pub Stays-weaken :
    {A : Type 0} (P Q : Link → Type 0) (o : Outcome Link A)
    → ((l : Link) → P l → Q l)
    → Stays P o
    → Stays Q o
unfolding Stays
Stays-weaken P Q (ok a l) h k = h l k
Stays-weaken P Q (exits n l) h k = tt
Stays-weaken P Q fault h k = k

-- The connection is in use: its arrays have their sizes, the counters lie in them, no more than `n`
-- bytes are still to come in, and it has not been freed.
unfoldable pub IsReady : ℕ → Link → Type 0
IsReady n link =
    (length link.packet ≡ 1024)
    × (link.len ≤ 1024)
    × (length link.errors ≤ 1023)
    × (length link.incoming ≤ n)
    × (link.alive ≡ true)

-- Writing changes nothing of the connection but what went out, or ends the program.
unfoldable pub OnlySends : Writer → Type 0
OnlySends w =
    (bytes : List ℕ) (link : Link)
    → ((sent : List ℕ) × (w bytes link ≡ ok tt (record link { sent = sent })))
      ⊎ ((n : ℕ) × (l : Link) × (w bytes link ≡ exits n l))

put_outcome :
    (n i : ℕ) (bytes : List ℕ) (link : Link)
    → i + length bytes ≤ 1024
    → IsReady n link
    → Stays (IsReady n) (elim (poke link.packet i bytes) as (λ x. Outcome Link (Unit {0})) [
      | none ↦ fault
      | some packet' ↦ ok tt (record link { packet = packet' })
    ])
unfolding Stays IsReady
put_outcome n i bytes link room h =
    subst
      (λ p. Stays (IsReady n) (elim p as (λ x. Outcome Link (Unit {0})) [
        | none ↦ fault
        | some packet' ↦ ok tt (record link { packet = packet' })
      ]))
      (sym (poke_in_bounds link.packet i bytes (omega (arith, h.0))))
      (length-write_at link.packet i bytes ∙ h.0, h.1, h.2, h.3, h.4)

pub put_packet-IsSound :
    (n i : ℕ) (bytes : List ℕ) → i + length bytes ≤ 1024 → IsSound (IsReady n) (put_packet i bytes)
unfolding IsSound put_packet
put_packet-IsSound n i bytes room link h = put_outcome n i bytes link room h

pub set_len-IsSound : (n k : ℕ) → k ≤ 1024 → IsSound (IsReady n) (set_len k)
unfolding IsSound Stays set_len IsReady
set_len-IsSound n k room link h = (h.0, room, h.2, h.3, h.4)

pub set_answer-IsSound : (n : ℕ) (s : List ℕ) → IsSound (IsReady n) (set_answer s)
unfolding IsSound Stays set_answer IsReady
set_answer-IsSound n s link h = h

-- A test of a choice by the state.
pub choose-IsSound :
    {A : Type 0} (P : Link → Type 0) (b : Bool) (m k : Run Link A) (link : Link)
    → (b ≡ true → Stays P (m link))
    → (b ≡ false → Stays P (k link))
    → Stays P (if b then m link else k link)
choose-IsSound P true m k link hm hk = hm refl
choose-IsSound P false m k link hm hk = hk refl

-- The same of a choice of what to run.
pub choose_run-IsSound :
    {A : Type 0} (P : Link → Type 0) (b : Bool) (m k : Run Link A) (link : Link)
    → (b ≡ true → Stays P (m link))
    → (b ≡ false → Stays P (k link))
    → Stays P ((if b then m else k) link)
choose_run-IsSound P true m k link hm hk = hm refl
choose_run-IsSound P false m k link hm hk = hk refl

-- The checksum's digits go behind `n` bytes of content.
pub seal-IsSound : (n k : ℕ) → k ≤ 1019 → IsSound (IsReady n) (seal k)
unfolding IsSound IsReady seal
seal-IsSound n k room link h =
    choose-IsSound (IsReady n) (leb (1 + k) (length link.packet)) stores (λ l. fault) link
      (λ e.
        bind-IsSound (IsReady n) (put_packet (1 + k) (b'#' ∷ [])) _
          (put_packet-IsSound n (1 + k) (b'#' ∷ []) (omega arith))
          (λ _.
            bind-IsSound (IsReady n) (put_packet (2 + k) (digits ++ (0 ∷ []))) _
              (put_packet-IsSound n (2 + k) (digits ++ (0 ∷ []))
                (omega (arith, length-append digits (0 ∷ []), two_digits)))
              (λ _.
                bind-IsSound (IsReady n) (put_packet (4 + k) (0 ∷ [])) _
                  (put_packet-IsSound n (4 + k) (0 ∷ []) (omega arith))
                  (λ _. set_len-IsSound n (4 + k) (omega arith))))
          link h)
      (λ e. absurd (ground arith))
  where
    check : ℕ
    check = checksum (take k (drop 1 link.packet)) 0

    digits : List ℕ
    digits = print_hex_width 2 check

    two_digits : length digits ≡ 2
    two_digits =
        length-print_hex_width 1 check (checksum-lt (take k (drop 1 link.packet)) 0 (omega arith))

    stores : Run Link (Unit {0})
    stores =
        put_packet (1 + k) (b'#' ∷ [])
        >> (put_packet (2 + k) (digits ++ (0 ∷ []))
            >> (put_packet (4 + k) (0 ∷ []) >> set_len (4 + k)))

module _ (w : Writer) (only : OnlySends w) where
  write-IsSound : (n : ℕ) (bytes : List ℕ) → IsSound (IsReady n) (w bytes)
  unfolding IsSound Stays IsReady OnlySends
  write-IsSound n bytes link h = elim (only bytes link) [
    | inl (sent, e) ↦ subst (Stays (IsReady n)) (sym e) h
    | inr (code, l, e) ↦ subst (Stays (IsReady n)) (sym e) tt
  ]

  pub require_retransmission-IsSound : (n : ℕ) → IsSound (IsReady n) (gdb_require_retransmission w)
  unfolding gdb_require_retransmission
  require_retransmission-IsSound n = write-IsSound n (b'-' ∷ [])

  pub transmit_packet-IsSound : (n : ℕ) → IsSound (IsReady n) (gdb_transmit_packet w)
  unfolding IsSound gdb_transmit_packet
  transmit_packet-IsSound n link h = write-IsSound n (take link.len link.packet) link h

  pub packet_check-IsSound : (n : ℕ) (s : List ℕ) → IsSound (IsReady n) (gdb_packet_check w s)
  unfolding gdb_packet_check gdb_send_ack gdb_require_retransmission
  packet_check-IsSound n s =
      if_both (IsSound (IsReady n)) _ _ _
        (bind-IsSound (IsReady n) (w (b'+' ∷ [])) _ (write-IsSound n (b'+' ∷ [])) (λ _.
          bind-IsSound (IsReady n) (set_answer s) _ (set_answer-IsSound n s)
            (λ _. pure-IsSound (IsReady n) true)))
        (bind-IsSound (IsReady n) (w (b'-' ∷ [])) _ (write-IsSound n (b'-' ∷ []))
          (λ _. pure-IsSound (IsReady n) false))

  -- A content of at most 1019 bytes has room for its frame.
  send_content :
      (n k : ℕ)
      → k ≤ 1019
      → IsSound (IsReady n) (put_packet 0 (b'$' ∷ []) >> (seal k >> gdb_transmit_packet w))
  send_content n k room =
      bind-IsSound (IsReady n) (put_packet 0 (b'$' ∷ [])) _
        (put_packet-IsSound n 0 (b'$' ∷ []) (omega arith))
        (λ _.
          bind-IsSound (IsReady n) (seal k) _ (seal-IsSound n k room)
            (λ _. transmit_packet-IsSound n))

  pub set_and_send-IsSound :
      (n k : ℕ) → k ≤ 1019 → IsSound (IsReady n) (set_len k >> gdb_send_buffer w)
  unfolding IsSound gdb_send_buffer set_len IsReady
  set_and_send-IsSound n k room link h =
      send_content n k room (record link { len = k }) (h.0, omega arith, h.2, h.3, h.4)

  pub set_send_then :
      {A : Type 0} (n k : ℕ) (rest : Run Link A)
      → k ≤ 1019
      → IsSound (IsReady n) rest
      → IsSound (IsReady n) (set_len k >> (gdb_send_buffer w >> rest))
  unfolding IsSound set_len IsReady
  set_send_then n k rest room h link ready =
      bind_Stays (IsReady n) (IsReady n) (gdb_send_buffer w) (λ _. rest) (record link { len = k })
        (set_and_send-IsSound n k room link ready) (λ _. h)

  pub send_data-IsSound :
      (n : ℕ) (bytes : List ℕ) → length bytes ≤ 1019 → IsSound (IsReady n) (gdb_send_data w bytes)
  unfolding gdb_send_data
  send_data-IsSound n bytes room =
      bind-IsSound (IsReady n) (put_packet 1 (bytes ++ (0 ∷ []))) _
        (put_packet-IsSound n 1 (bytes ++ (0 ∷ [])) (omega (arith, length-append bytes (0 ∷ []))))
        (λ _. set_and_send-IsSound n (length bytes) room)
