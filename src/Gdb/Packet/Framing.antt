-- ===== src/Gdb/Packet/Framing.antt =====
-- `gdb_send_buffer`, and the frame of a packet's content.
use arm_reimplementation.Base.{
  ℕ, ◌+◌, ◌%◌, ◌≤◌, ◌<◌, ◌≡◌, refl, sym, ap, ◌∙◌, true, none, some, List, [], ◌∷◌, ◌++◌,
  append_assoc, leb, length, take, drop, length-append, take-append_self, arith, if◌then◌else◌,
  le→leb,
}
use arm_reimplementation.Runtime.Bytes.{poke}
use arm_reimplementation.Runtime.Bytes.Stores.{poke-append}
use arm_reimplementation.Runtime.Io.{ok, fault, ◌>>◌, bind_ok}
use arm_reimplementation.Runtime.Printf.{print_hex_width}
use arm_reimplementation.Runtime.Printf.RoundTrip.{length-print_hex_width}
use arm_reimplementation.Gdb.Packet.{
  Link, Writer, checksum, put_packet, set_len, seal, gdb_send_buffer, gdb_transmit_packet,
}

-- The frame of a content: `$`, the content, `#` and the checksum in two digits.
unfoldable pub frame : List ℕ → List ℕ
frame content = b'$' ∷ (content ++ (b'#' ∷ print_hex_width 2 (checksum content 0)))

pub checksum-lt : (s : List ℕ) (acc : ℕ) → acc < 256 → checksum s acc < 256
unfolding checksum
checksum-lt [] acc h = h
checksum-lt (c ∷ cs) acc h = checksum-lt cs ((acc + c) % 256) (omega arith)

-- A store behind a prefix of the packet.
pub put_behind :
    (link : Link) (pre rest vs : List ℕ) (i : ℕ)
    → link.packet ≡ pre ++ rest
    → i ≡ length pre
    → length vs ≤ length rest
    → put_packet i vs link ≡ ok tt (record link { packet = pre ++ (vs ++ drop (length vs) rest) })
unfolding put_packet
put_behind link pre rest vs i has at fits = λ d.
    elim (((λ k. poke (has k) (at k) vs) ∙ poke-append pre rest vs fits) d) [
      | none ↦ fault
      | some packet' ↦ ok tt (record link { packet = packet' })
    ]

pub two_items : (l : List ℕ) → length l ≡ 2 → (x : ℕ) × (y : ℕ) × (l ≡ x ∷ y ∷ [])
two_items [] h = absurd (omega arith)
two_items (x ∷ []) h = absurd (omega arith)
two_items (x ∷ y ∷ []) h = (x, y, refl)
two_items (x ∷ y ∷ z ∷ l) h = absurd (omega arith)

-- The digits are given as `h ∷ l ∷ []` here.
seal_content :
    (link : Link) (content rest : List ℕ) (a b c d h l : ℕ)
    → print_hex_width 2 (checksum content 0) ≡ h ∷ l ∷ []
    → seal (length content) (record link { packet = b'$' ∷ (content ++ (a ∷ b ∷ c ∷ d ∷ rest)) })
      ≡ ok tt (record link {
        packet = b'$' ∷ (content ++ (b'#' ∷ h ∷ l ∷ 0 ∷ rest));
        len = 4 + length content;
      })
unfolding seal
seal_content link content rest a b c d h l digits =
    (λ i.
      if room i
      then (put_packet (1 + n) (b'#' ∷ [])
            >> (put_packet (2 + n) (hex i ++ (0 ∷ []))
                >> (put_packet (4 + n) (0 ∷ []) >> set_len (4 + n))))
          start
      else fault)
    ∙ bind_ok (put_packet (1 + n) (b'#' ∷ []))
        (λ _.
          put_packet (2 + n) (h ∷ l ∷ 0 ∷ []) >> (put_packet (4 + n) (0 ∷ []) >> set_len (4 + n)))
        (put_behind start (b'$' ∷ content) (a ∷ b ∷ c ∷ d ∷ rest) (b'#' ∷ []) (1 + n) refl
          (omega arith) (omega arith))
    ∙ bind_ok (put_packet (2 + n) (h ∷ l ∷ 0 ∷ []))
        (λ _. put_packet (4 + n) (0 ∷ []) >> set_len (4 + n))
        (put_behind second (b'$' ∷ (content ++ (b'#' ∷ []))) (b ∷ c ∷ d ∷ rest) (h ∷ l ∷ 0 ∷ [])
          (2 + n)
          (ap (λ (t : List ℕ). b'$' ∷ t)
            (sym (append_assoc content (b'#' ∷ []) (b ∷ c ∷ d ∷ rest))))
          (omega (arith, length-append content (b'#' ∷ []))) (omega arith))
    ∙ bind_ok (put_packet (4 + n) (0 ∷ [])) (λ _. set_len (4 + n))
        (put_behind third (b'$' ∷ (content ++ (b'#' ∷ h ∷ l ∷ []))) (0 ∷ rest) (0 ∷ []) (4 + n)
          (ap (λ (t : List ℕ). b'$' ∷ t) regroup)
          (omega (arith, length-append content (b'#' ∷ h ∷ l ∷ []))) (omega arith))
    ∙ (λ i.
        set_len (4 + n)
          (record link { packet = b'$' ∷ append_assoc content (b'#' ∷ h ∷ l ∷ []) (0 ∷ rest) i }))
    ∙ (unfold set_len in refl)
  where
    n : ℕ
    n = length content

    start : Link
    start = record link { packet = b'$' ∷ (content ++ (a ∷ b ∷ c ∷ d ∷ rest)) }

    second : Link
    second = record link { packet = b'$' ∷ (content ++ (b'#' ∷ b ∷ c ∷ d ∷ rest)) }

    third : Link
    third = record link { packet = b'$' ∷ ((content ++ (b'#' ∷ [])) ++ (h ∷ l ∷ 0 ∷ rest)) }

    room : leb (1 + n) (length (b'$' ∷ (content ++ (a ∷ b ∷ c ∷ d ∷ rest)))) ≡ true
    room = le→leb _ _ (omega (arith, length-append content (a ∷ b ∷ c ∷ d ∷ rest)))

    hex : print_hex_width 2 (checksum (take n (content ++ (a ∷ b ∷ c ∷ d ∷ rest))) 0) ≡ h ∷ l ∷ []
    hex =
        ap (λ t. print_hex_width 2 (checksum t 0)) (take-append_self content (a ∷ b ∷ c ∷ d ∷ rest))
        ∙ digits

    regroup :
        (content ++ (b'#' ∷ [])) ++ (h ∷ l ∷ 0 ∷ rest)
        ≡ (content ++ (b'#' ∷ h ∷ l ∷ [])) ++ (0 ∷ rest)
    regroup =
        append_assoc content (b'#' ∷ []) (h ∷ l ∷ 0 ∷ rest)
        ∙ sym (append_assoc content (b'#' ∷ h ∷ l ∷ []) (0 ∷ rest))

pub length-frame : (content : List ℕ) → length (frame content) ≡ 4 + length content
unfolding frame
length-frame content = omega (
  arith,
  length-append content (b'#' ∷ print_hex_width 2 (checksum content 0)),
  length-print_hex_width 1 (checksum content 0) (checksum-lt content 0 (omega arith)),
)

-- The packet once it is sealed.
sealed :
    (content rest : List ℕ) (h l : ℕ)
    → print_hex_width 2 (checksum content 0) ≡ h ∷ l ∷ []
    → b'$' ∷ (content ++ (b'#' ∷ h ∷ l ∷ 0 ∷ rest)) ≡ frame content ++ (0 ∷ rest)
unfolding frame
sealed content rest h l digits =
    ap (λ (t : List ℕ). b'$' ∷ t)
      (sym (append_assoc content (b'#' ∷ h ∷ l ∷ []) (0 ∷ rest))
        ∙ ap (λ (t : List ℕ). (content ++ (b'#' ∷ t)) ++ (0 ∷ rest)) (sym digits))

transmit_frame :
    (w : Writer) (link : Link) (content rest : List ℕ)
    → gdb_transmit_packet w
        (record link { packet = frame content ++ (0 ∷ rest); len = 4 + length content })
      ≡ w
          (frame content)
          (record link { packet = frame content ++ (0 ∷ rest); len = 4 + length content })
unfolding gdb_transmit_packet
transmit_frame w link content rest =
    ap
      (λ bytes.
        w bytes (record link { packet = frame content ++ (0 ∷ rest); len = 4 + length content }))
      (ap (λ k. take k (frame content ++ (0 ∷ rest))) (sym (length-frame content))
        ∙ take-append_self (frame content) (0 ∷ rest))

-- A content that leaves room for four bytes behind it is sent in its frame, which is all that is
-- sent; the packet then holds the frame and a null byte, for a retransmission.
pub send_buffer_frame :
    (w : Writer) (link : Link) (content room : List ℕ) (x : ℕ)
    → link.packet ≡ x ∷ (content ++ room)
    → link.len ≡ length content
    → 4 ≤ length room
    → gdb_send_buffer w link
      ≡ w
          (frame content)
          (record link { packet = frame content ++ (0 ∷ drop 4 room); len = 4 + length content })
unfolding gdb_send_buffer
send_buffer_frame w link content [] x has n fits = absurd (omega arith)
send_buffer_frame w link content (a ∷ []) x has n fits = absurd (omega arith)
send_buffer_frame w link content (a ∷ b ∷ []) x has n fits = absurd (omega arith)
send_buffer_frame w link content (a ∷ b ∷ c ∷ []) x has n fits = absurd (omega arith)
send_buffer_frame w link content (a ∷ b ∷ c ∷ d ∷ rest) x has n fits =
    let tail : List ℕ = a ∷ b ∷ c ∷ d ∷ rest in
    let (h, l, digits) =
      two_items (print_hex_width 2 (checksum content 0))
        (length-print_hex_width 1 (checksum content 0) (checksum-lt content 0 (omega arith))) in
    bind_ok (put_packet 0 (b'$' ∷ [])) (λ _. seal link.len >> gdb_transmit_packet w)
      (put_behind link [] (x ∷ (content ++ tail)) (b'$' ∷ []) 0 has refl (omega arith))
    ∙ (λ i.
        (seal (n i) >> gdb_transmit_packet w) (record link { packet = b'$' ∷ (content ++ tail) }))
    ∙ bind_ok (seal (length content)) (λ _. gdb_transmit_packet w)
        (seal_content link content rest a b c d h l digits)
    ∙ (λ i.
        gdb_transmit_packet w
          (record link { packet = sealed content rest h l digits i; len = 4 + length content }))
    ∙ transmit_frame w link content rest
