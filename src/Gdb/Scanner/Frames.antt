-- ===== src/Gdb/Scanner/Frames.antt =====
-- A frame that comes in, as the scanner reads it.
use arm_reimplementation.Base.{
  ℕ, zero, suc, ◌+◌, ◌-◌, ◌/◌, ◌%◌, ◌<◌, ◌≡◌, ◌≢◌, refl, sym, ap, ap₂, ◌∙◌, Bool, true, false,
  Option, none, some, List, [], ◌∷◌, ◌++◌, ◌==◌, ◌&&◌, append_assoc, length, take, drop, replicate,
  All, All-append, length-append, take-append_self, drop-append_self, ==_refl, ltb, ltb→lt, subst,
  if◌then◌else◌, arith,
}
use arm_reimplementation.Runtime.Io.{Run, Outcome, ok, exits, fault, ◌>>=◌, ◌>>◌, pure, bind_ok}
use arm_reimplementation.Runtime.Printf.{digit, print_base, print_hex, pad_left, print_hex_width}
use arm_reimplementation.Runtime.Printf.RoundTrip.{
  read_from, read_hex-print_hex_width, length-print_hex_width,
}
use arm_reimplementation.Gdb.Packet.{
  Link, Writer, checksum, set_answer, gdb_send_ack, gdb_require_retransmission, gdb_packet_check,
}
use arm_reimplementation.Gdb.Packet.Framing.{frame, checksum-lt, two_items, length-frame}
use arm_reimplementation.Gdb.Scanner.{
  Answer, packet_read, Token, packet, other, is_hex, match_digits, match_content, prepend,
  next_token, end_of_file, max_error_size, clear_errors, handle_error, act, scan, gdb_get_packet,
}

-- A digit that a frame may end in.
abbrev pub IsHex : ℕ → Type 0
IsHex c = is_hex c ≡ true

digit-IsHex : (d : ℕ) → d < 16 → IsHex (digit d)
unfolding is_hex digit
digit-IsHex d h = ground arith

if-All :
    (b : Bool) (xs ys : List ℕ)
    → (b ≡ true → All IsHex xs)
    → All IsHex ys
    → All IsHex (if b then xs else ys)
if-All true xs ys h k = h refl
if-All false xs ys h k = k

print_base-IsHex : (fuel n : ℕ) → All IsHex (print_base 16 fuel n)
unfolding print_base
print_base-IsHex zero n = tt
print_base-IsHex (suc fuel) n =
    if-All (ltb n 16) (digit n ∷ []) (print_base 16 fuel (n / 16) ++ (digit (n % 16) ∷ []))
      (λ small. (digit-IsHex n (ltb→lt n 16 small), tt))
      (All-append IsHex (print_base 16 fuel (n / 16)) (digit (n % 16) ∷ [])
        (print_base-IsHex fuel (n / 16)) (digit-IsHex (n % 16) (omega arith), tt))

replicate-IsHex : (n : ℕ) → All IsHex (replicate n b'0')
unfolding is_hex
replicate-IsHex zero = tt
replicate-IsHex (suc n) = (refl, replicate-IsHex n)

print_hex_width-IsHex : (width n : ℕ) → All IsHex (print_hex_width width n)
unfolding print_hex_width pad_left print_hex
print_hex_width-IsHex width n =
    All-append IsHex (replicate (width - length (print_base 16 8 n)) b'0') (print_base 16 8 n)
      (replicate-IsHex _) (print_base-IsHex 8 n)

-- A content has neither of the bytes that frame it.
unfoldable pub IsPlain : ℕ → Type 0
IsPlain c = (c ≢ b'$') × (c ≢ b'#')

differs : (c d : ℕ) → c ≢ d → (c == d) ≡ false
differs c d ne = ground arith

match_content_lem :
    (content rest : List ℕ) (h l : ℕ)
    → All IsPlain content
    → IsHex h
    → IsHex l
    → match_content (content ++ (b'#' ∷ h ∷ l ∷ rest)) ≡ some (content ++ (b'#' ∷ h ∷ l ∷ []), rest)
unfolding match_content match_digits IsPlain
match_content_lem [] rest h l plain hh hl =
    λ i. if hh i && hl i then some (b'#' ∷ h ∷ l ∷ [], rest) else none
match_content_lem (c ∷ cs) rest h l plain hh hl = (λ i.
    if differs c b'#' plain.0.1 i
    then match_digits (cs ++ (b'#' ∷ h ∷ l ∷ rest))
    else if differs c b'$' plain.0.0 i
    then none
    else prepend c (match_content_lem cs rest h l plain.1 hh hl i))

pub next_token_lem :
    (content rest : List ℕ)
    → All IsPlain content
    → next_token b'$' (content ++ (b'#' ∷ (print_hex_width 2 (checksum content 0) ++ rest)))
      ≡ (packet (frame content), rest)
unfolding next_token frame
next_token_lem content rest plain =
    let (h, l, digits) =
      two_items (print_hex_width 2 (checksum content 0))
        (length-print_hex_width 1 (checksum content 0) (checksum-lt content 0 (omega arith))) in
    let hex : All IsHex (h ∷ l ∷ []) =
      subst (All IsHex) digits (print_hex_width-IsHex 2 (checksum content 0)) in
    (λ i. found (match_content (content ++ (b'#' ∷ (digits i ++ rest)))))
    ∙ (λ i. found (match_content_lem content rest h l plain hex.0 hex.1.0 i))
    ∙ (λ i. (packet (b'$' ∷ (content ++ (b'#' ∷ sym digits i))), rest))
  where
    found : Option (List ℕ × List ℕ) → Token × List ℕ
    found m = elim m [
      | none ↦ (other b'$', content ++ (b'#' ∷ (print_hex_width 2 (checksum content 0) ++ rest)))
      | some (text, behind) ↦ (packet (b'$' ∷ text), behind)
    ]

-- The check of a frame that is as it was sent.
pub packet_check_lem :
    (w : Writer) (content : List ℕ)
    → gdb_packet_check w (frame content)
      ≡ (gdb_send_ack w >> (set_answer (frame content) >> pure true))
unfolding gdb_packet_check frame
packet_check_lem w content = λ i.
    if same i
    then gdb_send_ack w >> (set_answer (frame content) >> pure true)
    else gdb_require_retransmission w >> pure false
  where
    digits : List ℕ
    digits = print_hex_width 2 (checksum content 0)

    inner : take (length (frame content) - 4) (drop 1 (frame content)) ≡ content
    inner =
        let n : length (frame content) - 4 ≡ length content = omega (arith, length-frame content) in
        ap (λ k. take k (content ++ (b'#' ∷ digits))) n ∙ take-append_self content (b'#' ∷ digits)

    given : drop (length (frame content) - 2) (frame content) ≡ digits
    given =
        let n : length (frame content) - 2 ≡ length ((b'$' ∷ content) ++ (b'#' ∷ [])) =
          omega (arith, length-frame content, length-append (b'$' ∷ content) (b'#' ∷ [])) in
        ap₂ drop n (sym (append_assoc (b'$' ∷ content) (b'#' ∷ []) digits))
        ∙ drop-append_self ((b'$' ∷ content) ++ (b'#' ∷ [])) digits

    same :
        (checksum (take (length (frame content) - 4) (drop 1 (frame content))) 0
          == read_from 16 0 (drop (length (frame content) - 2) (frame content)))
        ≡ true
    same =
        ap₂ (λ a b. checksum a 0 == read_from 16 0 b) inner given
        ∙ ap (λ b. checksum content 0 == b)
            (read_hex-print_hex_width 2 (checksum content 0)
              (let small = checksum-lt content 0 (omega arith) in omega arith))
        ∙ ==_refl (checksum content 0)

handle_no_error : (w : Writer) (link : Link) → link.errors ≡ [] → handle_error w link ≡ ok tt link
unfolding handle_error
handle_no_error w link none_kept = λ i.
    if no_error i
    then ok tt link
    else if ltb (length link.errors) max_error_size
    then (gdb_require_retransmission w >> clear_errors) link
    else fault
  where
    no_error : (length link.errors == 0) ≡ true
    no_error = ap (λ (e : List ℕ). length e == 0) none_kept

-- The action of a packet that checks, from the acknowledgement on.
settled :
    (s : List ℕ) (fuel : ℕ) (w : Writer) (o : Outcome Link (Unit {0})) (link : Link)
    → ((((λ (l : Link). o) >>= λ _. set_answer s >> pure true) >>= λ result.
            if result then pure (some packet_read) else pure none)
          >>= λ returned. elim returned [ some answer ↦ pure answer | none ↦ scan w fuel ])
        link
      ≡ ((λ (l : Link). o) >>= λ _. set_answer s >> pure packet_read) link
unfolding set_answer
settled s fuel w (ok a l) link = refl
settled s fuel w (exits n l) link = refl
settled s fuel w fault link = refl

-- Where no byte in error is kept, the frame of a content without `$` and `#` that comes in is
-- acknowledged and becomes the answer; what comes behind it stays to be read.
pub get_packet-frame :
    (w : Writer) (link : Link) (content rest : List ℕ)
    → link.errors ≡ []
    → All IsPlain content
    → link.incoming ≡ frame content ++ rest
    → gdb_get_packet w link
      ≡ (gdb_send_ack w >> (set_answer (frame content) >> pure packet_read))
          (record link { incoming = rest })
unfolding gdb_get_packet scan act frame
get_packet-frame w link content rest no_errors plain has =
    (λ i. scan w (one_more i) link)
    ∙ (λ i. elim (front i) [
      | [] ↦ (handle_error w >> pure end_of_file) link
      | c ∷ cs ↦
          (act w (next_token c cs).0 >>= go_on) (record link { incoming = (next_token c cs).1 })
    ])
    ∙ (λ i.
        (act w (next_token_lem content rest plain i).0 >>= go_on)
          (record link { incoming = (next_token_lem content rest plain i).1 }))
    ∙ (λ i.
        elim (bind_ok (handle_error w) (λ _. checked (gdb_packet_check w (frame content)))
          (handle_no_error w (record link { incoming = rest }) no_errors) i) [
            | ok returned l ↦ go_on returned l
            | exits n l ↦ exits n l
            | fault ↦ fault
          ])
    ∙ (λ i. (checked (packet_check_lem w content i) >>= go_on) (record link { incoming = rest }))
    ∙ settled (frame content) (length link.incoming) w
        (gdb_send_ack w (record link { incoming = rest })) link
  where
    one_more : length link.incoming + 1 ≡ suc (length link.incoming)
    one_more = omega arith

    go_on : Option Answer → Run Link Answer
    go_on returned = elim returned [
      | some answer ↦ pure answer
      | none ↦ scan w (length link.incoming)
    ]

    checked : Run Link Bool → Run Link (Option Answer)
    checked check = check >>= λ result. if result then pure (some packet_read) else pure none

    front :
        link.incoming
        ≡ b'$' ∷ (content ++ (b'#' ∷ (print_hex_width 2 (checksum content 0) ++ rest)))
    front =
        has
        ∙ ap (λ (t : List ℕ). b'$' ∷ t)
            (append_assoc content (b'#' ∷ print_hex_width 2 (checksum content 0)) rest)
