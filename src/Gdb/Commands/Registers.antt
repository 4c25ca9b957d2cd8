-- ===== src/Gdb/Commands/Registers.antt =====
-- `gdb_write_register`: the text of a word, and the packet.
use arm_reimplementation.Base.{
  ℕ, ◌+◌, ◌/◌, ◌%◌, ◌^◌, ◌<◌, ◌≡◌, refl, sym, ap, ◌∙◌, Bool, true, false, List, [], ◌∷◌, ◌++◌,
  append_assoc, append-nil, length, drop, length-append, length-drop, if◌then◌else◌, arith,
}
use arm_reimplementation.Runtime.Bytes.{store32}
use arm_reimplementation.Runtime.Io.{Run, ok, exits, fault, ◌>>=◌, ◌>>◌, skip, bind_ok}
use arm_reimplementation.Runtime.Printf.{print_hex_width}
use arm_reimplementation.Runtime.Printf.RoundTrip.{length-print_hex_width}
use arm_reimplementation.Util.{is_big_endian}
use arm_reimplementation.Gdb.Packet.{Link, Writer, put_packet, set_len, gdb_send_buffer}
use arm_reimplementation.Gdb.Packet.Framing.{frame, send_buffer_frame, put_behind}
use arm_reimplementation.Gdb.Commands.{hex_bytes, write_uint32, gdb_get_answer, gdb_write_register}

-- The four bytes of a word, big end first, two digits each.
abbrev pub big_digits : ℕ → List ℕ
big_digits v =
    print_hex_width 2 (v / 2 ^ 24 % 256)
    ++ (print_hex_width 2 (v / 2 ^ 16 % 256)
        ++ (print_hex_width 2 (v / 256 % 256) ++ print_hex_width 2 (v % 256)))

-- The same bytes, little end first.
abbrev pub little_digits : ℕ → List ℕ
little_digits v =
    print_hex_width 2 (v % 256)
    ++ (print_hex_width 2 (v / 256 % 256)
        ++ (print_hex_width 2 (v / 2 ^ 16 % 256) ++ print_hex_width 2 (v / 2 ^ 24 % 256)))

four_fields :
    (a b c d : ℕ)
    → print_hex_width 2 a
        ++ (print_hex_width 2 b ++ (print_hex_width 2 c ++ (print_hex_width 2 d ++ [])))
      ≡ print_hex_width 2 a ++ (print_hex_width 2 b ++ (print_hex_width 2 c ++ print_hex_width 2 d))
four_fields a b c d =
    ap (λ (t : List ℕ). print_hex_width 2 a ++ (print_hex_width 2 b ++ (print_hex_width 2 c ++ t)))
      (append-nil (print_hex_width 2 d))

-- The text has the bytes in the order of the simulator, whatever the order of the host.
pub write_uint32_lem :
    (big target_big_endian : Bool) (v : ℕ)
    → write_uint32 big target_big_endian v
      ≡ (if target_big_endian then big_digits v else little_digits v)
unfolding write_uint32 hex_bytes is_big_endian store32
write_uint32_lem true true v =
    four_fields (v / 2 ^ 24 % 256) (v / 2 ^ 16 % 256) (v / 256 % 256) (v % 256)
write_uint32_lem true false v =
    four_fields (v % 256) (v / 256 % 256) (v / 2 ^ 16 % 256) (v / 2 ^ 24 % 256)
write_uint32_lem false true v =
    four_fields (v / 2 ^ 24 % 256) (v / 2 ^ 16 % 256) (v / 256 % 256) (v % 256)
write_uint32_lem false false v =
    four_fields (v % 256) (v / 256 % 256) (v / 2 ^ 16 % 256) (v / 2 ^ 24 % 256)

length-four_fields :
    (a b c d : ℕ)
    → a < 256
    → b < 256
    → c < 256
    → d < 256
    → length (
        print_hex_width 2 a
        ++ (print_hex_width 2 b ++ (print_hex_width 2 c ++ print_hex_width 2 d)))
      ≡ 8
length-four_fields a b c d ha hb hc hd = omega (
  arith,
  length-append (print_hex_width 2 a)
      (print_hex_width 2 b ++ (print_hex_width 2 c ++ print_hex_width 2 d)),
  length-append (print_hex_width 2 b) (print_hex_width 2 c ++ print_hex_width 2 d),
  length-append (print_hex_width 2 c) (print_hex_width 2 d),
  length-print_hex_width 1 a ha,
  length-print_hex_width 1 b hb,
  length-print_hex_width 1 c hc,
  length-print_hex_width 1 d hd,
)

pub length-write_uint32 :
    (big target_big_endian : Bool) (v : ℕ) → length (write_uint32 big target_big_endian v) ≡ 8
length-write_uint32 big true v =
    ap length (write_uint32_lem big true v)
    ∙ length-four_fields (v / 2 ^ 24 % 256) (v / 2 ^ 16 % 256) (v / 256 % 256) (v % 256)
        (omega arith) (omega arith) (omega arith) (omega arith)
length-write_uint32 big false v =
    ap length (write_uint32_lem big false v)
    ∙ length-four_fields (v % 256) (v / 256 % 256) (v / 2 ^ 16 % 256) (v / 2 ^ 24 % 256)
        (omega arith) (omega arith) (omega arith) (omega arith)

-- The content of the packet `Pnum=value`.
abbrev pub register_content : Bool → Bool → ℕ → ℕ → List ℕ
register_content big target_big_endian num value =
    (b'P' ∷ print_hex_width 2 num ++ (b'=' ∷ [])) ++ write_uint32 big target_big_endian value

first_byte :
    (p : List ℕ)
    → length p ≡ 1024
    → (x : ℕ) × (rest : List ℕ) × (p ≡ x ∷ rest) × (length rest ≡ 1023)
first_byte [] h = absurd (omega arith)
first_byte (x ∷ rest) h = (x, rest, refl, omega arith)

-- The number's and the value's fields leave the content behind the first byte, and a null byte.
write_register_at :
    (w : Writer) (link : Link) (big target_big_endian : Bool) (num value x : ℕ) (rest : List ℕ)
    → link.packet ≡ x ∷ rest
    → length rest ≡ 1023
    → num < 256
    → (packet : List ℕ) × (gdb_write_register w big target_big_endian num value link
        ≡ (w (frame (register_content big target_big_endian num value))
              >> (gdb_get_answer w >>= λ _. skip))
            (record link { packet = packet; len = 16 }))
unfolding gdb_write_register set_len
write_register_at w link big target_big_endian num value x rest has long h = (
  frame content ++ (0 ∷ drop 4 room),
  (λ i. (put_packet 1 (b'P' ∷ name_parts i) >> (put_packet 5 (digits ++ (0 ∷ [])) >> finish)) link)
      ∙ bind_ok (put_packet 1 (name ++ (0 ∷ []))) (λ _. put_packet 5 (digits ++ (0 ∷ [])) >> finish)
          (put_behind link (x ∷ []) rest (name ++ (0 ∷ [])) 1 has refl (omega (arith, name_field)))
      ∙ bind_ok (put_packet 5 (digits ++ (0 ∷ []))) (λ _. finish)
          (put_behind first (x ∷ name) (0 ∷ tail) (digits ++ (0 ∷ [])) 5
            (ap (λ (t : List ℕ). x ∷ t) (append_assoc name (0 ∷ []) tail))
            (omega (arith, name_length))
            (omega (arith, digits_field, length-drop (length (name ++ (0 ∷ []))) rest, name_field)))
      ∙ bind_ok (set_len 12) (λ _. gdb_send_buffer w >> answer_it) {s = second} refl
      ∙ (λ i.
          elim (send_buffer_frame w (record second { len = 12 }) content room x regroup
            content_length
            (omega (
              arith,
              digits_field,
              name_field,
              length-drop (length (name ++ (0 ∷ []))) rest,
              length-drop (length (digits ++ (0 ∷ []))) (0 ∷ tail),
            ))
            i) [ ok a l ↦ answer_it l | exits n l ↦ exits n l | fault ↦ fault ])
      ∙ (λ i.
          (w (frame content) >> answer_it)
            (record link { packet = frame content ++ (0 ∷ drop 4 room); len = sixteen i })),
)
  where
    name : List ℕ
    name = b'P' ∷ print_hex_width 2 num ++ (b'=' ∷ [])

    digits : List ℕ
    digits = write_uint32 big target_big_endian value

    content : List ℕ
    content = name ++ digits

    tail : List ℕ
    tail = drop (length (name ++ (0 ∷ []))) rest

    room : List ℕ
    room = 0 ∷ drop (length (digits ++ (0 ∷ []))) (0 ∷ tail)

    first : Link
    first = record link { packet = x ∷ ((name ++ (0 ∷ [])) ++ tail) }

    second : Link
    second = record link {
      packet =
          (x ∷ name) ++ ((digits ++ (0 ∷ [])) ++ drop (length (digits ++ (0 ∷ []))) (0 ∷ tail));
    }

    answer_it : Run Link (Unit {0})
    answer_it = gdb_get_answer w >>= λ _. skip

    finish : Run Link (Unit {0})
    finish = set_len 12 >> (gdb_send_buffer w >> answer_it)

    name_parts :
        print_hex_width 2 num ++ (b'=' ∷ 0 ∷ [])
        ≡ (print_hex_width 2 num ++ (b'=' ∷ [])) ++ (0 ∷ [])
    name_parts = sym (append_assoc (print_hex_width 2 num) (b'=' ∷ []) (0 ∷ []))

    name_length : length name ≡ 4
    name_length =
        omega
          (arith, length-append (print_hex_width 2 num) (b'=' ∷ []), length-print_hex_width 1 num h)

    name_field : length (name ++ (0 ∷ [])) ≡ 5
    name_field = omega (arith, length-append name (0 ∷ []), name_length)

    digits_field : length (digits ++ (0 ∷ [])) ≡ 9
    digits_field =
        omega
          (arith, length-append digits (0 ∷ []), length-write_uint32 big target_big_endian value)

    content_length : 12 ≡ length content
    content_length = omega (
      arith,
      length-append name digits,
      name_length,
      length-write_uint32 big target_big_endian value,
    )

    sixteen : 4 + length content ≡ 16
    sixteen = omega (arith, content_length)

    regroup :
        (x ∷ name) ++ ((digits ++ (0 ∷ [])) ++ drop (length (digits ++ (0 ∷ []))) (0 ∷ tail))
        ≡ x ∷ (content ++ room)
    regroup =
        ap (λ (t : List ℕ). x ∷ (name ++ t))
          (append_assoc digits (0 ∷ []) (drop (length (digits ++ (0 ∷ []))) (0 ∷ tail)))
        ∙ ap (λ (t : List ℕ). x ∷ t) (sym (append_assoc name digits room))

-- The packet `Pnum=value` goes out in its frame, and then an answer is awaited. `packet` is what the
-- packet's array, of 1024 bytes, holds then.
pub write_register_packet :
    (w : Writer) (link : Link) (big target_big_endian : Bool) (num value : ℕ)
    → length link.packet ≡ 1024
    → num < 256
    → (packet : List ℕ) × (gdb_write_register w big target_big_endian num value link
        ≡ (w (frame (register_content big target_big_endian num value))
              >> (gdb_get_answer w >>= λ _. skip))
            (record link { packet = packet; len = 16 }))
write_register_packet w link big target_big_endian num value full h =
    let (x, rest, has, long) = first_byte link.packet full in
    write_register_at w link big target_big_endian num value x rest has long h
