-- ===== src/Gdb/Commands/Memory.antt =====
-- `gdb_write_memory` on bytes that fit one packet.
use arm_reimplementation.Base.{
  ℕ, suc, ◌+◌, ◌%◌, ◌≤◌, ◌^◌, ◌≡◌, refl, sym, ap, ap₂, ◌∙◌, none, some, List, [], ◌∷◌, ◌++◌,
  append_assoc, length, take, drop, length-append, length-drop, length-take, take-append-drop,
  drop-append_self, arith,
}
use arm_reimplementation.Runtime.Bytes.{IsU32}
use arm_reimplementation.Runtime.Io.{Run, Outcome, ok, exits, fault, ◌>>=◌, ◌>>◌, skip, bind_ok}
use arm_reimplementation.Runtime.Printf.{print_hex_width}
use arm_reimplementation.Runtime.Printf.RoundTrip.{length-print_hex_width}
use arm_reimplementation.Gdb.Packet.{Link, Writer, put_packet, set_len, gdb_send_buffer}
use arm_reimplementation.Gdb.Packet.Framing.{frame, send_buffer_frame, put_behind}
use arm_reimplementation.Gdb.Commands.{
  fill_chunk, gdb_get_answer, send_chunk, write_chunks, gdb_write_memory,
}
use arm_reimplementation.Gdb.Commands.Chunks.{escapes, length-escapes, fill_chunk_fits}

-- The head of the packet: the command, the address and the number of bytes, to the colon.
abbrev pub memory_head : ℕ → ℕ → List ℕ
memory_head address count = b'X' ∷ (print_hex_width 8 address ++ (b',' ∷ print_hex_width 8 count))

-- The content of the packet `X address,count:bytes`.
abbrev pub memory_content : ℕ → List ℕ → List ℕ
memory_content address buffer = memory_head address (length buffer) ++ (b':' ∷ escapes buffer)

length-memory_head :
    (address count : ℕ) → IsU32 address → IsU32 count → length (memory_head address count) ≡ 18
length-memory_head address count h k = omega (
  arith,
  length-append (print_hex_width 8 address) (b',' ∷ print_hex_width 8 count),
  length-print_hex_width 7 address h,
  length-print_hex_width 7 count k,
)

-- What is put at index 1 is the head with a null byte behind it.
head_bytes :
    (address count : ℕ)
    → b'X' ∷ print_hex_width 8 address ++ (b',' ∷ print_hex_width 8 count ++ (0 ∷ []))
      ≡ memory_head address count ++ (0 ∷ [])
head_bytes address count =
    ap (λ (t : List ℕ). b'X' ∷ t)
      (sym (append_assoc (print_hex_width 8 address) (b',' ∷ print_hex_width 8 count) (0 ∷ [])))

bind_skip :
    {S : Type 0} (o : Outcome S (Unit {0}))
    → elim o [ ok a s' ↦ ok tt s' | exits n s' ↦ exits n s' | fault ↦ fault ] ≡ o
bind_skip (ok a s) = refl
bind_skip (exits n s) = refl
bind_skip fault = refl

nonempty_front :
    (l : List ℕ) → length l ≡ 20 → (x : ℕ) × (t : List ℕ) × (l ≡ x ∷ t) × (length t ≡ 19)
nonempty_front [] h = absurd (omega arith)
nonempty_front (x ∷ t) h = (x, t, refl, omega arith)

-- The packet once a chunk that fits is filled in and its head is put before it.
send_chunk-frame :
    (w : Writer) (link : Link) (address count : ℕ) (x : ℕ) (front bytes room : List ℕ)
    → IsU32 address
    → IsU32 count
    → length front ≡ 19
    → 4 ≤ length room
    → send_chunk w address
        (record {
          filled = x ∷ front ++ (bytes ++ room);
          buffer_size = length bytes;
          bytes_copied = count;
          rest = [];
        })
        (record link { packet = x ∷ front ++ (bytes ++ room) })
      ≡ (w (frame (memory_head address count ++ (b':' ∷ bytes)))
            >> (gdb_get_answer w >>= λ _. skip))
          (record link {
            packet = frame (memory_head address count ++ (b':' ∷ bytes)) ++ (0 ∷ drop 4 room);
            len = 4 + length (memory_head address count ++ (b':' ∷ bytes));
          })
unfolding send_chunk set_len
send_chunk-frame w link address count x front bytes room ha hc hf hr =
    bind_ok (put_packet 1 head_field) (λ _. put_packet 19 (b':' ∷ []) >> finish)
      (put_behind start (x ∷ []) (front ++ (bytes ++ room)) head_field 1 refl refl
          (omega (arith, head_length, length-append front (bytes ++ room)))
        ∙ (λ i. ok tt (record link { packet = x ∷ with_head i })))
    ∙ bind_ok (put_packet 19 (b':' ∷ [])) (λ _. finish)
        (put_behind (record link { packet = x ∷ (head ++ (0 ∷ (bytes ++ room))) }) (x ∷ head)
          (0 ∷ (bytes ++ room)) (b':' ∷ []) 19 refl
          (omega (arith, length-memory_head address count ha hc)) (omega arith))
    ∙ bind_ok (set_len (19 + length bytes)) (λ _. gdb_send_buffer w >> answer_it)
        {s = record link { packet = x ∷ (head ++ (b':' ∷ (bytes ++ room))) }} refl
    ∙ (λ i.
        elim (send_buffer_frame w
          (record link { packet = x ∷ (head ++ (b':' ∷ (bytes ++ room))); len = 19 + length bytes })
          content room x (ap (λ (t : List ℕ). x ∷ t) (sym (append_assoc head (b':' ∷ bytes) room)))
          (omega (arith, length-append head (b':' ∷ bytes), length-memory_head address count ha hc))
          hr i) [ ok a s' ↦ answer_it s' | exits n s' ↦ exits n s' | fault ↦ fault ])
  where
    head : List ℕ
    head = memory_head address count

    content : List ℕ
    content = head ++ (b':' ∷ bytes)

    head_field : List ℕ
    head_field = b'X' ∷ print_hex_width 8 address ++ (b',' ∷ print_hex_width 8 count ++ (0 ∷ []))

    answer_it : Run Link (Unit {0})
    answer_it = gdb_get_answer w >>= λ _. skip

    finish : Run Link (Unit {0})
    finish = set_len (19 + length bytes) >> (gdb_send_buffer w >> answer_it)

    start : Link
    start = record link { packet = x ∷ front ++ (bytes ++ room) }

    head_length : length head_field ≡ 19
    head_length = omega (
      arith,
      ap length (head_bytes address count),
      length-append head (0 ∷ []),
      length-memory_head address count ha hc,
    )

    same_length : length head_field ≡ length front
    same_length = omega (arith, head_length)

    with_head :
        head_field ++ drop (length head_field) (front ++ (bytes ++ room))
        ≡ head ++ (0 ∷ (bytes ++ room))
    with_head =
        ap₂ ◌++◌ (head_bytes address count) (
          ap (λ k. drop k (front ++ (bytes ++ room))) same_length
          ∙ drop-append_self front (bytes ++ room))
        ∙ append_assoc head (0 ∷ []) (bytes ++ room)

-- The packet's first twenty bytes and the rest.
pub split_packet :
    (p : List ℕ)
    → length p ≡ 1024
    → (x : ℕ) × (t : List ℕ) × (p ≡ (x ∷ t) ++ drop 20 p) × (length t ≡ 19)
split_packet p h =
    let (x, t, e, ht) = nonempty_front (take 20 p) (omega (arith, length-take 20 p)) in
    (x, t, sym (take-append-drop 20 p) ∙ ap (λ (f : List ℕ). f ++ drop 20 p) e, ht)

write_chunks_done : (w : Writer) (fuel address : ℕ) → write_chunks w fuel address [] ≡ skip
unfolding write_chunks
write_chunks_done w fuel address = refl

from_zero : (n : ℕ) → 0 + n ≡ n
from_zero n = omega arith

-- A round whose bytes all fit is the only one.
write_one :
    (w : Writer) (link : Link) (address c : ℕ) (cs : List ℕ) (x : ℕ) (t room : List ℕ)
    → link.packet ≡ (x ∷ t) ++ room
    → length t ≡ 19
    → length room ≡ 1004
    → IsU32 address
    → length (escapes (c ∷ cs)) ≤ 1000
    → gdb_write_memory w address (c ∷ cs) link
      ≡ (w (frame (memory_content address (c ∷ cs))) >> (gdb_get_answer w >>= λ _. skip))
          (record link {
            packet =
                frame (memory_content address (c ∷ cs))
                ++ (0 ∷ drop 4 (drop (length (escapes (c ∷ cs))) room));
            len = 4 + length (memory_content address (c ∷ cs));
          })
unfolding gdb_write_memory write_chunks
write_one w link address c cs x t room e ht hr ha small =
    (λ i. elim (filled i) [
      | none ↦ fault
      | some chunk ↦
          (send_chunk w address chunk
              >> write_chunks w (length cs) ((address + chunk.bytes_copied) % 2 ^ 32) chunk.rest)
            (record link { packet = chunk.filled })
    ])
    ∙ (λ i.
        elim (send_chunk-frame w link address (suc (length cs)) x t (escapes (c ∷ cs)) room' ha
          (omega (arith, length-escapes (c ∷ cs))) ht
          (omega (arith, length-drop (length (escapes (c ∷ cs))) room)) i) [
            | ok a s' ↦ write_chunks_done w (length cs) ((address + suc (length cs)) % 2 ^ 32) i s'
            | exits n s' ↦ exits n s'
            | fault ↦ fault
          ])
    ∙ bind_skip _
  where
    room' : List ℕ
    room' = drop (length (escapes (c ∷ cs))) room

    filled :
        fill_chunk link.packet 0 0 (c ∷ cs)
        ≡ some (record {
          filled = (x ∷ t) ++ (escapes (c ∷ cs) ++ room');
          buffer_size = length (escapes (c ∷ cs));
          bytes_copied = suc (length cs);
          rest = [];
        })
    filled =
        ap (λ p. fill_chunk p 0 0 (c ∷ cs)) e
        ∙ fill_chunk_fits (c ∷ cs) (x ∷ t) room 0 0 (omega arith) (omega arith) (omega arith)
        ∙ (λ i. some (record {
          filled = (x ∷ t) ++ (escapes (c ∷ cs) ++ room');
          buffer_size = from_zero (length (escapes (c ∷ cs))) i;
          bytes_copied = from_zero (suc (length cs)) i;
          rest = [];
        }))

-- Bytes whose escaped form has at most 1000 bytes go out as one packet `X address,count:bytes`, in
-- its frame, and then an answer is awaited. `packet` is what the packet's array holds then.
pub write_memory_packet :
    (w : Writer) (link : Link) (address c : ℕ) (cs : List ℕ)
    → length link.packet ≡ 1024
    → IsU32 address
    → length (escapes (c ∷ cs)) ≤ 1000
    → (packet : List ℕ) × (gdb_write_memory w address (c ∷ cs) link
        ≡ (w (frame (memory_content address (c ∷ cs))) >> (gdb_get_answer w >>= λ _. skip))
            (record link { packet = packet; len = 4 + length (memory_content address (c ∷ cs)) }))
unfolding gdb_write_memory write_chunks
write_memory_packet w link address c cs full ha small =
    let (x, t, e, ht) = split_packet link.packet full in
    (
      frame (memory_content address (c ∷ cs))
          ++ (0 ∷ drop 4 (drop (length (escapes (c ∷ cs))) (drop 20 link.packet))),
      write_one w link address c cs x t (drop 20 link.packet) e ht
          (omega (arith, length-drop 20 link.packet)) ha small,
    )
