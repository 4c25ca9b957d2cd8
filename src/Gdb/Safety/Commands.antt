-- ===== src/Gdb/Safety/Commands.antt =====
-- The commands of gdb_protocol.c against the arrays of the connection.
use arm_reimplementation.Base.{
  ℕ, ◌+◌, ◌%◌, ◌^◌, ◌≤◌, ◌<◌, ◌≡◌, sym, ap, ◌∙◌, Bool, none, some, List, [], ◌∷◌, ◌++◌, length,
  drop, arith, length-append, length-drop, subst,
}
use arm_reimplementation.Runtime.Bytes.{IsU32}
use arm_reimplementation.Runtime.Io.{Outcome, fault, ◌>>=◌, ◌>>◌, skip}
use arm_reimplementation.Runtime.Printf.{print_hex_width}
use arm_reimplementation.Runtime.Printf.RoundTrip.{length-print_hex_width}
use arm_reimplementation.Gdb.Packet.{Link, Writer, put_packet, gdb_send_data}
use arm_reimplementation.Gdb.Commands.{
  write_uint32, Chunk, fill_chunk, send_chunk, write_chunks, gdb_get_answer, gdb_write_register,
  gdb_write_memory, gdb_cont, gdb_step,
}
use arm_reimplementation.Gdb.Commands.Chunks.{escapes, length-escapes, fill_chunk_fits}
use arm_reimplementation.Gdb.Commands.Memory.{split_packet}
use arm_reimplementation.Gdb.Commands.Registers.{length-write_uint32}
use arm_reimplementation.Gdb.Safety.{
  Stays, IsSound, IsReady, OnlySends, bind-IsSound, pure-IsSound, put_packet-IsSound, set_send_then,
  send_data-IsSound,
}
use arm_reimplementation.Gdb.Safety.Scanner.{get_packet-IsSound}

-- The chunk of bytes that were all copied.
chunk_of : List ℕ → List ℕ → Chunk
chunk_of filled bytes = record {
  filled = filled;
  buffer_size = length (escapes bytes);
  bytes_copied = length bytes;
  rest = [];
}

-- A packet with room takes the escaped bytes, and stays as long as it was.
fill_chunk_room :
    (packet bytes : List ℕ)
    → length packet ≡ 1024
    → length (escapes bytes) ≤ 1000
    → (filled : List ℕ) × (length filled ≡ 1024)
      × (fill_chunk packet 0 0 bytes
          ≡ some (record {
            filled = filled;
            buffer_size = length (escapes bytes);
            bytes_copied = length bytes;
            rest = [];
          }))
fill_chunk_room packet bytes full small =
    let (x, t, e, ht) = split_packet packet full in
    (
      (x ∷ t) ++ (escapes bytes ++ drop (length (escapes bytes)) (drop 20 packet)),
      omega (
        arith,
        length-append (x ∷ t) (escapes bytes ++ drop (length (escapes bytes)) (drop 20 packet)),
        length-append (escapes bytes) (drop (length (escapes bytes)) (drop 20 packet)),
        length-drop (length (escapes bytes)) (drop 20 packet),
        length-drop 20 packet,
      ),
      ap (λ p. fill_chunk p 0 0 bytes) e
          ∙ fill_chunk_fits bytes (x ∷ t) (drop 20 packet) 0 0 (omega arith) (omega arith)
              (omega (arith, length-drop 20 packet))
          ∙ (λ i. some (record {
            filled = (x ∷ t) ++ (escapes bytes ++ drop (length (escapes bytes)) (drop 20 packet));
            buffer_size = from_zero (length (escapes bytes)) i;
            bytes_copied = from_zero (length bytes) i;
            rest = [];
          })),
    )
  where
    from_zero : (n : ℕ) → 0 + n ≡ n
    from_zero n = omega arith

module _ (w : Writer) (only : OnlySends w) where
  answer_and_skip : (n : ℕ) → IsSound (IsReady n) (gdb_get_answer w >>= λ _. skip)
  unfolding gdb_get_answer
  answer_and_skip n =
      bind-IsSound (IsReady n) (gdb_get_answer w) _ (get_packet-IsSound w only n)
        (λ _. pure-IsSound (IsReady n) tt)

  pub write_register-IsSound :
      (n num value : ℕ) (big target_big_endian : Bool)
      → num < 256
      → IsSound (IsReady n) (gdb_write_register w big target_big_endian num value)
  unfolding gdb_write_register
  write_register-IsSound n num value big target_big_endian h =
      bind-IsSound (IsReady n) (put_packet 1 number) _
        (put_packet-IsSound n 1 number (
          omega (
            arith,
            length-append (print_hex_width 2 num) (b'=' ∷ 0 ∷ []),
            length-print_hex_width 1 num h,
          )))
        (λ _.
          bind-IsSound (IsReady n) (put_packet 5 word) _
            (put_packet-IsSound n 5 word (
              omega (
                arith,
                length-append (write_uint32 big target_big_endian value) (0 ∷ []),
                length-write_uint32 big target_big_endian value,
              )))
            (λ _.
              set_send_then w only n 12 (gdb_get_answer w >>= λ _. skip) (omega arith)
                (answer_and_skip n)))
    where
      number : List ℕ
      number = b'P' ∷ print_hex_width 2 num ++ (b'=' ∷ 0 ∷ [])

      word : List ℕ
      word = write_uint32 big target_big_endian value ++ (0 ∷ [])

  send_chunk-IsSound :
      (n address : ℕ) (chunk : Chunk)
      → IsU32 address
      → chunk.bytes_copied ≤ 1000
      → chunk.buffer_size ≤ 1000
      → IsSound (IsReady n) (send_chunk w address chunk)
  unfolding send_chunk
  send_chunk-IsSound n address chunk h k l =
      bind-IsSound (IsReady n) (put_packet 1 head) _
        (put_packet-IsSound n 1 head (
          omega (
            arith,
            length-append (print_hex_width 8 address)
                (b',' ∷ print_hex_width 8 chunk.bytes_copied ++ (0 ∷ [])),
            length-append (print_hex_width 8 chunk.bytes_copied) (0 ∷ []),
            length-print_hex_width 7 address h,
            length-print_hex_width 7 chunk.bytes_copied (omega arith),
          )))
        (λ _.
          bind-IsSound (IsReady n) (put_packet 19 (b':' ∷ [])) _
            (put_packet-IsSound n 19 (b':' ∷ []) (omega arith))
            (λ _.
              set_send_then w only n (19 + chunk.buffer_size) (gdb_get_answer w >>= λ _. skip)
                (omega arith) (answer_and_skip n)))
    where
      head : List ℕ
      head =
          b'X' ∷ print_hex_width 8 address
          ++ (b',' ∷ print_hex_width 8 chunk.bytes_copied ++ (0 ∷ []))

  -- A chunk that takes all the bytes is the only one.
  write_filled :
      (n address fuel : ℕ) (bytes filled : List ℕ) (link : Link)
      → IsU32 address
      → length bytes ≤ 1000
      → length (escapes bytes) ≤ 1000
      → length filled ≡ 1024
      → IsReady n link
      → Stays (IsReady n) (
          (send_chunk w address (chunk_of filled bytes)
              >> write_chunks w fuel ((address + length bytes) % 2 ^ 32) [])
            (record link { packet = filled }))
  unfolding IsSound IsReady write_chunks chunk_of
  write_filled n address fuel bytes filled link h few small full k =
      bind-IsSound (IsReady n) (send_chunk w address (chunk_of filled bytes)) _
        (send_chunk-IsSound n address (chunk_of filled bytes) h few small)
        (λ _. pure-IsSound (IsReady n) tt) (record link { packet = filled })
        (full, k.1, k.2, k.3, k.4)

  pub write_memory-IsSound :
      (n address : ℕ) (bytes : List ℕ)
      → IsU32 address
      → length (escapes bytes) ≤ 1000
      → IsSound (IsReady n) (gdb_write_memory w address bytes)
  unfolding IsSound gdb_write_memory write_chunks IsReady chunk_of Stays
  write_memory-IsSound n address [] h small link k = k
  write_memory-IsSound n address (c ∷ cs) h small link k =
      let (filled, full, e) = fill_chunk_room link.packet (c ∷ cs) k.0 small in
      subst
        (λ m. Stays (IsReady n) (elim m as (λ x. Outcome Link (Unit {0})) [
          | none ↦ fault
          | some chunk ↦
              (send_chunk w address chunk
                  >> write_chunks w (length cs) ((address + chunk.bytes_copied) % 2 ^ 32)
                      chunk.rest)
                (record link { packet = chunk.filled })
        ]))
        (sym e)
        (write_filled n address (length cs) (c ∷ cs) filled link h
          (omega (arith, length-escapes (c ∷ cs))) small full k)

  pub cont-IsSound : (n : ℕ) → IsSound (IsReady n) (gdb_cont w)
  unfolding gdb_cont
  cont-IsSound n =
      bind-IsSound (IsReady n) (gdb_send_data w (b'c' ∷ [])) _
        (send_data-IsSound w only n (b'c' ∷ []) (omega arith)) (λ _. answer_and_skip n)

  pub step-IsSound : (n : ℕ) → IsSound (IsReady n) (gdb_step w)
  unfolding gdb_step gdb_get_answer
  step-IsSound n =
      bind-IsSound (IsReady n) (gdb_send_data w (b's' ∷ [])) _
        (send_data-IsSound w only n (b's' ∷ []) (omega arith)) (λ _. get_packet-IsSound w only n)
