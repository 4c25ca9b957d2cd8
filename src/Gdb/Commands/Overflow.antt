-- ===== src/Gdb/Commands/Overflow.antt =====
-- `gdb_write_memory` on bytes that do not fit one packet.
use arm_reimplementation.Base.{
  ℕ, ◌+◌, ◌%◌, ◌≤◌, ◌<◌, ◌^◌, ◌≡◌, refl, ap, ◌∙◌, Option, none, some, List, [], ◌∷◌, ◌++◌, leb,
  length, take, drop, arith, if◌then◌else◌, inl, inr, Bool-cases, Option-cases,
}
use arm_reimplementation.Runtime.Bytes.{poke}
use arm_reimplementation.Runtime.Bytes.Stores.{poke-eq-some, length-write_at, poke_out_of_bounds}
use arm_reimplementation.Runtime.Io.{
  Run, Outcome, ok, fault, ◌>>=◌, ◌>>◌, skip, bind_ok, bind_fault,
}
use arm_reimplementation.Runtime.Printf.{print_hex_width}
use arm_reimplementation.Gdb.Packet.{
  Link, Writer, checksum, put_packet, set_len, seal, gdb_send_buffer, gdb_transmit_packet,
}
use arm_reimplementation.Gdb.Commands.{
  Chunk, fill_chunk, gdb_get_answer, send_chunk, write_chunks, gdb_write_memory,
}
use arm_reimplementation.Gdb.Commands.Chunks.{escapes, fill_chunk_overflows}

-- What comes behind a store is undefined if it is so on every packet of the same size.
put_then :
    (link : Link) (i : ℕ) (vs : List ℕ) (k : Run Link (Unit {0}))
    → ((p : List ℕ) → length p ≡ length link.packet → k (record link { packet = p }) ≡ fault)
    → (put_packet i vs >> k) link ≡ fault
unfolding put_packet
put_then link i vs k rest = elim (Option-cases (poke link.packet i vs)) [
  | inl outside ↦
      bind_fault (put_packet i vs) (λ _. k)
        (λ d. elim (outside d) [
          | none ↦ fault
          | some packet' ↦ ok tt (record link { packet = packet' })
        ])
  | inr (p, placed) ↦
      bind_ok (put_packet i vs) (λ _. k) {s = link} {a = tt}
        (λ d. elim (placed d) [
          | none ↦ fault
          | some packet' ↦ ok tt (record link { packet = packet' })
        ])
      ∙ rest p
          (ap length (poke-eq-some link.packet i vs p placed).1 ∙ length-write_at link.packet i vs)
]

null_byte_outside :
    (n : ℕ) (link : Link) → length link.packet ≤ 4 + n → put_packet (4 + n) (0 ∷ []) link ≡ fault
unfolding put_packet
null_byte_outside n link h = λ d.
    elim (poke_out_of_bounds link.packet (4 + n) (0 ∷ []) (omega arith) d) [
      | none ↦ fault
      | some packet' ↦ ok tt (record link { packet = packet' })
    ]

-- The null byte behind the sum goes to index `4 + n`.
seal_overruns : (n : ℕ) (link : Link) → length link.packet ≤ 4 + n → seal n link ≡ fault
unfolding seal
seal_overruns n link small = elim (Bool-cases (leb (1 + n) (length link.packet))) [
  | inr short ↦ λ i. if short i then sealing link else fault
  | inl room ↦
      (λ i. if room i then sealing link else fault)
      ∙ put_then link (1 + n) (b'#' ∷ []) _ (λ p e.
        put_then (record link { packet = p }) (2 + n) (hex ++ (0 ∷ [])) _
          (λ q e'.
            bind_fault (put_packet (4 + n) (0 ∷ [])) (λ _. set_len (4 + n))
              (null_byte_outside n (record link { packet = q }) (omega arith))))
]
  where
    hex : List ℕ
    hex = print_hex_width 2 (checksum (take n (drop 1 link.packet)) 0)

    sealing : Run Link (Unit {0})
    sealing =
        put_packet (1 + n) (b'#' ∷ [])
        >> (put_packet (2 + n) (hex ++ (0 ∷ []))
            >> (put_packet (4 + n) (0 ∷ []) >> set_len (4 + n)))

send_buffer_overruns :
    (w : Writer) (link : Link) → length link.packet ≤ 4 + link.len → gdb_send_buffer w link ≡ fault
unfolding gdb_send_buffer
send_buffer_overruns w link small =
    put_then link 0 (b'$' ∷ []) (seal link.len >> gdb_transmit_packet w) (λ p e.
      bind_fault (seal link.len) (λ _. gdb_transmit_packet w)
        (seal_overruns link.len (record link { packet = p }) (omega (arith, e))))

send_chunk_overruns :
    (w : Writer) (link : Link) (address : ℕ) (chunk : Chunk)
    → length link.packet ≡ 1024
    → 1000 < chunk.buffer_size
    → send_chunk w address chunk link ≡ fault
unfolding send_chunk set_len
send_chunk_overruns w link address chunk full big = put_then link 1 _ _ (λ p e.
    put_then (record link { packet = p }) 19 (b':' ∷ []) _
      (λ q e'.
        bind_ok (set_len size) (λ _. gdb_send_buffer w >> answer_it)
          {s = record link { packet = q }} {s' = record link { packet = q; len = size }} {a = tt}
          refl
        ∙ bind_fault (gdb_send_buffer w) (λ _. answer_it)
            (send_buffer_overruns w (record link { packet = q; len = size }) (omega arith))))
  where
    size : ℕ
    size = 19 + chunk.buffer_size

    answer_it : Run Link (Unit {0})
    answer_it = gdb_get_answer w >>= λ _. skip

-- `length link.packet ≡ 1024` is the size that `gdb_init_data` gives the array. Bytes whose escaped
-- form is longer than 1000 bytes then end in a store outside of the packet's array, whatever the
-- address and whatever else the packet holds.
pub write_memory_overruns :
    (w : Writer) (link : Link) (address : ℕ) (buffer : List ℕ)
    → length link.packet ≡ 1024
    → 1000 < length (escapes buffer)
    → gdb_write_memory w address buffer link ≡ fault
unfolding gdb_write_memory write_chunks escapes
write_memory_overruns w link address [] full big = absurd (omega arith)
write_memory_overruns w link address (c ∷ cs) full big =
    elim (Option-cases (fill_chunk link.packet 0 0 (c ∷ cs))) [
      | inl outside ↦ λ i. round (outside i)
      | inr (chunk, filled) ↦
          let (more, same) =
            fill_chunk_overflows (c ∷ cs) link.packet 0 0 chunk (omega arith) filled in
          (λ i. round (filled i))
          ∙ bind_fault (send_chunk w address chunk)
              (λ _. write_chunks w (length cs) ((address + chunk.bytes_copied) % 2 ^ 32) chunk.rest)
              (send_chunk_overruns w (record link { packet = chunk.filled }) address chunk
                (same ∙ full) more)
    ]
  where
    round : Option Chunk → Outcome Link (Unit {0})
    round o = elim o [
      | none ↦ fault
      | some chunk ↦
          (send_chunk w address chunk
              >> write_chunks w (length cs) ((address + chunk.bytes_copied) % 2 ^ 32) chunk.rest)
            (record link { packet = chunk.filled })
    ]
