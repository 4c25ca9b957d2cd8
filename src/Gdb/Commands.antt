-- ===== src/Gdb/Commands.antt =====
-- gdb_protocol.c: the commands that write registers and memory and that run the program.
pub mod Chunks
pub mod Memory
pub mod Overflow
pub mod Registers
use arm_reimplementation.Base.{
  ℕ, zero, suc, ◌+◌, ◌-◌, ◌*◌, ◌%◌, ◌^◌, Bool, true, false, Option, none, some, List, [], ◌∷◌, ◌++◌,
  ◌==◌, ◌||◌, ltb, length, get_or, bit_xor, if◌then◌else◌,
}
use arm_reimplementation.Runtime.Bytes.{store32, poke}
use arm_reimplementation.Runtime.Io.{Run, ok, fault, ◌>>=◌, ◌>>◌, pure, skip}
use arm_reimplementation.Runtime.Printf.{print_hex_width}
use arm_reimplementation.Util.{is_big_endian}
use arm_reimplementation.Gdb.Packet.{
  Link, Writer, max_buffer_size, put_packet, set_len, gdb_send_buffer, gdb_send_data,
}
use arm_reimplementation.Gdb.Scanner.{Answer, gdb_get_packet}

-- A test of two truth values.
abbrev same : Bool → Bool → Bool
same true b = b
same false true = false
same false false = true

-- The loop over the four bytes, `left` rounds, from byte `i` on, upwards or downwards.
unfoldable pub hex_bytes : List ℕ → Bool → ℕ → ℕ → List ℕ
hex_bytes bytes up zero i = []
hex_bytes bytes up (suc left) i =
    print_hex_width 2 (get_or bytes i 0) ++ hex_bytes bytes up left (if up then i + 1 else i - 1)

-- The text that `write_uint32` leaves, for a simulator of the byte order `target_big_endian`.
unfoldable pub write_uint32 : Bool → Bool → ℕ → List ℕ
unfolding hex_bytes is_big_endian store32
write_uint32 big target_big_endian value =
    if same (is_big_endian big) target_big_endian
    then hex_bytes (store32 big value) true 4 0
    else hex_bytes (store32 big value) false 4 3

-- The characters that are escaped.
unfoldable pub is_special : ℕ → Bool
is_special c = c == b'$' || (c == b'#' || c == 0x7d)

unfoldable pub escape : ℕ → List ℕ
unfolding is_special
escape c = if is_special c then 0x7d ∷ bit_xor c 0x20 ∷ [] else c ∷ []

-- The inner loop: the packet, `buffer_size` and the source. The bytes go to `gdb->buffer + 19`,
-- which is index 20 of the packet, and on. The results are the packet, the final `buffer_size`, the
-- number of bytes copied, and the source that is left.
pub record Chunk : Type 0 where
  pub filled : List ℕ
  pub buffer_size : ℕ
  pub bytes_copied : ℕ
  pub rest : List ℕ

unfoldable pub fill_chunk : List ℕ → ℕ → ℕ → List ℕ → Option Chunk
fill_chunk packet size copied [] =
    some (record { filled = packet; buffer_size = size; bytes_copied = copied; rest = [] })
fill_chunk packet size copied (c ∷ cs) =
    if ltb size (max_buffer_size - 1)
    then elim (poke packet (20 + size) (escape c)) [
      | none ↦ none
      | some packet' ↦ fill_chunk packet' (size + length (escape c)) (copied + 1) cs
    ]
    else some (record { filled = packet; buffer_size = size; bytes_copied = copied; rest = c ∷ cs })

module _ (rio_writen : Writer) where
  unfoldable pub gdb_get_answer : Run Link Answer
  gdb_get_answer = gdb_get_packet rio_writen

  -- `big` is the byte order of the host, `target_big_endian` that of the simulator.
  unfoldable pub gdb_write_register : Bool → Bool → ℕ → ℕ → Run Link (Unit {0})
  gdb_write_register big target_big_endian num value = do
    put_packet 1 (b'P' ∷ print_hex_width 2 num ++ (b'=' ∷ 0 ∷ []))
    put_packet 5 (write_uint32 big target_big_endian value ++ (0 ∷ []))
    set_len 12
    gdb_send_buffer rio_writen
    answer ← gdb_get_answer
    skip

  -- The packet `X` for the bytes that are in place.
  unfoldable pub send_chunk : ℕ → Chunk → Run Link (Unit {0})
  send_chunk address chunk = do
    put_packet 1 (
        b'X' ∷ print_hex_width 8 address
        ++ (b',' ∷ print_hex_width 8 chunk.bytes_copied ++ (0 ∷ [])))
    put_packet 19 (b':' ∷ [])
    set_len (19 + chunk.buffer_size)
    gdb_send_buffer rio_writen
    answer ← gdb_get_answer
    skip

  -- The outer loop. A round copies one byte at least, so as many rounds as there are bytes are
  -- enough.
  unfoldable pub write_chunks : ℕ → ℕ → List ℕ → Run Link (Unit {0})
  write_chunks fuel address [] link = ok tt link
  write_chunks zero address (c ∷ cs) link = fault
  write_chunks (suc fuel) address (c ∷ cs) link = elim (fill_chunk link.packet 0 0 (c ∷ cs)) [
    | none ↦ fault
    | some chunk ↦
        (send_chunk address chunk
            >> write_chunks fuel ((address + chunk.bytes_copied) % 2 ^ 32) chunk.rest)
          (record link { packet = chunk.filled })
  ]

  unfoldable pub gdb_write_memory : ℕ → List ℕ → Run Link (Unit {0})
  gdb_write_memory address buffer = write_chunks (length buffer) address buffer

  unfoldable pub gdb_cont : Run Link (Unit {0})
  gdb_cont = do gdb_send_data rio_writen (b'c' ∷ []); answer ← gdb_get_answer; skip

  unfoldable pub gdb_step : Run Link Answer
  gdb_step = do gdb_send_data rio_writen (b's' ∷ []); gdb_get_answer
