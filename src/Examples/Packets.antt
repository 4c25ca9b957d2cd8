-- ===== src/Examples/Packets.antt =====
-- Packets to the simulator, on a descriptor that takes all bytes.
use arm_reimplementation.Base.{
  ℕ, ◌+◌, ◌≤◌, ◌≡◌, refl, sym, ap, true, false, List, [], ◌∷◌, ◌++◌, length, replicate,
  length-replicate, arith, All,
}
use arm_reimplementation.Runtime.Io.{Outcome, ok, exits, fault, ◌>>=◌, ◌>>◌, pure, skip}
use arm_reimplementation.Gdb.Packet.{Link, Writer, set_answer, gdb_send_ack, gdb_send_buffer}
use arm_reimplementation.Gdb.Scanner.{packet_read, gdb_get_packet}
use arm_reimplementation.Gdb.Scanner.Keeps.{Keeps}
use arm_reimplementation.Gdb.Scanner.Rounds.{Scans, get_packet_ends}
use arm_reimplementation.Gdb.Scanner.Frames.{IsPlain, get_packet-frame}
use arm_reimplementation.Gdb.Packet.Framing.{frame, send_buffer_frame}
use arm_reimplementation.Gdb.Commands.{
  is_special, escape, write_uint32, gdb_get_answer, gdb_write_memory, gdb_write_register,
}
use arm_reimplementation.Gdb.Commands.Registers.{
  big_digits, register_content, write_uint32_lem, write_register_packet,
}
use arm_reimplementation.Gdb.Commands.Chunks.{escapes, unescape, length-escapes, unescape-escapes}
use arm_reimplementation.Gdb.Commands.Memory.{memory_content, write_memory_packet}
use arm_reimplementation.Gdb.Commands.Overflow.{write_memory_overruns}

abbrev pub recorder : Writer
recorder bytes link = ok tt (record link { sent = link.sent ++ bytes })

-- A fresh connection, on which the packet `$#00` will come in.
abbrev pub fresh : Link
fresh = record {
  packet = replicate 1024 0;
  len = 0;
  answer = [];
  answer_len = 0;
  sent = [];
  incoming = b'$' ∷ b'#' ∷ b'0' ∷ b'0' ∷ [];
  errors = [];
  echoed = [];
  alive = true;
}

-- A packet of ten bytes with the command `c` in place.
abbrev small : Link
small = record fresh { packet = 0 ∷ b'c' ∷ 0 ∷ 0 ∷ 0 ∷ 0 ∷ 0 ∷ 0 ∷ 0 ∷ 0 ∷ []; len = 1 }

send_buffer_frame_example :
    gdb_send_buffer recorder small
    ≡ recorder
        (frame (b'c' ∷ []))
        (record small { packet = frame (b'c' ∷ []) ++ (0 ∷ 0 ∷ 0 ∷ 0 ∷ 0 ∷ []); len = 5 })
send_buffer_frame_example =
    send_buffer_frame recorder small (b'c' ∷ []) (0 ∷ 0 ∷ 0 ∷ 0 ∷ 0 ∷ 0 ∷ 0 ∷ 0 ∷ []) 0 refl refl
      (omega arith)

unescape-escapes_example :
    unescape (escapes (b'$' ∷ 1 ∷ b'#' ∷ 0x7d ∷ 0x7d ∷ [])) ≡ b'$' ∷ 1 ∷ b'#' ∷ 0x7d ∷ 0x7d ∷ []
unescape-escapes_example = unescape-escapes (b'$' ∷ 1 ∷ b'#' ∷ 0x7d ∷ 0x7d ∷ [])

two_bytes_fit : length (escapes (b'$' ∷ 5 ∷ [])) ≤ 1000
unfolding escapes escape is_special
two_bytes_fit = omega arith

write_memory_packet_example :
    (packet : List ℕ) × (gdb_write_memory recorder 0x58 (b'$' ∷ 5 ∷ []) fresh
      ≡ (recorder (frame (memory_content 0x58 (b'$' ∷ 5 ∷ [])))
            >> (gdb_get_answer recorder >>= λ _. skip))
          (record fresh {
            packet = packet;
            len = 4 + length (memory_content 0x58 (b'$' ∷ 5 ∷ []));
          }))
write_memory_packet_example =
    write_memory_packet recorder fresh 0x58 b'$' (5 ∷ []) (length-replicate {A = ℕ} 1024 0)
      (omega arith) two_bytes_fit

write_memory_overruns_example : gdb_write_memory recorder 0x58 (replicate 1001 0) fresh ≡ fault
write_memory_overruns_example =
    write_memory_overruns recorder fresh 0x58 (replicate 1001 0) (length-replicate {A = ℕ} 1024 0)
      (omega (arith, length-escapes (replicate 1001 0), length-replicate {A = ℕ} 1001 0))

-- The answer `OK`, and an acknowledgement behind it.
abbrev answered : Link
answered = record fresh { incoming = frame (b'O' ∷ b'K' ∷ []) ++ (b'+' ∷ []) }

pub ok-IsPlain : All IsPlain (b'O' ∷ b'K' ∷ [])
unfolding IsPlain
ok-IsPlain =
    (((λ e. omega arith), (λ e. omega arith)), (((λ e. omega arith), (λ e. omega arith)), tt))

get_packet-frame_example :
    gdb_get_packet recorder answered
    ≡ (gdb_send_ack recorder >> (set_answer (frame (b'O' ∷ b'K' ∷ [])) >> pure packet_read))
        (record answered { incoming = b'+' ∷ [] })
get_packet-frame_example =
    get_packet-frame recorder answered (b'O' ∷ b'K' ∷ []) (b'+' ∷ []) refl ok-IsPlain refl

write_register_packet_example :
    (packet : List ℕ) × (gdb_write_register recorder false true 15 0x58 fresh
      ≡ (recorder (frame (register_content false true 15 0x58))
            >> (gdb_get_answer recorder >>= λ _. skip))
          (record fresh { packet = packet; len = 16 }))
write_register_packet_example =
    write_register_packet recorder fresh false true 15 0x58 (length-replicate {A = ℕ} 1024 0)
      (omega arith)

write_uint32_lem_example : write_uint32 false true 0x58 ≡ big_digits 0x58
write_uint32_lem_example = write_uint32_lem false true 0x58

abbrev left_incoming : Outcome Link (Unit {0}) → List ℕ
left_incoming (ok a link) = link.incoming
left_incoming (exits n link) = []
left_incoming fault = []

pub recorder-Keeps : (bytes : List ℕ) → Keeps (recorder bytes)
unfolding Keeps
recorder-Keeps bytes link link' a e = ap left_incoming (sym e)

get_packet_ends_example : Scans recorder answered (gdb_get_packet recorder answered)
get_packet_ends_example = get_packet_ends recorder answered recorder-Keeps
