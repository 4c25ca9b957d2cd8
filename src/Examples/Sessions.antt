-- ===== src/Examples/Sessions.antt =====
-- Sessions on a descriptor that takes all bytes.
use arm_reimplementation.Base.{
  ◌≡◌, ◌↔◌, inl, refl, true, false, some, List, [], ◌∷◌, ◌++◌, length, replicate, arith,
}
use arm_reimplementation.Runtime.Io.{Outcome, ok, exits, fault}
use arm_reimplementation.Gdb.Packet.{
  Link, put_packet, set_len, seal, checksum, gdb_send_buffer, gdb_send_data, gdb_transmit_packet,
}
use arm_reimplementation.Gdb.Packet.Framing.{frame}
use arm_reimplementation.Gdb.Scanner.{packet_read, gdb_get_packet, scan, handle_error}
use arm_reimplementation.Gdb.Commands.{gdb_cont, gdb_get_answer}
use arm_reimplementation.Runtime.Bytes.{poke, write_at}
use arm_reimplementation.Runtime.Printf.{digit, print_hex_width, pad_left, print_hex, print_base}
use arm_reimplementation.Gdb.Scanner.Progress.{AlwaysSends}
use arm_reimplementation.Gdb.Scanner.Progress.Accepts.{get_packet_finds}
use arm_reimplementation.Gdb.Safety.{OnlySends}
use arm_reimplementation.Simulator.{
  Attempt, unreachable, connected, try_addresses, new_link, arm_connect, arm_run, using, cleanup,
}
use arm_reimplementation.Simulator.Sessions.{
  register, memory, run, perform, Session, opened, called, IsInBounds, IsWhole,
}
use arm_reimplementation.Simulator.Sessions.Safety.{session-IsWhole, session_call, run_then_call}
use arm_reimplementation.Examples.Packets.{recorder, fresh, ok-IsPlain}

pub recorder-OnlySends : OnlySends recorder
unfolding OnlySends
recorder-OnlySends bytes link = inl (link.sent ++ bytes, refl)

recorder-AlwaysSends : AlwaysSends recorder
unfolding AlwaysSends
recorder-AlwaysSends bytes link = (link.sent ++ bytes, refl)

-- Two bytes of noise and an acknowledgement before the answer `OK`, and a byte behind it.
abbrev noisy : Link
noisy = record fresh {
  incoming = b'x' ∷ b'#' ∷ b'+' ∷ [] ++ (frame (b'O' ∷ b'K' ∷ []) ++ (b'+' ∷ []));
}

get_packet_finds_example :
    (link' : Link) × (gdb_get_packet recorder noisy ≡ ok packet_read link')
    × (link'.incoming ≡ b'+' ∷ [])
    × (link'.answer ≡ frame (b'O' ∷ b'K' ∷ []))
get_packet_finds_example =
    get_packet_finds recorder noisy (b'x' ∷ b'#' ∷ b'+' ∷ []) (b'O' ∷ b'K' ∷ []) (b'+' ∷ [])
      recorder-AlwaysSends (omega arith)
      ((λ e. omega arith), ((λ e. omega arith), ((λ e. omega arith), tt))) ok-IsPlain refl

-- The second address answers, and will send nothing.
abbrev addresses : List Attempt
addresses = unreachable ∷ connected [] ∷ []

abbrev pub start : Link
start = record {
  packet = replicate 1024 0;
  len = 0;
  answer = [];
  answer_len = 0;
  sent = [];
  incoming = [];
  errors = [];
  echoed = [];
  alive = true;
}

pub starts : arm_connect addresses ≡ some start
unfolding arm_connect try_addresses new_link
starts = refl

-- The program runs, and the end of the input is the answer.
abbrev left : Outcome Link (Unit {0}) → Link
left (ok a l) = l
left (exits n l) = start
left fault = start

abbrev finished : Link
finished = left (arm_run recorder start)

ran : arm_run recorder start ≡ ok tt finished
unfolding arm_run using cleanup gdb_cont gdb_send_data put_packet poke write_at set_len
    gdb_send_buffer seal checksum digit print_hex_width pad_left print_hex print_base
    gdb_transmit_packet gdb_get_answer gdb_get_packet scan handle_error
ran = refl

session : Session recorder false true start finished
unfolding IsInBounds perform
session = called run tt opened ran

session-IsWhole_example : IsWhole (length start.incoming) finished
session-IsWhole_example =
    session-IsWhole recorder false true addresses start finished recorder-OnlySends starts session

session_call_example :
    (perform recorder false true (register 15 0x58) finished ≡ fault) ↔ (finished.alive ≡ false)
unfolding IsInBounds
session_call_example =
    session_call recorder false true addresses start finished (register 15 0x58) recorder-OnlySends
      starts session (omega arith)

run_then_call_example : perform recorder false true (memory 0x58 (1 ∷ [])) finished ≡ fault
run_then_call_example = run_then_call recorder false true start finished (memory 0x58 (1 ∷ [])) ran
