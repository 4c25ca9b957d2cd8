-- ===== src/Simulator.antt =====
-- arm_simulator_interface.c: the connection to the simulator, as the loaders use it.
pub mod Sessions
use arm_reimplementation.Base.{
  ℕ, Bool, true, false, Option, none, some, List, [], ◌∷◌, replicate, if◌then◌else◌,
}
use arm_reimplementation.Runtime.Io.{Run, ok, fault, ◌>>=◌, ◌>>◌, pure}
use arm_reimplementation.Gdb.Packet.{Link, Writer, max_packet_size}
use arm_reimplementation.Gdb.Scanner.{Answer, packet_read, end_of_file}
use arm_reimplementation.Gdb.Commands.{gdb_write_register, gdb_write_memory, gdb_cont, gdb_step}

-- What becomes of one address that `getaddrinfo` gives: `socket` fails, `connect` fails, or it
-- answers, with what it will send.
pub data Attempt : Type 0 where
  no_socket unreachable : Attempt
  connected : List ℕ → Attempt

-- The loop over the addresses: the first that answers.
unfoldable pub try_addresses : List Attempt → Option (List ℕ)
try_addresses [] = none
try_addresses (no_socket ∷ attempts) = try_addresses attempts
try_addresses (unreachable ∷ attempts) = try_addresses attempts
try_addresses (connected incoming ∷ attempts) = some incoming

-- `gdb_init_data` and `init_gdb_scanner`: the packet's array is not initialised, here it is 0.
unfoldable pub new_link : List ℕ → Link
new_link incoming = record {
  packet = replicate max_packet_size 0;
  len = 0;
  answer = [];
  answer_len = 0;
  sent = [];
  incoming = incoming;
  errors = [];
  echoed = [];
  alive = true;
}

-- `none` is `error("Could not connect")`, which ends the program.
unfoldable pub arm_connect : List Attempt → Option Link
unfolding try_addresses new_link
arm_connect attempts = elim (try_addresses attempts) [
  | none ↦ none
  | some incoming ↦ some (new_link incoming)
]

-- `cleanup` frees the scanner, the protocol's data and the simulator.
unfoldable pub cleanup : Run Link (Unit {0})
cleanup link = ok tt (record link { alive = false })

-- A use of the simulator, which must not have been freed.
unfoldable pub using : {A : Type 0} → Run Link A → Run Link A
using m link = if link.alive then m link else fault

module _ (rio_writen : Writer) where
  unfoldable pub arm_write_register : Bool → Bool → ℕ → ℕ → Run Link (Unit {0})
  unfolding gdb_write_register using
  arm_write_register big target_big_endian num value =
      using (gdb_write_register rio_writen big target_big_endian num value)

  unfoldable pub arm_write_memory : ℕ → List ℕ → Run Link (Unit {0})
  unfolding gdb_write_memory using
  arm_write_memory address buffer = using (gdb_write_memory rio_writen address buffer)

  unfoldable pub arm_run : Run Link (Unit {0})
  unfolding gdb_cont cleanup using
  arm_run = using (gdb_cont rio_writen >> cleanup)

  unfoldable pub arm_step : Run Link Answer
  unfolding gdb_step cleanup using
  arm_step = using (do
    answer ← gdb_step rio_writen
    elim answer [ packet_read ↦ pure packet_read | end_of_file ↦ cleanup >> pure end_of_file ])
