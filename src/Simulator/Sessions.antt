-- ===== src/Simulator/Sessions.antt =====
-- Sessions with the simulator: calls of the interface one after another on a connection.
pub mod Safety
use arm_reimplementation.Base.{
  ℕ, ◌≤◌, ◌<◌, ◌≡◌, ◌↔◌, ◌⊎◌, inl, inr, refl, sym, ap, ◌∙◌, Bool, true, false, Option, none, some,
  List, [], ◌∷◌, length, length-replicate, subst, if◌then◌else◌, arith,
}
use arm_reimplementation.Runtime.Bytes.{IsU32}
use arm_reimplementation.Runtime.Io.{
  Run, Outcome, ok, exits, fault, ◌>>=◌, ◌>>◌, pure, skip, bind_fault,
}
use arm_reimplementation.Gdb.Packet.{Link, Writer}
use arm_reimplementation.Gdb.Scanner.{Answer, packet_read, end_of_file}
use arm_reimplementation.Gdb.Commands.{gdb_cont, gdb_step, gdb_write_register, gdb_write_memory}
use arm_reimplementation.Gdb.Commands.Chunks.{escapes}
use arm_reimplementation.Gdb.Safety.{Stays, IsSound, IsReady, OnlySends, bind_Stays, Stays-weaken}
use arm_reimplementation.Gdb.Safety.Commands.{
  write_register-IsSound, write_memory-IsSound, cont-IsSound, step-IsSound,
}
use arm_reimplementation.Simulator.{
  Attempt, no_socket, unreachable, connected, try_addresses, new_link, arm_connect, cleanup, using,
  arm_write_register, arm_write_memory, arm_run, arm_step,
}

-- A call of the interface with its arguments.
pub data Call : Type 0 where
  register : ℕ → ℕ → Call
  memory : ℕ → List ℕ → Call
  step run : Call

-- The arguments that the protocol has room for: a register number of a byte, an address of 32 bits,
-- and bytes that are at most 1000 once they are escaped.
unfoldable pub IsInBounds : Call → Type 0
IsInBounds (register num value) = num < 256
IsInBounds (memory address bytes) = IsU32 address × (length (escapes bytes) ≤ 1000)
IsInBounds step = Unit {0}
IsInBounds run = Unit {0}

-- In use, or freed.
unfoldable pub IsWhole : ℕ → Link → Type 0
IsWhole n link = IsReady n link ⊎ (link.alive ≡ false)

module _ (w : Writer) (big target_big_endian : Bool) where
  unfoldable pub perform : Call → Run Link (Unit {0})
  perform (register num value) = arm_write_register w big target_big_endian num value
  perform (memory address bytes) = arm_write_memory w address bytes
  perform step = arm_step w >>= λ _. skip
  perform run = arm_run w

  -- The connections that calls in bounds lead to.
  pub data Session (start : Link) : Link → Type 0 where
    opened : Session start start
    called :
        {link link' : Link} (call : Call)
        → IsInBounds call
        → Session start link
        → perform call link ≡ ok tt link'
        → Session start link'
