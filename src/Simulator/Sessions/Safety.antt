-- ===== src/Simulator/Sessions/Safety.antt =====
-- Sessions: the connection that the calls leave, and when a call is defined.
use arm_reimplementation.Base.{
  ℕ, ◌≡◌, ◌↔◌, inl, inr, refl, sym, Bool, true, false, Option, none, some, List, [], ◌∷◌, length,
  length-replicate, subst, if◌then◌else◌, arith,
}
use arm_reimplementation.Runtime.Io.{
  Run, Outcome, ok, exits, fault, ◌>>=◌, ◌>>◌, pure, skip, bind_fault,
}
use arm_reimplementation.Gdb.Packet.{Link, Writer}
use arm_reimplementation.Gdb.Scanner.{Answer, packet_read, end_of_file}
use arm_reimplementation.Gdb.Commands.{gdb_cont, gdb_step, gdb_write_register, gdb_write_memory}
use arm_reimplementation.Gdb.Safety.{Stays, IsSound, IsReady, OnlySends, bind_Stays, Stays-weaken}
use arm_reimplementation.Gdb.Safety.Commands.{
  write_register-IsSound, write_memory-IsSound, cont-IsSound, step-IsSound,
}
use arm_reimplementation.Simulator.{
  Attempt, no_socket, unreachable, connected, try_addresses, new_link, arm_connect, cleanup, using,
  arm_write_register, arm_write_memory, arm_run, arm_step,
}
use arm_reimplementation.Simulator.Sessions.{
  Call, register, memory, step, run, IsInBounds, IsWhole, perform, Session, opened, called,
}

-- A use of a connection in use.
using_alive :
    {A : Type 0} (P : Link → Type 0) (m : Run Link A) (link : Link)
    → link.alive ≡ true
    → Stays P (m link)
    → Stays P (using m link)
unfolding using
using_alive P m link alive h = subst (λ b. Stays P (if b then m link else fault)) (sym alive) h

using_freed :
    {A : Type 0} (m : Run Link A) (link : Link) → link.alive ≡ false → using m link ≡ fault
unfolding using
using_freed m link freed = λ i. if freed i then m link else fault

-- What `arm_step` does with a connection in use.
stepping : Writer → Run Link Answer
stepping w = do
  answer ← gdb_step w
  elim answer [ packet_read ↦ pure packet_read | end_of_file ↦ cleanup >> pure end_of_file ]

cleanup_frees : (n : ℕ) (link : Link) → Stays (IsWhole n) (cleanup link)
unfolding Stays cleanup IsWhole
cleanup_frees n link = inr refl

whole : (n : ℕ) (o : Outcome Link (Unit {0})) → Stays (IsReady n) o → Stays (IsWhole n) o
unfolding IsWhole
whole n o h = Stays-weaken (IsReady n) (IsWhole n) o (λ l k. inl k) h

module _ (w : Writer) (only : OnlySends w) (big target_big_endian : Bool) where
  step_outcome :
      (n : ℕ) (a : Answer) (l : Link)
      → IsReady n l
      → Stays (IsWhole n) (
          (elim a as (λ x. Run Link Answer) [
            | packet_read ↦ pure packet_read
            | end_of_file ↦ cleanup >> pure end_of_file
          ])
            l)
  unfolding Stays IsWhole cleanup
  step_outcome n packet_read l h = inl h
  step_outcome n end_of_file l h = inr refl

  skipped : (n : ℕ) (l : Link) → IsWhole n l → Stays (IsWhole n) (skip l)
  unfolding Stays
  skipped n l h = h

  perform_ready :
      (n : ℕ) (call : Call) (link : Link)
      → IsInBounds call
      → IsReady n link
      → Stays (IsWhole n) (perform w big target_big_endian call link)
  unfolding stepping IsSound IsInBounds perform arm_write_register arm_write_memory arm_run arm_step
      IsReady
  perform_ready n (register num value) link fits h =
      using_alive (IsWhole n) (gdb_write_register w big target_big_endian num value) link h.4
        (whole n _ (write_register-IsSound w only n num value big target_big_endian fits link h))
  perform_ready n (memory address bytes) link fits h =
      using_alive (IsWhole n) (gdb_write_memory w address bytes) link h.4
        (whole n _ (write_memory-IsSound w only n address bytes fits.0 fits.1 link h))
  perform_ready n step link fits h =
      bind_Stays (IsWhole n) (IsWhole n) (arm_step w) (λ _. skip) link
        (using_alive (IsWhole n) (stepping w) link h.4 (
          bind_Stays (IsReady n) (IsWhole n) (gdb_step w) _ link (step-IsSound w only n link h)
            (λ a l k. step_outcome n a l k)))
        (λ a l k. skipped n l k)
  perform_ready n run link fits h = using_alive (IsWhole n) (gdb_cont w >> cleanup) link h.4 (
      bind_Stays (IsReady n) (IsWhole n) (gdb_cont w) (λ _. cleanup) link
        (cont-IsSound w only n link h) (λ a l k. cleanup_frees n l))

freed_faults :
    (w : Writer) (big target_big_endian : Bool) (call : Call) (link : Link)
    → link.alive ≡ false
    → perform w big target_big_endian call link ≡ fault
unfolding stepping perform arm_write_register arm_write_memory arm_run arm_step
freed_faults w big target_big_endian (register num value) link h =
    using_freed (gdb_write_register w big target_big_endian num value) link h
freed_faults w big target_big_endian (memory address bytes) link h =
    using_freed (gdb_write_memory w address bytes) link h
freed_faults w big target_big_endian step link h =
    bind_fault (arm_step w) (λ _. skip) (using_freed (stepping w) link h)
freed_faults w big target_big_endian run link h = using_freed (gdb_cont w >> cleanup) link h

-- What `arm_connect` gives is a connection in use, where it gives one.
IsFresh : Option Link → Type 0
IsFresh none = Unit {0}
IsFresh (some l) = IsReady (length l.incoming) l

arm_connect-IsFresh : (attempts : List Attempt) → IsFresh (arm_connect attempts)
unfolding arm_connect try_addresses new_link IsReady IsFresh
arm_connect-IsFresh [] = tt
arm_connect-IsFresh (no_socket ∷ attempts) = arm_connect-IsFresh attempts
arm_connect-IsFresh (unreachable ∷ attempts) = arm_connect-IsFresh attempts
arm_connect-IsFresh (connected incoming ∷ attempts) =
    (length-replicate {A = ℕ} 1024 0, omega arith, omega arith, omega arith, refl)

arm_connect-IsReady :
    (attempts : List Attempt) (start : Link)
    → arm_connect attempts ≡ some start
    → IsReady (length start.incoming) start
unfolding IsFresh
arm_connect-IsReady attempts start e = subst IsFresh e (arm_connect-IsFresh attempts)

perform_whole :
    (w : Writer) (only : OnlySends w) (big target_big_endian : Bool) (n : ℕ) (call : Call)
    (link : Link)
    → IsInBounds call
    → IsWhole n link
    → (perform w big target_big_endian call link ≡ fault) ↔ (link.alive ≡ false)
unfolding IsWhole Stays IsReady
perform_whole w only big target_big_endian n call link fits (inl ready) = (
  (λ e. absurd (
      subst (Stays (IsWhole n)) e
        (perform_ready w only big target_big_endian n call link fits ready))),
  (λ e. cc),
)
perform_whole w only big target_big_endian n call link fits (inr freed) =
    ((λ e. freed), (λ e. freed_faults w big target_big_endian call link freed))

-- Along a session of calls in bounds on a connection that was made, the connection is freed, or its
-- arrays have their sizes, its counters are in their bounds, and no more is to come in than at the
-- start. Writing changes nothing but what went out, or ends the program.
pub session-IsWhole :
    (w : Writer) (big target_big_endian : Bool) (attempts : List Attempt) (start link : Link)
    → OnlySends w
    → arm_connect attempts ≡ some start
    → Session w big target_big_endian start link
    → IsWhole (length start.incoming) link
unfolding IsWhole Stays IsReady
session-IsWhole w big target_big_endian attempts start link only e opened =
    inl (arm_connect-IsReady attempts start e)
session-IsWhole w big target_big_endian attempts start link only e
      (called {link = before} call fits session done) =
    elim (session-IsWhole w big target_big_endian attempts start before only e session) [
      | inl ready ↦ subst (Stays (IsWhole (length start.incoming))) done (
          perform_ready w only big target_big_endian (length start.incoming) call before fits ready)
      | inr freed ↦ let bad = freed_faults w big target_big_endian call before freed in cc
    ]

-- In such a session, a call in bounds is undefined exactly where the connection has been freed, under
-- the same condition on writing.
pub session_call :
    (w : Writer) (big target_big_endian : Bool) (attempts : List Attempt) (start link : Link)
    (call : Call)
    → OnlySends w
    → arm_connect attempts ≡ some start
    → Session w big target_big_endian start link
    → IsInBounds call
    → (perform w big target_big_endian call link ≡ fault) ↔ (link.alive ≡ false)
session_call w big target_big_endian attempts start link call only e session fits =
    perform_whole w only big target_big_endian (length start.incoming) call link fits
      (session-IsWhole w big target_big_endian attempts start link only e session)

-- Freed by the end, where there is one.
IsDone : Outcome Link (Unit {0}) → Type 0
IsDone (ok a l) = l.alive ≡ false
IsDone (exits n l) = Unit {0}
IsDone fault = Unit {0}

run_outcome :
    (b : Bool) (o : Outcome Link (Unit {0})) (link : Link)
    → IsDone (if b then ((λ (l : Link). o) >> cleanup) link else fault)
unfolding IsDone cleanup
run_outcome true (ok a l) link = refl
run_outcome true (exits n l) link = tt
run_outcome true fault link = tt
run_outcome false o link = tt

-- Behind an `arm_run` that comes back, every call is undefined: the connection is freed.
pub run_then_call :
    (w : Writer) (big target_big_endian : Bool) (link link' : Link) (call : Call)
    → arm_run w link ≡ ok tt link'
    → perform w big target_big_endian call link' ≡ fault
unfolding arm_run using IsDone
run_then_call w big target_big_endian link link' call e =
    freed_faults w big target_big_endian call link'
      (subst IsDone e (run_outcome link.alive (gdb_cont w link) link))
