-- ===== src/Gdb/Packet.antt =====
-- gdb_protocol.c: packets, their checksums, and how one is sent and checked.
pub mod Framing
use arm_reimplementation.Base.{
  ℕ, zero, suc, ◌+◌, ◌-◌, ◌*◌, ◌%◌, Bool, true, false, Option, none, some, List, [], ◌∷◌, ◌++◌,
  ◌==◌, leb, length, take, drop, if◌then◌else◌,
}
use arm_reimplementation.Runtime.Bytes.{poke}
use arm_reimplementation.Runtime.Io.{Run, ok, fault, ◌>>=◌, ◌>>◌, pure}
use arm_reimplementation.Runtime.Printf.{print_hex_width}
use arm_reimplementation.Runtime.Printf.RoundTrip.{read_from}

abbrev pub max_packet_size : ℕ
max_packet_size = 1024

-- `MAX_BUFFER_SIZE`
abbrev pub max_buffer_size : ℕ
max_buffer_size = 1018

-- The connection: the protocol's packet with its length, the last answer, what went out on the
-- descriptor and what will come in, the scanner's bytes in error, and what the scanner echoes.
-- `alive` is false once the structures are freed.
pub record Link : Type 0 where
  pub packet : List ℕ
  pub len : ℕ
  pub answer : List ℕ
  pub answer_len : ℕ
  pub sent : List ℕ
  pub incoming : List ℕ
  pub errors : List ℕ
  pub echoed : List ℕ
  pub alive : Bool

-- `Rio_writen` of csapp.c, which sends all the bytes or ends the program.
abbrev pub Writer : Type 0
Writer = List ℕ → Run Link (Unit {0})

-- The low byte of the sum, as the `unsigned char` adds up.
unfoldable pub checksum : List ℕ → ℕ → ℕ
checksum [] acc = acc
checksum (c ∷ cs) acc = checksum cs ((acc + c) % 256)

-- A store into the packet's array.
unfoldable pub put_packet : ℕ → List ℕ → Run Link (Unit {0})
put_packet i bytes link = elim (poke link.packet i bytes) [
  | none ↦ fault
  | some packet' ↦ ok tt (record link { packet = packet' })
]

unfoldable pub set_len : ℕ → Run Link (Unit {0})
set_len n link = ok tt (record link { len = n })

-- What the sum of `len` bytes from index 1 on is appended as: `#`, two digits, a null byte.
unfoldable pub seal : ℕ → Run Link (Unit {0})
seal n link =
    if leb (1 + n) (length link.packet)
    then (let check = checksum (take n (drop 1 link.packet)) 0 in
          put_packet (1 + n) (b'#' ∷ [])
          >> (put_packet (2 + n) (print_hex_width 2 check ++ (0 ∷ []))
              >> (put_packet (4 + n) (0 ∷ []) >> set_len (4 + n))))
        link
    else fault

unfoldable pub set_answer : List ℕ → Run Link (Unit {0})
set_answer packet link = ok tt (record link { answer = packet; answer_len = length packet })

module _ (rio_writen : Writer) where
  unfoldable pub gdb_send_ack : Run Link (Unit {0})
  gdb_send_ack = rio_writen (b'+' ∷ [])

  unfoldable pub gdb_require_retransmission : Run Link (Unit {0})
  gdb_require_retransmission = rio_writen (b'-' ∷ [])

  unfoldable pub gdb_transmit_packet : Run Link (Unit {0})
  gdb_transmit_packet link = rio_writen (take link.len link.packet) link

  unfoldable pub gdb_send_buffer : Run Link (Unit {0})
  gdb_send_buffer link = (put_packet 0 (b'$' ∷ []) >> (seal link.len >> gdb_transmit_packet)) link

  -- `strcpy` with its null byte.
  unfoldable pub gdb_send_data : List ℕ → Run Link (Unit {0})
  gdb_send_data bytes =
      put_packet 1 (bytes ++ (0 ∷ [])) >> (set_len (length bytes) >> gdb_send_buffer)

  -- The sum is over all but the first byte and the last three; the scanner gives no packet of less
  -- than four. The two digits behind `#` are what `sscanf` reads.
  unfoldable pub gdb_packet_check : List ℕ → Run Link Bool
  gdb_packet_check packet =
      let content = take (length packet - 4) (drop 1 packet) in
      let given = read_from 16 0 (drop (length packet - 2) packet) in
      if checksum content 0 == given
      then (gdb_send_ack >> (set_answer packet >> pure true))
      else (gdb_require_retransmission >> pure false)
