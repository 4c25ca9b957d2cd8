-- ===== src/Runtime/Bytes.antt =====
-- Words in memory: byte order, `ntohl` and its kin, and stores into a byte buffer.
pub mod Swap
pub mod Stores
use arm_reimplementation.Base.{
  ℕ, zero, suc, ◌+◌, ◌*◌, ◌/◌, ◌%◌, ◌^◌, ◌<◌, Bool, Option, none, some, List, [], ◌∷◌, leb, set,
  get_or, length, if◌then◌else◌,
}

abbrev pub IsByte : ℕ → Type 0
IsByte b = b < 256

abbrev pub IsU16 : ℕ → Type 0
IsU16 v = v < 2 ^ 16

abbrev pub IsU32 : ℕ → Type 0
IsU32 v = v < 2 ^ 32

-- The numbers that bytes written most significant first stand for.
abbrev pub be16 : ℕ → ℕ → ℕ
be16 a b = a * 256 + b

abbrev pub be32 : ℕ → ℕ → ℕ → ℕ → ℕ
be32 a b c d = ((a * 256 + b) * 256 + c) * 256 + d

-- A `uint16_t` or `uint32_t` in memory at `i`, on a host of the given byte order.
unfoldable pub load16 : Bool → List ℕ → ℕ → ℕ
load16 big bs i =
    let a = get_or bs i 0 in let b = get_or bs (i + 1) 0 in if big then be16 a b else be16 b a

unfoldable pub load32 : Bool → List ℕ → ℕ → ℕ
load32 big bs i =
    let a = get_or bs i 0 in
    let b = get_or bs (i + 1) 0 in
    let c = get_or bs (i + 2) 0 in
    let d = get_or bs (i + 3) 0 in if big then be32 a b c d else be32 d c b a

-- The bytes that the host stores for a value.
unfoldable pub store16 : Bool → ℕ → List ℕ
store16 big v = if big then (v / 256 % 256) ∷ (v % 256) ∷ [] else (v % 256) ∷ (v / 256 % 256) ∷ []

unfoldable pub store32 : Bool → ℕ → List ℕ
store32 big v =
    if big
    then (v / 2 ^ 24 % 256) ∷ (v / 2 ^ 16 % 256) ∷ (v / 256 % 256) ∷ (v % 256) ∷ []
    else (v % 256) ∷ (v / 256 % 256) ∷ (v / 2 ^ 16 % 256) ∷ (v / 2 ^ 24 % 256) ∷ []

-- `ntohs` and `htons`, `ntohl` and `htonl`: the identity on a big-endian host, else a byte swap.
unfoldable pub ntohs : Bool → ℕ → ℕ
ntohs big v = if big then v % 2 ^ 16 else be16 (v % 256) (v / 256 % 256)

unfoldable pub ntohl : Bool → ℕ → ℕ
ntohl big v =
    if big then v % 2 ^ 32 else be32 (v % 256) (v / 256 % 256) (v / 2 ^ 16 % 256) (v / 2 ^ 24 % 256)

abbrev pub htons : Bool → ℕ → ℕ
htons = ntohs

abbrev pub htonl : Bool → ℕ → ℕ
htonl = ntohl

-- Bytes stored one after the other from index `i` on.
unfoldable pub write_at : List ℕ → ℕ → List ℕ → List ℕ
write_at buf i [] = buf
write_at buf i (v ∷ vs) = write_at (set buf i v) (suc i) vs

-- A store through a pointer into a buffer; `none` when it leaves the buffer.
unfoldable pub poke : List ℕ → ℕ → List ℕ → Option (List ℕ)
poke buf i vs = if leb (i + length vs) (length buf) then some (write_at buf i vs) else none
