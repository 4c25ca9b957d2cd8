-- ===== src/Runtime/Bytes/Swap.antt =====
-- The laws of `ntohl` and its kin over words in memory.
use arm_reimplementation.Base.{
  ℕ, ◌+◌, ◌%◌, ◌^◌, ◌<◌, Bool, true, false, List, ◌≡◌, refl, get_or, length, All, All-get_or, arith,
}
use arm_reimplementation.Runtime.Bytes.{IsByte, be32, load32, store16, store32, ntohs, ntohl}

pub ntohl-lt : (big : Bool) (v : ℕ) → ntohl big v < 2 ^ 32
unfolding ntohl
ntohl-lt true v = omega arith
ntohl-lt false v = omega arith

pub ntohs-lt : (big : Bool) (v : ℕ) → ntohs big v < 2 ^ 16
unfolding ntohs
ntohs-lt true v = omega arith
ntohs-lt false v = omega arith

pub ntohl-ntohl : (big : Bool) (v : ℕ) → ntohl big (ntohl big v) ≡ v % 2 ^ 32
unfolding ntohl
ntohl-ntohl true v = omega arith
ntohl-ntohl false v = omega arith

pub ntohs-ntohs : (big : Bool) (v : ℕ) → ntohs big (ntohs big v) ≡ v % 2 ^ 16
unfolding ntohs
ntohs-ntohs true v = omega arith
ntohs-ntohs false v = omega arith

-- Whatever the host, a loaded word put through `ntohl` is the big-endian number of its bytes.
module _ (big : Bool) (bs : List ℕ) (i : ℕ) (h : All IsByte bs) where
  byte-lt : (j : ℕ) → get_or bs j 0 < 256
  byte-lt j = All-get_or IsByte bs j 0 h (omega arith)

pub ntohl-load32 :
    (big : Bool) (bs : List ℕ) (i : ℕ)
    → All IsByte bs
    → ntohl big (load32 big bs i)
      ≡ be32 (get_or bs i 0) (get_or bs (i + 1) 0) (get_or bs (i + 2) 0) (get_or bs (i + 3) 0)
unfolding ntohl load32
ntohl-load32 true bs i h = omega (
  arith,
  byte-lt true bs i h i,
  byte-lt true bs i h (i + 1),
  byte-lt true bs i h (i + 2),
  byte-lt true bs i h (i + 3),
)
ntohl-load32 false bs i h = omega (
  arith,
  byte-lt true bs i h i,
  byte-lt true bs i h (i + 1),
  byte-lt true bs i h (i + 2),
  byte-lt true bs i h (i + 3),
)

-- Storing `htonl v` lays down the big-endian bytes of `v`, whatever the host.
pub store32-htonl : (big : Bool) (v : ℕ) → store32 big (ntohl big v) ≡ store32 true v
unfolding ntohl store32
store32-htonl true v = ground arith
store32-htonl false v = ground arith

pub store16-htons : (big : Bool) (v : ℕ) → store16 big (ntohs big v) ≡ store16 true v
unfolding ntohs store16
store16-htons true v = ground arith
store16-htons false v = ground arith

pub length-store32 : (big : Bool) (v : ℕ) → length (store32 big v) ≡ 4
unfolding store32
length-store32 true v = refl
length-store32 false v = refl

pub length-store16 : (big : Bool) (v : ℕ) → length (store16 big v) ≡ 2
unfolding store16
length-store16 true v = refl
length-store16 false v = refl

pub store32-IsByte : (big : Bool) (v : ℕ) → All IsByte (store32 big v)
unfolding store32
store32-IsByte true v = omega arith
store32-IsByte false v = omega arith

pub store16-IsByte : (big : Bool) (v : ℕ) → All IsByte (store16 big v)
unfolding store16
store16-IsByte true v = omega arith
store16-IsByte false v = omega arith
