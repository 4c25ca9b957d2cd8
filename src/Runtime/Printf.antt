-- ===== src/Runtime/Printf.antt =====
-- The conversions of `printf` that the program uses.
pub mod RoundTrip
use arm_reimplementation.Base.{
  ℕ, zero, suc, ◌+◌, ◌-◌, ◌*◌, ◌/◌, ◌%◌, ◌^◌, Bool, List, [], ◌∷◌, ◌++◌, ltb, replicate, length,
  if◌then◌else◌,
}

-- The character of a digit below 16, as `%d` and `%x` print it.
unfoldable pub digit : ℕ → ℕ
digit d = if ltb d 10 then b'0' + d else b'a' + d - 10

-- The digits of `n` in a base, most significant first; `fuel` bounds their number.
unfoldable pub print_base : ℕ → ℕ → ℕ → List ℕ
print_base base zero n = []
print_base base (suc fuel) n =
    let front = print_base base fuel (n / base) in
    if ltb n base then digit n ∷ [] else front ++ (digit (n % base) ∷ [])

-- `%u` and `%x` of a 32-bit value: at most 10 and at most 8 digits.
unfoldable pub print_unsigned : ℕ → List ℕ
print_unsigned n = print_base 10 10 n

unfoldable pub print_hex : ℕ → List ℕ
print_hex n = print_base 16 8 n

-- `%d` of a 32-bit pattern.
unfoldable pub print_int : ℕ → List ℕ
print_int n = if ltb n (2 ^ 31) then print_unsigned n else b'-' ∷ print_unsigned (2 ^ 32 - n)

-- A field width: filled on the left, by spaces or zeros, or on the right.
unfoldable pub pad_left : ℕ → ℕ → List ℕ → List ℕ
pad_left fill width s = replicate (width - length s) fill ++ s

unfoldable pub pad_right : ℕ → List ℕ → List ℕ
pad_right width s = s ++ replicate (width - length s) b' '

-- `%02x`, `%06x` and `%08x`.
unfoldable pub print_hex_width : ℕ → ℕ → List ℕ
print_hex_width width n = pad_left b'0' width (print_hex n)
