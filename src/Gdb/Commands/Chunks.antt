-- ===== src/Gdb/Commands/Chunks.antt =====
-- The inner loop of `gdb_write_memory`: escaped bytes laid into the packet.
use arm_reimplementation.Base.{
  ℕ, zero, suc, ◌+◌, ◌≤◌, ◌<◌, ◌≡◌, refl, sym, ap, ◌∙◌, true, false, Option, none, some, List, [],
  ◌∷◌, ◌++◌, ◌==◌, append_assoc, ltb, length, drop, length-append, length-drop, arith,
  if◌then◌else◌, lt→ltb, bit_xor, Bool-cases, Option-cases, inl, inr, ◌⊎◌,
}
use arm_reimplementation.Runtime.Bytes.{poke}
use arm_reimplementation.Runtime.Bytes.Stores.{poke-append, poke-eq-some, length-write_at}
use arm_reimplementation.Gdb.Commands.{Chunk, fill_chunk, escape, is_special}

-- The bytes as they are sent.
unfoldable pub escapes : List ℕ → List ℕ
escapes [] = []
escapes (c ∷ cs) = escape c ++ escapes cs

-- What the simulator makes of them: a byte behind 0x7d stands for itself with bit 5 turned.
unfoldable pub unescape : List ℕ → List ℕ
unescape [] = []
unescape (c ∷ []) = c ∷ []
unescape (c ∷ d ∷ cs) =
    let long = bit_xor d 0x20 ∷ unescape cs in
    let short = c ∷ unescape (d ∷ cs) in if c == 0x7d then long else short

pub length-escape : (c : ℕ) → (1 ≤ length (escape c)) × (length (escape c) ≤ 2)
unfolding escape is_special
length-escape c = ground arith

pub length-escapes : (cs : List ℕ) → length cs ≤ length (escapes cs)
unfolding escapes
length-escapes [] = omega arith
length-escapes (c ∷ cs) =
    omega (arith, length-append (escape c) (escapes cs), length-escape c, length-escapes cs)

drop-nil : (n : ℕ) → drop {A = ℕ} n [] ≡ []
drop-nil zero = refl
drop-nil (suc n) = refl

drop-drop : (m n : ℕ) (xs : List ℕ) → drop n (drop m xs) ≡ drop (m + n) xs
drop-drop zero n xs = let e : n ≡ zero + n = omega arith in ap (λ k. drop k xs) e
drop-drop (suc m) n [] = drop-nil n ∙ sym (drop-nil (suc m + n))
drop-drop (suc m) n (x ∷ xs) =
    let e : suc (m + n) ≡ suc m + n = omega arith in drop-drop m n xs ∙ ap (λ k. drop k (x ∷ xs)) e

-- Bytes that fit are laid into the packet whole, escaped, and none is left.
pub fill_chunk_fits :
    (cs pre room : List ℕ) (size copied : ℕ)
    → length pre ≡ 20 + size
    → size + length (escapes cs) ≤ 1000
    → length (escapes cs) ≤ length room
    → fill_chunk (pre ++ room) size copied cs
      ≡ some (record {
        filled = pre ++ (escapes cs ++ drop (length (escapes cs)) room);
        buffer_size = size + length (escapes cs);
        bytes_copied = copied + length cs;
        rest = [];
      })
unfolding fill_chunk escapes
fill_chunk_fits [] pre room size copied at small fits = λ i. some (record {
  filled = pre ++ room;
  buffer_size = add_none size i;
  bytes_copied = add_none copied i;
  rest = [];
})
  where
    add_none : (n : ℕ) → n ≡ n + 0
    add_none n = omega arith
fill_chunk_fits (c ∷ cs) pre room size copied at small fits =
    (λ i.
      if below i
      then elim (placed i) [
        | none ↦ none
        | some packet' ↦ fill_chunk packet' (size + length (escape c)) (copied + 1) cs
      ]
      else some (record {
        filled = pre ++ room;
        buffer_size = size;
        bytes_copied = copied;
        rest = c ∷ cs;
      }))
    ∙ fill_chunk_fits cs (pre ++ escape c) (drop (length (escape c)) room)
        (size + length (escape c)) (copied + 1) (omega (arith, length-append pre (escape c)))
        (omega (arith, total)) (omega (arith, total, length-drop (length (escape c)) room))
    ∙ (λ i. some (record {
      filled = regroup i;
      buffer_size = sum_size i;
      bytes_copied = sum_copied i;
      rest = [];
    }))
  where
    total : length (escape c ++ escapes cs) ≡ length (escape c) + length (escapes cs)
    total = length-append (escape c) (escapes cs)

    below : ltb size 1017 ≡ true
    below = lt→ltb size 1017 (omega (arith, total, length-escape c))

    placed :
        poke (pre ++ room) (20 + size) (escape c)
        ≡ some ((pre ++ escape c) ++ drop (length (escape c)) room)
    placed =
        ap (λ k. poke (pre ++ room) k (escape c)) (sym at)
        ∙ poke-append pre room (escape c) (omega (arith, total))
        ∙ ap some (sym (append_assoc pre (escape c) (drop (length (escape c)) room)))

    regroup :
        (pre ++ escape c)
          ++ (escapes cs ++ drop (length (escapes cs)) (drop (length (escape c)) room))
        ≡ pre ++ ((escape c ++ escapes cs) ++ drop (length (escape c ++ escapes cs)) room)
    regroup =
        append_assoc pre (escape c) _
        ∙ ap (λ (t : List ℕ). pre ++ t)
            (sym (append_assoc (escape c) (escapes cs) _)
              ∙ ap (λ (t : List ℕ). (escape c ++ escapes cs) ++ t)
                  (drop-drop (length (escape c)) (length (escapes cs)) room
                    ∙ ap (λ k. drop k room) (sym total)))

    sum_size :
        size + length (escape c) + length (escapes cs) ≡ size + length (escape c ++ escapes cs)
    sum_size = omega (arith, total)

    sum_copied : copied + 1 + length cs ≡ copied + suc (length cs)
    sum_copied = omega arith

length-poke :
    (buf : List ℕ) (i : ℕ) (vs out : List ℕ) → poke buf i vs ≡ some out → length out ≡ length buf
length-poke buf i vs out e = ap length (poke-eq-some buf i vs out e).1 ∙ length-write_at buf i vs

-- Where the bytes do not fit, more than 1000 are laid into the packet, if it does not end before.
pub fill_chunk_overflows :
    (cs packet : List ℕ) (size copied : ℕ) (chunk : Chunk)
    → 1000 < size + length (escapes cs)
    → fill_chunk packet size copied cs ≡ some chunk
    → (1000 < chunk.buffer_size) × (length chunk.filled ≡ length packet)
unfolding fill_chunk escapes
fill_chunk_overflows [] packet size copied chunk big e = ground arith
fill_chunk_overflows (c ∷ cs) packet size copied chunk big e = elim (Bool-cases (ltb size 1017)) [
  | inr full ↦ let stopped = (λ i. if sym full i then next else stop) ∙ e in ground arith
  | inl goes_on ↦ elim (Option-cases (poke packet (20 + size) (escape c))) [
    | inl outside ↦
        cc ((λ i. at_poke (sym outside i)) ∙ (λ i. if sym goes_on i then next else stop) ∙ e)
    | inr (packet', placed) ↦
        let found =
          (λ i. at_poke (sym placed i)) ∙ (λ i. if sym goes_on i then next else stop) ∙ e in
        let rest =
          fill_chunk_overflows cs packet' (size + length (escape c)) (copied + 1) chunk
            (omega (arith, length-append (escape c) (escapes cs))) found in
        (rest.0, rest.1 ∙ length-poke packet (20 + size) (escape c) packet' placed)
  ]
]
  where
    at_poke : Option (List ℕ) → Option Chunk
    at_poke o = elim o [
      | none ↦ none
      | some p ↦ fill_chunk p (size + length (escape c)) (copied + 1) cs
    ]

    next : Option Chunk
    next = at_poke (poke packet (20 + size) (escape c))

    stop : Option Chunk
    stop =
        some (record { filled = packet; buffer_size = size; bytes_copied = copied; rest = c ∷ cs })

unescape_plain : (c : ℕ) (bs : List ℕ) → (c == 0x7d) ≡ false → unescape (c ∷ bs) ≡ c ∷ unescape bs
unfolding unescape
unescape_plain c [] plain = refl
unescape_plain c (d ∷ bs) plain =
    λ i. if plain i then bit_xor d 0x20 ∷ unescape bs else c ∷ unescape (d ∷ bs)

twice : (c : ℕ) → is_special c ≡ true → bit_xor (bit_xor c 0x20) 0x20 ≡ c
unfolding is_special
twice c special =
    let cases : (c ≡ b'$') ⊎ ((c ≡ b'#') ⊎ (c ≡ 0x7d)) = ground arith in
    elim cases [
      | inl e ↦ ap (λ d. bit_xor (bit_xor d 0x20) 0x20) e ∙ sym e
      | inr (inl e) ↦ ap (λ d. bit_xor (bit_xor d 0x20) 0x20) e ∙ sym e
      | inr (inr e) ↦ ap (λ d. bit_xor (bit_xor d 0x20) 0x20) e ∙ sym e
    ]

unescape-escape : (c : ℕ) (bs : List ℕ) → unescape (escape c ++ bs) ≡ c ∷ unescape bs
unfolding unescape escape is_special
unescape-escape c bs = elim (Bool-cases (is_special c)) [
  | inr plain ↦
      (λ i. unescape ((if plain i then 0x7d ∷ bit_xor c 0x20 ∷ [] else c ∷ []) ++ bs))
      ∙ unescape_plain c bs (ground arith)
  | inl special ↦
      (λ i. unescape ((if special i then 0x7d ∷ bit_xor c 0x20 ∷ [] else c ∷ []) ++ bs))
      ∙ ap (λ d. d ∷ unescape bs) (twice c special)
]

-- The simulator gets the bytes back from their escaped form, whatever they are.
pub unescape-escapes : (bytes : List ℕ) → unescape (escapes bytes) ≡ bytes
unfolding escapes unescape
unescape-escapes [] = refl
unescape-escapes (c ∷ cs) =
    unescape-escape c (escapes cs) ∙ ap (λ (t : List ℕ). c ∷ t) (unescape-escapes cs)
