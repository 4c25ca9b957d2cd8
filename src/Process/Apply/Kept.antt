-- ===== src/Process/Apply/Kept.antt =====
-- What one relocation leaves alone.
use arm_reimplementation.Base.{
  ℕ, ◌+◌, ◌%◌, ◌^◌, ◌≤◌, ◌<◌, ◌≡◌, ◌⊎◌, inl, inr, refl, sym, Bool, true, false, not, Option, none,
  some, List, [], ◌∷◌, ◌==◌, ◌||◌, length, get_or, if◌then◌else◌, if_both, bit_and, arith, subst, ℤ,
  pos, negsuc, ltb_ℤ, shr_ℤ, pattern32,
}
use arm_reimplementation.Runtime.Bytes.{ntohl, htonl, htons, store16, store32, poke, write_at}
use arm_reimplementation.Runtime.Bytes.Stores.{poke-eq-some}
use arm_reimplementation.Runtime.Io.{}
use arm_reimplementation.Elf.{Rel, Sym, sym_at}
use arm_reimplementation.Elf.Constants.{r_sym, r_type}
use arm_reimplementation.Symbol.{get_symbol_value}
use arm_reimplementation.Process.Apply.{
  Applied, patched, refused, broken, stored, displacement_of, misaligned, out_of_range, peek32,
  store_word, jump24_word, store_jump24, apply_jump24, call_word, store_call, apply_call,
  apply_type, apply_relocation,
}
use arm_reimplementation.Process.Apply.Stores.{write_at-IsPatch}
use arm_reimplementation.Process.Apply.Entries.{info_of, offset_of}

-- The section keeps its length, and the bytes but for four from an offset on.
unfoldable pub IsKept : List ℕ → ℕ → List ℕ → Type 0
IsKept target offset out =
    (length out ≡ length target)
    × ((j : ℕ) → (j < offset) ⊎ (offset + 4 ≤ j) → get_or out j 0 ≡ get_or target j 0)

-- The same of what an entry makes of the section, where it changes it.
unfoldable pub AllKept : List ℕ → ℕ → Applied → Type 0
AllKept target offset (patched out) = IsKept target offset out
AllKept target offset (refused why) = Unit {0}
AllKept target offset broken = Unit {0}

write_at-IsKept :
    (target : List ℕ) (offset : ℕ) (vs : List ℕ)
    → length vs ≤ 4
    → IsKept target offset (write_at target offset vs)
unfolding IsKept
write_at-IsKept target offset vs few =
    let same = write_at-IsPatch target offset vs in
    (
      same.same_length,
      (λ j h. elim h [ inl below ↦ same.before j below | inr above ↦ same.behind j (omega arith) ]),
    )

poked-AllKept :
    (target : List ℕ) (offset : ℕ) (vs : List ℕ) (m : Option (List ℕ))
    → length vs ≤ 4
    → poke target offset vs ≡ m
    → AllKept target offset (stored m)
unfolding AllKept
poked-AllKept target offset vs none few e = tt
poked-AllKept target offset vs (some out) few e =
    subst (IsKept target offset) (sym (poke-eq-some target offset vs out e).1)
      (write_at-IsKept target offset vs few)

stored-AllKept :
    (target : List ℕ) (offset : ℕ) (vs : List ℕ)
    → length vs ≤ 4
    → AllKept target offset (stored (poke target offset vs))
stored-AllKept target offset vs few =
    poked-AllKept target offset vs (poke target offset vs) few refl

length-store32_any : (big : Bool) (v : ℕ) → length (store32 big v) ≤ 4
unfolding store32
length-store32_any true v = omega arith
length-store32_any false v = omega arith

length-store16_any : (big : Bool) (v : ℕ) → length (store16 big v) ≤ 4
unfolding store16
length-store16_any true v = omega arith
length-store16_any false v = omega arith

module _ (big : Bool) (target : List ℕ) (offset : ℕ) where
  store_word-AllKept : (v : ℕ) → AllKept target offset (store_word big target offset v)
  unfolding store_word
  store_word-AllKept v =
      stored-AllKept target offset (store32 big (htonl big v))
        (length-store32_any big (htonl big v))

  store_jump24-AllKept :
      (instruction : ℕ) (d : ℤ)
      → AllKept target offset (store_jump24 big target offset instruction d)
  unfolding store_jump24 AllKept
  store_jump24-AllKept instruction d =
      if_both (AllKept target offset) _ out_of_range _ tt
        (store_word-AllKept (jump24_word instruction d))

  store_call-AllKept : (d : ℤ) → AllKept target offset (store_call big target offset d)
  unfolding store_call AllKept
  store_call-AllKept d =
      if_both (AllKept target offset) (not (bit_and (pattern32 d) 3 == 0)) misaligned in_range tt (
        if_both (AllKept target offset)
          (ltb_ℤ (shr_ℤ d 2) (negsuc 0x7FFFFF) || ltb_ℤ (pos 0x7FFFFF) (shr_ℤ d 2)) out_of_range
          (store_word big target offset (call_word (shr_ℤ d 2))) tt
          (store_word-AllKept (call_word (shr_ℤ d 2))))
    where
      in_range : Applied
      in_range =
          if ltb_ℤ (shr_ℤ d 2) (negsuc 0x7FFFFF) || ltb_ℤ (pos 0x7FFFFF) (shr_ℤ d 2)
          then out_of_range
          else store_word big target offset (call_word (shr_ℤ d 2))

  -- A branch with the displacement that it has, if it has one.
  jumped :
      (instruction : ℕ) (m : Option ℤ)
      → AllKept target offset (elim m as (λ x. Applied) [
        | none ↦ broken
        | some d ↦ store_jump24 big target offset instruction d
      ])
  unfolding AllKept
  jumped instruction none = tt
  jumped instruction (some d) = store_jump24-AllKept instruction d

  called :
      (m : Option ℤ)
      → AllKept target offset
          (elim m as (λ x. Applied) [ none ↦ broken | some d ↦ store_call big target offset d ])
  unfolding AllKept
  called none = tt
  called (some d) = store_call-AllKept d

  apply_jump24-AllKept :
      (instruction place value : ℕ)
      → AllKept target offset (apply_jump24 big target offset instruction place value)
  unfolding apply_jump24 AllKept
  apply_jump24-AllKept instruction place value =
      if_both (AllKept target offset) _ misaligned _ tt
        (jumped instruction (displacement_of value place))

  on_word :
      (m : Option ℕ) (f : ℕ → Applied)
      → ((word : ℕ) → AllKept target offset (f word))
      → AllKept target offset (elim m as (λ x. Applied) [ none ↦ broken | some word ↦ f word ])
  unfolding AllKept
  on_word none f h = tt
  on_word (some word) f h = h word

  apply_type-AllKept :
      (type value addresse : ℕ)
      → AllKept target offset (apply_type big type value target offset addresse)
  unfolding apply_type apply_call AllKept
  apply_type-AllKept type value addresse =
      if_both (AllKept target offset) (type == 2) _ _ (store_word-AllKept value) (
        if_both (AllKept target offset) (type == 5) _ _
          (stored-AllKept target offset (store16 big (htons big (value % 2 ^ 16)))
            (length-store16_any big (htons big (value % 2 ^ 16))))
          (if_both (AllKept target offset) (type == 8) _ _
            (stored-AllKept target offset ((value % 2 ^ 8) ∷ []) (omega arith))
            (if_both (AllKept target offset) (type == 29) _ _
              (on_word (peek32 big target offset)
                (λ word.
                  apply_jump24 big target offset (ntohl big word) ((addresse + offset) % 2 ^ 32)
                    value)
                (λ word.
                  apply_jump24-AllKept (ntohl big word) ((addresse + offset) % 2 ^ 32) value))
              (if_both (AllKept target offset) (type == 28) _ _
                (on_word (peek32 big target offset)
                  (λ word. apply_call big target offset ((addresse + offset) % 2 ^ 32) value)
                  (λ word. called (displacement_of value ((addresse + offset) % 2 ^ 32))))
                tt))))

  on_symbol :
      (type addresse : ℕ) (m : Option Sym)
      → AllKept target offset (elim m as (λ x. Applied) [
        | none ↦ broken
        | some symbol ↦ apply_type big type (get_symbol_value big symbol) target offset addresse
      ])
  unfolding AllKept
  on_symbol type addresse none = tt
  on_symbol type addresse (some symbol) =
      apply_type-AllKept type (get_symbol_value big symbol) addresse

pub apply_relocation-AllKept :
    (big : Bool) (rel : Rel) (symbols : Option (List ℕ)) (target : List ℕ) (addresse : ℕ)
    → AllKept target (offset_of big rel) (apply_relocation big rel symbols target addresse)
unfolding apply_relocation AllKept
apply_relocation-AllKept big rel none target addresse = tt
apply_relocation-AllKept big rel (some symbols) target addresse =
    on_symbol big target (offset_of big rel) (r_type (info_of big rel)) addresse
      (sym_at big symbols (r_sym (info_of big rel)))
