-- ===== src/Elf/Layout.antt =====
-- Structures stored to memory and loaded from there.
use arm_reimplementation.Base.{
  ℕ, zero, suc, ◌+◌, ◌*◌, ◌^◌, ◌<◌, ◌≤◌, ◌≢◌, Bool, true, false, some, none, List, [], ◌∷◌, ◌++◌,
  ◌≡◌, sym, ap, ◌∙◌, refl, ◌⊎◌, length, drop, get_or, All, All-get_or, leb, Bool-cases, inl, inr,
  arith, if◌then◌else◌,
}
use arm_reimplementation.Runtime.Bytes.{
  IsByte, IsU32, be16, be32, load16, load32, store16, store32, poke, write_at,
}
use arm_reimplementation.Runtime.Bytes.Stores.{
  poke_in_bounds, length-write_at, get_or-write_at, get_or-write_at_below, get_or-write_at_above,
}
use arm_reimplementation.Elf.{Shdr, load_shdr, store_shdr, Sym, load_sym, store_sym, sym_at}

-- The ranges that the fields have in C.
pub record IsShdr (s : Shdr) : Type 0 where
  pub name_fits : IsU32 s.sh_name
  pub type_fits : IsU32 s.sh_type
  pub flags_fits : IsU32 s.sh_flags
  pub addr_fits : IsU32 s.sh_addr
  pub offset_fits : IsU32 s.sh_offset
  pub size_fits : IsU32 s.sh_size
  pub link_fits : IsU32 s.sh_link
  pub info_fits : IsU32 s.sh_info
  pub addralign_fits : IsU32 s.sh_addralign
  pub entsize_fits : IsU32 s.sh_entsize

module _ (big : Bool) (v : ℕ) (rest : List ℕ) (h : IsU32 v) where
  pub load32-store32 : load32 big (store32 big v ++ rest) 0 ≡ v
  unfolding load32 store32
  load32-store32 = elim (Bool-cases big) [ inl e ↦ rw e (omega arith) | inr e ↦ rw e (omega arith) ]

-- A section header that is stored to memory is loaded back as it was.
pub load_shdr-store_shdr : (big : Bool) (s : Shdr) → IsShdr s → load_shdr big (store_shdr big s) ≡ s
unfolding load_shdr store_shdr load32 store32
load_shdr-store_shdr true s h = ground arith
load_shdr-store_shdr false s h = ground arith

-- The same of a symbol.
pub record IsSym (s : Sym) : Type 0 where
  pub name_fits : IsU32 s.st_name
  pub value_fits : IsU32 s.st_value
  pub size_fits : IsU32 s.st_size
  pub info_fits : s.st_info < 256
  pub other_fits : s.st_other < 256
  pub shndx_fits : s.st_shndx < 2 ^ 16

load_sym-store_sym : (big : Bool) (s : Sym) → IsSym s → load_sym big (store_sym big s) ≡ s
unfolding load_sym store_sym load32 load16 store32 store16
load_sym-store_sym true s h = ground arith
load_sym-store_sym false s h = ground arith

pub load_sym-IsSym : (big : Bool) (bs : List ℕ) → All IsByte bs → IsSym (load_sym big bs)
unfolding load_sym load32 load16
load_sym-IsSym true bs h =
    let b : (j : ℕ) → get_or bs j 0 < 256 = λ j. All-get_or IsByte bs j 0 h (omega arith) in
    record {
      name_fits = omega (arith, b 0, b 1, b 2, b 3);
      value_fits = omega (arith, b 4, b 5, b 6, b 7);
      size_fits = omega (arith, b 8, b 9, b 10, b 11);
      info_fits = b 12;
      other_fits = b 13;
      shndx_fits = omega (arith, b 14, b 15);
    }
load_sym-IsSym false bs h =
    let b : (j : ℕ) → get_or bs j 0 < 256 = λ j. All-get_or IsByte bs j 0 h (omega arith) in
    record {
      name_fits = omega (arith, b 0, b 1, b 2, b 3);
      value_fits = omega (arith, b 4, b 5, b 6, b 7);
      size_fits = omega (arith, b 8, b 9, b 10, b 11);
      info_fits = b 12;
      other_fits = b 13;
      shndx_fits = omega (arith, b 14, b 15);
    }

-- A symbol from its 16 bytes, one by one.
sym_of : Bool → (ℕ → ℕ) → Sym
sym_of true b = record {
  st_name = be32 (b 0) (b 1) (b 2) (b 3);
  st_value = be32 (b 4) (b 5) (b 6) (b 7);
  st_size = be32 (b 8) (b 9) (b 10) (b 11);
  st_info = b 12;
  st_other = b 13;
  st_shndx = be16 (b 14) (b 15);
}
sym_of false b = record {
  st_name = be32 (b 3) (b 2) (b 1) (b 0);
  st_value = be32 (b 7) (b 6) (b 5) (b 4);
  st_size = be32 (b 11) (b 10) (b 9) (b 8);
  st_info = b 12;
  st_other = b 13;
  st_shndx = be16 (b 15) (b 14);
}

load_sym_lem : (big : Bool) (bs : List ℕ) → load_sym big bs ≡ sym_of big (λ j. get_or bs j 0)
unfolding load_sym sym_of load32 load16
load_sym_lem true bs = refl
load_sym_lem false bs = refl

sym_of_agree :
    (big : Bool) (f g : ℕ → ℕ) → ((j : ℕ) → j < 16 → f j ≡ g j) → sym_of big f ≡ sym_of big g
unfolding sym_of
sym_of_agree true f g e = λ i. record {
  st_name =
      be32 (e 0 (omega arith) i) (e 1 (omega arith) i) (e 2 (omega arith) i) (e 3 (omega arith) i);
  st_value =
      be32 (e 4 (omega arith) i) (e 5 (omega arith) i) (e 6 (omega arith) i) (e 7 (omega arith) i);
  st_size =
      be32 (e 8 (omega arith) i) (e 9 (omega arith) i) (e 10 (omega arith) i)
        (e 11 (omega arith) i);
  st_info = e 12 (omega arith) i;
  st_other = e 13 (omega arith) i;
  st_shndx = be16 (e 14 (omega arith) i) (e 15 (omega arith) i);
}
sym_of_agree false f g e = λ i. record {
  st_name =
      be32 (e 3 (omega arith) i) (e 2 (omega arith) i) (e 1 (omega arith) i) (e 0 (omega arith) i);
  st_value =
      be32 (e 7 (omega arith) i) (e 6 (omega arith) i) (e 5 (omega arith) i) (e 4 (omega arith) i);
  st_size =
      be32 (e 11 (omega arith) i) (e 10 (omega arith) i) (e 9 (omega arith) i)
        (e 8 (omega arith) i);
  st_info = e 12 (omega arith) i;
  st_other = e 13 (omega arith) i;
  st_shndx = be16 (e 15 (omega arith) i) (e 14 (omega arith) i);
}

get_or-drop : (n j : ℕ) (bs : List ℕ) → get_or (drop n bs) j 0 ≡ get_or bs (n + j) 0
get_or-drop zero j bs = let e : j ≡ zero + j = omega arith in ap (λ k. get_or bs k 0) e
get_or-drop (suc n) j [] = refl
get_or-drop (suc n) j (b ∷ bs) =
    let e : suc (n + j) ≡ suc n + j = omega arith in
    get_or-drop n j bs ∙ ap (λ k. get_or (b ∷ bs) k 0) e

pub length-store_sym : (big : Bool) (s : Sym) → length (store_sym big s) ≡ 16
unfolding store_sym store32 store16
length-store_sym true s = omega arith
length-store_sym false s = omega arith

-- An element is read where it lies in the buffer.
pub sym_at_inside :
    (big : Bool) (buf : List ℕ) (i : ℕ)
    → i * 16 + 16 ≤ length buf
    → sym_at big buf i ≡ some (load_sym big (drop (i * 16) buf))
unfolding sym_at
sym_at_inside big buf i h = ground arith

module _ (big : Bool) (buf : List ℕ) (i : ℕ) (s : Sym) (fits : i * 16 + 16 ≤ length buf) where
  out : List ℕ
  out = write_at buf (i * 16) (store_sym big s)

  out_length : length out ≡ length buf
  unfolding out
  out_length = length-write_at buf (i * 16) (store_sym big s)

  pub poke_sym :
      poke buf (i * 16) (store_sym big s) ≡ some (write_at buf (i * 16) (store_sym big s))
  poke_sym = poke_in_bounds buf (i * 16) (store_sym big s) (omega (arith, length-store_sym big s))

  -- The element that was stored.
  pub sym_at_self : IsSym s → sym_at big (write_at buf (i * 16) (store_sym big s)) i ≡ some s
  unfolding out
  sym_at_self h =
      sym_at_inside big out i (omega (arith, out_length))
      ∙ ap some (
          load_sym_lem big (drop (i * 16) out)
          ∙ sym_of_agree big (λ j. get_or (drop (i * 16) out) j 0)
              (λ j. get_or (store_sym big s) j 0)
              (λ j inside.
                get_or-drop (i * 16) j out
                ∙ get_or-write_at buf (i * 16) j (store_sym big s)
                    (omega (arith, length-store_sym big s)) (omega (arith, length-store_sym big s)))
          ∙ sym (load_sym_lem big (store_sym big s))
          ∙ load_sym-store_sym big s h)

  -- Another element.
  pub sym_at_other :
      (k : ℕ) → k ≢ i → sym_at big (write_at buf (i * 16) (store_sym big s)) k ≡ sym_at big buf k
  unfolding out sym_at
  sym_at_other k other = λ d. if leb (k * 16 + 16) (out_length d) then some (same d) else none
    where
      sides : (k < i) ⊎ (i < k)
      sides = ground arith

      byte : (j : ℕ) → j < 16 → get_or out (k * 16 + j) 0 ≡ get_or buf (k * 16 + j) 0
      byte j inside = elim sides [
        | inl before ↦
            get_or-write_at_below buf (i * 16) (k * 16 + j) (store_sym big s) (omega arith)
        | inr behind ↦
            get_or-write_at_above buf (i * 16) (k * 16 + j) (store_sym big s)
              (omega (arith, length-store_sym big s))
      ]

      same : load_sym big (drop (k * 16) out) ≡ load_sym big (drop (k * 16) buf)
      same =
          load_sym_lem big (drop (k * 16) out)
          ∙ sym_of_agree big (λ j. get_or (drop (k * 16) out) j 0)
              (λ j. get_or (drop (k * 16) buf) j 0)
              (λ j inside.
                get_or-drop (k * 16) j out ∙ byte j inside ∙ sym (get_or-drop (k * 16) j buf))
          ∙ sym (load_sym_lem big (drop (k * 16) buf))

pub store_sym-IsByte : (big : Bool) (s : Sym) → IsSym s → All IsByte (store_sym big s)
unfolding store_sym store32 store16
store_sym-IsByte true s h = omega (arith, h.info_fits, h.other_fits)
store_sym-IsByte false s h = omega (arith, h.info_fits, h.other_fits)

pub drop-IsByte : (n : ℕ) (bs : List ℕ) → All IsByte bs → All IsByte (drop n bs)
drop-IsByte zero bs h = h
drop-IsByte (suc n) [] h = tt
drop-IsByte (suc n) (b ∷ bs) h = drop-IsByte n bs h.1
