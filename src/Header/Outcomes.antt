-- ===== src/Header/Outcomes.antt =====
-- What the listing of a header comes to.
use arm_reimplementation.Base.{
  ℕ, ◌+◌, ◌≡◌, refl, sym, ◌∙◌, Bool, true, false, not, Option, none, some, List, [], ◌∷◌, ◌++◌,
  ◌==◌, ◌&&◌, length, take, drop, codes, Bool-cases, inl, inr, if◌then◌else◌,
}
use arm_reimplementation.Runtime.Io.{
  M, World, Host, Outcome, ok, fault, text, perror, ◌>>=◌, ◌>>◌, pure, skip, deref, malloc, fread,
  complain, print, bind_ok,
}
use arm_reimplementation.Elf.{Ehdr, load_ehdr}
use arm_reimplementation.Header.{get_header, has_magic, valider_elf}
use arm_reimplementation.Header.Print.{entete_text, afficher_entete_elf}

module _ (host : Host) (w : World) where
  got : List ℕ
  got = take 52 (drop w.pos w.input)

  header : Ehdr
  header = load_ehdr host.big_endian got

  reading : M (Option Ehdr)
  reading = do
    bytes ← fread 52
    if length bytes == 52
        then pure (some (load_ehdr host.big_endian bytes))
        else (complain (perror "Failed to read ELF header") >> pure none)

  no_memory : M (Option Ehdr)
  no_memory = complain (perror "Failed to allocate memory for ELF header") >> pure none

  -- A null header is given where there is no memory or too little of the file.
  get_header-null :
      (host.can_alloc 52 && (length got == 52)) ≡ false
      → (w' : World) × (get_header host w ≡ ok none w')
  unfolding get_header malloc fread complain reading no_memory got header load_ehdr
  get_header-null h = elim (Bool-cases (host.can_alloc 52)) [
    | inr none_left ↦ (
      record w { err = w.err ++ (perror "Failed to allocate memory for ELF header" ∷ []) },
      (λ i. (if not (none_left i) then no_memory else reading) w),
    )
    | inl there ↦ (
      record w {
        pos = w.pos + length got;
        err = w.err ++ (perror "Failed to read ELF header" ∷ []);
      },
      (λ i. (if not (there i) then no_memory else reading) w) ∙ (λ i.
          (if short there i
              then pure (some header)
              else (complain (perror "Failed to read ELF header") >> pure none))
            (record w { pos = w.pos + length got })),
    )
  ]
    where
      short : host.can_alloc 52 ≡ true → (length got == 52) ≡ false
      short there = (λ i. sym there i && (length got == 52)) ∙ h

  get_header-read :
      host.can_alloc 52 ≡ true
      → (length got == 52) ≡ true
      → get_header host w ≡ ok (some header) (record w { pos = w.pos + length got })
  unfolding get_header malloc fread complain reading no_memory got header load_ehdr
  get_header-read there whole = (λ i. (if not (there i) then no_memory else reading) w) ∙ (λ i.
      (if whole i
          then pure (some header)
          else (complain (perror "Failed to read ELF header") >> pure none))
        (record w { pos = w.pos + length got }))

  -- What is done with the header.
  listing : Option Ehdr → M (Unit {0})
  listing pointer = do
    valid ← valider_elf pointer
    found ← deref pointer
    if valid then print (entete_text host.big_endian found) else skip

  refusal : M (Unit {0})
  refusal = complain (text (codes "Le fichier n'est pas un fichier ELF valide.\n"))

  after_test :
      (b : Bool) (v : World)
      → ((if b then pure true else (refusal >> pure false)) >>= λ valid.
            if valid then print (entete_text host.big_endian header) else skip)
          v
        ≡ (if b then print (entete_text host.big_endian header) else refusal) v
  unfolding refusal complain
  after_test true v = refl
  after_test false v = refl

  listing_header :
      (v : World)
      → listing (some header) v
        ≡ (if has_magic header then print (entete_text host.big_endian header) else refusal) v
  unfolding listing valider_elf refusal
  listing_header v = after_test (has_magic header) v

-- The header that a file has from the position of its stream on.
unfoldable pub header_at : Host → World → Ehdr
header_at host w = load_ehdr host.big_endian (take 52 (drop w.pos w.input))

-- Whether `get_header` gives one.
unfoldable pub has_header : Host → World → Bool
has_header host w = host.can_alloc 52 && (length (take 52 (drop w.pos w.input)) == 52)

read_whole : (a b : Bool) → (a && b) ≡ true → (a ≡ true) × (b ≡ true)
read_whole true b h = (refl, h)
read_whole false b h = absurd (cc h)

read_through :
    (host : Host) (w : World)
    → has_header host w ≡ true
    → afficher_entete_elf host w
      ≡ (if has_magic (header_at host w)
            then print (entete_text host.big_endian (header_at host w))
            else complain (text (codes "Le fichier n'est pas un fichier ELF valide.\n")))
          (record w { pos = w.pos + length (take 52 (drop w.pos w.input)) })
unfolding afficher_entete_elf has_header header_at header got listing refusal valider_elf
read_through host w h =
    let (there, whole) =
      read_whole (host.can_alloc 52) (length (take 52 (drop w.pos w.input)) == 52) h in
    bind_ok (get_header host) (listing host w) (get_header-read host w there whole)
    ∙ listing_header host w (record w { pos = w.pos + length (take 52 (drop w.pos w.input)) })

null_through :
    (host : Host) (w : World) → has_header host w ≡ false → afficher_entete_elf host w ≡ fault
unfolding afficher_entete_elf has_header got listing valider_elf
null_through host w h =
    let (w', e) = get_header-null host w h in bind_ok (get_header host) (listing host w) e

pub afficher_entete_elf_lem :
    (host : Host) (w : World)
    → afficher_entete_elf host w ≡ (
        if has_header host w
        then (if has_magic (header_at host w)
              then print (entete_text host.big_endian (header_at host w))
              else complain (text (codes "Le fichier n'est pas un fichier ELF valide.\n")))
            (record w { pos = w.pos + length (take 52 (drop w.pos w.input)) })
        else fault)
afficher_entete_elf_lem host w = elim (Bool-cases (has_header host w)) [
  | inl h ↦ read_through host w h ∙ (λ i. if sym h i then shown else fault)
  | inr h ↦ null_through host w h ∙ (λ i. if sym h i then shown else fault)
]
  where
    shown : Outcome World (Unit {0})
    shown =
        (if has_magic (header_at host w)
            then print (entete_text host.big_endian (header_at host w))
            else complain (text (codes "Le fichier n'est pas un fichier ELF valide.\n")))
          (record w { pos = w.pos + length (take 52 (drop w.pos w.input)) })
