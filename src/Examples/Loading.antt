-- ===== src/Examples/Loading.antt =====
-- One section loaded, on a big-endian host.
use arm_reimplementation.Base.{
  ℕ, zero, suc, ◌≤◌, ◌<◌, ◌≡◌, refl, sym, ap, ◌∙◌, true, Option, none, some, List, [], ◌∷◌, ◌++◌,
  length-replicate, replicate, arith, subst,
}
use arm_reimplementation.Runtime.Bytes.{ntohl, load32}
use arm_reimplementation.Elf.{Shdr, shdr_at, load_shdr}
use arm_reimplementation.Section.{get_section_offset, get_section_size}
use arm_reimplementation.Gdb.Commands.{escape, is_special}
use arm_reimplementation.Gdb.Commands.Chunks.{escapes}
use arm_reimplementation.Gdb.Safety.{IsReady}
use arm_reimplementation.Loader.{Session, load_sections}
use arm_reimplementation.Loader.Sections.{
  file_bytes, IsLoadable, IsLoading, StaysLoading, load_sections-StaysLoading,
}
use arm_reimplementation.Examples.Packets.{recorder}
use arm_reimplementation.Examples.Sessions.{start, recorder-OnlySends}
use arm_reimplementation.Examples.Tables.{host, world, section_of}

-- Three bytes at offset 2, to be loaded.
abbrev allocated : Shdr
allocated = record (section_of 1) { sh_flags = 2; sh_addr = 0x58; sh_offset = 2; sh_size = 3 }

abbrev file : List ℕ
file = 1 ∷ 2 ∷ 7 ∷ b'$' ∷ 9 ∷ []

abbrev table : List ℕ
table =
    replicate 7 0
    ++ (1 ∷ replicate 3 0
        ++ (2 ∷ replicate 3 0
            ++ (0x58 ∷ replicate 3 0 ++ (2 ∷ replicate 3 0 ++ (3 ∷ replicate 16 0)))))

abbrev session : Session
session = record { world = record world { input = file }; link = start }

first : shdr_at true table 0 ≡ some allocated
unfolding shdr_at load_shdr load32
first = refl

in_table : (k : ℕ) → 0 ≤ k → k < 1 → (section : Shdr) × (shdr_at true table k ≡ some section)
in_table zero from below = (allocated, first)
in_table (suc k) from below = absurd (omega arith)

allocated-IsLoadable : IsLoadable host file allocated
unfolding IsLoadable get_section_size get_section_offset ntohl file_bytes escapes escape is_special
allocated-IsLoadable flagged = (refl, omega arith, omega arith)

the_section : Option Shdr → Shdr
the_section none = allocated
the_section (some section) = section

no_more : (k : ℕ) (section : Shdr) → ¬ (shdr_at true table (suc k) ≡ some section)
unfolding shdr_at
no_more k section e = ground arith

loadable :
    (k : ℕ) (section : Shdr) → shdr_at true table k ≡ some section → IsLoadable host file section
unfolding the_section
loadable zero section e =
    subst (IsLoadable host file) (ap the_section (sym first ∙ e)) allocated-IsLoadable
loadable (suc k) section e = absurd (no_more k section e)

session-IsLoading : IsLoading file 0 session
unfolding IsLoading IsReady
session-IsLoading =
    (refl, (length-replicate {A = ℕ} 1024 0, omega arith, omega arith, omega arith, refl))

load_sections-StaysLoading_example :
    StaysLoading file 0 (load_sections recorder host table 1 0 session)
load_sections-StaysLoading_example =
    load_sections-StaysLoading recorder host 0 file table 1 0 session recorder-OnlySends refl
      session-IsLoading in_table loadable
