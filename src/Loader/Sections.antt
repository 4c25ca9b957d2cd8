-- ===== src/Loader/Sections.antt =====
-- The loading of sections: what is read of the file, and what becomes of the connection.
use arm_reimplementation.Base.{
  ℕ, zero, suc, ◌+◌, ◌≤◌, ◌<◌, ◌≡◌, refl, sym, ap, ◌∙◌, Bool, true, false, not, Option, none, some,
  List, ◌==◌, length, take, drop, length-take, length-drop, arith, subst, if◌then◌else◌, ==_refl,
}
use arm_reimplementation.Runtime.Bytes.{ntohl}
use arm_reimplementation.Runtime.Bytes.Swap.{ntohl-lt}
use arm_reimplementation.Runtime.Io.{
  Run, M, World, Host, Outcome, ok, exits, fault, ◌>>=◌, ◌>>◌, pure, skip, deref, undefined, malloc,
  fread, fseek, bind_ok,
}
use arm_reimplementation.Elf.{Shdr, shdr_at, has_flag}
use arm_reimplementation.Elf.Constants.{shf_alloc}
use arm_reimplementation.Section.{get_section_offset, get_section_size, get_section_addr, die}
use arm_reimplementation.Gdb.Packet.{Link, Writer}
use arm_reimplementation.Gdb.Commands.Chunks.{escapes}
use arm_reimplementation.Gdb.Commands.{gdb_write_memory}
use arm_reimplementation.Gdb.Safety.{Stays, IsSound, IsReady, OnlySends}
use arm_reimplementation.Gdb.Safety.Commands.{write_memory-IsSound}
use arm_reimplementation.Simulator.{arm_write_memory, using}
use arm_reimplementation.Loader.{
  Session, on_world, on_link, read_section, load_section, load_sections,
}

-- The bytes of a section in the file.
unfoldable pub file_bytes : Bool → List ℕ → Shdr → List ℕ
file_bytes big input section =
    take (get_section_size big section) (drop (get_section_offset big section) input)

-- A section that lies in the file is read whole.
read_section_lem :
    (host : Host) (section : Shdr) (w : World)
    → host.can_alloc (get_section_size host.big_endian section) ≡ true
    → host.seekable ≡ true
    → get_section_offset host.big_endian section + get_section_size host.big_endian section
      ≤ length w.input
    → read_section host section w
      ≡ ok (file_bytes host.big_endian w.input section) (record w {
        pos =
            get_section_offset host.big_endian section
            + length (file_bytes host.big_endian w.input section);
      })
unfolding read_section malloc fread fseek file_bytes
read_section_lem host section w allocated seekable inside =
    bind_ok (fseek host offset) rest
      (λ k. if seekable k then ok true (record w { pos = offset }) else ok false w)
    ∙ (λ k. (if not (allocated k) then undefined else reading) (record w { pos = offset }))
    ∙ (λ k.
        (if test k then pure got else die "Failed to read section data.")
          (record w { pos = offset + length got }))
  where
    size : ℕ
    size = get_section_size host.big_endian section

    offset : ℕ
    offset = get_section_offset host.big_endian section

    got : List ℕ
    got = take size (drop offset w.input)

    reading : M (List ℕ)
    reading = do
      section_data ← fread size
      if length section_data == size then pure section_data else die "Failed to read section data."

    rest : Bool → M (List ℕ)
    rest sought = if not (host.can_alloc size) then undefined else reading

    test : (length got == size) ≡ true
    test =
        let e : length got ≡ size =
          omega (arith, length-take size (drop offset w.input), length-drop offset w.input) in
        ap (λ n. n == size) e ∙ ==_refl size

-- A section that is loaded lies in the file, there is memory for it, and its bytes are at most 1000
-- once they are escaped; a section that is not loaded may be anything.
unfoldable pub IsLoadable : Host → List ℕ → Shdr → Type 0
IsLoadable host input section =
    has_flag (ntohl host.big_endian section.sh_flags) shf_alloc ≡ true
    → (host.can_alloc (get_section_size host.big_endian section) ≡ true)
      × (get_section_offset host.big_endian section + get_section_size host.big_endian section
          ≤ length input)
      × (length (escapes (file_bytes host.big_endian input section)) ≤ 1000)

-- The file is the same, and the connection is in use.
unfoldable pub IsLoading : List ℕ → ℕ → Session → Type 0
IsLoading input n s = (s.world.input ≡ input) × IsReady n s.link

-- The same of an outcome, which is not undefined.
unfoldable pub StaysLoading : {A : Type 0} → List ℕ → ℕ → Outcome Session A → Type 0
StaysLoading input n (ok a s) = IsLoading input n s
StaysLoading input n (exits code s) = Unit {0}
StaysLoading input n fault = ⊥

on_link_outcome :
    {A : Type 0} (input : List ℕ) (n : ℕ) (o : Outcome Link A) (s : Session)
    → s.world.input ≡ input
    → Stays (IsReady n) o
    → StaysLoading input n (on_link (λ l. o) s)
unfolding StaysLoading Stays IsLoading
on_link_outcome input n (ok a l) s same h = (same, h)
on_link_outcome input n (exits code l) s same h = tt
on_link_outcome input n fault s same h = h

choose :
    {A : Type 0} (input : List ℕ) (n : ℕ) (b : Bool) (m k : Run Session A) (s : Session)
    → (b ≡ true → StaysLoading input n (m s))
    → (b ≡ false → StaysLoading input n (k s))
    → StaysLoading input n ((if b then m else k) s)
choose input n true m k s hm hk = hm refl
choose input n false m k s hm hk = hk refl

then_on :
    {A B : Type 0} (input : List ℕ) (n : ℕ) (o : Outcome Session A) (f : A → Run Session B)
    (s : Session)
    → StaysLoading input n o
    → ((a : A) (s' : Session) → IsLoading input n s' → StaysLoading input n (f a s'))
    → StaysLoading input n (((λ (s : Session). o) >>= f) s)
unfolding StaysLoading
then_on input n (ok a s') f s h k = k a s' h
then_on input n (exits code s') f s h k = tt
then_on input n fault f s h k = h

module _ (w : Writer) (only : OnlySends w) (host : Host) (seekable : host.seekable ≡ true) (n : ℕ)
    (input : List ℕ) where
  write_section :
      (section : Shdr) (s : Session)
      → IsLoading input n s
      → length (escapes (file_bytes host.big_endian input section)) ≤ 1000
      → StaysLoading input n (
          on_link
            (arm_write_memory w
              (get_section_addr host.big_endian section)
              (file_bytes host.big_endian input section))
            s)
  unfolding IsLoading arm_write_memory using IsSound get_section_addr IsReady
  write_section section s h fits =
      subst
        (λ b.
          StaysLoading input n
            (on_link (λ l. if b then gdb_write_memory w address bytes s.link else fault) s))
        (sym h.1.4)
        (on_link_outcome input n (gdb_write_memory w address bytes s.link) s h.0 (
          write_memory-IsSound w only n address bytes (ntohl-lt host.big_endian section.sh_addr)
            fits s.link h.1))
    where
      address : ℕ
      address = get_section_addr host.big_endian section

      bytes : List ℕ
      bytes = file_bytes host.big_endian input section

  load_section-StaysLoading :
      (section : Shdr) (s : Session)
      → IsLoading input n s
      → IsLoadable host input section
      → StaysLoading input n (load_section w host section s)
  unfolding load_section IsLoadable IsLoading StaysLoading
  load_section-StaysLoading section s h fits =
      choose input n (has_flag (ntohl host.big_endian section.sh_flags) shf_alloc)
        (on_world (read_section host section) >>= write) skip s
        (λ e.
          let (allocated, inside, small) = fits e in
          let same = h.0 in
          subst (StaysLoading input n)
            (sym (
              bind_ok (on_world (read_section host section)) write (λ k.
                elim (read_section_lem host section s.world allocated seekable
                  (omega (arith, ap length same)) k) [
                    | ok a v ↦ ok a (record s { world = v })
                    | exits code v ↦ exits code (record s { world = v })
                    | fault ↦ fault
                  ])))
            (subst
              (λ (file : List ℕ).
                StaysLoading input n
                  (write (file_bytes host.big_endian file section) (record s { world = at_end })))
              (sym same) (write_section section (record s { world = at_end }) h small)))
        (λ e. h)
    where
      at_end : World
      at_end = record s.world {
        pos =
            get_section_offset host.big_endian section
            + length (file_bytes host.big_endian s.world.input section);
      }

      write : List ℕ → Run Session (Unit {0})
      write section_data =
          on_link (arm_write_memory w (get_section_addr host.big_endian section) section_data)

  on_section :
      (m : Option Shdr) (left i : ℕ) (shdrs : List ℕ) (s : Session)
      → IsLoading input n s
      → ((section : Shdr) → m ≡ some section → IsLoadable host input section)
      → ¬ (m ≡ none)
      → ((s' : Session)
          → IsLoading input n s'
          → StaysLoading input n (load_sections w host shdrs left (i + 1) s'))
      → StaysLoading input n (
          (deref m >>= λ section.
          load_section w host section >> load_sections w host shdrs left (i + 1))
            s)
  on_section none left i shdrs s h fits there rest = absurd (there refl)
  on_section (some section) left i shdrs s h fits there rest =
      then_on input n (load_section w host section s) (λ _. load_sections w host shdrs left (i + 1))
        s (load_section-StaysLoading section s h (fits section refl)) (λ a s' h'. rest s' h')

-- The loader is never undefined on its way through the sections: from a connection in use, sections
-- that are in the table and that can be loaded leave a connection in use and the file as it was, or
-- the program ends. The conditions are that the file can be sought in and that writing to the
-- descriptor changes nothing else.
pub load_sections-StaysLoading :
    (w : Writer) (host : Host) (n : ℕ) (input shdrs : List ℕ) (left i : ℕ) (s : Session)
    → OnlySends w
    → host.seekable ≡ true
    → IsLoading input n s
    → ((k : ℕ)
        → i ≤ k
        → k < i + left
        → (section : Shdr) × (shdr_at host.big_endian shdrs k ≡ some section))
    → ((k : ℕ) (section : Shdr)
        → shdr_at host.big_endian shdrs k ≡ some section
        → IsLoadable host input section)
    → StaysLoading input n (load_sections w host shdrs left i s)
unfolding load_sections StaysLoading
load_sections-StaysLoading w host n input shdrs zero i s only seekable h there fits = h
load_sections-StaysLoading w host n input shdrs (suc left) i s only seekable h there fits =
    let (section, e) = there i (omega arith) (omega arith) in
    on_section w only host seekable n input (shdr_at host.big_endian shdrs i) left i shdrs s h
      (fits i) (λ none_there. cc)
      (λ s' h'.
        load_sections-StaysLoading w host n input shdrs left (i + 1) s' only seekable h'
          (λ k from below. there k (omega arith) (omega arith)) fits)
