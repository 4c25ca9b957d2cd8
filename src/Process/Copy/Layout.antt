-- ===== src/Process/Copy/Layout.antt =====
-- Where the contents of a section stand in the new file.
use arm_reimplementation.Base.{
  ℕ, ◌+◌, ◌%◌, ◌^◌, ◌≤◌, ◌<◌, ◌≡◌, ◌≢◌, ◌⊎◌, inl, inr, refl, sym, ap, ◌∙◌, Bool, true, some, List,
  [], ◌∷◌, ◌++◌, append-nil, append_assoc, length, take, drop, drop-append_self, take-append_self,
  length-take, length-drop, length-append, arith,
}
use arm_reimplementation.Runtime.Bytes.{ntohl}
use arm_reimplementation.Runtime.Bytes.Swap.{ntohl-ntohl}
use arm_reimplementation.Runtime.Io.{World, Host, ok, ◌>>=◌, pure, deref, bind_ok}
use arm_reimplementation.Elf.{Shdr}
use arm_reimplementation.Section.{get_section_offset, get_section_size}
use arm_reimplementation.Process.Setters.{set_section_offset}
use arm_reimplementation.Process.Copy.{
  Plan, Copy, place_section, copy_contents, new_header, address_behind, fill, copy_section,
}
use arm_reimplementation.Process.Copy.Contents.{
  IsCopied, copy_contents-empty, copy_contents-plain, copy_plain_lem,
}
use arm_reimplementation.Process.Copy.Headers.{IsPlacedAs, new_header-IsPlacedAs}

-- The offset that comes next is the end of the file so far, and the file is written there.
unfoldable pub InStep : Copy → World → Type 0
InStep state w = (state.current_offset ≡ length w.written) × (w.wpos ≡ length w.written)

-- The bytes of a section in the old file.
unfoldable pub section_bytes : Bool → Shdr → World → List ℕ
section_bytes big section w =
    take (get_section_size big section) (drop (get_section_offset big section) w.input)

module _ (host : Host) (plan : Plan) (i : ℕ) (section new_shdr : Shdr) (state : Copy)
    (names : List ℕ) where
  -- The state that the contents are copied in.
  at_copy : Copy
  at_copy = record state {
    current_address = address_behind host.big_endian section state.current_address;
    new_shstrtab = names;
  }

  after_header :
      (w : World)
      → new_header host plan section state ≡ some (new_shdr, names)
      → copy_section host plan i section state w
        ≡ (copy_contents host plan i section new_shdr at_copy >>= λ next. pure (fill host next)) w
  unfolding copy_section at_copy
  after_header w e = λ k.
      (deref (e k) >>= λ (header, new_names).
      copy_contents host plan i section header (record state {
        current_address = address_behind host.big_endian section state.current_address;
        new_shstrtab = new_names;
      })
      >>= λ next. pure (fill host next))
        w

  -- The outcome of the contents.
  Written : World → Copy → World → Type 0
  Written w state' w' =
      (copy_contents host plan i section new_shdr at_copy w ≡ ok (some (new_shdr, state')) w')
      × (state'.new_shdrs ≡ state.new_shdrs)
      × (w'.written ≡ w.written ++ section_bytes host.big_endian section w)
      × InStep state' w'
      × (w'.input ≡ w.input)

  written_empty :
      (w : World)
      → get_section_size host.big_endian section ≡ 0
      → InStep state w
      → Written w at_copy w
  unfolding Written at_copy InStep section_bytes
  written_empty w empty step = (
    copy_contents-empty host plan i section new_shdr at_copy w empty,
    refl,
    sym (append-nil w.written)
        ∙ ap (λ n. w.written ++ take n (drop (get_section_offset host.big_endian section) w.input))
            (sym empty),
    step,
    refl,
  )

  written_plain :
      (w : World)
      → IsCopied host.big_endian plan i section
      → get_section_size host.big_endian section ≢ 0
      → host.can_alloc (get_section_size host.big_endian section) ≡ true
      → host.seekable ≡ true
      → get_section_offset host.big_endian section + get_section_size host.big_endian section
        ≤ length w.input
      → InStep state w
      → length w.written + get_section_size host.big_endian section ≤ host.disk
      → length w.written + get_section_size host.big_endian section < 2 ^ 32
      → (state' : Copy) × (w' : World) × Written w state' w'
  unfolding Written at_copy InStep section_bytes
  written_plain w copied there allocated seekable inside step room small =
      let size : ℕ = get_section_size host.big_endian section in
      let offset : ℕ = get_section_offset host.big_endian section in
      let bytes : List ℕ = take size (drop offset w.input) in
      let long : length (w.written ++ bytes) ≡ length w.written + size = omega (
        arith,
        length-append w.written bytes,
        length-take size (drop offset w.input),
        length-drop offset w.input,
      ) in
      (
        record at_copy { current_offset = (state.current_offset + size) % 2 ^ 32 },
        record w { pos = offset + size; written = w.written ++ bytes; wpos = w.wpos + size },
        (
          copy_contents-plain host plan i section new_shdr at_copy w copied there allocated seekable
              ∙ copy_plain_lem host new_shdr at_copy size (record w { pos = offset }) inside step.1
                  (omega (arith, step.1)),
          refl,
          refl,
          (omega (arith, step.0, long), omega (arith, step.1, long)),
          refl,
        ),
      )

  -- Empty or not.
  written :
      (w : World)
      → IsCopied host.big_endian plan i section
      → host.can_alloc (get_section_size host.big_endian section) ≡ true
      → host.seekable ≡ true
      → get_section_offset host.big_endian section + get_section_size host.big_endian section
        ≤ length w.input
      → InStep state w
      → length w.written + get_section_size host.big_endian section ≤ host.disk
      → length w.written + get_section_size host.big_endian section < 2 ^ 32
      → (state' : Copy) × (w' : World) × Written w state' w'
  written w copied allocated seekable inside step room small = elim empty_or_not [
    | inl empty ↦ (at_copy, w, written_empty w empty step)
    | inr there ↦ written_plain w copied there allocated seekable inside step room small
  ]
    where
      empty_or_not :
          (get_section_size host.big_endian section ≡ 0)
          ⊎ (get_section_size host.big_endian section ≢ 0)
      empty_or_not = ground arith

-- The offset in the new header is the one that the section was given.
new_offset :
    (host : Host) (plan : Plan) (section new_shdr : Shdr) (state : Copy) (names : List ℕ)
    → new_header host plan section state ≡ some (new_shdr, names)
    → state.current_offset < 2 ^ 32
    → get_section_offset host.big_endian new_shdr ≡ state.current_offset
unfolding IsPlacedAs place_section set_section_offset get_section_offset
new_offset host plan section new_shdr state names e small =
    ap (ntohl host.big_endian) (new_header-IsPlacedAs host plan section new_shdr state names e).0
    ∙ ntohl-ntohl host.big_endian state.current_offset
    ∙ omega arith

-- A part of a list that stands between two others.
middle :
    (pre bytes later : List ℕ)
    → take (length bytes) (drop (length pre) ((pre ++ bytes) ++ later)) ≡ bytes
middle pre bytes later =
    ap (λ t. take (length bytes) (drop (length pre) t)) (append_assoc pre bytes later)
    ∙ ap (take (length bytes)) (drop-append_self pre (bytes ++ later))
    ∙ take-append_self bytes later

-- A section that is kept and copied as it is, on a file that is written at the offset that comes
-- next: its new header is put behind the others, its bytes behind the file, and what is found at the
-- offset of the new header are the bytes of the old section, whatever is written behind them. The
-- offset and the file stay in step. The conditions are that there is memory, that the section lies in
-- the old file, and that the disk and an offset of 32 bits have room for it.
pub copy_section_bytes :
    (host : Host) (plan : Plan) (i : ℕ) (section new_shdr : Shdr) (state : Copy)
    (names later : List ℕ) (w : World)
    → new_header host plan section state ≡ some (new_shdr, names)
    → IsCopied host.big_endian plan i section
    → host.can_alloc (get_section_size host.big_endian section) ≡ true
    → host.seekable ≡ true
    → get_section_offset host.big_endian section + get_section_size host.big_endian section
      ≤ length w.input
    → InStep state w
    → length w.written + get_section_size host.big_endian section ≤ host.disk
    → length w.written + get_section_size host.big_endian section < 2 ^ 32
    → (state' : Copy) × (w' : World) × (copy_section host plan i section state w
        ≡ ok (some state') w')
      × (state'.new_shdrs ≡ state.new_shdrs ++ (new_shdr ∷ []))
      × (take
            (get_section_size host.big_endian section)
            (drop (get_section_offset host.big_endian new_shdr) (w'.written ++ later))
          ≡ section_bytes host.big_endian section w)
      × InStep state' w'
unfolding Written fill InStep section_bytes
copy_section_bytes host plan i section new_shdr state names later w e copied allocated seekable
      inside step room small =
    let (state', w', (done, headers, bytes, in_step, same_input)) =
      written host plan i section new_shdr state names w copied allocated seekable inside step room
        small in
    (
      record state' { new_shdrs = state'.new_shdrs ++ (new_shdr ∷ []) },
      w',
      after_header host plan i section new_shdr state names w e
          ∙ bind_ok
              (copy_contents host plan i section new_shdr
                (at_copy host plan i section new_shdr state names))
              (λ next. pure (fill host next)) done,
      ap (λ (hs : List Shdr). hs ++ (new_shdr ∷ [])) headers,
      (λ k. take (long k) (
            drop
              ((new_offset host plan section new_shdr state names e (omega (arith, step.0))
                  ∙ step.0)
                k)
              (bytes k ++ later)))
          ∙ middle w.written (section_bytes host.big_endian section w) later,
      in_step,
    )
  where
    long :
        get_section_size host.big_endian section ≡ length (section_bytes host.big_endian section w)
    long = omega (
      arith,
      length-take (get_section_size host.big_endian section)
          (drop (get_section_offset host.big_endian section) w.input),
      length-drop (get_section_offset host.big_endian section) w.input,
    )
