-- ===== src/Process/Copy/Contents.antt =====
-- The contents of the sections in the new file.
use arm_reimplementation.Base.{
  ℕ, zero, suc, ◌+◌, ◌-◌, ◌%◌, ◌^◌, ◌≤◌, ◌≡◌, ◌≢◌, refl, ap, ◌∙◌, Bool, true, false, not, Option,
  none, some, List, [], ◌∷◌, ◌++◌, append-nil, ◌==◌, ◌&&◌, length, take, drop, replicate,
  length-take, length-drop, length-replicate, arith, if◌then◌else◌, ==_refl,
}
use arm_reimplementation.Runtime.Bytes.{write_at}
use arm_reimplementation.Runtime.Bytes.Stores.{write_at-append}
use arm_reimplementation.Runtime.Io.{
  M, World, Host, ok, perror, ◌>>=◌, ◌>>◌, pure, malloc, fread, fwrite, fseek, complain, bind_ok,
}
use arm_reimplementation.Elf.{Shdr}
use arm_reimplementation.Elf.Constants.{sht_strtab}
use arm_reimplementation.Header.{get_header_shstrndx}
use arm_reimplementation.Section.{get_section_offset, get_section_size, get_section_type}
use arm_reimplementation.Symbol.Print.{is_symbol_table}
use arm_reimplementation.Process.Copy.{
  Plan, Copy, write_or_stop, copy_plain, copy_symbols, copy_names, copy_contents,
}

take_all : (n : ℕ) (xs : List ℕ) → length xs ≤ n → take n xs ≡ xs
take_all zero [] h = refl
take_all zero (x ∷ xs) h = absurd (omega arith)
take_all (suc n) [] h = refl
take_all (suc n) (x ∷ xs) h = ap (λ (t : List ℕ). x ∷ t) (take_all n xs (omega arith))

drop_all : (n : ℕ) (xs : List ℕ) → length xs ≤ n → drop n xs ≡ []
drop_all zero [] h = refl
drop_all zero (x ∷ xs) h = absurd (omega arith)
drop_all (suc n) [] h = refl
drop_all (suc n) (x ∷ xs) h = drop_all n xs (omega arith)

-- A write at the end of the file.
module _ (host : Host) (bytes : List ℕ) (w : World) where
  appended : World
  appended = record w { written = w.written ++ bytes; wpos = w.wpos + length bytes }

  pub fwrite_at_end :
      w.wpos ≡ length w.written
      → w.wpos + length bytes ≤ host.disk
      → fwrite host bytes w
        ≡ ok
            (length bytes)
            (record w { written = w.written ++ bytes; wpos = w.wpos + length bytes })
  unfolding fwrite
  fwrite_at_end at_end room =
      (λ i. ok (length (whole i)) (record w {
        written =
            write_at (w.written ++ replicate (w.wpos + length (whole i) - length w.written) 0)
              w.wpos (whole i);
        wpos = w.wpos + length (whole i);
      }))
      ∙ (λ i. ok (length bytes) (record w {
        written = write_at (w.written ++ replicate (gap i) 0) (at_end i) bytes;
        wpos = w.wpos + length bytes;
      }))
      ∙ (λ i. ok (length bytes) (record w { written = laid i; wpos = w.wpos + length bytes }))
    where
      whole : take (host.disk - w.wpos) bytes ≡ bytes
      whole = take_all (host.disk - w.wpos) bytes (omega arith)

      gap : w.wpos + length bytes - length w.written ≡ length bytes
      gap = omega arith

      laid :
          write_at (w.written ++ replicate (length bytes) 0) (length w.written) bytes
          ≡ w.written ++ bytes
      laid =
          write_at-append w.written (replicate (length bytes) 0) bytes
            (omega (arith, length-replicate {A = ℕ} (length bytes) 0))
          ∙ ap (λ t. w.written ++ (bytes ++ t))
              (drop_all (length bytes) (replicate (length bytes) 0)
                (omega (arith, length-replicate {A = ℕ} (length bytes) 0)))
          ∙ ap (λ t. w.written ++ t) (append-nil bytes)

module _ (host : Host) where
  write_or_stop_at_end :
      (bytes : List ℕ) (next : Option (Shdr × Copy)) (w : World)
      → w.wpos ≡ length w.written
      → w.wpos + length bytes ≤ host.disk
      → write_or_stop host bytes next w
        ≡ ok next (record w { written = w.written ++ bytes; wpos = w.wpos + length bytes })
  unfolding write_or_stop
  write_or_stop_at_end bytes next w at_end room =
      bind_ok (fwrite host bytes) (λ sent. if sent == length bytes then pure next else pure none)
        (fwrite_at_end host bytes w at_end room)
      ∙ (λ i.
          (if ==_refl (length bytes) i then pure next else pure none)
            (record w { written = w.written ++ bytes; wpos = w.wpos + length bytes }))

  -- The bytes of a section that is in the input, from the position of the stream on.
  pub copy_plain_lem :
      (new_shdr : Shdr) (state : Copy) (size : ℕ) (w : World)
      → w.pos + size ≤ length w.input
      → w.wpos ≡ length w.written
      → w.wpos + size ≤ host.disk
      → copy_plain host new_shdr state size w
        ≡ ok
            (some
              (new_shdr, record state { current_offset = (state.current_offset + size) % 2 ^ 32 }))
            (record w {
              pos = w.pos + size;
              written = w.written ++ take size (drop w.pos w.input);
              wpos = w.wpos + size;
            })
  unfolding copy_plain fread
  copy_plain_lem new_shdr state size w inside at_end room =
      (λ i.
        (if test i then write_or_stop host got next else pure none)
          (record w { pos = w.pos + length got }))
      ∙ write_or_stop_at_end got next (record w { pos = w.pos + length got }) at_end
          (omega (arith, got_size))
      ∙ (λ i. ok next (record w {
        pos = w.pos + got_size i;
        written = w.written ++ got;
        wpos = w.wpos + got_size i;
      }))
    where
      got : List ℕ
      got = take size (drop w.pos w.input)

      next : Option (Shdr × Copy)
      next =
          some (new_shdr, record state { current_offset = (state.current_offset + size) % 2 ^ 32 })

      got_size : length got ≡ size
      got_size = omega (arith, length-take size (drop w.pos w.input), length-drop w.pos w.input)

      test : (length got == size) ≡ true
      test = ap (λ n. n == size) got_size ∙ ==_refl size

-- A test that is known, on a state.
at_false :
    {A : Type 0} (b : Bool) (m k : M A) (w : World) → b ≡ false → (if b then m else k) w ≡ k w
at_false b m k w e = λ i. (if e i then m else k) w

at_true : {A : Type 0} (b : Bool) (m k : M A) (w : World) → b ≡ true → (if b then m else k) w ≡ m w
at_true b m k w e = λ i. (if e i then m else k) w

-- A section that is copied as it is: it is no symbol table and not the table of the names.
unfoldable pub IsCopied : Bool → Plan → ℕ → Shdr → Type 0
IsCopied big plan i section =
    (is_symbol_table big section ≡ false)
    × ((get_section_type big section == sht_strtab && i == get_header_shstrndx big plan.header)
        ≡ false)

module _ (host : Host) (plan : Plan) (i : ℕ) (section new_shdr : Shdr) (state : Copy) where
  -- What is left to do once the old stream is at the section.
  by_kind : M (Option (Shdr × Copy))
  by_kind =
      if is_symbol_table host.big_endian section
      then copy_symbols host plan.new_shnum new_shdr state
          (get_section_size host.big_endian section)
      else if get_section_type host.big_endian section == sht_strtab
          && i == get_header_shstrndx host.big_endian plan.header
      then copy_names host plan.final_size new_shdr state
      else copy_plain host new_shdr state (get_section_size host.big_endian section)

  -- The part for a section that is not empty.
  filled : M (Option (Shdr × Copy))
  filled = do
    allocated ← malloc host (get_section_size host.big_endian section)
    if not allocated
        then (complain (perror "Erreur d'allocation mémoire pour les données de section")
            >> pure none)
        else do sought ← fseek host (get_section_offset host.big_endian section); by_kind

  pub copy_contents-empty :
      (w : World)
      → get_section_size host.big_endian section ≡ 0
      → copy_contents host plan i section new_shdr state w ≡ ok (some (new_shdr, state)) w
  unfolding copy_contents filled by_kind malloc complain fseek
  copy_contents-empty w e =
      at_true (get_section_size host.big_endian section == 0) (pure (some (new_shdr, state))) filled
        w (ap (λ n. n == 0) e)

  by_kind-plain :
      (w : World)
      → IsCopied host.big_endian plan i section
      → by_kind w ≡ copy_plain host new_shdr state (get_section_size host.big_endian section) w
  unfolding by_kind IsCopied
  by_kind-plain w copied =
      at_false (is_symbol_table host.big_endian section)
        (copy_symbols host plan.new_shnum new_shdr state (get_section_size host.big_endian section))
        (if get_section_type host.big_endian section == sht_strtab
            && i == get_header_shstrndx host.big_endian plan.header
          then copy_names host plan.final_size new_shdr state
          else copy_plain host new_shdr state (get_section_size host.big_endian section))
        w copied.0
      ∙ at_false
          (get_section_type host.big_endian section == sht_strtab
            && i == get_header_shstrndx host.big_endian plan.header)
          (copy_names host plan.final_size new_shdr state)
          (copy_plain host new_shdr state (get_section_size host.big_endian section)) w copied.1

  pub copy_contents-plain :
      (w : World)
      → IsCopied host.big_endian plan i section
      → get_section_size host.big_endian section ≢ 0
      → host.can_alloc (get_section_size host.big_endian section) ≡ true
      → host.seekable ≡ true
      → copy_contents host plan i section new_shdr state w
        ≡ copy_plain host new_shdr state
            (get_section_size host.big_endian section)
            (record w { pos = get_section_offset host.big_endian section })
  unfolding copy_contents filled malloc complain fseek by_kind
  copy_contents-plain w copied there allocated seekable =
      at_false (get_section_size host.big_endian section == 0) (pure (some (new_shdr, state)))
        filled w (ground arith)
      ∙ at_false (not (host.can_alloc (get_section_size host.big_endian section)))
          (complain (perror "Erreur d'allocation mémoire pour les données de section") >> pure none)
          (fseek host (get_section_offset host.big_endian section) >>= λ _. by_kind) w
          (ap not allocated)
      ∙ bind_ok (fseek host (get_section_offset host.big_endian section)) (λ _. by_kind)
          (λ k.
            if seekable k
            then ok true (record w { pos = get_section_offset host.big_endian section })
            else ok false w)
      ∙ by_kind-plain (record w { pos = get_section_offset host.big_endian section }) copied
