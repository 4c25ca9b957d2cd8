-- ===== src/Debug/Overflow.antt =====
-- When `add_debug_to` writes past the end of `debugged_files`.
use arm_reimplementation.Base.{
  ℕ, zero, suc, ◌+◌, ◌-◌, ◌≤◌, ◌<◌, ◌≡◌, ◌≢◌, ◌⊎◌, ◌↔◌, inl, inr, refl, ap, ◌∙◌, true, false,
  Option, none, some, List, [], ◌∷◌, leb, length, get_elem?, get_or, if◌then◌else◌, arith,
}
use arm_reimplementation.Debug.{
  ◌>>=◌, below, equal, above, is_below, strcmp, Registry, position, store_file, shift_up,
  add_debug_to,
}
use arm_reimplementation.Debug.Stores.{position-length, add_debug_to_room}

-- The file at the position is not below the name, and no such file stands before it.
position_stops :
    (files : Registry) (name : List ℕ)
    → position files name < length files
    → strcmp (get_or files (position files name) []) name ≢ below
unfolding position
position_stops [] name h = absurd (omega arith)
position_stops (file ∷ files) name h =
    elim (strcmp file name)
        as (λ s.
          strcmp file name ≡ s
          → (if is_below s then suc (position files name) else 0) < suc (length files)
          → strcmp (get_or (file ∷ files) (if is_below s then suc (position files name) else 0) [])
              name
            ≢ below) [
              | below ↦ λ e inside. position_stops files name (omega arith)
              | equal ↦ λ e inside f. cc
              | above ↦ λ e inside f. cc
            ]
      refl h

position_first :
    (files : Registry) (name : List ℕ) (k : ℕ)
    → k < length files
    → strcmp (get_or files k []) name ≢ below
    → position files name ≤ k
unfolding position
position_first [] name k inside h = absurd (omega arith)
position_first (file ∷ files) name zero inside h = ground arith
position_first (file ∷ files) name (suc k) inside h =
    let ih = position_first files name k (omega arith) h in ground arith

-- The first round of the loop stores behind the last of `max` entries.
shift_up_out :
    (max left i : ℕ) (files : Registry)
    → suc (left + i) ≡ max
    → shift_up max (suc left) i files ≡ none
unfolding shift_up store_file
shift_up_out max left i files e = by_entry (get_elem? files (left + i))
  where
    outside : leb max (suc (left + i)) ≡ true
    outside = ground arith

    by_entry :
        (entry : Option (List ℕ))
        → (entry >>= λ file.
            store_file max (suc (left + i)) file files >>= λ files'. shift_up max left i files')
          ≡ none
    by_entry none = refl
    by_entry (some file) = rw outside refl

room_cases : (n : ℕ) → n ≤ 64 → (n < 64) ⊎ (n ≡ 64)
room_cases n h = ground arith

full_none :
    (files : Registry) (name : List ℕ)
    → length files ≡ 64
    → position files name < 64
    → add_debug_to files name ≡ none
unfolding add_debug_to
full_none files name full h =
    (λ k. if short k then some files else (moved >>= stored))
    ∙ ap (λ n. shift_up 64 n (position files name) files >>= stored) count
    ∙ ap (λ m. m >>= stored) (shift_up_out 64 left (position files name) files (omega arith))
  where
    left : ℕ
    left = 63 - position files name

    count : length files - position files name ≡ suc left
    count = omega arith

    short : leb 64 (position files name) ≡ false
    short = ground arith

    stored : Registry → Option Registry
    stored = store_file 64 (position files name) name

    moved : Option Registry
    moved = shift_up 64 (length files - position files name) (position files name) files

full_some :
    (files : Registry) (name : List ℕ)
    → position files name ≡ 64
    → add_debug_to files name ≡ some files
unfolding add_debug_to
full_some files name h = λ k.
    if all k
    then some files
    else (shift_up 64 (length files - position files name) (position files name) files
        >>= store_file 64 (position files name) name)
  where
    all : leb 64 (position files name) ≡ true
    all = ground arith

-- The array has 64 entries. With as many files in it, and only then, adding a name can store outside
-- of it, and does so exactly where some file does not sort before the name.
pub add_debug_to_overruns :
    (files : Registry) (name : List ℕ)
    → length files ≤ 64
    → (add_debug_to files name ≡ none)
      ↔ ((length files ≡ 64) × ((k : ℕ) × (k < 64) × (strcmp (get_or files k []) name ≢ below)))
add_debug_to_overruns files name fits = (
  (λ e. elim (room_cases (length files) fits) [
    | inl room ↦ absurd (cc (e, add_debug_to_room files name room))
    | inr full ↦ (
      full,
      elim (room_cases (position files name) (omega (arith, position-length files name))) [
        | inl h ↦ (position files name, h, position_stops files name (omega arith))
        | inr h ↦ absurd (cc (e, full_some files name h))
      ],
    )
  ]),
  (λ r.
      let (full, (k, inside, at_least)) = r in
      full_none files name full
        (omega (arith, position_first files name k (omega arith) at_least))),
)
