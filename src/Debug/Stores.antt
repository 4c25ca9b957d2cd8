-- ===== src/Debug/Stores.antt =====
-- The two stores of `add_debug_to`: the entries move up one by one, and the name takes the place
-- that becomes free.
use arm_reimplementation.Base.{
  ℕ, zero, suc, ◌+◌, ◌-◌, ◌≤◌, ◌<◌, ◌≡◌, refl, sym, ap, ◌∙◌, false, Option, none, some, List, [],
  ◌∷◌, leb, length, get_elem?, drop, if◌then◌else◌, arith,
}
use arm_reimplementation.Debug.{◌>>=◌, Registry, position, store_file, shift_up, add_debug_to}

-- The array afterwards: the name is at `i`, and the entries from there on are one further up.
unfoldable pub insert_at : Registry → ℕ → List ℕ → Registry
insert_at [] i name = name ∷ []
insert_at (file ∷ files) zero name = name ∷ file ∷ files
insert_at (file ∷ files) (suc i) name = file ∷ insert_at files i name

push : List ℕ → Registry → Option Registry
push file files = some (file ∷ files)

store_file-later :
    (max j : ℕ) (name file : List ℕ) (files : Registry)
    → store_file (suc max) (suc j) name (file ∷ files) ≡ (store_file max j name files >>= push file)
unfolding store_file push
store_file-later max j name file files = ground arith

-- A round of the loop.
step : ℕ → ℕ → Registry → Option Registry
step max i files = get_elem? files i >>= λ file. store_file max (suc i) file files

step-later :
    (max i : ℕ) (file : List ℕ) (files : Registry)
    → step (suc max) (suc i) (file ∷ files) ≡ (step max i files >>= push file)
unfolding step
step-later max i file files = by_entry (get_elem? files i)
  where
    by_entry :
        (entry : Option (List ℕ))
        → (entry >>= λ found. store_file (suc max) (suc (suc i)) found (file ∷ files))
          ≡ ((entry >>= λ found. store_file max (suc i) found files) >>= push file)
    by_entry none = refl
    by_entry (some found) = store_file-later max (suc i) found file files

shift_up-step :
    (max left i : ℕ) (files : Registry)
    → shift_up max (suc left) i files ≡ (step max (left + i) files >>= shift_up max left i)
unfolding shift_up step
shift_up-step max left i files = by_entry (get_elem? files (left + i))
  where
    by_entry :
        (entry : Option (List ℕ))
        → (entry >>= λ file.
            store_file max (suc (left + i)) file files >>= λ files'. shift_up max left i files')
          ≡ ((entry >>= λ file. store_file max (suc (left + i)) file files) >>= shift_up max left i)
    by_entry none = refl
    by_entry (some file) = refl

bind_push :
    (m : Option Registry) (file : List ℕ) (f g : Registry → Option Registry)
    → ((files : Registry) → f (file ∷ files) ≡ (g files >>= push file))
    → ((m >>= push file) >>= f) ≡ ((m >>= g) >>= push file)
unfolding push
bind_push none file f g h = refl
bind_push (some files) file f g h = h files

-- Behind the first entry, the loop does what it does without that entry.
shift_up-later :
    (max left i : ℕ) (file : List ℕ) (files : Registry)
    → shift_up (suc max) left (suc i) (file ∷ files) ≡ (shift_up max left i files >>= push file)
unfolding shift_up push
shift_up-later max zero i file files = refl
shift_up-later max (suc left) i file files =
    shift_up-step (suc max) left (suc i) (file ∷ files)
    ∙ ap (λ n. step (suc max) n (file ∷ files) >>= shift_up (suc max) left (suc i)) (omega arith)
    ∙ ap (λ m. m >>= shift_up (suc max) left (suc i)) (step-later max (left + i) file files)
    ∙ bind_push (step max (left + i) files) file (shift_up (suc max) left (suc i))
        (shift_up max left i) (λ rest. shift_up-later max left i file rest)
    ∙ ap (λ m. m >>= push file) (sym (shift_up-step max left i files))

bind_assoc :
    (m : Option Registry) (f g : Registry → Option Registry)
    → ((m >>= f) >>= g) ≡ (m >>= λ files. f files >>= g)
bind_assoc none f g = refl
bind_assoc (some files) f g = refl

bind_same :
    (m : Option Registry) (f g : Registry → Option Registry)
    → ((files : Registry) → f files ≡ g files)
    → (m >>= f) ≡ (m >>= g)
bind_same none f g h = refl
bind_same (some files) f g h = h files

bind_some : (m : Option Registry) → (m >>= some) ≡ m
bind_some none = refl
bind_some (some files) = refl

-- The last round on its own.
shift_up-last :
    (max left i : ℕ) (files : Registry)
    → shift_up max (suc left) i files ≡ (shift_up max left (suc i) files >>= step max i)
unfolding shift_up
shift_up-last max zero i files =
    shift_up-step max zero i files
    ∙ ap (λ n. step max n files >>= shift_up max zero i) (omega arith)
    ∙ bind_some (step max i files)
shift_up-last max (suc left) i files =
    shift_up-step max (suc left) i files
    ∙ bind_same (step max (suc left + i) files) (shift_up max (suc left) i)
        (λ rest. shift_up max left (suc i) rest >>= step max i)
        (λ rest. shift_up-last max left i rest)
    ∙ sym (bind_assoc (step max (suc left + i) files) (shift_up max left (suc i)) (step max i))
    ∙ ap (λ n. (step max n files >>= shift_up max left (suc i)) >>= step max i) (omega arith)
    ∙ ap (λ m. m >>= step max i) (sym (shift_up-step max left (suc i) files))

store_first :
    (max : ℕ) (name : List ℕ) (files : Registry)
    → store_file (suc max) 0 name files ≡ some (insert_at (drop 1 files) 0 name)
unfolding store_file insert_at
store_first max name [] = ground arith
store_first max name (file ∷ []) = ground arith
store_first max name (file ∷ second ∷ files) = ground arith

-- All entries move up, and the name goes to the front.
all_up :
    (max : ℕ) (files : Registry) (name : List ℕ)
    → length files < max
    → (shift_up max (length files) 0 files >>= store_file max 0 name) ≡ some (name ∷ files)
unfolding shift_up push insert_at step
all_up zero files name room = absurd (omega arith)
all_up (suc max) [] name room = store_first max name []
all_up (suc max) (file ∷ files) name room =
    ap (λ m. m >>= store_file (suc max) 0 name)
      (shift_up-last (suc max) (length files) 0 (file ∷ files)
        ∙ ap (λ m. m >>= step (suc max) 0) (shift_up-later max (length files) 0 file files)
        ∙ bind_push (shift_up max (length files) 0 files) file (step (suc max) 0)
            (store_file max 0 file) (λ rest. store_file-later max 0 file file rest)
        ∙ ap (λ m. m >>= push file) (all_up max files file (omega arith)))
    ∙ store_first max name (file ∷ file ∷ files)

-- With room for one more, the loop and the store put the name at its place.
shifted_in :
    (max i : ℕ) (files : Registry) (name : List ℕ)
    → i ≤ length files
    → length files < max
    → (shift_up max (length files - i) i files >>= store_file max i name)
      ≡ some (insert_at files i name)
unfolding insert_at push
shifted_in max zero files name h room =
    ap (λ n. shift_up max n 0 files >>= store_file max 0 name) (omega arith)
    ∙ all_up max files name room
    ∙ front files
  where
    front : (l : Registry) → some (name ∷ l) ≡ some (insert_at l 0 name)
    front [] = refl
    front (file ∷ l) = refl
shifted_in max (suc i) [] name h room = absurd (omega arith)
shifted_in zero (suc i) (file ∷ files) name h room = absurd (omega arith)
shifted_in (suc max) (suc i) (file ∷ files) name h room =
    ap (λ n. shift_up (suc max) n (suc i) (file ∷ files) >>= store_file (suc max) (suc i) name)
      (omega arith)
    ∙ ap (λ m. m >>= store_file (suc max) (suc i) name)
        (shift_up-later max (length files - i) i file files)
    ∙ bind_push (shift_up max (length files - i) i files) file (store_file (suc max) (suc i) name)
        (store_file max i name) (λ rest. store_file-later max i name file rest)
    ∙ ap (λ m. m >>= push file) (shifted_in max i files name (omega arith) (omega arith))

pub position-length : (files : Registry) (name : List ℕ) → position files name ≤ length files
unfolding position
position-length [] name = omega arith
position-length (file ∷ files) name = let ih = position-length files name in ground arith

pub add_debug_to_room :
    (files : Registry) (name : List ℕ)
    → length files < 64
    → add_debug_to files name ≡ some (insert_at files (position files name) name)
unfolding add_debug_to
add_debug_to_room files name room =
    (λ k.
      if short k
      then some files
      else (shift_up 64 (length files - position files name) (position files name) files
          >>= store_file 64 (position files name) name))
    ∙ shifted_in 64 (position files name) files name (position-length files name) room
  where
    short : leb 64 (position files name) ≡ false
    short = let at_most = position-length files name in ground arith
