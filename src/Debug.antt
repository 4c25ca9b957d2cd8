-- ===== src/Debug.antt =====
-- debug.c: the sorted array of the files whose debug messages are shown.
pub mod Stores
pub mod Order
pub mod Overflow
pub mod Lookup
pub mod Calls
use arm_reimplementation.Base.{
  ℕ, zero, suc, ◌+◌, ◌-◌, ◌/◌, Bool, true, false, Option, none, some, List, [], ◌∷◌, ◌++◌, ◌==◌,
  ◌&&◌, ltb, leb, length, get_elem?, get_or, set, if◌then◌else◌,
}

-- Here `none` is undefined behaviour.
infixl 5 ◌>>=◌
abbrev pub ◌>>=◌ {ℓ κ} : {A : Type ℓ} {B : Type κ} → Option A → (A → Option B) → Option B
none >>= f = none
some a >>= f = f a

abbrev pub max_files_number : ℕ
max_files_number = 64

-- The sign of `strcmp`, which compares the bytes.
pub data Sign : Type 0 where
  below equal above : Sign

unfoldable pub strcmp : List ℕ → List ℕ → Sign
strcmp [] [] = equal
strcmp [] (y ∷ ys) = below
strcmp (x ∷ xs) [] = above
strcmp (x ∷ xs) (y ∷ ys) = if ltb x y then below else if ltb y x then above else strcmp xs ys

abbrev pub is_below : Sign → Bool
is_below below = true
is_below equal = false
is_below above = false

-- The entries of `debugged_files` in use; `nb_debugged_files` is their number.
abbrev pub Registry : Type 0
Registry = List (List ℕ)

-- The first loop: how many files come before the name. The entries in use are at most 64, so the
-- test of `MAX_FILES_NUMBER` adds nothing to the loop.
unfoldable pub position : Registry → List ℕ → ℕ
unfolding strcmp
position [] name = 0
position (file ∷ files) name = if is_below (strcmp file name) then suc (position files name) else 0

-- A store to `debugged_files[j]`, which must be one of the 64 entries; `j` is the index of an entry in
-- use or of the next one.
unfoldable pub store_file : ℕ → ℕ → List ℕ → Registry → Option Registry
store_file max j name files =
    if leb max j
    then none
    else if j == length files
    then some (files ++ (name ∷ []))
    else some (set files j name)

-- The second loop: `left` rounds, with `j` from `left + i` down to `i + 1`.
unfoldable pub shift_up : ℕ → ℕ → ℕ → Registry → Option Registry
unfolding store_file
shift_up max zero i files = some files
shift_up max (suc left) i files = do
  file ← get_elem? files (left + i)
  files' ← store_file max (suc (left + i)) file files
  shift_up max left i files'

-- `none` is an access outside of `debugged_files`.
unfoldable pub add_debug_to : Registry → List ℕ → Option Registry
unfolding position shift_up store_file
add_debug_to files name =
    let i = position files name in
    if leb max_files_number i then some files else do
      files' ← shift_up max_files_number (length files - i) i files
      store_file max_files_number i name files'

-- The binary search between `from` and `above_to`, which is the C program's `to + 1`. It ends
-- within as many rounds as there are entries.
unfoldable pub search_between : ℕ → Registry → List ℕ → ℕ → ℕ → Bool
unfolding strcmp
search_between zero files name from above_to = false
search_between (suc fuel) files name from above_to =
    let middle = (from + (above_to - 1)) / 2 in
    let up = search_between fuel files name (middle + 1) above_to in
    let down = search_between fuel files name from middle in
    if ltb (from + 1) above_to
    then elim (strcmp (get_or files middle []) name) [ below ↦ up | above ↦ down | equal ↦ true ]
    else if from + 1 == above_to
    then elim (strcmp (get_or files from []) name) [ equal ↦ true | below ↦ false | above ↦ false ]
    else false

-- `__is_debugged`
unfoldable pub is_debugged : Registry → List ℕ → Bool
unfolding search_between
is_debugged files name = search_between (length files + 1) files name 0 (length files)

-- The macro `is_debugged` where `CACHE_DEBUG_FLAG` is defined: `is_debugged_first` and
-- `is_debugged_result` of one source file.
pub record Cache : Type 0 where
  pub first : Bool
  pub result : Bool

unfoldable pub is_debugged_cached : Cache → Registry → List ℕ → Bool × Cache
unfolding is_debugged
is_debugged_cached cache files name =
    if cache.first
    then (is_debugged files name, record { first = false; result = is_debugged files name })
    else (cache.result, cache)

-- `__debug_raw_binary`: what is printed on the error stream. `isprint` is undefined on a negative
-- `char`.
unfoldable pub debug_raw_binary : List ℕ → Option (List ℕ)
debug_raw_binary [] = some []
debug_raw_binary (c ∷ cs) =
    let rest = debug_raw_binary cs in
    if leb 128 c then none else elim rest [
      | none ↦ none
      | some shown ↦ some ((if leb 32 c && leb c 126 then c else b'.') ∷ shown)
    ]
