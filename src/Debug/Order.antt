-- ===== src/Debug/Order.antt =====
-- `strcmp` as an order, and the order of the files that are registered.
use arm_reimplementation.Base.{
  ℕ, zero, suc, ◌<◌, ◌≡◌, ◌≢◌, refl, some, List, [], ◌∷◌, length, arith, if◌then◌else◌, All,
}
use arm_reimplementation.Debug.{
  below, equal, above, strcmp, is_below, Registry, position, add_debug_to,
}
use arm_reimplementation.Debug.Stores.{insert_at, add_debug_to_room}

pub strcmp_refl : (a : List ℕ) → strcmp a a ≡ equal
unfolding strcmp
strcmp_refl [] = refl
strcmp_refl (x ∷ xs) = let ih = strcmp_refl xs in ground arith

pub strcmp_equal : (a b : List ℕ) → strcmp a b ≡ equal → a ≡ b
unfolding strcmp
strcmp_equal [] [] e = refl
strcmp_equal [] (y ∷ ys) e = ground arith
strcmp_equal (x ∷ xs) [] e = ground arith
strcmp_equal (x ∷ xs) (y ∷ ys) e = let ih = strcmp_equal xs ys in ground arith

pub strcmp_flip : (a b : List ℕ) → strcmp a b ≡ above → strcmp b a ≡ below
unfolding strcmp
strcmp_flip [] [] e = ground arith
strcmp_flip [] (y ∷ ys) e = ground arith
strcmp_flip (x ∷ xs) [] e = ground arith
strcmp_flip (x ∷ xs) (y ∷ ys) e = let ih = strcmp_flip xs ys in ground arith

pub strcmp_asym : (a b : List ℕ) → strcmp a b ≡ below → strcmp b a ≢ below
unfolding strcmp
strcmp_asym [] [] e = ground arith
strcmp_asym [] (y ∷ ys) e = ground arith
strcmp_asym (x ∷ xs) [] e = ground arith
strcmp_asym (x ∷ xs) (y ∷ ys) e = let ih = strcmp_asym xs ys in ground arith

-- A name below another is below all that are not below that one.
pub strcmp_below : (a b c : List ℕ) → strcmp a b ≡ below → strcmp c b ≢ below → strcmp a c ≡ below
unfolding strcmp
strcmp_below [] [] c e f = ground arith
strcmp_below [] (y ∷ ys) [] e f = ground arith
strcmp_below [] (y ∷ ys) (z ∷ zs) e f = refl
strcmp_below (x ∷ xs) [] c e f = ground arith
strcmp_below (x ∷ xs) (y ∷ ys) [] e f = ground arith
strcmp_below (x ∷ xs) (y ∷ ys) (z ∷ zs) e f = let ih = strcmp_below xs ys zs in ground arith

-- No file is below one that stands before it.
unfoldable pub IsOrdered : Registry → Type 0
IsOrdered [] = Unit {0}
IsOrdered (file ∷ files) = All (λ later. strcmp later file ≢ below) files × IsOrdered files

-- The registered files are all at least the first that is not below the name.
above-All :
    (file name : List ℕ) (files : Registry)
    → strcmp file name ≢ below
    → All (λ later. strcmp later file ≢ below) files
    → All (λ later. strcmp later name ≢ below) files
above-All file name [] h k = tt
above-All file name (later ∷ files) h k =
    ((λ e. k.0 (strcmp_below later name file e h)), above-All file name files h k.1)

insert_at-All :
    (P : List ℕ → Type 0) (files : Registry) (i : ℕ) (name : List ℕ)
    → All P files
    → P name
    → All P (insert_at files i name)
unfolding insert_at
insert_at-All P [] i name h p = (p, tt)
insert_at-All P (file ∷ files) zero name h p = (p, h)
insert_at-All P (file ∷ files) (suc i) name h p = (h.0, insert_at-All P files i name h.1 p)

-- The name before all files, where it is not above the first.
insert_first-IsOrdered :
    (file name : List ℕ) (files : Registry)
    → strcmp file name ≢ below
    → IsOrdered (file ∷ files)
    → IsOrdered (name ∷ file ∷ files)
unfolding IsOrdered
insert_first-IsOrdered file name files at_least h =
    ((at_least, above-All file name files at_least h.0), h)

pub insert_at-IsOrdered :
    (files : Registry) (name : List ℕ)
    → IsOrdered files
    → IsOrdered (insert_at files (position files name) name)
unfolding insert_at position IsOrdered
insert_at-IsOrdered [] name h = (tt, tt)
insert_at-IsOrdered (file ∷ files) name h =
    elim (strcmp file name)
        as (λ s.
          strcmp file name ≡ s
          → IsOrdered (
              insert_at (file ∷ files) (if is_below s then suc (position files name) else 0)
                name)) [
                  | below ↦ λ e. (
                    insert_at-All (λ later. strcmp later file ≢ below) files (position files name)
                        name h.0 (strcmp_asym file name e),
                    insert_at-IsOrdered files name h.1,
                  )
                  | equal ↦ λ e. insert_first-IsOrdered file name files (λ f. cc) h
                  | above ↦ λ e. insert_first-IsOrdered file name files (λ f. cc) h
                ]
      refl

-- A name is registered among the others, which keep their order.
pub data Inserted (name : List ℕ) : Registry → Registry → Type 0 where
  here : {files : Registry} → Inserted name files (name ∷ files)
  later :
      {file : List ℕ} {files out : Registry}
      → Inserted name files out
      → Inserted name (file ∷ files) (file ∷ out)

insert_at-Inserted :
    (files : Registry) (i : ℕ) (name : List ℕ) → Inserted name files (insert_at files i name)
unfolding insert_at
insert_at-Inserted [] i name = here
insert_at-Inserted (file ∷ files) zero name = here
insert_at-Inserted (file ∷ files) (suc i) name = later (insert_at-Inserted files i name)

-- While fewer than 64 files are registered, a name is added, the others stay, and the files are in
-- order afterwards.
pub add_debug_to-IsOrdered :
    (files : Registry) (name : List ℕ)
    → IsOrdered files
    → length files < 64
    → (out : Registry) × (add_debug_to files name ≡ some out)
      × Inserted name files out
      × IsOrdered out
add_debug_to-IsOrdered files name h room = (
  insert_at files (position files name) name,
  add_debug_to_room files name room,
  insert_at-Inserted files (position files name) name,
  insert_at-IsOrdered files name h,
)
