-- ===== src/Process/Patch/Frame.antt =====
-- What the relocations of a section leave alone.
use arm_reimplementation.Base.{
  ℕ, zero, suc, ◌+◌, ◌≤◌, ◌<◌, ◌≡◌, ◌⊎◌, refl, ◌∙◌, Bool, Option, none, some, List, length, get_or,
  subst,
}
use arm_reimplementation.Runtime.Io.{
  M, World, Host, Outcome, ok, exits, fault, ◌>>=◌, deref, complain,
}
use arm_reimplementation.Elf.{Rel, rel_at}
use arm_reimplementation.Process.Apply.{Applied, patched, refused, broken, apply_relocation}
use arm_reimplementation.Process.Apply.Entries.{offset_of}
use arm_reimplementation.Process.Patch.{settle, apply_all}
use arm_reimplementation.Process.Apply.Kept.{IsKept, AllKept, apply_relocation-AllKept}

-- A byte that no entry of a table is about.
unfoldable pub IsOutside : Bool → List ℕ → ℕ → Type 0
IsOutside big rel_entries j =
    (k : ℕ) (rel : Rel)
    → rel_at big rel_entries k ≡ some rel
    → (j < offset_of big rel) ⊎ (offset_of big rel + 4 ≤ j)

-- The section keeps its length, and the bytes that no entry is about.
IsFramed : Bool → List ℕ → List ℕ → List ℕ → Type 0
IsFramed big rel_entries target out =
    (length out ≡ length target)
    × ((j : ℕ) → IsOutside big rel_entries j → get_or out j 0 ≡ get_or target j 0)

AllFramed : Bool → List ℕ → List ℕ → Outcome World (List ℕ) → Type 0
AllFramed big rel_entries target (ok out w) = IsFramed big rel_entries target out
AllFramed big rel_entries target (exits n w) = Unit {0}
AllFramed big rel_entries target fault = Unit {0}

settle-framed :
    (big : Bool) (rel_entries target : List ℕ) (k : ℕ) (rel : Rel) (a : Applied) (w : World)
    → rel_at big rel_entries k ≡ some rel
    → AllKept target (offset_of big rel) a
    → AllFramed big rel_entries target (settle a target w)
unfolding settle complain AllKept IsKept AllFramed IsFramed IsOutside
settle-framed big rel_entries target k rel (patched out) w e h =
    (h.0, (λ j outside. h.1 j (outside k rel e)))
settle-framed big rel_entries target k rel (refused why) w e h = (refl, (λ j outside. refl))
settle-framed big rel_entries target k rel broken w e h = tt

framed_after :
    (big : Bool) (rel_entries target next : List ℕ) (o : Outcome World (List ℕ))
    → IsFramed big rel_entries target next
    → AllFramed big rel_entries next o
    → AllFramed big rel_entries target o
unfolding AllFramed IsFramed
framed_after big rel_entries target next (ok out w) h k =
    (k.0 ∙ h.0, (λ j outside. k.1 j outside ∙ h.1 j outside))
framed_after big rel_entries target next (exits n w) h k = tt
framed_after big rel_entries target next fault h k = tt

-- A step that is framed, and what follows on what it leaves.
then_framed :
    (big : Bool) (rel_entries target : List ℕ) (o : Outcome World (List ℕ))
    (f : List ℕ → M (List ℕ)) (w : World)
    → AllFramed big rel_entries target o
    → ((next : List ℕ) (v : World) → AllFramed big rel_entries next (f next v))
    → AllFramed big rel_entries target (((λ (v : World). o) >>= f) w)
unfolding AllFramed
then_framed big rel_entries target (ok next v) f w h k =
    framed_after big rel_entries target next (f next v) h (k next v)
then_framed big rel_entries target (exits n v) f w h k = tt
then_framed big rel_entries target fault f w h k = tt

module _ (host : Host) (rel_entries : List ℕ) (symbols : Option (List ℕ)) (addresse : ℕ) where
  -- An entry that was read, or none.
  on_entry :
      (left j : ℕ) (target : List ℕ) (w : World) (m : Option Rel)
      → rel_at host.big_endian rel_entries j ≡ m
      → ((next : List ℕ) (v : World)
          → AllFramed host.big_endian rel_entries next
              (apply_all host rel_entries symbols addresse left (j + 1) next v))
      → AllFramed host.big_endian rel_entries target (
          (deref m >>= λ rel.
          settle (apply_relocation host.big_endian rel symbols target addresse) target >>= λ next.
          apply_all host rel_entries symbols addresse left (j + 1) next)
            w)
  unfolding AllFramed
  on_entry left j target w none e rest = tt
  on_entry left j target w (some rel) e rest =
      then_framed host.big_endian rel_entries target
        (settle (apply_relocation host.big_endian rel symbols target addresse) target w)
        (λ next. apply_all host rel_entries symbols addresse left (j + 1) next) w
        (settle-framed host.big_endian rel_entries target j rel
          (apply_relocation host.big_endian rel symbols target addresse) w e
          (apply_relocation-AllKept host.big_endian rel symbols target addresse))
        rest

  apply_all-AllFramed :
      (left j : ℕ) (target : List ℕ) (w : World)
      → AllFramed host.big_endian rel_entries target
          (apply_all host rel_entries symbols addresse left j target w)
  unfolding apply_all AllFramed IsFramed
  apply_all-AllFramed zero j target w = (refl, (λ k outside. refl))
  apply_all-AllFramed (suc left) j target w =
      on_entry left j target w (rel_at host.big_endian rel_entries j) refl
        (λ next v. apply_all-AllFramed left (j + 1) next v)

-- Where they end with a result, the relocations of a section leave its length as it is, and every
-- byte that is in none of the four bytes from the offset of an entry on, whatever the types of the
-- entries, their symbols and their order.
pub apply_all_frame :
    (host : Host) (rel_entries : List ℕ) (symbols : Option (List ℕ)) (addresse left j : ℕ)
    (target out : List ℕ) (w w' : World)
    → apply_all host rel_entries symbols addresse left j target w ≡ ok out w'
    → (length out ≡ length target)
      × ((k : ℕ) → IsOutside host.big_endian rel_entries k → get_or out k 0 ≡ get_or target k 0)
unfolding AllFramed IsFramed
apply_all_frame host rel_entries symbols addresse left j target out w w' e =
    subst (AllFramed host.big_endian rel_entries target) e
      (apply_all-AllFramed host rel_entries symbols addresse left j target w)
