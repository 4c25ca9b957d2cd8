-- ===== src/Runtime/Bytes/Stores.antt =====
-- The laws of stores into a byte buffer.
use arm_reimplementation.Base.{
  ℕ, zero, suc, ◌+◌, ◌≤◌, ◌<◌, none, some, List, [], ◌∷◌, ◌++◌, drop, ap, length-append, ◌≡◌, refl,
  ◌∙◌, set, get_or, length, All, length-set, get_or-set_self, get_or-set_ne, arith,
}
use arm_reimplementation.Runtime.Bytes.{IsByte, write_at, poke}

pub length-write_at : (buf : List ℕ) (i : ℕ) (vs : List ℕ) → length (write_at buf i vs) ≡ length buf
unfolding write_at
length-write_at buf i [] = refl
length-write_at buf i (v ∷ vs) = length-write_at (set buf i v) (suc i) vs ∙ length-set buf i v

-- Bytes before and behind the store keep their values.
pub get_or-write_at_below :
    (buf : List ℕ) (i j : ℕ) (vs : List ℕ) → j < i → get_or (write_at buf i vs) j 0 ≡ get_or buf j 0
unfolding write_at
get_or-write_at_below buf i j [] h = refl
get_or-write_at_below buf i j (v ∷ vs) h =
    get_or-write_at_below (set buf i v) (suc i) j vs (omega arith)
    ∙ get_or-set_ne buf i j v 0 (omega arith)

pub get_or-write_at_above :
    (buf : List ℕ) (i j : ℕ) (vs : List ℕ)
    → i + length vs ≤ j
    → get_or (write_at buf i vs) j 0 ≡ get_or buf j 0
unfolding write_at
get_or-write_at_above buf i j [] h = refl
get_or-write_at_above buf i j (v ∷ vs) h =
    get_or-write_at_above (set buf i v) (suc i) j vs (omega arith)
    ∙ get_or-set_ne buf i j v 0 (omega arith)

-- A stored byte is read back.
pub get_or-write_at :
    (buf : List ℕ) (i k : ℕ) (vs : List ℕ)
    → k < length vs
    → i + length vs ≤ length buf
    → get_or (write_at buf i vs) (i + k) 0 ≡ get_or vs k 0
unfolding write_at
get_or-write_at buf i k [] h fits = absurd (omega arith)
get_or-write_at buf i zero (v ∷ vs) h fits =
    let e : i + 0 ≡ i = omega arith in
    rw e (
      get_or-write_at_below (set buf i v) (suc i) i vs (omega arith)
      ∙ get_or-set_self buf i v 0 (omega arith))
get_or-write_at buf i (suc k) (v ∷ vs) h fits =
    let e : i + suc k ≡ suc i + k = omega arith in
    rw e
      (get_or-write_at (set buf i v) (suc i) k vs (omega arith) (omega (arith, length-set buf i v)))

All-set : (buf : List ℕ) (i v : ℕ) → All IsByte buf → IsByte v → All IsByte (set buf i v)
All-set [] i v h b = h
All-set (x ∷ xs) zero v h b = (b, h.1)
All-set (x ∷ xs) (suc i) v h b = (h.0, All-set xs i v h.1 b)

pub write_at-IsByte :
    (buf : List ℕ) (i : ℕ) (vs : List ℕ)
    → All IsByte buf
    → All IsByte vs
    → All IsByte (write_at buf i vs)
unfolding write_at
write_at-IsByte buf i [] h k = h
write_at-IsByte buf i (v ∷ vs) h k =
    write_at-IsByte (set buf i v) (suc i) vs (All-set buf i v h k.0) k.1

-- Within its bounds a store goes through.
pub poke_in_bounds :
    (buf : List ℕ) (i : ℕ) (vs : List ℕ)
    → i + length vs ≤ length buf
    → poke buf i vs ≡ some (write_at buf i vs)
unfolding poke
poke_in_bounds buf i vs h = ground arith

pub poke-eq-some :
    (buf : List ℕ) (i : ℕ) (vs out : List ℕ)
    → poke buf i vs ≡ some out
    → (i + length vs ≤ length buf) × (out ≡ write_at buf i vs)
unfolding poke
poke-eq-some buf i vs out h = ground arith

write_at-cons :
    (x : ℕ) (xs : List ℕ) (i : ℕ) (vs : List ℕ)
    → write_at (x ∷ xs) (suc i) vs ≡ x ∷ write_at xs i vs
unfolding write_at
write_at-cons x xs i [] = refl
write_at-cons x xs i (v ∷ vs) = write_at-cons x (set xs i v) (suc i) vs

write_at_front :
    (buf vs : List ℕ) → length vs ≤ length buf → write_at buf 0 vs ≡ vs ++ drop (length vs) buf
unfolding write_at
write_at_front buf [] h = refl
write_at_front [] (v ∷ vs) h = absurd (omega arith)
write_at_front (x ∷ xs) (v ∷ vs) h =
    write_at-cons v xs 0 vs ∙ ap (λ (t : List ℕ). v ∷ t) (write_at_front xs vs (omega arith))

-- A store right behind a prefix replaces as many bytes as it has.
pub write_at-append :
    (pre buf vs : List ℕ)
    → length vs ≤ length buf
    → write_at (pre ++ buf) (length pre) vs ≡ pre ++ (vs ++ drop (length vs) buf)
write_at-append [] buf vs h = write_at_front buf vs h
write_at-append (x ∷ pre) buf vs h =
    write_at-cons x (pre ++ buf) (length pre) vs
    ∙ ap (λ (t : List ℕ). x ∷ t) (write_at-append pre buf vs h)

pub poke-append :
    (pre buf vs : List ℕ)
    → length vs ≤ length buf
    → poke (pre ++ buf) (length pre) vs ≡ some (pre ++ (vs ++ drop (length vs) buf))
poke-append pre buf vs h =
    poke_in_bounds (pre ++ buf) (length pre) vs (omega (arith, length-append pre buf))
    ∙ ap some (write_at-append pre buf vs h)

pub poke_out_of_bounds :
    (buf : List ℕ) (i : ℕ) (vs : List ℕ) → length buf < i + length vs → poke buf i vs ≡ none
unfolding poke
poke_out_of_bounds buf i vs h = ground arith
