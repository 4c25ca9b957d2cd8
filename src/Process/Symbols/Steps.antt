-- ===== src/Process/Symbols/Steps.antt =====
-- One round of a loop over the symbols of a table, and the rounds together.
use arm_reimplementation.Base.{
  ℕ, suc, ◌+◌, ◌*◌, ◌≤◌, ◌<◌, ◌≡◌, ◌≢◌, ◌⊎◌, inl, inr, refl, sym, ap, ◌∙◌, Bool, Option, none, some,
  List, length, drop, All, arith, subst,
}
use arm_reimplementation.Runtime.Bytes.{IsByte, write_at}
use arm_reimplementation.Runtime.Bytes.Stores.{length-write_at, write_at-IsByte}
use arm_reimplementation.Elf.{Sym, sym_at, load_sym, store_sym}
use arm_reimplementation.Elf.Layout.{
  IsSym, sym_at_inside, sym_at_self, sym_at_other, poke_sym, store_sym-IsByte,
}
use arm_reimplementation.Process.Symbols.{set_sym}

-- What a round leaves: element `i` is `t`, and the others are as they were.
unfoldable pub Round : Bool → List ℕ → ℕ → Sym → List ℕ → Type 0
Round big symbols i t out =
    (length out ≡ length symbols)
    × All IsByte out
    × (sym_at big out i ≡ some t)
    × ((k : ℕ) → k ≢ i → sym_at big out k ≡ sym_at big symbols k)

module _ (big : Bool) (symbols : List ℕ) (i : ℕ) (bytes : All IsByte symbols)
    (fits : i * 16 + 16 ≤ length symbols) where
  pub kept-Round : Round big symbols i (load_sym big (drop (i * 16) symbols)) symbols
  unfolding Round
  kept-Round = (refl, bytes, sym_at_inside big symbols i fits, (λ k other. refl))

  pub set-Round :
      (t : Sym)
      → IsSym t
      → (out : List ℕ) × (set_sym big symbols i t ≡ some out) × Round big symbols i t out
  unfolding Round set_sym
  set-Round t h = (
    write_at symbols (i * 16) (store_sym big t),
    poke_sym big symbols i t fits,
    (
      length-write_at symbols (i * 16) (store_sym big t),
      write_at-IsByte symbols (i * 16) (store_sym big t) bytes (store_sym-IsByte big t h),
      sym_at_self big symbols i t fits h,
      (λ k other. sym_at_other big symbols i t fits k other),
    ),
  )

-- The symbols from `i` on, `left` of them, are related to those before; the others are as they were.
unfoldable pub AreMapped : Bool → (Sym → Sym → Type 0) → ℕ → ℕ → List ℕ → List ℕ → Type 0
AreMapped big Related left i symbols out =
    (length out ≡ length symbols)
    × ((k : ℕ) (s : Sym)
        → i ≤ k
        → k < i + left
        → sym_at big symbols k ≡ some s
        → (t : Sym) × (sym_at big out k ≡ some t) × Related s t)
    × ((k : ℕ) → (k < i) ⊎ (i + left ≤ k) → sym_at big out k ≡ sym_at big symbols k)

the_sym : Sym → Option Sym → Sym
the_sym default none = default
the_sym default (some s) = s

module _ (big : Bool) (Related : Sym → Sym → Type 0) where
  pub none_mapped : (i : ℕ) (symbols : List ℕ) → AreMapped big Related 0 i symbols symbols
  unfolding AreMapped
  none_mapped i symbols = (refl, (λ k s from below here. absurd (omega arith)), (λ k outside. refl))

  -- A round and the rest of the loop.
  pub extend :
      (left i : ℕ) (symbols middle out : List ℕ) (t : Sym)
      → i * 16 + 16 ≤ length symbols
      → Round big symbols i t middle
      → Related (load_sym big (drop (i * 16) symbols)) t
      → AreMapped big Related left (i + 1) middle out
      → AreMapped big Related (suc left) i symbols out
  unfolding Round AreMapped the_sym load_sym
  extend left i symbols middle out t fits round spec rest = (
    rest.0 ∙ round.0,
    (λ k s from below here. elim (first_or_later k from) [
      | inl first ↦ (
        t,
        rest.2 k (inl (omega arith)) ∙ ap (sym_at big middle) first ∙ round.2,
        subst (λ u. Related u t)
            (ap (the_sym t)
              (sym (sym_at_inside big symbols i fits) ∙ ap (sym_at big symbols) (sym first) ∙ here))
            spec,
      )
      | inr later ↦ rest.1 k s later (omega arith) (round.3 k (λ e. omega arith) ∙ here)
    ]),
    (λ k outside.
        rest.2 k (elim outside [ inl before ↦ inl (omega arith) | inr behind ↦ inr (omega arith) ])
        ∙ round.3 k (λ e. elim outside [ inl before ↦ omega arith | inr behind ↦ omega arith ])),
  )
    where
      first_or_later : (k : ℕ) → i ≤ k → (k ≡ i) ⊎ (i + 1 ≤ k)
      first_or_later k h = ground arith
