-- ===== src/Elf/Strings.antt =====
-- `strcmp` on C strings in memory.
use arm_reimplementation.Base.{
  ℕ, ◌<◌, ◌≡◌, refl, sym, ap, ◌∙◌, Bool, true, false, Option, none, some, List, [], ◌∷◌, ◌==◌, ◌&&◌,
  All, inl, inr, Bool-cases, Option-cases, if◌then◌else◌, arith,
}
use arm_reimplementation.Elf.{c_string, strcmp_eq}

-- Whether two texts are the same.
unfoldable pub same_text : List ℕ → List ℕ → Bool
same_text [] [] = true
same_text [] (d ∷ ds) = false
same_text (c ∷ cs) [] = false
same_text (c ∷ cs) (d ∷ ds) = (c == d) && same_text cs ds

behind : ℕ → Option (List ℕ) → Option (List ℕ)
behind c o = elim o [ none ↦ none | some n ↦ some (c ∷ n) ]

the_text : Option (List ℕ) → List ℕ
the_text none = []
the_text (some n) = n

c_string-endless : (n : List ℕ) → ¬ (c_string [] ≡ some n)
unfolding c_string
c_string-endless n e = cc e

-- What the string at a byte that is not 0 is.
c_string_cases :
    (c : ℕ) (cs n : List ℕ)
    → c_string (c ∷ cs) ≡ some n
    → (c == 0) ≡ false
    → (m : List ℕ) × (c_string cs ≡ some m) × (c ∷ m ≡ n)
unfolding c_string the_text behind
c_string_cases c cs n e plain =
    let found : behind c (c_string cs) ≡ some n =
      (λ i. if sym plain i then some [] else behind c (c_string cs)) ∙ e in
    elim (Option-cases (c_string cs)) [
      | inl endless ↦ absurd (cc ((λ i. behind c (sym endless i)) ∙ found))
      | inr (m, read) ↦ (m, read, ap the_text ((λ i. behind c (sym read i)) ∙ found))
    ]

c_string_end : (c : ℕ) (cs n : List ℕ) → c_string (c ∷ cs) ≡ some n → (c == 0) ≡ true → [] ≡ n
unfolding c_string the_text behind
c_string_end c cs n e ends =
    ap the_text ((λ i. if sym ends i then some [] else behind c (c_string cs)) ∙ e)

-- On a string in memory, `strcmp` with a text that has no null byte tells whether it is that text.
pub strcmp_eq_lem :
    (memory t n : List ℕ)
    → c_string memory ≡ some n
    → All (λ c. 0 < c) t
    → strcmp_eq memory t ≡ some (same_text n t)
unfolding strcmp_eq same_text
strcmp_eq_lem [] t n e h = absurd (c_string-endless n e)
strcmp_eq_lem (c ∷ cs) [] n e h = elim (Bool-cases (c == 0)) [
  | inl ends ↦ ap some ends ∙ ap (λ m. some (same_text m [])) (c_string_end c cs n e ends)
  | inr plain ↦
      let (m, read, whole) = c_string_cases c cs n e plain in
      ap some plain ∙ ap (λ l. some (same_text l [])) whole
]
strcmp_eq_lem (c ∷ cs) (d ∷ ds) n e h = elim (Bool-cases (c == 0)) [
  | inl ends ↦
      let differs : (c == d) ≡ false = let positive = h.0 in ground arith in
      (λ i. if differs i then strcmp_eq cs ds else some false)
      ∙ ap (λ m. some (same_text m (d ∷ ds))) (c_string_end c cs n e ends)
  | inr plain ↦
      let (m, read, whole) = c_string_cases c cs n e plain in
      both (c == d) (strcmp_eq cs ds) (same_text m ds) (strcmp_eq_lem cs ds m read h.1)
      ∙ ap (λ l. some (same_text l (d ∷ ds))) whole
]
  where
    both :
        (b : Bool) (o : Option Bool) (r : Bool)
        → o ≡ some r
        → (if b then o else some false) ≡ some (b && r)
    both true o r e = e
    both false o r e = refl
