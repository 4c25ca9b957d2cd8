-- ===== src/Debug/Lookup.antt =====
-- The binary search of `__is_debugged` against membership.
use arm_reimplementation.Base.{
  ℕ, zero, suc, ◌+◌, ◌-◌, ◌/◌, ◌≤◌, ◌<◌, ◌≡◌, ◌≢◌, refl, sym, ap, ◌∙◌, Bool, true, false, List, [],
  ◌∷◌, length, get_or, arith, All, inl, inr, ◌⊎◌, ◌↔◌,
}
use arm_reimplementation.Debug.{
  Sign, below, equal, above, strcmp, Registry, search_between, is_debugged,
}
use arm_reimplementation.Debug.Order.{IsOrdered, strcmp_refl, strcmp_equal, strcmp_flip}

-- A file stands at an index in use.
unfoldable pub IsRegistered : List ℕ → Registry → Type 0
IsRegistered name files = (k : ℕ) × (k < length files) × (get_or files k [] ≡ name)

All_at :
    (P : List ℕ → Type 0) (files : Registry) (k : ℕ)
    → All P files
    → k < length files
    → P (get_or files k [])
All_at P [] k h inside = absurd (omega arith)
All_at P (file ∷ files) zero h inside = h.0
All_at P (file ∷ files) (suc k) h inside = All_at P files k h.1 (omega arith)

ordered_later :
    (files : Registry) (i j : ℕ)
    → IsOrdered files
    → i < j
    → j < length files
    → strcmp (get_or files j []) (get_or files i []) ≢ below
unfolding IsOrdered
ordered_later [] i j h before inside = absurd (omega arith)
ordered_later (file ∷ files) i zero h before inside = absurd (omega arith)
ordered_later (file ∷ files) zero (suc j) h before inside =
    All_at (λ later. strcmp later file ≢ below) files j h.0 (omega arith)
ordered_later (file ∷ files) (suc i) (suc j) h before inside =
    ordered_later files i j h.1 (omega arith) (omega arith)

abbrev found : Sign → Bool
found below = false
found equal = true
found above = false

order_cases : (m n : ℕ) → (m ≤ n) ⊎ (n < m)
order_cases m n = ground arith

-- No file at or behind a name's place is below the name, and none at or before it is above.
module _ (files : Registry) (name : List ℕ) (m k : ℕ) (h : IsOrdered files) where
  not_below :
      m < length files → k ≤ m → get_or files k [] ≡ name → strcmp (get_or files m []) name ≢ below
  not_below inside early at e = elim (order_cases m k) [
    | inl back ↦
        let same : k ≡ m = omega arith in
        let equal_names = ap (λ j. get_or files j []) (sym same) ∙ at in
        cc (equal_names, strcmp_refl name)
    | inr front ↦
        ordered_later files k m h front inside (ap (λ n. strcmp (get_or files m []) n) at ∙ e)
  ]

  not_above :
      m ≤ k → k < length files → get_or files k [] ≡ name → strcmp (get_or files m []) name ≢ above
  not_above early inside at e = elim (order_cases k m) [
    | inl back ↦
        let same : k ≡ m = omega arith in
        let equal_names = ap (λ j. get_or files j []) (sym same) ∙ at in
        cc (equal_names, strcmp_refl name)
    | inr front ↦
        ordered_later files m k h front inside
          (ap (λ n. strcmp n (get_or files m [])) at ∙ strcmp_flip (get_or files m []) name e)
  ]

out_of_rounds :
    (files : Registry) (name : List ℕ) (from above_to : ℕ)
    → search_between 0 files name from above_to ≡ false
unfolding search_between
out_of_rounds files name from above_to = refl

sizes : (from above_to : ℕ) → (above_to ≤ from) ⊎ ((from + 1 ≡ above_to) ⊎ (from + 1 < above_to))
sizes from above_to = ground arith

-- A round's three cases.
module _ (fuel : ℕ) (files : Registry) (name : List ℕ) (from above_to : ℕ) where
  round_last :
      from + 1 ≡ above_to
      → search_between (suc fuel) files name from above_to
        ≡ found (strcmp (get_or files from []) name)
  unfolding search_between
  round_last e = ground arith

  round_none : above_to ≤ from → search_between (suc fuel) files name from above_to ≡ false
  unfolding search_between
  round_none e = ground arith

  round_several :
      from + 1 < above_to
      → search_between (suc fuel) files name from above_to
        ≡ elim (strcmp (get_or files ((from + (above_to - 1)) / 2) []) name) [
          | below ↦ search_between fuel files name ((from + (above_to - 1)) / 2 + 1) above_to
          | above ↦ search_between fuel files name from ((from + (above_to - 1)) / 2)
          | equal ↦ true
        ]
  unfolding search_between
  round_several e = ground arith

found-equal : (s : Sign) → found s ≡ true → s ≡ equal
found-equal below e = ground arith
found-equal equal e = refl
found-equal above e = ground arith

-- What the search finds is there.
search_sound :
    (fuel : ℕ) (files : Registry) (name : List ℕ) (from above_to : ℕ)
    → above_to ≤ length files
    → search_between fuel files name from above_to ≡ true
    → (k : ℕ) × (k < length files) × (strcmp (get_or files k []) name ≡ equal)
search_sound zero files name from above_to inside e = cc (out_of_rounds files name from above_to)
search_sound (suc fuel) files name from above_to inside e = elim (sizes from above_to) [
  | inl none ↦ cc (round_none fuel files name from above_to none)
  | inr (inl one) ↦
      (from, omega arith, found-equal _ (sym (round_last fuel files name from above_to one) ∙ e))
  | inr (inr more) ↦
      elim (strcmp (get_or files middle []) name)
          as (λ s.
            strcmp (get_or files middle []) name ≡ s
            → (k : ℕ) × (k < length files) × (strcmp (get_or files k []) name ≡ equal)) [
              | below ↦ λ at. search_sound fuel files name (middle + 1) above_to inside (
                  (λ i. next (sym at i))
                  ∙ sym (round_several fuel files name from above_to more)
                  ∙ e)
              | equal ↦ λ at. (middle, omega arith, at)
              | above ↦ λ at. search_sound fuel files name from middle (omega arith) (
                  (λ i. next (sym at i))
                  ∙ sym (round_several fuel files name from above_to more)
                  ∙ e)
            ]
        refl
]
  where
    middle : ℕ
    middle = (from + (above_to - 1)) / 2

    next : Sign → Bool
    next s = elim s [
      | below ↦ search_between fuel files name (middle + 1) above_to
      | above ↦ search_between fuel files name from middle
      | equal ↦ true
    ]

-- What is there between the bounds is found.
search_complete :
    (fuel : ℕ) (files : Registry) (name : List ℕ) (from above_to k : ℕ)
    → IsOrdered files
    → above_to ≤ length files
    → from ≤ k
    → k < above_to
    → above_to < from + fuel
    → get_or files k [] ≡ name
    → search_between fuel files name from above_to ≡ true
search_complete zero files name from above_to k h inside low high enough at = absurd (omega arith)
search_complete (suc fuel) files name from above_to k h inside low high enough at =
    elim (sizes from above_to) [
      | inl none ↦ absurd (omega arith)
      | inr (inl one) ↦
          let same : k ≡ from = omega arith in
          round_last fuel files name from above_to one
          ∙ ap (λ j. found (strcmp (get_or files j []) name)) (sym same)
          ∙ ap (λ n. found (strcmp n name)) at
          ∙ ap found (strcmp_refl name)
      | inr (inr more) ↦
          elim (strcmp (get_or files middle []) name)
              as (λ s.
                strcmp (get_or files middle []) name ≡ s
                → search_between (suc fuel) files name from above_to ≡ true) [
                  | below ↦ λ e.
                      round_several fuel files name from above_to more
                      ∙ (λ i. next (e i))
                      ∙ search_complete fuel files name (middle + 1) above_to k h inside
                          (above_middle e) high (omega arith) at
                  | equal ↦
                      λ e. round_several fuel files name from above_to more ∙ (λ i. next (e i))
                  | above ↦ λ e.
                      round_several fuel files name from above_to more
                      ∙ (λ i. next (e i))
                      ∙ search_complete fuel files name from middle k h (omega arith) low
                          (below_middle e) (omega arith) at
                ]
            refl
    ]
  where
    middle : ℕ
    middle = (from + (above_to - 1)) / 2

    next : Sign → Bool
    next s = elim s [
      | below ↦ search_between fuel files name (middle + 1) above_to
      | above ↦ search_between fuel files name from middle
      | equal ↦ true
    ]

    above_middle : strcmp (get_or files middle []) name ≡ below → middle + 1 ≤ k
    above_middle e = elim (order_cases k middle) [
      | inr later ↦ omega arith
      | inl early ↦ absurd (not_below files name middle k h (omega arith) early at e)
    ]

    below_middle : strcmp (get_or files middle []) name ≡ above → k < middle
    below_middle e = elim (order_cases middle k) [
      | inr later ↦ later
      | inl early ↦ absurd (not_above files name middle k h early (omega arith) at e)
    ]

-- On files in order, a name is found exactly where it is registered; the rounds allowed are enough.
pub is_debugged_iff :
    (files : Registry) (name : List ℕ)
    → IsOrdered files
    → (is_debugged files name ≡ true) ↔ IsRegistered name files
unfolding is_debugged IsRegistered
is_debugged_iff files name h = (
  (λ e.
      let (k, inside, same) =
        search_sound (length files + 1) files name 0 (length files) (omega arith) e in
      (k, inside, strcmp_equal (get_or files k []) name same)),
  (λ r.
      let (k, inside, same) = r in
      search_complete (length files + 1) files name 0 (length files) k h (omega arith) (omega arith)
        inside (omega arith) same),
)
