-- ===== src/Debug/Calls.antt =====
-- Files registered one after another, and the flag that a source file keeps.
use arm_reimplementation.Base.{
  ℕ, zero, suc, ◌+◌, ◌≤◌, ◌≡◌, ◌↔◌, ◌⊎◌, inl, inr, refl, ap, ◌∙◌, Bool, true, false, Option, none,
  some, List, [], ◌∷◌, length, All, arith, subst,
}
use arm_reimplementation.Debug.{Registry, add_debug_to, is_debugged, Cache, is_debugged_cached}
use arm_reimplementation.Debug.Order.{IsOrdered, Inserted, here, later, add_debug_to-IsOrdered}
use arm_reimplementation.Debug.Lookup.{IsRegistered, is_debugged_iff}

-- Calls of `add_debug_to` for one name after another.
unfoldable pub add_all : List (List ℕ) → Registry → Option Registry
add_all [] files = some files
add_all (name ∷ names) files = elim (add_debug_to files name) [
  | none ↦ none
  | some files' ↦ add_all names files'
]

IsRegistered-front :
    (x file : List ℕ) (files : Registry)
    → IsRegistered x (file ∷ files)
    → (file ≡ x) ⊎ IsRegistered x files
unfolding IsRegistered
IsRegistered-front x file files (zero, inside, e) = inl e
IsRegistered-front x file files (suc k, inside, e) = inr (k, omega arith, e)

IsRegistered-here : (x file : List ℕ) (files : Registry) → file ≡ x → IsRegistered x (file ∷ files)
unfolding IsRegistered
IsRegistered-here x file files e = (0, omega arith, e)

IsRegistered-later :
    (x file : List ℕ) (files : Registry) → IsRegistered x files → IsRegistered x (file ∷ files)
unfolding IsRegistered
IsRegistered-later x file files (k, inside, e) = (suc k, omega arith, e)

IsRegistered-nil : (x : List ℕ) → ¬ IsRegistered x []
unfolding IsRegistered
IsRegistered-nil x (k, inside, e) = omega arith

Inserted-length :
    {name : List ℕ} {files out : Registry}
    → Inserted name files out
    → length out ≡ suc (length files)
Inserted-length here = refl
Inserted-length (later h) = ap suc (Inserted-length h)

-- What is registered after an insertion.
Inserted-out :
    {name : List ℕ} {files out : Registry} (x : List ℕ)
    → Inserted name files out
    → IsRegistered x out
    → (name ≡ x) ⊎ IsRegistered x files
Inserted-out {name = name} {files = files} x here r = IsRegistered-front x name files r
Inserted-out x (later {file = file} {files = files} {out = out} h) r =
    elim (IsRegistered-front x file out r) [
      | inl e ↦ inr (IsRegistered-here x file files e)
      | inr behind ↦ elim (Inserted-out x h behind) [
        | inl e ↦ inl e
        | inr old ↦ inr (IsRegistered-later x file files old)
      ]
    ]

Inserted-new :
    {name : List ℕ} {files out : Registry} → Inserted name files out → IsRegistered name out
Inserted-new {name = name} {files = files} here = IsRegistered-here name name files refl
Inserted-new {name = name} (later {file = file} {out = out} h) =
    IsRegistered-later name file out (Inserted-new h)

Inserted-old :
    {name : List ℕ} {files out : Registry} (x : List ℕ)
    → Inserted name files out
    → IsRegistered x files
    → IsRegistered x out
Inserted-old {name = name} {files = files} x here r = IsRegistered-later x name files r
Inserted-old x (later {file = file} {files = files} {out = out} h) r =
    elim (IsRegistered-front x file files r) [
      | inl e ↦ IsRegistered-here x file out e
      | inr behind ↦ IsRegistered-later x file out (Inserted-old x h behind)
    ]

add_all_from :
    (names : List (List ℕ)) (files : Registry)
    → IsOrdered files
    → length files + length names ≤ 64
    → (out : Registry) × (add_all names files ≡ some out)
      × IsOrdered out
      × ((x : List ℕ) → IsRegistered x out ↔ (IsRegistered x files ⊎ IsRegistered x names))
unfolding add_all
add_all_from [] files ordered room = (
  files,
  refl,
  ordered,
  (λ x. ((λ r. inl r), (λ e. elim e [ inl r ↦ r | inr r ↦ absurd (IsRegistered-nil x r) ]))),
)
add_all_from (name ∷ names) files ordered room =
    let (next, added, inserted, still) = add_debug_to-IsOrdered files name ordered (omega arith) in
    let (out, all_added, at_end, members) =
      add_all_from names next still (omega (arith, Inserted-length inserted)) in
    (
      out,
      (λ i. elim (added i) [ none ↦ none | some files' ↦ add_all names files' ]) ∙ all_added,
      at_end,
      (λ x. (
        (λ r. elim ((members x).0 r) [
          | inl there ↦ elim (Inserted-out x inserted there) [
            | inl e ↦ inr (IsRegistered-here x name names e)
            | inr old ↦ inl old
          ]
          | inr behind ↦ inr (IsRegistered-later x name names behind)
        ]),
        (λ e. (members x).1 (elim e as (λ _. IsRegistered x next ⊎ IsRegistered x names) [
          | inl old ↦ inl (Inserted-old x inserted old)
          | inr given ↦ elim (IsRegistered-front x name names given) [
            | inl same ↦ inl (subst (λ y. IsRegistered y next) same (Inserted-new inserted))
            | inr behind ↦ inr behind
          ]
        ])),
      )),
    )

-- As many as 64 names can be registered one after another, in any order, and then `__is_debugged`
-- answers yes for just those: the sorted array does what a set of names does.
pub add_all-is_debugged :
    (names : List (List ℕ))
    → length names ≤ 64
    → (files : Registry) × (add_all names [] ≡ some files)
      × ((x : List ℕ) → (is_debugged files x ≡ true) ↔ IsRegistered x names)
unfolding IsOrdered
add_all-is_debugged names room =
    let (files, added, ordered, members) = add_all_from names [] tt (omega arith) in
    (
      files,
      added,
      (λ x. (
        (λ e. elim ((members x).0 ((is_debugged_iff files x ordered).0 e)) [
          | inl r ↦ absurd (IsRegistered-nil x r)
          | inr r ↦ r
        ]),
        (λ r. (is_debugged_iff files x ordered).1 ((members x).1 (inr r))),
      )),
    )

-- The answers of the macro of one source file, with the registry as it is at each use.
unfoldable pub cached_answers : Cache → List Registry → List ℕ → List Bool
cached_answers cache [] name = []
cached_answers cache (files ∷ later_files) name =
    let asked = is_debugged_cached cache files name in
    asked.0 ∷ cached_answers asked.1 later_files name

settled :
    (b : Bool) (states : List Registry) (name : List ℕ)
    → All (λ answer. answer ≡ b) (cached_answers (record { first = false; result = b }) states name)
unfolding cached_answers is_debugged_cached
settled b [] name = tt
settled b (files ∷ states) name = (refl, settled b states name)

-- With the cached flag, every use of the macro in a source file answers what the first one found,
-- whichever files are registered later.
pub cached_answers_first :
    (files : Registry) (states : List Registry) (name : List ℕ) (result : Bool)
    → All
        (λ answer. answer ≡ is_debugged files name)
        (cached_answers (record { first = true; result = result }) (files ∷ states) name)
unfolding cached_answers is_debugged_cached
cached_answers_first files states name result = (refl, settled (is_debugged files name) states name)
