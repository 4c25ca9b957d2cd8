-- ===== src/Examples/Names.antt =====
-- The files that are debugged.
use arm_reimplementation.Base.{
  ℕ, ◌<◌, ◌≡◌, ◌↔◌, true, none, some, List, [], ◌∷◌, false, All, replicate, length-replicate,
  length, get_or, ◌≢◌, codes, arith,
}
use arm_reimplementation.Debug.{Registry, below, strcmp, add_debug_to, is_debugged}
use arm_reimplementation.Debug.Order.{IsOrdered, Inserted, add_debug_to-IsOrdered}
use arm_reimplementation.Debug.Overflow.{add_debug_to_overruns}
use arm_reimplementation.Debug.Lookup.{IsRegistered, is_debugged_iff}
use arm_reimplementation.Debug.Calls.{
  add_all, add_all-is_debugged, cached_answers, cached_answers_first,
}

abbrev two_files : Registry
two_files = codes "debug.c" ∷ codes "util.c" ∷ []

two_files-IsOrdered : IsOrdered two_files
unfolding IsOrdered strcmp
two_files-IsOrdered = (((λ e. cc), tt), (tt, tt))

add_debug_to-IsOrdered_example :
    (out : Registry) × (add_debug_to two_files (codes "scanner.c") ≡ some out)
    × Inserted (codes "scanner.c") two_files out
    × IsOrdered out
add_debug_to-IsOrdered_example =
    add_debug_to-IsOrdered two_files (codes "scanner.c") two_files-IsOrdered (omega arith)

is_debugged_iff_example :
    (is_debugged two_files (codes "util.c") ≡ true) ↔ IsRegistered (codes "util.c") two_files
is_debugged_iff_example = is_debugged_iff two_files (codes "util.c") two_files-IsOrdered

-- 64 files named `b`.
abbrev full : Registry
full = replicate 64 (b'b' ∷ [])

add_debug_to_overruns_example :
    (add_debug_to full (b'a' ∷ []) ≡ none)
    ↔ ((length full ≡ 64) × ((k : ℕ) × (k < 64) × (strcmp (get_or full k []) (b'a' ∷ []) ≢ below)))
add_debug_to_overruns_example =
    add_debug_to_overruns full (b'a' ∷ [])
      (omega (arith, length-replicate {A = List ℕ} 64 (b'b' ∷ [])))

abbrev three_names : List (List ℕ)
three_names = codes "util.c" ∷ codes "debug.c" ∷ codes "scanner.c" ∷ []

add_all-is_debugged_example :
    (files : Registry) × (add_all three_names [] ≡ some files)
    × ((x : List ℕ) → (is_debugged files x ≡ true) ↔ IsRegistered x three_names)
add_all-is_debugged_example = add_all-is_debugged three_names (omega arith)

-- The source `util.c`, used before and behind its registration.
cached_answers_first_example :
    All
      (λ answer. answer ≡ is_debugged [] (codes "util.c"))
      (cached_answers
        (record { first = true; result = false })
        ([] ∷ two_files ∷ [])
        (codes "util.c"))
cached_answers_first_example = cached_answers_first [] (two_files ∷ []) (codes "util.c") false
