-- ===== src/CppLintState/Counts.antt =====
-- The counts of errors.
use cs.Base.{
  ℕ, suc, ◌+◌, ◌≡◌, ap, ◌∙◌, refl, true, List, [], ◌∷◌, map, Text, text_eq, ◌==◌, arith, length,
  lookup_or, lookup_or-update, if◌then◌else◌,
}
use cs.CppLintState.{
  CppLintState, increment_error_count, reset_error_counts, is_counting, count_key,
}

-- The errors of these categories are reported, in turn.
unfoldable pub increment_all : List Text → CppLintState → CppLintState
increment_all [] s = s
increment_all (c ∷ cs) s = increment_all cs (increment_error_count c s)

abbrev pub occurrences : Text → List Text → ℕ
occurrences c [] = 0
occurrences c (d ∷ ds) = (if d == c then 1 else 0) + occurrences c ds

abbrev pub counts : CppLintState → Text → ℕ
counts s c = lookup_or 0 c s.errors_by_category

increment_counting :
    (c : Text) (s : CppLintState) → (increment_error_count c s).counting ≡ s.counting
unfolding increment_error_count
increment_counting c s = refl

counts-increment :
    (c d : Text) (s : CppLintState) (style : Text)
    → s.counting ≡ style
    → is_counting style ≡ true
    → counts (increment_error_count d s) c ≡ (if count_key style d == c then 1 else 0) + counts s c
unfolding increment_error_count
counts-increment c d s style e h = ground (
  arith,
  ap is_counting e,
  ap (λ t. count_key t d) e,
  lookup_or-update 0 (count_key s.counting d) c suc s.errors_by_category,
)

counts-increment_all :
    (cs : List Text) (s : CppLintState) (c style : Text)
    → s.counting ≡ style
    → is_counting style ≡ true
    → counts (increment_all cs s) c ≡ occurrences c (map (count_key style) cs) + counts s c
unfolding increment_all
counts-increment_all [] s c style e h = omega arith
counts-increment_all (d ∷ cs) s c style e h =
    let ih =
      counts-increment_all cs (increment_error_count d s) c style (increment_counting d s ∙ e) h in
    omega (arith, ih, counts-increment c d s style e h)

error_count-increment_all :
    (cs : List Text) (s : CppLintState)
    → (increment_all cs s).error_count ≡ length cs + s.error_count
unfolding increment_all increment_error_count
error_count-increment_all [] s = omega arith
error_count-increment_all (d ∷ cs) s =
    omega (arith, error_count-increment_all cs (increment_error_count d s))

-- After a reset, with a counting style by category, the errors reported are counted exactly: each
-- category (its part before the slash in the top-level style) as often as it was reported, and the
-- total is the number of reports.
pub increment_all-counts :
    (cs : List Text) (s : CppLintState)
    → is_counting s.counting ≡ true
    → let r = increment_all cs (reset_error_counts s) in
      ((c : Text) → counts r c ≡ occurrences c (map (count_key s.counting) cs))
      × (r.error_count ≡ length cs)
unfolding reset_error_counts lookup_or
increment_all-counts cs s h =
    let fresh = reset_error_counts s in
    (
      (λ c. omega (arith, counts-increment_all cs fresh c s.counting refl h)),
      omega (arith, error_count-increment_all cs fresh),
    )
