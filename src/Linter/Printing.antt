-- ===== src/Linter/Printing.antt =====
-- Which errors are printed, and that they are the ones counted.
use cs.Base.{
  ℕ, ◌+◌, ◌≡◌, ◌∙◌, refl, sym, Bool, true, false, not, ◌&&◌, Bool-cases, inl, inr, Option, none,
  some, List, [], ◌∷◌, ◌++◌, map, Text, codes, starts_with, drop, leb, All, arith, length,
  if◌then◌else◌,
}
use mathlib.Core.List.{append_assoc, append-nil}
use cs.CppLintState.{increment_error_count}
use cs.CppLintState.Filters.{IsSigned}
use cs.Nolint.{Report, is_error_suppressed_by_nolint}
use cs.Linter.{Linter, apply_filters, should_print_error, error_line, error}

-- The last filter of the list that speaks of the category.
abbrev pub last_applicable : Text → List Text → Option Text
last_applicable category [] = none
last_applicable category (f ∷ fs) = elim (last_applicable category fs) [
  | some g ↦ some g
  | none ↦ if starts_with category (drop 1 f) then some f else none
]

abbrev pub switched_off : Option Text → Bool → Bool
switched_off none before = before
switched_off (some f) before = starts_with f (codes "-")

apply_filters_last :
    (category : Text) (fs : List Text) (before : Bool)
    → All IsSigned fs
    → apply_filters category fs before ≡ some (switched_off (last_applicable category fs) before)
unfolding apply_filters
apply_filters_last category [] before h = refl
apply_filters_last category (f ∷ fs) before h = ground (
  arith,
  h.0,
  apply_filters_last category fs true h.1,
  apply_filters_last category fs false h.1,
  apply_filters_last category fs before h.1,
)

-- If every filter has a sign, an error is printed exactly if no comment suppresses it, it is at
-- least as certain as the verbosity asks, and the last filter that speaks of its category, if
-- there is one, does not begin with a minus sign.
pub should_print_error_iff :
    (category : Text) (confidence linenum : ℕ) (m : Linter)
    → All IsSigned m.cpplint_state.filters
    → should_print_error category confidence linenum m
      ≡ some (
          not (is_error_suppressed_by_nolint category linenum m.suppressions)
          && (leb m.cpplint_state.verbose_level confidence
              && not (switched_off (last_applicable category m.cpplint_state.filters) false)))
unfolding should_print_error
should_print_error_iff category confidence linenum m h =
    ground (arith, apply_filters_last category m.cpplint_state.filters false h)

-- A check hands its errors over one after the other.
unfoldable pub errors : Text → List Report → Linter → Option Linter
errors filename [] m = some m
errors filename (r ∷ rs) m = elim (error filename r m) [
  | none ↦ none
  | some m' ↦ errors filename rs m'
]

abbrev pub passes : Linter → Report → Bool
passes m r =
    not (is_error_suppressed_by_nolint r.category r.linenum m.suppressions)
    && (leb m.cpplint_state.verbose_level r.confidence
        && not (switched_off (last_applicable r.category m.cpplint_state.filters) false))

abbrev pub passing : Linter → List Report → List Report
passing m [] = []
passing m (r ∷ rs) = if passes m r then r ∷ passing m rs else passing m rs

-- The two states differ at most in the counts and the output.
record SameRules (a b : Linter) : Type 0 where
  filters_eq : a.cpplint_state.filters ≡ b.cpplint_state.filters
  verbose_eq : a.cpplint_state.verbose_level ≡ b.cpplint_state.verbose_level
  format_eq : a.cpplint_state.output_format ≡ b.cpplint_state.output_format
  suppressions_eq : a.suppressions ≡ b.suppressions

passes-eq : (a b : Linter) (r : Report) → SameRules a b → passes a r ≡ passes b r
passes-eq a b r h = rw (h.filters_eq, h.verbose_eq, h.suppressions_eq)

passing-eq : (a b : Linter) (rs : List Report) → SameRules a b → passing a rs ≡ passing b rs
passing-eq a b [] h = refl
passing-eq a b (r ∷ rs) h = rw (passes-eq a b r h, passing-eq a b rs h)

-- What one call does.
pub error_effect :
    (filename : Text) (r : Report) (m : Linter)
    → All IsSigned m.cpplint_state.filters
    → error filename r m
      ≡ some (
          if passes m r
          then record m {
            cpplint_state = increment_error_count r.category m.cpplint_state;
            stderr = m.stderr ++ error_line m.cpplint_state.output_format filename r ∷ [];
          }
          else m)
unfolding error
error_effect filename r m h =
    ground (arith, should_print_error_iff r.category r.confidence r.linenum m h)

abbrev pub lines_of : Linter → Text → List Report → List Text
lines_of m filename rs = map (error_line m.cpplint_state.output_format filename) (passing m rs)

-- What one call that prints leaves behind.
abbrev printed : Text → Report → Linter → Linter
printed filename r m = record m {
  cpplint_state = increment_error_count r.category m.cpplint_state;
  stderr = m.stderr ++ error_line m.cpplint_state.output_format filename r ∷ [];
}

passing-printed :
    (filename : Text) (r : Report) (m : Linter) (rs : List Report)
    → passing (printed filename r m) rs ≡ passing m rs
unfolding increment_error_count
passing-printed filename r m rs =
    passing-eq (printed filename r m) m rs
      (record { filters_eq = refl; verbose_eq = refl; format_eq = refl; suppressions_eq = refl })

-- If every filter has a sign, reporting errors one after the other never fails; it writes one line
-- for each error that passes the rules in force at the start, in their order, and no other, and
-- adds the number of those lines to the count of errors.
pub errors_effect :
    (filename : Text) (rs : List Report) (m : Linter)
    → All IsSigned m.cpplint_state.filters
    → (m' : Linter) × (errors filename rs m ≡ some m')
      × (m'.stderr ≡ m.stderr ++ lines_of m filename rs)
      × (m'.cpplint_state.error_count ≡ m.cpplint_state.error_count + length (passing m rs))
unfolding errors increment_error_count
errors_effect filename [] m h = (m, refl, sym (append-nil m.stderr), omega arith)
errors_effect filename (r ∷ rs) m h = elim (Bool-cases (passes m r)) [
  | inl on ↦
      let (m', e, out, n) = errors_effect filename rs (printed filename r m) h in
      let same = passing-printed filename r m rs in
      (
        m',
        rw (error_effect filename r m h, errors) (rw on e),
        rw on (rw same at out ∙ append_assoc m.stderr _ _),
        rw on (omega (arith, rw same at n)),
      )
  | inr off ↦
      let (m', e, out, n) = errors_effect filename rs m h in
      (m', rw (error_effect filename r m h, errors) (rw off e), rw off out, rw off n)
]
