-- ===== src/Linter.antt =====
-- The module state of lab5/cpplint.py (the global `_cpplint_state`, the suppressions and what has
-- been written to the standard error output), the functions that wrap it, and `Error`.
pub mod Printing
mod Examples
use cs.Base.{
  ℕ, Bool, true, false, Option, none, some, List, [], ◌∷◌, ◌++◌, Text, codes, text_eq, ◌==◌,
  starts_with, drop, show, ltb, if◌then◌else◌,
}
use cs.CppLintState
use cs.CppLintState.{CppLintState}
use cs.Nolint.{Suppressions, Report, is_error_suppressed_by_nolint}

pub record Linter : Type 0 where
  pub cpplint_state : CppLintState
  pub suppressions : Suppressions
  pub stderr : List Text

abbrev with_state : Linter → CppLintState → Linter
with_state m s = record m { cpplint_state = s }

unfoldable pub output_format : Linter → Text
output_format m = m.cpplint_state.output_format

unfoldable pub set_output_format : Text → Linter → Linter
set_output_format f m = with_state m (CppLintState.set_output_format f m.cpplint_state)

unfoldable pub quiet : Linter → Bool
quiet m = m.cpplint_state.quiet

unfoldable pub set_quiet : Bool → Linter → Bool × Linter
set_quiet q m = let (last, s) = CppLintState.set_quiet q m.cpplint_state in (last, with_state m s)

unfoldable pub verbose_level : Linter → ℕ
verbose_level m = m.cpplint_state.verbose_level

unfoldable pub set_verbose_level : ℕ → Linter → ℕ × Linter
set_verbose_level level m =
    let (last, s) = CppLintState.set_verbose_level level m.cpplint_state in (last, with_state m s)

unfoldable pub set_counting_style : Text → Linter → Linter
set_counting_style level m = with_state m (CppLintState.set_counting_style level m.cpplint_state)

unfoldable pub filters : Linter → List Text
filters m = m.cpplint_state.filters

unfoldable pub set_filters : Text → Linter → Option Text × Linter
set_filters f m =
    let (raised, s) = CppLintState.set_filters f m.cpplint_state in (raised, with_state m s)

unfoldable pub add_filters : Text → Linter → Option Text × Linter
add_filters f m =
    let (raised, s) = CppLintState.add_filters f m.cpplint_state in (raised, with_state m s)

unfoldable pub backup_filters : Linter → Linter
backup_filters m = with_state m (CppLintState.backup_filters m.cpplint_state)

unfoldable pub restore_filters : Linter → Linter
restore_filters m = with_state m (CppLintState.restore_filters m.cpplint_state)

-- One round of the loop over the filters: the new `is_filtered`, `none` for the AssertionError.
unfoldable pub apply_filter : Text → Text → Bool → Option Bool
apply_filter category one_filter is_filtered =
    if starts_with one_filter (codes "-")
    then some (if starts_with category (drop 1 one_filter) then true else is_filtered)
    else if starts_with one_filter (codes "+")
    then some (if starts_with category (drop 1 one_filter) then false else is_filtered)
    else none

unfoldable pub apply_filters : Text → List Text → Bool → Option Bool
unfolding apply_filter
apply_filters category [] is_filtered = some is_filtered
apply_filters category (one_filter ∷ rest) is_filtered =
    elim (apply_filter category one_filter is_filtered) [
      | none ↦ none
      | some b ↦ apply_filters category rest b
    ]

abbrev negated : Option Bool → Option Bool
negated none = none
negated (some true) = some false
negated (some false) = some true

-- `_ShouldPrintError`, `none` for the AssertionError on a filter with no sign.
unfoldable pub should_print_error : Text → ℕ → ℕ → Linter → Option Bool
unfolding apply_filters filters
should_print_error category confidence linenum m =
    if is_error_suppressed_by_nolint category linenum m.suppressions
    then some false
    else if ltb confidence m.cpplint_state.verbose_level
    then some false
    else negated (apply_filters category (filters m) false)

-- The line that `Error` writes, in each output format.
unfoldable pub error_line : Text → Text → Report → Text
error_line format filename r =
    let line = show r.linenum in
    let level = show r.confidence in
    if format == codes "vs7"
    then filename
      ++ (codes "("
          ++ (line
              ++ (codes "): error cpplint: ["
                  ++ (r.category
                      ++ (codes "] " ++ (r.message ++ (codes " [" ++ (level ++ codes "]\n"))))))))
    else if format == codes "eclipse"
    then filename
      ++ (codes ":"
          ++ (line
              ++ (codes ": warning: "
                  ++ (r.message
                      ++ (codes "  ["
                          ++ (r.category ++ (codes "] [" ++ (level ++ codes "]\n"))))))))
    else filename
      ++ (codes ":"
          ++ (line
              ++ (codes ":  "
                  ++ (r.message
                      ++ (codes "  ["
                          ++ (r.category ++ (codes "] [" ++ (level ++ codes "]\n"))))))))

-- `Error`, `none` for the AssertionError of `_ShouldPrintError`.
unfoldable pub error : Text → Report → Linter → Option Linter
error filename r m = elim (should_print_error r.category r.confidence r.linenum m) [
  | none ↦ none
  | some true ↦ some (record m {
    cpplint_state = CppLintState.increment_error_count r.category m.cpplint_state;
    stderr = m.stderr ++ error_line m.cpplint_state.output_format filename r ∷ [];
  })
  | some false ↦ some m
]
