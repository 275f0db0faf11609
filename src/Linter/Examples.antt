-- ===== src/Linter/Examples.antt =====
-- The printing of errors at concrete inputs.
use cs.Base.{
  ℕ, ◌≡◌, ◌+◌, ◌++◌, refl, true, false, List, [], ◌∷◌, some, none, Text, codes, All, length,
  all_helpers,
}
use cs.CppLintState.{CppLintState}
use cs.CppLintState.Filters.{IsSigned}
use cs.Nolint.{Report, is_error_suppressed_by_nolint}
use cs.Linter.{Linter, error_line, should_print_error}
use cs.Linter.Printing.{errors, passing, lines_of, should_print_error_iff, errors_effect}

abbrev state : CppLintState
state = record {
  verbose_level = 2;
  error_count = 0;
  filters = codes "-whitespace" ∷ codes "+whitespace/tab" ∷ [];
  filters_backup = [];
  counting = codes "detailed";
  errors_by_category = [];
  quiet = false;
  output_format = codes "eclipse";
}

abbrev linter : Linter
linter = record {
  cpplint_state = state;
  suppressions = record { lines = (none, 4 ∷ []) ∷ []; everywhere = [] };
  stderr = [];
}

linter-IsSigned : All IsSigned linter.cpplint_state.filters
unfolding all_helpers
linter-IsSigned = (refl, (refl, tt))

abbrev report : ℕ → Text → Report
report n category = record {
  linenum = n;
  category = category;
  confidence = 3;
  message = codes "bad";
}

abbrev reports : List Report
reports =
    report 4 (codes "whitespace/tab")
    ∷ report 5 (codes "whitespace/tab")
    ∷ report 6 (codes "whitespace/comma")
    ∷ report 7 (codes "build/include")
    ∷ []

should_print_error_iff_example : should_print_error (codes "whitespace/tab") 3 5 linter ≡ some true
unfolding all_helpers is_error_suppressed_by_nolint
should_print_error_iff_example =
    should_print_error_iff (codes "whitespace/tab") 3 5 linter linter-IsSigned

errors_effect_example :
    (m' : Linter) × (errors (codes "a.cc") reports linter ≡ some m')
    × (m'.stderr ≡ linter.stderr ++ lines_of linter (codes "a.cc") reports)
    × (m'.cpplint_state.error_count
        ≡ linter.cpplint_state.error_count + length (passing linter reports))
errors_effect_example = errors_effect (codes "a.cc") reports linter linter-IsSigned

printed_lines :
    lines_of linter (codes "a.cc") reports
    ≡ codes "a.cc:5: warning: bad  [whitespace/tab] [3]\n"
      ∷ codes "a.cc:7: warning: bad  [build/include] [3]\n"
      ∷ []
unfolding error_line all_helpers is_error_suppressed_by_nolint
printed_lines = refl
