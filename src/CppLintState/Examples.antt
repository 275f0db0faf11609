-- ===== src/CppLintState/Examples.antt =====
-- Runs of the module-wide state, and the theorems about it at concrete inputs.
use cs.Constants.{default_filters}
use cs.Base.{
  all_helpers, ◌≡◌, ◌↔◌, refl, false, List, [], ◌∷◌, ◌++◌, some, none, Text, codes, All, split,
  nat_eq, text_eq,
}
use cs.CppLintState.{CppLintState, initial, add_filters, clean_filters, first_unsigned}
use cs.CppLintState.Filters.{IsSigned, Change, add, put, add_filters_effect}

abbrev filters : Text
filters = codes "-whitespace, ,+whitespace/tab"

add_filters_effect_example :
    (((add_filters filters initial).0 ≡ none)
      ↔ All IsSigned (initial.filters ++ clean_filters (split b',' filters)))
    × ((add_filters filters initial).1
        ≡ record initial { filters = initial.filters ++ clean_filters (split b',' filters) })
add_filters_effect_example = add_filters_effect filters initial

refused :
    (add_filters (codes "tab") initial).0
    ≡ some (codes "Every filter in --filters must start with + or - (tab does not)")
unfolding add_filters initial first_unsigned clean_filters default_filters all_helpers
refused = refl

cleaned : clean_filters (split b',' filters) ≡ codes "-whitespace" ∷ codes "+whitespace/tab" ∷ []
unfolding clean_filters all_helpers
cleaned = refl

abbrev changes : List Change
changes = add filters ∷ put (codes "bad") ∷ []

abbrev detailed : CppLintState
detailed = record {
  verbose_level = 1;
  error_count = 7;
  filters = [];
  filters_backup = [];
  counting = codes "toplevel";
  errors_by_category = [];
  quiet = false;
  output_format = codes "emacs";
}

abbrev some_errors : List Text
some_errors = codes "build/include" ∷ codes "whitespace/tab" ∷ codes "build/class" ∷ []
