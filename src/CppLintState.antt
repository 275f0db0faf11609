-- ===== src/CppLintState.antt =====
-- `_CppLintState` of lab5/cpplint.py: the filters, the verbosity and the counts of errors.
pub mod Filters
pub mod Counts
mod Examples
use cs.Base.{
  ℕ, suc, ◌+◌, Bool, true, false, not, ◌||◌, Option, none, some, List, [], ◌∷◌, ◌++◌, map, Text,
  codes, contains, text_eq, ◌==◌, starts_with, split, strip, show, update, if◌then◌else◌,
}
use cs.Constants.{default_filters}

pub record CppLintState : Type 0 where
  pub verbose_level : ℕ
  pub error_count : ℕ
  pub filters : List Text
  pub filters_backup : List Text
  pub counting : Text
  pub errors_by_category : List (Text × ℕ)
  pub quiet : Bool
  pub output_format : Text

-- `__init__`
unfoldable pub initial : CppLintState
initial = record {
  verbose_level = 1;
  error_count = 0;
  filters = default_filters;
  filters_backup = default_filters;
  counting = codes "total";
  errors_by_category = [];
  quiet = false;
  output_format = codes "emacs";
}

unfoldable pub set_output_format : Text → CppLintState → CppLintState
set_output_format output_format s = record s { output_format = output_format }

-- `SetQuiet` and `SetVerboseLevel` return the setting that was replaced.
unfoldable pub set_quiet : Bool → CppLintState → Bool × CppLintState
set_quiet quiet s = (s.quiet, record s { quiet = quiet })

unfoldable pub set_verbose_level : ℕ → CppLintState → ℕ × CppLintState
set_verbose_level level s = (s.verbose_level, record s { verbose_level = level })

unfoldable pub set_counting_style : Text → CppLintState → CppLintState
set_counting_style counting_style s = record s { counting = counting_style }

-- The filters of a comma-separated list, without white space around them and without the empty
-- ones.
unfoldable pub clean_filters : List Text → List Text
clean_filters [] = []
clean_filters (filt ∷ rest) =
    let others = clean_filters rest in if strip filt == [] then others else strip filt ∷ others

abbrev pub is_signed : Text → Bool
is_signed filt = starts_with filt (codes "+") || starts_with filt (codes "-")

unfoldable pub first_unsigned : List Text → Option Text
first_unsigned [] = none
first_unsigned (filt ∷ rest) = elim (is_signed filt) [
  | true ↦ first_unsigned rest
  | false ↦ some filt
]

abbrev pub bad_filter : Text → Text
bad_filter filt =
    codes "Every filter in --filters must start with + or - (" ++ (filt ++ codes " does not)")

-- The ValueError for the first filter without a sign, if there is one.
abbrev pub value_error : Option Text → Option Text
value_error none = none
value_error (some filt) = some (bad_filter filt)

-- `AddFilters`: the message of the ValueError, if it is raised, and the state, to which the
-- filters have been added in either case.
unfoldable pub add_filters : Text → CppLintState → Option Text × CppLintState
add_filters filters s =
    let added = s.filters ++ clean_filters (split b',' filters) in
    (value_error (first_unsigned added), record s { filters = added })

-- `SetFilters`
unfoldable pub set_filters : Text → CppLintState → Option Text × CppLintState
unfolding add_filters
set_filters filters s = add_filters filters (record s { filters = default_filters })

unfoldable pub backup_filters : CppLintState → CppLintState
backup_filters s = record s { filters_backup = s.filters }

unfoldable pub restore_filters : CppLintState → CppLintState
restore_filters s = record s { filters = s.filters_backup }

unfoldable pub reset_error_counts : CppLintState → CppLintState
reset_error_counts s = record s { error_count = 0; errors_by_category = [] }

abbrev head_or_nil : List Text → Text
head_or_nil [] = []
head_or_nil (t ∷ ts) = t

-- `category.split('/')[0]`
unfoldable pub top_level : Text → Text
top_level category = head_or_nil (split b'/' category)

abbrev pub is_counting : Text → Bool
is_counting counting = contains (codes "toplevel" ∷ codes "detailed" ∷ []) counting

-- The key under which an error is counted.
abbrev pub count_key : Text → Text → Text
count_key counting category =
    if not (counting == codes "detailed") then top_level category else category

-- `IncrementErrorCount`
unfoldable pub increment_error_count : Text → CppLintState → CppLintState
increment_error_count category s = record s {
  error_count = s.error_count + 1;
  errors_by_category =
      if is_counting s.counting
      then update 0 (count_key s.counting category) suc s.errors_by_category
      else s.errors_by_category;
}

-- `PrintErrorCounts`: the lines for the standard error output, and the one for the standard
-- output.
unfoldable pub print_error_counts : CppLintState → List Text × Text
print_error_counts s = (
  map
      (λ (category, count).
        codes "Category '"
        ++ (category ++ (codes "' errors found: " ++ (show count ++ codes "\n"))))
      s.errors_by_category,
  codes "Total errors found: " ++ (show s.error_count ++ codes "\n"),
)
