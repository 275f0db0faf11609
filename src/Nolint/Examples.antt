-- ===== src/Nolint/Examples.antt =====
-- NOLINT comments, and the theorems about them at concrete inputs.
use cs.Base.{◌≡◌, refl, true, ◌||◌, List, [], ◌∷◌, Text, codes, text_eq, nat_eq}
use cs.Re.{search_in}
use cs.Nolint.{
  all_nolint, Suppressions, nolint, parse_nolint_suppressions, process_global_suppressions,
  is_error_suppressed_by_nolint,
}
use cs.Nolint.Laws.{
  comment_covers, parse_nolint_suppressions_effect, process_global_suppressions_effect,
}

abbrev nothing : Suppressions
nothing = record { lines = []; everywhere = [] }

abbrev next_line : Text
next_line = codes "int x;  // NOLINTNEXTLINE(runtime/int)"

suppresses_next :
    is_error_suppressed_by_nolint
      (codes "runtime/int")
      8
      (parse_nolint_suppressions next_line 7 nothing).0
    ≡ true
unfolding is_error_suppressed_by_nolint all_nolint
suppresses_next = refl

unknown_category :
    (parse_nolint_suppressions (codes "x; // NOLINT(nope)") 7 nothing).1
    ≡ record {
      linenum = 7;
      category = codes "readability/nolint";
      confidence = 5;
      message = codes "Unknown NOLINT error category: nope";
    }
      ∷ []
unfolding all_nolint
unknown_category = refl

parse_nolint_suppressions_effect_example :
    is_error_suppressed_by_nolint
      (codes "runtime/int")
      8
      (parse_nolint_suppressions next_line 7 nothing).0
    ≡ (is_error_suppressed_by_nolint (codes "runtime/int") 8 nothing
        || comment_covers (search_in nolint next_line) 7 8 (codes "runtime/int"))
parse_nolint_suppressions_effect_example =
    parse_nolint_suppressions_effect next_line 7 8 nothing (codes "runtime/int")

abbrev c_file : List Text
c_file = codes "/* LINT_C_FILE */" ∷ codes "int x;" ∷ []

process_global_suppressions_effect_example :
    is_error_suppressed_by_nolint
      (codes "readability/casting")
      2
      (process_global_suppressions c_file nothing)
    ≡ true
unfolding is_error_suppressed_by_nolint all_nolint
process_global_suppressions_effect_example =
    process_global_suppressions_effect c_file 2 nothing (codes "readability/casting")
