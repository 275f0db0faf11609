-- ===== src/Includes/Examples.antt =====
-- Runs of the checks of include lines, and the theorems about them at concrete inputs.
use cs.Base.{◌↔◌, ℕ, Bool, ◌≡◌, refl, true, false, some, List, [], ◌∷◌, Text, codes, text_eq, arith}
use cs.Re.{all_patterns}
use cs.Modules.{test_file_suffix}
use cs.Includes.OwnHeader.{
  check_header_file_included, is_test_file, header_file, all_includes, first_include, names_header,
  own_header_missing, IsExcused, check_header_file_included_iff,
}
use cs.Constants.{cpp_headers}
use cs.Paths.{all_paths}
use cs.IncludeState.{
  initial_section, cpp_sys_header, c_sys_header, likely_my_header, possible_my_header, other_header,
  IncludeState, find_header, find_in_lists, find_in_section, c_section, cpp_section,
}
use cs.Includes.{
  extension, drop_common_suffixes, has_suffix, drop_suffixes, classify_include, first_component,
  plain_include, include_pattern, base_name, split_name, check_header, check_include_line,
}
use cs.Includes.Lines.{IsChecked, check_header_effect, duplicate}
use cs.Includes.Later.{IsSound, check_include_line_effect}

abbrev whole_name : Text → Text
whole_name t = t

-- The examples of the documentation of `_ClassifyInclude`.
classified :
    (classify_include (codes "foo/foo.cc") (codes "stdio.h") true ≡ c_sys_header)
    × (classify_include (codes "foo/foo.cc") (codes "string") true ≡ cpp_sys_header)
    × (classify_include (codes "foo/foo.cc") (codes "foo/foo.h") false ≡ likely_my_header)
    × (classify_include (codes "foo/foo_unknown_extension.cc") (codes "bar/foo_other_ext.h") false
        ≡ possible_my_header)
    × (classify_include (codes "foo/foo.cc") (codes "foo/bar.h") false ≡ other_header)
unfolding classify_include first_component drop_common_suffixes drop_suffixes has_suffix all_paths
    all_patterns cpp_headers
classified = (refl, refl, refl, refl, refl)

abbrev program : List Text
program =
    codes "#include \"net/tcp.h\""
    ∷ codes "#include <string>"
    ∷ codes "# include \"net/tcp.h\"  "
    ∷ []

abbrev one_header : IncludeState
one_header = record {
  include_list = ((codes "net/tcp.h", 0) ∷ []) ∷ [];
  section = c_section;
  last_header = [];
}

found_line :
    ((t : IncludeState) × (check_include_line whole_name
          (codes "net/a.cc")
          program
          program
          2
          one_header
        ≡ some (t, duplicate (codes "net/a.cc") 2 (codes "net/tcp.h") 0 ∷ [])))
unfolding check_include_line check_header plain_include include_pattern find_header find_in_lists
    find_in_section all_patterns all_paths
found_line = (one_header, refl)

check_header_effect_example :
    IsChecked whole_name
      (codes "net/a.cc")
      1
      (codes "string")
      one_header
      (check_header whole_name (codes "net/a.cc") program 1 (codes "string") true one_header)
check_header_effect_example =
    check_header_effect whole_name (codes "net/a.cc") program 1 (codes "string") true one_header
      (omega arith) (ground arith)

check_include_line_effect_example :
    IsSound whole_name
      (check_include_line whole_name (codes "net/a.cc") program program 1 one_header)
      one_header
check_include_line_effect_example =
    check_include_line_effect whole_name (codes "net/a.cc") program program 1
      (codes "#include <string>") one_header refl (omega arith) (ground arith)

abbrev two_headers : IncludeState
two_headers = record {
  include_list = ((codes "net/tcp.h", 0) ∷ (codes "string", 1) ∷ []) ∷ [];
  section = cpp_section;
  last_header = codes "string";
}

abbrev kept : Text → Text
kept name = name

abbrev there : Text → Bool
there name = true

abbrev of_includes : List (Text × ℕ) → IncludeState
of_includes includes = record {
  include_list = includes ∷ [];
  section = initial_section;
  last_header = [];
}

check_header_file_included_iff_example :
    (check_header_file_included kept there
        (codes "net/a.cc")
        (of_includes ((codes "net/a.h", 3) ∷ []))
      ≡ [])
    ↔ IsExcused kept there (codes "net/a.cc") (of_includes ((codes "net/a.h", 3) ∷ []))
check_header_file_included_iff_example =
    check_header_file_included_iff kept there (codes "net/a.cc")
      (of_includes ((codes "net/a.h", 3) ∷ []))

unincluded :
    check_header_file_included kept there (codes "net/a.cc") (of_includes ((codes "b.h", 3) ∷ []))
    ≡ own_header_missing 3 (codes "net/a.cc") (codes "net/a.h") ∷ []
unfolding check_header_file_included is_test_file header_file all_includes first_include
    names_header test_file_suffix base_name extension split_name all_paths all_patterns
unincluded = refl
