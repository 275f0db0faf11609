-- ===== src/LineChecks/Features.antt =====
-- `FlagCxx11Features` and `FlagCxx14Features` of lab5/cpplint.py.
use cs.Base.{
  ℕ, Bool, not, ◌&&◌, Option, none, some, List, [], ◌∷◌, ◌++◌, Text, codes, contains, starts_with,
  text_eq, if◌then◌else◌,
}
use cs.Re.{Pattern, Found, lit, ◌⨟◌, some_of, group, boundary, matches}
use cs.Re.Short.{str, chr, char_in, char_not_in, blanks, blanks1, found, starts_at}
use cs.CleansedLines.{group_text}
use cs.Nolint.{Report}
use cs.LineChecks.{report, report_if}

-- `\s*#\s*include\s+[<"]([^<"]+)[">]`
unfoldable pub included : Pattern
included =
    blanks
    ⨟ chr b'#'
    ⨟ blanks
    ⨟ str "include"
    ⨟ blanks1
    ⨟ char_in "<\""
    ⨟ group 1 (some_of (char_not_in "<\""))
    ⨟ char_in "\">"

abbrev pub unapproved_headers : List Text
unapproved_headers =
    codes "cfenv"
    ∷ codes "condition_variable"
    ∷ codes "fenv.h"
    ∷ codes "future"
    ∷ codes "mutex"
    ∷ codes "thread"
    ∷ codes "chrono"
    ∷ codes "ratio"
    ∷ codes "regex"
    ∷ codes "system_error"
    ∷ []

abbrev pub report_headers : ℕ → Option Found → List Report
report_headers linenum none = []
report_headers linenum (some include) =
    let name = group_text include 1 in
    report_if (starts_with name (codes "tr1/")) (
      report linenum "build/c++tr1" 5
        (codes "C++ TR1 headers such as <" ++ name ++ codes "> are unapproved."))
    ++ report_if (contains unapproved_headers name) (
        report linenum "build/c++11" 5
          (codes "<" ++ name ++ codes "> is an unapproved C++11 header."))

-- `\s*#` and `\s*#\s*define\b`: a directive that is no macro's definition.
unfoldable pub is_other_directive : Text → Bool
is_other_directive line =
    starts_at (blanks ⨟ chr b'#') line
    && not (starts_at (blanks ⨟ chr b'#' ⨟ blanks ⨟ str "define" ⨟ boundary) line)

abbrev pub top_names : List Text
top_names = codes "alignment_of" ∷ codes "aligned_union" ∷ []

-- `\bstd::%s\b`
abbrev pub std_name : Text → Pattern
std_name top_name = boundary ⨟ str "std::" ⨟ lit top_name ⨟ boundary

unfoldable pub report_names : List Text → ℕ → Text → List Report
report_names [] linenum line = []
report_names (top_name ∷ rest) linenum line =
    report_if (found (std_name top_name) line) (
      report linenum "build/c++11" 5 (
        codes "std::"
        ++ top_name
        ++ codes
            " is an unapproved C++11 class or function.  Send c-style an example of where it would make your code more readable, and they may let you use it."))
    ++ report_names rest linenum line

-- `FlagCxx11Features`
unfoldable pub flag_cxx11_features : ℕ → Text → List Report
unfolding included is_other_directive report_names
flag_cxx11_features linenum line =
    report_headers linenum (matches included line)
    ++ (if is_other_directive line then [] else report_names top_names linenum line)

abbrev report_cxx14 : ℕ → Option Found → List Report
report_cxx14 linenum none = []
report_cxx14 linenum (some include) =
    let name = group_text include 1 in
    report_if (contains (codes "scoped_allocator" ∷ codes "shared_mutex" ∷ []) name) (
      report linenum "build/c++14" 5
        (codes "<" ++ name ++ codes "> is an unapproved C++14 header."))

-- `FlagCxx14Features`
unfoldable pub flag_cxx14_features : ℕ → Text → List Report
unfolding included
flag_cxx14_features linenum line = report_cxx14 linenum (matches included line)
