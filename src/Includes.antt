-- ===== src/Includes.antt =====
-- The `#include` lines of a file in lab5/cpplint.py: the names of files, the kind of a header, and
-- the checks of one line. `FileInfo.RepositoryName` looks for the top of the checkout in the file
-- system: it is the parameter `repository_name`.
pub mod Suffixes
pub mod Lines
pub mod Later
pub mod OwnHeader
mod Examples
use cs.Base.{
  ℕ, zero, suc, ◌+◌, ◌-◌, Bool, true, false, not, ◌&&◌, ◌||◌, Option, none, some, List, [], ◌∷◌,
  ◌++◌, Text, codes, contains, nat_beq, text_eq, ◌==◌, ltb, leb, length, get_elem?, take, drop,
  reversed, replace, ends_with, show, if◌then◌else◌,
}
use cs.Re.{
  Pattern, Found, lit, one, ◌⨟◌, ◌∣∣◌, many, some_of, group, space, any_char, line_start, line_end,
  group_of, matches, search_in,
}
use cs.Constants.{cpp_headers}
use cs.Nolint.{Report}
use cs.Paths.{split_path, dirname, splitext, normpath}
use cs.IncludeState.{
  HeaderType, c_sys_header, cpp_sys_header, likely_my_header, possible_my_header, other_header,
  IncludeState, find_header, add_include, set_last_header, canonicalize_alphabetical_order,
  is_in_alphabetical_order, check_next_include_order,
}

-- `_IsSourceExtension`
unfoldable pub is_source_extension : Text → Bool
is_source_extension s = contains (codes "c" ∷ codes "cc" ∷ codes "cpp" ∷ codes "cxx" ∷ []) s

-- `IsHeaderExtension`, over the set `_hpp_headers`.
unfoldable pub is_header_extension : List Text → Text → Bool
is_header_extension hpp_headers file_extension = contains hpp_headers file_extension

abbrev pub suffixes : List Text
suffixes =
    codes "test.cc"
    ∷ codes "regtest.cc"
    ∷ codes "unittest.cc"
    ∷ codes "inl.h"
    ∷ codes "impl.h"
    ∷ codes "internal.h"
    ∷ []

abbrev pub is_separator : ℕ → Bool
is_separator c = nat_beq c b'-' || nat_beq c b'_'

abbrev pub separator_at : Option ℕ → Bool
separator_at none = false
separator_at (some c) = is_separator c

-- The test of the loop: the name ends in a separator and the suffix. Its first clause, that the
-- name is longer than the suffix, holds where the character before the suffix is there.
unfoldable pub has_suffix : Text → Text → Bool
has_suffix filename suffix =
    ends_with filename suffix && separator_at (get_elem? (reversed filename) (length suffix))

unfoldable pub drop_suffixes : Text → List Text → Text
unfolding has_suffix
drop_suffixes filename [] = (splitext filename).0
drop_suffixes filename (suffix ∷ rest) = elim (has_suffix filename suffix) [
  | true ↦ take (length filename - (length suffix + 1)) filename
  | false ↦ drop_suffixes filename rest
]

-- `_DropCommonSuffixes`
unfoldable pub drop_common_suffixes : Text → Text
unfolding drop_suffixes
drop_common_suffixes filename = drop_suffixes filename suffixes

-- `_RE_FIRST_COMPONENT`: `^[^-_.]+`
unfoldable pub first_component : Pattern
first_component = line_start ⨟ some_of (one (λ c. not (is_separator c || nat_beq c b'.')))

abbrev pub whole_of : Option Found → Option Text
whole_of none = none
whole_of (some f) = some f.whole

abbrev same_component : Option Text → Option Text → Bool
same_component (some a) (some b) = a == b
same_component _ _ = false

-- `_ClassifyInclude`, for a file of this repository name.
unfoldable pub classify_include : Text → Text → Bool → HeaderType
classify_include repository_name include true =
    if contains cpp_headers include then cpp_sys_header else c_sys_header
classify_include repository_name include false =
    let (target_dir, target_base) = split_path (drop_common_suffixes repository_name) in
    let (include_dir, include_base) = split_path (drop_common_suffixes include) in
    if target_base == include_base
      && (include_dir == target_dir || include_dir == normpath (target_dir ++ codes "/../public"))
    then likely_my_header
    else if same_component (whole_of (matches first_component target_base))
        (whole_of (matches first_component include_base))
    then possible_my_header
    else other_header

-- `#include\s*"([^/]+\.h)"`
unfoldable pub plain_include : Pattern
plain_include =
    lit (codes "#include")
    ⨟ many space
    ⨟ lit (codes "\"")
    ⨟ group 1 (some_of (one (λ c. not (nat_beq c b'/'))) ⨟ lit (codes ".h"))
    ⨟ lit (codes "\"")

-- `_THIRD_PARTY_HEADERS_PATTERN`: `^(?:[^/]*[A-Z][^/]*\.h|lua\.h|lauxlib\.h|lualib\.h)$`
unfoldable pub third_party_headers_pattern : Pattern
third_party_headers_pattern =
    line_start
    ⨟ (many (one (λ c. not (nat_beq c b'/')))
          ⨟ one (λ c. leb b'A' c && leb c b'Z')
          ⨟ many (one (λ c. not (nat_beq c b'/')))
          ⨟ lit (codes ".h")
        ∣∣ lit (codes "lua.h")
        ∣∣ lit (codes "lauxlib.h")
        ∣∣ lit (codes "lualib.h"))
    ⨟ line_end

-- `_RE_PATTERN_INCLUDE`: `^\s*#\s*include\s*([<"])([^>"]*)[>"].*$`
unfoldable pub include_pattern : Pattern
include_pattern =
    line_start
    ⨟ many space
    ⨟ lit (codes "#")
    ⨟ many space
    ⨟ lit (codes "include")
    ⨟ many space
    ⨟ group 1 (one (λ c. nat_beq c b'<' || nat_beq c b'"'))
    ⨟ group 2 (many (one (λ c. not (nat_beq c b'>' || nat_beq c b'"'))))
    ⨟ one (λ c. nat_beq c b'>' || nat_beq c b'"')
    ⨟ many (one any_char)
    ⨟ line_end

abbrev pub or_nil : Option Text → Text
or_nil none = []
or_nil (some t) = t

unfoldable pub is_third_party : Text → Bool
is_third_party include = elim (matches third_party_headers_pattern include) [
  | none ↦ false
  | some _ ↦ true
]

abbrev report_include : ℕ → Text → Text → Report
report_include linenum category message = record {
  linenum = linenum;
  category = category;
  confidence = 4;
  message = message;
}

abbrev report_if : Bool → Report → List Report
report_if true r = r ∷ []
report_if false r = []

abbrev report_name : ℕ → Option Found → List Report
report_name linenum none = []
report_name linenum (some matched) =
    report_if (not (is_third_party (or_nil (group_of matched 1)))) (
      report_include linenum (codes "build/include")
        (codes "Include the directory when naming .h files"))

-- The file of a name, as `FileInfo` splits it.
module _ (repository_name : Text → Text) where
  -- `Split`
  unfoldable pub split_name : Text → Text × Text × Text
  split_name filename =
      let (project, rest) = split_path (repository_name filename) in
      let (base, extension) = splitext rest in (project, base, extension)

  unfoldable pub base_name : Text → Text
  unfolding split_name
  base_name filename = (split_name filename).1

  unfoldable pub extension : Text → Text
  unfolding split_name
  extension filename = (split_name filename).2

  unfoldable pub no_extension : Text → Text
  unfolding split_name
  no_extension filename = (split_name filename).0 ++ (b'/' ∷ (split_name filename).1)

  unfoldable pub is_source : Text → Bool
  unfolding is_source_extension extension
  is_source filename = is_source_extension (drop 1 (extension filename))

  -- What the order checks report.
  abbrev pub order_reports : Text → ℕ → Text → Text → Bool → List Report
  order_reports filename linenum include error_message in_order =
      report_if (not (error_message == [])) (
        report_include linenum (codes "build/include_order") (
          error_message
          ++ (codes ". Should be: "
              ++ (base_name filename ++ codes ".h, c system, c++ system, other."))))
      ++ report_if (not in_order) (
          report_include linenum (codes "build/include_alpha")
            (codes "Include \"" ++ (include ++ codes "\" not in alphabetical order")))

  -- The order checks of a header that was added; `none` for an IndexError.
  unfoldable pub check_order :
      Text → List Text → ℕ → Text → Bool → IncludeState → Option (IncludeState × List Report)
  check_order filename elided linenum include is_system s =
      let (error_message, s') =
        check_next_include_order (classify_include (repository_name filename) include is_system)
          s in
      let canonical_include = canonicalize_alphabetical_order include in
      elim (is_in_alphabetical_order s' elided linenum canonical_include) [
        | none ↦ none
        | some in_order ↦ some (
          set_last_header canonical_include s',
          order_reports filename linenum include error_message in_order,
        )
      ]

  abbrev then_check :
      Text → List Text → ℕ → Text → Bool → Option IncludeState → Option (IncludeState × List Report)
  then_check filename elided linenum include is_system none = none
  then_check filename elided linenum include is_system (some s) =
      check_order filename elided linenum include is_system s

  -- An include line with this header; `none` for an IndexError.
  unfoldable pub check_header :
      Text → List Text → ℕ → Text → Bool → IncludeState → Option (IncludeState × List Report)
  check_header filename elided linenum include is_system s = elim (find_header s include) [
    | some duplicate_line ↦ some (
      s,
      report_include linenum (codes "build/include") (
            b'"'
            ∷ (include
                ++ (codes "\" already included at " ++ (filename ++ (b':' ∷ show duplicate_line)))))
          ∷ [],
    )
    | none ↦
        if ends_with include (codes ".cc")
          && not (dirname (repository_name filename) == dirname include)
        then some (
          s,
          report_include linenum (codes "build/include")
                (codes "Do not include .cc files from other packages")
              ∷ [],
        )
        else if is_third_party include
        then some (s, [])
        else then_check filename elided linenum include is_system (add_include include linenum s)
  ]

  abbrev check_found :
      Text → List Text → ℕ → Option Found → IncludeState → Option (IncludeState × List Report)
  check_found filename elided linenum none s = some (s, [])
  check_found filename elided linenum (some matched) s =
      check_header filename elided linenum (or_nil (group_of matched 2))
        (or_nil (group_of matched 1) == codes "<") s

  abbrev and_before :
      List Report → Option (IncludeState × List Report) → Option (IncludeState × List Report)
  and_before rs none = none
  and_before rs (some (s, more)) = some (s, rs ++ more)

  -- `CheckIncludeLine`, over the lines without comments and the elided lines; `none` for an
  -- IndexError.
  unfoldable pub check_include_line :
      Text → List Text → List Text → ℕ → IncludeState → Option (IncludeState × List Report)
  check_include_line filename lines elided linenum s = elim (get_elem? lines linenum) [
    | none ↦ none
    | some line ↦
        and_before (report_name linenum (matches plain_include line))
          (check_found filename elided linenum (search_in include_pattern line) s)
  ]
