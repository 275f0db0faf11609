-- ===== src/Nolint.antt =====
-- The error suppressions of lab5/cpplint.py: NOLINT comments, which suppress a category or all of
-- them on one line, and the directives that suppress categories in the whole file.
pub mod Laws
mod Examples
use cs.Base.{
  ℕ, ◌+◌, ◌-◌, Bool, true, false, not, ◌&&◌, ◌||◌, Option, none, some, List, [], ◌∷◌, ◌++◌, Text,
  codes, contains, text_eq, nat_eq, option_eq, ◌==◌, nat_beq, starts_with, ends_with, drop, take,
  length, lookup_or, update, if◌then◌else◌,
}
use cs.Re.{
  Pattern, Found, lit, one, ◌⨟◌, ◌∣∣◌, many, some_of, optional, group, boundary, line_end, space,
  any_char, group_of, search_in, all_patterns,
}
use cs.Constants.{
  error_categories, legacy_error_categories, default_c_suppressed_categories,
  default_kernel_suppressed_categories,
}

-- `_error_suppressions` and `_global_error_suppressions`. The key `none` stands for all categories;
-- a set of line numbers is the list of them.
pub record Suppressions : Type 0 where
  pub lines : List (Option Text × List ℕ)
  pub everywhere : List (Text × Bool)

-- An error that a check hands to its parameter `error`.
pub record Report : Type 0 where
  pub linenum : ℕ
  pub category : Text
  pub confidence : ℕ
  pub message : Text

-- `\bNOLINT(NEXTLINE)?\b(\([^)]+\))?`
unfoldable pub nolint : Pattern
nolint =
    boundary
    ⨟ lit (codes "NOLINT")
    ⨟ optional (group 1 (lit (codes "NEXTLINE")))
    ⨟ boundary
    ⨟ optional
        (group 2 (lit (codes "(") ⨟ some_of (one (λ c. not (nat_beq c b')'))) ⨟ lit (codes ")")))

-- `text[1:-1]`
abbrev pub inner : Text → Text
inner t = drop 1 (take (length t - 1) t)

abbrev pub is_some : Option Text → Bool
is_some none = false
is_some (some _) = true

-- What a NOLINT comment asks for: the key to suppress on its line, or a report, or nothing.
pub data Request : Type 0 where
  suppress : Option Text → Request
  unknown : Text → Request
  ignore : Request

unfoldable pub request : Option Text → Request
request none = suppress none
request (some category) =
    if category == codes "(*)"
    then suppress none
    else if starts_with category (codes "(") && ends_with category (codes ")")
    then (if contains error_categories (inner category)
        then suppress (some (inner category))
        else if not (contains legacy_error_categories (inner category))
        then unknown (inner category)
        else ignore)
    else ignore

-- `_error_suppressions.setdefault(key, set()).add(line)`
unfoldable pub add_line : Option Text → ℕ → Suppressions → Suppressions
add_line key line s = record s { lines = update [] key (λ ns. line ∷ ns) s.lines }

unfoldable pub fulfil : Request → ℕ → ℕ → Suppressions → Suppressions × List Report
fulfil (suppress key) line linenum s = (add_line key line s, [])
fulfil (unknown category) line linenum s = (
  s,
  record {
    linenum = linenum;
    category = codes "readability/nolint";
    confidence = 5;
    message = codes "Unknown NOLINT error category: " ++ category;
  }
      ∷ [],
)
fulfil ignore line linenum s = (s, [])

-- The line that a comment speaks of.
abbrev pub suppressed_line : Found → ℕ → ℕ
suppressed_line matched linenum = if is_some (group_of matched 1) then linenum + 1 else linenum

unfoldable pub parse_matched : Option Found → ℕ → Suppressions → Suppressions × List Report
unfolding fulfil
parse_matched none linenum s = (s, [])
parse_matched (some matched) linenum s =
    fulfil (request (group_of matched 2)) (suppressed_line matched linenum) linenum s

-- `ParseNolintSuppressions`: the new suppressions, and the errors that it reports.
unfoldable pub parse_nolint_suppressions : Text → ℕ → Suppressions → Suppressions × List Report
unfolding parse_matched
parse_nolint_suppressions raw_line linenum s = parse_matched (search_in nolint raw_line) linenum s

-- `_SEARCH_C_FILE`: `\b(?:LINT_C_FILE|vim?:\s*.*(\s*|:)filetype=c(\s*|:|$))`
unfoldable pub search_c_file : Pattern
search_c_file =
    boundary
    ⨟ (lit (codes "LINT_C_FILE")
        ∣∣ lit (codes "vi")
          ⨟ optional (lit (codes "m"))
          ⨟ lit (codes ":")
          ⨟ many space
          ⨟ many (one any_char)
          ⨟ group 1 (many space ∣∣ lit (codes ":"))
          ⨟ lit (codes "filetype=c")
          ⨟ group 2 (many space ∣∣ lit (codes ":") ∣∣ line_end))

-- `_SEARCH_KERNEL_FILE`
unfoldable pub search_kernel_file : Pattern
search_kernel_file = boundary ⨟ lit (codes "LINT_KERNEL_FILE")

-- `_global_error_suppressions[category] = True` for each category of a list.
unfoldable pub suppress_all : List Text → Suppressions → Suppressions
suppress_all [] s = s
suppress_all (c ∷ cs) s =
    suppress_all cs (record s { everywhere = update false c (λ _. true) s.everywhere })

abbrev pub is_found : Pattern → Text → Bool
is_found m line = elim (search_in m line) [ none ↦ false | some _ ↦ true ]

-- `ProcessGlobalSuppresions`
unfoldable pub process_global_suppressions : List Text → Suppressions → Suppressions
process_global_suppressions [] s = s
process_global_suppressions (line ∷ rest) s =
    let for_c =
      if is_found search_c_file line then suppress_all default_c_suppressed_categories s else s in
    process_global_suppressions rest (
      if is_found search_kernel_file line
      then suppress_all default_kernel_suppressed_categories for_c
      else for_c)

-- `ResetNolintSuppressions`
unfoldable pub reset_nolint_suppressions : Suppressions → Suppressions
reset_nolint_suppressions s = record { lines = []; everywhere = [] }

-- `IsErrorSuppressedByNolint`
unfoldable pub is_error_suppressed_by_nolint : Text → ℕ → Suppressions → Bool
is_error_suppressed_by_nolint category linenum s =
    lookup_or false category s.everywhere
    || (contains (lookup_or [] (some category) s.lines) linenum
        || contains (lookup_or [] none s.lines) linenum)

-- Opens the parsers of this module, for tests.
unfoldable pub all_nolint : Unit {0}
unfolding nolint request add_line fulfil parse_matched parse_nolint_suppressions search_c_file
    search_kernel_file suppress_all process_global_suppressions error_categories
    legacy_error_categories default_c_suppressed_categories default_kernel_suppressed_categories
    all_patterns
all_nolint = tt
