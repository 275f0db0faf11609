-- ===== src/LineChecks/Virtual.antt =====
-- `CheckRedundantVirtual` and `CheckRedundantOverrideOrFinal` of lab5/cpplint.py. `none` stands for
-- an IndexError of `CloseExpression`.
use cs.Base.{
  ℕ, zero, suc, ◌+◌, Bool, true, false, not, ◌&&◌, ◌||◌, Option, none, some, List, [], ◌∷◌, ◌++◌,
  Text, codes, drop, length, min, if◌then◌else◌,
}
use mathlib.Core.Option
use cs.Re.{
  Pattern, Found, one, ◌⨟◌, many, group, boundary, line_start, line_end, is_word, matches,
  search_in,
}
use cs.Re.Short.{str, chr, char_not_in, blanks, blanks1, anything, any_of, found, starts_at}
use cs.CleansedLines.{group_text}
use cs.Brackets.{Place, close_expression}
use cs.Nolint.{Report}
use cs.Paths.{after_last}
use cs.LineChecks.{report, report_if}
use cs.LineChecks.Namespaces.{line_at}

-- `^(.*)(\bvirtual\b)(.*)$`
unfoldable pub virtual_word : Pattern
virtual_word =
    line_start
    ⨟ group 1 anything
    ⨟ group 2 (boundary ⨟ str "virtual" ⨟ boundary)
    ⨟ group 3 anything
    ⨟ line_end

abbrev access : Pattern
access = group 1 (any_of ("public" ∷ "protected" ∷ "private" ∷ []))

-- The keyword stands next to an access specifier.
unfoldable pub near_access : Found → Bool
near_access virtual =
    found (boundary ⨟ access ⨟ blanks1 ⨟ line_end) (group_text virtual 1)
    || starts_at (line_start ⨟ blanks1 ⨟ access ⨟ boundary) (group_text virtual 3)

-- `^.*[^:]:[^:].*$`
unfoldable pub single_colon : Pattern
single_colon =
    line_start ⨟ anything ⨟ char_not_in ":" ⨟ chr b':' ⨟ char_not_in ":" ⨟ anything ⨟ line_end

-- `^([^(]*)\(`
unfoldable pub parameter_list : Pattern
parameter_list = line_start ⨟ group 1 (many (char_not_in "(")) ⨟ chr b'('

-- The search for the end of the parameters: `CloseExpression` failed, the loop went through its
-- lines without a parenthesis, or it gave a place.
unfoldable pub find_parameters : List Text → ℕ → ℕ → ℕ → Option (Option Place)
find_parameters elided zero start_line start_col = some none
find_parameters elided (suc more) start_line start_col =
    elim (matches parameter_list (drop start_col (line_at elided start_line))) [
      | some m ↦
          Option.map some (close_expression elided start_line (start_col + length (group_text m 1)))
      | none ↦ find_parameters elided more (suc start_line) 0
    ]

-- `\b(override|final)\b` and `[^\w]\s*$`
unfoldable pub override_or_final : Pattern
override_or_final = boundary ⨟ group 1 (any_of ("override" ∷ "final" ∷ [])) ⨟ boundary

unfoldable pub ends_in_nonword : Pattern
ends_in_nonword = one (λ c. not (is_word c)) ⨟ blanks ⨟ line_end

abbrev pub redundant_virtual : ℕ → Text → Report
redundant_virtual linenum specifier = report linenum "readability/inheritance" 4 (
    codes "\"virtual\" is redundant since function is already declared as \""
    ++ specifier
    ++ codes "\"")

abbrev pub report_specifier : ℕ → Option Found → List Report
report_specifier linenum none = []
report_specifier linenum (some m) = redundant_virtual linenum (group_text m 1) ∷ []

-- The loop over the lines from the end of the parameters.
unfoldable pub specifiers : List Text → ℕ → ℕ → ℕ → ℕ → List Report
specifiers elided linenum zero i end_col = []
specifiers elided linenum (suc more) i end_col =
    let line = drop end_col (line_at elided i) in
    let later = specifiers elided linenum more (suc i) 0 in
    report_specifier linenum (search_in override_or_final line)
    ++ (if found ends_in_nonword line then [] else later)

-- The numbers of rounds of `xrange(n, min(n + 3, num_lines))`.
abbrev pub three_lines : ℕ → List Text → ℕ
three_lines n elided = min 3 (length (drop n elided))

abbrev pub after_parameters : List Text → ℕ → Option Place → List Report
after_parameters elided linenum none = []
after_parameters elided linenum (some place) = elim place.pos [
  | none ↦ []
  | some end_col ↦
      specifiers elided linenum (three_lines place.linenum elided) place.linenum end_col
]

-- `CheckRedundantVirtual`
unfoldable pub check_redundant_virtual : List Text → ℕ → Option (List Report)
unfolding virtual_word near_access single_colon find_parameters specifiers
check_redundant_virtual elided linenum =
    let line = line_at elided linenum in
    elim (matches virtual_word line) [
      | none ↦ some []
      | some virtual ↦
          if near_access virtual
          then some []
          else if starts_at single_colon line
          then some []
          else Option.map (after_parameters elided linenum) (
              find_parameters elided (three_lines linenum elided) linenum
                (length (group_text virtual 2)))
    ]

-- `line[line.rfind(')'):]`, if there is a parenthesis. `after_last` is the position after it.
unfoldable pub from_last_parenthesis : Text → Option Text
from_last_parenthesis line = elim (after_last b')' line) [
  | zero ↦ none
  | suc declarator_end ↦ some (drop declarator_end line)
]

abbrev has_parenthesis : Text → Bool
has_parenthesis line = elim (after_last b')' line) [ zero ↦ false | suc i ↦ true ]

-- `linenum > 1 and clean_lines.elided[linenum - 1].rfind(')') >= 0`
abbrev pub parenthesis_before : List Text → ℕ → Bool
parenthesis_before elided (suc (suc n)) = has_parenthesis (line_at elided (suc n))
parenthesis_before elided _ = false

abbrev pub fragment : List Text → ℕ → Option Text
fragment elided linenum = elim (from_last_parenthesis (line_at elided linenum)) [
  | some t ↦ some t
  | none ↦ if parenthesis_before elided linenum then some (line_at elided linenum) else none
]

abbrev pub redundant_override : ℕ → Report
redundant_override linenum =
    report linenum "readability/inheritance" 4
      (codes "\"override\" is redundant since function is already declared as \"final\"")

-- `CheckRedundantOverrideOrFinal`
unfoldable pub check_redundant_override_or_final : List Text → ℕ → List Report
unfolding from_last_parenthesis
check_redundant_override_or_final elided linenum = elim (fragment elided linenum) [
  | none ↦ []
  | some t ↦
      report_if
        (found (boundary ⨟ str "override" ⨟ boundary) t
          && found (boundary ⨟ str "final" ⨟ boundary) t)
        (redundant_override linenum)
]
