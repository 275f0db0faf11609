-- ===== src/Statements/Semicolons.antt =====
-- `CheckTrailingSemicolon` of lab5/cpplint.py. `none` stands for an IndexError.
use cs.Base.{
  sub_ℕ, pos, ℕ, suc, ◌-◌, Bool, false, not, ◌&&◌, ◌||◌, Option, none, some, List, [], ◌∷◌, Text,
  codes, contains, text_eq, nat_beq, leb, length, take, drop, if◌then◌else◌,
}
use cs.Re.{
  Pattern, Found, one, ◌⨟◌, ◌∣∣◌, many, group, boundary, line_start, line_end, is_digit, matches,
  search_in,
}
use cs.Re.Short.{str, chr, char_in, blanks, blanks1, anything, any_of, found, starts_at}
use cs.CleansedLines.{CleansedLines, group_text}
use cs.Brackets.{Place, close_expression}
use cs.Brackets.Reverse.{reverse_close_expression}
use cs.Statements.{LineCall, reported, parsed}
use cs.Paths.{after_last}
use cs.LineChecks.{report}
use cs.LineChecks.Namespaces.{line_at}
use cs.Spacing.{previous}
use cs.Spacing.Braces.{get_previous_non_blank_line}

-- `^(.*\)\s*)\{`
unfoldable pub after_parenthesis : Pattern
after_parenthesis = line_start ⨟ group 1 (anything ⨟ chr b')' ⨟ blanks) ⨟ chr b'{'

abbrev is_upper : ℕ → Bool
is_upper c = (leb b'A' c && leb c b'Z') || nat_beq c b'_'

-- `\b([A-Z_][A-Z0-9_]*)\s*$`
unfoldable pub macro_name : Pattern
macro_name =
    boundary
    ⨟ group 1 (one is_upper ⨟ many (one (λ c. is_upper c || is_digit c)))
    ⨟ blanks
    ⨟ line_end

abbrev pub safe_macros : List Text
safe_macros =
    codes "TEST"
    ∷ codes "TEST_F"
    ∷ codes "MATCHER"
    ∷ codes "MATCHER_P"
    ∷ codes "TYPED_TEST"
    ∷ codes "EXCLUSIVE_LOCKS_REQUIRED"
    ∷ codes "SHARED_LOCKS_REQUIRED"
    ∷ codes "LOCKS_EXCLUDED"
    ∷ codes "INTERFACE_DEF"
    ∷ []

abbrev is_unsafe_macro : Option Found → Bool
is_unsafe_macro none = false
is_unsafe_macro (some macro) = not (contains safe_macros (group_text macro 1))

-- `\boperator\s*\[\s*\]`
abbrev subscript_operator : Pattern
subscript_operator = boundary ⨟ str "operator" ⨟ blanks ⨟ chr b'[' ⨟ blanks ⨟ chr b']'

-- A lambda: `^(.*\])\s*$`, not the name of an operator.
unfoldable pub is_lambda : Option Found → Bool
is_lambda none = false
is_lambda (some func) = not (found subscript_operator (group_text func 1))

-- What stands before the opening parenthesis makes the semicolon harmless.
unfoldable pub needs_semicolon : Text → Bool
unfolding macro_name is_lambda
needs_semicolon line_prefix =
    is_unsafe_macro (search_in macro_name line_prefix)
    || is_lambda
        (matches (line_start ⨟ group 1 (anything ⨟ chr b']') ⨟ blanks ⨟ line_end) line_prefix)
    || found
        (boundary ⨟ any_of ("struct" ∷ "union" ∷ []) ⨟ blanks1 ⨟ str "alignas" ⨟ blanks ⨟ line_end)
        line_prefix
    || found (boundary ⨟ str "decltype" ⨟ line_end) line_prefix
    || found (blanks1 ⨟ chr b'=' ⨟ blanks ⨟ line_end) line_prefix

-- `linenum > 1` and the line above ends in a bracket: a lambda on several lines.
unfoldable pub bracket_above : List Text → ℕ → Bool
bracket_above elided (suc (suc n)) = found (chr b']' ⨟ blanks ⨟ line_end) (line_at elided (suc n))
bracket_above elided _ = false

abbrev pub is_excluded : List Text → Place → Bool
is_excluded elided opening = elim opening.pos [
  | none ↦ false
  | some p ↦ needs_semicolon (take p opening.line) || bracket_above elided opening.linenum
]

-- The length of what stands before the brace, `none` where the brace is no case of the check.
abbrev pub Brace : Type 0
Brace = Option (Option ℕ)

-- Case 1: a closing parenthesis stands before the brace. `after_last` is behind it.
unfoldable pub parenthesis_case : List Text → ℕ → Text → Brace
unfolding needs_semicolon bracket_above
parenthesis_case elided linenum before =
    elim (reverse_close_expression elided linenum (after_last b')' before - 1)) [
      | none ↦ none
      | some opening ↦ some (if is_excluded elided opening then none else some (length before))
    ]

abbrev pub group_length : Option Found → Option ℕ
group_length none = none
group_length (some match) = some (length (group_text match 1))

-- `^(.*(?:else|\)\s*const)\s*)\{`
unfoldable pub after_else_or_const : Pattern
after_else_or_const =
    line_start
    ⨟ group 1 (anything ⨟ (str "else" ∣∣ chr b')' ⨟ blanks ⨟ str "const") ⨟ blanks)
    ⨟ chr b'{'

-- Cases 4 to 6: a brace that begins its line, behind a statement or a block.
unfoldable pub leading_brace : Text → Text → Option ℕ
leading_brace prevline line =
    if found (char_in ";{}" ⨟ blanks ⨟ line_end) prevline
    then group_length (matches (line_start ⨟ group 1 blanks ⨟ chr b'{') line)
    else none

unfoldable pub other_cases : List Text → ℕ → Text → Option ℕ
unfolding after_else_or_const leading_brace
other_cases elided linenum line = elim (matches after_else_or_const line) [
  | some match ↦ some (length (group_text match 1))
  | none ↦ leading_brace ((get_previous_non_blank_line elided linenum).0) line
]

unfoldable pub find_brace : List Text → ℕ → Text → Brace
unfolding after_parenthesis parenthesis_case other_cases
find_brace elided linenum line = elim (matches after_parenthesis line) [
  | some match ↦ parenthesis_case elided linenum (group_text match 1)
  | none ↦ some (other_cases elided linenum line)
]

abbrev pub needless : ℕ → LineCall
needless linenum =
    reported (report linenum "readability/braces" 4 (codes "You don't need a ; after a }"))

-- `ParseNolintSuppressions` on the two lines, and the error.
unfoldable pub report_semicolon : List Text → Place → List LineCall
report_semicolon raw_lines place = elim place.pos [
  | none ↦ []
  | some endpos ↦
      if starts_at (line_start ⨟ blanks ⨟ chr b';') (drop endpos place.line)
      then parsed (previous raw_lines place.linenum) (sub_ℕ place.linenum 1)
        ∷ parsed (line_at raw_lines place.linenum) (pos place.linenum)
        ∷ needless place.linenum
        ∷ []
      else []
]

-- `CheckTrailingSemicolon`
unfoldable pub check_trailing_semicolon : CleansedLines → ℕ → Option (List LineCall)
unfolding find_brace report_semicolon
check_trailing_semicolon clean_lines linenum =
    elim (find_brace clean_lines.elided linenum (line_at clean_lines.elided linenum)) [
      | none ↦ none
      | some none ↦ some []
      | some (some p) ↦ elim (close_expression clean_lines.elided linenum p) [
        | none ↦ none
        | some place ↦ some (report_semicolon clean_lines.raw_lines place)
      ]
    ]
