-- ===== src/Style.antt =====
-- `CheckStyle` of lab5/cpplint.py: the checks of a line's layout, and the calls of the others. A
-- check that calls `ParseNolintSuppressions` in between gives its calls in order.
mod Examples
pub mod Places
pub mod Angles
pub mod Blocks
pub mod Conditions
pub mod Bodies
pub mod Total
pub mod Run
use cs.Base.{
  has, ℕ, zero, suc, ◌-◌, ◌+◌, Bool, true, false, not, ◌&&◌, ◌||◌, Option, none, some, List, [],
  ◌∷◌, ◌++◌, map, Text, codes, text_eq, ◌==◌, nat_beq, ltb, length, is_space, starts_with, contains,
  nat_eq, show, find, count_text, reversed, if◌then◌else◌,
}
use cs.Re.{Pattern, one, ◌⨟◌, many, some_of, optional, group, line_start, line_end, is_digit}
use cs.Re.Short.{str, chr, char_in, blanks, word, anything, found, starts_at}
use cs.CleansedLines.{CleansedLines}
use cs.Statements.{LineCall, reported}
use cs.Nesting.{Block, Kind, class_info, NestingState, innermost_class}
use cs.Nolint.{Report}
use cs.LineChecks.{report, report_if}
use cs.LineChecks.Namespaces.{line_at}
use cs.Spacing.{check_spacing, check_comma_spacing}
use cs.Spacing.Calls.{check_parenthesis_spacing, check_spacing_for_function_call}
use cs.Spacing.Operators.{check_operator_spacing}
use cs.Spacing.Braces.{check_braces_spacing, check_section_spacing, get_previous_non_blank_line}
use cs.Statements.Braces.{check_braces}
use cs.Statements.Semicolons.{check_trailing_semicolon}
use cs.Statements.Bodies.{check_empty_block_body}
use cs.Statements.CheckMacros.{check_check}
use cs.Statements.Tokens.{check_alt_tokens}

-- `raw_lines[linenum - 1] if linenum > 0 else ''`
abbrev line_before : List Text → ℕ → Text
line_before lines zero = []
line_before lines (suc n) = line_at lines n

unfoldable pub initial_spaces : Text → ℕ
initial_spaces [] = 0
initial_spaces (c ∷ line) = if nat_beq c 32 then suc (initial_spaces line) else 0

-- `\s*\w+\s*:\s*\\?$`
unfoldable pub scope_or_label_pattern : Pattern
scope_or_label_pattern = blanks ⨟ word ⨟ blanks ⨟ chr b':' ⨟ blanks ⨟ optional (chr 92) ⨟ line_end

-- `[",=><] *$` and `^\s*""`
unfoldable pub weird_indent : CleansedLines → ℕ → Text → Bool
unfolding initial_spaces scope_or_label_pattern
weird_indent clean_lines linenum line =
    not (
      found (char_in "\",=><" ⨟ many (chr 32) ⨟ line_end)
        (line_before clean_lines.lines_without_raw_strings linenum))
    && (nat_beq (initial_spaces line) 1 || nat_beq (initial_spaces line) 3)
    && not (starts_at scope_or_label_pattern (line_at clean_lines.elided linenum))
    && not (
        not (line_at clean_lines.raw_lines linenum == line)
        && starts_at (line_start ⨟ blanks ⨟ str "\"\"") line)

abbrev begins_in_space : Text → Bool
begins_in_space [] = false
begins_in_space (c ∷ _) = is_space c

-- `line and line[-1].isspace()`
unfoldable pub ends_in_space : Text → Bool
ends_in_space line = begins_in_space (reversed line)

abbrev not_space : Pattern
not_space = one (λ c. not (is_space c))

-- `^\s*//.*http(s?)://\S*$`, `^\s*//\s*[^\s]*$` and `^// \$Id:.*#[0-9]+ \$$`
unfoldable pub may_be_long : Text → Bool
may_be_long line =
    starts_at
      (line_start
        ⨟ blanks
        ⨟ str "//"
        ⨟ anything
        ⨟ str "http"
        ⨟ group 1 (optional (chr b's'))
        ⨟ str "://"
        ⨟ many not_space
        ⨟ line_end)
      line
    || starts_at (line_start ⨟ blanks ⨟ str "//" ⨟ blanks ⨟ many not_space ⨟ line_end) line
    || starts_at
        (line_start
          ⨟ str "// $Id:"
          ⨟ anything
          ⨟ chr b'#'
          ⨟ some_of (one is_digit)
          ⨟ str " $"
          ⨟ line_end)
        line

-- The lines of a header guard, for the variable of a header, `none` for another file.
unfoldable pub is_header_guard : Option Text → Text → Bool
is_header_guard none line = false
is_header_guard (some cppvar) line =
    starts_with line (codes "#ifndef " ++ cppvar)
    || starts_with line (codes "#define " ++ cppvar)
    || starts_with line (codes "#endif  // " ++ cppvar)

unfoldable pub several_commands : Text → Text → Bool
several_commands cleansed_line before =
    ltb 1 (count_text (codes ";") cleansed_line)
    && not (has cleansed_line (codes "for"))
    && (not (has before (codes "for")) || has before (codes ";"))
    && not (
        (has cleansed_line (codes "case ") || has cleansed_line (codes "default:"))
        && has cleansed_line (codes "break;"))

abbrev check_class : CleansedLines → Option Block → ℕ → List Report
check_class clean_lines none linenum = []
check_class clean_lines (some b) linenum = elim b.kind [
  | class_info c ↦ check_section_spacing clean_lines.lines b.starting_linenum c.last_line linenum
  | _ ↦ []
]

-- The calls of several checks in turn. `none` stands for an IndexError in one of them.
abbrev pub then_events : Option (List LineCall) → Option (List LineCall) → Option (List LineCall)
then_events none _ = none
then_events (some first) none = none
then_events (some first) (some second) = some (first ++ second)

unfoldable pub in_turn : List (Option (List LineCall)) → Option (List LineCall)
in_turn [] = some []
in_turn (check ∷ checks) = then_events check (in_turn checks)

abbrev pub events : List Report → Option (List LineCall)
events reports = some (map reported reports)

abbrev pub events_of : Option (List Report) → Option (List LineCall)
events_of none = none
events_of (some reports) = events reports

module _ (width : Text → ℕ) (line_length : ℕ) where
  unfoldable pub is_too_long : Option Text → Text → Bool
  unfolding is_header_guard may_be_long
  is_too_long cppvar line =
      not (starts_with line (codes "#include"))
      && not (is_header_guard cppvar line)
      && not (may_be_long line)
      && ltb line_length (width line)

  -- The checks that `CheckStyle` makes itself.
  unfoldable pub check_layout : CleansedLines → ℕ → Option Text → List Report
  unfolding weird_indent ends_in_space is_too_long several_commands
  check_layout clean_lines linenum cppvar =
      let line = line_at clean_lines.lines_without_raw_strings linenum in
      report_if (contains line 9)
        (report linenum "whitespace/tab" 1 (codes "Tab found; better to use spaces"))
      ++ report_if (weird_indent clean_lines linenum line) (
          report linenum "whitespace/indent" 3
            (codes "Weird number of spaces at line-start.  Are you using a 2-space indent?"))
      ++ report_if (ends_in_space line) (
          report linenum "whitespace/end_of_line" 4
            (codes "Line ends in whitespace.  Consider deleting these extra spaces."))
      ++ report_if (is_too_long cppvar line) (
          report linenum "whitespace/line_length" 2
            (codes "Lines should be <= " ++ show line_length ++ codes " characters long"))
      ++ report_if
          (several_commands (line_at clean_lines.elided linenum)
            (get_previous_non_blank_line clean_lines.elided linenum).0)
          (report linenum "whitespace/newline" 0 (codes "More than one command on the same line"))

  -- `CheckStyle`, given the variable of the guard of a header (`GetHeaderGuardCPPVariable`).
  unfoldable pub check_style :
      CleansedLines → ℕ → Option Text → NestingState → Option (List LineCall)
  unfolding check_layout
  check_style clean_lines linenum cppvar nesting_state =
      let elided = clean_lines.elided in
      let line = line_at elided linenum in
      in_turn (
        events (check_layout clean_lines linenum cppvar)
        ∷ events_of (check_braces width line_length elided linenum)
        ∷ check_trailing_semicolon clean_lines linenum
        ∷ events_of (check_empty_block_body clean_lines linenum)
        ∷ events (check_spacing clean_lines nesting_state linenum)
        ∷ events_of (check_operator_spacing elided linenum)
        ∷ events (check_parenthesis_spacing linenum line)
        ∷ events (check_comma_spacing clean_lines linenum)
        ∷ events_of (check_braces_spacing elided nesting_state linenum)
        ∷ events (check_spacing_for_function_call linenum line)
        ∷ events_of (check_check elided linenum)
        ∷ events (check_alt_tokens linenum line)
        ∷ events (check_class clean_lines (innermost_class nesting_state.stack) linenum)
        ∷ [])
