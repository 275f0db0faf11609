-- ===== src/Spacing.antt =====
-- The checks of spaces in one line of lab5/cpplint.py: `CheckSpacing` and `CheckCommaSpacing`.
-- Those of parentheses, operators and braces stand in the children.
pub mod Operators
pub mod Braces
pub mod Calls
use cs.Base.{
  ℕ, zero, suc, ◌+◌, ◌-◌, Bool, true, false, not, ◌&&◌, ◌||◌, Option, none, some, List, [], ◌∷◌,
  ◌++◌, Text, String, codes, nat_beq, text_eq, ◌==◌, ltb, length, get_elem?, get_or, drop, take,
  is_space, find, contains, nat_eq, left_strip, if◌then◌else◌,
}
use cs.Re.{
  Pattern, Found, one, ◌⨟◌, ◌∣∣◌, optional, many, some_of, group, space, boundary, not_ahead,
  line_start, line_end, is_word, any_char, matches, search_in, sub,
}
use cs.Re.Short.{
  str, chr, char_in, char_not_in, blanks, blanks1, word_char, word, anything, any_of, found,
  starts_at,
}
use cs.CleansedLines.{CleansedLines, group_text}
use cs.Nesting.{NestingState, in_namespace_body, in_extern_c}
use cs.Nolint.{Report}
use cs.Paths.{after_last}
use cs.LineChecks.{report, report_if}
use cs.LineChecks.Namespaces.{line_at}
use cs.LineChecks.Comment.{check_comment}

-- `IsBlankLine`
unfoldable pub is_blank_line : Text → Bool
is_blank_line [] = true
is_blank_line (c ∷ line) = is_space c && is_blank_line line

-- `lines[linenum - 1]`, which is the last line for 0.
abbrev pub previous : List Text → ℕ → Text
previous lines zero = line_at lines (length lines - 1)
previous lines (suc n) = line_at lines n

-- A brace is opened on the line and none is closed after it.
unfoldable pub opens_block : Text → Bool
opens_block line = elim (after_last b'{' line) [
  | zero ↦ false
  | suc prevbrace ↦ elim (find (drop prevbrace line) (codes "}")) [ none ↦ true | some _ ↦ false ]
]

-- ` {6}\w`
unfoldable pub six_spaces : Pattern
six_spaces = str "      " ⨟ word_char

-- The loop from a line upwards, over the lines that are indented by six: the first that is not.
unfoldable pub search_position : List Text → ℕ → Option Text
search_position elided zero =
    if starts_at six_spaces (line_at elided 0) then none else some (line_at elided 0)
search_position elided (suc n) =
    let above = search_position elided n in
    if starts_at six_spaces (line_at elided (suc n)) then above else some (line_at elided (suc n))

abbrev starts_initializers : Option Text → Bool
starts_initializers none = false
starts_initializers (some line) = take 5 line == codes "    :"

-- The same from `linenum - 2`, which may be negative.
abbrev pub above_initializers : List Text → ℕ → Bool
above_initializers elided (suc (suc n)) = starts_initializers (search_position elided n)
above_initializers elided _ = false

-- ` {4}\w[^\(]*\)\s*(const\s*)?(\{\s*$|:)`
unfoldable pub last_of_header : Pattern
last_of_header =
    str "    "
    ⨟ word_char
    ⨟ many (char_not_in "(")
    ⨟ chr b')'
    ⨟ blanks
    ⨟ optional (group 1 (str "const" ⨟ blanks))
    ⨟ group 2 (chr b'{' ⨟ blanks ⨟ line_end ∣∣ chr b':')

unfoldable pub is_exception : List Text → ℕ → Text → Bool
unfolding search_position last_of_header
is_exception elided linenum prev_line =
    if starts_at six_spaces prev_line
    then above_initializers elided linenum
    else starts_at last_of_header prev_line || starts_at (str "    :") prev_line

-- `next_line and Match(r'\s*}', next_line) and next_line.find('} else ') == -1`
unfoldable pub closes_block : Option Text → Bool
closes_block none = false
closes_block (some next_line) =
    starts_at (blanks ⨟ chr b'}') next_line
    && elim (find next_line (codes "} else ")) [ none ↦ true | some _ ↦ false ]

-- `\s*(public|protected|private):`
unfoldable pub access_label : Pattern
access_label = blanks ⨟ group 1 (any_of ("public" ∷ "protected" ∷ "private" ∷ [])) ⨟ chr b':'

abbrev after_label : ℕ → Option Found → List Report
after_label linenum none = []
after_label linenum (some matched) =
    report linenum "whitespace/blank_line" 3
      (codes "Do not leave a blank line after \"" ++ group_text matched 1 ++ codes ":\"")
    ∷ []

-- The part of `CheckSpacing` on a blank line.
unfoldable pub check_blank_line : List Text → List Text → ℕ → List Report
unfolding opens_block is_exception closes_block access_label
check_blank_line raw elided linenum =
    let prev_line = previous elided linenum in
    report_if (opens_block prev_line && not (is_exception elided linenum prev_line)) (
      report linenum "whitespace/blank_line" 2
        (codes "Redundant blank line at the start of a code block should be deleted."))
    ++ report_if (closes_block (get_elem? raw (linenum + 1))) (
        report linenum "whitespace/blank_line" 3
          (codes "Redundant blank line at the end of a code block should be deleted."))
    ++ after_label linenum (matches access_label prev_line)

abbrev indent_of : Option Text → ℕ
indent_of none = 0
indent_of (some line) = length line - length (left_strip line)

-- `\w\s+\[` and `(?:delete|return)\s+\[`
unfoldable pub space_before_bracket : Text → Bool
space_before_bracket line =
    found (word_char ⨟ blanks1 ⨟ chr b'[') line
    && not (found (any_of ("delete" ∷ "return" ∷ []) ⨟ blanks1 ⨟ chr b'[') line)

-- `for *\(.*[^:]:[^: ]` and `for *\(.*[^: ]:[^:]`
unfoldable pub tight_for_colon : Text → Bool
tight_for_colon line =
    let opening = str "for" ⨟ many (chr 32) ⨟ chr b'(' ⨟ anything in
    found (opening ⨟ char_not_in ":" ⨟ chr b':' ⨟ char_not_in ": ") line
    || found (opening ⨟ char_not_in ": " ⨟ chr b':' ⨟ char_not_in ":") line

-- `CheckSpacing`
unfoldable pub check_spacing : CleansedLines → NestingState → ℕ → List Report
unfolding is_blank_line check_blank_line space_before_bracket tight_for_colon
check_spacing clean_lines nesting_state linenum =
    let raw = clean_lines.lines_without_raw_strings in
    let line = line_at clean_lines.elided linenum in
    (if is_blank_line (line_at raw linenum)
        && not (in_namespace_body nesting_state)
        && not (in_extern_c nesting_state)
      then check_blank_line raw clean_lines.elided linenum
      else [])
    ++ check_comment (line_at raw linenum) linenum (indent_of (get_elem? raw (linenum + 1)))
    ++ report_if (space_before_bracket line)
        (report linenum "whitespace/braces" 5 (codes "Extra space before ["))
    ++ report_if (tight_for_colon line) (
        report linenum "whitespace/forcolon" 2
          (codes "Missing space around colon in range-based for loop"))

-- `,[^,\s]`
unfoldable pub tight_comma : Pattern
tight_comma = chr b',' ⨟ one (λ c. not (nat_beq c b',' || is_space c))

-- `CheckCommaSpacing`: `\boperator\s*,\s*\(` is replaced first, and `;[^\s};\\)/]` looked for last.
unfoldable pub check_comma_spacing : CleansedLines → ℕ → List Report
unfolding tight_comma
check_comma_spacing clean_lines linenum =
    let line = line_at clean_lines.elided linenum in
    let operator = boundary ⨟ str "operator" ⨟ blanks ⨟ chr b',' ⨟ blanks ⨟ chr b'(' in
    report_if
      (found tight_comma (sub operator (codes "F(") line)
        && found tight_comma (line_at clean_lines.lines_without_raw_strings linenum))
      (report linenum "whitespace/comma" 3 (codes "Missing space after ,"))
    ++ report_if
        (found (chr b';' ⨟ one (λ c. not (is_space c || contains (codes "};\\)/") c))) line)
        (report linenum "whitespace/semicolon" 3 (codes "Missing space after ;"))
