-- ===== src/Statements/Braces.antt =====
-- `CheckBraces` of lab5/cpplint.py. `none` stands for an IndexError of `CloseExpression`.
use mathlib.Core.Option
use cs.Base.{
  has, ℕ, zero, suc, ◌+◌, ◌-◌, Bool, true, false, not, ◌&&◌, ◌||◌, Option, none, some, List, [],
  ◌∷◌, ◌++◌, Text, String, codes, nat_beq, ltb, length, nat_eq, is_space, drop, find, if◌then◌else◌,
}
use cs.Re.{
  Pattern, Found, one, ◌⨟◌, ◌∣∣◌, optional, many, group, boundary, line_start, line_end, search_in,
}
use cs.Re.Short.{str, chr, char_in, char_not_in, blanks, found, starts_at}
use cs.Brackets.{Place, close_expression}
use cs.FileChecks.{get_indent_level}
use cs.Nolint.{Report}
use cs.LineChecks.{report, report_if}
use cs.LineChecks.Namespaces.{line_at}
use cs.Spacing.Braces.{get_previous_non_blank_line}
use cs.Statements.{from_position}

abbrev pub braces : ℕ → String → Report
braces linenum message = report linenum "readability/braces" 4 (codes message)

abbrev pub newline : ℕ → String → Report
newline linenum message = report linenum "whitespace/newline" 4 (codes message)

abbrev previous_line : List Text → ℕ → Text
previous_line elided linenum = (get_previous_non_blank_line elided linenum).0

-- `}\s*$`
abbrev closing : Pattern
closing = chr b'}' ⨟ blanks ⨟ line_end

-- A brace on a line of its own, `\s*{\s*$`, after a line without `[,;:}{(]\s*$`.
unfoldable pub misplaced_brace : (Text → ℕ) → ℕ → Text → Text → Bool
misplaced_brace width line_length line prevline =
    starts_at (blanks ⨟ chr b'{' ⨟ blanks ⨟ line_end) line
    && not (found (char_in ",;:}{(" ⨟ blanks ⨟ line_end) prevline)
    && not (starts_at (blanks ⨟ chr b'#') prevline)
    && not (ltb line_length (width prevline + 2) && has prevline (codes "[]"))

-- `\s*else\b\s*(?:if\b|\{|$)` after `\s*}\s*$`.
unfoldable pub else_after_brace : Text → Text → Bool
else_after_brace line prevline =
    starts_at
      (blanks ⨟ str "else" ⨟ boundary ⨟ blanks ⨟ (str "if" ⨟ boundary ∣∣ chr b'{' ∣∣ line_end)) line
    && starts_at (blanks ⨟ closing) prevline

-- `else if\s*\(`
abbrev pub else_if : Pattern
else_if = str "else if" ⨟ blanks ⨟ chr b'('

-- `line.find('(', line.find('else if'))`
unfoldable pub condition_start : Text → Option ℕ
condition_start line = elim (find line (codes "else if")) [
  | none ↦ Option.map (λ n. length line - 1 + n) (find (from_position line none) (codes "("))
  | some at ↦ Option.map (λ n. at + n) (find (drop at line) (codes "("))
]

abbrev differ : Bool → Bool → Bool
differ true b = not b
differ false b = b

abbrev one_side : ℕ → Report
one_side linenum =
    report linenum "readability/braces" 5
      (codes "If an else has a brace on one side, it should have it on both")

unfoldable pub check_else_if : List Text → ℕ → Text → Option (List Report)
unfolding condition_start
check_else_if elided linenum line = elim (condition_start line) [
  | none ↦ some []
  | some zero ↦ some []
  | some (suc n) ↦ elim (close_expression elided linenum (suc n)) [
    | none ↦ none
    | some place ↦ some (
        report_if
          (differ (found (chr b'}' ⨟ blanks ⨟ else_if) line)
            (has (from_position place.line place.pos) (codes "{")))
          (one_side linenum))
  ]
]

-- `}\s*else[^{]*$` or `[^}]*else\s*{`
unfoldable pub brace_on_one_side : Text → Bool
brace_on_one_side line =
    found (chr b'}' ⨟ blanks ⨟ str "else" ⨟ many (char_not_in "{") ⨟ line_end) line
    || starts_at (many (char_not_in "}") ⨟ str "else" ⨟ blanks ⨟ chr b'{') line

unfoldable pub check_else_braces : List Text → ℕ → Text → Option (List Report)
unfolding check_else_if brace_on_one_side
check_else_braces elided linenum line =
    if found else_if line
    then check_else_if elided linenum line
    else some (report_if (brace_on_one_side line) (one_side linenum))

-- `[^\s{]`
abbrev other_text : Pattern
other_text = one (λ c. not (is_space c || nat_beq c b'{'))

-- `\belse [^\s{]` without `\belse if\b`
unfoldable pub else_with_clause : Text → Bool
else_with_clause line =
    found (boundary ⨟ str "else " ⨟ other_text) line
    && not (found (boundary ⨟ str "else if" ⨟ boundary) line)

-- The line, from `linenum` on, that has the next semicolon; the first is read from `endpos`.
unfoldable pub next_semicolon : List Text → ℕ → Option ℕ → Option (Text × ℕ × List Text)
next_semicolon [] linenum endpos = none
next_semicolon (line ∷ lines) linenum endpos =
    let later = next_semicolon lines (suc linenum) (some 0) in
    if has (from_position line endpos) (codes ";") then some (line, linenum, lines) else later

-- `;[\s}]*(\\?)$`
unfoldable pub last_semicolon : Pattern
last_semicolon =
    chr b';'
    ⨟ many (one (λ c. is_space c || nat_beq c b'}'))
    ⨟ group 1 (optional (chr 92))
    ⨟ line_end

-- `^[^{};]*\[[^\[\]]*\][^{}]*\{[^{}]*\}\s*\)*[;,]\s*$`
unfoldable pub lambda : Pattern
lambda =
    line_start
    ⨟ many (char_not_in "{};")
    ⨟ chr b'['
    ⨟ many (char_not_in "[]")
    ⨟ chr b']'
    ⨟ many (char_not_in "{}")
    ⨟ chr b'{'
    ⨟ many (char_not_in "{}")
    ⨟ chr b'}'
    ⨟ blanks
    ⨟ many (chr b')')
    ⨟ char_in ";,"
    ⨟ blanks
    ⨟ line_end

abbrev several : ℕ → Report
several linenum = braces linenum "If/else bodies with multiple statements require braces"

-- The line after the semicolon is not indented more than the `if`.
unfoldable pub check_dedent : Bool → ℕ → ℕ → List Text → List Report
check_dedent is_if linenum if_indent [] = []
check_dedent is_if linenum if_indent (next_line ∷ rest) =
    let next_indent = get_indent_level next_line in
    if is_if
      && starts_at (blanks ⨟ str "else" ⨟ boundary) next_line
      && not (nat_beq next_indent if_indent)
    then braces linenum
        "Else clause should be indented at the same level as if. Ambiguous nested if/else chains require braces."
      ∷ []
    else report_if (ltb if_indent next_indent) (several linenum)

unfoldable pub check_statement : Bool → ℕ → ℕ → Option (Text × ℕ × List Text) → List Report
unfolding last_semicolon lambda check_dedent
check_statement is_if linenum if_indent none = []
check_statement is_if linenum if_indent (some (endline, endlinenum, rest)) =
    if not (starts_at last_semicolon (from_position endline (find endline (codes ";"))))
    then report_if (not (starts_at lambda endline)) (several linenum)
    else check_dedent is_if linenum if_indent rest

abbrev opens : Text → Bool
opens = starts_at (blanks ⨟ chr b'{')

-- A brace opens after the condition or on the next line.
unfoldable pub has_block : List Text → ℕ → Text → Bool
has_block elided endlinenum after =
    opens after
    || (starts_at (blanks ⨟ line_end) after
        && ltb endlinenum (length elided - 1)
        && opens (line_at elided (endlinenum + 1)))

unfoldable pub check_body : List Text → ℕ → Bool → ℕ → Place → List Report
unfolding has_block next_semicolon check_statement
check_body elided linenum is_if if_indent place =
    if has_block elided place.linenum (from_position place.line place.pos)
    then []
    else check_statement is_if linenum if_indent
        (next_semicolon (drop place.linenum elided) place.linenum place.pos)

-- `match.end()`
abbrev pub end_of : Found → ℕ
end_of match = length match.before + length match.whole

-- `\b(if\s*\(|else\b)`, and `\bif\s*\(`, whose condition is closed first.
unfoldable pub if_or_else : Pattern
if_or_else = boundary ⨟ group 1 (str "if" ⨟ blanks ⨟ chr b'(' ∣∣ str "else" ⨟ boundary)

unfoldable pub check_single_statement : List Text → ℕ → Text → Option (List Report)
unfolding if_or_else check_body
check_single_statement elided linenum line = elim (search_in if_or_else line) [
  | none ↦ some []
  | some if_else_match ↦
      if starts_at (blanks ⨟ chr b'#') line
      then some []
      else (elim (search_in (boundary ⨟ str "if" ⨟ blanks ⨟ chr b'(') line) [
        | none ↦ some (
            check_body elided linenum false (get_indent_level line)
              (record { line = line; linenum = linenum; pos = some (end_of if_else_match) }))
        | some if_match ↦
            Option.map (check_body elided linenum true (get_indent_level line))
              (close_expression elided linenum (end_of if_match - 1))
      ])
]

module _ (width : Text → ℕ) (line_length : ℕ) where
  -- `CheckBraces`
  unfoldable pub check_braces : List Text → ℕ → Option (List Report)
  unfolding misplaced_brace else_after_brace check_else_braces else_with_clause
      check_single_statement
  check_braces elided linenum =
      let line = line_at elided linenum in
      let prevline = previous_line elided linenum in
      elim (check_else_braces elided linenum line) [
        | none ↦ none
        | some on_sides ↦ elim (check_single_statement elided linenum line) [
          | none ↦ none
          | some on_statement ↦ some (
              report_if (misplaced_brace width line_length line prevline)
                (braces linenum "{ should almost always be at the end of the previous line")
              ++ report_if (else_after_brace line prevline)
                  (newline linenum "An else should appear on the same line as the preceding }")
              ++ on_sides
              ++ report_if (else_with_clause line)
                  (newline linenum "Else clause should never be on same line as else (use 2 lines)")
              ++ report_if (starts_at (blanks ⨟ str "do " ⨟ other_text) line)
                  (newline linenum "do/while clauses should not be on a single line")
              ++ on_statement)
        ]
      ]
