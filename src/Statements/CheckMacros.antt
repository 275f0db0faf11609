-- ===== src/Statements/CheckMacros.antt =====
-- `FindCheckMacro` and `CheckCheck` of lab5/cpplint.py with their tables. `none` stands for an
-- IndexError of `CloseExpression`.
pub mod Operands
use cs.Base.{
  has, ℕ, zero, suc, ◌+◌, ◌-◌, Bool, true, false, not, ◌&&◌, ◌||◌, Option, none, some, List, [],
  ◌∷◌, ◌++◌, Text, codes, contains, text_eq, nat_eq, ◌==◌, nat_beq, lookup_or, length, take, drop,
  find, strip, is_space, if◌then◌else◌,
}
use cs.Re.{
  Pattern, Found, lit, one, ◌⨟◌, ◌∣∣◌, optional, many, some_of, group, boundary, line_start,
  line_end, is_digit, is_hex, matches,
}
use cs.Re.Short.{str, chr, char_in, char_not_in, blanks, anything, any_of, starts_at}
use cs.CleansedLines.{group_text}
use cs.Brackets.{
  Place, Scan, closed, failed, unfinished, close_expression, find_end_of_expression_in_line,
}
use cs.Nolint.{Report}
use cs.LineChecks.{report, report_if}
use cs.LineChecks.Namespaces.{line_at}
use cs.Spacing.Braces.{joined}

-- `_CHECK_MACROS`
abbrev pub check_macros : List Text
check_macros =
    codes "DCHECK"
    ∷ codes "CHECK"
    ∷ codes "EXPECT_TRUE"
    ∷ codes "ASSERT_TRUE"
    ∷ codes "EXPECT_FALSE"
    ∷ codes "ASSERT_FALSE"
    ∷ []

abbrev pub replacements : List (Text × Text)
replacements =
    (codes "==", codes "EQ")
    ∷ (codes "!=", codes "NE")
    ∷ (codes ">=", codes "GE")
    ∷ (codes ">", codes "GT")
    ∷ (codes "<=", codes "LE")
    ∷ (codes "<", codes "LT")
    ∷ []

abbrev pub inv_replacements : List (Text × Text)
inv_replacements =
    (codes "==", codes "NE")
    ∷ (codes "!=", codes "EQ")
    ∷ (codes ">=", codes "LT")
    ∷ (codes ">", codes "LE")
    ∷ (codes "<=", codes "GT")
    ∷ (codes "<", codes "GE")
    ∷ []

-- The prefix and the table of a macro's replacements.
abbrev pub table_of : Text → Text × List (Text × Text)
table_of macro =
    if macro == codes "EXPECT_TRUE"
    then (codes "EXPECT_", replacements)
    else if macro == codes "ASSERT_TRUE"
    then (codes "ASSERT_", replacements)
    else if macro == codes "EXPECT_FALSE"
    then (codes "EXPECT_", inv_replacements)
    else if macro == codes "ASSERT_FALSE"
    then (codes "ASSERT_", inv_replacements)
    else (macro ++ codes "_", replacements)

-- `_CHECK_REPLACEMENT[check_macro][operator]`
unfoldable pub check_replacement : Text → Text → Text
check_replacement macro operator = (table_of macro).0 ++ lookup_or [] operator (table_of macro).1

-- `^(.*\b…\s*)\(`
abbrev pub call_of : Text → Pattern
call_of macro = line_start ⨟ group 1 (anything ⨟ boundary ⨟ lit macro ⨟ blanks) ⨟ chr b'('

-- `FindCheckMacro`, over `_CHECK_MACROS`.
unfoldable pub find_check_macro : List Text → Text → Option (Text × ℕ)
find_check_macro [] line = none
find_check_macro (macro ∷ macros) line =
    let later = find_check_macro macros line in
    if has line macro
    then (elim (matches (call_of macro) line) [
      | none ↦ later
      | some matched ↦ some (macro, length (group_text matched 1))
    ])
    else later

-- `^\s*(<<|<<=|>>|>>=|->\*|->|&&|\|\||==|!=|>=|>|<=|<|\()(.*)$`
unfoldable pub token_first : Pattern
token_first =
    line_start
    ⨟ blanks
    ⨟ group 1 (
        any_of (
          "<<" ∷ "<<=" ∷ ">>" ∷ ">>=" ∷ "->*" ∷ "->" ∷ "&&" ∷ "||" ∷ "==" ∷ "!=" ∷ ">=" ∷ ">" ∷ "<="
          ∷ "<" ∷ "(" ∷ []))
    ⨟ group 2 anything
    ⨟ line_end

-- `^([^-=!<>()&|]+)(.*)$` and `^(\s*\S)(.*)$`
unfoldable pub operand_first : Pattern
operand_first =
    line_start ⨟ group 1 (some_of (char_not_in "-=!<>()&|")) ⨟ group 2 anything ⨟ line_end

unfoldable pub character_first : Pattern
character_first =
    line_start ⨟ group 1 (blanks ⨟ one (λ c. not (is_space c))) ⨟ group 2 anything ⨟ line_end

-- What a round of the loop comes to: it goes on with `lhs` and `expression`, it ends with the
-- operands, or the check returns.
pub data Round : Type 0 where
  further : Text → Text → Round
  done : Text → Text → Text → Round
  give_up : Round

abbrev pub logical : List Text
logical = codes "&&" ∷ codes "||" ∷ []

abbrev pub non_relational : List Text
non_relational = codes "<<" ∷ codes "<<=" ∷ codes ">>" ∷ codes ">>=" ∷ codes "->*" ∷ codes "->" ∷ []

-- An operand in parentheses.
unfoldable pub parenthesized : Text → Text → Round
parenthesized lhs expression = elim (find_end_of_expression_in_line expression 0 (b'(' ∷ [])) [
  | closed end ↦ further (lhs ++ b'(' ∷ take end expression) (drop end expression)
  | failed ↦ give_up
  | unfinished stack ↦ give_up
]

unfoldable pub token_round : Text → Text → Text → Round
unfolding parenthesized
token_round lhs token rest =
    if token == codes "("
    then parenthesized lhs rest
    else if contains logical token
    then give_up
    else if contains non_relational token
    then further (lhs ++ token) rest
    else done lhs token rest

unfoldable pub operand_round : Text → Text → Round
unfolding operand_first character_first
operand_round lhs expression = elim (matches operand_first expression) [
  | some matched ↦ further (lhs ++ group_text matched 1) (group_text matched 2)
  | none ↦ elim (matches character_first expression) [
    | some matched ↦ further (lhs ++ group_text matched 1) (group_text matched 2)
    | none ↦ done lhs [] []
  ]
]

unfoldable pub round : Text → Text → Round
unfolding token_first token_round operand_round
round lhs [] = done lhs [] []
round lhs (c ∷ expression) = elim (matches token_first (c ∷ expression)) [
  | some matched ↦ token_round lhs (group_text matched 1) (group_text matched 2)
  | none ↦ operand_round lhs (c ∷ expression)
]

-- The loop over the expression, on fuel. An operator that is None is empty here.
unfoldable pub operands : ℕ → Text → Text → Round
unfolding round
operands zero lhs expression = further lhs expression
operands (suc fuel) lhs expression = elim (round lhs expression) [
  | further lhs' expression' ↦ operands fuel lhs' expression'
  | done l operator r ↦ done l operator r
  | give_up ↦ give_up
]

abbrev is_nonempty : Text → Bool
is_nonempty [] = false
is_nonempty (_ ∷ _) = true

-- `^([-+]?(\d+|0[xX][0-9a-fA-F]+)[lLuU]{0,3}|".*"|\'.*\')$`
unfoldable pub match_constant : Pattern
match_constant =
    let suffix = optional (char_in "lLuU") in
    line_start
    ⨟ group 1 (
        optional (char_in "-+")
          ⨟ group 2 (some_of (one is_digit) ∣∣ chr b'0' ⨟ char_in "xX" ⨟ some_of (one is_hex))
          ⨟ suffix
          ⨟ suffix
          ⨟ suffix
        ∣∣ chr 34 ⨟ anything ⨟ chr 34
        ∣∣ chr 39 ⨟ anything ⨟ chr 39)
    ⨟ line_end

-- `CHECK(a op b)` with a constant on one side.
unfoldable pub is_replaceable : Text → Text → Text → Bool
unfolding match_constant
is_replaceable lhs operator rhs =
    is_nonempty lhs
    && is_nonempty operator
    && is_nonempty rhs
    && not (has rhs (codes "&&") || has rhs (codes "||"))
    && (starts_at match_constant (strip lhs) || starts_at match_constant (strip rhs))

abbrev pub consider : ℕ → Text → Text → Report
consider linenum macro operator = report linenum "readability/check" 2 (
    codes "Consider using "
    ++ check_replacement macro operator
    ++ codes " instead of "
    ++ macro
    ++ codes "(a "
    ++ operator
    ++ codes " b)")

abbrev pub report_operands : ℕ → Text → Round → List Report
report_operands linenum macro (done lhs operator rhs) =
    report_if (is_replaceable lhs operator rhs) (consider linenum macro operator)
report_operands linenum macro _ = []

-- The text between the parentheses.
unfoldable pub expression_of : List Text → ℕ → ℕ → Place → ℕ → Text
expression_of lines linenum start_pos end end_pos =
    let first = line_at lines linenum in
    if nat_beq linenum end.linenum
    then take (end_pos - 1 - (start_pos + 1)) (drop (start_pos + 1) first)
    else drop (start_pos + 1) first
      ++ (joined (take (end.linenum - (linenum + 1)) (drop (linenum + 1) lines))
          ++ take (end_pos - 1) end.line)

unfoldable pub check_macro_at : List Text → ℕ → Text → ℕ → Place → List Report
unfolding expression_of operands
check_macro_at lines linenum macro start_pos end = elim end.pos [
  | none ↦ []
  | some end_pos ↦
      let expression = expression_of lines linenum start_pos end end_pos in
      if starts_at (blanks ⨟ chr b';') (drop end_pos end.line)
      then report_operands linenum macro (operands (suc (length expression)) [] expression)
      else []
]

-- `CheckCheck`
unfoldable pub check_check : List Text → ℕ → Option (List Report)
unfolding find_check_macro check_macro_at
check_check lines linenum = elim (find_check_macro check_macros (line_at lines linenum)) [
  | none ↦ some []
  | some (macro, start_pos) ↦ elim (close_expression lines linenum start_pos) [
    | none ↦ none
    | some end ↦ some (check_macro_at lines linenum macro start_pos end)
  ]
]
