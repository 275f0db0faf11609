-- ===== src/Spacing/Calls.antt =====
-- `CheckParenthesisSpacing` and `CheckSpacingForFunctionCall` of lab5/cpplint.py.
use cs.Base.{
  ℕ, ◌+◌, Bool, not, ◌&&◌, ◌||◌, Option, none, some, List, [], ◌∷◌, ◌++◌, Text, codes, nat_beq, ltb,
  text_eq, ◌==◌, length, nat_eq, is_space, if◌then◌else◌,
}
use cs.Re.{
  Pattern, Found, one, ◌⨟◌, ◌∣∣◌, optional, many, some_of, group, boundary, not_ahead, line_start,
  line_end, any_char, search_in,
}
use cs.Re.Short.{
  str, chr, char_in, char_not_in, blanks, blanks1, word_char, word, anything, any_of, found,
}
use cs.CleansedLines.{group_text}
use cs.Nolint.{Report}
use cs.LineChecks.{report, report_if}

abbrev parens : ℕ → ℕ → Text → Report
parens linenum confidence message = report linenum "whitespace/parens" confidence message

-- ` (if\(|for\(|while\(|switch\()`
unfoldable pub tight_statement : Pattern
tight_statement = chr 32 ⨟ group 1 (any_of ("if(" ∷ "for(" ∷ "while(" ∷ "switch(" ∷ []))

abbrev report_tight : ℕ → Option Found → List Report
report_tight linenum none = []
report_tight linenum (some match) =
    parens linenum 5 (codes "Missing space before ( in " ++ group_text match 1) ∷ []

-- `\b(if|for|while|switch)\s*\(([ ]*)(.).*[^ ]+([ ]*)\)\s*{\s*$`
unfoldable pub statement : Pattern
statement =
    boundary
    ⨟ group 1 (any_of ("if" ∷ "for" ∷ "while" ∷ "switch" ∷ []))
    ⨟ blanks
    ⨟ chr b'('
    ⨟ group 2 (many (chr 32))
    ⨟ group 3 (one any_char)
    ⨟ anything
    ⨟ some_of (char_not_in " ")
    ⨟ group 4 (many (chr 32))
    ⨟ chr b')'
    ⨟ blanks
    ⨟ chr b'{'
    ⨟ blanks
    ⨟ line_end

-- `\bfor\s*\(.*; \)`
unfoldable pub open_for : Pattern
open_for = boundary ⨟ str "for" ⨟ blanks ⨟ chr b'(' ⨟ anything ⨟ str "; )"

unfoldable pub is_mismatch : Text → Found → Bool
unfolding open_for
is_mismatch line match =
    let left = length (group_text match 2) in
    let right = length (group_text match 4) in
    not (nat_beq left right)
    && not (
        ((group_text match 3 == codes ";") && nat_beq left (1 + right))
        || (nat_beq left 0 && found open_for line))

unfoldable pub report_inside : ℕ → Text → Option Found → List Report
unfolding is_mismatch
report_inside linenum line none = []
report_inside linenum line (some match) =
    report_if (is_mismatch line match)
      (parens linenum 5 (codes "Mismatching spaces inside () in " ++ group_text match 1))
    ++ report_if (ltb 1 (length (group_text match 2))) (
        parens linenum 5
          (codes "Should have zero or one spaces inside ( and ) in " ++ group_text match 1))

-- `CheckParenthesisSpacing`
unfoldable pub check_parenthesis_spacing : ℕ → Text → List Report
unfolding tight_statement statement report_inside
check_parenthesis_spacing linenum line =
    report_tight linenum (search_in tight_statement line)
    ++ report_inside linenum line (search_in statement line)

-- `\bname\s*\((.*)\)\s*…`, where `…` is `{` or `[{;]`.
abbrev control : Pattern → Pattern → Pattern
control name last =
    boundary ⨟ name ⨟ blanks ⨟ chr b'(' ⨟ group 1 anything ⨟ chr b')' ⨟ blanks ⨟ last

unfoldable pub controls : List Pattern
controls =
    control (str "if") (chr b'{')
    ∷ control (str "for") (chr b'{')
    ∷ control (str "while") (char_in "{;")
    ∷ control (str "switch") (chr b'{')
    ∷ []

-- What stands inside the parentheses of the first control structure that is found, or the line.
unfoldable pub call_text : List Pattern → Text → Text
call_text [] line = line
call_text (pattern ∷ patterns) line = elim (search_in pattern line) [
  | some match ↦ group_text match 1
  | none ↦ call_text patterns line
]

-- `\b(if|for|while|switch|return|new|delete|catch|sizeof)\b`
unfoldable pub control_word : Pattern
control_word =
    boundary
    ⨟ any_of
        ("if" ∷ "for" ∷ "while" ∷ "switch" ∷ "return" ∷ "new" ∷ "delete" ∷ "catch" ∷ "sizeof" ∷ [])
    ⨟ boundary

abbrev no_closing : Pattern
no_closing = some_of (char_not_in ")")

-- ` \([^)]+\)\([^)]*(\)|,$)` and ` \([^)]+\)\[[^\]]+\]`
unfoldable pub function_pointer : Pattern
function_pointer =
    str " (" ⨟ no_closing ⨟ str ")(" ⨟ many (char_not_in ")") ⨟ (chr b')' ∣∣ chr b',' ⨟ line_end)

unfoldable pub array_pointer : Pattern
array_pointer = str " (" ⨟ no_closing ⨟ str ")[" ⨟ some_of (char_not_in "]") ⨟ chr b']'

-- `\w\s*\(\s(?!\s*\\$)` and `\(\s+(?!(\s*\\)|\()`
unfoldable pub space_in_call : Pattern
space_in_call =
    word_char ⨟ blanks ⨟ chr b'(' ⨟ one is_space ⨟ not_ahead (blanks ⨟ chr 92 ⨟ line_end)

unfoldable pub space_after_open : Pattern
space_after_open = chr b'(' ⨟ blanks1 ⨟ not_ahead (blanks ⨟ chr 92 ∣∣ chr b'(')

abbrev two_underscores : Pattern
two_underscores = optional (chr b'_') ⨟ optional (chr b'_')

-- `_{0,2}asm_{0,2}\s+_{0,2}volatile_{0,2}\s+\(`
unfoldable pub asm_volatile : Pattern
asm_volatile =
    two_underscores
    ⨟ str "asm"
    ⨟ two_underscores
    ⨟ blanks1
    ⨟ two_underscores
    ⨟ str "volatile"
    ⨟ two_underscores
    ⨟ blanks1
    ⨟ chr b'('

-- `#\s*define|typedef|using\s+\w+\s*=`
unfoldable pub definition : Pattern
definition =
    chr b'#' ⨟ blanks ⨟ str "define"
    ∣∣ str "typedef"
    ∣∣ str "using" ⨟ blanks1 ⨟ word ⨟ blanks ⨟ chr b'='

-- `\w\s+\((\w+::)*\*\w+\)\(`
unfoldable pub member_pointer : Pattern
member_pointer =
    word_char ⨟ blanks1 ⨟ chr b'(' ⨟ many (word ⨟ str "::") ⨟ chr b'*' ⨟ word ⨟ str ")("

unfoldable pub space_before_call : Text → Bool
unfolding asm_volatile definition member_pointer
space_before_call fncall =
    found (word_char ⨟ blanks1 ⨟ chr b'(') fncall
    && not (found asm_volatile fncall)
    && not (found definition fncall)
    && not (found member_pointer fncall)
    && not (found (boundary ⨟ str "case" ⨟ blanks1 ⨟ chr b'(') fncall)

-- The spaces after and before the opening parenthesis.
unfoldable pub report_open : ℕ → Text → Text → List Report
unfolding space_in_call space_after_open space_before_call
report_open linenum line fncall =
    (if found space_in_call fncall
      then parens linenum 4 (codes "Extra space after ( in function call") ∷ []
      else report_if (found space_after_open fncall)
          (parens linenum 2 (codes "Extra space after (")))
    ++ report_if (space_before_call fncall) (
        parens linenum
          (if found (boundary ⨟ str "operator" ⨟ many (chr b'_') ⨟ boundary) line then 0 else 4)
          (codes "Extra space before ( in function call"))

-- `[^)]\s+\)\s*[^{\s]`, and `^\s+\)` for the message.
unfoldable pub report_close : ℕ → Text → List Report
report_close linenum fncall =
    report_if
      (found
        (char_not_in ")"
          ⨟ blanks1
          ⨟ chr b')'
          ⨟ blanks
          ⨟ one (λ c. not (nat_beq c b'{' || is_space c)))
        fncall)
      (parens linenum 2 (
        if found (line_start ⨟ blanks1 ⨟ chr b')') fncall
        then codes "Closing ) should be moved to the previous line"
        else codes "Extra space before )"))

-- `CheckSpacingForFunctionCall`
unfoldable pub check_spacing_for_function_call : ℕ → Text → List Report
unfolding call_text controls control_word function_pointer array_pointer report_open report_close
check_spacing_for_function_call linenum line =
    let fncall = call_text controls line in
    if not (found control_word fncall)
      && not (found function_pointer fncall)
      && not (found array_pointer fncall)
    then report_open linenum line fncall ++ report_close linenum fncall
    else []
