-- ===== src/Spacing/Braces.antt =====
-- `CheckBracesSpacing` with `_IsType`, `IsDecltype`, `CheckSectionSpacing` and
-- `GetPreviousNonBlankLine` of lab5/cpplint.py.
use cs.Base.{
  ℕ, zero, suc, ◌+◌, ◌-◌, Bool, true, false, not, ◌&&◌, ◌||◌, Option, none, some, List, [], ◌∷◌,
  ◌++◌, Text, codes, nat_beq, leb, ltb, length, nat_eq, is_space, drop, take, find, if◌then◌else◌,
}
use cs.Re.{
  Pattern, Found, lit, one, ◌⨟◌, ◌∣∣◌, optional, many, some_of, group, boundary, line_start,
  line_end, matches,
}
use cs.Re.Short.{
  str, chr, char_in, char_not_in, blanks, blanks1, anything, any_of, found, starts_at,
}
use cs.CleansedLines.{group_text}
use cs.Brackets.{Place, close_expression}
use cs.Brackets.Reverse.{reverse_close_expression}
use cs.Nesting.{Block, NestingState, is_namespace}
use cs.Nolint.{Report}
use cs.LineChecks.{report, report_if}
use cs.LineChecks.Namespaces.{line_at}
use cs.Spacing.{is_blank_line, access_label}

-- `^.*(\b\S+)$`
unfoldable pub last_word : Pattern
last_word =
    line_start ⨟ anything ⨟ group 1 (boundary ⨟ some_of (one (λ c. not (is_space c)))) ⨟ line_end

-- `_TYPES`, whose last alternative is empty.
unfoldable pub types : Pattern
types =
    line_start
    ⨟ (group 1 (str "char" ⨟ optional (group 2 (any_of ("16_t" ∷ "32_t" ∷ []))))
        ∣∣ any_of (
            "wchar_t" ∷ "bool" ∷ "short" ∷ "int" ∷ "long" ∷ "signed" ∷ "unsigned" ∷ "float"
            ∷ "double" ∷ [])
        ∣∣ group 3 (any_of ("ptrdiff_t" ∷ "size_t" ∷ "max_align_t" ∷ "nullptr_t" ∷ []))
        ∣∣ group 4 (
            optional (chr b'u')
            ⨟ str "int"
            ⨟ optional (group 5 (any_of ("_fast" ∷ "_least" ∷ [])))
            ⨟ group 6 (any_of ("8" ∷ "16" ∷ "32" ∷ "64" ∷ []))
            ⨟ str "_t")
        ∣∣ group 7
            (optional (chr b'u') ⨟ str "int" ⨟ group 8 (any_of ("max" ∷ "ptr" ∷ [])) ⨟ str "_t")
        ∣∣ str "")
    ⨟ line_end

-- `\b(?:typename|class|struct)\s+…\b`
abbrev pub typename_of : Text → Pattern
typename_of token =
    boundary ⨟ any_of ("typename" ∷ "class" ∷ "struct" ∷ []) ⨟ blanks1 ⨟ lit token ⨟ boundary

abbrev has_template : Text → Bool
has_template line = elim (find line (codes "template")) [ none ↦ false | some i ↦ true ]

-- The search for a `template` from the line `last_line` up to `next_block_start`. The `rounds` are
-- the lines that are left.
unfoldable pub first_line : List Text → ℕ → ℕ → Option ℕ
first_line elided zero line = none
first_line elided (suc rounds) line =
    let above = first_line elided rounds (line - 1) in
    if has_template (line_at elided line) then some line else above

-- Some line of a range has the pattern.
unfoldable pub any_line : Pattern → List Text → Bool
any_line m [] = false
any_line m (line ∷ lines) = found m line || any_line m lines

abbrev pub declared_from : List Text → Pattern → ℕ → Option ℕ → Bool
declared_from elided pattern last_line none = false
declared_from elided pattern last_line (some first) =
    any_line pattern (take (last_line + 1 - first) (drop first elided))

abbrev start_of : List Block → ℕ
start_of [] = 0
start_of (b ∷ rest) = b.starting_linenum

-- The loop over the blocks, from the top of the stack.
unfoldable pub declared_in : List Text → Pattern → List Block → Bool
unfolding first_line any_line
declared_in elided pattern [] = false
declared_in elided pattern (b ∷ rest) =
    let last_line = b.starting_linenum in
    let first = first_line elided (last_line + 1 - start_of rest) last_line in
    if is_namespace b.kind
    then false
    else declared_from elided pattern last_line first || declared_in elided pattern rest

unfoldable pub token_of : Text → Text
unfolding last_word
token_of expr = elim (matches last_word expr) [ none ↦ expr | some m ↦ group_text m 1 ]

-- `_IsType`
unfoldable pub is_type : List Text → NestingState → Text → Bool
unfolding types token_of declared_in
is_type elided nesting_state expr =
    starts_at types (token_of expr)
    || declared_in elided (typename_of (token_of expr)) nesting_state.stack

-- `^(.*[^ ({>]){`
unfoldable pub tight_brace : Pattern
tight_brace = line_start ⨟ group 1 (anything ⨟ char_not_in " ({>") ⨟ chr b'{'

unfoldable pub joined : List Text → Text
joined [] = []
joined (line ∷ lines) = line ++ joined lines

abbrev rest_of_line : Place → Text
rest_of_line place = elim place.pos [ none ↦ [] | some p ↦ drop p place.line ]

-- What follows the closing brace, with the lines of
-- `xrange(endlinenum + 1, min(endlinenum + 3, num_lines - 1))`.
unfoldable pub trailing_text : List Text → Place → Text
unfolding joined
trailing_text elided place =
    rest_of_line place
    ++ joined
        (take 2 (take (length elided - 1 - (place.linenum + 1)) (drop (place.linenum + 1) elided)))

-- `^[\s}]*[{.;,)<>\]:]`
unfoldable pub trails : Pattern
trails = line_start ⨟ many (one (λ c. is_space c || nat_beq c b'}')) ⨟ char_in "{.;,)<>]:"

unfoldable pub check_opening_brace : List Text → NestingState → ℕ → Option (List Report)
unfolding tight_brace trailing_text trails
check_opening_brace elided nesting_state linenum =
    elim (matches tight_brace (line_at elided linenum)) [
      | none ↦ some []
      | some match ↦ elim (close_expression elided linenum (length (group_text match 1))) [
        | none ↦ none
        | some place ↦ some (
            report_if
              (not (starts_at trails (trailing_text elided place))
                && not (is_type elided nesting_state (group_text match 1)))
              (report linenum "whitespace/braces" 5 (codes "Missing space before {")))
      ]
    ]

abbrev semicolon : ℕ → Text → Report
semicolon linenum message = report linenum "whitespace/semicolon" 5 message

-- `:\s*;\s*$`, `^\s*;\s*$` and `\s+;\s*$`
unfoldable pub check_last_semicolon : ℕ → Text → List Report
check_last_semicolon linenum line =
    let ending = chr b';' ⨟ blanks ⨟ line_end in
    if found (chr b':' ⨟ blanks ⨟ ending) line
    then semicolon linenum (codes "Semicolon defining empty statement. Use {} instead.") ∷ []
    else if found (line_start ⨟ blanks ⨟ ending) line
    then semicolon linenum (
        codes "Line contains only semicolon. If this should be an empty statement, use {} instead.")
      ∷ []
    else report_if
        (found (blanks1 ⨟ ending) line && not (found (boundary ⨟ str "for" ⨟ boundary) line))
        (semicolon linenum (
          codes
            "Extra space before last semicolon. If this should be an empty statement, use {} instead."))

-- `CheckBracesSpacing`
unfoldable pub check_braces_spacing : List Text → NestingState → ℕ → Option (List Report)
unfolding check_opening_brace check_last_semicolon
check_braces_spacing elided nesting_state linenum =
    let line = line_at elided linenum in
    elim (check_opening_brace elided nesting_state linenum) [
      | none ↦ none
      | some reports ↦ some (
          reports
          ++ report_if (found (str "}else") line)
              (report linenum "whitespace/braces" 5 (codes "Missing space before else"))
          ++ check_last_semicolon linenum line)
    ]

-- `IsDecltype`
unfoldable pub is_decltype : List Text → ℕ → ℕ → Option Bool
is_decltype elided linenum column = elim (reverse_close_expression elided linenum column) [
  | none ↦ none
  | some place ↦ elim place.pos [
    | none ↦ some false
    | some start_col ↦
        some (found (boundary ⨟ str "decltype" ⨟ blanks ⨟ line_end) (take start_col place.line))
  ]
]

-- The first line from `i` on that ends in an opening brace, or `default`.
unfoldable pub class_head_end : List Text → ℕ → ℕ → ℕ → ℕ
class_head_end lines default zero i = default
class_head_end lines default (suc more) i =
    let later = class_head_end lines default more (suc i) in
    if found (chr b'{' ⨟ blanks ⨟ line_end) (line_at lines i) then i else later

unfoldable pub needs_blank_line : Text → Bool
needs_blank_line prev_line =
    not (is_blank_line prev_line)
    && not (found (boundary ⨟ any_of ("class" ∷ "struct" ∷ []) ⨟ boundary) prev_line)
    && not (found (chr 92 ⨟ line_end) prev_line)

abbrev report_section : List Text → ℕ → ℕ → Option Found → List Report
report_section lines start linenum none = []
report_section lines start linenum (some matched) =
    report_if
      (needs_blank_line (line_at lines (linenum - 1))
        && ltb (class_head_end lines start (linenum - start) start) (linenum - 1))
      (report linenum "whitespace/blank_line" 3
        (codes "\"" ++ group_text matched 1 ++ codes ":\" should be preceded by a blank line"))

-- `CheckSectionSpacing`, on a class that begins at the line `start` and ends at `last_line`.
unfoldable pub check_section_spacing : List Text → ℕ → ℕ → ℕ → List Report
unfolding needs_blank_line class_head_end
check_section_spacing lines start last_line linenum =
    if leb last_line (start + 24) || leb linenum start
    then []
    else report_section lines start linenum (matches access_label (line_at lines linenum))

-- `GetPreviousNonBlankLine`: the line, empty if there is none, with its number.
unfoldable pub get_previous_non_blank_line : List Text → ℕ → Text × Option ℕ
get_previous_non_blank_line lines zero = ([], none)
get_previous_non_blank_line lines (suc n) =
    let above = get_previous_non_blank_line lines n in
    if is_blank_line (line_at lines n) then above else (line_at lines n, some n)
