-- ===== src/Spacing/Operators.antt =====
-- `CheckOperatorSpacing` of lab5/cpplint.py.
pub mod Loop
use cs.Base.{
  ℕ, zero, suc, Bool, true, false, not, ◌&&◌, ◌||◌, Option, none, some, List, [], ◌∷◌, ◌++◌, Text,
  codes, nat_beq, leb, text_eq, ◌==◌, length, contains, nat_eq, is_space, if◌then◌else◌,
}
use cs.Re.{
  Pattern, Found, one, ◌⨟◌, ◌∣∣◌, optional, many, some_of, group, space, boundary, line_start,
  is_digit, is_letter, line_end, any_char, matches, search_in,
}
use cs.Re.Short.{
  str, chr, char_in, char_not_in, blanks, word_char, anything, any_of, found, starts_at,
}
use cs.CleansedLines.{group_text}
use cs.Brackets.{Place, close_expression}
use cs.Brackets.Reverse.{reverse_close_expression}
use cs.Nolint.{Report}
use cs.LineChecks.{report, report_if}
use cs.LineChecks.Namespaces.{line_at}

abbrev operators : ℕ → ℕ → Text → Report
operators linenum confidence message = report linenum "whitespace/operators" confidence message

-- `^(.*\boperator\b)(\S+)(\s*\(.*)$`
unfoldable pub operator_method : Pattern
operator_method =
    line_start
    ⨟ group 1 (anything ⨟ boundary ⨟ str "operator" ⨟ boundary)
    ⨟ group 2 (some_of (one (λ c. not (is_space c))))
    ⨟ group 3 (blanks ⨟ chr b'(' ⨟ anything)
    ⨟ line_end

-- `'_' * n`
unfoldable pub underscores : Text → Text
underscores [] = []
underscores (c ∷ t) = b'_' ∷ underscores t

unfoldable pub hide_operator : Found → Text
unfolding underscores
hide_operator match = group_text match 1 ++ (underscores (group_text match 2) ++ group_text match 3)

-- The loop that replaces the characters of operators; `none` where the fuel runs out.
unfoldable pub hide_operators : ℕ → Text → Option Text
unfolding operator_method
hide_operators zero line = none
hide_operators (suc fuel) line = elim (matches operator_method line) [
  | none ↦ some line
  | some match ↦ hide_operators fuel (hide_operator match)
]

-- `[\w.]=` and `=[\w.]`
unfoldable pub tight_equals : Text → Bool
tight_equals line =
    let word_or_dot = word_char ∣∣ chr b'.' in
    found (word_or_dot ⨟ chr b'=') line || found (chr b'=' ⨟ word_or_dot) line

-- `(>=|<=|==|!=|&=|\^=|\|=|\+=|\*=|\/=|\%=)`
unfoldable pub compound_equals : Pattern
compound_equals =
    any_of (">=" ∷ "<=" ∷ "==" ∷ "!=" ∷ "&=" ∷ "^=" ∷ "|=" ∷ "+=" ∷ "*=" ∷ "/=" ∷ "%=" ∷ [])

unfoldable pub missing_around_equals : Text → Bool
unfolding tight_equals compound_equals
missing_around_equals line =
    tight_equals line
    && not (found (boundary ⨟ any_of ("if" ∷ "while" ∷ "for" ∷ []) ⨟ chr 32) line)
    && not (found compound_equals line)
    && not (found (str "operator=") line)

-- `[^<>=!\s](==|!=|<=|>=|\|\|)[^<>=!\s,;\)]`
unfoldable pub tight_comparison : Pattern
tight_comparison =
    one (λ c. not (contains (codes "<>=!") c || is_space c))
    ⨟ group 1 (any_of ("==" ∷ "!=" ∷ "<=" ∷ ">=" ∷ "||" ∷ []))
    ⨟ one (λ c. not (contains (codes "<>=!,;)") c || is_space c))

-- `^(.*[^\s<])<[^\s=<,]` and `^(.*[^-\s>])>[^\s=>,]`
unfoldable pub tight_less : Pattern
tight_less =
    line_start
    ⨟ group 1 (anything ⨟ one (λ c. not (is_space c || nat_beq c b'<')))
    ⨟ chr b'<'
    ⨟ one (λ c. not (is_space c || contains (codes "=<,") c))

unfoldable pub tight_greater : Pattern
tight_greater =
    line_start
    ⨟ group 1 (anything ⨟ one (λ c. not (is_space c || contains (codes "->") c)))
    ⨟ chr b'>'
    ⨟ one (λ c. not (is_space c || contains (codes "=>,") c))

-- An error where the angle bracket has no partner. `none` stands for an IndexError.
abbrev pub unless_closed : ℕ → Text → Option Place → Option (List Report)
unless_closed linenum message none = none
unless_closed linenum message (some place) = elim place.pos [
  | none ↦ some (operators linenum 3 message ∷ [])
  | some p ↦ some []
]

abbrev pub both : Option (List Report) → Option (List Report) → Option (List Report)
both none _ = none
both (some first) none = none
both (some first) (some second) = some (first ++ second)

unfoldable pub check_less : List Text → ℕ → Text → Option (List Report)
unfolding tight_less
check_less elided linenum line = elim (matches tight_less line) [
  | none ↦ some []
  | some match ↦
      unless_closed linenum (codes "Missing spaces around <")
        (close_expression elided linenum (length (group_text match 1)))
]

unfoldable pub check_greater : List Text → ℕ → Text → Option (List Report)
unfolding tight_greater
check_greater elided linenum line = elim (matches tight_greater line) [
  | none ↦ some []
  | some match ↦
      unless_closed linenum (codes "Missing spaces around >")
        (reverse_close_expression elided linenum (length (group_text match 1)))
]

unfoldable pub check_comparisons : List Text → ℕ → Text → Option (List Report)
unfolding tight_comparison check_less check_greater
check_comparisons elided linenum line = elim (search_in tight_comparison line) [
  | some match ↦
      some (operators linenum 3 (codes "Missing spaces around " ++ group_text match 1) ∷ [])
  | none ↦
      if starts_at (chr b'#' ⨟ anything ⨟ str "include") line
      then some []
      else both (check_less elided linenum line) (check_greater elided linenum line)
]

-- `(operator|[^\s(<])(?:L|UL|LL|ULL|l|ul|ll|ull)?<<([^\s,=<])`
unfoldable pub tight_shift : Pattern
tight_shift =
    group 1 (str "operator" ∣∣ one (λ c. not (is_space c || contains (codes "(<") c)))
    ⨟ optional (any_of ("L" ∷ "UL" ∷ "LL" ∷ "ULL" ∷ "l" ∷ "ul" ∷ "ll" ∷ "ull" ∷ []))
    ⨟ str "<<"
    ⨟ group 2 (one (λ c. not (is_space c || contains (codes ",=<") c)))

-- `s.isdigit()`
unfoldable pub all_digits : Text → Bool
all_digits [] = true
all_digits (c ∷ t) = is_digit c && all_digits t

abbrev is_number : Text → Bool
is_number [] = false
is_number (c ∷ t) = all_digits (c ∷ t)

unfoldable pub check_shift : ℕ → Option Found → List Report
unfolding all_digits
check_shift linenum none = []
check_shift linenum (some match) =
    report_if
      (not (is_number (group_text match 1) && is_number (group_text match 2))
        && not ((group_text match 1 == codes "operator") && (group_text match 2 == codes ";")))
      (operators linenum 3 (codes "Missing spaces around <<"))

-- `>>[a-zA-Z_]` and `(!\s|~\s|[\s]--[\s;]|[\s]\+\+[\s;])`
unfoldable pub shift_before_word : Pattern
shift_before_word = str ">>" ⨟ one (λ c. is_letter c || nat_beq c b'_')

unfoldable pub spaced_unary : Pattern
spaced_unary =
    let space_or_end = one (λ c. is_space c || nat_beq c b';') in
    group 1 (
      chr b'!' ⨟ space
      ∣∣ chr b'~' ⨟ space
      ∣∣ space ⨟ str "--" ⨟ space_or_end
      ∣∣ space ⨟ str "++" ⨟ space_or_end)

unfoldable pub check_unary : ℕ → Option Found → List Report
check_unary linenum none = []
check_unary linenum (some match) =
    operators linenum 4 (codes "Extra space for operator " ++ group_text match 1) ∷ []

-- The checks on the line whose operators are hidden.
unfoldable pub check_hidden : List Text → ℕ → Text → Option (List Report)
unfolding missing_around_equals check_comparisons tight_shift check_shift shift_before_word
    spaced_unary check_unary
check_hidden elided linenum line =
    both
      (some (
        report_if (missing_around_equals line)
          (operators linenum 4 (codes "Missing spaces around ="))))
      (both (check_comparisons elided linenum line) (
        some (
          check_shift linenum (search_in tight_shift line)
          ++ report_if (found shift_before_word line)
              (operators linenum 3 (codes "Missing spaces around >>"))
          ++ check_unary linenum (search_in spaced_unary line))))

-- `CheckOperatorSpacing`, with fuel for each character of the line.
unfoldable pub check_operator_spacing : List Text → ℕ → Option (List Report)
unfolding hide_operators check_hidden
check_operator_spacing elided linenum =
    let line = line_at elided linenum in
    elim (hide_operators (suc (length line)) line) [
      | none ↦ none
      | some hidden ↦ check_hidden elided linenum hidden
    ]
