-- ===== src/CleansedLines.antt =====
-- The class `CleansedLines` of lab5/cpplint.py: the lines of a file without raw strings, without
-- comments, and without the contents of strings. A loop that would run out of its fuel, and an
-- access to a match that is not there, give `none`.
pub mod RawStrings
pub mod Strings
pub mod Sizes
mod Examples
use cs.Base.{
  ℕ, zero, suc, ◌+◌, Bool, true, false, not, ◌&&◌, ◌||◌, Option, none, some, List, [], ◌∷◌, ◌++◌,
  Text, codes, map, contains, leb, text_eq, ◌==◌, is_space, nat_beq, nat_eq, length, drop, find,
  replace, if◌then◌else◌,
}
use cs.Re.{
  Pattern, Found, one, lit, ◌⨟◌, ◌∣∣◌, optional, many, some_of, lazy_many, group, space, any_char,
  is_digit, is_hex, is_letter, is_word, line_start, line_end, boundary, group_of, matches,
  search_in, sub,
}
use cs.Comments.{cleanse_comments}
use cs.Includes.{include_pattern}

-- `^(\s*)\S`
unfoldable pub leading_space : Pattern
leading_space = line_start ⨟ group 1 (many space) ⨟ one (λ c. not (is_space c))

abbrev pub is_delimiter_char : ℕ → Bool
is_delimiter_char c = not (is_space c || (nat_beq c b'\\' || (nat_beq c b'(' || nat_beq c b')')))

-- `^(.*?)\b(?:R|u8R|uR|UR|LR)"([^\s\\()]*)\((.*)$`
unfoldable pub raw_string_start : Pattern
raw_string_start =
    line_start
    ⨟ group 1 (lazy_many (one any_char))
    ⨟ boundary
    ⨟ (lit (codes "R")
        ∣∣ lit (codes "u8R")
        ∣∣ lit (codes "uR")
        ∣∣ lit (codes "UR")
        ∣∣ lit (codes "LR"))
    ⨟ lit (codes "\"")
    ⨟ group 2 (many (one is_delimiter_char))
    ⨟ lit (codes "(")
    ⨟ group 3 (many (one any_char))
    ⨟ line_end

-- `^([^'"]|'(\\.|[^'])*'|"(\\.|[^"])*")*//`
unfoldable pub comment_start : Pattern
comment_start =
    let quoted = (λ (q : ℕ).
      one (λ c. nat_beq c q)
      ⨟ many (lit (codes "\\") ⨟ one any_char ∣∣ one (λ c. not (nat_beq c q)))
      ⨟ one (λ c. nat_beq c q)) in
    line_start
    ⨟ many (one (λ c. not (nat_beq c b'\'' || nat_beq c b'"')) ∣∣ quoted b'\'' ∣∣ quoted b'"')
    ⨟ lit (codes "//")

abbrev pub group_text : Found → ℕ → Text
group_text f i = elim (group_of f i) [ none ↦ [] | some t ↦ t ]

abbrev pub delimiter_of : Found → Text
delimiter_of f = b')' ∷ (group_text f 2 ++ codes "\"")

-- The rest of a raw string that began on this line.
abbrev pub close_raw : Found → Option ℕ → Text × Option Text
close_raw f none = (group_text f 1 ++ codes "\"\"", some (delimiter_of f))
close_raw f (some end) = (
  group_text f 1 ++ (codes "\"\"" ++ drop (end + length (delimiter_of f)) (group_text f 3)),
  none,
)

-- A raw string that begins outside of a comment.
abbrev pub raw_string_in : Text → Option Found
raw_string_in line = elim (matches raw_string_start line) [
  | none ↦ none
  | some f ↦ elim (matches comment_start (group_text f 1)) [ none ↦ some f | some _ ↦ none ]
]

-- The loop over the raw strings of a line: the line, and the delimiter of a string that goes on.
unfoldable pub raw_loop : ℕ → Text → Option (Text × Option Text)
raw_loop zero line = none
raw_loop (suc fuel) line = elim (raw_string_in line) [
  | none ↦ some (line, none)
  | some f ↦
      let (line', delimiter) = close_raw f (find (group_text f 3) (delimiter_of f)) in
      elim delimiter [ none ↦ raw_loop fuel line' | some d ↦ some (line', some d) ]
]

-- A line inside a raw string, up to its delimiter.
unfoldable pub resume : Text → Text → Option (Text × Option Text)
resume delimiter line = elim (find line delimiter) [
  | none ↦ some (codes "\"\"", some delimiter)
  | some end ↦ elim (matches leading_space line) [
    | none ↦ none
    | some f ↦ some (group_text f 1 ++ (codes "\"\"" ++ drop (end + length delimiter) line), none)
  ]
]

abbrev pub loop_unless : Option (Text × Option Text) → Option (Text × Option Text)
loop_unless none = none
loop_unless (some (line, none)) = raw_loop (suc (length line)) line
loop_unless (some (line, some d)) = some (line, some d)

unfoldable pub raw_line : Option Text → Text → Option (Text × Option Text)
unfolding raw_loop resume
raw_line none line = loop_unless (some (line, none))
raw_line (some delimiter) line = loop_unless (resume delimiter line)

unfoldable pub raw_lines_from : Option Text → List Text → Option (List Text)
unfolding raw_line
raw_lines_from delimiter [] = some []
raw_lines_from delimiter (line ∷ rest) = elim (raw_line delimiter line) [
  | none ↦ none
  | some (line', delimiter') ↦ elim (raw_lines_from delimiter' rest) [
    | none ↦ none
    | some out ↦ some (line' ∷ out)
  ]
]

-- `CleanseRawStrings`
unfoldable pub cleanse_raw_strings : List Text → Option (List Text)
unfolding raw_lines_from
cleanse_raw_strings raw_lines = raw_lines_from none raw_lines

-- `_RE_PATTERN_CLEANSE_LINE_ESCAPES`: `\\([abfnrtv?"\\']|\d+|x[0-9a-fA-F]+)`
unfoldable pub cleanse_line_escapes : Pattern
cleanse_line_escapes =
    lit (codes "\\")
    ⨟ (one (λ c. contains (codes "abfnrtv?\"\\'") c)
        ∣∣ some_of (one is_digit)
        ∣∣ lit (codes "x") ⨟ some_of (one is_hex))

-- `^([^'"]*)(['"])(.*)$`
unfoldable pub first_quote : Pattern
first_quote =
    line_start
    ⨟ group 1 (many (one (λ c. not (nat_beq c b'\'' || nat_beq c b'"'))))
    ⨟ group 2 (one (λ c. nat_beq c b'\'' || nat_beq c b'"'))
    ⨟ group 3 (many (one any_char))
    ⨟ line_end

-- `\b(?:0[bBxX]?|[1-9])[0-9a-fA-F]*$`
unfoldable pub number_end : Pattern
number_end =
    boundary
    ⨟ (lit (codes "0") ⨟ optional (one (λ c. contains (codes "bBxX") c))
        ∣∣ one (λ c. leb b'1' c && leb c b'9'))
    ⨟ many (one is_hex)
    ⨟ line_end

-- `^((?:'?[0-9a-zA-Z_])*)(.*)$`
unfoldable pub literal_rest : Pattern
literal_rest =
    line_start
    ⨟ group 1 (many (optional (lit (codes "'")) ⨟ one is_word))
    ⨟ group 2 (many (one any_char))
    ⨟ line_end

-- What one round of the loop does: it adds a text to the result, and goes on with what is left or
-- stops.
pub data Round : Type 0 where
  more : Text → Text → Round
  last : Text → Round
  broken : Round

-- Past the second quote, if there is one.
abbrev pub skip_string : Text → ℕ → Text → Text → Round
skip_string head quote tail elided = elim (find tail (quote ∷ [])) [
  | none ↦ last elided
  | some second_quote ↦ more (head ++ (quote ∷ quote ∷ [])) (drop (second_quote + 1) tail)
]

-- A single quote behind a number separates digits.
abbrev pub skip_digits : Text → Text → Round
skip_digits head tail = elim (matches literal_rest (b'\'' ∷ tail)) [
  | none ↦ broken
  | some f ↦ more (head ++ replace (codes "'") [] (group_text f 1)) (group_text f 2)
]

unfoldable pub quote_round : Text → Round
quote_round elided = elim (matches first_quote elided) [
  | none ↦ last elided
  | some f ↦
      let head = group_text f 1 in
      let tail = group_text f 3 in
      if group_text f 2 == codes "\""
      then skip_string head b'"' tail elided
      else (elim (search_in number_end head) [
        | none ↦ skip_string head b'\'' tail elided
        | some _ ↦ skip_digits head tail
      ])
]

unfoldable pub quote_loop : ℕ → Text → Option Text
unfolding quote_round
quote_loop zero elided = none
quote_loop (suc fuel) elided = elim (quote_round elided) [
  | broken ↦ none
  | last t ↦ some t
  | more t rest ↦ elim (quote_loop fuel rest) [ none ↦ none | some out ↦ some (t ++ out) ]
]

-- `_CollapseStrings`
unfoldable pub collapse_strings : Text → Option Text
unfolding quote_loop
collapse_strings elided = elim (matches include_pattern elided) [
  | some _ ↦ some elided
  | none ↦
      let unescaped = sub cleanse_line_escapes [] elided in
      quote_loop (suc (length unescaped)) unescaped
]

pub record CleansedLines : Type 0 where
  pub elided : List Text
  pub lines : List Text
  pub raw_lines : List Text
  pub num_lines : ℕ
  pub lines_without_raw_strings : List Text

unfoldable pub elided_lines : List Text → Option (List Text)
unfolding collapse_strings
elided_lines [] = some []
elided_lines (line ∷ rest) = elim (collapse_strings line) [
  | none ↦ none
  | some collapsed ↦ elim (elided_lines rest) [
    | none ↦ none
    | some out ↦ some (cleanse_comments collapsed ∷ out)
  ]
]

-- `CleansedLines.__init__`
unfoldable pub cleansed_lines : List Text → Option CleansedLines
unfolding cleanse_raw_strings elided_lines
cleansed_lines lines = elim (cleanse_raw_strings lines) [
  | none ↦ none
  | some without ↦ elim (elided_lines without) [
    | none ↦ none
    | some elided ↦ some (record {
      elided = elided;
      lines = map cleanse_comments without;
      raw_lines = lines;
      num_lines = length lines;
      lines_without_raw_strings = without;
    })
  ]
]
