-- ===== src/FunctionState/Bodies.antt =====
-- `CheckForFunctionLengths` of lab5/cpplint.py, which finds the functions' bodies. A line that is
-- not there, and an access to a match or a word that is missing, give `none`.
use cs.Base.{
  ℕ, Bool, true, false, ◌||◌, ◌&&◌, Option, none, some, List, [], ◌∷◌, ◌++◌, Text, codes, get_elem?,
  drop, left_strip, nat_beq, leb, text_eq, ◌==◌,
}
use cs.Re.{
  Pattern, one, lit, ◌⨟◌, ◌∣∣◌, many, some_of, group, space, any_char, is_word, line_start,
  line_end, matches, search_in,
}
use cs.Nolint.{Report}
use cs.CleansedLines.{CleansedLines, group_text}
use cs.HeaderGuard.Checks.{words}
use cs.FunctionState.{FunctionState, begin, check, count, end_function}

-- `(\w(\w|::|\*|\&|\s)*)\(`
unfoldable pub declaration : Pattern
declaration =
    group 1 (
      one is_word
      ⨟ many (
          group 2 (one is_word ∣∣ lit (codes "::") ∣∣ lit (codes "*") ∣∣ lit (codes "&") ∣∣ space)))
    ⨟ lit (codes "(")

abbrev pub is_macro_char : ℕ → Bool
is_macro_char c = (leb b'A' c && leb c b'Z') || nat_beq c b'_'

-- `[A-Z_]+$`
unfoldable pub macro_name : Pattern
macro_name = some_of (one is_macro_char) ⨟ line_end

-- `(;|})` and `{`
unfoldable pub body_end : Pattern
body_end = group 1 (lit (codes ";") ∣∣ lit (codes "}"))

unfoldable pub body_start : Pattern
body_start = lit (codes "{")

-- `((\w|:)*)\(`
unfoldable pub called_name : Pattern
called_name = group 1 (many (group 2 (one is_word ∣∣ lit (codes ":")))) ⨟ lit (codes "(")

-- `(\(.*\))`
unfoldable pub parameters : Pattern
parameters = group 1 (lit (codes "(") ⨟ many (one any_char) ⨟ lit (codes ")"))

-- `^\}\s*$` and `^\s*$`
unfoldable pub function_end : Pattern
function_end = line_start ⨟ lit (codes "}") ⨟ many space ⨟ line_end

unfoldable pub no_text : Pattern
no_text = line_start ⨟ many space ⨟ line_end

-- `xs[-1]`, with `none` for the IndexError.
unfoldable pub last_word : List Text → Option Text
last_word [] = none
last_word (w ∷ []) = some w
last_word (w ∷ v ∷ rest) = last_word (v ∷ rest)

-- A name in capitals is a macro's, unless it is a test's.
unfoldable pub is_function_name : Text → Bool
is_function_name name =
    (name == codes "TEST")
    || ((name == codes "TEST_F")
        || (elim (matches macro_name name) [ none ↦ true | some _ ↦ false ]))

-- Whether a function starts on the line.
unfoldable pub starting_func : Text → Option Bool
unfolding last_word is_function_name
starting_func line = elim (matches declaration line) [
  | none ↦ some false
  | some f ↦ elim (last_word (words (group_text f 1))) [
    | none ↦ none
    | some name ↦ some (is_function_name name)
  ]
]

-- The name of a function, with the parameters of a test.
unfoldable pub function_title : Text → Text → Option Text
function_title line joined_line = elim (search_in called_name line) [
  | none ↦ none
  | some f ↦
      let function = group_text f 1 in
      some (elim (matches (lit (codes "TEST")) function) [
        | none ↦ function ++ codes "()"
        | some _ ↦ elim (search_in parameters joined_line) [
          | none ↦ function
          | some p ↦ function ++ group_text p 1
        ]
      ])
]

-- What the search for a function's body finds: nothing, the end of a declaration or of a trivial
-- function, or a body, with the lines up to it joined.
pub data Body : Type 0 where
  no_body : Body
  trivial : Body
  opens : Text → Body

unfoldable pub find_body : List Text → Text → Body
find_body [] joined_line = no_body
find_body (start_line ∷ rest) joined_line =
    let joined = joined_line ++ (codes " " ++ left_strip start_line) in
    let later = find_body rest joined in
    elim (search_in body_end start_line) [
      | some _ ↦ trivial
      | none ↦ elim (search_in body_start start_line) [ some _ ↦ opens joined | none ↦ later ]
    ]

abbrev pub no_body_report : ℕ → Report
no_body_report linenum = record {
  linenum = linenum;
  category = codes "readability/fn_size";
  confidence = 5;
  message = codes "Lint failed to find start of function body.";
}

-- A line on which a function starts; `lines` are those from this one on.
unfoldable pub enter_function :
    ℕ → Text → List Text → FunctionState → Option (FunctionState × List Report)
unfolding find_body function_title begin
enter_function linenum line lines s = elim (find_body lines []) [
  | no_body ↦ some (s, no_body_report linenum ∷ [])
  | trivial ↦ some (s, [])
  | opens joined ↦ elim (function_title line joined) [
    | none ↦ none
    | some function ↦ some (begin function s, [])
  ]
]

-- Any other line.
unfoldable pub inside_function : ℕ → ℕ → Text → FunctionState → FunctionState × List Report
unfolding check count end_function
inside_function verbose linenum line s = elim (matches function_end line) [
  | some _ ↦ (end_function s, check verbose linenum s)
  | none ↦ elim (matches no_text line) [ some _ ↦ (s, []) | none ↦ (count s, []) ]
]

-- `CheckForFunctionLengths`, at the verbosity `verbose`.
unfoldable pub check_for_function_lengths :
    ℕ → CleansedLines → ℕ → FunctionState → Option (FunctionState × List Report)
unfolding starting_func enter_function inside_function
check_for_function_lengths verbose clean_lines linenum s =
    elim (get_elem? clean_lines.lines linenum) [
      | none ↦ none
      | some line ↦ elim (starting_func line) [
        | none ↦ none
        | some true ↦ enter_function linenum line (drop linenum clean_lines.lines) s
        | some false ↦ some (inside_function verbose linenum line s)
      ]
    ]
