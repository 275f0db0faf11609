-- ===== src/Brackets.antt =====
-- The matching of brackets in lab5/cpplint.py, over lines that have no strings and comments:
-- `FindEndOfExpressionInLine` and `CloseExpression`. A stack has its top first.
pub mod Reverse
pub mod Nesting
pub mod Bounds
mod Examples
use cs.Base.{
  ℕ, zero, suc, ◌+◌, Bool, true, false, not, ◌&&◌, ◌||◌, Option, none, some, List, [], ◌∷◌, Text,
  codes, contains, nat_eq, nat_beq, length, get_elem?, take, drop, reversed, if◌then◌else◌,
}
use cs.Re.{Pattern, lit, one, ◌⨟◌, many, space, boundary, line_end, matches, search_in}

-- What a scan of one line comes to: the position just after the end, no end, or a stack with
-- which the next line goes on.
pub data Scan : Type 0 where
  closed : ℕ → Scan
  failed : Scan
  unfinished : Text → Scan

-- What one character does: the scan goes on with a stack, or it stops.
pub data Step : Type 0 where
  go : Text → Step
  stop : Scan → Step

-- `\boperator\s*$`
unfoldable pub operator_before : Pattern
operator_before = boundary ⨟ lit (codes "operator") ⨟ many space ⨟ line_end

-- The text that was read, last character first, ends in the word `operator`.
unfoldable pub after_operator : Text → Bool
after_operator past = elim (search_in operator_before (reversed past)) [
  | none ↦ false
  | some _ ↦ true
]

abbrev pub top_is : ℕ → Text → Bool
top_is c [] = false
top_is c (d ∷ _) = nat_beq d c

abbrev pub pop : Text → Text
pop [] = []
pop (_ ∷ stack) = stack

-- `while stack and stack[-1] == c: stack.pop()`
unfoldable pub drop_angles : ℕ → Text → Text
drop_angles c [] = []
drop_angles c (d ∷ stack) = if nat_beq d c then drop_angles c stack else d ∷ stack

abbrev pub is_pair : ℕ → ℕ → Bool
is_pair left right =
    (nat_beq left b'(' && nat_beq right b')')
    || ((nat_beq left b'[' && nat_beq right b']') || (nat_beq left b'{' && nat_beq right b'}'))

abbrev pub is_open : ℕ → Bool
is_open c = nat_beq c b'(' || (nat_beq c b'[' || nat_beq c b'{')

abbrev pub is_close : ℕ → Bool
is_close c = nat_beq c b')' || (nat_beq c b']' || nat_beq c b'}')

-- Go on if a bracket is still open, or stop.
abbrev pub unless_empty : Scan → Text → Step
unless_empty r [] = stop r
unless_empty r (c ∷ stack) = go (c ∷ stack)

-- `<`: a shift operator, the name of an operator, or perhaps the start of template arguments.
unfoldable pub less_than : Text → Text → Step
less_than past stack =
    if top_is b'<' past
    then (if top_is b'<' stack then unless_empty failed (pop stack) else go stack)
    else if not (nat_beq (length past) 0) && after_operator past
    then go stack
    else go (b'<' ∷ stack)

-- A closing bracket, against the stack without its pending `<`.
unfoldable pub close_bracket : ℕ → ℕ → Text → Step
close_bracket i char [] = stop failed
close_bracket i char (left ∷ stack) =
    if is_pair left char then unless_empty (closed (i + 1)) stack else stop failed

-- `>`: part of an arrow or of an operator's name, or perhaps the end of template arguments. The
-- search for the name leaves out the character before the `>`.
unfoldable pub greater_than : ℕ → Text → Text → Step
greater_than i past stack =
    if not (nat_beq (length past) 0) && (top_is b'-' past || after_operator (pop past))
    then go stack
    else if top_is b'<' stack
    then unless_empty (closed (i + 1)) (pop stack)
    else go stack

unfoldable pub end_step : ℕ → Text → Text → Step
unfolding drop_angles less_than close_bracket greater_than
end_step char past stack =
    let i = length past in
    if is_open char
    then go (char ∷ stack)
    else if nat_beq char b'<'
    then less_than past stack
    else if is_close char
    then close_bracket i char (drop_angles b'<' stack)
    else if nat_beq char b'>'
    then greater_than i past stack
    else if nat_beq char b';'
    then unless_empty failed (drop_angles b'<' stack)
    else go stack

unfoldable pub scan_end : Text → Text → Text → Scan
scan_end past [] stack = unfinished stack
scan_end past (char ∷ rest) stack = elim (end_step char past stack) [
  | go stack' ↦ scan_end (char ∷ past) rest stack'
  | stop r ↦ r
]

-- `FindEndOfExpressionInLine`
unfoldable pub find_end_of_expression_in_line : Text → ℕ → Text → Scan
unfolding scan_end
find_end_of_expression_in_line line startpos stack =
    scan_end (reversed (take startpos line)) (drop startpos line) stack

-- A line, its number, and a position on it, `none` for -1.
pub record Place : Type 0 where
  pub line : Text
  pub linenum : ℕ
  pub pos : Option ℕ

-- The loop of `CloseExpression` over the lines below `linenum`.
unfoldable pub close_below : ℕ → Text → ℕ → List Text → Text → Place
close_below total line linenum rest [] = record { line = line; linenum = total; pos = none }
close_below total line linenum [] (c ∷ stack) = record { line = line; linenum = total; pos = none }
close_below total line linenum (next ∷ rest) (c ∷ stack) =
    elim (find_end_of_expression_in_line next 0 (c ∷ stack)) [
      | closed p ↦ record { line = next; linenum = suc linenum; pos = some p }
      | failed ↦ record { line = next; linenum = total; pos = none }
      | unfinished stack' ↦ close_below total next (suc linenum) rest stack'
    ]

-- `<[<=]`
unfoldable pub shift_or_compare : Pattern
shift_or_compare = lit (codes "<") ⨟ one (λ c. nat_beq c b'<' || nat_beq c b'=')

abbrev pub is_found : Option ℕ → Bool
is_found none = false
is_found (some _) = true

abbrev pub starts : Pattern → Text → Bool
starts m text = elim (matches m text) [ none ↦ false | some _ ↦ true ]

unfoldable pub close_from : List Text → ℕ → Text → ℕ → Place
unfolding close_below
close_from elided linenum line pos = elim (find_end_of_expression_in_line line pos []) [
  | closed p ↦ record { line = line; linenum = linenum; pos = some p }
  | failed ↦ record { line = line; linenum = length elided; pos = none }
  | unfinished stack ↦ close_below (length elided) line linenum (drop (suc linenum) elided) stack
]

unfoldable pub close_at : List Text → ℕ → Text → ℕ → ℕ → Place
close_at elided linenum line pos char =
    if not (is_open char || nat_beq char b'<') || starts shift_or_compare (drop pos line)
    then record { line = line; linenum = length elided; pos = none }
    else close_from elided linenum line pos

-- `CloseExpression`, over the elided lines; `none` for the IndexError on a position that is not
-- there.
unfoldable pub close_expression : List Text → ℕ → ℕ → Option Place
unfolding close_at close_from
close_expression elided linenum pos = elim (get_elem? elided linenum) [
  | none ↦ none
  | some line ↦ elim (get_elem? line pos) [
    | none ↦ none
    | some char ↦ some (close_at elided linenum line pos char)
  ]
]
