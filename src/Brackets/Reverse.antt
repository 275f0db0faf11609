-- ===== src/Brackets/Reverse.antt =====
-- `FindStartOfExpressionInLine` and `ReverseCloseExpression` of lab5/cpplint.py: the same search
-- from a closing bracket back to the one that opens it.
use mathlib.Core.List.{append_assoc}
use cs.Base.{
  ℕ, zero, suc, ◌+◌, ◌≡◌, refl, ap, ◌∙◌, true, false, not, ◌&&◌, ◌||◌, Option, none, some, List, [],
  ◌∷◌, ◌++◌, Text, codes, arith, nat_beq, length, get_elem?, get_or, take, drop, reversed,
  reverse_onto, reverse_onto-append, length-reverse_onto, take-before, drop-before, if◌then◌else◌,
}
use cs.Re.{Pattern, lit, ◌⨟◌, space}
use cs.Brackets.{
  Scan, closed, failed, unfinished, Place, after_operator, top_is, pop, drop_angles, is_pair,
  is_open, is_close, starts,
}
use cs.Brackets.Nesting.{WellNested, empty, plain, nest}

-- What one character does: the scan goes on, over so many more characters, or it stops.
pub data Back : Type 0 where
  back : ℕ → Text → Back
  halt : Scan → Back

abbrev back_unless_empty : Scan → Text → Back
back_unless_empty r [] = halt r
back_unless_empty r (c ∷ stack) = back 0 (c ∷ stack)

-- `\s>=\s`
unfoldable pub spaced_compare : Pattern
spaced_compare = space ⨟ lit (codes ">=") ⨟ space

-- `line[i - 1:]`, where `more` is what stands before index `i`, last character first.
abbrev from_previous : Text → ℕ → Text → Text
from_previous [] char after = char ∷ after
from_previous (c ∷ _) char after = c ∷ char ∷ after

unfoldable pub start_greater : Text → Text → Text → Back
start_greater more after stack =
    if not (nat_beq (length more) 0)
      && (top_is b'-' more
          || (starts spaced_compare (from_previous more b'>' after) || after_operator more))
    then back 1 stack
    else back 0 (b'>' ∷ stack)

unfoldable pub start_less : Text → Text → Back
start_less more stack =
    if top_is b'<' more
    then back 1 stack
    else if top_is b'>' stack
    then back_unless_empty (closed (length more)) (pop stack)
    else back 0 stack

unfoldable pub open_bracket : ℕ → ℕ → Text → Back
open_bracket i char [] = halt failed
open_bracket i char (right ∷ stack) =
    if is_pair char right then back_unless_empty (closed i) stack else halt failed

unfoldable pub start_step : ℕ → Text → Text → Text → Back
unfolding drop_angles start_greater start_less open_bracket
start_step char more after stack =
    if is_close char
    then back 0 (char ∷ stack)
    else if nat_beq char b'>'
    then start_greater more after stack
    else if nat_beq char b'<'
    then start_less more stack
    else if is_open char
    then open_bracket (length more) char (drop_angles b'>' stack)
    else if nat_beq char b';'
    then back_unless_empty failed (drop_angles b'>' stack)
    else back 0 stack

-- The loop over the characters from index `length more` down; `skip` of them are passed over.
unfoldable pub scan_start : ℕ → Text → Text → Text → Scan
scan_start skip [] after stack = unfinished stack
scan_start (suc skip) (char ∷ more) after stack = scan_start skip more (char ∷ after) stack
scan_start zero (char ∷ more) after stack = elim (start_step char more after stack) [
  | back skip stack' ↦ scan_start skip more (char ∷ after) stack'
  | halt r ↦ r
]

-- `FindStartOfExpressionInLine(line, count - 1, stack)`: the search begins at the last of the first
-- `count` characters.
unfoldable pub find_start_of_expression_in_line : Text → ℕ → Text → Scan
unfolding scan_start
find_start_of_expression_in_line line count stack =
    scan_start 0 (reversed (take count line)) (drop count line) stack

-- The loop of `ReverseCloseExpression` over the lines above `linenum`, which are all there.
unfoldable pub close_above : List Text → Text → ℕ → Text → Place
close_above elided line linenum [] = record { line = line; linenum = 0; pos = none }
close_above elided line zero (c ∷ stack) = record { line = line; linenum = 0; pos = none }
close_above elided line (suc linenum) (c ∷ stack) =
    let above = get_or elided linenum [] in
    elim (find_start_of_expression_in_line above (length above) (c ∷ stack)) [
      | closed p ↦ record { line = above; linenum = linenum; pos = some p }
      | failed ↦ record { line = above; linenum = 0; pos = none }
      | unfinished stack' ↦ close_above elided above linenum stack'
    ]

unfoldable pub reverse_from : List Text → ℕ → Text → ℕ → Place
unfolding close_above
reverse_from elided linenum line pos = elim (find_start_of_expression_in_line line (pos + 1) []) [
  | closed p ↦ record { line = line; linenum = linenum; pos = some p }
  | failed ↦ record { line = line; linenum = 0; pos = none }
  | unfinished stack ↦ close_above elided line linenum stack
]

unfoldable pub reverse_at : List Text → ℕ → Text → ℕ → ℕ → Place
unfolding reverse_from
reverse_at elided linenum line pos char =
    if not (is_close char || nat_beq char b'>')
    then record { line = line; linenum = 0; pos = none }
    else reverse_from elided linenum line pos

-- `ReverseCloseExpression`, over the elided lines; `none` for the IndexError on a position that is
-- not there.
unfoldable pub reverse_close_expression : List Text → ℕ → ℕ → Option Place
unfolding reverse_at
reverse_close_expression elided linenum pos = elim (get_elem? elided linenum) [
  | none ↦ none
  | some line ↦ elim (get_elem? line pos) [
    | none ↦ none
    | some char ↦ some (reverse_at elided linenum line pos char)
  ]
]

step-plain :
    (c : ℕ) (more after stack : Text)
    → (is_open c || (is_close c || (nat_beq c b'<' || (nat_beq c b'>' || nat_beq c b';')))) ≡ false
    → start_step c more after stack ≡ back 0 stack
unfolding start_step
step-plain c more after stack h = ground arith

step-close :
    (o c : ℕ) (more after stack : Text)
    → is_pair o c ≡ true
    → start_step c more after stack ≡ back 0 (c ∷ stack)
unfolding start_step
step-close o c more after stack h = ground arith

step-open :
    (o c d : ℕ) (more after stack : Text)
    → is_pair o c ≡ true
    → start_step o more after (c ∷ d ∷ stack) ≡ back 0 (d ∷ stack)
unfolding start_step
step-open o c d more after stack h = ground arith

step-first :
    (o c : ℕ) (more after : Text)
    → is_pair o c ≡ true
    → start_step o more after (c ∷ []) ≡ halt (closed (length more))
unfolding start_step
step-first o c more after h = ground arith

scan-back :
    (c : ℕ) (more after stack stack' : Text)
    → start_step c more after stack ≡ back 0 stack'
    → scan_start 0 (c ∷ more) after stack ≡ scan_start 0 more (c ∷ after) stack'
unfolding scan_start
scan-back c more after stack stack' e = rw (e, scan_start)

scan-halt :
    (c : ℕ) (more after stack : Text) (r : Scan)
    → start_step c more after stack ≡ halt r
    → scan_start 0 (c ∷ more) after stack ≡ r
unfolding scan_start
scan-halt c more after stack r e = rw (e, scan_start)

scan_start-WellNested :
    {s : Text} (more after : Text) (d : ℕ) (stack : Text)
    → WellNested s
    → scan_start 0 (reverse_onto more s) after (d ∷ stack)
      ≡ scan_start 0 more (s ++ after) (d ∷ stack)
unfolding reverse_onto
scan_start-WellNested more after d stack empty = refl
scan_start-WellNested more after d stack (plain {s} c h w) =
    scan_start-WellNested (c ∷ more) after d stack w
    ∙ scan-back c more (s ++ after) _ _ (step-plain c more (s ++ after) (d ∷ stack) h)
scan_start-WellNested more after d stack (nest {s} {t} o c h w v) =
    let inner = reverse_onto (o ∷ more) s in
    rw (append_assoc s (c ∷ t) after, reverse_onto-append (o ∷ more) s (c ∷ t))
      (scan_start-WellNested (c ∷ inner) after d stack v
        ∙ scan-back c inner (t ++ after) _ _ (step-close o c inner (t ++ after) (d ∷ stack) h)
        ∙ scan_start-WellNested (o ∷ more) (c ∷ (t ++ after)) c (d ∷ stack) w
        ∙ scan-back o more _ _ _ (step-open o c d more (s ++ (c ∷ (t ++ after))) stack h))

-- From a closing bracket, back over well-nested text, `find_start_of_expression_in_line` gives the
-- position of the bracket that opens it, whatever stands before and behind on the line.
pub find_start-WellNested :
    (before rest : Text) {s : Text} (o c : ℕ)
    → is_pair o c ≡ true
    → WellNested s
    → let head = before ++ (o ∷ (s ++ c ∷ [])) in
      find_start_of_expression_in_line (head ++ rest) (length head) [] ≡ closed (length before)
unfolding find_start_of_expression_in_line reversed reverse_onto
find_start-WellNested before rest {s} o c h w =
    let head = before ++ (o ∷ (s ++ c ∷ [])) in
    let more = reverse_onto [] before in
    let inner = reverse_onto (o ∷ more) s in
    rw (take-before head rest, drop-before head rest)
      (rw
        (
          reverse_onto-append [] before (o ∷ (s ++ c ∷ [])),
          reverse_onto-append (o ∷ more) s (c ∷ []),
        )
        (scan-back c inner rest _ _ (step-close o c inner rest [] h)
          ∙ scan_start-WellNested (o ∷ more) (c ∷ rest) c [] w
          ∙ scan-halt o more _ _ _ (step-first o c more (s ++ (c ∷ rest)) h)
          ∙ ap closed (omega (arith, length-reverse_onto [] before))))
