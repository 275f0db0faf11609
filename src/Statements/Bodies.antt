-- ===== src/Statements/Bodies.antt =====
-- `CheckEmptyBlockBody` of lab5/cpplint.py. `none` stands for an IndexError.
use cs.Base.{
  ℕ, suc, ◌+◌, ◌-◌, Bool, true, false, not, ◌&&◌, Option, none, some, List, [], ◌∷◌, ◌++◌, map,
  Text, codes, text_eq, ◌==◌, nat_beq, ltb, take, drop, find, if◌then◌else◌,
}
use cs.Re.{Pattern, ◌⨟◌, group, ahead, not_ahead, line_start, line_end, matches}
use cs.Re.Short.{str, chr, blanks, any_of, found, starts_at}
use cs.CleansedLines.{CleansedLines, group_text}
use cs.Comments.{cleanse_comments}
use cs.Brackets.{Place, close_expression}
use cs.Nolint.{Report}
use cs.LineChecks.{report, report_if}
use cs.LineChecks.Namespaces.{line_at}

-- `\s*(for|while|if)\s*\(`
unfoldable pub loop_or_if : Pattern
loop_or_if = blanks ⨟ group 1 (any_of ("for" ∷ "while" ∷ "if" ∷ [])) ⨟ blanks ⨟ chr b'('

abbrev empty_body : Bool → ℕ → Report
empty_body true linenum =
    report linenum "whitespace/empty_conditional_body" 5
      (codes "Empty conditional bodies should use {}")
empty_body false linenum =
    report linenum "whitespace/empty_loop_body" 5
      (codes "Empty loop bodies should use {} or continue")

-- The loop that looks for the opening brace: the line it is on, with the fragment of it.
unfoldable pub find_opening : Text → ℕ → List Text → Option (ℕ × Text)
find_opening fragment linenum [] =
    if found (line_start ⨟ blanks ⨟ chr b'{') fragment then some (linenum, fragment) else none
find_opening fragment linenum (line ∷ lines) =
    let further = find_opening line (suc linenum) lines in
    if found (line_start ⨟ blanks ⨟ chr b'{') fragment
    then some (linenum, fragment)
    else if found (line_start ⨟ not_ahead (blanks ⨟ line_end)) fragment
    then none
    else further

abbrev pub or_zero : Option ℕ → ℕ
or_zero none = 0
or_zero (some n) = n

abbrev single : ℕ → Text
single c = c ∷ []

unfoldable pub join_lines : List Text → Text
join_lines [] = []
join_lines (line ∷ []) = line
join_lines (line ∷ next ∷ lines) = line ++ (10 ∷ join_lines (next ∷ lines))

-- The body, between the brace at `opening_pos` and the one before `closing_pos`.
unfoldable pub body_text : CleansedLines → ℕ → ℕ → ℕ → ℕ → Text
unfolding join_lines
body_text clean_lines opening_linenum opening_pos closing_linenum closing_pos =
    let after = drop (opening_pos + 1) (line_at clean_lines.elided opening_linenum) in
    if ltb opening_linenum closing_linenum
    then join_lines (
        map single after
        ++ (take (closing_linenum - (opening_linenum + 1))
              (drop (opening_linenum + 1) clean_lines.raw_lines)
            ++ (take (closing_pos - 1) (line_at clean_lines.elided closing_linenum) ∷ [])))
    else take (closing_pos - 1 - (opening_pos + 1)) after

-- The loop that looks for an `else` behind the body: `^\s*$|^(?=\s*else)` and `^(?=\s*else)`.
unfoldable pub else_follows : Text → List Text → Bool
else_follows fragment [] = found (line_start ⨟ ahead (blanks ⨟ str "else")) fragment
else_follows fragment (line ∷ lines) =
    let further = else_follows line lines in
    if found (line_start ⨟ ahead (blanks ⨟ str "else")) fragment
    then true
    else if found (line_start ⨟ blanks ⨟ line_end) fragment
    then further
    else false

abbrev pub empty_if_body : ℕ → Report
empty_if_body linenum =
    report linenum "whitespace/empty_if_body" 4
      (codes "If statement had no body and no else clause")

-- The body between two braces is empty (`_EMPTY_CONDITIONAL_BODY_PATTERN`) with no `else` behind.
unfoldable pub check_if_closed : CleansedLines → ℕ → ℕ → ℕ → Place → List Report
unfolding body_text else_follows
check_if_closed clean_lines end_linenum opening_linenum opening_pos closing =
    let raw = line_at clean_lines.raw_lines opening_linenum in
    elim closing.pos [
      | none ↦ []
      | some closing_pos ↦
          report_if
            ((raw == cleanse_comments raw)
              && found (line_start ⨟ blanks ⨟ line_end)
                  (body_text clean_lines opening_linenum opening_pos closing.linenum closing_pos)
              && not (
                  else_follows (drop closing_pos closing.line)
                    (drop (suc closing.linenum) clean_lines.elided)))
            (empty_if_body end_linenum)
    ]

-- The part of the check on an `if` whose condition ends at `end_pos`.
unfoldable pub check_if_body : CleansedLines → Place → ℕ → Option (List Report)
unfolding find_opening check_if_closed
check_if_body clean_lines end end_pos =
    elim (find_opening (drop end_pos end.line) end.linenum
      (drop (suc end.linenum) clean_lines.elided)) [
        | none ↦ some []
        | some (opening_linenum, fragment) ↦
            let brace = or_zero (find fragment (codes "{")) in
            let opening_pos =
              if nat_beq opening_linenum end.linenum then brace + end_pos else brace in
            elim (close_expression clean_lines.elided opening_linenum opening_pos) [
              | none ↦ none
              | some closing ↦
                  some (check_if_closed clean_lines end.linenum opening_linenum opening_pos closing)
            ]
      ]

unfoldable pub check_condition_end : CleansedLines → Bool → Place → Option (List Report)
unfolding check_if_body
check_condition_end clean_lines is_if end = elim end.pos [
  | none ↦ some []
  | some end_pos ↦
      let followed =
        report_if (starts_at (chr b';') (drop end_pos end.line)) (empty_body is_if end.linenum) in
      if is_if
      then (elim (check_if_body clean_lines end end_pos) [
        | none ↦ none
        | some reports ↦ some (followed ++ reports)
      ])
      else some followed
]

-- `CheckEmptyBlockBody`
unfoldable pub check_empty_block_body : CleansedLines → ℕ → Option (List Report)
unfolding loop_or_if check_condition_end
check_empty_block_body clean_lines linenum =
    let line = line_at clean_lines.elided linenum in
    elim (matches loop_or_if line) [
      | none ↦ some []
      | some matched ↦
          elim (close_expression clean_lines.elided linenum (or_zero (find line (codes "(")))) [
            | none ↦ none
            | some end ↦ check_condition_end clean_lines (group_text matched 1 == codes "if") end
          ]
    ]
