-- ===== src/Nesting/Templates.antt =====
-- `InTemplateArgumentList` of lab5/cpplint.py.
use cs.Base.{
  ℕ, zero, suc, ◌+◌, ◌-◌, Bool, true, false, not, Option, none, some, List, [], ◌∷◌, Text, codes,
  length, get_elem?, drop, ltb, leb, text_eq, contains, nat_eq, if◌then◌else◌,
}
use cs.Re.{Pattern, one, ◌⨟◌, many, group, any_char, line_start, matches}
use cs.Brackets.{Place, close_expression}
use cs.CleansedLines.{CleansedLines, group_text}

-- `^[^{};=\[\]\.<>]*(.)`
unfoldable pub template_token : Pattern
template_token =
    line_start ⨟ many (one (λ c. not (contains (codes "{};=[].<>") c))) ⨟ group 1 (one any_char)

-- What a token says: it ends the search with an answer, or is skipped, or opens an expression.
pub data Verdict : Type 0 where
  answer : Bool → Verdict
  skip : Verdict
  nested : Verdict

unfoldable pub verdict : Text → Verdict
verdict [] = skip
verdict (c ∷ _) =
    if contains (codes "{};") c
    then answer false
    else (if contains (codes ">=[].") c
        then answer true
        else (if contains (codes "<") c then nested else skip))

-- Where the search goes on, or how it ends.
pub data Round : Type 0 where
  found : Bool → Round
  next : ℕ → ℕ → Round
  index_error : Round

-- Past the expression that the token before `pos` opens.
abbrev pub after_expression : Option Place → Round
after_expression none = index_error
after_expression (some place) = elim place.pos [
  | none ↦ found false
  | some end_pos ↦ next place.linenum end_pos
]

-- The rest of the loop's body behind a token that ends at `pos`.
unfoldable pub token_round : List Text → ℕ → Text → ℕ → Text → Round
unfolding verdict
token_round elided linenum line pos token = elim (verdict token) [
  | answer b ↦ found b
  | skip ↦ if leb (length line) (pos + 1) then next (suc linenum) 0 else next linenum (pos + 1)
  | nested ↦ after_expression (close_expression elided linenum (pos - 1))
]

-- The body of the loop at `line`, the elided line `linenum`.
unfoldable pub template_round : List Text → ℕ → Text → ℕ → Round
unfolding token_round
template_round elided linenum line pos = elim (matches template_token (drop pos line)) [
  | none ↦ next (suc linenum) 0
  | some f ↦ token_round elided linenum line (pos + length f.whole) (group_text f 1)
]

unfoldable pub template_loop : ℕ → CleansedLines → ℕ → ℕ → Option Bool
unfolding template_round
template_loop zero lines linenum pos = none
template_loop (suc fuel) lines linenum pos =
    if ltb linenum lines.num_lines
    then (elim (get_elem? lines.elided linenum) [
      | none ↦ none
      | some line ↦ elim (template_round lines.elided linenum line pos) [
        | index_error ↦ none
        | found b ↦ some b
        | next linenum' pos' ↦ template_loop fuel lines linenum' pos'
      ]
    ])
    else some false

-- The lines' lengths, and two for each line: the rounds of the loop are at most as many.
unfoldable pub weight : List Text → ℕ
weight [] = 0
weight (line ∷ rest) = length line + 2 + weight rest

-- `in_template_argument_list`
unfoldable pub in_template_argument_list : CleansedLines → ℕ → ℕ → Option Bool
unfolding template_loop weight
in_template_argument_list lines linenum pos =
    template_loop (suc (weight lines.elided)) lines linenum pos
