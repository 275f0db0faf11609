-- ===== src/Nesting/Examples.antt =====
-- Runs of the nesting of blocks, and the theorems about it at concrete inputs.
use cs.Base.{
  ◌≡◌, refl, ℕ, zero, suc, true, Option, none, some, List, [], ◌∷◌, Text, codes, map, length, arith,
}
use cs.Re.{all_patterns}
use cs.Nolint.{Report}
use cs.Includes.{include_pattern}
use cs.CleansedLines.{
  CleansedLines, leading_space, raw_string_start, comment_start, cleanse_raw_strings,
  cleanse_line_escapes, first_quote, number_end, literal_rest, collapse_strings, cleansed_lines,
}
use cs.Comments.{
  cleanse_comments, is_cpp_string, c_comment, cleanse_line_c_comments, before_comment,
}
use cs.Nesting.{
  Block, NestingState, initial, if_line, else_line, endif_line, update_preprocessor, plain,
}
use cs.Nesting.Update.{update, brace_loop}
use cs.Nesting.Run.{all_nesting}
use cs.Nesting.Total.{update_total}
use cs.Nesting.Blocks.{block_info}
use cs.Nesting.Braces.{seen_blocks, read_braces, brace_loop_refines}
use cs.Nesting.Conditionals.{
  contents, IsIf, IsElse, IsEndif, first, update_preprocessor_conditional,
}

abbrev file : List Text
file =
    codes "namespace a { class B : C {"
    ∷ codes "public:"
    ∷ codes "#ifdef D"
    ∷ codes " void f() {"
    ∷ codes "#else"
    ∷ codes " } }"
    ∷ codes "#endif"
    ∷ codes " }"
    ∷ codes "  };"
    ∷ codes "}"
    ∷ []

abbrev lines : CleansedLines
lines = record {
  elided = file;
  lines = file;
  raw_lines = file;
  num_lines = 10;
  lines_without_raw_strings = file;
}

-- The first `k` lines from line `n`.
abbrev run : ℕ → ℕ → NestingState → Option NestingState
run zero n s = some s
run (suc k) n s = elim (update lines n s) [ none ↦ none | some (t, _) ↦ run k (suc n) t ]

abbrev depth : Option NestingState → ℕ
depth none = 0
depth (some s) = length s.stack

depths :
    map (λ k. depth (run k 0 initial)) (1 ∷ 2 ∷ 4 ∷ 5 ∷ 6 ∷ 7 ∷ 8 ∷ 9 ∷ 10 ∷ [])
    ≡ 2 ∷ 2 ∷ 3 ∷ 2 ∷ 0 ∷ 3 ∷ 2 ∷ 1 ∷ 0 ∷ []
unfolding all_nesting all_patterns
depths = refl

file_is_cleansed : cleansed_lines file ≡ some lines
unfolding cleansed_lines cleanse_raw_strings leading_space raw_string_start comment_start
    collapse_strings cleanse_line_escapes first_quote number_end literal_rest include_pattern
    cleanse_comments is_cpp_string c_comment cleanse_line_c_comments before_comment all_patterns
file_is_cleansed = refl

update_total_example :
    (t : NestingState) × (reports : List Report) × (update lines 0 initial ≡ some (t, reports))
update_total_example = update_total file lines 0 initial file_is_cleansed (omega arith)

-- The state after the line of the `#ifdef`.
abbrev after_if : NestingState
after_if = elim (run 1 2 initial) [ none ↦ initial | some t ↦ t ]

after_if_is : update lines 2 initial ≡ some (after_if, [])
unfolding all_nesting all_patterns
after_if_is = refl

brace_loop_refines_example :
    (t : NestingState) × (reports : List Report) × (brace_loop 9 lines 0 [] []
        (codes "{ { } ;")
        initial
      ≡ some (t, reports))
    × (seen_blocks t ≡ read_braces (codes "{ { } ;") [])
brace_loop_refines_example =
    brace_loop_refines 9 lines 0 [] [] (codes "{ { } ;") initial (omega arith)
      (refl, (refl, (refl, (refl, (refl, (refl, (refl, tt)))))))

abbrev block : Block
block = block_info 3 true plain

abbrev inside : NestingState
inside = record initial { stack = block ∷ []; pp_stack = after_if.pp_stack; next_identity = 1 }

ifdef-IsIf : IsIf (codes "#ifdef D")
unfolding if_line all_patterns
ifdef-IsIf = (
  record {
    before = [];
    whole = codes "#ifdef";
    after = codes " D";
    groups = (1, some (codes "ifdef")) ∷ [];
  },
  refl,
)

middle-IsElse : IsElse (codes "#else")
unfolding if_line else_line all_patterns
middle-IsElse = (
  refl,
  (
    record {
      before = [];
      whole = codes "#else";
      after = [];
      groups = (1, some (codes "else")) ∷ [];
    },
    refl,
  ),
)

ending-IsEndif : IsEndif (codes "#endif")
unfolding if_line else_line endif_line all_patterns
ending-IsEndif =
    (refl, refl, (record { before = []; whole = codes "#endif"; after = []; groups = [] }, refl))

after_if_opens : inside.pp_stack ≡ (update_preprocessor (codes "#ifdef D") initial).pp_stack
unfolding all_nesting all_patterns
after_if_opens = refl

update_preprocessor_conditional_example :
    let else_ = update_preprocessor (codes "#else") inside in
    (contents else_.stack ≡ [])
    × (contents (update_preprocessor (codes "#else") else_).stack ≡ [])
    × (contents (update_preprocessor (codes "#endif") else_).stack ≡ contents (block ∷ []))
    × ((update_preprocessor (codes "#endif") else_).pp_stack ≡ [])
update_preprocessor_conditional_example =
    update_preprocessor_conditional initial inside (update_preprocessor (codes "#else") inside)
      (codes "#ifdef D") (codes "#else") (codes "#endif") (codes "#else") ifdef-IsIf middle-IsElse
      ending-IsEndif middle-IsElse after_if_opens
      (first (update_preprocessor (codes "#else") inside))
