-- ===== src/FunctionState/Examples.antt =====
-- The length of functions at concrete inputs.
use cs.Base.{
  ℕ, ◌≡◌, ◌*◌, ◌^◌, ◌≤◌, ◌<◌, refl, true, suc, none, some, List, [], ◌∷◌, Text, codes, All, length,
  arith,
}
use cs.Re.{all_patterns}
use cs.Nolint.{Report}
use cs.FunctionState.{
  FunctionState, initial, begin, end_function, count, base_trigger, test_name, check,
}
use cs.Includes.{include_pattern}
use cs.Comments.{
  cleanse_comments, is_cpp_string, c_comment, cleanse_line_c_comments, before_comment,
}
use cs.CleansedLines.{
  CleansedLines, leading_space, raw_string_start, comment_start, cleanse_raw_strings,
  cleanse_line_escapes, first_quote, number_end, literal_rest, collapse_strings, cleansed_lines,
}
use cs.HeaderGuard.Checks.{words}
use cs.FunctionState.Bodies.{
  declaration, macro_name, body_end, body_start, called_name, parameters, function_end, no_text,
  last_word, is_function_name, starting_func, function_title, find_body, enter_function,
  inside_function, check_for_function_lengths,
}
use cs.FunctionState.Calls.{Effect, check_for_function_lengths_total}
use cs.FunctionState.Size.{count_lines, check_reports, check-count_lines}

abbrev long : FunctionState
long = record { in_a_function = true; lines_in_function = 2100; current_function = codes "main" }

check_reports_example :
    (length (check 1 9 long) ≡ 1)
    × All
        (λ (r : Report).
          (r.confidence ≤ 5)
          × (2 ^ r.confidence * 250 ≤ 2100)
          × (r.confidence < 5 → 2100 < 2 ^ suc r.confidence * 250)
          × (1 ≤ r.confidence))
        (check 1 9 long)
unfolding base_trigger test_name all_patterns
check_reports_example = check_reports 1 9 long

check-count_lines_example :
    (length (check 0 9 (count_lines 251 (begin (codes "main") initial))) ≡ 1)
    × (check 0 9 (end_function (count_lines 251 (begin (codes "main") initial))) ≡ [])
unfolding base_trigger test_name all_patterns
check-count_lines_example = check-count_lines (codes "main") 251 0 9 initial

test_function : base_trigger (codes "TESTAll") ≡ 400
unfolding base_trigger test_name all_patterns
test_function = refl

abbrev file : List Text
file =
    codes "int f(int a,"
    ∷ codes "      int b) {"
    ∷ codes "TEST_F(A, B) {"
    ∷ codes "int g();"
    ∷ codes "}"
    ∷ codes "MACRO(x) {"
    ∷ []

abbrev lines : CleansedLines
lines = record {
  elided = file;
  lines = file;
  raw_lines = file;
  num_lines = 6;
  lines_without_raw_strings = file;
}

-- The function that begins on the line, if there is one.
abbrev begun : ℕ → Text
begun n = elim (check_for_function_lengths 0 lines n initial) [
  | none ↦ []
  | some (s, _) ↦ s.current_function
]

beginnings :
    (begun 0 ≡ codes "f()") × (begun 2 ≡ codes "TEST_F(A, B)") × (begun 3 ≡ []) × (begun 5 ≡ [])
unfolding check_for_function_lengths starting_func enter_function inside_function is_function_name
    last_word function_title find_body declaration macro_name body_end body_start called_name
    parameters function_end no_text words begin count end_function check base_trigger test_name
    all_patterns
beginnings = (refl, refl, refl, refl)

file_is_cleansed : cleansed_lines file ≡ some lines
unfolding cleansed_lines cleanse_raw_strings leading_space raw_string_start comment_start
    collapse_strings cleanse_line_escapes first_quote number_end literal_rest include_pattern
    cleanse_comments is_cpp_string c_comment cleanse_line_c_comments before_comment all_patterns
file_is_cleansed = refl

check_for_function_lengths_total_example :
    (t : FunctionState) × (reports : List Report) × (check_for_function_lengths 1 lines 2 initial
      ≡ some (t, reports))
    × Effect 1 2 initial t reports
check_for_function_lengths_total_example =
    check_for_function_lengths_total 1 file lines 2 initial file_is_cleansed (omega arith)
