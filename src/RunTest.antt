-- ===== src/RunTest.antt =====
-- lab1/runtest.py, which runs the tests of the allocator and prints a score. `./utils/difftest.sh`
-- is the parameter `difftest`: what the script prints for a test, or `none` where it fails and
-- `check_output` raises; it gives the same at each run.
pub mod Sums
pub mod Score
mod Examples
use cs.Base.{
  ℕ, zero, suc, ◌+◌, ◌*◌, ◌/◌, ◌%◌, Bool, true, false, ◌||◌, Option, none, some, List, [], ◌∷◌,
  ◌++◌, Text, codes, nat_beq, show, text_eq, ◌==◌, if◌then◌else◌,
}

-- A Python number of points: its value in halves of a point, and whether it is a float.
pub record Points : Type 0 where
  pub halves : ℕ
  pub is_float : Bool

abbrev pub points : ℕ → Points
points n = record { halves = 2 * n; is_float = false }

-- `n.5`
abbrev and_a_half : ℕ → Points
and_a_half n = record { halves = 2 * n + 1; is_float = true }

unfoldable pub add_points : Points → Points → Points
add_points a b = record { halves = a.halves + b.halves; is_float = a.is_float || b.is_float }

-- `str(value)`
unfoldable pub show_points : Points → Text
show_points p =
    let whole = show (p.halves / 2) in
    if p.is_float
    then whole ++ (if nat_beq (p.halves % 2) 0 then codes ".0" else codes ".5")
    else whole

abbrev pub Test : Type 0
Test = Text × Points

abbrev pub part1_tests : List Test
part1_tests =
    (codes "test_exact", and_a_half 2)
    ∷ (codes "test_split", and_a_half 2)
    ∷ (codes "test_multi_malloc", and_a_half 2)
    ∷ (codes "test_insert_chunk", and_a_half 1)
    ∷ (codes "test_malloc_zero", points 1)
    ∷ []

abbrev pub malloc_tests : List Test
malloc_tests =
    (codes "test_exact", points 5)
    ∷ (codes "test_split", points 5)
    ∷ (codes "test_multi_malloc", points 5)
    ∷ []

abbrev pub free_tests : List Test
free_tests =
    (codes "test_free_insert", points 4)
    ∷ (codes "test_free_left", points 4)
    ∷ (codes "test_free_right", points 4)
    ∷ (codes "test_free_both", points 4)
    ∷ (codes "test_free_even", points 5)
    ∷ (codes "test_free_odd", points 5)
    ∷ []

abbrev pub chunk_tests : List Test
chunk_tests =
    (codes "test_insert_chunk", points 3)
    ∷ (codes "test_coalesce_chunk_insert", points 3)
    ∷ (codes "test_coalesce_chunk_coalesce", points 3)
    ∷ (codes "test_malloc_large", points 5)
    ∷ []

abbrev pub robustness_tests : List Test
robustness_tests = (codes "test_large", points 10) ∷ (codes "test_all_lists", points 5) ∷ []

abbrev pub other_tests : List Test
other_tests =
    (codes "test_locks", points 2)
    ∷ (codes "test_malloc_zero", points 2)
    ∷ (codes "test_free_null", points 2)
    ∷ (codes "test_double_free", points 2)
    ∷ (codes "test_out_of_ram", points 2)
    ∷ []

abbrev pub my_tests : List Test
my_tests = (codes "test_exact", points 1) ∷ []

-- An escape sequence of the terminal, `\033[…m`.
abbrev escape : Text → Text
escape n = 27 ∷ (codes "[" ++ (n ++ codes "m"))

abbrev color : Text → Text → Text
color c s = c ++ (s ++ escape (codes "0"))

abbrev pub red : Text → Text
red = color (escape (codes "31"))

abbrev pub green : Text → Text
green = color (escape (codes "32"))

abbrev pub blue : Text → Text
blue = color (escape (codes "34"))

-- `print(s)`
abbrev pub print : Text → Text
print s = s ++ codes "\n"

unfoldable pub indent : ℕ → Text
indent zero = []
indent (suc n) = codes "\t" ++ indent n

abbrev is_empty : Text → Bool
is_empty [] = true
is_empty (_ ∷ _) = false

abbrev pub test_text : Text → Text → Points → Text
test_text name verdict value = codes "TEST: " ++ (name ++ (verdict ++ show_points value))

-- What a test whose script printed `res` prints, and whether it has passed.
unfoldable pub test_result : Text → Text → Points → Bool → ℕ → Text × Bool
unfolding indent show_points
test_result res name value verbose indentby =
    if is_empty res
    then (indent indentby ++ print (green (test_text name (codes " PASSED ") value)), true)
    else (
      indent indentby
          ++ (print (red (test_text name (codes " FAILED ") value))
              ++ (if verbose then print res else [])),
      false,
    )

abbrev pub color_of : Points → Points → Text → Text
color_of earned total = if nat_beq earned.halves total.halves then green else red

abbrev pub score : Points → Points → Text
score earned total = show_points earned ++ (codes "/" ++ show_points total)

-- What a suite prints around the text of its tests.
unfoldable pub suite_text : Text → ℕ → Text → Points → Points → Text
unfolding indent show_points
suite_text name indentby out earned total =
    indent indentby
    ++ (print
          (blue (codes "SUITE: " ++ (name ++ (codes " " ++ (show_points total ++ codes " pts")))))
        ++ (out
            ++ (indent indentby
                ++ (print (color_of earned total (codes "Subtotal: " ++ score earned total))
                    ++ print []))))

unfoldable pub total_points : List Test → Points → Points
unfolding add_points
total_points [] total = total
total_points ((name, value) ∷ suite) total = total_points suite (add_points total value)

-- The suites of a full run.
abbrev pub suites : List (Text × List Test)
suites =
    (codes "Malloc Tests", malloc_tests)
    ∷ (codes "Free Tests", free_tests)
    ∷ (codes "Multiple Chunk Tests", chunk_tests)
    ∷ (codes "Other Tests", other_tests)
    ∷ (codes "Robustness Tests", robustness_tests)
    ∷ []

abbrev note : Text
note =
    codes
      "\nNOTE:\nThe grade you receive for Part 1 tests turned in by the deadline for Part 1 will be worth 10% of your final grade\nAdditional tests that will not be given out will be worth an additional 10 points in the final grading"

module _ (difftest : Text → Option Text) where
  unfoldable pub run_test : Text → Points → Bool → ℕ → Option (Text × Bool)
  unfolding test_result
  run_test name value verbose indentby = elim (difftest name) [
    | none ↦ none
    | some res ↦ some (test_result res name value verbose indentby)
  ]

  -- The loop over the tests: what they print, and the points earned.
  unfoldable pub run_tests : List Test → Bool → ℕ → Points → Option (Text × Points)
  unfolding run_test add_points
  run_tests [] verbose indentby earned = some ([], earned)
  run_tests ((name, value) ∷ suite) verbose indentby earned =
      elim (run_test name value verbose (indentby + 1)) [
        | none ↦ none
        | some (out, passed) ↦
            let earned' = if passed then add_points earned value else earned in
            elim (run_tests suite verbose indentby earned') [
              | none ↦ none
              | some (more, all) ↦ some (out ++ more, all)
            ]
      ]

  -- `runSuite`: what it prints, and the pair that it returns.
  unfoldable pub run_suite : Text → List Test → Bool → ℕ → Option (Text × Points × Points)
  unfolding run_tests total_points suite_text
  run_suite name suite verbose indentby =
      let total = total_points suite (points 0) in
      elim (run_tests suite verbose indentby (points 0)) [
        | none ↦ none
        | some (out, earned) ↦ some (suite_text name indentby out earned total, earned, total)
      ]

  -- The suites of a full run one after the other, with the points so far.
  unfoldable pub run_suites :
      List (Text × List Test) → Text → Points → Points → Option (Text × Points × Points)
  unfolding run_suite add_points
  run_suites [] out earned total = some (out, earned, total)
  run_suites ((name, suite) ∷ rest) out earned total = elim (run_suite name suite false 0) [
    | none ↦ none
    | some (text, got, of) ↦
        run_suites rest (out ++ text) (add_points earned got) (add_points total of)
  ]

  -- The suite of the user's own tests, which does not count.
  abbrev run_mine : Bool → Option Text
  run_mine false = some []
  run_mine true = elim (run_suite (codes "My Tests") my_tests false 0) [
    | none ↦ none
    | some (out, _, _) ↦ some (print [] ++ out)
  ]

  unfoldable pub run_all : Bool → Option Text
  unfolding run_suites run_suite show_points
  run_all mine = elim (run_suites suites [] (points 0) (points 0)) [
    | none ↦ none
    | some (out, earned, total) ↦ elim (run_mine mine) [
      | none ↦ none
      | some more ↦ some (
          out
          ++ (print (color_of earned total (codes "\nTotal: " ++ score earned total))
              ++ (print note ++ more)))
    ]
  ]

  -- The script with the arguments `sys.argv[1:]`: what it prints, or `none` for an exception.
  unfoldable pub main : List Text → Option Text
  unfolding run_test run_suite run_all
  main (flag ∷ name ∷ []) =
      if flag == codes "-t"
      then (elim (run_test name (points 0) true 0) [ none ↦ none | some (out, _) ↦ some out ])
      else run_all false
  main (word ∷ []) =
      if word == codes "part1"
      then (elim (run_suite (codes "Part 1 Tests") part1_tests false 0) [
        | none ↦ none
        | some (out, _, _) ↦ some out
      ])
      else run_all (word == codes "all")
  main _ = run_all false
