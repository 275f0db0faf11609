-- ===== src/Style/Examples.antt =====
-- Runs of `check_style`, and its theorem at a concrete line.
use cs.Base.{ℕ, ◌≡◌, ◌∷◌, refl, Option, none, some, List, [], Text, codes, length}
use cs.CleansedLines.{CleansedLines}
use cs.Statements.{LineCall}
use cs.Nesting.{initial}
use cs.Style.{check_style}
use cs.Style.Run.{all_style}

abbrev width : Text → ℕ
width line = length line

abbrev of_lines : List Text → CleansedLines
of_lines lines = record {
  elided = lines;
  lines = lines;
  raw_lines = lines;
  num_lines = length lines;
  lines_without_raw_strings = lines;
}

abbrev file : CleansedLines
file = of_lines (
    codes ""
    ∷ codes "   if (a<b && c){return a+b;}; "
    ∷ codes "  while (x) {"
    ∷ codes "  };"
    ∷ codes "  if (operator+(a)==b) ;"
    ∷ codes "  CHECK(a == 1);"
    ∷ [])

abbrev number : Option (List LineCall) → Option ℕ
number none = none
number (some calls) = some (length calls)

crowded : number (check_style width 80 file 1 none initial) ≡ some 7
unfolding all_style
crowded = refl

trailing : number (check_style width 80 file 2 none initial) ≡ some 3
unfolding all_style
trailing = refl

checked : number (check_style width 80 file 5 none initial) ≡ some 1
unfolding all_style
checked = refl
