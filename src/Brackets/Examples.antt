-- ===== src/Brackets/Examples.antt =====
-- Searches for brackets at concrete inputs.
use cs.Base.{◌≡◌, refl, List, [], ◌∷◌, some, Text, codes}
use cs.Re.{all_patterns}
use cs.Brackets.{
  closed, failed, Place, operator_before, after_operator, end_step, find_end_of_expression_in_line,
  shift_or_compare, close_expression,
}
use cs.Brackets.Nesting.{WellNested, empty, plain, nest, find_end-WellNested, find_end-mismatch}
use cs.Brackets.Reverse.{
  find_start_of_expression_in_line, reverse_close_expression, start_step, spaced_compare,
  find_start-WellNested,
}
use cs.Brackets.Bounds.{IsEnd, close_expression-IsEnd}

-- `a[1],b`
abbrev inside : Text
inside = codes "a[1],b"

inside-WellNested : WellNested inside
inside-WellNested =
    plain b'a' refl
      (nest b'[' b']' refl (plain b'1' refl empty) (plain b',' refl (plain b'b' refl empty)))

find_end-WellNested_example :
    find_end_of_expression_in_line (codes "f(a[1],b); g();") 1 [] ≡ closed 9
find_end-WellNested_example =
    find_end-WellNested (codes "f") (codes "; g();") b'(' b')' refl inside-WellNested

find_end-mismatch_example : find_end_of_expression_in_line (codes "f(a[1],b]; g();") 1 [] ≡ failed
find_end-mismatch_example =
    find_end-mismatch (codes "f") (codes "; g();") b'(' b']' refl refl refl inside-WellNested

find_start-WellNested_example :
    find_start_of_expression_in_line (codes "f(a[1],b); g();") 9 [] ≡ closed 1
find_start-WellNested_example =
    find_start-WellNested (codes "f") (codes "; g();") b'(' b')' refl inside-WellNested

abbrev file : List Text
file = codes "f(a," ∷ codes "  vector<int> b," ∷ codes "  c << d);" ∷ []

close_expression-IsEnd_example :
    (place : Place) × (close_expression file 0 1 ≡ some place) × IsEnd file 0 1 place
close_expression-IsEnd_example = close_expression-IsEnd file 0 1 refl refl

closed_below :
    close_expression file 0 1
    ≡ some (record { line = codes "  c << d);"; linenum = 2; pos = some 9 })
unfolding close_expression find_end_of_expression_in_line end_step after_operator operator_before
    shift_or_compare all_patterns
closed_below = refl

opened_above :
    reverse_close_expression file 2 8
    ≡ some (record { line = codes "f(a,"; linenum = 0; pos = some 1 })
unfolding reverse_close_expression find_start_of_expression_in_line start_step after_operator
    operator_before spaced_compare all_patterns
opened_above = refl

template_arguments :
    find_end_of_expression_in_line (codes "map<int, list<int> > m;") 3 [] ≡ closed 20
unfolding find_end_of_expression_in_line end_step after_operator operator_before all_patterns
template_arguments = refl

-- The `>` of an operator's name is taken for the end of template arguments.
operator_greater : find_end_of_expression_in_line (codes "<&A::operator> >") 0 [] ≡ closed 14
unfolding find_end_of_expression_in_line end_step after_operator operator_before all_patterns
operator_greater = refl
