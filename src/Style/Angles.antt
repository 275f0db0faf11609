-- ===== src/Style/Angles.antt =====
-- `check_operator_spacing` comes to an end without an IndexError.
use cs.Base.{
  ℕ, ◌≡◌, ◌<◌, ◌≤◌, refl, Bool-cases, Option-cases, inl, inr, Option, some, List, [], ◌∷◌, Text,
  nat_eq, length, arith,
}
use cs.Re.{◌⨟◌, search_in, matches}
use cs.Re.Reads.{Reads, line_start-Reads}
use cs.Re.Shows.{matches-Shows}
use cs.Re.Shapes.{Shape, Empty-Shape, ⨟-Shape, one-Shape, group-Shape}
use cs.Re.Short.{anything, starts_at, str, chr}
use cs.CleansedLines.{group_text}
use cs.Brackets.{Place}
use cs.Nolint.{Report}
use cs.LineChecks.Namespaces.{line_at}
use cs.Spacing.Operators.{
  tight_less, tight_greater, check_less, check_greater, unless_closed, both, check_comparisons,
  tight_comparison, check_hidden, check_operator_spacing,
}
use cs.Spacing.Operators.Loop.{hide_operators_total}
use cs.Style.Places.{
  Gives, close_expression-Gives, reverse_close_expression-Gives, group_one-lt, anything-Shape,
}

tight_less-Shape : Reads tight_less (Shape 2 (1 ∷ []))
unfolding tight_less
tight_less-Shape = ⨟-Shape _ _ (Empty-Shape _ line_start-Reads) (
    ⨟-Shape _ _ (group-Shape 1 _ (⨟-Shape _ _ anything-Shape (one-Shape _)))
      (⨟-Shape _ _ (one-Shape _) (one-Shape _)))

tight_greater-Shape : Reads tight_greater (Shape 2 (1 ∷ []))
unfolding tight_greater
tight_greater-Shape = ⨟-Shape _ _ (Empty-Shape _ line_start-Reads) (
    ⨟-Shape _ _ (group-Shape 1 _ (⨟-Shape _ _ anything-Shape (one-Shape _)))
      (⨟-Shape _ _ (one-Shape _) (one-Shape _)))

pub both-Gives : (a b : Option (List Report)) → Gives a → Gives b → Gives (both a b)
both-Gives a b (x, e) (y, f) = rw (e, f) (_, refl)

unless_closed-Gives :
    (linenum : ℕ) (message : Text) (o : Option Place)
    → Gives o
    → Gives (unless_closed linenum message o)
unless_closed-Gives linenum message o (place, e) = elim (Option-cases place.pos) [
  | inl f ↦ rw (e, f) (_, refl)
  | inr (p, f) ↦ rw (e, f) (_, refl)
]

module _ (elided : List Text) (linenum : ℕ) (here : linenum < length elided) (line : Text)
    (fits : length line ≤ length (line_at elided linenum)) where
  check_less-Gives : Gives (check_less elided linenum line)
  unfolding check_less
  check_less-Gives = elim (Option-cases (matches tight_less line)) [
    | inl e ↦ rw (e, check_less) ([], refl)
    | inr (f, e) ↦
        let lt = group_one-lt 1 line f (matches-Shows tight_less line f tight_less-Shape e) in
        rw (e, check_less)
          (unless_closed-Gives linenum _ _
            (close_expression-Gives elided linenum (length (group_text f 1)) here (omega arith)))
  ]

  check_greater-Gives : Gives (check_greater elided linenum line)
  unfolding check_greater
  check_greater-Gives = elim (Option-cases (matches tight_greater line)) [
    | inl e ↦ rw (e, check_greater) ([], refl)
    | inr (f, e) ↦
        let lt = group_one-lt 1 line f (matches-Shows tight_greater line f tight_greater-Shape e) in
        rw (e, check_greater)
          (unless_closed-Gives linenum _ _ (
            reverse_close_expression-Gives elided linenum (length (group_text f 1)) here
              (omega arith)))
  ]

  check_comparisons-Gives : Gives (check_comparisons elided linenum line)
  unfolding check_comparisons
  check_comparisons-Gives = elim (Option-cases (search_in tight_comparison line)) [
    | inr (f, e) ↦ rw (e, check_comparisons) (_, refl)
    | inl e ↦ elim (Bool-cases (starts_at (chr b'#' ⨟ anything ⨟ str "include") line)) [
      | inl include ↦ rw (e, include, check_comparisons) ([], refl)
      | inr other ↦
          rw (e, other, check_comparisons)
            (both-Gives (check_less elided linenum line) (check_greater elided linenum line)
              check_less-Gives check_greater-Gives)
    ]
  ]

  check_hidden-Gives : Gives (check_hidden elided linenum line)
  unfolding check_hidden
  check_hidden-Gives = both-Gives _ _ (_, refl) (both-Gives _ _ check_comparisons-Gives (_, refl))

-- On every line of the file, `check_operator_spacing` gives its reports: the loop that hides the
-- operators ends, and brackets are matched from characters that the line has.
pub check_operator_spacing_total :
    (elided : List Text) (linenum : ℕ)
    → linenum < length elided
    → (reports : List Report) × (check_operator_spacing elided linenum ≡ some reports)
unfolding check_operator_spacing
check_operator_spacing_total elided linenum here =
    let (hidden, e, fits) = hide_operators_total (line_at elided linenum) in
    rw (e, check_operator_spacing) (check_hidden-Gives elided linenum here hidden fits)
