-- ===== src/Style/Conditions.antt =====
-- `check_braces` comes to an end without an IndexError.
use cs.Base.{
  ℕ, zero, suc, ◌+◌, ◌-◌, ◌≡◌, ◌<◌, ◌≤◌, refl, ap, Bool-cases, Option-cases, inl, inr, Option, none,
  some, List, [], ◌++◌, Text, codes, find, length, length-append, drop, arith,
}
use cs.Re.{Found, ◌⨟◌, boundary, search_in}
use cs.Re.Reads.{Reads, boundary-Reads}
use cs.Re.Shows.{Shows, search_in-Shows}
use cs.Re.Shapes.{Shape, Empty-Shape, ⨟-Shape, lit-Shape, one-Shape}
use cs.Re.Short.{str, chr, blanks, found, starts_at}
use cs.LineChecks.Namespaces.{line_at}
use cs.Statements.Braces.{
  else_if, condition_start, check_else_if, check_else_braces, if_or_else, check_single_statement,
  check_braces, end_of,
}
use cs.Style.Places.{Gives, close_expression-Gives, length-drop, blanks-Shape, lt-length_of_find}

condition_start-lt : (line : Text) (p : ℕ) → condition_start line ≡ some p → p < length line
unfolding condition_start
condition_start-lt line p h = elim (Option-cases (find line (codes "else if"))) [
  | inl e ↦ elim (Option-cases (find (drop (length line - 1) line) (codes "("))) [
    | inl f ↦ absurd (ground arith)
    | inr (n, f) ↦
        let lt = lt-length_of_find _ (codes "(") n f (omega arith) in
        let g : some (length line - 1 + n) ≡ some p = rw (e, f, condition_start) at h in
        ground (arith, length-drop (length line - 1) line)
  ]
  | inr (at, e) ↦ elim (Option-cases (find (drop at line) (codes "("))) [
    | inl f ↦ absurd (ground arith)
    | inr (n, f) ↦
        let lt = lt-length_of_find _ (codes "(") n f (omega arith) in
        let g : some (at + n) ≡ some p = rw (e, f, condition_start) at h in
        ground (arith, length-drop at line)
  ]
]

if-Shape : Reads (boundary ⨟ str "if" ⨟ blanks ⨟ chr b'(') (Shape 3 [])
if-Shape =
    ⨟-Shape _ _ (Empty-Shape _ boundary-Reads)
      (⨟-Shape _ _ (lit-Shape (codes "if")) (⨟-Shape _ _ blanks-Shape (one-Shape _)))

end_of-le :
    {n : ℕ} (line : Text) (f : Found)
    → Shows (Shape n []) line f
    → (end_of f ≤ length line) × (n ≤ end_of f)
end_of-le line f s = (
  omega (
    arith,
    ap (length {0}) s.text_eq,
    length-append f.before (f.whole ++ f.after),
    length-append f.whole f.after,
  ),
  omega (arith, s.gained.fits),
)

module _ (elided : List Text) (linenum : ℕ) (here : linenum < length elided) where
  check_else_if-Gives : Gives (check_else_if elided linenum (line_at elided linenum))
  unfolding check_else_if
  check_else_if-Gives = go (condition_start (line_at elided linenum)) refl
    where
      go :
          (o : Option ℕ)
          → condition_start (line_at elided linenum) ≡ o
          → Gives (check_else_if elided linenum (line_at elided linenum))
      go none e = rw (e, check_else_if) ([], refl)
      go (some zero) e = rw (e, check_else_if) ([], refl)
      go (some (suc n)) e =
          let (place, g) =
            close_expression-Gives elided linenum (suc n) here (condition_start-lt _ (suc n) e) in
          rw (e, check_else_if) (rw g (_, refl))

  check_else_braces-Gives : Gives (check_else_braces elided linenum (line_at elided linenum))
  unfolding check_else_braces
  check_else_braces-Gives = elim (Bool-cases (found else_if (line_at elided linenum))) [
    | inl chained ↦ rw (chained, check_else_braces) check_else_if-Gives
    | inr plain ↦ rw (plain, check_else_braces) (_, refl)
  ]

  -- The search for the parenthesis of the `if`.
  abbrev if_match : Option Found
  if_match = search_in (boundary ⨟ str "if" ⨟ blanks ⨟ chr b'(') (line_at elided linenum)

  check_single_statement-Gives :
      Gives (check_single_statement elided linenum (line_at elided linenum))
  unfolding check_single_statement
  check_single_statement-Gives =
      elim (Option-cases (search_in if_or_else (line_at elided linenum))) [
        | inl e ↦ rw (e, check_single_statement) ([], refl)
        | inr (m, e) ↦ elim (Bool-cases (starts_at (blanks ⨟ chr b'#') (line_at elided linenum))) [
          | inl macro ↦ rw (e, macro, check_single_statement) ([], refl)
          | inr code ↦ elim (Option-cases if_match) [
            | inl f ↦ rw (e, code, f, check_single_statement) (_, refl)
            | inr (i, f) ↦
                let (low, high) = end_of-le _ i (search_in-Shows _ _ i if-Shape f) in
                let (place, g) =
                  close_expression-Gives elided linenum (end_of i - 1) here (omega arith) in
                rw (e, code, f, check_single_statement) (rw g (_, refl))
          ]
        ]
      ]

  pub check_braces-Gives :
      (width : Text → ℕ) (line_length : ℕ) → Gives (check_braces width line_length elided linenum)
  unfolding check_braces
  check_braces-Gives width line_length =
      let (a, e) = check_else_braces-Gives in
      let (b, f) = check_single_statement-Gives in rw (e, f, check_braces) (_, refl)
