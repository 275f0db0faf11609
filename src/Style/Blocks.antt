-- ===== src/Style/Blocks.antt =====
-- The checks of braces, semicolons and macros come to an end without an IndexError: they match
-- brackets from characters that the line has.
use cs.Base.{
  ℕ, ◌-◌, ◌≡◌, ◌<◌, refl, Bool-cases, Option-cases, inl, inr, Option, none, some, List, [], ◌∷◌,
  Text, codes, has, length, text_eq, arith, if◌then◌else◌,
}
use cs.Re.{◌⨟◌, ◌∣∣◌, group, line_start, matches}
use cs.Re.Reads.{Reads, line_start-Reads, boundary-Reads}
use cs.Re.Shows.{matches-Shows}
use cs.Re.Shapes.{
  Shape, Shape-weaken, Empty-Shape, ⨟-Shape, ∣∣-Shape, lit-Shape, one-Shape, group-Shape,
}
use cs.Re.Short.{str, chr, blanks}
use cs.CleansedLines.{CleansedLines, group_text}
use cs.Nesting.{NestingState}
use cs.Paths.{after_last}
use cs.LineChecks.Namespaces.{line_at}
use cs.Spacing.Braces.{tight_brace, check_opening_brace, check_braces_spacing}
use cs.Statements.Semicolons.{
  after_parenthesis, parenthesis_case, after_else_or_const, leading_brace, other_cases, find_brace,
  is_excluded, check_trailing_semicolon,
}
use cs.Statements.CheckMacros.{call_of, find_check_macro, check_macros, check_check}
use cs.Style.Places.{
  Gives, close_expression-Gives, reverse_close_expression-Gives, group_one-lt, anything-Shape,
  blanks-Shape, after_last-le,
}

tight_brace-Shape : Reads tight_brace (Shape 1 (1 ∷ []))
unfolding tight_brace
tight_brace-Shape =
    ⨟-Shape _ _ (Empty-Shape _ line_start-Reads)
      (⨟-Shape _ _ (group-Shape 1 _ (⨟-Shape _ _ anything-Shape (one-Shape _))) (one-Shape _))

after_parenthesis-Shape : Reads after_parenthesis (Shape 1 (1 ∷ []))
unfolding after_parenthesis
after_parenthesis-Shape = ⨟-Shape _ _ (Empty-Shape _ line_start-Reads) (
    ⨟-Shape _ _
      (group-Shape 1 _ (⨟-Shape _ _ anything-Shape (⨟-Shape _ _ (one-Shape _) blanks-Shape)))
      (one-Shape _))

else_or_const-Shape : Reads (str "else" ∣∣ chr b')' ⨟ blanks ⨟ str "const") (Shape 4 [])
else_or_const-Shape = ∣∣-Shape _ _ (lit-Shape (codes "else")) (
    Shape-weaken 4 _ (omega arith)
      (⨟-Shape _ _ (one-Shape _) (⨟-Shape _ _ blanks-Shape (lit-Shape (codes "const")))))

after_else_or_const-Shape : Reads after_else_or_const (Shape 1 (1 ∷ []))
unfolding after_else_or_const
after_else_or_const-Shape = ⨟-Shape _ _ (Empty-Shape _ line_start-Reads) (
    ⨟-Shape _ _
      (group-Shape 1 _ (⨟-Shape _ _ anything-Shape (⨟-Shape _ _ else_or_const-Shape blanks-Shape)))
      (one-Shape _))

leading-Shape : Reads (line_start ⨟ group 1 blanks ⨟ chr b'{') (Shape 1 (1 ∷ []))
leading-Shape =
    ⨟-Shape _ _ (Empty-Shape _ line_start-Reads)
      (⨟-Shape _ _ (group-Shape 1 _ blanks-Shape) (one-Shape _))

call_of-Shape : (macro : Text) → Reads (call_of macro) (Shape 1 (1 ∷ []))
call_of-Shape macro = ⨟-Shape _ _ (Empty-Shape _ line_start-Reads) (
    ⨟-Shape _ _
      (group-Shape 1 _ (
        ⨟-Shape _ _ anything-Shape (
          ⨟-Shape _ _ (Empty-Shape _ boundary-Reads) (⨟-Shape _ _ (lit-Shape macro) blanks-Shape))))
      (one-Shape _))

module _ (elided : List Text) (linenum : ℕ) (here : linenum < length elided) where
  check_opening_brace-Gives : (s : NestingState) → Gives (check_opening_brace elided s linenum)
  unfolding check_opening_brace
  check_opening_brace-Gives s = elim (Option-cases (matches tight_brace (line_at elided linenum))) [
    | inl e ↦ rw (e, check_opening_brace) ([], refl)
    | inr (f, e) ↦
        let lt = group_one-lt 0 _ f (matches-Shows tight_brace _ f tight_brace-Shape e) in
        let (place, g) = close_expression-Gives elided linenum (length (group_text f 1)) here lt in
        rw (e, check_opening_brace) (rw g (_, refl))
  ]

  pub check_braces_spacing-Gives :
      (s : NestingState) → Gives (check_braces_spacing elided s linenum)
  unfolding check_braces_spacing
  check_braces_spacing-Gives s =
      let (reports, e) = check_opening_brace-Gives s in rw (e, check_braces_spacing) (_, refl)

  find_check_macro-lt :
      (macros : List Text) (line macro : Text) (p : ℕ)
      → find_check_macro macros line ≡ some (macro, p)
      → p < length line
  unfolding find_check_macro
  find_check_macro-lt [] line macro p h = cc
  find_check_macro-lt (m ∷ macros) line macro p h = elim (Bool-cases (has line m)) [
    | inr other ↦ find_check_macro-lt macros line macro p (rw (other, find_check_macro) at h)
    | inl there ↦ elim (Option-cases (matches (call_of m) line)) [
      | inl e ↦ find_check_macro-lt macros line macro p (rw (there, e, find_check_macro) at h)
      | inr (f, e) ↦
          let lt = group_one-lt 0 line f (matches-Shows (call_of m) line f (call_of-Shape m) e) in
          let g : ◌≡◌ {A = Option (Text × ℕ)} (some (m, length (group_text f 1)))
              (some (macro, p)) =
            rw (there, e, find_check_macro) at h in
          ground arith
    ]
  ]

  pub check_check-Gives : Gives (check_check elided linenum)
  unfolding check_check
  check_check-Gives = elim (Option-cases (find_check_macro check_macros (line_at elided linenum))) [
    | inl e ↦ rw (e, check_check) ([], refl)
    | inr ((macro, p), e) ↦
        let (place, g) =
          close_expression-Gives elided linenum p here
            (find_check_macro-lt check_macros _ macro p e) in
        rw (e, check_check) (rw g (_, refl))
  ]

  parenthesis_case-lt :
      (before : Text)
      → length before < length (line_at elided linenum)
      → (o : Option ℕ) × (parenthesis_case elided linenum before ≡ some o)
        × ((p : ℕ) → o ≡ some p → p < length (line_at elided linenum))
  unfolding parenthesis_case
  parenthesis_case-lt before lt =
      let at = after_last-le b')' before in
      let (opening, e) =
        reverse_close_expression-Gives elided linenum (after_last b')' before - 1) here
          (omega arith) in
      (
        if is_excluded elided opening then none else some (length before),
        rw (e, parenthesis_case) refl,
        λ p h. elim (Bool-cases (is_excluded elided opening)) [
          | inl excluded ↦ absurd (ground arith)
          | inr included ↦ let g : some (length before) ≡ some p = rw included at h in ground arith
        ],
      )

  leading_brace-lt :
      (prevline line : Text) (p : ℕ) → leading_brace prevline line ≡ some p → p < length line
  unfolding leading_brace
  leading_brace-lt prevline line p h =
      elim (Option-cases (matches (line_start ⨟ group 1 blanks ⨟ chr b'{') line)) [
        | inl e ↦ absurd (ground arith)
        | inr (f, e) ↦
            let lt = group_one-lt 0 line f (matches-Shows _ line f leading-Shape e) in ground arith
      ]

  other_cases-lt :
      (line : Text) (p : ℕ) → other_cases elided linenum line ≡ some p → p < length line
  unfolding other_cases
  other_cases-lt line p h = elim (Option-cases (matches after_else_or_const line)) [
    | inl e ↦ leading_brace-lt _ line p (rw (e, other_cases) at h)
    | inr (f, e) ↦
        let lt =
          group_one-lt 0 line f
            (matches-Shows after_else_or_const line f after_else_or_const-Shape e) in
        let g : some (length (group_text f 1)) ≡ some p = rw (e, other_cases) at h in ground arith
  ]

  find_brace-lt :
      (o : Option ℕ) × (find_brace elided linenum (line_at elided linenum) ≡ some o)
      × ((p : ℕ) → o ≡ some p → p < length (line_at elided linenum))
  unfolding find_brace
  find_brace-lt = elim (Option-cases (matches after_parenthesis (line_at elided linenum))) [
    | inl e ↦ (
      other_cases elided linenum (line_at elided linenum),
      rw (e, find_brace) refl,
      other_cases-lt (line_at elided linenum),
    )
    | inr (f, e) ↦
        let lt =
          group_one-lt 0 _ f (matches-Shows after_parenthesis _ f after_parenthesis-Shape e) in
        let (o, g, bound) = parenthesis_case-lt (group_text f 1) lt in
        (o, rw (e, find_brace) g, bound)
  ]

pub check_trailing_semicolon-Gives :
    (clean_lines : CleansedLines) (linenum : ℕ)
    → linenum < length clean_lines.elided
    → Gives (check_trailing_semicolon clean_lines linenum)
unfolding check_trailing_semicolon
check_trailing_semicolon-Gives clean_lines linenum here =
    let (o, e, bound) = find_brace-lt clean_lines.elided linenum here in
    elim (Option-cases o) [
      | inl nothing ↦ rw (e, nothing, check_trailing_semicolon) ([], refl)
      | inr (p, at) ↦
          let (place, g) = close_expression-Gives clean_lines.elided linenum p here (bound p at) in
          rw (e, at, check_trailing_semicolon) (rw g (_, refl))
    ]
