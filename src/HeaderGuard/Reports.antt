-- ===== src/HeaderGuard/Reports.antt =====
-- What `CheckForHeaderGuard` reports: it looks up lines that are there, and which files pass.
use mathlib.Core.Path.{subst}
use native.Mathlib.Nat.{zero-add}
use cs.Base.{
  text_beq, ap, sym, ◌∙◌, none, option_eq, Option-cases, ℕ, ◌≤◌, ◌<◌, ◌≡◌, ◌≢◌, ◌↔◌, ◌⊎◌, refl,
  Bool-cases, inl, inr, true, Option, some, List, [], ◌∷◌, ◌++◌, Text, codes, text_eq, text_beq_iff,
  length, get_elem?, arith,
}
use cs.Re.{all_patterns}
use cs.Nolint.{Suppressions, parse_nolint_suppressions}
use cs.HeaderGuard.{get_header_guard_cpp_variable}
use cs.HeaderGuard.Variable.{get_header_guard_cpp_variable_total}
use cs.HeaderGuard.Names.{
  endif_of, or_first, first_named, last_endif, last_endif-at, scan_guard-ifndef, scan_guard-define,
  scan_guard-endif,
}
use cs.HeaderGuard.Checks.{
  run_events, endif_comment, endif_block_comment, Guard, no_guard, scan_guard, Event,
  no_guard_found, guard_nolint, any_found, check_guard, check_for_header_guard,
}
use cs.HeaderGuard.Endif.{errors, HasComment, MatchesOnce-none}
use cs.HeaderGuard.Guards.{
  IsBefore, scan_guard-IsBefore, line_at, Suits, IsGuardResult, is_missing, check_guard-missing,
  check_guard-found,
}

name_iff :
    (o : Option Text) (cppvar : Text) → cppvar ≢ [] → (or_first [] o ≡ cppvar) ↔ (o ≡ some cppvar)
unfolding text_beq
name_iff none cppvar ne = ((λ h. absurd (ne (sym h))), (λ h. absurd (ground arith)))
name_iff (some name) cppvar ne = ((λ h. ap some h), (λ h. ground arith))

HasComment-nil : (cppvar : Text) (lines : List Text) → HasComment cppvar lines [] → ⊥
unfolding endif_comment endif_block_comment all_patterns
HasComment-nil cppvar lines (inl once) = MatchesOnce-none (endif_comment cppvar) [] refl once
HasComment-nil cppvar lines (inr (_, _, once)) =
    MatchesOnce-none (endif_block_comment cppvar) [] refl once

-- The first `#ifndef` and the first `#define` name the variable, and the last `#endif` has the
-- comment and no malformed NOLINT comment.
abbrev pub Passes : Text → List Text → Suppressions → Type 0
Passes cppvar lines s =
    (first_named (codes "#ifndef") lines ≡ some cppvar)
    × (first_named (codes "#define") lines ≡ some cppvar)
    × ((n : ℕ) × (endif : Text) × (last_endif 0 lines ≡ some (n, endif))
        × ((parse_nolint_suppressions endif n s).1 ≡ [])
        × HasComment cppvar lines endif)

abbrev scanned : List Text → Guard
scanned lines = scan_guard 0 lines no_guard

scanned-endif :
    (lines : List Text) (last : Text)
    → get_elem? lines (scanned lines).endif_linenum ≡ some last
    → (((scanned lines).endif ≡ []) × (last_endif 0 lines ≡ none))
      ⊎ ((last_endif 0 lines ≡ some ((scanned lines).endif_linenum, (scanned lines).endif))
          × ((scanned lines).endif ≡ last))
scanned-endif lines last here = elim (Option-cases (last_endif 0 lines)) [
  | inl e ↦
      let pair : endif_of (scanned lines) ≡ (0, []) = rw e at (scan_guard-endif 0 lines no_guard) in
      inl (ap (λ (p : ℕ × Text). p.1) pair, e)
  | inr ((n, endif), e) ↦
      let (i, at, line) = last_endif-at 0 lines n endif e in
      let pair : endif_of (scanned lines) ≡ (n, endif) =
        rw e at (scan_guard-endif 0 lines no_guard) in
      let index : (scanned lines).endif_linenum ≡ i =
        ground (arith, ap (λ (p : ℕ × Text). p.0) pair, at) in
      let text : (scanned lines).endif ≡ endif = ap (λ (p : ℕ × Text). p.1) pair in
      let found : get_elem? lines i ≡ some last = rw index at here in
      inr (e ∙ ap some (sym pair), text ∙ ground (arith, line, found))
]

Suits-Passes :
    (cppvar : Text) (lines : List Text) (s : Suppressions) (last : Text)
    → cppvar ≢ []
    → get_elem? lines (scanned lines).endif_linenum ≡ some last
    → Suits cppvar lines (scanned lines) s last ↔ Passes cppvar lines s
Suits-Passes cppvar lines s last ne here =
    let ifndef = scan_guard-ifndef 0 lines no_guard in
    let define = scan_guard-define 0 lines no_guard in
    let (a, b) = name_iff (first_named (codes "#ifndef") lines) cppvar ne in
    let (c, d) = name_iff (first_named (codes "#define") lines) cppvar ne in
    elim (scanned-endif lines last here) [
      | inl (nothing, no_endif) ↦ (
        (λ (_, _, _, comment). absurd (HasComment-nil cppvar lines (rw nothing at comment))),
        (λ (_, _, (n, endif, there, _, _)). absurd (cc (no_endif, there))),
      )
      | inr (found, same) ↦ (
        (λ (i, j, quiet, comment). (
          a (sym ifndef ∙ i),
          c (sym define ∙ j),
          ((scanned lines).endif_linenum, (scanned lines).endif, found, rw same quiet, comment),
        )),
        (λ (i, j, (n, endif, there, quiet, comment)).
            let pair : (n, endif) ≡ endif_of (scanned lines) = ground (arith, there, found) in
            let number : n ≡ (scanned lines).endif_linenum = ap (λ (p : ℕ × Text). p.0) pair in
            let text : endif ≡ (scanned lines).endif = ap (λ (p : ℕ × Text). p.1) pair in
            (ifndef ∙ b i, define ∙ d j, rw (← same, ← text, ← number) quiet, rw text at comment)),
      )
    ]

append_ne_nil : (stem : Text) → stem ++ codes "_" ≢ []
append_ne_nil [] = ground arith
append_ne_nil (c ∷ stem) = ground arith

-- What `check_for_header_guard` does on a file.
abbrev pub IsResult : Option Text → List Text → Suppressions → Option (List Event) → Type 0
IsResult variable lines s o =
    (es : List Event) × (o ≡ some es)
    × (length (errors es s) ≤ 4)
    × ((errors es s ≡ []) ↔ (
        (any_found guard_nolint lines ≡ true)
        ⊎ ((cppvar : Text) × (variable ≡ some cppvar) × Passes cppvar lines s)))

check_guard_effect :
    (cppvar : Text) (lines : List Text) (s : Suppressions)
    → cppvar ≢ []
    → 0 < length lines
    → IsGuardResult cppvar lines (scanned lines) s (check_guard cppvar lines (scanned lines))
check_guard_effect cppvar lines s ne some_lines =
    let g = scanned lines in
    let before : IsBefore (length lines) g =
      subst (λ n. IsBefore n g) (zero-add (length lines))
        (scan_guard-IsBefore 0 lines no_guard (inl refl, inl refl)) in
    let (last, here) = line_at lines g.endif_linenum (ground (arith, before)) in
    elim (Bool-cases (is_missing g)) [
      | inl missing ↦ check_guard-missing cppvar lines g s last ne here missing
      | inr found ↦
          let (first, there) =
            line_at lines g.ifndef_linenum (ground (arith, before, text_beq_iff g.ifndef [])) in
          check_guard-found cppvar lines g s first last there here found
    ]

some_lines_effect :
    (repository_name abspath : Text → Text) (root filename : Text) (lines : List Text)
    (s : Suppressions)
    → 0 < length lines
    → IsResult
        (get_header_guard_cpp_variable repository_name abspath root filename)
        lines
        s
        (check_for_header_guard repository_name abspath root filename lines)
unfolding check_for_header_guard run_events
some_lines_effect repository_name abspath root filename lines s some_lines =
    elim (Bool-cases (any_found guard_nolint lines)) [
      | inl silent ↦ (
        [],
        rw (silent, check_for_header_guard) refl,
        omega arith,
        ((λ _. inl silent), (λ _. refl)),
      )
      | inr checked ↦
          let (stem, v, _) =
            get_header_guard_cpp_variable_total repository_name abspath root filename in
          let ne : stem ++ codes "_" ≢ [] = append_ne_nil stem in
          let (es, last, e, here, few, suits) =
            check_guard_effect (stem ++ codes "_") lines s ne some_lines in
          let (passes, back) = Suits-Passes (stem ++ codes "_") lines s last ne here in
          (
            es,
            rw (checked, v, check_for_header_guard) e,
            few,
            (
              (λ nothing. inr (stem ++ codes "_", v, passes (suits.0 nothing))),
              (λ either. elim either [
                | inl silent ↦ absurd (cc (silent, checked))
                | inr (cppvar, w, ok) ↦
                    let same : cppvar ≡ stem ++ codes "_" = cc (v, w) in
                    suits.1 (back (subst (λ c. Passes c lines s) same ok))
              ]),
            ),
          )
    ]

no_lines_effect :
    (repository_name abspath : Text → Text) (root filename : Text) (s : Suppressions)
    → IsResult
        (get_header_guard_cpp_variable repository_name abspath root filename)
        []
        s
        (check_for_header_guard repository_name abspath root filename [])
unfolding check_for_header_guard run_events any_found check_guard scan_guard first_named text_beq
no_lines_effect repository_name abspath root filename s =
    let (stem, v, _) = get_header_guard_cpp_variable_total repository_name abspath root filename in
    (
      no_guard_found (stem ++ codes "_") ∷ [],
      rw (v, check_for_header_guard) refl,
      omega arith,
      (
        (λ h. absurd (ground arith)),
        (λ either.
            absurd (elim either [
              | inl silent ↦ ground arith
              | inr (_, _, (named, _, _)) ↦ ground arith
            ])),
      ),
    )

-- On every file, whatever is suppressed before, `check_for_header_guard` meets no IndexError, and it
-- reports at most four errors, those for malformed NOLINT comments counted. It reports none exactly
-- when a line has a NOLINT comment for header guards, or when the first name behind an `#ifndef` and
-- the first behind a `#define` are the variable that the file should have, and the last line that
-- begins with `#endif` has the comment that names it and no malformed NOLINT comment.
pub check_for_header_guard_effect :
    (repository_name abspath : Text → Text) (root filename : Text) (lines : List Text)
    (s : Suppressions)
    → IsResult
        (get_header_guard_cpp_variable repository_name abspath root filename)
        lines
        s
        (check_for_header_guard repository_name abspath root filename lines)
check_for_header_guard_effect repository_name abspath root filename [] s =
    no_lines_effect repository_name abspath root filename s
check_for_header_guard_effect repository_name abspath root filename (line ∷ lines) s =
    some_lines_effect repository_name abspath root filename (line ∷ lines) s (omega arith)
