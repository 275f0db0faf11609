-- ===== src/HeaderGuard/Endif.antt =====
-- The errors that `CheckForHeaderGuard` reports of the `#endif` line.
use cs.Base.{
  length-append, none, option_eq, take, drop, ◌-◌, Option-cases, ℕ, ◌≤◌, ◌≡◌, ◌↔◌, ◌⊎◌, refl,
  Bool-cases, inl, inr, false, some, List, [], ◌∷◌, ◌++◌, Text, codes, text_eq, ◌==◌, length, arith,
}
use cs.Re.{Pattern, Found, group_of, matches, search_in}
use cs.Nolint.{
  Report, Suppressions, Request, suppress, unknown, ignore, request, fulfil, nolint,
  suppressed_line, parse_matched, parse_nolint_suppressions,
}
use cs.HeaderGuard.Checks.{
  guard_report, comment_message, if_underscore, run_events, endif_comment, endif_block_comment,
  single_line_comment, Guard, Event, reported, parsed, any_found, check_endif,
}

-- The errors that the calls report, from these suppressions on.
abbrev pub errors : List Event → Suppressions → List Report
errors es s = (run_events es s).1

fulfil_at_most : (r : Request) (line n : ℕ) (s : Suppressions) → length (fulfil r line n s).1 ≤ 1
unfolding fulfil
fulfil_at_most (suppress key) line n s = omega arith
fulfil_at_most (unknown category) line n s = omega arith
fulfil_at_most ignore line n s = omega arith

pub parse_at_most :
    (line : Text) (n : ℕ) (s : Suppressions) → length (parse_nolint_suppressions line n s).1 ≤ 1
unfolding parse_nolint_suppressions parse_matched
parse_at_most line n s = elim (Option-cases (search_in nolint line)) [
  | inl e ↦ rw (e, parse_nolint_suppressions) (omega arith)
  | inr (f, e) ↦
      rw (e, parse_nolint_suppressions)
        (fulfil_at_most (request (group_of f 2)) (suppressed_line f n) n s)
]

append_nil_iff : (rs ts : List Report) → (rs ++ ts ≡ []) ↔ ((rs ≡ []) × (ts ≡ []))
append_nil_iff [] ts = ((λ h. (refl, h)), (λ h. h.1))
append_nil_iff (r ∷ rs) ts = ground arith

-- The pattern matches, and what it found does not end in a second underscore.
abbrev pub MatchesOnce : Pattern → Text → Type 0
MatchesOnce m line =
    (f : Found) × (matches m line ≡ some f) × ((group_of f 1 == some (codes "_")) ≡ false)

-- The comment on this line names the variable: behind slashes, or else between stars where no line
-- between the first and the last has a comment behind slashes.
abbrev pub HasComment : Text → List Text → Text → Type 0
HasComment cppvar lines endif =
    MatchesOnce (endif_comment cppvar) endif
    ⊎ ((matches (endif_comment cppvar) endif ≡ none)
        × (any_found single_line_comment (take (length lines - 2) (drop 1 lines)) ≡ false)
        × MatchesOnce (endif_block_comment cppvar) endif)

-- Of a match and of its second underscore.
underscore-MatchesOnce :
    (m : Pattern) (line : Text) (f : Found) (e : Event) (r : Report)
    → matches m line ≡ some f
    → e ≡ reported r
    → (s : Suppressions)
    → (length (errors (if_underscore f e) s) ≤ 1)
      × ((errors (if_underscore f e) s ≡ []) ↔ MatchesOnce m line)
unfolding run_events
underscore-MatchesOnce m line f e r at is s = elim (Bool-cases (group_of f 1 == some (codes "_"))) [
  | inl twice ↦
      rw (is, twice) (omega arith, ((λ h. absurd (ground arith)), (λ (f', at', once). absurd (cc))))
  | inr once ↦ rw once (omega arith, ((λ h. (f, at, once)), (λ h. refl)))
]

pub MatchesOnce-none : (m : Pattern) (line : Text) → matches m line ≡ none → MatchesOnce m line → ⊥
MatchesOnce-none m line e (f, at, _) = cc (e, at)

abbrev IsEndifResult : Text → List Text → Text → List Report → Type 0
IsEndifResult cppvar lines endif rs = (length rs ≤ 1) × ((rs ≡ []) ↔ HasComment cppvar lines endif)

check_endif-errors :
    (cppvar : Text) (lines : List Text) (g : Guard) (s : Suppressions)
    → IsEndifResult cppvar lines g.endif (errors (check_endif cppvar lines g) s)
unfolding run_events check_endif
check_endif-errors cppvar lines g s =
    let slashes = endif_comment cppvar in
    let stars = endif_block_comment cppvar in
    let middle = take (length lines - 2) (drop 1 lines) in
    let wrong = guard_report g.endif_linenum 5 (comment_message cppvar) ∷ [] in
    let poor = guard_report g.endif_linenum 0 (comment_message cppvar) in
    let poor_stars =
      guard_report g.endif_linenum 0
        (codes "#endif line should be \"#endif  /* " ++ (cppvar ++ codes " */\"")) in
    elim (Option-cases (matches slashes g.endif)) [
      | inr (f, e) ↦
          let (few, passes) = underscore-MatchesOnce slashes g.endif f poor _ e refl s in
          let is : check_endif cppvar lines g ≡ if_underscore f poor = rw (e, check_endif) refl in
          rw is (
            few,
            (
              (λ h. inl (passes.0 h)),
              (λ either. elim either [
                | inl once ↦ passes.1 once
                | inr (not_found, _, _) ↦ absurd (cc (not_found, e))
              ]),
            ),
          )
      | inl e ↦ elim (Bool-cases (any_found single_line_comment middle)) [
        | inl some_slashes ↦
            let is : check_endif cppvar lines g ≡ wrong = rw (e, some_slashes, check_endif) refl in
            rw is (
              omega arith,
              (
                (λ h. absurd (ground arith)),
                (λ either. absurd (elim either [
                  | inl once ↦ MatchesOnce-none slashes g.endif e once
                  | inr (_, none_found, _) ↦ cc (none_found, some_slashes)
                ])),
              ),
            )
        | inr no_slashes ↦ elim (Option-cases (matches stars g.endif)) [
          | inr (f, k) ↦
              let (few, passes) = underscore-MatchesOnce stars g.endif f poor_stars _ k refl s in
              let is : check_endif cppvar lines g ≡ if_underscore f poor_stars =
                rw (e, no_slashes, k, check_endif) refl in
              rw is (
                few,
                (
                  (λ h. inr (e, no_slashes, passes.0 h)),
                  (λ either. elim either [
                    | inl once ↦ absurd (MatchesOnce-none slashes g.endif e once)
                    | inr (_, _, once) ↦ passes.1 once
                  ]),
                ),
              )
          | inl k ↦
              let is : check_endif cppvar lines g ≡ wrong =
                rw (e, no_slashes, k, check_endif) refl in
              rw is (
                omega arith,
                (
                  (λ h. absurd (ground arith)),
                  (λ either. absurd (elim either [
                    | inl once ↦ MatchesOnce-none slashes g.endif e once
                    | inr (_, _, once) ↦ MatchesOnce-none stars g.endif k once
                  ])),
                ),
              )
        ]
      ]
    ]

-- The calls for the `#endif`: its line is parsed, and its comment is checked.
pub at_endif-errors :
    (cppvar : Text) (lines : List Text) (g : Guard) (s : Suppressions) (last : Text)
    → let rs = errors (parsed last g.endif_linenum ∷ check_endif cppvar lines g) s in
      (length rs ≤ 2)
      × ((rs ≡ []) ↔ (
          ((parse_nolint_suppressions last g.endif_linenum s).1 ≡ [])
          × HasComment cppvar lines g.endif))
unfolding run_events
at_endif-errors cppvar lines g s last =
    let parse = parse_nolint_suppressions last g.endif_linenum s in
    let (few, passes) = check_endif-errors cppvar lines g parse.0 in
    let later = errors (check_endif cppvar lines g) parse.0 in
    let both = append_nil_iff parse.1 later in
    (
      omega (arith, few, parse_at_most last g.endif_linenum s, length-append parse.1 later),
      ((λ h. let (a, b) = both.0 h in (a, passes.0 b)), (λ (a, b). both.1 (a, passes.1 b))),
    )
