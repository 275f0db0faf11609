-- ===== src/HeaderGuard/Guards.antt =====
-- The errors that `CheckForHeaderGuard` reports, told by the guard that it finds.
use cs.Base.{
  ap, sym, ◌∙◌, length-append, option_eq, ℕ, zero, suc, ◌+◌, ◌≤◌, ◌<◌, ◌≡◌, ◌≢◌, ◌↔◌, ◌⊎◌, refl,
  Bool-cases, inl, inr, Bool, true, false, not, ◌||◌, Option, some, List, [], ◌∷◌, ◌++◌, Text,
  codes, text_eq, text_beq_iff, ◌==◌, starts_with, length, get_elem?, arith,
}
use cs.Nolint.{Report, Suppressions, parse_nolint_suppressions}
use cs.HeaderGuard.Checks.{
  run_events, Guard, guard_line, scan_guard, words, Event, reported, parsed, no_guard_found,
  wrong_style, check_endif, check_ifndef, check_guard, note_words,
}
use cs.HeaderGuard.Endif.{errors, parse_at_most, HasComment, at_endif-errors}

-- The lines that a guard names come before the line `n`.
abbrev pub IsBefore : ℕ → Guard → Type 0
IsBefore n g =
    ((g.ifndef ≡ []) ⊎ (g.ifndef_linenum < n)) × ((g.endif_linenum ≡ 0) ⊎ (g.endif_linenum < n))

note_words-IsBefore :
    (n : ℕ) (ws : List Text) (g : Guard) → IsBefore n g → IsBefore (suc n) (note_words n ws g)
note_words-IsBefore n [] g h = ground arith
note_words-IsBefore n (a ∷ []) g h = ground arith
note_words-IsBefore n (a ∷ b ∷ ws) g h = ground arith

guard_line-IsBefore :
    (n : ℕ) (line : Text) (g : Guard) → IsBefore n g → IsBefore (suc n) (guard_line n line g)
unfolding guard_line
guard_line-IsBefore n line g h =
    let noted = note_words-IsBefore n (words line) g h in
    elim (Bool-cases (starts_with line (codes "#endif"))) [
      | inl here ↦ rw here (noted.0, inr (omega arith))
      | inr not_here ↦ rw not_here noted
    ]

pub scan_guard-IsBefore :
    (n : ℕ) (lines : List Text) (g : Guard)
    → IsBefore n g
    → IsBefore (n + length lines) (scan_guard n lines g)
unfolding scan_guard
scan_guard-IsBefore n [] g h = (ground arith, ground arith)
scan_guard-IsBefore n (line ∷ lines) g h =
    let later =
      scan_guard-IsBefore (suc n) lines (guard_line n line g) (guard_line-IsBefore n line g h) in
    (ground (arith, later), ground (arith, later))

pub line_at :
    (lines : List Text) (i : ℕ) → i < length lines → (line : Text) × (get_elem? lines i ≡ some line)
line_at [] i h = ground arith
line_at (line ∷ lines) zero h = (line, refl)
line_at (line ∷ lines) (suc i) h = line_at lines i (omega arith)

-- What the check of a guard asks for: the names are the variable, and the line of the `#endif` has
-- the comment, and no malformed NOLINT comment.
abbrev pub Suits : Text → List Text → Guard → Suppressions → Text → Type 0
Suits cppvar lines g s last =
    (g.ifndef ≡ cppvar)
    × (g.define ≡ cppvar)
    × ((parse_nolint_suppressions last g.endif_linenum s).1 ≡ [])
    × HasComment cppvar lines g.endif

-- The calls are made, the line of the `#endif` is there, and the errors are few, and none exactly
-- for a guard that suits.
abbrev pub IsGuardResult : Text → List Text → Guard → Suppressions → Option (List Event) → Type 0
IsGuardResult cppvar lines g s o =
    (es : List Event) × (last : Text) × (o ≡ some es)
    × (get_elem? lines g.endif_linenum ≡ some last)
    × (length (errors es s) ≤ 4)
    × ((errors es s ≡ []) ↔ Suits cppvar lines g s last)

abbrev pub is_missing : Guard → Bool
is_missing g = (g.ifndef == []) || ((g.define == []) || not (g.ifndef == g.define))

pub check_guard-missing :
    (cppvar : Text) (lines : List Text) (g : Guard) (s : Suppressions) (last : Text)
    → cppvar ≢ []
    → get_elem? lines g.endif_linenum ≡ some last
    → is_missing g ≡ true
    → IsGuardResult cppvar lines g s (check_guard cppvar lines g)
unfolding check_guard run_events
check_guard-missing cppvar lines g s last ne here missing = (
  no_guard_found cppvar ∷ [],
  last,
  rw (missing, check_guard) refl,
  here,
  omega arith,
  (
    (λ h. absurd (ground arith)),
    (λ (a, b, _, _). absurd (
        ground (
          arith,
          text_beq_iff g.ifndef [],
          text_beq_iff g.define [],
          text_beq_iff g.ifndef g.define,
        ))),
  ),
)

append-cons_ne_nil : (rs : List Report) (r : Report) (ts : List Report) → rs ++ r ∷ ts ≢ []
append-cons_ne_nil [] r ts h = absurd (ground arith)
append-cons_ne_nil (q ∷ rs) r ts h = absurd (ground arith)

parsed-errors :
    (line : Text) (n : ℕ) (r : Report) (es : List Event) (s : Suppressions)
    → errors (parsed line n ∷ reported r ∷ es) s
      ≡ (parse_nolint_suppressions line n s).1
        ++ r ∷ errors es (parse_nolint_suppressions line n s).0
unfolding run_events
parsed-errors line n r es s = refl

pub check_guard-found :
    (cppvar : Text) (lines : List Text) (g : Guard) (s : Suppressions) (first last : Text)
    → get_elem? lines g.ifndef_linenum ≡ some first
    → get_elem? lines g.endif_linenum ≡ some last
    → is_missing g ≡ false
    → IsGuardResult cppvar lines g s (check_guard cppvar lines g)
unfolding check_guard check_ifndef
check_guard-found cppvar lines g s first last there here found =
    let same : g.ifndef ≡ g.define = ground (arith, text_beq_iff g.ifndef g.define) in
    let calls = parsed last g.endif_linenum ∷ check_endif cppvar lines g in
    elim (Bool-cases (g.ifndef == cppvar)) [
      | inl right ↦
          let (few, passes) = at_endif-errors cppvar lines g s last in
          let is : g.ifndef ≡ cppvar = (text_beq_iff g.ifndef cppvar).0 right in
          (
            calls,
            last,
            rw (found, right, here, check_guard) refl,
            here,
            omega (arith, few),
            (
              (λ h. let (a, b) = passes.0 h in (is, sym same ∙ is, a, b)),
              (λ (_, _, a, b). passes.1 (a, b)),
            ),
          )
      | inr wrong ↦
          let parse = parse_nolint_suppressions first g.ifndef_linenum s in
          let (few, _) = at_endif-errors cppvar lines g parse.0 last in
          let all = parsed-errors first g.ifndef_linenum _ calls s in
          (
            parsed first g.ifndef_linenum ∷ wrong_style cppvar g ∷ calls,
            last,
            rw (found, wrong, there, here, check_guard) refl,
            here,
            omega (
              arith,
              few,
              ap length all,
              length-append parse.1 (_ ∷ errors calls parse.0),
              parse_at_most first g.ifndef_linenum s,
            ),
            (
              (λ h. absurd (append-cons_ne_nil parse.1 _ (errors calls parse.0) (sym all ∙ h))),
              (λ (is, _, _, _). absurd (cc (wrong, (text_beq_iff g.ifndef cppvar).1 is))),
            ),
          )
    ]
