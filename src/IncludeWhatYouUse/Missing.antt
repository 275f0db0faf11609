-- ===== src/IncludeWhatYouUse/Missing.antt =====
-- `CheckForIncludeWhatYouUse` of lab5/cpplint.py asks for no header that the file includes.
use cs.Base.{
  ℕ, ◌≡◌, refl, sym, ap, ◌⊎◌, inl, inr, true, false, not, ◌&&◌, Bool-cases, Option, none,
  Option-cases, List, [], ◌∷◌, ◌++◌, Text, codes, map, All, ends_with, text_eq, arith,
}
use mathlib.Core.Path.{subst}
use cs.Re.{sub}
use cs.CleansedLines.{CleansedLines}
use cs.IncludeState.{IncludeState, find_header}
use cs.HeaderGuard.{full_name}
use cs.IncludeWhatYouUse.{
  has_key, all_items, flymake_source, strip_marks, key, Required, missing, missing_report,
}
use cs.IncludeWhatYouUse.Tables.{require_lines}
use cs.IncludeWhatYouUse.Headers.{header_loop, check_for_include_what_you_use}
use cs.IncludeWhatYouUse.Growth.{Grows, all_items-found, header_loop-Grows}

missing_absent :
    (required : List Required) (d : List (Text × ℕ))
    → All (λ r. has_key (strip_marks r.header) d ≡ false) (missing required d)
unfolding missing
missing_absent [] d = tt
missing_absent (r ∷ rest) d = elim (Bool-cases (has_key (strip_marks r.header) d)) [
  | inl e ↦ rw (e, missing) (missing_absent rest d)
  | inr e ↦ rw (e, missing) (e, missing_absent rest d)
]

-- The element stands in the list.
abbrev pub Occurs : Required → List Required → Type 0
Occurs r out = (a : List Required) × (b : List Required) × (out ≡ a ++ r ∷ b)

Occurs-later : (x r : Required) (out : List Required) → Occurs r out → Occurs r (x ∷ out)
Occurs-later x r out (a, b, e) = (x ∷ a, b, ap (◌∷◌ x) e)

-- The header is included, or it is among those that are missing.
abbrev pub IsSettled : List (Text × ℕ) → List Required → Required → Type 0
IsSettled d out r = (has_key (strip_marks r.header) d ≡ true) ⊎ Occurs r out

IsSettled-later :
    (x : Required) (d : List (Text × ℕ)) (out required : List Required)
    → All (IsSettled d out) required
    → All (IsSettled d (x ∷ out)) required
IsSettled-later x d out [] h = tt
IsSettled-later x d out (r ∷ rest) (inl e, hs) = (inl e, IsSettled-later x d out rest hs)
IsSettled-later x d out (r ∷ rest) (inr o, hs) =
    (inr (Occurs-later x r out o), IsSettled-later x d out rest hs)

missing_included :
    (r : Required) (rest : List Required) (d : List (Text × ℕ))
    → has_key (strip_marks r.header) d ≡ true
    → missing (r ∷ rest) d ≡ missing rest d
unfolding missing
missing_included r rest d e = rw (e, missing) refl

missing_kept :
    (r : Required) (rest : List Required) (d : List (Text × ℕ))
    → has_key (strip_marks r.header) d ≡ false
    → missing (r ∷ rest) d ≡ r ∷ missing rest d
unfolding missing
missing_kept r rest d e = rw (e, missing) refl

missing_settles :
    (required : List Required) (d : List (Text × ℕ))
    → All (IsSettled d (missing required d)) required
missing_settles [] d = tt
missing_settles (r ∷ rest) d = elim (Bool-cases (has_key (strip_marks r.header) d)) [
  | inl e ↦
      subst (λ o. All (IsSettled d o) (r ∷ rest)) (sym (missing_included r rest d e))
        (inl e, missing_settles rest d)
  | inr e ↦
      subst (λ o. All (IsSettled d o) (r ∷ rest)) (sym (missing_kept r rest d e))
        (
          inr ([], missing rest d, refl),
          IsSettled-later r d (missing rest d) rest (missing_settles rest d),
        )
]

not_found :
    (s : IncludeState) (d : List (Text × ℕ)) (required : List Required)
    → Grows (all_items s.include_list []) d
    → All (λ r. has_key (strip_marks r.header) d ≡ false) required
    → All (λ r. find_header s (strip_marks r.header) ≡ none) required
unfolding find_header
not_found s d [] grows h = tt
not_found s d (r ∷ rest) grows (gone, h) =
    let k = strip_marks r.header in
    elim (Option-cases (find_header s k)) [
      | inl e ↦ (e, not_found s d rest grows h)
      | inr (n, e) ↦ let there = grows k (all_items-found s.include_list [] k n e) in absurd (cc)
    ]

module _ (repository_name : Text → Text) (abspath : Text → Text)
    (read_file : Text → Option (List Text)) where
  -- The headers that the file and its own header include.
  abbrev pub included : Text → IncludeState → List (Text × ℕ)
  included filename s =
      let d = all_items s.include_list [] in
      (header_loop repository_name abspath read_file
        (sub flymake_source (codes ".cc") (full_name repository_name abspath filename)) (map key d)
        false d).1

  -- The reports of `check_for_include_what_you_use` are of headers that `find_header` does not find
  -- in the file. For a file that is no `.cc` file, each header that its lines require is reported or
  -- included by the file or by its own header.
  pub check_for_include_what_you_use_safe :
      (filename : Text) (lines : CleansedLines) (s : IncludeState)
      → (out : List Required) × (check_for_include_what_you_use repository_name abspath read_file
            filename lines s
          ≡ map missing_report out)
        × All (λ r. find_header s (strip_marks r.header) ≡ none) out
        × (ends_with filename (codes ".cc") ≡ false
            → All (IsSettled (included filename s) out) (require_lines 0 lines.elided []))
  unfolding check_for_include_what_you_use
  check_for_include_what_you_use_safe filename lines s =
      let required = require_lines 0 lines.elided [] in
      let d = all_items s.include_list [] in
      let abs_filename =
        sub flymake_source (codes ".cc") (full_name repository_name abspath filename) in
      let r = header_loop repository_name abspath read_file abs_filename (map key d) false d in
      let grows =
        header_loop-Grows repository_name abspath read_file abs_filename (map key d) false d in
      elim (Bool-cases (ends_with filename (codes ".cc") && not r.0)) [
        | inl e ↦
            ([], rw (e, check_for_include_what_you_use) refl, tt, (λ other. absurd (ground arith)))
        | inr e ↦ (
          missing required r.1,
          rw (e, check_for_include_what_you_use) refl,
          not_found s r.1 (missing required r.1) grows (missing_absent required r.1),
          (λ other. missing_settles required r.1),
        )
      ]
