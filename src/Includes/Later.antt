-- ===== src/Includes/Later.antt =====
-- The checks of several include lines, one after another: what a line records stays, and is a
-- duplicate later.
use cs.Base.{
  ◌<◌, length, Option-cases, inl, inr, ℕ, ◌≡◌, refl, Bool, true, false, not, ◌&&◌, Option, none,
  some, List, [], ◌∷◌, ◌++◌, Text, codes, text_eq, text_beq_iff, ◌==◌, get_elem?, ends_with, arith,
}
use cs.Re.{group_of, matches, search_in}
use cs.Nolint.{Report}
use cs.Paths.{dirname}
use cs.IncludeState.{IncludeState, find_header}
use cs.IncludeState.Headers.{IsWellFormed}
use cs.Includes.{
  is_third_party, or_nil, check_header, check_include_line, plain_include, include_pattern,
  report_name,
}
use cs.Includes.Lines.{check_header_effect, check_header_found, duplicate}

module _ (repository_name : Text → Text) where
  -- What a header's check gives to the lines after it.
  abbrev pub IsSound : Option (IncludeState × List Report) → IncludeState → Type 0
  IsSound o s =
      (t : IncludeState) × (rs : List Report) × (o ≡ some (t, rs))
      × IsWellFormed t
      × ((k : Text) (m : ℕ) → find_header s k ≡ some m → find_header t k ≡ some m)

  check_header-IsSound :
      (filename : Text) (elided : List Text) (linenum : ℕ) (include : Text) (is_system : Bool)
      (s : IncludeState)
      → linenum < length elided
      → IsWellFormed s
      → IsSound (check_header repository_name filename elided linenum include is_system s) s
  check_header-IsSound filename elided linenum include is_system s h w =
      let (t, rs, result, cases) =
        check_header_effect repository_name filename elided linenum include is_system s h w in
      elim cases [
        | inl (n, _, same, _) ↦ (t, rs, result, rw same w, (λ k m e. rw same e))
        | inr (inl (_, _, same, _)) ↦ (t, rs, result, rw same w, (λ k m e. rw same e))
        | inr (inr (inl (_, _, _, same, _))) ↦ (t, rs, result, rw same w, (λ k m e. rw same e))
        | inr (inr (inr (_, _, _, (t_w, found, _)))) ↦
            (t, rs, result, t_w, (λ k m e. rw (found k, e) refl))
      ]

  -- On a line that is there in both copies of the file and a well-formed state, `check_include_line`
  -- meets no IndexError and leaves the state well-formed, and every header that was found before is found at the same line.
  pub check_include_line_effect :
      (filename : Text) (lines elided : List Text) (linenum : ℕ) (line : Text) (s : IncludeState)
      → get_elem? lines linenum ≡ some line
      → linenum < length elided
      → IsWellFormed s
      → IsSound (check_include_line repository_name filename lines elided linenum s) s
  unfolding check_include_line
  check_include_line_effect filename lines elided linenum line s at_line h w =
      elim (Option-cases (search_in include_pattern line)) [
        | inl no_include ↦ (
          s,
          report_name linenum (matches plain_include line) ++ [],
          rw (at_line, no_include, check_include_line) refl,
          w,
          (λ k m e. e),
        )
        | inr (matched, is_include) ↦
            let (t, rs, result, t_w, found) =
              check_header-IsSound filename elided linenum (or_nil (group_of matched 2))
                (or_nil (group_of matched 1) == codes "<") s h w in
            (
              t,
              report_name linenum (matches plain_include line) ++ rs,
              rw (at_line, is_include, result, check_include_line) refl,
              t_w,
              found,
            )
      ]

  -- A header that one line records is a duplicate on every later line whose check begins in the
  -- state that the first one left: the only report names the line of the first.
  pub check_header_twice :
      (filename : Text) (elided elided' : List Text) (linenum linenum' : ℕ) (include : Text)
      (is_system is_system' : Bool) (s t : IncludeState) (rs : List Report)
      → linenum < length elided
      → IsWellFormed s
      → find_header s include ≡ none
      → (ends_with include (codes ".cc")
          && not (dirname (repository_name filename) == dirname include))
        ≡ false
      → is_third_party include ≡ false
      → check_header repository_name filename elided linenum include is_system s ≡ some (t, rs)
      → check_header repository_name filename elided' linenum' include is_system' t
        ≡ some (t, duplicate filename linenum' include linenum ∷ [])
  check_header_twice filename elided elided' linenum linenum' include is_system is_system' s t rs h
        w new other own e =
      let (t', rs', result, cases) =
        check_header_effect repository_name filename elided linenum include is_system s h w in
      let same : include == include ≡ true = (text_beq_iff include include).1 refl in
      elim cases [
        | inl (n, found, _, _) ↦ ground arith
        | inr (inl (_, source, _, _)) ↦ ground arith
        | inr (inr (inl (_, _, third, _, _))) ↦ ground arith
        | inr (inr (inr (_, _, _, (_, found, _)))) ↦
            let recorded : find_header t include ≡ some linenum = ground (arith, found include) in
            check_header_found repository_name filename elided' linenum' linenum include is_system'
              t recorded
      ]
