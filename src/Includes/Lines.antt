-- ===== src/Includes/Lines.antt =====
-- The checks of one header on an include line of lab5/cpplint.py, in `CheckIncludeLine`.
use cs.Base.{
  zero, suc, ◌-◌, ◌<◌, length, get_elem?, arith, Bool-cases, Option-cases, inl, inr, ℕ, ◌≡◌, refl,
  ◌⊎◌, Bool, true, false, not, ◌&&◌, Option, none, some, List, [], ◌∷◌, ◌++◌, Text, codes, text_eq,
  ◌==◌, ends_with, show, if◌then◌else◌,
}
use cs.Nolint.{Report}
use cs.Paths.{dirname}
use cs.IncludeState.{
  is_in_alphabetical_order, text_gt, is_include, previous, check_next_include_order, IncludeState,
  find_header, add_include, set_last_header, canonicalize_alphabetical_order,
}
use cs.IncludeState.Order.{check_next_include_order_effect}
use cs.IncludeState.Headers.{IsWellFormed, add_include_total, find_header-add_include, or_else}
use cs.Includes.{
  order_reports, classify_include, is_third_party, report_include, check_header, check_order,
}

-- The report of a header that was included before.
abbrev pub duplicate : Text → ℕ → Text → ℕ → Report
duplicate filename linenum include first_line = report_include linenum (codes "build/include") (
    b'"' ∷ (include ++ (codes "\" already included at " ++ (filename ++ (b':' ∷ show first_line)))))

abbrev pub foreign_source : ℕ → Report
foreign_source linenum =
    report_include linenum (codes "build/include")
      (codes "Do not include .cc files from other packages")

-- What an include line may do to the include state.
abbrev pub IsStep : Text → ℕ → IncludeState → IncludeState → Type 0
IsStep include linenum s t =
    IsWellFormed t
    × ((k : Text)
        → find_header t k ≡ or_else (find_header s k) (if include == k then some linenum else none))
    × (t.last_header ≡ canonicalize_alphabetical_order include)

get_elem?-lt : (xs : List Text) (n : ℕ) → n < length xs → (x : Text) × (get_elem? xs n ≡ some x)
get_elem?-lt [] n h = absurd (omega arith)
get_elem?-lt (x ∷ xs) zero h = (x, refl)
get_elem?-lt (x ∷ xs) (suc n) h = get_elem?-lt xs n (omega arith)

previous_total : (xs : List Text) (n : ℕ) → n < length xs → (x : Text) × (previous xs n ≡ some x)
unfolding previous
previous_total xs zero h = get_elem?-lt xs (length xs - 1) (omega arith)
previous_total xs (suc n) h = get_elem?-lt xs n (omega arith)

is_in_alphabetical_order_total :
    (s : IncludeState) (elided : List Text) (linenum : ℕ) (header_path : Text)
    → linenum < length elided
    → (b : Bool) × (is_in_alphabetical_order s elided linenum header_path ≡ some b)
unfolding is_in_alphabetical_order
is_in_alphabetical_order_total s elided linenum header_path h =
    let (line, e) = previous_total elided linenum h in
    elim (Bool-cases (text_gt s.last_header header_path)) [
      | inl greater ↦ (not (is_include line), rw (greater, e, is_in_alphabetical_order) refl)
      | inr other ↦ (true, rw (other, is_in_alphabetical_order) refl)
    ]

module _ (repository_name : Text → Text) where
  check_order_list :
      (filename : Text) (elided : List Text) (linenum : ℕ) (include : Text) (is_system : Bool)
      (s : IncludeState)
      → linenum < length elided
      → (t : IncludeState) × (rs : List Report) × (check_order repository_name filename elided
            linenum include is_system s
          ≡ some (t, rs))
        × (t.include_list ≡ s.include_list)
        × (t.last_header ≡ canonicalize_alphabetical_order include)
  unfolding check_order set_last_header
  check_order_list filename elided linenum include is_system s h =
      let kind = classify_include (repository_name filename) include is_system in
      let moved = check_next_include_order kind s in
      let canonical = canonicalize_alphabetical_order include in
      let (in_order, e) = is_in_alphabetical_order_total moved.1 elided linenum canonical h in
      (
        set_last_header canonical moved.1,
        order_reports repository_name filename linenum include moved.0 in_order,
        rw (e, check_order) refl,
        (check_next_include_order_effect kind s).1,
        refl,
      )

  check_order-IsStep :
      (filename : Text) (elided : List Text) (linenum : ℕ) (include : Text) (is_system : Bool)
      (s u : IncludeState)
      → linenum < length elided
      → add_include include linenum s ≡ some u
      → IsWellFormed u
      → (t : IncludeState) × (rs : List Report) × (check_order repository_name filename elided
            linenum include is_system u
          ≡ some (t, rs))
        × IsStep include linenum s t
  unfolding find_header
  check_order-IsStep filename elided linenum include is_system s u h added w =
      let (t, rs, e, same_list, last) =
        check_order_list filename elided linenum include is_system u h in
      (
        t,
        rs,
        e,
        (
          rw same_list w,
          (λ k. rw same_list (find_header-add_include k include linenum s u added)),
          last,
        ),
      )

  pub check_header_found :
      (filename : Text) (elided : List Text) (linenum first_line : ℕ) (include : Text)
      (is_system : Bool) (s : IncludeState)
      → find_header s include ≡ some first_line
      → check_header repository_name filename elided linenum include is_system s
        ≡ some (s, duplicate filename linenum include first_line ∷ [])
  unfolding check_header
  check_header_found filename elided linenum first_line include is_system s found =
      rw (found, check_header)

  abbrev pub is_foreign : Text → Text → Bool
  is_foreign filename include =
      ends_with include (codes ".cc") && not (dirname (repository_name filename) == dirname include)

  -- The result of a header's check: the header is a duplicate, it is a source file of another
  -- directory, it is a third-party header, or it is recorded.
  abbrev pub IsChecked :
      Text → ℕ → Text → IncludeState → Option (IncludeState × List Report) → Type 0
  IsChecked filename linenum include s o =
      (t : IncludeState) × (rs : List Report) × (o ≡ some (t, rs))
      × (((n : ℕ) × (find_header s include ≡ some n)
            × (t ≡ s)
            × (rs ≡ duplicate filename linenum include n ∷ []))
          ⊎ ((find_header s include ≡ none)
              × (is_foreign filename include ≡ true)
              × (t ≡ s)
              × (rs ≡ foreign_source linenum ∷ []))
          ⊎ ((find_header s include ≡ none)
              × (is_foreign filename include ≡ false)
              × (is_third_party include ≡ true)
              × (t ≡ s)
              × (rs ≡ []))
          ⊎ ((find_header s include ≡ none)
              × (is_foreign filename include ≡ false)
              × (is_third_party include ≡ false)
              × IsStep include linenum s t))

  -- A line of the file that includes a header, on a well-formed state: there is no IndexError. A
  -- header that was included before is reported with its first line, and nothing else is reported; a
  -- source file of another directory is reported, and any other third-party header is passed over,
  -- all three without a change of the state. A header that is none of these is recorded: from then
  -- on it is found at this line, every other name is found as before, and it is the last header in
  -- its canonical form.
  pub check_header_effect :
      (filename : Text) (elided : List Text) (linenum : ℕ) (include : Text) (is_system : Bool)
      (s : IncludeState)
      → linenum < length elided
      → IsWellFormed s
      → IsChecked filename linenum include s
          (check_header repository_name filename elided linenum include is_system s)
  unfolding check_header
  check_header_effect filename elided linenum include is_system s h w =
      elim (Option-cases (find_header s include)) [
        | inl new ↦ elim (Bool-cases (is_foreign filename include)) [
          | inl source ↦ (
            s,
            foreign_source linenum ∷ [],
            rw (new, source, check_header),
            inr (inl (new, source, refl, refl)),
          )
          | inr other ↦ elim (Bool-cases (is_third_party include)) [
            | inl third ↦ (
              s,
              [],
              rw (new, other, third, check_header),
              inr (inr (inl (new, other, third, refl, refl))),
            )
            | inr own ↦
                let (u, added, u_w) = add_include_total include linenum s w in
                let (t, rs, e, step) =
                  check_order-IsStep filename elided linenum include is_system s u h added u_w in
                (
                  t,
                  rs,
                  rw (new, other, own, added, e, check_header) refl,
                  inr (inr (inr (new, other, own, step))),
                )
          ]
        ]
        | inr (n, found) ↦ (
          s,
          duplicate filename linenum include n ∷ [],
          check_header_found filename elided linenum n include is_system s found,
          inl (n, found, refl, refl),
        )
      ]
