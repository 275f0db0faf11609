-- ===== src/FileChecks/Lines.antt =====
-- The checks of a whole file's lines: bad characters line by line, and the copyright notice.
use mathlib.Core.Path.{subst}
use cs.Base.{
  ◌==◌, ==_iff, ap, nat_eq, contains, ◌⊎◌, Bool-cases, ℕ, zero, suc, ◌+◌, ◌<◌, ◌≡◌, ◌↔◌, refl, inl,
  inr, true, ◌||◌, some, List, [], ◌∷◌, ◌++◌, Text, get_elem?, take, arith,
}
use cs.Nolint.{Report}
use cs.FileChecks.{
  invalid_utf8, nul_byte, check_for_copyright, some_copyright, has_copyright, bad_characters_of,
  bad_characters_from, check_for_bad_characters,
}

-- One of the reports.
abbrev pub Among : Report → List Report → Type 0
Among r [] = ⊥
Among r (t ∷ ts) = (r ≡ t) ⊎ Among r ts

Among-append : (r : Report) (rs ts : List Report) → Among r (rs ++ ts) ↔ (Among r rs ⊎ Among r ts)
Among-append r [] ts = ((λ h. inr h), (λ e. elim e [ inl f ↦ absurd f | inr h ↦ h ]))
Among-append r (u ∷ rs) ts = ground (arith, Among-append r rs ts)

-- The character stands somewhere on the line.
abbrev pub IsOn : ℕ → Text → Type 0
IsOn c line = (k : ℕ) × (get_elem? line k ≡ some c)

contains-IsOn : (line : Text) (c : ℕ) → (contains line c ≡ true) ↔ IsOn c line
unfolding contains
contains-IsOn [] c = ((λ h. absurd (ground arith)), (λ (k, e). absurd (ground arith)))
contains-IsOn (d ∷ line) c = elim (Bool-cases (d == c)) [
  | inl same ↦ ((λ _. (0, ap some ((==_iff d c).0 same))), (λ _. ground arith))
  | inr other ↦ (
    (λ h. let (k, e) = (contains-IsOn line c).0 (ground arith) in (suc k, e)),
    (λ (k, e).
        elim k as (λ k. get_elem? (d ∷ line) k ≡ some c → contains (d ∷ line) c ≡ true) [
          | zero ↦ (λ e. ground arith)
          | suc k ↦ (λ e. let h = (contains-IsOn line c).1 (k, e) in ground arith)
        ]
          e),
  )
]

-- What is wrong with the line `n`: a replacement character, or a NUL byte.
abbrev pub IsBad : Report → ℕ → Text → Type 0
IsBad r n line = ((r ≡ invalid_utf8 n) × IsOn 65533 line) ⊎ ((r ≡ nul_byte n) × IsOn 0 line)

bad_characters_of-IsBad :
    (r : Report) (n : ℕ) (line : Text) → Among r (bad_characters_of n line) ↔ IsBad r n line
unfolding bad_characters_of
bad_characters_of-IsBad r n line = ground (arith, contains-IsOn line 65533, contains-IsOn line 0)

IsBad-at : (r : Report) (n m : ℕ) (line : Text) → n ≡ m → IsBad r n line → IsBad r m line
IsBad-at r n m line e h = subst (λ x. IsBad r x line) e h

bad_characters_from-IsBad :
    (r : Report) (m : ℕ) (lines : List Text)
    → Among r (bad_characters_from m lines)
      ↔ ((n : ℕ) × (line : Text) × (get_elem? lines n ≡ some line) × IsBad r (m + n) line)
unfolding bad_characters_from
bad_characters_from-IsBad r m [] = ((λ h. absurd h), (λ (n, line, e, _). absurd (ground arith)))
bad_characters_from-IsBad r m (line ∷ lines) =
    let (here, back) = bad_characters_of-IsBad r m line in
    let (later, again) = bad_characters_from-IsBad r (suc m) lines in
    let (either, both) =
      Among-append r (bad_characters_of m line) (bad_characters_from (suc m) lines) in
    (
      (λ h. elim (either h) [
        | inl first ↦ (0, line, refl, IsBad-at r m (m + 0) line (omega arith) (here first))
        | inr rest ↦
            let (n, l, at, bad) = later rest in
            (suc n, l, at, IsBad-at r (suc m + n) (m + suc n) l (omega arith) bad)
      ]),
      (λ (n, l, at, bad).
          elim n
              as (λ n.
                get_elem? (line ∷ lines) n ≡ some l
                → IsBad r (m + n) l
                → Among r (bad_characters_from m (line ∷ lines))) [
                  | zero ↦ (λ at bad. both (
                      inl (
                        back (
                          let same : l ≡ line = ground arith in
                          rw same at (IsBad-at r (m + 0) m l (omega arith) bad)))))
                  | suc n ↦ (λ at bad. both (
                      inr
                        (again (n, l, at, IsBad-at r (m + suc n) (suc m + n) l (omega arith) bad))))
                ]
            at bad),
    )

-- A report is made by `check_for_bad_characters` exactly when it says, with the number of a line of
-- the file, that the line has a replacement character and it has one, or that it has a NUL byte and
-- it has one.
pub check_for_bad_characters_iff :
    (lines : List Text) (r : Report)
    → Among r (check_for_bad_characters lines)
      ↔ ((n : ℕ) × (line : Text) × (get_elem? lines n ≡ some line) × IsBad r n line)
unfolding check_for_bad_characters
check_for_bad_characters_iff lines r =
    let (to, back) = bad_characters_from-IsBad r 0 lines in
    (
      (λ h. let (n, l, at, bad) = to h in (n, l, at, IsBad-at r (0 + n) n l (omega arith) bad)),
      (λ (n, l, at, bad). back (n, l, at, IsBad-at r n (0 + n) l (omega arith) bad)),
    )

some_copyright_iff :
    (k : ℕ) (lines : List Text)
    → (some_copyright (take k lines) ≡ true) ↔ (
        (n : ℕ) × (line : Text) × (n < k)
        × (get_elem? lines n ≡ some line)
        × (has_copyright line ≡ true))
unfolding some_copyright
some_copyright_iff zero lines = ground arith
some_copyright_iff (suc k) [] = ground arith
some_copyright_iff (suc k) (line ∷ lines) =
    let (to, back) = some_copyright_iff k lines in
    (
      (λ h. elim (Bool-cases (has_copyright line)) [
        | inl here ↦ (0, line, omega arith, refl, here)
        | inr not_here ↦
            let (n, l, small, at, has) = to (ground arith) in (suc n, l, omega arith, at, has)
      ]),
      (λ (n, l, small, at, has).
          elim n
              as (λ n.
                n < suc k
                → get_elem? (line ∷ lines) n ≡ some l
                → has_copyright line || some_copyright (take k lines) ≡ true) [
                  | zero ↦ (λ small at. ground arith)
                  | suc n ↦ (λ small at. ground (arith, back (n, l, omega arith, at, has)))
                ]
            small at),
    )

-- `check_for_copyright` reports nothing exactly when one of the first ten lines after the marker
-- mentions a copyright.
pub check_for_copyright_iff :
    (marker : Text) (lines : List Text)
    → (check_for_copyright (marker ∷ lines) ≡ []) ↔ (
        (n : ℕ) × (line : Text) × (n < 10)
        × (get_elem? lines n ≡ some line)
        × (has_copyright line ≡ true))
unfolding check_for_copyright
check_for_copyright_iff marker lines = ground (arith, some_copyright_iff 10 lines)
