-- ===== src/LineChecks/Quotes.antt =====
-- What `check_for_multiline_comments_and_strings` says of quotes, against a scanner that knows
-- which characters are escaped.
use cs.Base.{
  ltb, ℕ, ◌+◌, ◌%◌, ◌≡◌, refl, ap, inl, inr, Bool, true, false, Bool-cases, [], ◌∷◌, ◌++◌, Text,
  codes, nat_beq, nat_beq_iff, starts_with, count_from, count_text, replace_from, replace,
  if◌then◌else◌, arith,
}
use cs.LineChecks.{
  without_backslash_pairs, odd_quotes, multiline_string, multiline_comment, report_if,
  check_for_multiline_comments_and_strings,
}

-- The quotes of a line that no backslash escapes; `after` says that a backslash stands before.
unfoldable pub unescaped_quotes : Bool → Text → ℕ
unescaped_quotes after [] = 0
unescaped_quotes true (c ∷ s) = unescaped_quotes false s
unescaped_quotes false (c ∷ s) = (if nat_beq c 34 then 1 else 0) + unescaped_quotes (nat_beq c 92) s

abbrev quotes : Text → ℕ
quotes = count_text (34 ∷ [])

abbrev escaped : Text → ℕ
escaped = count_text (92 ∷ 34 ∷ [])

abbrev cleared : Text → Text
cleared = replace (92 ∷ 92 ∷ []) []

quotes-cons : (c : ℕ) (s : Text) → quotes (c ∷ s) ≡ (if nat_beq c 34 then 1 else 0) + quotes s
unfolding count_text count_from starts_with
quotes-cons c s = ground arith

escaped-other : (c : ℕ) (s : Text) → nat_beq c 92 ≡ false → escaped (c ∷ s) ≡ escaped s
unfolding count_text count_from starts_with
escaped-other c s h = ground arith

escaped-pair :
    (d : ℕ) (s : Text)
    → nat_beq d 92 ≡ false
    → escaped (92 ∷ d ∷ s) ≡ (if nat_beq d 34 then 1 else 0) + escaped s
unfolding count_text count_from starts_with
escaped-pair d s h = ground arith

cleared-other : (c : ℕ) (s : Text) → nat_beq c 92 ≡ false → cleared (c ∷ s) ≡ c ∷ cleared s
unfolding replace replace_from starts_with
cleared-other c s h = ground arith

cleared-single :
    (d : ℕ) (s : Text) → nat_beq d 92 ≡ false → cleared (92 ∷ d ∷ s) ≡ 92 ∷ cleared (d ∷ s)
unfolding replace replace_from starts_with
cleared-single d s h = ground arith

cleared-pair : (s : Text) → cleared (92 ∷ 92 ∷ s) ≡ cleared s
unfolding replace replace_from starts_with
cleared-pair s = refl

abbrev Balanced : Text → Type 0
Balanced s = quotes (cleared s) ≡ escaped (cleared s) + unescaped_quotes false s

other-Balanced : (c : ℕ) (s : Text) → nat_beq c 92 ≡ false → Balanced s → Balanced (c ∷ s)
unfolding unescaped_quotes
other-Balanced c s h ih =
    rw (cleared-other c s h, quotes-cons c (cleared s), escaped-other c (cleared s) h, h)
      (omega (arith, ih))

-- A backslash with the character that it escapes.
pair-Balanced : (d : ℕ) (s : Text) → nat_beq d 92 ≡ false → Balanced s → Balanced (92 ∷ d ∷ s)
unfolding unescaped_quotes
pair-Balanced d s h ih =
    rw
      (
        cleared-single d s h,
        cleared-other d s h,
        quotes-cons 92 (d ∷ cleared s),
        quotes-cons d (cleared s),
        escaped-pair d (cleared s) h,
      )
      (omega (arith, ih))

backslashes-Balanced : (s : Text) → Balanced s → Balanced (92 ∷ 92 ∷ s)
unfolding unescaped_quotes
backslashes-Balanced s ih = rw (cleared-pair s) (omega (arith, ih))

last-Balanced : (c : ℕ) → Balanced (c ∷ [])
unfolding unescaped_quotes replace replace_from starts_with count_text count_from
last-Balanced c = ground arith

all-Balanced : (s : Text) → Balanced s
unfolding unescaped_quotes replace replace_from starts_with count_text count_from
all-Balanced [] = refl
all-Balanced (c ∷ []) = last-Balanced c
all-Balanced (c ∷ d ∷ s) = elim (Bool-cases (nat_beq c 92)) [
  | inr other ↦ other-Balanced c (d ∷ s) other (all-Balanced (d ∷ s))
  | inl slash ↦ rw ((nat_beq_iff c 92).0 slash) (elim (Bool-cases (nat_beq d 92)) [
    | inr other ↦ pair-Balanced d s other (all-Balanced s)
    | inl slash' ↦ rw ((nat_beq_iff d 92).0 slash') (backslashes-Balanced s (all-Balanced s))
  ])
]

odd_quotes-unescaped :
    (line : Text)
    → odd_quotes (without_backslash_pairs line) ≡ nat_beq (unescaped_quotes false line % 2) 1
unfolding odd_quotes without_backslash_pairs
odd_quotes-unescaped line = ap (λ n. nat_beq (n % 2) 1) (omega (arith, all-Balanced line))

-- The check reports a string that goes on exactly when an odd number of the line's quotes stand
-- outside the pairs of a backslash and the character that it escapes; this report stands behind that
-- of a comment that goes on.
pub check_for_multiline_strings :
    (linenum : ℕ) (line : Text)
    → check_for_multiline_comments_and_strings linenum line
      ≡ report_if
          (ltb
            (count_text (codes "*/") (without_backslash_pairs line))
            (count_text (codes "/*") (without_backslash_pairs line)))
          (multiline_comment linenum)
        ++ report_if (nat_beq (unescaped_quotes false line % 2) 1) (multiline_string linenum)
unfolding check_for_multiline_comments_and_strings
check_for_multiline_strings linenum line = rw (odd_quotes-unescaped line) refl
