-- ===== src/FileChecks/Newline.antt =====
-- The check for the last newline, against the text of the file.
use cs.Base.{
  Bool-cases, ◌∙◌, ap, sym, ℕ, suc, ◌-◌, ◌≤◌, ◌≡◌, ◌↔◌, ◌⊎◌, refl, inl, inr, Bool, true, false,
  some, List, [], ◌∷◌, ◌++◌, Text, codes, nat_beq, ltb, length, get_elem?, split, cons_head,
  length-append, arith, if◌then◌else◌,
}
use cs.Nolint.{Report}
use cs.FileChecks.{marked, check_for_newline_at_eof, is_nonempty}

abbrev last_or : Text → List Text → Text
last_or t [] = t
last_or t (u ∷ us) = last_or u us

get_elem?-last :
    (t u : Text) (us : List Text) → get_elem? (t ∷ us ++ u ∷ []) (length us) ≡ some (last_or t us)
get_elem?-last t u [] = refl
get_elem?-last t u (v ∷ us) = get_elem?-last v u us

abbrev is_nil : Text → Bool
is_nil [] = true
is_nil (_ ∷ _) = false

-- The last character is a newline.
abbrev ends_line : Text → Bool
ends_line [] = false
ends_line (c ∷ []) = nat_beq c 10
ends_line (_ ∷ d ∷ s) = ends_line (d ∷ s)

ends_line-append : (t : Text) → ends_line (t ++ 10 ∷ []) ≡ true
ends_line-append [] = refl
ends_line-append (c ∷ []) = refl
ends_line-append (c ∷ d ∷ t) = ends_line-append (d ∷ t)

before_newline : (text : Text) → ends_line text ≡ true → (t : Text) × (text ≡ t ++ 10 ∷ [])
before_newline [] h = ground arith
before_newline (c ∷ []) h = ([], ground arith)
before_newline (c ∷ d ∷ s) h = let (t, e) = before_newline (d ∷ s) h in (c ∷ t, ap (◌∷◌ c) e)

ends_line_iff : (text : Text) → (ends_line text ≡ true) ↔ ((t : Text) × (text ≡ t ++ 10 ∷ []))
ends_line_iff text = (before_newline text, (λ (t, e). rw e (ends_line-append t)))

is_nil-cons_head :
    (t : Text) (c d : ℕ) (ls : List Text)
    → is_nil (last_or t (cons_head c (cons_head d ls))) ≡ is_nil (last_or t (cons_head d ls))
is_nil-cons_head t c d [] = refl
is_nil-cons_head t c d (u ∷ []) = refl
is_nil-cons_head t c d (u ∷ v ∷ us) = refl

split-newline : (d : ℕ) (s : Text) → nat_beq d 10 ≡ true → split 10 (d ∷ s) ≡ [] ∷ split 10 s
unfolding split
split-newline d s h = rw h

split-other :
    (d : ℕ) (s : Text) → nat_beq d 10 ≡ false → split 10 (d ∷ s) ≡ cons_head d (split 10 s)
unfolding split
split-other d s h = rw h

split_nonempty : (s : Text) → 1 ≤ length (split 10 s)
unfolding split
split_nonempty [] = omega arith
split_nonempty (c ∷ s) = elim (split 10 s) [ [] ↦ ground arith | t ∷ ts ↦ ground arith ]

is_nil-split :
    (t : Text) (c d : ℕ) (s : Text)
    → (is_nil (last_or t (split 10 (d ∷ s))) ≡ ends_line (d ∷ s))
      × (is_nil (last_or t (cons_head c (split 10 (d ∷ s)))) ≡ ends_line (d ∷ s))
unfolding split
is_nil-split t c d [] = ground arith
is_nil-split t c d (e ∷ s) = elim (Bool-cases (nat_beq d 10)) [
  | inl newline ↦ (
    rw (split-newline d (e ∷ s) newline) ((is_nil-split [] d e s).0),
    rw (split-newline d (e ∷ s) newline) ((is_nil-split (c ∷ []) d e s).0),
  )
  | inr other ↦
      let rest = (is_nil-split t d e s).1 in
      (
        rw (split-other d (e ∷ s) other) rest,
        rw (split-other d (e ∷ s) other) (is_nil-cons_head t c d (split 10 (e ∷ s)) ∙ rest),
      )
]

reports_unless_nil :
    (r : Report) (x : Text)
    → ((if is_nonempty (some x) then r ∷ [] else []) ≡ []) ↔ (is_nil x ≡ true)
reports_unless_nil r [] = ground arith
reports_unless_nil r (c ∷ x) = ground arith

-- The check on lines between two markers looks at the last of them.
check_for_newline_at_eof-between :
    (t u : Text) (ls : List Text)
    → 1 ≤ length ls
    → (check_for_newline_at_eof (t ∷ (ls ++ u ∷ [])) ≡ []) ↔ (is_nil (last_or t ls) ≡ true)
unfolding check_for_newline_at_eof
check_for_newline_at_eof-between t u ls h =
    let long : ltb (suc (length (ls ++ u ∷ []))) 3 ≡ false =
      ground (arith, length-append ls (u ∷ [])) in
    let last : suc (length (ls ++ u ∷ [])) - 2 ≡ length ls =
      omega (arith, length-append ls (u ∷ [])) in
    rw (long, last, get_elem?-last t u ls) (reports_unless_nil _ (last_or t ls))

-- The lines of a text, between the markers, pass the check for the newline at the end of the file
-- exactly when the text is empty or ends in a newline.
pub check_for_newline_at_eof_iff :
    (text : Text)
    → (check_for_newline_at_eof (marked (split 10 text)) ≡ [])
      ↔ ((text ≡ []) ⊎ ((t : Text) × (text ≡ t ++ 10 ∷ [])))
unfolding check_for_newline_at_eof split
check_for_newline_at_eof_iff [] = ((λ _. inl refl), (λ _. refl))
check_for_newline_at_eof_iff (d ∷ s) =
    let checked =
      check_for_newline_at_eof-between _ _ (split 10 (d ∷ s)) (split_nonempty (d ∷ s)) in
    let nil =
      (is_nil-split (codes "// marker so line numbers and indices both start at 1") 0 d s).0 in
    let last = ends_line_iff (d ∷ s) in
    (
      (λ passed. inr (last.0 (sym nil ∙ checked.0 passed))),
      (λ e. elim e [ inl empty ↦ ground arith | inr found ↦ checked.1 (nil ∙ last.1 found) ]),
    )
