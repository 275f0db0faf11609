-- ===== src/Brackets/Bounds.antt =====
-- Where the position lies that a search for the closing bracket returns.
use cs.Base.{
  ℕ, suc, ◌+◌, ◌≤◌, ◌≡◌, refl, ap, ◌∙◌, Bool, true, ◌||◌, none, some, List, [], ◌∷◌, Text, arith,
  length, get_elem?, reversed, length-reverse_onto, length-take, get_elem?-drop, drop-eq-cons,
  lt-length_of_get_elem?, Bool-cases, not, take, drop, nat_beq, inl, inr, ◌⊎◌,
}
use cs.Brackets.{
  Scan, closed, failed, unfinished, Step, go, stop, is_close, end_step, scan_end,
  find_end_of_expression_in_line, Place, close_below, close_from, close_at, is_open, starts,
  shift_or_compare, close_expression,
}

abbrev pub closes : ℕ → Bool
closes c = is_close c || nat_beq c b'>'

-- The character at index `i` of the line is a closing bracket.
abbrev pub ClosesAt : Text → ℕ → Type 0
ClosesAt line i = (c : ℕ) × (get_elem? line i ≡ some c) × (closes c ≡ true)

step-closed :
    (c : ℕ) (past stack : Text) (p : ℕ)
    → end_step c past stack ≡ stop (closed p)
    → (p ≡ length past + 1) × (closes c ≡ true)
unfolding end_step
step-closed c past stack p h = ground arith

Step-cases : (s : Step) → ((t : Text) × (s ≡ go t)) ⊎ ((r : Scan) × (s ≡ stop r))
Step-cases (go t) = inl (t, refl)
Step-cases (stop r) = inr (r, refl)

scan_end-closed :
    (past rest stack : Text) (p : ℕ)
    → scan_end past rest stack ≡ closed p
    → (k : ℕ) × (p ≡ length past + k + 1) × ClosesAt rest k
unfolding scan_end
scan_end-closed past [] stack p h = absurd (ground arith)
scan_end-closed past (c ∷ rest) stack p h = elim (Step-cases (end_step c past stack)) [
  | inl (t, e) ↦
      let (k, q, at) = scan_end-closed (c ∷ past) rest t p (rw (e, scan_end) at h) in
      (suc k, omega arith, at)
  | inr (r, e) ↦
      let stopped : r ≡ closed p = rw (e, scan_end) at h in
      let (q, closer) = step-closed c past stack p (e ∙ ap stop stopped) in
      (0, omega arith, (c, refl, closer))
]

-- From a position on the line, an end that is found lies behind that position, and just after a
-- closing bracket.
find_end-closed :
    (line : Text) (pos : ℕ) (stack : Text) (p : ℕ)
    → pos ≤ length line
    → find_end_of_expression_in_line line pos stack ≡ closed p
    → (i : ℕ) × (p ≡ i + 1) × (pos ≤ i) × ClosesAt line i
unfolding find_end_of_expression_in_line reversed
find_end-closed line pos stack p h e =
    let (k, q, (c, at, closer)) = scan_end-closed _ (drop pos line) stack p e in
    (
      pos + k,
      omega (arith, length-reverse_onto [] (take pos line), length-take pos line),
      omega arith,
      (c, rw get_elem?-drop at at, closer),
    )

-- What a search that begins at a place may return: either no position, with the number of lines;
-- or a line of the file, not above that place, and a position just after a closing bracket, which
-- is not before that place if it is on its line.
abbrev pub IsEnd : List Text → ℕ → ℕ → Place → Type 0
IsEnd elided linenum pos place =
    ((place.pos ≡ none) × (place.linenum ≡ length elided))
    ⊎ ((i : ℕ) × (place.pos ≡ some (i + 1))
        × (linenum ≤ place.linenum)
        × (place.linenum ≡ linenum → pos ≤ i)
        × (get_elem? elided place.linenum ≡ some place.line)
        × ClosesAt place.line i)

IsEnd-weaken :
    (elided : List Text) (n pos : ℕ) (place : Place)
    → IsEnd elided (suc n) 0 place
    → IsEnd elided n pos place
IsEnd-weaken elided n pos place (inl h) = inl h
IsEnd-weaken elided n pos place (inr (i, p, low, _, at, closer)) =
    inr (i, p, omega arith, (λ e. absurd (omega arith)), at, closer)

Scan-cases :
    (r : Scan) → ((p : ℕ) × (r ≡ closed p)) ⊎ ((r ≡ failed) ⊎ ((s : Text) × (r ≡ unfinished s)))
Scan-cases (closed p) = inl (p, refl)
Scan-cases failed = inr (inl refl)
Scan-cases (unfinished s) = inr (inr (s, refl))

close_below-IsEnd :
    (elided : List Text) (line : Text) (n pos : ℕ) (rest : List Text) (stack : Text)
    → drop (suc n) elided ≡ rest
    → IsEnd elided n pos (close_below (length elided) line n rest stack)
unfolding close_below
close_below-IsEnd elided line n pos rest [] h = inl (refl, refl)
close_below-IsEnd elided line n pos [] (c ∷ stack) h = inl (refl, refl)
close_below-IsEnd elided line n pos (next ∷ rest) (c ∷ stack) h =
    let (here, below) = drop-eq-cons (suc n) elided h in
    elim (Scan-cases (find_end_of_expression_in_line next 0 (c ∷ stack))) [
      | inl (p, e) ↦
          let (i, q, low, at) = find_end-closed next 0 (c ∷ stack) p (omega arith) e in
          rw (e, close_below)
            (inr (i, ap some q, omega arith, (λ d. absurd (omega arith)), here, at))
      | inr (inl e) ↦ rw (e, close_below) (inl (refl, refl))
      | inr (inr (stack', e)) ↦
          rw (e, close_below)
            (IsEnd-weaken elided n pos _
              (close_below-IsEnd elided next (suc n) 0 rest stack' below))
    ]

close_from-IsEnd :
    (elided : List Text) (line : Text) (n pos : ℕ)
    → get_elem? elided n ≡ some line
    → pos ≤ length line
    → IsEnd elided n pos (close_from elided n line pos)
unfolding close_from
close_from-IsEnd elided line n pos here h =
    elim (Scan-cases (find_end_of_expression_in_line line pos [])) [
      | inl (p, e) ↦
          let (i, q, low, at) = find_end-closed line pos [] p h e in
          rw (e, close_from) (inr (i, ap some q, omega arith, (λ d. low), here, at))
      | inr (inl e) ↦ rw (e, close_from) (inl (refl, refl))
      | inr (inr (stack, e)) ↦
          rw (e, close_from) (close_below-IsEnd elided line n pos (drop (suc n) elided) stack refl)
    ]

close_at-IsEnd :
    (elided : List Text) (n pos : ℕ) (line : Text) (char : ℕ)
    → get_elem? elided n ≡ some line
    → pos ≤ length line
    → IsEnd elided n pos (close_at elided n line pos char)
unfolding close_at
close_at-IsEnd elided n pos line char here h =
    elim (Bool-cases
      (not (is_open char || nat_beq char b'<') || starts shift_or_compare (drop pos line))) [
        | inl other ↦ rw other (inl (refl, refl))
        | inr bracket ↦ rw bracket (close_from-IsEnd elided line n pos here h)
      ]

-- At a character that is there, `close_expression` returns a place: either no position, with the
-- number of lines; or a line of the file that is not above, and a position just after a closing
-- bracket, which is not before the character if it is on its line.
pub close_expression-IsEnd :
    (elided : List Text) (linenum pos : ℕ) {line : Text} {char : ℕ}
    → get_elem? elided linenum ≡ some line
    → get_elem? line pos ≡ some char
    → (place : Place) × (close_expression elided linenum pos ≡ some place)
      × IsEnd elided linenum pos place
unfolding close_expression
close_expression-IsEnd elided linenum pos {line} {char} here at = (
  close_at elided linenum line pos char,
  rw (here, close_expression) (rw at refl),
  close_at-IsEnd elided linenum pos line char here
      (omega (arith, lt-length_of_get_elem? line pos at)),
)
