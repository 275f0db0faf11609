-- ===== src/Style/Places.antt =====
-- Where `CloseExpression` is called: on a character that the line has.
use cs.Base.{
  ℕ, zero, suc, ◌-◌, ◌≡◌, ◌≤◌, ◌<◌, refl, Option-cases, inl, inr, Option, none, some, List, [], ◌∷◌,
  Text, String, codes, length, get_elem?, get_elem?-some, drop, find, starts_with, lookup_or,
  nat_eq, arith,
}
use cs.Re.{Found, group_of}
use cs.Re.Reads.{Groups, Reads}
use cs.Re.Shows.{Shows}
use cs.Re.Shapes.{
  Shape, ids, size, size_of, length-whole, ∣∣-Shape, lit-Shape, Shape-weaken, many-one-Shape,
}
use cs.Re.Short.{any_of, blanks, anything, str}
use cs.CleansedLines.{group_text}
use cs.Brackets.{close_at, close_expression}
use cs.Brackets.Reverse.{reverse_at, reverse_close_expression}
use cs.LineChecks.Namespaces.{line_at}
use cs.Paths.{after_last}

-- A computation that gives a value.
abbrev pub Gives {ℓ} : {A : Type ℓ} → Option A → Type ℓ
Gives {A = A} o = (a : A) × (o ≡ some a)

pub get_elem?-line_at :
    (lines : List Text) (n : ℕ) → n < length lines → get_elem? lines n ≡ some (line_at lines n)
get_elem?-line_at [] n h = absurd (omega arith)
get_elem?-line_at (line ∷ lines) zero h = refl
get_elem?-line_at (line ∷ lines) (suc n) h = get_elem?-line_at lines n (omega arith)

pub line_at-get_elem? :
    (lines : List Text) (n : ℕ) {line : Text}
    → get_elem? lines n ≡ some line
    → line_at lines n ≡ line
line_at-get_elem? [] n e = cc
line_at-get_elem? (x ∷ lines) zero e = ground arith
line_at-get_elem? (x ∷ lines) (suc n) e = line_at-get_elem? lines n e

pub close_expression-Gives :
    (elided : List Text) (linenum pos : ℕ)
    → linenum < length elided
    → pos < length (line_at elided linenum)
    → Gives (close_expression elided linenum pos)
unfolding close_expression
close_expression-Gives elided linenum pos here at =
    let (char, e) = get_elem?-some (line_at elided linenum) pos at in
    (
      close_at elided linenum (line_at elided linenum) pos char,
      rw (get_elem?-line_at elided linenum here, close_expression) (rw e refl),
    )

pub reverse_close_expression-Gives :
    (elided : List Text) (linenum pos : ℕ)
    → linenum < length elided
    → pos < length (line_at elided linenum)
    → Gives (reverse_close_expression elided linenum pos)
unfolding reverse_close_expression
reverse_close_expression-Gives elided linenum pos here at =
    let (char, e) = get_elem?-some (line_at elided linenum) pos at in
    (
      reverse_at elided linenum (line_at elided linenum) pos char,
      rw (get_elem?-line_at elided linenum here, reverse_close_expression) (rw e refl),
    )

-- The size of the only group, of the match of a pattern.
size_one : (gs : Groups) → ids gs ≡ 1 ∷ [] → size gs ≡ size_of (lookup_or none 1 gs)
unfolding ids size lookup_or
size_one [] e = cc
size_one ((i, o) ∷ []) e = ground arith
size_one ((i, o) ∷ (j, p) ∷ gs) e = cc

length-or_empty :
    (o : Option Text) → length (let t : Text = elim o [ none ↦ [] | some t ↦ t ] in t) ≡ size_of o
length-or_empty none = refl
length-or_empty (some t) = refl

pub length-group_text : (f : Found) (i : ℕ) → length (group_text f i) ≡ size_of (group_of f i)
length-group_text f i = length-or_empty (group_of f i)

pub group_one-lt :
    (n : ℕ) (t : Text) (f : Found)
    → Shows (Shape (suc n) (1 ∷ [])) t f
    → length (group_text f 1) < length t
unfolding group_of
group_one-lt n t f s = omega (
  arith,
  length-group_text f 1,
  s.gained.fits,
  size_one f.groups s.gained.sets,
  length-whole t f s,
)

pub any_of-Shape : (ws : List String) → Reads (any_of ws) (Shape 0 [])
unfolding any_of
any_of-Shape [] = λ s k r e. cc
any_of-Shape (w ∷ ws) =
    ∣∣-Shape (str w) (any_of ws) (Shape-weaken 0 (str w) (omega arith) (lit-Shape (codes w)))
      (any_of-Shape ws)

pub blanks-Shape : Reads blanks (Shape 0 [])
unfolding blanks
blanks-Shape = many-one-Shape _

pub anything-Shape : Reads anything (Shape 0 [])
unfolding anything
anything-Shape = many-one-Shape _

pub lt-length_of_find : (s p : Text) (i : ℕ) → find s p ≡ some i → 0 < length p → i < length s
unfolding find starts_with
lt-length_of_find [] [] i e h = absurd (omega arith)
lt-length_of_find [] (d ∷ p) i e h = cc
lt-length_of_find (c ∷ s) p i e h = elim (Option-cases (find s p)) [
  | inl f ↦ ground arith
  | inr (n, f) ↦ ground (arith, lt-length_of_find s p n f h)
]

pub length-drop : (n : ℕ) (t : Text) → length (drop n t) ≡ length t - n
length-drop zero t = omega arith
length-drop (suc n) [] = omega arith
length-drop (suc n) (c ∷ t) = omega (arith, length-drop n t)

pub after_last-le : (c : ℕ) (s : Text) → after_last c s ≤ length s
unfolding after_last
after_last-le c [] = omega arith
after_last-le c (d ∷ s) = ground (arith, after_last-le c s)
