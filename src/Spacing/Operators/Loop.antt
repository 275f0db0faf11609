-- ===== src/Spacing/Operators/Loop.antt =====
-- The loop of `check_operator_spacing` ends: each round leaves fewer characters that are no
-- underscores, and no longer line.
use cs.Base.{
  append_nil, ℕ, zero, suc, ◌+◌, ◌≡◌, ◌≤◌, ◌<◌, refl, ap, ◌∙◌, Bool, true, false, Bool-cases,
  Option-cases, not, inl, inr, Option, none, some, List, [], ◌∷◌, ◌++◌, Text, codes, nat_beq,
  length, length-append, reverse_onto, is_space, lookup_or, nat_eq, if◌then◌else◌, arith,
}
use mathlib.Core.List.{append_assoc}
use cs.Re.{
  Position, Pattern, Found, lit, one, ◌⨟◌, many, some_of, group, boundary, line_end, word_at,
  differ, is_word, any_char, taken, group_of, matches,
}
use cs.Re.Reads.{
  Groups, After, After-trans, Reads, taken-After, lit-Reads, one-Reads, OneOf, Both, ⨟-Reads,
  group-Reads, line_start-Reads, line_end-Reads, boundary-Reads, Reads-weaken,
}
use cs.Re.Repeats.{many-one-Reads, AllIn, Plain}
use cs.Re.Shows.{matches-Shows}
use cs.Re.Short.{anything, str, chr, blanks}
use cs.CleansedLines.{group_text}
use cs.Spacing.Operators.{operator_method, underscores, hide_operator, hide_operators}

boundary-word :
    (s : Position) (k : Position → Option Position) (r : Position)
    → boundary s k ≡ some r
    → (k s ≡ some r) × (differ (word_at s.past) (word_at s.rest) ≡ true)
unfolding boundary
boundary-word s k r e = elim (Bool-cases (differ (word_at s.past) (word_at s.rest))) [
  | inl ends ↦ (ground arith, ends)
  | inr inside ↦ absurd (ground arith)
]

word_read :
    (past rest before t : Text)
    → t ≡ codes "operator"
    → past ≡ reverse_onto before t
    → differ (word_at past) (word_at rest) ≡ true
    → word_at rest ≡ false
unfolding reverse_onto
word_read past rest before t e f h =
    let g : differ (word_at (reverse_onto before (codes "operator"))) (word_at rest) ≡ true =
      rw (f, e) at h in
    ground arith

close_group :
    {s w : Position} {t : Text} {gs : Groups} (i : ℕ)
    → After s t gs w
    → gs ≡ []
    → After s t ((i, some t) ∷ []) (record w { groups = (i, some (taken s w)) ∷ w.groups })
close_group {s} {w} {t} i after e = record {
  rest_eq = after.rest_eq;
  past_eq = after.past_eq;
  groups_eq =
      ap (λ u. (i, some u) ∷ w.groups) (taken-After after)
      ∙ ap (λ v. (i, some t) ∷ v) (after.groups_eq ∙ ap (λ g. g ++ s.groups) e);
}

-- Group 1 ends behind the word `operator`: no character of a word follows.
operator_name :
    (s : Position) (k : Position → Option Position) (r : Position)
    → group 1 (anything ⨟ boundary ⨟ str "operator" ⨟ boundary) s k ≡ some r
    → (s' : Position) × (t : Text) × (k s' ≡ some r)
      × After s t ((1, some t) ∷ []) s'
      × (word_at s'.rest ≡ false)
unfolding group ◌⨟◌ reverse_onto anything
operator_name s k r h =
    let K : Position → Option Position =
      λ w. k (record w { groups = (1, some (taken s w)) ∷ w.groups }) in
    let (u, t1, g1, e1, after1, (all, none1)) =
      many-one-Reads any_char s
        (λ u. boundary u (λ v. lit (codes "operator") v (λ w. boundary w K))) r h in
    let (v, t2, g2, e2, after2, (empty2, none2)) =
      boundary-Reads u (λ v. lit (codes "operator") v (λ w. boundary w K)) r e1 in
    let (w, t3, g3, e3, after3, (is_word3, none3)) =
      lit-Reads (codes "operator") v (λ w. boundary w K) r e2 in
    let (e4, ends) = boundary-word w K r e3 in
    (
      record w { groups = (1, some (taken s w)) ∷ w.groups },
      (t1 ++ t2) ++ t3,
      e4,
      close_group 1 (After-trans (After-trans after1 after2) after3)
          (rw (none1, none2, none3) refl),
      word_read w.past w.rest v.past t3 is_word3 after3.past_eq ends,
    )

first_other :
    (rest rest' t : Text) (p : ℕ → Bool) (gs : Groups)
    → rest ≡ t ++ rest'
    → word_at rest ≡ false
    → Both (OneOf p) (AllIn p) t gs
    → (d : ℕ) × (b : Text) × (t ≡ d ∷ b) × (is_word d ≡ false) × (gs ≡ [])
first_other rest rest' t p gs e h (a, b, as_, bs, split, sets, (d, a_eq, _, none_a), (_, none_b)) =
    let t_eq : t ≡ d ∷ b = split ∙ ap (λ u. u ++ b) a_eq in
    let f : word_at ((d ∷ b) ++ rest') ≡ false = rw (e, t_eq) at h in
    (d, b, t_eq, f, rw (sets, none_a, none_b) refl)

tail-Plain : Reads (blanks ⨟ chr b'(' ⨟ anything) Plain
unfolding blanks anything
tail-Plain =
    Reads-weaken (blanks ⨟ chr b'(' ⨟ anything)
      (λ t gs (a, b, as_, bs, _, e, (_, f), (a', b', as_', bs', _, e', (_, _, _, g), (_, g'))).
        rw (e, f, e', g, g') refl)
      (⨟-Reads blanks (chr b'(' ⨟ anything) (many-one-Reads _)
        (⨟-Reads (chr b'(') anything (one-Reads _) (many-one-Reads _)))

-- The groups of the whole pattern make up what it reads, and group 2 begins with no character of a
-- word.
abbrev Parts : Text → Groups → Type 0
Parts t gs =
    (a : Text) × (d : ℕ) × (b : Text) × (c : Text) × (t ≡ a ++ ((d ∷ b) ++ c))
    × (gs ≡ (3, some c) ∷ (2, some (d ∷ b)) ∷ (1, some a) ∷ [])
    × (is_word d ≡ false)

append-Parts :
    (t0 a t2 c t4 b : Text) (d : ℕ) (g0 g2 h2 g3 h3 g4 : Groups)
    → t0 ≡ []
    → t4 ≡ []
    → t2 ≡ d ∷ b
    → g0 ≡ []
    → g4 ≡ []
    → g2 ≡ (2, some t2) ∷ h2
    → h2 ≡ []
    → g3 ≡ (3, some c) ∷ h3
    → h3 ≡ []
    → is_word d ≡ false
    → Parts ((((t0 ++ a) ++ t2) ++ c) ++ t4) (g4 ++ (g3 ++ (g2 ++ (((1, some a) ∷ []) ++ g0))))
append-Parts t0 a t2 c t4 b d g0 g2 h2 g3 h3 g4 z0 z4 second n0 n4 s2 n2 s3 n3 other = (
  a,
  d,
  b,
  c,
  rw (z0, z4, second) (append_nil ((a ++ (d ∷ b)) ++ c) ∙ append_assoc a (d ∷ b) c),
  rw (n0, n4, s2, n2, s3, n3, second) refl,
  other,
)

operator_method-Reads : Reads operator_method Parts
unfolding operator_method ◌⨟◌ some_of
operator_method-Reads s k r h =
    let p : ℕ → Bool = λ c. not (is_space c) in
    let Z : Pattern = blanks ⨟ chr b'(' ⨟ anything in
    let K3 : Position → Option Position = λ s3. line_end s3 k in
    let K2 : Position → Option Position = λ s2. group 3 Z s2 K3 in
    let K1 : Position → Option Position = λ s1. group 2 (some_of (one p)) s1 K2 in
    let (s0, t0, g0, e0, after0, (z0, n0)) =
      line_start-Reads s (λ s0. group 1 (anything ⨟ boundary ⨟ str "operator" ⨟ boundary) s0 K1) r
        h in
    let (s1, t1, e1, after1, nonword) = operator_name s0 K1 r e0 in
    let (s2, t2, g2, e2, after2, (h2, set2, p2)) =
      group-Reads 2 (some_of (one p))
        (⨟-Reads (one p) (many (one p)) (one-Reads p) (many-one-Reads p)) s1 K2 r e1 in
    let (s3, t3, g3, e3, after3, (h3, set3, plain)) = group-Reads 3 Z tail-Plain s2 K3 r e2 in
    let (s4, t4, g4, e4, after4, (z4, n4)) = line_end-Reads s3 k r e3 in
    let (d, b, second, other, none2) =
      first_other s1.rest s2.rest t2 p h2 after2.rest_eq nonword p2 in
    (
      s4,
      (((t0 ++ t1) ++ t2) ++ t3) ++ t4,
      g4 ++ (g3 ++ (g2 ++ (((1, some t1) ∷ []) ++ g0))),
      e4,
      After-trans (After-trans (After-trans (After-trans after0 after1) after2) after3) after4,
      append-Parts t0 t1 t2 t3 t4 b d g0 g2 h2 g3 h3 g4 z0 z4 second n0 n4 set2 none2 set3 plain
          other,
    )

-- The characters that are no underscores.
shown : Text → ℕ
shown [] = 0
shown (c ∷ t) = (if nat_beq c b'_' then 0 else 1) + shown t

shown-append : (s t : Text) → shown (s ++ t) ≡ shown s + shown t
unfolding shown
shown-append [] t = omega arith
shown-append (c ∷ s) t = omega (arith, shown-append s t)

shown-le : (t : Text) → shown t ≤ length t
unfolding shown
shown-le [] = omega arith
shown-le (c ∷ t) = ground (arith, shown-le t)

shown-underscores : (t : Text) → shown (underscores t) ≡ 0
unfolding shown underscores
shown-underscores [] = refl
shown-underscores (c ∷ t) = omega (arith, shown-underscores t)

length-underscores : (t : Text) → length (underscores t) ≡ length t
unfolding underscores
length-underscores [] = refl
length-underscores (c ∷ t) = ap suc (length-underscores t)

shown-other : (d : ℕ) (b : Text) → is_word d ≡ false → shown (d ∷ b) ≡ suc (shown b)
unfolding shown
shown-other d b h = ground arith

text_of : (f : Found) (i : ℕ) (t : Text) → group_of f i ≡ some t → group_text f i ≡ t
text_of f i t e = ground arith

hidden_text :
    (f : Found) (a b c : Text)
    → f.groups ≡ (3, some c) ∷ (2, some b) ∷ (1, some a) ∷ []
    → hide_operator f ≡ a ++ (underscores b ++ c)
unfolding hide_operator group_of lookup_or
hidden_text f a b c e =
    rw
      (
        text_of f 1 a (group_at f 1 e),
        text_of f 2 b (group_at f 2 e),
        text_of f 3 c (group_at f 3 e),
      )
      refl
  where
    group_at :
        (f : Found) (i : ℕ) {gs : List (ℕ × Option Text)}
        → f.groups ≡ gs
        → group_of f i ≡ lookup_or none i gs
    group_at f i e = ap (lookup_or none i) e

sizes_hidden :
    (a b c before after line : Text) (d : ℕ)
    → line ≡ before ++ ((a ++ ((d ∷ b) ++ c)) ++ after)
    → is_word d ≡ false
    → (shown (a ++ (underscores (d ∷ b) ++ c)) < shown line)
      × (length (a ++ (underscores (d ∷ b) ++ c)) ≤ length line)
sizes_hidden a b c before after line d e other = (
  omega (
    arith,
    ap shown e,
    shown-append before ((a ++ ((d ∷ b) ++ c)) ++ after),
    shown-append (a ++ ((d ∷ b) ++ c)) after,
    shown-append a ((d ∷ b) ++ c),
    shown-append (d ∷ b) c,
    shown-other d b other,
    shown-append a (underscores (d ∷ b) ++ c),
    shown-append (underscores (d ∷ b)) c,
    shown-underscores (d ∷ b),
  ),
  omega (
    arith,
    ap (length {0}) e,
    length-append before ((a ++ ((d ∷ b) ++ c)) ++ after),
    length-append (a ++ ((d ∷ b) ++ c)) after,
    length-append a ((d ∷ b) ++ c),
    length-append (d ∷ b) c,
    length-append a (underscores (d ∷ b) ++ c),
    length-append (underscores (d ∷ b)) c,
    length-underscores (d ∷ b),
  ),
)

hide_operator-Shrinks :
    (line : Text) (f : Found)
    → matches operator_method line ≡ some f
    → (shown (hide_operator f) < shown line) × (length (hide_operator f) ≤ length line)
hide_operator-Shrinks line f e =
    let s = matches-Shows operator_method line f operator_method-Reads e in
    let (a, d, b, c, whole, groups, other) = s.gained in
    rw (hidden_text f a (d ∷ b) c groups) (
      sizes_hidden a b c f.before f.after line d
        (s.text_eq ∙ ap (λ w. f.before ++ (w ++ f.after)) whole) other)

hide_operators_enough :
    (fuel : ℕ) (line : Text)
    → shown line < fuel
    → (hidden : Text) × (hide_operators fuel line ≡ some hidden) × (length hidden ≤ length line)
unfolding hide_operators
hide_operators_enough zero line h = absurd (omega arith)
hide_operators_enough (suc fuel) line h = elim (Option-cases (matches operator_method line)) [
  | inl e ↦ (line, rw (e, hide_operators) refl, omega arith)
  | inr (f, e) ↦
      let (less, short) = hide_operator-Shrinks line f e in
      let (hidden, done, fits) = hide_operators_enough fuel (hide_operator f) (omega arith) in
      (hidden, rw (e, hide_operators) done, omega arith)
]

-- The fuel for each character of the line is enough, and what the loop leaves is no longer than the
-- line.
pub hide_operators_total :
    (line : Text)
    → (hidden : Text) × (hide_operators (suc (length line)) line ≡ some hidden)
      × (length hidden ≤ length line)
hide_operators_total line =
    hide_operators_enough (suc (length line)) line (omega (arith, shown-le line))
