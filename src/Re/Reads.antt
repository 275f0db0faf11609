-- ===== src/Re/Reads.antt =====
-- What a pattern reads: each way in which it goes on stands behind a piece of the text with a
-- property, and has the groups of that piece in front of the ones before.
use cs.Base.{
  ℕ, ◌-◌, ◌≡◌, refl, sym, ap, ◌∙◌, ◌⊎◌, inl, inr, Bool, true, Bool-cases, Option, some,
  Option-cases, List, [], ◌∷◌, ◌++◌, Text, reverse_onto, reversed, length, length-append,
  take-before, reverse_onto-append, reversed-reversed, arith, nat_beq,
}
use mathlib.Core.List.{append_assoc}
use cs.Re.{
  Position, Pattern, one, lit, ◌⨟◌, ◌∣∣◌, optional, group, taken, line_start, line_end, boundary,
  ahead, not_ahead,
}

abbrev pub Groups : Type 0
Groups = List (ℕ × Option Text)

-- The position `s'` is behind the piece `t`, which has set the groups `gs`.
pub record After (s : Position) (t : Text) (gs : Groups) (s' : Position) : Type 0 where
  pub rest_eq : s.rest ≡ t ++ s'.rest
  pub past_eq : s'.past ≡ reverse_onto s.past t
  pub groups_eq : s'.groups ≡ gs ++ s.groups

abbrev pub Reads : Pattern → (Text → Groups → Type 0) → Type 0
Reads m P =
    (s : Position) (k : Position → Option Position) (r : Position)
    → m s k ≡ some r
    → (s' : Position) × (t : Text) × (gs : Groups) × (k s' ≡ some r) × After s t gs s' × P t gs

List-cases : (t : Text) → (t ≡ []) ⊎ ((c : ℕ) × (u : Text) × (t ≡ c ∷ u))
List-cases [] = inl refl
List-cases (c ∷ u) = inr (c, u, refl)

pub After-refl : (s : Position) → After s [] [] s
unfolding reverse_onto
After-refl s = record { rest_eq = refl; past_eq = refl; groups_eq = refl }

pub After-trans :
    {s s' s'' : Position} {t u : Text} {gs hs : Groups}
    → After s t gs s'
    → After s' u hs s''
    → After s (t ++ u) (hs ++ gs) s''
After-trans {s} {s'} {s''} {t} {u} {gs} {hs} a b = record {
  rest_eq = a.rest_eq ∙ ap (λ v. t ++ v) b.rest_eq ∙ sym (append_assoc t u s''.rest);
  past_eq = b.past_eq ∙ ap (λ v. reverse_onto v u) a.past_eq ∙ sym (reverse_onto-append s.past t u);
  groups_eq = b.groups_eq ∙ ap (λ v. hs ++ v) a.groups_eq ∙ sym (append_assoc hs gs s.groups);
}

-- One character of the class.
abbrev pub OneOf : (ℕ → Bool) → Text → Groups → Type 0
OneOf p t gs = (c : ℕ) × (t ≡ c ∷ []) × (p c ≡ true) × (gs ≡ [])

pub one-Reads : (p : ℕ → Bool) → Reads (one p) (OneOf p)
unfolding one reverse_onto
one-Reads p s k r h = elim (List-cases s.rest) [
  | inl e ↦ absurd (ground arith)
  | inr (c, u, e) ↦ elim (Bool-cases (p c)) [
    | inl yes_ ↦ (
      record s { past = c ∷ s.past; rest = u },
      c ∷ [],
      [],
      ground arith,
      record { rest_eq = e; past_eq = refl; groups_eq = refl },
      (c, refl, yes_, refl),
    )
    | inr no_ ↦ absurd (ground arith)
  ]
]

-- Nothing is read.
abbrev pub Empty : Text → Groups → Type 0
Empty t gs = (t ≡ []) × (gs ≡ [])

abbrev pub Both : (P Q : Text → Groups → Type 0) → Text → Groups → Type 0
Both P Q t gs =
    (a : Text) × (b : Text) × (as_ : Groups) × (bs : Groups) × (t ≡ a ++ b)
    × (gs ≡ bs ++ as_)
    × P a as_
    × Q b bs

pub ⨟-Reads :
    (m n : Pattern) {P Q : Text → Groups → Type 0}
    → Reads m P
    → Reads n Q
    → Reads (m ⨟ n) (Both P Q)
unfolding ◌⨟◌
⨟-Reads m n x y s k r h =
    let (s', a, as_, e, after, p) = x s (λ s'. n s' k) r h in
    let (s'', b, bs, f, after', q) = y s' k r e in
    (s'', a ++ b, bs ++ as_, f, After-trans after after', (a, b, as_, bs, refl, refl, p, q))

abbrev pub Literal : Text → Text → Groups → Type 0
Literal w t gs = (t ≡ w) × (gs ≡ [])

pub lit-Reads : (w : Text) → Reads (lit w) (Literal w)
unfolding lit
lit-Reads [] s k r h = (s, [], [], h, After-refl s, (refl, refl))
lit-Reads (c ∷ w) s k r h =
    let (s', t, gs, e, after, (d, t_eq, same, none_set)) =
      one-Reads (λ d. nat_beq d c) s (λ s'. lit w s' k) r h in
    let (s'', u, hs, f, after', (u_eq, hs_eq)) = lit-Reads w s' k r e in
    let is_c : d ≡ c = ground arith in
    (
      s'',
      t ++ u,
      hs ++ gs,
      f,
      After-trans after after',
      (rw (t_eq, u_eq, is_c) refl, rw (hs_eq, none_set) refl),
    )

abbrev pub Either : (P Q : Text → Groups → Type 0) → Text → Groups → Type 0
Either P Q t gs = P t gs ⊎ Q t gs

pub ∣∣-Reads :
    (m n : Pattern) {P Q : Text → Groups → Type 0}
    → Reads m P
    → Reads n Q
    → Reads (m ∣∣ n) (Either P Q)
unfolding ◌∣∣◌
∣∣-Reads m n x y s k r h = elim (Option-cases (m s k)) [
  | inl e ↦
      let (s', t, gs, f, after, q) = y s k r (rw (e, ◌∣∣◌) at h) in (s', t, gs, f, after, inr q)
  | inr (v, e) ↦
      let (s', t, gs, f, after, p) = x s k r (e ∙ (rw (e, ◌∣∣◌) at h)) in
      (s', t, gs, f, after, inl p)
]

pub optional-Reads :
    (m : Pattern) {P : Text → Groups → Type 0} → Reads m P → Reads (optional m) (Either P Empty)
unfolding optional
optional-Reads m x s k r h = elim (Option-cases (m s k)) [
  | inl e ↦ (s, [], [], rw (e, optional) at h, After-refl s, inr (refl, refl))
  | inr (v, e) ↦
      let (s', t, gs, f, after, p) = x s k r (e ∙ (rw (e, optional) at h)) in
      (s', t, gs, f, after, inl p)
]

pub line_start-Reads : Reads line_start Empty
unfolding line_start
line_start-Reads s k r h = elim (List-cases s.past) [
  | inl e ↦ (s, [], [], rw (e, line_start) at h, After-refl s, (refl, refl))
  | inr (c, u, e) ↦ absurd (ground arith)
]

pub line_end-Reads : Reads line_end Empty
unfolding line_end
line_end-Reads s k r h = (s, [], [], ground arith, After-refl s, (refl, refl))

pub boundary-Reads : Reads boundary Empty
unfolding boundary
boundary-Reads s k r h = (s, [], [], ground arith, After-refl s, (refl, refl))

pub ahead-Reads : (m : Pattern) → Reads (ahead m) Empty
unfolding ahead
ahead-Reads m s k r h = (s, [], [], ground arith, After-refl s, (refl, refl))

pub not_ahead-Reads : (m : Pattern) → Reads (not_ahead m) Empty
unfolding not_ahead
not_ahead-Reads m s k r h = (s, [], [], ground arith, After-refl s, (refl, refl))

-- The group takes what its pattern reads.
abbrev pub Grouped : ℕ → (Text → Groups → Type 0) → Text → Groups → Type 0
Grouped i P t gs = (hs : Groups) × (gs ≡ (i, some t) ∷ hs) × P t hs

pub reverse_onto-split : (t p q : Text) → reverse_onto (p ++ q) t ≡ reverse_onto p t ++ q
unfolding reverse_onto
reverse_onto-split [] p q = refl
reverse_onto-split (c ∷ t) p q = reverse_onto-split t (c ∷ p) q

onto-reversed : (t p : Text) → reverse_onto p t ≡ reversed t ++ p
unfolding reversed
onto-reversed t p = reverse_onto-split t [] p

pub taken-After : {s s' : Position} {t : Text} {gs : Groups} → After s t gs s' → taken s s' ≡ t
unfolding taken
taken-After {s} {s'} {t} after =
    let size : length (reversed t ++ s.past) - length s.past ≡ length (reversed t) =
      omega (arith, length-append (reversed t) s.past) in
    rw (after.past_eq, onto-reversed t s.past, size, take-before (reversed t) s.past)
      (reversed-reversed t)

pub group-Reads :
    (i : ℕ) (m : Pattern) {P : Text → Groups → Type 0} → Reads m P → Reads (group i m) (Grouped i P)
unfolding group
group-Reads i m x s k r h =
    let (s', t, hs, e, after, p) =
      x s (λ s'. k (record s' { groups = (i, some (taken s s')) ∷ s'.groups })) r h in
    (
      record s' { groups = (i, some (taken s s')) ∷ s'.groups },
      t,
      (i, some t) ∷ hs,
      e,
      record {
        rest_eq = after.rest_eq;
        past_eq = after.past_eq;
        groups_eq =
            ap (λ u. (i, some u) ∷ s'.groups) (taken-After after)
            ∙ ap (λ v. (i, some t) ∷ v) after.groups_eq;
      },
      (hs, refl, p),
    )

-- A weaker property.
pub Reads-weaken :
    (m : Pattern) {P Q : Text → Groups → Type 0}
    → ((t : Text) (gs : Groups) → P t gs → Q t gs)
    → Reads m P
    → Reads m Q
Reads-weaken m w x s k r h =
    let (s', t, gs, e, after, p) = x s k r h in (s', t, gs, e, after, w t gs p)
