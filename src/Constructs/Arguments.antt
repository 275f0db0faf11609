-- ===== src/Constructs/Arguments.antt =====
-- The arguments of a constructor in `check_for_non_standard_constructs`, which are split at their
-- commas and put together again.
use cs.Base.{
  ℕ, ◌≡◌, refl, ap, ◌∙◌, false, Bool-cases, Option-cases, inl, inr, some, List, [], ◌∷◌, ◌++◌, Text,
  nat_beq, split, cons_head, All, arith,
}
use mathlib.Core.List.{append_assoc}
use cs.Constructs.{collapse, is_open_arg, collapse_args, constructor_args}

-- The arguments behind the first, each with the comma before it.
abbrev pub behind : List Text → Text
behind [] = []
behind (arg ∷ args) = b',' ∷ (arg ++ behind args)

-- `','.join(args)`
abbrev pub join : List Text → Text
join [] = []
join (arg ∷ args) = arg ++ behind args

abbrev Head : List Text → Type 0
Head ts = (t : Text) × ((r : List Text) × (ts ≡ t ∷ r))

behind-Head : (ts : List Text) → Head ts → behind ts ≡ b',' ∷ join ts
behind-Head [] (t, (r, e)) = cc
behind-Head (u ∷ us) h = refl

split-Head : (sep : ℕ) (s : Text) → Head (split sep s)
unfolding split
split-Head sep [] = ([], ([], refl))
split-Head sep (c ∷ s) = elim (Bool-cases (nat_beq c sep)) [
  | inl e ↦ ([], (split sep s, ground arith))
  | inr e ↦ let (t, (r, f)) = split-Head sep s in (c ∷ t, (r, ground arith))
]

join-cons_head : (c : ℕ) (ts : List Text) → join (cons_head c ts) ≡ c ∷ join ts
join-cons_head c [] = refl
join-cons_head c (t ∷ ts) = refl

join-split : (s : Text) → join (split b',' s) ≡ s
unfolding split
join-split [] = refl
join-split (c ∷ s) = ground (
  arith,
  join-split s,
  behind-Head (split b',' s) (split-Head b',' s),
  join-cons_head c (split b',' s),
)

Collapsed : Text → List Text → List Text → Type 0
Collapsed arg rest args =
    Head args × ((join args ≡ join (arg ∷ rest)) × All (λ a. is_open_arg a ≡ false) args)

collapse_args-Collapsed :
    (arg : Text) (rest args : List Text)
    → collapse_args arg rest ≡ some args
    → Collapsed arg rest args
unfolding collapse_args Collapsed
collapse_args-Collapsed arg [] args e = elim (Bool-cases (is_open_arg arg)) [
  | inl h ↦ absurd (ground arith)
  | inr h ↦ let at : args ≡ arg ∷ [] = ground arith in rw at ((arg, ([], refl)), (refl, (h, tt)))
]
collapse_args-Collapsed arg (next ∷ rest) args e = elim (Bool-cases (is_open_arg arg)) [
  | inl h ↦
      let (head, (same, closed)) =
        collapse_args-Collapsed (arg ++ (b',' ∷ next)) rest args (ground arith) in
      (head, (same ∙ append_assoc arg (b',' ∷ next) (behind rest), closed))
  | inr h ↦ elim (Option-cases (collapse_args next rest)) [
    | inl none_eq ↦ absurd (ground arith)
    | inr (others, o) ↦
        let at : args ≡ arg ∷ others = ground arith in
        let (head, (same, closed)) = collapse_args-Collapsed next rest others o in
        rw at (
          (arg, (others, refl)),
          (ap (λ r. arg ++ r) (behind-Head others head ∙ ap (λ r. b',' ∷ r) same), (h, closed)),
        )
  ]
]

collapse-Collapsed :
    (ts args : List Text)
    → Head ts
    → collapse ts ≡ some args
    → (join args ≡ join ts) × All (λ a. is_open_arg a ≡ false) args
unfolding Collapsed
collapse-Collapsed [] args (t, (r, e)) f = absurd (cc)
collapse-Collapsed (arg ∷ rest) args h f = (collapse_args-Collapsed arg rest args f).1

-- The arguments that are found for a constructor make up its text again, and none of them has a
-- bracket that is open.
pub constructor_args-join :
    (t : Text) (args : List Text)
    → constructor_args t ≡ some args
    → (join args ≡ t) × All (λ a. is_open_arg a ≡ false) args
unfolding constructor_args
constructor_args-join [] args e = let at : args ≡ [] = ground arith in rw at (refl, tt)
constructor_args-join (c ∷ t) args e =
    let (same, closed) = collapse-Collapsed (split b',' (c ∷ t)) args (split-Head b',' (c ∷ t)) e in
    (same ∙ join-split (c ∷ t), closed)
