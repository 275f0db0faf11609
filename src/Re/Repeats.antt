-- ===== src/Re/Repeats.antt =====
-- What the repetition of a pattern reads.
use cs.Base.{
  ℕ, zero, suc, ◌≡◌, refl, ◌∙◌, inl, inr, Bool, true, false, Bool-cases, Option, none, Option-cases,
  [], ◌++◌, Text, All, length, arith, ltb,
}
use cs.Re.{Position, Pattern, one, many_from, many, lazy_from, lazy_many}
use cs.Re.Reads.{Groups, Reads, After-refl, After-trans, OneOf, one-Reads}

-- A property of each round and of nothing, which holds of two pieces if it does of both.
pub record IsRepeated (P Q : Text → Groups → Type 0) : Type 0 where
  pub nothing : Q [] []
  pub another : (a b : Text) (gs hs : Groups) → P a gs → Q b hs → Q (a ++ b) (hs ++ gs)

many_from-Reads :
    (m : Pattern) (P Q : Text → Groups → Type 0)
    → Reads m P
    → IsRepeated P Q
    → (fuel : ℕ) → Reads (many_from m fuel) Q
unfolding many_from
many_from-Reads m P Q x rep zero s k r h = (s, [], [], h, After-refl s, rep.nothing)
many_from-Reads m P Q x rep (suc fuel) s k r h =
    let round : Position → Option Position = λ s'. elim (ltb (length s'.rest) (length s.rest)) [
      | true ↦ many_from m fuel s' k
      | false ↦ none
    ] in
    elim (Option-cases (m s round)) [
      | inl stopped ↦ (s, [], [], rw (stopped, many_from) at h, After-refl s, rep.nothing)
      | inr (v, went) ↦
          let (s', a, as_, e, after, p) = x s round r (went ∙ (rw (went, many_from) at h)) in
          elim (Bool-cases (ltb (length s'.rest) (length s.rest))) [
            | inl shorter ↦
                let (s'', b, bs, f, after', q) =
                  many_from-Reads m P Q x rep fuel s' k r (rw shorter at e) in
                (s'', a ++ b, bs ++ as_, f, After-trans after after', rep.another a b as_ bs p q)
            | inr not_shorter ↦ absurd (ground arith)
          ]
    ]

pub many-Reads :
    (m : Pattern) (P Q : Text → Groups → Type 0) → Reads m P → IsRepeated P Q → Reads (many m) Q
unfolding many
many-Reads m P Q x rep s = many_from-Reads m P Q x rep (length s.rest) s

lazy_from-Reads :
    (m : Pattern) (P Q : Text → Groups → Type 0)
    → Reads m P
    → IsRepeated P Q
    → (fuel : ℕ) → Reads (lazy_from m fuel) Q
unfolding lazy_from
lazy_from-Reads m P Q x rep zero s k r h = (s, [], [], h, After-refl s, rep.nothing)
lazy_from-Reads m P Q x rep (suc fuel) s k r h =
    let round : Position → Option Position = λ s'. elim (ltb (length s'.rest) (length s.rest)) [
      | true ↦ lazy_from m fuel s' k
      | false ↦ none
    ] in
    elim (Option-cases (k s)) [
      | inr (v, stopped) ↦
          (s, [], [], stopped ∙ (rw (stopped, lazy_from) at h), After-refl s, rep.nothing)
      | inl going ↦
          let (s', a, as_, e, after, p) = x s round r (rw (going, lazy_from) at h) in
          elim (Bool-cases (ltb (length s'.rest) (length s.rest))) [
            | inl shorter ↦
                let (s'', b, bs, f, after', q) =
                  lazy_from-Reads m P Q x rep fuel s' k r (rw shorter at e) in
                (s'', a ++ b, bs ++ as_, f, After-trans after after', rep.another a b as_ bs p q)
            | inr not_shorter ↦ absurd (ground arith)
          ]
    ]

pub lazy_many-Reads :
    (m : Pattern) (P Q : Text → Groups → Type 0)
    → Reads m P
    → IsRepeated P Q
    → Reads (lazy_many m) Q
unfolding lazy_many
lazy_many-Reads m P Q x rep s = lazy_from-Reads m P Q x rep (length s.rest) s

abbrev pub Plain : Text → Groups → Type 0
Plain t gs = gs ≡ []

-- All characters are in the class.
abbrev pub AllIn : (ℕ → Bool) → Text → Groups → Type 0
AllIn p t gs = All (λ c. p c ≡ true) t × (gs ≡ [])

OneOf-IsRepeated : (p : ℕ → Bool) → IsRepeated (OneOf p) (AllIn p)
OneOf-IsRepeated p = record {
  nothing = (tt, refl);
  another = λ a b gs hs (c, e, is_in, f) (rest, g). (rw e (is_in, rest), rw (f, g) refl);
}

pub many-one-Reads : (p : ℕ → Bool) → Reads (many (one p)) (AllIn p)
many-one-Reads p = many-Reads (one p) (OneOf p) (AllIn p) (one-Reads p) (OneOf-IsRepeated p)

Plain-IsRepeated : IsRepeated Plain Plain
Plain-IsRepeated = record { nothing = refl; another = λ a b gs hs e f. rw (e, f) refl }

pub many-Plain-Reads : (m : Pattern) → Reads m Plain → Reads (many m) Plain
many-Plain-Reads m x = many-Reads m Plain Plain x Plain-IsRepeated

pub lazy_one-Reads : (p : ℕ → Bool) → Reads (lazy_many (one p)) (AllIn p)
lazy_one-Reads p = lazy_many-Reads (one p) (OneOf p) (AllIn p) (one-Reads p) (OneOf-IsRepeated p)
