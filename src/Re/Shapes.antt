-- ===== src/Re/Shapes.antt =====
-- The shape of what a pattern reads: which groups it sets, and how many characters there are at
-- least beside those that the groups take.
use cs.Base.{
  ℕ, ◌+◌, ◌≤◌, ◌≡◌, refl, ap, inl, inr, Bool, Option, none, some, List, [], ◌∷◌, ◌++◌, Text, length,
  length-append, lookup_or, nat_eq, arith,
}
use cs.Re.Shows.{Shows}
use cs.Re.{Found, group_of, Pattern, one, lit, ◌⨟◌, ◌∣∣◌, optional, many, lazy_many, group}
use cs.Re.Reads.{
  Groups, Reads, Reads-weaken, Empty, ⨟-Reads, ∣∣-Reads, group-Reads, lit-Reads, one-Reads,
  optional-Reads,
}
use cs.Re.Repeats.{many-one-Reads, lazy_one-Reads, many-Reads, IsRepeated}

abbrev pub size_of : Option Text → ℕ
size_of none = 0
size_of (some t) = length t

unfoldable pub ids : Groups → List ℕ
ids [] = []
ids ((i, o) ∷ gs) = i ∷ ids gs

unfoldable pub size : Groups → ℕ
size [] = 0
size ((i, o) ∷ gs) = size_of o + size gs

ids-append : (gs hs : Groups) → ids (gs ++ hs) ≡ ids gs ++ ids hs
unfolding ids
ids-append [] hs = refl
ids-append ((i, o) ∷ gs) hs = ap (◌∷◌ i) (ids-append gs hs)

size-append : (gs hs : Groups) → size (gs ++ hs) ≡ size gs + size hs
unfolding size
size-append [] hs = omega arith
size-append ((i, o) ∷ gs) hs = omega (arith, size-append gs hs)

pub record Shape (n : ℕ) (is : List ℕ) (t : Text) (gs : Groups) : Type 0 where
  pub sets : ids gs ≡ is
  pub fits : n + size gs ≤ length t

pub Empty-Shape : (m : Pattern) → Reads m Empty → Reads m (Shape 0 [])
unfolding ids size
Empty-Shape m =
    Reads-weaken m (λ t gs (e, f). rw (e, f) (record { sets = refl; fits = omega arith }))

pub lit-Shape : (w : Text) → Reads (lit w) (Shape (length w) [])
unfolding ids size
lit-Shape w =
    Reads-weaken (lit w) (λ t gs (e, f). rw (e, f) (record { sets = refl; fits = omega arith }))
      (lit-Reads w)

pub one-Shape : (p : ℕ → Bool) → Reads (one p) (Shape 1 [])
unfolding ids size
one-Shape p =
    Reads-weaken (one p)
      (λ t gs (c, e, _, f). rw (e, f) (record { sets = refl; fits = omega arith })) (one-Reads p)

pub many-one-Shape : (p : ℕ → Bool) → Reads (many (one p)) (Shape 0 [])
unfolding ids size
many-one-Shape p =
    Reads-weaken (many (one p)) (λ t gs (_, f). rw f (record { sets = refl; fits = omega arith }))
      (many-one-Reads p)

pub lazy_one-Shape : (p : ℕ → Bool) → Reads (lazy_many (one p)) (Shape 0 [])
unfolding ids size
lazy_one-Shape p =
    Reads-weaken (lazy_many (one p))
      (λ t gs (_, f). rw f (record { sets = refl; fits = omega arith })) (lazy_one-Reads p)

pub Shape-weaken :
    (k : ℕ) {n : ℕ} {is : List ℕ} (m : Pattern)
    → k ≤ n
    → Reads m (Shape n is)
    → Reads m (Shape k is)
Shape-weaken k m h =
    Reads-weaken m (λ t gs e. record { sets = e.sets; fits = omega (arith, e.fits) })

pub ⨟-Shape :
    {n k : ℕ} {is js : List ℕ} (a b : Pattern)
    → Reads a (Shape n is)
    → Reads b (Shape k js)
    → Reads (a ⨟ b) (Shape (n + k) (js ++ is))
⨟-Shape a b x y =
    Reads-weaken (a ⨟ b)
      (λ t gs (u, v, as_, bs, te, ge, p, q).
        rw (te, ge)
          (record {
            sets = rw (ids-append bs as_, p.sets, q.sets) refl;
            fits = omega (arith, size-append bs as_, length-append u v, p.fits, q.fits);
          }))
      (⨟-Reads a b x y)

pub ∣∣-Shape :
    {n : ℕ} {is : List ℕ} (a b : Pattern)
    → Reads a (Shape n is)
    → Reads b (Shape n is)
    → Reads (a ∣∣ b) (Shape n is)
∣∣-Shape a b x y =
    Reads-weaken (a ∣∣ b) (λ t gs e. elim e [ inl p ↦ p | inr p ↦ p ]) (∣∣-Reads a b x y)

no_ids : (gs : Groups) → ids gs ≡ [] → gs ≡ []
unfolding ids
no_ids [] e = refl
no_ids ((i, o) ∷ gs) e = cc

pub group-Shape :
    (i : ℕ) {n : ℕ} (m : Pattern) → Reads m (Shape n []) → Reads (group i m) (Shape 0 (i ∷ []))
unfolding ids size
group-Shape i m x =
    Reads-weaken (group i m)
      (λ t gs (hs, e, p). rw (e, no_ids hs p.sets) (record { sets = refl; fits = omega arith }))
      (group-Reads i m x)

many_plain : IsRepeated (Shape 0 []) (Shape 0 [])
unfolding ids size
many_plain = record {
  nothing = (record { sets = refl; fits = omega arith });
  another = λ a b gs hs p q.
      rw (no_ids gs p.sets, no_ids hs q.sets) (record { sets = refl; fits = omega arith });
}

-- Repetition, of a pattern that sets no group.
pub many-Shape : {n : ℕ} (m : Pattern) → Reads m (Shape n []) → Reads (many m) (Shape 0 [])
many-Shape m x =
    many-Reads m (Shape 0 []) (Shape 0 []) (Shape-weaken 0 m (omega arith) x) many_plain

-- The sizes of three numbered groups.
sizes_three :
    (gs : Groups)
    → ids gs ≡ 3 ∷ 2 ∷ 1 ∷ []
    → size gs
      ≡ size_of (lookup_or none 1 gs)
        + size_of (lookup_or none 2 gs)
        + size_of (lookup_or none 3 gs)
unfolding ids size lookup_or
sizes_three [] e = cc
sizes_three ((i, o) ∷ []) e = ground arith
sizes_three ((i, o) ∷ (j, p) ∷ []) e = ground arith
sizes_three ((i, o) ∷ (j, p) ∷ (k, q) ∷ []) e = ground arith
sizes_three ((i, o) ∷ (j, p) ∷ (k, q) ∷ (l, r) ∷ gs) e = ground arith

sizes_two :
    (gs : Groups)
    → ids gs ≡ 2 ∷ 1 ∷ []
    → size gs ≡ size_of (lookup_or none 1 gs) + size_of (lookup_or none 2 gs)
unfolding ids size lookup_or
sizes_two [] e = cc
sizes_two ((i, o) ∷ []) e = ground arith
sizes_two ((i, o) ∷ (j, p) ∷ []) e = ground arith
sizes_two ((i, o) ∷ (j, p) ∷ (k, q) ∷ gs) e = ground arith

pub length-whole :
    {P : Text → Groups → Type 0} (t : Text) (f : Found) → Shows P t f → length f.whole ≤ length t
length-whole t f s = omega (
  arith,
  ap (length {0}) s.text_eq,
  length-append f.before (f.whole ++ f.after),
  length-append f.whole f.after,
)

pub groups_three :
    (n : ℕ) (t : Text) (f : Found)
    → Shows (Shape n (3 ∷ 2 ∷ 1 ∷ [])) t f
    → n + size_of (group_of f 1) + size_of (group_of f 2) + size_of (group_of f 3) ≤ length t
unfolding group_of
groups_three n t f s =
    omega (arith, s.gained.fits, sizes_three f.groups s.gained.sets, length-whole t f s)

pub groups_two :
    (n : ℕ) (t : Text) (f : Found)
    → Shows (Shape n (2 ∷ 1 ∷ [])) t f
    → n + size_of (group_of f 1) + size_of (group_of f 2) ≤ length t
unfolding group_of
groups_two n t f s =
    omega (arith, s.gained.fits, sizes_two f.groups s.gained.sets, length-whole t f s)

-- Something or nothing, of a pattern that sets no group.
pub optional-Shape : {n : ℕ} (m : Pattern) → Reads m (Shape n []) → Reads (optional m) (Shape 0 [])
unfolding ids size
optional-Shape m x =
    Reads-weaken (optional m)
      (λ t gs e. elim e [
        | inl p ↦ record { sets = p.sets; fits = omega (arith, p.fits) }
        | inr (f, g) ↦ rw (f, g) (record { sets = refl; fits = omega arith })
      ])
      (optional-Reads m x)
