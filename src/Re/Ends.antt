-- ===== src/Re/Ends.antt =====
-- Patterns that end in a group: how long the group is beside the text that is read before it.
use cs.Base.{
  ℕ, ◌+◌, ◌≤◌, ◌≡◌, refl, ap, Bool, some, ◌∷◌, ◌++◌, Text, length, length-append, lookup_or, nat_eq,
  ==_self, arith,
}
use cs.Re.{Pattern, Found, one, lit, ◌⨟◌, group, line_end, matches, group_of}
use cs.Re.Reads.{
  Groups, Reads, Reads-weaken, ⨟-Reads, group-Reads, lit-Reads, one-Reads, line_end-Reads,
}
use cs.Re.Shows.{matches-Shows}
use cs.Re.Shapes.{length-whole}

-- At least `n` characters.
abbrev pub Long : ℕ → Text → Groups → Type 0
Long n t gs = n ≤ length t

pub any-Long : {P : Text → Groups → Type 0} (m : Pattern) → Reads m P → Reads m (Long 0)
any-Long m = Reads-weaken m (λ t gs _. omega arith)

pub lit-Long : (w : Text) → Reads (lit w) (Long (length w))
lit-Long w = Reads-weaken (lit w) (λ t gs (e, _). omega (arith, ap (length {0}) e)) (lit-Reads w)

pub one-Long : (p : ℕ → Bool) → Reads (one p) (Long 1)
one-Long p =
    Reads-weaken (one p) (λ t gs (c, e, _, _). omega (arith, ap (length {0}) e)) (one-Reads p)

pub group-Long : (i n : ℕ) (m : Pattern) → Reads m (Long n) → Reads (group i m) (Long n)
group-Long i n m x = Reads-weaken (group i m) (λ t gs (_, _, h). h) (group-Reads i m x)

pub ⨟-Long :
    (n k : ℕ) (a b : Pattern) → Reads a (Long n) → Reads b (Long k) → Reads (a ⨟ b) (Long (n + k))
⨟-Long n k a b x y =
    Reads-weaken (a ⨟ b)
      (λ t gs (u, v, _, _, e, _, p, q). omega (arith, ap (length {0}) e, length-append u v))
      (⨟-Reads a b x y)

-- The last group is `i`, and there are `n` characters at least beside it.
abbrev pub Ends : ℕ → ℕ → Text → Groups → Type 0
Ends i n t gs = (u : Text) × (hs : Groups) × (gs ≡ (i, some u) ∷ hs) × (n + length u ≤ length t)

pub last-Ends :
    {P : Text → Groups → Type 0} (i : ℕ) (m : Pattern)
    → Reads m P
    → Reads (group i m ⨟ line_end) (Ends i 0)
last-Ends i m x =
    Reads-weaken (group i m ⨟ line_end)
      (λ t gs (u, v, as_, bs, e, f, (hs, g, _), (z, w)).
        (u, hs, rw (f, w, g) refl, omega (arith, ap (length {0}) e, length-append u v)))
      (⨟-Reads (group i m) line_end (group-Reads i m x) line_end-Reads)

pub ⨟-Ends :
    (i n k : ℕ) (a b : Pattern)
    → Reads a (Long n)
    → Reads b (Ends i k)
    → Reads (a ⨟ b) (Ends i (n + k))
⨟-Ends i n k a b x y =
    Reads-weaken (a ⨟ b)
      (λ t gs (u, v, as_, bs, e, f, p, (w, hs, g, q)).
        (w, hs ++ as_, rw (f, g) refl, omega (arith, ap (length {0}) e, length-append u v)))
      (⨟-Reads a b x y)

pub matches-Ends :
    (i n : ℕ) (m : Pattern) (t : Text) (f : Found)
    → Reads m (Ends i n)
    → matches m t ≡ some f
    → (u : Text) × (group_of f i ≡ some u) × (n + length u ≤ length t)
unfolding group_of lookup_or
matches-Ends i n m t f x e =
    let shown = matches-Shows m t f x e in
    let (u, hs, g, h) = shown.gained in
    (u, rw (g, ==_self i) refl, omega (arith, length-whole t f shown))
