-- ===== src/Re/Shows.antt =====
-- What a match shows of the text it is found in.
use cs.Base.{
  ℕ, ◌≡◌, refl, sym, ap, ◌∙◌, inl, inr, some, Option-cases, [], ◌∷◌, ◌++◌, Text, reverse_onto,
  reversed, append_nil, arith,
}
use mathlib.Core.List.{append_assoc}
use cs.Re.{Position, Pattern, taken, Found, match_at, matches, search_from, search_in}
use cs.Re.Reads.{Groups, Reads, taken-After, reverse_onto-split}

-- A match in a text, as `Match` and `Search` return it.
pub record Shows (P : Text → Groups → Type 0) (t : Text) (f : Found) : Type 0 where
  pub text_eq : t ≡ f.before ++ (f.whole ++ f.after)
  pub gained : P f.whole f.groups

match_at-Shows :
    (m : Pattern) {P : Text → Groups → Type 0} (past rest : Text) (f : Found)
    → Reads m P
    → match_at m (record { past = past; rest = rest; groups = [] }) ≡ some f
    → (f.before ≡ reversed past) × (rest ≡ f.whole ++ f.after) × P f.whole f.groups
match_at-Shows m {P} past rest f x h =
    let start : Position = record { past = past; rest = rest; groups = [] } in
    elim (Option-cases (m start some)) [
      | inl e ↦ absurd (ground arith)
      | inr (v, e) ↦
          let (s', u, gs, last, after, p) = x start some v e in
          let found : some (record {
            before = reversed past;
            whole = taken start v;
            after = v.rest;
            groups = v.groups;
          })
              ≡ some f =
            rw (e, match_at) at h in
          let read = taken-After after in
          let whole_eq : f.whole ≡ u = cc in
          let groups_eq : f.groups ≡ gs = cc (after.groups_eq, append_nil gs) in
          (cc, rw (whole_eq) (cc (after.rest_eq)), rw (whole_eq, groups_eq) p)
    ]

pub matches-Shows :
    (m : Pattern) {P : Text → Groups → Type 0} (t : Text) (f : Found)
    → Reads m P
    → matches m t ≡ some f
    → Shows P t f
unfolding matches reversed reverse_onto
matches-Shows m t f x h =
    let (before, rest, p) = match_at-Shows m [] t f x h in
    record { text_eq = rest ∙ ap (λ b. b ++ (f.whole ++ f.after)) (sym before); gained = p }

reversed-cons : (c : ℕ) (past rest : Text) → reversed (c ∷ past) ++ rest ≡ reversed past ++ c ∷ rest
unfolding reversed reverse_onto
reversed-cons c past rest =
    ap (λ u. u ++ rest) (reverse_onto-split past [] (c ∷ []))
    ∙ append_assoc (reverse_onto [] past) (c ∷ []) rest

search_from-Shows :
    (m : Pattern) {P : Text → Groups → Type 0} (past rest : Text) (f : Found)
    → Reads m P
    → search_from m past rest ≡ some f
    → Shows P (reversed past ++ rest) f
unfolding search_from
search_from-Shows m past [] f x h =
    let (before, rest, p) = match_at-Shows m past [] f x h in
    record { text_eq = rw (before, ← rest) refl; gained = p }
search_from-Shows m past (c ∷ rest) f x h =
    elim (Option-cases (match_at m (record { past = past; rest = c ∷ rest; groups = [] }))) [
      | inl e ↦
          let shown = search_from-Shows m (c ∷ past) rest f x (rw (e, search_from) at h) in
          record {
            text_eq = sym (reversed-cons c past rest) ∙ shown.text_eq;
            gained = shown.gained;
          }
      | inr (g, e) ↦
          let (before, rest_eq, p) =
            match_at-Shows m past (c ∷ rest) f x (e ∙ (rw (e, search_from) at h)) in
          record { text_eq = rw (before, ← rest_eq) refl; gained = p }
    ]

pub search_in-Shows :
    (m : Pattern) {P : Text → Groups → Type 0} (t : Text) (f : Found)
    → Reads m P
    → search_in m t ≡ some f
    → Shows P t f
unfolding search_in reversed reverse_onto
search_in-Shows m t f x h = search_from-Shows m [] t f x h

-- A pattern that goes on at the start of the text is matched.
pub matches_of :
    (m : Pattern) (t : Text) (r : Position)
    → m (record { past = []; rest = t; groups = [] }) some ≡ some r
    → (f : Found) × (matches m t ≡ some f)
unfolding matches
matches_of m t r e =
    let start : Position = record { past = []; rest = t; groups = [] } in
    (
      record { before = reversed []; whole = taken start r; after = r.rest; groups = r.groups },
      rw (e, match_at) refl,
    )
