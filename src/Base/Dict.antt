-- ===== src/Base/Dict.antt =====
-- Python's `dict` as an association list.
use mathlib.Core.Path.{◌≡◌}
use mathlib.Core.List.{List, [], ◌∷◌}
use native.Mathlib.Omega.{arith}
use cs.Base.Tests.{Comparable, ◌==◌, if◌then◌else◌}

module _ {ℓ κ} {K : Type ℓ} {V : Type κ} ⦃e : Comparable K⦄ where
  -- `d.get(k, default)`
  unfoldable pub lookup_or : V → K → List (K × V) → V
  lookup_or d k [] = d
  lookup_or d k ((j, v) ∷ m) = if j == k then v else lookup_or d k m

  -- `d[k] = f(d.get(k, default))`
  unfoldable pub update : V → K → (V → V) → List (K × V) → List (K × V)
  update d k f [] = (k, f d) ∷ []
  update d k f ((j, v) ∷ m) = if j == k then (j, f v) ∷ m else (j, v) ∷ update d k f m

  pub lookup_or-update :
      (d : V) (k j : K) (f : V → V) (m : List (K × V))
      → lookup_or d j (update d k f m) ≡ (if k == j then f (lookup_or d j m) else lookup_or d j m)
  unfolding lookup_or update
  lookup_or-update d k j f [] = ground (arith, e.same_iff k j)
  lookup_or-update d k j f ((i, v) ∷ m) =
      ground (arith, e.same_iff k j, e.same_iff i k, e.same_iff i j, lookup_or-update d k j f m)
