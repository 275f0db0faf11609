-- ===== src/Base/Slices.antt =====
-- Lemmas on reversed texts and on the pieces of a list.
use Prim.Native.Nat.{ℕ, zero, suc, ◌+◌, ◌≤◌, ◌<◌, min}
use mathlib.Core.Path.{◌≡◌, refl, ap, ◌∙◌}
use mathlib.Core.List.{List, [], ◌∷◌, ◌++◌}
use mathlib.Core.Option.{some}
use native.Mathlib.Omega.{arith}
use native.Mathlib.Nat.{suc-add}
use cs.Base.Lists.{length, take, drop, get_elem?}
use cs.Base.Strings.{Text, reverse_onto, reversed}

pub reverse_onto-append :
    (past s t : Text) → reverse_onto past (s ++ t) ≡ reverse_onto (reverse_onto past s) t
unfolding reverse_onto
reverse_onto-append past [] t = refl
reverse_onto-append past (c ∷ s) t = reverse_onto-append (c ∷ past) s t

pub length-reverse_onto : (past s : Text) → length (reverse_onto past s) ≡ length s + length past
unfolding reverse_onto
length-reverse_onto past [] = omega arith
length-reverse_onto past (c ∷ s) = omega (arith, length-reverse_onto (c ∷ past) s)

pub reverse_onto-reverse_onto :
    (s t u : Text) → reverse_onto u (reverse_onto t s) ≡ reverse_onto (s ++ u) t
unfolding reverse_onto
reverse_onto-reverse_onto [] t u = refl
reverse_onto-reverse_onto (c ∷ s) t u = reverse_onto-reverse_onto s (c ∷ t) u

pub append_nil {ℓ} : {A : Type ℓ} (s : List A) → s ++ [] ≡ s
append_nil [] = refl
append_nil (c ∷ s) = ap (◌∷◌ c) (append_nil s)

pub reversed-reversed : (s : Text) → reversed (reversed s) ≡ s
unfolding reversed reverse_onto
reversed-reversed s = reverse_onto-reverse_onto s [] [] ∙ append_nil s

module _ {ℓ} {A : Type ℓ} where
  pub take-before : (s t : List A) → take (length s) (s ++ t) ≡ s
  take-before [] t = refl
  take-before (c ∷ s) t = ap (◌∷◌ c) (take-before s t)

  pub drop-before : (s t : List A) → drop (length s) (s ++ t) ≡ t
  drop-before [] t = refl
  drop-before (c ∷ s) t = drop-before s t

  pub length-drop_le : (n : ℕ) (xs : List A) → length (drop n xs) ≤ length xs
  length-drop_le zero xs = omega arith
  length-drop_le (suc n) [] = omega arith
  length-drop_le (suc n) (x ∷ xs) = omega (arith, length-drop_le n xs)

  pub length-take : (n : ℕ) (xs : List A) → length (take n xs) ≡ min n (length xs)
  length-take zero xs = omega arith
  length-take (suc n) [] = omega arith
  length-take (suc n) (x ∷ xs) = omega (arith, length-take n xs)

  pub get_elem?-drop : (n k : ℕ) (xs : List A) → get_elem? (drop n xs) k ≡ get_elem? xs (n + k)
  get_elem?-drop zero k xs = ap (get_elem? xs) (omega arith)
  get_elem?-drop (suc n) k [] = refl
  get_elem?-drop (suc n) k (x ∷ xs) = get_elem?-drop n k xs ∙ rw suc-add

  pub drop-eq-cons :
      (n : ℕ) (xs : List A) {y : A} {ys : List A}
      → drop n xs ≡ y ∷ ys
      → (get_elem? xs n ≡ some y) × (drop (suc n) xs ≡ ys)
  drop-eq-cons zero [] e = cc
  drop-eq-cons zero (x ∷ xs) e = ground arith
  drop-eq-cons (suc n) [] e = cc
  drop-eq-cons (suc n) (x ∷ xs) e = drop-eq-cons n xs e

  pub lt-length_of_get_elem? :
      (xs : List A) (i : ℕ) {y : A} → get_elem? xs i ≡ some y → i < length xs
  lt-length_of_get_elem? [] i e = cc
  lt-length_of_get_elem? (x ∷ xs) zero e = omega arith
  lt-length_of_get_elem? (x ∷ xs) (suc i) e = omega (arith, lt-length_of_get_elem? xs i e)

  pub get_elem?-some : (xs : List A) (i : ℕ) → i < length xs → (x : A) × (get_elem? xs i ≡ some x)
  get_elem?-some [] i h = absurd (omega arith)
  get_elem?-some (x ∷ xs) zero h = (x, refl)
  get_elem?-some (x ∷ xs) (suc i) h = get_elem?-some xs i (omega arith)
