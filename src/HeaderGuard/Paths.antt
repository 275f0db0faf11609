-- ===== src/HeaderGuard/Paths.antt =====
-- `PathSplitToList` ends: the head of a path is the path itself or shorter.
use cs.Base.{
  Bool-cases, ℕ, zero, suc, ◌<◌, ◌≡◌, ◌⊎◌, refl, ap, inl, inr, some, List, [], ◌∷◌, Text, text_eq,
  ◌==◌, text_beq_iff, length, take, reversed, length-reverse_onto, reversed-reversed, arith,
}
use cs.Paths.{after_last, drop_leading, strip_slashes, split_path}
use cs.HeaderGuard.{path_loop, path_split_to_list}

drop_leading_shorter :
    (c : ℕ) (s : Text) → (drop_leading c s ≡ s) ⊎ (length (drop_leading c s) < length s)
unfolding drop_leading
drop_leading_shorter c [] = inl refl
drop_leading_shorter c (d ∷ s) = ground (arith, drop_leading_shorter c s)

take_shorter : (n : ℕ) (s : Text) → (take n s ≡ s) ⊎ (length (take n s) < length s)
take_shorter zero [] = inl refl
take_shorter zero (c ∷ s) = inr (omega arith)
take_shorter (suc n) [] = inl refl
take_shorter (suc n) (c ∷ s) = ground (arith, take_shorter n s)

strip_slashes_shorter : (s : Text) → (strip_slashes s ≡ s) ⊎ (length (strip_slashes s) < length s)
unfolding reversed
strip_slashes_shorter s =
    let back = (λ (t : Text). length-reverse_onto [] t) in
    elim (drop_leading_shorter b'/' (reversed s)) [
      | inl same ↦ inl (ground (arith, ap reversed same, reversed-reversed s))
      | inr less ↦ ground (arith, back s, back (drop_leading b'/' (reversed s)))
    ]

split_path_shorter :
    (path : Text) → ((split_path path).0 ≡ path) ⊎ (length ((split_path path).0) < length path)
unfolding split_path
split_path_shorter path = ground (
  arith,
  take_shorter (after_last b'/' path) path,
  strip_slashes_shorter (take (after_last b'/' path) path),
)

path_loop_total :
    (fuel : ℕ) (path : Text) (lst : List Text)
    → length path < fuel
    → (parts : List Text) × (path_loop fuel path lst ≡ some parts)
unfolding path_loop
path_loop_total zero path lst h = ground arith
path_loop_total (suc fuel) path lst h =
    let (head, tail) = split_path path in
    elim (Bool-cases (head == path)) [
      | inl absolute ↦ (head ∷ lst, rw (absolute, path_loop) refl)
      | inr not_absolute ↦ elim (Bool-cases (tail == path)) [
        | inl relative ↦ (tail ∷ lst, rw (not_absolute, relative, path_loop) refl)
        | inr not_relative ↦
            let shorter : length head < fuel =
              ground (arith, split_path_shorter path, text_beq_iff head path) in
            let (parts, e) = path_loop_total fuel head (tail ∷ lst) shorter in
            (parts, rw (not_absolute, not_relative, path_loop) e)
      ]
    ]

-- `path_split_to_list` ends on every path: its loop does not run out of the fuel it is given.
pub path_split_to_list_total :
    (path : Text) → (parts : List Text) × (path_split_to_list path ≡ some parts)
unfolding path_split_to_list
path_split_to_list_total path = path_loop_total (suc (length path)) path [] (omega arith)
