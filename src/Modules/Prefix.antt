-- ===== src/Modules/Prefix.antt =====
-- What `FilesBelongToSameModule` returns: the answer and the prefix of the header's path.
use mathlib.Core.List.{append_assoc}
use cs.Base.{
  Bool-cases, ℕ, suc, ◌-◌, ◌≡◌, ◌⊎◌, refl, sym, ap, ◌∙◌, inl, inr, true, false, ◌&&◌, [], ◌∷◌, ◌++◌,
  Text, codes, length, reversed, reverse_onto, starts_with, ends_with, length-append, take-before,
  reverse_onto-append, reversed-reversed, arith,
}
use cs.Includes.{is_source}
use cs.Modules.{drop_end, source_module, header_module, files_belong_to_same_module}

starts_with_rest : (s p : Text) → starts_with s p ≡ true → (k : Text) × (s ≡ p ++ k)
unfolding starts_with
starts_with_rest s [] h = (s, refl)
starts_with_rest [] (p ∷ ps) h = ground arith
starts_with_rest (c ∷ s) (p ∷ ps) h =
    let (k, e) = starts_with_rest s ps (ground arith) in (k, ground arith)

reverse_onto_before : (k p : Text) → (q : Text) × (reverse_onto p k ≡ q ++ p)
unfolding reverse_onto
reverse_onto_before [] p = ([], refl)
reverse_onto_before (c ∷ k) p =
    let (q, e) = reverse_onto_before k (c ∷ p) in (q ++ c ∷ [], e ∙ sym (append_assoc q (c ∷ []) p))

-- A text that ends in another one has a part before it.
before_end : (s p : Text) → ends_with s p ≡ true → (q : Text) × (s ≡ q ++ p)
unfolding ends_with reversed
before_end s p h =
    let (k, e) = starts_with_rest (reversed s) (reversed p) h in
    let (q, f) = reverse_onto_before k (reversed (reversed p)) in
    (
      q,
      sym (reversed-reversed s)
          ∙ ap reversed e
          ∙ reverse_onto-append [] (reversed p) k
          ∙ f
          ∙ ap (λ r. q ++ r) (reversed-reversed p),
    )

drop_end-append : (q : Text) (c : ℕ) (p : Text) → drop_end (length (c ∷ p)) (q ++ (c ∷ p)) ≡ q
unfolding drop_end
drop_end-append q c p =
    let size : length (q ++ (c ∷ p)) - suc (length p) ≡ length q =
      omega (arith, length-append q (c ∷ p)) in
    rw size (take-before q (c ∷ p))

-- The prefix that goes with a module's name.
abbrev pub IsPrefix : Text → Text → Text → Type 0
IsPrefix p header source = (p ++ header ≡ source) ⊎ ((header ≡ []) × (p ≡ []))

drop_end-IsPrefix :
    (source header : Text)
    → ends_with source header ≡ true
    → IsPrefix (drop_end (length header) source) header source
unfolding drop_end
drop_end-IsPrefix source [] h = inr (refl, refl)
drop_end-IsPrefix source (c ∷ header) h =
    let (q, e) = before_end source (c ∷ header) h in
    inl (rw e (ap (λ r. r ++ (c ∷ header)) (drop_end-append q c header)))

-- `files_belong_to_same_module` says no, with an empty prefix, exactly for a file that is no
-- source file, a header that does not end in `.h`, or a source module's name that does not end in
-- the header module's name. Otherwise it says yes, and its prefix followed by the header module's
-- name is the source module's name, except for a header module with the empty name, where the
-- prefix is empty.
pub files_belong_to_same_module_effect :
    (repository_name : Text → Text) (filename_cc filename_h : Text)
    → let r = files_belong_to_same_module repository_name filename_cc filename_h in
      let source = source_module repository_name filename_cc in
      let header = header_module filename_h in
      ((r ≡ (false, []))
        × ((is_source repository_name filename_cc
              && (ends_with filename_h (codes ".h") && ends_with source header))
            ≡ false))
      ⊎ (((is_source repository_name filename_cc
              && (ends_with filename_h (codes ".h") && ends_with source header))
            ≡ true)
          × (p : Text) × (r ≡ (true, p))
          × IsPrefix p header source)
unfolding files_belong_to_same_module
files_belong_to_same_module_effect repository_name filename_cc filename_h =
    let source = source_module repository_name filename_cc in
    let header = header_module filename_h in
    elim (Bool-cases (is_source repository_name filename_cc)) [
      | inr a ↦ inl (rw (a, files_belong_to_same_module) refl, rw a refl)
      | inl a ↦ elim (Bool-cases (ends_with filename_h (codes ".h"))) [
        | inr b ↦ inl (rw (a, b, files_belong_to_same_module) refl, rw (a, b) refl)
        | inl b ↦ elim (Bool-cases (ends_with source header)) [
          | inr c ↦ inl (rw (a, b, c, files_belong_to_same_module) refl, rw (a, b, c) refl)
          | inl c ↦ inr (
            rw (a, b, c) refl,
            drop_end (length header) source,
            rw (a, b, c, files_belong_to_same_module) refl,
            drop_end-IsPrefix source header c,
          )
        ]
      ]
    ]
