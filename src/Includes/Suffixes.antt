-- ===== src/Includes/Suffixes.antt =====
-- `_DropCommonSuffixes` and `_ClassifyInclude` of lab5/cpplint.py: the files of one stem.
use cs.Base.{
  ℕ, ◌+◌, ◌-◌, ◌≡◌, refl, ap, true, false, ◌&&◌, List, [], ◌∷◌, ◌++◌, Text, codes, All, ◌∙◌,
  get_elem?, text_beq_iff, text_eq, length, take, reversed, reverse_onto, ends_with, starts_with,
  reverse_onto-append, length-append, take-before, arith,
}
use cs.Paths.{split_path, splitext}
use cs.IncludeState.{likely_my_header}
use cs.Includes.{
  suffixes, is_separator, separator_at, has_suffix, drop_suffixes, drop_common_suffixes,
  classify_include,
}

reversed-append : (s t : Text) → reversed (s ++ t) ≡ reverse_onto (reversed s) t
unfolding reversed
reversed-append s t = reverse_onto-append [] s t

take-stem :
    (stem : Text) (sep : ℕ) (suffix : Text)
    → take (length (stem ++ sep ∷ suffix) - (length suffix + 1)) (stem ++ sep ∷ suffix) ≡ stem
take-stem stem sep suffix =
    let sizes : length (stem ++ sep ∷ suffix) - (length suffix + 1) ≡ length stem =
      omega (arith, length-append stem (sep ∷ suffix)) in
    rw sizes (take-before stem (sep ∷ suffix))

-- `drop_suffixes` over a name and its reversed text.
unfoldable drop_by : Text → Text → List Text → Text
unfolding starts_with reversed reverse_onto
drop_by rev filename [] = (splitext filename).0
drop_by rev filename (suffix ∷ rest) =
    elim (starts_with rev (reversed suffix) && separator_at (get_elem? rev (length suffix))) [
      | true ↦ take (length filename - (length suffix + 1)) filename
      | false ↦ drop_by rev filename rest
    ]

drop_suffixes-drop_by :
    (filename : Text) (ss : List Text)
    → drop_suffixes filename ss ≡ drop_by (reversed filename) filename ss
unfolding drop_suffixes has_suffix ends_with drop_by
drop_suffixes-drop_by filename [] = refl
drop_suffixes-drop_by filename (suffix ∷ rest) = ground (arith, drop_suffixes-drop_by filename rest)

drop_by-stem :
    (stem : Text) (sep : ℕ) (suffix : Text)
    → drop_by (reverse_onto (reversed stem) (sep ∷ suffix)) (stem ++ sep ∷ suffix) suffixes
      ≡ take (length (stem ++ sep ∷ suffix) - (length suffix + 1)) (stem ++ sep ∷ suffix)
    → drop_common_suffixes (stem ++ sep ∷ suffix) ≡ stem
unfolding drop_common_suffixes
drop_by-stem stem sep suffix e =
    drop_suffixes-drop_by (stem ++ sep ∷ suffix) suffixes
    ∙ ap (λ r. drop_by r (stem ++ sep ∷ suffix) suffixes) (reversed-append stem (sep ∷ suffix))
    ∙ e
    ∙ take-stem stem sep suffix

-- A name that ends in a separator and one of the common suffixes loses exactly these two.
pub drop_common_suffixes_effect :
    (stem : Text) (sep : ℕ)
    → is_separator sep ≡ true
    → All (λ suffix. drop_common_suffixes (stem ++ sep ∷ suffix) ≡ stem) suffixes
unfolding drop_by reverse_onto starts_with
drop_common_suffixes_effect stem sep h =
    let dropped = drop_by-stem stem sep in
    (
      dropped (codes "test.cc") (rw (h, drop_by) refl),
      (
        dropped (codes "regtest.cc") (rw (h, drop_by) refl),
        (
          dropped (codes "unittest.cc") (rw (h, drop_by) refl),
          (
            dropped (codes "inl.h") (rw (h, drop_by) refl),
            (
              dropped (codes "impl.h") (rw (h, drop_by) refl),
              (dropped (codes "internal.h") (rw (h, drop_by) refl), tt),
            ),
          ),
        ),
      ),
    )

-- A quoted include whose name has the stem of the file is taken for the header that the file
-- implements.
pub classify_include_same_stem :
    (file include : Text)
    → drop_common_suffixes file ≡ drop_common_suffixes include
    → classify_include file include false ≡ likely_my_header
unfolding classify_include
classify_include_same_stem file include e =
    let same = (λ (t : Text). (text_beq_iff t t).1 refl) in
    rw
      (
        e,
        same (split_path (drop_common_suffixes include)).1,
        same (split_path (drop_common_suffixes include)).0,
      )
      refl
