-- ===== src/IncludeState/Canonical.antt =====
-- The form of a header's path that is compared in `is_in_alphabetical_order`.
use cs.Base.{
  ℕ, ◌≡◌, ◌≢◌, refl, [], ◌∷◌, map, Text, codes, All, arith, replace, replace_from, starts_with,
  lower, lower_char, nat_beq, if◌then◌else◌,
}
use cs.IncludeState.{canonicalize_alphabetical_order}

swap : ℕ → ℕ → ℕ → ℕ
swap c d x = if nat_beq c x then d else x

replace_char : (c d : ℕ) (s : Text) → replace_from (c ∷ []) (d ∷ []) 0 s ≡ map (swap c d) s
unfolding replace_from starts_with swap
replace_char c d [] = refl
replace_char c d (x ∷ s) = ground (arith, replace_char c d s)

-- No dash and no capital letter.
abbrev pub IsCanonical : ℕ → Type 0
IsCanonical c = (c ≢ b'-') × (lower_char c ≡ c)

replace-absent :
    (c : ℕ) (old new s : Text) → All (λ x. x ≢ c) s → replace_from (c ∷ old) new 0 s ≡ s
unfolding replace_from starts_with
replace-absent c old new [] h = refl
replace-absent c old new (x ∷ s) h = ground (arith, replace-absent c old new s h.1)

map-IsCanonical : (s : Text) → All IsCanonical (map lower_char (map (swap b'-' b'_') s))
unfolding swap
map-IsCanonical [] = tt
map-IsCanonical (x ∷ s) = ((ground arith, ground arith), map-IsCanonical s)

no_dash : (s : Text) → All IsCanonical s → All (λ x. x ≢ b'-') s
no_dash [] h = tt
no_dash (x ∷ s) h = (h.0.0, no_dash s h.1)

map-canonical : (s : Text) → All IsCanonical s → map lower_char s ≡ s
map-canonical [] h = refl
map-canonical (x ∷ s) h = cc (h.0.1, map-canonical s h.1)

canonicalize-canonical : (s : Text) → All IsCanonical s → canonicalize_alphabetical_order s ≡ s
unfolding canonicalize_alphabetical_order replace lower
canonicalize-canonical s h =
    rw (replace-absent b'-' (codes "inl.h") (codes ".h") s (no_dash s h))
      (rw (replace-absent b'-' [] (codes "_") s (no_dash s h)) (map-canonical s h))

IsCanonical-canonicalize : (s : Text) → All IsCanonical (canonicalize_alphabetical_order s)
unfolding canonicalize_alphabetical_order replace lower
IsCanonical-canonicalize s = rw (replace_char b'-' b'_') (map-IsCanonical _)

-- A canonicalized path has no dash and no capital letter, and canonicalizing it again changes
-- nothing.
pub canonicalize_alphabetical_order_idem :
    (s : Text)
    → All IsCanonical (canonicalize_alphabetical_order s)
      × (canonicalize_alphabetical_order (canonicalize_alphabetical_order s)
          ≡ canonicalize_alphabetical_order s)
canonicalize_alphabetical_order_idem s =
    (IsCanonical-canonicalize s, canonicalize-canonical _ (IsCanonical-canonicalize s))
