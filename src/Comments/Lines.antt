-- ===== src/Comments/Lines.antt =====
-- Where the search for a line stops, and files in which lines are blanked.
use native.Mathlib.Nat.{zero-add, suc-add}
use cs.Base.{
  ℕ, suc, ◌+◌, ◌≡◌, refl, ap, Bool, true, false, ◌⊎◌, inl, inr, Bool-cases, List, [], ◌∷◌, ◌++◌,
  map, Text, All, arith, length,
}
use cs.Comments.{next_index, blank, remove_multi_line_comments_from_range}

-- Where `next_index` stops: the test fails on the lines before, and holds on the next one if there
-- is one.
pub record Stop (test : Text → Bool) (ix : ℕ) (lines : List Text) : Type 0 where
  pub passed : List Text
  pub left : List Text
  pub splits : lines ≡ passed ++ left
  pub at : next_index test ix lines ≡ ix + length passed
  pub before : All (λ l. test l ≡ false) passed
  pub hit : (left ≡ []) ⊎ ((l : Text) × (r : List Text) × (left ≡ l ∷ r) × (test l ≡ true))

pub next_index-Stop : (test : Text → Bool) (ix : ℕ) (lines : List Text) → Stop test ix lines
unfolding next_index
next_index-Stop test ix [] = record {
  passed = [];
  left = [];
  splits = refl;
  at = omega arith;
  before = tt;
  hit = inl refl;
}
next_index-Stop test ix (l ∷ r) = elim (Bool-cases (test l)) [
  | inl yes_ ↦ record {
    passed = [];
    left = l ∷ r;
    splits = refl;
    at = rw (yes_, next_index) (omega arith);
    before = tt;
    hit = inr (l, r, refl, yes_);
  }
  | inr no_ ↦
      let s = next_index-Stop test (suc ix) r in
      record {
        passed = l ∷ s.passed;
        left = s.left;
        splits = ap (◌∷◌ l) s.splits;
        at = rw (no_, next_index) (omega (arith, s.at));
        before = (no_, s.before);
        hit = s.hit;
      }
]

pub range-blanks :
    (before mid after : List Text)
    → remove_multi_line_comments_from_range
        (before ++ (mid ++ after))
        (length before)
        (length before + length mid)
      ≡ before ++ (map (λ _. blank) mid ++ after)
unfolding remove_multi_line_comments_from_range
range-blanks [] [] [] = refl
range-blanks [] [] (a ∷ after) = refl
range-blanks [] (m ∷ mid) after =
    rw zero-add (ap (◌∷◌ blank) (rw zero-add at (range-blanks [] mid after)))
range-blanks (b ∷ before) mid after = rw suc-add (ap (◌∷◌ b) (range-blanks before mid after))

-- Line by line, the second file has the line of the first, or a blanked one.
abbrev pub Kept : List Text → List Text → Type 0
Kept [] [] = Unit
Kept (a ∷ as_) (b ∷ bs) = ((b ≡ a) ⊎ (b ≡ blank)) × Kept as_ bs
Kept _ _ = ⊥

pub Kept-refl : (l : List Text) → Kept l l
Kept-refl [] = tt
Kept-refl (a ∷ l) = (inl refl, Kept-refl l)

pub Kept-blank : (l : List Text) → Kept l (map (λ _. blank) l)
Kept-blank [] = tt
Kept-blank (a ∷ l) = (inr refl, Kept-blank l)

pub Kept-append : (a b c d : List Text) → Kept a b → Kept c d → Kept (a ++ c) (b ++ d)
Kept-append [] [] c d h k = k
Kept-append (x ∷ a) (y ∷ b) c d h k = (h.0, Kept-append a b c d h.1 k)
Kept-append [] (y ∷ b) c d h k = absurd h
Kept-append (x ∷ a) [] c d h k = absurd h

pub length-Kept : (a b : List Text) → Kept a b → length b ≡ length a
length-Kept [] [] h = refl
length-Kept (x ∷ a) (y ∷ b) h = ap suc (length-Kept a b h.1)
length-Kept [] (y ∷ b) h = absurd h
length-Kept (x ∷ a) [] h = absurd h
