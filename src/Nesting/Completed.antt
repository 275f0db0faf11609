-- ===== src/Nesting/Completed.antt =====
-- What `CheckCompletedBlocks` and `InnermostClass` of lab5/cpplint.py find on the stack.
use cs.Base.{
  ◌≡◌, refl, ap, ◌↔◌, ◌⊎◌, inl, inr, true, false, ◌||◌, Bool-cases, none, some, List, [], ◌∷◌, ◌++◌,
  All, arith,
}
use cs.Nolint.{Report}
use cs.Nesting.{
  Block, Kind, plain, extern_c, class_info, namespace_info, is_class, is_namespace, innermost_class,
  completed_block, check_completed_blocks,
}

-- The block is neither a class nor a namespace.
abbrev pub IsNameless : Block → Type 0
IsNameless b = (is_class b.kind || is_namespace b.kind) ≡ false

append_empty : (xs ys : List Report) → xs ++ ys ≡ [] → (xs ≡ []) × (ys ≡ [])
append_empty [] ys e = (refl, e)
append_empty (x ∷ xs) ys e = cc

Kind-cases :
    (k : Kind)
    → ((k ≡ plain) ⊎ (k ≡ extern_c))
      ⊎ (((c : _) × (k ≡ class_info c)) ⊎ ((name : _) × (k ≡ namespace_info name)))
Kind-cases plain = inl (inl refl)
Kind-cases extern_c = inl (inr refl)
Kind-cases (class_info c) = inr (inl (c, refl))
Kind-cases (namespace_info name) = inr (inr (name, refl))

completed_block_iff : (b : Block) → (completed_block b ≡ []) ↔ IsNameless b
completed_block_iff b = elim (Kind-cases b.kind) [
  | inl (inl e) ↦ ground arith
  | inl (inr e) ↦ ground arith
  | inr (inl (c, e)) ↦ ground arith
  | inr (inr (name, e)) ↦ ground arith
]

-- `check_completed_blocks` reports nothing exactly when no block of the stack is a class or a
-- namespace.
pub check_completed_blocks_iff :
    (stack : List Block) → (check_completed_blocks stack ≡ []) ↔ All IsNameless stack
unfolding check_completed_blocks
check_completed_blocks_iff [] = ((λ _. tt), (λ _. refl))
check_completed_blocks_iff (b ∷ rest) =
    let (there, back) = check_completed_blocks_iff rest in
    let (here, here_back) = completed_block_iff b in
    (
      (λ e.
          let (none_later, none_here) =
            append_empty (check_completed_blocks rest) (completed_block b) e in
          (here none_here, there none_later)),
      (λ (h, hs). rw (back hs, here_back h, check_completed_blocks) refl),
    )

abbrev NotClass : Block → Type 0
NotClass b = is_class b.kind ≡ false

-- `innermost_class` finds a class on the stack that has no class above it, and misses none.
pub innermost_class_found :
    (stack : List Block)
    → ((innermost_class stack ≡ none) × All NotClass stack)
      ⊎ ((above : List Block) × (b : Block) × (below : List Block) × (innermost_class stack
            ≡ some b)
          × (stack ≡ above ++ b ∷ below)
          × All NotClass above
          × (is_class b.kind ≡ true))
unfolding innermost_class
innermost_class_found [] = inl (refl, tt)
innermost_class_found (b ∷ rest) = elim (Bool-cases (is_class b.kind)) [
  | inl here ↦ inr ([], b, rest, rw (here, innermost_class) refl, refl, tt, here)
  | inr other ↦ elim (innermost_class_found rest) [
    | inl (e, h) ↦ inl (rw (other, innermost_class) e, (other, h))
    | inr (above, c, below, e, split, h, is_c) ↦
        inr (b ∷ above, c, below, rw (other, innermost_class) e, ap (◌∷◌ b) split, (other, h), is_c)
  ]
]
