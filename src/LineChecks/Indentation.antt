-- ===== src/LineChecks/Indentation.antt =====
-- When a line inside a namespace is reported for its indentation.
use cs.Base.{
  ℕ, zero, suc, ◌≡◌, refl, sym, ◌↔◌, ◌⊎◌, inl, inr, Bool, true, false, Bool-cases, Option, none,
  some, Option-cases, List, [], ◌∷◌, Text, is_space, ltb, length, arith,
}
use cs.Re.{Position, Pattern, Found, ◌⨟◌, one, many_from, many, some_of, space, line_start, matches}
use cs.Re.Shows.{matches_of}
use cs.Re.Short.{blanks1, starts_at}
use cs.Nesting.{Block, NestingState, is_namespace, in_namespace_body}
use cs.LineChecks.Namespaces.{
  line_at, is_macro_definition, is_forward_class_declaration, second_block, is_block_in_name_space,
  is_previous_top, is_namespace_indent_item, should_check_namespace_indentation,
  check_item_indentation_in_namespace, check_for_namespace_indentation, indented_in_namespace,
}

many_from-ends :
    (m : Pattern) (fuel : ℕ) (s : Position) → (r : Position) × (many_from m fuel s some ≡ some r)
unfolding many_from
many_from-ends m zero s = (s, refl)
many_from-ends m (suc fuel) s =
    elim (Option-cases (
      m s (λ s'. elim (ltb (length s'.rest) (length s.rest)) [
        | true ↦ many_from m fuel s' some
        | false ↦ none
      ]))) [ inl e ↦ (s, rw (e, many_from) refl) | inr (r, e) ↦ (r, rw (e, many_from) refl) ]

abbrev pub begins_with_space : Text → Bool
begins_with_space [] = false
begins_with_space (c ∷ t) = is_space c

many-ends : (m : Pattern) (s : Position) → (r : Position) × (many m s some ≡ some r)
unfolding many
many-ends m s = many_from-ends m (length s.rest) s

blanks-go :
    (c : ℕ) (t : Text) (r : Position)
    → is_space c ≡ true
    → many space (record { past = c ∷ []; rest = t; groups = [] }) some ≡ some r
    → (line_start ⨟ blanks1) (record { past = []; rest = c ∷ t; groups = [] }) some ≡ some r
unfolding line_start ◌⨟◌ blanks1 some_of one
blanks-go c t r blank e = ground arith

starts_at-matched :
    (c : ℕ) (t : Text)
    → is_space c ≡ true
    → (f : Found) × (matches (line_start ⨟ blanks1) (c ∷ t) ≡ some f)
    → starts_at (line_start ⨟ blanks1) (c ∷ t) ≡ begins_with_space (c ∷ t)
unfolding starts_at
starts_at-matched c t blank (f, e) = rw (e, starts_at) (sym blank)

starts_at-space : (t : Text) → starts_at (line_start ⨟ blanks1) t ≡ begins_with_space t
unfolding starts_at matches line_start ◌⨟◌ blanks1 some_of one
starts_at-space [] = refl
starts_at-space (c ∷ t) = elim (Bool-cases (is_space c)) [
  | inr other ↦ ground arith
  | inl blank ↦
      let (r, e) = many-ends space (record { past = c ∷ []; rest = t; groups = [] }) in
      starts_at-matched c t blank
        (matches_of (line_start ⨟ blanks1) (c ∷ t) r (blanks-go c t r blank e))
]

-- The upper two blocks: a namespace, and in it a block that has just been opened and whose
-- indentation counts. `previous_stack_top` is the namespace itself, the same object.
abbrev pub OpenedInNamespace : NestingState → Type 0
OpenedInNamespace s =
    (b : Block) × (below : Block) × (rest : List Block) × (previous : Block) × (s.stack
      ≡ b ∷ below ∷ rest)
    × (s.previous_stack_top ≡ some previous)
    × (b.check_namespace_indentation ≡ true)
    × (is_namespace below.kind ≡ true)
    × (is_namespace previous.kind ≡ true)
    × (previous.identity ≡ below.identity)

-- A line that must not be indented: no macro's, and the forward declaration of a class directly in a
-- namespace, or the opening of a block in one.
abbrev pub IsItem : NestingState → List Text → ℕ → Type 0
IsItem s elided line =
    (is_macro_definition elided line ≡ false)
    × (((is_forward_class_declaration elided line ≡ true) × (in_namespace_body s ≡ true))
        ⊎ ((is_forward_class_declaration elided line ≡ false) × OpenedInNamespace s))

abbrev Opened : List Block → Option Block → Type 0
Opened stack previous_top =
    (b : Block) × (below : Block) × (rest : List Block) × (previous : Block) × (stack
      ≡ b ∷ below ∷ rest)
    × (previous_top ≡ some previous)
    × (b.check_namespace_indentation ≡ true)
    × (is_namespace below.kind ≡ true)
    × (is_namespace previous.kind ≡ true)
    × (previous.identity ≡ below.identity)

second_block-Opened :
    (stack : List Block) (previous_top : Option Block)
    → second_block (is_previous_top previous_top) stack ≡ true
    → second_block (λ b. is_namespace b.kind) stack ≡ true
    → Opened stack previous_top
second_block-Opened [] p e f = cc
second_block-Opened (b ∷ []) p e f = cc
second_block-Opened (b ∷ below ∷ rest) none e f = absurd (ground arith)
second_block-Opened (b ∷ below ∷ rest) (some previous) e f =
    (b, below, rest, previous, refl, refl, ground arith, ground arith, ground arith, ground arith)

Opened-second_block :
    (stack : List Block) (previous_top : Option Block)
    → Opened stack previous_top
    → (second_block (is_previous_top previous_top) stack ≡ true)
      × (second_block (λ b. is_namespace b.kind) stack ≡ true)
Opened-second_block stack p (b, below, rest, previous, e, f, checks, lower, upper, same) =
    rw (e, f) (ground arith)

should-IsItem :
    (s : NestingState) (elided : List Text) (line : ℕ)
    → (should_check_namespace_indentation s (is_namespace_indent_item s) elided line ≡ true)
      ↔ IsItem s elided line
unfolding should_check_namespace_indentation is_namespace_indent_item is_block_in_name_space
should-IsItem s elided line = (
  λ e. elim (Bool-cases (is_forward_class_declaration elided line)) [
    | inl forward ↦ (ground arith, inl (forward, ground arith))
    | inr other ↦ (
      ground arith,
      inr (other, second_block-Opened s.stack s.previous_stack_top (ground arith) (ground arith)),
    )
  ],
  λ (plain, item). elim item [
    | inl (forward, inside) ↦ ground arith
    | inr (other, opened) ↦ ground (arith, Opened-second_block s.stack s.previous_stack_top opened)
  ],
)

-- A line is reported for its indentation in a namespace exactly when it begins with a space and is an
-- item that must not be indented: no macro's line, and the forward declaration of a class directly in
-- a namespace, or else the line that has put a block whose indentation counts on top of the namespace
-- that was the top before. `check_for_namespace_indentation` makes this one report or none.
pub check_for_namespace_indentation_iff :
    (s : NestingState) (elided : List Text) (line : ℕ)
    → ((check_for_namespace_indentation s elided line ≡ indented_in_namespace line ∷ [])
        ↔ (IsItem s elided line × (begins_with_space (line_at elided line) ≡ true)))
      × ((check_for_namespace_indentation s elided line ≡ [])
          ⊎ (check_for_namespace_indentation s elided line ≡ indented_in_namespace line ∷ []))
unfolding check_for_namespace_indentation check_item_indentation_in_namespace
check_for_namespace_indentation_iff s elided line =
    let space_eq = starts_at-space (line_at elided line) in
    let item = should-IsItem s elided line in
    (
      (λ e. (item.0 (ground arith), ground arith), λ (i, space). ground (arith, item.1 i)),
      ground arith,
    )
