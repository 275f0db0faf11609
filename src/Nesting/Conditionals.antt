-- ===== src/Nesting/Conditionals.antt =====
-- What `UpdatePreprocessor` of lab5/cpplint.py does over a whole conditional.
use cs.Base.{ℕ, suc, ◌≡◌, refl, ap, ◌∙◌, true, none, some, List, [], ◌∷◌, Text, map}
use cs.Re.{Found, matches}
use cs.Nesting.{
  Block, PreprocessorInfo, NestingState, deep_copy, if_line, else_line, endif_line, at_if, at_else,
  at_endif, update_preprocessor,
}

-- The fields of the blocks, without the objects' identities.
abbrev pub contents : List Block → List Block
contents = map (λ (b : Block). record b { identity = 0 })

deep_copy_same : (n : ℕ) (bs : List Block) → contents (deep_copy n bs) ≡ contents bs
unfolding deep_copy
deep_copy_same n [] = refl
deep_copy_same n (b ∷ bs) = ap (◌∷◌ (record b { identity = 0 })) (deep_copy_same (suc n) bs)

-- The line is a directive of the kind.
abbrev pub IsIf : Text → Type 0
IsIf line = (f : Found) × (matches if_line line ≡ some f)

abbrev pub IsElse : Text → Type 0
IsElse line = (matches if_line line ≡ none) × ((f : Found) × (matches else_line line ≡ some f))

abbrev pub IsEndif : Text → Type 0
IsEndif line =
    (matches if_line line ≡ none)
    × (matches else_line line ≡ none)
    × ((f : Found) × (matches endif_line line ≡ some f))

if_step : (line : Text) (s : NestingState) → IsIf line → update_preprocessor line s ≡ at_if s
unfolding update_preprocessor
if_step line s (f, e) = rw (e, update_preprocessor) refl

else_step : (line : Text) (s : NestingState) → IsElse line → update_preprocessor line s ≡ at_else s
unfolding update_preprocessor
else_step line s (e, (f, g)) = rw (e, g, update_preprocessor) refl

endif_step :
    (line : Text) (s : NestingState) → IsEndif line → update_preprocessor line s ≡ at_endif s
unfolding update_preprocessor
endif_step line s (e, g, (f, h)) = rw (e, g, h, update_preprocessor) refl

-- The top of the preprocessor stack inside a conditional that began at `s`, after an `#else` at
-- `a`.
abbrev InElse : NestingState → NestingState → NestingState → Type 0
InElse s a b =
    (info : PreprocessorInfo) × (b.pp_stack ≡ info ∷ s.pp_stack)
    × (info.seen_else ≡ true)
    × (contents info.stack_before_if ≡ contents s.stack)
    × (contents info.stack_before_else ≡ contents a.stack)

first_else :
    (s a : NestingState)
    → a.pp_stack ≡ (at_if s).pp_stack
    → (contents (at_else a).stack ≡ contents s.stack) × InElse s a (at_else a)
unfolding at_if at_else
first_else s a e =
    let info : PreprocessorInfo = record {
      stack_before_if = deep_copy s.next_identity s.stack;
      stack_before_else = deep_copy a.next_identity a.stack;
      seen_else = true;
    } in
    let saved = deep_copy_same s.next_identity s.stack in
    (
      rw (e, at_else) (deep_copy_same _ (deep_copy s.next_identity s.stack) ∙ saved),
      (info, rw (e, at_else) refl, refl, saved, deep_copy_same a.next_identity a.stack),
    )

later_else :
    (s a b : NestingState)
    → InElse s a b
    → (contents (at_else b).stack ≡ contents s.stack) × InElse s a (at_else b)
unfolding at_else
later_else s a b (info, e, seen, before_if, before_else) = (
  rw (e, at_else) (deep_copy_same _ info.stack_before_if ∙ before_if),
  (info, rw (e, at_else, seen) refl, seen, before_if, before_else),
)

-- Inside a conditional after its first `#else`, with any number of further ones: lines that leave
-- the preprocessor stack alone, and directives `#else` and `#elif`.
pub data Branches : NestingState → NestingState → Type 0 where
  first : (s : NestingState) → Branches s s
  body : {s b c : NestingState} → Branches s b → c.pp_stack ≡ b.pp_stack → Branches s c
  other :
      {s b : NestingState} (line : Text)
      → Branches s b
      → IsElse line
      → Branches s (update_preprocessor line b)

Branches-InElse :
    (s a : NestingState) {t b : NestingState} → Branches t b → InElse s a t → InElse s a b
Branches-InElse s a (first t) h = h
Branches-InElse s a (body branches e) h =
    let (info, g, seen, before_if, before_else) = Branches-InElse s a branches h in
    (info, e ∙ g, seen, before_if, before_else)
Branches-InElse s a (other {b = b} line branches is_else) h =
    rw (else_step line b is_else) (later_else s a b (Branches-InElse s a branches h)).1

-- A conditional begins at `s`, reaches its first `#else` at `a` after lines that leave the
-- preprocessor stack alone, has further branches, and ends at `b`. Then, but for the objects'
-- identities, every `#else` goes back to the stack at `s`, the `#endif` gives the stack at `a`, and
-- the preprocessor stack is the one at `s`.
pub update_preprocessor_conditional :
    (s a b : NestingState) (if_ else_ endif_ again : Text)
    → IsIf if_
    → IsElse else_
    → IsEndif endif_
    → IsElse again
    → a.pp_stack ≡ (update_preprocessor if_ s).pp_stack
    → Branches (update_preprocessor else_ a) b
    → (contents (update_preprocessor else_ a).stack ≡ contents s.stack)
      × (contents (update_preprocessor again b).stack ≡ contents s.stack)
      × (contents (update_preprocessor endif_ b).stack ≡ contents a.stack)
      × ((update_preprocessor endif_ b).pp_stack ≡ s.pp_stack)
unfolding at_endif
update_preprocessor_conditional s a b if_ else_ endif_ again is_if is_else is_endif is_again e
      branches =
    let (back, inside) = first_else s a (e ∙ ap (λ t. t.pp_stack) (if_step if_ s is_if)) in
    let inside_b = Branches-InElse s a branches (rw (else_step else_ a is_else) inside) in
    let (info, g, seen, _, before_else) = inside_b in
    (
      rw (else_step else_ a is_else) back,
      rw (else_step again b is_again) (later_else s a b inside_b).0,
      rw (endif_step endif_ b is_endif, at_endif, g, seen) before_else,
      rw (endif_step endif_ b is_endif, at_endif, g) refl,
    )
