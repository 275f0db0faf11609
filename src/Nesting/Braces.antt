-- ===== src/Nesting/Braces.antt =====
-- The last loop of `NestingState.Update` in lab5/cpplint.py against a reading of the line character
-- by character.
use cs.Base.{
  ℕ, zero, suc, ◌<◌, ◌≡◌, refl, sym, ap, ◌∙◌, ◌⊎◌, inl, inr, Bool, true, false, not, ◌||◌,
  Bool-cases, some, List, [], ◌∷◌, ◌++◌, Text, map, drop, All, length, length-append, append_nil,
  nat_beq, nat_eq, text_beq, text_eq, ◌==◌, arith, if◌then◌else◌,
}
use cs.Re.{Found, any_char, matches}
use cs.Nolint.{Report}
use cs.CleansedLines.{CleansedLines, group_text}
use cs.Nesting.{Block, NestingState, seen_open_brace}
use cs.Nesting.Openings.{push, pop, modify_top}
use cs.Nesting.Update.{
  is_token, next_token, opened_block, open_brace, drop_declaration, close_brace, at_token,
  brace_loop,
}
use cs.Nesting.Tokens.{All-right, next_token_found, next_token_absent}

-- Of each block on the stack, whether its opening brace was seen.
abbrev pub seen_blocks : NestingState → List Bool
seen_blocks s = map (λ (b : Block). b.seen_open_brace) s.stack

abbrev read_open : List Bool → List Bool
read_open (false ∷ v) = true ∷ v
read_open v = true ∷ v

abbrev read_declaration : List Bool → List Bool
read_declaration (false ∷ v) = v
read_declaration v = v

abbrev pub read_char : ℕ → List Bool → List Bool
read_char c v =
    if nat_beq c b'{'
    then read_open v
    else (if nat_beq c b';' || nat_beq c b')'
        then read_declaration v
        else (if nat_beq c b'}' then drop 1 v else v))

-- A brace opens the block that waits for it, or a new one; a semicolon or a parenthesis drops a
-- block that waits for its brace; a closing brace drops a block; other characters change nothing.
abbrev pub read_braces : Text → List Bool → List Bool
read_braces [] v = v
read_braces (c ∷ t) v = read_braces t (read_char c v)

read_plain :
    (a t : Text) (v : List Bool)
    → All (λ d. not (is_token d) ≡ true) a
    → read_braces (a ++ t) v ≡ read_braces t v
read_plain [] t v h = refl
read_plain (c ∷ a) t v (h, hs) =
    let same : read_char c v ≡ v = ground arith in
    ap (read_braces (a ++ t)) same ∙ read_plain a t v hs

Stack-cases : (bs : List Block) → (bs ≡ []) ⊎ ((b : Block) × (rest : List Block) × (bs ≡ b ∷ rest))
Stack-cases [] = inl refl
Stack-cases (b ∷ rest) = inr (b, rest, refl)

opened-seen : (n : ℕ) (line : Text) → (opened_block n line).seen_open_brace ≡ true
unfolding opened_block
opened-seen n line = ground arith

open_brace-seen :
    (n : ℕ) (line : Text) (s : NestingState)
    → seen_blocks (open_brace n line s) ≡ read_open (seen_blocks s)
unfolding open_brace push modify_top seen_open_brace
open_brace-seen n line s = elim (Stack-cases s.stack) [
  | inl e ↦ rw e (ap (λ v. v ∷ []) (opened-seen n line))
  | inr (b, rest, e) ↦ elim (Bool-cases b.seen_open_brace) [
    | inl seen ↦
        rw (e, seen)
          (ap (λ v. v ∷ true ∷ map (λ (d : Block). d.seen_open_brace) rest) (opened-seen n line))
    | inr unseen ↦ rw (e, unseen) refl
  ]
]

drop_declaration-seen :
    (s : NestingState) → seen_blocks (drop_declaration s) ≡ read_declaration (seen_blocks s)
unfolding drop_declaration pop seen_open_brace
drop_declaration-seen s = elim (Stack-cases s.stack) [
  | inl e ↦ rw e refl
  | inr (b, rest, e) ↦ elim (Bool-cases b.seen_open_brace) [
    | inl seen ↦ rw (e, seen) refl
    | inr unseen ↦ rw (e, unseen) refl
  ]
]

close_brace-seen :
    (lines : CleansedLines) (n : ℕ) (elided raw : Text) (s : NestingState)
    → seen_blocks (close_brace lines n elided raw s).0 ≡ drop 1 (seen_blocks s)
unfolding close_brace pop
close_brace-seen lines n elided raw s = elim (Stack-cases s.stack) [
  | inl e ↦ rw e refl
  | inr (b, rest, e) ↦ rw e refl
]

same_char : (c d : ℕ) → ((c ∷ []) == (d ∷ [])) ≡ nat_beq c d
unfolding text_beq
same_char c d = ground arith

at_token-seen :
    (lines : CleansedLines) (n : ℕ) (elided raw line : Text) (c : ℕ) (s : NestingState)
    → is_token c ≡ true
    → seen_blocks (at_token lines n elided raw line (c ∷ []) s).0 ≡ read_char c (seen_blocks s)
unfolding at_token
at_token-seen lines n elided raw line c s is_c = elim (Bool-cases (nat_beq c b'{')) [
  | inl e ↦ rw (same_char c b'{', e) (open_brace-seen n line s)
  | inr e ↦ elim (Bool-cases (nat_beq c b';' || nat_beq c b')')) [
    | inl g ↦
        rw (same_char c b'{', same_char c b';', same_char c b')', e, g) (drop_declaration-seen s)
    | inr g ↦
        let closing : nat_beq c b'}' ≡ true = ground arith in
        rw (same_char c b'{', same_char c b';', same_char c b')', e, g, closing)
          (close_brace-seen lines n elided raw s)
  ]
]

-- A line up to its first token.
line_split :
    (line : Text)
    → All (λ d. not (is_token d) ≡ true) line
      ⊎ ((a : Text) × (c : ℕ) × (b : Text) × (line ≡ a ++ c ∷ b)
          × All (λ d. not (is_token d) ≡ true) a
          × (is_token c ≡ true))
line_split [] = inl tt
line_split (c ∷ line) = elim (Bool-cases (is_token c)) [
  | inl e ↦ inr ([], c, line, refl, tt, e)
  | inr e ↦ elim (line_split line) [
    | inl h ↦ inl (ap not e, h)
    | inr (a, d, b, g, h, is_d) ↦ inr (c ∷ a, d, b, ap (◌∷◌ c) g, (ap not e, h), is_d)
  ]
]

brace_step :
    (fuel : ℕ) (lines : CleansedLines) (n : ℕ) (elided raw line token b : Text) (s t : NestingState)
    (f : Found) (more : List Report)
    → matches next_token line ≡ some f
    → token ≡ group_text f 1
    → b ≡ group_text f 2
    → brace_loop fuel lines n elided raw b (at_token lines n elided raw line token s).0
      ≡ some (t, more)
    → brace_loop (suc fuel) lines n elided raw line s
      ≡ some (t, (at_token lines n elided raw line token s).1 ++ more)
unfolding brace_loop
brace_step fuel lines n elided raw line token b s t f more found first second g =
    let g' = rw (first, second) at g in rw (first, found, brace_loop, g') refl

-- With more fuel than the line has characters, and no line feed in it, the loop over its braces ends.
-- Of the blocks on the stack, and whether their opening brace was seen, it makes what reading the
-- line character by character does.
pub brace_loop_refines :
    (fuel : ℕ) (lines : CleansedLines) (n : ℕ) (elided raw line : Text) (s : NestingState)
    → length line < fuel
    → All (λ c. any_char c ≡ true) line
    → (t : NestingState) × (reports : List Report) × (brace_loop fuel lines n elided raw line s
        ≡ some (t, reports))
      × (seen_blocks t ≡ read_braces line (seen_blocks s))
unfolding brace_loop
brace_loop_refines zero lines n elided raw line s h any = absurd (omega arith)
brace_loop_refines (suc fuel) lines n elided raw line s h any = elim (line_split line) [
  | inl plain ↦ (
    s,
    [],
    rw (next_token_absent line plain, brace_loop) refl,
    sym (rw (append_nil line) at (read_plain line [] (seen_blocks s) plain)),
  )
  | inr (a, c, b, e, plain, is_c) ↦
      let any_b : All (λ d. any_char d ≡ true) b =
        (All-right (λ d. any_char d ≡ true) a (c ∷ b) (rw e at any)).1 in
      let (f, found, first, second) = next_token_found a c b plain is_c any_b in
      let s' = (at_token lines n elided raw line (c ∷ []) s).0 in
      let (t, more, g, view) =
        brace_loop_refines fuel lines n elided raw b s'
          (omega (arith, ap (length {0}) e, length-append a (c ∷ b))) any_b in
      (
        t,
        (at_token lines n elided raw line (c ∷ []) s).1 ++ more,
        brace_step fuel lines n elided raw line (c ∷ []) b s t f more
            (ap (matches next_token) e ∙ found) (sym first) (sym second) g,
        view
            ∙ ap (read_braces b) (at_token-seen lines n elided raw line c s is_c)
            ∙ sym (read_plain a (c ∷ b) (seen_blocks s) plain)
            ∙ sym (ap (λ t. read_braces t (seen_blocks s)) e),
      )
]
