-- ===== src/Nesting/Openings.antt =====
-- The first steps of `NestingState.Update` in lab5/cpplint.py: parentheses, namespaces and classes.
-- A loop that would run out of its fuel gives `none`.
use cs.Base.{
  ℕ, zero, suc, ◌+◌, Bool, true, false, not, ◌&&◌, ◌||◌, Option, none, some, [], ◌∷◌, Text, codes,
  length, drop, find, nat_beq, text_eq, nat_eq, contains, ℤ, ◌+ℤ◌, is_int, is_space, leb,
  if◌then◌else◌,
}
use cs.Re.{
  Pattern, Found, one, lit, ◌⨟◌, ◌∣∣◌, optional, many, some_of, group, space, any_char, is_word,
  line_start, line_end, boundary, matches, group_of,
}
use cs.CleansedLines.{CleansedLines, group_text}
use cs.Nesting.{Asm, no_asm, inside_asm, end_asm, block_asm, Block, NestingState, seen_open_brace}
use cs.Nesting.Blocks.{namespace_block, class_block, check_begin, count_change}
use cs.Nesting.Templates.{in_template_argument_list}

-- A new object on the stack.
unfoldable pub push : Block → NestingState → NestingState
push b s = record s {
  stack = record b { identity = s.next_identity } ∷ s.stack;
  next_identity = suc s.next_identity;
}

unfoldable pub pop : NestingState → NestingState
pop s = record s { stack = drop 1 s.stack }

-- A change of the object on top of the stack, which is also seen through `previous_stack_top` if
-- that is the same object.
unfoldable pub modify_top : (Block → Block) → NestingState → NestingState
modify_top f s = elim s.stack [
  | [] ↦ s
  | b ∷ rest ↦ record s {
    stack = f b ∷ rest;
    previous_stack_top = elim s.previous_stack_top [
      | none ↦ none
      | some p ↦ if nat_beq p.identity b.identity then some (f b) else some p
    ];
  }
]

-- `_MATCH_ASM`
unfoldable pub match_asm : Pattern
match_asm =
    line_start
    ⨟ many space
    ⨟ (lit (codes "asm") ∣∣ lit (codes "_asm") ∣∣ lit (codes "__asm") ∣∣ lit (codes "__asm__"))
    ⨟ optional (some_of space ⨟ group 1 (lit (codes "volatile") ∣∣ lit (codes "__volatile__")))
    ⨟ many space
    ⨟ one (λ c. nat_beq c b'{' || nat_beq c b'(')

abbrev pub starts_asm : Text → Bool
starts_asm line = elim (matches match_asm line) [ none ↦ false | some _ ↦ true ]

-- The inline assembly of a block whose parentheses are `opened` after a change.
unfoldable pub next_asm : Text → ℤ → ℤ → Asm → Asm
next_asm line change opened inside_asm = if is_int 0 opened then end_asm else inside_asm
next_asm line change opened block_asm = block_asm
next_asm line change opened _ =
    if not (is_int 0 change) && (is_int 1 opened && starts_asm line) then inside_asm else no_asm

unfoldable pub count_parentheses : Text → NestingState → NestingState
unfolding modify_top next_asm count_change
count_parentheses line = modify_top (λ b.
    let change = count_change (codes "(") (codes ")") line in
    let opened = b.open_parentheses +ℤ change in
    record b { open_parentheses = opened; inline_asm = next_asm line change opened b.inline_asm })

-- `^\s*namespace\b\s*([:\w]+)?(.*)$`
unfoldable pub namespace_decl : Pattern
namespace_decl =
    line_start
    ⨟ many space
    ⨟ lit (codes "namespace")
    ⨟ boundary
    ⨟ many space
    ⨟ optional (group 1 (some_of (one (λ c. nat_beq c b':' || is_word c))))
    ⨟ group 2 (many (one any_char))
    ⨟ line_end

-- The body of the loop over the namespaces that a line opens.
unfoldable pub open_namespace : ℕ → Found → NestingState → Text × NestingState
unfolding push modify_top
open_namespace linenum f s =
    let s' = push (namespace_block (group_of f 1) linenum) s in
    let line = group_text f 2 in
    elim (find line (codes "{")) [
      | none ↦ (line, s')
      | some i ↦ (drop (i + 1) line, modify_top (λ b. record b { seen_open_brace = true }) s')
    ]

unfoldable pub namespace_loop : ℕ → ℕ → Text → NestingState → Option (Text × NestingState)
unfolding open_namespace
namespace_loop zero linenum line s = none
namespace_loop (suc fuel) linenum line s = elim (matches namespace_decl line) [
  | none ↦ some (line, s)
  | some f ↦ let (line', s') = open_namespace linenum f s in namespace_loop fuel linenum line' s'
]

abbrev is_macro_char : ℕ → Bool
is_macro_char c = (leb b'A' c && leb c b'Z') || nat_beq c b'_'

abbrev is_template_char : ℕ → Bool
is_template_char c = is_word c || (is_space c || contains (codes "<>,:") c)

-- `^(\s*(?:template\s*<[\w\s<>,:]*>\s*)?(class|struct)\s+(?:[A-Z_]+\s+)*(\w+(?:::\w+)*))(.*)$`
unfoldable pub class_decl : Pattern
class_decl =
    line_start
    ⨟ group 1 (
        many space
        ⨟ optional (
            lit (codes "template")
            ⨟ many space
            ⨟ lit (codes "<")
            ⨟ many (one is_template_char)
            ⨟ lit (codes ">")
            ⨟ many space)
        ⨟ group 2 (lit (codes "class") ∣∣ lit (codes "struct"))
        ⨟ some_of space
        ⨟ many (some_of (one is_macro_char) ⨟ some_of space)
        ⨟ group 3 (some_of (one is_word) ⨟ many (lit (codes "::") ⨟ some_of (one is_word))))
    ⨟ group 4 (many (one any_char))
    ⨟ line_end

abbrev pub no_parentheses : NestingState → Bool
no_parentheses s = elim s.stack [ [] ↦ true | b ∷ rest ↦ is_int 0 b.open_parentheses ]

-- A class declaration in what is left of the line; `raw` is the raw line.
unfoldable pub open_class :
    CleansedLines → ℕ → Text → Text → NestingState → Option (Text × NestingState)
unfolding push
open_class lines linenum raw line s = elim (matches class_decl line) [
  | none ↦ some (line, s)
  | some f ↦
      if no_parentheses s
      then (elim (in_template_argument_list lines linenum (length (group_text f 1))) [
        | none ↦ none
        | some true ↦ some (line, s)
        | some false ↦ some (
          group_text f 4,
          push (class_block (group_text f 3) (group_text f 2) lines linenum raw) s,
        )
      ])
      else some (line, s)
]

-- The checks of a block whose opening brace is still to come.
unfoldable pub begin_block : Text → NestingState → NestingState
unfolding modify_top
begin_block elided s = if seen_open_brace s then s else modify_top (check_begin elided) s
