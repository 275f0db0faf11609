-- ===== src/Nesting/Update.antt =====
-- `NestingState.Update` of lab5/cpplint.py: access control, braces, and the whole method. A loop
-- that would run out of its fuel, a line that is not there, and an index that is not in a line give
-- `none`.
use cs.Base.{
  ℕ, zero, suc, ◌+◌, Bool, true, not, ◌||◌, Option, none, some, List, [], ◌∷◌, ◌++◌, Text, codes,
  length, get_elem?, nat_beq, text_eq, ◌==◌, nat_eq, if◌then◌else◌,
}
use cs.Re.{
  Pattern, Found, one, lit, ◌⨟◌, ◌∣∣◌, optional, many, some_of, group, space, any_char, line_start,
  line_end, boundary, matches,
}
use cs.Nolint.{Report}
use cs.CleansedLines.{CleansedLines, group_text}
use cs.Nesting.{
  block_asm, ClassInfo, class_info, Block, NestingState, top, seen_open_brace, update_preprocessor,
  plain,
}
use cs.Nesting.Blocks.{block_info, extern_c_info, blank_line, parent_of}
use cs.Nesting.Namespaces.{check_end}
use cs.Nesting.Openings.{
  push, pop, modify_top, starts_asm, count_parentheses, namespace_loop, open_class, begin_block,
}

-- `^(.*)\b(public|private|protected|signals)(\s+(?:slots\s*)?)?:(?:[^:]|$)`
unfoldable pub access_pattern : Pattern
access_pattern =
    line_start
    ⨟ group 1 (many (one any_char))
    ⨟ boundary
    ⨟ group 2 (
        lit (codes "public")
        ∣∣ lit (codes "private")
        ∣∣ lit (codes "protected")
        ∣∣ lit (codes "signals"))
    ⨟ optional (group 3 (some_of space ⨟ optional (lit (codes "slots") ⨟ many space)))
    ⨟ lit (codes ":")
    ⨟ (one (λ c. not (nat_beq c b':')) ∣∣ line_end)

abbrev not_indented : ℕ → Found → ClassInfo → Report
not_indented linenum f c = record {
  linenum = linenum;
  category = codes "whitespace/indent";
  confidence = 3;
  message =
      group_text f 2
      ++ (group_text f 3 ++ (codes ": should be indented +1 space inside " ++ parent_of c));
}

-- The indentation of an access keyword with only white space before it.
unfoldable pub check_access : ℕ → Found → ClassInfo → List Report
check_access linenum f c =
    if nat_beq (length (group_text f 1)) (c.class_indent + 1)
    then []
    else (elim (matches blank_line (group_text f 1)) [
      | none ↦ []
      | some _ ↦ not_indented linenum f c ∷ []
    ])

abbrev pub class_of : NestingState → Option ClassInfo
class_of s = elim s.stack [
  | [] ↦ none
  | b ∷ rest ↦ elim b.kind [ class_info c ↦ some c | _ ↦ none ]
]

unfoldable pub access_control : ℕ → Text → NestingState → NestingState × List Report
unfolding modify_top check_access
access_control linenum line s = elim (class_of s) [
  | none ↦ (s, [])
  | some c ↦ elim (matches access_pattern line) [
    | none ↦ (s, [])
    | some f ↦ (
      modify_top (λ b. record b { kind = class_info (record c { access = group_text f 2 }) }) s,
      check_access linenum f c,
    )
  ]
]

abbrev pub is_token : ℕ → Bool
is_token c = nat_beq c b'{' || (nat_beq c b';' || (nat_beq c b')' || nat_beq c b'}'))

-- `^[^{;)}]*([{;)}])(.*)$`
unfoldable pub next_token : Pattern
next_token =
    line_start
    ⨟ many (one (λ c. not (is_token c)))
    ⨟ group 1 (one is_token)
    ⨟ group 2 (many (one any_char))
    ⨟ line_end

-- `^extern\s*"[^"]*"\s*\{`
unfoldable pub extern_block : Pattern
extern_block =
    line_start
    ⨟ lit (codes "extern")
    ⨟ many space
    ⨟ lit (codes "\"")
    ⨟ many (one (λ c. not (nat_beq c b'"')))
    ⨟ lit (codes "\"")
    ⨟ many space
    ⨟ lit (codes "{")

-- The block that a brace opens on `line`.
unfoldable pub opened_block : ℕ → Text → Block
opened_block linenum line = elim (matches extern_block line) [
  | some _ ↦ extern_c_info linenum
  | none ↦
      if starts_asm line
      then record (block_info linenum true plain) { inline_asm = block_asm }
      else block_info linenum true plain
]

unfoldable pub open_brace : ℕ → Text → NestingState → NestingState
unfolding push modify_top opened_block
open_brace linenum line s =
    if seen_open_brace s
    then push (opened_block linenum line) s
    else modify_top (λ b. record b { seen_open_brace = true }) s

-- A semicolon or a closing parenthesis before the opening brace: a forward declaration, or an
-- argument.
unfoldable pub drop_declaration : NestingState → NestingState
unfolding pop
drop_declaration s = if seen_open_brace s then s else pop s

unfoldable pub close_brace :
    CleansedLines → ℕ → Text → Text → NestingState → NestingState × List Report
unfolding pop
close_brace lines linenum elided raw s = elim (top s.stack) [
  | none ↦ (s, [])
  | some b ↦ (pop s, check_end lines linenum elided raw b)
]

-- One round of the loop over the braces: `token` is the character found on `line`.
unfoldable pub at_token :
    CleansedLines → ℕ → Text → Text → Text → Text → NestingState → NestingState × List Report
unfolding open_brace drop_declaration close_brace
at_token lines linenum elided raw line token s =
    if token == codes "{"
    then (open_brace linenum line s, [])
    else (if token == codes ";" || token == codes ")"
        then (drop_declaration s, [])
        else close_brace lines linenum elided raw s)

unfoldable pub brace_loop :
    ℕ → CleansedLines → ℕ → Text → Text → Text → NestingState → Option (NestingState × List Report)
unfolding at_token
brace_loop zero lines linenum elided raw line s = none
brace_loop (suc fuel) lines linenum elided raw line s = elim (matches next_token line) [
  | none ↦ some (s, [])
  | some f ↦
      let (s', reports) = at_token lines linenum elided raw line (group_text f 1) s in
      elim (brace_loop fuel lines linenum elided raw (group_text f 2) s') [
        | none ↦ none
        | some (s'', more) ↦ some (s'', reports ++ more)
      ]
]

-- What follows the namespaces and classes of a line.
unfoldable pub update_blocks :
    CleansedLines → ℕ → Text → Text → Text → NestingState → Option (NestingState × List Report)
unfolding begin_block access_control brace_loop
update_blocks lines linenum elided raw line s =
    let (s', reports) = access_control linenum line (begin_block elided s) in
    elim (brace_loop (suc (length line)) lines linenum elided raw line s') [
      | none ↦ none
      | some (s'', more) ↦ some (s'', reports ++ more)
    ]

unfoldable pub enter_line : Text → NestingState → NestingState
unfolding update_preprocessor count_parentheses
enter_line line s =
    count_parentheses line
      (update_preprocessor line (record s { previous_stack_top = top s.stack }))

-- `Update`
unfoldable pub update : CleansedLines → ℕ → NestingState → Option (NestingState × List Report)
unfolding enter_line namespace_loop open_class update_blocks
update lines linenum s = elim (get_elem? lines.elided linenum) [
  | none ↦ none
  | some elided ↦ elim (get_elem? lines.raw_lines linenum) [
    | none ↦ none
    | some raw ↦ elim (namespace_loop (suc (length elided)) linenum elided (enter_line elided s)) [
      | none ↦ none
      | some (line, s') ↦ elim (open_class lines linenum raw line s') [
        | none ↦ none
        | some (line', s'') ↦ update_blocks lines linenum elided raw line' s''
      ]
    ]
  ]
]
