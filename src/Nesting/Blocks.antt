-- ===== src/Nesting/Blocks.antt =====
-- The blocks' own methods in lab5/cpplint.py: `_ClassInfo.__init__`, `CheckBegin` and `CheckEnd`.
use cs.Base.{
  ℕ, zero, suc, ◌-◌, Bool, true, false, not, Option, none, some, List, [], ◌∷◌, ◌++◌, Text, codes,
  length, drop, get_or, nat_beq, text_eq, ◌==◌, ℤ, pos, ◌+ℤ◌, sub_ℕ, is_int, count_text, nat_eq,
  if◌then◌else◌,
}
use cs.Re.{
  Pattern, one, lit, ◌⨟◌, ◌∣∣◌, many, group, space, line_start, line_end, boundary, matches,
  search_in,
}
use cs.Nolint.{Report}
use cs.CleansedLines.{CleansedLines, group_text}
use cs.FileChecks.{get_indent_level}
use cs.Nesting.{no_asm, ClassInfo, Kind, extern_c, class_info, namespace_info, Block}

-- `_BlockInfo.__init__`, of an object that has no identity yet.
abbrev pub block_info : ℕ → Bool → Kind → Block
block_info linenum seen kind = record {
  identity = 0;
  starting_linenum = linenum;
  seen_open_brace = seen;
  open_parentheses = pos 0;
  inline_asm = no_asm;
  check_namespace_indentation = false;
  kind = kind;
}

abbrev pub extern_c_info : ℕ → Block
extern_c_info linenum = block_info linenum true extern_c

abbrev pub namespace_block : Option Text → ℕ → Block
namespace_block name linenum =
    record (block_info linenum false (namespace_info (elim name [ none ↦ [] | some t ↦ t ]))) {
      check_namespace_indentation = true;
    }

-- `line.count(opening) - line.count(closing)`
unfoldable pub count_change : Text → Text → Text → ℤ
count_change opening closing line = sub_ℕ (count_text opening line) (count_text closing line)

-- The first line from `i` on at which the braces are closed; 0 if there is none.
unfoldable pub last_line_from : List Text → ℕ → ℤ → ℕ
unfolding count_change
last_line_from [] i depth = 0
last_line_from (line ∷ rest) i depth =
    let depth' = depth +ℤ count_change (codes "{") (codes "}") line in
    let later = last_line_from rest (suc i) depth' in if is_int 0 depth' then i else later

-- `_ClassInfo.__init__`; `raw` is the raw line `linenum`.
unfoldable pub class_block : Text → Text → CleansedLines → ℕ → Text → Block
unfolding last_line_from get_indent_level
class_block name class_or_struct lines linenum raw =
    let is_struct = class_or_struct == codes "struct" in
    record (block_info linenum false (
      class_info (record {
        name = name;
        is_derived = false;
        access = if is_struct then codes "public" else codes "private";
        is_struct = is_struct;
        class_indent = get_indent_level raw;
        last_line = last_line_from (drop linenum lines.elided) linenum (pos 0);
      }))) { check_namespace_indentation = true }

-- `(^|[^:]):($|[^:])`
unfoldable pub bare_colon : Pattern
bare_colon =
    let other = one (λ c. not (nat_beq c b':')) in
    group 1 (line_start ∣∣ other) ⨟ lit (codes ":") ⨟ group 2 (line_end ∣∣ other)

-- `CheckBegin`: it reports nothing, and marks a class that has a base.
unfoldable pub check_begin : Text → Block → Block
check_begin elided b = elim b.kind [
  | class_info c ↦ elim (search_in bare_colon elided) [
    | none ↦ b
    | some _ ↦ record b { kind = class_info (record c { is_derived = true }) }
  ]
  | _ ↦ b
]

-- `\b(DISALLOW_COPY_AND_ASSIGN|DISALLOW_IMPLICIT_CONSTRUCTORS)\(name\)`: a class's name has word
-- characters and colons, which stand for themselves in a pattern.
unfoldable pub disallow_macro : Text → Pattern
disallow_macro name =
    boundary
    ⨟ group 1
        (lit (codes "DISALLOW_COPY_AND_ASSIGN") ∣∣ lit (codes "DISALLOW_IMPLICIT_CONSTRUCTORS"))
    ⨟ lit (codes "(")
    ⨟ lit name
    ⨟ lit (codes ")")

-- `^\s*$`
unfoldable pub blank_line : Pattern
blank_line = line_start ⨟ many space ⨟ line_end

abbrev not_last : ℕ → Text → Report
not_last linenum macro = record {
  linenum = linenum;
  category = codes "readability/constructors";
  confidence = 3;
  message = macro ++ codes " should be the last thing in the class";
}

-- The `n` lines above line `linenum`, from below; they exist if line `linenum` does.
unfoldable pub check_macro : Text → List Text → ℕ → ℕ → Bool → List Report
check_macro name elided zero linenum seen_last = []
check_macro name elided (suc n) linenum seen_last =
    let i = linenum - 1 in
    let line = get_or elided i [] in
    elim (search_in (disallow_macro name) line) [
      | some f ↦ if seen_last then not_last i (group_text f 1) ∷ [] else []
      | none ↦ elim (matches blank_line line) [
        | some _ ↦ check_macro name elided n i seen_last
        | none ↦ check_macro name elided n i true
      ]
    ]

-- `^( *)\}`
unfoldable pub closing_indent : Pattern
closing_indent = line_start ⨟ group 1 (many (lit (codes " "))) ⨟ lit (codes "}")

abbrev pub parent_of : ClassInfo → Text
parent_of c = (if c.is_struct then codes "struct " else codes "class ") ++ c.name

abbrev not_aligned : ℕ → ClassInfo → Report
not_aligned linenum c = record {
  linenum = linenum;
  category = codes "whitespace/indent";
  confidence = 3;
  message = codes "Closing brace should be aligned with beginning of " ++ parent_of c;
}

-- `_ClassInfo.CheckEnd`
unfoldable pub class_end : ClassInfo → ℕ → List Text → ℕ → Text → List Report
unfolding check_macro
class_end c starting_linenum elided linenum line =
    check_macro c.name elided (linenum - 1 - starting_linenum) linenum false
    ++ (elim (matches closing_indent line) [
      | none ↦ []
      | some f ↦
          if nat_beq (length (group_text f 1)) c.class_indent
          then []
          else not_aligned linenum c ∷ []
    ])
