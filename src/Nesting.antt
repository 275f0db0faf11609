-- ===== src/Nesting.antt =====
-- The class `NestingState` of lab5/cpplint.py with the blocks and preprocessor checkpoints that it
-- keeps, its queries, and `UpdatePreprocessor`. The stacks have their top first.
pub mod Blocks
pub mod Namespaces
pub mod Templates
pub mod Openings
pub mod Update
pub mod Conditionals
pub mod Tokens
pub mod Braces
pub mod Rounds
pub mod Total
pub mod Completed
pub mod Run
mod Examples
use cs.Base.{
  ℕ, suc, ◌+◌, Bool, true, false, not, ◌||◌, Option, none, some, List, [], ◌∷◌, ◌++◌, Text, codes,
  length, nat_beq, ℤ, pos, if◌then◌else◌,
}
use cs.Re.{Pattern, one, lit, ◌⨟◌, ◌∣∣◌, many, group, space, line_start, boundary, matches}
use cs.Nolint.{Report}

-- `_NO_ASM`, `_INSIDE_ASM`, `_END_ASM`, `_BLOCK_ASM`
pub data Asm : Type 0 where
  no_asm : Asm
  inside_asm : Asm
  end_asm : Asm
  block_asm : Asm

-- What `_ClassInfo` adds to a block.
pub record ClassInfo : Type 0 where
  pub name : Text
  pub is_derived : Bool
  pub access : Text
  pub is_struct : Bool
  pub class_indent : ℕ
  pub last_line : ℕ

-- The class of a block: `_BlockInfo` itself, `_ExternCInfo`, `_ClassInfo` or `_NamespaceInfo`.
pub data Kind : Type 0 where
  plain : Kind
  extern_c : Kind
  class_info : ClassInfo → Kind
  namespace_info : Text → Kind

-- A block is an object: `identity` tells two objects with the same fields apart.
pub record Block : Type 0 where
  pub identity : ℕ
  pub starting_linenum : ℕ
  pub seen_open_brace : Bool
  pub open_parentheses : ℤ
  pub inline_asm : Asm
  pub check_namespace_indentation : Bool
  pub kind : Kind

pub record PreprocessorInfo : Type 0 where
  pub stack_before_if : List Block
  pub stack_before_else : List Block
  pub seen_else : Bool

-- `next_identity` is an identity that no object has. A `previous_stack_top` of [] or None, which
-- nothing tells apart, is `none`.
pub record NestingState : Type 0 where
  pub stack : List Block
  pub previous_stack_top : Option Block
  pub pp_stack : List PreprocessorInfo
  pub next_identity : ℕ

abbrev pub initial : NestingState
initial = record { stack = []; previous_stack_top = none; pp_stack = []; next_identity = 0 }

abbrev pub top : List Block → Option Block
top [] = none
top (b ∷ rest) = some b

unfoldable pub seen_open_brace : NestingState → Bool
seen_open_brace s = elim s.stack [ [] ↦ true | b ∷ rest ↦ b.seen_open_brace ]

abbrev pub is_namespace : Kind → Bool
is_namespace (namespace_info name) = true
is_namespace _ = false

abbrev is_extern_c : Kind → Bool
is_extern_c extern_c = true
is_extern_c _ = false

abbrev pub is_class : Kind → Bool
is_class (class_info c) = true
is_class _ = false

unfoldable pub in_namespace_body : NestingState → Bool
in_namespace_body s = elim s.stack [ [] ↦ false | b ∷ rest ↦ is_namespace b.kind ]

unfoldable pub in_extern_c : NestingState → Bool
in_extern_c s = elim s.stack [ [] ↦ false | b ∷ rest ↦ is_extern_c b.kind ]

unfoldable pub in_class_declaration : NestingState → Bool
in_class_declaration s = elim s.stack [ [] ↦ false | b ∷ rest ↦ is_class b.kind ]

abbrev is_asm : Asm → Bool
is_asm no_asm = false
is_asm _ = true

unfoldable pub in_asm_block : NestingState → Bool
in_asm_block s = elim s.stack [ [] ↦ false | b ∷ rest ↦ is_asm b.inline_asm ]

-- The first class from the top of the stack.
unfoldable pub innermost_class : List Block → Option Block
innermost_class [] = none
innermost_class (b ∷ rest) = if is_class b.kind then some b else innermost_class rest

abbrev incomplete : ℕ → Text → Text → Report
incomplete linenum category what = record {
  linenum = linenum;
  category = category;
  confidence = 5;
  message = codes "Failed to find complete declaration of " ++ what;
}

abbrev pub completed_block : Block → List Report
completed_block b = elim b.kind [
  | class_info c ↦
      incomplete b.starting_linenum (codes "build/class") (codes "class " ++ c.name) ∷ []
  | namespace_info name ↦
      incomplete b.starting_linenum (codes "build/namespaces") (codes "namespace " ++ name) ∷ []
  | plain ↦ []
  | extern_c ↦ []
]

-- `CheckCompletedBlocks` goes through the stack from its bottom.
unfoldable pub check_completed_blocks : List Block → List Report
check_completed_blocks [] = []
check_completed_blocks (b ∷ rest) = check_completed_blocks rest ++ completed_block b

-- `copy.deepcopy` of a stack: new objects with the same fields.
unfoldable pub deep_copy : ℕ → List Block → List Block
deep_copy next [] = []
deep_copy next (b ∷ rest) = record b { identity = next } ∷ deep_copy (suc next) rest

abbrev directive : Pattern → Pattern
directive names = line_start ⨟ many space ⨟ lit (codes "#") ⨟ many space ⨟ names ⨟ boundary

-- `^\s*#\s*(if|ifdef|ifndef)\b`
unfoldable pub if_line : Pattern
if_line = directive (group 1 (lit (codes "if") ∣∣ lit (codes "ifdef") ∣∣ lit (codes "ifndef")))

-- `^\s*#\s*(else|elif)\b`
unfoldable pub else_line : Pattern
else_line = directive (group 1 (lit (codes "else") ∣∣ lit (codes "elif")))

-- `^\s*#\s*endif\b`
unfoldable pub endif_line : Pattern
endif_line = directive (lit (codes "endif"))

unfoldable pub at_if : NestingState → NestingState
unfolding deep_copy
at_if s = record s {
  pp_stack =
      record {
        stack_before_if = deep_copy s.next_identity s.stack;
        stack_before_else = [];
        seen_else = false;
      }
      ∷ s.pp_stack;
  next_identity = s.next_identity + length s.stack;
}

-- The first `#else` remembers the stack; each one goes back to the stack before the `#if`.
unfoldable pub at_else : NestingState → NestingState
unfolding deep_copy
at_else s = elim s.pp_stack [
  | [] ↦ s
  | info ∷ outer ↦
      let next = if info.seen_else then s.next_identity else s.next_identity + length s.stack in
      record s {
        stack = deep_copy next info.stack_before_if;
        pp_stack =
            (if info.seen_else then info else record info {
              stack_before_else = deep_copy s.next_identity s.stack;
              seen_else = true;
            })
            ∷ outer;
        next_identity = next + length info.stack_before_if;
      }
]

unfoldable pub at_endif : NestingState → NestingState
at_endif s = elim s.pp_stack [
  | [] ↦ s
  | info ∷ outer ↦ record s {
    stack = if info.seen_else then info.stack_before_else else s.stack;
    pp_stack = outer;
  }
]

unfoldable pub update_preprocessor : Text → NestingState → NestingState
unfolding at_if at_else at_endif
update_preprocessor line s = elim (matches if_line line) [
  | some _ ↦ at_if s
  | none ↦ elim (matches else_line line) [
    | some _ ↦ at_else s
    | none ↦ elim (matches endif_line line) [ some _ ↦ at_endif s | none ↦ s ]
  ]
]
