-- ===== src/LineChecks/Namespaces.antt =====
-- `CheckForNamespaceIndentation` of lab5/cpplint.py with the functions that it calls. The stack of
-- the nesting state has its top first.
use cs.Base.{
  ℕ, zero, suc, Bool, false, not, ◌&&◌, ◌||◌, Option, none, some, List, [], ◌∷◌, Text, nat_beq,
  codes, get_or, if◌then◌else◌,
}
use cs.Re.{Pattern, ◌⨟◌, many, group, boundary, line_start, line_end}
use cs.Re.Short.{str, chr, blanks, blanks1, word, anything, found, starts_at}
use cs.Nolint.{Report}
use cs.Nesting.{Block, NestingState, is_namespace, in_namespace_body}
use cs.LineChecks.{report, report_if}

-- `clean_lines[linenum]`, for a number within the file.
abbrev pub line_at : List Text → ℕ → Text
line_at lines linenum = get_or lines linenum []

-- `^#define` and `\\$`
unfoldable pub define_line : Pattern
define_line = line_start ⨟ str "#define"

unfoldable pub continued : Pattern
continued = chr 92 ⨟ line_end

-- `linenum > 0 and Search(r'\\$', clean_lines[linenum - 1])`
unfoldable pub after_continued : List Text → ℕ → Bool
after_continued lines zero = false
after_continued lines (suc before) = found continued (line_at lines before)

-- `IsMacroDefinition`
unfoldable pub is_macro_definition : List Text → ℕ → Bool
unfolding after_continued
is_macro_definition lines linenum =
    found define_line (line_at lines linenum) || after_continued lines linenum

-- `^\s*(\btemplate\b)*.*class\s+\w+;\s*$`
unfoldable pub forward_class : Pattern
forward_class =
    line_start
    ⨟ blanks
    ⨟ many (group 1 (boundary ⨟ str "template" ⨟ boundary))
    ⨟ anything
    ⨟ str "class"
    ⨟ blanks1
    ⨟ word
    ⨟ chr b';'
    ⨟ blanks
    ⨟ line_end

-- `IsForwardClassDeclaration`
unfoldable pub is_forward_class_declaration : List Text → ℕ → Bool
is_forward_class_declaration lines linenum = starts_at forward_class (line_at lines linenum)

-- The stack has two blocks, the upper one checks the indentation, and the lower one passes a test.
abbrev pub second_block : (Block → Bool) → List Block → Bool
second_block test (b ∷ below ∷ rest) = b.check_namespace_indentation && test below
second_block test _ = false

-- `IsBlockInNameSpace`
unfoldable pub is_block_in_name_space : NestingState → Bool → Bool
is_block_in_name_space nesting_state is_forward_declaration =
    if is_forward_declaration
    then in_namespace_body nesting_state
    else second_block (λ b. is_namespace b.kind) nesting_state.stack

-- `isinstance(previous_stack_top, _NamespaceInfo) and previous_stack_top == stack[-2]`, an identity
-- of objects.
abbrev pub is_previous_top : Option Block → Block → Bool
is_previous_top none b = false
is_previous_top (some previous) b =
    is_namespace previous.kind && nat_beq previous.identity b.identity

unfoldable pub is_namespace_indent_item : NestingState → Bool
is_namespace_indent_item nesting_state =
    second_block (is_previous_top nesting_state.previous_stack_top) nesting_state.stack

-- `ShouldCheckNamespaceIndentation`
unfoldable pub should_check_namespace_indentation : NestingState → Bool → List Text → ℕ → Bool
unfolding is_block_in_name_space
should_check_namespace_indentation nesting_state indent_item raw_lines_no_comments linenum =
    let is_forward_declaration = is_forward_class_declaration raw_lines_no_comments linenum in
    if not (indent_item || is_forward_declaration)
    then false
    else if is_macro_definition raw_lines_no_comments linenum
    then false
    else is_block_in_name_space nesting_state is_forward_declaration

abbrev pub indented_in_namespace : ℕ → Report
indented_in_namespace linenum =
    report linenum "runtime/indentation_namespace" 4 (codes "Do not indent within a namespace")

-- `CheckItemIndentationInNamespace`: `^\s+`
unfoldable pub check_item_indentation_in_namespace : List Text → ℕ → List Report
check_item_indentation_in_namespace raw_lines_no_comments linenum =
    report_if (starts_at (line_start ⨟ blanks1) (line_at raw_lines_no_comments linenum))
      (indented_in_namespace linenum)

-- `CheckForNamespaceIndentation`
unfoldable pub check_for_namespace_indentation : NestingState → List Text → ℕ → List Report
unfolding is_namespace_indent_item should_check_namespace_indentation
    check_item_indentation_in_namespace
check_for_namespace_indentation nesting_state elided line =
    if should_check_namespace_indentation nesting_state (is_namespace_indent_item nesting_state)
      elided line
    then check_item_indentation_in_namespace elided line
    else []
