-- ===== src/Constructs/Examples.antt =====
-- Runs of the checks of constructors, and the theorems about their arguments at concrete texts.
use cs.Base.{◌≡◌, refl, pos, none, some, List, [], ◌∷◌, Text, codes, true, false, All, all_helpers}
use cs.LineChecks.{report}
use cs.Style.Run.{all_style}
use cs.Re.{Found, matches}
use cs.CleansedLines.{CleansedLines, group_text}
use cs.Nesting.{Block, ClassInfo, class_info, NestingState, innermost_class, no_asm}
use cs.LineChecks.Namespaces.{line_at}
use cs.Constructs.{
  constructor, check_for_non_standard_constructs, last_component, is_open_arg, constructor_args,
  check_constructor, check_line,
}
use cs.Constructs.Unclosed.{check_for_non_standard_constructs_open}
use cs.Constructs.Arguments.{join, constructor_args-join}

abbrev map_text : Text
map_text = codes "map<a, b> m, int k"

abbrev map_args : List Text
map_args = codes "map<a, b> m" ∷ codes " int k" ∷ []

split_map : constructor_args map_text ≡ some map_args
unfolding all_helpers constructor_args
split_map = refl

constructor_args-join_example :
    (join map_args ≡ map_text) × All (λ a. is_open_arg a ≡ false) map_args
constructor_args-join_example = constructor_args-join map_text map_args split_map

abbrev foo : ClassInfo
foo = record {
  name = codes "a::Foo";
  is_derived = false;
  access = codes "private";
  is_struct = false;
  class_indent = 0;
  last_line = 2;
}

abbrev block : Block
block = record {
  identity = 0;
  starting_linenum = 1;
  seen_open_brace = true;
  open_parentheses = pos 0;
  inline_asm = no_asm;
  check_namespace_indentation = false;
  kind = class_info foo;
}

abbrev inside : NestingState
inside = record {
  stack = block ∷ [];
  previous_stack_top = some block;
  pp_stack = [];
  next_identity = 1;
}

abbrev source : List Text
source = codes "class a::Foo {" ∷ codes "  explicit Foo(int x = a < b);" ∷ []

abbrev cleansed : CleansedLines
cleansed = record {
  elided = source;
  lines = source;
  raw_lines = source;
  num_lines = 2;
  lines_without_raw_strings = source;
}

abbrev found_constructor : Found
found_constructor = record {
  before = [];
  whole = codes "  explicit Foo(int x = a < b)";
  after = codes ";";
  groups = (2, some (codes "int x = a < b")) ∷ (1, some (codes "explicit ")) ∷ [];
}

is_innermost : innermost_class inside.stack ≡ some block
unfolding innermost_class
is_innermost = refl

is_constructor :
    matches (constructor (last_component [] foo.name)) (line_at cleansed.elided 1)
    ≡ some found_constructor
unfolding all_style constructor last_component
is_constructor = refl

is_unclosed : is_open_arg (group_text found_constructor 2) ≡ true
unfolding all_style constructor is_open_arg
is_unclosed = refl

check_for_non_standard_constructs_open_example :
    check_for_non_standard_constructs cleansed inside 1 ≡ none
check_for_non_standard_constructs_open_example =
    check_for_non_standard_constructs_open cleansed inside 1 block foo found_constructor
      is_innermost refl refl is_constructor is_unclosed

components : last_component [] (codes "a::b::Foo") ≡ codes "Foo"
unfolding last_component
components = refl

single :
    check_constructor 3 (codes "Foo") (codes "  Foo(int x);")
    ≡ some (
        report 3 "runtime/explicit" 5
          (codes "Single-parameter constructors should be marked explicit.")
        ∷ [])
unfolding all_style check_constructor
single = refl

copy : check_constructor 3 (codes "Foo") (codes "  Foo(const Foo& f);") ≡ some []
unfolding all_style check_constructor
copy = refl

zero_explicit :
    check_constructor 3 (codes "Foo") (codes "  explicit Foo(void);")
    ≡ some (
        report 3 "runtime/explicit" 5
          (codes "Zero-parameter constructors should not be marked explicit.")
        ∷ [])
unfolding all_style check_constructor
zero_explicit = refl

index_error : check_constructor 3 (codes "Foo") (codes "  explicit Foo(int x = a < b);") ≡ none
unfolding all_style check_constructor
index_error = refl

storage :
    check_line 3 (codes "int static x;") (codes "int static x;")
    ≡ report 3 "build/storage_class" 5 (
        codes
          "Storage-class specifier (static, extern, typedef, etc) should be at the beginning of the declaration.")
      ∷ []
unfolding all_style check_line
storage = refl
