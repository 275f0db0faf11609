-- ===== src/LineChecks/Examples.antt =====
-- Runs of the checks of a line.
use cs.Base.{
  ltb, nat_beq, count_text, pos, ◌%◌, ◌↔◌, ◌⊎◌, ℕ, Bool, true, false, List, ◌≡◌, refl, some, [],
  ◌∷◌, ◌++◌, length, codes, Text,
}
use cs.Re.{all_patterns}
use cs.Re.Short.{all_short}
use cs.LineChecks.{
  report_if, threading_list, check_threading_rows, check_posix_threading,
  check_for_multiline_comments_and_strings, odd_quotes, without_backslash_pairs, multiline_string,
  multiline_comment, unsafe_func_prefix, check_vlog_arguments, symbolic_vlog,
  check_invalid_increment, invalid_increment, check_make_pair_uses_deduction, explicit_makepair,
}
use cs.Nesting.{Block, Kind, plain, namespace_info, NestingState, no_asm}
use cs.LineChecks.Quotes.{unescaped_quotes, check_for_multiline_strings}
use cs.LineChecks.Namespaces.{
  check_for_namespace_indentation, is_namespace_indent_item, should_check_namespace_indentation,
  check_item_indentation_in_namespace, is_macro_definition, define_line, continued, after_continued,
  is_forward_class_declaration, forward_class, is_block_in_name_space, indented_in_namespace,
  line_at,
}
use cs.LineChecks.Indentation.{IsItem, begins_with_space, check_for_namespace_indentation_iff}
use cs.LineChecks.Virtual.{
  check_redundant_virtual, redundant_virtual, virtual_word, near_access, single_colon,
  find_parameters, specifiers, override_or_final, ends_in_nonword, parameter_list,
  check_redundant_override_or_final, redundant_override, from_last_parenthesis,
}
use cs.LineChecks.Features.{
  flag_cxx11_features, flag_cxx14_features, included, is_other_directive, report_names,
}
use cs.LineChecks.Comment.{
  check_comment, todo, outside_strings, is_too_close, is_code, after_brace, check_todo,
  words_of_comment, doxygen, check_text_of_comment,
}
use cs.Brackets.{
  close_expression, close_at, close_from, close_below, find_end_of_expression_in_line, scan_end,
  end_step, less_than, close_bracket, greater_than, drop_angles, after_operator, operator_before,
  shift_or_compare,
}
use cs.Paths.{after_last}

open_string :
    check_for_multiline_comments_and_strings 4 (codes "x = \"a\\\\\\\" /* b;")
    ≡ multiline_comment 4 ∷ multiline_string 4 ∷ []
unfolding check_for_multiline_comments_and_strings without_backslash_pairs odd_quotes all_patterns
open_string = refl

threads : length (check_posix_threading 4 (codes "x = rand() + ctime(&t) + a->rand();")) ≡ 2
unfolding check_posix_threading check_threading_rows threading_list unsafe_func_prefix all_patterns
    all_short
threads = refl

logs : length (check_vlog_arguments 1 (codes "  VLOG(DFATAL) << 1;")) ≡ 1
unfolding check_vlog_arguments symbolic_vlog all_patterns all_short
logs = refl

increments : length (check_invalid_increment 1 (codes "  *count++;")) ≡ 1
unfolding check_invalid_increment invalid_increment all_patterns all_short
increments = refl

pairs : length (check_make_pair_uses_deduction 1 (codes "  x = make_pair <int>(1)")) ≡ 1
unfolding check_make_pair_uses_deduction explicit_makepair all_patterns all_short
pairs = refl

virtuals :
    check_redundant_virtual
      (codes "" ∷ codes "  virtual void f(int a," ∷ codes "  int b) const override;" ∷ [])
      1
    ≡ some (redundant_virtual 1 (codes "override") ∷ [])
unfolding check_redundant_virtual virtual_word near_access single_colon find_parameters specifiers
    override_or_final ends_in_nonword parameter_list all_patterns all_short close_expression
    close_at close_from close_below find_end_of_expression_in_line scan_end end_step less_than
    close_bracket greater_than drop_angles after_operator operator_before shift_or_compare
virtuals = refl

overrides :
    check_redundant_override_or_final (codes "" ∷ codes "  void f(int a) override final;" ∷ []) 1
    ≡ redundant_override 1 ∷ []
unfolding check_redundant_override_or_final from_last_parenthesis after_last all_patterns all_short
overrides = refl

features :
    length (
      flag_cxx11_features 1 (codes "#include <chrono>")
      ++ flag_cxx11_features 1 (codes "std::alignment_of<T> a;")
      ++ flag_cxx14_features 1 (codes "#include <shared_mutex>"))
    ≡ 3
unfolding flag_cxx11_features flag_cxx14_features included is_other_directive report_names
    all_patterns all_short
features = refl

comments : length (check_comment (codes "int a; //  TODO:x") 1 0) ≡ 4
unfolding check_comment todo outside_strings is_too_close is_code after_brace check_todo
    words_of_comment doxygen check_text_of_comment all_patterns all_short
comments = refl

check_for_multiline_strings_example :
    check_for_multiline_comments_and_strings 4 (codes "x = \"a\\\"")
    ≡ report_if
        (ltb
          (count_text (codes "*/") (without_backslash_pairs (codes "x = \"a\\\"")))
          (count_text (codes "/*") (without_backslash_pairs (codes "x = \"a\\\""))))
        (multiline_comment 4)
      ++ report_if
          (nat_beq (unescaped_quotes false (codes "x = \"a\\\"") % 2) 1)
          (multiline_string 4)
check_for_multiline_strings_example = check_for_multiline_strings 4 (codes "x = \"a\\\"")

abbrev block : Kind → ℕ → Bool → Block
block kind identity checks = record {
  identity = identity;
  starting_linenum = identity;
  seen_open_brace = true;
  open_parentheses = pos 0;
  inline_asm = no_asm;
  check_namespace_indentation = checks;
  kind = kind;
}

abbrev space : Block
space = block (namespace_info (codes "a")) 0 true

-- A class has just been opened in a namespace.
abbrev opened : NestingState
opened = record {
  stack = block plain 1 true ∷ space ∷ [];
  previous_stack_top = some space;
  pp_stack = [];
  next_identity = 2;
}

abbrev source : List Text
source = codes "namespace a {" ∷ codes " class A {" ∷ []

check_for_namespace_indentation_iff_example :
    ((check_for_namespace_indentation opened source 1 ≡ indented_in_namespace 1 ∷ [])
      ↔ (IsItem opened source 1 × (begins_with_space (line_at source 1) ≡ true)))
    × ((check_for_namespace_indentation opened source 1 ≡ [])
        ⊎ (check_for_namespace_indentation opened source 1 ≡ indented_in_namespace 1 ∷ []))
check_for_namespace_indentation_iff_example = check_for_namespace_indentation_iff opened source 1

indented : check_for_namespace_indentation opened source 1 ≡ indented_in_namespace 1 ∷ []
unfolding check_for_namespace_indentation is_namespace_indent_item
    should_check_namespace_indentation check_item_indentation_in_namespace is_macro_definition
    define_line continued after_continued is_forward_class_declaration forward_class
    is_block_in_name_space all_patterns all_short
indented = refl
