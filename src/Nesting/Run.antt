-- ===== src/Nesting/Run.antt =====
-- A name that opens all of the nesting of blocks at once, for tests.
use cs.FileChecks.{get_indent_level, indent}
use cs.Nesting.{
  seen_open_brace, innermost_class, check_completed_blocks, deep_copy, if_line, else_line,
  endif_line, at_if, at_else, at_endif, update_preprocessor,
}
use cs.Nesting.Blocks.{
  count_change, last_line_from, class_block, bare_colon, check_begin, disallow_macro, blank_line,
  check_macro, closing_indent, class_end,
}
use cs.Nesting.Namespaces.{
  any_namespace_comment, named_comment, anonymous_comment, anonymous_words, namespace_end,
  check_end,
}
use cs.Nesting.Templates.{
  template_token, verdict, token_round, template_round, template_loop, weight,
  in_template_argument_list,
}
use cs.Nesting.Openings.{
  push, pop, modify_top, match_asm, next_asm, count_parentheses, namespace_decl, open_namespace,
  namespace_loop, class_decl, open_class, begin_block,
}
use cs.Nesting.Update.{
  access_pattern, check_access, access_control, next_token, extern_block, opened_block, open_brace,
  drop_declaration, close_brace, at_token, brace_loop, update_blocks, enter_line, update,
}

unfoldable pub all_nesting : Unit {0}
unfolding seen_open_brace innermost_class check_completed_blocks deep_copy if_line else_line
    endif_line at_if at_else at_endif update_preprocessor get_indent_level indent count_change
    last_line_from class_block bare_colon check_begin disallow_macro blank_line check_macro
    closing_indent class_end any_namespace_comment named_comment anonymous_comment anonymous_words
    namespace_end check_end template_token verdict token_round template_round template_loop weight
    in_template_argument_list push pop modify_top match_asm next_asm count_parentheses
    namespace_decl open_namespace namespace_loop class_decl open_class begin_block access_pattern
    check_access access_control next_token extern_block opened_block open_brace drop_declaration
    close_brace at_token brace_loop update_blocks enter_line update
all_nesting = tt
