-- ===== src/Style/Run.antt =====
-- A name that opens the whole of `CheckStyle` at once, for tests.
use cs.Re.{all_patterns}
use cs.Re.Short.{all_short}
use cs.LineChecks.Comment.{
  todo, outside_strings, is_code, after_brace, is_too_close, check_todo, words_of_comment, doxygen,
  check_text_of_comment, check_comment,
}
use cs.Spacing.{
  is_blank_line, opens_block, six_spaces, search_position, last_of_header, is_exception,
  closes_block, access_label, check_blank_line, space_before_bracket, tight_for_colon,
  check_spacing, tight_comma, check_comma_spacing,
}
use cs.Spacing.Calls.{
  tight_statement, statement, open_for, is_mismatch, report_inside, check_parenthesis_spacing,
  controls, call_text, control_word, function_pointer, array_pointer, space_in_call,
  space_after_open, asm_volatile, definition, member_pointer, space_before_call, report_open,
  report_close, check_spacing_for_function_call,
}
use cs.Spacing.Operators.{
  operator_method, underscores, hide_operator, hide_operators, tight_equals, compound_equals,
  missing_around_equals, tight_comparison, tight_less, tight_greater, check_less, check_greater,
  check_comparisons, tight_shift, all_digits, check_shift, shift_before_word, spaced_unary,
  check_unary, check_hidden, check_operator_spacing,
}
use cs.Spacing.Braces.{
  last_word, types, first_line, any_line, declared_in, token_of, is_type, tight_brace, joined,
  trailing_text, trails, check_opening_brace, check_last_semicolon, check_braces_spacing,
  is_decltype, class_head_end, needs_blank_line, check_section_spacing, get_previous_non_blank_line,
}
use cs.Statements.Braces.{
  misplaced_brace, else_after_brace, condition_start, check_else_if, brace_on_one_side,
  check_else_braces, else_with_clause, next_semicolon, last_semicolon, lambda, check_dedent,
  check_statement, has_block, check_body, if_or_else, check_single_statement, check_braces,
}
use cs.Statements.Semicolons.{
  after_parenthesis, macro_name, is_lambda, needs_semicolon, bracket_above, parenthesis_case,
  after_else_or_const, leading_brace, other_cases, find_brace, report_semicolon,
  check_trailing_semicolon,
}
use cs.Statements.Bodies.{
  loop_or_if, find_opening, join_lines, body_text, else_follows, check_if_closed, check_if_body,
  check_condition_end, check_empty_block_body,
}
use cs.Statements.CheckMacros.{
  check_replacement, find_check_macro, token_first, operand_first, character_first, parenthesized,
  token_round, operand_round, round, operands, match_constant, is_replaceable, expression_of,
  check_macro_at, check_check,
}
use cs.Statements.Tokens.{
  alt_token, find_all, report_tokens, check_alt_tokens, total_width, get_line_width,
}
use cs.Style.{
  initial_spaces, scope_or_label_pattern, weird_indent, ends_in_space, may_be_long, is_header_guard,
  several_commands, in_turn, is_too_long, check_layout, check_style,
}
use cs.Brackets.{
  operator_before, after_operator, drop_angles, less_than, close_bracket, greater_than, end_step,
  scan_end, find_end_of_expression_in_line, close_below, shift_or_compare, close_from, close_at,
  close_expression,
}
use cs.Brackets.Reverse.{
  spaced_compare, start_greater, start_less, open_bracket, start_step, scan_start,
  find_start_of_expression_in_line, close_above, reverse_from, reverse_at, reverse_close_expression,
}
use cs.Comments.{
  begins_comment, ends_comment, next_index, find_next_multi_line_comment_start,
  find_next_multi_line_comment_end, remove_multi_line_comments_from_range, remove_loop,
  remove_multi_line_comments, is_cpp_string, c_comment, cleanse_line_c_comments, before_comment,
  cleanse_comments,
}
use cs.Paths.{after_last}
use cs.FileChecks.{indent, get_indent_level}
use cs.Nesting.{in_namespace_body, in_extern_c, innermost_class}

unfoldable pub all_style : Unit {0}
unfolding all_patterns all_short todo outside_strings is_code after_brace is_too_close check_todo
    words_of_comment doxygen check_text_of_comment check_comment is_blank_line opens_block
    six_spaces search_position last_of_header is_exception closes_block access_label
    check_blank_line space_before_bracket tight_for_colon check_spacing tight_comma
    check_comma_spacing tight_statement statement open_for is_mismatch report_inside
    check_parenthesis_spacing controls call_text control_word function_pointer array_pointer
    space_in_call space_after_open asm_volatile definition member_pointer space_before_call
    report_open report_close check_spacing_for_function_call operator_method underscores
    hide_operator hide_operators tight_equals compound_equals missing_around_equals tight_comparison
    tight_less tight_greater check_less check_greater check_comparisons tight_shift all_digits
    check_shift shift_before_word spaced_unary check_unary check_hidden check_operator_spacing
    last_word types first_line any_line declared_in token_of is_type tight_brace joined
    trailing_text trails check_opening_brace check_last_semicolon check_braces_spacing is_decltype
    class_head_end needs_blank_line check_section_spacing get_previous_non_blank_line
    misplaced_brace else_after_brace condition_start check_else_if brace_on_one_side
    check_else_braces else_with_clause next_semicolon last_semicolon lambda check_dedent
    check_statement has_block check_body if_or_else check_single_statement check_braces
    after_parenthesis macro_name is_lambda needs_semicolon bracket_above parenthesis_case
    after_else_or_const leading_brace other_cases find_brace report_semicolon
    check_trailing_semicolon loop_or_if find_opening join_lines body_text else_follows
    check_if_closed check_if_body check_condition_end check_empty_block_body check_replacement
    find_check_macro token_first operand_first character_first parenthesized token_round
    operand_round round operands match_constant is_replaceable expression_of check_macro_at
    check_check alt_token find_all report_tokens check_alt_tokens total_width get_line_width
    initial_spaces scope_or_label_pattern weird_indent ends_in_space may_be_long is_header_guard
    several_commands in_turn is_too_long check_layout check_style operator_before after_operator
    drop_angles less_than close_bracket greater_than end_step scan_end
    find_end_of_expression_in_line close_below shift_or_compare close_from close_at close_expression
    spaced_compare start_greater start_less open_bracket start_step scan_start
    find_start_of_expression_in_line close_above reverse_from reverse_at reverse_close_expression
    begins_comment ends_comment next_index find_next_multi_line_comment_start
    find_next_multi_line_comment_end remove_multi_line_comments_from_range remove_loop
    remove_multi_line_comments is_cpp_string c_comment cleanse_line_c_comments before_comment
    cleanse_comments after_last indent get_indent_level in_namespace_body in_extern_c
    innermost_class
all_style = tt
