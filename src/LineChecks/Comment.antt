-- ===== src/LineChecks/Comment.antt =====
-- `CheckComment` of lab5/cpplint.py, on a line in which comments still stand.
use cs.Base.{
  ℕ, ◌-◌, ◌%◌, Bool, true, false, not, ◌&&◌, ◌||◌, Option, none, some, List, [], ◌∷◌, ◌++◌, Text,
  codes, nat_beq, ltb, leb, text_eq, ◌==◌, option_eq, count_text, find, take, drop, get_elem?,
  length, is_space, if◌then◌else◌,
}
use cs.Re.{
  Pattern, Found, one, ◌⨟◌, ◌∣∣◌, optional, lazy_many, many, group, any_char, line_start, line_end,
  group_of, matches, sub,
}
use cs.Re.Short.{str, chr, char_not_in, blanks, blanks1, word_char, anything, starts_at}
use cs.CleansedLines.{group_text}
use cs.Nolint.{Report}
use cs.LineChecks.{report, report_if}

-- `_RE_PATTERN_TODO`: `^//(\s*)TODO(\(.+?\))?:?(\s|$)?`
unfoldable pub todo : Pattern
todo =
    line_start
    ⨟ str "//"
    ⨟ group 1 blanks
    ⨟ str "TODO"
    ⨟ optional (group 2 (chr b'(' ⨟ one any_char ⨟ lazy_many (one any_char) ⨟ chr b')'))
    ⨟ optional (chr b':')
    ⨟ optional (group 3 (one is_space ∣∣ line_end))

-- `re.sub(r'\\.', '', s).count('"') % 2 == 0`: the position is not in a string.
unfoldable pub outside_strings : Text → Bool
outside_strings s = nat_beq (count_text (codes "\"") (sub (chr 92 ⨟ one any_char) [] s) % 2) 0

-- `commentpos >= k and line[commentpos - k] not in string.whitespace`
unfoldable pub is_code : Text → ℕ → ℕ → Bool
is_code line commentpos k =
    leb k commentpos
    && elim (get_elem? line (commentpos - k)) [ none ↦ false | some c ↦ not (is_space c) ]

-- `^.*{ *//`
unfoldable pub after_brace : Pattern
after_brace = line_start ⨟ anything ⨟ chr b'{' ⨟ many (chr 32) ⨟ str "//"

unfoldable pub is_too_close : Text → ℕ → ℕ → Bool
unfolding is_code after_brace
is_too_close line commentpos next_line_start =
    not (starts_at after_brace line && nat_beq next_line_start commentpos)
    && (is_code line commentpos 1 || is_code line commentpos 2)

abbrev is_empty_group : Option Text → Bool
is_empty_group none = true
is_empty_group (some []) = true
is_empty_group (some (_ ∷ _)) = false

-- The reports on a TODO comment. A group that took no part in the match is None in the source.
unfoldable pub check_todo : ℕ → Option Found → List Report
check_todo linenum none = []
check_todo linenum (some match) =
    report_if (ltb 1 (length (group_text match 1)))
      (report linenum "whitespace/todo" 2 (codes "Too many spaces before TODO"))
    ++ report_if (is_empty_group (group_of match 2)) (
        report linenum "readability/todo" 2
          (codes "Missing username in TODO; it should look like \"// TODO(my_username): Stuff.\""))
    ++ report_if (not (group_of match 3 == some (codes " ")) && not (group_of match 3 == some [])) (
        report linenum "whitespace/todo" 2
          (codes "TODO(my_username) should be followed by a space"))

-- `//[^ ]*\w` and `(///|//\!)(\s+|$)`
unfoldable pub words_of_comment : Pattern
words_of_comment = str "//" ⨟ many (char_not_in " ") ⨟ word_char

unfoldable pub doxygen : Pattern
doxygen = group 1 (str "///" ∣∣ str "//!") ⨟ group 2 (blanks1 ∣∣ line_end)

unfoldable pub check_text_of_comment : ℕ → Text → List Report
unfolding words_of_comment doxygen
check_text_of_comment linenum comment =
    report_if (starts_at words_of_comment comment && not (starts_at doxygen comment))
      (report linenum "whitespace/comments" 4 (codes "Should have a space between // and comment"))

-- `CheckComment`
unfoldable pub check_comment : Text → ℕ → ℕ → List Report
unfolding todo outside_strings is_too_close check_todo check_text_of_comment
check_comment line linenum next_line_start = elim (find line (codes "//")) [
  | none ↦ []
  | some commentpos ↦
      if outside_strings (take commentpos line)
      then report_if (is_too_close line commentpos next_line_start) (
          report linenum "whitespace/comments" 2
            (codes "At least two spaces is best between code and comments"))
        ++ check_todo linenum (matches todo (drop commentpos line))
        ++ check_text_of_comment linenum (drop commentpos line)
      else []
]
