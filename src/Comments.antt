-- ===== src/Comments.antt =====
-- The comments of a file in lab5/cpplint.py: comments over several lines are blanked, and the
-- comments on one line are taken off it.
pub mod Lines
pub mod Loop
pub mod Blanking
mod Examples
use cs.Base.{
  ℕ, zero, suc, ◌+◌, ◌%◌, Bool, true, false, not, ◌&&◌, ◌||◌, Option, none, some, List, [], ◌∷◌,
  ◌++◌, Text, codes, nat_eq, nat_beq, leb, ltb, length, get_or, take, drop, find, starts_with,
  ends_with, strip, right_strip, replace, count_text, if◌then◌else◌,
}
use cs.Re.{
  Pattern, lit, one, ◌⨟◌, ◌∣∣◌, many, some_of, group, space, line_end, ahead, not_ahead, is_word,
  any_char, sub,
}
use cs.Nolint.{Report}

-- `xs.find(p, 2)` finds nothing.
abbrev pub is_none : Option ℕ → Bool
is_none none = true
is_none (some _) = false

-- A comment begins on the line and goes on beyond it.
unfoldable pub begins_comment : Text → Bool
begins_comment line =
    starts_with (strip line) (codes "/*") && is_none (find (drop 2 (strip line)) (codes "*/"))

unfoldable pub ends_comment : Text → Bool
ends_comment line = ends_with (strip line) (codes "*/")

-- The first index from `ix` on at which the test holds, or the number of lines: `rest` is what
-- stands from `ix` on.
unfoldable pub next_index : (Text → Bool) → ℕ → List Text → ℕ
next_index test ix [] = ix
next_index test ix (line ∷ rest) = elim (test line) [
  | true ↦ ix
  | false ↦ next_index test (suc ix) rest
]

-- `FindNextMultiLineCommentStart`, for an index of a line or the number of lines.
unfoldable pub find_next_multi_line_comment_start : List Text → ℕ → ℕ
unfolding next_index
find_next_multi_line_comment_start lines lineix =
    next_index begins_comment lineix (drop lineix lines)

-- `FindNextMultiLineCommentEnd`
unfoldable pub find_next_multi_line_comment_end : List Text → ℕ → ℕ
unfolding next_index
find_next_multi_line_comment_end lines lineix = next_index ends_comment lineix (drop lineix lines)

abbrev pub blank : Text
blank = codes "/**/"

-- `RemoveMultiLineCommentsFromRange`: the lines from `begin` up to `end`, without that one.
unfoldable pub remove_multi_line_comments_from_range : List Text → ℕ → ℕ → List Text
remove_multi_line_comments_from_range [] begin end = []
remove_multi_line_comments_from_range (line ∷ rest) begin zero = line ∷ rest
remove_multi_line_comments_from_range (line ∷ rest) zero (suc end) =
    blank ∷ remove_multi_line_comments_from_range rest zero end
remove_multi_line_comments_from_range (line ∷ rest) (suc begin) (suc end) =
    line ∷ remove_multi_line_comments_from_range rest begin end

abbrev unterminated : ℕ → Report
unterminated linenum = record {
  linenum = linenum;
  category = codes "readability/multiline_comment";
  confidence = 5;
  message = codes "Could not find end of multi-line comment";
}

-- The loop of `RemoveMultiLineComments`, `none` if the fuel runs out.
unfoldable pub remove_loop : ℕ → List Text → ℕ → Option (List Text × List Report)
remove_loop zero lines lineix = none
remove_loop (suc fuel) lines lineix =
    let first = find_next_multi_line_comment_start lines lineix in
    let last = find_next_multi_line_comment_end lines first in
    let again =
      remove_loop fuel (remove_multi_line_comments_from_range lines first (suc last)) (suc last) in
    if leb (length lines) lineix
    then some (lines, [])
    else if leb (length lines) first
    then some (lines, [])
    else if leb (length lines) last
    then some (lines, unterminated (first + 1) ∷ [])
    else again

-- `RemoveMultiLineComments`: the new lines, and what it reports.
unfoldable pub remove_multi_line_comments : List Text → Option (List Text × List Report)
unfolding remove_loop
remove_multi_line_comments lines = remove_loop (suc (length lines)) lines 0

-- `IsCppString`: an odd number of quotes is left. (Python's `-` gives the same parity as `+`.)
unfoldable pub is_cpp_string : Text → Bool
is_cpp_string line =
    let plain = replace (codes "\\\\") (codes "XX") line in
    nat_beq
      ((count_text (codes "\"") plain
          + (count_text (codes "\\\"") plain + count_text (codes "'\"'") plain))
        % 2)
      1

-- `_RE_PATTERN_C_COMMENTS`: `/\*(?:[^*]|\*(?!/))*\*/`
unfoldable pub c_comment : Pattern
c_comment =
    lit (codes "/*")
    ⨟ many (one (λ c. not (nat_beq c b'*')) ∣∣ lit (codes "*") ⨟ not_ahead (lit (codes "/")))
    ⨟ lit (codes "*/")

-- `_RE_PATTERN_CLEANSE_LINE_C_COMMENTS`
unfoldable pub cleanse_line_c_comments : Pattern
unfolding c_comment
cleanse_line_c_comments = group 1 (
    many space ⨟ c_comment ⨟ many space ⨟ line_end
    ∣∣ c_comment ⨟ some_of space
    ∣∣ some_of space ⨟ c_comment ⨟ ahead (one (λ c. not (is_word c)))
    ∣∣ c_comment)

-- The line before a comment of the kind `//`.
unfoldable pub before_comment : Option ℕ → Text → Text
before_comment none line = line
before_comment (some commentpos) line =
    if is_cpp_string (take commentpos line) then line else right_strip (take commentpos line)

-- `CleanseComments`
unfoldable pub cleanse_comments : Text → Text
unfolding before_comment
cleanse_comments line =
    sub cleanse_line_c_comments [] (before_comment (find line (codes "//")) line)
