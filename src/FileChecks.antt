-- ===== src/FileChecks.antt =====
-- The checks of lab5/cpplint.py that look at the lines of a file as they stand: the copyright
-- notice, bad characters and the last newline, with `GetIndentLevel`. `ProcessFileData` puts a
-- marker before and after the lines.
pub mod Lines
pub mod Newline
mod Examples
use cs.Base.{
  ℕ, zero, suc, ◌+◌, ◌-◌, Bool, true, false, not, ◌&&◌, ◌||◌, Option, none, some, List, [], ◌∷◌,
  ◌++◌, Text, codes, contains, nat_beq, nat_eq, lower_char, ltb, leb, length, get_elem?, take, drop,
  is_space, if◌then◌else◌,
}
use cs.Re.{Pattern, one, ◌⨟◌, many, group, space, line_start, group_of, matches, search_in}
use cs.Nolint.{Report}

-- The lines of a file as `ProcessFileData` passes them on.
abbrev pub marked : List Text → List Text
marked lines =
    codes "// marker so line numbers and indices both start at 1"
    ∷ (lines ++ codes "// marker so line numbers end in a known way" ∷ [])

-- A literal in any case, for `re.I`; its letters are small.
unfoldable pub any_case : Text → Pattern
any_case [] s k = k s
any_case (c ∷ cs) s k = one (λ d. nat_beq (lower_char d) c) s (λ s'. any_case cs s' k)

unfoldable pub has_copyright : Text → Bool
has_copyright line = elim (search_in (any_case (codes "copyright")) line) [
  | none ↦ false
  | some _ ↦ true
]

unfoldable pub some_copyright : List Text → Bool
some_copyright [] = false
some_copyright (line ∷ lines) = has_copyright line || some_copyright lines

abbrev pub no_copyright : Report
no_copyright = record {
  linenum = 0;
  category = codes "legal/copyright";
  confidence = 5;
  message =
      codes
        "No copyright message found.  You should have a line: \"Copyright [year] <Copyright Owner>\"";
}

-- `CheckForCopyright`, on the lines 1 to 10.
unfoldable pub check_for_copyright : List Text → List Report
unfolding some_copyright
check_for_copyright lines =
    if some_copyright (take 10 (drop 1 lines)) then [] else no_copyright ∷ []

-- `^( *)\S`
unfoldable pub indent : Pattern
indent = line_start ⨟ group 1 (many (one (λ c. nat_beq c 32))) ⨟ one (λ c. not (is_space c))

-- `GetIndentLevel`
unfoldable pub get_indent_level : Text → ℕ
get_indent_level line = elim (matches indent line) [
  | none ↦ 0
  | some f ↦ elim (group_of f 1) [ none ↦ 0 | some t ↦ length t ]
]

abbrev pub invalid_utf8 : ℕ → Report
invalid_utf8 linenum = record {
  linenum = linenum;
  category = codes "readability/utf8";
  confidence = 5;
  message = codes "Line contains invalid UTF-8 (or Unicode replacement character).";
}

abbrev pub nul_byte : ℕ → Report
nul_byte linenum = record {
  linenum = linenum;
  category = codes "readability/nul";
  confidence = 5;
  message = codes "Line contains NUL byte.";
}

unfoldable pub bad_characters_of : ℕ → Text → List Report
bad_characters_of linenum line =
    (if contains line 65533 then invalid_utf8 linenum ∷ [] else [])
    ++ (if contains line 0 then nul_byte linenum ∷ [] else [])

unfoldable pub bad_characters_from : ℕ → List Text → List Report
unfolding bad_characters_of
bad_characters_from linenum [] = []
bad_characters_from linenum (line ∷ lines) =
    bad_characters_of linenum line ++ bad_characters_from (suc linenum) lines

-- `CheckForBadCharacters`
unfoldable pub check_for_bad_characters : List Text → List Report
unfolding bad_characters_from
check_for_bad_characters lines = bad_characters_from 0 lines

abbrev pub no_newline : ℕ → Report
no_newline linenum = record {
  linenum = linenum;
  category = codes "whitespace/ending_newline";
  confidence = 5;
  message = codes "Could not find a newline character at the end of the file.";
}

abbrev pub is_nonempty : Option Text → Bool
is_nonempty (some (_ ∷ _)) = true
is_nonempty _ = false

-- `CheckForNewlineAtEOF`. The caller passes the two markers at least, so the number of the line is
-- never negative.
unfoldable pub check_for_newline_at_eof : List Text → List Report
check_for_newline_at_eof lines =
    if ltb (length lines) 3 || is_nonempty (get_elem? lines (length lines - 2))
    then no_newline (length lines - 2) ∷ []
    else []
