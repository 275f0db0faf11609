-- ===== src/Statements/Tokens.antt =====
-- `CheckAltTokens` and `GetLineWidth` of lab5/cpplint.py.
use cs.Base.{
  has, ℕ, zero, suc, ◌+◌, ◌-◌, Bool, not, ◌||◌, Option, none, some, List, [], ◌∷◌, ◌++◌, Text,
  codes, lookup_or, text_eq, length, if◌then◌else◌,
}
use cs.Re.{Pattern, Found, ◌⨟◌, ◌∣∣◌, group, ahead, line_start, line_end, match_at, taken}
use cs.Re.Short.{chr, char_in, blanks, any_of, starts_at}
use cs.CleansedLines.{group_text}
use cs.Nolint.{Report}
use cs.LineChecks.{report}

-- `_ALT_TOKEN_REPLACEMENT`
abbrev pub alt_token_replacement : List (Text × Text)
alt_token_replacement =
    (codes "and", codes "&&")
    ∷ (codes "bitor", codes "|")
    ∷ (codes "or", codes "||")
    ∷ (codes "xor", codes "^")
    ∷ (codes "compl", codes "~")
    ∷ (codes "bitand", codes "&")
    ∷ (codes "and_eq", codes "&=")
    ∷ (codes "or_eq", codes "|=")
    ∷ (codes "xor_eq", codes "^=")
    ∷ (codes "not", codes "!")
    ∷ (codes "not_eq", codes "!=")
    ∷ []

-- `_ALT_TOKEN_REPLACEMENT_PATTERN`: `[ =()](…)(?=[ (]|$)`, with the keys for `…`.
unfoldable pub alt_token : Pattern
alt_token =
    char_in " =()"
    ⨟ group 1 (
        any_of (
          "and" ∷ "bitor" ∷ "or" ∷ "xor" ∷ "compl" ∷ "bitand" ∷ "and_eq" ∷ "or_eq" ∷ "xor_eq"
          ∷ "not" ∷ "not_eq" ∷ []))
    ⨟ ahead (char_in " (" ∣∣ line_end)

abbrev length_of : Option Found → ℕ
length_of none = 0
length_of (some f) = length f.whole

abbrev pub and_then : Option Found → List Found → List Found
and_then none fs = fs
and_then (some f) fs = f ∷ fs

-- `finditer`, of a pattern that does not match the empty text; `skip` characters belong to the
-- last match.
unfoldable pub find_all : Pattern → ℕ → Text → Text → List Found
unfolding taken
find_all m skip past [] = []
find_all m (suc skip) past (c ∷ rest) = find_all m skip (c ∷ past) rest
find_all m zero past (c ∷ rest) =
    let here = match_at m (record { past = past; rest = c ∷ rest; groups = [] }) in
    and_then here (find_all m (length_of here - 1) (c ∷ past) rest)

unfoldable pub report_tokens : ℕ → List Found → List Report
report_tokens linenum [] = []
report_tokens linenum (match ∷ rest) =
    let token = group_text match 1 in
    report linenum "readability/alt_tokens" 2 (
      codes "Use operator "
      ++ lookup_or [] token alt_token_replacement
      ++ codes " instead of "
      ++ token)
    ∷ report_tokens linenum rest

-- `CheckAltTokens`
unfoldable pub check_alt_tokens : ℕ → Text → List Report
unfolding alt_token find_all report_tokens
check_alt_tokens linenum line =
    if starts_at (line_start ⨟ blanks ⨟ chr b'#') line
    then []
    else if has line (codes "/*") || has line (codes "*/")
    then []
    else report_tokens linenum (find_all alt_token 0 [] line)

-- `GetLineWidth` of a Unicode string. What the module `unicodedata` says is a parameter: the
-- normal form NFC, a width that is W or F, and a combining character.
module _ (normalize : Text → Text) (is_wide combining : ℕ → Bool) where
  unfoldable pub total_width : Text → ℕ
  total_width [] = 0
  total_width (uc ∷ rest) =
      (if is_wide uc then 2 else if not (combining uc) then 1 else 0) + total_width rest

  unfoldable pub get_line_width : Text → ℕ
  unfolding total_width
  get_line_width line = total_width (normalize line)
