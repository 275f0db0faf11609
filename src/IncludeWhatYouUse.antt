-- ===== src/IncludeWhatYouUse.antt =====
-- `CheckForIncludeWhatYouUse` of lab5/cpplint.py: the headers that a file needs, and those that it
-- and its own header include. `io.open` is the parameter `read_file`: the lines of a file, or `none`
-- for an IOError. A dictionary is listed in the order of insertion, and its keys are copied before
-- the loop over them, as in Python 2.
pub mod Tables
pub mod Headers
pub mod Growth
pub mod Missing
mod Examples
use cs.Base.{
  ℕ, zero, suc, ◌+◌, Bool, true, false, not, ◌&&◌, ◌||◌, Option, none, some, List, [], ◌∷◌, ◌++◌,
  Text, codes, map, contains, nat_beq, nat_eq, text_eq, ◌==◌, starts_with, ends_with, reversed,
  update, if◌then◌else◌,
}
use cs.Re.{
  Pattern, Found, one, lit, ◌⨟◌, ◌∣∣◌, optional, many, lazy_many, group, space, any_char, boundary,
  line_end, search_in, sub,
}
use cs.Nolint.{Report}
use cs.CleansedLines.{CleansedLines, group_text}
use cs.Comments.{cleanse_comments}
use cs.Includes.{include_pattern}
use cs.IncludeState.{IncludeState}
use cs.Modules.{files_belong_to_same_module}
use cs.HeaderGuard.{full_name}

-- A key is there.
unfoldable pub has_key : Text → List (Text × ℕ) → Bool
has_key k [] = false
has_key k ((j, n) ∷ d) = (j == k) || has_key k d

-- `d.setdefault(k, n)`
unfoldable pub set_default : Text → ℕ → List (Text × ℕ) → List (Text × ℕ)
unfolding has_key
set_default k n d = if has_key k d then d else d ++ (k, n) ∷ []

-- `d[k] = n`
unfoldable pub put : Text → ℕ → List (Text × ℕ) → List (Text × ℕ)
put k n = update 0 k (λ _. n)

-- The loop of `UpdateIncludeState` over the lines of a header, counted from one.
unfoldable pub include_lines : ℕ → List Text → List (Text × ℕ) → List (Text × ℕ)
unfolding set_default
include_lines linenum [] d = d
include_lines linenum (line ∷ rest) d = elim (search_in include_pattern (cleanse_comments line)) [
  | none ↦ include_lines (suc linenum) rest d
  | some f ↦ include_lines (suc linenum) rest (set_default (group_text f 2) linenum d)
]

-- `dict` of the items of the sections of `include_list`.
unfoldable pub section_items : List (Text × ℕ) → List (Text × ℕ) → List (Text × ℕ)
unfolding put
section_items [] d = d
section_items ((header, linenum) ∷ rest) d = section_items rest (put header linenum d)

unfoldable pub all_items : List (List (Text × ℕ)) → List (Text × ℕ) → List (Text × ℕ)
unfolding section_items
all_items [] d = d
all_items (section ∷ rest) d = all_items rest (section_items section d)

-- `_flymake\.cc$`
unfoldable pub flymake_source : Pattern
flymake_source = lit (codes "_flymake.cc") ⨟ line_end

-- `s.strip('<>"')`
unfoldable pub left_strip_marks : Text → Text
left_strip_marks [] = []
left_strip_marks (c ∷ s) = if contains (codes "<>\"") c then left_strip_marks s else c ∷ s

unfoldable pub strip_marks : Text → Text
unfolding left_strip_marks
strip_marks s = reversed (left_strip_marks (reversed (left_strip_marks s)))

abbrev pub key : Text × ℕ → Text
key (k, n) = k

-- A header that is required, with the line and the name that require it.
pub record Required : Type 0 where
  pub header : Text
  pub linenum : ℕ
  pub template : Text

-- `required[header] = (linenum, template)`
unfoldable pub require : Text → ℕ → Text → List Required → List Required
require header linenum template [] =
    record { header = header; linenum = linenum; template = template } ∷ []
require header linenum template (r ∷ rest) =
    if r.header == header
    then record r { linenum = linenum; template = template } ∷ rest
    else r ∷ require header linenum template rest

-- The name is not that of another namespace than std.
unfoldable pub of_std : Text → Bool
of_std prefix = ends_with prefix (codes "std::") || not (ends_with prefix (codes "::"))

-- The headers that are not included.
unfoldable pub missing : List Required → List (Text × ℕ) → List Required
unfolding has_key strip_marks
missing [] d = []
missing (r ∷ rest) d =
    let others = missing rest d in if has_key (strip_marks r.header) d then others else r ∷ others

abbrev pub missing_report : Required → Report
missing_report r = record {
  linenum = r.linenum;
  category = codes "build/include_what_you_use";
  confidence = 4;
  message = codes "Add #include " ++ (r.header ++ (codes " for " ++ r.template));
}
