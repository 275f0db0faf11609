-- ===== src/IncludeWhatYouUse/Examples.antt =====
-- Runs of `CheckForIncludeWhatYouUse`, and the theorem about it at a concrete file.
use cs.Base.{
  ◌≡◌, refl, false, Option, none, some, List, [], ◌∷◌, Text, codes, map, All, ends_with, text_eq,
  ◌==◌, if◌then◌else◌,
}
use cs.Re.{all_patterns}
use cs.CleansedLines.{CleansedLines}
use cs.Comments.{cleanse_comments, cleanse_line_c_comments}
use cs.Includes.{include_pattern, base_name, is_source}
use cs.IncludeState.{IncludeState, initial, find_header}
use cs.Modules.{files_belong_to_same_module}
use cs.Paths.{splitext, split_path}
use cs.IncludeWhatYouUse.{all_items, flymake_source, strip_marks, Required, missing, missing_report}
use cs.IncludeWhatYouUse.Tables.{string_pattern, maybe_template, template_pattern, require_lines}
use cs.IncludeWhatYouUse.Headers.{check_for_include_what_you_use}
use cs.IncludeWhatYouUse.Missing.{IsSettled, included, check_for_include_what_you_use_safe}

abbrev same_name : Text → Text
same_name n = n

abbrev disk : Text → Option (List Text)
disk name = if name == codes "a.h" then some (codes "#include <map>" ∷ []) else none

abbrev file : List Text
file =
    codes "std::vector<int> v; std::map<int> m;"
    ∷ codes "std::string s;  "
    ∷ codes "x = max(a, b);"
    ∷ codes "my::list<int> l;"
    ∷ []

abbrev lines : CleansedLines
lines = record {
  elided = file;
  lines = file;
  raw_lines = file;
  num_lines = 4;
  lines_without_raw_strings = file;
}

abbrev state : IncludeState
state = record initial { include_list = ((codes "a.h", 1) ∷ (codes "string", 2) ∷ []) ∷ [] }

-- `a.h` includes `map`, and the file itself `string`.
asked_for :
    check_for_include_what_you_use same_name same_name disk (codes "a.cc") lines state
    ≡ map missing_report (
        record { header = codes "<vector>"; linenum = 0; template = codes "vector<>" }
        ∷ record { header = codes "<algorithm>"; linenum = 2; template = codes "max" }
        ∷ [])
unfolding check_for_include_what_you_use all_patterns all_items files_belong_to_same_module
    is_source splitext split_path flymake_source base_name missing require_lines template_pattern
    maybe_template string_pattern cleanse_comments cleanse_line_c_comments include_pattern
asked_for = refl

check_for_include_what_you_use_safe_example :
    (out : List Required) × (check_for_include_what_you_use same_name same_name disk
        (codes "a.h")
        lines
        state
      ≡ map missing_report out)
    × All (λ r. find_header state (strip_marks r.header) ≡ none) out
    × (ends_with (codes "a.h") (codes ".cc") ≡ false
        → All
            (IsSettled (included same_name same_name disk (codes "a.h") state) out)
            (require_lines 0 file []))
check_for_include_what_you_use_safe_example =
    check_for_include_what_you_use_safe same_name same_name disk (codes "a.h") lines state
