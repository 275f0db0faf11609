-- ===== src/IncludeWhatYouUse/Headers.antt =====
-- The headers of the file's own header, and the reports, in lab5/cpplint.py: `UpdateIncludeState`
-- and `CheckForIncludeWhatYouUse`.
use cs.Base.{
  ℕ, Bool, true, false, not, ◌&&◌, Option, none, some, List, [], ◌∷◌, ◌++◌, Text, codes, map,
  ends_with, if◌then◌else◌,
}
use cs.Re.{sub}
use cs.Nolint.{Report}
use cs.CleansedLines.{CleansedLines}
use cs.IncludeState.{IncludeState}
use cs.Modules.{files_belong_to_same_module}
use cs.HeaderGuard.{full_name}
use cs.IncludeWhatYouUse.{include_lines, all_items, flymake_source, key, missing, missing_report}
use cs.IncludeWhatYouUse.Tables.{require_lines}

-- `UpdateIncludeState`, over the opened file.
unfoldable pub update_include_state : Option (List Text) → List (Text × ℕ) → Bool × List (Text × ℕ)
unfolding include_lines
update_include_state none d = (false, d)
update_include_state (some headerfile) d = (true, include_lines 1 headerfile d)

module _ (repository_name : Text → Text) (abspath : Text → Text)
    (read_file : Text → Option (List Text)) where
  -- The loop over the keys: whether the file's header was read, and the headers included.
  unfoldable pub header_loop : Text → List Text → Bool → List (Text × ℕ) → Bool × List (Text × ℕ)
  unfolding update_include_state
  header_loop abs_filename [] header_found d = (header_found, d)
  header_loop abs_filename (header ∷ rest) header_found d =
      let (same_module, common_path) =
        files_belong_to_same_module repository_name abs_filename header in
      if same_module
      then (let (read, d') = update_include_state (read_file (common_path ++ header)) d in
          header_loop abs_filename rest (if read then true else header_found) d')
      else header_loop abs_filename rest header_found d

  -- `CheckForIncludeWhatYouUse`
  unfoldable pub check_for_include_what_you_use : Text → CleansedLines → IncludeState → List Report
  unfolding header_loop full_name
  check_for_include_what_you_use filename lines s =
      let required = require_lines 0 lines.elided [] in
      let include_dict = all_items s.include_list [] in
      let abs_filename =
        sub flymake_source (codes ".cc") (full_name repository_name abspath filename) in
      let (header_found, d) = header_loop abs_filename (map key include_dict) false include_dict in
      if ends_with filename (codes ".cc") && not header_found
      then []
      else map missing_report (missing required d)
