-- ===== src/CleansedLines/Sizes.antt =====
-- The four copies of a file's lines.
use cs.Base.{suc, ◌≡◌, refl, ap, ◌∙◌, some, List, [], ◌∷◌, Text, map, length, length-map}
use cs.Comments.{cleanse_comments}
use cs.CleansedLines.{CleansedLines, elided_lines, cleansed_lines}
use cs.CleansedLines.RawStrings.{cleanse_raw_strings_total}
use cs.CleansedLines.Strings.{collapse_strings_total}

elided_lines_total :
    (lines : List Text)
    → (out : List Text) × (elided_lines lines ≡ some out) × (length out ≡ length lines)
unfolding elided_lines
elided_lines_total [] = ([], refl, refl)
elided_lines_total (line ∷ lines) =
    let (collapsed, e) = collapse_strings_total line in
    let (out, f, size_eq) = elided_lines_total lines in
    (cleanse_comments collapsed ∷ out, rw (e, f, elided_lines), ap suc size_eq)

-- `cleansed_lines` succeeds on every file: its loops end, and no match that it uses is missing. The
-- raw lines are the given ones, and the four copies have the number of lines that it keeps.
pub cleansed_lines_total :
    (lines : List Text)
    → (c : CleansedLines) × (cleansed_lines lines ≡ some c)
      × (c.raw_lines ≡ lines)
      × (c.num_lines ≡ length lines)
      × (length c.elided ≡ c.num_lines)
      × (length c.lines ≡ c.num_lines)
      × (length c.lines_without_raw_strings ≡ c.num_lines)
unfolding cleansed_lines
cleansed_lines_total lines =
    let (without, e, n) = cleanse_raw_strings_total lines in
    let (elided, f, m) = elided_lines_total without in
    (
      record {
        elided = elided;
        lines = map cleanse_comments without;
        raw_lines = lines;
        num_lines = length lines;
        lines_without_raw_strings = without;
      },
      rw (e, f, cleansed_lines),
      refl,
      refl,
      m ∙ n,
      length-map cleanse_comments without ∙ n,
      n,
    )
