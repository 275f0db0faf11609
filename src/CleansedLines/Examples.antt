-- ===== src/CleansedLines/Examples.antt =====
-- Runs of the cleansing of lines, and the theorems about it at concrete inputs.
use cs.Base.{◌≡◌, refl, some, List, [], ◌∷◌, Text, codes, length}
use cs.Re.{all_patterns}
use cs.Includes.{include_pattern}
use cs.CleansedLines.{
  leading_space, raw_string_start, comment_start, cleanse_raw_strings, cleanse_line_escapes,
  first_quote, number_end, literal_rest, collapse_strings, CleansedLines, cleansed_lines,
}
use cs.CleansedLines.Sizes.{cleansed_lines_total}

raw_strings :
    cleanse_raw_strings
      (codes "f(R\"(a)\", uR\"x(b" ∷ codes " more" ∷ codes "  c)x\"); // R\"(" ∷ codes "g();" ∷ [])
    ≡ some (codes "f(\"\", \"\"" ∷ codes "\"\"" ∷ codes "  \"\"); // R\"(" ∷ codes "g();" ∷ [])
unfolding cleanse_raw_strings leading_space raw_string_start comment_start all_patterns
raw_strings = refl

strings :
    (collapse_strings (codes "a(\"b\\\"c\", 'd', 1'000'000, \"open")
      ≡ some (codes "a(\"\", '', 1000000, \"open"))
    × (collapse_strings (codes "#include \"a.h\"") ≡ some (codes "#include \"a.h\""))
unfolding collapse_strings cleanse_line_escapes first_quote number_end literal_rest include_pattern
    all_patterns
strings = (refl, refl)

abbrev file : List Text
file = codes "f(R\"(a" ∷ codes "b)\", \"c\");  // d" ∷ []

cleansed_lines_total_example :
    (c : CleansedLines) × (cleansed_lines file ≡ some c)
    × (c.raw_lines ≡ file)
    × (c.num_lines ≡ length file)
    × (length c.elided ≡ c.num_lines)
    × (length c.lines ≡ c.num_lines)
    × (length c.lines_without_raw_strings ≡ c.num_lines)
cleansed_lines_total_example = cleansed_lines_total file
