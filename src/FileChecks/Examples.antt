-- ===== src/FileChecks/Examples.antt =====
-- Runs of the checks of a file's lines, and the theorems about them at concrete inputs.
use cs.Base.{
  ◌≡◌, ◌↔◌, ◌⊎◌, refl, ℕ, ◌<◌, true, some, List, [], ◌∷◌, ◌++◌, Text, codes, split, get_elem?,
}
use cs.Re.{all_patterns}
use cs.FileChecks.{
  nul_byte, marked, any_case, has_copyright, some_copyright, check_for_copyright, get_indent_level,
  indent, check_for_bad_characters, check_for_newline_at_eof,
}
use cs.FileChecks.Lines.{Among, IsBad, check_for_bad_characters_iff, check_for_copyright_iff}
use cs.FileChecks.Newline.{check_for_newline_at_eof_iff}

abbrev file : List Text
file = marked (codes "// COPYRIGHT me" ∷ (0 ∷ 65533 ∷ []) ∷ codes "   int a;" ∷ [])

check_for_bad_characters_iff_example :
    Among (nul_byte 2) (check_for_bad_characters file)
    ↔ ((n : ℕ) × (line : Text) × (get_elem? file n ≡ some line) × IsBad (nul_byte 2) n line)
check_for_bad_characters_iff_example = check_for_bad_characters_iff file (nul_byte 2)

check_for_copyright_iff_example : (check_for_copyright (codes "//" ∷ file) ≡ []) ↔ (
    (n : ℕ) × (line : Text) × (n < 10)
    × (get_elem? file n ≡ some line)
    × (has_copyright line ≡ true))
check_for_copyright_iff_example = check_for_copyright_iff (codes "//") file

check_for_newline_at_eof_iff_example :
    (check_for_newline_at_eof (marked (split 10 (codes "int a;"))) ≡ [])
    ↔ ((codes "int a;" ≡ []) ⊎ ((t : Text) × (codes "int a;" ≡ t ++ 10 ∷ [])))
check_for_newline_at_eof_iff_example = check_for_newline_at_eof_iff (codes "int a;")

indented : get_indent_level (codes "   int a;") ≡ 3
unfolding get_indent_level indent all_patterns
indented = refl

copyrighted : check_for_copyright file ≡ []
unfolding check_for_copyright some_copyright has_copyright any_case all_patterns
copyrighted = refl
