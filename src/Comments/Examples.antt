-- ===== src/Comments/Examples.antt =====
-- The removal of comments at concrete inputs.
use cs.Base.{◌≡◌, refl, List, [], ◌∷◌, some, Text, codes, all_helpers}
use cs.Re.{all_patterns}
use cs.Nolint.{Report}
use cs.Comments.{
  begins_comment, ends_comment, find_next_multi_line_comment_start,
  find_next_multi_line_comment_end, remove_multi_line_comments,
  remove_multi_line_comments_from_range, unterminated, is_cpp_string, cleanse_line_c_comments,
  cleanse_comments,
}
use cs.Comments.Lines.{Kept}
use cs.Comments.Loop.{Removed}
use cs.Comments.Blanking.{remove_multi_line_comments_effect}

abbrev file : List Text
file = codes "int a;" ∷ codes "  /* one" ∷ codes "two */" ∷ codes "int b; /* c */" ∷ []

remove_multi_line_comments_effect_example :
    (out : List Text) × (reports : List Report) × (remove_multi_line_comments file
      ≡ some (out, reports))
    × Removed 0 file out reports
    × Kept file out
remove_multi_line_comments_effect_example = remove_multi_line_comments_effect file

blanked :
    remove_multi_line_comments file
    ≡ some (codes "int a;" ∷ codes "/**/" ∷ codes "/**/" ∷ codes "int b; /* c */" ∷ [], [])
unfolding remove_multi_line_comments find_next_multi_line_comment_start
    find_next_multi_line_comment_end remove_multi_line_comments_from_range begins_comment
    ends_comment all_helpers
blanked = refl

no_end :
    remove_multi_line_comments (codes "x" ∷ codes "/* y" ∷ [])
    ≡ some (codes "x" ∷ codes "/* y" ∷ [], unterminated 2 ∷ [])
unfolding remove_multi_line_comments find_next_multi_line_comment_start
    find_next_multi_line_comment_end remove_multi_line_comments_from_range begins_comment
    ends_comment all_helpers
no_end = refl

line_comment : cleanse_comments (codes "f(\"//\");  // g") ≡ codes "f(\"//\");  // g"
unfolding cleanse_comments cleanse_line_c_comments is_cpp_string all_patterns
line_comment = refl

block_comment : cleanse_comments (codes "f(a /* b */, c); /* d */") ≡ codes "f(a, c);"
unfolding cleanse_comments cleanse_line_c_comments is_cpp_string all_patterns
block_comment = refl
