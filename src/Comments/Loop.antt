-- ===== src/Comments/Loop.antt =====
-- What `remove_multi_line_comments` does, told by the lines, and the steps of its loop.
use mathlib.Core.List.{append_assoc}
use cs.Base.{
  true, ℕ, suc, ◌+◌, ◌≤◌, ◌<◌, ◌≡◌, sym, false, some, List, [], ◌∷◌, ◌++◌, map, Text, All, arith,
  length, length-append, length-map, drop-before,
}
use cs.Nolint.{Report}
use cs.Comments.{
  begins_comment, ends_comment, next_index, find_next_multi_line_comment_start,
  find_next_multi_line_comment_end, blank, remove_multi_line_comments_from_range, unterminated,
  remove_loop,
}
use cs.Comments.Lines.{range-blanks}

abbrev pub IsClear : List Text → Type 0
IsClear lines = All (λ l. begins_comment l ≡ false) lines

abbrev pub IsOpen : List Text → Type 0
IsOpen lines = All (λ l. ends_comment l ≡ false) lines

-- The first of the lines begins a comment.
abbrev pub Begins : List Text → Type 0
Begins [] = ⊥
Begins (l ∷ rest) = begins_comment l ≡ true

-- The lines from the number `n` on, what is left of them, and the reports: no comment begins; or the
-- first that begins has no end, and is left and reported; or the first that begins goes as far as
-- the first line that ends one, and these lines are blanked.
pub data Removed : ℕ → List Text → List Text → List Report → Type 0 where
  clear : (n : ℕ) (lines : List Text) → IsClear lines → Removed n lines lines []
  unended :
      (n : ℕ) (before left : List Text)
      → IsClear before
      → Begins left
      → IsOpen left
      → Removed n (before ++ left) (before ++ left) (unterminated (n + length before + 1) ∷ [])
  ended :
      (n : ℕ) (before passed : List Text) (last : Text) (rest out : List Text)
      (reports : List Report)
      → IsClear before
      → Begins (passed ++ last ∷ rest)
      → IsOpen passed
      → ends_comment last ≡ true
      → Removed (n + length before + length passed + 1) rest out reports
      → Removed n
          (before ++ (passed ++ last ∷ rest))
          (before ++ (map (λ _. blank) (passed ++ last ∷ []) ++ out))
          reports

-- What the loop gives from an index on, for the lines `left`, which stand behind `done`.
abbrev pub Clears : ℕ → List Text → ℕ → List Text → List Text → Type 0
Clears fuel lines ix done left =
    (out : List Text) × (reports : List Report) × (remove_loop fuel lines ix
      ≡ some (done ++ out, reports))
    × Removed (length done) left out reports

abbrev pub ClearsFrom : ℕ → List Text → List Text → Type 0
ClearsFrom fuel done left = Clears fuel (done ++ left) (length done) done left

module _ (fuel : ℕ) (lines : List Text) (ix first last : ℕ)
    (starts : find_next_multi_line_comment_start lines ix ≡ first)
    (ends : find_next_multi_line_comment_end lines first ≡ last) where
  pub loop_stops : length lines ≤ first → remove_loop (suc fuel) lines ix ≡ some (lines, [])
  unfolding remove_loop
  loop_stops h = rw starts (ground arith)

  pub loop_reports :
      ix < length lines
      → first < length lines
      → length lines ≤ last
      → remove_loop (suc fuel) lines ix ≡ some (lines, unterminated (first + 1) ∷ [])
  unfolding remove_loop
  loop_reports g h k = rw starts (rw ends (ground arith))

  pub loop_goes_on :
      ix < length lines
      → first < length lines
      → last < length lines
      → remove_loop (suc fuel) lines ix
        ≡ remove_loop fuel (remove_multi_line_comments_from_range lines first (suc last)) (suc last)
  unfolding remove_loop
  loop_goes_on g h k = rw starts (rw ends (ground arith))

pub start_at :
    (done left : List Text)
    → find_next_multi_line_comment_start (done ++ left) (length done)
      ≡ next_index begins_comment (length done) left
unfolding find_next_multi_line_comment_start
start_at done left = rw drop-before

pub end_at :
    (done left : List Text)
    → find_next_multi_line_comment_end (done ++ left) (length done)
      ≡ next_index ends_comment (length done) left
unfolding find_next_multi_line_comment_end
end_at done left = rw drop-before

-- One comment, from the line after `done` to the line `m`, is blanked, and the loop goes on.
pub comment_closed :
    (fuel : ℕ) (done passed : List Text) (m : Text) (q : List Text)
    → ClearsFrom fuel (done ++ map (λ _. blank) (passed ++ m ∷ [])) q
    → (out : List Text) × (reports : List Report) × (remove_loop fuel
          (remove_multi_line_comments_from_range
            (done ++ (passed ++ (m ∷ q)))
            (length done)
            (suc (length done + length passed)))
          (suc (length done + length passed))
        ≡ some (done ++ (map (λ _. blank) (passed ++ m ∷ []) ++ out), reports))
      × Removed (length done + length passed + 1) q out reports
comment_closed fuel done passed m q (out, reports, eq, removed) =
    let mid = passed ++ m ∷ [] in
    let blanks = map (λ _. blank) mid in
    let joined : passed ++ (m ∷ q) ≡ mid ++ q = sym (append_assoc passed (m ∷ []) q) in
    let end : suc (length done + length passed) ≡ length done + length mid =
      omega (arith, length-append passed (m ∷ [])) in
    let size : length (done ++ blanks) ≡ length done + length mid =
      omega (arith, length-append done blanks, length-map (λ (_ : Text). blank) mid) in
    let number : length (done ++ blanks) ≡ length done + length passed + 1 =
      omega (arith, size, end) in
    (
      out,
      reports,
      rw joined (
          rw end (
            rw
              (
                range-blanks done mid q,
                ← append_assoc done blanks q,
                ← append_assoc done blanks out,
              )
              (rw size at eq))),
      rw number at removed,
    )
