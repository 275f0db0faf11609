-- ===== src/Comments/Blanking.antt =====
-- What the removal of comments over several lines leaves and what it reports, told by the lines.
use mathlib.Core.List.{append_assoc}
use cs.Base.{
  true, append_nil, ℕ, zero, suc, ◌+◌, ◌<◌, ◌≡◌, refl, ap, sym, ◌∙◌, inl, inr, some, List, [], ◌∷◌,
  ◌++◌, map, Text, arith, length, length-append,
}
use cs.Nolint.{Report}
use cs.Comments.{
  begins_comment, ends_comment, find_next_multi_line_comment_start,
  find_next_multi_line_comment_end, blank, unterminated, remove_multi_line_comments,
}
use cs.Comments.Lines.{next_index-Stop, Kept, Kept-refl, Kept-blank, Kept-append}
use cs.Comments.Loop.{
  IsClear, IsOpen, Begins, Removed, clear, unended, ended, Clears, ClearsFrom, loop_stops,
  loop_reports, loop_goes_on, start_at, end_at, comment_closed,
}

-- A comment begins on the line after `before`, which stand behind `done`.
module _ (fuel : ℕ) (done before : List Text) (h : IsClear before) where
  comment_unended :
      (left : List Text)
      → Begins left
      → IsOpen left
      → find_next_multi_line_comment_start (done ++ (before ++ left)) (length done)
        ≡ length done + length before
      → find_next_multi_line_comment_end (done ++ (before ++ left)) (length done + length before)
        ≡ length done + length before + length left
      → Clears (suc fuel) (done ++ (before ++ left)) (length done) done (before ++ left)
  comment_unended [] b o starts ends = absurd b
  comment_unended (l ∷ left) b o starts ends =
      let total = length-append done (before ++ (l ∷ left)) in
      let size = length-append before (l ∷ left) in
      (
        before ++ (l ∷ left),
        unterminated (length done + length before + 1) ∷ [],
        loop_reports fuel _ (length done) _ _ starts ends (omega (arith, total, size))
            (omega (arith, total, size)) (omega (arith, total, size)),
        unended (length done) before (l ∷ left) h b o,
      )

  comment_ended :
      (passed : List Text) (m : Text) (q : List Text)
      → Begins (passed ++ m ∷ q)
      → IsOpen passed
      → ends_comment m ≡ true
      → find_next_multi_line_comment_start (done ++ (before ++ (passed ++ m ∷ q))) (length done)
        ≡ length done + length before
      → find_next_multi_line_comment_end
          (done ++ (before ++ (passed ++ m ∷ q)))
          (length done + length before)
        ≡ length done + length before + length passed
      → ((d : List Text) → ClearsFrom fuel d q)
      → Clears
          (suc fuel)
          (done ++ (before ++ (passed ++ m ∷ q)))
          (length done)
          done
          (before ++ (passed ++ m ∷ q))
  comment_ended passed m q b o e starts ends again =
      let total = length-append done (before ++ (passed ++ m ∷ q)) in
      let size = length-append before (passed ++ m ∷ q) in
      let part = length-append passed (m ∷ q) in
      let joined = append_assoc done before in
      let behind = length-append done before in
      let (out, reports, eq, removed) = comment_closed fuel (done ++ before) passed m q (again _) in
      (
        before ++ (map (λ _. blank) (passed ++ m ∷ []) ++ out),
        reports,
        loop_goes_on fuel _ (length done) _ _ starts ends (omega (arith, total, size, part))
              (omega (arith, total, size, part)) (omega (arith, total, size, part))
            ∙ rw
                (
                  ← behind,
                  ← joined (passed ++ m ∷ q),
                  ← joined (map (λ _. blank) (passed ++ m ∷ []) ++ out),
                )
                eq,
        ended (length done) before passed m q out reports h b o e (rw behind at removed),
      )

  comment_split :
      (left passed : List Text) (m : Text) (q : List Text)
      → left ≡ passed ++ m ∷ q
      → Begins left
      → IsOpen passed
      → ends_comment m ≡ true
      → find_next_multi_line_comment_start (done ++ (before ++ left)) (length done)
        ≡ length done + length before
      → find_next_multi_line_comment_end (done ++ (before ++ left)) (length done + length before)
        ≡ length done + length before + length passed
      → ((d : List Text) → ClearsFrom fuel d q)
      → Clears (suc fuel) (done ++ (before ++ left)) (length done) done (before ++ left)
  comment_split left passed m q e b o c starts ends again =
      rw e (comment_ended passed m q (rw e at b) o c (rw e at starts) (rw e at ends) again)

-- What the search for the end of a comment gives.
comment_begun :
    (fuel : ℕ) (done before left : List Text)
    → IsClear before
    → Begins left
    → find_next_multi_line_comment_start (done ++ (before ++ left)) (length done)
      ≡ length done + length before
    → ((d q : List Text) → length q < length left → ClearsFrom fuel d q)
    → Clears (suc fuel) (done ++ (before ++ left)) (length done) done (before ++ left)
comment_begun fuel done before left h b starts again =
    let s = next_index-Stop ends_comment (length done + length before) left in
    let ends : find_next_multi_line_comment_end (done ++ (before ++ left))
          (length done + length before)
        ≡ length done + length before + length s.passed =
      rw (← length-append done before, ← append_assoc done before left)
        (end_at (done ++ before) left ∙ rw (length-append done before) s.at) in
    elim s.hit [
      | inl none_left ↦
          let whole : left ≡ s.passed = rw none_left at s.splits ∙ append_nil s.passed in
          comment_unended fuel done before h left b (rw whole s.before) starts
            (ends ∙ ap (λ t. length done + length before + length t) (sym whole))
      | inr (m, q, found, closes) ↦
          let e : left ≡ s.passed ++ m ∷ q = s.splits ∙ ap (◌++◌ s.passed) found in
          let size : length left ≡ length s.passed + length (m ∷ q) =
            ap length e ∙ length-append s.passed (m ∷ q) in
          comment_split fuel done before h left s.passed m q e b s.before closes starts ends
            (λ d. again d q (omega (arith, size)))
    ]

head-Begins :
    (left : List Text) (l : Text) (r : List Text)
    → left ≡ l ∷ r
    → begins_comment l ≡ true
    → Begins left
head-Begins left l r e h = rw e h

comment_found :
    (fuel : ℕ) (done left before rest : List Text)
    → left ≡ before ++ rest
    → IsClear before
    → Begins rest
    → find_next_multi_line_comment_start (done ++ left) (length done) ≡ length done + length before
    → ((d q : List Text) → length q < length rest → ClearsFrom fuel d q)
    → ClearsFrom (suc fuel) done left
comment_found fuel done left before rest e h b starts again =
    rw e (comment_begun fuel done before rest h b (rw e at starts) again)

remove_loop-Clears :
    (fuel : ℕ) (done left : List Text) → length left < fuel → ClearsFrom fuel done left
remove_loop-Clears zero done left f = absurd (omega arith)
remove_loop-Clears (suc fuel) done left f =
    let s = next_index-Stop begins_comment (length done) left in
    let starts = start_at done left ∙ s.at in
    let total = length-append done left in
    let sizes = ap length s.splits ∙ length-append s.passed s.left in
    elim s.hit [
      | inl none_left ↦
          let whole : left ≡ s.passed = rw none_left at s.splits ∙ append_nil s.passed in
          (
            left,
            [],
            loop_stops fuel (done ++ left) (length done) _ _ starts refl
                (omega (arith, total, sizes, ap length none_left)),
            clear (length done) left (rw whole s.before),
          )
      | inr (l, r, found, begun) ↦
          comment_found fuel done left s.passed s.left s.splits s.before
            (head-Begins s.left l r found begun) starts
            (λ d q small. remove_loop-Clears fuel d q (omega (arith, sizes)))
    ]

-- A line of the result is the line that was there, or a blanked one.
Removed-Kept :
    {n : ℕ} {lines out : List Text} {reports : List Report}
    → Removed n lines out reports
    → Kept lines out
Removed-Kept (clear n lines h) = Kept-refl lines
Removed-Kept (unended n before left h b o) = Kept-refl (before ++ left)
Removed-Kept (ended n before passed last rest out reports h b o e removed) =
    Kept-append before before _ _ (Kept-refl before) (
      rw (← append_assoc passed (last ∷ []) rest) (
        Kept-append (passed ++ last ∷ []) _ rest out (Kept-blank (passed ++ last ∷ []))
          (Removed-Kept removed)))

-- `remove_multi_line_comments` always returns, within its fuel, and does this: where a line, less its
-- outer white space, begins with `/*` and has no `*/` behind that, the lines from this one to the
-- first whose text ends with `*/` are blanked, and so on behind them. If there is no such end, the
-- lines are left, the line is reported, and nothing behind it is looked at. So the number of lines
-- stays, and each is the old one or a blanked one.
pub remove_multi_line_comments_effect :
    (lines : List Text)
    → (out : List Text) × (reports : List Report) × (remove_multi_line_comments lines
        ≡ some (out, reports))
      × Removed 0 lines out reports
      × Kept lines out
unfolding remove_multi_line_comments
remove_multi_line_comments_effect lines =
    let (out, reports, e, removed) =
      remove_loop-Clears (suc (length lines)) [] lines (omega arith) in
    (out, reports, e, removed, Removed-Kept removed)
