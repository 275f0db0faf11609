-- ===== src/Nesting/Rounds.antt =====
-- The loop of `InTemplateArgumentList` in lab5/cpplint.py ends on every file.
use cs.Base.{
  get_elem?-some, ℕ, zero, suc, ◌+◌, ◌-◌, ◌≤◌, ◌<◌, ◌≡◌, refl, ap, ◌⊎◌, inl, inr, Bool, true, false,
  Bool-cases, Option, none, some, Option-cases, List, [], ◌∷◌, Text, length, drop, leb, ltb, nat_eq,
  drop-eq-cons, lt-length_of_get_elem?, arith,
}
use cs.Re.{any_char, matches}
use cs.Re.Reads.{line_start-Reads, Reads}
use cs.Re.Repeats.{many-one-Reads}
use cs.Re.Ends.{Long, any-Long, one-Long, group-Long, ⨟-Long}
use cs.Re.Shows.{matches-Shows}
use cs.Re.Shapes.{length-whole}
use cs.Brackets.{Place, close_expression}
use cs.Brackets.Bounds.{close_expression-IsEnd}
use cs.CleansedLines.{CleansedLines, group_text}
use cs.Nesting.Templates.{
  template_token, Verdict, answer, skip, nested, verdict, Round, found, next, after_expression,
  token_round, template_round, template_loop, weight, in_template_argument_list,
}

-- The rounds that are left at most at a position of the first of the lines.
room : List Text → ℕ → ℕ
room [] pos = 0
room (line ∷ rest) pos = suc (weight rest + (length line + 1 - pos))

weight_later :
    (elided : List Text) (n m : ℕ) → n ≤ m → weight (drop m elided) ≤ weight (drop n elided)
unfolding weight
weight_later elided zero zero h = omega arith
weight_later elided (suc n) zero h = absurd (omega arith)
weight_later [] n (suc m) h = omega arith
weight_later (line ∷ rest) zero (suc m) h = omega (arith, weight_later rest 0 m (omega arith))
weight_later (line ∷ rest) (suc n) (suc m) h = weight_later rest n m (omega arith)

room-weight : (rest : List Text) (pos : ℕ) → room rest pos ≤ weight rest
unfolding weight room
room-weight [] pos = omega arith
room-weight (line ∷ rest) pos = omega arith

-- A later line has less room.
room_later :
    (elided : List Text) (n m pos pos' : ℕ) {line : Text} {rest : List Text}
    → drop n elided ≡ line ∷ rest
    → n < m
    → room (drop m elided) pos' < room (drop n elided) pos
unfolding room
room_later elided n m pos pos' {line} {rest} e h =
    let (here, below) = drop-eq-cons n elided e in
    rw e (
      omega (
        arith,
        room-weight (drop m elided) pos',
        weight_later elided (suc n) m (omega arith),
        ap weight below,
      ))

-- So has a later position on the same line.
room_on :
    (line : Text) (rest : List Text) (pos pos' : ℕ)
    → pos < pos'
    → pos ≤ length line
    → room (line ∷ rest) pos' < room (line ∷ rest) pos
unfolding room
room_on line rest pos pos' h k = omega arith

-- A round ends the loop, or leaves less room.
abbrev Advances : List Text → ℕ → ℕ → Round → Type 0
Advances elided n pos r =
    ((b : Bool) × (r ≡ found b))
    ⊎ ((n' : ℕ) × (pos' : ℕ) × (r ≡ next n' pos')
        × (room (drop n' elided) pos' < room (drop n elided) pos))

drop_fits : (t : Text) (pos k : ℕ) → k ≤ length (drop pos t) → 1 ≤ k → pos + k ≤ length t
drop_fits t zero k h l = omega arith
drop_fits [] (suc pos) k h l = absurd (omega arith)
drop_fits (c ∷ t) (suc pos) k h l = omega (arith, drop_fits t pos k h l)

drop_gone : (xs : List Text) (n : ℕ) → drop n xs ≡ [] → length xs ≤ n
drop_gone xs zero e = omega (arith, ap (length {0}) e)
drop_gone [] (suc n) e = omega arith
drop_gone (x ∷ xs) (suc n) e = omega (arith, drop_gone xs n e)

after_nowhere :
    (o : Option Place) (place : Place)
    → o ≡ some place
    → place.pos ≡ none
    → after_expression o ≡ found false
after_nowhere o place e h = rw (e, h) refl

after_place :
    (o : Option Place) (place : Place) (i : ℕ)
    → o ≡ some place
    → place.pos ≡ some i
    → after_expression o ≡ next place.linenum i
after_place o place i e h = rw (e, h) refl

-- Past the expression that the token before `end` opens.
expression-Advances :
    (elided : List Text) (n pos end : ℕ) {line : Text} {rest : List Text}
    → drop n elided ≡ line ∷ rest
    → pos < end
    → end ≤ length line
    → Advances elided n pos (after_expression (close_expression elided n (end - 1)))
expression-Advances elided n pos end {line} {rest} e h k =
    let (here, below) = drop-eq-cons n elided e in
    let (c, at) = get_elem?-some line (end - 1) (omega arith) in
    let (place, closed, is_end) = close_expression-IsEnd elided n (end - 1) here at in
    elim is_end [
      | inl (nowhere, _) ↦ inl (false, after_nowhere _ place closed nowhere)
      | inr (i, at_pos, low, same_line, there, _) ↦ elim (Bool-cases (ltb n place.linenum)) [
        | inl later ↦ inr (
          place.linenum,
          i + 1,
          after_place _ place (i + 1) closed at_pos,
          room_later elided n place.linenum pos (i + 1) e (ground arith),
        )
        | inr not_later ↦
            let same : place.linenum ≡ n = ground arith in
            inr (
              place.linenum,
              i + 1,
              after_place _ place (i + 1) closed at_pos,
              rw (same, e)
                  (room_on line rest pos (i + 1) (omega (arith, same_line same)) (omega arith)),
            )
      ]
    ]

Verdict-cases : (v : Verdict) → ((b : Bool) × (v ≡ answer b)) ⊎ ((v ≡ skip) ⊎ (v ≡ nested))
Verdict-cases (answer b) = inl (b, refl)
Verdict-cases skip = inr (inl refl)
Verdict-cases nested = inr (inr refl)

token-Advances :
    (elided : List Text) (n pos end : ℕ) (token : Text) {line : Text} {rest : List Text}
    → drop n elided ≡ line ∷ rest
    → pos < end
    → end ≤ length line
    → Advances elided n pos (token_round elided n line end token)
unfolding token_round
token-Advances elided n pos end token {line} {rest} e h k = elim (Verdict-cases (verdict token)) [
  | inl (b, v) ↦ inl (b, rw (v, token_round) refl)
  | inr (inr v) ↦ rw (v, token_round) (expression-Advances elided n pos end e h k)
  | inr (inl v) ↦ elim (Bool-cases (leb (length line) (end + 1))) [
    | inl over ↦ inr (
      suc n,
      0,
      rw (v, token_round, over) refl,
      room_later elided n (suc n) pos 0 e (omega arith),
    )
    | inr within ↦ inr (
      n,
      end + 1,
      rw (v, token_round, within) refl,
      rw e (room_on line rest pos (end + 1) (omega arith) (omega arith)),
    )
  ]
]

template_token-Long : Reads template_token (Long 1)
unfolding template_token
template_token-Long =
    ⨟-Long 0 1 _ _ (any-Long _ line_start-Reads)
      (⨟-Long 0 1 _ _ (any-Long _ (many-one-Reads _)) (group-Long 1 1 _ (one-Long any_char)))

template-Advances :
    (elided : List Text) (n pos : ℕ) {line : Text} {rest : List Text}
    → drop n elided ≡ line ∷ rest
    → Advances elided n pos (template_round elided n line pos)
unfolding template_round
template-Advances elided n pos {line} {rest} e =
    elim (Option-cases (matches template_token (drop pos line))) [
      | inl missed ↦ inr (
        suc n,
        0,
        rw (missed, template_round) refl,
        room_later elided n (suc n) pos 0 e (omega arith),
      )
      | inr (f, matched) ↦
          let shown = matches-Shows template_token (drop pos line) f template_token-Long matched in
          let end = pos + length f.whole in
          let inside : end ≤ length line =
            drop_fits line pos (length f.whole) (length-whole (drop pos line) f shown)
              (omega (arith, shown.gained)) in
          rw (matched, template_round)
            (token-Advances elided n pos end (group_text f 1) e (omega (arith, shown.gained))
              inside)
    ]

List-cases : (xs : List Text) → (xs ≡ []) ⊎ ((x : Text) × (rest : List Text) × (xs ≡ x ∷ rest))
List-cases [] = inl refl
List-cases (x ∷ rest) = inr (x, rest, refl)

template_loop_total :
    (fuel : ℕ) (lines : CleansedLines) (n pos : ℕ)
    → lines.num_lines ≡ length lines.elided
    → room (drop n lines.elided) pos < fuel
    → (b : Bool) × (template_loop fuel lines n pos ≡ some b)
unfolding template_loop
template_loop_total zero lines n pos e h = absurd (omega arith)
template_loop_total (suc fuel) lines n pos e h = elim (List-cases (drop n lines.elided)) [
  | inl gone ↦
      let few = drop_gone lines.elided n gone in
      let over : ltb n lines.num_lines ≡ false = ground arith in
      (false, rw (over, template_loop) refl)
  | inr (line, rest, there) ↦
      let (here, below) = drop-eq-cons n lines.elided there in
      let inside : ltb n lines.num_lines ≡ true =
        ground (arith, lt-length_of_get_elem? lines.elided n here) in
      elim (template-Advances lines.elided n pos there) [
        | inl (b, g) ↦ (b, rw (inside, here, g, template_loop) refl)
        | inr (n', pos', g, less) ↦
            let (b, k) = template_loop_total fuel lines n' pos' e (omega arith) in
            (b, rw (inside, here, g, template_loop) k)
      ]
]

-- `in_template_argument_list` gives an answer at every position of a file: its loop ends, and it
-- meets no IndexError.
pub in_template_argument_list_total :
    (lines : CleansedLines) (n pos : ℕ)
    → lines.num_lines ≡ length lines.elided
    → (b : Bool) × (in_template_argument_list lines n pos ≡ some b)
unfolding in_template_argument_list
in_template_argument_list_total lines n pos e =
    template_loop_total (suc (weight lines.elided)) lines n pos e (
      omega
        (arith, room-weight (drop n lines.elided) pos, weight_later lines.elided 0 n (omega arith)))
