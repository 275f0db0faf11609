-- ===== src/Style/Bodies.antt =====
-- `check_empty_block_body` comes to an end without an IndexError.
use cs.Base.{
  get_elem?-drop, get_elem?-some, ℕ, zero, suc, ◌+◌, ◌-◌, ◌≡◌, ◌<◌, ◌⊎◌, refl, sym, ap, ◌∙◌, Bool,
  true, false, Bool-cases, Option-cases, inl, inr, Option, some, List, [], ◌∷◌, Text, codes, find,
  length, get_elem?, drop, lt-length_of_get_elem?, nat_beq, arith, if◌then◌else◌, text_eq, ◌==◌,
}
use cs.Re.{◌⨟◌, line_start, not_ahead, line_end, matches, search_in}
use cs.Re.Reads.{Reads, line_start-Reads}
use cs.Re.Shows.{matches-Shows, search_in-Shows}
use cs.Re.Shapes.{Shape, Empty-Shape, ⨟-Shape, one-Shape, group-Shape, length-whole}
use cs.Re.Short.{chr, blanks, found}
use cs.CleansedLines.{CleansedLines, group_text}
use cs.Brackets.{Place}
use cs.Brackets.Bounds.{IsEnd, close_expression-IsEnd}
use cs.LineChecks.Namespaces.{line_at}
use cs.Statements.Bodies.{
  loop_or_if, find_opening, or_zero, check_if_body, check_condition_end, check_empty_block_body,
}
use cs.Style.Places.{
  Gives, get_elem?-line_at, line_at-get_elem?, close_expression-Gives, any_of-Shape, blanks-Shape,
  lt-length_of_find, length-drop, group_one-lt,
}

opening-Shape : Reads (line_start ⨟ blanks ⨟ chr b'{') (Shape 1 [])
opening-Shape =
    ⨟-Shape _ _ (Empty-Shape _ line_start-Reads) (⨟-Shape _ _ blanks-Shape (one-Shape _))

opened-pos :
    (fragment : Text) → found (line_start ⨟ blanks ⨟ chr b'{') fragment ≡ true → 0 < length fragment
unfolding found
opened-pos fragment h = elim (Option-cases (search_in (line_start ⨟ blanks ⨟ chr b'{') fragment)) [
  | inl e ↦ absurd (ground arith)
  | inr (f, e) ↦
      let s = search_in-Shows _ fragment f opening-Shape e in
      omega (arith, s.gained.fits, length-whole fragment f s)
]

-- The fragment is not empty, and it is the first one or a line of the rest.
find_opening-lt :
    (fragment : Text) (n : ℕ) (lines : List Text) (m : ℕ) (opened : Text)
    → find_opening fragment n lines ≡ some (m, opened)
    → (0 < length opened)
      × (((m ≡ n) × (opened ≡ fragment))
          ⊎ ((k : ℕ) × (m ≡ suc n + k) × (get_elem? lines k ≡ some opened)))
unfolding find_opening
find_opening-lt fragment n [] m opened h =
    elim (Bool-cases (found (line_start ⨟ blanks ⨟ chr b'{') fragment)) [
      | inl e ↦
          let g : ◌≡◌ {A = Option (ℕ × Text)} (some (n, fragment)) (some (m, opened)) =
            rw (e, find_opening) at h in
          let pos = opened-pos fragment e in (ground arith, inl (ground arith, ground arith))
      | inr e ↦ absurd (ground arith)
    ]
find_opening-lt fragment n (line ∷ lines) m opened h =
    elim (Bool-cases (found (line_start ⨟ blanks ⨟ chr b'{') fragment)) [
      | inl e ↦
          let g : ◌≡◌ {A = Option (ℕ × Text)} (some (n, fragment)) (some (m, opened)) =
            rw (e, find_opening) at h in
          let pos = opened-pos fragment e in (ground arith, inl (ground arith, ground arith))
      | inr e ↦ elim (Bool-cases (found (line_start ⨟ not_ahead (blanks ⨟ line_end)) fragment)) [
        | inl f ↦ absurd (ground arith)
        | inr f ↦
            let (pos, where_) =
              find_opening-lt line (suc n) lines m opened (rw (e, f, find_opening) at h) in
            (
              pos,
              elim where_ [
                | inl (a, b) ↦ inr (zero, omega arith, ap some (sym b))
                | inr (k, a, b) ↦ inr (suc k, omega arith, b)
              ],
            )
      ]
    ]

or_zero-lt : (s : Text) (p : Text) → 0 < length s → 0 < length p → or_zero (find s p) < length s
or_zero-lt s p h k = elim (Option-cases (find s p)) [
  | inl e ↦ rw e h
  | inr (i, e) ↦ rw e (lt-length_of_find s p i e k)
]

-- The position of the opening brace on its line.
abbrev brace_pos : ℕ → Place → ℕ → Text → ℕ
brace_pos m end end_pos opened =
    let brace = or_zero (find opened (codes "{")) in
    if nat_beq m end.linenum then brace + end_pos else brace

brace_pos-lt :
    (elided : List Text) (end : Place) (end_pos m : ℕ) (opened : Text)
    → get_elem? elided end.linenum ≡ some end.line
    → find_opening (drop end_pos end.line) end.linenum (drop (suc end.linenum) elided)
      ≡ some (m, opened)
    → (m < length elided) × (brace_pos m end end_pos opened < length (line_at elided m))
brace_pos-lt elided end end_pos m opened at h =
    let (pos, where_) = find_opening-lt _ end.linenum _ m opened h in
    let brace = or_zero-lt opened (codes "{") pos (omega arith) in
    elim where_ [
      | inl (same, fragment) ↦
          let line = line_at-get_elem? elided end.linenum at in
          let there = lt-length_of_get_elem? elided end.linenum at in
          let size : length opened ≡ length end.line - end_pos =
            ap (length {0}) fragment ∙ length-drop end_pos end.line in
          rw (same, line) (omega arith, ground arith)
      | inr (k, later, in_rest) ↦
          let here : get_elem? elided (suc end.linenum + k) ≡ some opened =
            sym (get_elem?-drop (suc end.linenum) k elided) ∙ in_rest in
          let line = line_at-get_elem? elided (suc end.linenum + k) here in
          let there = lt-length_of_get_elem? elided (suc end.linenum + k) here in
          rw (later, line) (omega arith, ground arith)
    ]

check_if_body-Gives :
    (clean_lines : CleansedLines) (end : Place) (end_pos : ℕ)
    → get_elem? clean_lines.elided end.linenum ≡ some end.line
    → Gives (check_if_body clean_lines end end_pos)
unfolding check_if_body
check_if_body-Gives clean_lines end end_pos at =
    elim (Option-cases (
      find_opening (drop end_pos end.line) end.linenum
        (drop (suc end.linenum) clean_lines.elided))) [
          | inl e ↦ rw (e, check_if_body) ([], refl)
          | inr ((m, opened), e) ↦
              let (there, bound) = brace_pos-lt clean_lines.elided end end_pos m opened at e in
              let (closing, g) =
                close_expression-Gives clean_lines.elided m (brace_pos m end end_pos opened) there
                  bound in
              rw (e, check_if_body) (rw g (_, refl))
        ]

check_condition_end-Gives :
    (clean_lines : CleansedLines) (is_if : Bool) (end : Place) (linenum pos : ℕ)
    → IsEnd clean_lines.elided linenum pos end
    → Gives (check_condition_end clean_lines is_if end)
unfolding check_condition_end
check_condition_end-Gives clean_lines is_if end linenum pos (inl (e, _)) =
    rw (e, check_condition_end) ([], refl)
check_condition_end-Gives clean_lines true end linenum pos (inr (i, e, _, _, at, _)) =
    let (reports, g) = check_if_body-Gives clean_lines end (i + 1) at in
    rw (e, check_condition_end) (rw g (_, refl))
check_condition_end-Gives clean_lines false end linenum pos (inr (i, e, _, _, at, _)) =
    rw (e, check_condition_end) (_, refl)

loop_or_if-Shape : Reads loop_or_if (Shape 1 (1 ∷ []))
unfolding loop_or_if
loop_or_if-Shape =
    ⨟-Shape _ _ blanks-Shape
      (⨟-Shape _ _ (group-Shape 1 _ (any_of-Shape _)) (⨟-Shape _ _ blanks-Shape (one-Shape _)))

pub check_empty_block_body-Gives :
    (clean_lines : CleansedLines) (linenum : ℕ)
    → linenum < length clean_lines.elided
    → Gives (check_empty_block_body clean_lines linenum)
unfolding check_empty_block_body
check_empty_block_body-Gives clean_lines linenum here =
    let line = line_at clean_lines.elided linenum in
    elim (Option-cases (matches loop_or_if line)) [
      | inl e ↦ rw (e, check_empty_block_body) ([], refl)
      | inr (m, e) ↦
          let some_text =
            group_one-lt 0 line m (matches-Shows loop_or_if line m loop_or_if-Shape e) in
          let lt = or_zero-lt line (codes "(") (omega arith) (omega arith) in
          let (char, at) = get_elem?-some line (or_zero (find line (codes "("))) lt in
          let (end, g, is_end) =
            close_expression-IsEnd clean_lines.elided linenum (or_zero (find line (codes "(")))
              (get_elem?-line_at clean_lines.elided linenum here) at in
          let (reports, f) =
            check_condition_end-Gives clean_lines (group_text m 1 == codes "if") end linenum _
              is_end in
          rw (e, check_empty_block_body) (rw g (reports, f))
    ]
