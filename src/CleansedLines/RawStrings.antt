-- ===== src/CleansedLines/RawStrings.antt =====
-- `CleanseRawStrings` ends on every file and keeps the number of lines.
use cs.Base.{
  ℕ, zero, suc, ◌+◌, ◌≤◌, ◌<◌, ◌≡◌, refl, ap, ◌⊎◌, inl, inr, Bool, true, false, not, Bool-cases,
  Option, none, some, Option-cases, List, [], ◌∷◌, ◌++◌, Text, codes, length, length-append,
  length-drop_le, drop, find, starts_with, is_space, arith, if◌then◌else◌,
}
use cs.Re.{
  taken, Position, many_from, space, Found, one, lit, ◌⨟◌, many, group, line_start, any_char,
  matches, group_of,
}
use cs.Re.Reads.{Groups, Reads, boundary-Reads, line_start-Reads, line_end-Reads}
use cs.Re.Shapes.{
  Shape, size_of, groups_three, Empty-Shape, lit-Shape, many-one-Shape, lazy_one-Shape,
  Shape-weaken, ⨟-Shape, ∣∣-Shape, group-Shape,
}
use cs.Re.Shows.{matches-Shows, matches_of}
use cs.CleansedLines.{
  leading_space, is_delimiter_char, raw_string_start, group_text, delimiter_of, close_raw,
  raw_string_in, raw_loop, resume, loop_unless, raw_line, raw_lines_from, cleanse_raw_strings,
}

-- Three groups, and three more characters: a letter, a quote and a parenthesis.
raw_string_start-Shape : Reads raw_string_start (Shape 3 (3 ∷ 2 ∷ 1 ∷ []))
unfolding raw_string_start
raw_string_start-Shape =
    let prefix = λ (w : Text). λ (h : 1 ≤ length w). Shape-weaken 1 (lit w) h (lit-Shape w) in
    let prefixes = ∣∣-Shape _ _ (prefix (codes "R") (omega arith)) (
      ∣∣-Shape _ _ (prefix (codes "u8R") (omega arith)) (
        ∣∣-Shape _ _ (prefix (codes "uR") (omega arith)) (
          ∣∣-Shape _ _ (prefix (codes "UR") (omega arith)) (prefix (codes "LR") (omega arith))))) in
    ⨟-Shape _ _ (Empty-Shape _ line_start-Reads) (
      ⨟-Shape _ _ (group-Shape 1 _ (lazy_one-Shape any_char)) (
        ⨟-Shape _ _ (Empty-Shape _ boundary-Reads) (
          ⨟-Shape _ _ prefixes (
            ⨟-Shape _ _ (lit-Shape (codes "\"")) (
              ⨟-Shape _ _ (group-Shape 2 _ (many-one-Shape is_delimiter_char)) (
                ⨟-Shape _ _ (lit-Shape (codes "(")) (
                  ⨟-Shape _ _ (group-Shape 3 _ (many-one-Shape any_char))
                    (Empty-Shape _ line_end-Reads))))))))

sizes_are :
    (f : Found) (line : Text)
    → 3 + size_of (group_of f 1) + size_of (group_of f 2) + size_of (group_of f 3) ≤ length line
    → 3 + length (group_text f 1) + length (group_text f 2) + length (group_text f 3) ≤ length line
sizes_are f line h = ground arith

-- The line that is left of a raw string on one line is shorter.
close_raw_shorter :
    (line : Text) (f : Found) (end : Option ℕ)
    → 3 + length (group_text f 1) + length (group_text f 2) + length (group_text f 3) ≤ length line
    → (close_raw f end).1 ≡ none
    → length (close_raw f end).0 < length line
close_raw_shorter line f none h closed = cc
close_raw_shorter line f (some end) h closed = omega (
  arith,
  length-append (group_text f 1)
      (codes "\"\"" ++ drop (end + length (delimiter_of f)) (group_text f 3)),
  length-drop_le (end + length (delimiter_of f)) (group_text f 3),
)

raw_string_in_size :
    (line : Text) (f : Found)
    → raw_string_in line ≡ some f
    → 3 + length (group_text f 1) + length (group_text f 2) + length (group_text f 3) ≤ length line
raw_string_in_size line f h = elim (Option-cases (matches raw_string_start line)) [
  | inl e ↦ absurd (ground arith)
  | inr (g, e) ↦
      let same : g ≡ f = ground arith in
      let shown = matches-Shows raw_string_start line g raw_string_start-Shape e in
      rw (← same) (sizes_are g line (groups_three 3 line g shown))
]

-- The delimiter of a raw string that goes on begins with a parenthesis.
abbrev IsDelimiter : Option Text → Type 0
IsDelimiter d = (d ≡ none) ⊎ ((u : Text) × (d ≡ some (b')' ∷ u)))

close_raw-IsDelimiter : (f : Found) (end : Option ℕ) → IsDelimiter (close_raw f end).1
close_raw-IsDelimiter f none = inr (group_text f 2 ++ codes "\"", refl)
close_raw-IsDelimiter f (some end) = inl refl

-- What the parts of the loop over the lines give: a line, and the delimiter of a string that goes
-- on.
abbrev Gives : Option (Text × Option Text) → Type 0
Gives o = (out : Text) × (d : Option Text) × (o ≡ some (out, d)) × IsDelimiter d

raw_loop_total : (fuel : ℕ) (line : Text) → length line < fuel → Gives (raw_loop fuel line)
unfolding raw_loop
raw_loop_total zero line h = absurd (omega arith)
raw_loop_total (suc fuel) line h = elim (Option-cases (raw_string_in line)) [
  | inl e ↦ (line, none, rw (e, raw_loop), inl refl)
  | inr (f, e) ↦
      let end = find (group_text f 3) (delimiter_of f) in
      let r = close_raw f end in
      elim (Option-cases r.1) [
        | inl closed ↦
            let shorter = close_raw_shorter line f end (raw_string_in_size line f e) closed in
            let (out, d, g, delimiter) = raw_loop_total fuel r.0 (omega arith) in
            (out, d, rw (e, closed, raw_loop) g, delimiter)
        | inr (d, open_) ↦
            (r.0, some d, rw (e, open_, raw_loop), rw open_ at (close_raw-IsDelimiter f end))
      ]
]

-- Some character of the text is no white space.
abbrev has_text : Text → Bool
has_text [] = false
has_text (c ∷ t) = if is_space c then has_text t else true

find-has_text :
    (t : Text) (c : ℕ) (u : Text) (n : ℕ)
    → is_space c ≡ false
    → find t (c ∷ u) ≡ some n
    → has_text t ≡ true
unfolding find starts_with
find-has_text [] c u n h e = cc
find-has_text (d ∷ t) c u n h e = elim (Bool-cases (is_space d)) [
  | inr text ↦ rw text refl
  | inl blank ↦ elim (Option-cases (find t (c ∷ u))) [
    | inl nowhere ↦ absurd (ground arith)
    | inr (m, later) ↦ rw blank (find-has_text t c u m h later)
  ]
]

abbrev Takes : (Position → Option Position) → Type 0
Takes k =
    (s : Position) (c : ℕ) (u : Text)
    → s.rest ≡ c ∷ u
    → is_space c ≡ false
    → (r : Position) × (k s ≡ some r)

-- Repeated white space goes on at a text that has more.
spaces_go_on :
    (fuel : ℕ) (t : Text) (s : Position) (k : Position → Option Position)
    → Takes k
    → s.rest ≡ t
    → length t ≤ fuel
    → has_text t ≡ true
    → (r : Position) × (many_from space fuel s k ≡ some r)
unfolding many_from one
spaces_go_on fuel [] s k takes e h text = absurd (ground arith)
spaces_go_on zero (c ∷ t) s k takes e h text = absurd (omega arith)
spaces_go_on (suc fuel) (c ∷ t) s k takes e h text = elim (Bool-cases (is_space c)) [
  | inl blank ↦
      let s' : Position = record s { past = c ∷ s.past; rest = t } in
      let (r, g) = spaces_go_on fuel t s' k takes refl (omega arith) (ground arith) in
      (r, ground arith)
  | inr here ↦ let (r, g) = takes s c t e here in (r, ground arith)
]

visible-Takes :
    (g : Position → Groups)
    → Takes (λ s. one (λ c. not (is_space c)) (record s { groups = g s }) some)
unfolding one
visible-Takes g s c u e h = (record { past = c ∷ s.past; rest = u; groups = g s }, ground arith)

leading_space_found :
    (line : Text) → has_text line ≡ true → (f : Found) × (matches leading_space line ≡ some f)
unfolding leading_space matches line_start group many ◌⨟◌
leading_space_found line text =
    let start : Position = record { past = []; rest = line; groups = [] } in
    let (r, e) =
      spaces_go_on (length line) line start _
        (visible-Takes (λ s. (1, some (taken start s)) ∷ s.groups)) refl (omega arith) text in
    matches_of leading_space line r e

loop_unless_total : (o : Option (Text × Option Text)) → Gives o → Gives (loop_unless o)
loop_unless_total o (line, none, e, h) =
    rw e (raw_loop_total (suc (length line)) line (omega arith))
loop_unless_total o (line, some d, e, h) = rw e (line, some d, refl, h)

resume_total : (u line : Text) → Gives (resume (b')' ∷ u) line)
unfolding resume
resume_total u line = elim (Option-cases (find line (b')' ∷ u))) [
  | inl g ↦ (codes "\"\"", some (b')' ∷ u), rw (g, resume), inr (u, refl))
  | inr (n, g) ↦
      let (f, found) = leading_space_found line (find-has_text line b')' u n refl g) in
      (
        group_text f 1 ++ (codes "\"\"" ++ drop (n + length (b')' ∷ u)) line),
        none,
        rw (g, found, resume),
        inl refl,
      )
]

raw_line_total : (d : Option Text) (line : Text) → IsDelimiter d → Gives (raw_line d line)
unfolding raw_line
raw_line_total none line h = loop_unless_total _ (line, none, refl, inl refl)
raw_line_total (some d) line (inl e) = cc
raw_line_total (some d) line (inr (u, e)) =
    let same : d ≡ b')' ∷ u = cc in rw same (loop_unless_total _ (resume_total u line))

raw_lines_from_total :
    (d : Option Text) (lines : List Text)
    → IsDelimiter d
    → (out : List Text) × (raw_lines_from d lines ≡ some out) × (length out ≡ length lines)
unfolding raw_lines_from
raw_lines_from_total d [] h = ([], refl, refl)
raw_lines_from_total d (line ∷ lines) h =
    let (line', d', e, h') = raw_line_total d line h in
    let (out, f, size_eq) = raw_lines_from_total d' lines h' in
    (line' ∷ out, rw (e, f, raw_lines_from), ap suc size_eq)

-- `cleanse_raw_strings` ends on every file, meets no missing match, and keeps the number of lines.
pub cleanse_raw_strings_total :
    (lines : List Text)
    → (out : List Text) × (cleanse_raw_strings lines ≡ some out) × (length out ≡ length lines)
unfolding cleanse_raw_strings
cleanse_raw_strings_total lines = raw_lines_from_total none lines (inl refl)
