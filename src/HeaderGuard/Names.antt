-- ===== src/HeaderGuard/Names.antt =====
-- What the loop of `CheckForHeaderGuard` finds, told by the lines: the first name behind a directive,
-- and the last `#endif`.
use cs.Base.{
  Bool, ◌∙◌, ℕ, suc, ◌+◌, ◌≡◌, refl, Bool-cases, Option-cases, inl, inr, true, false, Option, none,
  some, List, [], ◌∷◌, Text, codes, text_eq, text_beq_iff, ◌==◌, starts_with, get_elem?, All,
  text_beq, is_space, cons_head, arith, if◌then◌else◌,
}
use cs.HeaderGuard.Checks.{Guard, guard_line, scan_guard, words, begins_word, note_words}

-- The word behind this directive, where the line begins with both.
abbrev pub named : Text → List Text → Option Text
named directive (d ∷ name ∷ _) = if d == directive then some name else none
named directive _ = none

-- The name on the first line that has one.
unfoldable pub first_named : Text → List Text → Option Text
first_named directive [] = none
first_named directive (line ∷ lines) = elim (named directive (words line)) [
  | some name ↦ some name
  | none ↦ first_named directive lines
]

-- The last line that begins with `#endif`, with its number; the first has the number `n`.
unfoldable pub last_endif : ℕ → List Text → Option (ℕ × Text)
last_endif n [] = none
last_endif n (line ∷ lines) = elim (last_endif (suc n) lines) [
  | some found ↦ some found
  | none ↦ if starts_with line (codes "#endif") then some (n, line) else none
]

abbrev IsWord : Text → Type 0
IsWord t = (t == []) ≡ false

cons_head-IsWord : (c : ℕ) (ts : List Text) → All IsWord ts → All IsWord (cons_head c ts)
unfolding text_beq
cons_head-IsWord c [] h = (refl, tt)
cons_head-IsWord c (t ∷ ts) h = (refl, h.1)

words-IsWord : (s : Text) → All IsWord (words s)
unfolding words text_beq
words-IsWord [] = tt
words-IsWord (c ∷ s) =
    let rest = words-IsWord s in
    elim (Bool-cases (is_space c)) [
      | inl space ↦ rw (space, words) rest
      | inr other ↦ elim (Bool-cases (begins_word s)) [
        | inl more ↦ rw (other, more, words) (cons_head-IsWord c (words s) rest)
        | inr single ↦ rw (other, single, words) (refl, rest)
      ]
    ]

named-IsWord :
    (directive : Text) (ws : List Text) (name : Text)
    → All IsWord ws
    → named directive ws ≡ some name
    → IsWord name
named-IsWord directive [] name h e = absurd (ground arith)
named-IsWord directive (d ∷ []) name h e = absurd (ground arith)
named-IsWord directive (d ∷ w ∷ ws) name h e =
    let same : w ≡ name = ground arith in rw same at h.1.0

-- The text that a guard keeps, before and after the lines.
abbrev pub or_first : Text → Option Text → Text
or_first kept found = if kept == [] then (elim found [ none ↦ [] | some name ↦ name ]) else kept

note_words-ifndef :
    (n : ℕ) (ws : List Text) (g : Guard)
    → (note_words n ws g).ifndef ≡ or_first g.ifndef (named (codes "#ifndef") ws)
note_words-ifndef n [] g = ground (arith, text_beq_iff g.ifndef [])
note_words-ifndef n (d ∷ []) g = ground (arith, text_beq_iff g.ifndef [])
note_words-ifndef n (d ∷ name ∷ ws) g = ground (arith, text_beq_iff g.ifndef [])

note_words-define :
    (n : ℕ) (ws : List Text) (g : Guard)
    → (note_words n ws g).define ≡ or_first g.define (named (codes "#define") ws)
note_words-define n [] g = ground (arith, text_beq_iff g.define [])
note_words-define n (d ∷ []) g = ground (arith, text_beq_iff g.define [])
note_words-define n (d ∷ name ∷ ws) g = ground (arith, text_beq_iff g.define [])

guard_line-ifndef :
    (n : ℕ) (line : Text) (g : Guard)
    → (guard_line n line g).ifndef ≡ or_first g.ifndef (named (codes "#ifndef") (words line))
unfolding guard_line
guard_line-ifndef n line g = ground (arith, note_words-ifndef n (words line) g)

guard_line-define :
    (n : ℕ) (line : Text) (g : Guard)
    → (guard_line n line g).define ≡ or_first g.define (named (codes "#define") (words line))
unfolding guard_line
guard_line-define n line g = ground (arith, note_words-define n (words line) g)

abbrev or_rest : Option Text → Option Text → Option Text
or_rest (some name) rest = some name
or_rest none rest = rest

or_first_twice :
    (kept : Text) (found rest : Option Text)
    → ((name : Text) → found ≡ some name → IsWord name)
    → or_first (or_first kept found) rest ≡ or_first kept (or_rest found rest)
unfolding text_beq
or_first_twice [] none rest h = refl
or_first_twice (c ∷ kept) none rest h = refl
or_first_twice [] (some name) rest h = let word = h name refl in ground (arith, word)
or_first_twice (c ∷ kept) (some name) rest h = refl

first_named-cons :
    (directive line : Text) (lines : List Text)
    → first_named directive (line ∷ lines)
      ≡ or_rest (named directive (words line)) (first_named directive lines)
unfolding first_named
first_named-cons directive line lines = elim (Option-cases (named directive (words line))) [
  | inl e ↦ rw (e, first_named) refl
  | inr (name, e) ↦ rw (e, first_named) refl
]

or_first-first_named :
    (directive kept line : Text) (lines : List Text)
    → or_first (or_first kept (named directive (words line))) (first_named directive lines)
      ≡ or_first kept (first_named directive (line ∷ lines))
or_first-first_named directive kept line lines = rw (first_named-cons directive line lines) (
    or_first_twice kept (named directive (words line)) (first_named directive lines)
      (λ name e. named-IsWord directive (words line) name (words-IsWord line) e))

pub scan_guard-ifndef :
    (n : ℕ) (lines : List Text) (g : Guard)
    → (scan_guard n lines g).ifndef ≡ or_first g.ifndef (first_named (codes "#ifndef") lines)
unfolding scan_guard
scan_guard-ifndef n [] g = unfold first_named in ground (arith, text_beq_iff g.ifndef [])
scan_guard-ifndef n (line ∷ lines) g =
    scan_guard-ifndef (suc n) lines (guard_line n line g)
    ∙ rw (guard_line-ifndef n line g) (or_first-first_named (codes "#ifndef") g.ifndef line lines)

pub scan_guard-define :
    (n : ℕ) (lines : List Text) (g : Guard)
    → (scan_guard n lines g).define ≡ or_first g.define (first_named (codes "#define") lines)
unfolding scan_guard
scan_guard-define n [] g = unfold first_named in ground (arith, text_beq_iff g.define [])
scan_guard-define n (line ∷ lines) g =
    scan_guard-define (suc n) lines (guard_line n line g)
    ∙ rw (guard_line-define n line g) (or_first-first_named (codes "#define") g.define line lines)

-- The `#endif` that a guard keeps, before and after the lines.
abbrev pub or_last : ℕ × Text → Option (ℕ × Text) → ℕ × Text
or_last kept none = kept
or_last kept (some found) = found

note_words-endif :
    (n : ℕ) (ws : List Text) (g : Guard)
    → ((note_words n ws g).endif ≡ g.endif) × ((note_words n ws g).endif_linenum ≡ g.endif_linenum)
note_words-endif n [] g = (refl, refl)
note_words-endif n (d ∷ []) g = (refl, refl)
note_words-endif n (d ∷ name ∷ ws) g = ground arith

abbrev pub endif_of : Guard → ℕ × Text
endif_of g = (g.endif_linenum, g.endif)

guard_line-endif :
    (n : ℕ) (line : Text) (g : Guard)
    → endif_of (guard_line n line g)
      ≡ (if starts_with line (codes "#endif") then (n, line) else endif_of g)
unfolding guard_line
guard_line-endif n line g = ground (arith, note_words-endif n (words line) g)

last_cases :
    (here : Bool) (found kept : ℕ × Text) (later : Option (ℕ × Text))
    → or_last (if here then found else kept) later
      ≡ or_last kept
          (elim later [ some last ↦ some last | none ↦ if here then some found else none ])
last_cases true found kept none = refl
last_cases false found kept none = refl
last_cases here found kept (some last) = refl

pub scan_guard-endif :
    (n : ℕ) (lines : List Text) (g : Guard)
    → endif_of (scan_guard n lines g) ≡ or_last (endif_of g) (last_endif n lines)
unfolding scan_guard last_endif
scan_guard-endif n [] g = refl
scan_guard-endif n (line ∷ lines) g =
    scan_guard-endif (suc n) lines (guard_line n line g)
    ∙ rw (guard_line-endif n line g) (
        last_cases (starts_with line (codes "#endif")) (n, line) (endif_of g)
          (last_endif (suc n) lines))

pub last_endif-at :
    (n : ℕ) (lines : List Text) (k : ℕ) (line : Text)
    → last_endif n lines ≡ some (k, line)
    → (i : ℕ) × (k ≡ n + i) × (get_elem? lines i ≡ some line)
unfolding last_endif
last_endif-at n [] k line e = absurd (ground arith)
last_endif-at n (l ∷ lines) k line e = elim (Option-cases (last_endif (suc n) lines)) [
  | inl none_later ↦ (0, ground arith, ground arith)
  | inr ((m, last), later) ↦
      let (i, at, here) = last_endif-at (suc n) lines m last later in
      (suc i, ground arith, ground arith)
]
