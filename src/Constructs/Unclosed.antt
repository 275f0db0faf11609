-- ===== src/Constructs/Unclosed.antt =====
-- Where `check_for_non_standard_constructs` meets an IndexError: the arguments of a constructor have
-- a bracket that is open.
use cs.Base.{
  ℕ, ◌+◌, ◌≤◌, ◌≡◌, refl, true, false, Option-cases, inl, inr, none, some, List, [], ◌∷◌, ◌++◌,
  Text, nat_beq, starts_with, count_from, count_text, All, if◌then◌else◌, arith,
}
use cs.Re.{Found, matches}
use cs.CleansedLines.{CleansedLines, group_text}
use cs.Nesting.{Block, ClassInfo, class_info, NestingState, innermost_class}
use cs.LineChecks.Namespaces.{line_at}
use cs.Constructs.{
  last_component, constructor, check_for_non_standard_constructs, check_constructor, check_in_class,
  is_open_arg, constructor_args,
}
use cs.Constructs.Arguments.{join, behind, constructor_args-join}

occurrences : ℕ → Text → ℕ
occurrences c = count_text (c ∷ [])

occurrences-cons :
    (c d : ℕ) (s : Text) → occurrences c (d ∷ s) ≡ (if nat_beq d c then 1 else 0) + occurrences c s
unfolding occurrences count_text count_from starts_with
occurrences-cons c d s = ground arith

occurrences-append :
    (c : ℕ) (s t : Text) → occurrences c (s ++ t) ≡ occurrences c s + occurrences c t
occurrences-append c [] t = unfold occurrences count_text count_from in omega arith
occurrences-append c (d ∷ s) t =
    omega (arith, occurrences-cons c d (s ++ t), occurrences-cons c d s, occurrences-append c s t)

occurrences-comma :
    (c : ℕ) (s : Text) → nat_beq b',' c ≡ false → occurrences c (b',' ∷ s) ≡ occurrences c s
occurrences-comma c s h = ground (arith, occurrences-cons c b',' s)

-- There are no more of `opening` than of `closing`.
Covered : ℕ → ℕ → Text → Type 0
Covered opening closing s = occurrences opening s ≤ occurrences closing s

module _ (opening closing : ℕ) (h : nat_beq b',' opening ≡ false)
    (k : nat_beq b',' closing ≡ false) where
  behind-Covered :
      (args : List Text)
      → All (Covered opening closing) args
      → Covered opening closing (behind args)
  unfolding Covered
  behind-Covered [] a = unfold occurrences count_text count_from in omega arith
  behind-Covered (arg ∷ args) a = omega (
    arith,
    behind-Covered args a.1,
    a.0,
    occurrences-comma opening (arg ++ behind args) h,
    occurrences-comma closing (arg ++ behind args) k,
    occurrences-append opening arg (behind args),
    occurrences-append closing arg (behind args),
  )

  join-Covered :
      (args : List Text) → All (Covered opening closing) args → Covered opening closing (join args)
  unfolding Covered
  join-Covered [] a = unfold occurrences count_text count_from in omega arith
  join-Covered (arg ∷ args) a = omega (
    arith,
    behind-Covered args a.1,
    a.0,
    occurrences-append opening arg (behind args),
    occurrences-append closing arg (behind args),
  )

closed-Covered : (a : Text) → is_open_arg a ≡ false → Covered b'<' b'>' a × Covered b'(' b')' a
unfolding is_open_arg Covered occurrences
closed-Covered a h = (ground arith, ground arith)

Covered-closed : (a : Text) → Covered b'<' b'>' a → Covered b'(' b')' a → is_open_arg a ≡ false
unfolding is_open_arg Covered occurrences
Covered-closed a h k = ground arith

All-Covered :
    (args : List Text)
    → All (λ a. is_open_arg a ≡ false) args
    → All (Covered b'<' b'>') args × All (Covered b'(' b')') args
All-Covered [] h = (tt, tt)
All-Covered (arg ∷ args) (h, k) =
    let (x, y) = closed-Covered arg h in let (xs, ys) = All-Covered args k in ((x, xs), (y, ys))

constructor_args_open : (t : Text) → is_open_arg t ≡ true → constructor_args t ≡ none
constructor_args_open t h = elim (Option-cases (constructor_args t)) [
  | inl e ↦ e
  | inr (args, e) ↦
      let (same, closed) = constructor_args-join t args e in
      let (angles, rounds) = All-Covered args closed in
      let shut : is_open_arg (join args) ≡ false =
        Covered-closed (join args) (join-Covered b'<' b'>' refl refl args angles)
          (join-Covered b'(' b')' refl refl args rounds) in
      absurd (cc)
]

check_constructor_open :
    (linenum : ℕ) (base_classname line : Text) (match : Found)
    → matches (constructor base_classname) line ≡ some match
    → is_open_arg (group_text match 2) ≡ true
    → check_constructor linenum base_classname line ≡ none
unfolding check_constructor
check_constructor_open linenum base_classname line match e h =
    rw (e, constructor_args_open (group_text match 2) h, check_constructor) refl

check_in_class_open :
    (linenum : ℕ) (line : Text) (b : Block) (c : ClassInfo) (match : Found)
    → b.kind ≡ class_info c
    → b.seen_open_brace ≡ true
    → matches (constructor (last_component [] c.name)) line ≡ some match
    → is_open_arg (group_text match 2) ≡ true
    → check_in_class linenum line (some b) ≡ none
check_in_class_open linenum line b c match kind seen e h =
    rw (kind, seen, check_constructor_open linenum (last_component [] c.name) line match e h) refl

-- If a line of a class that has seen its brace, the innermost, declares a constructor whose
-- arguments have more `<` than `>`, or more `(` than `)`, the whole check ends with an IndexError:
-- it asks for an argument behind the last.
pub check_for_non_standard_constructs_open :
    (clean_lines : CleansedLines) (s : NestingState) (linenum : ℕ) (b : Block) (c : ClassInfo)
    (match : Found)
    → innermost_class s.stack ≡ some b
    → b.kind ≡ class_info c
    → b.seen_open_brace ≡ true
    → matches (constructor (last_component [] c.name)) (line_at clean_lines.elided linenum)
      ≡ some match
    → is_open_arg (group_text match 2) ≡ true
    → check_for_non_standard_constructs clean_lines s linenum ≡ none
unfolding check_for_non_standard_constructs
check_for_non_standard_constructs_open clean_lines s linenum b c match class kind seen found
      unclosed =
    let raised =
      check_in_class_open linenum (line_at clean_lines.elided linenum) b c match kind seen found
        unclosed in
    rw (class, raised, check_for_non_standard_constructs) refl
