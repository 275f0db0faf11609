-- ===== src/FunctionState/Calls.antt =====
-- `CheckForFunctionLengths` of lab5/cpplint.py succeeds on every line of a file.
use cs.Base.{
  get_elem?-some, ℕ, ◌<◌, ◌≡◌, refl, sym, ap, ◌∙◌, ◌⊎◌, inl, inr, Bool, true, false, Bool-cases,
  none, some, Option-cases, List, [], ◌∷◌, ◌++◌, Text, codes, length, drop, reversed, cons_head,
  is_space, lookup_or, nat_eq, arith,
}
use mathlib.Core.List.{append_assoc}
use cs.Re.{
  Position, Found, Pattern, one, lit, ◌⨟◌, ◌∣∣◌, many, many_from, group, taken, is_word, matches,
  match_at, search_from, search_in, group_of,
}
use cs.Re.Reads.{Groups, Reads, Reads-weaken, ∣∣-Reads, ⨟-Reads, one-Reads, lit-Reads, group-Reads}
use cs.Re.Repeats.{IsRepeated, many-Reads}
use cs.Re.Shows.{matches-Shows}
use cs.Nolint.{Report}
use cs.CleansedLines.{CleansedLines, group_text, cleansed_lines}
use cs.CleansedLines.Sizes.{cleansed_lines_total}
use cs.HeaderGuard.Checks.{words, begins_word}
use cs.FunctionState.{FunctionState, begin, check, count, end_function}
use cs.FunctionState.Bodies.{
  declaration, called_name, last_word, is_function_name, starting_func, function_title, Body,
  no_body, trivial, opens, find_body, no_body_report, enter_function, inside_function, function_end,
  no_text, check_for_function_lengths,
}

-- A search succeeds if the pattern is matched at some place.
search_goes :
    (m : Pattern) (a b past : Text)
    → ((p : Text)
        → (f : Found) × (match_at m (record { past = p; rest = b; groups = [] }) ≡ some f))
    → (f : Found) × (search_from m past (a ++ b) ≡ some f)
unfolding search_from
search_goes m [] [] past h = h past
search_goes m [] (c ∷ b) past h = let (f, e) = h past in (f, rw (e, search_from) refl)
search_goes m (c ∷ a) b past h =
    elim (Option-cases (match_at m (record { past = past; rest = c ∷ (a ++ b); groups = [] }))) [
      | inr (f, e) ↦ (f, rw (e, search_from) refl)
      | inl e ↦ let (f, g) = search_goes m a b (c ∷ past) h in (f, rw (e, search_from) g)
    ]

-- At a parenthesis the pattern of a called name is matched.
called_here :
    (b past : Text)
    → (f : Found) × (match_at called_name (record { past = past; rest = b'(' ∷ b; groups = [] })
        ≡ some f)
unfolding called_name group many many_from ◌⨟◌ ◌∣∣◌ one lit
called_here b past =
    let start : Position = record { past = past; rest = b'(' ∷ b; groups = [] } in
    let gs : Groups = (1, some (taken start start)) ∷ [] in
    let end : Position = record { past = b'(' ∷ past; rest = b; groups = gs } in
    (record { before = reversed past; whole = taken start end; after = b; groups = gs }, refl)

called_name_found : (a b : Text) → (f : Found) × (search_in called_name (a ++ b'(' ∷ b) ≡ some f)
unfolding search_in
called_name_found a b = search_goes called_name a (b'(' ∷ b) [] (called_here b)

Anything : Text → Groups → Type 0
Anything t gs = Unit

Anything-IsRepeated : IsRepeated Anything Anything
unfolding Anything
Anything-IsRepeated = record { nothing = tt; another = λ a b gs hs p q. tt }

many-Anything : {P : Text → Groups → Type 0} (m : Pattern) → Reads m P → Reads (many m) Anything
unfolding Anything
many-Anything m x =
    many-Reads m Anything Anything (Reads-weaken m (λ t gs p. tt) x) Anything-IsRepeated

-- The first group begins with a word's character, and a parenthesis follows it.
HasCall : Text → Groups → Type 0
HasCall t gs =
    (c : ℕ) × (r : Text) × (hs : Groups) × (t ≡ (c ∷ r) ++ b'(' ∷ [])
    × (gs ≡ (1, some (c ∷ r)) ∷ hs)
    × (is_word c ≡ true)

declaration-HasCall : Reads declaration HasCall
unfolding declaration HasCall
declaration-HasCall =
    Reads-weaken declaration
      (λ t gs (a, b, as_, bs, e, f, (hs, g, (a1, a2, _, _, e1, _, (c, e2, is_c, _), _)), (e3, f3)).
        (c, a2, hs, rw (e, e1, e2, e3) refl, rw (f, f3, g, e1, e2) refl, is_c))
      (⨟-Reads _ _
        (group-Reads 1 _ (
          ⨟-Reads _ _ (one-Reads is_word) (
            many-Anything _ (
              group-Reads 2 _ (
                ∣∣-Reads _ _ (one-Reads _) (
                  ∣∣-Reads _ _ (lit-Reads _)
                    (∣∣-Reads _ _ (lit-Reads _) (∣∣-Reads _ _ (lit-Reads _) (one-Reads _)))))))))
        (lit-Reads (codes "(")))

cons_head_some :
    (c : ℕ) (ts : List Text) → (w : Text) × (ws : List Text) × (cons_head c ts ≡ w ∷ ws)
cons_head_some c [] = (c ∷ [], [], refl)
cons_head_some c (t ∷ ts) = (c ∷ t, ts, refl)

words_some :
    (c : ℕ) (t : Text)
    → is_space c ≡ false
    → (w : Text) × (ws : List Text) × (words (c ∷ t) ≡ w ∷ ws)
unfolding words
words_some c t h = elim (Bool-cases (begins_word t)) [
  | inr alone ↦ (c ∷ [], words t, rw (h, alone) refl)
  | inl longer ↦ let (w, ws, e) = cons_head_some c (words t) in (w, ws, rw (h, longer) e)
]

last_word-some : (w : Text) (ws : List Text) → (x : Text) × (last_word (w ∷ ws) ≡ some x)
unfolding last_word
last_word-some w [] = (w, refl)
last_word-some w (v ∷ ws) = last_word-some v ws

word_visible : (c : ℕ) → is_word c ≡ true → is_space c ≡ false
word_visible c h = ground arith

-- On a line with a declaration, the name is there.
starting_func_total : (line : Text) → (b : Bool) × (starting_func line ≡ some b)
unfolding starting_func group_of lookup_or HasCall
starting_func_total line = elim (Option-cases (matches declaration line)) [
  | inl e ↦ (false, rw (e, starting_func) refl)
  | inr (f, e) ↦
      let (c, r, hs, _, g, is_c) =
        (matches-Shows declaration line f declaration-HasCall e).gained in
      let (w, ws, split) = words_some c r (word_visible c is_c) in
      let (name, last) = last_word-some w ws in
      let first : group_of f 1 ≡ some (c ∷ r) = ap (lookup_or none 1) g in
      let same : group_text f 1 ≡ c ∷ r = rw (first, group_text) refl in
      let there : last_word (words (group_text f 1)) ≡ some name =
        ap (λ t. last_word (words t)) same ∙ ap last_word split ∙ last in
      (is_function_name name, rw (e, starting_func, there) refl)
]

-- A line with a declaration has a parenthesis.
called_name_there :
    (line : Text) (f : Found)
    → matches declaration line ≡ some f
    → (g : Found) × (search_in called_name line ≡ some g)
unfolding HasCall
called_name_there line f e =
    let shown = matches-Shows declaration line f declaration-HasCall e in
    let (c, r, hs, t, _, _) = shown.gained in
    let split : line ≡ (f.before ++ (c ∷ r)) ++ b'(' ∷ f.after =
      shown.text_eq
      ∙ ap (λ w. f.before ++ (w ++ f.after)) t
      ∙ ap (λ w. f.before ++ w) (append_assoc (c ∷ r) (b'(' ∷ []) f.after)
      ∙ sym (append_assoc f.before (c ∷ r) (b'(' ∷ f.after)) in
    let (g, found) = called_name_found (f.before ++ (c ∷ r)) f.after in
    (g, ap (search_in called_name) split ∙ found)

title_total :
    (line joined : Text) (f : Found)
    → search_in called_name line ≡ some f
    → (name : Text) × (function_title line joined ≡ some name)
unfolding function_title
title_total line joined f e = elim (Option-cases (function_title line joined)) [
  | inr there ↦ there
  | inl gone ↦ absurd (ground arith)
]

Body-cases : (b : Body) → ((b ≡ no_body) ⊎ (b ≡ trivial)) ⊎ ((t : Text) × (b ≡ opens t))
Body-cases no_body = inl (inl refl)
Body-cases trivial = inl (inr refl)
Body-cases (opens t) = inr (t, refl)

-- What a line may do: nothing, a report that no body was found, the beginning of a function, its
-- end with the check of its length, or one more line of it.
abbrev pub Effect : ℕ → ℕ → FunctionState → FunctionState → List Report → Type 0
Effect verbose n s t reports =
    ((t ≡ s) × ((reports ≡ []) ⊎ (reports ≡ no_body_report n ∷ [])))
    ⊎ (((name : Text) × (t ≡ begin name s) × (reports ≡ []))
        ⊎ (((t ≡ end_function s) × (reports ≡ check verbose n s))
            ⊎ ((t ≡ count s) × (reports ≡ []))))

starting-declares :
    (line : Text)
    → starting_func line ≡ some true
    → (f : Found) × (matches declaration line ≡ some f)
unfolding starting_func
starting-declares line h = elim (Option-cases (matches declaration line)) [
  | inr there ↦ there
  | inl e ↦ absurd (ground arith)
]

enter_function-Effect :
    (verbose n : ℕ) (line : Text) (lines : List Text) (s : FunctionState)
    → starting_func line ≡ some true
    → (t : FunctionState) × (reports : List Report) × (enter_function n line lines s
        ≡ some (t, reports))
      × Effect verbose n s t reports
unfolding enter_function
enter_function-Effect verbose n line lines s h = elim (Body-cases (find_body lines [])) [
  | inl (inl e) ↦ (s, no_body_report n ∷ [], rw (e, enter_function) refl, inl (refl, inr refl))
  | inl (inr e) ↦ (s, [], rw (e, enter_function) refl, inl (refl, inl refl))
  | inr (joined, e) ↦
      let (f, declared) = starting-declares line h in
      let (g, called) = called_name_there line f declared in
      let (name, titled) = title_total line joined g called in
      (begin name s, [], rw (e, titled, enter_function) refl, inr (inl (name, refl, refl)))
]

inside_function-Effect :
    (verbose n : ℕ) (line : Text) (s : FunctionState)
    → Effect verbose n s (inside_function verbose n line s).0 (inside_function verbose n line s).1
unfolding inside_function
inside_function-Effect verbose n line s = elim (Option-cases (matches function_end line)) [
  | inr (f, e) ↦ inr (inr (inl (rw (e, inside_function) refl, rw (e, inside_function) refl)))
  | inl e ↦ elim (Option-cases (matches no_text line)) [
    | inr (f, g) ↦ inl (rw (e, g, inside_function) refl, inl (rw (e, g, inside_function) refl))
    | inl g ↦ inr (inr (inr (rw (e, g, inside_function) refl, rw (e, g, inside_function) refl)))
  ]
]

-- On every line of every file, `check_for_function_lengths` meets no IndexError and no missing
-- match. It leaves the state as it is, with at most the report that no body was found; or begins a
-- function; or ends the function with the reports of its check; or counts the line.
pub check_for_function_lengths_total :
    (verbose : ℕ) (file : List Text) (lines : CleansedLines) (n : ℕ) (s : FunctionState)
    → cleansed_lines file ≡ some lines
    → n < length file
    → (t : FunctionState) × (reports : List Report) × (check_for_function_lengths verbose lines n s
        ≡ some (t, reports))
      × Effect verbose n s t reports
unfolding check_for_function_lengths
check_for_function_lengths_total verbose file lines n s made h =
    let (c, made', _, num, _, lines_num, _) = cleansed_lines_total file in
    let same : c ≡ lines = ground arith in
    let sizes : length lines.lines ≡ length file = rw same at (lines_num ∙ num) in
    let (line, here) = get_elem?-some lines.lines n (omega arith) in
    let (starts, e) = starting_func_total line in
    elim (Bool-cases starts) [
      | inr no_ ↦
          let r = inside_function verbose n line s in
          (
            r.0,
            r.1,
            rw (here, e, no_, check_for_function_lengths) refl,
            inside_function-Effect verbose n line s,
          )
      | inl yes_ ↦
          let (t, reports, f, effect) =
            enter_function-Effect verbose n line (drop n lines.lines) s (e ∙ ap some yes_) in
          (t, reports, rw (here, e, yes_, check_for_function_lengths) f, effect)
    ]
