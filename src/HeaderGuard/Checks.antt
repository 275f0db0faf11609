-- ===== src/HeaderGuard/Checks.antt =====
-- `CheckForHeaderGuard` of lab5/cpplint.py. It calls `ParseNolintSuppressions` and `error` in turn,
-- and an error may be dropped by what was parsed before it: the model gives the calls in order.
use cs.Base.{
  ℕ, suc, ◌-◌, Bool, true, false, not, ◌&&◌, ◌||◌, Option, none, some, List, [], ◌∷◌, ◌++◌, Text,
  codes, nat_beq, text_eq, option_eq, ◌==◌, length, get_elem?, take, drop, is_space, cons_head,
  starts_with, if◌then◌else◌,
}
use cs.Re.{
  Pattern, Found, lit, one, ◌⨟◌, ◌∣∣◌, optional, many, group, space, line_start, boundary, group_of,
  matches, search_in,
}
use cs.Nolint.{Report, Suppressions, parse_nolint_suppressions}
use cs.HeaderGuard.{get_header_guard_cpp_variable}

abbrev pub begins_word : Text → Bool
begins_word [] = false
begins_word (c ∷ _) = not (is_space c)

-- `line.split()`
unfoldable pub words : Text → List Text
words [] = []
words (c ∷ s) =
    let rest = words s in
    if is_space c then rest else if begins_word s then cons_head c rest else (c ∷ []) ∷ rest

-- What the loop over the lines has found.
pub record Guard : Type 0 where
  pub ifndef : Text
  pub ifndef_linenum : ℕ
  pub define : Text
  pub endif : Text
  pub endif_linenum : ℕ

abbrev pub no_guard : Guard
no_guard = record { ifndef = []; ifndef_linenum = 0; define = []; endif = []; endif_linenum = 0 }

abbrev pub note_ifndef : ℕ → Text → Text → Guard → Guard
note_ifndef linenum directive name g =
    if (g.ifndef == []) && (directive == codes "#ifndef")
    then record g { ifndef = name; ifndef_linenum = linenum }
    else g

abbrev pub note_define : Text → Text → Guard → Guard
note_define directive name g =
    if (g.define == []) && (directive == codes "#define") then record g { define = name } else g

abbrev pub note_words : ℕ → List Text → Guard → Guard
note_words linenum (directive ∷ name ∷ _) g =
    note_define directive name (note_ifndef linenum directive name g)
note_words linenum _ g = g

unfoldable pub guard_line : ℕ → Text → Guard → Guard
guard_line linenum line g =
    let noted = note_words linenum (words line) g in
    if starts_with line (codes "#endif")
    then record noted { endif = line; endif_linenum = linenum }
    else noted

unfoldable pub scan_guard : ℕ → List Text → Guard → Guard
scan_guard linenum [] g = g
scan_guard linenum (line ∷ lines) g = scan_guard (suc linenum) lines (guard_line linenum line g)

-- A call that the check makes, of `error` or of `ParseNolintSuppressions`.
pub data Event : Type 0 where
  reported : Report → Event
  parsed : Text → ℕ → Event

-- The calls in turn: the suppressions that they leave, and the errors that are reported, those of
-- `ParseNolintSuppressions` among them.
unfoldable pub run_events : List Event → Suppressions → Suppressions × List Report
run_events [] s = (s, [])
run_events (reported r ∷ es) s = let (t, more) = run_events es s in (t, r ∷ more)
run_events (parsed line n ∷ es) s =
    let (t, malformed) = parse_nolint_suppressions line n s in
    let (u, more) = run_events es t in (u, malformed ++ more)

abbrev pub guard_report : ℕ → ℕ → Text → Event
guard_report linenum confidence message = reported (record {
  linenum = linenum;
  category = codes "build/header_guard";
  confidence = confidence;
  message = message;
})

abbrev pub no_guard_found : Text → Event
no_guard_found cppvar =
    guard_report 0 5 (codes "No #ifndef header guard found, suggested CPP variable is: " ++ cppvar)

abbrev pub wrong_style : Text → Guard → Event
wrong_style cppvar g =
    guard_report g.ifndef_linenum (if g.ifndef == cppvar ++ codes "_" then 0 else 5)
      (codes "#ifndef header guard has wrong style, please use: " ++ cppvar)

-- `//\s*NOLINT\(build/header_guard\)`
unfoldable pub guard_nolint : Pattern
guard_nolint = lit (codes "//") ⨟ many space ⨟ lit (codes "NOLINT(build/header_guard)")

-- Some line has the pattern; the one that is matched from the start of a line says so itself.
unfoldable pub any_found : Pattern → List Text → Bool
any_found m [] = false
any_found m (line ∷ lines) = elim (search_in m line) [ some _ ↦ true | none ↦ any_found m lines ]

-- `#endif\s*//\s*` with the variable, `(_)?\b`
unfoldable pub endif_comment : Text → Pattern
endif_comment cppvar =
    lit (codes "#endif")
    ⨟ many space
    ⨟ lit (codes "//")
    ⨟ many space
    ⨟ lit cppvar
    ⨟ optional (group 1 (lit (codes "_")))
    ⨟ boundary

-- `#endif\s*/\*\s*` with the variable, `(_)?\s*\*/`
unfoldable pub endif_block_comment : Text → Pattern
endif_block_comment cppvar =
    lit (codes "#endif")
    ⨟ many space
    ⨟ lit (codes "/*")
    ⨟ many space
    ⨟ lit cppvar
    ⨟ optional (group 1 (lit (codes "_")))
    ⨟ many space
    ⨟ lit (codes "*/")

-- `^(?:(?:'(?:\.|[^'])*')|(?:"(?:\.|[^"])*")|[^'"])*//`
unfoldable pub single_line_comment : Pattern
single_line_comment =
    let quoted = (λ (q : ℕ).
      one (λ c. nat_beq c q)
      ⨟ many (lit (codes ".") ∣∣ one (λ c. not (nat_beq c q)))
      ⨟ one (λ c. nat_beq c q)) in
    line_start
    ⨟ many (quoted b'\'' ∣∣ quoted b'"' ∣∣ one (λ c. not (nat_beq c b'\'' || nat_beq c b'"')))
    ⨟ lit (codes "//")

-- The report for a double underscore at the end of the variable.
abbrev pub if_underscore : Found → Event → List Event
if_underscore f e = if group_of f 1 == some (codes "_") then e ∷ [] else []

abbrev pub comment_message : Text → Text
comment_message cppvar = codes "#endif line should be \"#endif  // " ++ (cppvar ++ codes "\"")

-- The checks of the comment on the `#endif` line.
unfoldable pub check_endif : Text → List Text → Guard → List Event
check_endif cppvar lines g =
    let wrong = guard_report g.endif_linenum 5 (comment_message cppvar) ∷ [] in
    elim (matches (endif_comment cppvar) g.endif) [
      | some f ↦ if_underscore f (guard_report g.endif_linenum 0 (comment_message cppvar))
      | none ↦
          if any_found single_line_comment (take (length lines - 2) (drop 1 lines))
          then wrong
          else (elim (matches (endif_block_comment cppvar) g.endif) [
            | some f ↦ if_underscore f (
                guard_report g.endif_linenum 0
                  (codes "#endif line should be \"#endif  /* " ++ (cppvar ++ codes " */\"")))
            | none ↦ wrong
          ])
    ]

-- The checks of the variable; `none` for an IndexError.
unfoldable pub check_ifndef : Text → List Text → Guard → Option (List Event)
check_ifndef cppvar lines g =
    if g.ifndef == cppvar then some [] else (elim (get_elem? lines g.ifndef_linenum) [
      | none ↦ none
      | some line ↦ some (parsed line g.ifndef_linenum ∷ wrong_style cppvar g ∷ [])
    ])

abbrev pub and_endif : Text → List Text → Guard → List Event → Option Text → Option (List Event)
and_endif cppvar lines g events none = none
and_endif cppvar lines g events (some line) =
    some (events ++ (parsed line g.endif_linenum ∷ check_endif cppvar lines g))

unfoldable pub check_guard : Text → List Text → Guard → Option (List Event)
unfolding check_ifndef
check_guard cppvar lines g =
    if (g.ifndef == []) || ((g.define == []) || not (g.ifndef == g.define))
    then some (no_guard_found cppvar ∷ [])
    else (elim (check_ifndef cppvar lines g) [
      | none ↦ none
      | some events ↦ and_endif cppvar lines g events (get_elem? lines g.endif_linenum)
    ])

module _ (repository_name : Text → Text) (abspath : Text → Text) where
  -- `CheckForHeaderGuard`, over the lines without raw strings.
  unfoldable pub check_for_header_guard : Text → Text → List Text → Option (List Event)
  unfolding check_guard any_found
  check_for_header_guard root filename lines =
      if any_found guard_nolint lines
      then some []
      else (elim (get_header_guard_cpp_variable repository_name abspath root filename) [
        | none ↦ none
        | some cppvar ↦ check_guard cppvar lines (scan_guard 0 lines no_guard)
      ])
