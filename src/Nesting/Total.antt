-- ===== src/Nesting/Total.antt =====
-- `NestingState.Update` of lab5/cpplint.py succeeds on every line of a file.
use cs.Base.{
  get_elem?-some, ℕ, zero, suc, ◌+◌, ◌<◌, ◌≡◌, refl, sym, ap, inl, inr, Bool-cases, some,
  Option-cases, List, [], ◌++◌, Text, codes, length, length-drop_le, find, arith,
}
use cs.Re.{Found, some_of, any_char, matches, group_of}
use cs.Re.Reads.{
  Reads, line_start-Reads, boundary-Reads, one-Reads, optional-Reads, group-Reads, ⨟-Reads,
}
use cs.Re.Repeats.{many-one-Reads}
use cs.Re.Ends.{Ends, any-Long, lit-Long, one-Long, group-Long, ⨟-Ends, last-Ends, matches-Ends}
use cs.Nolint.{Report}
use cs.CleansedLines.{CleansedLines, group_text, cleansed_lines}
use cs.CleansedLines.Sizes.{cleansed_lines_total}
use cs.Nesting.{NestingState}
use cs.Nesting.Blocks.{class_block}
use cs.Nesting.Openings.{
  push, namespace_decl, open_namespace, namespace_loop, class_decl, open_class, no_parentheses,
  begin_block,
}
use cs.Nesting.Rounds.{in_template_argument_list_total}
use cs.Nesting.Update.{
  is_token, next_token, at_token, brace_loop, access_control, update_blocks, enter_line, update,
}

namespace_decl-Ends : Reads namespace_decl (Ends 2 9)
unfolding namespace_decl some_of
namespace_decl-Ends = ⨟-Ends 2 0 9 _ _ (any-Long _ line_start-Reads) (
    ⨟-Ends 2 0 9 _ _ (any-Long _ (many-one-Reads _)) (
      ⨟-Ends 2 9 0 _ _ (lit-Long (codes "namespace")) (
        ⨟-Ends 2 0 0 _ _ (any-Long _ boundary-Reads) (
          ⨟-Ends 2 0 0 _ _ (any-Long _ (many-one-Reads _)) (
            ⨟-Ends 2 0 0 _ _
              (any-Long _
                (optional-Reads _ (group-Reads 1 _ (⨟-Reads _ _ (one-Reads _) (many-one-Reads _)))))
              (last-Ends 2 _ (many-one-Reads any_char)))))))

next_token-Ends : Reads next_token (Ends 2 1)
unfolding next_token
next_token-Ends = ⨟-Ends 2 0 1 _ _ (any-Long _ line_start-Reads) (
    ⨟-Ends 2 0 1 _ _ (any-Long _ (many-one-Reads _)) (
      ⨟-Ends 2 1 0 _ _ (group-Long 1 1 _ (one-Long is_token))
        (last-Ends 2 _ (many-one-Reads any_char))))

group_text_of : (f : Found) (i : ℕ) (u : Text) → group_of f i ≡ some u → group_text f i ≡ u
group_text_of f i u e = rw (e, group_text) refl

open_namespace_shorter :
    (n : ℕ) (line : Text) (f : Found) (s : NestingState)
    → matches namespace_decl line ≡ some f
    → length (open_namespace n f s).0 < length line
unfolding open_namespace
open_namespace_shorter n line f s e =
    let (u, g, h) = matches-Ends 2 9 namespace_decl line f namespace_decl-Ends e in
    let same = ap (length {0}) (group_text_of f 2 u g) in
    elim (Option-cases (find (group_text f 2) (codes "{"))) [
      | inl k ↦ rw (k, open_namespace) (omega arith)
      | inr (i, k) ↦ rw (k, open_namespace) (omega (arith, length-drop_le (i + 1) (group_text f 2)))
    ]

namespace_loop_total :
    (fuel n : ℕ) (line : Text) (s : NestingState)
    → length line < fuel
    → (line' : Text) × (t : NestingState) × (namespace_loop fuel n line s ≡ some (line', t))
unfolding namespace_loop
namespace_loop_total zero n line s h = absurd (omega arith)
namespace_loop_total (suc fuel) n line s h = elim (Option-cases (matches namespace_decl line)) [
  | inl e ↦ (line, s, rw (e, namespace_loop) refl)
  | inr (f, e) ↦
      let r = open_namespace n f s in
      let (line', t, g) =
        namespace_loop_total fuel n r.0 r.1 (omega (arith, open_namespace_shorter n line f s e)) in
      (line', t, rw (e, namespace_loop) g)
]

open_class_total :
    (lines : CleansedLines) (n : ℕ) (raw line : Text) (s : NestingState)
    → lines.num_lines ≡ length lines.elided
    → (line' : Text) × (t : NestingState) × (open_class lines n raw line s ≡ some (line', t))
unfolding open_class
open_class_total lines n raw line s e = elim (Option-cases (matches class_decl line)) [
  | inl g ↦ (line, s, rw (g, open_class) refl)
  | inr (f, g) ↦ elim (Bool-cases (no_parentheses s)) [
    | inr k ↦ (line, s, rw (g, k, open_class) refl)
    | inl k ↦
        let (b, h) = in_template_argument_list_total lines n (length (group_text f 1)) e in
        elim (Bool-cases b) [
          | inl yes_ ↦ (line, s, rw (g, k, h, yes_, open_class) refl)
          | inr no_ ↦ (
            group_text f 4,
            push (class_block (group_text f 3) (group_text f 2) lines n raw) s,
            rw (g, k, h, no_, open_class) refl,
          )
        ]
  ]
]

brace_loop_total :
    (fuel : ℕ) (lines : CleansedLines) (n : ℕ) (elided raw line : Text) (s : NestingState)
    → length line < fuel
    → (t : NestingState) × (reports : List Report) × (brace_loop fuel lines n elided raw line s
        ≡ some (t, reports))
unfolding brace_loop
brace_loop_total zero lines n elided raw line s h = absurd (omega arith)
brace_loop_total (suc fuel) lines n elided raw line s h =
    elim (Option-cases (matches next_token line)) [
      | inl e ↦ (s, [], rw (e, brace_loop) refl)
      | inr (f, e) ↦
          let (u, g, shorter) = matches-Ends 2 1 next_token line f next_token-Ends e in
          let r = at_token lines n elided raw line (group_text f 1) s in
          let (t, more, k) =
            brace_loop_total fuel lines n elided raw (group_text f 2) r.0
              (omega (arith, ap (length {0}) (group_text_of f 2 u g))) in
          (t, r.1 ++ more, rw (e, k, brace_loop) refl)
    ]

update_blocks_total :
    (lines : CleansedLines) (n : ℕ) (elided raw line : Text) (s : NestingState)
    → (t : NestingState) × (reports : List Report) × (update_blocks lines n elided raw line s
        ≡ some (t, reports))
unfolding update_blocks
update_blocks_total lines n elided raw line s =
    let r = access_control n line (begin_block elided s) in
    let (t, more, e) =
      brace_loop_total (suc (length line)) lines n elided raw line r.0 (omega arith) in
    (t, r.1 ++ more, rw (e, update_blocks) refl)

-- On every line of every file, `update` ends and meets neither an IndexError nor a missing match.
pub update_total :
    (file : List Text) (lines : CleansedLines) (n : ℕ) (s : NestingState)
    → cleansed_lines file ≡ some lines
    → n < length file
    → (t : NestingState) × (reports : List Report) × (update lines n s ≡ some (t, reports))
unfolding update
update_total file lines n s made h =
    let (c, made', raw_eq, num, elided_num, _, _) = cleansed_lines_total file in
    let same : c ≡ lines = ground arith in
    let sizes : lines.num_lines ≡ length lines.elided = rw same at (sym elided_num) in
    let raws : lines.raw_lines ≡ file = rw same at raw_eq in
    let count : lines.num_lines ≡ length file = rw same at num in
    let (line, here) = get_elem?-some lines.elided n (omega arith) in
    let (raw, there) = get_elem?-some lines.raw_lines n (omega (arith, ap (length {0}) raws)) in
    let (line1, s1, e) =
      namespace_loop_total (suc (length line)) n line (enter_line line s) (omega arith) in
    let (line2, s2, f) = open_class_total lines n raw line1 s1 sizes in
    let (t, reports, g) = update_blocks_total lines n line raw line2 s2 in
    (t, reports, rw (here, there, e, f, update) g)
