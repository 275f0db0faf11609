-- ===== src/IncludeWhatYouUse/Growth.antt =====
-- The dictionary of headers in lab5/cpplint.py's `CheckForIncludeWhatYouUse` only grows.
use cs.Base.{
  ℕ, suc, ◌≡◌, refl, sym, ap, ◌∙◌, inl, inr, Bool, true, Bool-cases, Option, none, some,
  Option-cases, List, [], ◌∷◌, ◌++◌, Text, update, text_eq, ◌==◌, ==_self, ==_iff, arith,
  if◌then◌else◌,
}
use cs.Re.{search_in}
use cs.CleansedLines.{group_text}
use cs.Comments.{cleanse_comments}
use cs.Includes.{include_pattern}
use cs.IncludeState.{find_in_lists, find_in_section}
use cs.Modules.{files_belong_to_same_module}
use cs.IncludeWhatYouUse.{has_key, set_default, put, include_lines, section_items, all_items}
use cs.IncludeWhatYouUse.Headers.{update_include_state, header_loop}

-- The keys of `d` are keys of `d'`.
abbrev pub Grows : List (Text × ℕ) → List (Text × ℕ) → Type 0
Grows d d' = (k : Text) → has_key k d ≡ true → has_key k d' ≡ true

append-Grows : (d d' : List (Text × ℕ)) → Grows d (d ++ d')
unfolding has_key
append-Grows [] d' k h = absurd (ground arith)
append-Grows ((j, n) ∷ d) d' k h = elim (Bool-cases (j == k)) [
  | inl e ↦ rw e refl
  | inr e ↦ rw e (append-Grows d d' k (rw e at h))
]

set_default-Grows : (j : Text) (n : ℕ) (d : List (Text × ℕ)) → Grows d (set_default j n d)
unfolding set_default
set_default-Grows j n d k h = elim (Bool-cases (has_key j d)) [
  | inl e ↦ rw (e, set_default) h
  | inr e ↦ rw (e, set_default) (append-Grows d ((j, n) ∷ []) k h)
]

include_lines-Grows :
    (n : ℕ) (lines : List Text) (d : List (Text × ℕ)) → Grows d (include_lines n lines d)
unfolding include_lines
include_lines-Grows n [] d k h = h
include_lines-Grows n (line ∷ rest) d k h =
    elim (Option-cases (search_in include_pattern (cleanse_comments line))) [
      | inl e ↦ rw (e, include_lines) (include_lines-Grows (suc n) rest d k h)
      | inr (f, e) ↦
          rw (e, include_lines)
            (include_lines-Grows (suc n) rest (set_default (group_text f 2) n d) k
              (set_default-Grows (group_text f 2) n d k h))
    ]

update_include_state-Grows :
    (file : Option (List Text)) (d : List (Text × ℕ)) → Grows d (update_include_state file d).1
unfolding update_include_state
update_include_state-Grows none d k h = h
update_include_state-Grows (some lines) d k h = include_lines-Grows 1 lines d k h

put-Grows : (j : Text) (n : ℕ) (d : List (Text × ℕ)) → Grows d (put j n d)
unfolding put update has_key
put-Grows j n [] k h = absurd (ground arith)
put-Grows j n ((i, m) ∷ d) k h = elim (Bool-cases (i == j)) [
  | inl e ↦ rw e h
  | inr e ↦ elim (Bool-cases (i == k)) [
    | inl g ↦ rw (e, g) refl
    | inr g ↦ rw (e, g) (put-Grows j n d k (rw g at h))
  ]
]

put_there : (j : Text) (n : ℕ) (d : List (Text × ℕ)) → has_key j (put j n d) ≡ true
unfolding put update has_key
put_there j n [] = rw (==_self j) refl
put_there j n ((i, m) ∷ d) = elim (Bool-cases (i == j)) [
  | inl e ↦ rw (e, e) refl
  | inr e ↦ rw (e, e) (put_there j n d)
]

section_items-Grows :
    (items : List (Text × ℕ)) (d : List (Text × ℕ)) → Grows d (section_items items d)
unfolding section_items
section_items-Grows [] d k h = h
section_items-Grows ((j, n) ∷ items) d k h =
    section_items-Grows items (put j n d) k (put-Grows j n d k h)

all_items-Grows :
    (lists : List (List (Text × ℕ))) (d : List (Text × ℕ)) → Grows d (all_items lists d)
unfolding all_items
all_items-Grows [] d k h = h
all_items-Grows (items ∷ lists) d k h =
    all_items-Grows lists (section_items items d) k (section_items-Grows items d k h)

section_items-found :
    (items : List (Text × ℕ)) (d : List (Text × ℕ)) (k : Text) (n : ℕ)
    → find_in_section k items ≡ some n
    → has_key k (section_items items d) ≡ true
unfolding find_in_section section_items
section_items-found [] d k n h = absurd (ground arith)
section_items-found ((j, m) ∷ items) d k n h = elim (Bool-cases (j == k)) [
  | inl e ↦
      let same = (==_iff j k).0 e in
      let there : has_key k (put j m d) ≡ true =
        sym (ap (λ t. has_key t (put j m d)) same) ∙ put_there j m d in
      section_items-Grows items (put j m d) k there
  | inr e ↦ section_items-found items (put j m d) k n (rw (e, find_in_section) at h)
]

pub all_items-found :
    (lists : List (List (Text × ℕ))) (d : List (Text × ℕ)) (k : Text) (n : ℕ)
    → find_in_lists k lists ≡ some n
    → has_key k (all_items lists d) ≡ true
unfolding find_in_lists all_items
all_items-found [] d k n h = absurd (ground arith)
all_items-found (items ∷ lists) d k n h = elim (Option-cases (find_in_section k items)) [
  | inr (m, e) ↦ all_items-Grows lists (section_items items d) k (section_items-found items d k m e)
  | inl e ↦ all_items-found lists (section_items items d) k n (rw (e, find_in_lists) at h)
]

module _ (repository_name : Text → Text) (abspath : Text → Text)
    (read_file : Text → Option (List Text)) where
  pub header_loop-Grows :
      (abs_filename : Text) (keys : List Text) (found : Bool) (d : List (Text × ℕ))
      → Grows d (header_loop repository_name abspath read_file abs_filename keys found d).1
  unfolding header_loop
  header_loop-Grows abs_filename [] found d k h = h
  header_loop-Grows abs_filename (header ∷ rest) found d k h =
      let r = files_belong_to_same_module repository_name abs_filename header in
      elim (Bool-cases r.0) [
        | inr e ↦ rw (e, header_loop) (header_loop-Grows abs_filename rest found d k h)
        | inl e ↦
            let u = update_include_state (read_file (r.1 ++ header)) d in
            rw (e, header_loop)
              (header_loop-Grows abs_filename rest (if u.0 then true else found) u.1 k
                (update_include_state-Grows (read_file (r.1 ++ header)) d k h))
      ]
