-- ===== src/IncludeState/Headers.antt =====
-- The include list: no operation meets an IndexError, and `find_header` gives the first
-- line on which a header was added.
use cs.Base.{
  Bool-cases, Option-cases, inl, inr, ℕ, ◌≡◌, ◌≢◌, refl, Option, none, some, List, [], ◌∷◌, ◌++◌,
  Text, contains, text_eq, ◌==◌, arith, if◌then◌else◌,
}
use cs.IncludeState.{
  HeaderType, IncludeState, if_directives, else_directives, initial_section, change_last,
  reset_section, set_last_header, add_include, check_next_include_order, find_header, find_in_lists,
  find_in_section,
}
use cs.IncludeState.Order.{check_next_include_order_effect}

-- `include_list[-1]` exists.
abbrev pub IsWellFormed : IncludeState → Type 0
IsWellFormed s = s.include_list ≢ []

-- The calls that a checker makes on its include state.
pub data Call : Type 0 where
  reset : Text → Call
  last : Text → Call
  check : HeaderType → Call
  add : Text → ℕ → Call

unfoldable pub call : Call → IncludeState → Option IncludeState
call (reset d) s = reset_section d s
call (last t) s = some (set_last_header t s)
call (check h) s = some (check_next_include_order h s).1
call (add t n) s = add_include t n s

unfoldable pub calls : List Call → IncludeState → Option IncludeState
unfolding call
calls [] s = some s
calls (c ∷ cs) s = elim (call c s) [ none ↦ none | some s' ↦ calls cs s' ]

change_last_total {ℓ} :
    {A : Type ℓ} (f : A → A) (xs : List A)
    → xs ≢ []
    → (ys : List A) × (change_last f xs ≡ some ys) × (ys ≢ [])
unfolding change_last
change_last_total f [] h = absurd (h refl)
change_last_total f (x ∷ []) h = (f x ∷ [], refl, ground arith)
change_last_total f (x ∷ y ∷ ys) h =
    let (zs, e, ne) = change_last_total f (y ∷ ys) (ground arith) in (x ∷ zs, rw e, ground arith)

append_ne_nil {ℓ} : {A : Type ℓ} (xs : List A) (x : A) → xs ++ x ∷ [] ≢ []
append_ne_nil [] x = ground arith
append_ne_nil (y ∷ ys) x = ground arith

abbrev pub Succeeds : Option IncludeState → Type 0
Succeeds o = (t : IncludeState) × (o ≡ some t) × IsWellFormed t

reset_section_total : (d : Text) (s : IncludeState) → IsWellFormed s → Succeeds (reset_section d s)
unfolding reset_section
reset_section_total d s h =
    let (zs, e, ne) = change_last_total (λ _. []) s.include_list h in
    let cleared : IncludeState = record s { section = initial_section; last_header = [] } in
    elim (Bool-cases (contains if_directives d)) [
      | inl a ↦
          (record cleared { include_list = s.include_list ++ [] ∷ [] }, rw a, append_ne_nil _ _)
      | inr a ↦ elim (Bool-cases (contains else_directives d)) [
        | inl b ↦ (record cleared { include_list = zs }, rw (a, b, e), ne)
        | inr b ↦ (cleared, rw (a, b), h)
      ]
    ]

pub add_include_total :
    (t : Text) (n : ℕ) (s : IncludeState) → IsWellFormed s → Succeeds (add_include t n s)
unfolding add_include
add_include_total t n s h =
    let (zs, e, ne) = change_last_total (λ l. l ++ (t, n) ∷ []) s.include_list h in
    (record s { include_list = zs }, rw e, ne)

call_total : (c : Call) (s : IncludeState) → IsWellFormed s → Succeeds (call c s)
unfolding call
call_total (reset d) s h = reset_section_total d s h
call_total (last t) s h = (set_last_header t s, refl, unfold set_last_header in h)
call_total (check k) s h =
    ((check_next_include_order k s).1, refl, rw ((check_next_include_order_effect k s).1) h)
call_total (add t n) s h = add_include_total t n s h

-- Whatever calls are made on a fresh include state, each succeeds: no access to the last element
-- of the include list meets an empty list.
pub calls_total :
    (cs : List Call) (s : IncludeState)
    → IsWellFormed s
    → (t : IncludeState) × (calls cs s ≡ some t) × IsWellFormed t
unfolding calls
calls_total [] s h = (s, refl, h)
calls_total (c ∷ cs) s h =
    let (t, e, k) = call_total c s h in
    let (u, e', k') = calls_total cs t k in (u, rw (e, calls) e', k')

abbrev pub or_else : Option ℕ → Option ℕ → Option ℕ
or_else none o = o
or_else (some n) o = some n

find_in_section-append :
    (k header : Text) (n : ℕ) (l : List (Text × ℕ))
    → find_in_section k (l ++ (header, n) ∷ [])
      ≡ or_else (find_in_section k l) (if header == k then some n else none)
unfolding find_in_section
find_in_section-append k header n [] = refl
find_in_section-append k header n ((name, line) ∷ l) =
    ground (arith, find_in_section-append k header n l)

find_in_lists-change_last :
    (k header : Text) (n : ℕ) (ls ls' : List (List (Text × ℕ)))
    → change_last (λ l. l ++ (header, n) ∷ []) ls ≡ some ls'
    → find_in_lists k ls' ≡ or_else (find_in_lists k ls) (if header == k then some n else none)
unfolding find_in_lists change_last
find_in_lists-change_last k header n [] ls' e = cc
find_in_lists-change_last k header n (l ∷ []) ls' e =
    ground (arith, find_in_section-append k header n l)
find_in_lists-change_last k header n (l ∷ m ∷ ls) ls' e =
    elim (Option-cases (change_last (λ l'. l' ++ (header, n) ∷ []) (m ∷ ls))) [
      | inl none_left ↦ ground arith
      | inr (zs, changed) ↦ ground (arith, find_in_lists-change_last k header n (m ∷ ls) zs changed)
    ]

-- After a header is added, `find_header` gives for every name the line that it gave before if
-- there was one, and otherwise the new line for the added header alone.
pub find_header-add_include :
    (k header : Text) (n : ℕ) (s s' : IncludeState)
    → add_include header n s ≡ some s'
    → find_header s' k ≡ or_else (find_header s k) (if header == k then some n else none)
unfolding add_include find_header
find_header-add_include k header n s s' e =
    elim (Option-cases (change_last (λ l. l ++ (header, n) ∷ []) s.include_list)) [
      | inl none_left ↦ ground arith
      | inr (zs, changed) ↦
          ground (arith, find_in_lists-change_last k header n s.include_list zs changed)
    ]
