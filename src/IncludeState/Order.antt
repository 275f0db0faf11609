-- ===== src/IncludeState/Order.antt =====
-- The order of the sections: which sequences of header types `check_next_include_order` accepts,
-- and what it changes.
use cs.Base.{
  ◌≤◌, ◌≡◌, refl, Bool, true, false, ◌&&◌, ◌||◌, not, List, [], ◌∷◌, text_eq, ◌==◌, arith, ltb,
  text_beq, if◌then◌else◌,
}
use cs.IncludeState.{
  HeaderType, c_sys_header, cpp_sys_header, likely_my_header, possible_my_header, initial_section,
  c_section, cpp_section, other_h_section, section_number, IncludeState, check_next_include_order,
  same_section,
}

-- Every header of the list, in turn, is in order.
unfoldable pub all_in_order : IncludeState → List HeaderType → Bool
all_in_order s [] = true
all_in_order s (h ∷ hs) =
    let (message, s') = check_next_include_order h s in message == [] && all_in_order s' hs

abbrev pub is_c : HeaderType → Bool
is_c c_sys_header = true
is_c _ = false

abbrev pub is_cpp : HeaderType → Bool
is_cpp cpp_sys_header = true
is_cpp _ = false

abbrev pub is_mine : HeaderType → Bool
is_mine likely_my_header = true
is_mine possible_my_header = true
is_mine _ = false

abbrev pub drop_while : (HeaderType → Bool) → List HeaderType → List HeaderType
drop_while p [] = []
drop_while p (h ∷ hs) = if p h then drop_while p hs else h ∷ hs

abbrev pub no_system : List HeaderType → Bool
no_system [] = true
no_system (h ∷ hs) = not (is_c h || is_cpp h) && no_system hs

-- After the own headers, then the C system headers, then the C++ system headers, no system header
-- follows.
abbrev pub is_sorted : List HeaderType → Bool
is_sorted hs = no_system (drop_while is_cpp (drop_while is_c (drop_while is_mine hs)))

in_other :
    (hs : List HeaderType) (s : IncludeState)
    → s.section ≡ other_h_section
    → all_in_order s hs ≡ no_system hs
unfolding all_in_order check_next_include_order text_beq
in_other [] s e = refl
in_other (h ∷ hs) s e = ground (arith, in_other hs (check_next_include_order h s).1)

in_cpp :
    (hs : List HeaderType) (s : IncludeState)
    → s.section ≡ cpp_section
    → all_in_order s hs ≡ no_system (drop_while is_cpp hs)
unfolding all_in_order check_next_include_order text_beq
in_cpp [] s e = refl
in_cpp (h ∷ hs) s e =
    let s' = (check_next_include_order h s).1 in ground (arith, in_cpp hs s', in_other hs s')

in_c :
    (hs : List HeaderType) (s : IncludeState)
    → s.section ≡ c_section
    → all_in_order s hs ≡ no_system (drop_while is_cpp (drop_while is_c hs))
unfolding all_in_order check_next_include_order text_beq
in_c [] s e = refl
in_c (h ∷ hs) s e =
    let s' = (check_next_include_order h s).1 in
    ground (arith, in_c hs s', in_cpp hs s', in_other hs s')

in_mine :
    (hs : List HeaderType) (s : IncludeState)
    → section_number s.section ≤ 1
    → all_in_order s hs ≡ is_sorted hs
unfolding all_in_order check_next_include_order text_beq
in_mine [] s e = refl
in_mine (h ∷ hs) s e =
    let s' = (check_next_include_order h s).1 in
    ground (arith, in_mine hs s', in_c hs s', in_cpp hs s', in_other hs s')

-- From a fresh section, `check_next_include_order` finds no error in a sequence of headers exactly
-- when own headers come first, then C system headers, then C++ system headers, and no system header
-- after those.
pub all_in_order_iff_sorted :
    (hs : List HeaderType) (s : IncludeState)
    → s.section ≡ initial_section
    → all_in_order s hs ≡ is_sorted hs
all_in_order_iff_sorted hs s e = in_mine hs s (rw e (omega arith))

-- A call of `check_next_include_order` never moves back to an earlier section and leaves the
-- include list as it was; it reports an error exactly for a system header after its own section,
-- then it stays in the section; and it keeps the last header exactly when it reports no error and
-- stays in the section.
pub check_next_include_order_effect :
    (h : HeaderType) (s : IncludeState)
    → let r = check_next_include_order h s in
      (section_number s.section ≤ section_number r.1.section)
      × (r.1.include_list ≡ s.include_list)
      × ((r.0 == [])
          ≡ not (
              is_c h && ltb 2 (section_number s.section)
              || is_cpp h && ltb 3 (section_number s.section)))
      × (((r.0 == []) || same_section s.section r.1.section) ≡ true)
      × (r.1.last_header
          ≡ (if (r.0 == []) && same_section s.section r.1.section then s.last_header else []))
unfolding check_next_include_order text_beq
check_next_include_order_effect h s = ground arith
