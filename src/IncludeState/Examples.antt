-- ===== src/IncludeState/Examples.antt =====
-- Runs of the include state, and the theorems about it at concrete inputs.
use cs.Base.{
  text_beq, ◌||◌, ◌≤◌, ◌&&◌, ◌==◌, if◌then◌else◌, ◌≡◌, refl, false, true, List, [], ◌∷◌, some, Text,
  codes, text_eq, arith, all_helpers,
}
use cs.Re.{all_patterns}
use cs.IncludeState.{
  initial_section, add_include, find_header, change_last, HeaderType, c_sys_header, cpp_sys_header,
  likely_my_header, possible_my_header, other_header, IncludeState, initial,
  check_next_include_order, section_number, same_section, canonicalize_alphabetical_order,
  is_in_alphabetical_order, text_gt, previous, include_directive, other_h_section,
}
use cs.IncludeState.Order.{all_in_order, all_in_order_iff_sorted, check_next_include_order_effect}
use cs.IncludeState.Headers.{
  IsWellFormed, Call, reset, check, add, calls, calls_total, find_header-add_include,
}

abbrev good : List HeaderType
good = likely_my_header ∷ c_sys_header ∷ cpp_sys_header ∷ other_header ∷ possible_my_header ∷ []

all_in_order_iff_sorted_example : all_in_order initial good ≡ true
all_in_order_iff_sorted_example = all_in_order_iff_sorted good initial refl

abbrev late : IncludeState
late = record { include_list = [] ∷ []; section = other_h_section; last_header = codes "base/a.h" }

check_next_include_order_effect_example :
    let r = check_next_include_order c_sys_header late in
    (4 ≤ section_number r.1.section)
    × (r.1.include_list ≡ [] ∷ [])
    × ((r.0 == []) ≡ false)
    × (((r.0 == []) || same_section late.section r.1.section) ≡ true)
    × (r.1.last_header
        ≡ (if (r.0 == []) && same_section late.section r.1.section then late.last_header else []))
check_next_include_order_effect_example = check_next_include_order_effect c_sys_header late

late_system_header :
    (check_next_include_order c_sys_header late).0
    ≡ codes "Found C system header after other header"
unfolding check_next_include_order
late_system_header = refl

abbrev some_calls : List Call
some_calls =
    add (codes "a.h") 3
    ∷ reset (codes "if")
    ∷ add (codes "b.h") 5
    ∷ reset (codes "else")
    ∷ check c_sys_header
    ∷ []

initial-IsWellFormed : IsWellFormed initial
initial-IsWellFormed = ground arith

calls_total_example : (t : IncludeState) × (calls some_calls initial ≡ some t) × IsWellFormed t
calls_total_example = calls_total some_calls initial initial-IsWellFormed

abbrev one_header : IncludeState
one_header = record initial { include_list = ((codes "a.h", 3) ∷ []) ∷ [] }

canonical_form :
    canonicalize_alphabetical_order (codes "Base/foo-bar-inl.h") ≡ codes "base/foo_bar.h"
unfolding canonicalize_alphabetical_order all_helpers
canonical_form = refl

abbrev two_lines : List Text
two_lines = codes "// start" ∷ codes "#include \"b.h\"" ∷ codes "#include \"a.h\"" ∷ []

abbrev after_b : IncludeState
after_b = record initial { last_header = codes "b.h" }

not_alphabetical : is_in_alphabetical_order after_b two_lines 2 (codes "a.h") ≡ some false
unfolding is_in_alphabetical_order text_gt previous include_directive all_patterns
not_alphabetical = refl

-- A line between the two that is no include makes any order right.
alphabetical_after_gap : is_in_alphabetical_order after_b two_lines 1 (codes "a.h") ≡ some true
unfolding is_in_alphabetical_order text_gt previous include_directive all_patterns
alphabetical_after_gap = refl

abbrev added : IncludeState
added = record {
  include_list = ((codes "a.h", 3) ∷ []) ∷ [];
  section = initial_section;
  last_header = [];
}

is_added : add_include (codes "a.h") 3 initial ≡ some added
unfolding add_include change_last
is_added = refl

find_header-add_include_example : find_header added (codes "a.h") ≡ some 3
unfolding find_header text_beq
find_header-add_include_example =
    find_header-add_include (codes "a.h") (codes "a.h") 3 initial added is_added
