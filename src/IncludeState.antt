-- ===== src/IncludeState.antt =====
-- `_IncludeState` of lab5/cpplint.py: which headers were included where, and the section of the
-- include list that the last header belongs to.
pub mod Order
pub mod Headers
pub mod Canonical
mod Examples
use cs.Base.{
  ℕ, zero, suc, ◌-◌, Bool, true, false, not, ◌&&◌, Option, none, some, List, [], ◌∷◌, ◌++◌, map,
  Text, codes, contains, length, get_elem?, leb, ltb, nat_beq, ◌==◌, nat_eq, text_eq, replace,
  lower, if◌then◌else◌,
}
use cs.Re.{Pattern, lit, ◌⨟◌, many, space, line_start, boundary, matches}

-- `_C_SYS_HEADER` to `_OTHER_HEADER`.
pub data HeaderType : Type 0 where
  c_sys_header cpp_sys_header likely_my_header possible_my_header other_header : HeaderType

-- `_INITIAL_SECTION` to `_OTHER_H_SECTION`, in the order of their numbers.
pub data Section : Type 0 where
  initial_section my_h_section c_section cpp_section other_h_section : Section

abbrev pub section_number : Section → ℕ
section_number initial_section = 0
section_number my_h_section = 1
section_number c_section = 2
section_number cpp_section = 3
section_number other_h_section = 4

abbrev pub type_names : HeaderType → Text
type_names c_sys_header = codes "C system header"
type_names cpp_sys_header = codes "C++ system header"
type_names likely_my_header = codes "header this file implements"
type_names possible_my_header = codes "header this file may implement"
type_names other_header = codes "other header"

abbrev pub section_names : Section → Text
section_names initial_section = codes "... nothing. (This can't be an error.)"
section_names my_h_section = codes "a header this file implements"
section_names c_section = codes "C system header"
section_names cpp_section = codes "C++ system header"
section_names other_h_section = codes "other header"

pub record IncludeState : Type 0 where
  pub include_list : List (List (Text × ℕ))
  pub section : Section
  pub last_header : Text

-- `xs[-1] = f(xs[-1])`, an IndexError (`none`) on the empty list.
unfoldable pub change_last {ℓ} : {A : Type ℓ} → (A → A) → List A → Option (List A)
change_last f [] = none
change_last f (x ∷ []) = some (f x ∷ [])
change_last f (x ∷ y ∷ ys) = elim (change_last f (y ∷ ys)) [ none ↦ none | some zs ↦ some (x ∷ zs) ]

abbrev pub with_list : IncludeState → Option (List (List (Text × ℕ))) → Option IncludeState
with_list s none = none
with_list s (some l) = some (record s { include_list = l })

abbrev pub if_directives : List Text
if_directives = codes "if" ∷ codes "ifdef" ∷ codes "ifndef" ∷ []

abbrev pub else_directives : List Text
else_directives = codes "else" ∷ codes "elif" ∷ []

-- `ResetSection`.
unfoldable pub reset_section : Text → IncludeState → Option IncludeState
unfolding change_last
reset_section directive s =
    let cleared : IncludeState = record s { section = initial_section; last_header = [] } in
    if contains if_directives directive
    then some (record cleared { include_list = s.include_list ++ [] ∷ [] })
    else if contains else_directives directive
    then with_list cleared (change_last (λ _. []) s.include_list)
    else some cleared

-- `__init__`
abbrev pub initial : IncludeState
initial = record { include_list = [] ∷ []; section = initial_section; last_header = [] }

unfoldable pub find_in_section : Text → List (Text × ℕ) → Option ℕ
find_in_section header [] = none
find_in_section header ((name, line) ∷ fs) =
    if name == header then some line else find_in_section header fs

unfoldable pub find_in_lists : Text → List (List (Text × ℕ)) → Option ℕ
unfolding find_in_section
find_in_lists header [] = none
find_in_lists header (section_list ∷ rest) = elim (find_in_section header section_list) [
  | some line ↦ some line
  | none ↦ find_in_lists header rest
]

-- `FindHeader`, with `none` for -1.
unfoldable pub find_header : IncludeState → Text → Option ℕ
unfolding find_in_lists
find_header s header = find_in_lists header s.include_list

-- `include_state.include_list[-1].append((include, linenum))`, in `CheckIncludeLine`.
unfoldable pub add_include : Text → ℕ → IncludeState → Option IncludeState
unfolding change_last
add_include include linenum s =
    with_list s (change_last (λ l. l ++ (include, linenum) ∷ []) s.include_list)

unfoldable pub set_last_header : Text → IncludeState → IncludeState
set_last_header header_path s = record s { last_header = header_path }

unfoldable pub canonicalize_alphabetical_order : Text → Text
canonicalize_alphabetical_order header_path =
    lower (replace (codes "-") (codes "_") (replace (codes "-inl.h") (codes ".h") header_path))

-- `s > t` on strings.
unfoldable pub text_gt : Text → Text → Bool
text_gt [] t = false
text_gt (c ∷ s) [] = true
text_gt (c ∷ s) (d ∷ t) = if c == d then text_gt s t else ltb d c

-- `xs[n - 1]`: for `n = 0` that is the last element.
unfoldable pub previous : List Text → ℕ → Option Text
previous xs zero = get_elem? xs (length xs - 1)
previous xs (suc n) = get_elem? xs n

-- `^\s*#\s*include\b`
unfoldable pub include_directive : Pattern
include_directive =
    line_start ⨟ many space ⨟ lit (codes "#") ⨟ many space ⨟ lit (codes "include") ⨟ boundary

abbrev pub is_include : Text → Bool
is_include line = elim (matches include_directive line) [ none ↦ false | some _ ↦ true ]

-- `IsInAlphabeticalOrder`, over the elided lines of the file; `none` for an IndexError.
unfoldable pub is_in_alphabetical_order : IncludeState → List Text → ℕ → Text → Option Bool
is_in_alphabetical_order s elided linenum header_path =
    if text_gt s.last_header header_path
    then (elim (previous elided linenum) [ none ↦ none | some line ↦ some (not (is_include line)) ])
    else some true

abbrev pub same_section : Section → Section → Bool
same_section s t = nat_beq (section_number s) (section_number t)

-- The last lines of `CheckNextIncludeOrder`: in order, with the new section.
abbrev moved : IncludeState → Section → Text × IncludeState
moved s section = (
  [],
  record s {
    section = section;
    last_header = if same_section s.section section then s.last_header else [];
  },
)

-- `CheckNextIncludeOrder`: the error message, empty if there is none, and the new state.
unfoldable pub check_next_include_order : HeaderType → IncludeState → Text × IncludeState
check_next_include_order header_type s =
    let error_message =
      codes "Found " ++ type_names header_type ++ codes " after " ++ section_names s.section in
    let refused : Text × IncludeState = (error_message, record s { last_header = [] }) in
    let n = section_number s.section in
    elim header_type [
      | c_sys_header ↦ if leb n (section_number c_section) then moved s c_section else refused
      | cpp_sys_header ↦ if leb n (section_number cpp_section) then moved s cpp_section else refused
      | likely_my_header ↦
          if leb n (section_number my_h_section)
          then moved s my_h_section
          else moved s other_h_section
      | possible_my_header ↦
          if leb n (section_number my_h_section)
          then moved s my_h_section
          else moved s other_h_section
      | other_header ↦ moved s other_h_section
    ]
