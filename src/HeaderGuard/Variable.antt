-- ===== src/HeaderGuard/Variable.antt =====
-- `GetHeaderGuardCPPVariable` gives a variable for every file and root.
use cs.Base.{
  ℕ, ◌≡◌, refl, Bool-cases, inl, inr, Bool, true, ◌||◌, ◌&&◌, Option, none, some, List, [], ◌∷◌,
  ◌++◌, map, Text, codes, All, text_eq, ◌==◌, leb, nat_beq, arith,
}
use cs.Re.{is_digit}
use cs.HeaderGuard.{
  strip_list_prefix, join_all, stripped, or_join, fixup_path_from_root, guard_char, full_name,
  original_name, get_header_guard_cpp_variable,
}
use cs.HeaderGuard.Paths.{path_split_to_list_total}

-- A digit, a capital letter or an underscore.
abbrev pub is_guard_char : ℕ → Bool
is_guard_char c = is_digit c || ((leb b'A' c && leb c b'Z') || nat_beq c b'_')

abbrev HasPath : Option Text → Type 0
HasPath o = (path : Text) × (o ≡ some path)

or_join_total :
    (o : Option (List Text)) (other : Option Text) → HasPath other → HasPath (or_join o other)
or_join_total none other h = h
or_join_total (some []) other h = h
or_join_total (some (a ∷ rest)) other h = (join_all a rest, refl)

stripped_total :
    (path prefix : Text) (other : Option Text)
    → HasPath other
    → HasPath (stripped path prefix other)
stripped_total path prefix other h =
    let (lst, e) = path_split_to_list_total path in
    let (pre, f) = path_split_to_list_total prefix in
    rw (e, f, stripped) (or_join_total (strip_list_prefix lst pre) other h)

fixup_path_from_root_total :
    (root path full_path root_abspath : Text)
    → HasPath (fixup_path_from_root root path full_path root_abspath)
unfolding fixup_path_from_root
fixup_path_from_root_total root path full_path root_abspath = elim (Bool-cases (root == [])) [
  | inl unset ↦ (path, rw unset)
  | inr given ↦
      rw given (stripped_total path root _ (stripped_total full_path root_abspath _ (path, refl)))
]

guard_char-is_guard_char : (s : Text) → All (λ c. is_guard_char c ≡ true) (map guard_char s)
guard_char-is_guard_char [] = tt
guard_char-is_guard_char (c ∷ s) = (ground arith, guard_char-is_guard_char s)

-- Whatever the root option and the file system's answers are, `get_header_guard_cpp_variable` gives
-- a variable. It ends in an underscore, and all characters before that are digits, capital letters
-- and underscores.
pub get_header_guard_cpp_variable_total :
    (repository_name abspath : Text → Text) (root filename : Text)
    → (stem : Text) × (get_header_guard_cpp_variable repository_name abspath root filename
        ≡ some (stem ++ codes "_"))
      × All (λ c. is_guard_char c ≡ true) stem
unfolding get_header_guard_cpp_variable
get_header_guard_cpp_variable_total repository_name abspath root filename =
    let name = original_name filename in
    let (path, e) =
      fixup_path_from_root_total root (repository_name name)
        (full_name repository_name abspath name) (abspath root) in
    (map guard_char path, rw (e, get_header_guard_cpp_variable) refl, guard_char-is_guard_char path)
