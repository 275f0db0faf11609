-- ===== src/HeaderGuard.antt =====
-- The header guards of lab5/cpplint.py: `PathSplitToList`, `GetHeaderGuardCPPVariable` and
-- `CheckForHeaderGuard`. `os.path.abspath` and `FileInfo.RepositoryName` depend on the file system:
-- they are the parameters `abspath` and `repository_name`. The option `--root` is `root`, empty if it
-- is not set.
pub mod Paths
pub mod Variable
pub mod Checks
pub mod Names
pub mod Endif
pub mod Guards
pub mod Reports
mod Examples
use cs.Base.{
  ℕ, zero, suc, ◌+◌, ◌-◌, Bool, true, false, not, ◌&&◌, ◌||◌, Option, none, some, List, [], ◌∷◌,
  map, ◌++◌, Text, codes, nat_beq, text_eq, ◌==◌, ltb, leb, length, get_elem?, take, drop, is_space,
  replace, starts_with, if◌then◌else◌,
}
use cs.Re.{
  Pattern, Found, lit, one, is_letter, is_digit, ◌⨟◌, ◌∣∣◌, optional, many, group, space,
  line_start, line_end, boundary, group_of, matches, search_in, sub,
}
use cs.Nolint.{Report}
use cs.Paths.{split_path}

-- The loop of `PathSplitToList`, on fuel; what it has collected stands in order.
unfoldable pub path_loop : ℕ → Text → List Text → Option (List Text)
path_loop zero path lst = none
path_loop (suc fuel) path lst =
    let (head, tail) = split_path path in
    let rest = path_loop fuel head (tail ∷ lst) in
    if head == path then some (head ∷ lst) else if tail == path then some (tail ∷ lst) else rest

-- `PathSplitToList`
unfoldable pub path_split_to_list : Text → Option (List Text)
unfolding path_loop
path_split_to_list path = path_loop (suc (length path)) path []

-- `os.path.join` of two paths, and of a list that is not empty.
abbrev pub ends_in_slash : Text → Bool
ends_in_slash [] = true
ends_in_slash (c ∷ []) = nat_beq c b'/'
ends_in_slash (_ ∷ c ∷ s) = ends_in_slash (c ∷ s)

abbrev pub join_two : Text → Text → Text
join_two a b =
    if starts_with b (codes "/") then b else if ends_in_slash a then a ++ b else a ++ (b'/' ∷ b)

unfoldable pub join_all : Text → List Text → Text
join_all a [] = a
join_all a (b ∷ rest) = join_all (join_two a b) rest

-- `StripListPrefix`, `none` for a list without the prefix.
unfoldable pub strip_list_prefix : List Text → List Text → Option (List Text)
strip_list_prefix lst [] = some lst
strip_list_prefix [] (p ∷ prefix) = none
strip_list_prefix (x ∷ lst) (p ∷ prefix) = if x == p then strip_list_prefix lst prefix else none

-- `if maybe_path: return os.path.join(*maybe_path)`
abbrev pub or_join : Option (List Text) → Option Text → Option Text
or_join (some (a ∷ rest)) other = some (join_all a rest)
or_join _ other = other

-- Both paths as lists, and the first without the second in front.
abbrev pub stripped : Text → Text → Option Text → Option Text
stripped path prefix other = elim (path_split_to_list path) [
  | none ↦ none
  | some lst ↦ elim (path_split_to_list prefix) [
    | none ↦ none
    | some pre ↦ or_join (strip_list_prefix lst pre) other
  ]
]

-- `FixupPathFromRoot`; `none` if a path is not split on its fuel.
unfoldable pub fixup_path_from_root : Text → Text → Text → Text → Option Text
fixup_path_from_root root file_path_from_root full_path root_abspath =
    if root == []
    then some file_path_from_root
    else stripped file_path_from_root root
        (stripped full_path root_abspath (some file_path_from_root))

-- `_flymake\.h$`
unfoldable pub flymake_suffix : Pattern
flymake_suffix = lit (codes "_flymake.h") ⨟ line_end

-- `/\.flymake/([^/]*)$`
unfoldable pub flymake_directory : Pattern
flymake_directory =
    lit (codes "/.flymake/") ⨟ group 1 (many (one (λ c. not (nat_beq c b'/')))) ⨟ line_end

-- The one match is replaced by a slash and its group.
abbrev pub without_flymake : Option Found → Text → Text
without_flymake none s = s
without_flymake (some f) s = elim (group_of f 1) [
  | none ↦ s
  | some name ↦ f.before ++ (b'/' ∷ (name ++ f.after))
]

unfoldable pub original_name : Text → Text
original_name filename =
    let name = sub flymake_suffix (codes ".h") filename in
    let unmoved = without_flymake (search_in flymake_directory name) name in
    replace (codes "c++") (codes "cpp") (replace (codes "C++") (codes "cpp") unmoved)

-- `[^a-zA-Z0-9]` becomes an underscore, and `upper()`.
abbrev pub guard_char : ℕ → ℕ
guard_char c =
    if is_digit c || (leb b'A' c && leb c b'Z')
    then c
    else if leb b'a' c && leb c b'z'
    then c - 32
    else b'_'

module _ (repository_name : Text → Text) (abspath : Text → Text) where
  -- `FileInfo.FullName`
  unfoldable pub full_name : Text → Text
  full_name filename = replace (codes "\\") (codes "/") (abspath filename)

  -- `GetHeaderGuardCPPVariable`
  unfoldable pub get_header_guard_cpp_variable : Text → Text → Option Text
  unfolding full_name original_name
  get_header_guard_cpp_variable root filename =
      let name = original_name filename in
      elim (fixup_path_from_root root (repository_name name) (full_name name) (abspath root)) [
        | none ↦ none
        | some path ↦ some (map guard_char path ++ codes "_")
      ]
