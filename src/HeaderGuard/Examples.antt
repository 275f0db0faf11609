-- ===== src/HeaderGuard/Examples.antt =====
-- Runs of the header guard checks, and the theorems about them at concrete inputs.
use cs.Base.{◌≡◌, refl, true, some, List, [], ◌∷◌, ◌++◌, Text, codes, All}
use cs.Re.{all_patterns}
use cs.Nolint.{Suppressions}
use cs.Paths.{all_paths}
use cs.HeaderGuard.{
  path_loop, path_split_to_list, strip_list_prefix, join_all, fixup_path_from_root, flymake_suffix,
  flymake_directory, original_name, full_name, get_header_guard_cpp_variable,
}
use cs.HeaderGuard.Paths.{path_split_to_list_total}
use cs.HeaderGuard.Variable.{is_guard_char, get_header_guard_cpp_variable_total}
use cs.HeaderGuard.Checks.{
  parsed, words, guard_line, scan_guard, guard_nolint, any_found, endif_comment, check_endif,
  check_ifndef, check_guard, check_for_header_guard,
}
use cs.HeaderGuard.Reports.{IsResult, check_for_header_guard_effect}

abbrev whole_name : Text → Text
whole_name t = t

abbrev rooted : Text → Text
rooted t = codes "/home/me/" ++ t

path_split_to_list_total_example :
    (parts : List Text) × (path_split_to_list (codes "/a//b/c") ≡ some parts)
path_split_to_list_total_example = path_split_to_list_total (codes "/a//b/c")

split_paths :
    (path_split_to_list (codes "/a/b/c/")
      ≡ some (codes "/" ∷ codes "a" ∷ codes "b" ∷ codes "c" ∷ [] ∷ []))
    × (path_split_to_list (codes "../a") ≡ some (codes ".." ∷ codes "a" ∷ []))
unfolding path_split_to_list path_loop all_paths
split_paths = (refl, refl)

variables :
    (get_header_guard_cpp_variable whole_name rooted [] (codes "net/c++/tcp_flymake.h")
      ≡ some (codes "NET_CPP_TCP_H_"))
    × (get_header_guard_cpp_variable whole_name rooted (codes "net") (codes "net/tcp.h")
        ≡ some (codes "TCP_H_"))
unfolding get_header_guard_cpp_variable full_name original_name flymake_suffix flymake_directory
    fixup_path_from_root strip_list_prefix join_all path_split_to_list path_loop all_paths
    all_patterns
variables = (refl, refl)

get_header_guard_cpp_variable_total_example :
    (stem : Text) × (get_header_guard_cpp_variable whole_name rooted
        (codes "net")
        (codes "net/tcp.h")
      ≡ some (stem ++ codes "_"))
    × All (λ c. is_guard_char c ≡ true) stem
get_header_guard_cpp_variable_total_example =
    get_header_guard_cpp_variable_total whole_name rooted (codes "net") (codes "net/tcp.h")

abbrev header : List Text
header =
    codes "// marker"
    ∷ codes "#ifndef NET_TCP_H_"
    ∷ codes "#define NET_TCP_H_"
    ∷ codes "#endif  // NET_TCP_H_"
    ∷ codes "// marker"
    ∷ []

abbrev fresh : Suppressions
fresh = record { lines = []; everywhere = [] }

check_for_header_guard_effect_example :
    IsResult
      (get_header_guard_cpp_variable whole_name rooted [] (codes "net/tcp.h"))
      header
      fresh
      (check_for_header_guard whole_name rooted [] (codes "net/tcp.h") header)
check_for_header_guard_effect_example =
    check_for_header_guard_effect whole_name rooted [] (codes "net/tcp.h") header fresh

guarded :
    check_for_header_guard whole_name rooted [] (codes "net/tcp.h") header
    ≡ some (parsed (codes "#endif  // NET_TCP_H_") 3 ∷ [])
unfolding check_for_header_guard guard_nolint any_found scan_guard guard_line words check_guard
    check_ifndef check_endif endif_comment get_header_guard_cpp_variable full_name original_name
    flymake_suffix flymake_directory fixup_path_from_root all_paths all_patterns
guarded = refl
