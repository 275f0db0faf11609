-- ===== src/Modules.antt =====
-- `FilesBelongToSameModule` of lab5/cpplint.py: a source file and a header of one module.
pub mod Prefix
mod Examples
use cs.Base.{
  ℕ, zero, suc, ◌+◌, ◌-◌, Bool, true, false, not, ◌&&◌, ◌||◌, Option, none, some, List, [], ◌∷◌,
  ◌++◌, Text, codes, length, take, replace, ends_with, if◌then◌else◌,
}
use cs.Re.{Pattern, Found, lit, ◌⨟◌, ◌∣∣◌, group, line_end, group_of, search_in}
use cs.Includes.{base_name, extension, is_source}

-- `s[:-n]`, which is empty for `n = 0`.
unfoldable pub drop_end : ℕ → Text → Text
drop_end zero s = []
drop_end (suc n) s = take (length s - suc n) s

-- `_TEST_FILE_SUFFIX`: `(_test|_unittest|_regtest)$`
unfoldable pub test_file_suffix : Pattern
test_file_suffix =
    group 1 (lit (codes "_test") ∣∣ lit (codes "_unittest") ∣∣ lit (codes "_regtest")) ⨟ line_end

abbrev pub without_suffix : Option Found → Text → Text
without_suffix none s = s
without_suffix (some matched) s = elim (group_of matched 1) [
  | none ↦ s
  | some suffix ↦ drop_end (length suffix) s
]

abbrev pub without_directories : Text → Text
without_directories s =
    replace (codes "/internal/") (codes "/") (replace (codes "/public/") (codes "/") s)

-- The name of a header's module, once it is known to end in `.h`.
unfoldable pub header_module : Text → Text
unfolding drop_end
header_module filename_h =
    let stem = drop_end 2 filename_h in
    without_directories (if ends_with stem (codes "-inl") then drop_end 4 stem else stem)

abbrev pub same_module : Text → Text → Bool × Text
same_module filename_cc filename_h =
    if ends_with filename_cc filename_h
    then (true, drop_end (length filename_h) filename_cc)
    else (false, [])

module _ (repository_name : Text → Text) where
  -- The name of a source file's module.
  unfoldable pub source_module : Text → Text
  unfolding drop_end test_file_suffix
  source_module filename_cc = without_directories (
      without_suffix (search_in test_file_suffix (base_name repository_name filename_cc))
        (drop_end (length (extension repository_name filename_cc)) filename_cc))

  -- `FilesBelongToSameModule`
  unfoldable pub files_belong_to_same_module : Text → Text → Bool × Text
  unfolding source_module header_module
  files_belong_to_same_module filename_cc filename_h =
      if not (is_source repository_name filename_cc)
      then (false, [])
      else if not (ends_with filename_h (codes ".h"))
      then (false, [])
      else same_module (source_module filename_cc) (header_module filename_h)
