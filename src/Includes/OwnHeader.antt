-- ===== src/Includes/OwnHeader.antt =====
-- `CheckHeaderFileIncluded` of lab5/cpplint.py: a source file includes its header. What
-- `os.path.exists` says is the parameter `exists`.
use cs.Base.{
  ℕ, zero, suc, ◌-◌, ◌≡◌, refl, ◌↔◌, ◌⊎◌, inl, inr, Bool, true, false, not, ◌||◌, Option, none,
  some, List, [], ◌∷◌, ◌++◌, Text, codes, nat_beq, length, take, get_elem?, has, Bool-cases,
  if◌then◌else◌, arith, Option-cases,
}
use cs.Re.{search_in}
use cs.Nolint.{Report}
use cs.Modules.{test_file_suffix}
use cs.IncludeState.{IncludeState}
use cs.Includes.{base_name, extension}

-- The includes of all sections.
unfoldable pub all_includes : List (List (Text × ℕ)) → List (Text × ℕ)
all_includes [] = []
all_includes (section_list ∷ rest) = section_list ++ all_includes rest

-- `headername in f[0] or f[0] in headername`
unfoldable pub names_header : Text → Text × ℕ → Bool
names_header headername f = has f.0 headername || has headername f.0

-- The loop: `none` where it returns, and else `first_include`.
unfoldable pub first_include : Text → List (Text × ℕ) → ℕ → Option ℕ
unfolding names_header
first_include headername [] first = some first
first_include headername (f ∷ fs) first =
    let rest = first_include headername fs (if nat_beq first 0 then f.1 else first) in
    if names_header headername f then none else rest

abbrev pub own_header_missing : ℕ → Text → Text → Report
own_header_missing linenum name headername = record {
  linenum = linenum;
  category = codes "build/include";
  confidence = 5;
  message = name ++ (codes " should include its header file " ++ headername);
}

abbrev pub report_missing : Text → Text → Option ℕ → List Report
report_missing name headername none = []
report_missing name headername (some first) = own_header_missing first name headername ∷ []

abbrev is_some {ℓ} : {A : Type ℓ} → Option A → Bool
is_some none = false
is_some (some _) = true

module _ (repository_name : Text → Text) where
  unfoldable pub is_test_file : Text → Bool
  is_test_file filename = is_some (search_in test_file_suffix (base_name repository_name filename))

  -- `filename[0:len(filename) - len(fileinfo.Extension())] + '.h'`; the extension is a part of the
  -- name.
  unfoldable pub header_file : Text → Text
  header_file filename =
      take (length filename - length (extension repository_name filename)) filename ++ codes ".h"

module _ (repository_name : Text → Text) (exists : Text → Bool) where
  -- `CheckHeaderFileIncluded`
  unfoldable pub check_header_file_included : Text → IncludeState → List Report
  unfolding is_test_file header_file first_include all_includes
  check_header_file_included filename include_state =
      let headername = repository_name (header_file repository_name filename) in
      if is_test_file repository_name filename
      then []
      else if not (exists (header_file repository_name filename))
      then []
      else report_missing (repository_name filename) headername
          (first_include headername (all_includes include_state.include_list) 0)

-- Some include of the list has the header's name in it, or is a part of it.
abbrev pub IsNamed : Text → List (Text × ℕ) → Type 0
IsNamed headername includes =
    (n : ℕ) × (f : Text × ℕ) × (get_elem? includes n ≡ some f) × (names_header headername f ≡ true)

first_include-none :
    (headername : Text) (includes : List (Text × ℕ)) (first : ℕ)
    → first_include headername includes first ≡ none
    → IsNamed headername includes
unfolding first_include
first_include-none headername [] first e = cc
first_include-none headername (f ∷ fs) first e = elim (Bool-cases (names_header headername f)) [
  | inl named ↦ (0, f, refl, named)
  | inr other ↦
      let (n, g, at, named) =
        first_include-none headername fs (if nat_beq first 0 then f.1 else first)
          (rw (other, first_include) at e) in
      (suc n, g, at, named)
]

first_include-IsNamed :
    (headername : Text) (includes : List (Text × ℕ)) (first n : ℕ) (f : Text × ℕ)
    → get_elem? includes n ≡ some f
    → names_header headername f ≡ true
    → first_include headername includes first ≡ none
unfolding first_include
first_include-IsNamed headername [] first n f at named = cc
first_include-IsNamed headername (g ∷ fs) first zero f at named = ground arith
first_include-IsNamed headername (g ∷ fs) first (suc n) f at named = ground (
  arith,
  first_include-IsNamed headername fs (if nat_beq first 0 then g.1 else first) n f at named,
)

-- The file is a test, there is no header beside it, or some include names that header.
abbrev pub IsExcused : (Text → Text) → (Text → Bool) → Text → IncludeState → Type 0
IsExcused repository_name exists filename s =
    (is_test_file repository_name filename ≡ true)
    ⊎ ((exists (header_file repository_name filename) ≡ false)
        ⊎ IsNamed (repository_name (header_file repository_name filename))
            (all_includes s.include_list))

module _ (repository_name : Text → Text) (exists : Text → Bool) (filename : Text)
    (s : IncludeState) where
  no_report-IsExcused :
      check_header_file_included repository_name exists filename s ≡ []
      → IsExcused repository_name exists filename s
  unfolding check_header_file_included
  no_report-IsExcused e =
      let header = repository_name (header_file repository_name filename) in
      elim (Bool-cases (is_test_file repository_name filename)) [
        | inl test ↦ inl test
        | inr other ↦ elim (Bool-cases (exists (header_file repository_name filename))) [
          | inr missing ↦ inr (inl missing)
          | inl present ↦
              elim (Option-cases (first_include header (all_includes s.include_list) 0)) [
                | inl named ↦
                    inr (inr (first_include-none header (all_includes s.include_list) 0 named))
                | inr (first, unnamed) ↦ absurd (ground arith)
              ]
        ]
      ]

  IsExcused-no_report :
      IsExcused repository_name exists filename s
      → check_header_file_included repository_name exists filename s ≡ []
  unfolding check_header_file_included
  IsExcused-no_report (inl test) = ground arith
  IsExcused-no_report (inr (inl missing)) = ground arith
  IsExcused-no_report (inr (inr (n, f, at, named))) = ground (
    arith,
    first_include-IsNamed (repository_name (header_file repository_name filename))
        (all_includes s.include_list) 0 n f at named,
  )

  -- `check_header_file_included` reports nothing exactly when the file is a test, there is no header
  -- beside it, or some include names that header: the name of one is a part of the other's.
  pub check_header_file_included_iff :
      (check_header_file_included repository_name exists filename s ≡ [])
      ↔ IsExcused repository_name exists filename s
  check_header_file_included_iff = (no_report-IsExcused, IsExcused-no_report)
