-- ===== src/Paths.antt =====
-- `os.path` of Python on POSIX systems, as far as lab5/cpplint.py uses it without the file system.
use cs.Base.{
  ◌≡◌, refl, ℕ, zero, suc, Bool, true, not, ◌&&◌, ◌||◌, List, [], ◌∷◌, ◌++◌, Text, codes, nat_beq,
  text_eq, ◌==◌, take, drop, reversed, starts_with, split, all_helpers, if◌then◌else◌,
}

-- `s.rfind(c) + 1`: 0 if the character is not there.
unfoldable pub after_last : ℕ → Text → ℕ
after_last c [] = 0
after_last c (d ∷ s) =
    let later = after_last c s in
    if not (nat_beq later 0) then suc later else if nat_beq d c then 1 else 0

abbrev pub all_are : ℕ → Text → Bool
all_are c [] = true
all_are c (d ∷ s) = nat_beq d c && all_are c s

unfoldable pub drop_leading : ℕ → Text → Text
drop_leading c [] = []
drop_leading c (d ∷ s) = if nat_beq d c then drop_leading c s else d ∷ s

-- `head.rstrip('/')`, unless there are only slashes.
abbrev pub strip_slashes : Text → Text
strip_slashes head =
    if all_are b'/' head then head else reversed (drop_leading b'/' (reversed head))

-- `os.path.split`
unfoldable pub split_path : Text → Text × Text
unfolding after_last drop_leading
split_path p = let i = after_last b'/' p in (strip_slashes (take i p), drop i p)

unfoldable pub dirname : Text → Text
unfolding split_path
dirname p = (split_path p).0

-- `os.path.splitext`: the extension begins at the last dot of the base name, unless only dots
-- stand before it.
unfoldable pub splitext : Text → Text × Text
unfolding after_last
splitext p =
    let base = drop (after_last b'/' p) p in
    let dot = after_last b'.' base in
    if nat_beq dot 0 || all_are b'.' (take dot base)
    then (p, [])
    else (let at = after_last b'.' p in elim at [ zero ↦ (p, []) | suc i ↦ (take i p, drop i p) ])

-- One component of a path, against the ones that are kept, the last first.
abbrev pub norm_step : Bool → List Text → Text → List Text
norm_step rooted kept comp =
    if comp == [] || comp == codes "."
    then kept
    else if not (comp == codes "..")
    then comp ∷ kept
    else elim kept [
      | [] ↦ if rooted then [] else comp ∷ []
      | last ∷ rest ↦ if last == codes ".." then comp ∷ last ∷ rest else rest
    ]

unfoldable pub norm_steps : Bool → List Text → List Text → List Text
norm_steps rooted kept [] = kept
norm_steps rooted kept (comp ∷ rest) = norm_steps rooted (norm_step rooted kept comp) rest

-- `'/'.join(…)` of the components, which come last first.
unfoldable pub join_reversed : Text → List Text → Text
join_reversed acc [] = acc
join_reversed acc (comp ∷ []) = comp ++ acc
join_reversed acc (comp ∷ next ∷ rest) = join_reversed (b'/' ∷ (comp ++ acc)) (next ∷ rest)

abbrev pub slashes_of : Text → Text
slashes_of p =
    if not (starts_with p (codes "/"))
    then []
    else if starts_with p (codes "//") && not (starts_with p (codes "///"))
    then codes "//"
    else codes "/"

abbrev pub or_dot : Text → Text
or_dot [] = codes "."
or_dot (c ∷ s) = c ∷ s

-- `os.path.normpath`
unfoldable pub normpath : Text → Text
unfolding norm_steps join_reversed
normpath p =
    let slashes = slashes_of p in
    or_dot (slashes ++ join_reversed [] (norm_steps (not (slashes == [])) [] (split b'/' p)))

-- Opens this module and the helpers, for tests.
unfoldable pub all_paths : Unit {0}
unfolding after_last drop_leading split_path dirname splitext norm_steps join_reversed normpath
    all_helpers
all_paths = tt

normpath_tests :
    (normpath (codes "a/b/../public") ≡ codes "a/public")
    × (normpath (codes "/../public") ≡ codes "/public")
    × (normpath (codes "../x/./y//z") ≡ codes "../x/y/z")
    × (split_path (codes "a//b.cc") ≡ (codes "a", codes "b.cc"))
    × (splitext (codes "a.b/.c.d") ≡ (codes "a.b/.c", codes ".d"))
    × (splitext (codes "a.b/.c") ≡ (codes "a.b/.c", []))
unfolding all_paths
normpath_tests = (refl, refl, refl, refl, refl, refl)
