-- ===== src/Base/Strings.antt =====
-- Python's `str` as a list of code points, with the methods that lab5/cpplint.py calls. White
-- space and letters are those of ASCII.
use Prim.Native.Char.{code}
use Prim.Native.String.{String}
use Prim.Native.Nat.{ℕ, zero, suc, ◌+◌, ◌-◌, ◌/◌, ◌%◌}
use mathlib.Core.Bool.{Bool, true, false, ◌&&◌, ◌||◌}
use mathlib.Core.List.{List, [], ◌∷◌, ◌++◌, map}
use mathlib.Core.Option.{Option, none, some}
use mathlib.Core.Option
use cs.Base.Tests.{nat_beq, if◌then◌else◌, leb}
use cs.Base.Lists.{length}

abbrev pub Text : Type 0
Text = List ℕ

-- The code points of a literal.
abbrev pub codes : String → Text
codes String.[] = []
codes (String.◌∷◌ c s) = code c ∷ codes s

-- `xs[::-1]`
unfoldable pub reverse_onto : Text → Text → Text
reverse_onto acc [] = acc
reverse_onto acc (c ∷ s) = reverse_onto (c ∷ acc) s

unfoldable pub reversed : Text → Text
unfolding reverse_onto
reversed = reverse_onto []

-- `s.startswith(p)`
unfoldable pub starts_with : Text → Text → Bool
starts_with s [] = true
starts_with [] (p ∷ ps) = false
starts_with (c ∷ s) (p ∷ ps) = nat_beq c p && starts_with s ps

-- `s.endswith(p)`
unfoldable pub ends_with : Text → Text → Bool
unfolding starts_with reversed
ends_with s p = starts_with (reversed s) (reversed p)

-- `s.find(p)`, with `none` for -1.
unfoldable pub find : Text → Text → Option ℕ
unfolding starts_with
find [] p = if starts_with [] p then some 0 else none
find (c ∷ s) p = if starts_with (c ∷ s) p then some 0 else Option.map suc (find s p)

-- `p in s`
unfoldable pub has : Text → Text → Bool
unfolding find
has s p = elim (find s p) [ none ↦ false | some i ↦ true ]

-- `s.replace(old, new)` for `old` that is not empty; `skip` characters belong to the last match.
unfoldable pub replace_from : Text → Text → ℕ → Text → Text
unfolding starts_with
replace_from old new skip [] = []
replace_from old new (suc skip) (c ∷ s) = replace_from old new skip s
replace_from old new zero (c ∷ s) =
    let hit = starts_with (c ∷ s) old in
    let rest = replace_from old new (if hit then length old - 1 else 0) s in
    if hit then new ++ rest else c ∷ rest

unfoldable pub replace : Text → Text → Text → Text
unfolding replace_from
replace old new = replace_from old new 0

abbrev pub is_space : ℕ → Bool
is_space c = nat_beq c 32 || (leb 9 c && leb c 13)

unfoldable pub left_strip : Text → Text
left_strip [] = []
left_strip (c ∷ s) = if is_space c then left_strip s else c ∷ s

unfoldable pub right_strip : Text → Text
unfolding left_strip reversed
right_strip s = reversed (left_strip (reversed s))

-- `s.strip()`
unfoldable pub strip : Text → Text
unfolding right_strip
strip s = right_strip (left_strip s)

abbrev pub cons_head : ℕ → List Text → List Text
cons_head c [] = (c ∷ []) ∷ []
cons_head c (t ∷ ts) = (c ∷ t) ∷ ts

-- `s.split(sep)` for a separator of one character.
unfoldable pub split : ℕ → Text → List Text
split sep [] = [] ∷ []
split sep (c ∷ s) = if nat_beq c sep then [] ∷ split sep s else cons_head c (split sep s)

abbrev pub lower_char : ℕ → ℕ
lower_char c = if leb b'A' c && leb c b'Z' then c + 32 else c

-- `s.lower()`
unfoldable pub lower : Text → Text
lower = map lower_char

-- `str(n)`
unfoldable pub show_digits : ℕ → ℕ → Text → Text
show_digits zero n acc = acc
show_digits (suc fuel) n acc =
    let more = show_digits fuel (n / 10) ((48 + n % 10) ∷ acc) in
    if leb 10 n then more else (48 + n) ∷ acc

unfoldable pub show : ℕ → Text
unfolding show_digits
show n = show_digits (suc n) n []

-- `s.count(p)` for `p` that is not empty; `skip` characters belong to the last occurrence.
unfoldable pub count_from : Text → ℕ → Text → ℕ
unfolding starts_with
count_from p skip [] = 0
count_from p (suc skip) (c ∷ s) = count_from p skip s
count_from p zero (c ∷ s) =
    let hit = starts_with (c ∷ s) p in
    let others = count_from p (if hit then length p - 1 else 0) s in
    if hit then suc others else others

unfoldable pub count_text : Text → Text → ℕ
unfolding count_from
count_text p = count_from p 0
