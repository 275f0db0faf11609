-- ===== src/Re.antt =====
-- Python's `re`, as far as lab5/cpplint.py uses it: a pattern is a matcher that tries its ways in
-- Python's order of preference and hands each position it reaches to the rest of the pattern.
-- `matches` and `search` are the wrappers `Match` and `Search` (their cache of compiled patterns
-- changes no result), and `sub` is `ReplaceAll`.
pub mod Reads
pub mod Repeats
pub mod Shows
pub mod Shapes
pub mod Ends
pub mod Short
use cs.Base.{
  ℕ, zero, suc, ◌-◌, Bool, true, false, not, ◌&&◌, ◌||◌, Option, none, some, List, [], ◌∷◌, ◌++◌,
  Text, reversed, length, take, leb, nat_beq, ltb, is_space, lookup_or, nat_eq, all_helpers,
  if◌then◌else◌,
}

-- A position in the text: what stands before it, last character first, what follows it, and what
-- the groups have taken.
pub record Position : Type 0 where
  pub past : Text
  pub rest : Text
  pub groups : List (ℕ × Option Text)

abbrev pub Pattern : Type 0
Pattern = Position → (Position → Option Position) → Option Position

abbrev pub any_char : ℕ → Bool
any_char c = not (nat_beq c 10)

abbrev pub is_digit : ℕ → Bool
is_digit c = leb b'0' c && leb c b'9'

abbrev pub is_letter : ℕ → Bool
is_letter c = (leb b'a' c && leb c b'z') || (leb b'A' c && leb c b'Z')

-- `\w`
abbrev pub is_word : ℕ → Bool
is_word c = is_letter c || is_digit c || nat_beq c b'_'

abbrev pub is_hex : ℕ → Bool
is_hex c = is_digit c || (leb b'a' c && leb c b'f') || (leb b'A' c && leb c b'F')

-- `[…]`: one character of a class.
unfoldable pub one : (ℕ → Bool) → Pattern
one p s k = elim s.rest [
  | [] ↦ none
  | c ∷ r ↦ elim (p c) [ true ↦ k (record s { past = c ∷ s.past; rest = r }) | false ↦ none ]
]

-- A literal.
unfoldable pub lit : Text → Pattern
unfolding one
lit [] s k = k s
lit (c ∷ cs) s k = one (λ d. nat_beq d c) s (λ s'. lit cs s' k)

infixr 60 ◌⨟◌
unfoldable pub ◌⨟◌ : Pattern → Pattern → Pattern
◌⨟◌ m n s k = m s (λ s'. n s' k)

-- `m|n`
infixr 55 ◌∣∣◌
unfoldable pub ◌∣∣◌ : Pattern → Pattern → Pattern
◌∣∣◌ m n s k = elim (m s k) [ some r ↦ some r | none ↦ n s k ]

-- `m?`
unfoldable pub optional : Pattern → Pattern
optional m s k = elim (m s k) [ some r ↦ some r | none ↦ k s ]

-- `m*`, greedy. Each round takes a character at least, so the fuel is the text's length.
unfoldable pub many_from : Pattern → ℕ → Pattern
many_from m zero s k = k s
many_from m (suc fuel) s k =
    elim (m s (λ s'. elim (ltb (length s'.rest) (length s.rest)) [
      | true ↦ many_from m fuel s' k
      | false ↦ none
    ])) [ some r ↦ some r | none ↦ k s ]

unfoldable pub many : Pattern → Pattern
unfolding many_from
many m s = many_from m (length s.rest) s

-- `m+`
unfoldable pub some_of : Pattern → Pattern
unfolding many ◌⨟◌
some_of m = m ⨟ many m

-- `m*?`
unfoldable pub lazy_from : Pattern → ℕ → Pattern
lazy_from m zero s k = k s
lazy_from m (suc fuel) s k = elim (k s) [
  | some r ↦ some r
  | none ↦ m s (λ s'. elim (ltb (length s'.rest) (length s.rest)) [
    | true ↦ lazy_from m fuel s' k
    | false ↦ none
  ])
]

unfoldable pub lazy_many : Pattern → Pattern
unfolding lazy_from
lazy_many m s = lazy_from m (length s.rest) s

-- What was read between two positions.
unfoldable pub taken : Position → Position → Text
taken s s' = reversed (take (length s'.past - length s.past) s'.past)

-- `(m)`, the group number `i`.
unfoldable pub group : ℕ → Pattern → Pattern
unfolding taken
group i m s k = m s (λ s'. k (record s' { groups = (i, some (taken s s')) ∷ s'.groups }))

-- `^`
unfoldable pub line_start : Pattern
line_start s k = elim s.past [ [] ↦ k s | _ ∷ _ ↦ none ]

abbrev at_end : Text → Bool
at_end [] = true
at_end (c ∷ []) = nat_beq c 10
at_end (_ ∷ _ ∷ _) = false

-- `$`
unfoldable pub line_end : Pattern
line_end s k = elim (at_end s.rest) [ true ↦ k s | false ↦ none ]

abbrev pub word_at : Text → Bool
word_at [] = false
word_at (c ∷ _) = is_word c

abbrev pub differ : Bool → Bool → Bool
differ true b = not b
differ false b = b

-- `\b`
unfoldable pub boundary : Pattern
boundary s k = elim (differ (word_at s.past) (word_at s.rest)) [ true ↦ k s | false ↦ none ]

-- `(?=m)` and `(?!m)`
unfoldable pub ahead : Pattern → Pattern
ahead m s k = elim (m s some) [ some _ ↦ k s | none ↦ none ]

unfoldable pub not_ahead : Pattern → Pattern
not_ahead m s k = elim (m s some) [ some _ ↦ none | none ↦ k s ]

abbrev pub space : Pattern
space = one is_space

-- A match object: the text before the match, the match itself (`group(0)`), what follows it.
pub record Found : Type 0 where
  pub before : Text
  pub whole : Text
  pub after : Text
  pub groups : List (ℕ × Option Text)

-- `matched.group(i)`: `none` where the group took no part in the match.
unfoldable pub group_of : Found → ℕ → Option Text
group_of f i = lookup_or none i f.groups

abbrev pub match_at : Pattern → Position → Option Found
match_at m s = elim (m s some) [
  | none ↦ none
  | some s' ↦
      some (record {
        before = reversed s.past;
        whole = taken s s';
        after = s'.rest;
        groups = s'.groups;
      })
]

abbrev begin : Text → Position
begin t = record { past = []; rest = t; groups = [] }

unfoldable pub matches : Pattern → Text → Option Found
unfolding taken
matches m t = match_at m (begin t)

unfoldable pub search_from : Pattern → Text → Text → Option Found
unfolding taken
search_from m past [] = match_at m (record { past = past; rest = []; groups = [] })
search_from m past (c ∷ rest) =
    elim (match_at m (record { past = past; rest = c ∷ rest; groups = [] })) [
      | some f ↦ some f
      | none ↦ search_from m (c ∷ past) rest
    ]

unfoldable pub search_in : Pattern → Text → Option Found
unfolding search_from
search_in m t = search_from m [] t

abbrev found_length : Option Found → ℕ
found_length none = 0
found_length (some f) = length f.whole

-- `re.sub` for patterns that do not match the empty text; `skip` characters belong to the last
-- match.
unfoldable pub sub_from : Pattern → Text → ℕ → Text → Text → Text
unfolding taken
sub_from m new skip past [] = []
sub_from m new (suc skip) past (c ∷ rest) = sub_from m new skip (c ∷ past) rest
sub_from m new zero past (c ∷ rest) =
    let n = found_length (match_at m (record { past = past; rest = c ∷ rest; groups = [] })) in
    let others = sub_from m new (n - 1) (c ∷ past) rest in
    if ltb 0 n then new ++ others else c ∷ others

unfoldable pub sub : Pattern → Text → Text → Text
unfolding sub_from
sub m new t = sub_from m new 0 [] t

-- Opens the whole of this module and of the helpers, for tests.
unfoldable pub all_patterns : Unit {0}
unfolding one lit ◌⨟◌ ◌∣∣◌ optional many_from many some_of lazy_from lazy_many taken group
    line_start line_end boundary ahead not_ahead group_of matches search_from search_in sub_from sub
    all_helpers
all_patterns = tt
