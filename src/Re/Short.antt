-- ===== src/Re/Short.antt =====
-- Short ways to write the patterns of the checks of a line.
use cs.Base.{
  ℕ, Bool, true, false, not, none, some, List, [], ◌∷◌, Text, String, codes, contains, nat_beq,
  nat_eq,
}
use cs.Re.{Pattern, one, lit, ◌∣∣◌, many, some_of, space, any_char, is_word, search_in, matches}

abbrev pub str : String → Pattern
str s = lit (codes s)

abbrev pub chr : ℕ → Pattern
chr c = one (nat_beq c)

-- `[…]` and `[^…]`
abbrev pub char_in : String → Pattern
char_in set = one (contains (codes set))

abbrev pub char_not_in : String → Pattern
char_not_in set = one (λ c. not (contains (codes set) c))

-- `\s*`, `\s+`, `\w`, `\w+` and `.*`
unfoldable pub blanks : Pattern
blanks = many space

unfoldable pub blanks1 : Pattern
blanks1 = some_of space

abbrev pub word_char : Pattern
word_char = one is_word

unfoldable pub word : Pattern
word = some_of word_char

unfoldable pub anything : Pattern
anything = many (one any_char)

-- `a|b|c` of literals.
unfoldable pub any_of : List String → Pattern
any_of [] s k = none
any_of (w ∷ ws) s k = (str w ∣∣ any_of ws) s k

unfoldable pub found : Pattern → Text → Bool
found m text = elim (search_in m text) [ none ↦ false | some _ ↦ true ]

-- What `re.match` says of a text.
unfoldable pub starts_at : Pattern → Text → Bool
starts_at m text = elim (matches m text) [ none ↦ false | some _ ↦ true ]

-- Opens the whole of this module, for tests.
unfoldable pub all_short : Unit {0}
unfolding blanks blanks1 word anything any_of found starts_at
all_short = tt
