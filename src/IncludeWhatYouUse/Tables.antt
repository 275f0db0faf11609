-- ===== src/IncludeWhatYouUse/Tables.antt =====
-- The headers that a line needs in lab5/cpplint.py: the tables of templates and the search for them.
use cs.Base.{
  ℕ, suc, Bool, true, not, ◌||◌, none, some, List, [], ◌∷◌, ◌++◌, Text, codes, contains, nat_beq,
  nat_eq, if◌then◌else◌,
}
use cs.Re.{
  Pattern, one, lit, ◌⨟◌, ◌∣∣◌, optional, many, lazy_many, group, space, any_char, boundary,
  search_in,
}
use cs.IncludeWhatYouUse.{Required, require, of_std}

-- `_HEADERS_CONTAINING_TEMPLATES` and `_HEADERS_MAYBE_TEMPLATES`
abbrev pub headers_containing_templates : List (Text × List Text)
headers_containing_templates =
    (codes "<deque>", codes "deque" ∷ [])
    ∷ (
      codes "<functional>",
      codes "unary_function"
          ∷ codes "binary_function"
          ∷ codes "plus"
          ∷ codes "minus"
          ∷ codes "multiplies"
          ∷ codes "divides"
          ∷ codes "modulus"
          ∷ codes "negate"
          ∷ codes "equal_to"
          ∷ codes "not_equal_to"
          ∷ codes "greater"
          ∷ codes "less"
          ∷ codes "greater_equal"
          ∷ codes "less_equal"
          ∷ codes "logical_and"
          ∷ codes "logical_or"
          ∷ codes "logical_not"
          ∷ codes "unary_negate"
          ∷ codes "not1"
          ∷ codes "binary_negate"
          ∷ codes "not2"
          ∷ codes "bind1st"
          ∷ codes "bind2nd"
          ∷ codes "pointer_to_unary_function"
          ∷ codes "pointer_to_binary_function"
          ∷ codes "ptr_fun"
          ∷ codes "mem_fun_t"
          ∷ codes "mem_fun"
          ∷ codes "mem_fun1_t"
          ∷ codes "mem_fun1_ref_t"
          ∷ codes "mem_fun_ref_t"
          ∷ codes "const_mem_fun_t"
          ∷ codes "const_mem_fun1_t"
          ∷ codes "const_mem_fun_ref_t"
          ∷ codes "const_mem_fun1_ref_t"
          ∷ codes "mem_fun_ref"
          ∷ [],
    )
    ∷ (codes "<limits>", codes "numeric_limits" ∷ [])
    ∷ (codes "<list>", codes "list" ∷ [])
    ∷ (codes "<map>", codes "map" ∷ codes "multimap" ∷ [])
    ∷ (
      codes "<memory>",
      codes "allocator"
          ∷ codes "make_shared"
          ∷ codes "make_unique"
          ∷ codes "shared_ptr"
          ∷ codes "unique_ptr"
          ∷ codes "weak_ptr"
          ∷ [],
    )
    ∷ (codes "<queue>", codes "queue" ∷ codes "priority_queue" ∷ [])
    ∷ (codes "<set>", codes "set" ∷ codes "multiset" ∷ [])
    ∷ (codes "<stack>", codes "stack" ∷ [])
    ∷ (codes "<string>", codes "char_traits" ∷ codes "basic_string" ∷ [])
    ∷ (codes "<tuple>", codes "tuple" ∷ [])
    ∷ (codes "<unordered_map>", codes "unordered_map" ∷ codes "unordered_multimap" ∷ [])
    ∷ (codes "<unordered_set>", codes "unordered_set" ∷ codes "unordered_multiset" ∷ [])
    ∷ (codes "<utility>", codes "pair" ∷ [])
    ∷ (codes "<vector>", codes "vector" ∷ [])
    ∷ (codes "<hash_map>", codes "hash_map" ∷ codes "hash_multimap" ∷ [])
    ∷ (codes "<hash_set>", codes "hash_set" ∷ codes "hash_multiset" ∷ [])
    ∷ (codes "<slist>", codes "slist" ∷ [])
    ∷ []

abbrev pub headers_maybe_templates : List (Text × List Text)
headers_maybe_templates =
    (
      codes "<algorithm>",
      codes "copy"
          ∷ codes "max"
          ∷ codes "min"
          ∷ codes "min_element"
          ∷ codes "sort"
          ∷ codes "transform"
          ∷ [],
    )
    ∷ (codes "<utility>", codes "forward" ∷ codes "make_pair" ∷ codes "move" ∷ codes "swap" ∷ [])
    ∷ []

-- `\bstring\b`
unfoldable pub string_pattern : Pattern
string_pattern = boundary ⨟ lit (codes "string") ⨟ boundary

-- `[^>.]\btemplate(<.*?>)?\([^\)]`
unfoldable pub maybe_template : Text → Pattern
maybe_template template =
    one (λ c. not (nat_beq c b'>' || nat_beq c b'.'))
    ⨟ boundary
    ⨟ lit template
    ⨟ optional (group 1 (lit (codes "<") ⨟ lazy_many (one any_char) ⨟ lit (codes ">")))
    ⨟ lit (codes "(")
    ⨟ one (λ c. not (nat_beq c b')'))

-- `(\<|\b)template\s*\<`
unfoldable pub template_pattern : Text → Pattern
template_pattern template =
    group 1 (lit (codes "<") ∣∣ boundary) ⨟ lit template ⨟ many space ⨟ lit (codes "<")

-- `string` is special: no template.
unfoldable pub require_string : ℕ → Text → List Required → List Required
unfolding require of_std
require_string linenum line required = elim (search_in string_pattern line) [
  | none ↦ required
  | some f ↦
      if of_std f.before
      then require (codes "<string>") linenum (codes "string") required
      else required
]

unfoldable pub require_maybe : ℕ → Text → Text → List Text → List Required → List Required
unfolding require
require_maybe linenum line header [] required = required
require_maybe linenum line header (template ∷ rest) required =
    elim (search_in (maybe_template template) line) [
      | none ↦ require_maybe linenum line header rest required
      | some _ ↦ require_maybe linenum line header rest (require header linenum template required)
    ]

unfoldable pub require_templates : ℕ → Text → Text → List Text → List Required → List Required
unfolding require of_std
require_templates linenum line header [] required = required
require_templates linenum line header (template ∷ rest) required =
    elim (search_in (template_pattern template) line) [
      | none ↦ require_templates linenum line header rest required
      | some f ↦ require_templates linenum line header rest (
          if of_std f.before
          then require header linenum (template ++ codes "<>") required
          else required)
    ]

-- A loop over the headers of a table.
unfoldable pub over_table :
    (Text → List Text → List Required → List Required)
    → List (Text × List Text)
    → List Required
    → List Required
over_table f [] required = required
over_table f ((header, templates) ∷ rest) required = over_table f rest (f header templates required)

abbrev is_directive : Text → Bool
is_directive [] = true
is_directive (c ∷ _) = nat_beq c b'#'

-- What a line requires: nothing if it is empty or a directive.
unfoldable pub require_line : ℕ → Text → List Required → List Required
unfolding require_string require_maybe require_templates over_table
require_line linenum line required =
    if is_directive line
    then required
    else (let maybe =
          over_table (require_maybe linenum line) headers_maybe_templates
            (require_string linenum line required) in
        if contains line b'<'
        then over_table (require_templates linenum line) headers_containing_templates maybe
        else maybe)

unfoldable pub require_lines : ℕ → List Text → List Required → List Required
unfolding require_line
require_lines linenum [] required = required
require_lines linenum (line ∷ rest) required =
    require_lines (suc linenum) rest (require_line linenum line required)
