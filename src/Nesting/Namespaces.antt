-- ===== src/Nesting/Namespaces.antt =====
-- The end of a namespace in lab5/cpplint.py: `_NamespaceInfo.CheckEnd`, and `CheckEnd` of any block.
use cs.Base.{
  ℕ, ◌+◌, Bool, true, false, ◌||◌, none, some, List, [], ◌∷◌, ◌++◌, Text, codes, ltb, text_eq,
  contains, nat_eq, is_space, if◌then◌else◌,
}
use cs.Re.{
  Pattern, one, lit, ◌⨟◌, ◌∣∣◌, many, some_of, group, space, any_char, line_start, line_end,
  boundary, matches,
}
use cs.Nolint.{Report}
use cs.CleansedLines.{CleansedLines}
use cs.Nesting.{plain, extern_c, class_info, namespace_info, Block}
use cs.Nesting.Blocks.{class_end}

-- `^\s*};*\s*(//|/\*).*\bnamespace`
abbrev namespace_comment : Pattern
namespace_comment =
    line_start
    ⨟ many space
    ⨟ lit (codes "}")
    ⨟ many (lit (codes ";"))
    ⨟ many space
    ⨟ group 1 (lit (codes "//") ∣∣ lit (codes "/*"))
    ⨟ many (one any_char)
    ⨟ boundary
    ⨟ lit (codes "namespace")

-- `^\s*};*\s*(//|/\*).*\bnamespace\b`
unfoldable pub any_namespace_comment : Pattern
any_namespace_comment = namespace_comment ⨟ boundary

-- `[\*/\.\\\s]*$`
abbrev comment_rest : Pattern
comment_rest = many (one (λ c. contains (codes "*/.\\") c || is_space c)) ⨟ line_end

unfoldable pub named_comment : Text → Pattern
named_comment name = namespace_comment ⨟ some_of space ⨟ lit name ⨟ comment_rest

unfoldable pub anonymous_comment : Pattern
anonymous_comment = namespace_comment ⨟ comment_rest

-- `^\s*}.*\b(namespace anonymous|anonymous namespace)\b`
unfoldable pub anonymous_words : Pattern
anonymous_words =
    line_start
    ⨟ many space
    ⨟ lit (codes "}")
    ⨟ many (one any_char)
    ⨟ boundary
    ⨟ group 1 (lit (codes "namespace anonymous") ∣∣ lit (codes "anonymous namespace"))
    ⨟ boundary

abbrev not_terminated : ℕ → Text → Report
not_terminated linenum message = record {
  linenum = linenum;
  category = codes "readability/namespace";
  confidence = 5;
  message = message;
}

abbrev is_empty : Text → Bool
is_empty [] = true
is_empty (_ ∷ _) = false

-- The comment that ends a namespace which is not short.
abbrev namespace_report : Text → ℕ → Text → List Report
namespace_report name linenum raw =
    if is_empty name
    then (elim (matches anonymous_comment raw) [
      | some _ ↦ []
      | none ↦ elim (matches anonymous_words raw) [
        | some _ ↦
            not_terminated linenum (
              codes
                "Anonymous namespace should be terminated with \"// namespace\" or \"// anonymous namespace\"")
            ∷ []
        | none ↦
            not_terminated linenum
              (codes "Anonymous namespace should be terminated with \"// namespace\"")
            ∷ []
      ]
    ])
    else (elim (matches (named_comment name) raw) [
      | some _ ↦ []
      | none ↦
          not_terminated linenum
            (codes "Namespace should be terminated with \"// namespace " ++ (name ++ codes "\""))
          ∷ []
    ])

-- `_NamespaceInfo.CheckEnd`
unfoldable pub namespace_end : Text → ℕ → ℕ → Text → List Report
namespace_end name starting_linenum linenum raw =
    if ltb linenum (starting_linenum + 10)
    then (elim (matches any_namespace_comment raw) [
      | none ↦ []
      | some _ ↦ namespace_report name linenum raw
    ])
    else namespace_report name linenum raw

-- `CheckEnd`; `line` and `raw` are the elided and the raw line `linenum`.
unfoldable pub check_end : CleansedLines → ℕ → Text → Text → Block → List Report
unfolding class_end namespace_end
check_end lines linenum line raw b = elim b.kind [
  | class_info c ↦ class_end c b.starting_linenum lines.elided linenum line
  | namespace_info name ↦ namespace_end name b.starting_linenum linenum raw
  | plain ↦ []
  | extern_c ↦ []
]
