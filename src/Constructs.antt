-- ===== src/Constructs.antt =====
-- `CheckForNonStandardConstructs` of lab5/cpplint.py. `none` stands for an IndexError, of the loop
-- that puts the arguments of a constructor together again.
pub mod Arguments
pub mod Unclosed
mod Examples
use cs.Base.{
  has, ℕ, zero, suc, ◌+◌, ◌-◌, Bool, true, false, not, ◌&&◌, ◌||◌, Option, none, some, List, [],
  ◌∷◌, ◌++◌, Text, String, codes, contains, nat_eq, nat_beq, text_eq, ◌==◌, ltb, leb, length,
  is_space, split, strip, count_text, replace, if◌then◌else◌,
}
use cs.Re.{
  Pattern, Found, lit, one, ◌⨟◌, ◌∣∣◌, optional, many, some_of, group, boundary, line_start,
  is_digit, group_of, matches, search_in,
}
use cs.Re.Short.{
  str, chr, char_in, char_not_in, blanks, blanks1, word, anything, any_of, found, starts_at,
}
use cs.CleansedLines.{CleansedLines, group_text}
use cs.Nesting.{Block, ClassInfo, class_info, NestingState, innermost_class}
use cs.Nolint.{Report}
use cs.LineChecks.{report, report_if}
use cs.LineChecks.Namespaces.{line_at}

abbrev digits : Pattern
digits = some_of (one is_digit)

-- `printf\s*\(.*".*%`
abbrev format_start : Pattern
format_start = str "printf" ⨟ blanks ⨟ chr b'(' ⨟ anything ⨟ chr 34 ⨟ anything ⨟ chr b'%'

-- `…[-+ ]?\d*q` and `…\d+\$`
unfoldable pub quad_format : Pattern
quad_format = format_start ⨟ optional (char_in "-+ ") ⨟ many (one is_digit) ⨟ chr b'q'

unfoldable pub numbered_format : Pattern
numbered_format = format_start ⨟ digits ⨟ chr b'$'

-- `("|\').*\\(%|\[|\(|{)`
unfoldable pub undefined_escape : Pattern
undefined_escape = group 1 (chr 34 ∣∣ chr 39) ⨟ anything ⨟ chr 92 ⨟ group 2 (char_in "%[({")

unfoldable pub storage_class : Pattern
storage_class =
    boundary
    ⨟ group 1 (
        any_of (
          "const" ∷ "volatile" ∷ "void" ∷ "char" ∷ "short" ∷ "int" ∷ "long" ∷ "float" ∷ "double"
          ∷ "signed" ∷ "unsigned" ∷ "schar" ∷ [])
        ∣∣ optional (chr b'u') ⨟ any_of ("int8" ∷ "int16" ∷ "int32" ∷ "int64" ∷ []))
    ⨟ blanks1
    ⨟ group 2 (any_of ("register" ∷ "static" ∷ "extern" ∷ "typedef" ∷ []))
    ⨟ boundary

-- `\s*#\s*endif\s*[^/\s]+`
unfoldable pub endif_text : Pattern
endif_text =
    blanks
    ⨟ chr b'#'
    ⨟ blanks
    ⨟ str "endif"
    ⨟ blanks
    ⨟ some_of (one (λ c. not (nat_beq c b'/' || is_space c)))

-- `\s*class\s+(\w+\s*::\s*)+\w+\s*;`
unfoldable pub inner_forward : Pattern
inner_forward =
    blanks
    ⨟ str "class"
    ⨟ blanks1
    ⨟ some_of (group 1 (word ⨟ blanks ⨟ str "::" ⨟ blanks))
    ⨟ word
    ⨟ blanks
    ⨟ chr b';'

abbrev fraction : ℕ → Pattern
fraction i = optional (group i (chr b'.' ⨟ many (one is_digit)))

-- `(\w+|[+-]?\d+(\.\d*)?)\s*(<|>)\?=?\s*(\w+|[+-]?\d+)(\.\d*)?`
unfoldable pub min_or_max : Pattern
min_or_max =
    group 1 (word ∣∣ optional (char_in "+-") ⨟ digits ⨟ fraction 2)
    ⨟ blanks
    ⨟ group 3 (char_in "<>")
    ⨟ chr b'?'
    ⨟ optional (chr b'=')
    ⨟ blanks
    ⨟ group 4 (word ∣∣ optional (char_in "+-") ⨟ digits)
    ⨟ fraction 5

-- `^\s*const\s*string\s*&\s*\w+\s*;`
unfoldable pub string_reference : Pattern
string_reference =
    line_start
    ⨟ blanks
    ⨟ str "const"
    ⨟ blanks
    ⨟ str "string"
    ⨟ blanks
    ⨟ chr b'&'
    ⨟ blanks
    ⨟ word
    ⨟ blanks
    ⨟ chr b';'

-- The checks on any line: `line` has its strings, `elided` has none.
unfoldable pub check_line : ℕ → Text → Text → List Report
unfolding quad_format numbered_format undefined_escape storage_class endif_text inner_forward
    min_or_max string_reference
check_line linenum line elided =
    report_if (found quad_format line) (
      report linenum "runtime/printf_format" 3
        (codes "%q in format strings is deprecated.  Use %ll instead."))
    ++ report_if (found numbered_format line) (
        report linenum "runtime/printf_format" 2
          (codes "%N$ formats are unconventional.  Try rewriting to avoid them."))
    ++ report_if (found undefined_escape (replace (codes "\\\\") [] line)) (
        report linenum "build/printf_format" 3
          (codes "%, [, (, and { are undefined character escapes.  Unescape them."))
    ++ report_if (found storage_class elided) (
        report linenum "build/storage_class" 5 (
          codes
            "Storage-class specifier (static, extern, typedef, etc) should be at the beginning of the declaration."))
    ++ report_if (starts_at endif_text elided) (
        report linenum "build/endif_comment" 5
          (codes "Uncommented text after #endif is non-standard.  Use a comment."))
    ++ report_if (starts_at inner_forward elided) (
        report linenum "build/forward_decl" 5
          (codes "Inner-style forward declarations are invalid.  Remove this line."))
    ++ report_if (found min_or_max elided) (
        report linenum "build/deprecated" 3
          (codes ">? and <? (max and min) operators are non-standard and deprecated."))
    ++ report_if (found string_reference elided) (
        report linenum "runtime/member_string_references" 2 (
          codes
            "const string& members are dangerous. It is much better to use alternatives, such as pointers or simple constants."))

-- `name.split('::')[-1]`
unfoldable pub last_component : Text → Text → Text
last_component found_so_far [] = found_so_far
last_component found_so_far (c ∷ []) = found_so_far ++ c ∷ []
last_component found_so_far (c ∷ d ∷ name) =
    let rest = last_component (found_so_far ++ c ∷ []) (d ∷ name) in
    let behind = last_component [] name in if nat_beq c b':' && nat_beq d b':' then behind else rest

-- `(?:(?:inline|constexpr)\s+)*`
abbrev specifiers : Pattern
specifiers = many (any_of ("inline" ∷ "constexpr" ∷ []) ⨟ blanks1)

-- The pattern of a constructor, up to the parentheses in its arguments, which may be nested once.
unfoldable pub constructor : Text → Pattern
constructor base_classname =
    blanks1
    ⨟ specifiers
    ⨟ optional (group 1 (str "explicit" ⨟ blanks1))
    ⨟ specifiers
    ⨟ lit base_classname
    ⨟ blanks
    ⨟ chr b'('
    ⨟ group 2 (many (char_not_in "()" ∣∣ chr b'(' ⨟ many (char_not_in "()") ⨟ chr b')'))
    ⨟ chr b')'

-- `arg.count('<') > arg.count('>') or arg.count('(') > arg.count(')')`
unfoldable pub is_open_arg : Text → Bool
is_open_arg arg =
    ltb (count_text (codes ">") arg) (count_text (codes "<") arg)
    || ltb (count_text (codes ")") arg) (count_text (codes "(") arg)

-- The loop that puts arguments together that a comma in brackets has split; `none` where it asks
-- for an argument behind the last.
unfoldable pub collapse_args : Text → List Text → Option (List Text)
unfolding is_open_arg
collapse_args constructor_arg [] =
    if is_open_arg constructor_arg then none else some (constructor_arg ∷ [])
collapse_args constructor_arg (next ∷ rest) =
    let longer = collapse_args (constructor_arg ++ (b',' ∷ next)) rest in
    let others = collapse_args next rest in
    if is_open_arg constructor_arg
    then longer
    else elim others [ none ↦ none | some args ↦ some (constructor_arg ∷ args) ]

abbrev pub collapse : List Text → Option (List Text)
collapse [] = some []
collapse (arg ∷ args) = collapse_args arg args

-- The arguments, `[]` for an empty list of them.
unfoldable pub constructor_args : Text → Option (List Text)
unfolding collapse_args
constructor_args [] = some []
constructor_args (c ∷ t) = collapse (split b',' (c ∷ t))

unfoldable pub defaulted : List Text → ℕ
defaulted [] = 0
defaulted (arg ∷ args) = (if has arg (codes "=") then 1 else 0) + defaulted args

abbrev is_void : List Text → Bool
is_void (arg ∷ []) = strip arg == codes "void"
is_void _ = false

abbrev is_nil : List Text → Bool
is_nil [] = true
is_nil (_ ∷ _) = false

abbrev first_arg : List Text → Text
first_arg [] = []
first_arg (arg ∷ _) = arg

unfoldable pub noarg_constructor : List Text → Bool
noarg_constructor args = is_nil args || is_void args

unfoldable pub onearg_constructor : List Text → Bool
unfolding noarg_constructor defaulted
onearg_constructor args =
    not (noarg_constructor args)
    && (nat_beq (length args) 1 || leb (length args - 1) (defaulted args))

-- `\bstd\s*::\s*initializer_list\b`
unfoldable pub initializer_list : Pattern
initializer_list =
    boundary ⨟ str "std" ⨟ blanks ⨟ str "::" ⨟ blanks ⨟ str "initializer_list" ⨟ boundary

-- `(const\s+)?%s(\s*<[^>]*>)?(\s+const)?\s*(?:<\w+>\s*)?&`
unfoldable pub copy_argument : Text → Pattern
copy_argument base_classname =
    optional (group 1 (str "const" ⨟ blanks1))
    ⨟ lit base_classname
    ⨟ optional (group 2 (blanks ⨟ chr b'<' ⨟ many (char_not_in ">") ⨟ chr b'>'))
    ⨟ optional (group 3 (blanks1 ⨟ str "const"))
    ⨟ blanks
    ⨟ optional (chr b'<' ⨟ word ⨟ chr b'>' ⨟ blanks)
    ⨟ chr b'&'

abbrev is_marked : Found → Bool
is_marked match = elim (group_of match 1) [ none ↦ false | some t ↦ true ]

abbrev explicit : ℕ → String → List Report
explicit linenum message = report linenum "runtime/explicit" 5 (codes message) ∷ []

unfoldable pub check_args : ℕ → Text → Bool → List Text → List Report
unfolding onearg_constructor initializer_list copy_argument
check_args linenum base_classname is_marked_explicit args =
    if not is_marked_explicit
      && onearg_constructor args
      && not (found initializer_list (first_arg args))
      && not (starts_at (copy_argument base_classname) (strip (first_arg args)))
    then (if ltb 0 (defaulted args)
        then explicit linenum "Constructors callable with one argument should be marked explicit."
        else explicit linenum "Single-parameter constructors should be marked explicit.")
    else if is_marked_explicit && not (onearg_constructor args) && noarg_constructor args
    then explicit linenum "Zero-parameter constructors should not be marked explicit."
    else []

unfoldable pub check_constructor : ℕ → Text → Text → Option (List Report)
unfolding constructor constructor_args check_args
check_constructor linenum base_classname line = elim (matches (constructor base_classname) line) [
  | none ↦ some []
  | some match ↦ elim (constructor_args (group_text match 2)) [
    | none ↦ none
    | some args ↦ some (check_args linenum base_classname (is_marked match) args)
  ]
]

abbrev pub check_in_class : ℕ → Text → Option Block → Option (List Report)
check_in_class linenum line none = some []
check_in_class linenum line (some b) = elim b.kind [
  | class_info c ↦
      if b.seen_open_brace
      then check_constructor linenum (last_component [] c.name) line
      else some []
  | _ ↦ some []
]

-- `CheckForNonStandardConstructs`
unfoldable pub check_for_non_standard_constructs :
    CleansedLines → NestingState → ℕ → Option (List Report)
unfolding check_line last_component check_constructor
check_for_non_standard_constructs clean_lines nesting_state linenum =
    let elided = line_at clean_lines.elided linenum in
    elim (check_in_class linenum elided (innermost_class nesting_state.stack)) [
      | none ↦ none
      | some reports ↦
          some (check_line linenum (line_at clean_lines.lines linenum) elided ++ reports)
    ]
