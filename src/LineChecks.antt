-- ===== src/LineChecks.antt =====
-- The checks of one line in lab5/cpplint.py. Each is given the number of the line and the line of
-- `clean_lines.elided` (or all of these lines) that the source reads there.
pub mod Quotes
pub mod Namespaces
pub mod Indentation
pub mod Virtual
pub mod Features
pub mod Comment
mod Examples
use cs.Base.{
  ℕ, ◌-◌, ◌%◌, Bool, true, false, ltb, nat_beq, not, List, [], ◌∷◌, ◌++◌, Text, String, codes,
  count_text, replace, if◌then◌else◌,
}
use cs.Re.{Pattern, ◌⨟◌, ◌∣∣◌, some_of, group, line_start, boundary}
use cs.Re.Short.{str, chr, char_in, char_not_in, blanks, blanks1, word, any_of, found, starts_at}
use cs.Nolint.{Report}

abbrev pub report : ℕ → String → ℕ → Text → Report
report linenum category confidence message = record {
  linenum = linenum;
  category = codes category;
  confidence = confidence;
  message = message;
}

-- `if b: error(…)`
abbrev pub report_if : Bool → Report → List Report
report_if true r = r ∷ []
report_if false r = []

abbrev pub multiline_comment : ℕ → Report
multiline_comment linenum = report linenum "readability/multiline_comment" 5 (
    codes
      "Complex multi-line /*...*/-style comment found. Lint may give bogus warnings.  Consider replacing these with //-style comments, with #if 0...#endif, or with more clearly structured multi-line comments.")

abbrev pub multiline_string : ℕ → Report
multiline_string linenum = report linenum "readability/multiline_string" 5 (
    codes
      "Multi-line string (\"...\") found.  This lint script doesn't do well with such strings, and may give bogus warnings.  Use C++11 raw strings or concatenation instead.")

-- `line.replace('\\\\', '')`
unfoldable pub without_backslash_pairs : Text → Text
without_backslash_pairs = replace (codes "\\\\") []

-- `(line.count('"') - line.count('\\"')) % 2`: no more quotes stand after a backslash than there
-- are quotes.
unfoldable pub odd_quotes : Text → Bool
odd_quotes line = nat_beq ((count_text (codes "\"") line - count_text (codes "\\\"") line) % 2) 1

-- `CheckForMultilineCommentsAndStrings`
unfoldable pub check_for_multiline_comments_and_strings : ℕ → Text → List Report
unfolding without_backslash_pairs odd_quotes
check_for_multiline_comments_and_strings linenum elided =
    let line = without_backslash_pairs elided in
    report_if (ltb (count_text (codes "*/") line) (count_text (codes "/*") line))
      (multiline_comment linenum)
    ++ report_if (odd_quotes line) (multiline_string linenum)

-- `_UNSAFE_FUNC_PREFIX`: `(?:[-+*/=%^&|(<]\s*|>\s+)`
unfoldable pub unsafe_func_prefix : Pattern
unsafe_func_prefix = char_in "-+*/=%^&|(<" ⨟ blanks ∣∣ chr b'>' ⨟ blanks1

-- A row of `_THREADING_LIST`: the names with their parenthesis, and the pattern.
pub record Threading : Type 0 where
  pub single_thread_func : Text
  pub multithread_safe_func : Text
  pub pattern : Pattern

-- `…name\([^)]+\)`, and `…name\(\)` for a function with no argument.
abbrev with_arguments : String → Threading
with_arguments name = record {
  single_thread_func = codes name ++ codes "(";
  multithread_safe_func = codes name ++ codes "_r(";
  pattern = unsafe_func_prefix ⨟ str name ⨟ chr b'(' ⨟ some_of (char_not_in ")") ⨟ chr b')';
}

abbrev with_none : String → Threading
with_none name = record {
  single_thread_func = codes name ++ codes "(";
  multithread_safe_func = codes name ++ codes "_r(";
  pattern = unsafe_func_prefix ⨟ str name ⨟ str "()";
}

-- `_THREADING_LIST`
unfoldable pub threading_list : List Threading
threading_list =
    with_arguments "asctime"
    ∷ with_arguments "ctime"
    ∷ with_arguments "getgrgid"
    ∷ with_arguments "getgrnam"
    ∷ with_none "getlogin"
    ∷ with_arguments "getpwnam"
    ∷ with_arguments "getpwuid"
    ∷ with_arguments "gmtime"
    ∷ with_arguments "localtime"
    ∷ with_none "rand"
    ∷ with_arguments "strtok"
    ∷ with_arguments "ttyname"
    ∷ []

abbrev pub unsafe_function : ℕ → Threading → Report
unsafe_function linenum row = report linenum "runtime/threadsafe_fn" 2 (
    codes "Consider using "
    ++ row.multithread_safe_func
    ++ codes "...) instead of "
    ++ row.single_thread_func
    ++ codes "...) for improved thread safety.")

unfoldable pub check_threading_rows : List Threading → ℕ → Text → List Report
check_threading_rows [] linenum line = []
check_threading_rows (row ∷ rows) linenum line =
    report_if (found row.pattern line) (unsafe_function linenum row)
    ++ check_threading_rows rows linenum line

-- `CheckPosixThreading`
unfoldable pub check_posix_threading : ℕ → Text → List Report
unfolding check_threading_rows
check_posix_threading = check_threading_rows threading_list

-- `\bVLOG\((INFO|ERROR|WARNING|DFATAL|FATAL)\)`
unfoldable pub symbolic_vlog : Pattern
symbolic_vlog =
    boundary
    ⨟ str "VLOG("
    ⨟ group 1 (any_of ("INFO" ∷ "ERROR" ∷ "WARNING" ∷ "DFATAL" ∷ "FATAL" ∷ []))
    ⨟ chr b')'

-- `CheckVlogArguments`
unfoldable pub check_vlog_arguments : ℕ → Text → List Report
unfolding symbolic_vlog
check_vlog_arguments linenum line = report_if (found symbolic_vlog line) (
    report linenum "runtime/vlog" 5 (
      codes
        "VLOG() should be used with numeric verbosity level.  Use LOG() if you want symbolic severity levels."))

-- `_RE_PATTERN_INVALID_INCREMENT`: `^\s*\*\w+(\+\+|--);`
unfoldable pub invalid_increment : Pattern
invalid_increment =
    line_start ⨟ blanks ⨟ chr b'*' ⨟ word ⨟ group 1 (str "++" ∣∣ str "--") ⨟ chr b';'

-- `CheckInvalidIncrement`
unfoldable pub check_invalid_increment : ℕ → Text → List Report
unfolding invalid_increment
check_invalid_increment linenum line = report_if (starts_at invalid_increment line) (
    report linenum "runtime/invalid_increment" 5
      (codes "Changing pointer instead of value (or unused value of operator*)."))

-- `_RE_PATTERN_EXPLICIT_MAKEPAIR`: `\bmake_pair\s*<`
unfoldable pub explicit_makepair : Pattern
explicit_makepair = boundary ⨟ str "make_pair" ⨟ blanks ⨟ chr b'<'

-- `CheckMakePairUsesDeduction`
unfoldable pub check_make_pair_uses_deduction : ℕ → Text → List Report
unfolding explicit_makepair
check_make_pair_uses_deduction linenum line = report_if (found explicit_makepair line) (
    report linenum "build/explicit_make_pair" 4 (
      codes
        "For C++11-compatibility, omit template arguments from make_pair OR use pair directly OR if appropriate, construct a pair directly"))
