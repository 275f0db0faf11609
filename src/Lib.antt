-- ===== src/Lib.antt =====
-- Models of lab5/cpplint.py, the style checker that the Makefile of lab5 runs over its C++ files, and
-- of lab1/runtest.py, the test runner of lab1.
--
-- The program reads a C++ file, removes its comments and strings, and runs checks on every line.
-- A check reports an error with a category and a confidence; `Error` drops it if a NOLINT comment,
-- a filter or the verbosity says so, and else counts and prints it. The parts and their files:
--   Base, Re        Python's strings, lists and dictionaries, and the patterns of its module `re`.
--   Constants       The tables of error categories and standard headers.
--   IncludeState    The class `_IncludeState`: the headers of a file, and the order of their
--                   sections.
--   CppLintState    The class `_CppLintState`: filters, counts and options.
--   Nolint          `ParseNolintSuppressions`, `ProcessGlobalSuppresions`, `IsErrorSuppressedByNolint`
--                   and the two tables they share.
--   Linter          `_ShouldPrintError` and `Error`, over the state of both.
--   FunctionState   The class `_FunctionState`: the length of a function's body.
--   Brackets        `FindEndOfExpressionInLine`, `CloseExpression`, and the same backwards.
--   Comments        `RemoveMultiLineComments`, `IsCppString` and `CleanseComments`.
--   Paths           The functions of `os.path` that the code uses, without the file system.
--   Includes        `FileInfo`, `_DropCommonSuffixes`, `_ClassifyInclude` and `CheckIncludeLine`.
--   FileChecks      `CheckForCopyright`, `CheckForBadCharacters`, `CheckForNewlineAtEOF` and
--                   `GetIndentLevel`.
--   Modules         `FilesBelongToSameModule`.
--   HeaderGuard     `PathSplitToList`, `GetHeaderGuardCPPVariable` and `CheckForHeaderGuard`, which is
--                   modelled by the calls that it makes; `run_events` runs them.
--   CleansedLines   `CleanseRawStrings`, `_CollapseStrings` and the class `CleansedLines`. The loops
--                   have one more than the length of the line as fuel: each round shortens it.
--   Nesting         The blocks of a file: `NestingState`, its stacks, `UpdatePreprocessor` and
--                   `Update`, in child modules for the blocks' methods (Blocks, Namespaces),
--                   `InTemplateArgumentList` (Templates), and the steps of `Update` (Openings,
--                   Update). The loops over a line have one more than its length as fuel, enough
--                   as each round consumes a character; that of `InTemplateArgumentList` has one
--                   more than the lengths of the lines with two for each line, enough as each round
--                   goes on in its line or to a later one.
--   RunTest         lab1/runtest.py.
--   FunctionState/Bodies  `CheckForFunctionLengths`, over the lines of CleansedLines.
--   IncludeWhatYouUse  `UpdateIncludeState` and `CheckForIncludeWhatYouUse`: the headers a line needs
--                   (Tables), and those that are included (Headers). `io.open` is `read_file`.
--   Includes/OwnHeader  `CheckHeaderFileIncluded`; `os.path.exists` is `exists`.
--   LineChecks      the checks of one line: strings and comments that go on, threads, increments,
--                   the indentation in namespaces (Namespaces), `virtual` and `override` (Virtual),
--                   C++11 features (Features) and comments (Comment)
--   Spacing         `CheckSpacing` and the checks of the spaces around calls (Calls), operators
--                   (Operators) and braces (Braces). The loop over the methods of operators has one
--                   more than the length of the line as fuel: each round hides a character.
--   Statements      the checks of braces, semicolons, empty bodies, `CHECK` macros and alternative
--                   tokens. `unicodedata` is a parameter of `get_line_width`. The loop over an
--                   expression has one more than its length as fuel: each round shortens it.
--   Style           `CheckStyle`, which calls these; `width` is `GetLineWidth`, `line_length` the
--                   option.
--   Constructs      `CheckForNonStandardConstructs`; the arguments of a constructor (Arguments), and
--                   the IndexError where a bracket in them is open (Unclosed)
-- The proofs about a part are in the modules of its folder, tests and examples in its Examples.
-- A function of the source has the same name here in small letters with underscores. A method
-- takes the object's record, the module-wide state of the source is the record `Linter`, and a
-- function that calls `error` returns a list of reports. An exception is a `none` or an error value.
--
-- A text is a list of code points. White space, letters and digits are those of ASCII. The
-- verbosity is a natural number. A pattern tries its alternatives in the order of Python's engine
-- and is greedy where Python is; a repetition has the length of the text as fuel, which is enough
-- as each round consumes a character. The loop of `RemoveMultiLineComments` has one more than the
-- number of lines as fuel, enough as each round passes a line, and the logarithm of `_FunctionState.Check`
-- has its argument as fuel. The number `math.log(x / y, 2)` is rounded down exactly.
--
-- lab1/runtest.py runs the tests of an allocator and prints a score: RunTest, with the script
-- `utils/difftest.sh` as the parameter `difftest`. A number of points is kept in halves.
--
-- `FileInfo.RepositoryName` looks for the top of a checkout on the disk: it is the parameter
-- `repository_name`, as `os.path.abspath` is `abspath` and `io.open` is `read_file`. Not modelled
-- are `CheckLanguage` and the checks that it calls, `CheckForNonConstReference`, `ProcessLine` and
-- `ProcessFileData`, which call them, the command line and everything else that reads files, the
-- cache of compiled patterns, which changes no result, and the programs of lab1, lab2, lab4 and
-- lab5/src, which are in other languages.
mod Base
pub mod Re
pub mod Constants
pub mod IncludeState
pub mod CppLintState
pub mod Nolint
pub mod Linter
pub mod FunctionState
pub mod Brackets
pub mod Comments
pub mod Paths
pub mod Includes
pub mod FileChecks
pub mod Modules
pub mod HeaderGuard
pub mod CleansedLines
pub mod Nesting
pub mod RunTest
pub mod IncludeWhatYouUse
pub mod LineChecks
pub mod Spacing
pub mod Statements
pub mod Style
pub mod Constructs
