-- ===== src/Statements.antt =====
-- The checks of the statements of a line in lab5/cpplint.py. `width` is `GetLineWidth`, and
-- `line_length` the module's `_line_length`.
pub mod Braces
pub mod Semicolons
pub mod Bodies
pub mod CheckMacros
pub mod Tokens
mod Examples
use cs.Base.{
  ℤ, ℕ, suc, ◌-◌, Bool, true, false, ◌||◌, Option, none, some, List, [], ◌∷◌, Text, length, drop,
  find,
}
use cs.Nolint.{Report}
use cs.Brackets.{Place}

-- A call that a check of a line makes, of `error` or of `ParseNolintSuppressions`, which may be given
-- the line -1.
pub data LineCall : Type 0 where
  reported : Report → LineCall
  parsed : Text → ℤ → LineCall

-- `s[p:]`, where a `p` of -1 (`none`) leaves the last character.
abbrev pub from_position : Text → Option ℕ → Text
from_position s none = drop (length s - 1) s
from_position s (some p) = drop p s
