-- ===== src/FunctionState.antt =====
-- `_FunctionState` of lab5/cpplint.py: the function being read and the number of its lines.
pub mod Size
pub mod Bodies
pub mod Calls
mod Examples
use cs.Base.{
  ℕ, zero, suc, ◌+◌, ◌*◌, ◌/◌, ◌^◌, Bool, true, false, Option, none, some, List, [], ◌∷◌, ◌++◌,
  Text, codes, ltb, show, if◌then◌else◌,
}
use cs.Re.{Pattern, lit, ◌⨟◌, ◌∣∣◌, group, matches}
use cs.Nolint.{Report}

pub record FunctionState : Type 0 where
  pub in_a_function : Bool
  pub lines_in_function : ℕ
  pub current_function : Text

abbrev pub normal_trigger : ℕ
normal_trigger = 250

abbrev pub test_trigger : ℕ
test_trigger = 400

-- `__init__`
abbrev pub initial : FunctionState
initial = record { in_a_function = false; lines_in_function = 0; current_function = [] }

unfoldable pub begin : Text → FunctionState → FunctionState
begin function_name s = record {
  in_a_function = true;
  lines_in_function = 0;
  current_function = function_name;
}

unfoldable pub count : FunctionState → FunctionState
count s = if s.in_a_function then record s { lines_in_function = s.lines_in_function + 1 } else s

-- `T(EST|est)`
unfoldable pub test_name : Pattern
test_name = lit (codes "T") ⨟ group 1 (lit (codes "EST") ∣∣ lit (codes "est"))

unfoldable pub base_trigger : Text → ℕ
base_trigger current_function = elim (matches test_name current_function) [
  | some _ ↦ test_trigger
  | none ↦ normal_trigger
]

-- The whole part of the logarithm to base 2, `int(math.log(n, 2))`.
unfoldable pub log2_from : ℕ → ℕ → ℕ
log2_from zero n = 0
log2_from (suc fuel) n = let rest = log2_from fuel (n / 2) in if ltb n 2 then 0 else suc rest

-- `int(math.log(lines / base_trigger, 2))`, at most 5. The whole part of the logarithm of a
-- quotient that is at least 1 is that of the quotient's whole part.
unfoldable pub error_level : ℕ → ℕ → ℕ
unfolding log2_from
error_level lines base =
    let level = log2_from lines (lines / base) in if ltb 5 level then 5 else level

abbrev size_message : Text → ℕ → ℕ → Text
size_message name lines trigger =
    codes "Small and focused functions are preferred: "
    ++ (name
        ++ (codes " has "
            ++ (show lines
                ++ (codes " non-comment lines (error triggered by exceeding "
                    ++ (show trigger ++ codes " lines).")))))

-- `Check`, at the verbosity `verbose`: what it reports.
unfoldable pub check : ℕ → ℕ → FunctionState → List Report
unfolding error_level
check verbose linenum s =
    let base = base_trigger s.current_function in
    let trigger = base * 2 ^ verbose in
    if s.in_a_function
    then (if ltb trigger s.lines_in_function
        then record {
          linenum = linenum;
          category = codes "readability/fn_size";
          confidence = error_level s.lines_in_function base;
          message = size_message s.current_function s.lines_in_function trigger;
        }
          ∷ []
        else [])
    else []

unfoldable pub end_function : FunctionState → FunctionState
end_function s = record s { in_a_function = false }
