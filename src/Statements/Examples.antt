-- ===== src/Statements/Examples.antt =====
-- Runs of the checks of statements, and a theorem about them at a concrete expression.
use cs.Base.{◌≡◌, refl, [], ◌∷◌, codes, arith}
use cs.Statements.CheckMacros.{done, operands, check_replacement}
use cs.Statements.CheckMacros.Operands.{IsOver, operands-IsOver}
use cs.Statements.Tokens.{check_alt_tokens}
use cs.Style.Run.{all_style}
use cs.LineChecks.{report}

operands-IsOver_example : IsOver (operands 6 [] (codes "a<b"))
operands-IsOver_example = operands-IsOver 6 [] (codes "a<b") (omega arith)

compared :
    operands 20 [] (codes "(a + b)[0] >= 7") ≡ done (codes "(a + b)[0] ") (codes ">=") (codes " 7")
unfolding all_style
compared = refl

replaced : check_replacement (codes "EXPECT_FALSE") (codes "<") ≡ codes "EXPECT_GE"
unfolding all_style
replaced = refl

tokens :
    check_alt_tokens 2 (codes "if (a and not b)")
    ≡ report 2 "readability/alt_tokens" 2 (codes "Use operator && instead of and")
      ∷ report 2 "readability/alt_tokens" 2 (codes "Use operator ! instead of not")
      ∷ []
unfolding all_style
tokens = refl
