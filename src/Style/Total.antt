-- ===== src/Style/Total.antt =====
-- `check_style` comes to an end on every line of a file.
use cs.Base.{Option, List, [], ◌∷◌}
use cs.CleansedLines.{CleansedLines}
use cs.Statements.{LineCall}
use cs.Style.Places.{Gives}

-- Each check of a list gives its calls.
infixr 20 ◌⟫◌
data AllGive : List (Option (List LineCall)) → Type 0 where
  nothing : AllGive []
  ◌⟫◌ :
      {check : Option (List LineCall)} {checks : List (Option (List LineCall))}
      → Gives check
      → AllGive checks
      → AllGive (check ∷ checks)
