-- ===== src/Statements/CheckMacros/Operands.antt =====
-- The loop of `check_check` over an expression ends.
use cs.Base.{
  if◌then◌else◌, ℕ, zero, suc, ◌≡◌, ◌≤◌, ◌<◌, refl, Bool, true, false, Bool-cases, Option-cases,
  inl, inr, some, List, [], ◌∷◌, ◌++◌, Text, String, codes, contains, text_eq, ◌==◌, length, drop,
  take, length-drop_le, All, arith,
}
use cs.Re.{Pattern, Found, ◌∣∣◌, matches, some_of}
use cs.Re.Reads.{Reads, Reads-weaken, line_start-Reads, ∣∣-Reads}
use cs.Re.Repeats.{many-one-Reads}
use cs.Re.Ends.{
  Long, any-Long, lit-Long, one-Long, group-Long, ⨟-Long, Ends, last-Ends, ⨟-Ends, matches-Ends,
}
use cs.Re.Short.{str, any_of, blanks, anything}
use cs.CleansedLines.{group_text}
use cs.Brackets.{closed, failed, unfinished, find_end_of_expression_in_line}
use cs.Statements.CheckMacros.{
  logical, non_relational, Round, further, done, give_up, token_first, operand_first,
  character_first, parenthesized, token_round, operand_round, round, operands,
}

any_of-Long : (ws : List String) → All (λ w. 1 ≤ length (codes w)) ws → Reads (any_of ws) (Long 1)
unfolding any_of
any_of-Long [] h = λ s k r e. cc
any_of-Long (w ∷ ws) h =
    Reads-weaken (str w ∣∣ any_of ws)
      (λ t gs e. elim e [ inl p ↦ omega arith | inr p ↦ omega arith ])
      (∣∣-Reads (str w) (any_of ws) (lit-Long (codes w)) (any_of-Long ws h.1))

blanks-Long : Reads blanks (Long 0)
unfolding blanks
blanks-Long = any-Long _ (many-one-Reads _)

token_first-Ends : Reads token_first (Ends 2 1)
unfolding token_first anything
token_first-Ends = ⨟-Ends 2 0 1 _ _ (any-Long _ line_start-Reads) (
    ⨟-Ends 2 0 1 _ _ blanks-Long (
      ⨟-Ends 2 1 0 _ _ (group-Long 1 1 _ (any_of-Long _ (omega arith)))
        (last-Ends 2 _ (many-one-Reads _))))

operand_first-Ends : Reads operand_first (Ends 2 1)
unfolding operand_first anything some_of
operand_first-Ends = ⨟-Ends 2 0 1 _ _ (any-Long _ line_start-Reads) (
    ⨟-Ends 2 1 0 _ _
      (group-Long 1 1 _ (⨟-Long 1 0 _ _ (one-Long _) (any-Long _ (many-one-Reads _))))
      (last-Ends 2 _ (many-one-Reads _)))

character_first-Ends : Reads character_first (Ends 2 1)
unfolding character_first anything
character_first-Ends = ⨟-Ends 2 0 1 _ _ (any-Long _ line_start-Reads) (
    ⨟-Ends 2 1 0 _ _ (group-Long 1 1 _ (⨟-Long 0 1 _ _ blanks-Long (one-Long _)))
      (last-Ends 2 _ (many-one-Reads _)))

rest-lt :
    (m : Pattern) (t : Text) (f : Found)
    → Reads m (Ends 2 1)
    → matches m t ≡ some f
    → length (group_text f 2) < length t
rest-lt m t f x e =
    let (u, at, h) = matches-Ends 2 1 m t f x e in
    let rest_eq : group_text f 2 ≡ u = ground arith in rw rest_eq (omega arith)

-- A round goes on with a shorter expression, or it does not go on.
abbrev Shortens : ℕ → Round → Type 0
Shortens n (further lhs expression) = length expression < n
Shortens n (done lhs operator rhs) = Unit
Shortens n give_up = Unit

parenthesized-Shortens :
    (n : ℕ) (lhs rest : Text) → length rest < n → Shortens n (parenthesized lhs rest)
unfolding parenthesized
parenthesized-Shortens n lhs rest h =
    elim (find_end_of_expression_in_line rest 0 (b'(' ∷ []))
      as (λ r. Shortens n (elim r [
        | closed end ↦ further (lhs ++ b'(' ∷ take end rest) (drop end rest)
        | failed ↦ give_up
        | unfinished stack ↦ give_up
      ])) [
        | closed end ↦ omega (arith, length-drop_le end rest)
        | failed ↦ tt
        | unfinished stack ↦ tt
      ]

token_round-Shortens :
    (n : ℕ) (lhs token rest : Text) → length rest < n → Shortens n (token_round lhs token rest)
unfolding token_round
token_round-Shortens n lhs token rest h = elim (Bool-cases (token == codes "(")) [
  | inl e ↦ rw e (parenthesized-Shortens n lhs rest h)
  | inr e ↦ rw e (others (contains logical token) (contains non_relational token))
]
  where
    others :
        (a b : Bool)
        → Shortens n
            (if a then give_up else if b then further (lhs ++ token) rest else done lhs token rest)
    others true b = tt
    others false true = h
    others false false = tt

operand_round-Shortens :
    (lhs expression : Text) → Shortens (length expression) (operand_round lhs expression)
unfolding operand_round
operand_round-Shortens lhs expression = elim (Option-cases (matches operand_first expression)) [
  | inr (f, e) ↦ rw (e, operand_round) (rest-lt operand_first expression f operand_first-Ends e)
  | inl e ↦ elim (Option-cases (matches character_first expression)) [
    | inr (f, g) ↦
        rw (e, g, operand_round) (rest-lt character_first expression f character_first-Ends g)
    | inl g ↦ rw (e, g, operand_round) tt
  ]
]

round-Shortens : (lhs expression : Text) → Shortens (length expression) (round lhs expression)
unfolding round
round-Shortens lhs [] = tt
round-Shortens lhs (c ∷ expression) = elim (Option-cases (matches token_first (c ∷ expression))) [
  | inr (f, e) ↦
      rw (e, round)
        (token_round-Shortens (length (c ∷ expression)) lhs (group_text f 1) (group_text f 2)
          (rest-lt token_first (c ∷ expression) f token_first-Ends e))
  | inl e ↦ rw (e, round) (operand_round-Shortens lhs (c ∷ expression))
]

-- The loop has come to its end.
abbrev pub IsOver : Round → Type 0
IsOver (further lhs expression) = ⊥
IsOver (done lhs operator rhs) = Unit
IsOver give_up = Unit

-- With more fuel than the expression is long, the loop over its operands comes to an end: it finds
-- the operands, or it gives up.
pub operands-IsOver :
    (fuel : ℕ) (lhs expression : Text)
    → length expression < fuel
    → IsOver (operands fuel lhs expression)
unfolding operands
operands-IsOver zero lhs expression h = absurd (omega arith)
operands-IsOver (suc fuel) lhs expression h =
    go (round lhs expression) refl (round-Shortens lhs expression) (operands-IsOver fuel)
  where
    go :
        (r : Round)
        → round lhs expression ≡ r
        → Shortens (length expression) r
        → ((l e : Text) → length e < fuel → IsOver (operands fuel l e))
        → IsOver (operands (suc fuel) lhs expression)
    go (further lhs' expression') e s rest = rw (e, operands) (rest lhs' expression' (omega arith))
    go (done l o r) e s rest = rw (e, operands) tt
    go give_up e s rest = rw (e, operands) tt
