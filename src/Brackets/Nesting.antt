-- ===== src/Brackets/Nesting.antt =====
-- On well-nested text, the end that is found is the matching bracket.
use mathlib.Core.List.{append_assoc}
use cs.Base.{
  ℕ, ◌+◌, ◌≡◌, refl, ap, ◌∙◌, true, false, ◌||◌, [], ◌∷◌, ◌++◌, Text, arith, length, reverse_onto,
  reversed, reverse_onto-append, length-reverse_onto, take-before, drop-before, nat_beq,
}
use cs.Brackets.{
  Scan, closed, failed, go, stop, is_pair, is_open, is_close, end_step, scan_end,
  find_end_of_expression_in_line,
}

-- Text in which round, square and curly brackets match, with no angle bracket and no semicolon.
pub data WellNested : Text → Type 0 where
  empty : WellNested []
  plain :
      {s : Text} (c : ℕ)
      → (is_open c || (is_close c || (nat_beq c b'<' || (nat_beq c b'>' || nat_beq c b';'))))
        ≡ false
      → WellNested s
      → WellNested (c ∷ s)
  nest :
      {s t : Text} (o c : ℕ)
      → is_pair o c ≡ true
      → WellNested s
      → WellNested t
      → WellNested (o ∷ (s ++ (c ∷ t)))

step-plain :
    (c : ℕ) (past stack : Text)
    → (is_open c || (is_close c || (nat_beq c b'<' || (nat_beq c b'>' || nat_beq c b';')))) ≡ false
    → end_step c past stack ≡ go stack
unfolding end_step
step-plain c past stack h = ground arith

step-open :
    (o c : ℕ) (past stack : Text) → is_pair o c ≡ true → end_step o past stack ≡ go (o ∷ stack)
unfolding end_step
step-open o c past stack h = ground arith

step-close :
    (o c d : ℕ) (past stack : Text)
    → is_pair o c ≡ true
    → end_step c past (o ∷ d ∷ stack) ≡ go (d ∷ stack)
unfolding end_step
step-close o c d past stack h = ground arith

step-last :
    (o c : ℕ) (past : Text)
    → is_pair o c ≡ true
    → end_step c past (o ∷ []) ≡ stop (closed (length past + 1))
unfolding end_step
step-last o c past h = ground arith

scan-go :
    (c : ℕ) (past rest stack stack' : Text)
    → end_step c past stack ≡ go stack'
    → scan_end past (c ∷ rest) stack ≡ scan_end (c ∷ past) rest stack'
unfolding scan_end
scan-go c past rest stack stack' e = rw (e, scan_end)

scan-stop :
    (c : ℕ) (past rest stack : Text) (r : Scan)
    → end_step c past stack ≡ stop r
    → scan_end past (c ∷ rest) stack ≡ r
unfolding scan_end
scan-stop c past rest stack r e = rw (e, scan_end)

-- Well-nested text inside a bracket is read over, and leaves the stack as it was.
scan_end-WellNested :
    {s : Text} (past rest : Text) (d : ℕ) (stack : Text)
    → WellNested s
    → scan_end past (s ++ rest) (d ∷ stack) ≡ scan_end (reverse_onto past s) rest (d ∷ stack)
unfolding reverse_onto
scan_end-WellNested past rest d stack empty = refl
scan_end-WellNested past rest d stack (plain {s} c h w) =
    scan-go c past (s ++ rest) _ _ (step-plain c past (d ∷ stack) h)
    ∙ scan_end-WellNested (c ∷ past) rest d stack w
scan_end-WellNested past rest d stack (nest {s} {t} o c h w v) =
    let inner = reverse_onto (o ∷ past) s in
    scan-go o past _ _ _ (step-open o c past (d ∷ stack) h)
    ∙ rw (append_assoc s (c ∷ t) rest, reverse_onto-append (o ∷ past) s (c ∷ t))
        (scan_end-WellNested (o ∷ past) (c ∷ (t ++ rest)) o (d ∷ stack) w
          ∙ scan-go c inner (t ++ rest) _ _ (step-close o c d inner stack h)
          ∙ scan_end-WellNested (c ∷ inner) rest d stack v)

-- From an opening bracket, past well-nested text, `find_end_of_expression_in_line` gives the
-- position just after the bracket that closes it, whatever stands before and behind on the line.
pub find_end-WellNested :
    (before rest : Text) {s : Text} (o c : ℕ)
    → is_pair o c ≡ true
    → WellNested s
    → find_end_of_expression_in_line (before ++ (o ∷ (s ++ (c ∷ rest)))) (length before) []
      ≡ closed (length before + length s + 2)
unfolding find_end_of_expression_in_line reversed reverse_onto
find_end-WellNested before rest {s} o c h w =
    let past = reverse_onto [] before in
    let inner = reverse_onto (o ∷ past) s in
    rw (take-before before (o ∷ (s ++ (c ∷ rest))), drop-before before (o ∷ (s ++ (c ∷ rest))))
      (scan-go o past _ _ _ (step-open o c past [] h)
        ∙ scan_end-WellNested (o ∷ past) (c ∷ rest) o [] w
        ∙ scan-stop c inner rest _ _ (step-last o c inner h)
        ∙ ap closed
            (omega (arith, length-reverse_onto (o ∷ past) s, length-reverse_onto [] before)))

step-mismatch :
    (o c : ℕ) (past : Text)
    → is_open o ≡ true
    → is_close c ≡ true
    → is_pair o c ≡ false
    → end_step c past (o ∷ []) ≡ stop failed
unfolding end_step
step-mismatch o c past opens closes h = ground arith

step-any_open :
    (o : ℕ) (past stack : Text) → is_open o ≡ true → end_step o past stack ≡ go (o ∷ stack)
unfolding end_step
step-any_open o past stack h = ground arith

-- From an opening bracket, past well-nested text, to a closing bracket of another kind,
-- `find_end_of_expression_in_line` finds no end and gives up.
pub find_end-mismatch :
    (before rest : Text) {s : Text} (o c : ℕ)
    → is_open o ≡ true
    → is_close c ≡ true
    → is_pair o c ≡ false
    → WellNested s
    → find_end_of_expression_in_line (before ++ (o ∷ (s ++ (c ∷ rest)))) (length before) [] ≡ failed
unfolding find_end_of_expression_in_line reversed reverse_onto
find_end-mismatch before rest {s} o c opens closes h w =
    let past = reverse_onto [] before in
    rw (take-before before (o ∷ (s ++ (c ∷ rest))), drop-before before (o ∷ (s ++ (c ∷ rest))))
      (scan-go o past _ _ _ (step-any_open o past [] opens)
        ∙ scan_end-WellNested (o ∷ past) (c ∷ rest) o [] w
        ∙ scan-stop c (reverse_onto (o ∷ past) s) rest _ _
            (step-mismatch o c (reverse_onto (o ∷ past) s) opens closes h))
