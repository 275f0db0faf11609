-- ===== src/Nesting/Tokens.antt =====
-- What the pattern of the last loop of `NestingState.Update` in lab5/cpplint.py finds.
use cs.Base.{
  ℕ, zero, suc, ◌≤◌, ◌≡◌, refl, sym, ap, ◌∙◌, inl, inr, Bool, true, false, not, Option, none, some,
  Option-cases, List, [], ◌∷◌, ◌++◌, Text, All, length, reverse_onto, reversed, append_nil,
  length-append, lookup_or, nat_eq, arith,
}
use cs.Re.{
  Position, Found, Pattern, one, ◌⨟◌, many_from, many, group, taken, any_char, line_start, line_end,
  matches, match_at, group_of,
}
use cs.Re.Reads.{
  Reads, Reads-weaken, After, taken-After, ⨟-Reads, group-Reads, one-Reads, line_start-Reads,
  line_end-Reads,
}
use cs.Re.Repeats.{many-one-Reads}
use cs.Re.Shows.{matches-Shows}
use cs.CleansedLines.{group_text}
use cs.Nesting.Update.{is_token, next_token}

-- The text does not begin with a character of the class.
abbrev pub Stops : (ℕ → Bool) → Text → Type 0
Stops p [] = Unit
Stops p (c ∷ u) = p c ≡ false

-- The position in front of `rest`.
abbrev at_rest : Text → Text → List (ℕ × Option Text) → Position
at_rest past rest groups = record { past = past; rest = rest; groups = groups }

-- A greedy repetition takes the characters of the class, if the rest of the pattern goes on there.
many_one_goes :
    (p : ℕ → Bool) (a u : Text) (fuel : ℕ) (past : Text) (gs : List (ℕ × Option Text))
    (k : Position → Option Position) (r : Position)
    → All (λ c. p c ≡ true) a
    → Stops p u
    → length a ≤ fuel
    → k (at_rest (reverse_onto past a) u gs) ≡ some r
    → many_from (one p) fuel (at_rest past (a ++ u) gs) k ≡ some r
unfolding many_from one reverse_onto
many_one_goes p [] u zero past gs k r h stop n g = g
many_one_goes p [] [] (suc fuel) past gs k r h stop n g = g
many_one_goes p [] (c ∷ u) (suc fuel) past gs k r h stop n g = ground arith
many_one_goes p (c ∷ a) u zero past gs k r h stop n g = absurd (omega arith)
many_one_goes p (c ∷ a) u (suc fuel) past gs k r (is_in, h) stop n g =
    let later = many_one_goes p a u fuel (c ∷ past) gs k r h stop (omega arith) g in ground arith

-- `(.*)$` takes the rest of a line.
rest_goes :
    (i : ℕ) (b past : Text) (gs : List (ℕ × Option Text))
    → All (λ c. any_char c ≡ true) b
    → (group i (many (one any_char)) ⨟ line_end) (at_rest past b gs) some
      ≡ some (at_rest (reverse_onto past b) [] ((i, some b) ∷ gs))
unfolding ◌⨟◌ group many line_end
rest_goes i b past gs h =
    let same = append_nil b in
    let after : After (at_rest past b gs) b [] (at_rest (reverse_onto past b) [] gs) = record {
      rest_eq = sym same;
      past_eq = refl;
      groups_eq = refl;
    } in
    let k : Position → Option Position = λ s'.
      line_end (record s' { groups = (i, some (taken (at_rest past b gs) s')) ∷ s'.groups }) some in
    let r = at_rest (reverse_onto past b) [] ((i, some b) ∷ gs) in
    let goes : many_from (one any_char) (length b) (at_rest past (b ++ []) gs) k ≡ some r =
      many_one_goes any_char b [] (length b) past gs k r h tt (omega arith) (
        ap (λ t. some (at_rest (reverse_onto past b) [] ((i, some t) ∷ gs))) (taken-After after)) in
    rw same at goes

one_goes :
    (i : ℕ) (p : ℕ → Bool) (m : Pattern) (c : ℕ) (b past : Text) (gs : List (ℕ × Option Text))
    (k : Position → Option Position)
    → p c ≡ true
    → (group i (one p) ⨟ m) (at_rest past (c ∷ b) gs) k
      ≡ m (at_rest (c ∷ past) b ((i, some (c ∷ [])) ∷ gs)) k
unfolding ◌⨟◌ group one reverse_onto
one_goes i p m c b past gs k is_in =
    let after : After (at_rest past (c ∷ b) gs) (c ∷ []) [] (at_rest (c ∷ past) b gs) = record {
      rest_eq = refl;
      past_eq = refl;
      groups_eq = refl;
    } in
    rw (is_in, taken-After after) refl

pub next_token_found :
    (a : Text) (c : ℕ) (b : Text)
    → All (λ d. not (is_token d) ≡ true) a
    → is_token c ≡ true
    → All (λ d. any_char d ≡ true) b
    → (f : Found) × (matches next_token (a ++ c ∷ b) ≡ some f)
      × (group_text f 1 ≡ c ∷ [])
      × (group_text f 2 ≡ b)
unfolding next_token matches group_of lookup_or ◌⨟◌ many group line_start
next_token_found a c b h is_c any =
    let rest = group 2 (many (one any_char)) ⨟ line_end in
    let start = at_rest [] (a ++ c ∷ b) [] in
    let back = reverse_onto [] a in
    let r = at_rest (reverse_onto (c ∷ back) b) [] ((2, some b) ∷ (1, some (c ∷ [])) ∷ []) in
    let goes : next_token start some ≡ some r =
      many_one_goes (λ d. not (is_token d)) a (c ∷ b) (length (a ++ c ∷ b)) [] []
        (λ s'. (group 1 (one is_token) ⨟ rest) s' some) r h (ap not is_c)
        (omega (arith, length-append a (c ∷ b)))
        (one_goes 1 is_token rest c b back [] some is_c
          ∙ rest_goes 2 b (c ∷ back) ((1, some (c ∷ [])) ∷ []) any) in
    (
      record { before = reversed []; whole = taken start r; after = []; groups = r.groups },
      rw (goes, match_at) refl,
      refl,
      refl,
    )

pub All-right {κ} : (P : ℕ → Type κ) (xs ys : Text) → All P (xs ++ ys) → All P ys
All-right P [] ys h = h
All-right P (x ∷ xs) ys h = All-right P xs ys h.1

All-left {κ} : (P : ℕ → Type κ) (xs ys : Text) → All P (xs ++ ys) → All P xs
All-left P [] ys h = tt
All-left P (x ∷ xs) ys h = (h.0, All-left P xs ys h.1)

-- What the pattern reads has a token.
HasToken : Text → Type 0
HasToken t = (a : Text) × (c : ℕ) × (b : Text) × (t ≡ a ++ c ∷ b) × (is_token c ≡ true)

next_token-HasToken : Reads next_token (λ t gs. HasToken t)
unfolding next_token HasToken
next_token-HasToken =
    Reads-weaken next_token
      (λ t gs
          (
            a0,
            t1,
            _,
            _,
            e0,
            _,
            (z, _),
            (a, t2, _, _, e1, _, _, (a2, t3, _, _, e2, _, (hs, _, (c, e3, is_c, _)), _)),
          ).
        (a, c, t3, rw (e0, z, e1, e2, e3) refl, is_c))
      (⨟-Reads _ _ line_start-Reads (
        ⨟-Reads _ _ (many-one-Reads (λ d. not (is_token d))) (
          ⨟-Reads _ _ (group-Reads 1 _ (one-Reads is_token))
            (⨟-Reads _ _ (group-Reads 2 _ (many-one-Reads any_char)) line_end-Reads))))

pub next_token_absent :
    (line : Text) → All (λ d. not (is_token d) ≡ true) line → matches next_token line ≡ none
unfolding HasToken
next_token_absent line h = elim (Option-cases (matches next_token line)) [
  | inl e ↦ e
  | inr (f, e) ↦
      let shown = matches-Shows next_token line f next_token-HasToken e in
      let (a, c, b, whole, is_c) = shown.gained in
      let plain = λ (d : ℕ). not (is_token d) ≡ true in
      let there =
        All-left plain f.whole f.after
          (All-right plain f.before (f.whole ++ f.after) (rw shown.text_eq at h)) in
      let at_c = All-right plain a (c ∷ b) (rw whole at there) in absurd (ground arith)
]
