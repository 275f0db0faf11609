-- ===== src/CleansedLines/Strings.antt =====
-- `_CollapseStrings` ends on every line.
use cs.Base.{
  ℕ, zero, suc, ◌+◌, ◌≤◌, ◌<◌, ◌≡◌, refl, ap, ◌∙◌, inl, inr, Bool, true, false, not, ◌||◌, ◌&&◌,
  Bool-cases, Option, none, some, Option-cases, [], ◌∷◌, ◌++◌, Text, codes, All, length,
  length-append, length-drop_le, append_nil, find, nat_beq, lookup_or, nat_eq, text_eq, ◌==◌,
  contains, leb, ltb, arith,
}
use cs.Re.{
  Position, Found, Pattern, one, lit, ◌⨟◌, optional, many_from, many, group, taken, line_start,
  line_end, any_char, is_hex, is_word, matches, search_in, sub, group_of,
}
use cs.Re.Reads.{
  Groups, Reads, Reads-weaken, ⨟-Reads, group-Reads, one-Reads, boundary-Reads, line_start-Reads,
  line_end-Reads,
}
use cs.Re.Repeats.{many-one-Reads}
use cs.Re.Shapes.{
  Shape, size_of, groups_two, length-whole, Empty-Shape, lit-Shape, one-Shape, many-one-Shape,
  optional-Shape, many-Shape, ⨟-Shape, ∣∣-Shape, group-Shape,
}
use cs.Re.Shows.{matches-Shows, search_in-Shows, matches_of}
use cs.Includes.{include_pattern}
use cs.CleansedLines.{
  cleanse_line_escapes, group_text, first_quote, number_end, literal_rest, Round, more, last,
  broken, skip_string, skip_digits, quote_round, quote_loop, collapse_strings,
}

abbrev is_quote : ℕ → Bool
is_quote c = nat_beq c b'\'' || nat_beq c b'"'

-- What stands before the first quote, the quote, and what follows it.
abbrev QuoteShape : Text → Groups → Type 0
QuoteShape t gs =
    (h : Text) × (c : ℕ) × (u : Text) × (t ≡ h ++ c ∷ u)
    × (gs ≡ (3, some u) ∷ (2, some (c ∷ [])) ∷ (1, some h) ∷ [])
    × All (λ d. any_char d ≡ true) u

tail-Reads :
    Reads
      (group 3 (many (one any_char)) ⨟ line_end)
      (λ t gs. (gs ≡ (3, some t) ∷ []) × All (λ d. any_char d ≡ true) t)
tail-Reads =
    Reads-weaken _
      (λ t gs (a, b, as_, bs, te, ge, (hs, ae, (chars, he)), (be, bse)).
        let whole : t ≡ a = te ∙ rw be (append_nil a) in
        (rw (ge, ae, he, bse, whole) refl, rw whole chars))
      (⨟-Reads _ _ (group-Reads 3 _ (many-one-Reads any_char)) line_end-Reads)

quote-Reads : Reads (group 2 (one is_quote) ⨟ group 3 (many (one any_char)) ⨟ line_end) (λ t gs.
    (c : ℕ) × (u : Text) × (t ≡ c ∷ u)
    × (gs ≡ (3, some u) ∷ (2, some (c ∷ [])) ∷ [])
    × All (λ d. any_char d ≡ true) u)
quote-Reads =
    Reads-weaken _
      (λ t gs (a, b, as_, bs, te, ge, (hs, ae, (c, ce, _, he)), (be, chars)).
        (c, b, rw (te, ce) refl, rw (ge, ae, he, be, ce) refl, chars))
      (⨟-Reads _ _ (group-Reads 2 _ (one-Reads is_quote)) tail-Reads)

first_quote-Reads : Reads first_quote QuoteShape
unfolding first_quote
first_quote-Reads =
    Reads-weaken _
      (λ t gs
          (
            a,
            b,
            as_,
            bs,
            te,
            ge,
            (ae, ase),
            (d, e, ds, es, be, bse, (hs, de, (_, he)), (c, u, ee, ese, chars)),
          ).
        (d, c, u, rw (te, ae, be, ee) refl, rw (ge, ase, bse, de, he, ese) refl, chars))
      (⨟-Reads _ _ line_start-Reads
        (⨟-Reads _ _ (group-Reads 1 _ (many-one-Reads (λ c. not (is_quote c)))) quote-Reads))

-- A number's end is not empty.
number_end-Shape : Reads number_end (Shape 1 [])
unfolding number_end
number_end-Shape =
    let zero_ =
      ⨟-Shape _ _ (lit-Shape (codes "0"))
        (optional-Shape _ (one-Shape (λ c. contains (codes "bBxX") c))) in
    let digit = one-Shape (λ c. leb b'1' c && leb c b'9') in
    ⨟-Shape _ _ (Empty-Shape _ boundary-Reads) (
      ⨟-Shape _ _ (∣∣-Shape _ _ zero_ digit)
        (⨟-Shape _ _ (many-one-Shape is_hex) (Empty-Shape _ line_end-Reads)))

literal_rest-Shape : Reads literal_rest (Shape 0 (2 ∷ 1 ∷ []))
unfolding literal_rest
literal_rest-Shape =
    let digit = ⨟-Shape _ _ (optional-Shape _ (lit-Shape (codes "'"))) (one-Shape is_word) in
    ⨟-Shape _ _ (Empty-Shape _ line_start-Reads) (
      ⨟-Shape _ _ (group-Shape 1 _ (many-Shape _ digit))
        (⨟-Shape _ _ (group-Shape 2 _ (many-one-Shape any_char)) (Empty-Shape _ line_end-Reads)))

-- Repetition goes on wherever the rest of the pattern does.
many_goes_on :
    (m : Pattern) (fuel : ℕ) (s : Position) (k : Position → Option Position) (r : Position)
    → k s ≡ some r
    → (v : Position) × (many_from m fuel s k ≡ some v)
unfolding many_from
many_goes_on m zero s k r e = (r, e)
many_goes_on m (suc fuel) s k r e =
    let round : Position → Option Position = λ s'. elim (ltb (length s'.rest) (length s.rest)) [
      | true ↦ many_from m fuel s' k
      | false ↦ none
    ] in
    elim (Option-cases (m s round)) [
      | inl stopped ↦ (r, rw (stopped, many_from) e)
      | inr (v, went) ↦ (v, rw (went, many_from))
    ]

-- `.*$` goes on at a text with no newline.
line_goes_on :
    (fuel : ℕ) (t : Text) (s : Position) (k : Position → Option Position)
    → ((s' : Position) → s'.rest ≡ [] → (r : Position) × (k s' ≡ some r))
    → s.rest ≡ t
    → length t ≤ fuel
    → All (λ d. any_char d ≡ true) t
    → (r : Position) × (many_from (one any_char) fuel s k ≡ some r)
unfolding many_from one
line_goes_on fuel [] s k total e h chars =
    let (r, f) = total s e in many_goes_on (one any_char) fuel s k r f
line_goes_on zero (c ∷ t) s k total e h chars = absurd (omega arith)
line_goes_on (suc fuel) (c ∷ t) s k total e h (in_line, chars) =
    let s' : Position = record s { past = c ∷ s.past; rest = t } in
    let (r, f) = line_goes_on fuel t s' k total refl (omega arith) chars in (r, ground arith)

literal_rest_found :
    (t : Text) → All (λ d. any_char d ≡ true) t → (f : Found) × (matches literal_rest t ≡ some f)
unfolding literal_rest line_start group many ◌⨟◌ line_end
literal_rest_found t chars =
    let start : Position = record { past = []; rest = t; groups = [] } in
    let grouped = λ (s : Position). record s { groups = (1, some (taken start s)) ∷ s.groups } in
    let ended =
      λ (s : Position). record s { groups = (2, some (taken (grouped start) s)) ∷ s.groups } in
    let (r, e) =
      line_goes_on (length t) t (grouped start) (λ s. line_end (ended s) some)
        (λ s nil. (ended s, ground arith)) refl (omega arith) chars in
    let (v, f) = many_goes_on (optional (lit (codes "'")) ⨟ one is_word) (length t) start _ r e in
    matches_of literal_rest t v f

-- What a round leaves is shorter, and no round breaks off.
abbrev Shortens : Text → Round → Type 0
Shortens t (more out rest) = length rest < length t
Shortens t (last out) = Unit {0}
Shortens t broken = ⊥

skip_string-Shortens :
    (head : Text) (q : ℕ) (tail elided : Text)
    → length tail < length elided
    → Shortens elided (skip_string head q tail elided)
skip_string-Shortens head q tail elided h = elim (Option-cases (find tail (q ∷ []))) [
  | inl e ↦ rw (e, Shortens) tt
  | inr (n, e) ↦ rw (e, Shortens) (omega (arith, length-drop_le (n + 1) tail))
]

text_size :
    (f : Found) (tail elided : Text)
    → 0 + size_of (group_of f 1) + size_of (group_of f 2) ≤ length (b'\'' ∷ tail)
    → length tail + 1 < length elided
    → length (group_text f 2) < length elided
text_size f tail elided h k = ground arith

skip_digits-Shortens :
    (head tail elided : Text)
    → All (λ d. any_char d ≡ true) tail
    → length tail + 1 < length elided
    → Shortens elided (skip_digits head tail)
skip_digits-Shortens head tail elided chars h =
    let (f, e) = literal_rest_found (b'\'' ∷ tail) (refl, chars) in
    let sizes =
      groups_two 0 (b'\'' ∷ tail) f (matches-Shows literal_rest _ f literal_rest-Shape e) in
    rw (e, Shortens) (text_size f tail elided sizes h)

-- The line, as its first quote cuts it.
first_quote_lem :
    (t : Text) (f : Found)
    → matches first_quote t ≡ some f
    → (h : Text) × (u : Text) × (group_text f 1 ≡ h)
      × (group_text f 3 ≡ u)
      × (length h + length u < length t)
      × All (λ d. any_char d ≡ true) u
unfolding group_of lookup_or
first_quote_lem t f e =
    let shown = matches-Shows first_quote t f first_quote-Reads e in
    let (h, c, u, whole, gs, chars) = shown.gained in
    (
      h,
      u,
      rw gs refl,
      rw gs refl,
      omega (arith, ap (length {0}) whole, length-append h (c ∷ u), length-whole t f shown),
      chars,
    )

quote_round-Shortens : (t : Text) → Shortens t (quote_round t)
unfolding quote_round
quote_round-Shortens t = elim (Option-cases (matches first_quote t)) [
  | inl e ↦ rw (e, quote_round) tt
  | inr (f, e) ↦
      let (h, u, h_eq, u_eq, fits, chars) = first_quote_lem t f e in
      let small : length (group_text f 3) < length t = rw u_eq (omega (arith, fits)) in
      elim (Bool-cases (group_text f 2 == codes "\"")) [
        | inl double ↦
            rw (e, double, quote_round)
              (skip_string-Shortens (group_text f 1) b'"' (group_text f 3) t small)
        | inr single ↦ elim (Option-cases (search_in number_end (group_text f 1))) [
          | inl plain ↦
              rw (e, single, plain, quote_round)
                (skip_string-Shortens (group_text f 1) b'\'' (group_text f 3) t small)
          | inr (g, number) ↦
              let shown = search_in-Shows number_end (group_text f 1) g number_end-Shape number in
              let least = length-whole (group_text f 1) g shown in
              rw (e, single, number, quote_round)
                (skip_digits-Shortens (group_text f 1) (group_text f 3) t (rw u_eq chars) (
                  omega (
                    arith,
                    fits,
                    least,
                    shown.gained.fits,
                    ap (length {0}) h_eq,
                    ap (length {0}) u_eq,
                  )))
        ]
      ]
]

-- The round `r` and the rounds after it.
rounds_total :
    (fuel : ℕ) (t : Text) (r : Round)
    → ((u : Text) → length u < fuel → (out : Text) × (quote_loop fuel u ≡ some out))
    → length t < suc fuel
    → quote_round t ≡ r
    → Shortens t r
    → (out : Text) × (quote_loop (suc fuel) t ≡ some out)
unfolding quote_loop
rounds_total fuel t broken rest h e short = elim short [ ]
rounds_total fuel t (last out) rest h e short = (out, rw (e, quote_loop))
rounds_total fuel t (more head u) rest h e short =
    let (out, f) = rest u (omega arith) in (head ++ out, rw (e, f, quote_loop))

quote_loop_total :
    (fuel : ℕ) (t : Text) → length t < fuel → (out : Text) × (quote_loop fuel t ≡ some out)
quote_loop_total zero t h = absurd (omega arith)
quote_loop_total (suc fuel) t h =
    rounds_total fuel t (quote_round t) (quote_loop_total fuel) h refl (quote_round-Shortens t)

-- `collapse_strings` ends on every line and meets no missing match.
pub collapse_strings_total : (line : Text) → (out : Text) × (collapse_strings line ≡ some out)
unfolding collapse_strings
collapse_strings_total line = elim (Option-cases (matches include_pattern line)) [
  | inr (f, e) ↦ (line, rw (e, collapse_strings))
  | inl e ↦
      let unescaped = sub cleanse_line_escapes [] line in
      let (out, g) = quote_loop_total (suc (length unescaped)) unescaped (omega arith) in
      (out, rw (e, g, collapse_strings))
]
