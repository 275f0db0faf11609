-- ===== src/FunctionState/Size.antt =====
-- When a function is too long, and how certain the report is.
use native.Mathlib.Nat.{
  pow-suc, pow-le-pow_right, le-div_iff_mul-le, div-lt_iff_lt-mul, div-le_self,
}
use cs.Base.{
  ℕ, zero, suc, ◌+◌, ◌*◌, ◌/◌, ◌^◌, ◌≤◌, ◌<◌, ◌≡◌, refl, ap, true, ◌&&◌, ◌⊎◌, ltb, min, [], Text,
  arith, All, Bool-cases, inl, inr, length, if◌then◌else◌,
}
use cs.Nolint.{Report}
use cs.FunctionState.{
  FunctionState, begin, end_function, count, base_trigger, normal_trigger, test_trigger, log2_from,
  error_level, check,
}

lt-two_pow : (v : ℕ) → v < 2 ^ v
lt-two_pow zero = omega arith
lt-two_pow (suc v) = omega (arith, pow-suc 2 v, lt-two_pow v)

-- The fuel is enough: this is the logarithm.
log2_bounds :
    (fuel n : ℕ) → 0 < n → n ≤ fuel → (2 ^ log2_from fuel n ≤ n) × (n < 2 ^ suc (log2_from fuel n))
unfolding log2_from
log2_bounds zero n h k = absurd (omega arith)
log2_bounds (suc fuel) n h k = elim (Bool-cases (ltb n 2)) [
  | inl small ↦ rw small (ground arith)
  | inr big ↦
      let (lo, hi) = log2_bounds fuel (n / 2) (ground arith) (ground arith) in
      let l = log2_from fuel (n / 2) in
      rw big (
        omega (arith, lo, hi, pow-suc 2 l, pow-suc 2 (suc l)),
        omega (arith, lo, hi, pow-suc 2 l, pow-suc 2 (suc l)),
      )
]

-- A power of two that is at most `n` has an exponent of at most the logarithm.
le-log2 : (v fuel n : ℕ) → 0 < n → n ≤ fuel → 2 ^ v ≤ n → v ≤ log2_from fuel n
le-log2 v fuel n h k p = elim (Bool-cases (ltb (log2_from fuel n) v)) [
  | inl below ↦
      let over =
        pow-le-pow_right {n = 2} (omega arith) {i = suc (log2_from fuel n)} {j = v}
          (ground arith) in
      absurd (omega (arith, over, (log2_bounds fuel n h k).1))
  | inr above ↦ ground arith
]

error_level_le : (lines base : ℕ) → error_level lines base ≤ 5
unfolding error_level
error_level_le lines base = ground arith

module _ (lines base : ℕ) (h : 0 < base) (k : base ≤ lines) where
  bounds :
      let l = log2_from lines (lines / base) in (2 ^ l ≤ lines / base) × (lines / base < 2 ^ suc l)
  bounds =
      log2_bounds lines (lines / base) ((le-div_iff_mul-le h).1 (omega arith))
        (div-le_self lines base)

  level_lower : 2 ^ error_level lines base * base ≤ lines
  unfolding error_level
  level_lower =
      let below =
        pow-le-pow_right {n = 2} (omega arith) {i = error_level lines base}
          {j = log2_from lines (lines / base)} (ground arith) in
      (le-div_iff_mul-le h).0 (omega (arith, below, bounds.0))

  level_upper : error_level lines base < 5 → lines < 2 ^ suc (error_level lines base) * base
  unfolding error_level
  level_upper p =
      let same : error_level lines base ≡ log2_from lines (lines / base) = ground arith in
      rw same ((div-lt_iff_lt-mul h).0 bounds.1)

  level_above : (v : ℕ) → base * 2 ^ v < lines → min v 5 ≤ error_level lines base
  unfolding error_level
  level_above v p =
      let reached =
        le-log2 v lines (lines / base) ((le-div_iff_mul-le h).1 (omega arith))
          (div-le_self lines base) ((le-div_iff_mul-le h).1 (omega arith)) in
      ground (arith, reached)

base_cases :
    (name : Text) → (base_trigger name ≡ test_trigger) ⊎ (base_trigger name ≡ normal_trigger)
unfolding base_trigger
base_cases name = ground arith

base_pos : (name : Text) → 0 < base_trigger name
base_pos name = omega (arith, base_cases name)

one-le-two_pow : (v : ℕ) → 1 ≤ 2 ^ v
one-le-two_pow v = omega (arith, lt-two_pow v)

base-le : (lines base v : ℕ) → base * 2 ^ v < lines → base ≤ lines
base-le lines base v h = grind (arith, one-le-two_pow v)

-- What `check` reports: nothing at all unless a function is being read that has more lines than
-- the trigger, `base_trigger` doubled as often as the verbosity says; otherwise one error, whose
-- level is the greatest number up to 5 for which the lines are at least `base_trigger` doubled so
-- often, and which the verbosity does not hide if it is at most 5.
pub check_reports :
    (verbose linenum : ℕ) (s : FunctionState)
    → let base = base_trigger s.current_function in
      let lines = s.lines_in_function in
      (length (check verbose linenum s)
        ≡ (if s.in_a_function && ltb (base * 2 ^ verbose) lines then 1 else 0))
      × All
          (λ (r : Report).
            (r.confidence ≤ 5)
            × (2 ^ r.confidence * base ≤ lines)
            × (r.confidence < 5 → lines < 2 ^ suc r.confidence * base)
            × (min verbose 5 ≤ r.confidence))
          (check verbose linenum s)
unfolding check
check_reports verbose linenum s =
    let base = base_trigger s.current_function in
    let lines = s.lines_in_function in
    elim (Bool-cases s.in_a_function) [
      | inr out ↦ rw out (refl, tt)
      | inl inside ↦ elim (Bool-cases (ltb (base * 2 ^ verbose) lines)) [
        | inr short ↦ rw (inside, short) (refl, tt)
        | inl long ↦
            let over : base * 2 ^ verbose < lines = ground arith in
            let b = base_pos s.current_function in
            let k = base-le lines base verbose over in
            rw (inside, long)
              (
                refl,
                (
                  (
                    error_level_le lines base,
                    level_lower lines base b k,
                    level_upper lines base b k,
                    level_above lines base b k verbose over,
                  ),
                  tt,
                ),
              )
      ]
    ]

-- So many lines are counted.
unfoldable pub count_lines : ℕ → FunctionState → FunctionState
count_lines zero s = s
count_lines (suc n) s = count_lines n (count s)

count_lines_lem :
    (n : ℕ) (s : FunctionState)
    → s.in_a_function ≡ true
    → (count_lines n s).lines_in_function ≡ n + s.lines_in_function
unfolding count_lines count
count_lines_lem zero s h = omega arith
count_lines_lem (suc n) s h = let ih = count_lines_lem n (count s) in ground (arith, ih)

count_lines-in_a_function :
    (n : ℕ) (s : FunctionState) → (count_lines n s).in_a_function ≡ s.in_a_function
unfolding count_lines count
count_lines-in_a_function zero s = refl
count_lines-in_a_function (suc n) s = ground (arith, count_lines-in_a_function n (count s))

count_lines-current_function :
    (n : ℕ) (s : FunctionState) → (count_lines n s).current_function ≡ s.current_function
unfolding count_lines count
count_lines-current_function zero s = refl
count_lines-current_function (suc n) s = ground (arith, count_lines-current_function n (count s))

-- After a function is begun and `n` of its lines are counted, `check` reports an error exactly if
-- `n` is above the trigger of the function's name; once the function is ended, nothing is reported.
pub check-count_lines :
    (name : Text) (n verbose linenum : ℕ) (s : FunctionState)
    → (length (check verbose linenum (count_lines n (begin name s)))
        ≡ (if ltb (base_trigger name * 2 ^ verbose) n then 1 else 0))
      × (check verbose linenum (end_function (count_lines n (begin name s))) ≡ [])
unfolding begin end_function check
check-count_lines name n verbose linenum s =
    let b = begin name s in
    (
      ground (
        arith,
        (check_reports verbose linenum (count_lines n b)).0,
        count_lines_lem n b refl,
        count_lines-in_a_function n b,
        ap base_trigger (count_lines-current_function n b),
      ),
      refl,
    )
