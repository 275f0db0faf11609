-- ===== src/RunTest/Sums.antt =====
-- What a suite of lab1/runtest.py counts.
use cs.Base.{
  ℕ, ◌+◌, ◌≤◌, ◌<◌, ◌≡◌, refl, ap, ◌↔◌, inl, inr, Bool, true, false, Bool-cases, Option, some, List,
  [], ◌∷◌, ◌++◌, Text, All, arith, if◌then◌else◌,
}
use cs.RunTest.{
  Points, points, add_points, Test, test_result, total_points, suite_text, run_test, run_tests,
  run_suite,
}

-- Every test is worth something.
abbrev pub HasValue : Test → Type 0
HasValue t = 0 < t.1.halves

module _ (difftest : Text → Option Text) where
  -- The script runs the test to its end.
  abbrev pub Runs : Test → Type 0
  Runs t = (res : Text) × (difftest t.0 ≡ some res)

  abbrev pub Passes : Test → Type 0
  Passes t = difftest t.0 ≡ some []

  abbrev passes : Text → Bool
  passes name = elim (difftest name) [ some [] ↦ true | _ ↦ false ]

  -- The halves of a point of the tests that pass.
  abbrev pub passed_halves : List Test → ℕ
  passed_halves [] = 0
  passed_halves ((name, value) ∷ suite) =
      (if passes name then value.halves else 0) + passed_halves suite

-- The halves of a point of all tests.
abbrev pub all_halves : List Test → ℕ
all_halves [] = 0
all_halves ((name, value) ∷ suite) = value.halves + all_halves suite

total_points-halves :
    (suite : List Test) (p : Points) → (total_points suite p).halves ≡ p.halves + all_halves suite
unfolding total_points add_points
total_points-halves [] p = omega arith
total_points-halves ((name, value) ∷ suite) p =
    omega (arith, total_points-halves suite (add_points p value))

module _ (difftest : Text → Option Text) where
  passed_le : (suite : List Test) → passed_halves difftest suite ≤ all_halves suite
  passed_le [] = omega arith
  passed_le ((name, value) ∷ suite) = ground (arith, passed_le suite)

  passes_iff : (name : Text) → (passes difftest name ≡ true) ↔ (difftest name ≡ some [])
  passes_iff name = ground arith

  passed_halves_iff :
      (suite : List Test)
      → All HasValue suite
      → (passed_halves difftest suite ≡ all_halves suite) ↔ All (Passes difftest) suite
  passed_halves_iff [] h = ((λ _. tt), (λ _. refl))
  passed_halves_iff ((name, value) ∷ suite) (h, hs) =
      let (there, back) = passed_halves_iff suite hs in
      let (pass, pass_back) = passes_iff name in
      let le = passed_le suite in
      elim (Bool-cases (passes difftest name)) [
        | inl yes_ ↦ (
          (λ e. let sums = rw yes_ at e in (pass yes_, there (omega arith))),
          (λ (p, ps). rw yes_ (ap (◌+◌ value.halves) (back ps))),
        )
        | inr no_ ↦ (
          (λ e. let sums = rw no_ at e in absurd (omega arith)),
          (λ (p, ps). absurd (ground arith)),
        )
      ]

  test_passes :
      (name res : Text) (value : Points) (verbose : Bool) (n : ℕ)
      → difftest name ≡ some res
      → (test_result res name value verbose n).1 ≡ passes difftest name
  unfolding test_result
  test_passes name [] value verbose n e = ground arith
  test_passes name (c ∷ res) value verbose n e = ground arith

  earned_halves :
      (b c : Bool) (earned value : Points)
      → b ≡ c
      → (if b then add_points earned value else earned).halves
        ≡ earned.halves + (if c then value.halves else 0)
  unfolding add_points
  earned_halves b c earned value e = ground arith

  run_tests_effect :
      (suite : List Test) (verbose : Bool) (n : ℕ) (earned : Points)
      → All (Runs difftest) suite
      → (out : Text) × (got : Points) × (run_tests difftest suite verbose n earned
          ≡ some (out, got))
        × (got.halves ≡ earned.halves + passed_halves difftest suite)
  unfolding run_tests run_test add_points
  run_tests_effect [] verbose n earned h = ([], earned, refl, omega arith)
  run_tests_effect ((name, value) ∷ suite) verbose n earned ((res, runs), hs) =
      let r = test_result res name value verbose (n + 1) in
      let same = test_passes name res value verbose (n + 1) runs in
      let earned' = if r.1 then add_points earned value else earned in
      let (more, got, e, sum) = run_tests_effect suite verbose n earned' hs in
      (
        r.0 ++ more,
        got,
        rw (runs, run_tests, e) refl,
        omega (arith, earned_halves r.1 (passes difftest name) earned value same),
      )

  -- Where the script runs every test of a suite, and each is worth something, `run_suite` earns the
  -- points of the tests that pass, out of those of all tests; it earns all exactly when every test
  -- passes.
  pub run_suite_effect :
      (name : Text) (suite : List Test) (verbose : Bool) (n : ℕ)
      → All (Runs difftest) suite
      → All HasValue suite
      → (out : Text) × (earned : Points) × (total : Points) × (run_suite difftest name suite verbose
            n
          ≡ some (out, earned, total))
        × (earned.halves ≡ passed_halves difftest suite)
        × (total.halves ≡ all_halves suite)
        × (earned.halves ≤ total.halves)
        × ((earned.halves ≡ total.halves) ↔ All (Passes difftest) suite)
  unfolding run_suite
  run_suite_effect name suite verbose n runs value =
      let (out, earned, e, got) = run_tests_effect suite verbose n (points 0) runs in
      let all = total_points-halves suite (points 0) in
      let (there, back) = passed_halves_iff suite value in
      (
        suite_text name n out earned (total_points suite (points 0)),
        earned,
        total_points suite (points 0),
        rw (e, run_suite) refl,
        omega arith,
        omega arith,
        omega (arith, passed_le suite),
        ((λ same. there (omega arith)), (λ pass. omega (arith, back pass))),
      )
