-- ===== src/RunTest/Score.antt =====
-- What a full run of lab1/runtest.py counts.
use cs.Base.{
  ℕ, ◌+◌, ◌≤◌, ◌≡◌, refl, ◌↔◌, false, Option, some, List, [], ◌∷◌, ◌++◌, Text, All, arith,
}
use cs.RunTest.{Points, points, add_points, Test, run_suites, suites}
use cs.RunTest.Sums.{HasValue, Runs, Passes, all_halves, run_suite_effect}

abbrev of_suites : List (Text × List Test) → ℕ
of_suites [] = 0
of_suites ((name, suite) ∷ rest) = all_halves suite + of_suites rest

module _ (difftest : Text → Option Text) where
  -- The result of a run has the points of some tests out of `all` more than those before it; all
  -- exactly if the tests pass.
  run_suites_effect :
      (list : List (Text × List Test)) (before : Text) (earned total : Points)
      → All (λ s. All (Runs difftest) s.1) list
      → All (λ s. All HasValue s.1) list
      → earned.halves ≤ total.halves
      → (out : Text) × (got : Points) × (all : Points) × (run_suites difftest list before earned
            total
          ≡ some (out, got, all))
        × (all.halves ≡ total.halves + of_suites list)
        × (got.halves ≤ all.halves)
        × ((got.halves ≡ all.halves)
            ↔ ((earned.halves ≡ total.halves) × All (λ s. All (Passes difftest) s.1) list))
  unfolding run_suites add_points
  run_suites_effect [] before earned total runs value le =
      (before, earned, total, refl, omega arith, le, ((λ e. (e, tt)), (λ (e, _). e)))
  run_suites_effect ((name, suite) ∷ rest) before earned total (runs, more_runs) (value, values)
        le =
      let (text, got, of, e, _, sum, fits, (there, back)) =
        run_suite_effect difftest name suite false 0 runs value in
      let (out, all_got, all, f, sums, le', (there', back')) =
        run_suites_effect rest (before ++ text) (add_points earned got) (add_points total of)
          more_runs values (omega arith) in
      (
        out,
        all_got,
        all,
        rw (e, run_suites) f,
        omega arith,
        le',
        (
          (λ same. let (now, later) = there' same in (omega arith, (there (omega arith), later))),
          (λ (same, (pass, later)). let suite_same = back pass in back' (omega arith, later)),
        ),
      )

  -- Where the script runs every test, a full run gives a score out of 80 points, which is 80 exactly
  -- when every test of the five suites passes.
  pub run_suites_score :
      All (λ s. All (Runs difftest) s.1) suites
      → (out : Text) × (earned : Points) × (total : Points) × (run_suites difftest suites []
            (points 0)
            (points 0)
          ≡ some (out, earned, total))
        × (total.halves ≡ (points 80).halves)
        × (earned.halves ≤ (points 80).halves)
        × ((earned.halves ≡ (points 80).halves) ↔ All (λ s. All (Passes difftest) s.1) suites)
  run_suites_score runs =
      let values : All (λ s. All HasValue s.1) suites = (
        (omega arith, (omega arith, (omega arith, tt))),
        (
          (
            omega arith,
            (omega arith, (omega arith, (omega arith, (omega arith, (omega arith, tt))))),
          ),
          (
            (omega arith, (omega arith, (omega arith, (omega arith, tt)))),
            (
              (omega arith, (omega arith, (omega arith, (omega arith, (omega arith, tt))))),
              ((omega arith, (omega arith, tt)), tt),
            ),
          ),
        ),
      ) in
      let (out, earned, total, e, sum, le, (there, back)) =
        run_suites_effect suites [] (points 0) (points 0) runs values (omega arith) in
      (
        out,
        earned,
        total,
        e,
        omega arith,
        omega arith,
        ((λ same. (there (omega arith)).1), (λ pass. omega (arith, back (refl, pass)))),
      )
