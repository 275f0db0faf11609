-- ===== src/RunTest/Examples.antt =====
-- Runs of the scores, and the theorems about them at a concrete script.
use cs.Base.{
  ◌≡◌, ◌≤◌, ◌↔◌, refl, true, false, Option, some, [], ◌∷◌, ◌++◌, Text, codes, All, text_beq,
  text_eq, ◌==◌, all_helpers, arith, if◌then◌else◌,
}
use cs.RunTest.{
  Points, points, robustness_tests, suites, indent, show_points, test_result, run_test, run_suite,
  run_suites, main,
}
use cs.RunTest.Sums.{Runs, Passes, HasValue, passed_halves, all_halves, run_suite_effect}
use cs.RunTest.Score.{run_suites_score}

-- One test fails.
abbrev script : Text → Option Text
script name = if name == codes "test_large" then some (codes "- a") else some []

shown :
    (show_points (record { halves = 5; is_float = true }) ≡ codes "2.5")
    × (show_points (record { halves = 20; is_float = true }) ≡ codes "10.0")
    × (show_points (points 80) ≡ codes "80")
unfolding show_points all_helpers
shown = (refl, refl, refl)

one_test :
    main script (codes "-t" ∷ codes "test_large" ∷ [])
    ≡ some ((27 ∷ codes "[31mTEST: test_large FAILED 0") ++ ((27 ∷ codes "[0m") ++ codes "\n- a\n"))
unfolding main run_test test_result indent show_points all_helpers
one_test = refl

robustness-Runs : All (Runs script) robustness_tests
unfolding text_beq
robustness-Runs = ((codes "- a", refl), (([], refl), tt))

robustness-HasValue : All HasValue robustness_tests
robustness-HasValue = (omega arith, (omega arith, tt))

run_suite_effect_example :
    (out : Text) × (earned : Points) × (total : Points) × (run_suite script
        (codes "Robustness Tests")
        robustness_tests
        false
        0
      ≡ some (out, earned, total))
    × (earned.halves ≡ passed_halves script robustness_tests)
    × (total.halves ≡ all_halves robustness_tests)
    × (earned.halves ≤ total.halves)
    × ((earned.halves ≡ total.halves) ↔ All (Passes script) robustness_tests)
run_suite_effect_example =
    run_suite_effect script (codes "Robustness Tests") robustness_tests false 0 robustness-Runs
      robustness-HasValue

suites-Runs : All (λ s. All (Runs script) s.1) suites
unfolding text_beq
suites-Runs = (
  (([], refl), (([], refl), (([], refl), tt))),
  (
    (([], refl), (([], refl), (([], refl), (([], refl), (([], refl), (([], refl), tt)))))),
    (
      (([], refl), (([], refl), (([], refl), (([], refl), tt)))),
      (
        (([], refl), (([], refl), (([], refl), (([], refl), (([], refl), tt))))),
        (((codes "- a", refl), (([], refl), tt)), tt),
      ),
    ),
  ),
)

run_suites_score_example :
    (out : Text) × (earned : Points) × (total : Points) × (run_suites script suites []
        (points 0)
        (points 0)
      ≡ some (out, earned, total))
    × (total.halves ≡ (points 80).halves)
    × (earned.halves ≤ (points 80).halves)
    × ((earned.halves ≡ (points 80).halves) ↔ All (λ s. All (Passes script) s.1) suites)
run_suites_score_example = run_suites_score script suites-Runs
