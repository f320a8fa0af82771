-- ===== src/Harness/Totals.antt =====
-- What the result of a run counts.
use vcltest.Base.{
  true, false, ◌≡◌, refl, ap, sym, ◌∙◌, List, [], ◌∷◌, ◌++◌, ℕ, suc, ◌+◌, Option, none, some,
  length, if◌then◌else◌, arith, map, append-nil, append_assoc, Bool-cases, inl, inr, filter,
  filter-append, if_true, if_false, subst,
}
use mathlib.Core.List.{map-append}
use vcltest.Base.Map.{Map}
use vcltest.Base.Text.{Text}
use vcltest.Testspec.{TestSpec}
use vcltest.Backend.{MockBackend}
use vcltest.Harness.{configure_backends}
use vcltest.Harness.Run.{
  Result, add_failed, add_passed, failed_result, add_outcome, run_after_ban, run_one, run_all,
  run_tests,
}
use vcltest.Runner.{Outside, Runner, TestResult}
use vcltest.Runner.Shared.{Outcome, done, error, RunError, State}
use vcltest.Runner.Verdicts.{IsResult, run_test-IsResult}

abbrev pub passed_results : List TestResult → List TestResult
passed_results ts = filter (λ (t : TestResult). t.passed) ts

abbrev pub names : List TestResult → List Text
names ts = map (λ (t : TestResult). t.test_name) ts

-- The counts are those of the results.
record Counts (result : Result) : Type 0 where
  all : length result.results ≡ result.passed + result.failed
  passing : length (passed_results result.results) ≡ result.passed

-- One more result, named like the test, and counted.
record Adds (name : Text) (old new : Result) : Type 0 where
  counts : Counts old → Counts new
  named : names new.results ≡ names old.results ++ name ∷ []
  same_total : new.total ≡ old.total

names-append : (xs ys : List TestResult) → names (xs ++ ys) ≡ names xs ++ names ys
names-append xs ys = map-append (λ (t : TestResult). t.test_name) xs ys

length-snoc : (xs : List TestResult) (t : TestResult) → length (xs ++ t ∷ []) ≡ length xs + 1
length-snoc [] t = omega arith
length-snoc (x ∷ xs) t = omega (arith, length-snoc xs t)

length-map : {A : Type 0} (f : A → Text) (xs : List A) → length (map f xs) ≡ length xs
length-map f [] = refl
length-map f (x ∷ xs) = ap (λ n. suc n) (length-map f xs)

plus_zero : (n : ℕ) → n ≡ n + 0
plus_zero n = omega arith

passing-snoc :
    (xs : List TestResult) (t : TestResult)
    → length (passed_results (xs ++ t ∷ []))
      ≡ length (passed_results xs) + (if t.passed then 1 else 0)
passing-snoc xs t =
    ap length (filter-append (λ (x : TestResult). x.passed) xs (t ∷ []))
    ∙ elim (Bool-cases t.passed) [
      | inl e ↦
          ap (λ l. length (passed_results xs ++ l)) (if_true t.passed (t ∷ []) [] e)
          ∙ length-snoc (passed_results xs) t
          ∙ sym (ap (λ k. length (passed_results xs) + k) (if_true t.passed 1 0 e))
      | inr e ↦
          ap (λ l. length (passed_results xs ++ l)) (if_false t.passed (t ∷ []) [] e)
          ∙ ap length (append-nil (passed_results xs))
          ∙ plus_zero (length (passed_results xs))
          ∙ sym (ap (λ k. length (passed_results xs) + k) (if_false t.passed 1 0 e))
    ]

add_failed-Adds :
    (t : TestResult) (r : Result) → t.passed ≡ false → Adds t.test_name r (add_failed t r)
add_failed-Adds t r f = record {
  counts = λ c. record {
    all = omega (arith, length-snoc r.results t, c.all);
    passing = passing-snoc r.results t ∙ rw f (omega (arith, c.passing));
  };
  named = names-append r.results (t ∷ []);
  same_total = refl;
}

add_passed-Adds :
    (t : TestResult) (r : Result) → t.passed ≡ true → Adds t.test_name r (add_passed t r)
add_passed-Adds t r f = record {
  counts = λ c. record {
    all = omega (arith, length-snoc r.results t, c.all);
    passing = passing-snoc r.results t ∙ rw f (omega (arith, c.passing));
  };
  named = names-append r.results (t ∷ []);
  same_total = refl;
}

module _ {W : Type 0} (out : Outside W) (ban : W → Option Text × W)
    (message : RunError → Text) where
  add_outcome-Adds :
      (r : Runner) (test : TestSpec) (o : Outcome TestResult) (result : Result)
      → ((t : TestResult) → o ≡ done t → IsResult out r test t)
      → Adds test.name result (add_outcome out ban message test o result)
  unfolding add_outcome
  add_outcome-Adds r test (error e) result h =
      add_failed-Adds (failed_result test (message e)) result refl
  add_outcome-Adds r test (done t) result h = elim (Bool-cases t.passed) [
    | inl e ↦ subst (Adds test.name result) (sym (if_true _ _ _ e)) (
        subst (λ n. Adds n result (add_passed t result)) (h t refl).named
          (add_passed-Adds t result e))
    | inr e ↦ subst (Adds test.name result) (sym (if_false _ _ _ e)) (
        subst (λ n. Adds n result (add_failed t result)) (h t refl).named
          (add_failed-Adds t result e))
  ]

  run_after_ban-Adds :
      (r : Runner) (test : TestSpec) (result : Result) (mocks : Map Text MockBackend)
      (b : Option Text × W)
      → Adds test.name result (run_after_ban out ban message r test result mocks b).0
  unfolding run_after_ban
  run_after_ban-Adds r test result mocks (some e, w) =
      add_failed-Adds (failed_result test e) result refl
  run_after_ban-Adds r test result mocks (none, w) =
      add_outcome-Adds r test _ result
        (λ t. run_test-IsResult out r test (configure_backends test.backends mocks, w) t)

  run_one-Adds :
      (r : Runner) (test : TestSpec) (result : Result) (s : State W)
      → Adds test.name result (run_one out ban message r test result s).0
  unfolding run_one
  run_one-Adds r test result (mocks, w) = run_after_ban-Adds r test result mocks (ban w)

  -- What the loop keeps and adds.
  record Ran (tests : List TestSpec) (old new : Result) : Type 0 where
    counts : Counts old → Counts new
    named : names new.results ≡ names old.results ++ map (λ (t : TestSpec). t.name) tests
    same_total : new.total ≡ old.total

  run_all-Ran :
      (r : Runner) (tests : List TestSpec) (result : Result) (s : State W)
      → Ran tests result (run_all out ban message r tests result s).0
  unfolding run_all
  run_all-Ran r [] result s = record {
    counts = λ c. c;
    named = sym (append-nil (names result.results));
    same_total = refl;
  }
  run_all-Ran r (test ∷ tests) result s =
      let one = run_one-Adds r test result s in
      let (next, s') = run_one out ban message r test result s in
      let rest = run_all-Ran r tests next s' in
      record {
        counts = λ c. rest.counts (one.counts c);
        named =
            rest.named
            ∙ ap (λ ns. ns ++ map (λ (t : TestSpec). t.name) tests) one.named
            ∙ append_assoc (names result.results) (test.name ∷ [])
                (map (λ (t : TestSpec). t.name) tests);
        same_total = rest.same_total ∙ one.same_total;
      }

  -- A run has one result for each test, in the order of the file and under its name, whatever fails on
  -- the way; the counts of passed and failed tests are those of the results and add up to the total.
  pub run_tests-results :
      (r : Runner) (tests : List TestSpec) (s : State W)
      → let result = (run_tests out ban message r tests s).0 in
        (names result.results ≡ map (λ (t : TestSpec). t.name) tests)
        × (result.total ≡ length tests)
        × (result.total ≡ result.passed + result.failed)
        × (length (passed_results result.results) ≡ result.passed)
  unfolding run_tests
  run_tests-results r tests s =
      let start : Result = record { passed = 0; failed = 0; total = length tests; results = [] } in
      let ran = run_all-Ran r tests start s in
      let c = ran.counts (record { all = omega arith; passing = refl }) in
      (
        ran.named,
        ran.same_total,
        ran.same_total
            ∙ sym (length-map (λ (t : TestSpec). t.name) tests)
            ∙ sym (ap length ran.named)
            ∙ length-map (λ (t : TestResult). t.test_name) _
            ∙ c.all,
        c.passing,
      )
