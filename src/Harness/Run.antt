-- ===== src/Harness/Run.antt =====
-- `runTests`: the loop over the tests of a file.
use vcltest.Base.{false, List, [], ◌∷◌, ◌++◌, ℕ, ◌+◌, Option, none, some, length, if◌then◌else◌}
use vcltest.Base.Map.{Map}
use vcltest.Base.Text.{Text}
use vcltest.Testspec.{TestSpec}
use vcltest.Backend.{MockBackend}
use vcltest.Harness.{configure_backends}
use vcltest.Runner.{Outside, Runner, TestResult, ended}
use vcltest.Runner.Shared.{Outcome, done, error, RunError, State, run_test}

-- `harness.Result` without the path of the debug dump.
pub record Result : Type 0 where
  pub passed : ℕ
  pub failed : ℕ
  pub total : ℕ
  pub results : List TestResult

-- The result of a test that an error ended.
abbrev pub failed_result : TestSpec → Text → TestResult
failed_result test message = record {
  test_name = test.name;
  passed = false;
  errors = ended message ∷ [];
  vcl_trace = none;
}

abbrev pub add_failed : TestResult → Result → Result
add_failed t r = record r { failed = r.failed + 1; results = r.results ++ t ∷ [] }

abbrev pub add_passed : TestResult → Result → Result
add_passed t r = record r { passed = r.passed + 1; results = r.results ++ t ∷ [] }

-- `BanNukeCache` gives an error or none; `message` is `err.Error()` of a test's error.
module _ {W : Type 0} (out : Outside W) (ban : W → Option Text × W)
    (message : RunError → Text) where
  unfoldable pub add_outcome : TestSpec → Outcome TestResult → Result → Result
  add_outcome test (error e) result = add_failed (failed_result test (message e)) result
  add_outcome test (done t) result = if t.passed then add_passed t result else add_failed t result

  -- A test behind the ban: the backends are configured first.
  unfoldable pub run_after_ban :
      Runner → TestSpec → Result → Map Text MockBackend → Option Text × W → Result × State W
  unfolding add_outcome configure_backends run_test
  run_after_ban r test result mocks (some e, w) =
      (add_failed (failed_result test e) result, (mocks, w))
  run_after_ban r test result mocks (none, w) =
      let (outcome, s) = run_test out r test (configure_backends test.backends mocks, w) in
      (add_outcome test outcome result, s)

  unfoldable pub run_one : Runner → TestSpec → Result → State W → Result × State W
  unfolding run_after_ban
  run_one r test result (mocks, w) = run_after_ban r test result mocks (ban w)

  unfoldable pub run_all : Runner → List TestSpec → Result → State W → Result × State W
  unfolding run_one
  run_all r [] result s = (result, s)
  run_all r (test ∷ tests) result s =
      let (next, s') = run_one r test result s in run_all r tests next s'

  -- `runTests`
  unfoldable pub run_tests : Runner → List TestSpec → State W → Result × State W
  unfolding run_all
  run_tests r tests s =
      run_all r tests (record { passed = 0; failed = 0; total = length tests; results = [] }) s
