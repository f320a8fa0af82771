-- ===== src/Runner/Steps.antt =====
-- A scenario as the sequence of its steps.
use vcltest.Base.{
  true, ◌≡◌, refl, ap, sym, ◌∙◌, ◌↔◌, ◌⊎◌, inl, inr, List, [], ◌∷◌, ◌++◌, ℕ, ◌+◌, All, arith,
  append-nil, append_assoc, subst,
}
use vcltest.Testspec.{ScenarioStep}
use vcltest.Assertion.{Result}
use vcltest.Assertion.Reports.{is_nil}
use vcltest.Runner.{Outside, Runner, TestError}
use vcltest.Runner.Shared.{Outcome, done, error, RunError, State, run_step, step_errors, run_steps}
use vcltest.Runner.Verdicts.{run_step-Agrees}

module _ {W : Type 0} (out : Outside W) (r : Runner) where
  -- The steps run one after another, each from the state that the one before it left, and each gives
  -- a verdict.
  pub data Steps : ℕ → List ScenarioStep → State W → List Result → State W → Type 0 where
    finished : (n : ℕ) (s : State W) → Steps n [] s [] s
    next :
        (n : ℕ) (step : ScenarioStep) (steps : List ScenarioStep) (s s' s'' : State W) (v : Result)
        (vs : List Result)
        → run_step out r n step s ≡ (done v, s')
        → Steps (n + 1) steps s' vs s''
        → Steps n (step ∷ steps) s (v ∷ vs) s''

  -- The errors of the steps in their order.
  abbrev pub errors_of : ℕ → List ScenarioStep → List Result → List TestError
  errors_of n [] vs = []
  errors_of n (step ∷ steps) [] = []
  errors_of n (step ∷ steps) (v ∷ vs) = step_errors out n step v ++ errors_of (n + 1) steps vs

  abbrev pub AllPassed : List Result → Type 0
  AllPassed vs = All (λ (v : Result). v.passed ≡ true) vs

  run_steps-nil :
      (n : ℕ) (errors es : List TestError) (s s' : State W)
      → run_steps out r n [] errors s ≡ (done es, s')
      → (errors ≡ es) × (s ≡ s')
  unfolding run_steps
  run_steps-nil n errors es s s' e = (cc, cc)

  run_steps-done :
      (n : ℕ) (step : ScenarioStep) (steps : List ScenarioStep) (errors : List TestError)
      (s s' : State W) (v : Result)
      → run_step out r n step s ≡ (done v, s')
      → run_steps out r n (step ∷ steps) errors s
        ≡ run_steps out r (n + 1) steps (errors ++ step_errors out n step v) s'
  unfolding run_steps
  run_steps-done n step steps errors s s' v e =
      rw (ap (λ p. p.0) e, ap (λ p. p.1) e, run_steps) refl

  run_steps-error :
      (n : ℕ) (step : ScenarioStep) (steps : List ScenarioStep) (errors : List TestError)
      (s s' : State W) (x : RunError)
      → run_step out r n step s ≡ (error x, s')
      → run_steps out r n (step ∷ steps) errors s ≡ (error x, s')
  unfolding run_steps
  run_steps-error n step steps errors s s' x e =
      rw (ap (λ p. p.0) e, ap (λ p. p.1) e, run_steps) refl

  outcome_cases :
      (o : Outcome Result × State W)
      → ((v : Result) × (s : State W) × (o ≡ (done v, s)))
        ⊎ ((x : RunError) × (s : State W) × (o ≡ (error x, s)))
  outcome_cases (done v, s) = inl (v, s, refl)
  outcome_cases (error x, s) = inr (x, s, refl)

  step_errors_iff :
      (n : ℕ) (step : ScenarioStep) (v : Result)
      → v.passed ≡ is_nil v.errors
      → (step_errors out n step v ≡ []) ↔ (v.passed ≡ true)
  step_errors_iff n step v a = ground arith

  append_iff : (xs ys : List TestError) → (xs ++ ys ≡ []) ↔ ((xs ≡ []) × (ys ≡ []))
  append_iff [] ys = (λ h. (refl, h), λ (_, h). h)
  append_iff (x ∷ xs) ys = (λ h. cc, λ (h, _). cc)

  -- A loop over the steps that comes to its end has run them all, and its errors are theirs.
  run_steps-Steps :
      (steps : List ScenarioStep) (n : ℕ) (errors es : List TestError) (s s' : State W)
      → run_steps out r n steps errors s ≡ (done es, s')
      → (vs : List Result) × Steps n steps s vs s' × (es ≡ errors ++ errors_of n steps vs)
  run_steps-Steps [] n errors es s s' e =
      let (same, there) = run_steps-nil n errors es s s' e in
      ([], subst (Steps n [] s []) there (finished n s), sym same ∙ sym (append-nil errors))
  run_steps-Steps (step ∷ steps) n errors es s s' e =
      elim (outcome_cases (run_step out r n step s)) [
        | inl (v, t, q) ↦
            let (vs, d, g) =
              run_steps-Steps steps (n + 1) (errors ++ step_errors out n step v) es t s'
                (sym (run_steps-done n step steps errors s t v q) ∙ e) in
            (
              v ∷ vs,
              next n step steps s t s' v vs q d,
              g ∙ append_assoc errors (step_errors out n step v) (errors_of (n + 1) steps vs),
            )
        | inr (x, t, q) ↦ absurd (cc (run_steps-error n step steps errors s t x q, e))
      ]

  Steps-errors_iff :
      {n : ℕ} {steps : List ScenarioStep} {s s' : State W} {vs : List Result}
      → Steps n steps s vs s'
      → (errors_of n steps vs ≡ []) ↔ AllPassed vs
  Steps-errors_iff (finished n s) = (λ _. tt, λ _. refl)
  Steps-errors_iff (next n step steps s s' s'' v vs e d) =
      let agrees = step_errors_iff n step v (run_step-Agrees out r n step s v (ap (λ p. p.0) e)) in
      let both = append_iff (step_errors out n step v) (errors_of (n + 1) steps vs) in
      let rest = Steps-errors_iff d in
      (λ h. (agrees.0 (both.0 h).0, rest.0 (both.0 h).1), λ (p, ps). both.1 (agrees.1 p, rest.1 ps))

  -- A scenario that comes to its end has run every one of its steps in order, each from the state that
  -- the one before it left; its errors are those of the steps in their order, and it has none exactly
  -- if the check of every step passed.
  pub run_steps_correct :
      (steps : List ScenarioStep) (es : List TestError) (s s' : State W)
      → run_steps out r 1 steps [] s ≡ (done es, s')
      → (vs : List Result) × Steps 1 steps s vs s'
        × (es ≡ errors_of 1 steps vs)
        × ((es ≡ []) ↔ AllPassed vs)
  run_steps_correct steps es s s' e =
      let (vs, d, g) = run_steps-Steps steps 1 [] es s s' e in
      let iff = Steps-errors_iff d in (vs, d, g, (λ h. iff.0 (sym g ∙ h), λ p. g ∙ iff.1 p))
