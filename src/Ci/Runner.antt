-- ===== src/Ci/Runner.antt =====
-- ci/sandbox-runner.ts: running a plan in a sandbox container. What the container answers is a
-- parameter; an exception of the platform that the source does not catch is `none`.
mod Tests
pub mod Answers
pub mod Checkout
pub mod Steps
pub mod Decisions
pub mod Started
pub mod Outcome
pub mod Shell
pub use Answers.*
unfoldable pub use Checkout.*
pub use Steps.*
use gitflare.Prelude.{
  ℕ, zero, suc, ◌+◌, ◌*◌, ◌==◌, ◌⊎◌, inl, inr, Bool, true, false, ◌&&◌, not, Option, none, some,
  List, [], ◌∷◌, ◌++◌, Text, codes, to_radix, if◌then◌else◌,
}
use gitflare.Ci.Emitted.{parse_emitted_plan}
use gitflare.Ci.Plan.{PlanStep, Plan, Result, plan_waves, ok, err, stuck}

-- The plan, or the error that is thrown.
unfoldable pub plan_from : Container → Text ⊎ ExecResult → Text ⊎ Plan
unfolding parse_emitted_plan
plan_from container (inl thrown) = inl thrown
plan_from container (inr result) =
    if result.exit_code == 0
    then elim (parse_emitted_plan container.parse_json result.stdout) [
      | inl thrown ↦ inl thrown
      | inr none ↦ inr record { steps = [] }
      | inr (some plan) ↦ inr plan
    ]
    else inl (codes "Could not evaluate .gitflare/ci.ts: " ++ text_or result.stderr result.stdout)

unfoldable pub resolve_plan : Container → PlanSource → Text ⊎ Plan
unfolding plan_from
resolve_plan container (given plan) = inr plan
resolve_plan container (from_repo command) =
    plan_from container (container.exec command (some workdir) 120000)

-- `steps` and `failed`, and what the sink got from each step.
pub record RunState : Type 0 where
  pub steps : List StepResult
  pub failed : List Text
  pub logs : List (List LogLine)

abbrev pub nothing_done : RunState
nothing_done = record { steps = []; failed = []; logs = [] }

abbrev pub has_failed : ExitCode → Bool
has_failed (code n) = not (n == 0)
has_failed minus_one = true

-- `Promise.all`: rejected when a step is.
abbrev pub cons_run : Option StepRun → Option (List StepRun) → Option (List StepRun)
cons_run none runs = none
cons_run (some run) none = none
cons_run (some run) (some runs) = some (run ∷ runs)

abbrev pub run_all :
    Container → SandboxRunnerOptions → List Text → List PlanStep → Option (List StepRun)
run_all container options failed [] = some []
run_all container options failed (step ∷ wave) =
    cons_run (run_step container options failed step) (run_all container options failed wave)

-- The loop over the results of a wave.
abbrev pub absorb : RunState → List StepRun → RunState
absorb done [] = done
absorb done (run ∷ runs) =
    absorb
      (record {
        steps = done.steps ++ run.result ∷ [];
        failed =
            if has_failed run.result.exit_code then run.result.name ∷ done.failed else done.failed;
        logs = done.logs ++ run.log ∷ [];
      })
      runs

-- Behind a rejected wave nothing is run.
abbrev pub after_wave : Option (List StepRun) → (List StepRun → Option RunState) → Option RunState
after_wave none rest = none
after_wave (some runs) rest = rest runs

unfoldable pub run_waves :
    Container → SandboxRunnerOptions → RunState → List (List PlanStep) → Option RunState
run_waves container options done [] = some done
run_waves container options done (wave ∷ waves) =
    after_wave (run_all container options done.failed wave)
      (λ runs. run_waves container options (absorb done runs) waves)

-- `steps.find((step) => step.exitCode !== 0 && !step.skipped)`
abbrev pub find_failure : List StepResult → Option StepResult
find_failure [] = none
find_failure (step ∷ steps) =
    if has_failed step.exit_code && not step.skipped then some step else find_failure steps

abbrev pub print_code : ExitCode → Text
print_code (code n) = to_radix 10 n
print_code minus_one = codes "-1"

abbrev pub conclude_run : List StepResult → Option StepResult → RunResult
conclude_run steps none = record { is_ok = true; steps = steps; error = none }
conclude_run steps (some failure) = record {
  is_ok = false;
  steps = steps;
  error = some (
      codes "Step \""
      ++ (failure.name ++ (codes "\" exited with code " ++ print_code failure.exit_code)));
}

abbrev pub run_error : Text → RunResult
run_error error = record { is_ok = false; steps = []; error = some error }

pub record Finished : Type 0 where
  pub result : RunResult
  pub logs : List (List LogLine)

abbrev pub finish_run : Option RunState → Option Finished
finish_run none = none
finish_run (some done) =
    some record { result = conclude_run done.steps (find_failure done.steps); logs = done.logs }

-- `none` is a rejected promise: `planWaves` throws, or a step does.
abbrev pub run_schedule :
    Container → SandboxRunnerOptions → Result (List (List PlanStep)) → Option Finished
run_schedule container options stuck = none
run_schedule container options (err failure) = none
run_schedule container options (ok waves) =
    finish_run (run_waves container options nothing_done waves)

-- A plan without steps is not run, and that is no failure.
abbrev pub unless_empty : List PlanStep → Option Finished → Option Finished
unless_empty [] ran =
    some record { result = record { is_ok = true; steps = []; error = none }; logs = [] }
unless_empty (step ∷ steps) ran = ran

unfoldable pub run_plan : Container → SandboxRunnerOptions → Plan → Option Finished
unfolding run_waves
run_plan container options plan =
    unless_empty plan.steps (run_schedule container options (plan_waves plan))

abbrev pub run_error_finished : Text → Option Finished
run_error_finished error = some record { result = run_error error; logs = [] }

-- `if (options.checkout?.repoUrl) await checkout(...)`
abbrev pub try_checkout : Container → Option CheckoutSpec → Option Text
try_checkout container none = none
try_checkout container (some spec) =
    if is_given (some spec.repo_url) then checkout container spec else none

abbrev pub set_env : Container → Option (List (Text × Text)) → Bool
set_env container none = true
set_env container (some env) = container.set_env_vars env

abbrev pub readiness : Container → Option ℕ → Option Text
readiness container timeout_ms =
    wait_for_ready (default_to timeout_ms default_ready_timeout_ms) none container.attempts

unfoldable pub run_plan_in_sandbox : Container → SandboxRunnerOptions → Option Finished
unfolding run_plan resolve_plan
run_plan_in_sandbox container options = elim (readiness container options.ready_timeout_ms) [
  | some error ↦ run_error_finished (codes "Sandbox unavailable: " ++ error)
  | none ↦ elim (try_checkout container options.checkout) [
    | some error ↦ run_error_finished (codes "Checkout failed: " ++ error)
    | none ↦
        if set_env container options.env
        then elim (resolve_plan container options.plan) [
          | inl error ↦ run_error_finished error
          | inr plan ↦ run_plan container options plan
        ]
        else none
  ]
]
