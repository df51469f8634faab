-- ===== src/Ci/Runner/Tests.antt =====
-- Runs of the runner, and its theorems at a small pipeline whose second step fails.
use gitflare.Prelude.{
  ◌≡◌, inr, refl, Bool, true, false, Option, none, some, List, [], ◌∷◌, Text, codes, text_eq,
  if◌then◌else◌,
}
use gitflare.Ci.Plan.{StepOptions, PlanStep, Plan, ok, plan_waves}
use gitflare.Ci.Emitted.{not_json, plan_value, other_shape, parse_emitted_plan}
use gitflare.Ci.Runner.{
  LogLine, Container, SandboxRunnerOptions, CheckoutSpec, StreamRequest, ExecEvent, stdout_event,
  stderr_event, error_event, complete, given, Finished, take_events, run_plan, sink_takes, run_step,
  clone_command, readiness, redact, replace_all,
}
use gitflare.Ci.Runner.Outcome.{IsOutcome, run_plan-IsOutcome}
use gitflare.Ci.Runner.Shell.{shell_words, clone_words, clone_command-words}

abbrev with_always : Option Bool → StepOptions
with_always always = record {
  cache = none;
  cwd = none;
  env = none;
  secrets = none;
  cloudflare_credentials = none;
  source_control_credentials = none;
  timeout_ms = none;
  retries = none;
  always = always;
}

abbrev step : Option Bool → Text → List Text → PlanStep
step always n needs = record {
  options = with_always always;
  name = n;
  command = codes "c";
  needs = needs;
}

abbrev deps : PlanStep
deps = step none (codes "deps") []

abbrev lint : PlanStep
lint = step none (codes "lint") (codes "deps" ∷ [])

abbrev ship : PlanStep
ship = step none (codes "ship") (codes "lint" ∷ [])

abbrev report : PlanStep
report = step (some true) (codes "report") (codes "ship" ∷ [])

abbrev pipeline : Plan
pipeline = record { steps = deps ∷ lint ∷ ship ∷ report ∷ [] }

abbrev pipeline_waves : List (List PlanStep)
pipeline_waves = (deps ∷ []) ∷ (lint ∷ []) ∷ (ship ∷ []) ∷ (report ∷ []) ∷ []

plan_waves-pipeline : plan_waves pipeline ≡ ok pipeline_waves
unfolding plan_waves
plan_waves-pipeline = refl

abbrev events_of : PlanStep → List ExecEvent
events_of s =
    if text_eq s.name (codes "lint")
    then stderr_event (some (codes "bad")) ∷ complete (some 2) ∷ []
    else stdout_event (some (codes "fine")) ∷ complete (some 0) ∷ []

abbrev container : Container
container = record {
  attempts = some (codes "Container is starting.") ∷ none ∷ [];
  parse_json = λ text. other_shape;
  exec = λ command cwd timeout. inr record { exit_code = 0; stdout = []; stderr = [] };
  set_env_vars = λ env. true;
  exec_stream = λ s request. some (events_of s);
  started_at = λ s. 0;
  finished_at = λ s. 1;
}

abbrev options : SandboxRunnerOptions
options = record {
  checkout = none;
  plan = given pipeline;
  env = none;
  step_timeout_ms = none;
  ready_timeout_ms = none;
  sink = none;
}

streams_open :
    (s : PlanStep) (request : StreamRequest)
    → (events : List ExecEvent) × (container.exec_stream s request ≡ some events)
streams_open s request = (events_of s, refl)

lines_taken : (log : List LogLine) → sink_takes options.sink log ≡ true
lines_taken log = refl

-- A sink that rejects a line rejects the run.
rejecting : run_step container (record options { sink = some (λ line. false) }) [] deps ≡ none
rejecting = refl

-- A transport error is a failure, also with no exit code.
broken : (take_events (codes "s") (stdout_event none ∷ error_event none ∷ [])).exit_code ≡ 1
broken = refl

redacted : redact (codes "fatal: tok and tok") (some (codes "tok")) ≡ codes "fatal: *** and ***"
unfolding replace_all
redacted = refl

run_plan-IsOutcome_example :
    (finished : Finished) × (run_plan container options pipeline ≡ some finished)
    × IsOutcome (deps ∷ lint ∷ ship ∷ report ∷ []) finished.result
run_plan-IsOutcome_example =
    run_plan-IsOutcome container options pipeline pipeline_waves plan_waves-pipeline streams_open
      lines_taken

emitted :
    (parse_emitted_plan
        (λ text. plan_value pipeline)
        (codes "noise\n<<<GITFLARE_PLAN {} GITFLARE_PLAN>>>\n")
      ≡ inr (some pipeline))
    × (parse_emitted_plan not_json (codes "<<<GITFLARE_PLANnullGITFLARE_PLAN>>>") ≡ inr none)
unfolding parse_emitted_plan
emitted = (refl, refl)

ready : readiness container none ≡ none
ready = refl

-- A branch name that tries to run a command.
abbrev spec : CheckoutSpec
spec = record {
  repo_url = codes "https://h/o/r.git";
  branch = some (codes "a'; rm -rf b");
  sha = none;
  token = some (codes "t0");
}

clone_command-words_example : shell_words (clone_command spec) ≡ some (clone_words spec)
clone_command-words_example = clone_command-words spec (refl, (refl, tt))
