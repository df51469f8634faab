-- ===== src/Ci/Runner/Steps.antt =====
-- ci/sandbox-runner.ts: running one step.
use gitflare.Prelude.{
  ℕ, ◌==◌, Bool, true, false, ◌&&◌, not, Option, none, some, List, [], ◌∷◌, ◌++◌, any, includes,
  Text, codes, if◌then◌else◌, foldl,
}
use gitflare.Ci.Plan.{PlanStep}
use gitflare.Ci.Runner.Answers.{
  CheckoutSpec, code, minus_one, StepResult, LogLine, ExecEvent, stdout_event, stderr_event,
  complete, error_event, other_event, SandboxRunnerOptions, StreamRequest, Container,
  default_step_timeout_ms, workdir, is_given, default_to,
}

-- `step.needs.some((need) => failed.has(need))`
abbrev pub is_blocked : List Text → PlanStep → Bool
is_blocked failed step = any (includes failed) step.needs

abbrev pub is_always : PlanStep → Bool
is_always step = elim step.options.always [ none ↦ false | some always ↦ always ]

pub record Output : Type 0 where
  pub stdout : Text
  pub stderr : Text
  pub exit_code : ℕ
  pub log : List LogLine

abbrev pub no_output : Output
no_output = record { stdout = []; stderr = []; exit_code = 0; log = [] }

-- The line that the sink gets, if the text is not empty.
abbrev pub log_text : Text → Text → Bool → List LogLine
log_text name [] is_stderr = []
log_text name (c ∷ text) is_stderr =
    record { step_name = name; text = c ∷ text; is_stderr = is_stderr } ∷ []

-- The body of the loop over the events.
abbrev pub take_event : Text → Output → ExecEvent → Output
take_event name out (stdout_event text) = record out {
  stdout = out.stdout ++ default_to text [];
  log = out.log ++ log_text name (default_to text []) false;
}
take_event name out (stderr_event text) = record out {
  stderr = out.stderr ++ default_to text [];
  log = out.log ++ log_text name (default_to text []) true;
}
take_event name out (complete exit_code) = record out { exit_code = default_to exit_code 0 }
take_event name out (error_event error) = record out {
  exit_code = if out.exit_code == 0 then 1 else out.exit_code;
  stderr = out.stderr ++ default_to error (codes "stream error");
  log =
      out.log
      ++ record {
        step_name = name;
        text = codes "\n" ++ (default_to error (codes "stream error") ++ codes "\n");
        is_stderr = true;
      }
        ∷ [];
}
take_event name out other_event = out

abbrev pub take_events : Text → List ExecEvent → Output
take_events name events = foldl (take_event name) no_output events

-- `options.checkout?.repoUrl`
abbrev pub has_checkout : Option CheckoutSpec → Bool
has_checkout none = false
has_checkout (some spec) = is_given (some spec.repo_url)

abbrev pub step_cwd : Bool → Option Text → Option Text
step_cwd false cwd = cwd
step_cwd true none = some workdir
step_cwd true (some []) = some workdir
step_cwd true (some (c ∷ cwd)) = some (workdir ++ (codes "/" ++ (c ∷ cwd)))

abbrev pub stream_request : SandboxRunnerOptions → PlanStep → StreamRequest
stream_request options step = record {
  command = step.command;
  cwd = step_cwd (has_checkout options.checkout) step.options.cwd;
  timeout =
      default_to step.options.timeout_ms
        (default_to options.step_timeout_ms default_step_timeout_ms);
  env = step.options.env;
}

-- A step's result and what the sink got from it.
pub record StepRun : Type 0 where
  pub result : StepResult
  pub log : List LogLine

abbrev pub skipped_run : Container → PlanStep → StepRun
skipped_run container step = record {
  result = record {
    name = step.name;
    exit_code = minus_one;
    stdout = [];
    stderr = [];
    started_at = container.started_at step;
    finished_at = container.started_at step;
    skipped = true;
  };
  log = [];
}

-- The lines that a sink got.
abbrev pub sink_log : Option (LogLine → Bool) → List LogLine → List LogLine
sink_log none log = []
sink_log (some takes) log = log

abbrev pub finished_run : Container → SandboxRunnerOptions → PlanStep → Output → StepRun
finished_run container options step out = record {
  result = record {
    name = step.name;
    exit_code = code out.exit_code;
    stdout = out.stdout;
    stderr = out.stderr;
    started_at = container.started_at step;
    finished_at = container.finished_at step;
    skipped = false;
  };
  log = sink_log options.sink out.log;
}

-- Whether every line that is awaited is taken.
abbrev pub takes_all : (LogLine → Bool) → List LogLine → Bool
takes_all takes [] = true
takes_all takes (line ∷ log) = takes line && takes_all takes log

abbrev pub sink_takes : Option (LogLine → Bool) → List LogLine → Bool
sink_takes none log = true
sink_takes (some takes) log = takes_all takes log

-- A rejected `append` rejects the step.
abbrev pub started_run :
    Container → SandboxRunnerOptions → PlanStep → Option (List ExecEvent) → Option StepRun
started_run container options step none = none
started_run container options step (some events) =
    let out = take_events step.name events in
    if sink_takes options.sink out.log then some (finished_run container options step out) else none

abbrev pub start_step : Container → SandboxRunnerOptions → PlanStep → Option StepRun
start_step container options step =
    started_run container options step (container.exec_stream step (stream_request options step))

abbrev pub run_step : Container → SandboxRunnerOptions → List Text → PlanStep → Option StepRun
run_step container options failed step =
    if is_blocked failed step && not (is_always step)
    then some (skipped_run container step)
    else start_step container options step
