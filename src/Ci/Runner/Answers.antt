-- ===== src/Ci/Runner/Answers.antt =====
-- ci/sandbox-runner.ts: what the runner is given, what it returns, and what a container answers.
use gitflare.Prelude.{
  ℕ, ◌*◌, ◌⊎◌, Bool, true, false, ◌||◌, Option, none, some, List, [], ◌∷◌, ◌++◌, Text, codes,
  to_radix, if◌then◌else◌,
}
use gitflare.Artifacts.Names.{to_lower_case}
use gitflare.Errors.{contains}
use gitflare.Ci.Emitted.{Parsed}
use gitflare.Ci.Plan.{PlanStep, Plan}

pub record CheckoutSpec : Type 0 where
  pub repo_url : Text
  pub branch : Option Text
  pub sha : Option Text
  pub token : Option Text

-- `minus_one` is the exit code of a step that was not started.
pub data ExitCode : Type 0 where
  code : ℕ → ExitCode
  minus_one : ExitCode

pub record StepResult : Type 0 where
  pub name : Text
  pub exit_code : ExitCode
  pub stdout : Text
  pub stderr : Text
  pub started_at : ℕ
  pub finished_at : ℕ
  pub skipped : Bool

pub record RunResult : Type 0 where
  pub is_ok : Bool
  pub steps : List StepResult
  pub error : Option Text

-- A call of `LogSink.append`.
pub record LogLine : Type 0 where
  pub step_name : Text
  pub text : Text
  pub is_stderr : Bool

-- The events of `parseSSEStream` that the source tells apart.
pub data ExecEvent : Type 0 where
  stdout_event : Option Text → ExecEvent
  stderr_event : Option Text → ExecEvent
  complete : Option ℕ → ExecEvent
  error_event : Option Text → ExecEvent
  other_event : ExecEvent

pub record ExecResult : Type 0 where
  pub exit_code : ℕ
  pub stdout : Text
  pub stderr : Text

-- The source of the plan: built already, or printed by a command in the container.
pub data PlanSource : Type 0 where
  given : Plan → PlanSource
  from_repo : Text → PlanSource

-- `sink` is `none` without a sink; else it says of a line whether `append` takes it or rejects.
pub record SandboxRunnerOptions : Type 0 where
  pub checkout : Option CheckoutSpec
  pub plan : PlanSource
  pub env : Option (List (Text × Text))
  pub step_timeout_ms : Option ℕ
  pub ready_timeout_ms : Option ℕ
  pub sink : Option (LogLine → Bool)

pub record StreamRequest : Type 0 where
  pub command : Text
  pub cwd : Option Text
  pub timeout : ℕ
  pub env : Option (List (Text × Text))

-- The answers of the container and the clock. `attempts` are the errors of the polls that begin
-- before the deadline, `none` where the container answers; `parse_json` stands for JSON.parse. `exec` and `exec_stream` may throw; a stream's
-- iteration may throw too, and then it counts as thrown.
pub record Container : Type 0 where
  pub attempts : List (Option Text)
  pub parse_json : Text → Parsed
  pub exec : Text → Option Text → ℕ → Text ⊎ ExecResult
  pub set_env_vars : List (Text × Text) → Bool
  pub exec_stream : PlanStep → StreamRequest → Option (List ExecEvent)
  pub started_at : PlanStep → ℕ
  pub finished_at : PlanStep → ℕ

abbrev pub default_step_timeout_ms : ℕ
default_step_timeout_ms = 10 * 60 * 1000

abbrev pub workdir : Text
workdir = codes "/workspace/repo"

abbrev pub default_ready_timeout_ms : ℕ
default_ready_timeout_ms = 120000

abbrev pub is_starting : Text → Bool
is_starting message =
    let lower = to_lower_case message in
    contains (codes "container is starting") lower
    || contains (codes "not ready") lower
    || contains (codes "starting up") lower

-- `message(lastError)`, which is undefined before the first poll.
abbrev pub last_message : Option Text → Text
last_message none = codes "undefined"
last_message (some message) = message

-- The error that it throws, if any.
abbrev pub wait_for_ready : ℕ → Option Text → List (Option Text) → Option Text
wait_for_ready timeout_ms last_error [] = some (
    codes "Container did not become ready within "
    ++ (to_radix 10 timeout_ms ++ (codes "ms: " ++ last_message last_error)))
wait_for_ready timeout_ms last_error (none ∷ attempts) = none
wait_for_ready timeout_ms last_error (some error ∷ attempts) =
    if is_starting error then wait_for_ready timeout_ms (some error) attempts else some error

-- An option that is absent or empty.
abbrev pub is_given : Option Text → Bool
is_given none = false
is_given (some []) = false
is_given (some (c ∷ text)) = true

-- `a || b`
abbrev pub text_or : Text → Text → Text
text_or [] b = b
text_or (c ∷ a) b = c ∷ a

-- `event.data ?? ''`, and likewise for the other fields.
abbrev pub default_to {ℓ} : {A : Type ℓ} → Option A → A → A
default_to none default = default
default_to (some a) default = a
