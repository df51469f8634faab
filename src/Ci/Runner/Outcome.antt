-- ===== src/Ci/Runner/Outcome.antt =====
-- Which steps of a plan are started, which are skipped, and when the run is a success.
use gitflare.Prelude.{
  ℕ, ◌+◌, ◌-◌, ltb, ◌<◌, ◌≡◌, inl, inr, ◌↔◌, refl, sym, ap, subst, ◌∙◌, true, false, ◌&&◌, not,
  Option, none, some, List, [], ◌∷◌, Text, In, All→In, arith, Bool-cases,
}
use gitflare.Ci.Plan.{PlanStep, Plan, Result, plan_waves, ok, err, stuck}
use gitflare.Ci.Plan.Sorted.{names}
use gitflare.Ci.Plan.Waves.{wave, IsSchedule, plan_waves-IsSchedule}
use gitflare.Ci.Runner.{
  LogLine, sink_takes, StepResult, RunResult, StepRun, Container, SandboxRunnerOptions, RunState,
  Finished, is_blocked, is_always, has_failed, ExecEvent, stream_request, finished_run, skipped_run,
  take_events, run_all, absorb, after_wave, run_waves, nothing_done, finish_run, find_failure,
  conclude_run, run_schedule, unless_empty, run_plan, StreamRequest,
}
use gitflare.Ci.Runner.Started.{Justified, Invariant, run_waves-Invariant}

-- What a run says about the steps of its plan.
pub record IsOutcome (steps : List PlanStep) (result : RunResult) : Type 0 where
  pub justified : (r : StepResult) → In r result.steps → Justified steps result.steps r
  pub complete :
      (s : PlanStep) → In s steps → (r : StepResult) × In r result.steps × (r.name ≡ s.name)
  pub ok_iff :
      (result.is_ok ≡ true)
      ↔ ((r : StepResult) → In r result.steps → has_failed r.exit_code ≡ false)

no_failure :
    (rs : List StepResult) (q : StepResult)
    → find_failure rs ≡ none
    → In q rs
    → has_failed q.exit_code ≡ true
    → q.skipped ≡ false
    → ⊥
no_failure [] q h i f s = i
no_failure (r ∷ rs) q h (inl e) f s =
    let f' = subst (λ q. has_failed q.exit_code ≡ true) e f in
    let s' = subst (λ q. q.skipped ≡ false) e s in let g = rw (f', s') at h in absurd (cc)
no_failure (r ∷ rs) q h (inr i) f s = elim (Bool-cases (has_failed r.exit_code && not r.skipped)) [
  | inl e ↦ let g = rw e at h in absurd (cc)
  | inr e ↦ let g = rw e at h in no_failure rs q g i f s
]

all_passed :
    (rs : List StepResult)
    → ((r : StepResult) → In r rs → has_failed r.exit_code ≡ false)
    → find_failure rs ≡ none
all_passed [] h = refl
all_passed (r ∷ rs) h = rw (h r (inl refl)) (all_passed rs (λ q i. h q (inr i)))

conclude_run-steps : (rs : List StepResult) (o : Option StepResult) → (conclude_run rs o).steps ≡ rs
conclude_run-steps rs none = refl
conclude_run-steps rs (some r) = refl

conclude_run-is_ok :
    (rs : List StepResult) (o : Option StepResult) → (conclude_run rs o).is_ok ≡ true → o ≡ none
conclude_run-is_ok rs none h = refl
conclude_run-is_ok rs (some r) h = absurd (cc)

RunState-IsOutcome :
    (container : Container) (options : SandboxRunnerOptions) (steps : List PlanStep)
    (waves : List (List PlanStep)) (schedule : IsSchedule steps waves) (m : ℕ) (last : RunState)
    → ((i : ℕ) → wave (m + i) waves ≡ [])
    → Invariant container options steps waves schedule m last
    → IsOutcome steps (conclude_run last.steps (find_failure last.steps))
RunState-IsOutcome container options steps waves schedule m last f v =
    let result = conclude_run last.steps (find_failure last.steps) in
    let same : last.steps ≡ result.steps =
      sym (conclude_run-steps last.steps (find_failure last.steps)) in
    record {
      justified = subst (λ rs. (r : StepResult) → In r rs → Justified steps rs r) same v.justified;
      complete = λ s i.
          let (l, k) =
            All→In (λ s. (l : ℕ) × In s.name (names (wave l waves))) s steps schedule.complete i in
          subst (λ rs. (r : StepResult) × In r rs × (r.name ≡ s.name)) same
            (v.ran l s.name (in_range l s.name k) k);
      ok_iff =
          subst
            (λ rs.
              (result.is_ok ≡ true) ↔ ((r : StepResult) → In r rs → has_failed r.exit_code ≡ false))
            same
            (
              λ h r i. elim (Bool-cases (has_failed r.exit_code)) [
                | inl g ↦
                    let (q, j, a, b) = v.causes r i g in
                    absurd (
                      no_failure last.steps q
                        (conclude_run-is_ok last.steps (find_failure last.steps) h) j a b)
                | inr g ↦ g
              ],
              λ h. rw (all_passed last.steps h) refl,
            );
    }
  where
    in_range : (l : ℕ) (n : Text) → In n (names (wave l waves)) → l < m
    in_range l n k = elim (Bool-cases (ltb l m)) [
      | inl h ↦ ground arith
      | inr h ↦ absurd (
          let z : m + (l - m) ≡ l = ground arith in
          subst (λ w. In n (names w)) (ap (λ j. wave j waves) (sym z) ∙ f (l - m)) k)
    ]

finish_run-some :
    (o : Option RunState) (finished : Finished)
    → finish_run o ≡ some finished
    → (last : RunState) × (o ≡ some last)
      × (conclude_run last.steps (find_failure last.steps) ≡ finished.result)
finish_run-some none finished h = absurd (cc)
finish_run-some (some last) finished h = (
  last,
  refl,
  ap (λ f. f.result)
      (let e : record {
        result = conclude_run last.steps (find_failure last.steps);
        logs = last.logs;
      }
            ≡ finished =
          cc in
        e),
)

run_schedule-IsOutcome :
    (container : Container) (options : SandboxRunnerOptions) (plan : Plan)
    (r : Result (List (List PlanStep))) (finished : Finished)
    → plan_waves plan ≡ r
    → run_schedule container options r ≡ some finished
    → IsOutcome plan.steps finished.result
run_schedule-IsOutcome container options plan stuck finished e h = absurd (cc)
run_schedule-IsOutcome container options plan (err failure) finished e h = absurd (cc)
run_schedule-IsOutcome container options plan (ok waves) finished e h =
    let schedule = plan_waves-IsSchedule plan waves e in
    let (last, g, same) =
      finish_run-some (run_waves container options nothing_done waves) finished h in
    let (m, f, v) =
      run_waves-Invariant container options plan.steps waves schedule 0 waves nothing_done last
        (λ i. let z : 0 + i ≡ i = omega arith in ap (λ j. wave j waves) z) g
        record {
          known = λ n. (λ i. absurd i, λ p. absurd p.1);
          ran = λ j n l i. absurd (omega arith);
          justified = λ r i. absurd i;
          causes = λ r i. absurd i;
        } in
    subst (IsOutcome plan.steps) same
      (RunState-IsOutcome container options plan.steps waves schedule m last f v)

-- When no stream is refused, every step gets a result.
run_all-some :
    (container : Container) (options : SandboxRunnerOptions) (failed : List Text)
    (w : List PlanStep)
    → ((s : PlanStep) (q : StreamRequest)
        → (events : List ExecEvent) × (container.exec_stream s q ≡ some events))
    → ((log : List LogLine) → sink_takes options.sink log ≡ true)
    → (runs : List StepRun) × (run_all container options failed w ≡ some runs)
run_all-some container options failed [] h k = ([], refl)
run_all-some container options failed (s ∷ w) h k =
    let (runs, e) = run_all-some container options failed w h k in
    let (events, f) = h s (stream_request options s) in
    elim (Bool-cases (is_blocked failed s && not (is_always s))) [
      | inl b ↦ (skipped_run container s ∷ runs, rw (b, e) refl)
      | inr b ↦ (
        finished_run container options s (take_events s.name events) ∷ runs,
        rw (b, e, f, k (take_events s.name events).log) refl,
      )
    ]

run_waves-some :
    (container : Container) (options : SandboxRunnerOptions) (done : RunState)
    (ws : List (List PlanStep))
    → ((s : PlanStep) (q : StreamRequest)
        → (events : List ExecEvent) × (container.exec_stream s q ≡ some events))
    → ((log : List LogLine) → sink_takes options.sink log ≡ true)
    → (last : RunState) × (run_waves container options done ws ≡ some last)
unfolding run_waves
run_waves-some container options done [] h k = (done, refl)
run_waves-some container options done (w ∷ ws) h k =
    let (runs, e) = run_all-some container options done.failed w h k in
    let (last, g) = run_waves-some container options (absorb done runs) ws h k in
    (last, ap (λ o. after_wave o (λ runs. run_waves container options (absorb done runs) ws)) e ∙ g)

unless_empty-IsOutcome :
    (steps : List PlanStep) (ran : Option Finished) (finished : Finished)
    → ran ≡ some finished
    → IsOutcome steps finished.result
    → (last : Finished) × (unless_empty steps ran ≡ some last) × IsOutcome steps last.result
unless_empty-IsOutcome [] ran finished e h = (
  record { result = record { is_ok = true; steps = []; error = none }; logs = [] },
  refl,
  record {
    justified = λ r i. absurd i;
    complete = λ s i. absurd i;
    ok_iff = (λ e r i. absurd i, λ f. refl);
  },
)
unless_empty-IsOutcome (s ∷ steps) ran finished e h = (finished, e, h)

-- When the plan can be put in waves, no step's stream is refused and the sink, if there is one,
-- takes every line, the run ends with a result.
-- In it each step of the plan has a result. A step was skipped only if it does not always run and
-- something it needs has failed, and started only if it always runs or everything it needs has
-- passed. The run is a success exactly when every result has exit code 0.
pub run_plan-IsOutcome :
    (container : Container) (options : SandboxRunnerOptions) (plan : Plan)
    (waves : List (List PlanStep))
    → plan_waves plan ≡ ok waves
    → ((s : PlanStep) (q : StreamRequest)
        → (events : List ExecEvent) × (container.exec_stream s q ≡ some events))
    → ((log : List LogLine) → sink_takes options.sink log ≡ true)
    → (finished : Finished) × (run_plan container options plan ≡ some finished)
      × IsOutcome plan.steps finished.result
unfolding run_plan
run_plan-IsOutcome container options plan waves e h k =
    let (last, g) = run_waves-some container options nothing_done waves h k in
    let finished : Finished = record {
      result = conclude_run last.steps (find_failure last.steps);
      logs = last.logs;
    } in
    let ran : run_schedule container options (plan_waves plan) ≡ some finished =
      ap (run_schedule container options) e ∙ ap finish_run g in
    unless_empty-IsOutcome plan.steps (run_schedule container options (plan_waves plan)) finished
      ran (run_schedule-IsOutcome container options plan (plan_waves plan) finished refl ran)
