-- ===== src/Ci/Runner/Decisions.antt =====
-- What the runner decides about the steps of a wave, and what it keeps of their results.
use gitflare.Prelude.{
  ◌≡◌, ◌⊎◌, inl, inr, ◌↔◌, refl, sym, ap, subst, ◌∙◌, true, false, Option, none, some, List, [],
  ◌∷◌, ◌++◌, append_assoc, append-nil, any, includes, includes→In, In→includes, Text, In, In-append,
  In-append_left, In-append_right, arith, Bool-cases,
}
use gitflare.Ci.Plan.{PlanStep}
use gitflare.Ci.Runner.{
  StepResult, StepRun, Container, SandboxRunnerOptions, RunState, is_blocked, is_always, has_failed,
  ExecEvent, stream_request, started_run, finished_run, sink_takes, skipped_run, take_events,
  run_step, run_all, cons_run, absorb,
}

-- A failed result of this name.
abbrev pub FailedIn : Text → List StepResult → Type 0
FailedIn n rs = (r : StepResult) × In r rs × (r.name ≡ n) × (has_failed r.exit_code ≡ true)

-- A result of this name with exit code 0.
abbrev pub PassedIn : Text → List StepResult → Type 0
PassedIn n rs = (r : StepResult) × In r rs × (r.name ≡ n) × (has_failed r.exit_code ≡ false)

pub blocked_by :
    (failed needs : List Text)
    → any (includes failed) needs ≡ true
    → (n : Text) × In n needs × In n failed
blocked_by failed [] h = absurd (cc)
blocked_by failed (m ∷ needs) h = elim (Bool-cases (includes failed m)) [
  | inl e ↦ (m, inl refl, includes→In failed m e)
  | inr e ↦ let (n, i, f) = blocked_by failed needs (ground (arith, h, e)) in (n, inr i, f)
]

pub not_blocked_by :
    (failed needs : List Text) (n : Text)
    → any (includes failed) needs ≡ false
    → In n needs
    → In n failed
    → ⊥
not_blocked_by failed [] n h i f = i
not_blocked_by failed (m ∷ needs) n h (inl e) f =
    let k = In→includes failed m (subst (λ t. In t failed) e f) in absurd (ground (arith, h, k))
not_blocked_by failed (m ∷ needs) n h (inr i) f =
    not_blocked_by failed needs n (ground (arith, h)) i f

module _ (container : Container) (options : SandboxRunnerOptions) where
  -- What the runner decides about a step, given the names of the steps that have failed.
  abbrev pub Decided : List Text → PlanStep → StepResult → Type 0
  Decided failed s r =
      (r.name ≡ s.name)
      × (((r.skipped ≡ true)
            × (has_failed r.exit_code ≡ true)
            × (is_blocked failed s ≡ true)
            × (is_always s ≡ false))
          ⊎ ((r.skipped ≡ false) × ((is_blocked failed s ≡ false) ⊎ (is_always s ≡ true))))

  started_run-some :
      (s : PlanStep) (o : Option (List ExecEvent)) (run : StepRun)
      → started_run container options s o ≡ some run
      → (run.result.name ≡ s.name) × (run.result.skipped ≡ false)
  started_run-some s none run h = absurd (cc)
  started_run-some s (some events) run h =
      let out = take_events s.name events in
      elim (Bool-cases (sink_takes options.sink out.log)) [
        | inl e ↦
            let g = rw e at h in
            let same : finished_run container options s out ≡ run = cc in
            (ap (λ r. r.result.name) (sym same), ap (λ r. r.result.skipped) (sym same))
        | inr e ↦ let g = rw e at h in absurd (cc)
      ]

  run_step-Decided :
      (failed : List Text) (s : PlanStep) (run : StepRun)
      → run_step container options failed s ≡ some run
      → Decided failed s run.result
  run_step-Decided failed s run h = elim (Bool-cases (is_blocked failed s)) [
    | inl e ↦ elim (Bool-cases (is_always s)) [
      | inl f ↦
          let g = rw (e, f) at h in
          let (n, k) =
            started_run-some s (container.exec_stream s (stream_request options s)) run g in
          (n, inr (k, inr f))
      | inr f ↦
          let g = rw (e, f) at h in
          let same : skipped_run container s ≡ run = cc in
          (
            ap (λ r. r.result.name) (sym same),
            inl (
              ap (λ r. r.result.skipped) (sym same),
              ap (λ r. has_failed r.result.exit_code) (sym same),
              e,
              f,
            ),
          )
    ]
    | inr e ↦
        let g = rw e at h in
        let (n, k) =
          started_run-some s (container.exec_stream s (stream_request options s)) run g in
        (n, inr (k, inl e))
  ]

  -- The results of a wave, step by step.
  abbrev pub Ran : List Text → List PlanStep → List StepRun → Type 0
  Ran failed [] [] = Unit
  Ran failed (s ∷ w) [] = ⊥
  Ran failed [] (run ∷ runs) = ⊥
  Ran failed (s ∷ w) (run ∷ runs) = Decided failed s run.result × Ran failed w runs

  cons_run-some :
      (o : Option StepRun) (p : Option (List StepRun)) (runs : List StepRun)
      → cons_run o p ≡ some runs
      → (run : StepRun) × (rest : List StepRun) × (o ≡ some run)
        × (p ≡ some rest)
        × (run ∷ rest ≡ runs)
  cons_run-some none p runs h = absurd (cc)
  cons_run-some (some run) none runs h = absurd (cc)
  cons_run-some (some run) (some rest) runs h =
      (run, rest, refl, refl, let e : run ∷ rest ≡ runs = cc in e)

  pub run_all-Ran :
      (failed : List Text) (w : List PlanStep) (runs : List StepRun)
      → run_all container options failed w ≡ some runs
      → Ran failed w runs
  run_all-Ran failed [] runs h = let e : [] ≡ runs = cc in subst (Ran failed []) e tt
  run_all-Ran failed (s ∷ w) runs h =
      let (run, rest, a, b, e) =
        cons_run-some (run_step container options failed s) (run_all container options failed w)
          runs h in
      subst (Ran failed (s ∷ w)) e (run_step-Decided failed s run a, run_all-Ran failed w rest b)

abbrev pub results : List StepRun → List StepResult
results [] = []
results (run ∷ runs) = run.result ∷ results runs

pub absorb-steps :
    (done : RunState) (runs : List StepRun) → (absorb done runs).steps ≡ done.steps ++ results runs
absorb-steps done [] = sym (append-nil done.steps)
absorb-steps done (run ∷ runs) =
    absorb-steps (absorb done (run ∷ [])) runs
    ∙ append_assoc done.steps (run.result ∷ []) (results runs)

-- The failed names are exactly those of failed results.
abbrev pub FailedKnown : RunState → Type 0
FailedKnown done = (n : Text) → In n done.failed ↔ FailedIn n done.steps

FailedIn-snoc :
    (n : Text) (rs : List StepResult) (r : StepResult)
    → FailedIn n (rs ++ r ∷ [])
    → FailedIn n rs ⊎ ((r.name ≡ n) × (has_failed r.exit_code ≡ true))
FailedIn-snoc n rs r (q, i, e, f) = elim (In-append q rs (r ∷ []) i) [
  | inl k ↦ inl (q, k, e, f)
  | inr k ↦ elim k [
    | inl z ↦ inr (subst (λ q. q.name ≡ n) z e, subst (λ q. has_failed q.exit_code ≡ true) z f)
    | inr z ↦ absurd z
  ]
]

pub FailedIn-append : (n : Text) (rs qs : List StepResult) → FailedIn n rs → FailedIn n (rs ++ qs)
FailedIn-append n rs qs (r, i, e, f) = (r, In-append_left r rs qs i, e, f)

pub absorb-FailedKnown :
    (done : RunState) (runs : List StepRun) → FailedKnown done → FailedKnown (absorb done runs)
absorb-FailedKnown done [] h = h
absorb-FailedKnown done (run ∷ runs) h = absorb-FailedKnown (absorb done (run ∷ [])) runs (λ n.
    elim (Bool-cases (has_failed run.result.exit_code)) [
      | inl t ↦ rw t (
        λ i. elim i [
          | inl e ↦ (
            run.result,
            In-append_right run.result done.steps (run.result ∷ []) (inl refl),
            sym e,
            t,
          )
          | inr i ↦ FailedIn-append n done.steps (run.result ∷ []) ((h n).0 i)
        ],
        λ f. elim (FailedIn-snoc n done.steps run.result f) [
          | inl f ↦ inr ((h n).1 f)
          | inr f ↦ inl (sym f.0)
        ],
      )
      | inr t ↦ rw t (
        λ i. FailedIn-append n done.steps (run.result ∷ []) ((h n).0 i),
        λ f. elim (FailedIn-snoc n done.steps run.result f) [
          | inl f ↦ (h n).1 f
          | inr f ↦ absurd (let z : true ≡ false = sym f.1 ∙ t in cc)
        ],
      )
    ])
