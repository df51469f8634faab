-- ===== src/Ci/Runner/Started.antt =====
-- What holds between the waves of a run: why each step was started or skipped.
use gitflare.Prelude.{
  ℕ, suc, ◌+◌, ◌<◌, ◌≡◌, ◌⊎◌, inl, inr, refl, sym, ap, subst, ◌∙◌, true, false, Option, none, some,
  List, [], ◌∷◌, ◌++◌, Text, In, In-append, In-append_left, In-append_right, All→In, arith,
  Bool-cases,
}
use gitflare.Ci.Plan.{PlanStep}
use gitflare.Ci.Plan.Sorted.{names}
use gitflare.Ci.Plan.Waves.{wave, IsSchedule}
use gitflare.Ci.Runner.{
  StepResult, StepRun, Container, SandboxRunnerOptions, RunState, is_blocked, is_always, has_failed,
  run_all, absorb, after_wave, run_waves,
}
use gitflare.Ci.Runner.Decisions.{
  FailedIn, PassedIn, blocked_by, not_blocked_by, Decided, Ran, run_all-Ran, results, absorb-steps,
  FailedKnown, FailedIn-append, absorb-FailedKnown,
}

-- A result belongs to a step of the plan. Either the step was skipped, since it is not one that
-- always runs and something it needs has failed; or it was started, since it always runs or
-- everything it needs has passed.
abbrev pub Justified : List PlanStep → List StepResult → StepResult → Type 0
Justified steps rs r =
    (s : PlanStep) × In s steps
    × (r.name ≡ s.name)
    × (((r.skipped ≡ true)
          × (has_failed r.exit_code ≡ true)
          × (is_always s ≡ false)
          × ((n : Text) × In n s.needs × FailedIn n rs))
        ⊎ ((r.skipped ≡ false)
            × ((is_always s ≡ true) ⊎ ((n : Text) → In n s.needs → PassedIn n rs))))

Justified-append :
    (steps : List PlanStep) (rs qs : List StepResult) (r : StepResult)
    → Justified steps rs r
    → Justified steps (rs ++ qs) r
Justified-append steps rs qs r (s, i, e, inl (a, b, c, (n, k, f))) =
    (s, i, e, inl (a, b, c, (n, k, FailedIn-append n rs qs f)))
Justified-append steps rs qs r (s, i, e, inr (a, inl b)) = (s, i, e, inr (a, inl b))
Justified-append steps rs qs r (s, i, e, inr (a, inr f)) =
    (s, i, e, inr (a, inr (λ n k. let (q, l, m, o) = f n k in (q, In-append_left q rs qs l, m, o))))

-- Behind every failure stands a step that was started.
abbrev HasCause : List StepResult → StepResult → Type 0
HasCause rs r =
    has_failed r.exit_code ≡ true
    → (q : StepResult) × In q rs × (has_failed q.exit_code ≡ true) × (q.skipped ≡ false)

after_wave-some :
    (o : Option (List StepRun)) (rest : List StepRun → Option RunState) (last : RunState)
    → after_wave o rest ≡ some last
    → (runs : List StepRun) × (o ≡ some runs) × (rest runs ≡ some last)
after_wave-some none rest last h = absurd (cc)
after_wave-some (some runs) rest last h = (runs, refl, h)

module _ (container : Container) (options : SandboxRunnerOptions) (steps : List PlanStep)
    (waves : List (List PlanStep)) (schedule : IsSchedule steps waves) where
  pub record Invariant (k : ℕ) (done : RunState) : Type 0 where
    pub known : FailedKnown done
    pub ran :
        (j : ℕ) (n : Text)
        → j < k
        → In n (names (wave j waves))
        → (r : StepResult) × In r done.steps × (r.name ≡ n)
    pub justified : (r : StepResult) → In r done.steps → Justified steps done.steps r
    pub causes : (r : StepResult) → In r done.steps → HasCause done.steps r

  Ran-names :
      (failed : List Text) (w : List PlanStep) (runs : List StepRun) (n : Text)
      → Ran container options failed w runs
      → In n (names w)
      → (r : StepResult) × In r (results runs) × (r.name ≡ n)
  Ran-names failed [] runs n h i = absurd i
  Ran-names failed (s ∷ w) [] n h i = absurd h
  Ran-names failed (s ∷ w) (run ∷ runs) n (d, h) (inl e) = (run.result, inl refl, d.0 ∙ sym e)
  Ran-names failed (s ∷ w) (run ∷ runs) n (d, h) (inr i) =
      let (r, j, e) = Ran-names failed w runs n h i in (r, inr j, e)

  Ran-Decided :
      (failed : List Text) (w : List PlanStep) (runs : List StepRun) (r : StepResult)
      → Ran container options failed w runs
      → In r (results runs)
      → (s : PlanStep) × In s w × Decided container options failed s r
  Ran-Decided failed [] [] r h i = absurd i
  Ran-Decided failed [] (run ∷ runs) r h i = absurd h
  Ran-Decided failed (s ∷ w) [] r h i = absurd h
  Ran-Decided failed (s ∷ w) (run ∷ runs) r (d, h) (inl e) =
      (s, inl refl, subst (Decided container options failed s) (sym e) d)
  Ran-Decided failed (s ∷ w) (run ∷ runs) r (d, h) (inr i) =
      let (t, j, e) = Ran-Decided failed w runs r h i in (t, inr j, e)

  need_passed :
      (k : ℕ) (done : RunState) (s : PlanStep)
      → Invariant k done
      → In s (wave k waves)
      → is_blocked done.failed s ≡ false
      → (n : Text) → In n s.needs
      → PassedIn n done.steps
  need_passed k done s v i b n m =
      let (j, l, at) =
        All→In (λ n. (j : ℕ) × (j < k) × In n (names (wave j waves))) n s.needs
          (schedule.earlier k s i) m in
      let (r, q, e) = v.ran j n l at in
      elim (Bool-cases (has_failed r.exit_code)) [
        | inl f ↦ absurd (not_blocked_by done.failed s.needs n b m ((v.known n).1 (r, q, e, f)))
        | inr f ↦ (r, q, e, f)
      ]

  Decided-Justified :
      (k : ℕ) (done : RunState) (s : PlanStep) (r : StepResult)
      → Invariant k done
      → In s (wave k waves)
      → Decided container options done.failed s r
      → Justified steps done.steps r
  Decided-Justified k done s r v i (e, inl (a, b, c, d)) =
      let (n, m, f) = blocked_by done.failed s.needs c in
      (s, schedule.from_plan k s i, e, inl (a, b, d, (n, m, (v.known n).0 f)))
  Decided-Justified k done s r v i (e, inr (a, inl b)) =
      (s, schedule.from_plan k s i, e, inr (a, inr (need_passed k done s v i b)))
  Decided-Justified k done s r v i (e, inr (a, inr b)) =
      (s, schedule.from_plan k s i, e, inr (a, inl b))

  Justified-HasCause :
      (k : ℕ) (done : RunState) (qs : List StepResult) (r : StepResult)
      → Invariant k done
      → In r qs
      → Justified steps done.steps r
      → HasCause (done.steps ++ qs) r
  Justified-HasCause k done qs r v i (s, j, e, inl (a, b, c, (n, m, (q, l, z, f)))) h =
      let (p, at, g, t) = v.causes q l f in (p, In-append_left p done.steps qs at, g, t)
  Justified-HasCause k done qs r v i (s, j, e, inr (a, b)) h =
      (r, In-append_right r done.steps qs i, h, a)

  wave-Invariant :
      (k : ℕ) (done : RunState) (runs : List StepRun)
      → Invariant k done
      → Ran container options done.failed (wave k waves) runs
      → Invariant (suc k) (absorb done runs)
  wave-Invariant k done runs v h =
      let new = results runs in
      let same : done.steps ++ new ≡ (absorb done runs).steps = sym (absorb-steps done runs) in
      let decided : (r : StepResult) → In r new → Justified steps done.steps r = λ r i.
        let (s, j, d) = Ran-Decided done.failed (wave k waves) runs r h i in
        Decided-Justified k done s r v j d in
      record {
        known = absorb-FailedKnown done runs v.known;
        ran =
            subst
              (λ rs.
                (j : ℕ) (n : Text)
                → j < suc k
                → In n (names (wave j waves))
                → (r : StepResult) × In r rs × (r.name ≡ n))
              same
              (λ j n l i. elim (split_last j l) [
                | inl m ↦ let (r, q, e) = v.ran j n m i in (r, In-append_left r done.steps new q, e)
                | inr e ↦
                    let (r, q, z) =
                      Ran-names done.failed (wave k waves) runs n h
                        (subst (λ j. In n (names (wave j waves))) e i) in
                    (r, In-append_right r done.steps new q, z)
              ]);
        justified =
            subst (λ rs. (r : StepResult) → In r rs → Justified steps rs r) same
              (λ r i. Justified-append steps done.steps new r (elim (In-append r done.steps new i) [
                | inl j ↦ v.justified r j
                | inr j ↦ decided r j
              ]));
        causes =
            subst (λ rs. (r : StepResult) → In r rs → HasCause rs r) same
              (λ r i. elim (In-append r done.steps new i) [
                | inl j ↦ λ f.
                    let (q, at, g, t) = v.causes r j f in
                    (q, In-append_left q done.steps new at, g, t)
                | inr j ↦ Justified-HasCause k done new r v j (decided r j)
              ]);
      }
    where
      split_last : (j : ℕ) → j < suc k → (j < k) ⊎ (j ≡ k)
      split_last j l = ground arith

  pub run_waves-Invariant :
      (k : ℕ) (rest : List (List PlanStep)) (done last : RunState)
      → ((i : ℕ) → wave (k + i) waves ≡ wave i rest)
      → run_waves container options done rest ≡ some last
      → Invariant k done
      → (m : ℕ) × ((i : ℕ) → wave (m + i) waves ≡ []) × Invariant m last
  unfolding run_waves
  run_waves-Invariant k [] done last f h v =
      let same : done ≡ last = cc in (k, f, subst (Invariant k) same v)
  run_waves-Invariant k (w ∷ ws) done last f h v =
      let (runs, e, g) =
        after_wave-some (run_all container options done.failed w)
          (λ runs. run_waves container options (absorb done runs) ws) last h in
      let first : wave k waves ≡ w =
        let z : k + 0 ≡ k = omega arith in ap (λ j. wave j waves) (sym z) ∙ f 0 in
      run_waves-Invariant (suc k) ws (absorb done runs) last
        (λ i. let z : suc k + i ≡ k + suc i = omega arith in ap (λ j. wave j waves) z ∙ f (suc i)) g
        (wave-Invariant k done runs v (
          subst (λ w. Ran container options done.failed w runs) (sym first)
            (run_all-Ran container options done.failed w runs e)))
