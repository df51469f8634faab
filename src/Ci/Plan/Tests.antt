-- ===== src/Ci/Plan/Tests.antt =====
-- Runs of the plan code, and its theorems at a small pipeline.
use gitflare.Prelude.{
  true, false, text_eq, In, ap, sym, ◌∙◌, ℕ, ◌≡◌, ◌≢◌, refl, none, List, [], ◌∷◌, Text, codes, inl,
  inr, arith,
}
use gitflare.Ci.Plan.{
  StepOptions, PlanStep, Plan, ok, err, stuck, unknown_step, cycle, duplicate_name, topo_sort,
  plan_waves, add_step, run_root, run_behind,
}
use gitflare.Ci.Plan.Order.{IsSorting, topo_sort-IsSorting}
use gitflare.Ci.Plan.Complete.{topo_sort-ne-stuck, topo_sort_complete}
use gitflare.Ci.Plan.Builder.{Built, start, root, behind, topo_sort-Built}
use gitflare.Ci.Plan.Waves.{wave, plan_waves_places, IsSchedule, plan_waves-IsSchedule}

abbrev plain : StepOptions
plain = record {
  cache = none;
  cwd = none;
  env = none;
  secrets = none;
  cloudflare_credentials = none;
  source_control_credentials = none;
  timeout_ms = none;
  retries = none;
  always = none;
}

abbrev step : Text → List Text → PlanStep
step n needs = record { options = plain; name = n; command = codes "c"; needs = needs }

abbrev deps : PlanStep
deps = step (codes "deps") []

abbrev lint : PlanStep
lint = step (codes "lint") (codes "deps" ∷ [])

abbrev ship : PlanStep
ship = step (codes "ship") (codes "lint" ∷ codes "deps" ∷ [])

-- The steps out of order.
abbrev shuffled : Plan
shuffled = record { steps = ship ∷ lint ∷ deps ∷ [] }

topo_sort-shuffled : topo_sort shuffled ≡ ok (deps ∷ lint ∷ ship ∷ [])
unfolding topo_sort
topo_sort-shuffled = refl

failures :
    (topo_sort (record { steps = lint ∷ [] }) ≡ err (unknown_step (codes "lint") (codes "deps")))
    × (topo_sort (record {
      steps = step (codes "a") (codes "b" ∷ []) ∷ step (codes "b") (codes "a" ∷ []) ∷ [];
    })
        ≡ err (cycle (codes "a" ∷ codes "b" ∷ codes "a" ∷ [])))
unfolding topo_sort
failures = (refl, refl)

plan_waves-shuffled : plan_waves shuffled ≡ ok ((deps ∷ []) ∷ (lint ∷ []) ∷ (ship ∷ []) ∷ [])
unfolding plan_waves
plan_waves-shuffled = refl

topo_sort-IsSorting_example : IsSorting (ship ∷ lint ∷ deps ∷ []) (deps ∷ lint ∷ ship ∷ [])
topo_sort-IsSorting_example =
    topo_sort-IsSorting shuffled (deps ∷ lint ∷ ship ∷ []) topo_sort-shuffled

topo_sort-ne-stuck_example : topo_sort shuffled ≢ stuck
topo_sort-ne-stuck_example = topo_sort-ne-stuck shuffled

-- By the length of the name, and its first letter.
abbrev by_letter : Text → ℕ
by_letter [] = 0
by_letter (c ∷ _) = c

topo_sort_complete_example : (ordered : List PlanStep) × (topo_sort shuffled ≡ ok ordered)
topo_sort_complete_example =
    topo_sort_complete shuffled by_letter
      ((inr (inl refl), (inr (inr (inl refl)), tt)), ((inr (inr (inl refl)), tt), (tt, tt)))
      (omega arith)

plan_waves-IsSchedule_example :
    IsSchedule (ship ∷ lint ∷ deps ∷ []) ((deps ∷ []) ∷ (lint ∷ []) ∷ (ship ∷ []) ∷ [])
plan_waves-IsSchedule_example =
    plan_waves-IsSchedule shuffled ((deps ∷ []) ∷ (lint ∷ []) ∷ (ship ∷ []) ∷ [])
      plan_waves-shuffled

two_built : Built (deps ∷ lint ∷ [])
unfolding run_root run_behind add_step
two_built =
    behind (codes "deps") (codes "lint") (codes "c") plain
      (root (codes "deps") (codes "c") plain start refl) (inl refl) refl

topo_sort-Built_example : topo_sort (record { steps = deps ∷ lint ∷ [] }) ≡ ok (deps ∷ lint ∷ [])
topo_sort-Built_example = topo_sort-Built (deps ∷ lint ∷ []) two_built

twice : run_root (deps ∷ []) (codes "deps") (codes "c") plain ≡ err (duplicate_name (codes "deps"))
unfolding run_root add_step
twice = refl

-- Of two steps with one name the waves hold the first, when nothing needs that name.
same_name :
    plan_waves record { steps = step (codes "a") [] ∷ step (codes "a") (codes "a" ∷ []) ∷ [] }
    ≡ ok ((step (codes "a") [] ∷ []) ∷ [])
unfolding plan_waves
same_name = refl

abbrev two : Plan
two = record { steps = lint ∷ deps ∷ [] }

two_waves : plan_waves two ≡ ok ((deps ∷ []) ∷ (lint ∷ []) ∷ [])
unfolding plan_waves
two_waves = refl

two_distinct : (t u : PlanStep) → In t two.steps → In u two.steps → t.name ≡ u.name → t ≡ u
two_distinct t u (inl a) (inl b) e = a ∙ sym b
two_distinct t u (inl a) (inr (inl b)) e =
    let same : lint.name ≡ deps.name = sym (ap (λ s. s.name) a) ∙ e ∙ ap (λ s. s.name) b in
    let z : true ≡ false = ap (text_eq lint.name) same in absurd (cc)
two_distinct t u (inl a) (inr (inr b)) e = absurd b
two_distinct t u (inr (inl a)) (inr (inr b)) e = absurd b
two_distinct t u (inr (inr a)) b e = absurd a
two_distinct t u (inr (inl a)) (inl b) e =
    let same : deps.name ≡ lint.name = sym (ap (λ s. s.name) a) ∙ e ∙ ap (λ s. s.name) b in
    let z : true ≡ false = ap (text_eq deps.name) same in absurd (cc)
two_distinct t u (inr (inl a)) (inr (inl b)) e = a ∙ sym b

plan_waves_places_example :
    (l : ℕ) × In deps (wave l ((deps ∷ []) ∷ (lint ∷ []) ∷ []))
    × ((j : ℕ) (t : PlanStep)
        → In t (wave j ((deps ∷ []) ∷ (lint ∷ []) ∷ []))
        → t.name ≡ deps.name
        → j ≡ l)
plan_waves_places_example =
    plan_waves_places two ((deps ∷ []) ∷ (lint ∷ []) ∷ []) deps two_distinct two_waves
      (inr (inl refl))
