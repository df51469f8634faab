-- ===== src/Ci/Plan/Order.antt =====
-- The result of `topoSort`: every step once, each behind what it needs.
use gitflare.Prelude.{
  suc, ◌≡◌, refl, sym, subst, ◌∙◌, some, List, [], ◌∷◌, length, Text, All, In, In→All,
}
use gitflare.Ci.Plan.{
  PlanStep, Plan, Result, ok, err, stuck, ◌>>=◌, finished, Search, visit_all, check_steps,
  empty_search, topo_sort,
}
use gitflare.Ci.Plan.Sorted.{names, Ordered}
use gitflare.Ci.Plan.Marks.{IsSearch}
use gitflare.Ci.Plan.Invariant.{VisitedAll, visit_all-VisitedAll}

-- `steps` in dependency order: `ordered` holds steps of the plan and has each name of the plan
-- once, and every need of a step stands before it.
pub record IsSorting (steps ordered : List PlanStep) : Type 0 where
  pub sorted : Ordered [] ordered
  pub from_plan : All (λ s. In s steps) ordered
  pub complete : All (λ s. In s.name (names ordered)) steps

pub empty_search-IsSearch : (steps : List PlanStep) → IsSearch steps empty_search
empty_search-IsSearch steps = record {
  finished_in = λ n h. absurd (cc);
  in_finished = λ n h. absurd h;
  sorted = tt;
  from_plan = tt;
}

finished_names :
    (ss : List PlanStep) (st : Search)
    → ((n : Text) → st.status n ≡ some finished → In n (names st.ordered))
    → All (λ n. st.status n ≡ some finished) (names ss)
    → All (λ s. In s.name (names st.ordered)) ss
finished_names [] st h a = tt
finished_names (s ∷ ss) st h (e, a) = (h s.name e, finished_names ss st h a)

-- The value that the first part of a computation hands to the rest, when the whole returns.
pub handed_on :
    {A B : Type 0} (rest : A → Result B) {b : B} (m : Result A)
    → (m >>= rest) ≡ ok b
    → (a : A) × (rest a ≡ ok b) × (m ≡ ok a)
handed_on rest stuck returned = absurd (cc)
handed_on rest (err x) returned = absurd (cc)
handed_on rest (ok a) returned = (a, returned, refl)

pub self-All : (ss : List PlanStep) → All (λ s. In s ss) ss
self-All ss = In→All (λ s. In s ss) ss (λ s h. h)

pub topo_sort-eq :
    (plan : Plan)
    → topo_sort plan ≡ (
        check_steps plan.steps plan.steps >>= λ _.
        visit_all (suc (length plan.steps)) plan.steps plan.steps empty_search >>= λ st.
        ok st.ordered)
unfolding topo_sort
topo_sort-eq plan = refl

-- When `topoSort` returns, the returned list is the plan in dependency order: it holds steps of
-- the plan only, each name of the plan exactly once, and every need of a step stands before it.
pub topo_sort-IsSorting :
    (plan : Plan) (ordered : List PlanStep)
    → topo_sort plan ≡ ok ordered
    → IsSorting plan.steps ordered
topo_sort-IsSorting plan ordered e =
    let (u, f, _) = handed_on _ (check_steps plan.steps plan.steps) (sym (topo_sort-eq plan) ∙ e) in
    let (st, k, g) =
      handed_on _ (visit_all (suc (length plan.steps)) plan.steps plan.steps empty_search) f in
    let (v, _, done) = subst (VisitedAll plan.steps (names plan.steps) empty_search) g (
      visit_all-VisitedAll (suc (length plan.steps)) plan.steps plan.steps empty_search
        (self-All plan.steps) (empty_search-IsSearch plan.steps)) in
    let same : st.ordered ≡ ordered = cc in
    subst (IsSorting plan.steps) same (record {
      sorted = v.sorted;
      from_plan = v.from_plan;
      complete = finished_names plan.steps st v.finished_in done;
    })
