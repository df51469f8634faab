-- ===== src/Ci/Plan/Complete.antt =====
-- `topoSort` ends, and fails only on an unknown dependency or a cycle.
use gitflare.Prelude.{
  ℕ, suc, ◌<◌, ◌≡◌, ◌≢◌, refl, ap, sym, ◌∙◌, inl, inr, true, none, List, [], ◌∷◌, length, Text,
  text_eq, text_eq_iff, All, In, All→In, arith,
}
use gitflare.Ci.Plan.{
  PlanStep, Plan, Result, ok, err, stuck, ◌>>=◌, Search, by_name, visit_all, check_needs,
  check_steps, empty_search, topo_sort,
}
use gitflare.Ci.Plan.Sorted.{names}
use gitflare.Ci.Plan.Order.{topo_sort-eq, empty_search-IsSearch, self-All}
use gitflare.Ci.Plan.Total.{visit_all-Returns, Returns}

pub by_name-known : (steps : List PlanStep) (n : Text) → In n (names steps) → by_name steps n ≢ none
unfolding by_name
by_name-known [] n h e = h
by_name-known (s ∷ ss) n (inl same) e =
    let t : text_eq s.name n ≡ true = (text_eq_iff s.name n).1 (sym same) in ground arith
by_name-known (s ∷ ss) n (inr h) e = ground (arith, by_name-known ss n h)

check_needs-known :
    (steps : List PlanStep) (name : Text) (needs : List Text)
    → All (λ n. In n (names steps)) needs
    → check_needs steps name needs ≡ ok tt
unfolding check_needs
check_needs-known steps name [] h = refl
check_needs-known steps name (n ∷ needs) (i, h) =
    ground (arith, by_name-known steps n i, check_needs-known steps name needs h)

pub check_steps-known :
    (steps ss : List PlanStep)
    → All (λ s. All (λ n. In n (names steps)) s.needs) ss
    → check_steps steps ss ≡ ok tt
unfolding check_steps
check_steps-known steps [] h = refl
check_steps-known steps (s ∷ ss) (i, h) =
    rw (check_needs-known steps s.name s.needs i) (check_steps-known steps ss h)

check_needs-ne-stuck :
    (steps : List PlanStep) (name : Text) (needs : List Text) → check_needs steps name needs ≢ stuck
unfolding check_needs
check_needs-ne-stuck steps name [] = ground arith
check_needs-ne-stuck steps name (n ∷ needs) = ground (arith, check_needs-ne-stuck steps name needs)

then-ne-stuck :
    {A B : Type 0} (m : Result A) (f : A → Result B)
    → m ≢ stuck
    → ((a : A) → f a ≢ stuck)
    → (m >>= f) ≢ stuck
then-ne-stuck (ok a) f h k = k a
then-ne-stuck (err e) f h k = ground arith
then-ne-stuck stuck f h k = λ e. h refl

check_steps-ne-stuck : (steps ss : List PlanStep) → check_steps steps ss ≢ stuck
unfolding check_steps
check_steps-ne-stuck steps [] = ground arith
check_steps-ne-stuck steps (s ∷ ss) =
    then-ne-stuck (check_needs steps s.name s.needs) _ (check_needs-ne-stuck steps s.name s.needs)
      (λ u. check_steps-ne-stuck steps ss)

Returns-ne-stuck : (r : Result Search) → Returns (Unit {0}) r → r ≢ stuck
Returns-ne-stuck (ok st) h = ground arith
Returns-ne-stuck (err e) h = ground arith
Returns-ne-stuck stuck h = absurd h

-- `topoSort` ends on every plan: one round more than there are steps is enough for its depth-first
-- search, so it returns an order or throws.
pub topo_sort-ne-stuck : (plan : Plan) → topo_sort plan ≢ stuck
topo_sort-ne-stuck plan = rw (topo_sort-eq plan) (
    then-ne-stuck (check_steps plan.steps plan.steps) _ (check_steps-ne-stuck plan.steps plan.steps)
      (λ u.
        then-ne-stuck _ _
          (Returns-ne-stuck _ (
            visit_all-Returns (Unit {0}) plan.steps (λ n. 0) (λ s n i k e. tt) (λ s n i k. inr tt)
              (suc (length plan.steps)) plan.steps empty_search (self-All plan.steps)
              (empty_search-IsSearch plan.steps) (omega arith) (λ m e. cc)))
          (λ st. ok-ne-stuck st.ordered)))
  where
    ok-ne-stuck : (ss : List PlanStep) → ok ss ≢ stuck
    ok-ne-stuck ss = ground arith

Returns-ok : (r : Result Search) → Returns ⊥ r → (st : Search) × (r ≡ ok st)
Returns-ok (ok st) h = (st, refl)
Returns-ok (err e) h = absurd h
Returns-ok stuck h = absurd h

-- A plan whose needs are all names of steps and that has no cycle, as a ranking of the names
-- shows in which each need ranks below its step, is sorted: no error is thrown.
pub topo_sort_complete :
    (plan : Plan) (rank : Text → ℕ)
    → All (λ s. All (λ n. In n (names plan.steps)) s.needs) plan.steps
    → All (λ s. All (λ n. rank n < rank s.name) s.needs) plan.steps
    → (ordered : List PlanStep) × (topo_sort plan ≡ ok ordered)
topo_sort_complete plan rank h l =
    let steps = plan.steps in
    let (st, e) = Returns-ok (visit_all (suc (length steps)) steps steps empty_search) (
      visit_all-Returns ⊥ steps rank
        (λ s n i k e.
          by_name-known steps n
            (All→In (λ m. In m (names steps)) n s.needs
              (All→In (λ t. All (λ m. In m (names steps)) t.needs) s steps h i) k)
            e)
        (λ s n i k. inl (
          All→In (λ m. rank m < rank s.name) n s.needs
            (All→In (λ t. All (λ m. rank m < rank t.name) t.needs) s steps l i) k))
        (suc (length steps)) steps empty_search (self-All steps) (empty_search-IsSearch steps)
        (omega arith) (λ m e. cc)) in
    (
      st.ordered,
      topo_sort-eq plan
          ∙ ap
              (λ r. r >>= λ _.
                visit_all (suc (length steps)) steps steps empty_search >>= λ last. ok last.ordered)
              (check_steps-known steps steps h)
          ∙ ap (λ r. r >>= λ last. ok last.ordered) e,
    )
