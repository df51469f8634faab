-- ===== src/Ci/Plan/Builder.antt =====
-- Plans that the builder makes are in dependency order as they are written.
use gitflare.Prelude.{
  ℕ, suc, ◌≡◌, ◌≢◌, refl, ap, sym, subst, ◌∙◌, ◌⊎◌, inl, inr, Bool, true, false, none, some, List,
  [], ◌∷◌, ◌++◌, append-nil, append_assoc, length, Text, text_eq, text_eq_iff, All, In, In→All,
  arith, Option-cases,
}
use gitflare.Ci.Plan.{
  StepOptions, PlanStep, ok, ◌>>=◌, visiting, finished, Search, mark, by_name, finish_step,
  visit_needs, visit, visit_all, check_steps, empty_search, topo_sort, has_name, add_step, run_root,
  run_behind,
}
use gitflare.Ci.Plan.Sorted.{names, Ordered, Ordered-snoc}
use gitflare.Ci.Plan.Marks.{by_name→, mark_cases}
use gitflare.Ci.Plan.Complete.{by_name-known, check_steps-known}

-- The steps of a builder after a pipeline function has made some calls. A handle is only had
-- from a call that has returned, so its name is one of the steps'.
pub data Built : List PlanStep → Type 0 where
  start : Built []
  root :
      {steps steps' : List PlanStep} (name command : Text) (options : StepOptions)
      → Built steps
      → run_root steps name command options ≡ ok steps'
      → Built steps'
  behind :
      {steps steps' : List PlanStep} (handle name command : Text) (options : StepOptions)
      → Built steps
      → In handle (names steps)
      → run_behind steps handle name command options ≡ ok steps'
      → Built steps'

has_name-In : (steps : List PlanStep) (n : Text) → In n (names steps) → has_name steps n ≡ true
unfolding has_name
has_name-In [] n h = absurd h
has_name-In (s ∷ ss) n (inl e) =
    let t : text_eq s.name n ≡ true = (text_eq_iff s.name n).1 (sym e) in rw t
has_name-In (s ∷ ss) n (inr h) = ground (arith, has_name-In ss n h)

add_step-Ordered :
    (steps steps' : List PlanStep) (name command : Text) (needs : List Text) (options : StepOptions)
    → Ordered [] steps
    → All (λ n. In n (names steps)) needs
    → add_step steps name command needs options ≡ ok steps'
    → Ordered [] steps'
unfolding add_step
add_step-Ordered steps steps' name command needs options o h e =
    let s : PlanStep = record {
      options = options;
      name = name;
      command = command;
      needs = needs;
    } in
    let fresh : has_name steps name ≡ false = ground arith in
    let same : steps ++ s ∷ [] ≡ steps' = ground arith in
    subst (Ordered []) same (
      Ordered-snoc [] steps s o (right needs h)
        (λ k. elim k [ inl i ↦ i | inr i ↦ clash fresh (has_name-In steps name i) ]))
  where
    right :
        (ns : List Text)
        → All (λ n. In n (names steps)) ns
        → All (λ n. In n [] ⊎ In n (names steps)) ns
    right [] h = tt
    right (n ∷ ns) (i, h) = (inr i, right ns h)

    clash : {b : Bool} → b ≡ false → b ≡ true → ⊥
    clash p q = cc

Built-Ordered : (steps : List PlanStep) → Built steps → Ordered [] steps
unfolding run_root run_behind
Built-Ordered _ start = tt
Built-Ordered _ (root {steps} {steps'} name command options b e) =
    add_step-Ordered steps steps' name command [] options (Built-Ordered steps b) tt e
Built-Ordered _ (behind {steps} {steps'} handle name command options b i e) =
    add_step-Ordered steps steps' name command (handle ∷ []) options (Built-Ordered steps b) (i, tt)
      e

-- Visiting needs that are finished changes nothing.
visit_needs-finished :
    (fuel : ℕ) (steps : List PlanStep) (trail needs : List Text) (st : Search)
    → All (λ n. st.status n ≡ some finished) needs
    → All (λ n. In n (names steps)) needs
    → visit_needs (visit (suc fuel) steps) steps trail needs st ≡ ok st
unfolding visit_needs visit
visit_needs-finished fuel steps trail [] st h k = refl
visit_needs-finished fuel steps trail (n ∷ ns) st (e, h) (i, k) =
    elim (Option-cases (by_name steps n)) [
      | inl f ↦ absurd (by_name-known steps n i f)
      | inr (s, f) ↦
          let (same, _) = by_name→ steps n s f in
          let done : st.status s.name ≡ some finished = ap st.status same ∙ e in
          rw (f, visit_needs) (rw (done, visit) (visit_needs-finished fuel steps trail ns st h k))
    ]

-- The state of the search behind a new step whose needs are finished.
abbrev behind_step : PlanStep → Search → Search
behind_step s st = finish_step s (record st { status = mark s.name visiting st.status })

visit-ready :
    (fuel : ℕ) (steps : List PlanStep) (s : PlanStep) (trail : List Text) (st : Search)
    → st.status s.name ≡ none
    → All (λ n. st.status n ≡ some finished) s.needs
    → All (λ n. In n (names steps)) s.needs
    → visit (suc (suc fuel)) steps s trail st ≡ ok (behind_step s st)
unfolding visit
visit-ready fuel steps s trail st e h k =
    rw (e, visit)
      (ap (λ r. r >>= λ after. ok (finish_step s after))
        (visit_needs-finished fuel steps (trail ++ s.name ∷ []) s.needs
          (record st { status = mark s.name visiting st.status }) (kept s.needs h) k))
  where
    kept :
        (ns : List Text)
        → All (λ n. st.status n ≡ some finished) ns
        → All (λ n. mark s.name visiting st.status n ≡ some finished) ns
    kept [] h = tt
    kept (n ∷ ns) (p, h) = (
      elim (mark_cases s.name visiting st.status n) [
        | inl (same, m) ↦
            let b : st.status n ≡ none = subst (λ q. st.status q ≡ none) same e in absurd (cc)
        | inr (other, m) ↦ m ∙ p
      ],
      kept ns h,
    )

behind_step-status :
    (s : PlanStep) (st : Search) (n : Text)
    → ((s.name ≡ n) × ((behind_step s st).status n ≡ some finished))
      ⊎ ((s.name ≢ n) × ((behind_step s st).status n ≡ st.status n))
unfolding finish_step
behind_step-status s st n = elim (mark_cases s.name finished (mark s.name visiting st.status) n) [
  | inl (same, m) ↦ inl (same, m)
  | inr (other, m) ↦ elim (mark_cases s.name visiting st.status n) [
    | inl (same, k) ↦ absurd (other same)
    | inr (_, k) ↦ inr (other, m ∙ k)
  ]
]

behind_step-ordered :
    (s : PlanStep) (st : Search) → (behind_step s st).ordered ≡ st.ordered ++ s ∷ []
unfolding finish_step
behind_step-ordered s st = refl

-- The search has finished the names `seen`, and begun no other.
record HasSeen (seen : List Text) (st : Search) : Type 0 where
  old : (n : Text) → In n seen → st.status n ≡ some finished
  new : (n : Text) → ¬ (In n seen) → st.status n ≡ none

behind_step-HasSeen :
    (seen : List Text) (s : PlanStep) (st : Search)
    → HasSeen seen st
    → HasSeen (s.name ∷ seen) (behind_step s st)
behind_step-HasSeen seen s st h = record {
  old = λ n i. elim (behind_step-status s st n) [
    | inl (_, m) ↦ m
    | inr (other, m) ↦ elim i [ inl e ↦ absurd (other (sym e)) | inr j ↦ m ∙ h.old n j ]
  ];
  new = λ n i. elim (behind_step-status s st n) [
    | inl (same, m) ↦ absurd (i (inl (sym same)))
    | inr (other, m) ↦ m ∙ h.new n (λ j. i (inr j))
  ];
}

visit_all-Ordered :
    (fuel : ℕ) (steps ss : List PlanStep) (seen : List Text) (st : Search)
    → Ordered seen ss
    → HasSeen seen st
    → ((n : Text) → In n seen → In n (names steps))
    → All (λ n. In n (names steps)) (names ss)
    → (st' : Search) × (visit_all (suc (suc fuel)) steps ss st ≡ ok st')
      × (st'.ordered ≡ st.ordered ++ ss)
unfolding visit_all
visit_all-Ordered fuel steps [] seen st o h k a = (st, refl, sym (append-nil st.ordered))
visit_all-Ordered fuel steps (s ∷ ss) seen st (needs, fresh, o) h k (i, a) =
    let (st', e, f) =
      visit_all-Ordered fuel steps ss (s.name ∷ seen) (behind_step s st) o
        (behind_step-HasSeen seen s st h)
        (λ n j. elim j [ inl same ↦ subst (λ q. In q (names steps)) (sym same) i | inr j ↦ k n j ])
        a in
    (
      st',
      ap (λ r. r >>= visit_all (suc (suc fuel)) steps ss)
            (visit-ready fuel steps s [] st (h.new s.name fresh)
              (each (λ n j. h.old n j) s.needs needs) (each k s.needs needs))
          ∙ e,
      f ∙ ap (λ l. l ++ ss) (behind_step-ordered s st) ∙ append_assoc st.ordered (s ∷ []) ss,
    )
  where
    each :
        {P : Text → Type 0}
        → ((n : Text) → In n seen → P n)
        → (ns : List Text) → All (λ n. In n seen) ns
        → All P ns
    each f [] h = tt
    each f (n ∷ ns) (p, h) = (f n p, each f ns h)

self_names : (ns : List Text) → All (λ n. In n ns) ns
self_names ns = In→All (λ n. In n ns) ns (λ n h. h)

Ordered-known :
    (seen ns : List Text) (ss : List PlanStep)
    → Ordered seen ss
    → ((n : Text) → In n seen → In n ns)
    → ((n : Text) → In n (names ss) → In n ns)
    → All (λ s. All (λ n. In n ns) s.needs) ss
Ordered-known seen ns [] o f g = tt
Ordered-known seen ns (s ∷ ss) (needs, _, o) f g = (
  each s.needs needs,
  Ordered-known (s.name ∷ seen) ns ss o (λ n i. elim i [ inl e ↦ g n (inl e) | inr j ↦ f n j ])
      (λ n i. g n (inr i)),
)
  where
    each : (ms : List Text) → All (λ n. In n seen) ms → All (λ n. In n ns) ms
    each [] h = tt
    each (m ∷ ms) (p, h) = (f m p, each ms h)

topo_sort-Ordered :
    (steps : List PlanStep) → Ordered [] steps → topo_sort (record { steps = steps }) ≡ ok steps
unfolding topo_sort
topo_sort-Ordered [] o = refl
topo_sort-Ordered (s ∷ ss) o =
    let steps = s ∷ ss in
    let (st, e, f) =
      visit_all-Ordered (length ss) steps steps [] empty_search o
        (record { old = λ n h. absurd h; new = λ n h. refl }) (λ n h. absurd h)
        (self_names (names steps)) in
    let k : check_steps steps steps ≡ ok tt =
      check_steps-known steps steps
        (Ordered-known [] (names steps) steps o (λ n h. absurd h) (λ n h. h)) in
    ap
      (λ r. r >>= λ _.
        visit_all (suc (length steps)) steps steps empty_search >>= λ last. ok last.ordered)
      k
    ∙ ap (λ r. r >>= λ last. ok last.ordered) e
    ∙ ap ok f

-- Whatever a pipeline function calls, the plan that its builder holds is accepted by `topoSort`,
-- and comes back in the order in which the steps were declared.
pub topo_sort-Built :
    (steps : List PlanStep) → Built steps → topo_sort (record { steps = steps }) ≡ ok steps
topo_sort-Built steps b = topo_sort-Ordered steps (Built-Ordered steps b)
