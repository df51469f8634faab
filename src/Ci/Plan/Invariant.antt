-- ===== src/Ci/Plan/Invariant.antt =====
-- What the depth-first search of `topoSort` keeps true.
use gitflare.Prelude.{
  ℕ, zero, suc, ◌≡◌, refl, sym, subst, ◌∙◌, ◌⊎◌, inl, inr, Option, none, some, List, [], ◌∷◌, ◌++◌,
  Text, All, All-append, In, Option-cases,
}
use gitflare.Ci.Plan.{
  PlanStep, Result, ok, err, stuck, ◌>>=◌, by_name, Status, visiting, finished, Search, mark,
  visit_needs, finish_step, visit, visit_all,
}
use gitflare.Ci.Plan.Sorted.{names, All-map, Ordered-snoc}
use gitflare.Ci.Plan.Marks.{
  by_name→, mark_self, mark_cases, mark_other, IsSearch, Extends, Extends-refl, Extends-trans,
}

-- What a call of `visit` on `s` has done when it returns `r`.
abbrev pub Visited : List PlanStep → PlanStep → Search → Result Search → Type 0
Visited steps s st (ok st') =
    IsSearch steps st' × Extends st st' × (st'.status s.name ≡ some finished)
Visited steps s st (err e) = Unit
Visited steps s st stuck = Unit

abbrev pub VisitedAll : List PlanStep → List Text → Search → Result Search → Type 0
VisitedAll steps needs st (ok st') =
    IsSearch steps st' × Extends st st' × All (λ n. st'.status n ≡ some finished) needs
VisitedAll steps needs st (err e) = Unit
VisitedAll steps needs st stuck = Unit

VisitedAll-cons :
    (steps : List PlanStep) (need : Text) (needs : List Text) (st st' : Search) (r : Result Search)
    → Extends st st'
    → st'.status need ≡ some finished
    → VisitedAll steps needs st' r
    → VisitedAll steps (need ∷ needs) st r
VisitedAll-cons steps need needs st st' (ok last) e d (v, f, a) =
    (v, Extends-trans e f, (f.keeps need finished d, a))
VisitedAll-cons steps need needs st st' (err x) e d h = tt
VisitedAll-cons steps need needs st st' stuck e d h = tt

bind-VisitedAll :
    (steps : List PlanStep) (s : PlanStep) (need : Text) (needs : List Text) (st : Search)
    (r : Result Search) (k : Search → Result Search)
    → s.name ≡ need
    → Visited steps s st r
    → ((st' : Search) → IsSearch steps st' → VisitedAll steps needs st' (k st'))
    → VisitedAll steps (need ∷ needs) st (r >>= k)
bind-VisitedAll steps s need needs st (ok st') k e (v, f, d) h =
    VisitedAll-cons steps need needs st st' (k st') f
      (subst (λ n. st'.status n ≡ some finished) e d) (h st' v)
bind-VisitedAll steps s need needs st (err x) k e v h = tt
bind-VisitedAll steps s need needs st stuck k e v h = tt

-- A function that stands for the recursive call, and is right about every step of the plan.
abbrev pub Correct : List PlanStep → (PlanStep → List Text → Search → Result Search) → Type 0
Correct steps go =
    (s : PlanStep) (trail : List Text) (st : Search)
    → In s steps
    → IsSearch steps st
    → Visited steps s st (go s trail st)

visit_needs-VisitedAll :
    (steps : List PlanStep) (go : PlanStep → List Text → Search → Result Search)
    (trail needs : List Text) (st : Search)
    → Correct steps go
    → IsSearch steps st
    → VisitedAll steps needs st (visit_needs go steps trail needs st)
unfolding visit_needs
visit_needs-VisitedAll steps go trail [] st c v = (v, Extends-refl st, tt)
visit_needs-VisitedAll steps go trail (need ∷ needs) st c v =
    elim (Option-cases (by_name steps need)) [
      | inl e ↦ rw (e, visit_needs, VisitedAll) tt
      | inr (s, e) ↦
          let (same, inside) = by_name→ steps need s e in
          rw (e, visit_needs)
            (bind-VisitedAll steps s need needs st (go s trail st)
              (visit_needs go steps trail needs) same (c s trail st inside v)
              (λ st' v'. visit_needs-VisitedAll steps go trail needs st' c v'))
    ]

-- Marking a new step as begun.
pub begin-IsSearch :
    (steps : List PlanStep) (s : PlanStep) (st : Search)
    → st.status s.name ≡ none
    → IsSearch steps st
    → IsSearch steps (record st { status = mark s.name visiting st.status })
begin-IsSearch steps s st e v = record {
  finished_in = λ n h. elim (mark_cases s.name visiting st.status n) [
    | inl (same, m) ↦ absurd (cc)
    | inr (other, m) ↦ v.finished_in n (sym m ∙ h)
  ];
  in_finished = λ n h. elim (mark_cases s.name visiting st.status n) [
    | inl (same, m) ↦
        let a : st.status n ≡ some finished = v.in_finished n h in
        let b : st.status n ≡ none = subst (λ q. st.status q ≡ none) same e in absurd (cc)
    | inr (other, m) ↦ m ∙ v.in_finished n h
  ];
  sorted = v.sorted;
  from_plan = v.from_plan;
}

not_both :
    (s : PlanStep) (st : Search)
    → st.status s.name ≡ some visiting
    → st.status s.name ≡ some finished
    → ⊥
not_both s st e f = cc

names_snoc→ :
    (ss : List PlanStep) (s : PlanStep) (n : Text)
    → In n (names (ss ++ s ∷ []))
    → In n (names ss) ⊎ (n ≡ s.name)
names_snoc→ [] s n (inl e) = inr e
names_snoc→ [] s n (inr h) = absurd h
names_snoc→ (t ∷ ss) s n (inl e) = inl (inl e)
names_snoc→ (t ∷ ss) s n (inr h) = elim (names_snoc→ ss s n h) [
  | inl k ↦ inl (inr k)
  | inr k ↦ inr k
]

names_snoc_old :
    (ss : List PlanStep) (s : PlanStep) (n : Text) → In n (names ss) → In n (names (ss ++ s ∷ []))
names_snoc_old [] s n h = absurd h
names_snoc_old (t ∷ ss) s n (inl e) = inl e
names_snoc_old (t ∷ ss) s n (inr h) = inr (names_snoc_old ss s n h)

names_snoc_new : (ss : List PlanStep) (s : PlanStep) → In s.name (names (ss ++ s ∷ []))
names_snoc_new [] s = inl refl
names_snoc_new (t ∷ ss) s = inr (names_snoc_new ss s)

-- Finishing a step behind its needs.
finish-IsSearch :
    (steps : List PlanStep) (s : PlanStep) (st : Search)
    → In s steps
    → st.status s.name ≡ some visiting
    → All (λ n. st.status n ≡ some finished) s.needs
    → IsSearch steps st
    → IsSearch steps (finish_step s st)
unfolding finish_step
finish-IsSearch steps s st inside e done v = record {
  finished_in = λ n h. elim (mark_cases s.name finished st.status n) [
    | inl (same, m) ↦
        subst (λ q. In q (names (st.ordered ++ s ∷ []))) same (names_snoc_new st.ordered s)
    | inr (other, m) ↦ names_snoc_old st.ordered s n (v.finished_in n (sym m ∙ h))
  ];
  in_finished = λ n h. elim (mark_cases s.name finished st.status n) [
    | inl (same, m) ↦ m
    | inr (other, m) ↦ elim (names_snoc→ st.ordered s n h) [
      | inl i ↦ m ∙ v.in_finished n i
      | inr i ↦ absurd (other (sym i))
    ]
  ];
  sorted =
      Ordered-snoc [] st.ordered s v.sorted (All-map (λ n h. inr (v.finished_in n h)) s.needs done)
        (λ k. elim k [ inl i ↦ i | inr i ↦ not_both s st e (v.in_finished s.name i) ]);
  from_plan = All-append (λ t. In t steps) st.ordered (s ∷ []) v.from_plan (inside, tt);
}

-- What was marked before a new step was begun and finished keeps its mark.
around-Extends :
    (s : PlanStep) (st last : Search)
    → st.status s.name ≡ none
    → Extends (record st { status = mark s.name visiting st.status }) last
    → Extends st (finish_step s last)
unfolding finish_step
around-Extends s st last e f = record {
  keeps = λ n w h. elim (mark_cases s.name finished last.status n) [
    | inl (same, m) ↦
        let b : st.status n ≡ none = subst (λ q. st.status q ≡ none) same e in absurd (cc)
    | inr (other, m) ↦ m ∙ f.keeps n w (mark_other s.name visiting st.status n other ∙ h)
  ];
  settled = λ n h. elim (mark_cases s.name finished last.status n) [
    | inl (same, m) ↦ absurd (cc)
    | inr (other, m) ↦ sym (mark_other s.name visiting st.status n other) ∙ f.settled n (sym m ∙ h)
  ];
}

finish_status : (s : PlanStep) (st : Search) → (finish_step s st).status s.name ≡ some finished
unfolding finish_step
finish_status s st = mark_self s.name finished st.status

-- `visit` behind its test of the status, when the step is new.
visit-new :
    (steps : List PlanStep) (s : PlanStep) (st : Search) (r : Result Search)
    → In s steps
    → st.status s.name ≡ none
    → VisitedAll steps s.needs (record st { status = mark s.name visiting st.status }) r
    → Visited steps s st (r >>= λ after. ok (finish_step s after))
visit-new steps s st (err x) inside e h = tt
visit-new steps s st stuck inside e h = tt
visit-new steps s st (ok last) inside e (v, f, done) = (
  finish-IsSearch steps s last inside
      (f.keeps s.name visiting (mark_self s.name visiting st.status)) done v,
  around-Extends s st last e f,
  finish_status s last,
)

pub Status-cases : (o : Option Status) → (o ≡ none) ⊎ (o ≡ some visiting) ⊎ (o ≡ some finished)
Status-cases none = inl refl
Status-cases (some visiting) = inr (inl refl)
Status-cases (some finished) = inr (inr refl)

-- A visit that returns leaves a proper state that extends the one before, the step finished.
pub visit-Visited : (fuel : ℕ) (steps : List PlanStep) → Correct steps (visit fuel steps)
unfolding visit
visit-Visited zero steps s trail st inside v = tt
visit-Visited (suc fuel) steps s trail st inside v = elim (Status-cases (st.status s.name)) [
  | inl e ↦
      rw (e, visit, Visited)
        (visit-new steps s st _ inside e (
          visit_needs-VisitedAll steps (visit fuel steps) (trail ++ s.name ∷ []) s.needs
            (record st { status = mark s.name visiting st.status }) (visit-Visited fuel steps)
            (begin-IsSearch steps s st e v)))
  | inr seen ↦ elim seen [
    | inl e ↦ rw (e, visit, Visited) tt
    | inr e ↦ rw (e, visit, Visited) (v, Extends-refl st, e)
  ]
]

pub visit_all-VisitedAll :
    (fuel : ℕ) (steps ss : List PlanStep) (st : Search)
    → All (λ s. In s steps) ss
    → IsSearch steps st
    → VisitedAll steps (names ss) st (visit_all fuel steps ss st)
unfolding visit_all
visit_all-VisitedAll fuel steps [] st h v = (v, Extends-refl st, tt)
visit_all-VisitedAll fuel steps (s ∷ ss) st (i, h) v =
    bind-VisitedAll steps s s.name (names ss) st (visit fuel steps s [] st)
      (visit_all fuel steps ss) refl (visit-Visited fuel steps s [] st i v)
      (λ st' v'. visit_all-VisitedAll fuel steps ss st' h v')
