-- ===== src/Ci/Plan/Marks.antt =====
-- The marks of the search and its state between two visits.
use gitflare.Prelude.{
  ◌≡◌, ◌≢◌, ap, sym, subst, ◌∙◌, ◌⊎◌, inl, inr, Option, some, List, [], ◌∷◌, text_eq, text_eq_iff,
  Text, All, text_eq_refl, In, arith, Bool-cases, Option-cases,
}
use gitflare.Ci.Plan.{PlanStep, by_name, Status, visiting, finished, Search, mark}
use gitflare.Ci.Plan.Sorted.{names, Ordered}

pub by_name→ :
    (steps : List PlanStep) (n : Text) (s : PlanStep)
    → by_name steps n ≡ some s
    → (s.name ≡ n) × In s steps
unfolding by_name
by_name→ [] n s e = absurd (cc)
by_name→ (t ∷ ts) n s e = elim (Option-cases (by_name ts n)) [
  | inr (u, f) ↦
      let (same, inside) = by_name→ ts n u f in
      let g : u ≡ s = ground arith in
      (ap (λ (q : PlanStep). q.name) (sym g) ∙ same, inr (subst (λ q. In q ts) g inside))
  | inl f ↦ elim (Bool-cases (text_eq t.name n)) [
    | inl k ↦
        let g : t ≡ s = ground arith in
        (ap (λ (q : PlanStep). q.name) (sym g) ∙ (text_eq_iff t.name n).0 k, inl (sym g))
    | inr k ↦ absurd (ground arith)
  ]
]

pub mark_self : (n : Text) (v : Status) (status : Text → Option Status) → mark n v status n ≡ some v
mark_self n v status = rw (text_eq_refl n)

pub mark_cases :
    (n : Text) (v : Status) (status : Text → Option Status) (m : Text)
    → ((n ≡ m) × (mark n v status m ≡ some v)) ⊎ ((n ≢ m) × (mark n v status m ≡ status m))
mark_cases n v status m = elim (Bool-cases (text_eq n m)) [
  | inl e ↦ inl ((text_eq_iff n m).0 e, rw e)
  | inr e ↦ inr (λ k. absurd (ground (arith, text_eq_iff n m)), rw e)
]

pub mark_other :
    (n : Text) (v : Status) (status : Text → Option Status) (m : Text)
    → n ≢ m
    → mark n v status m ≡ status m
mark_other n v status m h = elim (mark_cases n v status m) [
  | inl (same, e) ↦ absurd (h same)
  | inr (other, e) ↦ e
]

-- The state of the search between two visits.
pub record IsSearch (steps : List PlanStep) (st : Search) : Type 0 where
  pub finished_in : (n : Text) → st.status n ≡ some finished → In n (names st.ordered)
  pub in_finished : (n : Text) → In n (names st.ordered) → st.status n ≡ some finished
  pub sorted : Ordered [] st.ordered
  pub from_plan : All (λ s. In s steps) st.ordered

-- A later state: what was marked keeps its mark, and nothing is left half visited.
pub record Extends (st st' : Search) : Type 0 where
  pub keeps : (n : Text) (v : Status) → st.status n ≡ some v → st'.status n ≡ some v
  pub settled : (n : Text) → st'.status n ≡ some visiting → st.status n ≡ some visiting

pub Extends-refl : (st : Search) → Extends st st
Extends-refl st = record { keeps = λ n v h. h; settled = λ n h. h }

pub Extends-trans : {a b c : Search} → Extends a b → Extends b c → Extends a c
Extends-trans e f = record {
  keeps = λ n v h. f.keeps n v (e.keeps n v h);
  settled = λ n h. e.settled n (f.settled n h);
}
