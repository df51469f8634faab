-- ===== src/Ci/Plan/Total.antt =====
-- Each visit returns, or fails in a way that the plan explains.
use gitflare.Prelude.{
  ℕ, zero, suc, ◌≤◌, ◌<◌, ◌≡◌, ◌≢◌, refl, sym, subst, ◌∙◌, ◌⊎◌, inl, inr, Option, none, some, List,
  [], ◌∷◌, ◌++◌, length, Text, All, In, arith, Option-cases,
}
use gitflare.Ci.Plan.{
  PlanStep, Result, ok, err, stuck, ◌>>=◌, Status, visiting, Search, mark, by_name, visit_needs,
  visit, visit_all, finish_step,
}
use gitflare.Ci.Plan.Sorted.{names}
use gitflare.Ci.Plan.Marks.{IsSearch, Extends, by_name→, mark_cases}
use gitflare.Ci.Plan.Invariant.{Visited, Correct, visit-Visited, Status-cases, begin-IsSearch}
use gitflare.Ci.Plan.Unseen.{unseen, unseen_le, unseen-mark, unseen_le_length, In-names}

-- A result that is no failure, or one for which `Failure` accounts.
abbrev pub Returns : {A : Type 0} → Type 0 → Result A → Type 0
Returns Failure (ok a) = Unit
Returns Failure (err e) = Failure
Returns Failure stuck = ⊥

module _ (Failure : Type 0) (steps : List PlanStep) (rank : Text → ℕ)
    (known : (s : PlanStep) (need : Text)
      → In s steps
      → In need s.needs
      → by_name steps need ≡ none
      → Failure)
    (lower : (s : PlanStep) (need : Text)
      → In s steps
      → In need s.needs
      → (rank need < rank s.name) ⊎ Failure) where
  -- Steps that are half visited lie above a name.
  abbrev Below : Text → Search → Type 0
  Below n st = (m : Text) → st.status m ≡ some visiting → (rank n < rank m) ⊎ Failure

  abbrev Total : ℕ → (PlanStep → List Text → Search → Result Search) → Type 0
  Total bound go =
      (s : PlanStep) (trail : List Text) (st : Search)
      → In s steps
      → IsSearch steps st
      → unseen st.status (names steps) < bound
      → Below s.name st
      → Returns Failure (go s trail st)

  bind-Returns :
      (s : PlanStep) (st : Search) (r : Result Search) (k : Search → Result Search)
      → Visited steps s st r
      → Returns Failure r
      → ((st' : Search) → IsSearch steps st' → Extends st st' → Returns Failure (k st'))
      → Returns Failure (r >>= k)
  bind-Returns s st (ok st') k (v, e, d) h f = f st' v e
  bind-Returns s st (err x) k v h f = h
  bind-Returns s st stuck k v h f = absurd h

  visit_needs-Returns :
      (bound : ℕ) (go : PlanStep → List Text → Search → Result Search) (trail needs : List Text)
      (st : Search)
      → Correct steps go
      → Total bound go
      → IsSearch steps st
      → unseen st.status (names steps) < bound
      → All (λ n. Below n st) needs
      → ((n : Text) → In n needs → by_name steps n ≡ none → Failure)
      → Returns Failure (visit_needs go steps trail needs st)
  unfolding visit_needs
  visit_needs-Returns bound go trail [] st c t v u b k = tt
  visit_needs-Returns bound go trail (need ∷ needs) st c t v u (b, bs) k =
      elim (Option-cases (by_name steps need)) [
        | inl e ↦ rw (e, visit_needs, Returns) (k need (inl refl) e)
        | inr (s, e) ↦
            let (same, inside) = by_name→ steps need s e in
            rw (e, visit_needs)
              (bind-Returns s st (go s trail st) (visit_needs go steps trail needs)
                (c s trail st inside v)
                (t s trail st inside v u (subst (λ n. Below n st) (sym same) b))
                (λ st' v' x.
                  visit_needs-Returns bound go trail needs st' c t v'
                    (lt_of_le (unseen_le st.status st'.status (names steps) x.keeps) u)
                    (weaken st' x needs bs) (λ n i. k n (inr i))))
      ]
    where
      lt_of_le : {a b c : ℕ} → a ≤ b → b < c → a < c
      lt_of_le p q = omega arith

      weaken :
          (st' : Search)
          → Extends st st'
          → (ns : List Text) → All (λ n. Below n st) ns
          → All (λ n. Below n st') ns
      weaken st' x [] h = tt
      weaken st' x (n ∷ ns) (h, hs) = (λ m e. h m (x.settled m e), weaken st' x ns hs)

  begin-Below :
      (s : PlanStep) (st : Search)
      → In s steps
      → Below s.name st
      → (ns : List Text) → ((n : Text) → In n ns → In n s.needs)
      → All (λ n. Below n (record st { status = mark s.name visiting st.status })) ns
  begin-Below s st inside b [] sub = tt
  begin-Below s st inside b (n ∷ ns) sub = (
    λ m e. elim (mark_cases s.name visiting st.status m) [
      | inl (same, k) ↦
          subst (λ q. (rank n < rank q) ⊎ Failure) same (lower s n inside (sub n (inl refl)))
      | inr (other, k) ↦ both (lower s n inside (sub n (inl refl))) (b m (sym k ∙ e))
    ],
    begin-Below s st inside b ns (λ q i. sub q (inr i)),
  )
    where
      both : {a b c : ℕ} → (a < b) ⊎ Failure → (b < c) ⊎ Failure → (a < c) ⊎ Failure
      both (inl p) (inl q) = inl (omega arith)
      both (inl p) (inr f) = inr f
      both (inr f) q = inr f

  self_below : (n : Text) → (rank n < rank n) ⊎ Failure → Failure
  self_below n (inl p) = absurd (omega arith)
  self_below n (inr f) = f

  finish-Returns :
      (s : PlanStep) (r : Result Search)
      → Returns Failure r
      → Returns Failure (r >>= λ after. ok (finish_step s after))
  finish-Returns s (ok st) h = tt
  finish-Returns s (err x) h = h
  finish-Returns s stuck h = h

  visit-Returns : (fuel : ℕ) → Total fuel (visit fuel steps)
  unfolding visit
  visit-Returns zero s trail st inside v u b = absurd (omega arith)
  visit-Returns (suc fuel) s trail st inside v u b = elim (Status-cases (st.status s.name)) [
    | inl e ↦
        rw (e, visit, Returns)
          (finish-Returns s _ (
            visit_needs-Returns fuel (visit fuel steps) (trail ++ s.name ∷ []) s.needs
              (record st { status = mark s.name visiting st.status }) (visit-Visited fuel steps)
              (visit-Returns fuel) (begin-IsSearch steps s st e v)
              (fewer
                (unseen-mark st.status s.name visiting (names steps) e (In-names s steps inside)) u)
              (begin-Below s st inside b s.needs (λ n i. i)) (λ n i. known s n inside i)))
    | inr seen ↦ elim seen [
      | inl e ↦ rw (e, visit, Returns) (self_below s.name (b s.name e))
      | inr e ↦ rw (e, visit, Returns) tt
    ]
  ]
    where
      fewer : {a b c : ℕ} → a < b → b < suc c → a < c
      fewer p q = omega arith

  pub visit_all-Returns :
      (fuel : ℕ) (ss : List PlanStep) (st : Search)
      → All (λ s. In s steps) ss
      → IsSearch steps st
      → length steps < fuel
      → ((m : Text) → st.status m ≢ some visiting)
      → Returns Failure (visit_all fuel steps ss st)
  unfolding visit_all
  visit_all-Returns fuel [] st h v u b = tt
  visit_all-Returns fuel (s ∷ ss) st (i, h) v u b =
      bind-Returns s st (visit fuel steps s [] st) (visit_all fuel steps ss)
        (visit-Visited fuel steps s [] st i v)
        (visit-Returns fuel s [] st i v (few st.status steps u) (λ m e. absurd (b m e)))
        (λ st' v' x. visit_all-Returns fuel ss st' h v' u (λ m e. b m (x.settled m e)))
    where
      few :
          (f : Text → Option Status) (ps : List PlanStep)
          → length ps < fuel
          → unseen f (names ps) < fuel
      few f ps q = omega (arith, unseen_le_length f ps)
