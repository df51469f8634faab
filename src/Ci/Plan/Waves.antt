-- ===== src/Ci/Plan/Waves.antt =====
-- The waves of `planWaves`: each step's needs lie in earlier waves, and no wave is empty.
mod Pushing
pub use Pushing.{wave}
use Pushing.{
  wave-push→, wave_keeps, wave_new, level_from_above, level_from_le, wave-bound, push_wave-full,
}
use gitflare.Prelude.{
  ℕ, zero, suc, ◌+◌, ◌≤◌, ◌<◌, ◌≡◌, ◌≢◌, refl, ap, sym, subst, ◌∙◌, ◌⊎◌, inl, inr, Bool, true,
  false, Option, none, some, List, [], ◌∷◌, ◌++◌, length, Text, text_eq, text_eq_refl, text_eq_iff,
  All, In, All→In, In→All, arith, Bool-cases, Option-cases, if◌then◌else◌,
}
use gitflare.Ci.Plan.{
  PlanStep, Plan, Result, ok, err, stuck, ◌>>=◌, topo_sort, Layering, level_from, push_wave,
  set_depth, place, place_all, no_layers, plan_waves,
}
use gitflare.Ci.Plan.Sorted.{names, Ordered}
use gitflare.Ci.Plan.Order.{handed_on, topo_sort-IsSorting, IsSorting}

set_depth_cases :
    (n : Text) (l : ℕ) (depth : Text → Option ℕ) (m : Text)
    → ((n ≡ m) × (set_depth n l depth m ≡ some l)) ⊎ ((n ≢ m) × (set_depth n l depth m ≡ depth m))
set_depth_cases n l depth m = elim (Bool-cases (text_eq n m)) [
  | inl e ↦ inl ((text_eq_iff n m).0 e, rw e)
  | inr e ↦ inr (λ k. absurd (ground (arith, text_eq_iff n m)), rw e)
]

-- The names of `needs` lie in waves before wave `i`.
abbrev pub Earlier : List (List PlanStep) → ℕ → List Text → Type 0
Earlier ws i needs = All (λ n. (j : ℕ) × (j < i) × In n (names (wave j ws))) needs

-- The layers of the steps `seen`, by name.
record IsLayering (steps : List PlanStep) (seen : List Text) (la : Layering) : Type 0 where
  placed : (n : Text) → In n seen → (l : ℕ) × (la.depth n ≡ some l) × In n (names (wave l la.waves))
  earlier : (i : ℕ) (t : PlanStep) → In t (wave i la.waves) → Earlier la.waves i t.needs
  depth_of :
      (i : ℕ) (t : PlanStep) → In t (wave i la.waves) → In t.name seen × (la.depth t.name ≡ some i)
  from_plan : (i : ℕ) (t : PlanStep) → In t (wave i la.waves) → In t steps
  full : All (λ w. w ≢ []) la.waves

Earlier-push :
    (l : ℕ) (s : PlanStep) (ws : List (List PlanStep)) (i : ℕ) (needs : List Text)
    → Earlier ws i needs
    → Earlier (push_wave l s ws) i needs
Earlier-push l s ws i [] h = tt
Earlier-push l s ws i (n ∷ ns) ((j, p, k), h) =
    ((j, p, wave_keeps l j s n ws k), Earlier-push l s ws i ns h)

module _ (steps : List PlanStep) (seen : List Text) (la : Layering)
    (v : IsLayering steps seen la) where
  bounded :
      (ns : List Text)
      → All (λ n. In n seen) ns
      → All (λ n. (l : ℕ) × (la.depth n ≡ some l) × (l < length la.waves)) ns
  bounded [] h = tt
  bounded (n ∷ ns) (i, h) =
      let (l, e, k) = v.placed n i in ((l, e, wave-bound l n la.waves k), bounded ns h)

  new-Earlier :
      (s : PlanStep) (level : ℕ) (ns : List Text)
      → All (λ n. In n seen) ns
      → ((n : Text) (l : ℕ) → In n ns → la.depth n ≡ some l → l < level)
      → Earlier (push_wave level s la.waves) level ns
  new-Earlier s level [] h f = tt
  new-Earlier s level (n ∷ ns) (i, h) f =
      let (l, e, k) = v.placed n i in
      (
        (l, f n l (inl refl) e, wave_keeps level l s n la.waves k),
        new-Earlier s level ns h (λ m l j. f m l (inr j)),
      )

  place-IsLayering :
      (s : PlanStep)
      → In s steps
      → All (λ n. In n seen) s.needs
      → ¬ (In s.name seen)
      → IsLayering steps (s.name ∷ seen) (place la s)
  unfolding place
  place-IsLayering s inside needs fresh =
      let level = level_from la.depth 0 s.needs in
      record {
        placed = λ n i. elim (set_depth_cases s.name level la.depth n) [
          | inl (same, m) ↦ (
            level,
            m,
            subst (λ q. In q (names (wave level (push_wave level s la.waves)))) same
                (wave_new level s la.waves),
          )
          | inr (other, m) ↦ elim i [
            | inl e ↦ absurd (other (sym e))
            | inr j ↦ let (l, e, k) = v.placed n j in (l, m ∙ e, wave_keeps level l s n la.waves k)
          ]
        ];
        earlier = λ i t h. elim (wave-push→ level i s t la.waves h) [
          | inl old ↦ Earlier-push level s la.waves i t.needs (v.earlier i t old)
          | inr (new, same) ↦
              subst (λ (q : PlanStep). Earlier (push_wave level s la.waves) i q.needs) (sym new)
                (subst (λ j. Earlier (push_wave level s la.waves) j s.needs) same
                  (new-Earlier s level s.needs needs
                    (λ n l j e. level_from_above la.depth 0 s.needs n l j e)))
        ];
        depth_of = λ i t h. elim (wave-push→ level i s t la.waves h) [
          | inl old ↦
              let (a, b) = v.depth_of i t old in
              (
                inr a,
                elim (set_depth_cases s.name level la.depth t.name) [
                  | inl (same, m) ↦ absurd (fresh (subst (λ q. In q seen) (sym same) a))
                  | inr (other, m) ↦ m ∙ b
                ],
              )
          | inr (new, same) ↦
              let named : t.name ≡ s.name = ap (λ (q : PlanStep). q.name) new in
              (
                inl named,
                elim (set_depth_cases s.name level la.depth t.name) [
                  | inl (_, m) ↦ m ∙ ap some same
                  | inr (other, m) ↦ absurd (other (sym named))
                ],
              )
        ];
        from_plan = λ i t h. elim (wave-push→ level i s t la.waves h) [
          | inl old ↦ v.from_plan i t old
          | inr (new, same) ↦ subst (λ q. In q steps) (sym new) inside
        ];
        full =
            push_wave-full level s la.waves
              (level_from_le la.depth 0 (length la.waves) s.needs (omega arith)
                (bounded s.needs needs))
              v.full;
      }

no_layers-IsLayering : (steps : List PlanStep) → IsLayering steps [] no_layers
no_layers-IsLayering steps = record {
  placed = λ n h. absurd h;
  earlier = λ i t h. absurd h;
  depth_of = λ i t h. absurd h;
  from_plan = λ i t h. absurd h;
  full = tt;
}

place_all-IsLayering :
    (steps ss : List PlanStep) (seen : List Text) (la : Layering)
    → IsLayering steps seen la
    → Ordered seen ss
    → All (λ s. In s steps) ss
    → (last : List Text) × IsLayering steps last (place_all la ss)
      × ((n : Text) → In n seen ⊎ In n (names ss) → In n last)
unfolding place_all
place_all-IsLayering steps [] seen la v o h =
    (seen, v, λ n i. elim i [ inl k ↦ k | inr k ↦ absurd k ])
place_all-IsLayering steps (s ∷ ss) seen la v (needs, fresh, o) (inside, h) =
    let (last, w, f) =
      place_all-IsLayering steps ss (s.name ∷ seen) (place la s)
        (place-IsLayering steps seen la v s inside needs fresh) o h in
    (
      last,
      w,
      λ n i.
          f n (elim i [
            | inl k ↦ inl (inr k)
            | inr k ↦ elim k [ inl e ↦ inl (inl e) | inr j ↦ inr j ]
          ]),
    )

-- What the waves of a plan promise to the runner.
pub record IsSchedule (steps : List PlanStep) (waves : List (List PlanStep)) : Type 0 where
  pub earlier : (i : ℕ) (t : PlanStep) → In t (wave i waves) → Earlier waves i t.needs
  pub once :
      (i j : ℕ) (t u : PlanStep)
      → In t (wave i waves)
      → In u (wave j waves)
      → t.name ≡ u.name
      → i ≡ j
  pub from_plan : (i : ℕ) (t : PlanStep) → In t (wave i waves) → In t steps
  pub complete : All (λ s. (l : ℕ) × In s.name (names (wave l waves))) steps
  pub full : All (λ w. w ≢ []) waves

schedule :
    (steps : List PlanStep) (seen : List Text) (la : Layering)
    → IsLayering steps seen la
    → ((s : PlanStep) → In s steps → In s.name seen)
    → IsSchedule steps la.waves
schedule steps seen la v h = record {
  earlier = v.earlier;
  once = λ i j t u a b e.
      let (_, p) = v.depth_of i t a in
      let (_, q) = v.depth_of j u b in
      let r : la.depth u.name ≡ some i = subst (λ n. la.depth n ≡ some i) e p in
      ground (arith, q, r);
  from_plan = v.from_plan;
  complete =
      In→All (λ s. (l : ℕ) × In s.name (names (wave l la.waves))) steps
        (λ s i. let (l, _, k) = v.placed s.name (h s i) in (l, k));
  full = v.full;
}

plan_waves-eq :
    (plan : Plan)
    → plan_waves plan ≡ (topo_sort plan >>= λ ordered. ok (place_all no_layers ordered).waves)
unfolding plan_waves
plan_waves-eq plan = refl

-- When `planWaves` returns, everything that a step needs lies in earlier waves, so that a wave's
-- steps can run together; the name of each step of the plan stands in exactly one wave, the waves
-- hold steps of the plan only, and no wave is empty. Of several steps with one name, which a plan
-- from a builder does not have, this does not say which is held.
pub plan_waves-IsSchedule :
    (plan : Plan) (waves : List (List PlanStep))
    → plan_waves plan ≡ ok waves
    → IsSchedule plan.steps waves
plan_waves-IsSchedule plan waves e =
    let (ordered, g, f) = handed_on _ (topo_sort plan) (sym (plan_waves-eq plan) ∙ e) in
    let order = topo_sort-IsSorting plan ordered f in
    let (last, v, into) =
      place_all-IsLayering plan.steps ordered [] no_layers (no_layers-IsLayering plan.steps)
        order.sorted order.from_plan in
    let same : (place_all no_layers ordered).waves ≡ waves = cc in
    subst (IsSchedule plan.steps) same (
      schedule plan.steps last (place_all no_layers ordered) v (λ s h.
        into s.name (inr (All→In (λ t. In t.name (names ordered)) s plan.steps order.complete h))))

In-names :
    (n : Text) (ss : List PlanStep) → In n (names ss) → (s : PlanStep) × In s ss × (n ≡ s.name)
In-names n [] i = absurd i
In-names n (s ∷ ss) (inl e) = (s, inl refl, e)
In-names n (s ∷ ss) (inr i) = let (t, j, e) = In-names n ss i in (t, inr j, e)

-- When no two different steps of the plan share a name and `planWaves` returns, every step of the
-- plan lies in a wave, and no other wave holds a step of its name.
pub plan_waves_places :
    (plan : Plan) (waves : List (List PlanStep)) (s : PlanStep)
    → ((t u : PlanStep) → In t plan.steps → In u plan.steps → t.name ≡ u.name → t ≡ u)
    → plan_waves plan ≡ ok waves
    → In s plan.steps
    → (l : ℕ) × In s (wave l waves)
      × ((j : ℕ) (t : PlanStep) → In t (wave j waves) → t.name ≡ s.name → j ≡ l)
plan_waves_places plan waves s distinct e i =
    let v = plan_waves-IsSchedule plan waves e in
    let (l, k) =
      All→In (λ s. (l : ℕ) × In s.name (names (wave l waves))) s plan.steps v.complete i in
    let (t, j, same) = In-names s.name (wave l waves) k in
    let held : t ≡ s = distinct t s (v.from_plan l t j) i (sym same) in
    (l, subst (λ t. In t (wave l waves)) held j, λ m u h n. v.once m l u t h j (n ∙ same))
