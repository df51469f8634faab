-- ===== src/Ci/Plan/Waves/Pushing.antt =====
-- One step of `planWaves`: its level, and what pushing it to a wave changes.
use gitflare.Prelude.{
  ℕ, zero, suc, ◌+◌, ◌≤◌, ◌<◌, max, ◌≡◌, ◌≢◌, refl, ap, sym, subst, ◌∙◌, ◌⊎◌, inl, inr, Option,
  some, List, [], ◌∷◌, ◌++◌, length, Text, All, In, In-append, In-append_left, In-append_right,
  arith, Bool-cases, ◌==◌,
}
use gitflare.Ci.Plan.{PlanStep, level_behind, level_from, push_wave}
use gitflare.Ci.Plan.Sorted.{names, names-append}

-- The steps of wave `i`; none behind the last one.
abbrev pub wave : ℕ → List (List PlanStep) → List PlanStep
wave i [] = []
wave zero (w ∷ ws) = w
wave (suc i) (w ∷ ws) = wave i ws

wave-push_same :
    (l : ℕ) (s : PlanStep) (ws : List (List PlanStep))
    → wave l (push_wave l s ws) ≡ wave l ws ++ s ∷ []
unfolding push_wave
wave-push_same zero s [] = refl
wave-push_same (suc l) s [] = wave-push_same l s []
wave-push_same zero s (w ∷ ws) = refl
wave-push_same (suc l) s (w ∷ ws) = wave-push_same l s ws

wave-push_other :
    (l i : ℕ) (s : PlanStep) (ws : List (List PlanStep))
    → l ≢ i
    → wave i (push_wave l s ws) ≡ wave i ws
unfolding push_wave
wave-push_other zero zero s [] h = absurd (h refl)
wave-push_other zero (suc i) s [] h = refl
wave-push_other (suc l) zero s [] h = refl
wave-push_other (suc l) (suc i) s [] h = wave-push_other l i s [] (λ e. h (ap suc e))
wave-push_other zero zero s (w ∷ ws) h = absurd (h refl)
wave-push_other zero (suc i) s (w ∷ ws) h = refl
wave-push_other (suc l) zero s (w ∷ ws) h = refl
wave-push_other (suc l) (suc i) s (w ∷ ws) h = wave-push_other l i s ws (λ e. h (ap suc e))

-- What a wave holds after a push: what it held, and the new step in its own wave.
pub wave-push→ :
    (l i : ℕ) (s t : PlanStep) (ws : List (List PlanStep))
    → In t (wave i (push_wave l s ws))
    → In t (wave i ws) ⊎ ((t ≡ s) × (l ≡ i))
wave-push→ l i s t ws h = elim (Bool-cases (l == i)) [
  | inr ne ↦ inl (subst (In t) (wave-push_other l i s ws (ground arith)) h)
  | inl eq ↦
      let same : l ≡ i = ground arith in
      let k : In t (wave l ws ++ s ∷ []) =
        subst (In t) (wave-push_same l s ws)
          (subst (λ j. In t (wave j (push_wave l s ws))) (sym same) h) in
      elim (In-append t (wave l ws) (s ∷ []) k) [
        | inl a ↦ inl (subst (λ j. In t (wave j ws)) same a)
        | inr b ↦ elim b [ inl e ↦ inr (e, same) | inr f ↦ absurd f ]
      ]
]

pub wave_keeps :
    (l i : ℕ) (s : PlanStep) (n : Text) (ws : List (List PlanStep))
    → In n (names (wave i ws))
    → In n (names (wave i (push_wave l s ws)))
wave_keeps l i s n ws h = elim (Bool-cases (l == i)) [
  | inr ne ↦ subst (λ w. In n (names w)) (sym (wave-push_other l i s ws (ground arith))) h
  | inl eq ↦
      let same : l ≡ i = ground arith in
      let k : In n (names (wave l ws ++ s ∷ [])) =
        subst (In n) (sym (names-append (wave l ws) (s ∷ []))) (
          In-append_left n (names (wave l ws)) (s.name ∷ [])
            (subst (λ j. In n (names (wave j ws))) (sym same) h)) in
      subst (λ j. In n (names (wave j (push_wave l s ws)))) same
        (subst (λ w. In n (names w)) (sym (wave-push_same l s ws)) k)
]

pub wave_new :
    (l : ℕ) (s : PlanStep) (ws : List (List PlanStep))
    → In s.name (names (wave l (push_wave l s ws)))
wave_new l s ws =
    subst (λ w. In s.name (names w)) (sym (wave-push_same l s ws))
      (subst (In s.name) (sym (names-append (wave l ws) (s ∷ [])))
        (In-append_right s.name (names (wave l ws)) (s.name ∷ []) (inl refl)))

level_from_ge : (depth : Text → Option ℕ) (acc : ℕ) (ns : List Text) → acc ≤ level_from depth acc ns
unfolding level_from
level_from_ge depth acc [] = omega arith
level_from_ge depth acc (n ∷ ns) =
    omega (arith, level_from_ge depth (max acc (level_behind (depth n))) ns)

-- The level lies above the depth of each need.
pub level_from_above :
    (depth : Text → Option ℕ) (acc : ℕ) (ns : List Text) (n : Text) (l : ℕ)
    → In n ns
    → depth n ≡ some l
    → l < level_from depth acc ns
unfolding level_from
level_from_above depth acc [] n l h e = absurd h
level_from_above depth acc (m ∷ ns) n l (inl same) e =
    let f : depth m ≡ some l = ap depth (sym same) ∙ e in
    let g : level_behind (depth m) ≡ l + 1 = ap level_behind f in
    omega (arith, level_from_ge depth (max acc (level_behind (depth m))) ns, g)
level_from_above depth acc (m ∷ ns) n l (inr h) e =
    level_from_above depth (max acc (level_behind (depth m))) ns n l h e

-- The level is at most `b` if the depth of each need is known and below `b`.
pub level_from_le :
    (depth : Text → Option ℕ) (acc b : ℕ) (ns : List Text)
    → acc ≤ b
    → All (λ n. (l : ℕ) × (depth n ≡ some l) × (l < b)) ns
    → level_from depth acc ns ≤ b
unfolding level_from
level_from_le depth acc b [] h k = h
level_from_le depth acc b (n ∷ ns) h ((l, e, p), k) =
    let g : level_behind (depth n) ≡ l + 1 = ap level_behind e in
    level_from_le depth (max acc (level_behind (depth n))) b ns (omega (arith, g)) k

-- A wave in the array that holds a name is one of the array's places.
pub wave-bound :
    (i : ℕ) (n : Text) (ws : List (List PlanStep)) → In n (names (wave i ws)) → i < length ws
wave-bound i n [] h = absurd h
wave-bound zero n (w ∷ ws) h = omega arith
wave-bound (suc i) n (w ∷ ws) h = omega (arith, wave-bound i n ws h)

pub push_wave-full :
    (l : ℕ) (s : PlanStep) (ws : List (List PlanStep))
    → l ≤ length ws
    → All (λ w. w ≢ []) ws
    → All (λ w. w ≢ []) (push_wave l s ws)
unfolding push_wave
push_wave-full zero s [] h a = (λ e. absurd (cc), tt)
push_wave-full (suc l) s [] h a = absurd (omega arith)
push_wave-full zero s (w ∷ ws) h (p, a) = (not_empty w s, a)
  where
    not_empty : (w : List PlanStep) (s : PlanStep) → w ++ s ∷ [] ≢ []
    not_empty [] s e = cc
    not_empty (x ∷ w) s e = cc
push_wave-full (suc l) s (w ∷ ws) h (p, a) = (p, push_wave-full l s ws (omega arith) a)
