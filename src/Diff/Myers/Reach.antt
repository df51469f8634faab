-- ===== src/Diff/Myers/Reach.antt =====
-- The furthest points of the search, without the array: `reach a b d t` is the point on the
-- diagonal of `t` deletions and `d - t` insertions, after `d` edits.
use gitflare.Prelude.{
  ℕ, zero, suc, ◌+◌, ◌-◌, ◌*◌, ◌≤◌, ◌<◌, ◌≡◌, refl, ap, ◌∙◌, Bool, false, ◌&&◌, ◌||◌, not, List,
  ltb, ◌==◌, length, Text, if◌then◌else◌, arith, Bool-cases, inl, inr, ◌⊎◌,
}
use gitflare.Diff.Myers.{follow, goes_on}
use gitflare.Diff.Myers.Diagonals.{IsFollowed, follow-IsFollowed, get_elem?-lt, Run}

-- Whether the step to `t` deletions of `d + 1` edits is an insertion, and where its diagonal starts.
abbrev pub is_insertion : (ℕ → ℕ × ℕ) → ℕ → ℕ → Bool
is_insertion before d t = t == 0 || (not (t == suc d) && ltb (before (t - 1)).0 (before t).0)

abbrev pub start_at : (ℕ → ℕ × ℕ) → ℕ → ℕ → ℕ
start_at before d t = if is_insertion before d t then (before t).0 else (before (t - 1)).0 + 1

unfoldable pub reach : List Text → List Text → ℕ → ℕ → ℕ × ℕ
reach a b zero t = follow (length a) a b 0 0
reach a b (suc d) t =
    let s = start_at (reach a b d) d t in follow (length a) a b s (s + suc d - 2 * t)

pred : (t : ℕ) → suc t - 1 ≡ t
pred t = omega arith

next : (t : ℕ) → 0 < t → suc (t - 1) ≡ t
next t h = omega arith

by_bound : (x n : ℕ) → (n < x → x ≤ n) → x ≤ n
by_bound x n h = elim (Bool-cases (ltb n x)) [ inl e ↦ h (ground arith) | inr e ↦ ground arith ]

at_most : (x n : ℕ) → n ≤ x → (n < x → ⊥) → x ≡ n
at_most x n h k = elim (Bool-cases (ltb n x)) [
  | inl e ↦ absurd (k (ground arith))
  | inr e ↦ ground arith
]

module _ (a b : List Text) where
  abbrev pub rx : ℕ → ℕ → ℕ
  rx d t = (reach a b d t).0

  abbrev Down : ℕ → ℕ → ℕ → Type 0
  Down d t s = (t ≤ d) × (s ≡ rx d t) × (0 < t → rx d (t - 1) + 1 ≤ rx d t)

  abbrev Right : ℕ → ℕ → ℕ → Type 0
  Right d t s = (0 < t) × (s ≡ rx d (t - 1) + 1) × (t ≤ d → rx d t ≤ rx d (t - 1))

  start_cases :
      (d t : ℕ)
      → t ≤ suc d
      → Down d t (start_at (reach a b d) d t) ⊎ Right d t (start_at (reach a b d) d t)
  start_cases d t h = elim (Bool-cases (is_insertion (reach a b d) d t)) [
    | inl e ↦ inl (ground arith, rw e refl, λ k. ground arith)
    | inr e ↦ inr (ground arith, rw e refl, λ k. ground arith)
  ]

  abbrev pub ry : ℕ → ℕ → ℕ
  ry d t = (reach a b d t).1

  -- How the point of `d + 1` edits comes about.
  pub record IsStep (d t : ℕ) : Type 0 where
    pub start : ℕ
    pub count : ℕ
    pub starts : start ≡ start_at (reach a b d) d t
    pub from : Down d t start ⊎ Right d t start
    pub x_eq : rx (suc d) t ≡ start + count
    pub y_eq : ry (suc d) t ≡ start + suc d - 2 * t + count
    pub run : Run a b start (start + suc d - 2 * t) count
    pub stops : goes_on a b (rx (suc d) t) (ry (suc d) t) ≡ false

  pub reach-IsStep : (d t : ℕ) → t ≤ suc d → IsStep d t
  unfolding reach
  reach-IsStep d t h =
      let s = start_at (reach a b d) d t in
      let f = follow-IsFollowed (length a) a b s (s + suc d - 2 * t) in
      record {
        start = s;
        count = f.count;
        starts = refl;
        from = start_cases d t h;
        x_eq = ap (λ p. p.0) f.ends;
        y_eq = ap (λ p. p.1) f.ends;
        run = f.run;
        stops = ap (λ (p : ℕ × ℕ). goes_on a b p.0 p.1) f.ends ∙ f.stops (omega arith);
      }

  pub reach_zero : (t : ℕ) → IsFollowed a b 0 0 (length a)
  reach_zero t = follow-IsFollowed (length a) a b 0 0

  -- At least as many lines of `a` are behind as are deleted; `y` is `x` less the diagonal.
  pub wide : (d t : ℕ) → t ≤ d → t ≤ rx d t
  wide zero t h = omega arith
  wide (suc d) t h =
      let st = reach-IsStep d t h in
      elim st.from [
        | inl (k, e, g) ↦ omega (arith, st.x_eq, wide d t k)
        | inr (k, e, g) ↦ omega (arith, st.x_eq, wide d (t - 1) (omega arith))
      ]

  pub start_wide : (d t : ℕ) (h : t ≤ suc d) → t ≤ (reach-IsStep d t h).start
  start_wide d t h =
      let st = reach-IsStep d t h in
      elim st.from [
        | inl (k, e, g) ↦ omega (arith, wide d t k)
        | inr (k, e, g) ↦ omega (arith, wide d (t - 1) (omega arith))
      ]

  pub diagonal : (d t : ℕ) → t ≤ d → ry d t + 2 * t ≡ rx d t + d
  unfolding reach
  diagonal zero t h =
      let f = reach_zero t in
      let p = ap (λ p. p.0) f.ends in let q = ap (λ p. p.1) f.ends in omega (arith, p, q)
  diagonal (suc d) t h =
      let st = reach-IsStep d t h in omega (arith, st.x_eq, st.y_eq, start_wide d t h)

  pub down_mono : (d t : ℕ) → t ≤ d → rx d t ≤ rx (suc d) t
  down_mono d t h =
      let st = reach-IsStep d t (omega arith) in
      elim st.from [
        | inl (k, e, g) ↦ omega (arith, st.x_eq)
        | inr (k, e, g) ↦ omega (arith, st.x_eq, g h)
      ]

  pub right_mono : (d t : ℕ) → t ≤ d → rx d t + 1 ≤ rx (suc d) (suc t)
  right_mono d t h =
      let st = reach-IsStep d (suc t) (omega arith) in
      let e = ap (rx d) (pred t) in
      elim st.from [
        | inl (k, f, g) ↦ omega (arith, st.x_eq, e, g (omega arith))
        | inr (k, f, g) ↦ omega (arith, st.x_eq, e)
      ]

  -- Past the end of a file the diagonal loop passes nothing.
  run_right : (x y c : ℕ) → Run a b x y c → length a < x + c → c ≡ 0
  run_right x y zero r h = refl
  run_right x y (suc c) r h =
      let (l, e, f) = r c (omega arith) in absurd (omega (arith, get_elem?-lt a (x + c) l e))

  run_bottom : (x y c : ℕ) → Run a b x y c → length b < y + c → c ≡ 0
  run_bottom x y zero r h = refl
  run_bottom x y (suc c) r h =
      let (l, e, f) = r c (omega arith) in absurd (omega (arith, get_elem?-lt b (y + c) l f))

  pub rx-zero : (t : ℕ) → rx zero t ≤ length a
  unfolding reach
  rx-zero t =
      let f = reach_zero t in
      let e = ap (λ p. p.0) f.ends in
      by_bound (rx zero t) (length a)
        (λ h. omega (arith, e, run_right 0 0 f.count f.run (omega arith)))

  ry-zero : (t : ℕ) → ry zero t ≤ length b
  unfolding reach
  ry-zero t =
      let f = reach_zero t in
      let e = ap (λ p. p.1) f.ends in
      by_bound (ry zero t) (length b)
        (λ h. omega (arith, e, run_bottom 0 0 f.count f.run (omega arith)))

  -- A point past the right border has one beside it, an edit before.
  past_right :
      (d t : ℕ) → t ≤ suc d → length a < rx (suc d) t → (0 < t) × (rx (suc d) t ≤ rx d (t - 1) + 1)
  past_right zero t h k =
      let st = reach-IsStep zero t h in
      let c = run_right st.start (st.start + 1 - 2 * t) st.count st.run (omega (arith, st.x_eq)) in
      elim st.from [
        | inl (p, e, g) ↦ absurd (omega (arith, st.x_eq, rx-zero t))
        | inr (p, e, g) ↦ (p, omega (arith, st.x_eq))
      ]
  past_right (suc d) t h k =
      let st = reach-IsStep (suc d) t h in
      let c =
        run_right st.start (st.start + suc (suc d) - 2 * t) st.count st.run
          (omega (arith, st.x_eq)) in
      elim st.from [
        | inl (p, e, g) ↦
            let (q, r) = past_right d t p (omega (arith, st.x_eq)) in
            (q, omega (arith, st.x_eq, r, down_mono d (t - 1) (omega arith)))
        | inr (p, e, g) ↦ (p, omega (arith, st.x_eq))
      ]

  past_bottom : (d t : ℕ) → t ≤ suc d → length b < ry (suc d) t → (t ≤ d) × (rx (suc d) t ≤ rx d t)
  past_bottom zero t h k =
      let st = reach-IsStep zero t h in
      let c = run_bottom st.start (st.start + 1 - 2 * t) st.count st.run (omega (arith, st.y_eq)) in
      elim st.from [
        | inl (p, e, g) ↦ (p, omega (arith, st.x_eq))
        | inr (p, e, g) ↦
            absurd (omega (arith, st.x_eq, diagonal 1 t h, diagonal 0 (t - 1), ry-zero (t - 1)))
      ]
  past_bottom (suc d) t h k =
      let st = reach-IsStep (suc d) t h in
      let c =
        run_bottom st.start (st.start + suc (suc d) - 2 * t) st.count st.run
          (omega (arith, st.y_eq)) in
      elim st.from [
        | inl (p, e, g) ↦ (p, omega (arith, st.x_eq))
        | inr (p, e, g) ↦
            let below : length b < ry (suc d) (t - 1) = omega (
              arith,
              st.x_eq,
              diagonal (suc (suc d)) t h,
              diagonal (suc d) (t - 1) (omega arith),
            ) in
            let (q, r) = past_bottom d (t - 1) (omega arith) below in
            let s = ap (rx (suc d)) (next t p) in
            (omega arith, omega (arith, st.x_eq, r, s, right_mono d (t - 1) q))
      ]

  -- Both files are read to the end.
  abbrev pub IsDone : ℕ → ℕ → Type 0
  IsDone d t = (length a ≤ rx d t) × (length b ≤ ry d t)

  -- The first round that reads both files to the end ends exactly there.
  pub done_exactly :
      (d t : ℕ)
      → t ≤ d
      → IsDone d t
      → ((e : ℕ) → e < d → (s : ℕ) → s ≤ e → ¬ IsDone e s)
      → (rx d t ≡ length a) × (ry d t ≡ length b)
  done_exactly zero t h (p, q) n = (omega (arith, rx-zero t), omega (arith, ry-zero t))
  done_exactly (suc d) t h (p, q) n = (
    at_most (rx (suc d) t) (length a) p (λ k.
        let (u, r) = past_right d t h k in
        n d (omega arith) (t - 1) (omega arith)
          (omega arith, omega (arith, diagonal (suc d) t h, diagonal d (t - 1) (omega arith)))),
    at_most (ry (suc d) t) (length b) q (λ k.
        let (u, r) = past_bottom d t h k in
        n d (omega arith) t u (omega arith, omega (arith, diagonal (suc d) t h, diagonal d t u))),
  )
