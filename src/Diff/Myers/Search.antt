-- ===== src/Diff/Myers/Search.antt =====
-- The search over the array records the furthest points, and ends with the first round that reaches
-- the end of both files.
use gitflare.Prelude.{
  ℕ, zero, suc, ◌+◌, ◌-◌, ◌*◌, ◌≤◌, ◌<◌, ◌≡◌, refl, ap, sym, subst, ◌∙◌, true, false, ◌&&◌, Option,
  none, some, List, [], ◌∷◌, leb, ◌==◌, ==_iff, length, Text, arith, Bool-cases, inl, inr, ◌⊎◌,
}
use gitflare.Diff.Myers.{
  Frontier, set_at, goes_down, start_x, reach_point, search_round, search_from,
}
use gitflare.Diff.Myers.Reach.{reach, rx, ry, is_insertion, start_at, IsDone, wide, diagonal}

module _ (a b : List Text) where
  abbrev pub top : ℕ
  top = length a + length b

  -- The entries that the round of `d` writes.
  abbrev pub Holds : ℕ → Frontier → Type 0
  Holds d v = (t : ℕ) → t ≤ d → v (top - d + 2 * t) ≡ rx a b d t

  -- The array when the round of `d` begins.
  abbrev pub Before : ℕ → Frontier → Type 0
  Before zero v = (i : ℕ) → v i ≡ 0
  Before (suc d) v = Holds d v

  pub record Reads (d : ℕ) (v : Frontier) (t : ℕ) : Type 0 where
    pub left : 0 < t → v (top - suc d + 2 * t - 1) ≡ rx a b d (t - 1)
    pub right : t ≤ d → v (top - suc d + 2 * t + 1) ≡ rx a b d t

  pub goes_down-is_insertion :
      (d t : ℕ) (v : Frontier)
      → t ≤ suc d
      → suc d ≤ top
      → Reads d v t
      → goes_down top (suc d) v (top - suc d + 2 * t) ≡ is_insertion (reach a b d) d t
  goes_down-is_insertion d zero v h k r =
      let e : (top - suc d + 2 * 0 + suc d == top) ≡ true = ground arith in rw e refl
  goes_down-is_insertion d (suc t) v h k r =
      let e : (top - suc d + 2 * suc t + suc d == top) ≡ false = ground arith in
      elim (Bool-cases (suc t == suc d)) [
        | inl f ↦
            let g : (top - suc d + 2 * suc t == top + suc d) ≡ true = ground arith in
            let z : (suc t == 0) ≡ false = ground arith in rw (e, f, g, z) refl
        | inr f ↦
            let g : (top - suc d + 2 * suc t == top + suc d) ≡ false = ground arith in
            let z : (suc t == 0) ≡ false = ground arith in
            rw (e, f, g, z, r.left (omega arith), r.right (ground arith)) refl
      ]

  start_x-start_at :
      (d t : ℕ) (v : Frontier)
      → t ≤ suc d
      → suc d ≤ top
      → Reads d v t
      → start_x top (suc d) v (top - suc d + 2 * t) ≡ start_at (reach a b d) d t
  start_x-start_at d t v h k r =
      let same = goes_down-is_insertion d t v h k r in
      elim (Bool-cases (is_insertion (reach a b d) d t)) [
        | inl e ↦ rw (same, e) (r.right (ground arith))
        | inr e ↦ rw (same, e) (ap (λ x. x + 1) (r.left (ground arith)))
      ]

  reach_point-reach :
      (d t : ℕ) (v : Frontier)
      → t ≤ suc d
      → suc d ≤ top
      → Reads d v t
      → reach_point a b (suc d) v (top - suc d + 2 * t) ≡ reach a b (suc d) t
  unfolding reach
  reach_point-reach d t v h k r =
      let s = start_at (reach a b d) d t in
      let e : s + top - (top - suc d + 2 * t) ≡ s + suc d - 2 * t = omega arith in
      rw (start_x-start_at d t v h k r, e) refl

  reach_point-reach_zero :
      (v : Frontier) → v (top + 1) ≡ 0 → reach_point a b 0 v (top - 0 + 2 * 0) ≡ reach a b 0 0
  unfolding reach
  reach_point-reach_zero v h =
      let e : (top - 0 + 2 * 0 + 0 == top) ≡ true = ground arith in
      let f : top - 0 + 2 * 0 + 1 ≡ top + 1 = omega arith in
      let g : 0 + top - (top - 0 + 2 * 0) ≡ 0 = omega arith in rw (e, f, h, g) refl

  pub index_left : (d t : ℕ) → 0 < t → suc d ≤ top → top - suc d + 2 * t - 1 ≡ top - d + 2 * (t - 1)
  index_left d t h k = omega arith

  pub index_right : (d t : ℕ) → suc d ≤ top → top - suc d + 2 * t + 1 ≡ top - d + 2 * t
  index_right d t k = omega arith

  -- What one round reads is there: the entries of the round before, or zeros at the start.
  Before-reach_point :
      (d t : ℕ) (v w : Frontier)
      → t ≤ d
      → d ≤ top
      → Before d w
      → ((j : ℕ) → top - d + 2 * t ≤ j + 1 → v j ≡ w j)
      → reach_point a b d v (top - d + 2 * t) ≡ reach a b d t
  Before-reach_point zero zero v w h k p same =
      reach_point-reach_zero v (same (top + 1) (omega arith) ∙ p (top + 1))
  Before-reach_point zero (suc t) v w h k p same = absurd (omega arith)
  Before-reach_point (suc d) t v w h k p same = reach_point-reach d t v h k record {
    left = λ q.
        same (top - suc d + 2 * t - 1) (omega arith)
        ∙ ap w (index_left d t q k)
        ∙ p (t - 1) (omega arith);
    right = λ q. same (top - suc d + 2 * t + 1) (omega arith) ∙ ap w (index_right d t k) ∙ p t q;
  }

  abbrev pub Found : ℕ → Type 0
  Found d = (t : ℕ) × (t ≤ d) × IsDone a b d t

  abbrev pub NotDone : ℕ → Type 0
  NotDone d = (t : ℕ) → t ≤ d → ¬ IsDone a b d t

  -- The two ways in which a round ends.
  abbrev Outcome : ℕ → Option Frontier → Type 0
  Outcome d o = ((o ≡ none) × Found d) ⊎ ((v : Frontier) × (o ≡ some v) × Holds d v × NotDone d)

  is_done :
      (d t : ℕ) → leb (length a) (rx a b d t) && leb (length b) (ry a b d t) ≡ true → IsDone a b d t
  is_done d t h = ground arith

  not-IsDone :
      (d t : ℕ)
      → leb (length a) (rx a b d t) && leb (length b) (ry a b d t) ≡ false
      → ¬ IsDone a b d t
  not-IsDone d t h (p, q) = ground arith

  set_at_other : (v : Frontier) (i x j : ℕ) → i < j → set_at v i x j ≡ v j
  set_at_other v i x j h = let e : (j == i) ≡ false = ground arith in rw e refl

  set_at_before : (v : Frontier) (i x j : ℕ) → j < i → set_at v i x j ≡ v j
  set_at_before v i x j h = let e : (j == i) ≡ false = ground arith in rw e refl

  set_at_same : (v : Frontier) (i x j : ℕ) → j ≡ i → set_at v i x j ≡ x
  set_at_same v i x j h = let e : (j == i) ≡ true = ground arith in rw e refl

  written_next :
      (d t s : ℕ) (v : Frontier)
      → ((s : ℕ) → s < t → v (top - d + 2 * s) ≡ rx a b d s)
      → s < suc t
      → set_at v (top - d + 2 * t) (rx a b d t) (top - d + 2 * s) ≡ rx a b d s
  written_next d t s v written h = elim (Bool-cases (s == t)) [
    | inl e ↦
        let f : s ≡ t = (==_iff s t).0 e in
        set_at_same v (top - d + 2 * t) (rx a b d t) (top - d + 2 * s) (omega arith)
        ∙ ap (rx a b d) (sym f)
    | inr e ↦
        let f : s < t = ground arith in
        set_at_before v (top - d + 2 * t) (rx a b d t) (top - d + 2 * s) (omega arith) ∙ written s f
  ]

  IsDone-next :
      (d t s : ℕ)
      → ((s : ℕ) → s < t → ¬ IsDone a b d s)
      → ¬ IsDone a b d t
      → s < suc t
      → ¬ IsDone a b d s
  IsDone-next d t s none_yet now h = elim (Bool-cases (s == t)) [
    | inl e ↦ subst (λ s. ¬ IsDone a b d s) (sym ((==_iff s t).0 e)) now
    | inr e ↦ none_yet s (ground arith)
  ]

  search_round-Outcome :
      (rounds d t : ℕ) (v w : Frontier)
      → rounds + t ≡ suc d
      → d ≤ top
      → Before d w
      → ((j : ℕ) → top - d + 2 * t ≤ j + 1 → v j ≡ w j)
      → ((s : ℕ) → s < t → v (top - d + 2 * s) ≡ rx a b d s)
      → ((s : ℕ) → s < t → ¬ IsDone a b d s)
      → Outcome d (search_round rounds a b d (top - d + 2 * t) v)
  unfolding search_round
  search_round-Outcome zero d t v w h k p same written none_yet =
      inr (v, refl, (λ s q. written s (omega arith)), (λ s q. none_yet s (omega arith)))
  search_round-Outcome (suc rounds) d t v w h k p same written none_yet =
      let at = Before-reach_point d t v w (omega arith) k p same in
      elim (Bool-cases (leb (length a) (rx a b d t) && leb (length b) (ry a b d t))) [
        | inl e ↦ inl (rw (at, e) refl, (t, omega arith, is_done d t e))
        | inr e ↦
            let index = top - d + 2 * t in
            let next : index + 2 ≡ top - d + 2 * suc t = omega arith in
            rw (at, e, next)
              (search_round-Outcome rounds d (suc t) (set_at v index (rx a b d t)) w (omega arith) k
                p (λ j q. set_at_other v index (rx a b d t) j (omega arith) ∙ same j (omega arith))
                (λ s q. written_next d t s v written q)
                (λ s q. IsDone-next d t s none_yet (not-IsDone d t e) q))
      ]

  -- A recorded trace, the last frontier first: each array as its round begins.
  abbrev pub IsTrace : List Frontier → Type 0
  IsTrace [] = Unit
  IsTrace (v ∷ trace) = Before (length trace) v × IsTrace trace

  -- The trace of the first round in which both files are read to the end.
  pub record IsFound (trace : List Frontier) : Type 0 where
    pub rounds : ℕ
    pub deleted : ℕ
    pub in_round : deleted ≤ rounds
    pub within : rounds ≤ top
    pub recorded : length trace ≡ suc rounds
    pub as_begun : IsTrace trace
    pub done : IsDone a b rounds deleted
    pub first : (d : ℕ) → d < rounds → NotDone d

  -- After as many edits as the files have lines, both are read.
  IsDone-at_top : IsDone a b top (length a)
  IsDone-at_top =
      let w = wide a b top (length a) (omega arith) in
      let e = diagonal a b top (length a) (omega arith) in (w, omega (arith, w, e))

  later : (d e : ℕ) → ((e : ℕ) → e < d → NotDone e) → NotDone d → e < suc d → NotDone e
  later d e before now h = elim (Bool-cases (e == d)) [
    | inl q ↦ subst NotDone (sym ((==_iff e d).0 q)) now
    | inr q ↦ before e (ground arith)
  ]

  pub search_from-IsFound :
      (rounds d : ℕ) (v : Frontier) (trace : List Frontier)
      → rounds + d ≡ suc top
      → Before d v
      → length trace ≡ d
      → IsTrace trace
      → ((e : ℕ) → e < d → NotDone e)
      → (found : List Frontier) × (search_from rounds a b d v trace ≡ some found) × IsFound found
  unfolding search_from
  search_from-IsFound zero d v trace h p l t n =
      absurd (n top (omega arith) (length a) (omega arith) IsDone-at_top)
  search_from-IsFound (suc rounds) d v trace h p l t n =
      let index : top - d + 2 * 0 ≡ top - d = omega arith in
      let o =
        search_round-Outcome (suc d) d 0 v v (omega arith) (omega arith) p (λ j q. refl)
          (λ s q. absurd (omega arith)) (λ s q. absurd (omega arith)) in
      elim (rw index at o) [
        | inl (e, (s, q, f)) ↦ (
          v ∷ trace,
          rw (e, search_from) refl,
          record {
            rounds = d;
            deleted = s;
            in_round = q;
            within = omega arith;
            recorded = ap suc l;
            as_begun = (subst (λ d. Before d v) (sym l) p, t);
            done = f;
            first = n;
          },
        )
        | inr (v', e, w, g) ↦
            rw (e, search_from)
              (search_from-IsFound rounds (suc d) v' (v ∷ trace) (omega arith) w (ap suc l)
                (subst (λ d. Before d v) (sym l) p, t) (λ e q. later d e n g q))
      ]
