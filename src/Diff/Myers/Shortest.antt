-- ===== src/Diff/Myers/Shortest.antt =====
-- No script has fewer changes than the one that the search finds.
use gitflare.Prelude.{
  ℕ, zero, suc, ◌+◌, ◌*◌, ◌≤◌, ◌<◌, ◌≡◌, refl, ap, sym, subst, ◌∙◌, Bool, true, false, ltb, some,
  List, [], ◌∷◌, length, Text, arith, Bool-cases, inl, inr,
}
use gitflare.Diff.Myers.{
  Edit, equal, insert, delete, goes_on, diff_core, backtrack, inserts, deletes,
}
use gitflare.Diff.Myers.Diagonals.{Match, Match-goes_on}
use gitflare.Diff.Myers.Reach.{
  reach, rx, ry, reach-IsStep, reach_zero, diagonal, down_mono, right_mono, IsDone,
}
use gitflare.Diff.Myers.Script.{Script, changes}
use gitflare.Diff.Myers.Backtrack.{Embeds}
use gitflare.Diff.Myers.Correct.{searched-IsCoreScript}

contradiction : (p : Bool) → p ≡ true → p ≡ false → ⊥
contradiction p h k = cc

module _ (a b : List Text) where
  stops_at : (d t : ℕ) → t ≤ d → goes_on a b (rx a b d t) (ry a b d t) ≡ false
  unfolding reach
  stops_at zero t h =
      let f = reach_zero a b t in
      ap (λ (p : ℕ × ℕ). goes_on a b p.0 p.1) f.ends ∙ f.stops (omega arith)
  stops_at (suc d) t h = (reach-IsStep a b d t h).stops

  -- A point that a script reaches is no further than the furthest of its number of changes.
  record Reached (d x y : ℕ) : Type 0 where
    deleted : ℕ
    in_range : deleted ≤ d
    on_diagonal : y + 2 * deleted ≡ x + d
    behind : x ≤ rx a b d deleted

  Reached-Match : (d x y : ℕ) → Reached d x y → Match a b x y → Reached d (suc x) (suc y)
  Reached-Match d x y r m = record {
    deleted = r.deleted;
    in_range = r.in_range;
    on_diagonal = omega (arith, r.on_diagonal);
    behind = elim (Bool-cases (ltb x (rx a b d r.deleted))) [
      | inl e ↦ ground arith
      | inr e ↦
          let p : rx a b d r.deleted ≡ x = ground (arith, r.behind) in
          let q : ry a b d r.deleted ≡ y =
            omega (arith, p, r.on_diagonal, diagonal a b d r.deleted r.in_range) in
          let f = stops_at d r.deleted r.in_range in
          let g : goes_on a b x y ≡ false =
            ap (λ x. goes_on a b x y) (sym p)
            ∙ ap (λ y. goes_on a b (rx a b d r.deleted) y) (sym q)
            ∙ f in
          let k = Match-goes_on a b x y m in absurd (contradiction (goes_on a b x y) k g)
    ];
  }

  Reached-insert : (d x y : ℕ) → Reached d x y → Reached (suc d) x (suc y)
  Reached-insert d x y r = record {
    deleted = r.deleted;
    in_range = omega (arith, r.in_range);
    on_diagonal = omega (arith, r.on_diagonal);
    behind = omega (arith, r.behind, down_mono a b d r.deleted r.in_range);
  }

  Reached-delete : (d x y : ℕ) → Reached d x y → Reached (suc d) (suc x) y
  Reached-delete d x y r = record {
    deleted = suc r.deleted;
    in_range = omega (arith, r.in_range);
    on_diagonal = omega (arith, r.on_diagonal);
    behind = omega (arith, r.behind, right_mono a b d r.deleted r.in_range);
  }

  Script-Reached :
      (es : List Edit) (d x y x' y' : ℕ)
      → Reached d x y
      → Script a b x y es x' y'
      → Reached (d + changes es) x' y'
  Script-Reached [] d x y x' y' r (p, q) =
      let e : d + 0 ≡ d = omega arith in
      rw e (subst (λ x. Reached d x y') p (subst (λ y. Reached d x y) q r))
  Script-Reached (equal i j ∷ es) d x y x' y' r (p, q, m, s) =
      Script-Reached es d (suc x) (suc y) x' y' (Reached-Match d x y r m) s
  Script-Reached (insert j ∷ es) d x y x' y' r (p, q, s) =
      let e : d + suc (changes es) ≡ suc d + changes es = omega arith in
      rw e (Script-Reached es (suc d) x (suc y) x' y' (Reached-insert d x y r) s)
  Script-Reached (delete i ∷ es) d x y x' y' r (p, q, s) =
      let e : d + suc (changes es) ≡ suc d + changes es = omega arith in
      rw e (Script-Reached es (suc d) (suc x) y x' y' (Reached-delete d x y r) s)

  start_Reached : Reached 0 0 0
  start_Reached = record {
    deleted = 0;
    in_range = omega arith;
    on_diagonal = refl;
    behind = omega arith;
  }

  rounds-le-changes :
      (rounds : ℕ) (es : List Edit)
      → ((d : ℕ) → d < rounds → (t : ℕ) → t ≤ d → ¬ IsDone a b d t)
      → Script a b 0 0 es (length a) (length b)
      → rounds ≤ changes es
  rounds-le-changes rounds es first s =
      let r = Script-Reached es 0 0 0 (length a) (length b) start_Reached s in
      let c = 0 + changes es in
      elim (Bool-cases (ltb c rounds)) [
        | inr e ↦ ground arith
        | inl e ↦ absurd (
            first c (ground arith) r.deleted r.in_range (
              r.behind,
              omega (arith, r.behind, r.on_diagonal, diagonal a b c r.deleted r.in_range),
            ))
      ]

-- Any lines before the ones that are compared.
padded : ℕ → List Text → List Text
padded zero a = a
padded (suc n) a = [] ∷ padded n a

padded-Embeds : (offset : ℕ) (a : List Text) → Embeds offset a (padded offset a)
unfolding padded
padded-Embeds zero a x l h = let e : 0 + x ≡ x = omega arith in rw e h
padded-Embeds (suc n) a x l h =
    let e : suc n + x ≡ suc (n + x) = omega arith in rw e (padded-Embeds n a x l h)

only_insertions :
    (b : List Text) (es : List Edit) (x y m : ℕ) → Script [] b x y es 0 m → m ≤ y + changes es
only_insertions b [] x y m (p, q) = omega arith
only_insertions b (equal i j ∷ es) x y m (p, q, (l, e, f), s) = absurd (cc)
only_insertions b (insert j ∷ es) x y m (p, q, s) =
    omega (arith, only_insertions b es x (suc y) m s)
only_insertions b (delete i ∷ es) x y m (p, q, s) = absurd (omega arith)

only_deletions :
    (a : List Text) (es : List Edit) (x y n : ℕ) → Script a [] x y es n 0 → n ≤ x + changes es
only_deletions a [] x y n (p, q) = omega arith
only_deletions a (equal i j ∷ es) x y n (p, q, (l, e, f), s) = absurd (cc)
only_deletions a (insert j ∷ es) x y n (p, q, s) = absurd (omega arith)
only_deletions a (delete i ∷ es) x y n (p, q, s) = omega (arith, only_deletions a es (suc x) y n s)

changes-inserts : (i : ℕ) (lines : List Text) → changes (inserts i lines) ≡ length lines
changes-inserts i [] = refl
changes-inserts i (l ∷ lines) = omega (arith, changes-inserts (suc i) lines)

changes-deletes : (i : ℕ) (lines : List Text) → changes (deletes i lines) ≡ length lines
changes-deletes i [] = refl
changes-deletes i (l ∷ lines) = omega (arith, changes-deletes (suc i) lines)

-- The search always ends with a script, and no script between the same two lists of lines inserts
-- and deletes fewer lines than it.
pub diff_core_shortest :
    (a b : List Text) (offset : ℕ)
    → (edits : List Edit) × (diff_core a b offset ≡ some edits)
      × ((other : List Edit)
          → Script a b 0 0 other (length a) (length b)
          → changes edits ≤ changes other)
unfolding diff_core
diff_core_shortest [] b offset = (
  inserts offset b,
  refl,
  λ es s. omega (arith, changes-inserts offset b, only_insertions b es 0 0 (length b) s),
)
diff_core_shortest (l ∷ a) [] offset = (
  deletes offset (l ∷ a),
  refl,
  λ es s.
      omega
        (arith, changes-deletes offset (l ∷ a), only_deletions (l ∷ a) es 0 0 (length (l ∷ a)) s),
)
diff_core_shortest (l ∷ a) (m ∷ b) offset =
    let (trace, e, c) =
      searched-IsCoreScript (l ∷ a) (m ∷ b) (padded offset (l ∷ a)) (padded offset (m ∷ b)) offset
        (padded-Embeds offset (l ∷ a)) (padded-Embeds offset (m ∷ b)) in
    (
      backtrack (l ∷ a) (m ∷ b) offset trace,
      rw (e, diff_core) refl,
      λ es s.
          omega
            (arith, c.count, rounds-le-changes (l ∷ a) (m ∷ b) c.found.rounds es c.found.first s),
    )
