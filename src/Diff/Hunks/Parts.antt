-- ===== src/Diff/Hunks/Parts.antt =====
-- Parts of a script between two files: unchanged ones, and those of a hunk.
use gitflare.Prelude.{
  ℕ, zero, suc, ◌+◌, ◌≤◌, ◌<◌, ◌≡◌, ◌⊎◌, inl, inr, refl, sym, ap, ◌∙◌, false, List, [], ◌∷◌, ◌++◌,
  length, take, drop, Text, arith, All,
}
use gitflare.Diff.Myers.{Edit, equal, insert, delete}
use gitflare.Diff.Myers.Script.{Script}
use gitflare.Diff.Hunks.{nothing_gathered, gather_all, is_change, line_at, settle_start}
use gitflare.Diff.Hunks.Cuts.{changed_at}
use gitflare.Diff.Hunks.Gathering.{
  drop-line_at, starts_at, gather_all-Gathers, StartsEqual, StartsEqual-gather_all, Match-line_at,
  Match-lt,
}

-- The start that git gives to a part of `count` lines behind `position` lines: its first line,
-- and the line before it when the part has no lines.
abbrev pub start_behind : ℕ → ℕ → ℕ
start_behind zero position = position
start_behind (suc count) position = suc position

drop-nil : (n : ℕ) → drop {A = Edit} n [] ≡ []
drop-nil zero = refl
drop-nil (suc n) = refl

pub drop-drop : (n k : ℕ) (es : List Edit) → drop n (drop k es) ≡ drop (k + n) es
drop-drop n zero es = let e : 0 + n ≡ n = omega arith in rw e refl
drop-drop n (suc k) [] = drop-nil n ∙ sym (drop-nil (suc k + n))
drop-drop n (suc k) (e ∷ es) =
    let z : suc k + n ≡ suc (k + n) = omega arith in rw z (drop-drop n k es)

pub drop-all : (n : ℕ) (lines : List Text) → length lines ≤ n → drop n lines ≡ []
drop-all zero [] h = refl
drop-all (suc n) [] h = refl
drop-all zero (l ∷ lines) h = absurd (omega arith)
drop-all (suc n) (l ∷ lines) h = drop-all n lines (omega arith)

pub changed_at-drop : (k i : ℕ) (es : List Edit) → changed_at (drop k es) i ≡ changed_at es (k + i)
changed_at-drop zero i es = let e : 0 + i ≡ i = omega arith in rw e refl
changed_at-drop (suc k) i [] = refl
changed_at-drop (suc k) i (e ∷ es) =
    let z : suc k + i ≡ suc (k + i) = omega arith in rw z (changed_at-drop k i es)

abbrev pub AllUnchanged : List Edit → Type 0
AllUnchanged es = All (λ e. is_change e ≡ false) es

pub take-AllUnchanged :
    (n : ℕ) (es : List Edit)
    → ((i : ℕ) → i < n → changed_at es i ≡ false)
    → AllUnchanged (take n es)
take-AllUnchanged zero es h = tt
take-AllUnchanged (suc n) [] h = tt
take-AllUnchanged (suc n) (e ∷ es) h =
    (h 0 (omega arith), take-AllUnchanged n es (λ i l. h (suc i) (omega arith)))

pub take-StartsEqual :
    (n : ℕ) (es : List Edit)
    → 0 < n
    → 0 < length es
    → changed_at es 0 ≡ false
    → StartsEqual (take n es)
take-StartsEqual zero es p l h = absurd (omega arith)
take-StartsEqual (suc n) [] p l h = absurd (omega arith)
take-StartsEqual (suc n) (equal i j ∷ es) p l h = tt
take-StartsEqual (suc n) (insert j ∷ es) p l h = absurd (cc)
take-StartsEqual (suc n) (delete i ∷ es) p l h = absurd (cc)

settle_start-start_behind :
    (count start x : ℕ)
    → start ≡ starts_at count x
    → (x ≡ 0) ⊎ (0 < count)
    → settle_start start count ≡ start_behind count x
settle_start-start_behind zero start x e (inl z) = rw e (sym z)
settle_start-start_behind zero start x e (inr l) = absurd (omega arith)
settle_start-start_behind (suc count) start x e h = rw e (ground arith)

module _ (old new : List Text) where
  pub Script-split :
      (x y x'' y'' : ℕ) (es fs : List Edit)
      → Script old new x y (es ++ fs) x'' y''
      → (x' : ℕ) × (y' : ℕ) × Script old new x y es x' y' × Script old new x' y' fs x'' y''
  Script-split x y x'' y'' [] fs s = (x, y, (refl, refl), s)
  Script-split x y x'' y'' (equal i j ∷ es) fs (p, q, m, s) =
      let (x', y', a, b) = Script-split (suc x) (suc y) x'' y'' es fs s in (x', y', (p, q, m, a), b)
  Script-split x y x'' y'' (insert j ∷ es) fs (q, l, s) =
      let (x', y', a, b) = Script-split x (suc y) x'' y'' es fs s in (x', y', (q, l, a), b)
  Script-split x y x'' y'' (delete i ∷ es) fs (p, l, s) =
      let (x', y', a, b) = Script-split (suc x) y x'' y'' es fs s in (x', y', (p, l, a), b)

  -- Over unchanged edits the two files have the same lines.
  abbrev pub Same : ℕ → ℕ → ℕ → ℕ → ℕ → Type 0
  Same n x y x' y' =
      (gap : List Text) × (drop x old ≡ gap ++ drop x' old)
      × (drop y new ≡ gap ++ drop y' new)
      × (x' ≡ x + length gap)
      × (y' ≡ y + length gap)
      × (length gap ≡ n)

  pub AllUnchanged-Same :
      (x y x' y' : ℕ) (es : List Edit)
      → AllUnchanged es
      → Script old new x y es x' y'
      → Same (length es) x y x' y'
  AllUnchanged-Same x y x' y' [] u (p, q) =
      ([], ap (λ x. drop x old) p, ap (λ y. drop y new) q, omega arith, omega arith, refl)
  AllUnchanged-Same x y x' y' (equal i j ∷ es) (t, u) (p, q, m, s) =
      let (gap, a, b, c, d, e) = AllUnchanged-Same (suc x) (suc y) x' y' es u s in
      let at = Match-lt old new x y m in
      (
        line_at old x ∷ gap,
        drop-line_at old x at.0 ∙ ap (λ r. line_at old x ∷ r) a,
        drop-line_at new y at.1
            ∙ ap (λ r. r ∷ drop (suc y) new) (sym (Match-line_at old new x y m))
            ∙ ap (λ r. line_at old x ∷ r) b,
        omega arith,
        omega arith,
        omega arith,
      )
  AllUnchanged-Same x y x' y' (insert j ∷ es) (t, u) s = absurd (cc)
  AllUnchanged-Same x y x' y' (delete i ∷ es) (t, u) s = absurd (cc)

  pub Script-bounds :
      (k x y x' y' : ℕ) (es : List Edit)
      → Script old new x y es x' y'
      → x ≤ k
      → y ≤ k
      → (x' ≤ k + length es) × (y' ≤ k + length es)
  Script-bounds k x y x' y' [] (p, q) l m = (omega arith, omega arith)
  Script-bounds k x y x' y' (equal i j ∷ es) (p, q, t, s) l m =
      let h = Script-bounds (suc k) (suc x) (suc y) x' y' es s (omega arith) (omega arith) in
      (omega (arith, h.0), omega (arith, h.1))
  Script-bounds k x y x' y' (insert j ∷ es) (q, t, s) l m =
      let h = Script-bounds (suc k) x (suc y) x' y' es s (omega arith) (omega arith) in
      (omega (arith, h.0), omega (arith, h.1))
  Script-bounds k x y x' y' (delete i ∷ es) (p, t, s) l m =
      let h = Script-bounds (suc k) (suc x) y x' y' es s (omega arith) (omega arith) in
      (omega (arith, h.0), omega (arith, h.1))

  pub body_start :
      (x y x' y' : ℕ) (es : List Edit)
      → Script old new x y es x' y'
      → ((x ≡ 0) × (y ≡ 0)) ⊎ StartsEqual es
      → (settle_start
            (gather_all old new nothing_gathered es).old_start
            (gather_all old new nothing_gathered es).old_count
          ≡ start_behind (gather_all old new nothing_gathered es).old_count x)
        × (settle_start
              (gather_all old new nothing_gathered es).new_start
              (gather_all old new nothing_gathered es).new_count
            ≡ start_behind (gather_all old new nothing_gathered es).new_count y)
  body_start x y x' y' es s h =
      let g = gather_all old new nothing_gathered es in
      let shown = gather_all-Gathers old new x y x' y' es s in
      let c : ((x ≡ 0) ⊎ (0 < g.old_count)) × ((y ≡ 0) ⊎ (0 < g.new_count)) = elim h [
        | inl z ↦ (inl z.0, inl z.1)
        | inr z ↦ let n = StartsEqual-gather_all old new es z in (inr n.0, inr n.1)
      ] in
      (
        settle_start-start_behind g.old_count g.old_start x shown.0.1 c.0,
        settle_start-start_behind g.new_count g.new_start y shown.1.1 c.1,
      )
