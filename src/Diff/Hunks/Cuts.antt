-- ===== src/Diff/Hunks/Cuts.antt =====
-- How the ranges cut a script into unchanged parts and hunks.
use gitflare.Prelude.{
  ℕ, zero, suc, ◌+◌, ◌≤◌, ◌<◌, ◌≡◌, ◌⊎◌, inl, inr, refl, sym, Bool, true, false, List, [], ◌∷◌,
  length, arith,
}
use gitflare.Diff.Myers.{Edit}
use gitflare.Diff.Hunks.{Range, is_change, ranges_of}
use gitflare.Diff.Hunks.Ranges.{InRanges, Separated, NearFrom, ranges_of_covers}

-- Whether the script has a change at an index.
abbrev pub changed_at : List Edit → ℕ → Bool
changed_at [] i = false
changed_at (e ∷ es) zero = is_change e
changed_at (e ∷ es) (suc i) = changed_at es i

changed_at-lt : (es : List Edit) (i : ℕ) → changed_at es i ≡ true → i < length es
changed_at-lt [] i h = absurd (cc)
changed_at-lt (e ∷ es) zero h = omega arith
changed_at-lt (e ∷ es) (suc i) h = omega (arith, changed_at-lt es i h)

changed_at-NearFrom :
    (c k p i : ℕ) (es : List Edit)
    → changed_at es p ≡ true
    → k + p ≤ i + c
    → i ≤ k + p + c
    → NearFrom c k es i
changed_at-NearFrom c k p i [] h l m = absurd (cc)
changed_at-NearFrom c k zero i (e ∷ es) h l m = inl (h, (omega arith, omega arith))
changed_at-NearFrom c k (suc p) i (e ∷ es) h l m =
    inr (changed_at-NearFrom c (suc k) p i es h (omega arith) (omega arith))

-- From index `k` on, the script is unchanged up to the first range, which starts with an unchanged
-- edit or at index 0, and so on behind it.
abbrev pub Cut : List Edit → ℕ → List Range → Type 0
Cut edits k [] = (i : ℕ) → k ≤ i → changed_at edits i ≡ false
Cut edits k (r ∷ ranges) =
    (k ≤ r.start)
    × (r.start ≤ r.end)
    × (r.end < length edits)
    × ((i : ℕ) → k ≤ i → i < r.start → changed_at edits i ≡ false)
    × ((r.start ≡ 0) ⊎ (changed_at edits r.start ≡ false))
    × Cut edits (suc r.end) ranges

-- No position before `low` lies in ranges that start at `low` or later.
before_ranges :
    (total low i : ℕ) (rs : List Range) → Separated total low rs → i < low → InRanges i rs → ⊥
before_ranges total low i [] s l h = h
before_ranges total low i (r ∷ rs) (a, b, c, s) l (inl h) = absurd (omega arith)
before_ranges total low i (r ∷ rs) (a, b, c, s) l (inr h) =
    before_ranges total (r.end + 2) i rs s (omega arith) h

unchanged_unless : (b : Bool) → (b ≡ true → ⊥) → b ≡ false
unchanged_unless true h = absurd (h refl)
unchanged_unless false h = refl

-- A position behind the first range that lies in the ranges lies in a later one.
behind_range :
    (i : ℕ) (r : Range) (rs : List Range) → r.end < i → InRanges i (r ∷ rs) → InRanges i rs
behind_range i r rs l (inl h) = absurd (omega arith)
behind_range i r rs l (inr h) = h

module _ (edits : List Edit) where
  -- `low` is `suc k`, or both are 0.
  Separated-Cut :
      (k low : ℕ) (rs : List Range)
      → Separated (length edits) low rs
      → k ≤ low
      → (k ≡ 0) ⊎ (low ≡ suc k)
      → ((i : ℕ) → k ≤ i → changed_at edits i ≡ true → InRanges i rs)
      → ((i : ℕ) → k ≤ i → changed_at edits (suc i) ≡ true → InRanges i rs)
      → Cut edits k rs
  Separated-Cut k low [] s l b f g = λ i m. unchanged_unless (changed_at edits i) (f i m)
  Separated-Cut k low (r ∷ rs) (p, q, e, s) l b f g = (
    omega arith,
    q,
    e,
    λ i m n.
        unchanged_unless (changed_at edits i)
          (λ t. before_ranges (length edits) r.start i (r ∷ rs) (omega arith, q, e, s) n (f i m t)),
    starts r.start refl,
    Separated-Cut (suc r.end) (r.end + 2) rs s (omega arith) (inr (omega arith))
        (λ i m t. behind_range i r rs (omega arith) (f i (omega arith) t))
        (λ i m t. behind_range i r rs (omega arith) (g i (omega arith) t)),
  )
    where
      starts : (n : ℕ) → n ≡ r.start → (r.start ≡ 0) ⊎ (changed_at edits r.start ≡ false)
      starts zero z = inl (sym z)
      starts (suc n) z = inr (
          unchanged_unless (changed_at edits r.start) (λ t.
            before_ranges (length edits) r.start n (r ∷ rs) (omega arith, q, e, s) (omega arith)
              (g n (ground arith) (rw z t))))

pub ranges_of-Cut :
    (context_lines : ℕ) (edits : List Edit)
    → 1 ≤ context_lines
    → Cut edits 0 (ranges_of context_lines edits)
ranges_of-Cut c edits h =
    let covers = ranges_of_covers c edits in
    Separated-Cut edits 0 0 (ranges_of c edits) covers.0 (omega arith) (inl refl)
      (λ i m t.
        (covers.1 i (changed_at-lt edits i t)).1
          (changed_at-NearFrom c 0 i i edits t (omega arith) (omega arith)))
      (λ i m t.
        (covers.1 i (omega (arith, changed_at-lt edits (suc i) t))).1
          (changed_at-NearFrom c 0 (suc i) i edits t (omega arith) (omega arith)))
