-- ===== src/Diff/Hunks/Ranges.antt =====
-- The ranges of a script: in order, apart, within it, and around exactly the changes.
use gitflare.Prelude.{
  ℕ, suc, ◌+◌, ◌-◌, ◌≤◌, ◌<◌, ◌≡◌, ◌⊎◌, ◌↔◌, sym, ◌∙◌, inl, inr, min, true, false, List, [], ◌∷◌,
  leb, length, arith, Bool-cases,
}
use gitflare.Diff.Myers.{Edit}
use gitflare.Diff.Hunks.{Range, is_change, changed_from, push_range, merge_ranges, ranges_of}

abbrev pub InRange : ℕ → ℕ → ℕ → Type 0
InRange start end i = (start ≤ i) × (i ≤ end)

abbrev pub InRanges : ℕ → List Range → Type 0
InRanges i [] = ⊥
InRanges i (r ∷ ranges) = InRange r.start r.end i ⊎ InRanges i ranges

-- From `low` on, in order, not empty, within `total`, and with a gap between two ranges.
abbrev pub Separated : ℕ → ℕ → List Range → Type 0
Separated total low [] = Unit
Separated total low (r ∷ ranges) =
    (low ≤ r.start) × (r.start ≤ r.end) × (r.end < total) × Separated total (r.end + 2) ranges

abbrev StartBy : ℕ → List Range → Type 0
StartBy s [] = Unit
StartBy s (r ∷ ranges) = (r.start ≤ s) × StartBy s ranges

push_range-Separated :
    (total low s e : ℕ) (r : Range) (rs : List Range)
    → s ≤ e
    → e < total
    → Separated total low (r ∷ rs)
    → Separated total low (push_range (r ∷ rs) s e)
push_range-Separated total low s e r [] p q (h, k, l, u) = elim (Bool-cases (leb s (r.end + 1))) [
  | inl t ↦ rw t (h, omega arith, omega arith, tt)
  | inr t ↦ rw t (h, k, l, (ground arith, p, q, tt))
]
push_range-Separated total low s e r (r' ∷ rs) p q (h, k, l, m) =
    (h, k, l, push_range-Separated total (r.end + 2) s e r' rs p q m)

push_range-StartBy :
    (s e t : ℕ) (rs : List Range) → s ≤ t → StartBy s rs → StartBy t (push_range rs s e)
push_range-StartBy s e t [] p h = (p, tt)
push_range-StartBy s e t (r ∷ []) p (h, u) = elim (Bool-cases (leb s (r.end + 1))) [
  | inl k ↦ rw k (omega arith, tt)
  | inr k ↦ rw k (omega arith, (p, tt))
]
push_range-StartBy s e t (r ∷ r' ∷ rs) p (h, k) =
    (omega arith, push_range-StartBy s e t (r' ∷ rs) p k)

push_range-InRanges :
    (s e i : ℕ) (rs : List Range) → InRanges i (push_range rs s e) → InRange s e i ⊎ InRanges i rs
push_range-InRanges s e i [] h = h
push_range-InRanges s e i (r ∷ []) h = elim (Bool-cases (leb s (r.end + 1))) [
  | inl k ↦ let g = rw k at h in ground arith
  | inr k ↦
      let g = rw k at h in
      elim g [ inl q ↦ inr (inl q) | inr q ↦ inl (elim q [ inl q ↦ q | inr q ↦ absurd q ]) ]
]
push_range-InRanges s e i (r ∷ r' ∷ rs) (inl h) = inr (inl h)
push_range-InRanges s e i (r ∷ r' ∷ rs) (inr h) = elim (push_range-InRanges s e i (r' ∷ rs) h) [
  | inl k ↦ inl k
  | inr k ↦ inr (inr k)
]

InRange-push_range :
    (s e i : ℕ) (rs : List Range) → StartBy s rs → InRange s e i → InRanges i (push_range rs s e)
InRange-push_range s e i [] h p = inl p
InRange-push_range s e i (r ∷ []) (h, u) p = elim (Bool-cases (leb s (r.end + 1))) [
  | inl k ↦ rw k (inl (omega arith, omega arith))
  | inr k ↦ rw k (inr (inl p))
]
InRange-push_range s e i (r ∷ r' ∷ rs) (h, k) p = inr (InRange-push_range s e i (r' ∷ rs) k p)

InRanges-push_range : (s e i : ℕ) (rs : List Range) → InRanges i rs → InRanges i (push_range rs s e)
InRanges-push_range s e i [] h = absurd h
InRanges-push_range s e i (r ∷ []) (inl p) = elim (Bool-cases (leb s (r.end + 1))) [
  | inl k ↦ rw k (inl (omega arith, omega arith))
  | inr k ↦ rw k (inl p)
]
InRanges-push_range s e i (r ∷ []) (inr h) = absurd h
InRanges-push_range s e i (r ∷ r' ∷ rs) (inl p) = inl p
InRanges-push_range s e i (r ∷ r' ∷ rs) (inr h) = inr (InRanges-push_range s e i (r' ∷ rs) h)

-- Position `i` is at most `c` away from an edit that is a change, the first of which stands at `k`.
abbrev pub NearFrom : ℕ → ℕ → List Edit → ℕ → Type 0
NearFrom c k [] i = ⊥
NearFrom c k (e ∷ es) i =
    ((is_change e ≡ true) × InRange (k - c) (k + c) i) ⊎ NearFrom c (suc k) es i

NearFrom-changed :
    (c k i : ℕ) (e : Edit) (es : List Edit)
    → is_change e ≡ false
    → NearFrom c k (e ∷ es) i
    → NearFrom c (suc k) es i
NearFrom-changed c k i e es n (inl (p, q)) = absurd (let z : true ≡ false = sym p ∙ n in cc)
NearFrom-changed c k i e es n (inr h) = h

module _ (c total : ℕ) where
  merge_ranges-Separated :
      (k : ℕ) (es : List Edit) (rs : List Range)
      → k + length es ≤ total
      → Separated total 0 rs
      → Separated total 0 (merge_ranges c total rs (changed_from k es))
  merge_ranges-Separated k [] rs h p = p
  merge_ranges-Separated k (e ∷ es) rs h p = elim (Bool-cases (is_change e)) [
    | inl t ↦ rw t (
        merge_ranges-Separated (suc k) es (push_range rs (k - c) (min (total - 1) (k + c)))
          (omega arith) (pushed rs p))
    | inr t ↦ rw t (merge_ranges-Separated (suc k) es rs (omega arith) p)
  ]
    where
      pushed :
          (rs : List Range)
          → Separated total 0 rs
          → Separated total 0 (push_range rs (k - c) (min (total - 1) (k + c)))
      pushed [] p = (omega arith, omega arith, omega arith, tt)
      pushed (r ∷ rs) p =
          push_range-Separated total 0 (k - c) (min (total - 1) (k + c)) r rs (omega arith)
            (omega arith) p

  StartBy-mono : (s t : ℕ) (rs : List Range) → s ≤ t → StartBy s rs → StartBy t rs
  StartBy-mono s t [] h p = tt
  StartBy-mono s t (r ∷ rs) h (p, q) = (omega arith, StartBy-mono s t rs h q)

  merge_ranges-InRanges :
      (k i : ℕ) (es : List Edit) (rs : List Range)
      → InRanges i (merge_ranges c total rs (changed_from k es))
      → InRanges i rs ⊎ NearFrom c k es i
  merge_ranges-InRanges k i [] rs h = inl h
  merge_ranges-InRanges k i (e ∷ es) rs h = elim (Bool-cases (is_change e)) [
    | inl t ↦
        let g = rw t at h in
        elim (merge_ranges-InRanges (suc k) i es (push_range rs (k - c) (min (total - 1) (k + c)))
          g) [
            | inl q ↦ elim (push_range-InRanges (k - c) (min (total - 1) (k + c)) i rs q) [
              | inl q ↦ inr (inl (t, (q.0, omega arith)))
              | inr q ↦ inl q
            ]
            | inr q ↦ inr (inr q)
          ]
    | inr t ↦
        let g = rw t at h in
        elim (merge_ranges-InRanges (suc k) i es rs g) [ inl q ↦ inl q | inr q ↦ inr (inr q) ]
  ]

  InRanges-merge_ranges :
      (k i : ℕ) (es : List Edit) (rs : List Range)
      → i < total
      → StartBy (k - c) rs
      → InRanges i rs ⊎ NearFrom c k es i
      → InRanges i (merge_ranges c total rs (changed_from k es))
  InRanges-merge_ranges k i [] rs l s (inl h) = h
  InRanges-merge_ranges k i [] rs l s (inr h) = absurd h
  InRanges-merge_ranges k i (e ∷ es) rs l s h = elim (Bool-cases (is_change e)) [
    | inl t ↦
        let pushed = push_range rs (k - c) (min (total - 1) (k + c)) in
        let held : InRanges i pushed ⊎ NearFrom c (suc k) es i = elim h [
          | inl q ↦ inl (InRanges-push_range (k - c) (min (total - 1) (k + c)) i rs q)
          | inr q ↦ elim q [
            | inl q ↦
                inl
                  (InRange-push_range (k - c) (min (total - 1) (k + c)) i rs s (q.1.0, omega arith))
            | inr q ↦ inr q
          ]
        ] in
        rw t (
          InRanges-merge_ranges (suc k) i es pushed l
            (push_range-StartBy (k - c) (min (total - 1) (k + c)) (suc k - c) rs (omega arith) s)
            held)
    | inr t ↦
        let held : InRanges i rs ⊎ NearFrom c (suc k) es i = elim h [
          | inl q ↦ inl q
          | inr q ↦ inr (NearFrom-changed c k i e es t q)
        ] in
        rw t (
          InRanges-merge_ranges (suc k) i es rs l
            (StartBy-mono (k - c) (suc k - c) rs (omega arith) s) held)
  ]

-- Position `i` of the script is at most `c` away from a change.
abbrev pub NearChange : ℕ → List Edit → ℕ → Type 0
NearChange c edits i = NearFrom c 0 edits i

-- The ranges are in order, apart and within the script; and a position of the script lies in one
-- of them exactly when it is at most `context_lines` away from a change.
pub ranges_of_covers :
    (context_lines : ℕ) (edits : List Edit)
    → Separated (length edits) 0 (ranges_of context_lines edits)
      × ((i : ℕ)
          → i < length edits
          → InRanges i (ranges_of context_lines edits) ↔ NearChange context_lines edits i)
unfolding ranges_of
ranges_of_covers c edits = (
  merge_ranges-Separated c (length edits) 0 edits [] (omega arith) tt,
  λ i l. (
    λ h. elim (merge_ranges-InRanges c (length edits) 0 i edits [] h) [
      | inl q ↦ absurd q
      | inr q ↦ q
    ],
    λ h. InRanges-merge_ranges c (length edits) 0 i edits [] l tt (inr h),
  ),
)
