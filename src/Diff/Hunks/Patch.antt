-- ===== src/Diff/Hunks/Patch.antt =====
-- The hunks of a script are a patch: they lead from the old file to the new one and back.
use gitflare.Prelude.{
  ℕ, suc, ◌+◌, ◌-◌, ◌≤◌, ◌<◌, ◌≡◌, ◌⊎◌, inl, inr, refl, sym, ap, ◌∙◌, subst, false, some, List, [],
  ◌∷◌, ◌++◌, map, length, take, drop, take-append, length-take, length-drop, take-append-drop,
  append-nil, Text, arith, ◌==◌, ◌&&◌, Bool-cases,
}
use gitflare.Diff.Myers.{Edit, equal, insert, delete, split_lines}
use gitflare.Diff.Myers.Script.{Script}
use gitflare.Diff.Myers.Correct.{diff_lines-Script}
use gitflare.Diff.Hunks.{
  Hunk, Range, FileDiffResult, nothing_gathered, gather_all, hunk_of, edits_in, ranges_of,
  build_hunks, build_from, diff_text, additions_of, deletions_of,
}
use gitflare.Diff.Hunks.Cuts.{changed_at, Cut, ranges_of-Cut}
use gitflare.Diff.Hunks.Gathering.{old_side, new_side, gather_all-Gathers, StartsEqual}
use gitflare.Diff.Hunks.Parts.{
  start_behind, drop-drop, drop-all, changed_at-drop, AllUnchanged, take-AllUnchanged,
  take-StartsEqual, Script-split, Same, AllUnchanged-Same, Script-bounds, body_start,
}

-- The hunks lead from the old lines, of which `x` are behind, to the new lines, of which `y` are
-- behind: up to a hunk the lines are the same, then come the lines that it shows on each side, at
-- the starts and of the counts that it names, and behind the last hunk the lines are the same.
abbrev pub Patches : ℕ → ℕ → List Text → List Text → List Hunk → Type 0
Patches x y old new [] = old ≡ new
Patches x y old new (h ∷ hunks) =
    (gap : List Text) × (old' : List Text) × (new' : List Text) × (old
      ≡ gap ++ (old_side h.lines ++ old'))
    × (new ≡ gap ++ (new_side h.lines ++ new'))
    × (h.old_lines ≡ length (old_side h.lines))
    × (h.new_lines ≡ length (new_side h.lines))
    × (h.old_start ≡ start_behind h.old_lines (x + length gap))
    × (h.new_start ≡ start_behind h.new_lines (y + length gap))
    × Patches (x + length gap + h.old_lines) (y + length gap + h.new_lines) old' new' hunks

module _ (old new : List Text) (edits : List Edit) where
  abbrev Rest : ℕ → ℕ → ℕ → Type 0
  Rest k x y = (x ≤ k) × (y ≤ k) × Script old new x y (drop k edits) (length old) (length new)

  -- From the edits at `k` on to those at `k + n`.
  Rest-split :
      (k n x y : ℕ)
      → k + n ≤ length edits
      → Rest k x y
      → (x' : ℕ) × (y' : ℕ) × Script old new x y (take n (drop k edits)) x' y' × Rest (k + n) x' y'
  Rest-split k n x y l (p, q, s) =
      let (x', y', a, b) =
        Script-split old new x y (length old) (length new) (take n (drop k edits))
          (drop n (drop k edits))
          (subst (λ es. Script old new x y es (length old) (length new))
            (sym (take-append-drop n (drop k edits))) s) in
      let h = Script-bounds old new k x y x' y' (take n (drop k edits)) a p q in
      let len : length (take n (drop k edits)) ≡ n =
        omega (arith, length-take n (drop k edits), length-drop k edits) in
      (
        x',
        y',
        a,
        (
          omega (arith, h.0),
          omega (arith, h.1),
          subst (λ es. Script old new x' y' es (length old) (length new)) (drop-drop n k edits) b,
        ),
      )

  gap-Same :
      (k n x y x' y' : ℕ)
      → ((i : ℕ) → k ≤ i → i < k + n → changed_at edits i ≡ false)
      → Script old new x y (take n (drop k edits)) x' y'
      → Same old new (length (take n (drop k edits))) x y x' y'
  gap-Same k n x y x' y' h s =
      AllUnchanged-Same old new x y x' y' (take n (drop k edits))
        (take-AllUnchanged n (drop k edits)
          (λ i l. changed_at-drop k i edits ∙ h (k + i) (omega arith) (omega arith)))
        s

  Cut-Patches :
      (k x y : ℕ) (rs : List Range)
      → Cut edits k rs
      → Rest k x y
      → Patches x y (drop x old) (drop y new) (map (hunk_of old new edits) rs)
  Cut-Patches k x y [] c (p, q, s) =
      let n = length (drop k edits) in
      let whole : take n (drop k edits) ≡ drop k edits =
        ap (take n) (sym (append-nil (drop k edits))) ∙ take-append (drop k edits) [] in
      let (gap, old_gap, new_gap, gx, gy, gl) =
        gap-Same k n x y (length old) (length new) (λ i l m. c i l)
          (subst (λ es. Script old new x y es (length old) (length new)) (sym whole) s) in
      old_gap
      ∙ ap (λ r. gap ++ r)
          (drop-all (length old) old (omega arith) ∙ sym (drop-all (length new) new (omega arith)))
      ∙ sym new_gap
  Cut-Patches k x y (r ∷ rs) (a, b, c, d, e, f) rest =
      let (x1, y1, s, rest') = Rest-split k (r.start - k) x y (omega arith) rest in
      let (gap, old_gap, new_gap, gx, gy, gl) =
        gap-Same k (r.start - k) x y x1 y1 (λ i l m. d i l (omega arith)) s in
      let at_start : Rest r.start x1 y1 =
        subst (λ k. Rest k x1 y1) (let z : k + (r.start - k) ≡ r.start = omega arith in z) rest' in
      let (x2, y2, s2, rest2) =
        Rest-split r.start (r.end + 1 - r.start) x1 y1 (omega arith) at_start in
      let behind : Rest (suc r.end) x2 y2 =
        subst (λ k. Rest k x2 y2)
          (let z : r.start + (r.end + 1 - r.start) ≡ suc r.end = omega arith in z) rest2 in
      let (shows_old, shows_new) = gather_all-Gathers old new x1 y1 x2 y2 (edits_in edits r) s2 in
      let starts =
        body_start old new x1 y1 x2 y2 (edits_in edits r) s2 (starts_well r x1 y1 b c e at_start) in
      let g = gather_all old new nothing_gathered (edits_in edits r) in
      (
        gap,
        drop x2 old,
        drop y2 new,
        old_gap ∙ ap (λ r. gap ++ r) shows_old.2,
        new_gap ∙ ap (λ r. gap ++ r) shows_new.2,
        sym shows_old.3,
        sym shows_new.3,
        rw (sym gx) starts.0,
        rw (sym gy) starts.1,
        subst
            (λ x.
              Patches x (y + length gap + g.new_count) (drop x2 old) (drop y2 new)
                (map (hunk_of old new edits) rs))
            (omega (arith, shows_old.0, gx))
            (subst (λ y. Patches x2 y (drop x2 old) (drop y2 new) (map (hunk_of old new edits) rs))
              (omega (arith, shows_new.0, gy)) (Cut-Patches (suc r.end) x2 y2 rs f behind)),
      )
    where
      starts_well :
          (r : Range) (x1 y1 : ℕ)
          → r.start ≤ r.end
          → r.end < length edits
          → (r.start ≡ 0) ⊎ (changed_at edits r.start ≡ false)
          → Rest r.start x1 y1
          → ((x1 ≡ 0) × (y1 ≡ 0)) ⊎ StartsEqual (edits_in edits r)
      starts_well r x1 y1 b c (inl z) (p, q, s) = inl (omega arith, omega arith)
      starts_well r x1 y1 b c (inr z) rest =
          let e : r.start + 0 ≡ r.start = omega arith in
          inr (
            take-StartsEqual (r.end + 1 - r.start) (drop r.start edits) (omega arith)
              (omega (arith, length-drop r.start edits))
              (changed_at-drop r.start 0 edits ∙ ap (changed_at edits) e ∙ z))

unchanged_when : (es : List Edit) → additions_of es ≡ 0 → deletions_of es ≡ 0 → AllUnchanged es
unchanged_when [] h k = tt
unchanged_when (equal i j ∷ es) h k = (refl, unchanged_when es h k)
unchanged_when (insert j ∷ es) h k = absurd (omega arith)
unchanged_when (delete i ∷ es) h k = absurd (omega arith)

Script-balance :
    (old new : List Text) (x y x' y' : ℕ) (es : List Edit)
    → Script old new x y es x' y'
    → y' + deletions_of es + x ≡ y + additions_of es + x'
Script-balance old new x y x' y' [] (p, q) = omega arith
Script-balance old new x y x' y' (equal i j ∷ es) (p, q, m, s) =
    omega (arith, Script-balance old new (suc x) (suc y) x' y' es s)
Script-balance old new x y x' y' (insert j ∷ es) (q, l, s) =
    omega (arith, Script-balance old new x (suc y) x' y' es s)
Script-balance old new x y x' y' (delete i ∷ es) (p, l, s) =
    omega (arith, Script-balance old new (suc x) y x' y' es s)

-- The hunks of a script are a patch, and the counts are those of the script.
abbrev pub IsDiff : List Text → List Text → FileDiffResult → Type 0
IsDiff old new result =
    Patches 0 0 old new result.hunks
    × (length new + result.deletions ≡ length old + result.additions)

build_hunks-IsDiff :
    (old new : List Text) (edits : List Edit) (context_lines : ℕ)
    → 1 ≤ context_lines
    → Script old new 0 0 edits (length old) (length new)
    → IsDiff old new (build_hunks edits old new context_lines)
unfolding build_hunks
build_hunks-IsDiff old new edits c l s =
    let balance = Script-balance old new 0 0 (length old) (length new) edits s in
    elim (Bool-cases (additions_of edits == 0 && deletions_of edits == 0)) [
      | inl e ↦
          let (gap, a, b, z, z', z'') =
            AllUnchanged-Same old new 0 0 (length old) (length new) edits
              (unchanged_when edits (ground arith) (ground arith)) s in
          rw e (
            a
                ∙ ap (λ r. gap ++ r)
                    (drop-all (length old) old (omega arith)
                      ∙ sym (drop-all (length new) new (omega arith)))
                ∙ sym b,
            ground (arith, balance),
          )
      | inr e ↦ rw e (
        Cut-Patches old new edits 0 0 0 (ranges_of c edits) (ranges_of-Cut c edits l)
            (omega arith, omega arith, s),
        omega (arith, balance),
      )
    ]

-- For two texts of at most 40000 lines in all and at least one line of context there is a diff,
-- and its hunks are a patch from the old lines to the new ones.
pub diff_text-IsDiff :
    (old_text new_text : Text) (context_lines : ℕ)
    → 1 ≤ context_lines
    → length (split_lines old_text) + length (split_lines new_text) ≤ 40000
    → (result : FileDiffResult) × (diff_text old_text new_text context_lines ≡ some result)
      × IsDiff (split_lines old_text) (split_lines new_text) result
unfolding diff_text build_from
diff_text-IsDiff old_text new_text c l h =
    let old = split_lines old_text in
    let new = split_lines new_text in
    let (edits, e, s) = diff_lines-Script old new h in
    (
      build_hunks edits old new c,
      ap (build_from old new c) e,
      build_hunks-IsDiff old new edits c l s,
    )
