-- ===== src/Diff/Myers/Correct.antt =====
-- `diffLines` returns a script from the old file to the new one.
use gitflare.Prelude.{
  ℕ, zero, suc, ◌+◌, ◌-◌, ◌*◌, ◌≤◌, ◌<◌, ◌≡◌, refl, ap, sym, subst, ◌∙◌, Bool, true, false, ◌&&◌,
  some, List, [], ◌∷◌, ◌++◌, ltb, length, get_elem?, ◌==◌, ==_iff, take, drop, length-take,
  length-drop, Text, arith, Bool-cases, inl, inr,
}
use gitflare.Diff.Myers.{
  Edit, Frontier, goes_on, backtrack, search_trace, diff_core, inserts, deletes, prefix_from,
  suffix_from, same_at_end, equals, slice, walk_back, around, diff_trimmed, diff_lines,
}
use gitflare.Diff.Myers.Diagonals.{Match, Run, goes_on-Match, same_text-Match, get_elem?-lt}
use gitflare.Diff.Myers.Reach.{rx, ry, done_exactly}
use gitflare.Diff.Myers.Script.{Script, changes, Script-append, Script-inserts, Script-deletes}
use gitflare.Diff.Myers.Search.{search_from-IsFound, IsFound}
use gitflare.Diff.Myers.Backtrack.{Embeds, walk_back-Walked, walk_eq}

-- Files with lines in both: the search converges, and its edits are as many as its rounds.
pub record IsCoreScript (a b old new : List Text) (offset : ℕ) (edits : List Edit)
    (trace : List Frontier) : Type 0 where
  pub found : IsFound a b trace
  pub script : Script old new offset offset edits (offset + length a) (offset + length b)
  pub count : changes edits ≡ found.rounds

pub searched-IsCoreScript :
    (a b old new : List Text) (offset : ℕ)
    → Embeds offset a old
    → Embeds offset b new
    → (trace : List Frontier) × (search_trace a b ≡ some trace)
      × IsCoreScript a b old new offset (backtrack a b offset trace) trace
searched-IsCoreScript a b old new offset u w =
    let (trace, e, f) =
      search_from-IsFound a b (length a + length b + 1) 0 (λ i. 0) [] (omega arith) (λ i. refl) refl
        tt (λ e q. absurd (omega arith)) in
    let (p, q) = done_exactly a b f.rounds f.deleted f.in_round f.done f.first in
    let (es, g, (s, c)) =
      walk_back-Walked a b old new offset u w f.rounds f.deleted trace 0 [] f.recorded f.as_begun
        f.within f.in_round (omega (arith, p)) (omega (arith, q))
        ((ap (λ x. offset + x) p, ap (λ y. offset + y) q), refl) in
    let top = length a + length b in
    let start =
      walk_eq a b old new offset u w (length a) (length b) (rx a b f.rounds f.deleted)
        (ry a b f.rounds f.deleted) [] (sym p) (sym q) in
    let back : backtrack a b offset trace ≡ es =
      ap (λ w. (walk_back offset top trace w).edits) start ∙ ap (λ w. w.edits) g in
    let zero : offset + 0 ≡ offset = omega arith in
    let s' = rw zero at s in
    (
      trace,
      e,
      subst (λ es. IsCoreScript a b old new offset es trace) (sym back)
          record { found = f; script = s'; count = omega (arith, c) },
    )

-- The edits of the middle part lead through it.
pub diff_core-Script :
    (a b old new : List Text) (offset : ℕ)
    → Embeds offset a old
    → Embeds offset b new
    → offset + length a ≤ length old
    → offset + length b ≤ length new
    → (edits : List Edit) × (diff_core a b offset ≡ some edits)
      × Script old new offset offset edits (offset + length a) (offset + length b)
unfolding diff_core
diff_core-Script [] b old new offset u w h k =
    let zero : offset + 0 ≡ offset = omega arith in
    (inserts offset b, refl, rw zero (Script-inserts old new offset offset b k))
diff_core-Script (l ∷ a) [] old new offset u w h k =
    let zero : offset + 0 ≡ offset = omega arith in
    (deletes offset (l ∷ a), refl, rw zero (Script-deletes old new offset offset (l ∷ a) h))
diff_core-Script (l ∷ a) (m ∷ b) old new offset u w h k =
    let (trace, e, c) = searched-IsCoreScript (l ∷ a) (m ∷ b) old new offset u w in
    (backtrack (l ∷ a) (m ∷ b) offset trace, rw (e, diff_core) refl, c.script)

Run-snoc :
    (old new : List Text) (p : ℕ) → Run old new 0 0 p → Match old new p p → Run old new 0 0 (suc p)
Run-snoc old new p r m i h = elim (Bool-cases (i == p)) [
  | inl e ↦ let f : p ≡ 0 + i = ground arith in subst (λ j. Match old new j j) f m
  | inr e ↦ r i (ground arith)
]

Run-head : (old new : List Text) (x y c : ℕ) → Run old new x y (suc c) → Match old new x y
Run-head old new x y c r =
    let p : x + 0 ≡ x = omega arith in
    let q : y + 0 ≡ y = omega arith in let k = r 0 (omega arith) in rw (p, q) at k

Run-tail :
    (old new : List Text) (x y c : ℕ) → Run old new x y (suc c) → Run old new (suc x) (suc y) c
Run-tail old new x y c r i h =
    let p : suc x + i ≡ x + suc i = omega arith in
    let q : suc y + i ≡ y + suc i = omega arith in rw (p, q) (r (suc i) (omega arith))

prefix_from-Run :
    (fuel : ℕ) (old new : List Text) (p : ℕ)
    → Run old new 0 0 p
    → Run old new 0 0 (prefix_from fuel old new p)
unfolding prefix_from
prefix_from-Run zero old new p r = r
prefix_from-Run (suc fuel) old new p r = elim (Bool-cases (goes_on old new p p)) [
  | inr e ↦ rw e r
  | inl e ↦
      rw e
        (prefix_from-Run fuel old new (suc p) (Run-snoc old new p r (goes_on-Match old new p p e)))
]

-- The last `count` lines are equal.
abbrev Tail : List Text → List Text → ℕ → Type 0
Tail old new count = (i : ℕ) → i < count → Match old new (length old - 1 - i) (length new - 1 - i)

record IsSuffix (old new : List Text) (prefix suffix : ℕ) : Type 0 where
  old_room : prefix + suffix ≤ length old
  new_room : prefix + suffix ≤ length new
  tail : Tail old new suffix

end_rooms :
    (n m p s : ℕ) (b : Bool)
    → ltb s (n - p) && ltb s (m - p) && b ≡ true
    → (p + suc s ≤ n) × (p + suc s ≤ m) × (b ≡ true)
end_rooms n m p s b h = ground arith

IsSuffix-suc :
    (old new : List Text) (p s : ℕ)
    → IsSuffix old new p s
    → same_at_end old new p s ≡ true
    → IsSuffix old new p (suc s)
IsSuffix-suc old new p s r e =
    let (u, v, t) = end_rooms (length old) (length new) p s _ e in
    record {
      old_room = u;
      new_room = v;
      tail = λ i h. elim (Bool-cases (i == s)) [
        | inl q ↦
            subst (λ i. Match old new (length old - 1 - i) (length new - 1 - i))
              (sym ((==_iff i s).0 q)) (same_text-Match _ _ t)
        | inr q ↦ r.tail i (ground arith)
      ];
    }

suffix_from-IsSuffix :
    (fuel : ℕ) (old new : List Text) (p s : ℕ)
    → IsSuffix old new p s
    → IsSuffix old new p (suffix_from fuel old new p s)
unfolding suffix_from
suffix_from-IsSuffix zero old new p s r = r
suffix_from-IsSuffix (suc fuel) old new p s r = elim (Bool-cases (same_at_end old new p s)) [
  | inr e ↦ rw e r
  | inl e ↦ rw e (suffix_from-IsSuffix fuel old new p (suc s) (IsSuffix-suc old new p s r e))
]

Script-equals :
    (old new : List Text) (count x y : ℕ)
    → Run old new x y count
    → Script old new x y (equals count x y) (x + count) (y + count)
Script-equals old new zero x y r = (omega arith, omega arith)
Script-equals old new (suc c) x y r =
    let p : x + suc c ≡ suc x + c = omega arith in
    let q : y + suc c ≡ suc y + c = omega arith in
    (
      refl,
      refl,
      Run-head old new x y c r,
      rw (p, q) (Script-equals old new c (suc x) (suc y) (Run-tail old new x y c r)),
    )

get_elem?-take :
    (k : ℕ) (lines : List Text) (x : ℕ) (l : Text)
    → get_elem? (take k lines) x ≡ some l
    → get_elem? lines x ≡ some l
get_elem?-take zero lines x l h = absurd (cc)
get_elem?-take (suc k) [] x l h = h
get_elem?-take (suc k) (m ∷ lines) zero l h = h
get_elem?-take (suc k) (m ∷ lines) (suc x) l h = get_elem?-take k lines x l h

get_elem?-drop :
    (k : ℕ) (lines : List Text) (x : ℕ) → get_elem? (drop k lines) x ≡ get_elem? lines (k + x)
get_elem?-drop zero lines x = let e : 0 + x ≡ x = omega arith in rw e refl
get_elem?-drop (suc k) [] x = refl
get_elem?-drop (suc k) (m ∷ lines) x =
    let e : suc k + x ≡ suc (k + x) = omega arith in rw e (get_elem?-drop k lines x)

slice-Embeds : (start end : ℕ) (lines : List Text) → Embeds start (slice start end lines) lines
slice-Embeds start end lines x l h =
    sym (get_elem?-drop start lines x) ∙ get_elem?-take (end - start) (drop start lines) x l h

length-slice :
    (start end : ℕ) (lines : List Text)
    → start ≤ end
    → end ≤ length lines
    → start + length (slice start end lines) ≡ end
length-slice start end lines h k =
    omega (arith, length-take {0} (end - start) (drop start lines), length-drop {0} start lines)

-- The run at the end, from its first line on.
Tail-Run :
    (old new : List Text) (p s : ℕ)
    → IsSuffix old new p s
    → Run old new (length old - s) (length new - s) s
Tail-Run old new p s f i h =
    let u : length old - 1 - (s - 1 - i) ≡ length old - s + i = omega (arith, f.old_room) in
    let w : length new - 1 - (s - 1 - i) ≡ length new - s + i = omega (arith, f.new_room) in
    rw (← u, ← w) (f.tail (s - 1 - i) (omega arith))

zero_add : (p : ℕ) → 0 + p ≡ p
zero_add p = omega arith

trimmed-Script :
    (old new : List Text) (p s : ℕ)
    → Run old new 0 0 p
    → IsSuffix old new p s
    → (edits : List Edit) × (diff_trimmed old new p s ≡ some edits)
      × Script old new 0 0 edits (length old) (length new)
trimmed-Script old new p s r f =
    let n = length old in
    let m = length new in
    let a = slice p (n - s) old in
    let b = slice p (m - s) new in
    let u = length-slice p (n - s) old (omega (arith, f.old_room)) (omega arith) in
    let w = length-slice p (m - s) new (omega (arith, f.new_room)) (omega arith) in
    let (es, e, c) =
      diff_core-Script a b old new p (slice-Embeds p (n - s) old) (slice-Embeds p (m - s) new)
        (omega (arith, u)) (omega (arith, w)) in
    let x : n - s + s ≡ n = omega (arith, f.old_room) in
    let y : m - s + s ≡ m = omega (arith, f.new_room) in
    let front = Script-equals old new p 0 0 r in
    let back = Script-equals old new s (n - s) (m - s) (Tail-Run old new p s f) in
    let front' = rw (zero_add p) at front in
    let c' = rw (u, w) at c in
    let back' = rw (x, y) at back in
    let tail_edits = equals s (n - s) (m - s) in
    (
      equals p 0 0 ++ (es ++ tail_edits),
      ap (around old new p s) e,
      Script-append old new 0 0 p p n m (equals p 0 0) (es ++ tail_edits) front'
          (Script-append old new p p (n - s) (m - s) n m es tail_edits c' back'),
    )

run_room : (old new : List Text) (p : ℕ) → Run old new 0 0 p → (p ≤ length old) × (p ≤ length new)
run_room old new zero r = (omega arith, omega arith)
run_room old new (suc p) r =
    let (l, e, f) = r p (omega arith) in
    (omega (arith, get_elem?-lt old (0 + p) l e), omega (arith, get_elem?-lt new (0 + p) l f))

no_suffix : (old new : List Text) (p : ℕ) → Run old new 0 0 p → IsSuffix old new p 0
no_suffix old new p r = record {
  old_room = omega (arith, (run_room old new p r).0);
  new_room = omega (arith, (run_room old new p r).1);
  tail = λ i h. absurd (omega arith);
}

-- Two files of 40000 lines at most in all have a diff: its edits go through both files from the
-- first line to the last, in order and each line once, and keep only lines that are equal.
pub diff_lines-Script :
    (old new : List Text)
    → length old + length new ≤ 40000
    → (edits : List Edit) × (diff_lines old new ≡ some edits)
      × Script old new 0 0 edits (length old) (length new)
unfolding diff_lines
diff_lines-Script old new h =
    let p = prefix_from (length old) old new 0 in
    let s = suffix_from (length old) old new p 0 in
    let r = prefix_from-Run (length old) old new 0 (λ i k. absurd (omega arith)) in
    let f = suffix_from-IsSuffix (length old) old new p 0 (no_suffix old new p r) in
    let small : ltb (20000 * 2) (length old + length new) ≡ false = ground arith in
    rw small (trimmed-Script old new p s r f)
