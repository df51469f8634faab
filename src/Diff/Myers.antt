-- ===== src/Diff/Myers.antt =====
-- src/server/diff/myers.ts: the edit script between two files. A line is a text; a frontier, an
-- Int32Array in the source, is a function from its indices, whose values are counts of lines.
pub mod Diagonals
pub mod Reach
pub mod Correct
pub mod Shortest
mod Tests
pub mod Search
pub mod Script
pub mod Backtrack
use gitflare.Prelude.{
  ℕ, zero, suc, ◌+◌, ◌-◌, ◌*◌, Bool, false, ◌&&◌, ◌||◌, not, Option, none, some, List, [], ◌∷◌,
  ◌++◌, ltb, leb, ◌==◌, length, take, drop, get_elem?, Text, text_eq, if◌then◌else◌, split,
}

-- An index that the source sets to -1 is not there.
pub data Edit : Type 0 where
  equal : ℕ → ℕ → Edit
  insert : ℕ → Edit
  delete : ℕ → Edit

abbrev pub max_diff_lines : ℕ
max_diff_lines = 20000

-- `a[x] === b[y]`; both indices are in range where the source compares.
abbrev pub same_text : Option Text → Option Text → Bool
same_text none t = false
same_text (some s) none = false
same_text (some s) (some t) = text_eq s t

abbrev pub goes_on : List Text → List Text → ℕ → ℕ → Bool
goes_on a b x y = ltb x (length a) && ltb y (length b) && same_text (get_elem? a x) (get_elem? b y)

-- The loop along a diagonal; as many rounds as `a` has lines are enough.
unfoldable pub follow : ℕ → List Text → List Text → ℕ → ℕ → ℕ × ℕ
follow zero a b x y = (x, y)
follow (suc fuel) a b x y =
    let rest = follow fuel a b (suc x) (suc y) in if goes_on a b x y then rest else (x, y)

abbrev pub Frontier : Type 0
Frontier = ℕ → ℕ

abbrev pub set_at : Frontier → ℕ → ℕ → Frontier
set_at v index x i = if i == index then x else v i

-- `k === -d || (k !== d && v[index - 1] < v[index + 1])`, where `index` is `k + max`.
abbrev pub goes_down : ℕ → ℕ → Frontier → ℕ → Bool
goes_down top d v index =
    index + d == top || (not (index == top + d) && ltb (v (index - 1)) (v (index + 1)))

abbrev pub start_x : ℕ → ℕ → Frontier → ℕ → ℕ
start_x top d v index = if goes_down top d v index then v (index + 1) else v (index - 1) + 1

-- The point that the body of the inner loop reaches; `y = x - k`.
abbrev pub reach_point : List Text → List Text → ℕ → Frontier → ℕ → ℕ × ℕ
reach_point a b d v index =
    let top = length a + length b in
    let x = start_x top d v index in follow (length a) a b x (x + top - index)

-- The loop over `k`, of `rounds` rounds from `index`: the frontier after it, or `none` when it
-- returns, since the end of both files is reached.
unfoldable pub search_round : ℕ → List Text → List Text → ℕ → ℕ → Frontier → Option Frontier
search_round zero a b d index v = some v
search_round (suc rounds) a b d index v =
    let point = reach_point a b d v index in
    let rest = search_round rounds a b d (index + 2) (set_at v index point.0) in
    if leb (length a) point.0 && leb (length b) point.1 then none else rest

-- The loop over `d`: the recorded frontiers, the last one first, or `none` when it does not
-- converge.
unfoldable pub search_from :
    ℕ → List Text → List Text → ℕ → Frontier → List Frontier → Option (List Frontier)
search_from zero a b d v trace = none
search_from (suc rounds) a b d v trace =
    elim (search_round (suc d) a b d (length a + length b - d) v) [
      | none ↦ some (v ∷ trace)
      | some v' ↦ search_from rounds a b (suc d) v' (v ∷ trace)
    ]

-- A position and the edits that lead from it to the end.
pub record Walk : Type 0 where
  pub x : ℕ
  pub y : ℕ
  pub edits : List Edit

-- The loop back along a diagonal; `y > previousY` with `previousY = previousX - previousK`.
unfoldable pub slide_back : ℕ → ℕ → ℕ → ℕ → ℕ → Walk → Walk
slide_back zero offset top previous_x previous_index w = w
slide_back (suc fuel) offset top previous_x previous_index w =
    let rest = slide_back fuel offset top previous_x previous_index record {
      x = w.x - 1;
      y = w.y - 1;
      edits = equal (offset + (w.x - 1)) (offset + (w.y - 1)) ∷ w.edits;
    } in
    if ltb previous_x w.x && ltb (previous_x + top) (w.y + previous_index) then rest else w

abbrev pub step_down : ℕ → Walk → Walk
step_down offset w = record { x = w.x; y = w.y - 1; edits = insert (offset + (w.y - 1)) ∷ w.edits }

abbrev pub step_left : ℕ → Walk → Walk
step_left offset w = record { x = w.x - 1; y = w.y; edits = delete (offset + (w.x - 1)) ∷ w.edits }

-- The diagonal before a step, in the round of `d`.
abbrev pub slide : ℕ → ℕ → ℕ → Frontier → Walk → Walk
slide offset top d v w =
    let index = w.x + top - w.y in
    let previous_index = if goes_down top d v index then index + 1 else index - 1 in
    slide_back w.x offset top (v previous_index) previous_index w

-- The body of the loop, behind which the source stops when `d` is 0.
abbrev pub back_round : ℕ → ℕ → ℕ → Frontier → Walk → Walk
back_round offset top d v w =
    let slid = slide offset top d v w in
    if d == 0
    then slid
    else if goes_down top d v (w.x + top - w.y)
    then step_down offset slid
    else step_left offset slid

-- The edits are pushed from the last to the first, and so stand in order in this list, as they do
-- in the array after `reverse`.
unfoldable pub walk_back : ℕ → ℕ → List Frontier → Walk → Walk
walk_back offset top [] w = w
walk_back offset top (v ∷ trace) w =
    let rest = walk_back offset top trace (back_round offset top (length trace) v w) in
    if w.x == 0 && w.y == 0 then w else rest

abbrev pub backtrack : List Text → List Text → ℕ → List Frontier → List Edit
backtrack a b offset trace =
    (walk_back offset (length a + length b) trace
      record { x = length a; y = length b; edits = [] }).edits

abbrev pub inserts : ℕ → List Text → List Edit
inserts i [] = []
inserts i (line ∷ lines) = insert i ∷ inserts (suc i) lines

abbrev pub deletes : ℕ → List Text → List Edit
deletes i [] = []
deletes i (line ∷ lines) = delete i ∷ deletes (suc i) lines

abbrev pub search_trace : List Text → List Text → Option (List Frontier)
search_trace a b = search_from (length a + length b + 1) a b 0 (λ i. 0) []

-- `none` is the exception that the search does not converge.
unfoldable pub diff_core : List Text → List Text → ℕ → Option (List Edit)
unfolding search_from walk_back
diff_core [] b offset = some (inserts offset b)
diff_core (l ∷ a) [] offset = some (deletes offset (l ∷ a))
diff_core (l ∷ a) (k ∷ b) offset = elim (search_trace (l ∷ a) (k ∷ b)) [
  | none ↦ none
  | some trace ↦ some (backtrack (l ∷ a) (k ∷ b) offset trace)
]

-- The loop over the common prefix; as many rounds as there are old lines are enough.
unfoldable pub prefix_from : ℕ → List Text → List Text → ℕ → ℕ
prefix_from zero old new prefix = prefix
prefix_from (suc fuel) old new prefix =
    let rest = prefix_from fuel old new (suc prefix) in
    if goes_on old new prefix prefix then rest else prefix

-- The test of the loop over the common suffix.
abbrev pub same_at_end : List Text → List Text → ℕ → ℕ → Bool
same_at_end old new prefix suffix =
    ltb suffix (length old - prefix)
    && ltb suffix (length new - prefix)
    && same_text (get_elem? old (length old - 1 - suffix)) (get_elem? new (length new - 1 - suffix))

unfoldable pub suffix_from : ℕ → List Text → List Text → ℕ → ℕ → ℕ
suffix_from zero old new prefix suffix = suffix
suffix_from (suc fuel) old new prefix suffix =
    let rest = suffix_from fuel old new prefix (suc suffix) in
    if same_at_end old new prefix suffix then rest else suffix

abbrev pub equals : ℕ → ℕ → ℕ → List Edit
equals zero i j = []
equals (suc count) i j = equal i j ∷ equals count (suc i) (suc j)

-- `Array.prototype.slice` with both ends.
abbrev pub slice : ℕ → ℕ → List Text → List Text
slice start end lines = take (end - start) (drop start lines)

abbrev pub around : List Text → List Text → ℕ → ℕ → Option (List Edit) → Option (List Edit)
around old new prefix suffix none = none
around old new prefix suffix (some edits) =
    some (equals prefix 0 0 ++ (edits ++ equals suffix (length old - suffix) (length new - suffix)))

abbrev pub diff_trimmed : List Text → List Text → ℕ → ℕ → Option (List Edit)
diff_trimmed old new prefix suffix = around old new prefix suffix (
    diff_core (slice prefix (length old - suffix) old) (slice prefix (length new - suffix) new)
      prefix)

-- `none` is a DiffTooLargeError.
unfoldable pub diff_lines : List Text → List Text → Option (List Edit)
unfolding prefix_from suffix_from diff_core
diff_lines old new =
    let prefix = prefix_from (length old) old new 0 in
    let suffix = suffix_from (length old) old new prefix 0 in
    if ltb (max_diff_lines * 2) (length old + length new)
    then none
    else diff_trimmed old new prefix suffix

-- `if (lines.at(-1) === '') lines.pop()`
abbrev pub drop_last_empty : List Text → List Text
drop_last_empty [] = []
drop_last_empty ([] ∷ []) = []
drop_last_empty ((c ∷ line) ∷ []) = (c ∷ line) ∷ []
drop_last_empty (line ∷ l ∷ lines) = line ∷ drop_last_empty (l ∷ lines)

abbrev pub split_lines : Text → List Text
split_lines [] = []
split_lines (c ∷ text) = drop_last_empty (split 10 (c ∷ text))
