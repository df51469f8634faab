-- ===== src/Diff/Myers/Tests.antt =====
-- Runs of the diff, and its theorems at concrete files.
use gitflare.Prelude.{◌≡◌, ◌≤◌, refl, some, List, [], ◌∷◌, Text, codes, arith}
use gitflare.Diff.Myers.{
  Edit, equal, insert, delete, diff_core, diff_lines, search_round, split_lines, follow, slide_back,
}
use gitflare.Diff.Myers.Script.{Script, changes}
use gitflare.Diff.Myers.Correct.{diff_lines-Script}
use gitflare.Diff.Myers.Shortest.{diff_core_shortest}

abbrev before : List Text
before = codes "a" ∷ codes "b" ∷ codes "c" ∷ codes "a" ∷ codes "b" ∷ codes "b" ∷ codes "a" ∷ []

abbrev after : List Text
after = codes "c" ∷ codes "b" ∷ codes "a" ∷ codes "b" ∷ codes "a" ∷ codes "c" ∷ []

trimmed :
    diff_lines (codes "a" ∷ codes "b" ∷ codes "c" ∷ []) (codes "a" ∷ codes "x" ∷ codes "c" ∷ [])
    ≡ some (equal 0 0 ∷ delete 1 ∷ insert 1 ∷ equal 2 2 ∷ [])
unfolding diff_lines search_round follow slide_back
trimmed = refl

lines : split_lines (codes "a\nb\n") ≡ codes "a" ∷ codes "b" ∷ []
lines = refl

diff_lines-Script_example :
    (edits : List Edit) × (diff_lines before after ≡ some edits) × Script before after 0 0 edits 7 6
diff_lines-Script_example = diff_lines-Script before after (omega arith)

diff_core_shortest_example :
    (edits : List Edit) × (diff_core before after 0 ≡ some edits)
    × ((other : List Edit) → Script before after 0 0 other 7 6 → changes edits ≤ changes other)
diff_core_shortest_example = diff_core_shortest before after 0
