-- ===== src/Diff/Hunks/Tests.antt =====
-- Runs of the hunks, and their theorems at concrete files.
use gitflare.Prelude.{
  ℕ, ◌≡◌, ◌<◌, ◌↔◌, refl, none, some, List, [], ◌∷◌, Text, codes, arith, to_radix,
}
use gitflare.Diff.Myers.{Edit, equal, insert, delete, split_lines}
use gitflare.Diff.Hunks.{FileDiffResult, ranges_of, diff_text, to_unified_diff, build_hunks}
use gitflare.Diff.Hunks.Ranges.{Separated, InRanges, NearChange, ranges_of_covers}
use gitflare.Diff.Hunks.Patch.{IsDiff, diff_text-IsDiff}

abbrev edits : List Edit
edits =
    equal 0 0 ∷ delete 1 ∷ insert 1 ∷ equal 2 2 ∷ equal 3 3 ∷ equal 4 4 ∷ equal 5 5 ∷ insert 6 ∷ []

ranges : ranges_of 1 edits ≡ record { start = 0; end = 3 } ∷ record { start = 6; end = 7 } ∷ []
unfolding ranges_of
ranges = refl

merged : ranges_of 2 edits ≡ record { start = 0; end = 7 } ∷ []
unfolding ranges_of
merged = refl

abbrev old_text : Text
old_text = codes "a\nb\nc\n"

abbrev new_text : Text
new_text = codes "a\nx\nc\n"

printed :
    to_unified_diff (codes "f") none (
      build_hunks
        (equal 0 0 ∷ delete 1 ∷ insert 1 ∷ equal 2 2 ∷ [])
        (split_lines old_text)
        (split_lines new_text)
        3)
    ≡ codes "--- a/f\n+++ b/f\n@@ -1,3 +1,3 @@\n a\n-b\n+x\n c\n"
unfolding to_unified_diff build_hunks to_radix
printed = refl

ranges_of_covers_example :
    Separated 8 0 (ranges_of 1 edits)
    × ((i : ℕ) → i < 8 → InRanges i (ranges_of 1 edits) ↔ NearChange 1 edits i)
ranges_of_covers_example = ranges_of_covers 1 edits

diff_text-IsDiff_example :
    (result : FileDiffResult) × (diff_text old_text new_text 3 ≡ some result)
    × IsDiff (split_lines old_text) (split_lines new_text) result
diff_text-IsDiff_example = diff_text-IsDiff old_text new_text 3 (omega arith) (omega arith)
