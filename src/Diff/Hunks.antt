-- ===== src/Diff/Hunks.antt =====
-- src/server/diff/hunks.ts: an edit script grouped into hunks, and their unified form.
pub mod Ranges
pub mod Cuts
pub mod Gathering
pub mod Parts
pub mod Patch
mod Tests
use gitflare.Prelude.{
  ℕ, zero, suc, ◌+◌, ◌-◌, max, min, Bool, true, false, ◌&&◌, Option, none, some, List, [], ◌∷◌,
  ◌++◌, map, leb, ltb, ◌==◌, length, take, drop, get_elem?, Text, codes, join, to_radix,
  if◌then◌else◌,
}
use gitflare.Diff.Myers.{Edit, equal, insert, delete, diff_lines, split_lines}

pub data LineKind : Type 0 where
  context : LineKind
  add_line : LineKind
  delete_line : LineKind

-- A line number of 0 is a line that does not exist on that side.
pub record DiffLine : Type 0 where
  pub kind : LineKind
  pub content : Text
  pub old_line : ℕ
  pub new_line : ℕ

pub record Hunk : Type 0 where
  pub old_start : ℕ
  pub old_lines : ℕ
  pub new_start : ℕ
  pub new_lines : ℕ
  pub header : Text
  pub lines : List DiffLine

pub record FileDiffResult : Type 0 where
  pub hunks : List Hunk
  pub additions : ℕ
  pub deletions : ℕ

abbrev pub default_context : ℕ
default_context = 3

-- The number of insertions and the number of deletions.
abbrev pub additions_of : List Edit → ℕ
additions_of [] = 0
additions_of (insert j ∷ edits) = suc (additions_of edits)
additions_of (equal i j ∷ edits) = additions_of edits
additions_of (delete i ∷ edits) = additions_of edits

abbrev pub deletions_of : List Edit → ℕ
deletions_of [] = 0
deletions_of (insert j ∷ edits) = deletions_of edits
deletions_of (equal i j ∷ edits) = deletions_of edits
deletions_of (delete i ∷ edits) = suc (deletions_of edits)

abbrev pub is_change : Edit → Bool
is_change (equal i j) = false
is_change (insert j) = true
is_change (delete i) = true

-- `changed`, from the edit of index `index` on.
abbrev pub changed_from : ℕ → List Edit → List ℕ
changed_from index [] = []
changed_from index (edit ∷ edits) =
    let rest = changed_from (suc index) edits in if is_change edit then index ∷ rest else rest

pub record Range : Type 0 where
  pub start : ℕ
  pub end : ℕ

-- Merged into the last range or pushed behind it.
abbrev pub push_range : List Range → ℕ → ℕ → List Range
push_range [] start end = record { start = start; end = end } ∷ []
push_range (last ∷ []) start end =
    if leb start (last.end + 1)
    then record { start = last.start; end = max last.end end } ∷ []
    else last ∷ record { start = start; end = end } ∷ []
push_range (range ∷ r ∷ ranges) start end = range ∷ push_range (r ∷ ranges) start end

abbrev pub merge_ranges : ℕ → ℕ → List Range → List ℕ → List Range
merge_ranges context_lines total ranges [] = ranges
merge_ranges context_lines total ranges (index ∷ changed) =
    merge_ranges context_lines total
      (push_range ranges (index - context_lines) (min (total - 1) (index + context_lines))) changed

-- `ranges`, of all edits.
unfoldable pub ranges_of : ℕ → List Edit → List Range
ranges_of context_lines edits = merge_ranges context_lines (length edits) [] (changed_from 0 edits)

-- What the loop over a range has gathered.
pub record Gathered : Type 0 where
  pub old_start : ℕ
  pub new_start : ℕ
  pub old_count : ℕ
  pub new_count : ℕ
  pub lines : List DiffLine

abbrev pub nothing_gathered : Gathered
nothing_gathered = record { old_start = 0; new_start = 0; old_count = 0; new_count = 0; lines = [] }

-- `lines[index]!`: the indices of an edit script are in range.
abbrev pub line_at : List Text → ℕ → Text
line_at lines index = elim (get_elem? lines index) [ none ↦ [] | some line ↦ line ]

-- `if (start === 0 && line > 0) start = line`
abbrev pub first_line : ℕ → ℕ → ℕ
first_line start line = if start == 0 && ltb 0 line then line else start

-- The body of the loop over a range.
abbrev pub gather_edit : List Text → List Text → Gathered → Edit → Gathered
gather_edit old new g (equal i j) = record {
  old_start = first_line g.old_start (i + 1);
  new_start = first_line g.new_start (j + 1);
  old_count = g.old_count + 1;
  new_count = g.new_count + 1;
  lines =
      g.lines
      ++ record { kind = context; content = line_at old i; old_line = i + 1; new_line = j + 1 }
        ∷ [];
}
gather_edit old new g (delete i) = record {
  old_start = first_line g.old_start (i + 1);
  new_start = g.new_start;
  old_count = g.old_count + 1;
  new_count = g.new_count;
  lines =
      g.lines
      ++ record { kind = delete_line; content = line_at old i; old_line = i + 1; new_line = 0 }
        ∷ [];
}
gather_edit old new g (insert j) = record {
  old_start = g.old_start;
  new_start = first_line g.new_start (j + 1);
  old_count = g.old_count;
  new_count = g.new_count + 1;
  lines =
      g.lines
      ++ record { kind = add_line; content = line_at new j; old_line = 0; new_line = j + 1 } ∷ [];
}

abbrev pub gather_all : List Text → List Text → Gathered → List Edit → Gathered
gather_all old new g [] = g
gather_all old new g (edit ∷ edits) = gather_all old new (gather_edit old new g edit) edits

-- `if (start === 0) start = count === 0 ? 0 : 1`
abbrev pub settle_start : ℕ → ℕ → ℕ
settle_start start count = if start == 0 then if count == 0 then 0 else 1 else start

abbrev pub header_of : ℕ → ℕ → ℕ → ℕ → Text
header_of old_start old_lines new_start new_lines =
    codes "@@ -"
    ++ (to_radix 10 old_start
        ++ (codes ","
            ++ (to_radix 10 old_lines
                ++ (codes " +"
                    ++ (to_radix 10 new_start
                        ++ (codes "," ++ (to_radix 10 new_lines ++ codes " @@")))))))

abbrev pub hunk_from : Gathered → Hunk
hunk_from g =
    let old_start = settle_start g.old_start g.old_count in
    let new_start = settle_start g.new_start g.new_count in
    record {
      old_start = old_start;
      old_lines = g.old_count;
      new_start = new_start;
      new_lines = g.new_count;
      header = header_of old_start g.old_count new_start g.new_count;
      lines = g.lines;
    }

-- The edits of a range, whose ends are indices of the script.
abbrev pub edits_in : List Edit → Range → List Edit
edits_in edits range = take (range.end + 1 - range.start) (drop range.start edits)

abbrev pub hunk_of : List Text → List Text → List Edit → Range → Hunk
hunk_of old new edits range = hunk_from (gather_all old new nothing_gathered (edits_in edits range))

unfoldable pub build_hunks : List Edit → List Text → List Text → ℕ → FileDiffResult
unfolding ranges_of
build_hunks edits old new context_lines =
    if additions_of edits == 0 && deletions_of edits == 0
    then record { hunks = []; additions = 0; deletions = 0 }
    else record {
      hunks = map (hunk_of old new edits) (ranges_of context_lines edits);
      additions = additions_of edits;
      deletions = deletions_of edits;
    }

-- `none` is a DiffTooLargeError.
unfoldable pub build_from : List Text → List Text → ℕ → Option (List Edit) → Option FileDiffResult
build_from old new context_lines none = none
build_from old new context_lines (some edits) = some (build_hunks edits old new context_lines)

unfoldable pub diff_text : Text → Text → ℕ → Option FileDiffResult
unfolding diff_lines build_hunks
diff_text old_text new_text context_lines =
    let old = split_lines old_text in
    let new = split_lines new_text in build_from old new context_lines (diff_lines old new)

abbrev pub line_prefix : LineKind → Text
line_prefix context = codes " "
line_prefix add_line = codes "+"
line_prefix delete_line = codes "-"

abbrev pub print_line : DiffLine → Text
print_line line = line_prefix line.kind ++ line.content

abbrev pub print_hunks : List Hunk → List Text
print_hunks [] = []
print_hunks (hunk ∷ hunks) = hunk.header ∷ (map print_line hunk.lines ++ print_hunks hunks)

-- `previousPath ?? path`
abbrev pub from_path : Text → Option Text → Text
from_path path none = path
from_path path (some previous_path) = previous_path

unfoldable pub to_unified_diff : Text → Option Text → FileDiffResult → Text
to_unified_diff path previous_path result = elim result.hunks [
  | [] ↦ []
  | h ∷ hunks ↦
      join (codes "\n") (
        (codes "--- a/" ++ from_path path previous_path)
        ∷ (codes "+++ b/" ++ path)
        ∷ print_hunks (h ∷ hunks))
      ++ codes "\n"
]
