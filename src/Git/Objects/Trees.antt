-- ===== src/Git/Objects/Trees.antt =====
-- The order of a tree's entries.
use gitflare.Prelude.{◌≡◌, ◌≢◌, ◌⊎◌, ◌++◌, false, codes, List, [], ◌∷◌, Text, text_lt}
use mathlib.Core.List.{Perm}
use mathlib.Core.List.Perm as Perm
use gitflare.Git.Objects.{TreeEntry, sort_name}

-- The path by which an entry is ordered: its name, and for a directory a slash at its end.
abbrev pub IsPath : TreeEntry → Text → Type 0
IsPath entry path =
    ((entry.mode ≡ codes "40000") × (path ≡ entry.name ++ codes "/"))
    ⊎ ((entry.mode ≢ codes "40000") × (path ≡ entry.name))

-- The path of the next entry is not smaller, by code units.
abbrev pub NoDescent : TreeEntry → List TreeEntry → Type 0
NoDescent entry [] = Unit
NoDescent entry (next ∷ entries) =
    (before : Text) × (behind : Text) × IsPath entry before
    × IsPath next behind
    × (text_lt behind before ≡ false)

abbrev pub IsSorted : List TreeEntry → Type 0
IsSorted [] = Unit
IsSorted (entry ∷ entries) = NoDescent entry entries × IsSorted entries

-- Neighbours that the comparison of the sort does not exchange.
abbrev InOrder : TreeEntry → List TreeEntry → Type 0
InOrder entry [] = Unit
InOrder entry (next ∷ entries) = text_lt (sort_name next) (sort_name entry) ≡ false

abbrev AllInOrder : List TreeEntry → Type 0
AllInOrder [] = Unit
AllInOrder (entry ∷ entries) = InOrder entry entries × AllInOrder entries
