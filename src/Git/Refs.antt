-- ===== src/Git/Refs.antt =====
-- src/server/git/refs.ts: the refs of a repository, from the advertisement of its remote.
pub mod Advertisement
pub mod TagMap
pub mod TagSearch
pub mod Tags
mod Tests
use gitflare.Prelude.{
  ℕ, suc, ◌+◌, ◌-◌, ◌≡◌, Bool, true, false, ◌&&◌, ◌||◌, not, Option, none, some, List, [], ◌∷◌,
  ◌++◌, ◌==◌, leb, length, take, drop, replicate, filter, codes, text_eq, starts_with, index_of,
  split, Text, if◌then◌else◌,
}
use gitflare.Git.PktLine.{
  PktLine, payload, special, PktError, Result, ok, err, stuck, decode_pkt_lines,
}

pub record GitRef : Type 0 where
  pub name : Text
  pub sha : Text

pub record RefAdvertisement : Type 0 where
  pub refs : List GitRef
  pub capabilities : List Text
  pub head_ref : Option Text

abbrev pub zero_sha : Text
zero_sha = replicate 40 48

-- `.replace(/\n$/, '')`
unfoldable pub strip_newline : Text → Text
strip_newline [] = []
strip_newline (c ∷ []) = if c == 10 then [] else c ∷ []
strip_newline (c ∷ d ∷ s) = c ∷ strip_newline (d ∷ s)

abbrev pub is_lower_hex : ℕ → Bool
is_lower_hex c = (leb 48 c && leb c 57) || (leb 97 c && leb c 102)

abbrev pub all_lower_hex : Text → Bool
all_lower_hex [] = true
all_lower_hex (c ∷ s) = is_lower_hex c && all_lower_hex s

-- `/^[0-9a-f]{40}$/`
pub is_sha : Text → Bool
is_sha s = length s == 40 && all_lower_hex s

-- The variables of the loop in `parseRefAdvertisement`.
pub record Progress : Type 0 where
  pub refs : List GitRef
  pub capabilities : List Text
  pub saw_banner : Bool

abbrev pub is_empty {ℓ} : {A : Type ℓ} → List A → Bool
is_empty [] = true
is_empty (_ ∷ _) = false

-- The capabilities behind a NUL at `nul`, if none were read before.
read_capabilities : Text → Option ℕ → List Text → List Text
read_capabilities text none capabilities = capabilities
read_capabilities text (some nul) [] =
    filter (λ s. not (is_empty s)) (split 32 (drop (suc nul) text))
read_capabilities text (some nul) (c ∷ cs) = c ∷ cs

-- `text.slice(0, nul)`, or all of it without a NUL.
ref_part : Text → Option ℕ → Text
ref_part text none = text
ref_part text (some nul) = take nul text

-- From `const space` on: the ref of a line, if it carries one.
read_ref : Text → Option ℕ → List GitRef
read_ref part none = []
read_ref part (some space) =
    let sha = take space part in
    let name = drop (suc space) part in
    if not (is_sha sha)
    then []
    else if text_eq name (codes "capabilities^{}") || text_eq sha zero_sha
    then []
    else record { name = name; sha = sha } ∷ []

read_line : Progress → Text → Progress
read_line p text =
    if not p.saw_banner && starts_with (codes "# service=") text
    then record p { saw_banner = true }
    else if is_empty text
    then p
    else let nul = index_of 0 text in
      let part = ref_part text nul in
      record p {
        refs = p.refs ++ read_ref part (index_of 32 part);
        capabilities = read_capabilities text nul p.capabilities;
      }

read_lines : Progress → List PktLine → Progress
read_lines p [] = p
read_lines p (special code ∷ ls) = read_lines p ls
read_lines p (payload bytes ∷ ls) = read_lines (read_line p (strip_newline bytes)) ls

abbrev pub symref_head : Text
symref_head = codes "symref=HEAD:"

-- `capabilities.find(...)`, and the slice behind the prefix.
find_head : List Text → Option Text
find_head [] = none
find_head (c ∷ cs) =
    if starts_with symref_head c then some (drop (length symref_head) c) else find_head cs

finish : Progress → RefAdvertisement
finish p = record {
  refs = p.refs;
  capabilities = p.capabilities;
  head_ref = find_head p.capabilities;
}

abbrev start : Progress
start = record { refs = []; capabilities = []; saw_banner = false }

abbrev map_lines :
    Result (List PktLine) → (List PktLine → RefAdvertisement) → Result RefAdvertisement
map_lines (ok lines) f = ok (f lines)
map_lines (err e) f = err e
map_lines stuck f = stuck

unfoldable pub parse_ref_advertisement : Text → Result RefAdvertisement
unfolding read_lines read_line read_ref read_capabilities ref_part finish find_head is_sha
    strip_newline decode_pkt_lines
parse_ref_advertisement body =
    map_lines (decode_pkt_lines body) (λ lines. finish (read_lines start lines))

pub record ResolvedRefs : Type 0 where
  pub branches : List GitRef
  pub tags : List GitRef
  pub head_branch : Option Text

abbrev pub heads_prefix : Text
heads_prefix = codes "refs/heads/"

abbrev pub tags_prefix : Text
tags_prefix = codes "refs/tags/"

abbrev pub peel_mark : Text
peel_mark = codes "^{}"

-- `raw.endsWith('^{}')`
abbrev pub ends_with : Text → Text → Bool
ends_with suffix s =
    leb (length suffix) (length s) && text_eq (drop (length s - length suffix) s) suffix

-- The map of tags, in insertion order. `set` on a name that is there keeps its place.
pub has_tag : Text → List GitRef → Bool
has_tag n [] = false
has_tag n (t ∷ ts) = text_eq t.name n || has_tag n ts

pub set_tag : GitRef → List GitRef → List GitRef
set_tag r [] = r ∷ []
set_tag r (t ∷ ts) = if text_eq t.name r.name then r ∷ ts else t ∷ set_tag r ts

-- `if (peeled || !tags.has(name)) tags.set(name, { name, sha })` for a ref's text behind the prefix.
pub add_tag : Text → Text → List GitRef → List GitRef
add_tag raw sha tags =
    let peeled = ends_with peel_mark raw in
    let name = if peeled then take (length raw - 3) raw else raw in
    if peeled || not (has_tag name tags)
    then set_tag (record { name = name; sha = sha }) tags
    else tags

pub collect_branches : List GitRef → List GitRef
collect_branches [] = []
collect_branches (r ∷ rs) =
    if starts_with heads_prefix r.name
    then record { name = drop (length heads_prefix) r.name; sha = r.sha } ∷ collect_branches rs
    else collect_branches rs

-- One round of the loop of `resolveRefs`, on the tags.
pub tag_step : List GitRef → GitRef → List GitRef
tag_step tags r =
    if starts_with heads_prefix r.name
    then tags
    else if starts_with tags_prefix r.name
    then add_tag (drop (length tags_prefix) r.name) r.sha tags
    else tags

pub collect_tags : List GitRef → List GitRef → List GitRef
collect_tags tags [] = tags
collect_tags tags (r ∷ rs) = collect_tags (tag_step tags r) rs

head_branch_of : Option Text → Option Text
head_branch_of none = none
head_branch_of (some head) =
    if starts_with heads_prefix head then some (drop (length heads_prefix) head) else none

-- `Array.prototype.sort`, which is stable; `after a b` says that the callback is positive.
module _ (after : GitRef → GitRef → Bool) where
  pub insert_sorted : GitRef → List GitRef → List GitRef
  insert_sorted r [] = r ∷ []
  insert_sorted r (s ∷ ss) = if after r s then s ∷ insert_sorted r ss else r ∷ s ∷ ss

  pub sort_refs : List GitRef → List GitRef
  sort_refs [] = []
  sort_refs (r ∷ rs) = insert_sorted r (sort_refs rs)

-- `locale_after a b` stands for `a.localeCompare(b) > 0`, which the runtime's locale decides.
module _ (locale_after : Text → Text → Bool) where
  unfoldable pub resolve_refs : RefAdvertisement → ResolvedRefs
  unfolding collect_branches collect_tags tag_step add_tag has_tag set_tag head_branch_of sort_refs
      insert_sorted
  resolve_refs a = record {
    branches = sort_refs (λ r s. locale_after r.name s.name) (collect_branches a.refs);
    tags = sort_refs (λ r s. locale_after s.name r.name) (collect_tags [] a.refs);
    head_branch = head_branch_of a.head_ref;
  }
