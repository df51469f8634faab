-- ===== src/Git/Objects.antt =====
-- src/server/git/objects.ts: git objects, their hashes and the packfile. Content is a list of bytes.
-- `utf8` is TextEncoder, `sha1` WebCrypto's digest and `deflate` the platform's CompressionStream.
pub mod Headers
pub mod Hex
pub mod Packs
pub mod Trees
mod Tests
use gitflare.Prelude.{
  ℕ, zero, suc, ◌+◌, ◌-◌, ◌*◌, ◌/◌, ◌%◌, ◌^◌, Bool, true, false, Option, none, some, List, [], ◌∷◌,
  ◌++◌, ltb, ◌==◌, ◌||◌, length, to_radix, pad_start, hex_value, Text, codes, if◌then◌else◌,
  text_eq, text_lt, is_space, join, map,
}
use Prim.Native.Nat.{bit_or}

pub data ObjectType : Type 0 where
  commit : ObjectType
  tree : ObjectType
  blob : ObjectType
  tag : ObjectType

-- `TYPE_CODES`
abbrev pub type_code : ObjectType → ℕ
type_code commit = 1
type_code tree = 2
type_code blob = 3
type_code tag = 4

abbrev pub type_name : ObjectType → Text
type_name commit = codes "commit"
type_name tree = codes "tree"
type_name blob = codes "blob"
type_name tag = codes "tag"

pub record GitObject : Type 0 where
  object_type : ObjectType
  content : Text
  sha : Text

pub record TreeEntry : Type 0 where
  mode : Text
  name : Text
  sha : Text

-- `when` is in milliseconds.
pub record Signature : Type 0 where
  name : Text
  email : Text
  when : ℕ
  timezone : Option Text

pub record CommitInput : Type 0 where
  tree_sha : Text
  parents : List Text
  author : Signature
  committer : Option Signature
  message : Text

abbrev pub concat : List Text → Text
concat [] = []
concat (part ∷ parts) = part ++ concat parts

abbrev pub to_hex : Text → Text
to_hex [] = []
to_hex (byte ∷ bytes) = pad_start 2 48 (to_radix 16 byte) ++ to_hex bytes

-- `Number.parseInt` in base 16 of two code units, stored in a byte; NaN is stored as 0.
abbrev pub parse_behind : ℕ → ℕ → ℕ
parse_behind a b = elim (hex_value b) [
  | none ↦ 0
  | some y ↦ if is_space a || a == 43 then y else if a == 45 then (256 - y) % 256 else 0
]

abbrev pub parse_byte : ℕ → ℕ → ℕ
parse_byte a b = elim (hex_value a) [
  | none ↦ parse_behind a b
  | some x ↦ elim (hex_value b) [ none ↦ x | some y ↦ x * 16 + y ]
]

-- The array has half the length, rounded down, so an odd code unit at the end is not read.
abbrev pub from_hex : Text → Text
from_hex [] = []
from_hex (a ∷ []) = []
from_hex (a ∷ b ∷ hex) = parse_byte a b ∷ from_hex hex

-- The loop that pushes the bytes of a header. `remaining` is divided in each round, so it is fuel
-- enough. `& 0x7f` and `>>= 7` of a positive number are the remainder and the quotient by 128.
pub push_groups : ℕ → ℕ → ℕ → Text
push_groups zero byte remaining = byte ∷ []
push_groups (suc fuel) byte remaining =
    let rest = push_groups fuel (remaining % 128) (remaining / 128) in
    if ltb 0 remaining then bit_or byte 0x80 ∷ rest else byte ∷ []

-- `size >> 4` reads the size as a signed number of 32 bits; when that is negative, so is the
-- result, for which 0 stands here, since the loop only asks whether it is positive.
abbrev pub shift_size : ℕ → ℕ
shift_size size = let word = size % 2 ^ 32 in if ltb word (2 ^ 31) then word / 16 else 0

unfoldable pub encode_object_header : ℕ → ℕ → Text
unfolding push_groups
encode_object_header code size =
    push_groups (shift_size size) (bit_or (code * 16) (size % 16)) (shift_size size)

-- The name that git compares: a directory's ends in `/`.
abbrev pub sort_name : TreeEntry → Text
sort_name entry = if text_eq entry.mode (codes "40000") then entry.name ++ codes "/" else entry.name

-- `Array.prototype.sort` is stable: an entry goes behind those that are not greater.
abbrev pub insert_entry : TreeEntry → List TreeEntry → List TreeEntry
insert_entry entry [] = entry ∷ []
insert_entry entry (other ∷ sorted) =
    if text_lt (sort_name other) (sort_name entry)
    then other ∷ insert_entry entry sorted
    else entry ∷ other ∷ sorted

abbrev pub sort_entries : List TreeEntry → List TreeEntry
sort_entries [] = []
sort_entries (entry ∷ entries) = insert_entry entry (sort_entries entries)

-- `??`
abbrev pub default : {A : Type 0} → Option A → A → A
default none fallback = fallback
default (some a) fallback = a

abbrev pub signature : Signature → Text
signature sig =
    sig.name
    ++ codes " <"
    ++ sig.email
    ++ codes "> "
    ++ to_radix 10 (sig.when / 1000)
    ++ codes " "
    ++ default sig.timezone (codes "+0000")

abbrev pub ends_with_newline : Text → Bool
ends_with_newline [] = false
ends_with_newline (c ∷ []) = c == 10
ends_with_newline (c ∷ d ∷ s) = ends_with_newline (d ∷ s)

abbrev pub commit_text : CommitInput → Text
commit_text input = join (codes "\n") (
    (codes "tree " ++ input.tree_sha) ∷ map (λ parent. codes "parent " ++ parent) input.parents
    ++ (codes "author " ++ signature input.author)
      ∷ (codes "committer " ++ signature (default input.committer input.author))
      ∷ []
      ∷ (if ends_with_newline input.message then input.message else input.message ++ codes "\n")
      ∷ [])

-- `DataView.setUint32`, the highest byte first.
abbrev pub uint32 : ℕ → Text
uint32 n = n / 2 ^ 24 % 256 ∷ n / 2 ^ 16 % 256 ∷ n / 2 ^ 8 % 256 ∷ n % 256 ∷ []

module _ (utf8 : Text → Text) where
  abbrev pub tree_parts : List TreeEntry → List Text
  tree_parts [] = []
  tree_parts (entry ∷ entries) =
      utf8 (entry.mode ++ codes " " ++ entry.name ++ 0 ∷ [])
      ∷ from_hex entry.sha
      ∷ tree_parts entries

module _ (utf8 sha1 : Text → Text) where
  abbrev pub hash_object : ObjectType → Text → GitObject
  hash_object object_type content =
      let header =
        utf8 (type_name object_type ++ codes " " ++ to_radix 10 (length content) ++ 0 ∷ []) in
      record {
        object_type = object_type;
        content = content;
        sha = to_hex (sha1 (concat (header ∷ content ∷ [])));
      }

  abbrev pub build_tree : List TreeEntry → GitObject
  build_tree entries = hash_object tree (concat (tree_parts utf8 (sort_entries entries)))

  abbrev pub build_commit : CommitInput → GitObject
  build_commit input = hash_object commit (utf8 (commit_text input))

module _ (deflate : Text → Text) where
  abbrev pub object_parts : List GitObject → List Text
  object_parts [] = []
  object_parts (object ∷ objects) =
      encode_object_header (type_code object.object_type) (length object.content)
      ∷ deflate object.content
      ∷ object_parts objects

module _ (sha1 deflate : Text → Text) where
  abbrev pub build_packfile : List GitObject → Text
  build_packfile objects =
      let body =
        concat
          ((codes "PACK" ++ uint32 2 ++ uint32 (length objects)) ∷ object_parts deflate objects) in
      concat (body ∷ sha1 body ∷ [])
