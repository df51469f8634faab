-- ===== src/Git/Objects/Tests.antt =====
-- Runs of the object code, and its theorems at concrete objects.
use gitflare.Prelude.{
  ◌≡◌, refl, Option, none, some, List, [], ◌∷◌, ◌++◌, Text, codes, length, take, drop, take-append,
  drop-append, replicate, length-replicate, arith,
}
use gitflare.Git.Objects.{
  blob, tree, sort_entries, GitObject, TreeEntry, encode_object_header, build_packfile, to_hex,
  from_hex,
}
use gitflare.Git.Objects.Headers.{read_object_header, read_object_header-encode_object_header}
use gitflare.Git.Objects.Hex.{from_hex-to_hex}
use gitflare.Git.Objects.Packs.{read_pack, read_pack-build_packfile}

header_of_one_byte : encode_object_header 3 5 ≡ 0x35 ∷ []
unfolding encode_object_header
header_of_one_byte = refl

header_of_three_bytes : encode_object_header 3 0x1234 ≡ 0xb4 ∷ 0xa3 ∷ 0x02 ∷ []
unfolding encode_object_header
header_of_three_bytes = refl

read_object_header-encode_object_header_example :
    read_object_header (encode_object_header 3 0x1234 ++ codes "x") ≡ some (3, 0x1234, codes "x")
read_object_header-encode_object_header_example =
    read_object_header-encode_object_header blob 0x1234 (codes "x") (omega arith)

from_hex-to_hex_example : from_hex (to_hex (0 ∷ 171 ∷ 255 ∷ [])) ≡ 0 ∷ 171 ∷ 255 ∷ []
from_hex-to_hex_example =
    from_hex-to_hex (0 ∷ 171 ∷ 255 ∷ []) (omega arith, (omega arith, (omega arith, tt)))

-- A stand-in for the compression: the length, then the bytes.
counted : Text → Text
counted s = length s ∷ s

uncounted : Text → Option (Text × Text)
uncounted [] = none
uncounted (n ∷ s) = some (take n s, drop n s)

uncounted-counted : (s rest : Text) → uncounted (counted s ++ rest) ≡ some (s, rest)
unfolding counted uncounted
uncounted-counted s rest = rw (take-append s rest, drop-append s rest) refl

-- A stand-in for the digest.
twenty : Text → Text
twenty s = replicate 20 (length s)

length-twenty : (s : Text) → length (twenty s) ≡ 20
unfolding twenty
length-twenty s = length-replicate 20 (length s)

abbrev two_blobs : List GitObject
two_blobs =
    record { object_type = blob; content = codes "hello\n"; sha = [] }
    ∷ record { object_type = tree; content = []; sha = [] }
    ∷ []

read_pack-build_packfile_example :
    read_pack uncounted twenty (build_packfile twenty counted two_blobs)
    ≡ some ((3, codes "hello\n") ∷ (2, []) ∷ [])
read_pack-build_packfile_example =
    read_pack-build_packfile uncounted counted uncounted-counted twenty two_blobs length-twenty
      (omega arith) (omega arith, (omega arith, tt))

abbrev folder : TreeEntry
folder = record { mode = codes "40000"; name = codes "lib"; sha = [] }

abbrev file : TreeEntry
file = record { mode = codes "100644"; name = codes "lib.ts"; sha = [] }

-- By its bare name the directory would come first.
directory_last : sort_entries (folder ∷ file ∷ []) ≡ file ∷ folder ∷ []
directory_last = refl
