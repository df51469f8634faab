-- ===== src/Ids.antt =====
-- src/server/ids.ts: ids that sort by creation time. The random bytes are a parameter.
pub mod Order
mod Tests
use gitflare.Prelude.{
  ℕ, zero, suc, ◌+◌, ◌*◌, ◌/◌, ◌%◌, Option, none, some, List, [], ◌∷◌, ◌++◌, map, ◌==◌, length,
  get_elem?, codes, index_of, Text, if◌then◌else◌,
}
use Prim.Native.Nat.{bit_and}

abbrev pub alphabet : Text
alphabet = codes "0123456789ABCDEFGHJKMNPQRSTVWXYZ"

-- `ALPHABET[i]`; the index is below 32 wherever the code uses it, and past the end nothing is
-- added.
pub char_at : ℕ → Text
char_at i = elim (get_elem? alphabet i) [ none ↦ [] | some c ↦ c ∷ [] ]

-- The loop of `encodeTime`, on the rounds that are left.
encode_loop : ℕ → ℕ → Text → Text
encode_loop zero value out = out
encode_loop (suc rounds) value out = encode_loop rounds (value / 32) (char_at (value % 32) ++ out)

encode_time : ℕ → Text
unfolding encode_loop
encode_time now = encode_loop 10 now []

-- The 16 bytes that `crypto.getRandomValues` fills in.
encode_random : List ℕ → Text
encode_random [] = []
encode_random (byte ∷ bytes) = char_at (bit_and byte 0x1f) ++ encode_random bytes

unfoldable pub new_id : ℕ → List ℕ → Text
unfolding encode_time encode_random char_at
new_id now bytes = encode_time now ++ encode_random bytes

-- `ALPHABET.indexOf(c)`; `none` is -1.
alphabet_index : ℕ → Option ℕ
alphabet_index c = index_of c alphabet

-- The loop of `idTime`.
decode_loop : ℕ → Text → ℕ → Option ℕ
decode_loop zero id value = some value
decode_loop (suc rounds) [] value = none
decode_loop (suc rounds) (c ∷ id) value = elim (alphabet_index c) [
  | none ↦ none
  | some index ↦ decode_loop rounds id (value * 32 + index)
]

unfoldable pub id_time : Text → Option ℕ
unfolding decode_loop alphabet_index
id_time id = if length id == 26 then decode_loop 10 id 0 else none
