-- ===== src/Git/Objects/Headers.antt =====
-- The header of an object in a packfile, read as the pack format describes it.
use gitflare.Prelude.{
  ℕ, zero, suc, ◌+◌, ◌*◌, ◌/◌, ◌%◌, ◌^◌, ◌<◌, ◌≤◌, ◌≡◌, refl, ap, ◌∙◌, true, false, Option, none,
  some, [], ◌∷◌, ◌++◌, ltb, ◌==◌, Text, if◌then◌else◌, arith, table, entry, ==_iff, Bool-cases, inl,
  inr,
}
use Prim.Native.Nat.{bit_or}
use gitflare.Git.Objects.{
  ObjectType, commit, tree, blob, tag, type_code, push_groups, shift_size, encode_object_header,
}

-- The groups of seven bits that follow, the lowest first, and the bytes behind them.
add_group : ℕ → Option (ℕ × Text) → Option (ℕ × Text)
add_group low none = none
add_group low (some (high, rest)) = some (low + high * 128, rest)

unfoldable pub read_groups : Text → Option (ℕ × Text)
unfolding add_group
read_groups [] = none
read_groups (byte ∷ bytes) =
    if ltb byte 128 then some (byte, bytes) else add_group (byte % 128) (read_groups bytes)

with_type : ℕ → ℕ → Option (ℕ × Text) → Option (ℕ × ℕ × Text)
with_type code low none = none
with_type code low (some (high, rest)) = some (code, low + high * 16, rest)

-- The type in bits 6 to 4 of the first byte, and the size.
unfoldable pub read_object_header : Text → Option (ℕ × ℕ × Text)
unfolding with_type read_groups
read_object_header [] = none
read_object_header (byte ∷ bytes) =
    if ltb byte 128
    then some (byte / 16, byte % 16, bytes)
    else with_type (byte / 16 % 8) (byte % 16) (read_groups bytes)

continued_table : table (λ b. bit_or b 0x80 == b + 128) 128 ≡ true
unfolding table
continued_table = refl

continued : (byte : ℕ) → byte < 128 → bit_or byte 0x80 ≡ byte + 128
continued byte h = (==_iff _ _).0 (entry (λ b. bit_or b 0x80 == b + 128) 128 continued_table byte h)

first_table : table (λ code. table (λ low. bit_or (code * 16) low == code * 16 + low) 16) 8 ≡ true
unfolding table
first_table = refl

first_byte : (code low : ℕ) → code < 8 → low < 16 → bit_or (code * 16) low ≡ code * 16 + low
first_byte code low h k = (==_iff _ _).0 (
    entry (λ low. bit_or (code * 16) low == code * 16 + low) 16
      (entry (λ code. table (λ low. bit_or (code * 16) low == code * 16 + low) 16) 8 first_table
        code h)
      low k)

-- The bytes that follow, read back, for a group `byte` with `remaining` above it.
read_groups-push_groups :
    (fuel byte remaining : ℕ) (rest : Text)
    → byte < 128
    → remaining ≤ fuel
    → read_groups (push_groups fuel byte remaining ++ rest) ≡ some (byte + remaining * 128, rest)
unfolding push_groups add_group read_groups
read_groups-push_groups zero byte remaining rest h k = ground arith
read_groups-push_groups (suc fuel) byte remaining rest h k = elim (Bool-cases (ltb 0 remaining)) [
  | inr e ↦ rw e (ground arith)
  | inl e ↦
      let more : ltb (byte + 128) 128 ≡ false = ground arith in
      let low : (byte + 128) % 128 ≡ byte = omega arith in
      rw (e, continued byte h, more, low)
        (ap (add_group byte) (
            read_groups-push_groups fuel (remaining % 128) (remaining / 128) rest (omega arith)
              (ground arith))
          ∙ ap (λ v. some (byte + v * 128, rest)) (omega arith))
]

type_code_bound : (t : ObjectType) → (0 < type_code t) × (type_code t < 8)
type_code_bound commit = (omega arith, omega arith)
type_code_bound tree = (omega arith, omega arith)
type_code_bound blob = (omega arith, omega arith)
type_code_bound tag = (omega arith, omega arith)

shift_size-eq : (size : ℕ) → size < 2 ^ 31 → shift_size size ≡ size / 16
shift_size-eq size h =
    let e : size % 2 ^ 32 ≡ size = omega arith in
    let f : ltb size (2 ^ 31) ≡ true = ground arith in rw (e, f) refl

-- The first byte and the groups, for a type below 8.
read_object_header-push_groups :
    (fuel code low remaining : ℕ) (rest : Text)
    → code < 8
    → low < 16
    → remaining ≤ fuel
    → read_object_header (push_groups fuel (code * 16 + low) remaining ++ rest)
      ≡ some (code, low + remaining * 16, rest)
unfolding push_groups read_object_header with_type
read_object_header-push_groups zero code low remaining rest h k l = ground arith
read_object_header-push_groups (suc fuel) code low remaining rest h k l =
    elim (Bool-cases (ltb 0 remaining)) [
      | inr e ↦ rw e (ground arith)
      | inl e ↦
          let more : ltb (code * 16 + low + 128) 128 ≡ false = ground arith in
          let bits : (code * 16 + low + 128) / 16 % 8 ≡ code = omega arith in
          let size : (code * 16 + low + 128) % 16 ≡ low = omega arith in
          rw (e, continued (code * 16 + low) (omega arith), more, bits, size)
            (ap (with_type code low) (
                read_groups-push_groups fuel (remaining % 128) (remaining / 128) rest (omega arith)
                  (ground arith))
              ∙ ap (λ v. some (code, low + v * 16, rest)) (omega arith))
    ]

-- What the pack format reads from the header of an object of any type, whose size a signed number
-- of 32 bits holds, is that type and that size, and the bytes behind the header stay.
pub read_object_header-encode_object_header :
    (t : ObjectType) (size : ℕ) (rest : Text)
    → size < 2 ^ 31
    → read_object_header (encode_object_header (type_code t) size ++ rest)
      ≡ some (type_code t, size, rest)
unfolding encode_object_header
read_object_header-encode_object_header t size rest h =
    let code = type_code t in
    let (_, bound) = type_code_bound t in
    rw (shift_size-eq size h, first_byte code (size % 16) bound (omega arith))
      (read_object_header-push_groups (size / 16) code (size % 16) (size / 16) rest bound
          (omega arith) (omega arith)
        ∙ ap (λ v. some (code, v, rest)) (omega arith))
