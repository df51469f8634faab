-- ===== src/Git/PktLine.antt =====
-- src/server/git/pktline.ts: pkt-line framing. Bytes are numbers below 256; the bytes of a buffer
-- from `offset` on are a list, kept beside the offset that the error messages name.
pub mod Decoding
pub mod RoundTrip
mod Tests
use gitflare.Prelude.{
  ℕ, zero, suc, ◌+◌, ◌-◌, ◌*◌, Bool, true, false, Option, none, some, List, [], ◌∷◌, ◌++◌, ltb, leb,
  length, take, drop, to_radix, pad_start, hex_value, Text, if◌then◌else◌,
}

-- `data` is null for a special packet, which carries its length code.
pub data PktLine : Type 0 where
  payload : Text → PktLine
  special : ℕ → PktLine

pub data PktError : Type 0 where
  truncated_prefix : ℕ → PktError
  invalid_prefix : ℕ → PktError
  below_header : ℕ → ℕ → PktError
  overruns : ℕ → PktError

-- `stuck` is no result of the source: the fuel of the loop ran out.
pub data Result (A : Type 0) : Type 0 where
  stuck : Result A
  err : PktError → Result A
  ok : A → Result A

-- `lines.push` before the rest of the loop.
abbrev pub push : PktLine → Result (List PktLine) → Result (List PktLine)
push line (ok lines) = ok (line ∷ lines)
push line (err e) = err e
push line stuck = stuck

-- `/^[0-9a-fA-F]{4}$/` and `Number.parseInt(header, 16)`.
abbrev pub header_length : ℕ → ℕ → ℕ → ℕ → Option ℕ
header_length a b c d = elim (hex_value a) [
  | none ↦ none
  | some w ↦ elim (hex_value b) [
    | none ↦ none
    | some x ↦ elim (hex_value c) [
      | none ↦ none
      | some y ↦ elim (hex_value d) [
        | none ↦ none
        | some z ↦ some (((w * 16 + x) * 16 + y) * 16 + z)
      ]
    ]
  ]
]

-- The body of the loop behind a valid header; `next` goes on at an offset with the bytes there.
decode_packet : (ℕ → Text → Result (List PktLine)) → ℕ → Text → ℕ → Result (List PktLine)
decode_packet next offset rest len = elim (ltb len 3) [
  | true ↦ push (special len) (next offset rest)
  | false ↦ elim (ltb len 4) [
    | true ↦ err (below_header len (offset - 4))
    | false ↦ elim (ltb (length rest) (len - 4)) [
      | true ↦ err (overruns (len - 4))
      | false ↦
          push (payload (take (len - 4) rest)) (next (offset + (len - 4)) (drop (len - 4) rest))
    ]
  ]
]

decode_header : (ℕ → Text → Result (List PktLine)) → ℕ → Text → Option ℕ → Result (List PktLine)
decode_header next offset rest none = err (invalid_prefix offset)
decode_header next offset rest (some len) = decode_packet next (offset + 4) rest len

decode_from : ℕ → ℕ → Text → Result (List PktLine)
decode_from fuel offset [] = ok []
decode_from zero offset (_ ∷ _) = stuck
decode_from (suc fuel) offset (a ∷ []) = err (truncated_prefix offset)
decode_from (suc fuel) offset (a ∷ b ∷ []) = err (truncated_prefix offset)
decode_from (suc fuel) offset (a ∷ b ∷ c ∷ []) = err (truncated_prefix offset)
decode_from (suc fuel) offset (a ∷ b ∷ c ∷ d ∷ rest) =
    decode_header (decode_from fuel) offset rest (header_length a b c d)

-- A round takes four bytes at least, so as many rounds as there are bytes are enough.
unfoldable pub decode_pkt_lines : Text → Result (List PktLine)
unfolding decode_from decode_header decode_packet
decode_pkt_lines buffer = decode_from (length buffer) 0 buffer

-- `none` is the exception for an oversized payload. A payload that the source is given as a
-- string is UTF-8 encoded first; here it is its bytes.
unfoldable pub encode_pkt_line : Text → Option Text
unfolding to_radix
encode_pkt_line bytes =
    let len = length bytes + 4 in
    if ltb 0xffff len then none else some (pad_start 4 48 (to_radix 16 len) ++ bytes)

-- "0000"
abbrev pub encode_flush : Text
encode_flush = 48 ∷ 48 ∷ 48 ∷ 48 ∷ []
