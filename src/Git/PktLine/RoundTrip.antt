-- ===== src/Git/PktLine/RoundTrip.antt =====
-- What `encodePktLine` and `encodeFlush` write, `decodePktLines` reads back.
use gitflare.Prelude.{
  ℕ, zero, suc, ◌+◌, ◌-◌, ◌*◌, ◌/◌, ◌%◌, ◌≤◌, ◌<◌, ◌≡◌, ◌≢◌, ◌↔◌, refl, ap, ◌∙◌, inl, inr, false,
  Option, none, some, List, [], ◌∷◌, ◌++◌, ltb, length, length-append, take-append, drop-append,
  Text, Bool-cases, arith, codes, digit, fixed_hex, pad_start-to_radix, hex_value, hex_value-digit,
}
use gitflare.Git.PktLine.{
  PktLine, payload, special, Result, ok, push, header_length, decode_packet, decode_header,
  decode_from, decode_pkt_lines, encode_pkt_line, encode_flush,
}

-- A packet by the encoders of the source; the special packets 1 and 2 are written as git does.
abbrev pub encode_packet : PktLine → Option Text
encode_packet (payload bytes) = encode_pkt_line bytes
encode_packet (special zero) = some encode_flush
encode_packet (special (suc zero)) = some (codes "0001")
encode_packet (special (suc (suc zero))) = some (codes "0002")
encode_packet (special (suc (suc (suc n)))) = none

abbrev pub append_option : Option Text → Option Text → Option Text
append_option none t = none
append_option (some s) none = none
append_option (some s) (some t) = some (s ++ t)

abbrev pub encode_packets : List PktLine → Option Text
encode_packets [] = some []
encode_packets (l ∷ ls) = append_option (encode_packet l) (encode_packets ls)

header_length-some :
    (a b c d w x y z : ℕ)
    → hex_value a ≡ some w
    → hex_value b ≡ some x
    → hex_value c ≡ some y
    → hex_value d ≡ some z
    → header_length a b c d ≡ some (((w * 16 + x) * 16 + y) * 16 + z)
header_length-some a b c d w x y z p q r s = rw (p, header_length) (rw (q) (rw r (rw s)))

header_length-fixed_hex :
    (n : ℕ)
    → n < 0x10000
    → header_length
        (digit (n / 16 / 16 / 16 % 16))
        (digit (n / 16 / 16 % 16))
        (digit (n / 16 % 16))
        (digit (n % 16))
      ≡ some n
header_length-fixed_hex n h =
    header_length-some (digit (n / 16 / 16 / 16 % 16)) (digit (n / 16 / 16 % 16))
      (digit (n / 16 % 16)) (digit (n % 16)) _ _ _ _
      (hex_value-digit (n / 16 / 16 / 16 % 16) (omega arith))
      (hex_value-digit (n / 16 / 16 % 16) (omega arith))
      (hex_value-digit (n / 16 % 16) (omega arith)) (hex_value-digit (n % 16) (omega arith))
    ∙ ap some (omega arith)

encode_pkt_line-eq :
    (bytes t : Text)
    → encode_pkt_line bytes ≡ some t
    → (length bytes + 4 < 0x10000) × (t ≡ fixed_hex 4 (length bytes + 4) ++ bytes)
unfolding encode_pkt_line
encode_pkt_line-eq bytes t e = elim (Bool-cases (ltb 0xffff (length bytes + 4))) [
  | inl a ↦ absurd (ground arith)
  | inr a ↦
      let small : length bytes + 4 < 0x10000 = ground arith in
      (small, ground (arith, pad_start-to_radix 3 (length bytes + 4) small))
]

-- One round of the loop over a framed payload.
decode_header-payload :
    (next : ℕ → Text → Result (List PktLine)) (offset : ℕ) (bytes rest : Text)
    → decode_header next offset (bytes ++ rest) (some (length bytes + 4))
      ≡ push (payload bytes) (next (offset + 4 + length bytes) rest)
unfolding decode_header decode_packet
decode_header-payload next offset bytes rest =
    let e : length bytes + 4 - 4 ≡ length bytes = omega arith in
    let a : ltb (length bytes + 4) 3 ≡ false = ground arith in
    let b : ltb (length bytes + 4) 4 ≡ false = ground arith in
    let c : ltb (length (bytes ++ rest)) (length bytes + 4 - 4) ≡ false =
      ground (arith, length-append bytes rest) in
    rw (a, decode_packet) (rw b (rw c (rw (e, take-append bytes rest, drop-append bytes rest))))

decode_from-payload :
    (fuel offset : ℕ) (bytes rest t : Text)
    → encode_pkt_line bytes ≡ some t
    → decode_from (suc fuel) offset (t ++ rest)
      ≡ push (payload bytes) (decode_from fuel (offset + 4 + length bytes) rest)
unfolding decode_from
decode_from-payload fuel offset bytes rest t e =
    let (small, shape) = encode_pkt_line-eq bytes t e in
    rw (shape, header_length-fixed_hex (length bytes + 4) small)
      (decode_header-payload (decode_from fuel) offset bytes rest)

length-encode_pkt_line : (bytes t : Text) → encode_pkt_line bytes ≡ some t → 4 ≤ length t
length-encode_pkt_line bytes t e = omega (
  arith,
  ap length (encode_pkt_line-eq bytes t e).1,
  length-append {0} (fixed_hex 4 (length bytes + 4)) bytes,
)

-- One round reads one packet, whatever follows it.
decode_from-packet :
    (fuel offset : ℕ) (l : PktLine) (rest t : Text)
    → encode_packet l ≡ some t
    → (o : ℕ) × (decode_from (suc fuel) offset (t ++ rest) ≡ push l (decode_from fuel o rest))
      × (4 ≤ length t)
unfolding decode_from decode_header decode_packet
decode_from-packet fuel offset (payload bytes) rest t e = (
  offset + 4 + length bytes,
  decode_from-payload fuel offset bytes rest t e,
  length-encode_pkt_line bytes t e,
)
decode_from-packet fuel offset (special zero) rest t e =
    let same : encode_flush ≡ t = cc in (offset + 4, rw (← same), rw (← same) (omega arith))
decode_from-packet fuel offset (special (suc zero)) rest t e =
    let same : codes "0001" ≡ t = cc in (offset + 4, rw (← same), rw (← same) (omega arith))
decode_from-packet fuel offset (special (suc (suc zero))) rest t e =
    let same : codes "0002" ≡ t = cc in (offset + 4, rw (← same), rw (← same) (omega arith))
decode_from-packet fuel offset (special (suc (suc (suc n)))) rest t e = absurd (cc)

append_option-eq :
    (s t : Option Text) (u : Text)
    → append_option s t ≡ some u
    → (x y : Text) × (s ≡ some x) × (t ≡ some y) × (u ≡ x ++ y)
append_option-eq none t u e = absurd (cc)
append_option-eq (some s) none u e = absurd (cc)
append_option-eq (some s) (some t) u e = (s, t, refl, refl, cc)

decode_from-encode_packets :
    (lines : List PktLine) (fuel offset : ℕ) (bytes : Text)
    → encode_packets lines ≡ some bytes
    → length bytes ≤ fuel
    → decode_from fuel offset bytes ≡ ok lines
unfolding decode_from
decode_from-encode_packets [] zero offset [] e h = refl
decode_from-encode_packets [] (suc f) offset [] e h = refl
decode_from-encode_packets [] fuel offset (b ∷ bs) e h = absurd (cc)
decode_from-encode_packets (l ∷ ls) zero offset bytes e h =
    let (x, y, ex, ey, eu) = append_option-eq (encode_packet l) (encode_packets ls) bytes e in
    let (o, step, four) = decode_from-packet 0 offset l y x ex in
    absurd (omega (arith, ap length eu, length-append {0} x y))
decode_from-encode_packets (l ∷ ls) (suc f) offset bytes e h =
    let (x, y, ex, ey, eu) = append_option-eq (encode_packet l) (encode_packets ls) bytes e in
    let (o, step, four) = decode_from-packet f offset l y x ex in
    let short : length y ≤ f = omega (arith, ap length eu, length-append {0} x y) in
    rw eu (step ∙ ap (push l) (decode_from-encode_packets ls f o y ey short))

-- A stream that the encoders write, of any payloads that they accept and of special packets,
-- decodes to exactly the packets that were written.
pub decode_pkt_lines-encode_packets :
    (lines : List PktLine) (bytes : Text)
    → encode_packets lines ≡ some bytes
    → decode_pkt_lines bytes ≡ ok lines
unfolding decode_pkt_lines
decode_pkt_lines-encode_packets lines bytes e =
    decode_from-encode_packets lines (length bytes) 0 bytes e (omega arith)

-- A payload is framed exactly when it has 65531 bytes at most.
pub encode_pkt_line_iff : (bytes : Text) → (encode_pkt_line bytes ≢ none) ↔ (length bytes ≤ 65531)
unfolding encode_pkt_line
encode_pkt_line_iff bytes = ground arith
