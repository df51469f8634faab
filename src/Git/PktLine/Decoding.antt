-- ===== src/Git/PktLine/Decoding.antt =====
-- Decoding ends within its fuel, and accounts for every byte of the buffer.
use gitflare.Prelude.{
  ℕ, zero, suc, ◌+◌, ◌-◌, ◌≤◌, ◌≡◌, ◌≢◌, refl, subst, inl, inr, Option, none, some, List, [], ◌∷◌,
  ltb, length, length-drop, length-take, take, drop, Text, Bool-cases, arith,
}
use gitflare.Git.PktLine.{
  PktLine, payload, special, Result, ok, err, stuck, push, header_length, decode_packet,
  decode_header, decode_from, decode_pkt_lines,
}

decode_packet-ne-stuck :
    (next : ℕ → Text → Result (List PktLine)) (offset : ℕ) (rest : Text) (len : ℕ)
    → ((o : ℕ) (r : Text) → length r ≤ length rest → next o r ≢ stuck)
    → decode_packet next offset rest len ≢ stuck
unfolding decode_packet
decode_packet-ne-stuck next offset rest len h =
    ground (
      arith,
      h offset rest,
      h (offset + (len - 4)) (drop (len - 4) rest),
      length-drop (len - 4) rest,
    )

decode_header-ne-stuck :
    (next : ℕ → Text → Result (List PktLine)) (offset : ℕ) (rest : Text) (len : Option ℕ)
    → ((o : ℕ) (r : Text) → length r ≤ length rest → next o r ≢ stuck)
    → decode_header next offset rest len ≢ stuck
unfolding decode_header
decode_header-ne-stuck next offset rest none h = ground arith
decode_header-ne-stuck next offset rest (some len) h =
    decode_packet-ne-stuck next (offset + 4) rest len h

decode_from-ne-stuck :
    (fuel offset : ℕ) (buffer : Text)
    → length buffer ≤ fuel
    → decode_from fuel offset buffer ≢ stuck
unfolding decode_from
decode_from-ne-stuck zero offset [] h = ground arith
decode_from-ne-stuck (suc fuel) offset [] h = ground arith
decode_from-ne-stuck zero offset (a ∷ r) h = absurd (omega arith)
decode_from-ne-stuck (suc fuel) offset (a ∷ []) h = ground arith
decode_from-ne-stuck (suc fuel) offset (a ∷ b ∷ []) h = ground arith
decode_from-ne-stuck (suc fuel) offset (a ∷ b ∷ c ∷ []) h = ground arith
decode_from-ne-stuck (suc fuel) offset (a ∷ b ∷ c ∷ d ∷ rest) h =
    decode_header-ne-stuck (decode_from fuel) offset rest (header_length a b c d)
      (λ o r k. decode_from-ne-stuck fuel o r (omega arith))

-- Decoding a buffer ends: it returns packets or throws, and never runs out of fuel.
pub decode_pkt_lines-ne-stuck : (buffer : Text) → decode_pkt_lines buffer ≢ stuck
unfolding decode_pkt_lines
decode_pkt_lines-ne-stuck buffer = decode_from-ne-stuck (length buffer) 0 buffer (omega arith)

-- The bytes that a packet takes in the stream, its header included.
abbrev pub framed_size : PktLine → ℕ
framed_size (payload bytes) = length bytes + 4
framed_size (special code) = 4

abbrev pub total_size : List PktLine → ℕ
total_size [] = 0
total_size (l ∷ ls) = framed_size l + total_size ls

-- What a result says of a buffer of `n` bytes.
abbrev Accounts : ℕ → Result (List PktLine) → Type 0
Accounts n (ok ls) = total_size ls ≡ n
Accounts n (err e) = Unit
Accounts n stuck = Unit

push-Accounts :
    (l : PktLine) (n : ℕ) (r : Result (List PktLine))
    → Accounts n r
    → Accounts (framed_size l + n) (push l r)
push-Accounts l n (ok ls) h = omega arith
push-Accounts l n (err e) h = tt
push-Accounts l n stuck h = tt

decode_header-Accounts :
    (next : ℕ → Text → Result (List PktLine)) (offset : ℕ) (rest : Text) (len : Option ℕ)
    → ((o : ℕ) (r : Text) → Accounts (length r) (next o r))
    → Accounts (4 + length rest) (decode_header next offset rest len)
unfolding decode_header decode_packet
decode_header-Accounts next offset rest none h = tt
decode_header-Accounts next offset rest (some len) h = elim (Bool-cases (ltb len 3)) [
  | inl a ↦ rw (a, Accounts) (push-Accounts (special len) (length rest) _ (h (offset + 4) rest))
  | inr a ↦ elim (Bool-cases (ltb len 4)) [
    | inl b ↦ rw (a, b, Accounts) tt
    | inr b ↦ elim (Bool-cases (ltb (length rest) (len - 4))) [
      | inl c ↦ rw (a, b, c, Accounts) tt
      | inr c ↦
          let line = payload (take (len - 4) rest) in
          let left = drop (len - 4) rest in
          let size : framed_size line + length left ≡ 4 + length rest =
            ground (arith, length-take (len - 4) rest, length-drop (len - 4) rest) in
          rw (a, b, c, Accounts)
            (subst (λ n. Accounts n (push line (next (offset + 4 + (len - 4)) left))) size
              (push-Accounts line (length left) _ (h (offset + 4 + (len - 4)) left)))
    ]
  ]
]

decode_from-Accounts :
    (fuel offset : ℕ) (buffer : Text) → Accounts (length buffer) (decode_from fuel offset buffer)
unfolding decode_from
decode_from-Accounts zero offset [] = refl
decode_from-Accounts (suc fuel) offset [] = refl
decode_from-Accounts zero offset (a ∷ r) = tt
decode_from-Accounts (suc fuel) offset (a ∷ []) = tt
decode_from-Accounts (suc fuel) offset (a ∷ b ∷ []) = tt
decode_from-Accounts (suc fuel) offset (a ∷ b ∷ c ∷ []) = tt
decode_from-Accounts (suc fuel) offset (a ∷ b ∷ c ∷ d ∷ rest) =
    let e : 4 + length rest ≡ suc (suc (suc (suc (length rest)))) = omega arith in
    subst (λ n. Accounts n (decode_header (decode_from fuel) offset rest (header_length a b c d))) e
      (decode_header-Accounts (decode_from fuel) offset rest (header_length a b c d)
        (decode_from-Accounts fuel))

-- A buffer that decodes is covered by its packets: their framed sizes add up to its length, so
-- a truncated stream is never read as a shorter one.
pub decode_pkt_lines_covers :
    (buffer : Text) (lines : List PktLine)
    → decode_pkt_lines buffer ≡ ok lines
    → total_size lines ≡ length buffer
unfolding decode_pkt_lines
decode_pkt_lines_covers buffer lines e =
    subst (Accounts (length buffer)) e (decode_from-Accounts (length buffer) 0 buffer)
