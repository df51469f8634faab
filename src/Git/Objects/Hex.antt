-- ===== src/Git/Objects/Hex.antt =====
-- Bytes survive their hex form.
use gitflare.Prelude.{
  ℕ, ◌*◌, ◌/◌, ◌%◌, ◌<◌, ◌≡◌, refl, ap, ◌∙◌, [], ◌∷◌, ◌++◌, Text, arith, All, hex_value-digit,
  digit, pad_start-to_radix, length,
}
use gitflare.Git.Objects.{to_hex, from_hex, parse_byte}

parse_byte-digits :
    (byte : ℕ) → byte < 256 → parse_byte (digit (byte / 16)) (digit (byte % 16)) ≡ byte
parse_byte-digits byte h =
    rw
      (
        parse_byte,
        hex_value-digit (byte / 16) (omega arith),
        hex_value-digit (byte % 16) (omega arith),
      )
      (omega arith)

to_hex-step :
    (byte : ℕ) (bytes : Text)
    → byte < 256
    → to_hex (byte ∷ bytes) ≡ digit (byte / 16) ∷ digit (byte % 16) ∷ to_hex bytes
to_hex-step byte bytes h =
    let high : byte / 16 % 16 ≡ byte / 16 = omega arith in
    ap (λ t. t ++ to_hex bytes) (pad_start-to_radix 1 byte (omega arith))
    ∙ ap (λ d. digit d ∷ digit (byte % 16) ∷ to_hex bytes) high

-- Bytes written as hex are read back as they were.
pub from_hex-to_hex : (bytes : Text) → All (λ b. b < 256) bytes → from_hex (to_hex bytes) ≡ bytes
from_hex-to_hex [] a = refl
from_hex-to_hex (byte ∷ bytes) (h, a) = rw (to_hex-step byte bytes h) (
    ap (λ b. b ∷ from_hex (to_hex bytes)) (parse_byte-digits byte h)
    ∙ ap (λ t. byte ∷ t) (from_hex-to_hex bytes a))

-- An object's id has two hex digits for each byte of its digest.
pub length-to_hex :
    (bytes : Text) → All (λ b. b < 256) bytes → length (to_hex bytes) ≡ length bytes * 2
length-to_hex [] a = refl
length-to_hex (byte ∷ bytes) (h, a) =
    rw (to_hex-step byte bytes h) (omega (arith, length-to_hex bytes a))
