-- ===== src/Prelude/Numerals.antt =====
-- `Number.prototype.toString(radix)`, `String.prototype.padStart` and single hex digits.
use Prim.Native.Nat.{ℕ, zero, suc, ◌+◌, ◌-◌, ◌*◌, ◌/◌, ◌%◌, ◌^◌, ◌<◌}
use mathlib.Core.Path.{◌≡◌, refl, ap, sym, ◌∙◌}
use mathlib.Core.Bool.{◌&&◌}
use mathlib.Core.Logic.{inl, inr}
use mathlib.Core.List.{[], ◌∷◌, ◌++◌, append_assoc, append-nil}
use mathlib.Core.Option.{Option, none, some}
use native.Mathlib.Omega.{arith}
use native.Mathlib.Nat.{pow-suc}
use gitflare.Prelude.Tests.{if◌then◌else◌, ◌==◌, ltb, leb, Bool-cases, ==_iff}
use gitflare.Prelude.Lists.{length, replicate, length-append}
use gitflare.Prelude.Texts.{Text}

-- The lower-case digit for a value below 36.
abbrev pub digit : ℕ → ℕ
digit d = if ltb d 10 then 48 + d else 87 + d

-- The value of a hex digit of either case.
abbrev pub hex_value : ℕ → Option ℕ
hex_value c =
    if leb 48 c && leb c 57
    then some (c - 48)
    else if leb 97 c && leb c 102
    then some (c - 87)
    else if leb 65 c && leb c 70
    then some (c - 55)
    else none

pub hex_value-digit : (d : ℕ) → d < 16 → hex_value (digit d) ≡ some d
hex_value-digit d h = ground arith

-- Digits of `n` before `acc`; each round divides, so `suc n` rounds are enough.
unfoldable pub radix_from : ℕ → ℕ → ℕ → Text → Text
radix_from zero r n acc = acc
radix_from (suc f) r n acc =
    let rest = radix_from f r (n / r) (digit (n % r) ∷ acc) in
    if n / r == 0 then digit (n % r) ∷ acc else rest

unfoldable pub to_radix : ℕ → ℕ → Text
unfolding radix_from
to_radix r n = radix_from (suc n) r n []

abbrev pub pad_start : ℕ → ℕ → Text → Text
pad_start w c s = replicate (w - length s) c ++ s

radix_from-append : (f r n : ℕ) (acc : Text) → radix_from f r n acc ≡ radix_from f r n [] ++ acc
unfolding radix_from
radix_from-append zero r n acc = refl
radix_from-append (suc f) r n acc = elim (Bool-cases (n / r == 0)) [
  | inl e ↦ rw e
  | inr e ↦ rw e (
      radix_from-append f r (n / r) (digit (n % r) ∷ acc)
      ∙ sym (
          ap (λ t. t ++ acc) (radix_from-append f r (n / r) (digit (n % r) ∷ []))
          ∙ append_assoc (radix_from f r (n / r) []) (digit (n % r) ∷ []) acc))
]

-- `k` hex digits, the most significant first.
abbrev pub fixed_hex : ℕ → ℕ → Text
fixed_hex zero n = []
fixed_hex (suc k) n = fixed_hex k (n / 16) ++ digit (n % 16) ∷ []

replicate-snoc : (k c : ℕ) → replicate k c ++ c ∷ [] ≡ c ∷ replicate k c
replicate-snoc zero c = refl
replicate-snoc (suc k) c = ap (λ t. c ∷ t) (replicate-snoc k c)

fixed_hex_zero : (k : ℕ) → fixed_hex k 0 ≡ replicate k 48
fixed_hex_zero zero = refl
fixed_hex_zero (suc k) = rw (fixed_hex_zero k) (replicate-snoc k 48)

pad_start-nil : (k : ℕ) → pad_start k 48 [] ≡ fixed_hex k 0
pad_start-nil k =
    let e : k - 0 ≡ k = omega arith in rw e (append-nil (replicate k 48) ∙ sym (fixed_hex_zero k))

pad_start-snoc :
    (k c d : ℕ) (s : Text) → pad_start (suc k) c (s ++ d ∷ []) ≡ pad_start k c s ++ d ∷ []
pad_start-snoc k c d s =
    let e : suc k - length (s ++ d ∷ []) ≡ k - length s =
      omega (arith, length-append {0} s (d ∷ [])) in
    rw e (sym (append_assoc (replicate (k - length s) c) s (d ∷ [])))

quotient_bound : (k n : ℕ) → n < 16 ^ suc (suc k) → n / 16 < 16 ^ suc k
quotient_bound k n h =
    let e : 16 ^ suc (suc k) ≡ 16 ^ suc k * 16 = pow-suc 16 (suc k) in omega arith

-- Padding the hex digits of a number below 16 ^ k gives its k digits.
pad_start-radix_from :
    (k f n : ℕ)
    → n < 16 ^ suc k
    → n < f
    → pad_start (suc k) 48 (radix_from f 16 n []) ≡ fixed_hex (suc k) n
unfolding radix_from
pad_start-radix_from k zero n h g = absurd (omega arith)
pad_start-radix_from zero (suc f) n h g = elim (Bool-cases (n / 16 == 0)) [
  | inl e ↦ rw e
  | inr e ↦ absurd (ground arith)
]
pad_start-radix_from (suc k) (suc f) n h g =
    let d = digit (n % 16) ∷ [] in
    elim (Bool-cases (n / 16 == 0)) [
      | inl e ↦ rw e (
          pad_start-snoc (suc k) 48 (digit (n % 16)) []
          ∙ ap (λ t. t ++ d)
              (pad_start-nil (suc k) ∙ sym (ap (fixed_hex (suc k)) ((==_iff _ _).0 e))))
      | inr e ↦
          rw (e, radix_from-append f 16 (n / 16) d)
            (pad_start-snoc (suc k) 48 (digit (n % 16)) (radix_from f 16 (n / 16) [])
              ∙ ap (λ t. t ++ d)
                  (pad_start-radix_from k f (n / 16) (quotient_bound k n h) (ground arith)))
    ]

pub pad_start-to_radix :
    (k n : ℕ) → n < 16 ^ suc k → pad_start (suc k) 48 (to_radix 16 n) ≡ fixed_hex (suc k) n
unfolding to_radix
pad_start-to_radix k n h = pad_start-radix_from k (suc n) n h (omega arith)

padded_hex : pad_start 4 48 (to_radix 16 49) ≡ 48 ∷ 48 ∷ 51 ∷ 49 ∷ []
unfolding to_radix
padded_hex = refl
