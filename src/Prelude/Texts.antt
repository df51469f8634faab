-- ===== src/Prelude/Texts.antt =====
-- Texts and byte strings are lists of numbers: UTF-16 code units of a JavaScript string, or bytes.
use Prim.Native.Nat.{ℕ, suc}
use Prim.Native.Char.{code}
use Prim.Native.String.{String}
use mathlib.Core.Path.{◌≡◌, refl, sym}
use mathlib.Core.Logic.{◌↔◌, ◌≢◌, inl, inr}
use mathlib.Core.Bool.{Bool, true, false, ◌||◌, ◌&&◌}
use mathlib.Core.List.{List, [], ◌∷◌, ◌++◌}
use mathlib.Core.Option.{Option, none, some}
use native.Mathlib.Omega.{arith}
use gitflare.Prelude.Tests.{Bool-cases, leb, if◌then◌else◌, ◌==◌, ltb}
use gitflare.Prelude.Lists.{length, drop, In}

abbrev pub Text : Type 0
Text = List ℕ

-- The code units of a literal.
abbrev pub codes : String → Text
codes String.[] = []
codes (String.◌∷◌ c s) = code c ∷ codes s

-- `===` on strings.
abbrev pub text_eq : Text → Text → Bool
text_eq [] [] = true
text_eq [] (_ ∷ _) = false
text_eq (_ ∷ _) [] = false
text_eq (a ∷ s) (b ∷ t) = a == b && text_eq s t

pub text_eq→eq : (s t : Text) → text_eq s t ≡ true → s ≡ t
text_eq→eq [] [] h = refl
text_eq→eq [] (b ∷ t) h = cc
text_eq→eq (a ∷ s) [] h = cc
text_eq→eq (a ∷ s) (b ∷ t) h = ground (arith, text_eq→eq s t)

pub text_eq_refl : (s : Text) → text_eq s s ≡ true
text_eq_refl [] = refl
text_eq_refl (a ∷ s) = ground (arith, text_eq_refl s)

pub eq→text_eq : (s t : Text) → s ≡ t → text_eq s t ≡ true
eq→text_eq s t e = rw e (text_eq_refl t)

pub ne_of_text_eq : (s t : Text) → text_eq s t ≡ false → s ≢ t
ne_of_text_eq s t h e = let k : text_eq s t ≡ true = eq→text_eq s t e in cc

pub text_eq_iff : (s t : Text) → (text_eq s t ≡ true) ↔ (s ≡ t)
text_eq_iff s t = (text_eq→eq s t, eq→text_eq s t)

-- `<` on strings: by code units, a proper prefix first.
abbrev pub text_lt : Text → Text → Bool
text_lt s [] = false
text_lt [] (_ ∷ _) = true
text_lt (a ∷ s) (b ∷ t) = if a == b then text_lt s t else ltb a b

pub text_lt-common : (p s t : Text) → text_lt (p ++ s) (p ++ t) ≡ text_lt s t
text_lt-common [] s t = refl
text_lt-common (a ∷ p) s t = ground (arith, text_lt-common p s t)

-- `Array.prototype.includes` on strings.
abbrev pub includes : List Text → Text → Bool
includes [] t = false
includes (s ∷ ss) t = text_eq s t || includes ss t

pub includes→In : (ts : List Text) (t : Text) → includes ts t ≡ true → In t ts
includes→In [] t h = absurd (cc)
includes→In (s ∷ ts) t h = elim (Bool-cases (text_eq s t)) [
  | inl e ↦ inl (sym ((text_eq_iff s t).0 e))
  | inr e ↦ inr (includes→In ts t (ground (arith, h, e)))
]

pub In→includes : (ts : List Text) (t : Text) → In t ts → includes ts t ≡ true
In→includes [] t h = absurd h
In→includes (s ∷ ts) t (inl e) = let k = (text_eq_iff s t).1 (sym e) in rw k refl
In→includes (s ∷ ts) t (inr h) = let k = In→includes ts t h in ground (arith, k)

-- `String.prototype.startsWith`; the prefix comes first.
abbrev pub starts_with : Text → Text → Bool
starts_with [] t = true
starts_with (_ ∷ _) [] = false
starts_with (a ∷ s) (b ∷ t) = a == b && starts_with s t

pub starts_with-append : (p s : Text) → starts_with p (p ++ s) ≡ true
starts_with-append [] s = refl
starts_with-append (a ∷ p) s = ground (arith, starts_with-append p s)

-- A text that starts with `p` is `p` followed by what `slice(p.length)` returns.
pub starts_with→append : (p s : Text) → starts_with p s ≡ true → s ≡ p ++ drop (length p) s
starts_with→append [] s h = refl
starts_with→append (a ∷ p) [] h = cc
starts_with→append (a ∷ p) (b ∷ s) h = ground (arith, starts_with→append p s)

abbrev pub bump_index : Option ℕ → Option ℕ
bump_index none = none
bump_index (some i) = some (suc i)

-- `String.prototype.indexOf` of one code unit; `none` stands for -1.
abbrev pub index_of : ℕ → Text → Option ℕ
index_of c [] = none
index_of c (a ∷ s) = if a == c then some 0 else bump_index (index_of c s)

-- `String.prototype.split` at one code unit: the pieces between its occurrences.
abbrev pub add_to_first : ℕ → List Text → List Text
add_to_first a [] = (a ∷ []) ∷ []
add_to_first a (p ∷ ps) = (a ∷ p) ∷ ps

abbrev pub split : ℕ → Text → List Text
split c [] = [] ∷ []
split c (a ∷ s) = if a == c then [] ∷ split c s else add_to_first a (split c s)

-- `Array.prototype.join`.
abbrev pub join : Text → List Text → Text
join sep [] = []
join sep (p ∷ []) = p
join sep (p ∷ q ∷ ps) = p ++ (sep ++ join sep (q ∷ ps))

-- A code unit of the white space and line ends of JavaScript.
abbrev pub is_space : ℕ → Bool
is_space c =
    c == 32
    || (leb 9 c && leb c 13)
    || c == 160
    || c == 0x1680
    || (leb 0x2000 c && leb c 0x200a)
    || c == 0x2028
    || c == 0x2029
    || c == 0x202f
    || c == 0x205f
    || c == 0x3000
    || c == 0xfeff
