-- ===== src/Diff/Myers/Diagonals.antt =====
-- The loop along a diagonal: what it passes, and where it stops.
use gitflare.Prelude.{
  ℕ, zero, suc, ◌+◌, ◌≤◌, ◌<◌, ◌≡◌, refl, ap, sym, ◌∙◌, Bool, true, false, ◌&&◌, Option, none, some,
  List, [], ◌∷◌, ltb, length, get_elem?, Text, text_eq→eq, arith, Bool-cases, inl, inr,
  text_eq_refl,
}
use gitflare.Diff.Myers.{same_text, goes_on, follow}

-- The same line stands at `x` of `a` and at `y` of `b`.
abbrev pub Match : List Text → List Text → ℕ → ℕ → Type 0
Match a b x y = (l : Text) × (get_elem? a x ≡ some l) × (get_elem? b y ≡ some l)

pub get_elem?-lt : (a : List Text) (x : ℕ) (l : Text) → get_elem? a x ≡ some l → x < length a
get_elem?-lt [] x l h = absurd (cc)
get_elem?-lt (k ∷ a) zero l h = omega arith
get_elem?-lt (k ∷ a) (suc x) l h = omega (arith, get_elem?-lt a x l h)

pub get_elem?-some : (a : List Text) (x : ℕ) → x < length a → (l : Text) × (get_elem? a x ≡ some l)
get_elem?-some [] x h = absurd (omega arith)
get_elem?-some (k ∷ a) zero h = (k, refl)
get_elem?-some (k ∷ a) (suc x) h = get_elem?-some a x (omega arith)

pub same_text-Match :
    (s t : Option Text) → same_text s t ≡ true → (l : Text) × (s ≡ some l) × (t ≡ some l)
same_text-Match none t h = absurd (cc)
same_text-Match (some s) none h = absurd (cc)
same_text-Match (some s) (some t) h = (s, refl, ap some (sym (text_eq→eq s t h)))

and_right : (p q : Bool) → p && q ≡ true → q ≡ true
and_right p q h = ground arith

pub goes_on-Match : (a b : List Text) (x y : ℕ) → goes_on a b x y ≡ true → Match a b x y
goes_on-Match a b x y h =
    same_text-Match (get_elem? a x) (get_elem? b y)
      (and_right (ltb x (length a) && ltb y (length b)) _ h)

pub Match-goes_on : (a b : List Text) (x y : ℕ) → Match a b x y → goes_on a b x y ≡ true
Match-goes_on a b x y (l, e, f) =
    rw (e, f, text_eq_refl l) (ground (arith, get_elem?-lt a x l e, get_elem?-lt b y l f))

-- `count` lines match from a position on.
abbrev pub Run : List Text → List Text → ℕ → ℕ → ℕ → Type 0
Run a b x y count = (i : ℕ) → i < count → Match a b (x + i) (y + i)

pub record IsFollowed (a b : List Text) (x y : ℕ) (fuel : ℕ) : Type 0 where
  pub count : ℕ
  pub ends : follow fuel a b x y ≡ (x + count, y + count)
  pub run : Run a b x y count
  pub stops : length a ≤ x + fuel → goes_on a b (x + count) (y + count) ≡ false

Run-cons :
    (a b : List Text) (x y count : ℕ)
    → Match a b x y
    → Run a b (suc x) (suc y) count
    → Run a b x y (suc count)
Run-cons a b x y count m r zero h =
    let p : x + 0 ≡ x = omega arith in let q : y + 0 ≡ y = omega arith in rw (p, q) m
Run-cons a b x y count m r (suc i) h =
    let p : x + suc i ≡ suc x + i = omega arith in
    let q : y + suc i ≡ suc y + i = omega arith in rw (p, q) (r i (omega arith))

stopped :
    (a b : List Text) (x y fuel : ℕ)
    → follow fuel a b x y ≡ (x, y)
    → (length a ≤ x + fuel → goes_on a b x y ≡ false)
    → IsFollowed a b x y fuel
stopped a b x y fuel e h =
    let p : x + 0 ≡ x = omega arith in
    let q : y + 0 ≡ y = omega arith in
    record { count = 0; ends = rw (p, q) e; run = λ i k. absurd (omega arith); stops = rw (p, q) h }

went_on :
    (a b : List Text) (x y fuel : ℕ)
    → Match a b x y
    → follow (suc fuel) a b x y ≡ follow fuel a b (suc x) (suc y)
    → IsFollowed a b (suc x) (suc y) fuel
    → IsFollowed a b x y (suc fuel)
went_on a b x y fuel m e f =
    let p : x + suc f.count ≡ suc x + f.count = omega arith in
    let q : y + suc f.count ≡ suc y + f.count = omega arith in
    record {
      count = suc f.count;
      ends = rw (p, q) (e ∙ f.ends);
      run = Run-cons a b x y f.count m f.run;
      stops = rw (p, q) (λ h. f.stops (omega arith));
    }

pub follow-IsFollowed : (fuel : ℕ) (a b : List Text) (x y : ℕ) → IsFollowed a b x y fuel
unfolding follow
follow-IsFollowed zero a b x y = stopped a b x y zero refl (λ h. ground arith)
follow-IsFollowed (suc fuel) a b x y = elim (Bool-cases (goes_on a b x y)) [
  | inr e ↦ stopped a b x y (suc fuel) (rw e refl) (λ h. e)
  | inl e ↦
      went_on a b x y fuel (goes_on-Match a b x y e) (rw e refl)
        (follow-IsFollowed fuel a b (suc x) (suc y))
]
