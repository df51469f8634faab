-- ===== src/Ci/Plan/Unseen.antt =====
-- How many names no visit has begun, which bounds the depth of the search.
use gitflare.Prelude.{
  ℕ, ◌+◌, ◌≤◌, ◌<◌, ◌≡◌, ap, subst, ◌∙◌, inl, inr, Option, none, some, List, [], ◌∷◌, length, Text,
  In, arith, Option-cases, if◌then◌else◌,
}
use gitflare.Ci.Plan.{PlanStep, Status, mark, is_none}
use gitflare.Ci.Plan.Sorted.{names}
use gitflare.Ci.Plan.Marks.{mark_cases, mark_self}

-- The names that no visit has begun.
pub unseen : (Text → Option Status) → List Text → ℕ
unseen status [] = 0
unseen status (n ∷ ns) = (if is_none (status n) then 1 else 0) + unseen status ns

pub unseen_le :
    (f g : Text → Option Status) (ns : List Text)
    → ((n : Text) (v : Status) → f n ≡ some v → g n ≡ some v)
    → unseen g ns ≤ unseen f ns
unfolding unseen
unseen_le f g [] h = omega arith
unseen_le f g (n ∷ ns) h = elim (Option-cases (f n)) [
  | inl e ↦ rw e (ground (arith, unseen_le f g ns h))
  | inr (v, e) ↦ rw (e, h n v e) (omega (arith, unseen_le f g ns h))
]

pub mark_keeps :
    (f : Text → Option Status) (n : Text) (v : Status)
    → f n ≡ none
    → (m : Text) (w : Status) → f m ≡ some w
    → mark n v f m ≡ some w
mark_keeps f n v e m w h = elim (mark_cases n v f m) [
  | inl (same, k) ↦ let b : f m ≡ none = subst (λ q. f q ≡ none) same e in absurd (cc)
  | inr (other, k) ↦ k ∙ h
]

pub unseen-mark :
    (f : Text → Option Status) (n : Text) (v : Status) (ns : List Text)
    → f n ≡ none
    → In n ns
    → unseen (mark n v f) ns < unseen f ns
unfolding unseen
unseen-mark f n v [] e i = absurd i
unseen-mark f n v (m ∷ ns) e (inl same) =
    rw (← same, mark_self n v f, e)
      (omega (arith, unseen_le f (mark n v f) ns (mark_keeps f n v e)))
unseen-mark f n v (m ∷ ns) e (inr i) = elim (mark_cases n v f m) [
  | inl (same, k) ↦
      rw (← same, mark_self n v f, e)
        (omega (arith, unseen_le f (mark n v f) ns (mark_keeps f n v e)))
  | inr (other, k) ↦ rw k (omega (arith, unseen-mark f n v ns e i))
]

pub unseen_le_length :
    (f : Text → Option Status) (ss : List PlanStep) → unseen f (names ss) ≤ length ss
unfolding unseen
unseen_le_length f [] = omega arith
unseen_le_length f (s ∷ ss) = ground (arith, unseen_le_length f ss)

pub In-names : (s : PlanStep) (ss : List PlanStep) → In s ss → In s.name (names ss)
In-names s [] h = absurd h
In-names s (t ∷ ss) (inl e) = inl (ap (λ (q : PlanStep). q.name) e)
In-names s (t ∷ ss) (inr h) = inr (In-names s ss h)
