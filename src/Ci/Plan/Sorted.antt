-- ===== src/Ci/Plan/Sorted.antt =====
-- Lists of steps in dependency order.
use gitflare.Prelude.{◌≡◌, refl, ap, ◌⊎◌, inl, inr, List, [], ◌∷◌, ◌++◌, Text, All, In}
use gitflare.Ci.Plan.{PlanStep}

abbrev pub names : List PlanStep → List Text
names [] = []
names (s ∷ ss) = s.name ∷ names ss

pub names-append : (xs ys : List PlanStep) → names (xs ++ ys) ≡ names xs ++ names ys
names-append [] ys = refl
names-append (x ∷ xs) ys = ap (λ t. x.name ∷ t) (names-append xs ys)

-- In order behind `seen`: every need stands before its step, and no name comes twice.
abbrev pub Ordered : List Text → List PlanStep → Type 0
Ordered seen [] = Unit
Ordered seen (s ∷ ss) =
    All (λ n. In n seen) s.needs × ¬ (In s.name seen) × Ordered (s.name ∷ seen) ss

-- Names that stand in one list or the other.
abbrev pub Either : List Text → List PlanStep → Text → Type 0
Either seen ss n = In n seen ⊎ In n (names ss)

pub push_seen :
    (seen : List Text) (s : PlanStep) (ss : List PlanStep) (n : Text)
    → Either seen (s ∷ ss) n
    → Either (s.name ∷ seen) ss n
push_seen seen s ss n (inl h) = inl (inr h)
push_seen seen s ss n (inr (inl h)) = inl (inl h)
push_seen seen s ss n (inr (inr h)) = inr h

pub pop_seen :
    (seen : List Text) (s : PlanStep) (ss : List PlanStep) (n : Text)
    → Either (s.name ∷ seen) ss n
    → Either seen (s ∷ ss) n
pop_seen seen s ss n (inl (inl h)) = inr (inl h)
pop_seen seen s ss n (inl (inr h)) = inl h
pop_seen seen s ss n (inr h) = inr (inr h)

pub All-map :
    {P Q : Text → Type 0} → ((n : Text) → P n → Q n) → (ns : List Text) → All P ns → All Q ns
All-map f [] h = tt
All-map f (n ∷ ns) (p, h) = (f n p, All-map f ns h)

pub only_seen : (seen : List Text) (n : Text) → Either seen [] n → In n seen
only_seen seen n (inl h) = h
only_seen seen n (inr h) = absurd h

pub Ordered-snoc :
    (seen : List Text) (ss : List PlanStep) (s : PlanStep)
    → Ordered seen ss
    → All (Either seen ss) s.needs
    → ¬ (Either seen ss s.name)
    → Ordered seen (ss ++ s ∷ [])
Ordered-snoc seen [] s o h k = (All-map (only_seen seen) s.needs h, (λ i. k (inl i)), tt)
Ordered-snoc seen (t ∷ ss) s (a, b, o) h k = (
  a,
  b,
  Ordered-snoc (t.name ∷ seen) ss s o (All-map (push_seen seen t ss) s.needs h)
      (λ i. k (pop_seen seen t ss s.name i)),
)
