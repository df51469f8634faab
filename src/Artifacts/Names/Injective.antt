-- ===== src/Artifacts/Names/Injective.antt =====
-- The storage name determines the owner and the repository, up to letter case.
use gitflare.Prelude.{
  ℕ, ◌≡◌, ◌≢◌, refl, sym, ◌∙◌, subst, true, false, [], ◌∷◌, ◌++◌, codes, includes, Text, arith,
  ◌==◌,
}
use gitflare.Artifacts.Names.{
  SegmentKind, owner, repository, NameError, Result, ok, err, ◌>>=◌, ◌>>◌, throw_if, separator,
  reserved_logins, matches_name_pattern, has_separator, assert_segment, to_lower_case, lower_char,
  artifacts_name, wiki_artifacts_name,
}

-- A text whose first code unit is no hyphen.
abbrev pub StartsPlain : Text → Type 0
StartsPlain [] = Unit
StartsPlain (c ∷ s) = c ≢ 45

-- A name that a segment of a storage name may have.
pub record IsSegment (s : Text) : Type 0 where
  pub single : has_separator s ≡ false
  pub plain : StartsPlain s

has_separator-append : (s t : Text) → has_separator (s ++ (separator ++ t)) ≡ true
has_separator-append [] t = refl
has_separator-append (c ∷ s) t = ground (arith, has_separator-append s t)

separator_inside : (r o r' : Text) → IsSegment r → r ≡ o ++ (separator ++ r') → ⊥
separator_inside r o r' h f =
    let a : has_separator (o ++ (separator ++ r')) ≡ false =
      subst (λ t. has_separator t ≡ false) f h.single in
    let b : has_separator (o ++ (separator ++ r')) ≡ true = has_separator-append o r' in cc

hyphen_first : (r r' : Text) → IsSegment r → r ≡ 45 ∷ r' → ⊥
hyphen_first r r' h f = subst StartsPlain f h.plain refl

-- The last separator of a text can be found in one place only.
split_unique :
    (o o' r r' : Text)
    → IsSegment r
    → IsSegment r'
    → o ++ (separator ++ r) ≡ o' ++ (separator ++ r')
    → (o ≡ o') × (r ≡ r')
split_unique [] [] r r' h h' e = (refl, cc)
split_unique [] (c ∷ []) r r' h h' e = absurd (hyphen_first r r' h (cc))
split_unique [] (c ∷ d ∷ o) r r' h h' e = absurd (separator_inside r o r' h (cc))
split_unique (c ∷ []) [] r r' h h' e = absurd (hyphen_first r' r h' (cc))
split_unique (c ∷ d ∷ o) [] r r' h h' e = absurd (separator_inside r' o r h' (cc))
split_unique (c ∷ o) (d ∷ o') r r' h h' e = let (f, g) = split_unique o o' r r' h h' (cc) in (cc, g)

lower_char-hyphen : (c : ℕ) → (45 == lower_char c) ≡ (45 == c)
lower_char-hyphen c = ground arith

has_separator-to_lower_case : (s : Text) → has_separator (to_lower_case s) ≡ has_separator s
has_separator-to_lower_case [] = refl
has_separator-to_lower_case (c ∷ []) = ground (arith, lower_char-hyphen c)
has_separator-to_lower_case (c ∷ d ∷ s) =
    ground (arith, lower_char-hyphen c, lower_char-hyphen d, has_separator-to_lower_case (d ∷ s))

-- What a name that `assertSegment` lets through is like.
assert_segment→ :
    (s : Text) (k : SegmentKind)
    → assert_segment s k ≡ ok tt
    → (has_separator s ≡ false) × (matches_name_pattern s ≡ true)
unfolding assert_segment
assert_segment→ s k h = (ground arith, ground arith)

StartsPlain-to_lower_case :
    (s : Text) → matches_name_pattern s ≡ true → StartsPlain (to_lower_case s)
unfolding matches_name_pattern
StartsPlain-to_lower_case [] h = tt
StartsPlain-to_lower_case (c ∷ s) h = ground arith

to_lower_case-IsSegment :
    (s : Text) (k : SegmentKind) → assert_segment s k ≡ ok tt → IsSegment (to_lower_case s)
to_lower_case-IsSegment s k h =
    let (single, shape) = assert_segment→ s k h in
    record {
      single = has_separator-to_lower_case s ∙ single;
      plain = StartsPlain-to_lower_case s shape;
    }

then-eq-ok :
    {A : Type 0} (m : Result (Unit {0})) (k : Result A) {a : A}
    → (m >> k) ≡ ok a
    → (m ≡ ok tt) × (k ≡ ok a)
then-eq-ok (ok tt) k e = (refl, e)
then-eq-ok (err x) k e = absurd (cc)

artifacts_name-eq :
    (login repo : Text)
    → artifacts_name login repo ≡ (
        assert_segment login owner
        >> throw_if
            (includes reserved_logins (to_lower_case login))
            (NameError.reserved_login login)
        >> (assert_segment repo repository
            >> ok (to_lower_case login ++ (separator ++ to_lower_case repo))))
unfolding artifacts_name
artifacts_name-eq login repo = refl

-- The parts of a storage name that was returned.
artifacts_name→ :
    (login repo name : Text)
    → artifacts_name login repo ≡ ok name
    → IsSegment (to_lower_case login)
      × IsSegment (to_lower_case repo)
      × (name ≡ to_lower_case login ++ (separator ++ to_lower_case repo))
artifacts_name→ login repo name e =
    let (a, f) = then-eq-ok _ _ (sym (artifacts_name-eq login repo) ∙ e) in
    let (b, g) = then-eq-ok (assert_segment login owner) _ a in
    let (c, k) = then-eq-ok (assert_segment repo repository) _ f in
    (to_lower_case-IsSegment login owner b, to_lower_case-IsSegment repo repository c, cc)

-- Two pairs of names share git storage only if they are the same pair, up to letter case.
pub artifacts_name_injective :
    (login repo login' repo' name : Text)
    → artifacts_name login repo ≡ ok name
    → artifacts_name login' repo' ≡ ok name
    → (to_lower_case login ≡ to_lower_case login') × (to_lower_case repo ≡ to_lower_case repo')
artifacts_name_injective login repo login' repo' name e e' =
    let (_, r, f) = artifacts_name→ login repo name e in
    let (_, r', f') = artifacts_name→ login' repo' name e' in
    split_unique (to_lower_case login) (to_lower_case login') (to_lower_case repo)
      (to_lower_case repo') r r' (sym f ∙ f')

wiki_artifacts_name-eq :
    (login repo : Text)
    → wiki_artifacts_name login repo
      ≡ (artifacts_name login repo >>= λ base. ok (base ++ (separator ++ codes "wiki")))
unfolding wiki_artifacts_name
wiki_artifacts_name-eq login repo = refl

wiki_artifacts_name→ :
    (login repo name : Text)
    → wiki_artifacts_name login repo ≡ ok name
    → (base : Text) × (artifacts_name login repo ≡ ok base)
      × (name ≡ base ++ (separator ++ codes "wiki"))
wiki_artifacts_name→ login repo name e =
    go (artifacts_name login repo) refl (sym (wiki_artifacts_name-eq login repo) ∙ e)
  where
    go :
        (m : Result Text)
        → artifacts_name login repo ≡ m
        → (m >>= λ base. ok (base ++ (separator ++ codes "wiki"))) ≡ ok name
        → (base : Text) × (artifacts_name login repo ≡ ok base)
          × (name ≡ base ++ (separator ++ codes "wiki"))
    go (ok base) f g = (base, f, cc)
    go (err x) f g = absurd (cc)

wiki-IsSegment : IsSegment (codes "wiki")
wiki-IsSegment = record { single = refl; plain = omega arith }

-- The wiki's storage is no repository's storage.
pub wiki_artifacts_name_disjoint :
    (login repo login' repo' name : Text)
    → wiki_artifacts_name login repo ≡ ok name
    → artifacts_name login' repo' ≢ ok name
wiki_artifacts_name_disjoint login repo login' repo' name e e' =
    let (base, b, f) = wiki_artifacts_name→ login repo name e in
    let (_, _, g) = artifacts_name→ login repo base b in
    let (l, r', f') = artifacts_name→ login' repo' name e' in
    let (same, _) =
      split_unique base (to_lower_case login') (codes "wiki") (to_lower_case repo') wiki-IsSegment
        r' (sym f ∙ f') in
    separator_inside (to_lower_case login') (to_lower_case login) (to_lower_case repo) l
      (sym same ∙ g)
