-- ===== src/Auth/Access/Keys.antt =====
-- The claims that hold behind `assertClaims`, and the keys that `resolveKey` finds.
use gitflare.Prelude.{
  ℕ, ◌+◌, ◌≤◌, ◌≡◌, refl, ap, sym, ◌∙◌, Bool, true, not, Option, none, some, List, [], ◌∷◌, Text,
  text_eq, text_eq_iff, includes, includes→In, if◌then◌else◌, arith, Bool-cases, inl, inr, In,
  subst, ◌⊎◌,
}
use gitflare.Auth.Access.{
  AccessError, raised, AccessIdentity, AccessConfig, AccessJwtPayload, Jwk, Certs, Result, ok, err,
  is_text, issuer, audience_list, is_unexpired, has_started, assert_claims, find_key, find_cached,
  resolve_key, refresh, key_or_error, fetch_jwks, check_payload, bad_issuer, bad_audience, expired,
  not_valid_yet,
}

-- The claims that are asserted.
pub record HasClaims (config : AccessConfig) (now : ℕ) (payload : AccessJwtPayload) : Type 0 where
  pub issued : payload.iss ≡ some (issuer config)
  pub audience : In config.aud (audience_list payload.aud)
  pub unexpired : (exp : ℕ) × (payload.exp ≡ some exp) × (now ≤ exp + 60)
  pub started : (nbf : ℕ) → payload.nbf ≡ some nbf → nbf ≤ now + 60

pub is_text→eq : (o : Option Text) (t : Text) → is_text o t ≡ true → o ≡ some t
is_text→eq none t h = absurd (cc)
is_text→eq (some s) t h = ap some ((text_eq_iff s t).0 h)

is_unexpired→ :
    (now : ℕ) (o : Option ℕ)
    → is_unexpired now o ≡ true
    → (exp : ℕ) × (o ≡ some exp) × (now ≤ exp + 60)
is_unexpired→ now none h = absurd (cc)
is_unexpired→ now (some exp) h = (exp, refl, ground arith)

has_started→ :
    (now : ℕ) (o : Option ℕ) (nbf : ℕ) → has_started now o ≡ true → o ≡ some nbf → nbf ≤ now + 60
has_started→ now none nbf h e = absurd (cc)
has_started→ now (some n) nbf h e = let k : n ≡ nbf = cc in ground arith

four_checks :
    (a b c d : Bool)
    → (if not a
        then some bad_issuer
        else if not b
        then some bad_audience
        else if not c
        then some expired
        else if not d
        then some not_valid_yet
        else none)
      ≡ none
    → (a ≡ true) × (b ≡ true) × (c ≡ true) × (d ≡ true)
four_checks a b c d h = ground arith

assert_claims-HasClaims :
    (config : AccessConfig) (now : ℕ) (payload : AccessJwtPayload)
    → assert_claims config now payload ≡ none
    → HasClaims config now payload
assert_claims-HasClaims config now payload h =
    let (a, b, c, d) =
      four_checks (is_text payload.iss (issuer config))
        (includes (audience_list payload.aud) config.aud) (is_unexpired now payload.exp)
        (has_started now payload.nbf) h in
    record {
      issued = is_text→eq payload.iss (issuer config) a;
      audience = includes→In (audience_list payload.aud) config.aud b;
      unexpired = is_unexpired→ now payload.exp c;
      started = λ nbf e. has_started→ now payload.nbf nbf d e;
    }

none_of :
    (o : Option AccessError) (r : Result AccessIdentity) (identity : AccessIdentity)
    → raised o r ≡ ok identity
    → o ≡ none
none_of none r identity h = refl
none_of (some e) r identity h = absurd (cc)

some-injective : (j k : Jwk) → some j ≡ some k → j ≡ k
some-injective j k h = cc

resolve_miss :
    (certs : Certs) (cache : Option (List Jwk)) (kid : Text)
    → find_cached cache kid ≡ none
    → resolve_key certs cache kid ≡ refresh kid (fetch_jwks certs)
resolve_miss certs cache kid e = rw (e, resolve_key) refl

pub read_claims :
    (config : AccessConfig) (now : ℕ) (payload : AccessJwtPayload) (identity : AccessIdentity)
    → check_payload config now payload ≡ ok identity
    → HasClaims config now payload
read_claims config now payload identity h =
    assert_claims-HasClaims config now payload
      (none_of (assert_claims config now payload) _ identity h)

find_key-In :
    (keys : List Jwk) (kid : Text) (k : Jwk)
    → find_key keys kid ≡ some k
    → In k keys × (k.kid ≡ kid)
find_key-In [] kid k h = absurd (cc)
find_key-In (j ∷ keys) kid k h = elim (Bool-cases (text_eq j.kid kid)) [
  | inl e ↦
      let same : j ≡ k =
        some-injective j k (ap (λ b. if b then some j else find_key keys kid) (sym e) ∙ h) in
      (inl (sym same), subst (λ x. x.kid ≡ kid) same ((text_eq_iff j.kid kid).0 e))
  | inr e ↦
      let (i, f) =
        find_key-In keys kid k (ap (λ b. if b then some j else find_key keys kid) (sym e) ∙ h) in
      (inr i, f)
]

-- The keys of a team, as the cache or its endpoint has them.
abbrev pub Known : Certs → Option (List Jwk) → Jwk → Type 0
Known certs cache k =
    ((keys : List Jwk) × (cache ≡ some keys) × In k keys)
    ⊎ ((keys : List Jwk) × (fetch_jwks certs ≡ ok keys) × In k keys)

find_cached-Known :
    (certs : Certs) (cache : Option (List Jwk)) (kid : Text) (k : Jwk)
    → find_cached cache kid ≡ some k
    → Known certs cache k × (k.kid ≡ kid)
find_cached-Known certs none kid k h = absurd (cc)
find_cached-Known certs (some keys) kid k h =
    let (i, e) = find_key-In keys kid k h in (inl (keys, refl, i), e)

key_found : (o : Option Jwk) (k : Jwk) → key_or_error o ≡ ok k → o ≡ some k
key_found none k h = absurd (cc)
key_found (some j) k h = ap some (cc)

refresh-Known :
    (certs : Certs) (cache : Option (List Jwk)) (kid : Text) (k : Jwk) (fetched : Result (List Jwk))
    → fetch_jwks certs ≡ fetched
    → (refresh kid fetched).0 ≡ ok k
    → Known certs cache k × (k.kid ≡ kid)
refresh-Known certs cache kid k (err e) f h = absurd (cc)
refresh-Known certs cache kid k (ok fresh) f h =
    let (i, e) = find_key-In fresh kid k (key_found (find_key fresh kid) k h) in
    (inr (fresh, f, i), e)

pub resolved-Known :
    (certs : Certs) (cache : Option (List Jwk)) (kid : Text) (k : Jwk) (hit : Option Jwk)
    → find_cached cache kid ≡ hit
    → (resolve_key certs cache kid).0 ≡ ok k
    → Known certs cache k × (k.kid ≡ kid)
resolved-Known certs cache kid k none e h =
    refresh-Known certs cache kid k (fetch_jwks certs) refl
      (sym (ap (λ r. r.0) (resolve_miss certs cache kid e)) ∙ h)
resolved-Known certs cache kid k (some j) e h =
    let r : (resolve_key certs cache kid).0 ≡ ok j = rw (e, resolve_key) refl in
    let same : j ≡ k = cc in find_cached-Known certs cache kid k (e ∙ ap some same)
