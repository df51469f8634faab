-- ===== src/Errors/Gate.antt =====
-- The forms in which a missing Artifacts account is reported.
use gitflare.Prelude.{
  ◌≡◌, refl, ap, ◌∙◌, Bool, true, false, ◌||◌, some, [], ◌∷◌, ◌++◌, Text, codes, eq→text_eq,
  starts_with, starts_with-append, Bool-cases, inl, inr,
}
use gitflare.Artifacts.Names.{to_lower_case, lower_char}
use gitflare.Errors.{
  Thrown, connect, other, forge, artifacts, ArtifactsError, ForgeError, contains, is_gate_error,
  is_feature_gate, has_code, gate_message, artifacts_to_connect, to_connect_error,
}

-- The binding's error by its number, or by a message that says feature gate in any letters, and
-- the domain error that wraps it.
pub data IsGate : Thrown → Type 0 where
  by_number : (e : ArtifactsError) → e.numeric_code ≡ some 10004 → IsGate (artifacts e)
  by_message :
      (e : ArtifactsError) (before gate behind : Text)
      → e.message ≡ before ++ (gate ++ behind)
      → to_lower_case gate ≡ codes "feature gate"
      → IsGate (artifacts e)
  wrapped : (e : ForgeError) → e.message ≡ gate_message → IsGate (forge e)

to_lower_case-append : (s t : Text) → to_lower_case (s ++ t) ≡ to_lower_case s ++ to_lower_case t
to_lower_case-append [] t = refl
to_lower_case-append (c ∷ s) t = ap (λ r. lower_char c ∷ r) (to_lower_case-append s t)

contains-start : (part s : Text) → starts_with part s ≡ true → contains part s ≡ true
contains-start part [] h = h
contains-start part (c ∷ s) h = rw h refl

contains-append : (part before behind : Text) → contains part (before ++ (part ++ behind)) ≡ true
contains-append part [] behind =
    contains-start part (part ++ behind) (starts_with-append part behind)
contains-append part (c ∷ before) behind =
    let k = contains-append part before behind in
    elim (Bool-cases (starts_with part (c ∷ (before ++ (part ++ behind))))) [
      | inl e ↦ rw e refl
      | inr e ↦ rw e k
    ]

or_true : (b : Bool) → b || true ≡ true
or_true true = refl
or_true false = refl

gated_by_message :
    (e : ArtifactsError) (before gate behind : Text)
    → e.message ≡ before ++ (gate ++ behind)
    → to_lower_case gate ≡ codes "feature gate"
    → is_feature_gate e ≡ true
gated_by_message e before gate behind m g =
    let lower : to_lower_case e.message
        ≡ to_lower_case before ++ (codes "feature gate" ++ to_lower_case behind) =
      ap to_lower_case m
      ∙ to_lower_case-append before (gate ++ behind)
      ∙ ap (λ r. to_lower_case before ++ r)
          (to_lower_case-append gate behind ∙ ap (λ r. r ++ to_lower_case behind) g) in
    let found : contains (codes "feature gate") (to_lower_case e.message) ≡ true =
      ap (contains (codes "feature gate")) lower
      ∙ contains-append (codes "feature gate") (to_lower_case before) (to_lower_case behind) in
    ap (λ b. has_code e.numeric_code 10004 || b) found ∙ or_true (has_code e.numeric_code 10004)

gated_by_number : (e : ArtifactsError) → e.numeric_code ≡ some 10004 → is_feature_gate e ≡ true
gated_by_number e n =
    ap (λ o. has_code o 10004 || contains (codes "feature gate") (to_lower_case e.message)) n

pub IsGate-is_gate_error : (error : Thrown) → IsGate error → is_gate_error error ≡ true
IsGate-is_gate_error (artifacts e) (by_number _ n) = gated_by_number e n
IsGate-is_gate_error (artifacts e) (by_message _ before gate behind m g) =
    gated_by_message e before gate behind m g
IsGate-is_gate_error (connect e) h = elim h [ ]
IsGate-is_gate_error other h = elim h [ ]
IsGate-is_gate_error (forge e) (wrapped _ m) = eq→text_eq e.message gate_message m

-- What RPC clients are told.
pub IsGate-message :
    (error : Thrown) → IsGate error → (to_connect_error error).message ≡ gate_message
IsGate-message (artifacts e) (by_number _ n) = rw (gated_by_number e n, artifacts_to_connect) refl
IsGate-message (artifacts e) (by_message _ before gate behind m g) =
    rw (gated_by_message e before gate behind m g, artifacts_to_connect) refl
IsGate-message (connect e) h = elim h [ ]
IsGate-message other h = elim h [ ]
IsGate-message (forge e) (wrapped _ m) = m
