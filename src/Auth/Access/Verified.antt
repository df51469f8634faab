-- ===== src/Auth/Access/Verified.antt =====
-- What stands behind an identity that `verifyAccessJwt` returns.
use gitflare.Prelude.{
  ℕ, ◌≡◌, refl, ap, sym, ◌∙◌, Bool, true, not, Option, none, some, List, [], ◌∷◌, ◌++◌, Text, codes,
  split, if◌then◌else◌, arith, Bool-cases, inl, inr,
}
use gitflare.Auth.Access.{
  bad_signature, unexpected_algorithm, AccessIdentity, AccessConfig, AccessJwtPayload, Header, Jwk,
  Certs, CachePut, Result, ok, err, is_text, find_cached, resolve_key, check_read, check_signed,
  check_imported, check_with_key, check_kid, check_header, check_parts, verify_access_jwt,
  base64_url_to_bytes, parse_bytes, non_empty,
}
use gitflare.Auth.Access.Keys.{HasClaims, read_claims, is_text→eq, Known, resolved-Known}

module _ {Key : Type 0} (atob : Text → Option Text) (parse_header : Text → Option (Option Header))
    (parse_payload : Text → Option (Option AccessJwtPayload)) (import_key : Jwk → Option Key)
    (check_signature : Key → Text → Text → Bool) (utf8 : Text → Text) where
  abbrev bytes_of : Text → Option Text
  bytes_of = base64_url_to_bytes atob parse_header parse_payload import_key check_signature utf8

  abbrev parsed : {A : Type 0} → (Text → Option A) → Option Text → Option A
  parsed = parse_bytes atob parse_header parse_payload import_key check_signature utf8

  -- A signature of `h.p` by a key, and the claims that it covers.
  pub record IsSigned (config : AccessConfig) (now : ℕ) (h p s : Text) (jwk : Jwk) : Type 0 where
    pub key : Key
    pub imported : import_key jwk ≡ some key
    pub signature : Text
    pub decoded : bytes_of s ≡ some signature
    pub signed : check_signature key signature (utf8 (h ++ codes "." ++ p)) ≡ true
    pub payload : AccessJwtPayload
    pub read : parsed parse_payload (bytes_of p) ≡ some (some payload)
    pub claims : HasClaims config now payload

  signed_read :
      (config : AccessConfig) (now : ℕ) (identity : AccessIdentity)
      (o : Option (Option AccessJwtPayload))
      → check_read atob parse_header parse_payload import_key check_signature utf8 config now o
        ≡ ok identity
      → (payload : AccessJwtPayload) × (o ≡ some (some payload)) × HasClaims config now payload
  signed_read config now identity none r = absurd (cc)
  signed_read config now identity (some none) r = absurd (cc)
  signed_read config now identity (some (some payload)) r =
      (payload, refl, read_claims config now payload identity r)

  check_signed-IsSigned :
      (config : AccessConfig) (now : ℕ) (h p s : Text) (jwk : Jwk) (identity : AccessIdentity)
      (key : Key) (o : Option Text)
      → import_key jwk ≡ some key
      → bytes_of s ≡ o
      → check_signed atob parse_header parse_payload import_key check_signature utf8 config now h p
          key o
        ≡ ok identity
      → IsSigned config now h p s jwk
  check_signed-IsSigned config now h p s jwk identity key none i d r = absurd (cc)
  check_signed-IsSigned config now h p s jwk identity key (some signature) i d r =
      elim (Bool-cases (check_signature key signature (utf8 (h ++ codes "." ++ p)))) [
        | inr e ↦ absurd (ground arith)
        | inl e ↦
            let rest =
              check_read atob parse_header parse_payload import_key check_signature utf8 config now
                (parsed parse_payload (bytes_of p)) in
            let k : rest ≡ ok identity =
              ap (λ b. if not b then err bad_signature else rest) (sym e) ∙ r in
            let (payload, read, claims) =
              signed_read config now identity (parsed parse_payload (bytes_of p)) k in
            record {
              key = key;
              imported = i;
              signature = signature;
              decoded = d;
              signed = e;
              payload = payload;
              read = read;
              claims = claims;
            }
      ]

  check_imported-IsSigned :
      (config : AccessConfig) (now : ℕ) (h p s : Text) (jwk : Jwk) (identity : AccessIdentity)
      (o : Option Key)
      → import_key jwk ≡ o
      → check_imported atob parse_header parse_payload import_key check_signature utf8 config now h
          p s o
        ≡ ok identity
      → IsSigned config now h p s jwk
  check_imported-IsSigned config now h p s jwk identity none i r = absurd (cc)
  check_imported-IsSigned config now h p s jwk identity (some key) i r =
      check_signed-IsSigned config now h p s jwk identity key (bytes_of s) i refl r

  -- What stands behind an identity: three parts, a header that names RS256 and a key of the team,
  -- and that key's signature of the claims.
  pub record IsVerified (config : AccessConfig) (now : ℕ) (certs : Certs)
      (cache : Option (List Jwk)) (token : Text) : Type 0 where
    pub h : Text
    pub p : Text
    pub s : Text
    pub parts : split 46 token ≡ h ∷ p ∷ s ∷ []
    pub header : Header
    pub header_read : parsed parse_header (bytes_of h) ≡ some (some header)
    pub algorithm : header.alg ≡ some (codes "RS256")
    pub jwk : Jwk
    pub known : Known certs cache jwk
    pub named : header.kid ≡ some jwk.kid
    pub signed : IsSigned config now h p s jwk

  identity_key :
      (config : AccessConfig) (now : ℕ) (h p s : Text) (r : Result Jwk) (identity : AccessIdentity)
      → check_with_key atob parse_header parse_payload import_key check_signature utf8 config now h
          p s r
        ≡ ok identity
      → (jwk : Jwk) × (r ≡ ok jwk) × IsSigned config now h p s jwk
  identity_key config now h p s (err e) identity k = absurd (cc)
  identity_key config now h p s (ok jwk) identity k =
      (jwk, refl, check_imported-IsSigned config now h p s jwk identity (import_key jwk) refl k)

  identity_kid :
      (config : AccessConfig) (now : ℕ) (certs : Certs) (cache : Option (List Jwk)) (h p s : Text)
      (kid : Option Text) (identity : AccessIdentity)
      → (check_kid atob parse_header parse_payload import_key check_signature utf8 config now certs
          cache h p s kid).0
        ≡ ok identity
      → (jwk : Jwk) × Known certs cache jwk × (kid ≡ some jwk.kid) × IsSigned config now h p s jwk
  identity_kid config now certs cache h p s none identity k = absurd (cc)
  identity_kid config now certs cache h p s (some kid) identity k =
      let (jwk, e, signed) =
        identity_key config now h p s (resolve_key certs cache kid).0 identity k in
      let (known, same) = resolved-Known certs cache kid jwk (find_cached cache kid) refl e in
      (jwk, known, ap some (sym same), signed)

  non_empty-some : (o : Option Text) (t : Text) → non_empty o ≡ some t → o ≡ some t
  non_empty-some none t e = absurd (cc)
  non_empty-some (some []) t e = absurd (cc)
  non_empty-some (some (c ∷ s)) t e = e

  abbrev kid_check :
      Header
      → Text
      → Text
      → Text
      → AccessConfig
      → ℕ
      → Certs
      → Option (List Jwk)
      → Result AccessIdentity × Option CachePut
  kid_check header h p s config now certs cache =
      check_kid atob parse_header parse_payload import_key check_signature utf8 config now certs
        cache h p s (non_empty header.kid)

  check_header-IsVerified :
      (config : AccessConfig) (now : ℕ) (certs : Certs) (cache : Option (List Jwk))
      (token h p s : Text) (o : Option (Option Header)) (identity : AccessIdentity)
      → split 46 token ≡ h ∷ p ∷ s ∷ []
      → parsed parse_header (bytes_of h) ≡ o
      → (check_header atob parse_header parse_payload import_key check_signature utf8 config now
          certs cache h p s o).0
        ≡ ok identity
      → IsVerified config now certs cache token
  check_header-IsVerified config now certs cache token h p s none identity t e k = absurd (cc)
  check_header-IsVerified config now certs cache token h p s (some none) identity t e k =
      absurd (cc)
  check_header-IsVerified config now certs cache token h p s (some (some header)) identity t e k =
      elim (Bool-cases (is_text header.alg (codes "RS256"))) [
        | inr f ↦
            let wrong : err unexpected_algorithm ≡ ok identity =
              ap
                (λ b.
                  (if not b
                    then (err unexpected_algorithm, none)
                    else kid_check header h p s config now certs cache).0)
                (sym f)
              ∙ k in
            absurd (cc)
        | inl f ↦
            let (jwk, known, named, signed) =
              identity_kid config now certs cache h p s (non_empty header.kid) identity (
                ap
                  (λ b.
                    (if not b
                      then (err unexpected_algorithm, none)
                      else kid_check header h p s config now certs cache).0)
                  (sym f)
                ∙ k) in
            record {
              h = h;
              p = p;
              s = s;
              parts = t;
              header = header;
              header_read = e;
              algorithm = is_text→eq header.alg (codes "RS256") f;
              jwk = jwk;
              known = known;
              named = non_empty-some header.kid jwk.kid named;
              signed = signed;
            }
      ]

  check_parts-IsVerified :
      (config : AccessConfig) (now : ℕ) (certs : Certs) (cache : Option (List Jwk)) (token : Text)
      (parts : List Text) (identity : AccessIdentity)
      → split 46 token ≡ parts
      → (check_parts atob parse_header parse_payload import_key check_signature utf8 config now
          certs cache parts).0
        ≡ ok identity
      → IsVerified config now certs cache token
  check_parts-IsVerified config now certs cache token [] identity t k = absurd (cc)
  check_parts-IsVerified config now certs cache token (h ∷ []) identity t k = absurd (cc)
  check_parts-IsVerified config now certs cache token (h ∷ p ∷ []) identity t k = absurd (cc)
  check_parts-IsVerified config now certs cache token (h ∷ p ∷ s ∷ []) identity t k =
      check_header-IsVerified config now certs cache token h p s (parsed parse_header (bytes_of h))
        identity t refl k
  check_parts-IsVerified config now certs cache token (h ∷ p ∷ s ∷ q ∷ qs) identity t k =
      absurd (cc)

  -- A token that is accepted has three parts, its header names RS256 and the id of a key of the
  -- team, from the cache or freshly fetched, that key's signature of the first two parts checks, and
  -- the signed claims name the team as issuer and this application as audience, and hold at this
  -- time within a minute's tolerance.
  pub verify_access_jwt-IsVerified :
      (config : AccessConfig) (now : ℕ) (certs : Certs) (cache : Option (List Jwk)) (token : Text)
      (identity : AccessIdentity)
      → (verify_access_jwt atob parse_header parse_payload import_key check_signature utf8 config
          now certs cache token).0
        ≡ ok identity
      → IsVerified config now certs cache token
  verify_access_jwt-IsVerified config now certs cache token identity k =
      check_parts-IsVerified config now certs cache token (split 46 token) identity refl k
