-- ===== src/Auth/Access.antt =====
-- src/server/auth/access.ts: verification of a Cloudflare Access token. The platform's decoding of
-- base64 and JSON, its key import and its signature check are parameters, as is the response of
-- the team's key endpoint.
pub mod Keys
pub mod Verified
mod Tests
use gitflare.Prelude.{
  ℕ, ◌+◌, ◌/◌, Bool, true, false, ◌&&◌, ◌||◌, not, Option, none, some, List, [], ◌∷◌, ◌++◌, ltb,
  leb, text_eq, includes, split, codes, ◌==◌, ◌*◌, ◌-◌, length, replicate, Text, if◌then◌else◌, ◌≡◌,
}

pub record AccessIdentity : Type 0 where
  pub sub : Text
  pub email : Text
  pub common_name : Option Text

-- The claim `aud`: missing, one audience or several.
pub data Audience : Type 0 where
  no_audience : Audience
  one_audience : Text → Audience
  audiences : List Text → Audience

-- `exp` and `nbf` are `none` when they are no numbers; a number is taken as whole seconds, not
-- negative.
pub record AccessJwtPayload : Type 0 where
  pub aud : Audience
  pub email : Option Text
  pub sub : Option Text
  pub iss : Option Text
  pub exp : Option ℕ
  pub nbf : Option ℕ
  pub common_name : Option Text

pub record Header : Type 0 where
  pub kid : Option Text
  pub alg : Option Text

pub record Jwk : Type 0 where
  pub kid : Text
  pub kty : Text
  pub n : Text
  pub e : Text

pub record AccessConfig : Type 0 where
  pub team_domain : Text
  pub aud : Text

-- `type_error` is the exception of a property of null; the others are AccessVerificationErrors.
pub data AccessError : Type 0 where
  malformed not_json unexpected_algorithm missing_key_id certs_failed certs_empty : AccessError
  no_matching_key key_refused bad_base64 bad_signature bad_issuer bad_audience : AccessError
  expired not_valid_yet no_subject type_error : AccessError

pub data Result (A : Type 0) : Type 0 where
  err : AccessError → Result A
  ok : A → Result A

-- The response of `/cdn-cgi/access/certs`: whether it is ok, and its `keys`.
pub record Certs : Type 0 where
  pub is_ok : Bool
  pub keys : Option (List Jwk)

abbrev pub clock_skew : ℕ
clock_skew = 60

abbrev pub fetch_jwks : Certs → Result (List Jwk)
fetch_jwks certs = if not certs.is_ok then err certs_failed else elim certs.keys [
  | none ↦ err certs_empty
  | some keys ↦ elim keys [ [] ↦ err certs_empty | ◌∷◌ k ks ↦ ok (k ∷ ks) ]
]

abbrev pub find_key : List Jwk → Text → Option Jwk
find_key [] kid = none
find_key (k ∷ ks) kid = if text_eq k.kid kid then some k else find_key ks kid

abbrev pub find_cached : Option (List Jwk) → Text → Option Jwk
find_cached none kid = none
find_cached (some keys) kid = find_key keys kid

abbrev pub key_or_error : Option Jwk → Result Jwk
key_or_error none = err no_matching_key
key_or_error (some k) = ok k

abbrev pub jwks_cache_ttl : ℕ
jwks_cache_ttl = 3600

-- What is put into the cache, and for how many seconds.
pub record CachePut : Type 0 where
  pub keys : List Jwk
  pub expiration_ttl : ℕ

-- Behind a miss: the keys that are fetched go into the cache before they are searched.
abbrev pub refresh : Text → Result (List Jwk) → Result Jwk × Option CachePut
refresh kid (err e) = (err e, none)
refresh kid (ok fresh) = (
  key_or_error (find_key fresh kid),
  some record { keys = fresh; expiration_ttl = jwks_cache_ttl },
)

-- The key of an id, and what is put into the cache. `cache` is what the cache gives now.
abbrev pub resolve_key : Certs → Option (List Jwk) → Text → Result Jwk × Option CachePut
resolve_key certs cache kid = elim (find_cached cache kid) [
  | some k ↦ (ok k, none)
  | none ↦ refresh kid (fetch_jwks certs)
]

abbrev pub is_text : Option Text → Text → Bool
is_text none t = false
is_text (some s) t = text_eq s t

-- `payload.aud ? [payload.aud] : []`: an empty audience counts as none.
abbrev pub audience_list : Audience → List Text
audience_list no_audience = []
audience_list (one_audience []) = []
audience_list (one_audience (c ∷ a)) = (c ∷ a) ∷ []
audience_list (audiences names) = names

abbrev pub issuer : AccessConfig → Text
issuer config = codes "https://" ++ config.team_domain

abbrev pub is_unexpired : ℕ → Option ℕ → Bool
is_unexpired now none = false
is_unexpired now (some exp) = leb now (exp + clock_skew)

abbrev pub has_started : ℕ → Option ℕ → Bool
has_started now none = true
has_started now (some nbf) = leb nbf (now + clock_skew)

-- The exception of the first claim that does not hold, `none` when all do. `now` is in seconds.
abbrev pub assert_claims : AccessConfig → ℕ → AccessJwtPayload → Option AccessError
assert_claims config now payload =
    if not (is_text payload.iss (issuer config))
    then some bad_issuer
    else if not (includes (audience_list payload.aud) config.aud)
    then some bad_audience
    else if not (is_unexpired now payload.exp)
    then some expired
    else if not (has_started now payload.nbf)
    then some not_valid_yet
    else none

-- `||` on strings: a missing or empty one is passed over.
abbrev pub non_empty : Option Text → Option Text
non_empty none = none
non_empty (some []) = none
non_empty (some (c ∷ s)) = some (c ∷ s)

abbrev pub or_else : Option Text → Text → Text
or_else none t = t
or_else (some s) t = s

abbrev pub identity_of : AccessJwtPayload → Option Text → Option Text → Result AccessIdentity
identity_of payload none none = err no_subject
identity_of payload (some sub) name =
    ok record { sub = sub; email = or_else payload.email []; common_name = payload.common_name }
identity_of payload none (some name) = ok record {
  sub = codes "service:" ++ name;
  email = or_else payload.email [];
  common_name = payload.common_name;
}

-- An exception, or else the result behind it.
abbrev pub raised : Option AccessError → Result AccessIdentity → Result AccessIdentity
raised none result = result
raised (some e) result = err e

abbrev pub check_payload : AccessConfig → ℕ → AccessJwtPayload → Result AccessIdentity
check_payload config now payload =
    raised (assert_claims config now payload)
      (identity_of payload (non_empty payload.sub) (non_empty payload.common_name))

abbrev pub from_url_char : ℕ → ℕ
from_url_char c = if c == 45 then 43 else if c == 95 then 47 else c

abbrev pub from_url : Text → Text
from_url [] = []
from_url (c ∷ s) = from_url_char c ∷ from_url s

-- `padded.padEnd(Math.ceil(padded.length / 4) * 4, '=')`
abbrev pub pad_base64 : Text → Text
pad_base64 s = s ++ replicate ((length s + 3) / 4 * 4 - length s) 61

-- Of a parsed text, `none` is no JSON and `some none` is JSON's null.
module _ {Key : Type 0} (atob : Text → Option Text) (parse_header : Text → Option (Option Header))
    (parse_payload : Text → Option (Option AccessJwtPayload)) (import_key : Jwk → Option Key)
    (check_signature : Key → Text → Text → Bool) (utf8 : Text → Text) where
  abbrev pub base64_url_to_bytes : Text → Option Text
  base64_url_to_bytes value = atob (pad_base64 (from_url value))

  abbrev pub parse_bytes : {A : Type 0} → (Text → Option A) → Option Text → Option A
  parse_bytes parse none = none
  parse_bytes parse (some bytes) = parse bytes

  abbrev pub check_read :
      AccessConfig → ℕ → Option (Option AccessJwtPayload) → Result AccessIdentity
  check_read config now none = err not_json
  check_read config now (some none) = err type_error
  check_read config now (some (some payload)) = check_payload config now payload

  abbrev pub check_signed :
      AccessConfig → ℕ → Text → Text → Key → Option Text → Result AccessIdentity
  check_signed config now h p key none = err bad_base64
  check_signed config now h p key (some signature) =
      if not (check_signature key signature (utf8 (h ++ codes "." ++ p)))
      then err bad_signature
      else check_read config now (parse_bytes parse_payload (base64_url_to_bytes p))

  abbrev pub check_imported :
      AccessConfig → ℕ → Text → Text → Text → Option Key → Result AccessIdentity
  check_imported config now h p s none = err key_refused
  check_imported config now h p s (some key) =
      check_signed config now h p key (base64_url_to_bytes s)

  abbrev pub check_with_key :
      AccessConfig → ℕ → Text → Text → Text → Result Jwk → Result AccessIdentity
  check_with_key config now h p s (err e) = err e
  check_with_key config now h p s (ok jwk) = check_imported config now h p s (import_key jwk)

  -- The result, and what is put into the cache.
  abbrev pub Checked : Type 0
  Checked = Result AccessIdentity × Option CachePut

  abbrev pub check_kid :
      AccessConfig → ℕ → Certs → Option (List Jwk) → Text → Text → Text → Option Text → Checked
  check_kid config now certs cache h p s none = (err missing_key_id, none)
  check_kid config now certs cache h p s (some kid) =
      let (found, put) = resolve_key certs cache kid in (check_with_key config now h p s found, put)

  abbrev pub check_header :
      AccessConfig
      → ℕ
      → Certs
      → Option (List Jwk)
      → Text
      → Text
      → Text
      → Option (Option Header)
      → Checked
  check_header config now certs cache h p s none = (err not_json, none)
  check_header config now certs cache h p s (some none) = (err type_error, none)
  check_header config now certs cache h p s (some (some header)) =
      if not (is_text header.alg (codes "RS256"))
      then (err unexpected_algorithm, none)
      else check_kid config now certs cache h p s (non_empty header.kid)

  abbrev pub check_parts : AccessConfig → ℕ → Certs → Option (List Jwk) → List Text → Checked
  check_parts config now certs cache [] = (err malformed, none)
  check_parts config now certs cache (h ∷ []) = (err malformed, none)
  check_parts config now certs cache (h ∷ p ∷ []) = (err malformed, none)
  check_parts config now certs cache (h ∷ p ∷ s ∷ []) =
      check_header config now certs cache h p s (parse_bytes parse_header (base64_url_to_bytes h))
  check_parts config now certs cache (h ∷ p ∷ s ∷ t ∷ ts) = (err malformed, none)

  abbrev pub verify_access_jwt : AccessConfig → ℕ → Certs → Option (List Jwk) → Text → Checked
  verify_access_jwt config now certs cache token =
      check_parts config now certs cache (split 46 token)
