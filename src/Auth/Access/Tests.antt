-- ===== src/Auth/Access/Tests.antt =====
-- The theorems on Access tokens at a concrete token.
use gitflare.Prelude.{◌≡◌, refl, Bool, true, Option, none, some, [], ◌∷◌, Text, codes}
use gitflare.Auth.Access.{
  AccessIdentity, AccessConfig, AccessJwtPayload, Header, Jwk, Certs, one_audience, ok, err,
  type_error, check_header, resolve_key,
}
use gitflare.Auth.Access.Verified.{IsVerified, verify_access_jwt-IsVerified}

abbrev config : AccessConfig
config = record { team_domain = codes "t.example"; aud = codes "app" }

abbrev team_key : Jwk
team_key = record { kid = codes "k1"; kty = codes "RSA"; n = codes "n"; e = codes "e" }

abbrev team : Certs
team = record { is_ok = true; keys = some (team_key ∷ []) }

abbrev claims : AccessJwtPayload
claims = record {
  aud = one_audience (codes "app");
  email = some (codes "a@b");
  sub = some (codes "s1");
  iss = some (codes "https://t.example");
  exp = some 1000;
  nbf = none;
  common_name = none;
}

abbrev identity : AccessIdentity
identity = record { sub = codes "s1"; email = codes "a@b"; common_name = none }

-- Stand-ins for the platform: every segment decodes, and every signature checks.
abbrev decode : Text → Option Text
decode s = some s

abbrev header_of : Text → Option (Option Header)
header_of s = some (some record { kid = some (codes "k1"); alg = some (codes "RS256") })

abbrev payload_of : Text → Option (Option AccessJwtPayload)
payload_of s = some (some claims)

abbrev key_of : Jwk → Option Jwk
key_of k = some k

abbrev check : Jwk → Text → Text → Bool
check k signature signed = true

abbrev same : Text → Text
same s = s

verify_access_jwt-IsVerified_example :
    IsVerified decode header_of payload_of key_of check same config 1060 team none (codes "a.b.c")
verify_access_jwt-IsVerified_example =
    verify_access_jwt-IsVerified decode header_of payload_of key_of check same config 1060 team none
      (codes "a.b.c") identity refl

-- A header that is null is a TypeError in the source.
null_header :
    (check_header decode
      (λ s. some none)
      payload_of
      key_of
      check
      same
      config
      1060
      team
      none
      (codes "a")
      (codes "b")
      (codes "c")
      (some none)).0
    ≡ err type_error
null_header = refl

fetched :
    resolve_key team (some []) (codes "k1")
    ≡ (ok team_key, some record { keys = team_key ∷ []; expiration_ttl = 3600 })
fetched = refl
