-- ===== src/Git/Http.antt =====
-- src/server/git/http.ts: the proxy between git clients and the Artifacts remote. Header names are
-- in lower case, since Headers compares them so; a value that `get` does not find is `none`.
pub mod Routes
pub mod Safety
mod Tests
use gitflare.Prelude.{
  ℕ, ◌+◌, ◌-◌, ◌<◌, Bool, true, false, ◌&&◌, ◌||◌, not, Option, none, some, List, [], ◌∷◌, ◌++◌,
  ◌==◌, ltb, leb, length, take, drop, filter, Text, codes, text_eq, split, join, if◌then◌else◌, ◌⊎◌,
  inl, inr,
}
use gitflare.Auth.Rbac.{Permission, read, write, rank}
use gitflare.Errors.{
  Thrown, connect, forge, artifacts, other, ForgeErrorKind, not_found, already_exists,
  permission_denied, unauthenticated, invalid_argument, failed_precondition, conflict, unavailable,
  unimplemented, internal, http_status_for, is_gate_error,
}
use gitflare.Git.Refs.{ends_with, is_empty}

pub data GitService : Type 0 where
  upload_pack receive_pack : GitService

abbrev pub service_name : GitService → Text
service_name upload_pack = codes "git-upload-pack"
service_name receive_pack = codes "git-receive-pack"

pub record GitRoute : Type 0 where
  pub owner_name : Text
  pub repo : Text
  pub service : GitService
  pub is_advertisement : Bool

-- The service of a name, if it is one of the two.
abbrev pub service_of : Text → Option GitService
service_of name =
    if text_eq name (codes "git-upload-pack")
    then some upload_pack
    else if text_eq name (codes "git-receive-pack")
    then some receive_pack
    else none

-- `.replace(/\.git$/, '')`
abbrev pub strip_git : Text → Text
strip_git name = if ends_with (codes ".git") name then take (length name - 4) name else name

abbrev pub route_of : Text → Text → Bool → Option GitService → Option GitRoute
route_of owner_name repo is_advertisement none = none
route_of owner_name repo is_advertisement (some service) = some record {
  owner_name = owner_name;
  repo = strip_git repo;
  service = service;
  is_advertisement = is_advertisement;
}

-- `url.searchParams.get('service')`
abbrev pub service_param : Option Text → Option GitService
service_param none = none
service_param (some name) = service_of name

abbrev pub match_segments : List Text → Option Text → Text → Option GitRoute
match_segments [] param method = none
match_segments (o ∷ []) param method = none
match_segments (o ∷ r ∷ []) param method = none
match_segments (o ∷ r ∷ s ∷ segments) param method =
    let rest = join (codes "/") (s ∷ segments) in
    if text_eq method (codes "GET") && text_eq rest (codes "info/refs")
    then route_of o r true (service_param param)
    else if text_eq method (codes "POST")
    then route_of o r false (service_of rest)
    else none

abbrev pub match_git_route : Text → Option Text → Text → Option GitRoute
match_git_route pathname param method =
    match_segments (filter (λ s. not (is_empty s)) (split 47 pathname)) param method

abbrev pub required_permission : GitService → Permission
required_permission receive_pack = write
required_permission upload_pack = read

pub record GitAuthorization : Type 0 where
  pub permission : Permission
  pub can_write : Bool
  pub user_id : Option Text
  pub artifacts_name : Text
  pub archived : Bool

pub record Request : Type 0 where
  pub header : Text → Option Text
  pub body : Text

pub record Response : Type 0 where
  pub status : ℕ
  pub headers : List (Text × Text)
  pub body : Text

-- What is sent to the remote; `body` is missing for a GET.
pub record Upstream : Type 0 where
  pub url : Text
  pub method : Text
  pub headers : List (Text × Text)
  pub body : Option Text

pub data Scope : Type 0 where
  read_scope write_scope : Scope

abbrev pub git_error : ℕ → Text → Response
git_error status message = record {
  status = status;
  headers = (codes "content-type", codes "text/plain; charset=utf-8") ∷ [];
  body = message ++ codes "\n";
}

abbrev pub unauthorized : Bool → Response
unauthorized true = git_error 403 (codes "You do not have permission to push to this repository.")
unauthorized false = record {
  status = 401;
  headers =
      (codes "www-authenticate", codes "Basic realm=\"Gitflare\", charset=\"UTF-8\"")
      ∷ (codes "content-type", codes "text/plain; charset=utf-8")
      ∷ [];
  body = codes "Authentication required\n";
}

-- `error.kind === 'unauthenticated'`
abbrev pub is_unauthenticated : ForgeErrorKind → Bool
is_unauthenticated unauthenticated = true
is_unauthenticated not_found = false
is_unauthenticated already_exists = false
is_unauthenticated permission_denied = false
is_unauthenticated invalid_argument = false
is_unauthenticated failed_precondition = false
is_unauthenticated conflict = false
is_unauthenticated unavailable = false
is_unauthenticated unimplemented = false
is_unauthenticated internal = false

abbrev pub thrown_response : Thrown → Response
thrown_response (forge e) =
    if is_unauthenticated e.kind
    then unauthorized false
    else git_error (http_status_for (forge e)) e.message
thrown_response (artifacts e) = git_error 500 (codes "Internal error")
thrown_response (connect e) = git_error 500 (codes "Internal error")
thrown_response other = git_error 500 (codes "Internal error")

abbrev pub error_response : Thrown → Response
error_response error =
    if is_gate_error error
    then git_error 503 (
        codes "Git storage is unavailable: "
        ++ codes "Cloudflare Artifacts is not enabled on this account.")
    else thrown_response error

abbrev pub upstream_url : Text → GitRoute → Text
upstream_url remote route =
    if route.is_advertisement
    then remote ++ codes "/info/refs?service=" ++ service_name route.service
    else remote ++ codes "/" ++ service_name route.service

-- `if (value) headers.set(name, value)`: an empty value is not set.
abbrev pub with_header : Text → Option Text → List (Text × Text) → List (Text × Text)
with_header name none headers = headers
with_header name (some []) headers = headers
with_header name (some (c ∷ value)) headers = (name, c ∷ value) ∷ headers

abbrev pub copy_headers : (Text → Option Text) → List Text → List (Text × Text)
copy_headers get [] = []
copy_headers get (name ∷ names) = with_header name (get name) (copy_headers get names)

-- `??`
abbrev pub or_default : Option Text → Text → Text
or_default none fallback = fallback
or_default (some value) fallback = value

abbrev pub build_upstream_request : Text → GitRoute → Request → Text → Upstream
build_upstream_request remote route request token = record {
  url = upstream_url remote route;
  method = if route.is_advertisement then codes "GET" else codes "POST";
  headers =
      (codes "authorization", codes "Bearer " ++ token)
      ∷ (
        codes "user-agent",
        or_default (request.header (codes "user-agent")) (codes "git/2.45.0 (gitflare)"),
      )
      ∷ copy_headers request.header (
          codes "accept"
          ∷ codes "content-type"
          ∷ codes "content-encoding"
          ∷ codes "git-protocol"
          ∷ []);
  body = if route.is_advertisement then none else some request.body;
}

abbrev pub get_header : List (Text × Text) → Text → Option Text
get_header [] name = none
get_header ((n, value) ∷ headers) name =
    if text_eq n name then some value else get_header headers name

abbrev pub is_set : Option Text → Bool
is_set none = false
is_set (some value) = true

abbrev pub no_cache : List (Text × Text) → List (Text × Text)
no_cache headers =
    if is_set (get_header headers (codes "cache-control"))
    then headers
    else (codes "cache-control", codes "no-cache, max-age=0, must-revalidate") ∷ headers

abbrev pub proxy_response : Response → Response
proxy_response response =
    if response.status == 401 || response.status == 403
    then git_error 502
        (codes "Artifacts rejected the repository token. Check the Worker configuration.")
    else record {
      status = response.status;
      headers = no_cache (
          copy_headers (get_header response.headers) (
            codes "content-type"
            ∷ codes "cache-control"
            ∷ codes "expires"
            ∷ codes "pragma"
            ∷ codes "content-encoding"
            ∷ []));
      body = response.body;
    }

-- What handling a request does: the response (`none` for an exception that the handler does not
-- catch, from the remote's address or from `fetch`), the token that is
-- minted, the request that is sent to the remote, and whether `onPush` is called.
pub record Handled : Type 0 where
  pub response : Option Response
  pub minted : Option (Text × Scope)
  pub sent : Option Upstream
  pub pushed : Bool

abbrev pub answer : Response → Handled
answer response = record { response = some response; minted = none; sent = none; pushed = false }

abbrev pub is_receive_pack : GitService → Bool
is_receive_pack receive_pack = true
is_receive_pack upload_pack = false

-- The two refusals of a write differ: an archived repository is no matter of permissions.
abbrev pub refusal : GitAuthorization → Response
refusal auth =
    if auth.archived
    then git_error 403 (codes "This repository is archived and cannot be pushed to.")
    else unauthorized (is_set auth.user_id)

-- `requiredPermission(service) === 'write'`
abbrev pub needs_write : GitService → Bool
needs_write service = rank (required_permission service) == rank write

abbrev pub scope_for : GitService → Scope
scope_for service = if needs_write service then write_scope else read_scope

-- `response.ok`
abbrev pub is_ok : Response → Bool
is_ok response = leb 200 response.status && ltb response.status 300

module _ (authorize : GitRoute → Request → Thrown ⊎ GitAuthorization)
    (mint_token : Text → Scope → Thrown ⊎ Text) (remote_for : Text → Option Text)
    (fetch : Upstream → Option Response) (has_on_push : Bool) where
  abbrev pub after_fetch : GitRoute → Text × Scope → Upstream → Option Response → Handled
  after_fetch route minted sent none = record {
    response = none;
    minted = some minted;
    sent = some sent;
    pushed = false;
  }
  after_fetch route minted sent (some response) = record {
    response = some (proxy_response response);
    minted = some minted;
    sent = some sent;
    pushed =
        is_receive_pack route.service
        && not route.is_advertisement
        && is_ok response
        && has_on_push;
  }

  -- The remote's address is found behind the minting, where an exception is not caught.
  abbrev pub with_remote : GitRoute → Request → GitAuthorization → Text → Option Text → Handled
  with_remote route request auth token none = record {
    response = none;
    minted = some (auth.artifacts_name, scope_for route.service);
    sent = none;
    pushed = false;
  }
  with_remote route request auth token (some remote) =
      let upstream = build_upstream_request remote route request token in
      after_fetch route (auth.artifacts_name, scope_for route.service) upstream (fetch upstream)

  abbrev pub with_token : GitRoute → Request → GitAuthorization → Thrown ⊎ Text → Handled
  with_token route request auth (inl error) = answer (error_response error)
  with_token route request auth (inr token) =
      with_remote route request auth token (remote_for auth.artifacts_name)

  abbrev pub with_authorization : GitRoute → Request → Thrown ⊎ GitAuthorization → Handled
  with_authorization route request (inl error) = answer (error_response error)
  with_authorization route request (inr auth) =
      if needs_write route.service && not auth.can_write
      then answer (refusal auth)
      else with_token route request auth (mint_token auth.artifacts_name (scope_for route.service))

  abbrev pub handle_git_request : GitRoute → Request → Handled
  handle_git_request route request = with_authorization route request (authorize route request)
