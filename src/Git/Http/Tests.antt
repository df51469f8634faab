-- ===== src/Git/Http/Tests.antt =====
-- Runs of the proxy, and its theorems at concrete requests.
use gitflare.Prelude.{
  ◌≡◌, ◌≢◌, refl, true, false, Option, none, some, [], ◌∷◌, ◌++◌, Text, codes, ◌⊎◌, inr, arith,
}
use gitflare.Auth.Rbac.{write}
use gitflare.Errors.{Thrown, artifacts, to_connect_error, gate_message}
use gitflare.Errors.Gate.{IsGate, by_message}
use gitflare.Git.Http.{
  error_response, upload_pack, receive_pack, GitRoute, GitAuthorization, Request, Response,
  Upstream, Scope, match_git_route, build_upstream_request,
}
use gitflare.Git.Http.Routes.{match_git_route_remote, route_to, refs_path, rpc_path}
use gitflare.Git.Http.Safety.{
  missing_account_reported, IsForwarded, handle_git_request-IsForwarded,
  handle_git_request_credentials,
}

abbrev push_route : GitRoute
push_route = route_to (codes "astrid") (codes "api") receive_pack false

abbrev empty_request : Request
empty_request = record { header = λ name. none; body = codes "x" }

abbrev writer : GitAuthorization
writer = record {
  permission = write;
  can_write = true;
  user_id = some (codes "u");
  artifacts_name = codes "astrid--api";
  archived = false;
}

abbrev allow : GitRoute → Request → Thrown ⊎ GitAuthorization
allow route request = inr writer

abbrev mint : Text → Scope → Thrown ⊎ Text
mint name scope = inr (codes "t")

abbrev remote : Text → Option Text
remote name = some (codes "https://remote/" ++ name)

-- A remote that refuses the proxy's token.
abbrev refusing : Upstream → Option Response
refusing upstream = some record { status = 401; headers = []; body = [] }

abbrev sent : Upstream
sent =
    build_upstream_request (codes "https://remote/astrid--api") push_route empty_request (codes "t")

sent_url : sent.url ≡ codes "https://remote/astrid--api/git-receive-pack"
sent_url = refl

handle_git_request-IsForwarded_example :
    IsForwarded allow mint remote refusing true push_route empty_request sent
handle_git_request-IsForwarded_example =
    handle_git_request-IsForwarded allow mint remote refusing true push_route empty_request sent
      refl

abbrev hidden : Response
hidden = record {
  status = 502;
  headers = (codes "content-type", codes "text/plain; charset=utf-8") ∷ [];
  body = codes "Artifacts rejected the repository token. Check the Worker configuration.\n";
}

handle_git_request_credentials_example : (hidden.status ≢ 401) × (hidden.status ≢ 403)
handle_git_request_credentials_example =
    handle_git_request_credentials allow mint remote refusing true push_route empty_request sent
      hidden refl refl

match_git_route_remote_example :
    (match_git_route
        (refs_path (codes "ann") (codes "api"))
        (some (codes "git-upload-pack"))
        (codes "GET")
      ≡ some (route_to (codes "ann") (codes "api") upload_pack true))
    × (match_git_route (rpc_path (codes "ann") (codes "api") upload_pack) none (codes "POST")
        ≡ some (route_to (codes "ann") (codes "api") upload_pack false))
match_git_route_remote_example =
    match_git_route_remote (codes "ann") (codes "api") upload_pack
      (((λ e. omega arith), ((λ e. omega arith), ((λ e. omega arith), tt))), refl)
      ((λ e. omega arith), ((λ e. omega arith), ((λ e. omega arith), tt)))

abbrev gated : Thrown
gated = artifacts record {
  code = codes "INTERNAL_ERROR";
  numeric_code = none;
  message = codes "Feature Gate: artifacts";
}

gated-IsGate : IsGate gated
gated-IsGate = by_message _ [] (codes "Feature Gate") (codes ": artifacts") refl refl

missing_account_reported_example :
    ((error_response gated).status ≡ 503) × ((to_connect_error gated).message ≡ gate_message)
missing_account_reported_example = missing_account_reported gated gated-IsGate
