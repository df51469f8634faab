-- ===== src/Git/Http/Safety.antt =====
-- What handling a git request may do, and when.
use gitflare.Prelude.{
  ◌≡◌, ◌≢◌, refl, ap, sym, ◌∙◌, Bool, true, false, ◌&&◌, ◌||◌, not, Option, none, some, List, [],
  ◌∷◌, ◌++◌, append_assoc, All, In, codes, text_eq, Text, ◌==◌, ◌⊎◌, inl, inr, arith, Bool-cases,
  subst,
}
use gitflare.Errors.{Thrown}
use gitflare.Errors.Gate.{IsGate, IsGate-is_gate_error, IsGate-message}
use gitflare.Errors.{to_connect_error, gate_message}
use gitflare.Git.Http.{
  error_response, GitService, upload_pack, read_scope, write_scope, copy_headers, with_header,
  upstream_url, GitRoute, GitAuthorization, Request, Response, Upstream, Handled, Scope,
  receive_pack, scope_for, needs_write, proxy_response, build_upstream_request, after_fetch,
  handle_git_request, error_response,
}

-- A header that is copied under another name is no authorization.
with_header-other :
    (n value m : Text) (o : Option Text) (headers : List (Text × Text))
    → text_eq m (codes "authorization") ≡ false
    → (In (n, value) headers → text_eq n (codes "authorization") ≡ false)
    → In (n, value) (with_header m o headers)
    → text_eq n (codes "authorization") ≡ false
with_header-other n value m none headers e h i = h i
with_header-other n value m (some []) headers e h i = h i
with_header-other n value m (some (c ∷ v)) headers e h (inl same) =
    ap (λ p. text_eq p.0 (codes "authorization")) same ∙ e
with_header-other n value m (some (c ∷ v)) headers e h (inr i) = h i

not_authorization :
    (n value : Text) (get : Text → Option Text) (ms : List Text)
    → All (λ m. text_eq m (codes "authorization") ≡ false) ms
    → In (n, value) (copy_headers get ms)
    → text_eq n (codes "authorization") ≡ false
not_authorization n value get [] h i = absurd i
not_authorization n value get (m ∷ ms) (e, h) i =
    with_header-other n value m (get m) (copy_headers get ms) e (not_authorization n value get ms h)
      i

-- The only authorization that a request carries.
abbrev pub Carries : Text → List (Text × Text) → Type 0
Carries credentials headers =
    In (codes "authorization", credentials) headers
    × ((value : Text) → In (codes "authorization", value) headers → value ≡ credentials)

build_upstream_request-Carries :
    (remote : Text) (route : GitRoute) (request : Request) (token : Text)
    → Carries (codes "Bearer " ++ token) (build_upstream_request remote route request token).headers
build_upstream_request-Carries remote route request token = (inl refl, λ value i. only value i)
  where
    only :
        (value : Text)
        → In
            (codes "authorization", value)
            (build_upstream_request remote route request token).headers
        → value ≡ codes "Bearer " ++ token
    only value (inl e) = ap (λ p. p.1) e
    only value (inr (inl e)) =
        let z : true ≡ false = ap (λ p. text_eq p.0 (codes "authorization")) e in absurd (cc)
    only value (inr (inr i)) =
        let z : true ≡ false =
          not_authorization (codes "authorization") value request.header
            (codes "accept"
              ∷ codes "content-type"
              ∷ codes "content-encoding"
              ∷ codes "git-protocol"
              ∷ [])
            (refl, (refl, (refl, (refl, tt)))) i in
        absurd (cc)

-- What git asks a service for: a push may write, a fetch only reads.
abbrev pub wanted_scope : GitService → Scope
wanted_scope upload_pack = read_scope
wanted_scope receive_pack = write_scope

scope_for-wanted_scope : (service : GitService) → scope_for service ≡ wanted_scope service
scope_for-wanted_scope upload_pack = refl
scope_for-wanted_scope receive_pack = refl

-- Where a service is below the address of a repository.
abbrev pub service_path : GitService → Bool → Text
service_path upload_pack true = codes "/info/refs?service=git-upload-pack"
service_path receive_pack true = codes "/info/refs?service=git-receive-pack"
service_path upload_pack false = codes "/git-upload-pack"
service_path receive_pack false = codes "/git-receive-pack"

url_of :
    (remote : Text) (owner_name repo : Text) (service : GitService) (b : Bool)
    → upstream_url remote
        record { owner_name = owner_name; repo = repo; service = service; is_advertisement = b }
      ≡ remote ++ service_path service b
url_of remote owner_name repo upload_pack true = append_assoc remote _ _
url_of remote owner_name repo receive_pack true = append_assoc remote _ _
url_of remote owner_name repo upload_pack false = append_assoc remote _ _
url_of remote owner_name repo receive_pack false = append_assoc remote _ _

module _ (authorize : GitRoute → Request → Thrown ⊎ GitAuthorization)
    (mint_token : Text → Scope → Thrown ⊎ Text) (remote_for : Text → Option Text)
    (fetch : Upstream → Option Response) (has_on_push : Bool) where
  abbrev run : GitRoute → Request → Handled
  run = handle_git_request authorize mint_token remote_for fetch has_on_push

  -- What a request that reaches the remote had behind it, and what it carries.
  pub record IsForwarded (route : GitRoute) (request : Request) (upstream : Upstream) : Type 0 where
    pub auth : GitAuthorization
    pub token : Text
    pub remote : Text
    pub authorized : authorize route request ≡ inr auth
    pub may_write : route.service ≡ receive_pack → auth.can_write ≡ true
    pub minted : mint_token auth.artifacts_name (wanted_scope route.service) ≡ inr token
    pub remote_of : remote_for auth.artifacts_name ≡ some remote
    pub carries : Carries (codes "Bearer " ++ token) upstream.headers
    pub url : upstream.url ≡ remote ++ service_path route.service route.is_advertisement

  abbrev forwarded : GitRoute → Request → GitAuthorization → Upstream → Handled
  forwarded route request auth upstream =
      after_fetch authorize mint_token remote_for fetch has_on_push route
        (auth.artifacts_name, scope_for route.service) upstream (fetch upstream)

  -- A handled request did not reach the remote, or was forwarded.
  abbrev Outcome : GitRoute → Request → Type 0
  Outcome route request =
      ((run route request).sent ≡ none)
      ⊎ ((upstream : Upstream) × (f : IsForwarded route request upstream) × (run route request
            ≡ forwarded route request f.auth upstream))

  may_write_of :
      (route : GitRoute) (b : Bool)
      → (needs_write route.service && not b) ≡ false
      → route.service ≡ receive_pack
      → b ≡ true
  may_write_of route true h e = refl
  may_write_of route false h e =
      let k : needs_write route.service ≡ true = ap needs_write e in absurd (ground arith)

  remote-Outcome :
      (route : GitRoute) (request : Request) (auth : GitAuthorization) (token : Text)
      (o : Option Text)
      → authorize route request ≡ inr auth
      → (needs_write route.service && not auth.can_write) ≡ false
      → mint_token auth.artifacts_name (scope_for route.service) ≡ inr token
      → remote_for auth.artifacts_name ≡ o
      → Outcome route request
  remote-Outcome route request auth token none e w m r =
      inl (rw (e, handle_git_request, w, m, r) refl)
  remote-Outcome route request auth token (some remote) e w m r = inr (
    build_upstream_request remote route request token,
    record {
      auth = auth;
      token = token;
      remote = remote;
      authorized = e;
      may_write = may_write_of route auth.can_write w;
      minted = ap (mint_token auth.artifacts_name) (sym (scope_for-wanted_scope route.service)) ∙ m;
      remote_of = r;
      carries = build_upstream_request-Carries remote route request token;
      url = url_of remote route.owner_name route.repo route.service route.is_advertisement;
    },
    rw (e, handle_git_request, w, m, r) refl,
  )

  minted-Outcome :
      (route : GitRoute) (request : Request) (auth : GitAuthorization) (t : Thrown ⊎ Text)
      → authorize route request ≡ inr auth
      → (needs_write route.service && not auth.can_write) ≡ false
      → mint_token auth.artifacts_name (scope_for route.service) ≡ t
      → Outcome route request
  minted-Outcome route request auth (inl error) e w m = inl (rw (e, handle_git_request, w, m) refl)
  minted-Outcome route request auth (inr token) e w m =
      remote-Outcome route request auth token (remote_for auth.artifacts_name) e w m refl

  authorized-Outcome :
      (route : GitRoute) (request : Request) (a : Thrown ⊎ GitAuthorization)
      → authorize route request ≡ a
      → Outcome route request
  authorized-Outcome route request (inl error) e = inl (rw (e, handle_git_request) refl)
  authorized-Outcome route request (inr auth) e =
      elim (Bool-cases (needs_write route.service && not auth.can_write)) [
        | inl w ↦ inl (rw (e, handle_git_request, w) refl)
        | inr w ↦ minted-Outcome route request auth _ e w refl
      ]

  sent_upstream :
      (route : GitRoute) (minted : Text × Scope) (upstream : Upstream) (o : Option Response)
      → (after_fetch authorize mint_token remote_for fetch has_on_push route minted upstream o).sent
        ≡ some upstream
  sent_upstream route minted upstream none = refl
  sent_upstream route minted upstream (some r) = refl

  -- A request reaches the remote only when the caller is authorized and, for a push, may write. A
  -- token was then minted for that repository, to write for a push and to read for a fetch; it is
  -- the only authorization that the request carries; and the request goes to that repository's
  -- address and the service of the route.
  pub handle_git_request-IsForwarded :
      (route : GitRoute) (request : Request) (upstream : Upstream)
      → (handle_git_request authorize mint_token remote_for fetch has_on_push route request).sent
        ≡ some upstream
      → IsForwarded route request upstream
  handle_git_request-IsForwarded route request upstream h =
      elim (authorized-Outcome route request (authorize route request) refl) [
        | inl e ↦ let k : none ≡ some upstream = sym e ∙ h in absurd (cc)
        | inr (up, f, e) ↦
            let k : some up ≡ some upstream =
              sym
                (sent_upstream route (f.auth.artifacts_name, scope_for route.service) up (fetch up))
              ∙ ap (λ h. h.sent) (sym e)
              ∙ h in
            let same : up ≡ upstream = cc in subst (IsForwarded route request) same f
      ]

  proxied_status :
      (r : Response) → ((proxy_response r).status ≢ 401) × ((proxy_response r).status ≢ 403)
  proxied_status r = elim (Bool-cases (r.status == 401 || r.status == 403)) [
    | inl e ↦ rw e ((λ k. omega arith), (λ k. omega arith))
    | inr e ↦ rw e ((λ k. ground arith), (λ k. ground arith))
  ]

  proxied_answer :
      (route : GitRoute) (minted : Text × Scope) (upstream : Upstream) (o : Option Response)
      (r : Response)
      → (after_fetch authorize mint_token remote_for fetch has_on_push route minted upstream
          o).response
        ≡ some r
      → (r.status ≢ 401) × (r.status ≢ 403)
  proxied_answer route minted upstream none r h = absurd (cc)
  proxied_answer route minted upstream (some q) r h =
      let same : proxy_response q ≡ r = cc in
      subst (λ r. (r.status ≢ 401) × (r.status ≢ 403)) same (proxied_status q)

  -- A client is never told that the remote refused the proxy's own token: behind a request that
  -- reached the remote, the answer's status is neither 401 nor 403.
  pub handle_git_request_credentials :
      (route : GitRoute) (request : Request) (upstream : Upstream) (r : Response)
      → (handle_git_request authorize mint_token remote_for fetch has_on_push route request).sent
        ≡ some upstream
      → (handle_git_request authorize mint_token remote_for fetch has_on_push route
          request).response
        ≡ some r
      → (r.status ≢ 401) × (r.status ≢ 403)
  handle_git_request_credentials route request upstream r h k =
      elim (authorized-Outcome route request (authorize route request) refl) [
        | inl e ↦ let n : none ≡ some upstream = sym e ∙ h in absurd (cc)
        | inr (up, f, e) ↦
            proxied_answer route (f.auth.artifacts_name, scope_for route.service) up (fetch up) r
              (ap (λ h. h.response) (sym e) ∙ k)
      ]

-- A missing Artifacts account, by its number, by a message that says feature gate in any letters,
-- or wrapped in a domain error with the message of such a gate, is answered to git clients with
-- status 503 and reported to RPC clients by that message.
pub missing_account_reported :
    (error : Thrown)
    → IsGate error
    → ((error_response error).status ≡ 503) × ((to_connect_error error).message ≡ gate_message)
missing_account_reported error h =
    (rw (IsGate-is_gate_error error h, error_response) refl, IsGate-message error h)
