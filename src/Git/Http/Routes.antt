-- ===== src/Git/Http/Routes.antt =====
-- The addresses that git asks for, read as routes.
use gitflare.Prelude.{
  ◌-◌, ◌≡◌, ◌≢◌, refl, ap, ◌∙◌, Bool, true, false, not, none, some, List, [], ◌∷◌, ◌++◌, Text,
  codes, length, length-append, take-append, filter, split, All-append, arith,
}
use gitflare.Git.Refs.{is_empty}
use gitflare.Git.Refs.Advertisement.{Lacks, split-append}
use gitflare.Git.Refs.TagMap.{ends_with-append}
use gitflare.Git.Http.{
  GitService, upload_pack, receive_pack, service_name, GitRoute, strip_git, match_git_route,
  match_segments,
}

strip_git-append : (name : Text) → strip_git (name ++ codes ".git") ≡ name
strip_git-append name =
    let size : length (name ++ codes ".git") - 4 ≡ length name =
      omega (arith, length-append {0} name (codes ".git")) in
    rw (ends_with-append name (codes ".git"), strip_git, size) (take-append name (codes ".git"))

is_empty-append : (name : Text) → is_empty (name ++ codes ".git") ≡ false
is_empty-append [] = refl
is_empty-append (c ∷ name) = refl

-- A name that is one segment of a path.
abbrev pub IsSegmentName : Text → Type 0
IsSegmentName name = Lacks 47 name × (is_empty name ≡ false)

abbrev segments : Text → List Text
segments path = filter (λ s. not (is_empty s)) (split 47 path)

git_Lacks : Lacks 47 (codes ".git")
git_Lacks =
    ((λ e. omega arith), ((λ e. omega arith), ((λ e. omega arith), ((λ e. omega arith), tt))))

segments-path :
    (o name rest : Text)
    → IsSegmentName o
    → Lacks 47 name
    → segments (47 ∷ o ++ 47 ∷ (name ++ codes ".git" ++ 47 ∷ rest))
      ≡ o ∷ (name ++ codes ".git") ∷ segments rest
segments-path o name rest (l, e) k =
    let named : Lacks 47 (name ++ codes ".git") =
      All-append (λ a. a ≢ 47) name (codes ".git") k git_Lacks in
    rw
      (
        split-append 47 o (name ++ codes ".git" ++ 47 ∷ rest) l,
        split-append 47 (name ++ codes ".git") rest named,
        e,
        is_empty-append name,
      )
      refl

abbrev pub rpc_path : Text → Text → GitService → Text
rpc_path o name service = 47 ∷ o ++ 47 ∷ (name ++ codes ".git" ++ 47 ∷ service_name service)

abbrev pub refs_path : Text → Text → Text
refs_path o name = 47 ∷ o ++ 47 ∷ (name ++ codes ".git" ++ 47 ∷ codes "info/refs")

abbrev pub route_to : Text → Text → GitService → Bool → GitRoute
route_to o name service is_advertisement = record {
  owner_name = o;
  repo = name;
  service = service;
  is_advertisement = is_advertisement;
}

segments_rpc :
    (o name : Text) (service : GitService)
    → match_segments
        (o ∷ (name ++ codes ".git") ∷ segments (service_name service))
        none
        (codes "POST")
      ≡ some (route_to o (strip_git (name ++ codes ".git")) service false)
segments_rpc o name upload_pack = refl
segments_rpc o name receive_pack = refl

segments_refs :
    (o name : Text) (service : GitService)
    → match_segments
        (o ∷ (name ++ codes ".git") ∷ segments (codes "info/refs"))
        (some (service_name service))
        (codes "GET")
      ≡ some (route_to o (strip_git (name ++ codes ".git")) service true)
segments_refs o name upload_pack = refl
segments_refs o name receive_pack = refl

-- The addresses that a git client builds from a remote `/<owner>/<repo>.git` are matched with the
-- owner, the repository without `.git`, and the service: the advertisement and the two calls.
pub match_git_route_remote :
    (o name : Text) (service : GitService)
    → IsSegmentName o
    → Lacks 47 name
    → (match_git_route (refs_path o name) (some (service_name service)) (codes "GET")
        ≡ some (route_to o name service true))
      × (match_git_route (rpc_path o name service) none (codes "POST")
          ≡ some (route_to o name service false))
match_git_route_remote o name service h k = (
  ap (λ s. match_segments s (some (service_name service)) (codes "GET"))
        (segments-path o name (codes "info/refs") h k)
      ∙ segments_refs o name service
      ∙ ap (λ r. some (route_to o r service true)) (strip_git-append name),
  ap (λ s. match_segments s none (codes "POST")) (segments-path o name (service_name service) h k)
      ∙ segments_rpc o name service
      ∙ ap (λ r. some (route_to o r service false)) (strip_git-append name),
)
