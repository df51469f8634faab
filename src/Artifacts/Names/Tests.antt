-- ===== src/Artifacts/Names/Tests.antt =====
-- Runs of the naming code, and its theorems at concrete names.
use gitflare.Prelude.{◌≡◌, ◌≢◌, refl, codes}
use gitflare.Artifacts.Names.{
  owner, repository, ok, err, bad_characters, consecutive_hyphens, git_suffix, reserved_login,
  artifacts_name, wiki_artifacts_name, to_lower_case,
}
use gitflare.Artifacts.Names.Injective.{artifacts_name_injective, wiki_artifacts_name_disjoint}

names :
    (artifacts_name (codes "Astrid") (codes "api") ≡ ok (codes "astrid--api"))
    × (artifacts_name (codes "a--b") (codes "c") ≡ err (consecutive_hyphens owner))
    × (artifacts_name (codes "a") (codes "-c") ≡ err (bad_characters repository))
    × (artifacts_name (codes "a") (codes "c.git") ≡ err (git_suffix repository))
    × (artifacts_name (codes "Settings") (codes "c") ≡ err (reserved_login (codes "Settings")))
unfolding artifacts_name
names = (refl, refl, refl, refl, refl)

wiki_name : wiki_artifacts_name (codes "Astrid") (codes "api") ≡ ok (codes "astrid--api--wiki")
unfolding wiki_artifacts_name
wiki_name = refl

astrid_api : artifacts_name (codes "astrid") (codes "API") ≡ ok (codes "astrid--api")
unfolding artifacts_name
astrid_api = refl

artifacts_name_injective_example :
    (to_lower_case (codes "Astrid") ≡ to_lower_case (codes "astrid"))
    × (to_lower_case (codes "api") ≡ to_lower_case (codes "API"))
artifacts_name_injective_example =
    artifacts_name_injective (codes "Astrid") (codes "api") (codes "astrid") (codes "API")
      (codes "astrid--api") (names.0) astrid_api

wiki_artifacts_name_disjoint_example :
    artifacts_name (codes "astrid") (codes "wiki") ≢ ok (codes "astrid--api--wiki")
wiki_artifacts_name_disjoint_example =
    wiki_artifacts_name_disjoint (codes "Astrid") (codes "api") (codes "astrid") (codes "wiki")
      (codes "astrid--api--wiki") wiki_name
