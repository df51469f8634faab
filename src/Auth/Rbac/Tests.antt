-- ===== src/Auth/Rbac/Tests.antt =====
-- Runs of the permission code, and its theorems at concrete callers.
use gitflare.Prelude.{◌≡◌, ◌≤◌, ◌↔◌, ◌⊎◌, refl, true, false, none, some, [], ◌∷◌, codes}
use gitflare.Auth.Rbac.{
  Permission, none', read, triage, write, maintain, admin, rank, is_permission, highest, public,
  private, user, org, member, PermissionInputs, gather, resolve_permission, can_see,
}
use gitflare.Auth.Rbac.Grants.{Grants, gather_greatest, can_write_iff, can_see_anonymous}

-- A member of two teams of the organisation that owns an archived private repository.
abbrev teammate : PermissionInputs
teammate = record {
  viewer_id = some (codes "u1");
  is_site_admin = false;
  repo_visibility = private;
  repo_archived = true;
  repo_owner_id = codes "o1";
  repo_owner_kind = org;
  org_role = some member;
  collaborator = some triage;
  teams = read ∷ maintain ∷ write ∷ [];
}

abbrev visitor : PermissionInputs
visitor = record teammate { viewer_id = none; org_role = none; collaborator = none }

gather-teammate : (gather teammate ≡ maintain) × ((resolve_permission teammate).can_write ≡ false)
unfolding gather highest resolve_permission
gather-teammate = (refl, refl)

gather-personal :
    gather (record teammate { repo_owner_kind = user; repo_owner_id = codes "u1" }) ≡ admin
unfolding gather
gather-personal = refl

is_permission_tests :
    (is_permission (codes "triage") ≡ true) × (is_permission (codes "root") ≡ false)
unfolding is_permission
is_permission_tests = (refl, refl)

gather_greatest_example :
    ((p : Permission) → Grants teammate p → rank p ≤ rank (gather teammate))
    × ((gather teammate ≡ none') ⊎ Grants teammate (gather teammate))
gather_greatest_example = gather_greatest teammate

can_write_iff_example : ((resolve_permission teammate).can_write ≡ true) ↔ (
    (teammate.repo_archived ≡ false)
    × ((p : Permission) × Grants teammate p × (rank write ≤ rank p)))
can_write_iff_example = can_write_iff teammate

can_see_anonymous_example : (can_see visitor ≡ true) ↔ (visitor.repo_visibility ≡ public)
can_see_anonymous_example = can_see_anonymous visitor refl refl (λ e. absurd (cc))
