-- ===== src/Auth/Rbac.antt =====
-- src/server/auth/rbac.ts: the permission of a caller on a repository.
pub mod Grants
mod Tests
use gitflare.Prelude.{
  ℕ, ◌≡◌, Bool, true, false, ◌&&◌, not, Option, none, some, List, [], ◌∷◌, ◌++◌, foldl, leb, ltb,
  if◌then◌else◌, Text, text_eq, codes, includes,
}

pub data Permission : Type 0 where
  none' read triage write maintain admin : Permission

-- `PERMISSIONS`, by the strings that the constructors stand for.
abbrev permissions : List Text
permissions =
    codes "none"
    ∷ codes "read"
    ∷ codes "triage"
    ∷ codes "write"
    ∷ codes "maintain"
    ∷ codes "admin"
    ∷ []

abbrev pub rank : Permission → ℕ
rank none' = 0
rank read = 1
rank triage = 2
rank write = 3
rank maintain = 4
rank admin = 5

unfoldable pub at_least : Permission → Permission → Bool
at_least actual required = leb (rank required) (rank actual)

-- The callback of `reduce` in `highest`.
better : Permission → Permission → Permission
better best next = if ltb (rank best) (rank next) then next else best

highest_from : Permission → List Permission → Permission
highest_from best [] = best
highest_from best (p ∷ ps) = highest_from (better best p) ps

pub highest : List Permission → Permission
unfolding highest_from better
highest ps = highest_from none' ps

pub is_permission : Text → Bool
is_permission value = includes permissions value

pub data Visibility : Type 0 where
  public private : Visibility

pub data OwnerKind : Type 0 where
  user org : OwnerKind

pub data OrgRole : Type 0 where
  member owner : OrgRole

pub record PermissionInputs : Type 0 where
  pub viewer_id : Option Text
  pub is_site_admin : Bool
  pub repo_visibility : Visibility
  pub repo_archived : Bool
  pub repo_owner_id : Text
  pub repo_owner_kind : OwnerKind
  pub org_role : Option OrgRole
  pub collaborator : Option Permission
  pub teams : List Permission

pub record ResolvedPermission : Type 0 where
  pub permission : Permission
  pub can_write : Bool

-- `viewerId !== null && repoOwnerKind === 'user' && repoOwnerId === viewerId`
owns_personally : Option Text → OwnerKind → Text → Bool
owns_personally none kind id = false
owns_personally (some v) org id = false
owns_personally (some v) user id = text_eq id v

is_org_owner : Option OrgRole → Bool
is_org_owner none = false
is_org_owner (some member) = false
is_org_owner (some owner) = true

public_grant : Visibility → List Permission
public_grant public = read ∷ []
public_grant private = []

direct_grant : Option Permission → List Permission
direct_grant none = []
direct_grant (some p) = p ∷ []

personal_grants : Option Text → Option Permission → List Permission → List Permission
personal_grants none collaborator teams = []
personal_grants (some v) collaborator teams = direct_grant collaborator ++ teams

pub gather : PermissionInputs → Permission
unfolding owns_personally is_org_owner public_grant direct_grant personal_grants
gather i =
    if i.is_site_admin
    then admin
    else if owns_personally i.viewer_id i.repo_owner_kind i.repo_owner_id
    then admin
    else if is_org_owner i.org_role
    then admin
    else highest
        (public_grant i.repo_visibility ++ personal_grants i.viewer_id i.collaborator i.teams)

pub resolve_permission : PermissionInputs → ResolvedPermission
resolve_permission i =
    let permission = gather i in
    record { permission = permission; can_write = not i.repo_archived && at_least permission write }

pub can_see : PermissionInputs → Bool
can_see i = at_least (gather i) read
