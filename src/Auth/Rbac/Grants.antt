-- ===== src/Auth/Rbac/Grants.antt =====
-- The grants that apply to a caller, and the permission as the greatest of them.
use gitflare.Prelude.{
  ◌≡◌, refl, ◌≤◌, ◌⊎◌, ◌≢◌, ◌∙◌, inl, inr, ◌↔◌, subst, sym, true, false, Option, none, some, List,
  [], ◌∷◌, ◌++◌, arith, Bool-cases, Text, text_eq_iff, In, In-append, In-append_right,
}
use gitflare.Auth.Rbac.{
  Permission, none', read, write, admin, rank, at_least, better, highest_from, highest, Visibility,
  public, private, OwnerKind, user, org, OrgRole, member, owner, PermissionInputs, owns_personally,
  is_org_owner, public_grant, direct_grant, personal_grants, gather, resolve_permission, can_see,
}

-- A permission that some rule gives the caller.
pub data Grants (i : PermissionInputs) : Permission → Type 0 where
  site_admin : i.is_site_admin ≡ true → Grants i admin
  personal :
      (v : Text)
      → i.viewer_id ≡ some v
      → i.repo_owner_kind ≡ user
      → i.repo_owner_id ≡ v
      → Grants i admin
  org_owner : i.org_role ≡ some owner → Grants i admin
  anyone : i.repo_visibility ≡ public → Grants i read
  collaborator :
      (v : Text) (p : Permission) → i.viewer_id ≡ some v → i.collaborator ≡ some p → Grants i p
  team : (v : Text) (p : Permission) → i.viewer_id ≡ some v → In p i.teams → Grants i p

rank_le_admin : (p : Permission) → rank p ≤ 5
rank_le_admin p = ground arith

better_bounds :
    (best next : Permission)
    → (rank best ≤ rank (better best next)) × (rank next ≤ rank (better best next))
unfolding better
better_bounds best next = ground arith

highest_from_ge :
    (best : Permission) (ps : List Permission) → rank best ≤ rank (highest_from best ps)
unfolding highest_from
highest_from_ge best [] = omega arith
highest_from_ge best (p ∷ ps) =
    omega (arith, better_bounds best p, highest_from_ge (better best p) ps)

highest_from-In :
    (best : Permission) (ps : List Permission) (p : Permission)
    → In p ps
    → rank p ≤ rank (highest_from best ps)
unfolding highest_from
highest_from-In best [] p h = absurd h
highest_from-In best (q ∷ ps) p (inl e) =
    rw e (omega (arith, better_bounds best q, highest_from_ge (better best q) ps))
highest_from-In best (q ∷ ps) p (inr h) = highest_from-In (better best q) ps p h

better_cases : (best next : Permission) → (better best next ≡ best) ⊎ (better best next ≡ next)
unfolding better
better_cases best next = ground arith

highest_from_attained :
    (best : Permission) (ps : List Permission)
    → (highest_from best ps ≡ best) ⊎ In (highest_from best ps) ps
unfolding highest_from
highest_from_attained best [] = inl refl
highest_from_attained best (q ∷ ps) = elim (highest_from_attained (better best q) ps) [
  | inr h ↦ inr (inr h)
  | inl e ↦ elim (better_cases best q) [ inl f ↦ inl (cc) | inr f ↦ inr (inl (cc)) ]
]

owns_personally→ :
    (i : PermissionInputs)
    → owns_personally i.viewer_id i.repo_owner_kind i.repo_owner_id ≡ true
    → Grants i admin
unfolding owns_personally
owns_personally→ i h = go i.viewer_id i.repo_owner_kind refl refl h
  where
    go :
        (v : Option Text) (k : OwnerKind)
        → i.viewer_id ≡ v
        → i.repo_owner_kind ≡ k
        → owns_personally v k i.repo_owner_id ≡ true
        → Grants i admin
    go none k ev ek e = absurd (cc)
    go (some v) org ev ek e = absurd (cc)
    go (some v) user ev ek e = personal v ev ek ((text_eq_iff i.repo_owner_id v).0 e)

listed : PermissionInputs → List Permission
listed i = public_grant i.repo_visibility ++ personal_grants i.viewer_id i.collaborator i.teams

listed→Grants : (i : PermissionInputs) (p : Permission) → In p (listed i) → Grants i p
unfolding listed public_grant personal_grants direct_grant
listed→Grants i p h = elim (In-append p (public_grant i.repo_visibility) _ h) [
  | inl k ↦ visible i.repo_visibility refl k
  | inr k ↦ own i.viewer_id i.collaborator refl refl k
]
  where
    visible : (s : Visibility) → i.repo_visibility ≡ s → In p (public_grant s) → Grants i p
    visible public e (inl k) = subst (Grants i) (sym k) (anyone e)
    visible public e (inr k) = absurd k
    visible private e k = absurd k

    own :
        (v : Option Text) (c : Option Permission)
        → i.viewer_id ≡ v
        → i.collaborator ≡ c
        → In p (personal_grants v c i.teams)
        → Grants i p
    own none c ev ec k = absurd k
    own (some v) none ev ec k = team v p ev k
    own (some v) (some q) ev ec (inl k) = subst (Grants i) (sym k) (collaborator v q ev ec)
    own (some v) (some q) ev ec (inr k) = team v p ev k

is_org_owner→ : (i : PermissionInputs) → is_org_owner i.org_role ≡ true → Grants i admin
unfolding is_org_owner
is_org_owner→ i h = go i.org_role refl h
  where
    go : (r : Option OrgRole) → i.org_role ≡ r → is_org_owner r ≡ true → Grants i admin
    go none e k = absurd (cc)
    go (some member) e k = absurd (cc)
    go (some owner) e k = org_owner e

-- `gather` takes one of the three short cuts, or none of them applies.
gather_cases :
    (i : PermissionInputs)
    → ((gather i ≡ admin) × Grants i admin)
      ⊎ ((i.is_site_admin ≡ false)
          × (owns_personally i.viewer_id i.repo_owner_kind i.repo_owner_id ≡ false)
          × (is_org_owner i.org_role ≡ false)
          × (gather i ≡ highest (listed i)))
unfolding gather listed
gather_cases i = elim (Bool-cases i.is_site_admin) [
  | inl a ↦ inl (rw a, site_admin a)
  | inr a ↦ elim (Bool-cases (owns_personally i.viewer_id i.repo_owner_kind i.repo_owner_id)) [
    | inl b ↦ inl (rw (a, b), owns_personally→ i b)
    | inr b ↦ elim (Bool-cases (is_org_owner i.org_role)) [
      | inl c ↦ inl (rw (a, b, c), is_org_owner→ i c)
      | inr c ↦ inr (a, b, c, rw (a, b, c))
    ]
  ]
]

-- A grant that is no short cut is among the listed ones.
Grants→listed :
    (i : PermissionInputs) (p : Permission)
    → Grants i p
    → i.is_site_admin ≡ false
    → owns_personally i.viewer_id i.repo_owner_kind i.repo_owner_id ≡ false
    → is_org_owner i.org_role ≡ false
    → In p (listed i)
unfolding listed public_grant personal_grants direct_grant owns_personally is_org_owner
Grants→listed i _ (site_admin h) a b c = absurd (cc)
Grants→listed i _ (personal v ev ek e) a b c =
    absurd (ground (arith, text_eq_iff i.repo_owner_id v))
Grants→listed i _ (org_owner h) a b c = absurd (ground arith)
Grants→listed i _ (anyone h) a b c = rw h (inl refl)
Grants→listed i _ (collaborator v p ev ec) a b c =
    rw (ev, ec) (In-append_right p (public_grant i.repo_visibility) _ (inl refl))
Grants→listed i _ (team v p ev k) a b c = rw ev (
    In-append_right p (public_grant i.repo_visibility) _
      (In-append_right p (direct_grant i.collaborator) _ k))

highest_attained : (ps : List Permission) → (highest ps ≡ none') ⊎ In (highest ps) ps
unfolding highest
highest_attained ps = highest_from_attained none' ps

highest-In : (ps : List Permission) (p : Permission) → In p ps → rank p ≤ rank (highest ps)
unfolding highest
highest-In ps p h = highest_from-In none' ps p h

Grants-le : (i : PermissionInputs) (p : Permission) → Grants i p → rank p ≤ rank (gather i)
Grants-le i p g = elim (gather_cases i) [
  | inl (e, _) ↦ rw e (rank_le_admin p)
  | inr (a, b, c, e) ↦ rw e (highest-In (listed i) p (Grants→listed i p g a b c))
]

gather_attained : (i : PermissionInputs) → (gather i ≡ none') ⊎ Grants i (gather i)
gather_attained i = elim (gather_cases i) [
  | inl (e, g) ↦ inr (subst (Grants i) (sym e) g)
  | inr (a, b, c, e) ↦ elim (highest_attained (listed i)) [
    | inl n ↦ inl (e ∙ n)
    | inr h ↦ inr (listed→Grants i (gather i) (subst (λ q. In q (listed i)) (sym e) h))
  ]
]

-- The permission that `gather` returns is the greatest of the grants that apply: no grant has a
-- higher rank, and it is itself a grant, or "none" (the constructor `none'`).
pub gather_greatest :
    (i : PermissionInputs)
    → ((p : Permission) → Grants i p → rank p ≤ rank (gather i))
      × ((gather i ≡ none') ⊎ Grants i (gather i))
gather_greatest i = (Grants-le i, gather_attained i)

at_least_iff : (p q : Permission) → (at_least p q ≡ true) ↔ (rank q ≤ rank p)
unfolding at_least
at_least_iff p q = ground arith

-- A caller can write exactly when the repository is not archived and some grant that applies
-- has the rank of `write` at least.
pub can_write_iff :
    (i : PermissionInputs)
    → ((resolve_permission i).can_write ≡ true)
      ↔ ((i.repo_archived ≡ false) × ((p : Permission) × Grants i p × (rank write ≤ rank p)))
unfolding resolve_permission at_least
can_write_iff i = (forth, back)
  where
    forth :
        (resolve_permission i).can_write ≡ true
        → (i.repo_archived ≡ false) × ((p : Permission) × Grants i p × (rank write ≤ rank p))
    forth h = elim (gather_attained i) [
      | inl n ↦ absurd (ground arith)
      | inr g ↦ (ground arith, (gather i, g, ground arith))
    ]

    back :
        (i.repo_archived ≡ false) × ((p : Permission) × Grants i p × (rank write ≤ rank p))
        → (resolve_permission i).can_write ≡ true
    back (a, (p, g, l)) = ground (arith, Grants-le i p g)

-- A caller with no account sees a repository exactly when it is public, unless the request is
-- made as a site administrator or an organisation's owner.
pub can_see_anonymous :
    (i : PermissionInputs)
    → i.viewer_id ≡ none
    → i.is_site_admin ≡ false
    → i.org_role ≢ some owner
    → (can_see i ≡ true) ↔ (i.repo_visibility ≡ public)
unfolding can_see at_least
can_see_anonymous i v a o = (forth, λ e. ground (arith, Grants-le i read (anyone e)))
  where
    of_grant : (p : Permission) → Grants i p → i.repo_visibility ≡ public
    of_grant _ (site_admin h) = absurd (cc)
    of_grant _ (personal u ev ek e) = absurd (cc)
    of_grant _ (org_owner h) = absurd (o h)
    of_grant _ (anyone h) = h
    of_grant _ (collaborator u p ev ec) = absurd (cc)
    of_grant _ (team u p ev k) = absurd (cc)

    forth : can_see i ≡ true → i.repo_visibility ≡ public
    forth h = elim (gather_attained i) [
      | inl n ↦ absurd (ground arith)
      | inr g ↦ of_grant (gather i) g
    ]
