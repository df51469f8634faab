-- ===== src/Git/Refs/Tags.antt =====
-- Branches and tags of `resolveRefs`: which refs they come from, and that a peeled line wins.
use gitflare.Prelude.{
  ◌≡◌, ◌↔◌, ap, sym, ◌∙◌, inl, inr, Bool, true, false, some, List, [], ◌∷◌, ◌++◌, length, drop,
  starts_with, starts_with→append, starts_with-append, All, In, subst, Text, arith, Bool-cases,
}
use gitflare.Git.Refs.{
  GitRef, RefAdvertisement, heads_prefix, collect_branches, collect_tags, resolve_refs,
}
use gitflare.Git.Refs.TagMap.{tag_sha}
use gitflare.Git.Refs.TagSearch.{
  PeeledAs, peeled_ref, collect_tags-peeled, collect_tags-Distinct, tag_sha→In, In→tag_sha,
  In-sort_refs,
}

-- An annotated tag resolves to the commit of its peeled line, wherever that line stands: if a
-- peeled line gives `n` the sha `s`, and no peeled line gives it another, then the tags hold `n`
-- with the sha `s`, and with no other sha.
pub resolve_refs-peeled :
    (locale_after : Text → Text → Bool) (a : RefAdvertisement) (n s : Text)
    → In (peeled_ref n s) a.refs
    → All (PeeledAs n s) a.refs
    → In (record { name = n; sha = s }) (resolve_refs locale_after a).tags
      × ((t : GitRef) → In t (resolve_refs locale_after a).tags → t.name ≡ n → t.sha ≡ s)
unfolding resolve_refs
resolve_refs-peeled locale_after a n s i h =
    let order = λ (r s : GitRef). locale_after s.name r.name in
    let tags = collect_tags [] a.refs in
    let found : tag_sha n tags ≡ some s = collect_tags-peeled n s [] a.refs i h in
    (
      (In-sort_refs order (record { name = n; sha = s }) tags).1 (tag_sha→In n s tags found),
      λ t k e.
          let at : tag_sha t.name tags ≡ some t.sha =
            In→tag_sha t tags (collect_tags-Distinct [] a.refs tt)
              ((In-sort_refs order t tags).0 k) in
          let here : tag_sha t.name tags ≡ some s =
            subst (λ m. tag_sha m tags ≡ some s) (sym e) found in
          ground (arith, at, here),
    )

abbrev pub branch_ref : GitRef → GitRef
branch_ref b = record { name = heads_prefix ++ b.name; sha = b.sha }

collect_branches_iff :
    (b : GitRef) (rs : List GitRef) → In b (collect_branches rs) ↔ In (branch_ref b) rs
unfolding collect_branches
collect_branches_iff b [] = (λ h. h, λ h. h)
collect_branches_iff b (r ∷ rs) =
    let (f, g) = collect_branches_iff b rs in
    elim (Bool-cases (starts_with heads_prefix r.name)) [
      | inl a ↦ rw a (
        λ h. elim h [ inl e ↦ inl (rebuilt r a e) | inr k ↦ inr (f k) ],
        λ h. elim h [ inl e ↦ inl (stripped r e) | inr k ↦ inr (g k) ],
      )
      | inr a ↦ rw a (λ h. inr (f h), λ h. elim h [ inl e ↦ absurd (other r a e) | inr k ↦ g k ])
    ]
  where
    rebuilt :
        (r : GitRef)
        → starts_with heads_prefix r.name ≡ true
        → b ≡ record { name = drop (length heads_prefix) r.name; sha = r.sha }
        → branch_ref b ≡ r
    rebuilt r a e =
        ap branch_ref e
        ∙ ap (λ n. record { name = n; sha = r.sha })
            (sym (starts_with→append heads_prefix r.name a))

    stripped :
        (r : GitRef)
        → branch_ref b ≡ r
        → b ≡ record { name = drop (length heads_prefix) r.name; sha = r.sha }
    stripped r e =
        ap (λ (q : GitRef). record { name = drop (length heads_prefix) q.name; sha = q.sha }) e

    other : (r : GitRef) → starts_with heads_prefix r.name ≡ false → branch_ref b ≡ r → ⊥
    other r a e =
        let named : heads_prefix ++ b.name ≡ r.name = ap (λ (q : GitRef). q.name) e in
        let found : starts_with heads_prefix r.name ≡ true =
          rw (← named) (starts_with-append heads_prefix b.name) in
        cc

-- The branches are exactly the refs under `refs/heads/`, with that prefix taken off.
pub resolve_refs_branches :
    (locale_after : Text → Text → Bool) (a : RefAdvertisement) (b : GitRef)
    → In b (resolve_refs locale_after a).branches ↔ In (branch_ref b) a.refs
unfolding resolve_refs
resolve_refs_branches locale_after a b =
    let (f, g) = In-sort_refs (λ r s. locale_after r.name s.name) b (collect_branches a.refs) in
    let (f', g') = collect_branches_iff b a.refs in (λ h. f' (f h), λ h. g (g' h))
