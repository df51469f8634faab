-- ===== src/Git/Refs/TagSearch.antt =====
-- The loop over the refs keeps and settles a tag.
use gitflare.Prelude.{
  ◌-◌, ◌≡◌, ◌↔◌, refl, ap, sym, ◌∙◌, ◌⊎◌, inl, inr, Bool, true, false, none, some, List, [], ◌∷◌,
  ◌++◌, length, take, drop, text_eq, text_eq_iff, text_eq_refl, starts_with, starts_with→append,
  All, In, subst, Text, if◌then◌else◌, arith, Bool-cases,
}
use gitflare.Git.Refs.{
  GitRef, heads_prefix, tags_prefix, peel_mark, ends_with, has_tag, set_tag, add_tag, tag_step,
  collect_tags, insert_sorted, sort_refs,
}
use gitflare.Git.Refs.TagMap.{
  tag_sha, tag_sha-set_tag, has_tag_of_sha, ends_with→append, take_front, ends_with-append,
}

-- The ref's line is the peeled one of the tag `n`, if at all, with the sha `s`.
abbrev pub PeeledAs : Text → Text → GitRef → Type 0
PeeledAs n s r = r.name ≡ tags_prefix ++ (n ++ peel_mark) → r.sha ≡ s

pub add_tag-keeps :
    (n s raw sha : Text) (ts : List GitRef)
    → tag_sha n ts ≡ some s
    → (raw ≡ n ++ peel_mark → sha ≡ s)
    → tag_sha n (add_tag raw sha ts) ≡ some s
unfolding add_tag
add_tag-keeps n s raw sha ts e h = elim (Bool-cases (ends_with peel_mark raw)) [
  | inl p ↦
      let name = take (length raw - 3) raw in
      rw (p, tag_sha-set_tag n (record { name = name; sha = sha }) ts)
        (elim (Bool-cases (text_eq name n)) [
          | inl same ↦ rw same (
              ap some (
                h (
                  ends_with→append peel_mark raw p
                  ∙ ap (λ t. t ++ peel_mark) ((text_eq_iff name n).0 same))))
          | inr other ↦ rw other e
        ])
  | inr p ↦ rw p (elim (Bool-cases (has_tag raw ts)) [
    | inl known ↦ rw known e
    | inr new ↦
        rw (new, tag_sha-set_tag n (record { name = raw; sha = sha }) ts)
          (elim (Bool-cases (text_eq raw n)) [
            | inl same ↦ absurd (ground (arith, text_eq_iff raw n, has_tag_of_sha n s ts))
            | inr other ↦ rw other e
          ])
  ])
]

pub add_tag-peeled :
    (n s : Text) (ts : List GitRef) → tag_sha n (add_tag (n ++ peel_mark) s ts) ≡ some s
unfolding add_tag
add_tag-peeled n s ts = rw (ends_with-append n peel_mark) (
    rw
      (take_front n peel_mark, tag_sha-set_tag n (record { name = n; sha = s }) ts, text_eq_refl n))

pub tag_step-keeps :
    (n s : Text) (ts : List GitRef) (r : GitRef)
    → tag_sha n ts ≡ some s
    → PeeledAs n s r
    → tag_sha n (tag_step ts r) ≡ some s
unfolding tag_step
tag_step-keeps n s ts r e h = elim (Bool-cases (starts_with heads_prefix r.name)) [
  | inl a ↦ rw a e
  | inr a ↦ elim (Bool-cases (starts_with tags_prefix r.name)) [
    | inr b ↦ rw (a, b) e
    | inl b ↦
        rw (a, b)
          (add_tag-keeps n s (drop (length tags_prefix) r.name) r.sha ts e
            (λ k. h (starts_with→append tags_prefix r.name b ∙ ap (λ t. tags_prefix ++ t) k)))
  ]
]

pub tag_step-peeled :
    (n s : Text) (ts : List GitRef) (r : GitRef)
    → r.name ≡ tags_prefix ++ (n ++ peel_mark)
    → r.sha ≡ s
    → tag_sha n (tag_step ts r) ≡ some s
unfolding tag_step
tag_step-peeled n s ts r e f = rw (e, f) (add_tag-peeled n s ts)

pub collect_tags-keeps :
    (n s : Text) (ts rs : List GitRef)
    → tag_sha n ts ≡ some s
    → All (PeeledAs n s) rs
    → tag_sha n (collect_tags ts rs) ≡ some s
unfolding collect_tags
collect_tags-keeps n s ts [] e h = e
collect_tags-keeps n s ts (r ∷ rs) e (p, h) =
    collect_tags-keeps n s (tag_step ts r) rs (tag_step-keeps n s ts r e p) h

abbrev pub peeled_ref : Text → Text → GitRef
peeled_ref n s = record { name = tags_prefix ++ (n ++ peel_mark); sha = s }

pub collect_tags-peeled :
    (n s : Text) (ts rs : List GitRef)
    → In (peeled_ref n s) rs
    → All (PeeledAs n s) rs
    → tag_sha n (collect_tags ts rs) ≡ some s
unfolding collect_tags
collect_tags-peeled n s ts [] i h = absurd i
collect_tags-peeled n s ts (r ∷ rs) (inl e) (p, h) =
    collect_tags-keeps n s (tag_step ts r) rs
      (tag_step-peeled n s ts r (sym (ap (λ (q : GitRef). q.name) e))
        (sym (ap (λ (q : GitRef). q.sha) e)))
      h
collect_tags-peeled n s ts (r ∷ rs) (inr i) (p, h) = collect_tags-peeled n s (tag_step ts r) rs i h

-- No two entries of the map have one name.
abbrev pub Distinct : List GitRef → Type 0
Distinct [] = Unit
Distinct (t ∷ ts) = (tag_sha t.name ts ≡ none) × Distinct ts

pub set_tag-Distinct : (r : GitRef) (ts : List GitRef) → Distinct ts → Distinct (set_tag r ts)
unfolding set_tag tag_sha
set_tag-Distinct r [] h = (refl, tt)
set_tag-Distinct r (t ∷ ts) (e, h) = elim (Bool-cases (text_eq t.name r.name)) [
  | inl same ↦ rw same (subst (λ m. tag_sha m ts ≡ none) ((text_eq_iff t.name r.name).0 same) e, h)
  | inr other ↦ rw other (
    ground
        (arith, text_eq_iff t.name r.name, text_eq_iff r.name t.name, tag_sha-set_tag t.name r ts),
    set_tag-Distinct r ts h,
  )
]

pub Distinct-if :
    (b : Bool) (ts us : List GitRef) → Distinct ts → Distinct us → Distinct (if b then ts else us)
Distinct-if true ts us h k = h
Distinct-if false ts us h k = k

pub tag_step-Distinct : (ts : List GitRef) (r : GitRef) → Distinct ts → Distinct (tag_step ts r)
unfolding tag_step add_tag
tag_step-Distinct ts r h = Distinct-if (starts_with heads_prefix r.name) _ _ h (
    Distinct-if (starts_with tags_prefix r.name) _ _ (Distinct-if _ _ _ (set_tag-Distinct _ ts h) h)
      h)

pub collect_tags-Distinct : (ts rs : List GitRef) → Distinct ts → Distinct (collect_tags ts rs)
unfolding collect_tags
collect_tags-Distinct ts [] h = h
collect_tags-Distinct ts (r ∷ rs) h =
    collect_tags-Distinct (tag_step ts r) rs (tag_step-Distinct ts r h)

pub tag_sha→In :
    (n s : Text) (ts : List GitRef) → tag_sha n ts ≡ some s → In (record { name = n; sha = s }) ts
unfolding tag_sha
tag_sha→In n s [] e = absurd (cc)
tag_sha→In n s (t ∷ ts) e = elim (Bool-cases (text_eq t.name n)) [
  | inl same ↦ inl (ground (arith, text_eq_iff t.name n))
  | inr other ↦ inr (tag_sha→In n s ts (ground arith))
]

pub In→tag_sha :
    (t : GitRef) (ts : List GitRef) → Distinct ts → In t ts → tag_sha t.name ts ≡ some t.sha
unfolding tag_sha
In→tag_sha t [] d i = absurd i
In→tag_sha t (u ∷ ts) (e, d) (inl same) = ground (arith, text_eq_iff u.name t.name)
In→tag_sha t (u ∷ ts) (e, d) (inr i) =
    ground (arith, text_eq_iff u.name t.name, In→tag_sha t ts d i)

pub In-insert_sorted :
    (after : GitRef → GitRef → Bool) (x r : GitRef) (rs : List GitRef)
    → In x (insert_sorted after r rs) ↔ (x ≡ r) ⊎ In x rs
unfolding insert_sorted
In-insert_sorted after x r [] = (λ h. h, λ h. h)
In-insert_sorted after x r (s ∷ ss) = elim (Bool-cases (after r s)) [
  | inr a ↦ rw a (λ h. h, λ h. h)
  | inl a ↦
      let (f, g) = In-insert_sorted after x r ss in
      rw a (
        λ h. elim h [
          | inl e ↦ inr (inl e)
          | inr k ↦ elim (f k) [ inl e ↦ inl e | inr m ↦ inr (inr m) ]
        ],
        λ h. elim h [
          | inl e ↦ inr (g (inl e))
          | inr k ↦ elim k [ inl e ↦ inl e | inr m ↦ inr (g (inr m)) ]
        ],
      )
]

pub In-sort_refs :
    (after : GitRef → GitRef → Bool) (x : GitRef) (rs : List GitRef)
    → In x (sort_refs after rs) ↔ In x rs
unfolding sort_refs
In-sort_refs after x [] = (λ h. h, λ h. h)
In-sort_refs after x (r ∷ rs) =
    let (f, g) = In-insert_sorted after x r (sort_refs after rs) in
    let (f', g') = In-sort_refs after x rs in
    (
      λ h. elim (f h) [ inl e ↦ inl e | inr k ↦ inr (f' k) ],
      λ h. elim h [ inl e ↦ g (inl e) | inr k ↦ g (inr (g' k)) ],
    )
