-- ===== src/Git/Refs/TagMap.antt =====
-- The map of tags: lookup, insertion and the suffix test.
use gitflare.Prelude.{
  ◌-◌, ◌≡◌, refl, ap, sym, ◌∙◌, true, Option, none, some, List, [], ◌∷◌, ◌++◌, length,
  length-append, take, drop, take-append, take-append-drop, drop-append, text_eq, text_eq_iff,
  text_eq_refl, Text, if◌then◌else◌, arith, leb,
}
use gitflare.Git.Refs.{GitRef, ends_with, has_tag, set_tag}

-- The sha that the map holds for a name.
unfoldable pub tag_sha : Text → List GitRef → Option Text
tag_sha n [] = none
tag_sha n (t ∷ ts) = if text_eq t.name n then some t.sha else tag_sha n ts

pub tag_sha-set_tag :
    (n : Text) (r : GitRef) (ts : List GitRef)
    → tag_sha n (set_tag r ts) ≡ (if text_eq r.name n then some r.sha else tag_sha n ts)
unfolding tag_sha set_tag
tag_sha-set_tag n r [] = refl
tag_sha-set_tag n r (t ∷ ts) = ground (
  arith,
  text_eq_iff t.name r.name,
  text_eq_iff t.name n,
  text_eq_iff r.name n,
  tag_sha-set_tag n r ts,
)

pub has_tag_of_sha : (n s : Text) (ts : List GitRef) → tag_sha n ts ≡ some s → has_tag n ts ≡ true
unfolding tag_sha has_tag
has_tag_of_sha n s [] e = cc
has_tag_of_sha n s (t ∷ ts) e = ground (arith, has_tag_of_sha n s ts)

pub ends_with→append :
    (suffix s : Text) → ends_with suffix s ≡ true → s ≡ take (length s - length suffix) s ++ suffix
ends_with→append suffix s h =
    let e : drop (length s - length suffix) s ≡ suffix =
      (text_eq_iff (drop (length s - length suffix) s) suffix).0 (ground arith) in
    sym (take-append-drop (length s - length suffix) s)
    ∙ ap (λ t. take (length s - length suffix) s ++ t) e

pub take_front : (s suffix : Text) → take (length (s ++ suffix) - length suffix) (s ++ suffix) ≡ s
take_front s suffix =
    let e : length (s ++ suffix) - length suffix ≡ length s =
      omega (arith, length-append {0} s suffix) in
    rw e (take-append s suffix)

pub ends_with-append : (s suffix : Text) → ends_with suffix (s ++ suffix) ≡ true
ends_with-append s suffix =
    let e : length (s ++ suffix) - length suffix ≡ length s =
      omega (arith, length-append {0} s suffix) in
    let l : leb (length suffix) (length (s ++ suffix)) ≡ true =
      ground (arith, length-append s suffix) in
    rw (l, e, drop-append s suffix) (text_eq_refl suffix)
