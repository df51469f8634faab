-- ===== src/Git/Refs/Tests.antt =====
-- Runs of the ref code, and its theorems at a concrete advertisement.
use gitflare.Prelude.{
  ne_of_text_eq, ◌≡◌, ◌↔◌, refl, Bool, true, false, none, some, List, [], ◌∷◌, ◌++◌, All, In, Text,
  codes, replicate, inl, inr, arith, Option, ltb, ◌==◌, if◌then◌else◌,
}
use gitflare.Git.PktLine.{ok, encode_pkt_line}
use gitflare.Git.PktLine.RoundTrip.{encode_packets}
use gitflare.Git.Refs.{
  is_sha, GitRef, RefAdvertisement, parse_ref_advertisement, resolve_refs, symref_head,
}
use gitflare.Git.Refs.Advertisement.{IsRef, advertise, parse_ref_advertisement-advertise}
use gitflare.Git.Refs.Tags.{branch_ref, resolve_refs-peeled, resolve_refs_branches}

abbrev sha_a : Text
sha_a = replicate 40 97

abbrev sha_1 : Text
sha_1 = replicate 40 49

abbrev main : GitRef
main = record { name = codes "refs/heads/main"; sha = sha_a }

abbrev tagged : List GitRef
tagged =
    record { name = codes "refs/tags/v1"; sha = sha_1 }
    ∷ record { name = codes "refs/tags/v1^{}"; sha = sha_a }
    ∷ []

-- An order by code units, in place of the locale's.
code_after : Text → Text → Bool
code_after [] t = false
code_after (a ∷ s) [] = true
code_after (a ∷ s) (b ∷ t) = if a == b then code_after s t else ltb b a

abbrev listing : RefAdvertisement
listing = record {
  refs = main ∷ tagged;
  capabilities = codes "ofs-delta" ∷ codes "symref=HEAD:refs/heads/main" ∷ [];
  head_ref = some (codes "refs/heads/main");
}

resolved : resolve_refs code_after listing ≡ record {
  branches = record { name = codes "main"; sha = sha_a } ∷ [];
  tags = record { name = codes "v1"; sha = sha_a } ∷ [];
  head_branch = some (codes "main");
}
unfolding resolve_refs code_after
resolved = refl

resolve_refs-peeled_example :
    In (record { name = codes "v1"; sha = sha_a }) (resolve_refs code_after listing).tags
    × ((t : GitRef)
        → In t (resolve_refs code_after listing).tags
        → t.name ≡ codes "v1"
        → t.sha ≡ sha_a)
resolve_refs-peeled_example =
    resolve_refs-peeled code_after listing (codes "v1") sha_a (inr (inr (inl refl)))
      (λ e. refl, (λ e. absurd (cc), (λ e. refl, tt)))

resolve_refs_branches_example :
    In (record { name = codes "main"; sha = sha_a }) (resolve_refs code_after listing).branches
    ↔ In (branch_ref (record { name = codes "main"; sha = sha_a })) listing.refs
resolve_refs_branches_example =
    resolve_refs_branches code_after listing (record { name = codes "main"; sha = sha_a })

abbrev get : Option Text → Text
get none = []
get (some t) = t

abbrev stream : Text
unfolding encode_pkt_line
stream = get (
    encode_packets
      (advertise main tagged (codes "ofs-delta" ∷ codes "symref=HEAD:refs/heads/main" ∷ [])))

main-IsRef : IsRef main
unfolding is_sha
main-IsRef = record {
  hashed = refl;
  not_zero = ne_of_text_eq _ _ refl;
  not_carrier = ne_of_text_eq _ _ refl;
  no_nul = omega arith;
}

tagged-IsRef : All IsRef tagged
unfolding is_sha
tagged-IsRef = (
  record {
    hashed = refl;
    not_zero = ne_of_text_eq _ _ refl;
    not_carrier = ne_of_text_eq _ _ refl;
    no_nul = omega arith;
  },
  (
    record {
      hashed = refl;
      not_zero = ne_of_text_eq _ _ refl;
      not_carrier = ne_of_text_eq _ _ refl;
      no_nul = omega arith;
    },
    tt,
  ),
)

stream_written :
    encode_packets (
      advertise main tagged
        ((codes "ofs-delta" ∷ []) ++ (symref_head ++ codes "refs/heads/main") ∷ []))
    ≡ some stream
unfolding encode_pkt_line
stream_written = refl

parse_ref_advertisement-advertise_example : parse_ref_advertisement stream ≡ ok listing
parse_ref_advertisement-advertise_example =
    parse_ref_advertisement-advertise main tagged (codes "ofs-delta" ∷ []) (codes "refs/heads/main")
      [] stream (main-IsRef, tagged-IsRef) ((omega arith, refl), ((omega arith, refl), tt))
      (refl, tt) stream_written
