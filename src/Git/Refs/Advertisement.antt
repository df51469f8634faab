-- ===== src/Git/Refs/Advertisement.antt =====
-- An advertisement that a git server writes is read back: refs, capabilities and HEAD.
use gitflare.Prelude.{
  ℕ, suc, ◌≤◌, ◌≡◌, ◌≢◌, refl, ap, ◌∙◌, Bool, true, false, not, none, some, List, [], ◌∷◌, ◌++◌,
  append_assoc, append-nil, ◌==◌, length, take, drop, take-append, filter, codes, text_eq_iff,
  starts_with, index_of, split, All, All-append, join, Text, arith,
}
use gitflare.Git.PktLine.{PktLine, payload, special, ok}
use gitflare.Git.PktLine.RoundTrip.{encode_packets, decode_pkt_lines-encode_packets}
use gitflare.Git.Refs.{
  GitRef, zero_sha, strip_newline, is_sha, all_lower_hex, Progress, is_empty, read_capabilities,
  ref_part, read_ref, read_line, read_lines, find_head, finish, start, parse_ref_advertisement,
  symref_head,
}

-- A code unit that does not stand in a text.
abbrev pub Lacks : ℕ → Text → Type 0
Lacks c s = All (λ a. a ≢ c) s

pub index_of-append : (c : ℕ) (s t : Text) → Lacks c s → index_of c (s ++ c ∷ t) ≡ some (length s)
index_of-append c [] t h = ground arith
index_of-append c (a ∷ s) t (p, h) = ground (arith, index_of-append c s t h)

pub index_of-Lacks : (c : ℕ) (s : Text) → Lacks c s → index_of c s ≡ none
index_of-Lacks c [] h = refl
index_of-Lacks c (a ∷ s) (p, h) = ground (arith, index_of-Lacks c s h)

all_lower_hex-Lacks : (c : ℕ) (s : Text) → c ≤ 32 → all_lower_hex s ≡ true → Lacks c s
all_lower_hex-Lacks c [] le h = tt
all_lower_hex-Lacks c (a ∷ s) le h = (ground arith, all_lower_hex-Lacks c s le (ground arith))

strip_newline-append : (s : Text) → strip_newline (s ++ 10 ∷ []) ≡ s
unfolding strip_newline
strip_newline-append [] = refl
strip_newline-append (c ∷ []) = refl
strip_newline-append (c ∷ d ∷ s) = ap (λ t. c ∷ t) (strip_newline-append (d ∷ s))

-- A ref that the parser keeps: not the placeholder of an empty repository, and a name with no NUL.
pub record IsRef (r : GitRef) : Type 0 where
  pub hashed : is_sha r.sha ≡ true
  pub not_zero : r.sha ≢ zero_sha
  pub not_carrier : r.name ≢ codes "capabilities^{}"
  pub no_nul : Lacks 0 r.name

-- "<sha> <name>"
abbrev pub ref_text : GitRef → Text
ref_text r = r.sha ++ 32 ∷ r.name

is_sha→hex : (s : Text) → is_sha s ≡ true → all_lower_hex s ≡ true
unfolding is_sha
is_sha→hex s h = ground arith

-- Behind the split at the first space, the tests pass and the ref is kept.
read_ref_lem :
    (part : Text) (space : ℕ) (r : GitRef)
    → IsRef r
    → take space part ≡ r.sha
    → drop (suc space) part ≡ r.name
    → read_ref part (some space) ≡ r ∷ []
unfolding read_ref
read_ref_lem part space r v a b =
    rw (a, b, v.hashed)
      (ground (
        arith,
        text_eq_iff r.name (codes "capabilities^{}"),
        text_eq_iff r.sha zero_sha,
        v.not_zero,
        v.not_carrier,
      ))

drop_past : (s t : Text) (c : ℕ) → drop (suc (length s)) (s ++ c ∷ t) ≡ t
drop_past [] t c = refl
drop_past (a ∷ s) t c = drop_past s t c

read_ref-ref_text :
    (r : GitRef) → IsRef r → read_ref (ref_text r) (index_of 32 (ref_text r)) ≡ r ∷ []
read_ref-ref_text r v =
    let space : index_of 32 (ref_text r) ≡ some (length r.sha) =
      index_of-append 32 r.sha r.name
        (all_lower_hex-Lacks 32 r.sha (omega arith) (is_sha→hex r.sha v.hashed)) in
    ap (read_ref (ref_text r)) space
    ∙ read_ref_lem (ref_text r) (length r.sha) r v (take-append r.sha (32 ∷ r.name))
        (drop_past r.sha r.name 32)

is_empty-past : (s t : Text) (c : ℕ) → is_empty (s ++ c ∷ t) ≡ false
is_empty-past [] t c = refl
is_empty-past (a ∷ s) t c = refl

Lacks-zero_ref_text : (r : GitRef) → IsRef r → Lacks 0 (ref_text r)
Lacks-zero_ref_text r v =
    All-append (λ a. a ≢ 0) r.sha (32 ∷ r.name)
      (all_lower_hex-Lacks 0 r.sha (omega arith) (is_sha→hex r.sha v.hashed))
      (omega arith, v.no_nul)

-- The line of a ref that is not the first one.
read_line-ref_text :
    (p : Progress) (r : GitRef)
    → IsRef r
    → p.saw_banner ≡ true
    → read_line p (ref_text r) ≡ record p { refs = p.refs ++ r ∷ [] }
unfolding read_line ref_part read_capabilities
read_line-ref_text p r v b =
    let nul : index_of 0 (ref_text r) ≡ none =
      index_of-Lacks 0 (ref_text r) (Lacks-zero_ref_text r v) in
    rw (b, is_empty-past r.sha r.name 32, nul, read_ref-ref_text r v)

-- A capability, as it stands between spaces.
abbrev pub IsCapability : Text → Type 0
IsCapability c = Lacks 32 c × (is_empty c ≡ false)

split-Lacks : (c : ℕ) (s : Text) → Lacks c s → split c s ≡ s ∷ []
split-Lacks c [] h = refl
split-Lacks c (a ∷ s) (p, h) = let e : a == c ≡ false = ground arith in rw (e, split-Lacks c s h)

pub split-append : (c : ℕ) (s t : Text) → Lacks c s → split c (s ++ c ∷ t) ≡ s ∷ split c t
split-append c [] t h = let e : c == c ≡ true = ground arith in rw e
split-append c (a ∷ s) t (p, h) =
    let e : a == c ≡ false = ground arith in rw (e, split-append c s t h)

abbrev non_empty : Text → Bool
non_empty s = not (is_empty s)

words-join :
    (caps : List Text)
    → All IsCapability caps
    → filter non_empty (split 32 (join (32 ∷ []) caps)) ≡ caps
words-join [] h = refl
words-join (c ∷ []) ((l, e), _) = rw (split-Lacks 32 c l, e)
words-join (c ∷ d ∷ caps) ((l, e), h) =
    ap (filter non_empty) (split-append 32 c (join (32 ∷ []) (d ∷ caps)) l)
    ∙ kept c (split 32 (join (32 ∷ []) (d ∷ caps))) e
    ∙ ap (λ t. c ∷ t) (words-join (d ∷ caps) h)
  where
    kept :
        (w : Text) (ws : List Text)
        → is_empty w ≡ false
        → filter non_empty (w ∷ ws) ≡ w ∷ filter non_empty ws
    kept w ws k = rw k

-- The first ref's line, with the capabilities behind a NUL.
read_line-first :
    (p : Progress) (r : GitRef) (caps : List Text)
    → IsRef r
    → All IsCapability caps
    → p.saw_banner ≡ true
    → p.capabilities ≡ []
    → read_line p (ref_text r ++ 0 ∷ join (32 ∷ []) caps)
      ≡ record p { refs = p.refs ++ r ∷ []; capabilities = caps }
unfolding read_line ref_part read_capabilities
read_line-first p r caps v h b c =
    let text = ref_text r ++ 0 ∷ join (32 ∷ []) caps in
    let nul : index_of 0 text ≡ some (length (ref_text r)) =
      index_of-append 0 (ref_text r) (join (32 ∷ []) caps) (Lacks-zero_ref_text r v) in
    let full : is_empty text ≡ false = is_empty-past (ref_text r) (join (32 ∷ []) caps) 0 in
    rw (b, full, nul, c, take-append (ref_text r) (0 ∷ join (32 ∷ []) caps))
      (rw
        (read_ref-ref_text r v, drop_past (ref_text r) (join (32 ∷ []) caps) 0, words-join caps h))

-- The lines that git writes for the refs behind the first one.
abbrev pub ref_lines : List GitRef → List PktLine
ref_lines [] = special 0 ∷ []
ref_lines (r ∷ rs) = payload (ref_text r ++ 10 ∷ []) ∷ ref_lines rs

-- What git writes for `info/refs?service=git-upload-pack`.
abbrev pub advertise : GitRef → List GitRef → List Text → List PktLine
advertise r rs caps =
    payload (codes "# service=git-upload-pack" ++ 10 ∷ [])
    ∷ special 0
    ∷ payload ((ref_text r ++ 0 ∷ join (32 ∷ []) caps) ++ 10 ∷ [])
    ∷ ref_lines rs

read_lines-ref_lines :
    (rs : List GitRef) (p : Progress)
    → All IsRef rs
    → p.saw_banner ≡ true
    → read_lines p (ref_lines rs) ≡ record p { refs = p.refs ++ rs }
unfolding read_lines
read_lines-ref_lines [] p h b = rw (append-nil p.refs)
read_lines-ref_lines (r ∷ rs) p (v, h) b =
    ap (λ q. read_lines q (ref_lines rs))
      (ap (read_line p) (strip_newline-append (ref_text r)) ∙ read_line-ref_text p r v b)
    ∙ read_lines-ref_lines rs (record p { refs = p.refs ++ r ∷ [] }) h b
    ∙ ap (λ l. record p { refs = l }) (append_assoc p.refs (r ∷ []) rs)

find_head-append :
    (before : List Text) (head : Text) (behind : List Text)
    → All (λ c. starts_with symref_head c ≡ false) before
    → find_head (before ++ (symref_head ++ head) ∷ behind) ≡ some head
unfolding find_head
find_head-append [] head behind h = refl
find_head-append (c ∷ before) head behind (e, h) = rw e (find_head-append before head behind h)

read_line-banner :
    read_line start (strip_newline (codes "# service=git-upload-pack" ++ 10 ∷ []))
    ≡ record { refs = []; capabilities = []; saw_banner = true }
unfolding read_line strip_newline
read_line-banner = refl

read_lines-advertise :
    (r : GitRef) (rs : List GitRef) (caps : List Text)
    → All IsRef (r ∷ rs)
    → All IsCapability caps
    → read_lines start (advertise r rs caps)
      ≡ record { refs = r ∷ rs; capabilities = caps; saw_banner = true }
unfolding read_lines
read_lines-advertise r rs caps (v, h) k =
    let banner : Progress = record { refs = []; capabilities = []; saw_banner = true } in
    ap (λ q. read_lines q (ref_lines rs))
      (ap (λ q. read_line q (strip_newline ((ref_text r ++ 0 ∷ join (32 ∷ []) caps) ++ 10 ∷ [])))
          read_line-banner
        ∙ ap (read_line banner) (strip_newline-append (ref_text r ++ 0 ∷ join (32 ∷ []) caps))
        ∙ read_line-first banner r caps v k refl refl)
    ∙ read_lines-ref_lines rs (record { refs = r ∷ []; capabilities = caps; saw_banner = true }) h
        refl

-- Reading an advertisement in the form that git writes it, banner, flush and one line per ref,
-- gives exactly the advertised refs in their order, the capabilities, and the ref that the
-- `symref=HEAD:` capability names.
pub parse_ref_advertisement-advertise :
    (r : GitRef) (rs : List GitRef) (before : List Text) (head : Text) (behind : List Text)
    (body : Text)
    → All IsRef (r ∷ rs)
    → All IsCapability (before ++ (symref_head ++ head) ∷ behind)
    → All (λ c. starts_with symref_head c ≡ false) before
    → encode_packets (advertise r rs (before ++ (symref_head ++ head) ∷ behind)) ≡ some body
    → parse_ref_advertisement body
      ≡ ok (record {
        refs = r ∷ rs;
        capabilities = before ++ (symref_head ++ head) ∷ behind;
        head_ref = some head;
      })
unfolding parse_ref_advertisement finish
parse_ref_advertisement-advertise r rs before head behind body h k n e =
    let caps = before ++ (symref_head ++ head) ∷ behind in
    rw (decode_pkt_lines-encode_packets (advertise r rs caps) body e)
      (rw (read_lines-advertise r rs caps h k, find_head-append before head behind n))
