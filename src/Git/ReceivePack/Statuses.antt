-- ===== src/Git/ReceivePack/Statuses.antt =====
-- When a report of receive-pack counts as a success.
use gitflare.Prelude.{
  ◌≡◌, ◌↔◌, refl, ap, sym, ◌∙◌, Bool, true, false, ◌||◌, ◌&&◌, not, Option, none, some, List, [],
  ◌∷◌, codes, text_eq, text_eq_iff, starts_with, drop, Text, if◌then◌else◌, ◌⊎◌, inl, inr,
  Bool-cases, arith, In, any, subst, All, ◌++◌, ◌==◌, ==_iff, length, index_of, bump_index,
  starts_with→append, ℕ, suc,
}
use gitflare.Git.PktLine.{PktLine, payload, special, ok, decode_pkt_lines}
use gitflare.Git.Refs.{strip_newline, is_empty}
use gitflare.Git.ReceivePack.{
  ReceivePackResult, Report, refused, reason_of, reason_behind, read_status, conclude,
  conclude_without_error, read_report, no_report, parse_receive_pack_response,
}

-- The texts of the lines that carry data.
abbrev pub texts : List PktLine → List Text
texts [] = []
texts (special code ∷ lines) = texts lines
texts (payload bytes ∷ lines) = strip_newline bytes ∷ texts lines

abbrev pub is_refusal : Text → Bool
is_refusal text = starts_with (codes "ng ") text

-- The reason of the last refusal, `none` if no line refuses.
abbrev pub last_reason : Option Text → List Text → Option Text
last_reason reason [] = reason
last_reason reason (text ∷ ts) =
    last_reason (if is_refusal text then some (reason_of (drop 3 text)) else reason) ts

abbrev pub has_no_reason : Option Text → Bool
has_no_reason none = true
has_no_reason (some reason) = is_empty reason

abbrev pub unpacked : Text → Bool
unpacked text = text_eq text (codes "unpack ok")

abbrev pub unpack_failed : Text → Bool
unpack_failed text = starts_with (codes "unpack ") text && not (unpacked text)

abbrev pub is_ref_status : Text → Bool
is_ref_status text = starts_with (codes "ok ") text || is_refusal text

abbrev pub confirmed : Report → List Text → Bool
confirmed report ts =
    not (any unpack_failed ts)
    && has_no_reason (last_reason report.ref_error ts)
    && (report.unpack_ok || any unpacked ts)
    && (report.saw_ref_status || any is_ref_status ts)

-- The three prefixes exclude each other.
ok_excludes :
    (t : Text)
    → starts_with (codes "ok ") t ≡ true
    → (starts_with (codes "unpack ") t ≡ false) × (is_refusal t ≡ false)
ok_excludes [] h = absurd (cc)
ok_excludes (c ∷ t) h = (ground arith, ground arith)

refusal_excludes :
    (t : Text)
    → is_refusal t ≡ true
    → (starts_with (codes "unpack ") t ≡ false) × (starts_with (codes "ok ") t ≡ false)
refusal_excludes [] h = absurd (cc)
refusal_excludes (c ∷ t) h = (ground arith, ground arith)

confirmed_end :
    (u s : Bool)
    → (conclude_without_error record { unpack_ok = u; ref_error = none; saw_ref_status = s }).ok
      ≡ ((u || false) && (s || false))
confirmed_end true true = refl
confirmed_end true false = refl
confirmed_end false s = refl

conclude-confirmed :
    (report : Report) (error : Option Text)
    → (conclude report error).ok
      ≡ (has_no_reason error && (report.unpack_ok || false) && (report.saw_ref_status || false))
conclude-confirmed report none = confirmed_end report.unpack_ok report.saw_ref_status
conclude-confirmed report (some []) = confirmed_end report.unpack_ok report.saw_ref_status
conclude-confirmed report (some (c ∷ r)) = refl

or_true : (b : Bool) → b || true ≡ true
or_true true = refl
or_true false = refl

-- The result behind one line, when `next` gives the result behind it.
after_status : (Report → ReceivePackResult) → Text ⊎ Report → ReceivePackResult
after_status next (inl reason) = refused reason
after_status next (inr report) = next report

after_status-confirmed :
    (next : Report → ReceivePackResult) (ts : List Text) (report : Report) (t : Text)
    → ((r : Report) → (next r).ok ≡ confirmed r ts)
    → (after_status next (read_status report t)).ok ≡ confirmed report (t ∷ ts)
unfolding after_status
after_status-confirmed next ts report t h = elim (Bool-cases (text_eq t (codes "unpack ok"))) [
  | inl e ↦ rw ((text_eq_iff t (codes "unpack ok")).0 e) (h _ ∙ rw (or_true report.unpack_ok) refl)
  | inr u ↦ elim (Bool-cases (starts_with (codes "unpack ") t)) [
    | inl e ↦ rw (u, e) refl
    | inr p ↦ elim (Bool-cases (starts_with (codes "ok ") t)) [
      | inl e ↦ rw (u, p, e, (ok_excludes t e).1) (h _ ∙ rw (or_true report.saw_ref_status) refl)
      | inr o ↦ elim (Bool-cases (is_refusal t)) [
        | inl e ↦ rw (u, p, o, e) (h _ ∙ rw (or_true report.saw_ref_status) refl)
        | inr n ↦ rw (u, p, o, n) (h _)
      ]
    ]
  ]
]

read_report-confirmed :
    (lines : List PktLine) (report : Report)
    → (read_report report lines).ok ≡ confirmed report (texts lines)
unfolding read_report after_status
read_report-confirmed [] report = conclude-confirmed report report.ref_error
read_report-confirmed (special code ∷ lines) report = read_report-confirmed lines report
read_report-confirmed (payload bytes ∷ lines) report =
    after_status-confirmed (λ r. read_report r lines) (texts lines) report (strip_newline bytes)
      (read_report-confirmed lines)

ne_true : (b : Bool) → b ≡ false → b ≡ true → ⊥
ne_true b e f = absurd (cc)

any-In : (p : Text → Bool) (ts : List Text) → any p ts ≡ true → (t : Text) × In t ts × (p t ≡ true)
any-In p [] h = absurd (cc)
any-In p (t ∷ ts) h = elim (Bool-cases (p t)) [
  | inl e ↦ (t, inl refl, e)
  | inr e ↦ let (s, i, k) = any-In p ts (ap (λ b. b || any p ts) (sym e) ∙ h) in (s, inr i, k)
]

In-any : (p : Text → Bool) (t : Text) (ts : List Text) → In t ts → p t ≡ true → any p ts ≡ true
In-any p t [] i e = absurd i
In-any p t (s ∷ ts) (inl same) e = rw (ap p (sym same) ∙ e) refl
In-any p t (s ∷ ts) (inr i) e = rw (In-any p t ts i e) (or_true (p s))

-- The last line that refuses a ref.
abbrev pub last_refusal : Option Text → List Text → Option Text
last_refusal line [] = line
last_refusal line (text ∷ ts) = last_refusal (if is_refusal text then some text else line) ts

abbrev pub HasNoSpace : Text → Type 0
HasNoSpace text = All (λ c. (c == 32) ≡ false) text

-- A refusal that ends behind the one space after its ref, or names no ref at all.
abbrev pub HasEmptyReason : Option Text → Type 0
HasEmptyReason none = Unit
HasEmptyReason (some line) =
    (line ≡ codes "ng ")
    ⊎ ((ref : Text) × HasNoSpace ref × (line ≡ codes "ng " ++ (ref ++ codes " ")))

space_found :
    (rest : Text) (i : ℕ)
    → index_of 32 rest ≡ some i
    → (ref : Text) × HasNoSpace ref × (rest ≡ ref ++ (32 ∷ drop (suc i) rest))
space_found [] i h = absurd (cc)
space_found (c ∷ rest) i h = elim (Bool-cases (c == 32)) [
  | inl e ↦
      let g = rw e at h in
      let first : 0 ≡ i = cc in
      let same : c ≡ 32 = (==_iff c 32).0 e in
      ([], tt, subst (λ i. c ∷ rest ≡ 32 ∷ drop i rest) first (ap (λ c. c ∷ rest) same))
  | inr e ↦
      let g = rw e at h in
      let (j, f, same) = bumped (index_of 32 rest) i g in
      let (ref, n, k) = space_found rest j f in
      (
        c ∷ ref,
        (e, n),
        subst (λ i. c ∷ rest ≡ c ∷ (ref ++ (32 ∷ drop i rest))) same (ap (λ r. c ∷ r) k),
      )
]
  where
    bumped : (o : Option ℕ) (i : ℕ) → bump_index o ≡ some i → (j : ℕ) × (o ≡ some j) × (suc j ≡ i)
    bumped none i h = absurd (cc)
    bumped (some j) i h = (j, refl, let same : suc j ≡ i = cc in same)

empty_text : (t : Text) → is_empty t ≡ true → t ≡ []
empty_text [] h = refl
empty_text (c ∷ t) h = absurd (cc)

-- A reason is empty only behind a ref and a space, or where there is nothing.
empty_reason :
    (rest : Text) (o : Option ℕ)
    → index_of 32 rest ≡ o
    → is_empty (reason_of rest) ≡ true
    → (rest ≡ []) ⊎ ((ref : Text) × HasNoSpace ref × (rest ≡ ref ++ codes " "))
empty_reason rest none e h =
    inl (empty_text rest (ap (λ o. is_empty (reason_behind rest o)) (sym e) ∙ h))
empty_reason rest (some i) e h =
    let (ref, n, k) = space_found rest i e in
    inr (
      ref,
      n,
      k
          ∙ ap (λ t. ref ++ (32 ∷ t))
              (empty_text (drop (suc i) rest)
                (ap (λ o. is_empty (reason_behind rest o)) (sym e) ∙ h)),
    )

index_of-space : (ref : Text) → HasNoSpace ref → index_of 32 (ref ++ codes " ") ≡ some (length ref)
index_of-space [] h = refl
index_of-space (c ∷ ref) (e, h) = rw e (ap bump_index (index_of-space ref h))

drop-space : (ref : Text) → drop (suc (length ref)) (ref ++ codes " ") ≡ []
drop-space [] = refl
drop-space (c ∷ ref) = drop-space ref

reason_of-empty :
    (rest : Text)
    → (rest ≡ []) ⊎ ((ref : Text) × HasNoSpace ref × (rest ≡ ref ++ codes " "))
    → is_empty (reason_of rest) ≡ true
reason_of-empty rest (inl e) = ap (λ r. is_empty (reason_of r)) e
reason_of-empty rest (inr (ref, n, e)) =
    ap (λ r. is_empty (reason_of r)) e
    ∙ ap (λ o. is_empty (reason_behind (ref ++ codes " ") o)) (index_of-space ref n)
    ∙ ap is_empty (drop-space ref)

refusal_rest : (line : Text) → is_refusal line ≡ true → line ≡ codes "ng " ++ drop 3 line
refusal_rest line h = starts_with→append (codes "ng ") line h

HasEmptyReason-reason_of :
    (line : Text)
    → is_refusal line ≡ true
    → (is_empty (reason_of (drop 3 line)) ≡ true) ↔ HasEmptyReason (some line)
HasEmptyReason-reason_of line r = (
  λ h. elim (empty_reason (drop 3 line) (index_of 32 (drop 3 line)) refl h) [
    | inl e ↦ inl (refusal_rest line r ∙ ap (λ t. codes "ng " ++ t) e)
    | inr (ref, n, e) ↦ inr (ref, n, refusal_rest line r ∙ ap (λ t. codes "ng " ++ t) e)
  ],
  λ h.
      reason_of-empty (drop 3 line)
        (elim h [ inl e ↦ inl (ap (drop 3) e) | inr (ref, n, e) ↦ inr (ref, n, ap (drop 3) e) ]),
)

-- What is kept of a line is its reason.
abbrev reason_in : Option Text → Option Text
reason_in none = none
reason_in (some line) = some (reason_of (drop 3 line))

abbrev IsRefusal : Option Text → Type 0
IsRefusal none = Unit
IsRefusal (some line) = is_refusal line ≡ true

last_reason_iff :
    (line : Option Text) (ts : List Text)
    → IsRefusal line
    → (has_no_reason (last_reason (reason_in line) ts) ≡ true)
      ↔ HasEmptyReason (last_refusal line ts)
last_reason_iff none [] h = (λ k. tt, λ k. refl)
last_reason_iff (some line) [] h = HasEmptyReason-reason_of line h
last_reason_iff line (t ∷ ts) h = elim (Bool-cases (is_refusal t)) [
  | inl e ↦ rw e (last_reason_iff (some t) ts e)
  | inr e ↦ rw e (last_reason_iff line ts h)
]

-- A report of success: the pack was unpacked, a ref's status came, no other line about unpacking
-- came, and the last refusal, if there is one, has an empty reason.
pub record IsAccepted (ts : List Text) : Type 0 where
  pub unpack_ok : In (codes "unpack ok") ts
  pub ref_status : (t : Text) × In t ts × (is_ref_status t ≡ true)
  pub no_failure : (t : Text) → In t ts → unpack_failed t ≡ false
  pub no_reason : HasEmptyReason (last_refusal none ts)

confirmed_parts :
    (a b c d : Bool)
    → (not a && b && c && d) ≡ true
    → (a ≡ false) × (b ≡ true) × (c ≡ true) × (d ≡ true)
confirmed_parts a b c d h = ground arith

confirmed_whole :
    (a b c d : Bool) → a ≡ false → b ≡ true → c ≡ true → d ≡ true → (not a && b && c && d) ≡ true
confirmed_whole a b c d p q r s = ground arith

confirmed→IsAccepted : (ts : List Text) → confirmed no_report ts ≡ true → IsAccepted ts
confirmed→IsAccepted ts h =
    let (f, r, u, s) =
      confirmed_parts (any unpack_failed ts) (has_no_reason (last_reason none ts)) (any unpacked ts)
        (any is_ref_status ts) h in
    let (t, i, e) = any-In unpacked ts u in
    record {
      unpack_ok = subst (λ t. In t ts) ((text_eq_iff t (codes "unpack ok")).0 e) i;
      ref_status = any-In is_ref_status ts s;
      no_failure = λ t i. elim (Bool-cases (unpack_failed t)) [
        | inl e ↦ absurd (ne_true (any unpack_failed ts) f (In-any unpack_failed t ts i e))
        | inr e ↦ e
      ];
      no_reason = (last_reason_iff none ts tt).0 r;
    }

IsAccepted→confirmed : (ts : List Text) → IsAccepted ts → confirmed no_report ts ≡ true
IsAccepted→confirmed ts a =
    let (t, i, e) = a.ref_status in
    let failed : any unpack_failed ts ≡ false = elim (Bool-cases (any unpack_failed ts)) [
      | inl e ↦
          let (t, i, k) = any-In unpack_failed ts e in
          absurd (ne_true (unpack_failed t) (a.no_failure t i) k)
      | inr e ↦ e
    ] in
    confirmed_whole (any unpack_failed ts) (has_no_reason (last_reason none ts)) (any unpacked ts)
      (any is_ref_status ts) failed ((last_reason_iff none ts tt).1 a.no_reason)
      (In-any unpacked (codes "unpack ok") ts a.unpack_ok refl) (In-any is_ref_status t ts i e)

-- A push whose report can be decoded counts as successful exactly when the report says that the
-- unpacking is ok and nothing else about it, gives a ref's status, and its last `ng` line, if there
-- is one, either ends behind the space after the ref or consists of `ng` and a space. A line `ng`
-- with a ref and no second space is a refusal, as is one with a reason.
pub parse_receive_pack_response_iff :
    (body : Text) (lines : List PktLine)
    → decode_pkt_lines body ≡ ok lines
    → (result : ReceivePackResult) × (parse_receive_pack_response body ≡ ok result)
      × ((result.ok ≡ true) ↔ IsAccepted (texts lines))
parse_receive_pack_response_iff body lines e =
    let result = read_report no_report lines in
    let same = read_report-confirmed lines no_report in
    (
      result,
      rw (e, parse_receive_pack_response) refl,
      (
        λ h. confirmed→IsAccepted (texts lines) (sym same ∙ h),
        λ a. same ∙ IsAccepted→confirmed (texts lines) a,
      ),
    )
