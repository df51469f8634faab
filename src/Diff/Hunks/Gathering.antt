-- ===== src/Diff/Hunks/Gathering.antt =====
-- What the loop over a range gathers of a part of a script between two files.
use gitflare.Prelude.{
  ℕ, zero, suc, ◌+◌, ◌≤◌, ◌<◌, ◌≡◌, refl, sym, ap, ◌∙◌, subst, Bool, true, false, Option, none,
  some, List, [], ◌∷◌, ◌++◌, length, drop, length-append, append_assoc, append-nil, Text, arith,
}
use gitflare.Diff.Myers.{Edit, equal, insert, delete}
use gitflare.Diff.Myers.Diagonals.{Match, get_elem?-lt}
use gitflare.Diff.Myers.Script.{Script}
use gitflare.Diff.Hunks.{
  LineKind, context, add_line, delete_line, DiffLine, Gathered, nothing_gathered, gather_edit,
  gather_all, line_at, first_line,
}

abbrev pub shows_old : LineKind → Bool
shows_old context = true
shows_old add_line = false
shows_old delete_line = true

abbrev pub shows_new : LineKind → Bool
shows_new context = true
shows_new add_line = true
shows_new delete_line = false

abbrev show_if : Bool → Text → List Text → List Text
show_if true t ts = t ∷ ts
show_if false t ts = ts

-- The lines of one side that a hunk's lines show.
abbrev side : (LineKind → Bool) → List DiffLine → List Text
side shows [] = []
side shows (line ∷ lines) = show_if (shows line.kind) line.content (side shows lines)

abbrev pub old_side : List DiffLine → List Text
old_side lines = side shows_old lines

abbrev pub new_side : List DiffLine → List Text
new_side lines = side shows_new lines

show_if-append :
    (b : Bool) (t : Text) (ks ls ms : List Text)
    → ms ≡ ks ++ ls
    → show_if b t ms ≡ show_if b t ks ++ ls
show_if-append true t ks ls ms h = ap (λ r. t ∷ r) h
show_if-append false t ks ls ms h = h

side-append :
    (shows : LineKind → Bool) (ks ls : List DiffLine)
    → side shows (ks ++ ls) ≡ side shows ks ++ side shows ls
side-append shows [] ls = refl
side-append shows (k ∷ ks) ls =
    show_if-append (shows k.kind) k.content (side shows ks) (side shows ls) (side shows (ks ++ ls))
      (side-append shows ks ls)

pub drop-line_at :
    (lines : List Text) (x : ℕ)
    → x < length lines
    → drop x lines ≡ line_at lines x ∷ drop (suc x) lines
drop-line_at [] x h = absurd (omega arith)
drop-line_at (l ∷ lines) zero h = refl
drop-line_at (l ∷ lines) (suc x) h = drop-line_at lines x (omega arith)

-- One more line is read: from `x` on the file shows `shown` up to `k`, and then a line.
one_more :
    (lines shown : List Text) (x k : ℕ)
    → k < length lines
    → drop x lines ≡ shown ++ drop k lines
    → drop x lines ≡ (shown ++ line_at lines k ∷ []) ++ drop (suc k) lines
one_more lines shown x k h e =
    e
    ∙ ap (λ r. shown ++ r) (drop-line_at lines k h)
    ∙ sym (append_assoc shown (line_at lines k ∷ []) (drop (suc k) lines))

-- Where a part starts, when it shows `count` lines behind `x` lines.
abbrev pub starts_at : ℕ → ℕ → ℕ
starts_at zero x = 0
starts_at (suc count) x = suc x

first_line-starts_at :
    (count x start line : ℕ)
    → start ≡ starts_at count x
    → line ≡ suc (x + count)
    → first_line start line ≡ suc x
first_line-starts_at zero x start line h k = ground arith
first_line-starts_at (suc count) x start line h k = ground arith

-- On one side the loop has come from line `x` to line `x'`.
abbrev pub Shows : List Text → ℕ → ℕ → ℕ → List Text → ℕ → Type 0
Shows lines x start count shown x' =
    (x' ≡ x + count)
    × (start ≡ starts_at count x)
    × (drop x lines ≡ shown ++ drop x' lines)
    × (length shown ≡ count)

Shows-line :
    (lines : List Text) (x start count : ℕ) (shown : List Text) (x' : ℕ)
    → x' < length lines
    → Shows lines x start count shown x'
    → Shows lines x
        (first_line start (x' + 1))
        (count + 1)
        (shown ++ line_at lines x' ∷ [])
        (suc x')
Shows-line lines x start count shown x' l (p, q, e, n) = (
  omega arith,
  first_line-starts_at count x start (x' + 1) q (omega arith)
      ∙ ap (λ n. starts_at n x) (let z : suc count ≡ count + 1 = omega arith in z),
  one_more lines shown x x' l e,
  omega (arith, length-append shown (line_at lines x' ∷ [])),
)

Shows-push :
    (lines : List Text) (x start count : ℕ) (shown shown' : List Text) (x' i : ℕ) (line : Text)
    → x' < length lines
    → i ≡ x'
    → line ≡ line_at lines x'
    → shown' ≡ shown ++ line ∷ []
    → Shows lines x start count shown x'
    → Shows lines x (first_line start (i + 1)) (count + 1) shown' (suc x')
Shows-push lines x start count shown shown' x' i line l p q e h =
    rw (p, e, q) (Shows-line lines x start count shown x' l h)

Shows-skip :
    (lines : List Text) (x start count : ℕ) (shown shown' : List Text) (x' : ℕ)
    → shown' ≡ shown ++ []
    → Shows lines x start count shown x'
    → Shows lines x start count shown' x'
Shows-skip lines x start count shown shown' x' e h = rw (e, append-nil shown) h

option_line : Option Text → Text
option_line o = elim o [ none ↦ [] | some line ↦ line ]

pub Match-line_at :
    (old new : List Text) (x y : ℕ) → Match old new x y → line_at old x ≡ line_at new y
unfolding option_line
Match-line_at old new x y (l, p, q) = ap option_line p ∙ ap option_line (sym q)

pub Match-lt :
    (old new : List Text) (x y : ℕ) → Match old new x y → (x < length old) × (y < length new)
Match-lt old new x y (l, p, q) = (get_elem?-lt old x l p, get_elem?-lt new y l q)

module _ (old new : List Text) (x y : ℕ) where
  -- What is gathered when the loop has come from lines `x` and `y` to lines `x'` and `y'`.
  abbrev pub Gathers : Gathered → ℕ → ℕ → Type 0
  Gathers g x' y' =
      Shows old x g.old_start g.old_count (old_side g.lines) x'
      × Shows new y g.new_start g.new_count (new_side g.lines) y'

  Gathers-gather_all :
      (x' y' x'' y'' : ℕ) (g : Gathered) (es : List Edit)
      → Script old new x' y' es x'' y''
      → Gathers g x' y'
      → Gathers (gather_all old new g es) x'' y''
  Gathers-gather_all x' y' x'' y'' g [] (p, q) h =
      subst (λ a. Gathers g a y'') p (subst (λ b. Gathers g x' b) q h)
  Gathers-gather_all x' y' x'' y'' g (equal i j ∷ es) (p, q, m, s) (h, k) =
      let at = Match-lt old new x' y' m in
      let line : DiffLine = record {
        kind = context;
        content = line_at old i;
        old_line = i + 1;
        new_line = j + 1;
      } in
      Gathers-gather_all (suc x') (suc y') x'' y'' (gather_edit old new g (equal i j)) es s (
        Shows-push old x g.old_start g.old_count (old_side g.lines)
            (old_side (g.lines ++ line ∷ [])) x' i (line_at old i) at.0 p (ap (line_at old) p)
            (side-append shows_old g.lines (line ∷ [])) h,
        Shows-push new y g.new_start g.new_count (new_side g.lines)
            (new_side (g.lines ++ line ∷ [])) y' j (line_at old i) at.1 q
            (ap (line_at old) p ∙ Match-line_at old new x' y' m)
            (side-append shows_new g.lines (line ∷ [])) k,
      )
  Gathers-gather_all x' y' x'' y'' g (insert j ∷ es) (q, l, s) (h, k) =
      let line : DiffLine = record {
        kind = add_line;
        content = line_at new j;
        old_line = 0;
        new_line = j + 1;
      } in
      Gathers-gather_all x' (suc y') x'' y'' (gather_edit old new g (insert j)) es s (
        Shows-skip old x g.old_start g.old_count (old_side g.lines)
            (old_side (g.lines ++ line ∷ [])) x' (side-append shows_old g.lines (line ∷ [])) h,
        Shows-push new y g.new_start g.new_count (new_side g.lines)
            (new_side (g.lines ++ line ∷ [])) y' j (line_at new j) l q (ap (line_at new) q)
            (side-append shows_new g.lines (line ∷ [])) k,
      )
  Gathers-gather_all x' y' x'' y'' g (delete i ∷ es) (p, l, s) (h, k) =
      let line : DiffLine = record {
        kind = delete_line;
        content = line_at old i;
        old_line = i + 1;
        new_line = 0;
      } in
      Gathers-gather_all (suc x') y' x'' y'' (gather_edit old new g (delete i)) es s (
        Shows-push old x g.old_start g.old_count (old_side g.lines)
            (old_side (g.lines ++ line ∷ [])) x' i (line_at old i) l p (ap (line_at old) p)
            (side-append shows_old g.lines (line ∷ [])) h,
        Shows-skip new y g.new_start g.new_count (new_side g.lines)
            (new_side (g.lines ++ line ∷ [])) y' (side-append shows_new g.lines (line ∷ [])) k,
      )

  pub gather_all-Gathers :
      (x' y' : ℕ) (es : List Edit)
      → Script old new x y es x' y'
      → Gathers (gather_all old new nothing_gathered es) x' y'
  gather_all-Gathers x' y' es s =
      Gathers-gather_all x y x' y' nothing_gathered es s
        ((omega arith, refl, refl, refl), (omega arith, refl, refl, refl))

-- A part that starts with an unchanged edit has lines on both sides.
abbrev pub StartsEqual : List Edit → Type 0
StartsEqual [] = ⊥
StartsEqual (equal i j ∷ es) = Unit
StartsEqual (insert j ∷ es) = ⊥
StartsEqual (delete i ∷ es) = ⊥

gather_all_counts :
    (old new : List Text) (g : Gathered) (es : List Edit)
    → (g.old_count ≤ (gather_all old new g es).old_count)
      × (g.new_count ≤ (gather_all old new g es).new_count)
gather_all_counts old new g [] = (omega arith, omega arith)
gather_all_counts old new g (equal i j ∷ es) =
    let h = gather_all_counts old new (gather_edit old new g (equal i j)) es in
    (omega (arith, h.0), omega (arith, h.1))
gather_all_counts old new g (insert j ∷ es) =
    let h = gather_all_counts old new (gather_edit old new g (insert j)) es in
    (omega (arith, h.0), omega (arith, h.1))
gather_all_counts old new g (delete i ∷ es) =
    let h = gather_all_counts old new (gather_edit old new g (delete i)) es in
    (omega (arith, h.0), omega (arith, h.1))

pub StartsEqual-gather_all :
    (old new : List Text) (es : List Edit)
    → StartsEqual es
    → (0 < (gather_all old new nothing_gathered es).old_count)
      × (0 < (gather_all old new nothing_gathered es).new_count)
StartsEqual-gather_all old new [] h = absurd h
StartsEqual-gather_all old new (equal i j ∷ es) h =
    let h = gather_all_counts old new (gather_edit old new nothing_gathered (equal i j)) es in
    (omega (arith, h.0), omega (arith, h.1))
StartsEqual-gather_all old new (insert j ∷ es) h = absurd h
StartsEqual-gather_all old new (delete i ∷ es) h = absurd h
