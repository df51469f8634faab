-- ===== src/Diff/Myers/Backtrack.antt =====
-- The walk back over the recorded frontiers gives a script of as many changes as rounds.
use gitflare.Prelude.{
  ℕ, zero, suc, ◌+◌, ◌-◌, ◌*◌, ◌≤◌, ◌<◌, ◌≡◌, refl, ap, sym, subst, ◌∙◌, true, false, ◌&&◌, some,
  List, [], ◌∷◌, ltb, ◌==◌, length, get_elem?, Text, arith, Bool-cases, inl, inr,
}
use gitflare.Diff.Myers.{
  Edit, equal, insert, delete, Frontier, Walk, slide_back, back_round, walk_back, step_down,
  step_left, goes_down,
}
use gitflare.Diff.Myers.Diagonals.{Match, Run, get_elem?-lt, get_elem?-some}
use gitflare.Diff.Myers.Script.{Script, changes}
use gitflare.Diff.Myers.Reach.{
  reach, rx, ry, is_insertion, reach-IsStep, diagonal, wide, reach_zero,
}
use gitflare.Diff.Myers.Search.{
  Holds, Before, Reads, goes_down-is_insertion, index_left, index_right, IsTrace,
}

-- `a` stands in `old` from `offset` on.
abbrev pub Embeds : ℕ → List Text → List Text → Type 0
Embeds offset a old =
    (x : ℕ) (l : Text) → get_elem? a x ≡ some l → get_elem? old (offset + x) ≡ some l

module _ (a b old new : List Text) (offset : ℕ) (a_old : Embeds offset a old)
    (b_new : Embeds offset b new) where
  -- The edits of a walk lead from its position to the ends, with so many changes.
  abbrev pub Leads : ℕ → Walk → Type 0
  Leads count w =
      Script old new (offset + w.x) (offset + w.y) w.edits (offset + length a) (offset + length b)
      × (changes w.edits ≡ count)

  Leads-equal :
      (count x y : ℕ) (edits : List Edit)
      → Match a b x y
      → Leads count (record { x = suc x; y = suc y; edits = edits })
      → Leads count (record { x = x; y = y; edits = equal (offset + x) (offset + y) ∷ edits })
  Leads-equal count x y edits (l, e, f) (s, c) =
      let p : offset + suc x ≡ suc (offset + x) = omega arith in
      let q : offset + suc y ≡ suc (offset + y) = omega arith in
      ((refl, refl, (l, a_old x l e, b_new y l f), rw (p, q) at s), c)

  Leads-insert :
      (count x y : ℕ) (edits : List Edit)
      → y < length b
      → Leads count (record { x = x; y = suc y; edits = edits })
      → Leads (suc count) (record { x = x; y = y; edits = insert (offset + y) ∷ edits })
  Leads-insert count x y edits h (s, c) =
      let (l, e) = get_elem?-some b y h in
      let q : offset + suc y ≡ suc (offset + y) = omega arith in
      ((refl, get_elem?-lt new (offset + y) l (b_new y l e), rw q at s), ap suc c)

  Leads-delete :
      (count x y : ℕ) (edits : List Edit)
      → x < length a
      → Leads count (record { x = suc x; y = y; edits = edits })
      → Leads (suc count) (record { x = x; y = y; edits = delete (offset + x) ∷ edits })
  Leads-delete count x y edits h (s, c) =
      let (l, e) = get_elem?-some a x h in
      let q : offset + suc x ≡ suc (offset + x) = omega arith in
      ((refl, get_elem?-lt old (offset + x) l (a_old x l e), rw q at s), ap suc c)

  -- The loop back passes the run that the search followed, and no more.
  slide_back-Leads :
      (fuel top px pi x y c count : ℕ) (edits : List Edit)
      → Run a b x y c
      → c ≤ fuel
      → ltb px x && ltb (px + top) (y + pi) ≡ false
      → ((i : ℕ) → ltb px (x + suc i) && ltb (px + top) (y + suc i + pi) ≡ true)
      → Leads count (record { x = x + c; y = y + c; edits = edits })
      → (back : List Edit) × (slide_back fuel offset top px pi
            (record { x = x + c; y = y + c; edits = edits })
          ≡ record { x = x; y = y; edits = back })
        × Leads count (record { x = x; y = y; edits = back })
  unfolding slide_back
  slide_back-Leads zero top px pi x y zero count edits r h stop go w =
      let p : x + 0 ≡ x = omega arith in
      let q : y + 0 ≡ y = omega arith in let k = rw (p, q) at w in rw (p, q) (edits, refl, k)
  slide_back-Leads (suc fuel) top px pi x y zero count edits r h stop go w =
      let p : x + 0 ≡ x = omega arith in
      let q : y + 0 ≡ y = omega arith in
      let k = rw (p, q) at w in rw (p, q) (edits, rw stop refl, k)
  slide_back-Leads zero top px pi x y (suc c) count edits r h stop go w = absurd (omega arith)
  slide_back-Leads (suc fuel) top px pi x y (suc c) count edits r h stop go w =
      let p : x + suc c - 1 ≡ x + c = omega arith in
      let q : y + suc c - 1 ≡ y + c = omega arith in
      let p' : x + suc c ≡ suc (x + c) = omega arith in
      let q' : y + suc c ≡ suc (y + c) = omega arith in
      let k = rw (p', q') at w in
      rw (go c, p, q)
        (slide_back-Leads fuel top px pi x y c count
          (equal (offset + (x + c)) (offset + (y + c)) ∷ edits) (λ i k. r i (omega arith))
          (omega arith) stop go (Leads-equal count (x + c) (y + c) edits (r c (omega arith)) k))

  -- The walk at the furthest point of `d` edits.
  abbrev pub at_reach : ℕ → ℕ → List Edit → Walk
  at_reach d t edits = record { x = rx a b d t; y = ry a b d t; edits = edits }

  index_of_reach :
      (d t : ℕ)
      → t ≤ d
      → d ≤ length a + length b
      → rx a b d t + (length a + length b) - ry a b d t ≡ length a + length b - d + 2 * t
  index_of_reach d t h k = omega (arith, diagonal a b d t h)

  Holds-Reads :
      (d t : ℕ) (v : Frontier)
      → suc d ≤ length a + length b
      → Holds a b d v
      → t ≤ suc d
      → Reads a b d v t
  Holds-Reads d t v k p h = record {
    left = λ q. ap v (index_left a b d t q k) ∙ p (t - 1) (omega arith);
    right = λ q. ap v (index_right a b d t k) ∙ p t q;
  }

  abbrev Goes : ℕ → ℕ → Frontier → Walk → ℕ → Walk → Type 0
  Goes top d v w count back = (back_round offset top d v w ≡ back) × Leads count back

  succ : (d : ℕ) → (suc d == 0) ≡ false
  succ d = ground arith

  back_round_down :
      (top d index : ℕ) (v : Frontier) (w slid : Walk)
      → w.x + top - w.y ≡ index
      → goes_down top (suc d) v index ≡ true
      → slide_back w.x offset top (v (index + 1)) (index + 1) w ≡ slid
      → back_round offset top (suc d) v w ≡ step_down offset slid
  back_round_down top d index v w slid i down e = rw (i, down, e, succ d) refl

  back_round_left :
      (top d index : ℕ) (v : Frontier) (w slid : Walk)
      → w.x + top - w.y ≡ index
      → goes_down top (suc d) v index ≡ false
      → slide_back w.x offset top (v (index - 1)) (index - 1) w ≡ slid
      → back_round offset top (suc d) v w ≡ step_left offset slid
  back_round_left top d index v w slid i down e = rw (i, down, e, succ d) refl

  back_round_start :
      (top index : ℕ) (v : Frontier) (w slid : Walk)
      → w.x + top - w.y ≡ index
      → goes_down top 0 v index ≡ true
      → slide_back w.x offset top (v (index + 1)) (index + 1) w ≡ slid
      → back_round offset top 0 v w ≡ slid
  back_round_start top index v w slid i down e = rw (i, down, e) refl

  -- Back over an insertion, and over a deletion, from the end of a run of `c` lines.
  back_down :
      (top d x y c count : ℕ) (v : Frontier) (edits : List Edit)
      → Run a b x (suc y) c
      → y + c < x + c + top
      → y < length b
      → goes_down top (suc d) v (x + c + top - (suc y + c)) ≡ true
      → v (x + c + top - (suc y + c) + 1) ≡ x
      → Leads count (record { x = x + c; y = suc y + c; edits = edits })
      → (es : List Edit) × Goes top
          (suc d)
          v
          (record { x = x + c; y = suc y + c; edits = edits })
          (suc count)
          (record { x = x; y = y; edits = es })
  back_down top d x y c count v edits r h k down px w =
      let pi = x + c + top - (suc y + c) + 1 in
      let (es, e, l) =
        slide_back-Leads (x + c) top x pi x (suc y) c count edits r (omega arith) (ground arith)
          (λ i. ground arith) w in
      let f : suc y - 1 ≡ y = omega arith in
      (
        insert (offset + y) ∷ es,
        (
          back_round_down top d (x + c + top - (suc y + c)) v _
                (record { x = x; y = suc y; edits = es }) refl down
                (ap
                    (λ p.
                      slide_back (x + c) offset top p pi
                        (record { x = x + c; y = suc y + c; edits = edits }))
                    px
                  ∙ e)
              ∙ ap (λ p. record { x = x; y = p; edits = insert (offset + p) ∷ es }) f,
          Leads-insert count x y es k l,
        ),
      )

  back_left :
      (top d x y c count : ℕ) (v : Frontier) (edits : List Edit)
      → Run a b (suc x) y c
      → y + c < suc x + c + top
      → x < length a
      → goes_down top (suc d) v (suc x + c + top - (y + c)) ≡ false
      → v (suc x + c + top - (y + c) - 1) ≡ x
      → Leads count (record { x = suc x + c; y = y + c; edits = edits })
      → (es : List Edit) × Goes top
          (suc d)
          v
          (record { x = suc x + c; y = y + c; edits = edits })
          (suc count)
          (record { x = x; y = y; edits = es })
  back_left top d x y c count v edits r h k down px w =
      let pi = suc x + c + top - (y + c) - 1 in
      let (es, e, l) =
        slide_back-Leads (suc x + c) top x pi (suc x) y c count edits r (omega arith) (ground arith)
          (λ i. ground arith) w in
      let f : suc x - 1 ≡ x = omega arith in
      (
        delete (offset + x) ∷ es,
        (
          back_round_left top d (suc x + c + top - (y + c)) v _
                (record { x = suc x; y = y; edits = es }) refl down
                (ap
                    (λ p.
                      slide_back (suc x + c) offset top p pi
                        (record { x = suc x + c; y = y + c; edits = edits }))
                    px
                  ∙ e)
              ∙ ap (λ p. record { x = p; y = y; edits = delete (offset + p) ∷ es }) f,
          Leads-delete count x y es k l,
        ),
      )

  back_start :
      (top c count : ℕ) (v : Frontier) (edits : List Edit)
      → Run a b 0 0 c
      → ((i : ℕ) → v i ≡ 0)
      → Leads count (record { x = 0 + c; y = 0 + c; edits = edits })
      → (es : List Edit) × Goes top 0 v
          (record { x = 0 + c; y = 0 + c; edits = edits })
          count
          (record { x = 0; y = 0; edits = es })
  back_start top c count v edits r z w =
      let index : 0 + c + top - (0 + c) ≡ top = omega arith in
      let down : (top + 0 == top) ≡ true = ground arith in
      let (es, e, l) =
        slide_back-Leads (0 + c) top 0 (top + 1) 0 0 c count edits r (omega arith) refl
          (λ i. ground arith) w in
      (
        es,
        (
          back_round_start top top v _ (record { x = 0; y = 0; edits = es }) index (rw down refl)
              (ap
                  (λ p.
                    slide_back (0 + c) offset top p (top + 1)
                      (record { x = 0 + c; y = 0 + c; edits = edits }))
                  (z (top + 1))
                ∙ e),
          l,
        ),
      )

  pub walk_eq :
      (x y x' y' : ℕ) (edits : List Edit)
      → x ≡ x'
      → y ≡ y'
      → ◌≡◌ {A = Walk}
          (record { x = x; y = y; edits = edits })
          (record { x = x'; y = y'; edits = edits })
  walk_eq x y x' y' edits p q =
      ap (λ x. record { x = x; y = y; edits = edits }) p
      ∙ ap (λ y. record { x = x'; y = y; edits = edits }) q

  -- One round back from the furthest point of `d + 1` edits is at one of `d` edits.
  abbrev Retraced : ℕ → ℕ → Frontier → Walk → Type 0
  Retraced count d v w =
      (t : ℕ) × (t ≤ d)
      × (rx a b d t ≤ w.x)
      × (ry a b d t ≤ w.y)
      × (es : List Edit) × Goes (length a + length b) (suc d) v w (suc count) (at_reach d t es)

  insertion-Retraced :
      (d t : ℕ) (v : Frontier) (count : ℕ) (edits : List Edit)
      → suc d ≤ length a + length b
      → Holds a b d v
      → t ≤ suc d
      → ry a b (suc d) t ≤ length b
      → is_insertion (reach a b d) d t ≡ true
      → Leads count (at_reach (suc d) t edits)
      → Retraced count d v (at_reach (suc d) t edits)
  insertion-Retraced d t v count edits k p h m e w =
      let top = length a + length b in
      let st = reach-IsStep a b d t h in
      let reads = Holds-Reads d t v k p h in
      let down = goes_down-is_insertion a b d t v h k reads ∙ e in
      let u : t ≤ d = ground arith in
      let s : st.start ≡ rx a b d t = st.starts ∙ rw e refl in
      let x = rx a b d t in
      let y = ry a b d t in
      let f : st.start + suc d - 2 * t ≡ suc y =
        omega (arith, s, diagonal a b d t u, wide a b d t u) in
      let ex : rx a b (suc d) t ≡ x + st.count = omega (arith, st.x_eq, s) in
      let ey : ry a b (suc d) t ≡ suc y + st.count = omega (arith, st.y_eq, f) in
      let same =
        walk_eq (rx a b (suc d) t) (ry a b (suc d) t) (x + st.count) (suc y + st.count) edits ex
          ey in
      let index : x + st.count + top - (suc y + st.count) ≡ top - suc d + 2 * t =
        omega (arith, diagonal a b d t u) in
      let r : Run a b x (suc y) st.count =
        subst (λ q. Run a b x q st.count) f
          (subst (λ q. Run a b q (st.start + suc d - 2 * t) st.count) s st.run) in
      let (es, g) =
        back_down top d x y st.count count v edits r (omega (arith, diagonal a b d t u))
          (omega (arith, ey)) (ap (goes_down top (suc d) v) index ∙ down)
          (ap (λ i. v (i + 1)) index ∙ reads.right u) (subst (Leads count) same w) in
      (
        t,
        u,
        omega (arith, ex),
        omega (arith, ey),
        es,
        subst (λ w. Goes top (suc d) v w (suc count) (at_reach d t es)) (sym same) g,
      )

  deletion-Retraced :
      (d t : ℕ) (v : Frontier) (count : ℕ) (edits : List Edit)
      → suc d ≤ length a + length b
      → Holds a b d v
      → t ≤ suc d
      → rx a b (suc d) t ≤ length a
      → is_insertion (reach a b d) d t ≡ false
      → Leads count (at_reach (suc d) t edits)
      → Retraced count d v (at_reach (suc d) t edits)
  deletion-Retraced d t v count edits k p h m e w =
      let top = length a + length b in
      let st = reach-IsStep a b d t h in
      let reads = Holds-Reads d t v k p h in
      let down = goes_down-is_insertion a b d t v h k reads ∙ e in
      let pos : 0 < t = ground arith in
      let u : t - 1 ≤ d = omega arith in
      let x = rx a b d (t - 1) in
      let y = ry a b d (t - 1) in
      let s : st.start ≡ suc x = st.starts ∙ rw e (omega arith) in
      let f : st.start + suc d - 2 * t ≡ y =
        omega (arith, s, diagonal a b d (t - 1) u, wide a b d (t - 1) u) in
      let ex : rx a b (suc d) t ≡ suc x + st.count = omega (arith, st.x_eq, s) in
      let ey : ry a b (suc d) t ≡ y + st.count = omega (arith, st.y_eq, f) in
      let same =
        walk_eq (rx a b (suc d) t) (ry a b (suc d) t) (suc x + st.count) (y + st.count) edits ex
          ey in
      let index : suc x + st.count + top - (y + st.count) ≡ top - suc d + 2 * t =
        omega (arith, diagonal a b d (t - 1) u) in
      let r : Run a b (suc x) y st.count =
        subst (λ q. Run a b (suc x) q st.count) f
          (subst (λ q. Run a b q (st.start + suc d - 2 * t) st.count) s st.run) in
      let (es, g) =
        back_left top d x y st.count count v edits r (omega (arith, diagonal a b d (t - 1) u))
          (omega (arith, ex)) (ap (goes_down top (suc d) v) index ∙ down)
          (ap (λ i. v (i - 1)) index ∙ reads.left pos) (subst (Leads count) same w) in
      (
        t - 1,
        u,
        omega (arith, ex),
        omega (arith, ey),
        es,
        subst (λ w. Goes top (suc d) v w (suc count) (at_reach d (t - 1) es)) (sym same) g,
      )

  back_round-Retraced :
      (d t : ℕ) (v : Frontier) (count : ℕ) (edits : List Edit)
      → suc d ≤ length a + length b
      → Holds a b d v
      → t ≤ suc d
      → rx a b (suc d) t ≤ length a
      → ry a b (suc d) t ≤ length b
      → Leads count (at_reach (suc d) t edits)
      → Retraced count d v (at_reach (suc d) t edits)
  back_round-Retraced d t v count edits k p h m n w =
      elim (Bool-cases (is_insertion (reach a b d) d t)) [
        | inl e ↦ insertion-Retraced d t v count edits k p h n e w
        | inr e ↦ deletion-Retraced d t v count edits k p h m e w
      ]

  abbrev pub start_walk : List Edit → Walk
  start_walk edits = record { x = 0; y = 0; edits = edits }

  walk_back_at_start :
      (top : ℕ) (trace : List Frontier) (edits : List Edit)
      → walk_back offset top trace (start_walk edits) ≡ start_walk edits
  unfolding walk_back
  walk_back_at_start top [] edits = refl
  walk_back_at_start top (v ∷ trace) edits = refl

  walk_back_on :
      (top : ℕ) (v : Frontier) (trace : List Frontier) (w : Walk)
      → w.x == 0 && w.y == 0 ≡ false
      → walk_back offset top (v ∷ trace) w
        ≡ walk_back offset top trace (back_round offset top (length trace) v w)
  unfolding walk_back
  walk_back_on top v trace w e = rw e refl

  -- The walk back from the furthest point of `d` edits ends at the start, with `d` changes more.
  abbrev pub Walked : ℕ → List Frontier → Walk → Type 0
  Walked count trace w =
      (es : List Edit) × (walk_back offset (length a + length b) trace w ≡ start_walk es)
      × Leads count (start_walk es)

  start_eq :
      (t : ℕ) (c : ℕ) (edits : List Edit)
      → reach a b 0 t ≡ (0 + c, 0 + c)
      → at_reach 0 t edits ≡ record { x = 0 + c; y = 0 + c; edits = edits }
  start_eq t c edits e =
      walk_eq (rx a b 0 t) (ry a b 0 t) (0 + c) (0 + c) edits (ap (λ p. p.0) e) (ap (λ p. p.1) e)

  both_zero : (x y : ℕ) → x == 0 && y == 0 ≡ true → (x ≡ 0) × (y ≡ 0)
  both_zero x y h = ground arith

  start-Walked :
      (t : ℕ) (v : Frontier) (count : ℕ) (edits : List Edit)
      → ((i : ℕ) → v i ≡ 0)
      → Leads count (at_reach 0 t edits)
      → Walked (count + 0) (v ∷ []) (at_reach 0 t edits)
  unfolding walk_back reach
  start-Walked t v count edits z w =
      let top = length a + length b in
      let zero_more : count ≡ count + 0 = omega arith in
      elim (Bool-cases (rx a b 0 t == 0 && ry a b 0 t == 0)) [
        | inl e ↦
            let (p, q) = both_zero (rx a b 0 t) (ry a b 0 t) e in
            let same = walk_eq (rx a b 0 t) (ry a b 0 t) 0 0 edits p q in
            (
              edits,
              ap (walk_back offset top (v ∷ [])) same ∙ walk_back_at_start top (v ∷ []) edits,
              subst (λ n. Leads n (start_walk edits)) zero_more (subst (Leads count) same w),
            )
        | inr e ↦
            let f = reach_zero a b t in
            let same = start_eq t f.count edits f.ends in
            let (es, (g, q)) =
              back_start top f.count count v edits f.run z (subst (Leads count) same w) in
            (
              es,
              walk_back_on top v [] (at_reach 0 t edits) e
                  ∙ ap (back_round offset top 0 v) same
                  ∙ g,
              subst (λ n. Leads n (start_walk es)) zero_more q,
            )
      ]

  pub walk_back-Walked :
      (d t : ℕ) (trace : List Frontier) (count : ℕ) (edits : List Edit)
      → length trace ≡ suc d
      → IsTrace a b trace
      → d ≤ length a + length b
      → t ≤ d
      → rx a b d t ≤ length a
      → ry a b d t ≤ length b
      → Leads count (at_reach d t edits)
      → Walked (count + d) trace (at_reach d t edits)
  walk_back-Walked d t [] count edits l tr k h m n w = absurd (omega arith)
  walk_back-Walked zero t (v ∷ k ∷ trace) count edits l p le h m n w = absurd (omega arith)
  walk_back-Walked zero t (v ∷ []) count edits l (p, u) le h m n w =
      start-Walked t v count edits p w
  walk_back-Walked (suc d) t (v ∷ trace) count edits l (p, tr) k h m n w =
      let top = length a + length b in
      let len : length trace ≡ suc d = omega arith in
      let (t', u, bx, by, es, (e, q)) =
        back_round-Retraced d t v count edits k (subst (λ d. Before a b d v) len p) h m n w in
      let x' = rx a b d t' in
      let more : rx a b (suc d) t == 0 && ry a b (suc d) t == 0 ≡ false =
        ground (arith, diagonal a b (suc d) t h, wide a b (suc d) t h) in
      let (fs, f, r) =
        walk_back-Walked d t' trace (suc count) es len tr (omega arith) u (omega arith)
          (omega arith) q in
      let s : suc count + d ≡ count + suc d = omega arith in
      (
        fs,
        walk_back_on top v trace (at_reach (suc d) t edits) more
            ∙ ap
                (λ n.
                  walk_back offset top trace (back_round offset top n v (at_reach (suc d) t edits)))
                len
            ∙ ap (walk_back offset top trace) e
            ∙ f,
        subst (λ n. Leads n (start_walk fs)) s r,
      )
