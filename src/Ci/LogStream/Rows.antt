-- ===== src/Ci/LogStream/Rows.antt =====
-- The rows of a log: in order of their sequence numbers, and the newest ones.
use gitflare.Prelude.{
  ℕ, suc, ◌+◌, ◌-◌, ◌≤◌, ◌<◌, max, ◌≡◌, refl, ap, ◌∙◌, Bool, true, false, ◌&&◌, not, none, some,
  List, [], ◌∷◌, ◌++◌, leb, ltb, length, length-append, get_elem?, filter, drop, Text,
  if◌then◌else◌, arith, Bool-cases, inl, inr,
}
use gitflare.Ci.LogStream.{
  LogChunk, CiLogStream, max_sequence, descending, delete_up_to, trim_rows, new_chunk, append,
  history, is_of_step,
}

-- The sequence numbers increase, from above `low`.
abbrev pub Increasing : ℕ → List LogChunk → Type 0
Increasing low [] = Unit
Increasing low (c ∷ chunks) = (low < c.sequence) × Increasing c.sequence chunks

le_max_sequence : (m : ℕ) (chunks : List LogChunk) → m ≤ max_sequence m chunks
le_max_sequence m [] = omega arith
le_max_sequence m (c ∷ chunks) = omega (arith, le_max_sequence (max m c.sequence) chunks)

Increasing-snoc :
    (low m : ℕ) (chunks : List LogChunk) (c : LogChunk)
    → Increasing low chunks
    → low ≤ max_sequence m chunks
    → c.sequence ≡ max_sequence m chunks + 1
    → Increasing low (chunks ++ c ∷ [])
Increasing-snoc low m [] c h l e = (omega arith, tt)
Increasing-snoc low m (d ∷ chunks) c (k, h) l e = (
  k,
  Increasing-snoc d.sequence (max m d.sequence) chunks c h
      (omega (arith, le_max_sequence (max m d.sequence) chunks)) e,
)

Increasing-mono :
    (low low' : ℕ) (chunks : List LogChunk)
    → low' ≤ low
    → Increasing low chunks
    → Increasing low' chunks
Increasing-mono low low' [] l h = tt
Increasing-mono low low' (c ∷ chunks) l (k, h) = (omega arith, h)

kept :
    (low b : ℕ) (chunks : List LogChunk)
    → b ≤ low
    → Increasing low chunks
    → filter (λ c. not (leb c.sequence b)) chunks ≡ chunks
kept low b [] l h = refl
kept low b (c ∷ chunks) l (k, h) =
    let t : leb c.sequence b ≡ false = ground arith in
    rw t (ap (λ r. c ∷ r) (kept c.sequence b chunks (omega arith) h))

element :
    (cs ds : List LogChunk) (c : LogChunk) → get_elem? ((cs ++ c ∷ []) ++ ds) (length cs) ≡ some c
element [] ds c = refl
element (d ∷ cs) ds c = element cs ds c

length-descending : (chunks : List LogChunk) → length (descending chunks) ≡ length chunks
length-descending [] = refl
length-descending (c ∷ chunks) =
    omega (arith, length-append (descending chunks) (c ∷ []), length-descending chunks)

-- Trimming one row too many removes two rows, so that `limit - 1` are left.
trim_rows-over :
    (limit : ℕ) (c d : LogChunk) (chunks : List LogChunk)
    → Increasing 0 (c ∷ d ∷ chunks)
    → length chunks + 1 ≡ limit
    → trim_rows limit (c ∷ d ∷ chunks) ≡ chunks
unfolding trim_rows
trim_rows-over limit c d chunks (k, (l, h)) e =
    let over : leb (suc (suc (length chunks))) limit ≡ false = ground arith in
    let offset : limit - 1 ≡ length (descending chunks) = omega (arith, length-descending chunks) in
    let first : leb c.sequence d.sequence ≡ true = ground arith in
    let second : leb d.sequence d.sequence ≡ true = ground arith in
    rw (over, offset)
      (ap (λ b. delete_up_to b (c ∷ d ∷ chunks)) (element (descending chunks) (c ∷ []) d)
        ∙ rw (first, second) (kept d.sequence d.sequence chunks (omega arith) h))

-- Whoever has seen the rows up to `m` is given only the row behind them.
unseen :
    (m n : ℕ) (chunks : List LogChunk) (c : LogChunk)
    → max_sequence n chunks ≤ m
    → m < c.sequence
    → filter (λ c. ltb m c.sequence && is_of_step none c) (chunks ++ c ∷ []) ≡ c ∷ []
unseen m n [] c l k = let t : ltb m c.sequence ≡ true = ground arith in rw t refl
unseen m n (d ∷ chunks) c l k =
    let t : ltb m d.sequence ≡ false = ground (arith, le_max_sequence (max n d.sequence) chunks) in
    rw t (unseen m (max n d.sequence) chunks c l k)

-- What an append leaves: the rows in order, at most 5000 of them; all rows and the new one, or,
-- when there were 5000, all but the two oldest; and the new row alone for who has seen the others.
abbrev pub IsAppended : CiLogStream → LogChunk → CiLogStream → Type 0
IsAppended stream chunk after =
    Increasing 0 after.chunks
    × (length after.chunks ≤ 5000)
    × (after.chunks ≡ (
        if ltb (length stream.chunks) 5000
        then stream.chunks ++ chunk ∷ []
        else drop 2 (stream.chunks ++ chunk ∷ [])))
    × (history after (max_sequence 0 stream.chunks) none ≡ chunk ∷ [])

rows_appended :
    (rows : List LogChunk) (c : LogChunk)
    → Increasing 0 rows
    → length rows ≤ 5000
    → c.sequence ≡ max_sequence 0 rows + 1
    → Increasing 0 (trim_rows 5000 (rows ++ c ∷ []))
      × (length (trim_rows 5000 (rows ++ c ∷ [])) ≤ 5000)
      × (trim_rows 5000 (rows ++ c ∷ [])
          ≡ (if ltb (length rows) 5000 then rows ++ c ∷ [] else drop 2 (rows ++ c ∷ [])))
      × (filter
            (λ c. ltb (max_sequence 0 rows) c.sequence && is_of_step none c)
            (trim_rows 5000 (rows ++ c ∷ []))
          ≡ c ∷ [])
unfolding trim_rows
rows_appended rows c h l e = elim (Bool-cases (ltb (length rows) 5000)) [
  | inl t ↦
      let small : leb (length (rows ++ c ∷ [])) 5000 ≡ true =
        ground (arith, length-append rows (c ∷ [])) in
      rw (small, t)
        (
          Increasing-snoc 0 0 rows c h (omega arith) e,
          ground (arith, length-append rows (c ∷ [])),
          refl,
          unseen (max_sequence 0 rows) 0 rows c (omega arith) (omega arith),
        )
  | inr t ↦ full rows h e (ground arith)
]
  where
    full :
        (rows : List LogChunk)
        → Increasing 0 rows
        → c.sequence ≡ max_sequence 0 rows + 1
        → length rows ≡ 5000
        → Increasing 0 (trim_rows 5000 (rows ++ c ∷ []))
          × (length (trim_rows 5000 (rows ++ c ∷ [])) ≤ 5000)
          × (trim_rows 5000 (rows ++ c ∷ [])
              ≡ (if ltb (length rows) 5000 then rows ++ c ∷ [] else drop 2 (rows ++ c ∷ [])))
          × (filter
                (λ c. ltb (max_sequence 0 rows) c.sequence && is_of_step none c)
                (trim_rows 5000 (rows ++ c ∷ []))
              ≡ c ∷ [])
    full [] h e n = absurd (omega arith)
    full (a ∷ []) h e n = absurd (omega arith)
    full (a ∷ b ∷ rest) h e n =
        let rows = a ∷ b ∷ rest in
        let increasing = Increasing-snoc 0 0 rows c h (omega arith) e in
        let t : ltb (length rows) 5000 ≡ false = ground arith in
        let trimmed : trim_rows 5000 (rows ++ c ∷ []) ≡ rest ++ c ∷ [] =
          trim_rows-over 5000 a b (rest ++ c ∷ []) increasing
            (omega (arith, length-append rest (c ∷ []))) in
        rw (trimmed, t)
          (
            Increasing-mono b.sequence 0 (rest ++ c ∷ []) (omega arith) increasing.1.1,
            omega (arith, length-append rest (c ∷ [])),
            refl,
            unseen (max_sequence 0 rows) (max (max 0 a.sequence) b.sequence) rest c (omega arith)
                (omega arith),
          )

-- Appending to a log whose rows are in order, at most 5000 of them.
pub append-IsAppended :
    (stream : CiLogStream) (step_name text : Text) (is_stderr : Bool) (now : ℕ)
    → Increasing 0 stream.chunks
    → length stream.chunks ≤ 5000
    → IsAppended stream
        (new_chunk stream step_name text is_stderr now)
        (append stream step_name text is_stderr now)
append-IsAppended stream step_name text is_stderr now h l =
    rows_appended stream.chunks (new_chunk stream step_name text is_stderr now) h l refl
