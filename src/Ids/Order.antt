-- ===== src/Ids/Order.antt =====
-- An id carries its time, and ids of different times sort by time.
use gitflare.Prelude.{
  ℕ, zero, suc, ◌+◌, ◌*◌, ◌/◌, ◌%◌, ◌^◌, ◌<◌, ◌≡◌, refl, ap, sym, ◌∙◌, Bool, true, false, ◌||◌,
  Option, none, some, List, [], ◌∷◌, ◌++◌, append_assoc, append-nil, length, length-append,
  get_elem?, Text, arith, ◌==◌, ltb, not, text_eq, text_eq_iff, text_lt, text_lt-common, ==_iff,
  Bool-cases, inl, inr, All, ltb→lt, table, entry,
}
use Prim.Native.Nat.{bit_and}
use native.Mathlib.Nat.{pow-suc}
use gitflare.Ids.{
  alphabet_index, alphabet, char_at, encode_loop, encode_random, new_id, decode_loop, id_time,
}

-- The character of a digit.
char_of : ℕ → ℕ
char_of i = elim (get_elem? alphabet i) [ none ↦ 0 | some c ↦ c ]

holds : Option ℕ → ℕ → Bool
holds none i = false
holds (some j) i = j == i

holds→eq : (o : Option ℕ) (i : ℕ) → holds o i ≡ true → o ≡ some i
unfolding holds
holds→eq none i h = cc
holds→eq (some j) i h = ground arith

finds_itself : ℕ → Bool
finds_itself i = holds (alphabet_index (char_of i)) i

alphabet_table : table finds_itself 32 ≡ true
unfolding table finds_itself holds char_of alphabet_index
alphabet_table = refl

char_of-table : table (λ i. text_eq (char_at i) (char_of i ∷ [])) 32 ≡ true
unfolding table char_at char_of
char_of-table = refl

sorted_table : table (λ i. table (λ j. not (ltb i j) || ltb (char_of i) (char_of j)) 32) 32 ≡ true
unfolding table char_of
sorted_table = refl

char_at-eq : (i : ℕ) → i < 32 → char_at i ≡ char_of i ∷ []
char_at-eq i h =
    (text_eq_iff (char_at i) (char_of i ∷ [])).0
      (entry (λ i. text_eq (char_at i) (char_of i ∷ [])) 32 char_of-table i h)

alphabet_index-char_of : (i : ℕ) → i < 32 → alphabet_index (char_of i) ≡ some i
unfolding finds_itself
alphabet_index-char_of i h =
    holds→eq (alphabet_index (char_of i)) i (entry finds_itself 32 alphabet_table i h)

char_of_mono : (i j : ℕ) → i < j → j < 32 → char_of i < char_of j
char_of_mono i j h k =
    let row : table (λ j. not (ltb i j) || ltb (char_of i) (char_of j)) 32 ≡ true =
      entry (λ i. table (λ j. not (ltb i j) || ltb (char_of i) (char_of j)) 32) 32 sorted_table i
        (omega arith) in
    let cell : not (ltb i j) || ltb (char_of i) (char_of j) ≡ true =
      entry (λ j. not (ltb i j) || ltb (char_of i) (char_of j)) 32 row j k in
    ground (arith, cell)

-- The digits of `encodeTime`, from the front.
time_chars : ℕ → ℕ → Text
time_chars zero v = []
time_chars (suc k) v = time_chars k (v / 32) ++ char_of (v % 32) ∷ []

encode_loop-time_chars : (k v : ℕ) (out : Text) → encode_loop k v out ≡ time_chars k v ++ out
unfolding encode_loop time_chars
encode_loop-time_chars zero v out = refl
encode_loop-time_chars (suc k) v out = rw (char_at-eq (v % 32) (omega arith)) (
    encode_loop-time_chars k (v / 32) (char_of (v % 32) ∷ out)
    ∙ sym (append_assoc (time_chars k (v / 32)) (char_of (v % 32) ∷ []) out))

positional : (acc w v w' : ℕ) → w' ≡ w * 32 → (acc * w + v / 32) * 32 + v % 32 ≡ acc * w' + v
positional acc w v w' e = rw e (omega arith)

decode_loop-time_chars :
    (k j v acc : ℕ) (rest : Text)
    → v < 32 ^ k
    → decode_loop (k + j) (time_chars k v ++ rest) acc ≡ decode_loop j rest (acc * 32 ^ k + v)
unfolding decode_loop time_chars
decode_loop-time_chars zero j v acc rest h =
    let e : acc ≡ acc * 32 ^ 0 + v = omega arith in
    let f : zero + j ≡ j = omega arith in rw f (ap (decode_loop j rest) e)
decode_loop-time_chars (suc k) j v acc rest h =
    let c = char_of (v % 32) in
    let e : suc k + j ≡ k + suc j = omega arith in
    let p : 32 ^ suc k ≡ 32 ^ k * 32 = pow-suc 32 k in
    let index : alphabet_index c ≡ some (v % 32) = alphabet_index-char_of (v % 32) (omega arith) in
    rw (e, append_assoc (time_chars k (v / 32)) (c ∷ []) rest)
      (decode_loop-time_chars k (suc j) (v / 32) acc (c ∷ rest) (omega arith)
        ∙ rw (index, decode_loop)
            (ap (decode_loop j rest) (positional acc (32 ^ k) v (32 ^ suc k) p)))

length-time_chars : (k v : ℕ) → length (time_chars k v) ≡ k
unfolding time_chars
length-time_chars zero v = refl
length-time_chars (suc k) v = omega (
  arith,
  length-append {0} (time_chars k (v / 32)) (char_of (v % 32) ∷ []),
  length-time_chars k (v / 32),
)

time_chars_mono :
    (k u v : ℕ) (s t : Text)
    → u < v
    → v < 32 ^ k
    → text_lt (time_chars k u ++ s) (time_chars k v ++ t) ≡ true
unfolding time_chars
time_chars_mono zero u v s t h b = absurd (omega arith)
time_chars_mono (suc k) u v s t h b =
    let p : 32 ^ suc k ≡ 32 ^ k * 32 = pow-suc 32 k in
    let cu = char_of (u % 32) in
    let cv = char_of (v % 32) in
    rw
      (
        append_assoc (time_chars k (u / 32)) (cu ∷ []) s,
        append_assoc (time_chars k (v / 32)) (cv ∷ []) t,
      )
      (elim (Bool-cases (u / 32 == v / 32)) [
        | inr ne ↦
            time_chars_mono k (u / 32) (v / 32) (cu ∷ s) (cv ∷ t) (ground arith) (omega arith)
        | inl eq ↦ rw ((==_iff _ _).0 eq) (
            text_lt-common (time_chars k (v / 32)) (cu ∷ s) (cv ∷ t)
            ∙ ground (arith, char_of_mono (u % 32) (v % 32)))
      ])

masked_table : table (λ b. ltb (bit_and b 0x1f) 32) 256 ≡ true
unfolding table
masked_table = refl

masked : (b : ℕ) → b < 256 → bit_and b 0x1f < 32
masked b h = ltb→lt (bit_and b 0x1f) 32 (entry (λ b. ltb (bit_and b 0x1f) 32) 256 masked_table b h)

length-encode_random :
    (bytes : List ℕ) → All (λ b. b < 256) bytes → length (encode_random bytes) ≡ length bytes
unfolding encode_random
length-encode_random [] h = refl
length-encode_random (b ∷ bytes) (p, h) =
    rw (char_at-eq (bit_and b 0x1f) (masked b p)) (omega (arith, length-encode_random bytes h))

new_id-eq : (now : ℕ) (bytes : List ℕ) → new_id now bytes ≡ time_chars 10 now ++ encode_random bytes
unfolding new_id
new_id-eq now bytes =
    ap (λ t. t ++ encode_random bytes)
      (encode_loop-time_chars 10 now [] ∙ append-nil (time_chars 10 now))

-- An id made at `now` with 16 random bytes gives back `now`, for times that ten base-32 digits
-- hold (32 ^ 10 milliseconds, until the year 37648).
pub id_time-new_id :
    (now : ℕ) (bytes : List ℕ)
    → now < 32 ^ 10
    → All (λ b. b < 256) bytes
    → length bytes ≡ 16
    → id_time (new_id now bytes) ≡ some now
unfolding id_time
id_time-new_id now bytes h a l =
    let size : (length (time_chars 10 now ++ encode_random bytes) == 26) ≡ true = ground (
      arith,
      length-append (time_chars 10 now) (encode_random bytes),
      length-time_chars 10 now,
      length-encode_random bytes a,
    ) in
    rw (new_id-eq now bytes, size)
      (decode_loop-time_chars 10 0 now 0 (encode_random bytes) h ∙ ap some (omega arith))

-- An id that was made earlier sorts before one made later, whatever the random bytes.
pub new_id_sorts :
    (now later : ℕ) (bytes bytes' : List ℕ)
    → now < later
    → later < 32 ^ 10
    → text_lt (new_id now bytes) (new_id later bytes') ≡ true
new_id_sorts now later bytes bytes' h b =
    rw (new_id-eq now bytes, new_id-eq later bytes')
      (time_chars_mono 10 now later (encode_random bytes) (encode_random bytes') h b)
