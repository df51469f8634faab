-- ===== src/Ci/Runner/Shell.antt =====
-- How a shell splits a command into words, and what it makes of the commands that the runner
-- builds.
use gitflare.Prelude.{
  ℕ, ◌≡◌, refl, sym, ap, ◌∙◌, Bool, true, false, ◌||◌, ◌&&◌, not, ◌==◌, leb, Option, none, some,
  List, [], ◌∷◌, ◌++◌, append_assoc, append-nil, Text, codes, join, if◌then◌else◌, All, arith,
  Bool-cases, inl, inr,
}
use gitflare.Ci.Runner.{
  CheckoutSpec, escape_quotes, quote, token_args, depth_args, branch_args, clone_args,
  clone_command, workdir, default_to,
}

pub data Mode : Type 0 where
  bare single double escaped refused : Mode

-- The word that is being read, if one has begun, and the words behind.
pub record Reader : Type 0 where
  pub mode : Mode
  pub word : Option Text
  pub words : List Text

-- Letters, digits and the signs `%+,-./:=@_` mean themselves.
abbrev pub is_plain : ℕ → Bool
is_plain c =
    (leb 97 c && leb c 122)
    || (leb 65 c && leb c 90)
    || (leb 43 c && leb c 58)
    || c == 37
    || c == 61
    || c == 64
    || c == 95

-- Between double quotes a backslash, a dollar and a backquote have a meaning that is not read.
abbrev pub is_literal : ℕ → Bool
is_literal c = not (c == 34 || c == 92 || c == 36 || c == 96)

abbrev pub push_char : Option Text → ℕ → Option Text
push_char word c = some (default_to word [] ++ c ∷ [])

abbrev pub flush : Option Text → List Text
flush none = []
flush (some word) = word ∷ []

abbrev pub read_in : Mode → Option Text → List Text → ℕ → Reader
read_in bare word words c =
    if c == 32
    then record { mode = bare; word = none; words = words ++ flush word }
    else if c == 39
    then record { mode = single; word = some (default_to word []); words = words }
    else if c == 34
    then record { mode = double; word = some (default_to word []); words = words }
    else if c == 92
    then record { mode = escaped; word = word; words = words }
    else if is_plain c
    then record { mode = bare; word = push_char word c; words = words }
    else record { mode = refused; word = word; words = words }
read_in single word words c =
    if c == 39
    then record { mode = bare; word = word; words = words }
    else record { mode = single; word = push_char word c; words = words }
read_in double word words c =
    if c == 34
    then record { mode = bare; word = word; words = words }
    else if is_literal c
    then record { mode = double; word = push_char word c; words = words }
    else record { mode = refused; word = word; words = words }
read_in escaped word words c =
    if c == 10
    then record { mode = refused; word = word; words = words }
    else record { mode = bare; word = push_char word c; words = words }
read_in refused word words c = record { mode = refused; word = word; words = words }

abbrev pub read_char : Reader → ℕ → Reader
read_char reader c = read_in reader.mode reader.word reader.words c

abbrev pub read : Reader → Text → Reader
read reader [] = reader
read reader (c ∷ text) = read (read_char reader c) text

abbrev pub finish_words : Mode → Option Text → List Text → Option (List Text)
finish_words bare word words = some (words ++ flush word)
finish_words single word words = none
finish_words double word words = none
finish_words escaped word words = none
finish_words refused word words = none

-- The words of a command that is nothing but words.
abbrev pub shell_words : Text → Option (List Text)
shell_words text =
    let reader = read record { mode = bare; word = none; words = [] } text in
    finish_words reader.mode reader.word reader.words

abbrev at : Mode → Option Text → List Text → Reader
at mode word words = record { mode = mode; word = word; words = words }

read-append : (r : Reader) (s t : Text) → read r (s ++ t) ≡ read (read r s) t
read-append r [] t = refl
read-append r (c ∷ s) t = read-append (read_char r c) s t

read_char-single :
    (w : Text) (c : ℕ) (ws : List Text)
    → (c == 39) ≡ false
    → read_char (at single (some w) ws) c ≡ at single (some (w ++ c ∷ [])) ws
read_char-single w c ws e = rw e refl

-- Inside single quotes, up to the closing one.
read-escape_quotes :
    (w v : Text) (ws : List Text)
    → read (at single (some w) ws) (escape_quotes v ++ 39 ∷ []) ≡ at bare (some (w ++ v)) ws
read-escape_quotes w [] ws = ap (λ w. at bare (some w) ws) (sym (append-nil w))
read-escape_quotes w (c ∷ v) ws = elim (Bool-cases (c == 39)) [
  | inl e ↦
      let same : c ≡ 39 = ground arith in
      rw e (
        read-escape_quotes (w ++ 39 ∷ []) v ws
        ∙ ap (λ w. at bare (some w) ws)
            (append_assoc w (39 ∷ []) v ∙ ap (λ c. w ++ c ∷ v) (sym same)))
  | inr e ↦ rw e (
      ap (λ r. read r (escape_quotes v ++ 39 ∷ [])) (read_char-single w c ws e)
      ∙ read-escape_quotes (w ++ c ∷ []) v ws
      ∙ ap (λ w. at bare (some w) ws) (append_assoc w (c ∷ []) v))
]

read_char-literal :
    (w : Text) (c : ℕ) (ws : List Text)
    → is_literal c ≡ true
    → read_char (at double (some w) ws) c ≡ at double (some (w ++ c ∷ [])) ws
read_char-literal w c ws h = elim (Bool-cases (c == 34)) [
  | inl e ↦ absurd (let g = rw e at h in cc)
  | inr e ↦ rw e (let g = rw e at h in rw g refl)
]

read-literal :
    (w v : Text) (ws : List Text)
    → All (λ c. is_literal c ≡ true) v
    → read (at double (some w) ws) (v ++ 34 ∷ []) ≡ at bare (some (w ++ v)) ws
read-literal w [] ws h = ap (λ w. at bare (some w) ws) (sym (append-nil w))
read-literal w (c ∷ v) ws (e, h) =
    ap (λ r. read r (v ++ 34 ∷ [])) (read_char-literal w c ws e)
    ∙ read-literal (w ++ c ∷ []) v ws h
    ∙ ap (λ w. at bare (some w) ws) (append_assoc w (c ∷ []) v)

-- An argument that is read as one word.
abbrev pub IsWord : Text → Text → Type 0
IsWord arg word = (ws : List Text) → read (at bare none ws) arg ≡ at bare (some word) ws

abbrev pub IsWords : List Text → List Text → Type 0
IsWords [] [] = Unit
IsWords [] (word ∷ words) = ⊥
IsWords (arg ∷ args) [] = ⊥
IsWords (arg ∷ args) (word ∷ words) = IsWord arg word × IsWords args words

IsWords-append :
    (args others vs ws : List Text)
    → IsWords args vs
    → IsWords others ws
    → IsWords (args ++ others) (vs ++ ws)
IsWords-append [] others [] ws h k = k
IsWords-append [] others (v ∷ vs) ws h k = absurd h
IsWords-append (a ∷ args) others [] ws h k = absurd h
IsWords-append (a ∷ args) others (v ∷ vs) ws (p, h) k = (p, IsWords-append args others vs ws h k)

pub quote-IsWord : (value : Text) → IsWord (quote value) value
quote-IsWord value ws = read-escape_quotes [] value ws

shell_words-join_from :
    (before args words : List Text)
    → IsWords args words
    → (let reader = read (at bare none before) (join (codes " ") args) in
        finish_words reader.mode reader.word reader.words)
      ≡ some (before ++ words)
shell_words-join_from before [] [] h = refl
shell_words-join_from before [] (w ∷ words) h = absurd h
shell_words-join_from before (arg ∷ args) [] h = absurd h
shell_words-join_from before (arg ∷ []) (w ∷ []) (h, k) = ap done (h before)
  where
    done : Reader → Option (List Text)
    done reader = finish_words reader.mode reader.word reader.words
shell_words-join_from before (arg ∷ []) (w ∷ v ∷ words) (h, k) = absurd k
shell_words-join_from before (arg ∷ arg' ∷ args) (w ∷ words) (h, k) =
    let rest = join (codes " ") (arg' ∷ args) in
    ap done (
      read-append (at bare none before) arg (codes " " ++ rest)
      ∙ ap (λ r. read r (codes " " ++ rest)) (h before))
    ∙ shell_words-join_from (before ++ w ∷ []) (arg' ∷ args) words k
    ∙ ap some (append_assoc before (w ∷ []) words)
  where
    done : Reader → Option (List Text)
    done reader = finish_words reader.mode reader.word reader.words

-- The words that the runner means to pass to git.
abbrev pub token_words : Option Text → List Text
token_words none = []
token_words (some []) = []
token_words (some (c ∷ token)) =
    codes "-c" ∷ (codes "http.extraHeader=Authorization: Bearer " ++ (c ∷ token)) ∷ []

abbrev pub branch_words : Option Text → List Text
branch_words none = []
branch_words (some []) = []
branch_words (some (c ∷ branch)) = codes "--branch" ∷ (c ∷ branch) ∷ []

abbrev pub clone_words : CheckoutSpec → List Text
clone_words spec =
    codes "git"
    ∷ (token_words spec.token
        ++ (codes "clone"
            ∷ (depth_args spec.sha ++ (branch_words spec.branch ++ spec.repo_url ∷ workdir ∷ []))))

header-IsWord :
    (token : Text)
    → All (λ c. is_literal c ≡ true) token
    → IsWord
        (codes "http.extraHeader=\"Authorization: Bearer " ++ (token ++ codes "\""))
        (codes "http.extraHeader=Authorization: Bearer " ++ token)
header-IsWord token h ws = read-literal (codes "http.extraHeader=Authorization: Bearer ") token ws h

token_args-IsWords :
    (o : Option Text)
    → All (λ c. is_literal c ≡ true) (default_to o [])
    → IsWords (token_args o) (token_words o)
token_args-IsWords none h = tt
token_args-IsWords (some []) h = tt
token_args-IsWords (some (c ∷ token)) h = (λ ws. refl, (header-IsWord (c ∷ token) h, tt))

branch_args-IsWords : (o : Option Text) → IsWords (branch_args o) (branch_words o)
branch_args-IsWords none = tt
branch_args-IsWords (some []) = tt
branch_args-IsWords (some (c ∷ branch)) = (λ ws. refl, (quote-IsWord (c ∷ branch), tt))

depth_args-IsWords : (o : Option Text) → IsWords (depth_args o) (depth_args o)
depth_args-IsWords none = (λ ws. refl, (λ ws. refl, tt))
depth_args-IsWords (some []) = (λ ws. refl, (λ ws. refl, tt))
depth_args-IsWords (some (c ∷ sha)) = tt

-- Whatever the branch and the URL are, a shell splits the clone command into exactly the words
-- that are meant, if the token has no character that means something between double quotes.
pub clone_command-words :
    (spec : CheckoutSpec)
    → All (λ c. is_literal c ≡ true) (default_to spec.token [])
    → shell_words (clone_command spec) ≡ some (clone_words spec)
clone_command-words spec h = shell_words-join_from [] (clone_args spec) (clone_words spec) (
  λ ws. refl,
  IsWords-append (token_args spec.token) _ (token_words spec.token) _
      (token_args-IsWords spec.token h)
      (
        λ ws. refl,
        IsWords-append (depth_args spec.sha) _ (depth_args spec.sha) _ (depth_args-IsWords spec.sha)
            (IsWords-append (branch_args spec.branch) _ (branch_words spec.branch) _
              (branch_args-IsWords spec.branch) (quote-IsWord spec.repo_url, (λ ws. refl, tt))),
      ),
)
