-- ===== src/Ci/Runner/Checkout.antt =====
-- ci/sandbox-runner.ts: the commands that check a repository out.
use gitflare.Prelude.{
  ℕ, zero, suc, ◌==◌, inl, inr, Option, none, some, List, [], ◌∷◌, ◌++◌, Text, codes, join,
  starts_with, length, drop, if◌then◌else◌,
}
use gitflare.Ci.Runner.Answers.{CheckoutSpec, Container, workdir, is_given, text_or}

-- `'${value.replace(/'/g, `'\\''`)}'`
abbrev pub escape_quotes : Text → Text
escape_quotes [] = []
escape_quotes (c ∷ value) =
    if c == 39 then 39 ∷ 92 ∷ 39 ∷ 39 ∷ escape_quotes value else c ∷ escape_quotes value

abbrev pub quote : Text → Text
quote value = 39 ∷ (escape_quotes value ++ 39 ∷ [])

-- `String.prototype.replaceAll` of a text that is not empty; a match of `length text` rounds is
-- as many as there can be.
unfoldable pub replace_all : ℕ → Text → Text → Text → Text
replace_all zero part by text = text
replace_all (suc fuel) part by [] = []
replace_all (suc fuel) part by (c ∷ text) =
    let replaced = by ++ replace_all fuel part by (drop (length part) (c ∷ text)) in
    let kept = c ∷ replace_all fuel part by text in
    if starts_with part (c ∷ text) then replaced else kept

abbrev pub redact : Text → Option Text → Text
redact text none = text
redact text (some []) = text
redact text (some (c ∷ token)) = replace_all (length text) (c ∷ token) (codes "***") text

abbrev pub token_args : Option Text → List Text
token_args none = []
token_args (some []) = []
token_args (some (c ∷ token)) =
    codes "-c"
    ∷ (codes "http.extraHeader=\"Authorization: Bearer " ++ ((c ∷ token) ++ codes "\""))
    ∷ []

abbrev pub depth_args : Option Text → List Text
depth_args sha = if is_given sha then [] else codes "--depth" ∷ codes "1" ∷ []

abbrev pub branch_args : Option Text → List Text
branch_args none = []
branch_args (some []) = []
branch_args (some (c ∷ branch)) = codes "--branch" ∷ quote (c ∷ branch) ∷ []

abbrev pub clone_args : CheckoutSpec → List Text
clone_args spec =
    codes "git"
    ∷ (token_args spec.token
        ++ (codes "clone"
            ∷ (depth_args spec.sha
                ++ (branch_args spec.branch ++ quote spec.repo_url ∷ workdir ∷ []))))

abbrev pub clone_command : CheckoutSpec → Text
clone_command spec = join (codes " ") (clone_args spec)

abbrev pub check_out_sha : Container → Option Text → Option Text → Option Text
check_out_sha container none token = none
check_out_sha container (some []) token = none
check_out_sha container (some (c ∷ sha)) token =
    elim (container.exec (codes "git checkout --detach " ++ quote (c ∷ sha)) (some workdir) 60000) [
      | inl thrown ↦ some thrown
      | inr checked_out ↦
          if checked_out.exit_code == 0
          then none
          else some (
              codes "could not check out "
              ++ ((c ∷ sha) ++ (codes ": " ++ redact checked_out.stderr token)))
    ]

-- The error that it throws, if any.
abbrev pub checkout : Container → CheckoutSpec → Option Text
checkout container spec = elim (container.exec (clone_command spec) none 120000) [
  | inl thrown ↦ some thrown
  | inr cloned ↦
      if cloned.exit_code == 0
      then check_out_sha container spec.sha spec.token
      else some (redact (text_or cloned.stderr (codes "git clone failed")) spec.token)
]
