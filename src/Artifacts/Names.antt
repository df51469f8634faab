-- ===== src/Artifacts/Names.antt =====
-- src/server/artifacts/names.ts: login and repository names, and the flat storage name of a pair.
-- `toLowerCase` is only applied to names that passed the ASCII pattern, so it is modelled there.
pub mod Injective
mod Tests
use gitflare.Prelude.{
  ℕ, ◌+◌, Bool, true, false, ◌&&◌, ◌||◌, not, List, [], ◌∷◌, ◌++◌, map, ◌==◌, leb, ltb, length,
  codes, text_eq, includes, starts_with, Text, if◌then◌else◌,
}
use gitflare.Git.Refs.{ends_with}

pub data SegmentKind : Type 0 where
  owner repository : SegmentKind

-- The exceptions, by what their messages say.
pub data NameError : Type 0 where
  bad_length bad_characters consecutive_hyphens git_suffix reserved_name : SegmentKind → NameError
  reserved_login : Text → NameError
  malformed_account : NameError

pub data Result (A : Type 0) : Type 0 where
  err : NameError → Result A
  ok : A → Result A

-- What stands behind an exception is not run.
infixl 5 ◌>>◌ ◌>>=◌
abbrev pub ◌>>◌ : {B : Type 0} → Result (Unit {0}) → Result B → Result B
err failure >> next = err failure
ok done >> next = next

abbrev pub ◌>>=◌ : {A B : Type 0} → Result A → (A → Result B) → Result B
err failure >>= rest = err failure
ok value >>= rest = rest value

-- `if (test) throw …`
abbrev pub throw_if : Bool → NameError → Result (Unit {0})
throw_if true e = err e
throw_if false e = ok tt

abbrev hyphen : ℕ
hyphen = 45

abbrev pub separator : Text
separator = hyphen ∷ hyphen ∷ []

abbrev max_segment : ℕ
max_segment = 64

abbrev pub reserved_logins : List Text
reserved_logins =
    codes "api"
    ∷ codes "assets"
    ∷ codes "admin"
    ∷ codes "login"
    ∷ codes "logout"
    ∷ codes "signin"
    ∷ codes "signout"
    ∷ codes "settings"
    ∷ codes "new"
    ∷ codes "search"
    ∷ codes "explore"
    ∷ codes "notifications"
    ∷ codes "dashboard"
    ∷ codes "static"
    ∷ codes "favicon.ico"
    ∷ codes "robots.txt"
    ∷ codes "_build"
    ∷ codes ".well-known"
    ∷ []

abbrev pub is_alphanumeric : ℕ → Bool
is_alphanumeric c = (leb 65 c && leb c 90) || (leb 97 c && leb c 122) || (leb 48 c && leb c 57)

abbrev pub is_name_char : ℕ → Bool
is_name_char c = is_alphanumeric c || c == 46 || c == 95 || c == hyphen

abbrev pub all_name_chars : Text → Bool
all_name_chars [] = true
all_name_chars (c ∷ s) = is_name_char c && all_name_chars s

-- `NAME_PATTERN`
pub matches_name_pattern : Text → Bool
matches_name_pattern [] = false
matches_name_pattern (c ∷ s) = is_alphanumeric c && all_name_chars s

-- `value.includes(SEPARATOR)`
abbrev pub has_separator : Text → Bool
has_separator [] = false
has_separator (c ∷ s) = starts_with separator (c ∷ s) || has_separator s

pub assert_segment : Text → SegmentKind → Result (Unit {0})
assert_segment value kind = do
  throw_if (length value == 0 || ltb max_segment (length value)) (bad_length kind)
  throw_if (not (matches_name_pattern value)) (bad_characters kind)
  throw_if (has_separator value) (consecutive_hyphens kind)
  throw_if (ends_with (codes ".git") value) (git_suffix kind)
  throw_if (text_eq value (codes ".") || text_eq value (codes "..")) (reserved_name kind)

abbrev pub lower_char : ℕ → ℕ
lower_char c = if leb 65 c && leb c 90 then c + 32 else c

abbrev pub to_lower_case : Text → Text
to_lower_case [] = []
to_lower_case (c ∷ s) = lower_char c ∷ to_lower_case s

pub assert_login : Text → Result (Unit {0})
assert_login login = do
  assert_segment login owner
  throw_if (includes reserved_logins (to_lower_case login)) (reserved_login login)

pub assert_repo_name : Text → Result (Unit {0})
assert_repo_name name = assert_segment name repository

unfoldable pub artifacts_name : Text → Text → Result Text
unfolding assert_login assert_repo_name assert_segment matches_name_pattern
artifacts_name login repo = do
  assert_login login
  assert_repo_name repo
  ok (to_lower_case login ++ (separator ++ to_lower_case repo))

unfoldable pub wiki_artifacts_name : Text → Text → Result Text
unfolding artifacts_name
wiki_artifacts_name login repo = do
  name ← artifacts_name login repo
  ok (name ++ (separator ++ codes "wiki"))

abbrev is_hex_digit : ℕ → Bool
is_hex_digit c = (leb 97 c && leb c 102) || (leb 65 c && leb c 70) || (leb 48 c && leb c 57)

abbrev all_hex_digits : Text → Bool
all_hex_digits [] = true
all_hex_digits (c ∷ s) = is_hex_digit c && all_hex_digits s

pub artifacts_remote : Text → Text → Text → Result Text
artifacts_remote account_id namespace name = do
  throw_if (not (length account_id == 32 && all_hex_digits account_id)) malformed_account
  ok (
      codes "https://"
      ++ (account_id
          ++ (codes ".artifacts.cloudflare.net/git/"
              ++ (namespace ++ (codes "/" ++ (name ++ codes ".git"))))))
