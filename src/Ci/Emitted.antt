-- ===== src/Ci/Emitted.antt =====
-- ci/plan-emitter.ts: the plan that a repository's configuration prints. `parse_json` stands for
-- JSON.parse: its error's message, or the value, which is a plan if it has that shape.
use gitflare.Prelude.{
  ℕ, ◌⊎◌, inl, inr, Option, none, some, [], ◌∷◌, ◌++◌, reverse, Text, codes, text_eq, starts_with,
  is_space, length, drop, if◌then◌else◌,
}
use gitflare.Ci.Plan.{Plan}

abbrev pub plan_begin : Text
plan_begin = codes "<<<GITFLARE_PLAN"

abbrev pub plan_end : Text
plan_end = codes "GITFLARE_PLAN>>>"

abbrev pub config_path : Text
config_path = codes ".gitflare/ci.ts"

-- What stands behind the last occurrence of a text, by `lastIndexOf` and `slice`.
abbrev pub later : Option Text → Option Text → Option Text
later (some found) here = some found
later none here = here

abbrev pub after_last : Text → Text → Option Text
after_last part [] = none
after_last part (c ∷ text) =
    later (after_last part text)
      (if starts_with part (c ∷ text) then some (drop (length part) (c ∷ text)) else none)

-- What stands before the first occurrence, by `indexOf` and `slice`.
abbrev pub with_char : ℕ → Option Text → Option Text
with_char c none = none
with_char c (some text) = some (c ∷ text)

abbrev pub before_first : Text → Text → Option Text
before_first part [] = none
before_first part (c ∷ text) =
    if starts_with part (c ∷ text) then some [] else with_char c (before_first part text)

-- `String.prototype.trim`
abbrev pub trim_start : Text → Text
trim_start [] = []
trim_start (c ∷ text) = if is_space c then trim_start text else c ∷ text

abbrev pub trim : Text → Text
trim text = reverse (trim_start (reverse (trim_start text)))

pub data Parsed : Type 0 where
  not_json : Text → Parsed
  other_shape : Parsed
  plan_value : Plan → Parsed

abbrev pub read_parsed : Parsed → Text ⊎ Option Plan
read_parsed (not_json message) = inl (codes "CI plan was not valid JSON: " ++ message)
read_parsed other_shape = inl (codes "CI plan has an unrecognized shape")
read_parsed (plan_value plan) = inr (some plan)

abbrev pub read_payload : (Text → Parsed) → Text → Text ⊎ Option Plan
read_payload parse_json payload =
    if text_eq payload (codes "null") then inr none else read_parsed (parse_json payload)

abbrev pub read_until_end : (Text → Parsed) → Option Text → Text ⊎ Option Plan
read_until_end parse_json none = inl (codes "CI plan output was truncated")
read_until_end parse_json (some payload) = read_payload parse_json (trim payload)

abbrev pub read_from_begin : (Text → Parsed) → Option Text → Text ⊎ Option Plan
read_from_begin parse_json none = inl (
    config_path
    ++ codes " did not emit a pipeline. Ensure it has a default export created with defineCI().")
read_from_begin parse_json (some rest) = read_until_end parse_json (before_first plan_end rest)

-- The plan, or `none` without a configuration, or the error that is thrown.
unfoldable pub parse_emitted_plan : (Text → Parsed) → Text → Text ⊎ Option Plan
parse_emitted_plan parse_json stdout = read_from_begin parse_json (after_last plan_begin stdout)
