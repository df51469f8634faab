-- ===== src/Errors.antt =====
-- src/server/errors.ts: domain errors, and what clients see of them. The codes are those of
-- @connectrpc/connect that the source names.
pub mod Gate
use gitflare.Prelude.{
  ℕ, Bool, true, false, ◌||◌, Option, none, some, List, [], ◌∷◌, ◌++◌, ◌==◌, Text, codes, text_eq,
  starts_with, if◌then◌else◌, drop,
}
use gitflare.Artifacts.Names.{to_lower_case}

pub data ForgeErrorKind : Type 0 where
  not_found : ForgeErrorKind
  already_exists : ForgeErrorKind
  permission_denied : ForgeErrorKind
  unauthenticated : ForgeErrorKind
  invalid_argument : ForgeErrorKind
  failed_precondition : ForgeErrorKind
  conflict : ForgeErrorKind
  unavailable : ForgeErrorKind
  unimplemented : ForgeErrorKind
  internal : ForgeErrorKind

pub record ForgeError : Type 0 where
  pub kind : ForgeErrorKind
  pub message : Text

-- The codes of an `ArtifactsError` are strings; `numericCode` may be missing.
pub record ArtifactsError : Type 0 where
  pub code : Text
  pub numeric_code : Option ℕ
  pub message : Text

pub data Code : Type 0 where
  code_not_found code_already_exists code_permission_denied code_unauthenticated
        code_invalid_argument code_failed_precondition :
      Code
  code_aborted code_unavailable code_unimplemented code_internal code_resource_exhausted : Code

pub record ConnectError : Type 0 where
  pub message : Text
  pub code : Code

-- What a `catch` may receive; `other` is any value of no kind that the source tells apart.
pub data Thrown : Type 0 where
  connect : ConnectError → Thrown
  forge : ForgeError → Thrown
  artifacts : ArtifactsError → Thrown
  other : Thrown

abbrev pub connect_code : ForgeErrorKind → Code
connect_code not_found = code_not_found
connect_code already_exists = code_already_exists
connect_code permission_denied = code_permission_denied
connect_code unauthenticated = code_unauthenticated
connect_code invalid_argument = code_invalid_argument
connect_code failed_precondition = code_failed_precondition
connect_code conflict = code_aborted
connect_code unavailable = code_unavailable
connect_code unimplemented = code_unimplemented
connect_code internal = code_internal

abbrev pub http_status : ForgeErrorKind → ℕ
http_status not_found = 404
http_status already_exists = 409
http_status permission_denied = 403
http_status unauthenticated = 401
http_status invalid_argument = 400
http_status failed_precondition = 412
http_status conflict = 409
http_status unavailable = 503
http_status unimplemented = 501
http_status internal = 500

abbrev pub http_status_for : Thrown → ℕ
http_status_for (forge e) = http_status e.kind
http_status_for (connect e) = 500
http_status_for (artifacts e) = 500
http_status_for other = 500

-- Whether `part` stands anywhere in a text.
abbrev pub contains : Text → Text → Bool
contains part [] = starts_with part []
contains part (c ∷ s) = starts_with part (c ∷ s) || contains part s

abbrev pub has_code : Option ℕ → ℕ → Bool
has_code none n = false
has_code (some m) n = m == n

-- `/feature gate/i`
abbrev pub is_feature_gate : ArtifactsError → Bool
is_feature_gate e =
    has_code e.numeric_code 10004 || contains (codes "feature gate") (to_lower_case e.message)

abbrev pub gate_message : Text
gate_message =
    codes "Cloudflare Artifacts is not enabled on this account. Artifacts is in closed beta; "
    ++ codes "request access at https://developers.cloudflare.com/artifacts/ and redeploy."

abbrev pub is_artifacts_feature_gate : Thrown → Bool
is_artifacts_feature_gate (artifacts e) = is_feature_gate e
is_artifacts_feature_gate (forge e) = false
is_artifacts_feature_gate (connect e) = false
is_artifacts_feature_gate other = false

abbrev pub is_gate_error : Thrown → Bool
is_gate_error (artifacts e) = is_feature_gate e
is_gate_error (forge e) = text_eq e.message gate_message
is_gate_error (connect e) = false
is_gate_error other = false

-- `ARTIFACTS_CODES[error.code] ?? Code.code_internal`
abbrev pub artifacts_code : Text → Code
artifacts_code c =
    if text_eq c (codes "ALREADY_EXISTS")
    then code_already_exists
    else if text_eq c (codes "NOT_FOUND")
    then code_not_found
    else if text_eq c (codes "IMPORT_IN_PROGRESS") || text_eq c (codes "FORK_IN_PROGRESS")
    then code_failed_precondition
    else if text_eq c (codes "INVALID_INPUT")
        || text_eq c (codes "INVALID_REPO_NAME")
        || text_eq c (codes "INVALID_TTL")
        || text_eq c (codes "INVALID_URL")
    then code_invalid_argument
    else if text_eq c (codes "REMOTE_AUTH_REQUIRED")
    then code_permission_denied
    else if text_eq c (codes "UPSTREAM_UNAVAILABLE")
    then code_unavailable
    else if text_eq c (codes "MEMORY_LIMIT")
    then code_resource_exhausted
    else code_internal

abbrev pub artifacts_to_connect : ArtifactsError → ConnectError
artifacts_to_connect e =
    if is_feature_gate e
    then record { message = gate_message; code = code_failed_precondition }
    else record { message = e.message; code = artifacts_code e.code }

abbrev pub to_connect_error : Thrown → ConnectError
to_connect_error (connect e) = e
to_connect_error (forge e) = record { message = e.message; code = connect_code e.kind }
to_connect_error (artifacts e) = artifacts_to_connect e
to_connect_error other = record { message = codes "Internal error"; code = code_internal }
