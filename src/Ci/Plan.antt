-- ===== src/Ci/Plan.antt =====
-- packages/ci-config/src/index.ts: the builder of a plan, its dependency order and its waves.
-- A JavaScript map from step names is a function into `Option`.
pub mod Sorted
pub mod Marks
pub mod Invariant
pub mod Order
pub mod Unseen
pub mod Total
pub mod Complete
pub mod Builder
pub mod Waves
mod Tests
use gitflare.Prelude.{
  is_space, ℕ, zero, suc, ◌+◌, Bool, true, false, ◌||◌, ◌&&◌, ◌==◌, leb, Option, none, some, List,
  [], ◌∷◌, ◌++◌, max, length, includes, text_eq, Text, if◌then◌else◌,
}

-- `cloudflareCredentials?: boolean | { accountId: string }`
pub data Credentials : Type 0 where
  flag : Bool → Credentials
  account : Text → Credentials

pub record StepOptions : Type 0 where
  pub cache : Option (List Text)
  pub cwd : Option Text
  pub env : Option (List (Text × Text))
  pub secrets : Option (List Text)
  pub cloudflare_credentials : Option Credentials
  pub source_control_credentials : Option Bool
  pub timeout_ms : Option ℕ
  pub retries : Option ℕ
  pub always : Option Bool

pub record PlanStep : Type 0 where
  pub options : StepOptions
  pub name : Text
  pub command : Text
  pub needs : List Text

pub record Plan : Type 0 where
  pub steps : List PlanStep

-- `stuck` is no result of the source: the fuel of `visit` ran out. `undefined_step` is the
-- property access on `undefined` behind `byName.get(need)!`.
pub data PlanError : Type 0 where
  empty_name : PlanError
  duplicate_name : Text → PlanError
  unknown_step : Text → Text → PlanError
  cycle : List Text → PlanError
  undefined_step : Text → PlanError

pub data Result (A : Type 0) : Type 0 where
  err : PlanError → Result A
  ok : A → Result A
  stuck : Result A

-- What stands behind an exception is not run.
infixl 5 ◌>>=◌
abbrev pub ◌>>=◌ : {A B : Type 0} → Result A → (A → Result B) → Result B
stuck >>= rest = stuck
err failure >>= rest = err failure
ok value >>= rest = rest value

-- `new Map(plan.steps.map((step) => [step.name, step]))`: the last step of a name is kept.
abbrev pub later_or : Option PlanStep → PlanStep → Text → Option PlanStep
later_or (some t) s n = some t
later_or none s n = if text_eq s.name n then some s else none

pub by_name : List PlanStep → Text → Option PlanStep
by_name [] n = none
by_name (s ∷ ss) n = later_or (by_name ss n) s n

abbrev pub is_none {ℓ} : {A : Type ℓ} → Option A → Bool
is_none none = true
is_none (some a) = false

pub check_needs : List PlanStep → Text → List Text → Result (Unit {0})
check_needs steps name [] = ok tt
check_needs steps name (need ∷ needs) =
    if is_none (by_name steps need)
    then err (unknown_step name need)
    else check_needs steps name needs

-- The first loop of `topoSort`, over the steps that are left.
pub check_steps : List PlanStep → List PlanStep → Result (Unit {0})
check_steps steps [] = ok tt
check_steps steps (s ∷ ss) = check_needs steps s.name s.needs >>= λ _. check_steps steps ss

pub data Status : Type 0 where
  visiting finished : Status

-- `state` and `ordered` of `topoSort`.
pub record Search : Type 0 where
  pub status : Text → Option Status
  pub ordered : List PlanStep

abbrev pub mark : Text → Status → (Text → Option Status) → Text → Option Status
mark n v status m = if text_eq n m then some v else status m

-- The loop over `step.needs`; `visit` is the recursive call.
pub visit_needs :
    (PlanStep → List Text → Search → Result Search)
    → List PlanStep
    → List Text
    → List Text
    → Search
    → Result Search
visit_needs visit steps trail [] st = ok st
visit_needs visit steps trail (need ∷ needs) st = elim (by_name steps need) [
  | none ↦ err (undefined_step need)
  | some s ↦ visit s trail st >>= visit_needs visit steps trail needs
]

-- `state.set(step.name, 'done'); ordered.push(step)`
pub finish_step : PlanStep → Search → Search
finish_step s st = record {
  status = mark s.name finished st.status;
  ordered = st.ordered ++ s ∷ [];
}

pub visit : ℕ → List PlanStep → PlanStep → List Text → Search → Result Search
visit zero steps s trail st = stuck
visit (suc fuel) steps s trail st = elim (st.status s.name) [
  | some finished ↦ ok st
  | some visiting ↦ err (cycle (trail ++ s.name ∷ []))
  | none ↦
      visit_needs (visit fuel steps) steps (trail ++ s.name ∷ []) s.needs
        (record st { status = mark s.name visiting st.status })
      >>= λ after. ok (finish_step s after)
]

pub visit_all : ℕ → List PlanStep → List PlanStep → Search → Result Search
visit_all fuel steps [] st = ok st
visit_all fuel steps (s ∷ ss) st = visit fuel steps s [] st >>= visit_all fuel steps ss

abbrev pub empty_search : Search
empty_search = record { status = λ n. none; ordered = [] }

-- Nested visits are of names that no visit has begun, so a round for each step and one more is
-- enough.
unfoldable pub topo_sort : Plan → Result (List PlanStep)
unfolding check_steps check_needs by_name visit_all visit visit_needs finish_step
topo_sort plan = check_steps plan.steps plan.steps >>= λ _.
    visit_all (suc (length plan.steps)) plan.steps plan.steps empty_search >>= λ st. ok st.ordered

-- `depth` and `waves` of `planWaves`.
pub record Layering : Type 0 where
  pub depth : Text → Option ℕ
  pub waves : List (List PlanStep)

abbrev pub level_behind : Option ℕ → ℕ
level_behind none = 1
level_behind (some l) = l + 1

-- `step.needs.reduce((max, need) => Math.max(max, (depth.get(need) ?? 0) + 1), 0)`
pub level_from : (Text → Option ℕ) → ℕ → List Text → ℕ
level_from depth acc [] = acc
level_from depth acc (n ∷ ns) = level_from depth (max acc (level_behind (depth n))) ns

-- `(waves[level] ??= []).push(step)`; a place that the array skips is an empty wave.
pub push_wave : ℕ → PlanStep → List (List PlanStep) → List (List PlanStep)
push_wave zero s [] = (s ∷ []) ∷ []
push_wave (suc l) s [] = [] ∷ push_wave l s []
push_wave zero s (w ∷ ws) = (w ++ s ∷ []) ∷ ws
push_wave (suc l) s (w ∷ ws) = w ∷ push_wave l s ws

abbrev pub set_depth : Text → ℕ → (Text → Option ℕ) → Text → Option ℕ
set_depth n l depth m = if text_eq n m then some l else depth m

pub place : Layering → PlanStep → Layering
place la s =
    let level = level_from la.depth 0 s.needs in
    record { depth = set_depth s.name level la.depth; waves = push_wave level s la.waves }

pub place_all : Layering → List PlanStep → Layering
place_all la [] = la
place_all la (s ∷ ss) = place_all (place la s) ss

abbrev pub no_layers : Layering
no_layers = record { depth = λ n. none; waves = [] }

unfoldable pub plan_waves : Plan → Result (List (List PlanStep))
unfolding topo_sort place_all place level_from push_wave
plan_waves plan = topo_sort plan >>= λ ordered. ok (place_all no_layers ordered).waves

-- `PlanBuilder`: its steps; `used` holds their names.
-- `name.trim() === ''`
abbrev is_blank : Text → Bool
is_blank [] = true
is_blank (c ∷ s) = is_space c && is_blank s

pub has_name : List PlanStep → Text → Bool
has_name [] n = false
has_name (s ∷ ss) n = text_eq s.name n || has_name ss n

pub add_step : List PlanStep → Text → Text → List Text → StepOptions → Result (List PlanStep)
unfolding has_name
add_step steps name command needs options =
    if is_blank name
    then err empty_name
    else if has_name steps name
    then err (duplicate_name name)
    else ok
        (steps ++ record { options = options; name = name; command = command; needs = needs } ∷ [])

-- What a pipeline function does with its builder: `ci.run` and `handle.run`.
pub run_root : List PlanStep → Text → Text → StepOptions → Result (List PlanStep)
run_root steps name command options = add_step steps name command [] options

pub run_behind : List PlanStep → Text → Text → Text → StepOptions → Result (List PlanStep)
run_behind steps handle name command options = add_step steps name command (handle ∷ []) options
