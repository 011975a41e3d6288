-- ===== src/Environment.antt =====
-- src/domain/environment.go: the entry of an environment in the state, with its key-value store, its
-- enabled services, and the records and the audit log of its steps. A method that writes through
-- `e *EnvironmentEntry` returns the new entry. A reading of `time.Now()` and the host's name are
-- arguments of the methods that take them.
mod Services
mod Steps
mod Names
pub mod Samples
use previewctl.Base.{
  ℕ, zero, suc, ◌+◌, ◌-◌, ◌*◌, ◌/◌, ◌%◌, ◌^◌, ◌≤◌, ◌<◌, Bool, true, false, ◌&&◌, ◌||◌, not, Option,
  none, some, List, [], ◌∷◌, ◌++◌, map, reverse, ◌≡◌, refl, sym, ap, ◌∙◌, subst, ◌≢◌, ◌↔◌, ◌⊎◌, inl,
  inr, arith, Text, bytes, ◌==◌, eq_iff, eq_refl, Map, lookup, insert, erase, keys, lookup-insert,
  lookup-erase, HasUniqueKeys, if◌then◌else◌, ltb, leb, eqb, is_some, get_or, Bool-cases,
  Option-cases, length, elem, count, All, Result, ok, err,
}
use previewctl.Ports.{PortMap}

pub data EnvironmentStatus : Type 0 where
  creating provisioned running stopped error : EnvironmentStatus

pub data StepRecordStatus : Type 0 where
  completed failed invalidated : StepRecordStatus

pub record ComputeAccessInfo : Type 0 where
  pub type : Text
  pub path : Text
  pub host : Text
  pub user : Text
  pub managed_worktree : Bool
  pub metadata : Map Text

-- What a step captures: `map[string]any` holds a port map or a map of texts under a key.
pub data Output : Type 0 where
  text : Text → Output
  ports : PortMap → Output
  texts : Map Text → Output

pub record StepRecord : Type 0 where
  pub name : Text
  pub status : StepRecordStatus
  pub started_at : ℕ
  pub finished_at : ℕ
  pub duration_ms : ℕ
  pub machine : Text
  pub error : Text
  pub outputs : Map Output

pub record AuditEntry : Type 0 where
  pub timestamp : ℕ
  pub step : Text
  pub action : Text
  pub machine : Text
  pub duration_ms : ℕ
  pub message : Text
  pub error : Text

pub record EnvironmentEntry : Type 0 where
  pub name : Text
  pub mode : Text
  pub branch : Text
  pub status : EnvironmentStatus
  pub created_at : ℕ
  pub updated_at : ℕ
  pub ports : PortMap
  pub provisioner_outputs : Map (Map Text)
  pub compute : Option ComputeAccessInfo
  pub env : Map Text
  pub enabled_services : List Text
  pub steps : Map StepRecord
  pub audit_log : List AuditEntry

-- The byte that `SanitizeName` writes for `c`.
sanitize_byte : ℕ → ℕ
sanitize_byte c =
    if (leb b'a' c && leb c b'z') || ((leb b'0' c && leb c b'9') || (eqb c b'-' || eqb c b'_'))
    then c
    else if leb b'A' c && leb c b'Z'
    then c + 32
    else b'_'

unfoldable pub sanitize_name : Text → Text
unfolding sanitize_byte
sanitize_name [] = []
sanitize_name (c ∷ name) = sanitize_byte c ∷ sanitize_name name

unfoldable pub compose_project_name : Text → Text → Text
unfolding sanitize_name
compose_project_name project_name env_name = sanitize_name (project_name ++ (bytes "-" ++ env_name))

unfoldable pub set_env : Text → Text → EnvironmentEntry → EnvironmentEntry
set_env key value e = record e { env = insert key value e.env }

unfoldable pub get_env : Text → EnvironmentEntry → Option Text
get_env key e = lookup key e.env

unfoldable pub is_service_enabled : Text → EnvironmentEntry → Bool
is_service_enabled name e = elem name e.enabled_services

unfoldable pub enable_service : ℕ → Text → EnvironmentEntry → EnvironmentEntry
enable_service now name e =
    if elem name e.enabled_services
    then e
    else record e { enabled_services = e.enabled_services ++ name ∷ []; updated_at = now }

-- The slice without the first element that is `name`.
remove_first : Text → List Text → List Text
remove_first name [] = []
remove_first name (s ∷ ss) = if s == name then ss else s ∷ remove_first name ss

unfoldable pub disable_service : ℕ → Text → EnvironmentEntry → EnvironmentEntry
unfolding remove_first
disable_service now name e =
    if elem name e.enabled_services
    then record e { enabled_services = remove_first name e.enabled_services; updated_at = now }
    else e

unfoldable pub worktree_path : EnvironmentEntry → Text
worktree_path e = elim e.compute [ none ↦ [] | some c ↦ c.path ]

unfoldable pub is_managed_worktree : EnvironmentEntry → Bool
is_managed_worktree e = elim e.compute [ none ↦ false | some c ↦ c.managed_worktree ]

abbrev pub is_completed : StepRecordStatus → Bool
is_completed completed = true
is_completed failed = false
is_completed invalidated = false

unfoldable pub step_completed : Text → EnvironmentEntry → Bool
step_completed name e = elim (lookup name e.steps) [ none ↦ false | some r ↦ is_completed r.status ]

unfoldable pub set_step_record : StepRecord → EnvironmentEntry → EnvironmentEntry
set_step_record rec e = record e {
  steps = insert rec.name rec e.steps;
  updated_at = rec.finished_at;
}

unfoldable pub append_audit : AuditEntry → EnvironmentEntry → EnvironmentEntry
append_audit entry e = record e { audit_log = e.audit_log ++ entry ∷ [] }

-- The outputs of a completed step; a missing map and an empty one are read alike.
unfoldable pub step_outputs : Text → EnvironmentEntry → Map Output
step_outputs name e = elim (lookup name e.steps) [
  | none ↦ []
  | some r ↦ if is_completed r.status then r.outputs else []
]

-- An audit entry that has neither a duration nor an error.
abbrev pub note : ℕ → Text → Text → Text → Text → AuditEntry
note now machine step action message = record {
  timestamp = now;
  step = step;
  action = action;
  machine = machine;
  duration_ms = 0;
  message = message;
  error = [];
}

-- The two readings of the clock are `finished` and `now`. The result says whether the step was
-- completed before.
unfoldable pub invalidate_step :
    (finished now : ℕ) (machine name reason : Text) → EnvironmentEntry → EnvironmentEntry × Bool
unfolding step_completed set_step_record append_audit
invalidate_step finished now machine name reason e =
    if step_completed name e
    then (
      append_audit (note now machine name (bytes "invalidated") reason) (
          set_step_record
            (record {
              name = name;
              status = invalidated;
              started_at = 0;
              finished_at = finished;
              duration_ms = 0;
              machine = [];
              error = [];
              outputs = [];
            })
            e),
      true,
    )
    else (e, false)

-- The loop of `InvalidateStepsFrom`; `clock` gives the reading for each step of the list.
invalidate_from : (Text → ℕ) → Text → Text → Bool → List Text → EnvironmentEntry → EnvironmentEntry
unfolding append_audit
invalidate_from clock machine step_name found [] e = e
invalidate_from clock machine step_name found (s ∷ rest) e =
    let found' = found || (s == step_name) in
    let reason = bytes "Invalidated due to --from " ++ step_name in
    invalidate_from clock machine step_name found' rest (
      if found'
      then append_audit (note (clock s) machine s (bytes "invalidated") reason)
          (record e { steps = erase s e.steps })
      else e)

unfoldable pub invalidate_steps_from :
    (Text → ℕ) → Text → Text → List Text → EnvironmentEntry → EnvironmentEntry
unfolding invalidate_from
invalidate_steps_from clock machine step_name ordered_steps e =
    invalidate_from clock machine step_name false ordered_steps e
