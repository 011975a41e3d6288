-- ===== src/Environment/Samples.antt =====
-- An entry, and the theorems at it.
use previewctl.Base.{
  true, ◌&&◌, ◌||◌, not, none, List, [], ◌∷◌, ◌++◌, map, ◌≡◌, refl, arith, Text, bytes, ◌==◌, elem,
  count,
}
use previewctl.Environment.{
  EnvironmentEntry, StepRecord, StepRecordStatus, EnvironmentStatus, step_completed,
  invalidate_steps_from, is_service_enabled, enable_service, sanitize_name,
}
use previewctl.Environment.Services.{IsSetOfServices, enable_service_lem}
use previewctl.Environment.Steps.{invalidate_steps_from_lem, from_step, logged}

abbrev pub done : Text → StepRecord
done name = record {
  name = name;
  status = StepRecordStatus.completed;
  started_at = 1;
  finished_at = 2;
  duration_ms = 1;
  machine = bytes "host";
  error = [];
  outputs = [];
}

abbrev pub demo : EnvironmentEntry
demo = record {
  name = bytes "demo";
  mode = bytes "local";
  branch = bytes "main";
  status = EnvironmentStatus.creating;
  created_at = 1;
  updated_at = 2;
  ports = [];
  provisioner_outputs = [];
  compute = none;
  env = [];
  enabled_services = bytes "web" ∷ [];
  steps = (bytes "a", done (bytes "a")) ∷ (bytes "b", done (bytes "b")) ∷ [];
  audit_log = [];
}

sanitize_name-demo : sanitize_name (bytes "Feat/Login-1") ≡ bytes "feat_login-1"
unfolding sanitize_name bytes
sanitize_name-demo = refl

demo-IsSetOfServices : IsSetOfServices demo
unfolding count
demo-IsSetOfServices j = ground arith

enable_service_lem_example :
    IsSetOfServices (enable_service 5 (bytes "api") demo)
    × ((j : Text)
        → is_service_enabled j (enable_service 5 (bytes "api") demo)
          ≡ ((bytes "api" == j) || is_service_enabled j demo))
    × (is_service_enabled (bytes "api") demo ≡ true → enable_service 5 (bytes "api") demo ≡ demo)
enable_service_lem_example = enable_service_lem 5 (bytes "api") demo demo-IsSetOfServices

abbrev order : List Text
order = bytes "a" ∷ bytes "b" ∷ []

invalidate_steps_from_lem_example :
    let e' = invalidate_steps_from (λ _. 9) (bytes "host") (bytes "b") order demo in
    ((s : Text)
      → step_completed s e' ≡ (step_completed s demo && not (elem s (from_step (bytes "b") order))))
    × (e'.audit_log
        ≡ [] ++ map (logged (λ _. 9) (bytes "host") (bytes "b")) (from_step (bytes "b") order))
invalidate_steps_from_lem_example =
    invalidate_steps_from_lem (λ _. 9) (bytes "host") (bytes "b") order demo
