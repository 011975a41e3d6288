-- ===== src/Validate.antt =====
-- src/domain/validate.go: the deep validation of a configuration. `ValidationError` is the list of
-- its messages, which each check extends at its end.
pub mod Renders
mod Accepted
pub mod Samples
use previewctl.Base.{
  ℕ, zero, suc, ◌+◌, ◌-◌, ◌*◌, ◌/◌, ◌%◌, ◌^◌, ◌≤◌, ◌<◌, Bool, true, false, ◌&&◌, ◌||◌, not, Option,
  none, some, List, [], ◌∷◌, ◌++◌, map, reverse, ◌≡◌, refl, sym, ap, ◌∙◌, subst, ◌≢◌, ◌↔◌, ◌⊎◌, inl,
  inr, arith, Text, bytes, ◌==◌, eq_iff, eq_refl, Map, lookup, insert, erase, keys, lookup-insert,
  lookup-erase, HasUniqueKeys, if◌then◌else◌, ltb, leb, eqb, is_some, get_or, Bool-cases,
  Option-cases, length, elem, count, All, Result, ok, err, String, has_prefix, join, trim_space,
}
use previewctl.Config.{
  ProjectConfig, ServiceConfig, ProvisionerServiceConfig, InfraService, is_empty,
}
use previewctl.Graph.{topological_sort}
use previewctl.Template.{Segment, literal, placeholder, segments, var_parts}
use previewctl.Ports.{decimal}

-- The name of the place that a message is about, as in `service 'web'`.
abbrev about : String → Text → Text
about kind name = bytes kind ++ (bytes " '" ++ (name ++ bytes "'"))

-- `filepath.IsAbs`
abbrev pub is_abs : Text → Bool
is_abs s = has_prefix s (bytes "/")

-- `validateRequired`: the fields of the project.
required_fields : ProjectConfig → List Text
required_fields cfg =
    (if is_empty cfg.name then bytes "'name' is required" ∷ [] else [])
    ++ ((if eqb cfg.version 0 then bytes "'version' is required" ∷ [] else [])
        ++ (if not (eqb cfg.version 0) && not (eqb cfg.version 1)
            then (bytes "unsupported config version "
                ++ (decimal cfg.version ++ bytes " (supported: 1)"))
              ∷ []
            else []))

required_services : Map ServiceConfig → List Text
required_services [] = []
required_services ((name, svc) ∷ services) =
    (if is_empty svc.path then (about "service" name ++ bytes ": 'path' is required") ∷ [] else [])
    ++ ((if not (is_empty svc.env_file) && is_abs svc.env_file
          then (about "service" name
              ++ (bytes ": env_file must be a relative path, got '" ++ (svc.env_file ++ bytes "'")))
            ∷ []
          else [])
        ++ required_services services)

required_outputs : Map ProvisionerServiceConfig → List Text
required_outputs [] = []
required_outputs ((name, svc) ∷ services) =
    (if is_empty svc.outputs
      then (about "provisioner service" name ++ bytes ": 'outputs' is required") ∷ []
      else [])
    ++ required_outputs services

unfoldable pub validate_required : ProjectConfig → List Text
unfolding required_fields required_services required_outputs
validate_required cfg =
    required_fields cfg
    ++ (required_services cfg.services
        ++ (required_outputs cfg.provisioner.services ++ elim cfg.infrastructure [
          | none ↦ []
          | some infra ↦
              if is_empty infra.compose_file
              then bytes "infrastructure.compose_file is required when infrastructure is configured"
                ∷ []
              else []
        ]))

-- The owners of each port, `portOwners`.
unfoldable pub add_owner : ℕ → Text → List (ℕ × List Text) → List (ℕ × List Text)
add_owner port owner [] = (port, owner ∷ []) ∷ []
add_owner port owner ((p, owners) ∷ rest) =
    let rest' = add_owner port owner rest in
    if eqb p port then (p, owners ++ owner ∷ []) ∷ rest else (p, owners) ∷ rest'

unfoldable pub port_owners : List (ℕ × List Text) → Map InfraService → List (ℕ × List Text)
unfolding add_owner
port_owners owners [] = owners
port_owners owners ((name, infra) ∷ services) =
    port_owners (add_owner infra.port (about "infrastructure" name) owners) services

unfoldable pub report_collisions : List (ℕ × List Text) → List Text
report_collisions [] = []
report_collisions ((port, owners) ∷ rest) =
    (if ltb 1 (length owners)
      then (bytes "base port "
          ++ (decimal port ++ (bytes " is used by multiple entries: " ++ join (bytes ", ") owners)))
        ∷ []
      else [])
    ++ report_collisions rest

unfoldable pub validate_port_collisions : ProjectConfig → List Text
unfolding port_owners report_collisions
validate_port_collisions cfg = report_collisions (port_owners [] cfg.infra_services)

-- The loop over the dependencies of one service.
unfoldable pub check_dependencies : (Text → Bool) → Text → List Text → List Text
check_dependencies known name [] = []
check_dependencies known name (dep ∷ deps) =
    (if known dep
      then []
      else (about "service" name ++ (bytes ": depends on unknown service '" ++ (dep ++ bytes "'")))
        ∷ [])
    ++ ((if dep == name
          then (about "service" name ++ bytes ": cannot depend on itself") ∷ []
          else [])
        ++ check_dependencies known name deps)

unfoldable pub check_services : (Text → Bool) → Map ServiceConfig → List Text
unfolding check_dependencies
check_services known [] = []
check_services known ((name, svc) ∷ services) =
    check_dependencies known name svc.depends_on ++ check_services known services

-- `known`: a service of the project, of the infrastructure or of the provisioner.
unfoldable pub is_known : ProjectConfig → Text → Bool
is_known cfg name =
    is_some (lookup name cfg.services)
    || (is_some (lookup name cfg.infra_services) || is_some (lookup name cfg.provisioner.services))

unfoldable pub validate_dependency_refs : ProjectConfig → List Text
unfolding is_known check_services
validate_dependency_refs cfg =
    check_services (is_known cfg) cfg.services
    ++ (if is_empty cfg.services then [] else elim (topological_sort cfg.services) [
      | none ↦ []
      | some (ok order) ↦ []
      | some (err e) ↦ (bytes "dependency cycle detected: " ++ e) ∷ []
    ])

-- The places of a placeholder, for the messages.
abbrev invalid : Text → Text → Text → Text → Text
invalid name key path expected =
    about "service" name
    ++ (bytes " env '"
        ++ (key
            ++ (bytes "': invalid template var '{{"
                ++ (path ++ (bytes "}}' — expected " ++ expected)))))

abbrev unknown : Text → Text → Text → String → Text → Text
unknown name key path what referred =
    about "service" name
    ++ (bytes " env '"
        ++ (key
            ++ (bytes "': "
                ++ (bytes what
                    ++ (bytes " '" ++ (referred ++ (bytes "' in '{{" ++ (path ++ bytes "}}'"))))))))

abbrev message_if : Bool → Text → List Text
message_if b message = if b then message ∷ [] else []

-- The cases of the switch: what is said of the parts behind the namespace.
unfoldable pub check_self : Text → Text → Text → List Text → List Text
check_self name key path (port ∷ []) =
    message_if (not (port == bytes "port")) (invalid name key path (bytes "{{self.port}}"))
check_self name key path rest = invalid name key path (bytes "{{self.port}}") ∷ []

unfoldable pub check_port :
    (Text → Bool) → String → Text → Text → Text → Text → List Text → List Text
check_port valid what expected name key path (referred ∷ port ∷ []) =
    if not (port == bytes "port")
    then invalid name key path expected ∷ []
    else message_if (not (valid referred)) (unknown name key path what referred)
check_port valid what expected name key path rest = invalid name key path expected ∷ []

unfoldable pub check_provisioner :
    Map ProvisionerServiceConfig → Text → Text → Text → List Text → List Text
check_provisioner provisioners name key path (service ∷ output ∷ []) =
    elim (lookup service provisioners) [
      | none ↦ unknown name key path "references unknown provisioner service" service ∷ []
      | some svc ↦ message_if (not (elem output svc.outputs)) (
          unknown name key path "unknown output"
            (output ++ (bytes "' for provisioner service '" ++ service)))
    ]
check_provisioner provisioners name key path rest =
    invalid name key path (bytes "{{provisioner.<service>.<OUTPUT>}}") ∷ []

unfoldable pub check_parts : ProjectConfig → Text → Text → Text → List Text → List Text
unfolding check_self check_port check_provisioner
check_parts cfg name key path [] = []
check_parts cfg name key path (space ∷ rest) =
    if space == bytes "self"
    then check_self name key path rest
    else if space == bytes "services"
    then check_port (λ (s : Text). is_some (lookup s cfg.services)) "references unknown service"
        (bytes "{{services.<name>.port}}") name key path rest
    else if space == bytes "infrastructure"
    then check_port (λ (s : Text). is_some (lookup s cfg.infra_services))
        "references unknown infrastructure" (bytes "{{infrastructure.<name>.port}}") name key path
        rest
    else if space == bytes "provisioner"
    then check_provisioner cfg.provisioner.services name key path rest
    else unknown name key path "unknown template namespace" space ∷ []

-- The loops over the matches of a value, the variables of a service, and the services.
unfoldable pub check_segments : ProjectConfig → Text → Text → List Segment → List Text
unfolding var_parts
check_segments cfg name key [] = []
check_segments cfg name key (literal c ∷ rest) = check_segments cfg name key rest
check_segments cfg name key (placeholder var ∷ rest) =
    check_parts cfg name key (trim_space var) (var_parts var) ++ check_segments cfg name key rest

unfoldable pub check_env : ProjectConfig → Text → Map Text → List Text
unfolding check_segments
check_env cfg name [] = []
check_env cfg name ((key, val) ∷ env) =
    check_segments cfg name key (segments val) ++ check_env cfg name env

unfoldable pub check_envs : ProjectConfig → Map ServiceConfig → List Text
unfolding check_env
check_envs cfg [] = []
check_envs cfg ((name, svc) ∷ services) =
    check_env cfg name (get_or svc.env []) ++ check_envs cfg services

unfoldable pub validate_template_vars : ProjectConfig → List Text
unfolding check_envs
validate_template_vars cfg = check_envs cfg cfg.services

-- The messages of `ValidateConfig`; it accepts when there is none.
unfoldable pub validation_errors : ProjectConfig → List Text
unfolding validate_required validate_port_collisions validate_dependency_refs validate_template_vars
validation_errors cfg =
    validate_required cfg
    ++ (validate_port_collisions cfg
        ++ (validate_dependency_refs cfg ++ validate_template_vars cfg))
