-- ===== src/Manifest/Build.antt =====
-- `BuildManifest` of src/domain/manifest.go on an accepted configuration.
use previewctl.Base.{
  is_ok, Bool, true, false, not, none, some, [], ◌∷◌, ◌++◌, ◌≡◌, refl, arith, Text, bytes, ◌==◌,
  eq_iff, eq_refl, Map, lookup, HasUniqueKeys, if◌then◌else◌, is_some, get_or, elem, err,
}
use previewctl.Config.{ProjectConfig, ServiceConfig, is_empty}
use previewctl.Template.{resolve_var, resolve_port}
use previewctl.Manifest.{
  ports_where, template_context, service_env, manifest_services, build_manifest,
}
use previewctl.Validate.{validation_errors}
use previewctl.Validate.Renders.{Supplies, accepted-render_env_map}
use previewctl.Ports.{PortMap}

infrastructure_self : (bytes "infrastructure" == bytes "self") ≡ false
unfolding bytes ◌==◌
infrastructure_self = refl

infrastructure_services : (bytes "infrastructure" == bytes "services") ≡ false
unfolding bytes ◌==◌
infrastructure_services = refl

lookup-ports_where :
    (keep : Text → Bool) (ports : PortMap) (name : Text)
    → lookup name (ports_where keep ports) ≡ (if keep name then lookup name ports else none)
unfolding lookup ports_where
lookup-ports_where keep [] name = ground arith
lookup-ports_where keep ((n, p) ∷ ports) name =
    ground (arith, eq_iff n name, lookup-ports_where keep ports name)

-- What `BuildManifest` is given for a configuration: a port for each service and each
-- infrastructure service, whose names differ from those of the services, and each declared output.
pub record IsSupplied (cfg : ProjectConfig) (ports : PortMap) (outputs : Map (Map Text))
    : Type 0 where
  pub service_port :
      (s : Text) → is_some (lookup s cfg.services) ≡ true → is_some (lookup s ports) ≡ true
  pub infra_port :
      (s : Text) → is_some (lookup s cfg.infra_services) ≡ true → is_some (lookup s ports) ≡ true
  pub apart :
      (s : Text)
      → is_some (lookup s cfg.infra_services) ≡ true
      → is_some (lookup s cfg.services) ≡ false
  pub output :
      (s o : Text)
      → elem o (elim (lookup s cfg.provisioner.services) [ none ↦ [] | some svc ↦ svc.outputs ])
        ≡ true
      → is_some (lookup o (get_or (lookup s outputs) [])) ≡ true
  pub named : is_some (lookup [] cfg.services) ≡ false

module _ (cfg : ProjectConfig) (env_name : Text) (ports : PortMap) (outputs : Map (Map Text))
    (store : Map Text) (given : IsSupplied cfg ports outputs) where
  current : (name : Text) → is_some (lookup name cfg.services) ≡ true → is_empty name ≡ false
  current [] m = ground (arith, given.named)
  current (x ∷ name) m = refl

  service-Supplies :
      (name : Text)
      → is_some (lookup name cfg.services) ≡ true
      → Supplies cfg
          (record (template_context cfg env_name ports outputs store) { current_service = name })
  unfolding template_context
  service-Supplies name m = record {
    service_port = λ s h. ground (
      arith,
      lookup-ports_where (λ (n : Text). is_some (lookup n cfg.services)) ports s,
      given.service_port s,
    );
    infra_port = λ s h. ground (
      arith,
      lookup-ports_where (λ (n : Text). not (is_some (lookup n cfg.services))) ports s,
      given.infra_port s,
      given.apart s,
    );
    output = given.output;
    current = current name m;
    current_port = ground (
      arith,
      lookup-ports_where (λ (n : Text). is_some (lookup n cfg.services)) ports name,
      given.service_port name,
    );
  }

  service_env-is_ok :
      (name : Text) (svc : ServiceConfig)
      → validation_errors cfg ≡ []
      → lookup name cfg.services ≡ some svc
      → is_ok (service_env (template_context cfg env_name ports outputs store) name svc) ≡ true
  unfolding service_env
  service_env-is_ok name svc valid m = ground (
    arith,
    accepted-render_env_map cfg
        (record (template_context cfg env_name ports outputs store) { current_service = name }) svc
        valid (service-Supplies name (ground arith)) m,
  )

  manifest_services-is_ok :
      (services : Map ServiceConfig)
      → validation_errors cfg ≡ []
      → HasUniqueKeys services
      → ((name : Text) (svc : ServiceConfig)
          → lookup name services ≡ some svc
          → lookup name cfg.services ≡ some svc)
      → is_ok (manifest_services (template_context cfg env_name ports outputs store) services)
        ≡ true
  unfolding manifest_services lookup
  manifest_services-is_ok [] valid u within = refl
  manifest_services-is_ok ((n, s) ∷ services) valid u within = ground (
    arith,
    service_env-is_ok n s valid (within n s (ground (arith, eq_iff n n))),
    manifest_services-is_ok services valid u.1
        (λ name svc m. within name svc (ground (arith, eq_iff n name, u.0))),
  )

  -- `BuildManifest` returns a manifest for a configuration that `ValidateConfig` accepts and in which
  -- no service occurs twice, if the ports hold each service and each infrastructure service, the
  -- outputs hold each declared one, no service has the empty name, and no infrastructure service has
  -- the name of a service.
  pub accepted-build_manifest :
      (branch mode : Text)
      → HasUniqueKeys cfg.services
      → validation_errors cfg ≡ []
      → is_ok (build_manifest cfg env_name branch mode ports outputs store) ≡ true
  unfolding build_manifest
  accepted-build_manifest branch mode u valid =
      ground (arith, manifest_services-is_ok cfg.services valid u (λ name svc m. m))

-- `BuildManifest` takes the port of every name that is a service's for a service's port. So a
-- variable `{{infrastructure.<name>.port}}` of an infrastructure service that has the name of a
-- service is never resolved, whatever ports there are.
pub shadowed-resolve_var :
    (cfg : ProjectConfig) (env_name : Text) (ports : PortMap) (outputs : Map (Map Text))
    (store : Map Text) (name : Text)
    → is_some (lookup name cfg.services) ≡ true
    → resolve_var
        (bytes "infrastructure" ∷ name ∷ bytes "port" ∷ [])
        (template_context cfg env_name ports outputs store)
      ≡ err (bytes "unknown infrastructure service '" ++ (name ++ bytes "'"))
unfolding resolve_var resolve_port template_context
shadowed-resolve_var cfg env_name ports outputs store name m = ground (
  arith,
  lookup-ports_where (λ (n : Text). not (is_some (lookup n cfg.services))) ports name,
  infrastructure_self,
  infrastructure_services,
  eq_refl (bytes "infrastructure"),
  eq_refl (bytes "port"),
)
