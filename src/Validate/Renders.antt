-- ===== src/Validate/Renders.antt =====
-- The checks of src/domain/validate.go against the resolution of
-- src/domain/template.go.
use previewctl.Base.{
  is_ok, split-cons, ℕ, Bool, true, false, none, some, List, [], ◌∷◌, ◌++◌, ◌≡◌, refl, arith, Text,
  bytes, ◌==◌, eq_iff, Map, lookup, is_some, get_or, elem, String, trim_space,
}
use previewctl.Config.{ProjectConfig, ServiceConfig, is_empty}
use previewctl.Template.{
  Segment, literal, placeholder, segments, var_parts, TemplateContext, resolve_var, resolve_self,
  resolve_port, resolve_provisioner_var, self_port, placeholder_value, render_segments,
  render_template, render_env_map,
}
use previewctl.Validate.{
  check_self, check_port, check_provisioner, check_parts, check_segments, check_env, check_envs,
  validate_template_vars, validation_errors, validate_required, validate_port_collisions,
  validate_dependency_refs,
}

-- The context has a value for all that the configuration declares, and a current service.
pub record Supplies (cfg : ProjectConfig) (ctx : TemplateContext) : Type 0 where
  pub service_port :
      (s : Text)
      → is_some (lookup s cfg.services) ≡ true
      → is_some (lookup s ctx.service_ports) ≡ true
  pub infra_port :
      (s : Text)
      → is_some (lookup s cfg.infra_services) ≡ true
      → is_some (lookup s ctx.infra_ports) ≡ true
  pub output :
      (s o : Text)
      → elem o (elim (lookup s cfg.provisioner.services) [ none ↦ [] | some svc ↦ svc.outputs ])
        ≡ true
      → is_some (lookup o (get_or (lookup s ctx.provisioner_outputs) [])) ≡ true
  pub current : is_empty ctx.current_service ≡ false
  pub current_port : is_some (lookup ctx.current_service ctx.service_ports) ≡ true

env-provisioner : (bytes "env" == bytes "provisioner") ≡ false
unfolding bytes ◌==◌
env-provisioner = refl

pub store-provisioner : (bytes "store" == bytes "provisioner") ≡ false
unfolding bytes ◌==◌
store-provisioner = refl

proxy-provisioner : (bytes "proxy" == bytes "provisioner") ≡ false
unfolding bytes ◌==◌
proxy-provisioner = refl

module _ (cfg : ProjectConfig) (ctx : TemplateContext) (sup : Supplies cfg ctx)
    (name key path : Text) where
  self-is_ok :
      (rest : List Text) → check_self name key path rest ≡ [] → is_ok (resolve_self rest ctx) ≡ true
  unfolding check_self resolve_self self_port
  self-is_ok [] h = absurd (cc (h))
  self-is_ok (p ∷ []) h = ground (arith, sup.current, sup.current_port, h)
  self-is_ok (p ∷ q ∷ r) h = absurd (cc (h))

  port-is_ok :
      (valid : Text → Bool) (ports : Map ℕ) (what : String) (space bad expected : Text)
      → ((s : Text) → valid s ≡ true → is_some (lookup s ports) ≡ true)
      → (rest : List Text) → check_port valid what expected name key path rest ≡ []
      → is_ok (resolve_port space bad ports rest) ≡ true
  unfolding check_port resolve_port
  port-is_ok valid ports what space bad expected sup' [] h = absurd (cc (h))
  port-is_ok valid ports what space bad expected sup' (p ∷ []) h = absurd (cc (h))
  port-is_ok valid ports what space bad expected sup' (s ∷ p ∷ []) h = ground (arith, sup' s, h)
  port-is_ok valid ports what space bad expected sup' (p ∷ q ∷ r ∷ t) h = absurd (cc (h))

  provisioner-is_ok :
      (rest : List Text)
      → check_provisioner cfg.provisioner.services name key path rest ≡ []
      → is_ok (resolve_provisioner_var rest ctx) ≡ true
  unfolding check_provisioner resolve_provisioner_var lookup
  provisioner-is_ok [] h = absurd (cc (h))
  provisioner-is_ok (p ∷ []) h = absurd (cc (h))
  provisioner-is_ok (s ∷ o ∷ []) h = ground (arith, sup.output s o, h)
  provisioner-is_ok (p ∷ q ∷ r ∷ t) h = absurd (cc (h))

  parts-is_ok :
      (space : Text) (rest : List Text)
      → check_parts cfg name key path (space ∷ rest) ≡ []
      → is_ok (resolve_var (space ∷ rest) ctx) ≡ true
  unfolding check_parts resolve_var
  parts-is_ok space rest h = ground (
    arith,
    eq_iff space (bytes "self"),
    self-is_ok rest,
    port-is_ok (λ (s : Text). is_some (lookup s cfg.services)) ctx.service_ports
        "references unknown service" (bytes "services") (bytes "unknown service '")
        (bytes "{{services.<name>.port}}") sup.service_port rest,
    port-is_ok (λ (s : Text). is_some (lookup s cfg.infra_services)) ctx.infra_ports
        "references unknown infrastructure" (bytes "infrastructure")
        (bytes "unknown infrastructure service '") (bytes "{{infrastructure.<name>.port}}")
        sup.infra_port rest,
    provisioner-is_ok rest,
    eq_iff space (bytes "env"),
    eq_iff space (bytes "store"),
    eq_iff space (bytes "proxy"),
    eq_iff space (bytes "provisioner"),
    env-provisioner,
    store-provisioner,
    proxy-provisioner,
    h,
  )

pub append-nil_left : {A : Type 0} (xs ys : List A) → xs ++ ys ≡ [] → (xs ≡ []) × (ys ≡ [])
append-nil_left [] ys e = (refl, e)
append-nil_left (x ∷ xs) ys e = absurd (cc (e))

module _ (cfg : ProjectConfig) (ctx : TemplateContext) (sup : Supplies cfg ctx)
    (name key : Text) where
  value-is_ok :
      (var : Text)
      → check_parts cfg name key (trim_space var) (var_parts var) ≡ []
      → is_ok (placeholder_value var ctx) ≡ true
  unfolding placeholder_value var_parts
  value-is_ok var h =
      let parts = split-cons b'.' (trim_space var) in
      ground (arith, parts.2, parts-is_ok cfg ctx sup name key (trim_space var) parts.0 parts.1, h)

  segments-is_ok :
      (ss : List Segment)
      → check_segments cfg name key ss ≡ []
      → is_ok (render_segments ss ctx) ≡ true
  unfolding check_segments render_segments
  segments-is_ok [] h = refl
  segments-is_ok (literal c ∷ ss) h = ground (arith, segments-is_ok ss h)
  segments-is_ok (placeholder var ∷ ss) h =
      let both =
        append-nil_left (check_parts cfg name key (trim_space var) (var_parts var))
          (check_segments cfg name key ss) h in
      ground (arith, value-is_ok var both.0, segments-is_ok ss both.1)

-- One service.
env-is_ok :
    (cfg : ProjectConfig) (ctx : TemplateContext) (sup : Supplies cfg ctx) (name : Text)
    (env : Map Text)
    → check_env cfg name env ≡ []
    → is_ok (render_env_map env ctx) ≡ true
unfolding check_env render_env_map render_template
env-is_ok cfg ctx sup name [] h = refl
env-is_ok cfg ctx sup name ((key, val) ∷ env) h =
    let both =
      append-nil_left (check_segments cfg name key (segments val)) (check_env cfg name env) h in
    ground (
      arith,
      segments-is_ok cfg ctx sup name key (segments val) both.0,
      env-is_ok cfg ctx sup name env both.1,
    )

envs-nil :
    (cfg : ProjectConfig) (services : Map ServiceConfig) (name : Text) (svc : ServiceConfig)
    → check_envs cfg services ≡ []
    → lookup name services ≡ some svc
    → check_env cfg name (get_or svc.env []) ≡ []
unfolding check_envs lookup
envs-nil cfg [] name svc h m = absurd (cc (m))
envs-nil cfg ((n, s) ∷ services) name svc h m =
    let both = append-nil_left (check_env cfg n (get_or s.env [])) (check_envs cfg services) h in
    ground (arith, both.0, envs-nil cfg services name svc both.1, m, eq_iff n name)

-- What `ValidateConfig` accepts renders. For a service of a configuration with no
-- validation error, `RenderEnvMap` returns no error for its variables in any context that has the
-- service as its current one and a port or an output for each that the configuration declares.
pub accepted-render_env_map :
    (cfg : ProjectConfig) (ctx : TemplateContext) (svc : ServiceConfig)
    → validation_errors cfg ≡ []
    → Supplies cfg ctx
    → lookup ctx.current_service cfg.services ≡ some svc
    → is_ok (render_env_map (get_or svc.env []) ctx) ≡ true
unfolding validation_errors validate_template_vars
accepted-render_env_map cfg ctx svc h sup m =
    let rest = (append-nil_left (validate_required cfg) _ h).1 in
    let refs = (append-nil_left (validate_port_collisions cfg) _ rest).1 in
    let e = (append-nil_left (validate_dependency_refs cfg) _ refs).1 in
    env-is_ok cfg ctx sup ctx.current_service (get_or svc.env [])
      (envs-nil cfg cfg.services ctx.current_service svc e m)
