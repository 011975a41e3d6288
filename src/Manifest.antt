-- ===== src/Manifest.antt =====
-- src/domain/manifest.go: the manifest of an environment and the env files that come from it.
-- `filepath.Join` is a parameter. Encoding as JSON belongs to the library.
mod Build
mod Files
mod Samples
use previewctl.Config.{is_empty, ProjectConfig, ServiceConfig, resolved_env_file}
use previewctl.Ports.{PortMap}
use previewctl.Template.{TemplateContext, render_env_map}
use previewctl.Base.{
  ℕ, zero, suc, ◌+◌, ◌-◌, ◌*◌, ◌/◌, ◌%◌, ◌^◌, ◌≤◌, ◌<◌, Bool, true, false, ◌&&◌, ◌||◌, not, Option,
  none, some, List, [], ◌∷◌, ◌++◌, map, reverse, ◌≡◌, refl, sym, ap, ◌∙◌, subst, ◌≢◌, ◌↔◌, ◌⊎◌, inl,
  inr, arith, Text, bytes, ◌==◌, eq_iff, eq_refl, Map, lookup, insert, erase, keys, lookup-insert,
  lookup-erase, HasUniqueKeys, if◌then◌else◌, ltb, leb, eqb, is_some, get_or, Bool-cases,
  Option-cases, length, elem, count, All, Result, ok, err, sort, ◌>>=◌,
}

pub record ManifestService : Type 0 where
  pub path : Text
  pub env_file : Text
  pub env : Option (Map Text)

pub record ManifestInfrastructure : Type 0 where
  pub compose_file : Text

pub record Manifest : Type 0 where
  pub version : ℕ
  pub env_name : Text
  pub project_name : Text
  pub branch : Text
  pub mode : Text
  pub ports : PortMap
  pub provisioner_outputs : Map (Map Text)
  pub services : Map ManifestService
  pub infrastructure : Option ManifestInfrastructure
  pub enabled_services : List Text

-- The two port maps: the ports whose name is, or is not, that of a service.
unfoldable pub ports_where : (Text → Bool) → PortMap → PortMap
ports_where keep [] = []
ports_where keep ((name, port) ∷ ports) =
    let rest = ports_where keep ports in if keep name then (name, port) ∷ rest else rest

unfoldable pub proxy_domain_of : ProjectConfig → Text
proxy_domain_of cfg = elim cfg.runner [
  | none ↦ []
  | some runner ↦ elim runner.compose [
    | none ↦ []
    | some compose ↦ elim compose.proxy [ none ↦ [] | some proxy ↦ proxy.domain ]
  ]
]

unfoldable pub template_context :
    ProjectConfig → Text → PortMap → Map (Map Text) → Map Text → TemplateContext
unfolding ports_where proxy_domain_of
template_context cfg env_name ports provisioner_outputs store = record {
  service_ports = ports_where (λ (name : Text). is_some (lookup name cfg.services)) ports;
  infra_ports = ports_where (λ (name : Text). not (is_some (lookup name cfg.services))) ports;
  provisioner_outputs = provisioner_outputs;
  current_service = [];
  env_name = env_name;
  store = store;
  proxy_domain = proxy_domain_of cfg;
}

-- The variables of one service. A service without a mapping does not become the current one, which
-- no later service reads: each that renders sets it first.
unfoldable pub service_env : TemplateContext → Text → ServiceConfig → Result (Option (Map Text))
service_env ctx name svc = elim svc.env [
  | none ↦ ok none
  | some env ↦ elim (render_env_map env (record ctx { current_service = name })) [
    | ok rendered ↦ ok (some rendered)
    | err e ↦ err (bytes "rendering env for service '" ++ (name ++ (bytes "': " ++ e)))
  ]
]

-- The loop over the services; the first error ends it.
unfoldable pub manifest_services :
    TemplateContext → Map ServiceConfig → Result (Map ManifestService)
unfolding service_env resolved_env_file
manifest_services ctx [] = ok []
manifest_services ctx ((name, svc) ∷ services) =
    let rest = manifest_services ctx services in
    service_env ctx name svc >>= λ env. rest >>= λ built.
    ok ((name, record { path = svc.path; env_file = resolved_env_file svc; env = env }) ∷ built)

unfoldable pub build_manifest :
    ProjectConfig
    → (env_name branch mode : Text) → PortMap
    → Map (Map Text)
    → Map Text
    → Result Manifest
unfolding template_context manifest_services
build_manifest cfg env_name branch mode ports provisioner_outputs store =
    manifest_services (template_context cfg env_name ports provisioner_outputs store) cfg.services
    >>= λ services. ok (record {
      version = 1;
      env_name = env_name;
      project_name = cfg.name;
      branch = branch;
      mode = mode;
      ports = ports;
      provisioner_outputs = provisioner_outputs;
      services = services;
      infrastructure = elim cfg.infrastructure [
        | none ↦ none
        | some infra ↦
            if is_empty infra.compose_file
            then none
            else some (record { compose_file = infra.compose_file })
      ];
      enabled_services = [];
    })

-- The lines of an env file, in the order of `names`.
unfoldable pub env_lines : Map Text → List Text → Text
env_lines env [] = []
env_lines env (name ∷ names) =
    name ++ (bytes "=" ++ (get_or (lookup name env) [] ++ (0x0a ∷ env_lines env names)))

unfoldable pub render_env_file_content : Map Text → Text
unfolding env_lines
render_env_file_content env =
    bytes "# Generated by previewctl — do not edit" ++ (0x0a ∷ env_lines env (sort (keys env)))

-- The loop `for k, v := range svc.Env { files[target][k] = v }`.
unfoldable pub add_variables : Map Text → Map Text → Map Text
add_variables file [] = file
add_variables file ((k, v) ∷ env) = add_variables (insert k v file) env

module _ (join_path : Text → Text → Text) where
  unfoldable pub collect_files : Map (Map Text) → Map ManifestService → Map (Map Text)
  unfolding add_variables
  collect_files files [] = files
  collect_files files ((name, svc) ∷ services) =
      collect_files
        (elim svc.env [
          | none ↦ files
          | some env ↦
              let target = join_path svc.path svc.env_file in
              insert target (add_variables (get_or (lookup target files) []) env) files
        ])
        services

  unfoldable pub env_file_paths : Manifest → Map (Map Text)
  unfolding collect_files
  env_file_paths m = collect_files [] m.services
