-- ===== src/ComposeFile.antt =====
-- src/domain/compose_generator.go: the docker compose file of the services. `filepath.Join` is a
-- parameter.

pub mod Order
mod Samples
use previewctl.Base.{
  sort, ◌>>=◌, ℕ, zero, suc, ◌+◌, ◌-◌, ◌*◌, ◌/◌, ◌%◌, ◌^◌, ◌≤◌, ◌<◌, Bool, true, false, ◌&&◌, ◌||◌,
  not, Option, none, some, List, [], ◌∷◌, ◌++◌, map, reverse, ◌≡◌, refl, sym, ap, ◌∙◌, subst, ◌≢◌,
  ◌↔◌, ◌⊎◌, inl, inr, arith, Text, bytes, ◌==◌, eq_iff, eq_refl, Map, lookup, insert, erase, keys,
  lookup-insert, lookup-erase, HasUniqueKeys, if◌then◌else◌, ltb, leb, eqb, is_some, get_or,
  Bool-cases, Option-cases, length, elem, count, All, Result, ok, err,
}
use previewctl.Config.{
  is_empty, ProjectConfig, ServiceConfig, is_enabled, resolved_type, resolved_env_file,
}
use previewctl.Manifest.{Manifest, ports_where, proxy_domain_of}
use previewctl.Template.{TemplateContext, render_template}

-- A line of the file.
abbrev pub ln : Text → Text → Text
ln line rest = line ++ (0x0a ∷ rest)

-- The names of the services that have a start command.
unfoldable pub startable : Map ServiceConfig → List Text
startable [] = []
startable ((name, svc) ∷ services) =
    let rest = startable services in if is_empty svc.start then rest else name ∷ rest

-- Lines and what comes behind them.
unfoldable pub lines : List Text → Text → Text
lines [] rest = rest
lines (line ∷ ls) rest = ln line (lines ls rest)

-- The proxy's section.
unfoldable pub proxy_section : Text
unfolding lines
proxy_section =
    lines
      (bytes "  nginx:"
        ∷ bytes "    image: nginx:alpine"
        ∷ bytes "    network_mode: host"
        ∷ bytes "    volumes:"
        ∷ bytes "      - ./preview/nginx.conf:/etc/nginx/conf.d/default.conf:ro"
        ∷ bytes "      - ./preview/error-pages:/app/preview/error-pages:ro"
        ∷ bytes "    healthcheck:"
        ∷ (bytes "      test: [\"CMD\", \"wget\", \"-q\", \"-T\", \"2\", \"-t\", \"1\", "
            ++ bytes "\"--spider\", \"http://127.0.0.1:80/health\"]")
        ∷ bytes "      interval: 5s"
        ∷ bytes "      timeout: 3s"
        ∷ bytes "      retries: 5"
        ∷ bytes "      start_period: 5s"
        ∷ bytes "    restart: unless-stopped"
        ∷ []
        ∷ [])
      []

-- The context of a service's start command; it has no store.
unfoldable pub start_context : ProjectConfig → Manifest → Text → TemplateContext
unfolding ports_where proxy_domain_of
start_context cfg manifest name = record {
  service_ports =
      ports_where (λ (port_name : Text). is_some (lookup port_name cfg.services)) manifest.ports;
  infra_ports =
      ports_where (λ (port_name : Text). not (is_some (lookup port_name cfg.services)))
        manifest.ports;
  provisioner_outputs = manifest.provisioner_outputs;
  current_service = name;
  env_name = manifest.env_name;
  store = [];
  proxy_domain = proxy_domain_of cfg;
}

module _ (join_path : Text → Text → Text) where
  -- The section of a service, whose start command is rendered.
  unfoldable pub service_section : Text → Bool → Text → ServiceConfig → Text → Text
  unfolding resolved_env_file lines
  service_section image proxy_enabled name svc command =
      lines
        ((bytes "  " ++ (name ++ bytes ":"))
          ∷ (bytes "    image: " ++ image)
          ∷ bytes "    volumes:"
          ∷ bytes "      - .:/app"
          ∷ bytes "    network_mode: host"
          ∷ (bytes "    working_dir: /app/" ++ svc.path)
          ∷ (bytes "    command: " ++ command)
          ∷ bytes "    env_file:"
          ∷ (bytes "      - " ++ join_path svc.path (bytes ".env"))
          ∷ (bytes "      - " ++ join_path svc.path (resolved_env_file svc))
          ∷ [])
        (lines
          (if proxy_enabled
            then bytes "    depends_on:"
              ∷ bytes "      nginx:"
              ∷ bytes "        condition: service_healthy"
              ∷ []
            else [])
          (lines (bytes "    restart: unless-stopped" ∷ [] ∷ []) []))

  -- The loop over the names. A name that is no service's has the zero configuration in Go, which the
  -- names of `startable` do not reach.
  unfoldable pub service_sections :
      ProjectConfig → Manifest → (image : Text) → (proxy_enabled : Bool) → List Text → Result Text
  unfolding start_context service_section
  service_sections cfg manifest image proxy_enabled [] = ok []
  service_sections cfg manifest image proxy_enabled (name ∷ names) =
      let rest = service_sections cfg manifest image proxy_enabled names in
      elim (lookup name cfg.services) [
        | none ↦ rest
        | some svc ↦ elim (render_template svc.start (start_context cfg manifest name)) [
          | err e ↦ err (bytes "rendering start command for '" ++ (name ++ (bytes "': " ++ e)))
          | ok command ↦ rest >>= λ sections.
              ok (service_section image proxy_enabled name svc command ++ sections)
        ]
      ]

  -- `GenerateComposeFile`
  unfoldable pub generate_compose_file : ProjectConfig → Manifest → Result Text
  unfolding proxy_section startable service_sections
  generate_compose_file cfg manifest = elim cfg.runner [
    | none ↦ err (bytes "runner.compose is not configured")
    | some runner ↦ elim runner.compose [
      | none ↦ err (bytes "runner.compose is not configured")
      | some compose ↦
          let enabled = is_enabled compose.proxy in
          let type = resolved_type compose.proxy in
          let sections =
            service_sections cfg manifest compose.image enabled (sort (startable cfg.services)) in
          if is_empty compose.image
          then err (bytes "runner.compose.image is required")
          else if enabled && not (type == bytes "nginx")
          then err (bytes "unsupported proxy type: " ++ type)
          else (sections >>= λ text. ok (
              ln (bytes "# Generated by previewctl — do not edit")
                (ln (bytes "services:") ((if enabled then proxy_section else []) ++ text))))
    ]
  ]
