-- ===== src/Nginx.antt =====
-- src/domain/nginx_generator.go: the configuration of the proxy, one server for each service.

pub mod Pages
pub mod Servers
mod Samples
use previewctl.Base.{
  sort, ◌>>=◌, ℕ, zero, suc, ◌+◌, ◌-◌, ◌*◌, ◌/◌, ◌%◌, ◌^◌, ◌≤◌, ◌<◌, Bool, true, false, ◌&&◌, ◌||◌,
  not, Option, none, some, List, [], ◌∷◌, ◌++◌, map, reverse, ◌≡◌, refl, sym, ap, ◌∙◌, subst, ◌≢◌,
  ◌↔◌, ◌⊎◌, inl, inr, arith, Text, bytes, ◌==◌, eq_iff, eq_refl, Map, lookup, insert, erase, keys,
  lookup-insert, lookup-erase, HasUniqueKeys, if◌then◌else◌, ltb, leb, eqb, is_some, get_or,
  Bool-cases, Option-cases, length, elem, count, All, Result, ok, err,
}
use previewctl.Config.{is_empty, ProjectConfig, ServiceConfig, ServiceProxy, resolved_target_path}
use previewctl.ComposeFile.{lines}
use previewctl.Manifest.{Manifest}
use previewctl.Ports.{PortMap}
use previewctl.Ports.{decimal}

-- `error_page` and its location, for a page.
abbrev pub page_location : Text → List Text
page_location page =
    (bytes "    location = /" ++ (page ++ bytes " {"))
    ∷ bytes "        root /app/preview/error-pages;"
    ∷ bytes "        internal;"
    ∷ bytes "    }"
    ∷ []

-- The names that are taken as enabled: the ports' when none is.
unfoldable pub enabled_names : Manifest → List Text
enabled_names manifest =
    if is_empty manifest.enabled_services then keys manifest.ports else manifest.enabled_services

unfoldable pub server_name : Text → Text → Text → Text
server_name env_name name domain = env_name ++ (bytes "--" ++ (name ++ (bytes "." ++ domain)))

-- `writeDisabledServerBlock`
unfoldable pub disabled_server_block : Text → Text
unfolding lines
disabled_server_block server =
    lines
      (bytes "server {"
        ∷ bytes "    listen 80;"
        ∷ (bytes "    server_name " ++ (server ++ bytes ";"))
        ∷ []
        ∷ bytes "    error_page 503 /previewctl_503.html;"
        ∷ page_location (bytes "previewctl_503.html"))
      (lines
        ([]
          ∷ bytes "    location / {"
          ∷ bytes "        return 503;"
          ∷ bytes "    }"
          ∷ bytes "}"
          ∷ []
          ∷ [])
        [])

-- The location of one route.
unfoldable pub route_location : ServiceProxy → ℕ → Text
unfolding lines resolved_target_path
route_location route port =
    lines
      ((bytes "    location " ++ (route.path ++ bytes "/ {"))
        ∷ (bytes "        proxy_pass http://127.0.0.1:"
            ++ (decimal port ++ (resolved_target_path route ++ bytes "/;")))
        ∷ bytes "        proxy_http_version 1.1;"
        ∷ bytes "        proxy_set_header Host localhost;"
        ∷ bytes "        proxy_set_header X-Forwarded-Host $host;"
        ∷ bytes "        proxy_set_header X-Forwarded-Proto https;"
        ∷ bytes "    }"
        ∷ []
        ∷ [])
      []

-- The loop over the routes.
unfoldable pub route_locations : PortMap → List ServiceProxy → Result Text
unfolding route_location
route_locations ports [] = ok []
route_locations ports (route ∷ routes) =
    let rest = route_locations ports routes in
    elim (lookup route.to_service ports) [
      | none ↦
          err (bytes "proxy target service '" ++ (route.to_service ++ bytes "' not found in ports"))
      | some port ↦ rest >>= λ text. ok (route_location route port ++ text)
    ]

-- What an enabled server has in front of its routes, and behind them.
unfoldable pub server_head : Text → Text
unfolding lines
server_head server =
    lines
      (bytes "server {"
        ∷ bytes "    listen 80;"
        ∷ (bytes "    server_name " ++ (server ++ bytes ";"))
        ∷ []
        ∷ bytes "    error_page 502 /previewctl_502.html;"
        ∷ bytes "    error_page 503 /previewctl_503.html;"
        ∷ (page_location (bytes "previewctl_502.html")
            ++ (page_location (bytes "previewctl_503.html") ++ ([] ∷ []))))
      []

unfoldable pub server_tail : ℕ → Text
unfolding lines
server_tail port =
    lines
      (bytes "    location / {"
        ∷ (bytes "        proxy_pass http://127.0.0.1:" ++ (decimal port ++ bytes ";"))
        ∷ bytes "        proxy_http_version 1.1;"
        ∷ bytes "        proxy_set_header Upgrade $http_upgrade;"
        ∷ bytes "        proxy_set_header Connection \"upgrade\";"
        ∷ bytes "        proxy_set_header Host localhost;"
        ∷ bytes "        proxy_set_header X-Forwarded-Host $host;"
        ∷ bytes "        proxy_set_header X-Real-IP $remote_addr;"
        ∷ bytes "        proxy_set_header X-Forwarded-For $proxy_add_x_forwarded_for;"
        ∷ bytes "        proxy_set_header X-Forwarded-Proto https;"
        ∷ bytes "    }"
        ∷ bytes "}"
        ∷ []
        ∷ [])
      []

-- The block of one service.
unfoldable pub server_block :
    Manifest → (domain : Text) → (name : Text) → ServiceConfig → Result Text
unfolding enabled_names server_name disabled_server_block route_locations server_head server_tail
server_block manifest domain name svc =
    let server = server_name manifest.env_name name domain in
    elim (lookup name manifest.ports) [
      | none ↦ ok (disabled_server_block server)
      | some port ↦
          if elem name (enabled_names manifest)
          then (route_locations manifest.ports svc.proxy >>= λ routes.
              ok (server_head server ++ (routes ++ server_tail port)))
          else ok (disabled_server_block server)
    ]

-- The loop over the names, which are those of services.
unfoldable pub server_blocks :
    Map ServiceConfig → Manifest → (domain : Text) → List Text → Result Text
unfolding server_block
server_blocks services manifest domain [] = ok []
server_blocks services manifest domain (name ∷ names) =
    let rest = server_blocks services manifest domain names in
    elim (lookup name services) [
      | none ↦ rest
      | some svc ↦
          server_block manifest domain name svc >>= λ block. rest >>= λ text. ok (block ++ text)
    ]

unfoldable pub default_server : Text
unfolding lines
default_server =
    lines
      (bytes "server {"
        ∷ bytes "    listen 80 default_server;"
        ∷ []
        ∷ bytes "    error_page 404 /previewctl_404.html;"
        ∷ page_location (bytes "previewctl_404.html"))
      (lines
        ([]
          ∷ bytes "    location /health {"
          ∷ bytes "        return 200 \"ok\";"
          ∷ bytes "    }"
          ∷ []
          ∷ bytes "    location / {"
          ∷ bytes "        return 404;"
          ∷ bytes "    }"
          ∷ bytes "}"
          ∷ [])
        [])

-- `GenerateNginxConfig`
unfoldable pub generate_nginx_config : ProjectConfig → Manifest → Text → Result Text
unfolding lines server_blocks default_server
generate_nginx_config cfg manifest domain =
    server_blocks cfg.services manifest domain (sort (keys cfg.services)) >>= λ blocks. ok (
      lines
        (bytes "# Generated by previewctl — do not edit"
          ∷ bytes "server_names_hash_bucket_size 128;"
          ∷ []
          ∷ [])
        (blocks ++ default_server))
