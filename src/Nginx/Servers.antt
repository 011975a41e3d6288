-- ===== src/Nginx/Servers.antt =====
-- src/domain/nginx_generator.go: when the configuration can be generated.
use previewctl.Base.{
  is_ok, Text-cases, Bool, true, ◌&&◌, some, List, [], ◌∷◌, ◌≡◌, refl, ap, ◌∙◌, subst, ◌↔◌, inl,
  inr, arith, Text, Map, lookup, keys, if◌then◌else◌, is_some, Option-cases, elem, sort, elem-sort,
  elem-keys,
}
use previewctl.Config.{ProjectConfig, ServiceConfig, ServiceProxy}
use previewctl.Manifest.{Manifest}
use previewctl.Ports.{PortMap}
use previewctl.Nginx.{
  enabled_names, route_locations, server_block, server_blocks, generate_nginx_config,
}

-- Every route leads to a service that has a port.
unfoldable pub has_targets : PortMap → List ServiceProxy → Bool
has_targets ports [] = true
has_targets ports (route ∷ routes) =
    is_some (lookup route.to_service ports) && has_targets ports routes

-- A service that is enabled and has a port has only routes that lead to a port.
unfoldable pub is_routable : Manifest → Text → ServiceConfig → Bool
unfolding has_targets
is_routable manifest name svc =
    if elem name (enabled_names manifest) && is_some (lookup name manifest.ports)
    then has_targets manifest.ports svc.proxy
    else true

is_ok-route_locations :
    (ports : PortMap) (routes : List ServiceProxy)
    → is_ok (route_locations ports routes) ≡ has_targets ports routes
unfolding route_locations has_targets
is_ok-route_locations ports [] = refl
is_ok-route_locations ports (route ∷ routes) = ground (arith, is_ok-route_locations ports routes)

is_ok-server_block :
    (manifest : Manifest) (domain name : Text) (svc : ServiceConfig)
    → is_ok (server_block manifest domain name svc) ≡ is_routable manifest name svc
unfolding server_block is_routable
is_ok-server_block manifest domain name svc =
    ground (arith, is_ok-route_locations manifest.ports svc.proxy)

abbrev AllRoutable : Map ServiceConfig → Manifest → Type 0
AllRoutable services manifest =
    (name : Text) (svc : ServiceConfig)
    → lookup name services ≡ some svc
    → is_routable manifest name svc ≡ true

module _ (services : Map ServiceConfig) (manifest : Manifest) (domain : Text) where
  blocks-generated :
      (names : List Text)
      → AllRoutable services manifest
      → is_ok (server_blocks services manifest domain names) ≡ true
  unfolding server_blocks
  blocks-generated [] h = refl
  blocks-generated (name ∷ names) h = elim (Option-cases (lookup name services)) [
    | inl e ↦ ground (arith, e, blocks-generated names h)
    | inr e ↦ ground (
      arith,
      e.1,
      h name e.0 e.1,
      is_ok-server_block manifest domain name e.0,
      blocks-generated names h,
    )
  ]

  generated-routable :
      (names : List Text) (name : Text) (svc : ServiceConfig)
      → is_ok (server_blocks services manifest domain names) ≡ true
      → elem name names ≡ true
      → lookup name services ≡ some svc
      → is_routable manifest name svc ≡ true
  unfolding server_blocks elem
  generated-routable [] name svc h m l = absurd (ground (arith, m))
  generated-routable (n ∷ names) name svc h m l = elim (Text-cases n name) [
    | inl e ↦
        let here : lookup n services ≡ some svc = ap (λ (k : Text). lookup k services) e ∙ l in
        let block = is_ok-server_block manifest domain n svc in
        subst (λ (k : Text). is_routable manifest k svc ≡ true) e (ground (arith, h, here, block))
    | inr e ↦ elim (Option-cases (lookup n services)) [
      | inl q ↦ ground (arith, q, h, m, e, generated-routable names name svc, l)
      | inr q ↦ ground (arith, q.1, h, m, e, generated-routable names name svc, l)
    ]
  ]

-- The configuration of the proxy is generated exactly when each service that is enabled and has a
-- port has only routes to services that have a port. No service counts as enabled by the manifest
-- only if none is; then all that have a port do.
pub generate_nginx_config_decides :
    (cfg : ProjectConfig) (manifest : Manifest) (domain : Text)
    → (is_ok (generate_nginx_config cfg manifest domain) ≡ true) ↔ (
        (name : Text) (svc : ServiceConfig)
        → lookup name cfg.services ≡ some svc
        → is_routable manifest name svc ≡ true)
unfolding generate_nginx_config
generate_nginx_config_decides cfg manifest domain =
    let names = sort (keys cfg.services) in
    (
      λ h name svc l.
          generated-routable cfg.services manifest domain names name svc (ground (arith, h))
            (ground (arith, elem-sort name (keys cfg.services), elem-keys name cfg.services, l)) l,
      λ h. ground (arith, blocks-generated cfg.services manifest domain names h),
    )
