-- ===== src/Nginx/Samples.antt =====
-- A proxy for a service with a route to nowhere, and the theorem at it.
use previewctl.Base.{
  true, false, some, [], ◌∷◌, ◌≡◌, refl, ◌↔◌, Text, bytes, ◌==◌, lookup, keys, elem, is_ok,
}
use previewctl.Config.{ProjectConfig, ServiceConfig}
use previewctl.Manifest.{Manifest}
use previewctl.Nginx.{generate_nginx_config, enabled_names}
use previewctl.Nginx.Servers.{is_routable, has_targets, generate_nginx_config_decides}
use previewctl.Registry.Samples.{composed, manifest}
use previewctl.Validate.Samples.{web}

abbrev routed : ServiceConfig
routed = record web {
  proxy = record { path = bytes "/api"; target_path = []; to_service = bytes "gone" } ∷ [];
}

abbrev proxied : ProjectConfig
proxied = record composed { services = (bytes "web", routed) ∷ [] }

abbrev ported : Manifest
ported = record manifest { ports = (bytes "web", 61000) ∷ [] }

generate_nginx_config_decides_example :
    (is_ok (generate_nginx_config proxied ported (bytes "example.com")) ≡ true) ↔ (
      (name : Text) (svc : ServiceConfig)
      → lookup name proxied.services ≡ some svc
      → is_routable ported name svc ≡ true)
generate_nginx_config_decides_example =
    generate_nginx_config_decides proxied ported (bytes "example.com")

web-unroutable : is_routable ported (bytes "web") routed ≡ false
unfolding is_routable lookup elem bytes ◌==◌ enabled_names keys has_targets
web-unroutable = refl
