-- ===== src/Manifest/Samples.antt =====
-- The manifest of a configuration, and the theorems at it.
use previewctl.Base.{
  is_ok, true, none, some, [], ◌∷◌, ◌++◌, ◌≡◌, refl, arith, Text, bytes, ◌==◌, eq_iff, Map, lookup,
  keys, HasUniqueKeys, is_some, elem, err, sort, text_ltb,
}
use previewctl.Ports.{PortMap}
use previewctl.Template.{resolve_var}
use previewctl.Validate.Samples.{shop, shop_outputs, shop-accepted}
use previewctl.Manifest.{
  Manifest, ManifestService, template_context, build_manifest, render_env_file_content,
  env_file_paths,
}
use previewctl.Manifest.Build.{IsSupplied, accepted-build_manifest, shadowed-resolve_var}
use previewctl.Manifest.Files.{Writes, variable, render_env_file_content-same, env_file_paths_lem}

abbrev allocated : PortMap
allocated = (bytes "web", 61000) ∷ (bytes "pg", 61001) ∷ []

program : Unit {0}
unfolding lookup elem bytes ◌==◌
program = tt

shop-IsSupplied : IsSupplied shop allocated shop_outputs
unfolding program
shop-IsSupplied = record {
  service_port = λ s h. ground (arith, eq_iff (bytes "web") s, h);
  infra_port = λ s h. ground (arith, eq_iff (bytes "pg") s, h);
  apart = λ s h. ground (arith, eq_iff (bytes "pg") s, h);
  output = λ s o h. ground (arith, eq_iff (bytes "main") s, eq_iff (bytes "URL") o, h);
  named = refl;
}

accepted-build_manifest_example :
    is_ok
      (build_manifest shop (bytes "demo") (bytes "main") (bytes "local") allocated shop_outputs [])
    ≡ true
accepted-build_manifest_example =
    accepted-build_manifest shop (bytes "demo") allocated shop_outputs [] shop-IsSupplied
      (bytes "main") (bytes "local") (unfold lookup in (refl, tt)) shop-accepted

shadowed-resolve_var_example :
    resolve_var
      (bytes "infrastructure" ∷ bytes "web" ∷ bytes "port" ∷ [])
      (template_context shop (bytes "demo") allocated shop_outputs [])
    ≡ err (bytes "unknown infrastructure service '" ++ (bytes "web" ++ bytes "'"))
shadowed-resolve_var_example =
    shadowed-resolve_var shop (bytes "demo") allocated shop_outputs [] (bytes "web")
      (unfold lookup bytes ◌==◌ in refl)

abbrev first : Map Text
first = (bytes "B", bytes "2") ∷ (bytes "A", bytes "1") ∷ []

abbrev second : Map Text
second = (bytes "A", bytes "1") ∷ (bytes "B", bytes "2") ∷ []

first-HasUniqueKeys : HasUniqueKeys first
unfolding program
first-HasUniqueKeys = (refl, (refl, tt))

second-HasUniqueKeys : HasUniqueKeys second
unfolding program
second-HasUniqueKeys = (refl, (refl, tt))

first-second : (k : Text) → lookup k first ≡ lookup k second
unfolding program
first-second k = ground (arith, eq_iff (bytes "A") k, eq_iff (bytes "B") k)

render_env_file_content-first :
    render_env_file_content first
    ≡ bytes "# Generated by previewctl — do not edit"
      ++ (0x0a ∷ (bytes "A=1" ++ (0x0a ∷ (bytes "B=2" ++ (0x0a ∷ [])))))
unfolding program render_env_file_content sort text_ltb keys
render_env_file_content-first = refl

render_env_file_content-same_example :
    render_env_file_content first ≡ render_env_file_content second
render_env_file_content-same_example =
    render_env_file_content-same first second first-HasUniqueKeys second-HasUniqueKeys first-second

abbrev join_path : Text → Text → Text
join_path a b = a ++ (bytes "/" ++ b)

abbrev web : ManifestService
web = record { path = bytes "apps/web"; env_file = bytes ".env.local"; env = some first }

abbrev manifest : Manifest
manifest = record {
  version = 1;
  env_name = bytes "demo";
  project_name = bytes "shop";
  branch = bytes "main";
  mode = bytes "local";
  ports = allocated;
  provisioner_outputs = shop_outputs;
  services = (bytes "web", web) ∷ [];
  infrastructure = none;
  enabled_services = [];
}

env_file_paths_lem_example :
    let target = bytes "apps/web/.env.local" in
    ((name : Text) (svc : ManifestService)
      → lookup name manifest.services ≡ some svc
      → Writes join_path target (bytes "A") (bytes "1") svc
      → is_some (variable join_path target (bytes "A") (env_file_paths join_path manifest)) ≡ true)
    × (variable join_path target (bytes "A") (env_file_paths join_path manifest) ≡ some (bytes "1")
        → (name : Text) × (svc : ManifestService) × (lookup name manifest.services ≡ some svc)
          × Writes join_path target (bytes "A") (bytes "1") svc)
env_file_paths_lem_example =
    env_file_paths_lem join_path manifest (bytes "apps/web/.env.local") (bytes "A") (bytes "1")
      (unfold lookup in (refl, tt)) (first-HasUniqueKeys, tt)
